-- ===== src/Packet/Nonblocking/Pieces.antt =====
-- A source that delivers bytes in pieces, with pauses, and a caller that calls MQTTPacket_readnb until
-- it has a packet.
use fembed_lwip.Common.{
  ℕ, zero, suc, ◌+◌, ◌≤◌, ◌<◌, ◌≡◌, refl, ◌∙◌, arith, ℤ, pos, List, [], ◌∷◌, ◌++◌, true, false,
  Option, none, some, ◌>>=◌, take, drop, length, leb, if◌then◌else◌, eq_ℤ, le→leb, lt→leb_false,
}
use fembed_lwip.Wire.Source.{bytes, Getfn}
use fembed_lwip.Packet.Nonblocking.{Transport, packet_readnb}

-- Each call takes from the first piece; an empty piece is a pause, and so is the end.
unfoldable pub pieces_getfn : Getfn (List (List ℕ))
pieces_getfn n [] = some (bytes [], [])
pieces_getfn n (c ∷ cs) =
    if leb (length c) n then some (bytes c, cs) else some (bytes (take n c), drop n c ∷ cs)

unfoldable pub joined : List (List ℕ) → List ℕ
joined [] = []
joined (c ∷ cs) = c ++ joined cs

-- What falls with each call.
abbrev pub pending : List (List ℕ) → ℕ
pending cs = length (joined cs) + length cs

-- Calls until one does not ask to be called again.
unfoldable pub poll :
    ℕ → List ℕ → ℕ → Transport → List (List ℕ) → Option (ℤ × List ℕ × Transport × List (List ℕ))
poll zero buf buflen trp cs = none
poll (suc fuel) buf buflen trp cs =
    packet_readnb pieces_getfn buf buflen trp cs >>= λ (rc, buf1, trp1, ds).
    elim (eq_ℤ rc (pos 0)) [
      | true ↦ poll fuel buf1 buflen trp1 ds
      | false ↦ some (rc, buf1, trp1, ds)
    ]

-- The calls end with `rc` and the buffer `buf`; `rest` is still to be delivered.
abbrev pub Finishes : ℤ → List ℕ → List ℕ → Option (ℤ × List ℕ × Transport × List (List ℕ)) → Type 0
Finishes rc buf rest result =
    (trp : Transport) × (cs : List (List ℕ)) × (result ≡ some (rc, buf, trp, cs))
    × (trp.state ≡ 0)
    × (joined cs ≡ rest)

pub poll_again :
    (fuel : ℕ) (buf buf1 : List ℕ) (buflen : ℕ) (trp trp1 : Transport) (cs ds : List (List ℕ))
    → packet_readnb pieces_getfn buf buflen trp cs ≡ some (pos 0, buf1, trp1, ds)
    → poll (suc fuel) buf buflen trp cs ≡ poll fuel buf1 buflen trp1 ds
unfolding poll
poll_again fuel buf buf1 buflen trp trp1 cs ds e = rw e refl

pub poll_done :
    (fuel n : ℕ) (buf buf1 : List ℕ) (buflen : ℕ) (trp trp1 : Transport) (cs ds : List (List ℕ))
    → 0 < n
    → packet_readnb pieces_getfn buf buflen trp cs ≡ some (pos n, buf1, trp1, ds)
    → poll (suc fuel) buf buflen trp cs ≡ some (pos n, buf1, trp1, ds)
unfolding poll
poll_done fuel n buf buf1 buflen trp trp1 cs ds h e = rw e (ground arith)

-- A piece that is not longer than what is left of the packet is a part of it.
pub split_le :
    (c body xs rest : List ℕ)
    → length c ≤ length body
    → c ++ xs ≡ body ++ rest
    → (more : List ℕ) × (body ≡ c ++ more) × (xs ≡ more ++ rest)
split_le [] body xs rest h e = (body, refl, e)
split_le (x ∷ c) [] xs rest h e = absurd (omega arith)
split_le (x ∷ c) (y ∷ body) xs rest h e =
    let (more, e1, e2) = split_le c body xs rest (omega arith) (cc) in (more, cc, e2)

-- A longer piece starts with it.
pub split_gt :
    (c body xs rest : List ℕ)
    → length body ≤ length c
    → c ++ xs ≡ body ++ rest
    → (take (length body) c ≡ body) × (drop (length body) c ++ xs ≡ rest)
split_gt c [] xs rest h e = (refl, e)
split_gt [] (y ∷ body) xs rest h e = absurd (omega arith)
split_gt (x ∷ c) (y ∷ body) xs rest h e =
    let (e1, e2) = split_gt c body xs rest (omega arith) (cc) in (cc, e2)

pub pieces_whole :
    (n : ℕ) (c : List ℕ) (cs : List (List ℕ))
    → length c ≤ n
    → pieces_getfn n (c ∷ cs) ≡ some (bytes c, cs)
unfolding pieces_getfn
pieces_whole n c cs h = rw (le→leb _ _ h) refl

pub pieces_front :
    (n : ℕ) (c : List ℕ) (cs : List (List ℕ))
    → n < length c
    → pieces_getfn n (c ∷ cs) ≡ some (bytes (take n c), drop n c ∷ cs)
unfolding pieces_getfn
pieces_front n c cs h = rw (lt→leb_false _ _ h) refl

-- One byte is asked for: it comes, or there is a pause.
pub data One (b : ℕ) (bs : List ℕ) (cs : List (List ℕ)) : Type 0 where
  pause :
      (ds : List (List ℕ))
      → pieces_getfn 1 cs ≡ some (bytes [], ds)
      → joined ds ≡ b ∷ bs
      → pending ds < pending cs
      → One b bs cs
  one :
      (ds : List (List ℕ))
      → pieces_getfn 1 cs ≡ some (bytes (b ∷ []), ds)
      → joined ds ≡ bs
      → pending ds < pending cs
      → One b bs cs

pub pieces_getfn-One : (b : ℕ) (bs : List ℕ) (cs : List (List ℕ)) → joined cs ≡ b ∷ bs → One b bs cs
unfolding joined pieces_getfn
pieces_getfn-One b bs [] e = absurd (cc)
pieces_getfn-One b bs ([] ∷ cs) e = pause cs refl e (omega arith)
pieces_getfn-One b bs ((x ∷ []) ∷ cs) e =
    let same : x ≡ b = cc in one cs (rw same refl) (cc) (omega arith)
pieces_getfn-One b bs ((x ∷ y ∷ c) ∷ cs) e =
    let same : x ≡ b = cc in
    one ((y ∷ c) ∷ cs) (pieces_front 1 (x ∷ y ∷ c) cs (omega arith) ∙ rw same refl) (cc)
      (omega arith)

-- A call that does what another would do.
pub poll_same :
    (fuel : ℕ) (buf buf1 : List ℕ) (buflen : ℕ) (trp trp1 : Transport) (cs ds : List (List ℕ))
    → packet_readnb pieces_getfn buf buflen trp cs ≡ packet_readnb pieces_getfn buf1 buflen trp1 ds
    → poll (suc fuel) buf buflen trp cs ≡ poll (suc fuel) buf1 buflen trp1 ds
unfolding poll
poll_same fuel buf buf1 buflen trp trp1 cs ds e = rw e refl
