-- ===== src/Packet/Nonblocking/Polls.antt =====
-- Calling MQTTPacket_readnb while the body arrives.
use fembed_lwip.Common.{
  ℕ, zero, suc, ◌+◌, ◌≤◌, ◌<◌, ◌≡◌, refl, sym, ap, ◌∙◌, arith, pos, List, [], ◌∷◌, ◌++◌, some, drop,
  drop-drop, length, length-append, length-drop, append_assoc, append-nil,
}
use native.Mathlib.Decide.{dec_lt}
use mathlib.Core.Path.{subst}
use fembed_lwip.Wire.Source.{bytes}
use fembed_lwip.Packet.Header.{of_byte}
use fembed_lwip.Packet.Nonblocking.{Transport, packet_readnb, read_nb_body}
use fembed_lwip.Packet.Nonblocking.Body.{body_pause, body_empty, body_part, body_last}
use fembed_lwip.Packet.Nonblocking.Pieces.{
  pieces_getfn, joined, pending, poll, Finishes, poll_again, poll_done, split_le, split_gt,
  pieces_whole, pieces_front,
}

-- The transport when `n` bytes are stored and `left` are awaited.
abbrev pub awaiting : ℕ → ℕ → ℕ → Transport
awaiting multiplier n left = record { multiplier = multiplier; rem_len = left; len = n; state = 2 }

-- A packet stored in two steps.
pub rejoin :
    (front a b back : List ℕ)
    → (front ++ a) ++ (b ++ drop (length b) (drop (length a) back))
      ≡ front ++ ((a ++ b) ++ drop (length (a ++ b)) back)
rejoin front a b back =
    rw
      (
        length-append a b,
        drop-drop (length a) (length b) back,
        append_assoc front a (b ++ drop (length a + length b) back),
        append_assoc a b (drop (length a + length b) back),
      )
      refl

awaiting_eq :
    {n n' left left' : ℕ} (m : ℕ) → n ≡ n' → left ≡ left' → awaiting m n left ≡ awaiting m n' left'
awaiting_eq m e1 e2 = rw (e1, e2) refl

module _ (byte buflen : ℕ) (rest : List ℕ) (h : 0 < (of_byte byte).msg_type) where
  -- A call in state 2.
  in_body :
      (buf : List ℕ) (m n left : ℕ) (cs : List (List ℕ))
      → packet_readnb pieces_getfn buf buflen (awaiting m n left) cs
        ≡ read_nb_body pieces_getfn buf (awaiting m n left) cs
  unfolding packet_readnb
  in_body buf m n left cs = refl

  -- With `back` behind the stored `front` in the buffer, the body `body` awaited and `fuel` calls, the
  -- packet is completed.
  abbrev Completes : ℕ → List (List ℕ) → List ℕ → List ℕ → ℕ → List ℕ → Type 0
  Completes fuel cs front back m body =
      Finishes (pos (of_byte byte).msg_type) (byte ∷ front ++ (body ++ drop (length body) back))
        rest
        (poll fuel (byte ∷ front ++ back) buflen (awaiting m (suc (length front)) (length body)) cs)

  abbrev pub PollsBody : ℕ → Type 0
  PollsBody fuel =
      (cs : List (List ℕ)) (front back body : List ℕ) (m : ℕ)
      → joined cs ≡ body ++ rest
      → pending cs < fuel
      → length body ≤ length back
      → Completes fuel cs front back m body

  -- The rest of the body in one piece.
  poll_last :
      (fuel : ℕ) (x : ℕ) (c front back : List ℕ) (m : ℕ) (cs ds : List (List ℕ))
      → pieces_getfn (length (x ∷ c)) cs ≡ some (bytes (x ∷ c), ds)
      → joined ds ≡ rest
      → length (x ∷ c) ≤ length back
      → Completes (suc fuel) cs front back m (x ∷ c)
  poll_last fuel x c front back m cs ds e j hb = (
    record { multiplier = m; rem_len = 0; len = suc (length front) + length (x ∷ c); state = 0 },
    ds,
    rw (append_assoc front (x ∷ c) (drop (length (x ∷ c)) back)) at (
        poll_done fuel _ _ _ buflen _ _ cs ds h (
          in_body (byte ∷ front ++ back) m (suc (length front)) (length (x ∷ c)) cs
          ∙ body_last pieces_getfn byte front back c x
              (awaiting m (suc (length front)) (length (x ∷ c))) cs ds e refl refl hb)),
    refl,
    j,
  )

  -- A part of the body.
  poll_part :
      (fuel : ℕ) (x y : ℕ) (c front back more : List ℕ) (m : ℕ) (cs : List (List ℕ))
      → PollsBody fuel
      → joined cs ≡ (y ∷ more) ++ rest
      → pending ((x ∷ c) ∷ cs) < suc fuel
      → length ((x ∷ c) ++ y ∷ more) ≤ length back
      → Completes (suc fuel) ((x ∷ c) ∷ cs) front back m ((x ∷ c) ++ y ∷ more)
  unfolding joined
  poll_part fuel x y c front back more m cs ih j p hb =
      let n : ℕ = length (x ∷ c) in
      let k : ℕ = length (y ∷ more) in
      let lm : length (c ++ y ∷ more) ≡ length c + k = length-append c (y ∷ more) in
      let lf : length (front ++ x ∷ c) ≡ length front + n = length-append front (x ∷ c) in
      let later : Completes fuel cs (front ++ x ∷ c) (drop n back) m (y ∷ more) =
        ih cs (front ++ x ∷ c) (drop n back) (y ∷ more) m j
          (omega (arith, length-append c (joined cs))) (omega (arith, length-drop n back)) in
      let call : packet_readnb pieces_getfn (byte ∷ front ++ back) buflen
            (awaiting m (suc (length front)) (suc (length c + k))) ((x ∷ c) ∷ cs)
          ≡ some (
            pos 0,
            byte ∷ (front ++ x ∷ c) ++ drop n back,
            awaiting m (suc (length (front ++ x ∷ c))) k,
            cs,
          ) =
        in_body (byte ∷ front ++ back) m (suc (length front)) (suc (length c + k)) ((x ∷ c) ∷ cs)
        ∙ body_part pieces_getfn (byte ∷ front) back c x
            (awaiting m (suc (length front)) (suc (length c + k))) ((x ∷ c) ∷ cs) cs
            (pieces_whole _ (x ∷ c) cs (omega arith)) refl (omega arith) (omega arith)
        ∙ ap (λ t. some (pos 0, byte ∷ (front ++ x ∷ c) ++ drop n back, t, cs))
            (awaiting_eq m (omega arith) (omega arith)) in
      rw (lm, poll_again fuel _ _ buflen _ _ _ cs call)
        (subst
          (λ l. Finishes (pos (of_byte byte).msg_type) (byte ∷ l) rest (
            poll fuel (byte ∷ (front ++ x ∷ c) ++ drop n back) buflen
              (awaiting m (suc (length (front ++ x ∷ c))) k) cs))
          (rejoin front (x ∷ c) (y ∷ more) back) later)

  poll_piece :
      (fuel : ℕ) (x : ℕ) (c front back more : List ℕ) (m : ℕ) (cs : List (List ℕ))
      → PollsBody fuel
      → joined cs ≡ more ++ rest
      → pending ((x ∷ c) ∷ cs) < suc fuel
      → length ((x ∷ c) ++ more) ≤ length back
      → Completes (suc fuel) ((x ∷ c) ∷ cs) front back m ((x ∷ c) ++ more)
  poll_piece fuel x c front back [] m cs ih j p hb =
      subst (Completes (suc fuel) ((x ∷ c) ∷ cs) front back m) (sym (append-nil (x ∷ c))) (
        poll_last fuel x c front back m ((x ∷ c) ∷ cs) cs
          (pieces_whole (length (x ∷ c)) (x ∷ c) cs (omega arith)) j
          (omega (arith, length-append c [])))
  poll_piece fuel x c front back (y ∷ more) m cs ih j p hb =
      poll_part fuel x y c front back more m cs ih j p hb

  pub poll_body : (fuel : ℕ) → PollsBody fuel
  unfolding joined
  poll_body zero cs front back body m j p hb = absurd (omega arith)
  poll_body (suc fuel) cs front back [] m j p hb = (
    _,
    cs,
    poll_done fuel _ _ _ buflen _ _ cs cs h (
        in_body (byte ∷ front ++ back) m (suc (length front)) 0 cs
        ∙ body_empty pieces_getfn byte (front ++ back) (awaiting m (suc (length front)) 0) cs refl),
    refl,
    j,
  )
  poll_body (suc fuel) [] front back (y ∷ body) m j p hb = absurd (cc)
  poll_body (suc fuel) ([] ∷ cs) front back (y ∷ body) m j p hb =
      rw
        (poll_again fuel _ _ buflen _ _ _ cs (
          in_body (byte ∷ front ++ back) m (suc (length front)) (length (y ∷ body)) ([] ∷ cs)
          ∙ body_pause pieces_getfn (byte ∷ front ++ back)
              (awaiting m (suc (length front)) (length (y ∷ body))) ([] ∷ cs) cs (omega arith)
              (pieces_whole (length (y ∷ body)) [] cs (omega arith))))
        (poll_body fuel cs front back (y ∷ body) m j (omega arith) hb)
  poll_body (suc fuel) ((x ∷ c) ∷ cs) front back (y ∷ body) m j p hb =
      elim (dec_lt (length (y ∷ body)) (length (x ∷ c))) [
        | yes l ↦
            let (e1, e2) = split_gt (x ∷ c) (y ∷ body) (joined cs) rest (omega arith) j in
            poll_last fuel y body front back m ((x ∷ c) ∷ cs)
              (drop (length (y ∷ body)) (x ∷ c) ∷ cs)
              (rw e1 at (pieces_front (length (y ∷ body)) (x ∷ c) cs l)) e2 hb
        | no ge ↦
            let (more, e1, e2) = split_le (x ∷ c) (y ∷ body) (joined cs) rest (omega arith) j in
            subst (Completes (suc fuel) ((x ∷ c) ∷ cs) front back m) (sym e1) (
              poll_piece fuel x c front back more m cs (poll_body fuel) e2 p
                (subst (λ b. length b ≤ length back) e1 hb))
      ]
