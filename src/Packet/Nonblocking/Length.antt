-- ===== src/Packet/Nonblocking/Length.antt =====
-- MQTTPacket_decodenb of paho/MQTTPacket/src/MQTTPacket.c over a source that pauses.
use fembed_lwip.Common.{
  ℕ, zero, suc, ◌+◌, ◌*◌, ◌/◌, ◌%◌, ◌^◌, ◌≤◌, ◌<◌, ◌≡◌, sym, ap, arith, ℤ, pos, List, [], ◌∷◌, ◌++◌,
  Option, some,
}
use native.Mathlib.Decide.{dec_lt}
use native.Mathlib.Nat.{div-add-mod}
use fembed_lwip.Wire.Source.{Getfn, bytes}
use fembed_lwip.Wire.Field.{length_groups, length_groups_last, length_groups_more}
use fembed_lwip.Packet.Nonblocking.{Transport, decode_nb_loop, decode_nb}
use fembed_lwip.Packet.Nonblocking.Pieces.{
  pieces_getfn, joined, pending, pause, one, pieces_getfn-One,
}

-- The groups of `n` are still to come, `k` more than one at most; with them the length is `total`.
pub record Halfway (total : ℕ) (trp : Transport) (k n : ℕ) : Type 0 where
  pub in_length : trp.state ≡ 1
  pub few : trp.len + k ≤ 3
  pub bound : n < 128 ^ suc k
  pub value : trp.rem_len + n * trp.multiplier ≡ total
  pub initial : trp.len ≡ 0 → (trp.multiplier ≡ 1) × (trp.rem_len ≡ 0)

-- How a call ends: with the whole length, or with a pause.
pub data Decoded (total : ℕ) (rest : List ℕ) (p : ℕ)
    (result : Option (ℤ × Transport × List (List ℕ))) : Type 0 where
  whole :
      (count : ℕ) (trp : Transport) (ds : List (List ℕ))
      → result ≡ some (pos (suc count), trp, ds)
      → trp.rem_len ≡ total
      → trp.state ≡ 1
      → joined ds ≡ rest
      → pending ds < p
      → Decoded total rest p result
  paused :
      (k n : ℕ) (trp : Transport) (ds : List (List ℕ))
      → result ≡ some (pos 0, trp, ds)
      → Halfway total trp k n
      → joined ds ≡ length_groups k n ++ rest
      → pending ds < p
      → Decoded total rest p result

-- The transport after the byte `c`.
abbrev stored : Transport → ℕ → Transport
stored trp c = record trp {
  len = trp.len + 1;
  rem_len = trp.rem_len + c % 128 * trp.multiplier;
  multiplier = trp.multiplier * 128;
}

module _ {S : Type 0} (get : Getfn S) where
  nb_pause :
      (fuel : ℕ) (trp : Transport) (s t : S)
      → trp.len ≤ 3
      → get 1 s ≡ some (bytes [], t)
      → decode_nb_loop get (suc fuel) trp s ≡ some (pos 0, trp, t)
  unfolding decode_nb_loop
  nb_pause fuel trp s t h e = ground arith

  nb_last :
      (fuel b : ℕ) (trp : Transport) (s t : S)
      → trp.len ≤ 3
      → b < 128
      → get 1 s ≡ some (bytes (b ∷ []), t)
      → decode_nb_loop get (suc fuel) trp s ≡ some (pos (suc trp.len), stored trp b, t)
  unfolding decode_nb_loop
  nb_last fuel b trp s t h hb e = ground arith

  nb_more :
      (fuel b : ℕ) (trp : Transport) (s t : S)
      → trp.len ≤ 3
      → get 1 s ≡ some (bytes ((b % 128 + 128) ∷ []), t)
      → decode_nb_loop get (suc fuel) trp s ≡ decode_nb_loop get fuel (stored trp (b % 128 + 128)) t
  unfolding decode_nb_loop
  nb_more fuel b trp s t h e = ground arith

total_step :
    (total v n m : ℕ)
    → v + n * m ≡ total
    → v + (n % 128 + 128) % 128 * m + n / 128 * (m * 128) ≡ total
total_step total v n m e =
    let low : (n % 128 + 128) % 128 ≡ n % 128 = omega arith in
    rw low (ground (arith, ap (λ (x : ℕ). x * m) (div-add-mod n 128)))

total_last : (total v n m : ℕ) → n < 128 → v + n * m ≡ total → v + n % 128 * m ≡ total
total_last total v n m h e = let low : n % 128 ≡ n = omega arith in rw low e

stored-Halfway :
    (total k n : ℕ) (trp : Transport)
    → 128 ≤ n
    → Halfway total trp (suc k) n
    → Halfway total (stored trp (n % 128 + 128)) k (n / 128)
stored-Halfway total k n trp h i = record {
  in_length = i.in_length;
  few = omega (arith, i.few);
  bound = omega (arith, i.bound);
  value = total_step total trp.rem_len n trp.multiplier i.value;
  initial = λ e. absurd (omega arith);
}

no_more : (total n : ℕ) (trp : Transport) → Halfway total trp 0 n → n < 128
no_more total n trp i = omega (arith, i.bound)

Decoded_sooner :
    (total : ℕ) (rest : List ℕ) (p q : ℕ) {result : Option (ℤ × Transport × List (List ℕ))}
    → p < q
    → Decoded total rest p result
    → Decoded total rest q result
Decoded_sooner total rest p q h (whole count trp ds e v st j l) =
    whole count trp ds e v st j (omega arith)
Decoded_sooner total rest p q h (paused k n trp ds e i j l) = paused k n trp ds e i j (omega arith)

-- The last group is the byte asked for.
decode_last :
    (total k n fuel : ℕ) (rest : List ℕ) (trp : Transport) (cs : List (List ℕ))
    → n < 128
    → Halfway total trp k n
    → joined cs ≡ n ∷ rest
    → Decoded total rest (pending cs) (decode_nb_loop pieces_getfn (suc fuel) trp cs)
decode_last total k n fuel rest trp cs h i e = elim (pieces_getfn-One n rest cs e) [
  | pause ds p j l ↦
      paused k n trp ds (nb_pause pieces_getfn fuel trp cs ds (omega (arith, i.few)) p) i
        (rw (length_groups_last k n h) j) l
  | one ds p j l ↦
      whole trp.len (stored trp n) ds
        (nb_last pieces_getfn fuel n trp cs ds (omega (arith, i.few)) h p)
        (total_last total trp.rem_len n trp.multiplier h i.value) i.in_length j l
]

-- A group that is not the last.
decode_more :
    (total k n fuel : ℕ) (rest : List ℕ) (trp : Transport) (cs : List (List ℕ))
    → 128 ≤ n
    → Halfway total trp (suc k) n
    → joined cs ≡ (n % 128 + 128) ∷ length_groups k (n / 128) ++ rest
    → ((ds : List (List ℕ))
        → joined ds ≡ length_groups k (n / 128) ++ rest
        → Decoded total rest
            (pending ds)
            (decode_nb_loop pieces_getfn (suc fuel) (stored trp (n % 128 + 128)) ds))
    → Decoded total rest (pending cs) (decode_nb_loop pieces_getfn (suc (suc fuel)) trp cs)
decode_more total k n fuel rest trp cs h i e later =
    elim (pieces_getfn-One (n % 128 + 128) (length_groups k (n / 128) ++ rest) cs e) [
      | pause ds p j l ↦
          paused (suc k) n trp ds
            (nb_pause pieces_getfn (suc fuel) trp cs ds (omega (arith, i.few)) p) i
            (rw (length_groups_more k n h) j) l
      | one ds p j l ↦
          rw (nb_more pieces_getfn (suc fuel) n trp cs ds (omega (arith, i.few)) p)
            (Decoded_sooner total rest (pending ds) (pending cs) l (later ds j))
    ]

pub decode_nb_loop-Decoded :
    (total k n fuel : ℕ) (rest : List ℕ) (trp : Transport) (cs : List (List ℕ))
    → k ≤ fuel
    → Halfway total trp k n
    → joined cs ≡ length_groups k n ++ rest
    → Decoded total rest (pending cs) (decode_nb_loop pieces_getfn (suc fuel) trp cs)
decode_nb_loop-Decoded total zero n fuel rest trp cs hf i e =
    decode_last total 0 n fuel rest trp cs (no_more total n trp i) i
      (rw (length_groups_last 0 n (no_more total n trp i)) at e)
decode_nb_loop-Decoded total (suc k) n zero rest trp cs hf i e = absurd (omega arith)
decode_nb_loop-Decoded total (suc k) n (suc fuel) rest trp cs hf i e = elim (dec_lt n 128) [
  | yes h ↦
      decode_last total (suc k) n (suc fuel) rest trp cs h i
        (rw (length_groups_last (suc k) n h) at e)
  | no h ↦
      decode_more total k n fuel rest trp cs (omega arith) i
        (rw (length_groups_more k n (omega arith)) at e)
        (λ ds.
          decode_nb_loop-Decoded total k (n / 128) fuel rest (stored trp (n % 128 + 128)) ds
            (omega arith) (stored-Halfway total k n trp (omega arith) i))
]

-- Setting up again a transport that no byte has changed.
nb_ready :
    (trp : Transport) (cs : List (List ℕ))
    → (trp.len ≡ 0 → (trp.multiplier ≡ 1) × (trp.rem_len ≡ 0))
    → decode_nb pieces_getfn trp cs ≡ decode_nb_loop pieces_getfn 5 trp cs
unfolding decode_nb
nb_ready trp cs h = elim (dec_lt 0 trp.len) [
  | yes l ↦ ground arith
  | no l ↦ let (e1, e2) = h (omega arith) in rw (sym e1, sym e2) (ground arith)
]

-- One call of MQTTPacket_decodenb.
pub decode_nb-Decoded :
    (total k n : ℕ) (rest : List ℕ) (trp : Transport) (cs : List (List ℕ))
    → Halfway total trp k n
    → joined cs ≡ length_groups k n ++ rest
    → Decoded total rest (pending cs) (decode_nb pieces_getfn trp cs)
unfolding decode_nb
decode_nb-Decoded total k n rest trp cs i e =
    rw (nb_ready trp cs i.initial)
      (decode_nb_loop-Decoded total k n 4 rest trp cs (omega (arith, i.few)) i e)
