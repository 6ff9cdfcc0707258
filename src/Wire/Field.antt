-- ===== src/Wire/Field.antt =====
-- The remaining length as the MQTT standard describes it, against the functions of Wire.Length.
use fembed_lwip.Common.{ℕ, zero, suc, ◌+◌, ◌*◌, ◌/◌, ◌%◌, ◌^◌, ◌≤◌, ◌<◌, ◌≡◌, refl, ◌∙◌, arith}
use mathlib.Core.Path.{fun_ext}
use native.Mathlib.Nat.{div-add-mod, add-zero}
use native.Mathlib.Decide.{dec_lt}
use fembed_lwip.Common.{
  ◌||◌, ◌==◌, ap, Option, lt→ltb, le→ltb_false, ◌>>=◌, List, [], ◌∷◌, ◌++◌, some, length, ltb,
  if◌then◌else◌,
}
use fembed_lwip.Wire.Buffer.{Cursor, put_byte, emit}
use fembed_lwip.Wire.Reader.{read_char, bufchar}
use fembed_lwip.Wire.Source.{
  Delivers-one, bytes, Delivers-cons, Getfn, buf_getfn, Delivers, end, next,
}
use fembed_lwip.Wire.Length.{
  encode_loop, packet_encode, decode_loop, packet_decode, packet_decode_buf, packet_len,
}

-- Groups of seven bits, lowest first, with the top bit set on each but the last; `k` more groups at
-- most.
unfoldable pub length_groups : ℕ → ℕ → List ℕ
length_groups zero n = n ∷ []
length_groups (suc k) n =
    let rest = length_groups k (n / 128) in if ltb n 128 then n ∷ [] else (n % 128 + 128) ∷ rest

abbrev pub length_field : ℕ → List ℕ
length_field n = length_groups 4 n

pub length_groups_last : (k n : ℕ) → n < 128 → length_groups k n ≡ n ∷ []
unfolding length_groups
length_groups_last zero n h = refl
length_groups_last (suc k) n h = rw (lt→ltb _ _ h)

pub length_groups_more :
    (k n : ℕ) → 128 ≤ n → length_groups (suc k) n ≡ (n % 128 + 128) ∷ length_groups k (n / 128)
unfolding length_groups
length_groups_more k n h = rw (le→ltb_false _ _ h)

-- Room for more groups does not change the field.
pub length_groups_stable : (k n : ℕ) → n < 128 ^ suc k → length_groups (suc k) n ≡ length_groups k n
length_groups_stable zero n h =
    rw (length_groups_last 1 n (omega arith), length_groups_last 0 n (omega arith))
length_groups_stable (suc k) n h = elim (dec_lt n 128) [
  | yes e ↦ rw (length_groups_last (suc (suc k)) n e, length_groups_last (suc k) n e)
  | no e ↦ rw (
    length_groups_more (suc k) n (omega arith),
    length_groups_more k n (omega arith),
    length_groups_stable k (n / 128) (omega arith),
  )
]

encode_loop_last : (k n : ℕ) (c : Cursor) → n < 128 → encode_loop (suc k) n c ≡ put_byte n c
unfolding encode_loop
encode_loop_last k n c h = ground arith

encode_loop_more :
    (k n : ℕ) (c : Cursor)
    → 128 ≤ n
    → encode_loop (suc k) n c ≡ (put_byte (n % 128 + 128) c >>= λ c1. encode_loop k (n / 128) c1)
unfolding encode_loop
encode_loop_more k n c h = rw (lt→ltb 0 (n / 128) (omega arith), encode_loop)

emit_one : (b : ℕ) (c : Cursor) → emit (b ∷ []) c ≡ put_byte b c
unfolding emit put_byte
emit_one b c = ground arith

encode_loop-emit :
    (k n : ℕ) (c : Cursor) → n < 128 ^ suc k → encode_loop (suc k) n c ≡ emit (length_groups k n) c
unfolding emit
encode_loop-emit zero n c h =
    rw (encode_loop_last zero n c (omega arith), length_groups_last zero n (omega arith), emit_one)
encode_loop-emit (suc k) n c h = elim (dec_lt n 128) [
  | yes e ↦ rw (encode_loop_last (suc k) n c e, length_groups_last (suc k) n e, emit_one)
  | no e ↦ rw (
    encode_loop_more (suc k) n c (omega arith),
    length_groups_more k n (omega arith),
    fun_ext (λ c1. encode_loop-emit k (n / 128) c1 (omega arith)),
  )
]

-- On every `int` that is not negative the encoder writes the length field: its groups of seven
-- bits, lowest first, each but the last with the top bit set.
pub packet_encode-emit :
    (n : ℕ) → n < 2 ^ 31 → (c : Cursor) → packet_encode n c ≡ emit (length_field n) c
unfolding packet_encode
packet_encode-emit n h c = encode_loop-emit 4 n c (omega arith)

-- The field has four bytes at most below 2 ^ 28, and five on any other `int`.
pub length-length_groups :
    (k n : ℕ) → (1 ≤ length (length_groups k n)) × (length (length_groups k n) ≤ k + 1)
unfolding length_groups
length-length_groups zero n = omega arith
length-length_groups (suc k) n = ground (arith, length-length_groups k (n / 128))

same :
    {S : Type 0} (len v m n k : ℕ) (t : S)
    → ◌≡◌ {A = Option (ℕ × ℕ × S)}
        (some (len + 1 + k, v + n % 128 * m + n / 128 * (m * 128), t))
        (some (len + suc k, v + n * m, t))
same len v m n k t = ground (arith, ap (λ (x : ℕ). x * m) (div-add-mod n 128))

module _ {S : Type 0} (get : Getfn S) where
  decode_last :
      (fuel len v m b : ℕ) (s t : S)
      → len ≤ 3
      → b < 128
      → get 1 s ≡ some (bytes (b ∷ []), t)
      → decode_loop get (suc fuel) len v m s ≡ some (len + 1, v + b * m, t)
  unfolding decode_loop
  decode_last fuel len v m b s t hl hb e = ground arith

  decode_more :
      (fuel len v m b : ℕ) (s t : S)
      → len ≤ 3
      → b < 128
      → get 1 s ≡ some (bytes ((b + 128) ∷ []), t)
      → decode_loop get (suc fuel) len v m s
        ≡ decode_loop get fuel (len + 1) (v + b * m) (m * 128) t
  unfolding decode_loop
  decode_more fuel len v m b s t hl hb e = ground arith

  decode_loop-Delivers :
      (k fuel len v m n : ℕ) (s t : S)
      → k ≤ fuel
      → len + k ≤ 3
      → n < 128 ^ suc k
      → Delivers get s (length_groups k n) t
      → decode_loop get (suc fuel) len v m s ≡ some (len + length (length_groups k n), v + n * m, t)
  decode_loop-Delivers zero fuel len v m n s t hf hl hn d =
      rw (length_groups_last zero n (omega arith)) (
        decode_last fuel len v m n s t (omega arith) (omega arith)
          (Delivers-one (rw (length_groups_last zero n (omega arith)) at d)))
  decode_loop-Delivers (suc k) zero len v m n s t hf hl hn d = absurd (omega arith)
  decode_loop-Delivers (suc k) (suc fuel) len v m n s t hf hl hn d = elim (dec_lt n 128) [
    | yes e ↦ rw (length_groups_last (suc k) n e) (
        decode_last (suc fuel) len v m n s t (omega arith) e
          (Delivers-one (rw (length_groups_last (suc k) n e) at d)))
    | no e ↦
        let (t1, e1, d1) = Delivers-cons (rw (length_groups_more k n (omega arith)) at d) in
        rw
          (
            length_groups_more k n (omega arith),
            decode_more (suc fuel) len v m (n % 128) s t1 (omega arith) (omega arith) e1,
            decode_loop-Delivers k fuel (len + 1) (v + n % 128 * m) (m * 128) (n / 128) t1 t
                (omega arith) (omega arith) (omega arith) d1,
          )
          (same len v m n (length (length_groups k (n / 128))) t)
  ]

  -- Whatever source delivers the length field of an `n` below 2 ^ 28 byte for byte, the decoder
  -- reads it and no more, and returns `n` and the number of bytes.
  pub packet_decode-Delivers :
      (n : ℕ) (s t : S)
      → n < 2 ^ 28
      → Delivers get s (length_field n) t
      → packet_decode get s ≡ some (length (length_field n), n, t)
  unfolding packet_decode
  packet_decode-Delivers n s t h d =
      decode_groups (rw (length_groups_stable 3 n (omega arith)) at d)
      ∙ rw (length_groups_stable 3 n (omega arith), ends)
    where
      decode_groups :
          Delivers get s (length_groups 3 n) t
          → decode_loop get 5 0 0 1 s ≡ some (0 + length (length_groups 3 n), 0 + n * 1, t)
      decode_groups = decode_loop-Delivers 3 4 0 0 1 n s t (omega arith) (omega arith) (omega arith)

      ends :
          ◌≡◌ {A = Option (ℕ × ℕ × S)}
            (some (0 + length (length_groups 3 n), 0 + n * 1, t))
            (some (length (length_groups 3 n), n, t))
      ends = ground arith

-- The values at which `MQTTPacket_len` counts one byte too many: it compares the length with the
-- header byte added to it, and with 2097151 for 2097152.
abbrev pub overcounted : ℕ → ℕ
overcounted n = if n == 127 || n == 16383 || n == 2097150 || n == 2097151 then 1 else 0

-- Below 2 ^ 28 `MQTTPacket_len` is the header byte, the length field and the rest, and one more at
-- exactly four values: never less than the packet has.
pub packet_len_exact :
    (n : ℕ) → n < 2 ^ 28 → packet_len n ≡ 1 + length (length_field n) + n + overcounted n
unfolding packet_len length_groups
packet_len_exact n h = ground arith

-- A buffer from which the field and anything else can be read delivers the field.
Delivers-buffer :
    (bs : List ℕ) (p : ℕ) (rest : List ℕ)
    → Delivers buf_getfn
        (record { position = p; rest = bs ++ rest })
        bs
        (record { position = p + length bs; rest = rest })
unfolding buf_getfn bufchar read_char
Delivers-buffer [] p rest = rw (add-zero p) end
Delivers-buffer (b ∷ bs) p rest =
    rw (shift p (length bs)) (next refl (Delivers-buffer bs (p + 1) rest))
  where
    shift : (p n : ℕ) → p + suc n ≡ p + 1 + n
    shift p n = omega arith

-- `MQTTPacket_decodeBuf` reads back the length field of any value below 2 ^ 28, wherever it stands
-- and whatever follows it.
pub packet_decode_buf-length_field :
    (n p : ℕ) (rest : List ℕ)
    → n < 2 ^ 28
    → packet_decode_buf (record { position = p; rest = length_field n ++ rest })
      ≡ some (
        length (length_field n),
        n,
        record { position = p + length (length_field n); rest = rest },
      )
unfolding packet_decode_buf
packet_decode_buf-length_field n p rest h =
    packet_decode-Delivers buf_getfn n _ _ h (Delivers-buffer (length_field n) p rest)

-- A length below 128 is one byte.
pub packet_decode_buf_one :
    (n p : ℕ) (rest : List ℕ)
    → n < 128
    → packet_decode_buf (record { position = p; rest = n ∷ rest })
      ≡ some (1, n, record { position = p + 1; rest = rest })
packet_decode_buf_one n p rest h =
    rw (length_groups_last 4 n h) at (packet_decode_buf-length_field n p rest (omega arith))
