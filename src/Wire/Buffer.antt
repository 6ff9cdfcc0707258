-- ===== src/Wire/Buffer.antt =====
-- The pointers that the serialisers write through: writeChar, writeInt, memcpy of
-- paho/MQTTPacket/src/MQTTPacket.c.
use fembed_lwip.Common.{ℕ, zero, suc, ◌/◌, ◌%◌, ◌≤◌, ◌<◌, ◌≡◌, refl, sym, ◌∙◌, arith}
use fembed_lwip.Common.{List, [], ◌∷◌, ◌++◌, Option, none, some, ◌>>=◌, length, drop}
use fembed_lwip.Common.{append-nil, append_assoc, bind_assoc}

-- A buffer and the pointer `ptr` into it: the bytes below `ptr`, and those from it to the end of
-- the object.
pub record Cursor : Type 0 where
  pub before : List ℕ
  pub after : List ℕ

-- `ptr = buf`
abbrev pub start : List ℕ → Cursor
start buf = record { before = []; after = buf }

-- `ptr - buf`
abbrev pub offset : Cursor → ℕ
offset c = length c.before

-- What the buffer holds.
abbrev pub contents : Cursor → List ℕ
contents c = c.before ++ c.after

-- `*ptr++ = b` for a byte `b`
unfoldable pub put_byte : ℕ → Cursor → Option Cursor
put_byte b c = elim c.after [
  | [] ↦ none
  | _ ∷ rest ↦ some (record { before = c.before ++ b ∷ []; after = rest })
]

-- The conversion to a character keeps the low eight bits.
unfoldable pub write_char : ℕ → Cursor → Option Cursor
write_char ch c = put_byte (ch % 256) c

unfoldable pub write_int : ℕ → Cursor → Option Cursor
write_int an_int c = do c1 ← put_byte (an_int / 256 % 256) c; put_byte (an_int % 256 % 256) c1

-- `memcpy(ptr, src, n); ptr += n`, with `src` the object from that pointer on
unfoldable pub copy : ℕ → List ℕ → Cursor → Option Cursor
copy zero src c = some c
copy (suc n) [] c = none
copy (suc n) (b ∷ src) c = do c1 ← put_byte b c; copy n src c1

-- The bytes of `bs`, one after the other: what the writers are compared with.
unfoldable pub emit : List ℕ → Cursor → Option Cursor
emit [] c = some c
emit (b ∷ bs) c = do c1 ← put_byte b c; emit bs c1

-- A two-byte number, high byte first.
abbrev pub int_bytes : ℕ → List ℕ
int_bytes n = (n / 256 % 256) ∷ (n % 256) ∷ []

pub emit-append :
    (xs ys : List ℕ) (c : Cursor) → emit (xs ++ ys) c ≡ (emit xs c >>= λ c1. emit ys c1)
unfolding emit
emit-append [] ys c = refl
emit-append (x ∷ xs) ys c = simp (emit-append xs ys, bind_assoc)

-- Two writes in a row, with what follows them.
pub emit-emit {ℓ} :
    {B : Type ℓ} (xs ys : List ℕ) (c : Cursor) (k : Cursor → Option B)
    → (emit xs c >>= λ c1. emit ys c1 >>= k) ≡ (emit (xs ++ ys) c >>= k)
emit-emit xs ys c k = sym (bind_assoc (emit xs c) (λ c1. emit ys c1) k) ∙ rw emit-append

pub write_char-emit : (ch : ℕ) (c : Cursor) → write_char ch c ≡ emit ((ch % 256) ∷ []) c
unfolding write_char emit put_byte
write_char-emit ch c = ground arith

pub write_int-emit : (n : ℕ) (c : Cursor) → write_int n c ≡ emit (int_bytes n) c
unfolding write_int emit put_byte
write_int-emit n c = ground arith

pub copy-emit : (s tail : List ℕ) (c : Cursor) → copy (length s) (s ++ tail) c ≡ emit s c
unfolding copy emit
copy-emit [] tail c = refl
copy-emit (b ∷ s) tail c = simp (copy-emit s tail)

pub emit_fits :
    (bs : List ℕ) (c : Cursor)
    → length bs ≤ length c.after
    → emit bs c ≡ some (record { before = c.before ++ bs; after = drop (length bs) c.after })
unfolding emit put_byte
emit_fits [] c h = rw append-nil
emit_fits (b ∷ bs) c h = grind (arith, emit_fits bs, append_assoc)

pub emit_overrun : (bs : List ℕ) (c : Cursor) → length c.after < length bs → emit bs c ≡ none
unfolding emit put_byte
emit_overrun [] c h = absurd (omega arith)
emit_overrun (b ∷ bs) c h = grind (arith, emit_overrun bs)
