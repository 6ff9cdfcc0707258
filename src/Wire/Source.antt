-- ===== src/Wire/Source.antt =====
-- The callbacks that packets are read with: `int (*getfn)(unsigned char*, int)`.
use fembed_lwip.Common.{ℕ, ◌≡◌, List, [], ◌∷◌, Option, some, ◌>>=◌, length}
use fembed_lwip.Common.{ℤ, pos, negsuc}
use fembed_lwip.Wire.Buffer.{Cursor, emit}
use fembed_lwip.Wire.Reader.{Reader, bufchar}

-- What a call stores and returns: -1 for an error, or the number of the bytes read, where 0 asks to
-- be called again.
pub data Got : Type 0 where
  failed : Got
  bytes : List ℕ → Got

abbrev pub got_rc : Got → ℤ
got_rc failed = negsuc 0
got_rc (bytes bs) = pos (length bs)

-- The bytes that a read stored, at the pointer that it was given.
unfoldable pub store_got : Got → Cursor → Option Cursor
store_got failed c = some c
store_got (bytes bs) c = emit bs c

-- A callback over the state of its source; `none` is an access outside an object.
abbrev pub Getfn : Type 0 → Type 0
Getfn S = ℕ → S → Option (Got × S)

-- `bufchar` as the callback of `MQTTPacket_decodeBuf`; the byte before the call has no part.
unfoldable pub buf_getfn : Getfn Reader
unfolding bufchar
buf_getfn count r = do (c, r1) ← bufchar count 0 r; some (bytes (c ∷ []), r1)

-- Called for one byte at a time from state `s`, the source stores `bs` and ends in `t`.
pub data Delivers {S : Type 0} (get : Getfn S) : S → List ℕ → S → Type 0 where
  end : {s : S} → Delivers get s [] s
  next :
      {s t u : S} {b : ℕ} {bs : List ℕ}
      → get 1 s ≡ some (bytes (b ∷ []), t)
      → Delivers get t bs u
      → Delivers get s (b ∷ bs) u

pub Delivers-cons :
    {S : Type 0} {get : Getfn S} {s u : S} {b : ℕ} {bs : List ℕ}
    → Delivers get s (b ∷ bs) u
    → (t : S) × (get 1 s ≡ some (bytes (b ∷ []), t)) × Delivers get t bs u
Delivers-cons (next {t = t} e d) = (t, e, d)

pub Delivers-one :
    {S : Type 0} {get : Getfn S} {s u : S} {b : ℕ}
    → Delivers get s (b ∷ []) u
    → get 1 s ≡ some (bytes (b ∷ []), u)
Delivers-one (next e end) = e
