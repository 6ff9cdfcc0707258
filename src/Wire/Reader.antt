-- ===== src/Wire/Reader.antt =====
-- The pointers that the deserialisers read through: bufchar, readInt, readChar of
-- paho/MQTTPacket/src/MQTTPacket.c.
use fembed_lwip.Common.{ℕ, zero, suc, ◌+◌, ◌*◌, ◌<◌, ◌≡◌, arith}
use fembed_lwip.Common.{List, [], ◌∷◌, ◌++◌, Option, none, some, ◌>>=◌, drop}
use fembed_lwip.Wire.Buffer.{int_bytes}

-- A pointer into a received packet: its distance from the start of the buffer, and the bytes from
-- it to the end of the object.
pub record Reader : Type 0 where
  pub position : ℕ
  pub rest : List ℕ

abbrev pub open_at : List ℕ → Reader
open_at buf = record { position = 0; rest = buf }

-- `c = *ptr++`
unfoldable pub read_char : Reader → Option (ℕ × Reader)
read_char r = elim r.rest [
  | [] ↦ none
  | b ∷ rest ↦ some (b, record { position = r.position + 1; rest = rest })
]

unfoldable pub read_int : Reader → Option (ℕ × Reader)
read_int r = do (hi, r1) ← read_char r; (lo, r2) ← read_char r1; some (256 * hi + lo, r2)

-- `ptr += n`
abbrev pub advance : ℕ → Reader → Reader
advance n r = record { position = r.position + n; rest = drop n r.rest }

-- The loop of `bufchar`: each round overwrites `*c`. The second argument is what `*c` held.
unfoldable pub bufchar : ℕ → ℕ → Reader → Option (ℕ × Reader)
bufchar zero c r = some (c, r)
bufchar (suc i) c r = do (b, r1) ← read_char r; bufchar i b r1

-- A two-byte number comes back as it was written.
pub read_int-int_bytes :
    (n p : ℕ) (rest : List ℕ)
    → n < 65536
    → read_int (record { position = p; rest = int_bytes n ++ rest })
      ≡ some (n, record { position = p + 2; rest = rest })
unfolding read_int read_char
read_int-int_bytes n p rest h = ground arith
