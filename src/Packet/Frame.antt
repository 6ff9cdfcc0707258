-- ===== src/Packet/Frame.antt =====
-- What the serialisers share: the result of `rc = ptr - buf`, and the shape of a packet.
use fembed_lwip.Common.{ℕ, ◌+◌, ◌≤◌, ◌<◌, ◌^◌, ◌≡◌, arith, ℤ, pos}
use fembed_lwip.Common.{List, ◌∷◌, ◌++◌, Option, some, ◌>>=◌, length, drop, ltb, if◌then◌else◌}
use fembed_lwip.Common.{Bool-cases, inl, inr, ltb_false→le, append_assoc, length-append}
use fembed_lwip.Wire.Buffer.{Cursor, start, offset, contents, emit, emit_fits}
use fembed_lwip.Wire.Length.{packet_len, packet_decode_buf}
use fembed_lwip.Wire.Field.{length_field, packet_len_exact, packet_decode_buf-length_field}
use fembed_lwip.Packet.Header.{buffer_too_short}

-- The return value and the buffer of the caller.
abbrev pub finish : Cursor → ℤ × List ℕ
finish c = (pos (offset c), contents c)

-- A packet: the header byte, the length of the body, the body.
abbrev pub frame : ℕ → List ℕ → List ℕ
frame byte body = byte ∷ length_field (length body) ++ body

pub length-frame :
    (byte : ℕ) (body : List ℕ)
    → length (frame byte body) ≡ 1 + length (length_field (length body)) + length body
length-frame byte body = omega (arith, length-append (length_field (length body)) body)

-- A serialiser returns the length of what it wrote and leaves the rest of the buffer alone.
pub emit-finish :
    (bs buf : List ℕ)
    → length bs ≤ length buf
    → (emit bs (start buf) >>= λ c. some (finish c))
      ≡ some (pos (length bs), bs ++ drop (length bs) buf)
emit-finish bs buf h = rw (emit_fits bs (start buf) h)

-- The result of a serialiser for the packet `bs` that wants room for `need` bytes.
abbrev pub written : ℕ → ℕ → List ℕ → List ℕ → ℤ × List ℕ
written need buflen bs buf =
    if ltb buflen need
    then (buffer_too_short, buf)
    else (pos (length bs), bs ++ drop (length bs) buf)

-- The guard and the writers of a serialiser together: writers that emit `bs`, behind a test for
-- `need` bytes that covers them.
pub guarded_write :
    (need buflen : ℕ) (bs buf : List ℕ) (writers : Option (ℤ × List ℕ))
    → length bs ≤ need
    → buflen ≤ length buf
    → writers ≡ (emit bs (start buf) >>= λ c. some (finish c))
    → (if ltb buflen need then some (buffer_too_short, buf) else writers)
      ≡ some (written need buflen bs buf)
guarded_write need buflen bs buf writers hn hb e = elim (Bool-cases (ltb buflen need)) [
  | inl t ↦ rw t
  | inr t ↦ rw (t, e) (emit-finish bs buf (omega (arith, ltb_false→le _ _ t)))
]

-- A packet fits where `MQTTPacket_len` of its body does.
pub length-frame-le-packet_len :
    (byte : ℕ) (body : List ℕ)
    → length body < 2 ^ 28
    → length (frame byte body) ≤ packet_len (length body)
length-frame-le-packet_len byte body h =
    omega (arith, length-frame byte body, packet_len_exact (length body) h)

-- After the header byte of a packet a deserialiser finds the length of its body, and the body.
pub packet_decode_buf-frame :
    (body rest : List ℕ)
    → length body < 2 ^ 28
    → let n = length (length_field (length body)) in
      packet_decode_buf
        (record { position = 1; rest = (length_field (length body) ++ body) ++ rest })
      ≡ some (n, length body, record { position = 1 + n; rest = body ++ rest })
packet_decode_buf-frame body rest h =
    rw (append_assoc (length_field (length body)) body rest)
      (packet_decode_buf-length_field (length body) 1 (body ++ rest) h)
