-- ===== src/Packet/Suback/Write.antt =====
-- What the SUBACK serialiser writes.
use native.Mathlib.Nat.{mod-eq_of_lt}
use fembed_lwip.Packet.Suback.Laws.{deserialize_suback-frame}
use fembed_lwip.Common.{
  ℕ, suc, ◌+◌, ◌^◌, ◌≤◌, ◌<◌, ◌≡◌, refl, arith, pos, List, [], ◌∷◌, ◌++◌, none, some, ◌>>=◌, length,
  drop, All,
}
use fembed_lwip.Common.{le→ltb_false}
use fembed_lwip.Wire.Buffer.{
  Cursor, start, int_bytes, write_char-emit, write_int-emit, emit, emit-append, emit-emit,
  emit_overrun,
}
use fembed_lwip.Wire.Field.{length-length_groups, packet_encode-emit}
use fembed_lwip.Packet.MsgType
use fembed_lwip.Packet.Header.{to_byte, to_byte-mod}
use fembed_lwip.Packet.Frame.{length-frame, finish, frame, emit-finish}
use fembed_lwip.Packet.Short.{plain_header}
use fembed_lwip.Packet.Suback.{SubackOut, write_codes, serialize_suback, deserialize_suback}

write_codes-emit :
    (codes : List ℕ) (c : Cursor)
    → All (λ q. q < 256) codes
    → write_codes (length codes) codes c ≡ emit codes c
unfolding write_codes
write_codes-emit [] c h = unfold emit in refl
write_codes-emit (q ∷ codes) c (h, hs) = simp (
  write_char-emit,
  mod-eq_of_lt h,
  (λ (c1 : Cursor). write_codes-emit codes c1 hs),
  ← emit-append,
)

-- The packet that the server writes.
abbrev pub suback_bytes : ℕ → List ℕ → List ℕ
suback_bytes packetid codes =
    frame (to_byte (plain_header MsgType.suback)) (int_bytes packetid ++ codes)

serialize_suback-emit :
    (buf : List ℕ) (buflen packetid : ℕ) (codes : List ℕ)
    → 2 + length codes ≤ buflen
    → All (λ q. q < 256) codes
    → 2 + length codes < 2 ^ 28
    → serialize_suback buf buflen packetid (length codes) codes
      ≡ (emit (suback_bytes packetid codes) (start buf) >>= λ c. some (finish c))
unfolding serialize_suback
serialize_suback-emit buf buflen packetid codes h hs hn =
    rw (le→ltb_false buflen (2 + length codes) h, two_more (length codes))
      (simp (
        write_char-emit,
        packet_encode-emit (suc (suc (length codes))) (omega arith),
        write_int-emit,
        (λ (c : Cursor). write_codes-emit codes c hs),
        emit-emit,
        to_byte-mod,
      ))
  where
    two_more : (n : ℕ) → 2 + n ≡ suc (suc n)
    two_more n = omega arith

-- A SUBACK (codes below 256, identifier below 65536, body below 2 ^ 28) that the server wrote into
-- a buffer with room for the whole packet is read back by a client whose array has room for the
-- codes.
pub suback_round_trip :
    (out : SubackOut) (buf : List ℕ) (buflen packetid : ℕ) (codes : List ℕ)
    → 2 + length codes ≤ buflen
    → length (suback_bytes packetid codes) ≤ length buf
    → All (λ q. q < 256) codes
    → 2 + length codes < 2 ^ 28
    → packetid < 65536
    → length codes ≤ length out.granted
    → (serialize_suback buf buflen packetid (length codes) codes >>= λ (_, sent).
        deserialize_suback (length out.granted) out sent)
      ≡ some (
        pos 1,
        record {
          packetid = packetid;
          count = length codes;
          granted = codes ++ drop (length codes) out.granted;
        },
      )
suback_round_trip out buf buflen packetid codes h hb hs hn hi hc = rw (
  serialize_suback-emit buf buflen packetid codes h hs hn,
  emit-finish (suback_bytes packetid codes) buf hb,
  deserialize_suback-frame out (to_byte (plain_header MsgType.suback)) packetid (length out.granted)
      codes _ (omega arith) hi hc (omega arith) (omega arith),
)

-- The guard forgets the header byte and the length: a buffer that is one or two bytes too short for
-- the packet (codes below 256, body below 2 ^ 28), as the caller says, is overrun.
pub serialize_suback_overrun :
    (buf : List ℕ) (buflen packetid : ℕ) (codes : List ℕ)
    → length buf ≡ buflen
    → 2 + length codes ≤ buflen
    → buflen < 4 + length codes
    → All (λ q. q < 256) codes
    → 2 + length codes < 2 ^ 28
    → serialize_suback buf buflen packetid (length codes) codes ≡ none
serialize_suback_overrun buf buflen packetid codes e h k hs hn = rw (
  serialize_suback-emit buf buflen packetid codes h hs hn,
  emit_overrun (suback_bytes packetid codes) (start buf) (
      omega (
        arith,
        length-frame (to_byte (plain_header MsgType.suback)) (int_bytes packetid ++ codes),
        length-length_groups 4 (length (int_bytes packetid ++ codes)),
      )),
)
