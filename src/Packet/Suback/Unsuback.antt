-- ===== src/Packet/Suback/Unsuback.antt =====
-- What the UNSUBACK functions write and read.
use fembed_lwip.Common.{ℕ, ◌≤◌, ◌<◌, ◌≡◌, arith, pos, List, ◌++◌, some, ◌>>=◌, length}
use fembed_lwip.Common.{le→ltb_false}
use fembed_lwip.Wire.Buffer.{start, int_bytes, write_char-emit, write_int-emit, emit, emit-emit}
use fembed_lwip.Wire.Field.{length_groups, packet_encode-emit}
use fembed_lwip.Packet.MsgType
use fembed_lwip.Packet.Header.{to_byte, to_byte-mod}
use fembed_lwip.Packet.Frame.{finish, frame, emit-finish}
use fembed_lwip.Packet.Short.{plain_header}
use fembed_lwip.Packet.Ack.Laws.{deserialize_ack-ack_bytes}
use fembed_lwip.Packet.Suback.{serialize_unsuback, deserialize_unsuback}

-- Any acknowledgement with an identifier below 65536 is taken for an UNSUBACK: the deserialiser
-- returns 1 and its identifier, whatever type the header byte has.
pub deserialize_unsuback-ack_bytes :
    (packetid byte id : ℕ) (rest : List ℕ)
    → id < 65536
    → deserialize_unsuback packetid (frame byte (int_bytes id) ++ rest) ≡ some (pos 1, id)
unfolding deserialize_unsuback
deserialize_unsuback-ack_bytes packetid byte id rest h =
    rw
      (deserialize_ack-ack_bytes (record { packettype = 0; dup = 0; packetid = packetid }) byte id
        rest h)
      (ground arith)

serialize_unsuback-emit :
    (buf : List ℕ) (buflen packetid : ℕ)
    → 2 ≤ buflen
    → serialize_unsuback buf buflen packetid ≡ (
        emit (frame (to_byte (plain_header MsgType.unsuback)) (int_bytes packetid)) (start buf)
        >>= λ c. some (finish c))
unfolding serialize_unsuback
serialize_unsuback-emit buf buflen packetid h = rw (le→ltb_false buflen 2 h) (
    simp
      (write_char-emit, packet_encode-emit 2 (omega arith), write_int-emit, emit-emit, to_byte-mod))

-- An UNSUBACK (identifier below 65536) that was written into an object of four bytes or more, of
-- which the caller says that it has two or more, is read back.
pub unsuback_round_trip :
    (out : ℕ) (buf : List ℕ) (buflen packetid : ℕ)
    → 2 ≤ buflen
    → 4 ≤ length buf
    → packetid < 65536
    → (serialize_unsuback buf buflen packetid >>= λ (_, sent). deserialize_unsuback out sent)
      ≡ some (pos 1, packetid)
unsuback_round_trip out buf buflen packetid h hb hi = rw (
  serialize_unsuback-emit buf buflen packetid h,
  emit-finish (frame (to_byte (plain_header MsgType.unsuback)) (int_bytes packetid)) buf
      (unfold length_groups in omega arith),
  deserialize_unsuback-ack_bytes out (to_byte (plain_header MsgType.unsuback)) packetid _ hi,
)
