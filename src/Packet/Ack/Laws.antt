-- ===== src/Packet/Ack/Laws.antt =====
-- What the acknowledgement functions write and read.
use fembed_lwip.Common.{
  ℕ, ◌≤◌, ◌<◌, ◌≡◌, arith, pos, List, ◌∷◌, ◌++◌, some, ◌>>=◌, length, ◌==◌, if◌then◌else◌,
}
use fembed_lwip.Common.{le→ltb_false}
use fembed_lwip.Wire.Buffer.{write_char-emit, write_int-emit, int_bytes, emit-emit}
use fembed_lwip.Wire.Reader.{read_char, read_int-int_bytes}
use fembed_lwip.Wire.Field.{
  length_field, length_groups, packet_encode-emit, packet_decode_buf-length_field,
}
use fembed_lwip.Packet.MsgType
use fembed_lwip.Packet.Header.{Header, to_byte, to_byte-mod, of_byte}
use fembed_lwip.Packet.Frame.{frame, written, guarded_write, packet_decode_buf-frame}
use fembed_lwip.Packet.Ack.{AckOut, serialize_ack, deserialize_ack, finish_ack}

-- The four bytes of an acknowledgement; a PUBREL carries quality of service 1.
abbrev pub ack_header : ℕ → ℕ → Header
ack_header packettype dup = record {
  retain = 0;
  qos = if packettype == MsgType.pubrel then 1 else 0;
  dup = dup;
  msg_type = packettype;
}

abbrev pub ack_bytes : ℕ → ℕ → ℕ → List ℕ
ack_bytes packettype dup packetid = frame (to_byte (ack_header packettype dup)) (int_bytes packetid)

pub serialize_ack_lem :
    (buf : List ℕ) (buflen packettype dup packetid : ℕ)
    → buflen ≤ length buf
    → serialize_ack buf buflen packettype dup packetid
      ≡ some (written 4 buflen (ack_bytes packettype dup packetid) buf)
unfolding serialize_ack
serialize_ack_lem buf buflen packettype dup packetid h =
    guarded_write 4 buflen (ack_bytes packettype dup packetid) buf _
      (unfold length_groups in omega arith) h
      (simp (
        write_char-emit,
        packet_encode-emit 2 (omega arith),
        write_int-emit,
        emit-emit,
        to_byte-mod,
      ))

pub deserialize_ack-ack_bytes :
    (out : AckOut) (byte id : ℕ) (rest : List ℕ)
    → id < 65536
    → deserialize_ack out (frame byte (int_bytes id) ++ rest)
      ≡ some (
        pos 1,
        record { packettype = (of_byte byte).msg_type; dup = (of_byte byte).dup; packetid = id },
      )
unfolding deserialize_ack read_char
deserialize_ack-ack_bytes out byte id rest h =
    rw (packet_decode_buf-frame (int_bytes id) rest (omega arith))
      (unfold finish_ack length_groups in ground (arith, read_int-int_bytes id 2 rest h))

-- Whatever acknowledgement (type below 16, flag below 2, identifier below 65536) a caller writes
-- into a buffer of four bytes or more, the deserialiser reads the same type, duplicate flag and
-- identifier from it.
pub ack_round_trip :
    (out : AckOut) (buf : List ℕ) (buflen packettype dup packetid : ℕ)
    → buflen ≤ length buf
    → 4 ≤ buflen
    → packettype < 16
    → dup < 2
    → packetid < 65536
    → (serialize_ack buf buflen packettype dup packetid >>= λ (_, sent). deserialize_ack out sent)
      ≡ some (pos 1, record { packettype = packettype; dup = dup; packetid = packetid })
ack_round_trip out buf buflen packettype dup packetid h k ht hd hi =
    rw
      (
        serialize_ack_lem buf buflen packettype dup packetid h,
        le→ltb_false buflen 4 k,
        deserialize_ack-ack_bytes out (to_byte (ack_header packettype dup)) packetid _ hi,
      )
      (ground arith)

-- An acknowledgement whose remaining length is 0 or 1 has no packet identifier. The deserialiser
-- returns 1, its code for success, all the same: the count of length bytes, which it keeps in `rc`.
-- The identifier of the caller stays as it was.
pub deserialize_ack_short :
    (out : AckOut) (byte n : ℕ) (rest : List ℕ)
    → n < 2
    → deserialize_ack out (byte ∷ length_field n ++ rest)
      ≡ some (pos 1, record out { packettype = (of_byte byte).msg_type; dup = (of_byte byte).dup })
unfolding deserialize_ack read_char
deserialize_ack_short out byte n rest h =
    rw (packet_decode_buf-length_field n 1 rest (omega arith))
      (unfold finish_ack length_groups in ground arith)
