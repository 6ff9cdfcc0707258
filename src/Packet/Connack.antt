-- ===== src/Packet/Connack.antt =====
-- MQTTSerialize_connack of paho/MQTTPacket/src/MQTTConnectServer.c and MQTTDeserialize_connack of
-- paho/MQTTPacket/src/MQTTConnectClient.c.
pub mod Laws
use fembed_lwip.Common.{ℕ, ◌+◌, ◌%◌, ℤ, pos, List, Option, some, ◌>>=◌, ltb, ◌==◌, if◌then◌else◌}
use fembed_lwip.Wire.Buffer.{start, write_char}
use fembed_lwip.Wire.Reader.{Reader, open_at, read_char}
use fembed_lwip.Wire.Length.{packet_encode, packet_decode_buf}
use fembed_lwip.Packet.MsgType
use fembed_lwip.Packet.Header.{to_byte, of_byte, buffer_too_short}
use fembed_lwip.Packet.Frame.{finish}
use fembed_lwip.Packet.Short.{plain_header}

-- The flags byte has the one bit `sessionpresent`.
unfoldable pub serialize_connack : List ℕ → ℕ → ℕ → ℕ → Option (ℤ × List ℕ)
serialize_connack buf buflen connack_rc session_present =
    if ltb buflen 2 then some (buffer_too_short, buf) else do
      c1 ← write_char (to_byte (plain_header MsgType.connack)) (start buf)
      c2 ← packet_encode 2 c1
      c3 ← write_char (session_present % 2) c2
      c4 ← write_char connack_rc c3
      some (finish c4)

-- The caller's variables that the deserialiser writes.
pub record ConnackOut : Type 0 where
  pub session_present : ℕ
  pub connack_rc : ℕ

-- The part after the remaining length, which took `rc` bytes.
unfoldable pub connack_body : ConnackOut → ℕ → ℕ → Reader → Option (ℤ × ConnackOut)
connack_body out rc enddata r = if ltb enddata (r.position + 2) then some (pos rc, out) else do
  (flags, r1) ← read_char r
  (code, _) ← read_char r1
  some (pos 1, record { session_present = flags % 2; connack_rc = code })

unfoldable pub deserialize_connack : ConnackOut → List ℕ → Option (ℤ × ConnackOut)
deserialize_connack out buf = do
  (byte, r1) ← read_char (open_at buf)
  if (of_byte byte).msg_type == MsgType.connack
      then (do (rc, mylen, r2) ← packet_decode_buf r1; connack_body out rc (r2.position + mylen) r2)
      else some (pos 0, out)
