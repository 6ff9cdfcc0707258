-- ===== src/Packet/Ack.antt =====
-- Acknowledgements: MQTTSerialize_ack, _puback, _pubrel, _pubcomp of
-- paho/MQTTPacket/src/MQTTSerializePublish.c, and MQTTDeserialize_ack of MQTTDeserializePublish.c.
pub mod Laws
use fembed_lwip.Common.{ℕ, ◌+◌, ℤ, pos, List, Option, some, ◌>>=◌, ltb, ◌==◌, if◌then◌else◌}
use fembed_lwip.Wire.Buffer.{start, write_char, write_int}
use fembed_lwip.Wire.Reader.{Reader, open_at, read_char, read_int}
use fembed_lwip.Wire.Length.{packet_encode, packet_decode_buf}
use fembed_lwip.Packet.MsgType
use fembed_lwip.Packet.Header.{to_byte, of_byte, buffer_too_short}
use fembed_lwip.Packet.Frame.{finish}

unfoldable pub serialize_ack : List ℕ → ℕ → ℕ → ℕ → ℕ → Option (ℤ × List ℕ)
serialize_ack buf buflen packettype dup packetid =
    if ltb buflen 4 then some (buffer_too_short, buf) else do
      let qos = if packettype == MsgType.pubrel then 1 else 0
      c1 ←
          write_char (to_byte (record { retain = 0; qos = qos; dup = dup; msg_type = packettype }))
            (start buf)
      c2 ← packet_encode 2 c1
      c3 ← write_int packetid c2
      some (finish c3)

unfoldable pub serialize_puback : List ℕ → ℕ → ℕ → Option (ℤ × List ℕ)
unfolding serialize_ack
serialize_puback buf buflen packetid = serialize_ack buf buflen MsgType.puback 0 packetid

unfoldable pub serialize_pubrel : List ℕ → ℕ → ℕ → ℕ → Option (ℤ × List ℕ)
unfolding serialize_ack
serialize_pubrel buf buflen dup packetid = serialize_ack buf buflen MsgType.pubrel dup packetid

unfoldable pub serialize_pubcomp : List ℕ → ℕ → ℕ → Option (ℤ × List ℕ)
unfolding serialize_ack
serialize_pubcomp buf buflen packetid = serialize_ack buf buflen MsgType.pubcomp 0 packetid

-- The caller's variables that the deserialiser writes.
pub record AckOut : Type 0 where
  pub packettype : ℕ
  pub dup : ℕ
  pub packetid : ℕ

-- The part after the remaining length, which took `rc` bytes.
unfoldable pub finish_ack : AckOut → ℕ → ℕ → Reader → Option (ℤ × AckOut)
finish_ack out rc enddata r =
    if ltb enddata (r.position + 2)
    then some (pos rc, out)
    else do (id, _) ← read_int r; some (pos 1, record out { packetid = id })

unfoldable pub deserialize_ack : AckOut → List ℕ → Option (ℤ × AckOut)
unfolding finish_ack
deserialize_ack out buf = do
  (byte, r1) ← read_char (open_at buf)
  let header = of_byte byte
  (rc, mylen, r2) ← packet_decode_buf r1
  finish_ack (record out { packettype = header.msg_type; dup = header.dup }) rc
      (r2.position + mylen) r2
