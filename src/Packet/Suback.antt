-- ===== src/Packet/Suback.antt =====
-- MQTTDeserialize_suback of paho/MQTTPacket/src/MQTTSubscribeClient.c, MQTTSerialize_suback of
-- paho/MQTTPacket/src/MQTTSubscribeServer.c, MQTTDeserialize_unsuback of
-- paho/MQTTPacket/src/MQTTUnsubscribeClient.c and MQTTSerialize_unsuback of
-- paho/MQTTPacket/src/MQTTUnsubscribeServer.c.
pub mod Laws
pub mod Write
pub mod Unsuback
use fembed_lwip.Common.{
  ℕ, zero, suc, ◌+◌, ℤ, pos, negsuc, List, [], ◌∷◌, Bool, true, false, Option, none, some, ◌>>=◌,
  length, store, ltb, ◌==◌, if◌then◌else◌,
}
use fembed_lwip.Wire.Buffer.{Cursor, start, write_char, write_int}
use fembed_lwip.Wire.Reader.{Reader, open_at, read_char, read_int}
use fembed_lwip.Wire.Length.{packet_encode, packet_decode_buf}
use fembed_lwip.Packet.MsgType
use fembed_lwip.Packet.Header.{to_byte, of_byte, buffer_too_short}
use fembed_lwip.Packet.Frame.{finish}
use fembed_lwip.Packet.Short.{plain_header}
use fembed_lwip.Packet.Ack.{AckOut, deserialize_ack}

-- The loop over `grantedQoSs[i]`.
unfoldable pub write_codes : ℕ → List ℕ → Cursor → Option Cursor
write_codes zero codes c = some c
write_codes (suc count) [] c = none
write_codes (suc count) (q ∷ codes) c = do c1 ← write_char q c; write_codes count codes c1

unfoldable pub serialize_suback : List ℕ → ℕ → ℕ → ℕ → List ℕ → Option (ℤ × List ℕ)
serialize_suback buf buflen packetid count codes =
    if ltb buflen (2 + count) then some (buffer_too_short, buf) else do
      c1 ← write_char (to_byte (plain_header MsgType.suback)) (start buf)
      c2 ← packet_encode (2 + count) c1
      c3 ← write_int packetid c2
      c4 ← write_codes count codes c3
      some (finish c4)

-- The caller's variables that the deserialiser writes; `granted` is the array `grantedQoSs`.
pub record SubackOut : Type 0 where
  pub packetid : ℕ
  pub count : ℕ
  pub granted : List ℕ

-- The loop takes a byte in each round. A character is unsigned on the targets of the library.
unfoldable pub read_codes : ℕ → ℕ → ℕ → SubackOut → Reader → Option (ℤ × SubackOut)
read_codes zero maxcount enddata out r = none
read_codes (suc fuel) maxcount enddata out r = elim (ltb r.position enddata) [
  | false ↦ some (pos 1, out)
  | true ↦ elim (ltb maxcount out.count) [
    | true ↦ some (negsuc 0, out)
    | false ↦ read_char r >>= λ (q, r1). store out.granted out.count q >>= λ granted.
        read_codes fuel maxcount enddata (record out { granted = granted; count = out.count + 1 })
          r1
  ]
]

-- The part after the remaining length, which took `rc` bytes. `mylen` rounds and the last test are
-- enough.
unfoldable pub suback_body : SubackOut → ℕ → ℕ → ℕ → Reader → Option (ℤ × SubackOut)
suback_body out maxcount rc mylen r =
    let enddata = r.position + mylen in
    if ltb enddata (r.position + 2) then some (pos rc, out) else do
      (id, r1) ← read_int r
      read_codes (suc mylen) maxcount enddata (record out { packetid = id; count = 0 }) r1

unfoldable pub deserialize_suback : ℕ → SubackOut → List ℕ → Option (ℤ × SubackOut)
deserialize_suback maxcount out buf = do
  (byte, r1) ← read_char (open_at buf)
  if (of_byte byte).msg_type == MsgType.suback
      then (do (rc, mylen, r2) ← packet_decode_buf r1; suback_body out maxcount rc mylen r2)
      else some (pos 0, out)

unfoldable pub serialize_unsuback : List ℕ → ℕ → ℕ → Option (ℤ × List ℕ)
serialize_unsuback buf buflen packetid = if ltb buflen 2 then some (buffer_too_short, buf) else do
  c1 ← write_char (to_byte (plain_header MsgType.unsuback)) (start buf)
  c2 ← packet_encode 2 c1
  c3 ← write_int packetid c2
  some (finish c3)

-- The second argument is the caller's `packetid`.
unfoldable pub deserialize_unsuback : ℕ → List ℕ → Option (ℤ × ℕ)
deserialize_unsuback packetid buf = do
  (rc, out) ← deserialize_ack (record { packettype = 0; dup = 0; packetid = packetid }) buf
  some (if out.packettype == MsgType.unsuback then pos 1 else rc, out.packetid)
