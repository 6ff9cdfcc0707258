-- ===== src/Packet/Short.antt =====
-- Packets with no body: MQTTSerialize_zero, _disconnect and _pingreq of
-- paho/MQTTPacket/src/MQTTConnectClient.c.
use fembed_lwip.Common.{
  ℕ, ◌≤◌, ◌≡◌, arith, ℤ, List, [], Option, some, ◌>>=◌, length, ltb, if◌then◌else◌,
}
use fembed_lwip.Wire.Buffer.{start, write_char, write_char-emit, emit-emit}
use fembed_lwip.Wire.Length.{packet_encode}
use fembed_lwip.Wire.Field.{length_groups, packet_encode-emit}
use fembed_lwip.Packet.MsgType
use fembed_lwip.Packet.Header.{Header, to_byte, to_byte-mod, buffer_too_short}
use fembed_lwip.Packet.Frame.{finish, frame, written, guarded_write}

-- A header with no flags.
abbrev pub plain_header : ℕ → Header
plain_header packettype = record { retain = 0; qos = 0; dup = 0; msg_type = packettype }

unfoldable pub serialize_zero : List ℕ → ℕ → ℕ → Option (ℤ × List ℕ)
serialize_zero buf buflen packettype = if ltb buflen 2 then some (buffer_too_short, buf) else do
  c1 ← write_char (to_byte (plain_header packettype)) (start buf)
  c2 ← packet_encode 0 c1
  some (finish c2)

unfoldable pub serialize_disconnect : List ℕ → ℕ → Option (ℤ × List ℕ)
unfolding serialize_zero
serialize_disconnect buf buflen = serialize_zero buf buflen MsgType.disconnect

unfoldable pub serialize_pingreq : List ℕ → ℕ → Option (ℤ × List ℕ)
unfolding serialize_zero
serialize_pingreq buf buflen = serialize_zero buf buflen MsgType.pingreq

-- A packet with no body is its header byte and a zero, or nothing is written to a buffer of fewer
-- than two bytes.
pub serialize_zero_lem :
    (buf : List ℕ) (buflen packettype : ℕ)
    → buflen ≤ length buf
    → serialize_zero buf buflen packettype
      ≡ some (written 2 buflen (frame (to_byte (plain_header packettype)) []) buf)
unfolding serialize_zero length_groups
serialize_zero_lem buf buflen packettype h =
    guarded_write 2 buflen (frame (to_byte (plain_header packettype)) []) buf _ (omega arith) h
      (simp (write_char-emit, packet_encode-emit 0 (omega arith), emit-emit, to_byte-mod))
