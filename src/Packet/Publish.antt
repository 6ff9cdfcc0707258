-- ===== src/Packet/Publish.antt =====
-- MQTTSerialize_publishLength and MQTTSerialize_publish of
-- paho/MQTTPacket/src/MQTTSerializePublish.c, and MQTTDeserialize_publish of
-- paho/MQTTPacket/src/MQTTDeserializePublish.c.
pub mod Laws
pub mod Read
pub mod Malformed
use fembed_lwip.Common.{
  ℕ, ◌+◌, ℤ, pos, sub_ℕ, List, Option, some, true, false, ◌>>=◌, length, ltb, ◌==◌, if◌then◌else◌,
}
use fembed_lwip.Wire.Buffer.{Cursor, start, write_char, write_int, copy}
use fembed_lwip.Wire.Reader.{Reader, open_at, read_char, read_int}
use fembed_lwip.Wire.Length.{packet_len, packet_encode, packet_decode_buf}
use fembed_lwip.Wire.Strings.{MqttString, mqtt_strlen, write_mqtt_string, read_mqtt_len_string}
use fembed_lwip.Packet.MsgType
use fembed_lwip.Packet.Header.{Header, to_byte, of_byte, buffer_too_short}
use fembed_lwip.Packet.Frame.{finish}

-- Lengths are not negative, and their sum is below 2 ^ 31.
unfoldable pub publish_length : ℕ → MqttString → ℕ → ℕ
publish_length qos topic_name payloadlen =
    let len = 2 + mqtt_strlen topic_name + payloadlen in if ltb 0 qos then len + 2 else len

unfoldable pub write_packetid : ℕ → ℕ → Cursor → Option Cursor
write_packetid qos packetid c = if ltb 0 qos then write_int packetid c else some c

-- The arguments of `MQTTSerialize_publish` behind the buffer. `payload` is the object from that
-- pointer on.
pub record PublishArgs : Type 0 where
  pub dup : ℕ
  pub qos : ℕ
  pub retained : ℕ
  pub packetid : ℕ
  pub topic_name : MqttString
  pub payload : List ℕ
  pub payloadlen : ℕ

abbrev pub publish_header : PublishArgs → Header
publish_header a = record {
  retain = a.retained;
  qos = a.qos;
  dup = a.dup;
  msg_type = MsgType.publish;
}

unfoldable pub serialize_publish : List ℕ → ℕ → PublishArgs → Option (ℤ × List ℕ)
serialize_publish buf buflen a =
    let rem_len = publish_length a.qos a.topic_name a.payloadlen in
    if ltb buflen (packet_len rem_len) then some (buffer_too_short, buf) else do
      c1 ← write_char (to_byte (publish_header a)) (start buf)
      c2 ← packet_encode rem_len c1
      c3 ← write_mqtt_string a.topic_name c2
      c4 ← write_packetid a.qos a.packetid c3
      c5 ← copy a.payloadlen a.payload c4
      some (finish c5)

-- The caller's variables that the deserialiser writes. `payload` is the object from that pointer on.
pub record PublishOut : Type 0 where
  pub dup : ℕ
  pub qos : ℕ
  pub retained : ℕ
  pub packetid : ℕ
  pub topic_name : MqttString
  pub payload : List ℕ
  pub payloadlen : ℤ

-- The payload is what is left up to `enddata`.
unfoldable pub publish_payload : PublishOut → ℕ → Reader → ℤ × PublishOut
publish_payload out enddata r =
    (pos 1, record out { payload = r.rest; payloadlen = sub_ℕ enddata r.position })

unfoldable pub publish_packetid : PublishOut → ℕ → Reader → Option (ℤ × PublishOut)
publish_packetid out enddata r =
    if ltb 0 out.qos
    then (do
      (id, r1) ← read_int r
      some (publish_payload (record out { packetid = id }) enddata r1))
    else some (publish_payload out enddata r)

-- The part after the remaining length, which took `rc` bytes.
unfoldable pub publish_body : PublishOut → ℕ → ℕ → Reader → Option (ℤ × PublishOut)
publish_body out rc enddata r = do
  (done, topic, r1) ← read_mqtt_len_string out.topic_name enddata r
  let out' = record out { topic_name = topic }
  if done
      then (if ltb enddata r1.position
          then some (pos rc, out')
          else publish_packetid out' enddata r1)
      else some (pos rc, out')

unfoldable pub deserialize_publish : PublishOut → List ℕ → Option (ℤ × PublishOut)
deserialize_publish out buf = do
  (byte, r1) ← read_char (open_at buf)
  let h = of_byte byte
  if h.msg_type == MsgType.publish
      then (do
        (rc, mylen, r2) ← packet_decode_buf r1
        publish_body (record out { dup = h.dup; qos = h.qos; retained = h.retain }) rc
            (r2.position + mylen) r2)
      else some (pos 0, out)
