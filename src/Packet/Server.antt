-- ===== src/Packet/Server.antt =====
-- MQTTDeserialize_subscribe of paho/MQTTPacket/src/MQTTSubscribeServer.c and
-- MQTTDeserialize_unsubscribe of paho/MQTTPacket/src/MQTTUnsubscribeServer.c. Their argument
-- `maxcount` is not used.
pub mod Filters
pub mod Subscriptions
use fembed_lwip.Common.{
  ℕ, zero, suc, ◌+◌, ℤ, pos, negsuc, List, [], ◌∷◌, true, false, Option, none, some, ◌>>=◌, store,
  get_elem?, ltb, ◌==◌, if◌then◌else◌,
}
use fembed_lwip.Wire.Reader.{Reader, open_at, read_char, read_int}
use fembed_lwip.Wire.Length.{packet_decode_buf}
use fembed_lwip.Wire.Strings.{MqttString, read_mqtt_len_string}
use fembed_lwip.Packet.MsgType
use fembed_lwip.Packet.Header.{of_byte}

-- The caller's variables that the deserialiser writes, with its two arrays.
pub record SubscribeOut : Type 0 where
  pub dup : ℕ
  pub packetid : ℕ
  pub count : ℕ
  pub topic_filters : List MqttString
  pub requested : List ℕ

-- The loop over the filters. A round takes three bytes or more.
unfoldable pub read_subscriptions : ℕ → ℕ → ℕ → SubscribeOut → Reader → Option (ℤ × SubscribeOut)
read_subscriptions zero rc enddata out r = none
read_subscriptions (suc fuel) rc enddata out r = elim (ltb r.position enddata) [
  | false ↦ some (pos 1, out)
  | true ↦ get_elem? out.topic_filters out.count >>= λ m.
      read_mqtt_len_string m enddata r >>= λ (whole, m1, r1).
      store out.topic_filters out.count m1 >>= λ filters. elim whole [
        | false ↦ some (pos rc, record out { topic_filters = filters })
        | true ↦ elim (ltb r1.position enddata) [
          | false ↦ some (pos rc, record out { topic_filters = filters })
          | true ↦ read_char r1 >>= λ (qos, r2). store out.requested out.count qos >>= λ requested.
              read_subscriptions fuel rc enddata
                (record out {
                  topic_filters = filters;
                  requested = requested;
                  count = out.count + 1;
                })
                r2
        ]
      ]
]

-- `mylen` rounds and the last test are enough.
unfoldable pub deserialize_subscribe : SubscribeOut → List ℕ → Option (ℤ × SubscribeOut)
deserialize_subscribe out buf = do
  (byte, r1) ← read_char (open_at buf)
  if (of_byte byte).msg_type == MsgType.subscribe
      then (do
        (rc, mylen, r2) ← packet_decode_buf r1
        (id, r3) ← read_int r2
        read_subscriptions (suc mylen) rc (r2.position + mylen)
            (record out { dup = (of_byte byte).dup; packetid = id; count = 0 }) r3)
      else some (negsuc 0, out)

pub record UnsubscribeOut : Type 0 where
  pub dup : ℕ
  pub packetid : ℕ
  pub count : ℕ
  pub topic_filters : List MqttString

-- A round takes two bytes or more.
unfoldable pub read_filters : ℕ → ℕ → ℕ → UnsubscribeOut → Reader → Option (ℤ × UnsubscribeOut)
read_filters zero rc enddata out r = none
read_filters (suc fuel) rc enddata out r = elim (ltb r.position enddata) [
  | false ↦ some (pos 1, out)
  | true ↦ get_elem? out.topic_filters out.count >>= λ m.
      read_mqtt_len_string m enddata r >>= λ (whole, m1, r1).
      store out.topic_filters out.count m1 >>= λ filters. elim whole [
        | false ↦ some (pos rc, record out { topic_filters = filters })
        | true ↦
            read_filters fuel rc enddata
              (record out { topic_filters = filters; count = out.count + 1 }) r1
      ]
]

unfoldable pub deserialize_unsubscribe : UnsubscribeOut → List ℕ → Option (ℤ × UnsubscribeOut)
deserialize_unsubscribe out buf = do
  (byte, r1) ← read_char (open_at buf)
  if (of_byte byte).msg_type == MsgType.unsubscribe
      then (do
        (rc, mylen, r2) ← packet_decode_buf r1
        (id, r3) ← read_int r2
        read_filters (suc mylen) rc (r2.position + mylen)
            (record out { dup = (of_byte byte).dup; packetid = id; count = 0 }) r3)
      else some (pos 0, out)
