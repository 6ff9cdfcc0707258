-- ===== src/Packet/Publish/Malformed.antt =====
-- What the deserialiser makes of a PUBLISH whose topic does not fit or that has no identifier.
use fembed_lwip.Common.{
  false, negsuc, ◌*◌, ℕ, ◌+◌, ◌<◌, ◌≡◌, arith, pos, List, ◌∷◌, ◌++◌, some, length,
}
use fembed_lwip.Wire.Reader.{Reader, read_int, read_char}
use fembed_lwip.Wire.Field.{length_field, packet_decode_buf_one}
use fembed_lwip.Wire.Strings.{read_mqtt_len_string, MqttString, of_chars}
use fembed_lwip.Wire.Text.{string_bytes, read_mqtt_len_string-string_bytes}
use fembed_lwip.Packet.MsgType
use fembed_lwip.Packet.Header.{of_byte}
use fembed_lwip.Packet.Frame.{frame, packet_decode_buf-frame}
use fembed_lwip.Packet.Publish.{
  PublishOut, publish_payload, publish_packetid, publish_body, deserialize_publish,
}

-- The topic of a PUBLISH of fewer than 128 bytes does not fit: the deserialiser returns 1, its code
-- for success, which is the count of length bytes in `rc`. The identifier, the payload and its
-- length stay as the caller had them.
pub deserialize_publish_unread :
    (out : PublishOut) (byte n : ℕ) (rest : List ℕ) (topic : MqttString) (r : Reader)
    → let h = of_byte byte in
      h.msg_type ≡ MsgType.publish
      → n < 128
      → read_mqtt_len_string out.topic_name (2 + n) (record { position = 2; rest = rest })
        ≡ some (false, topic, r)
      → deserialize_publish out (byte ∷ n ∷ rest)
        ≡ some (
          pos 1,
          record out { dup = h.dup; qos = h.qos; retained = h.retain; topic_name = topic },
        )
unfolding deserialize_publish read_char publish_body
deserialize_publish_unread out byte n rest topic r ht hn e =
    rw (ht, packet_decode_buf_one n 1 rest hn, e)

-- A PUBLISH above quality of service 0 whose body ends with its topic (below 65536 bytes) has no
-- identifier. The test after the topic lets it through: the identifier is read from the two bytes
-- behind the packet, and the payload has length -2.
pub deserialize_publish_negative :
    (out : PublishOut) (byte x y : ℕ) (topic rest : List ℕ)
    → let h = of_byte byte in
      h.msg_type ≡ MsgType.publish
      → 0 < h.qos
      → length topic < 65536
      → deserialize_publish out (frame byte (string_bytes topic) ++ x ∷ y ∷ rest)
        ≡ some (
          pos 1,
          record {
            dup = h.dup;
            qos = h.qos;
            retained = h.retain;
            packetid = 256 * x + y;
            topic_name = of_chars (length topic) (some (topic ++ x ∷ y ∷ rest));
            payload = rest;
            payloadlen = negsuc 1;
          },
        )
unfolding deserialize_publish read_char publish_body publish_packetid publish_payload read_int
deserialize_publish_negative out byte x y topic rest ht hq hl =
    rw
      (
        ht,
        packet_decode_buf-frame (string_bytes topic) (x ∷ y ∷ rest) (omega arith),
        read_mqtt_len_string-string_bytes out.topic_name topic (x ∷ y ∷ rest) (1 + k)
            (1 + k + length (string_bytes topic)) hl (omega arith),
      )
      (ground arith)
  where
    k : ℕ
    k = length (length_field (length (string_bytes topic)))
