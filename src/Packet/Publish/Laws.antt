-- ===== src/Packet/Publish/Laws.antt =====
-- What the publish functions write and read.
use fembed_lwip.Common.{
  ℕ, ◌^◌, ◌≤◌, ◌<◌, ◌≡◌, arith, List, [], ◌++◌, some, length, ltb, if◌then◌else◌,
}
use fembed_lwip.Common.{Bool-cases, inl, inr, length-append}
use fembed_lwip.Wire.Buffer.{
  Cursor, write_char-emit, write_int-emit, copy-emit, int_bytes, emit, emit-emit,
}
use fembed_lwip.Wire.Length.{packet_len}
use fembed_lwip.Wire.Field.{packet_encode-emit}
use fembed_lwip.Wire.Text.{Holds, string_bytes, write_mqtt_string-emit, mqtt_strlen-Holds}
use fembed_lwip.Packet.Header.{to_byte, to_byte-mod}
use fembed_lwip.Packet.Frame.{frame, written, length-frame-le-packet_len, guarded_write}
use fembed_lwip.Packet.Publish.{
  PublishArgs, publish_header, publish_length, write_packetid, serialize_publish,
}

-- The packet identifier is sent only above quality of service 0.
abbrev pub packetid_bytes : ℕ → ℕ → List ℕ
packetid_bytes qos packetid = if ltb 0 qos then int_bytes packetid else []

-- The body of a PUBLISH with the topic `topic` and the payload `payload`.
abbrev pub publish_bytes : ℕ → ℕ → List ℕ → List ℕ → List ℕ
publish_bytes qos packetid topic payload =
    string_bytes topic ++ (packetid_bytes qos packetid ++ payload)

write_packetid-emit :
    (qos packetid : ℕ) (c : Cursor)
    → write_packetid qos packetid c ≡ emit (packetid_bytes qos packetid) c
unfolding write_packetid emit
write_packetid-emit qos packetid c = elim (Bool-cases (ltb 0 qos)) [
  | inl e ↦ rw e (write_int-emit packetid c)
  | inr e ↦ rw e
]

length-publish_bytes :
    (a : PublishArgs) (topic payload : List ℕ)
    → Holds a.topic_name topic
    → a.payloadlen ≡ length payload
    → publish_length a.qos a.topic_name a.payloadlen
      ≡ length (publish_bytes a.qos a.packetid topic payload)
unfolding publish_length
length-publish_bytes a topic payload h k =
    rw (mqtt_strlen-Holds h, k, length-append topic (packetid_bytes a.qos a.packetid ++ payload))
      (ground (arith, length-append (packetid_bytes a.qos a.packetid) payload))

-- For arguments that hold the topic and the payload and a body below 2 ^ 28, in a buffer at least
-- as long as its caller says: a PUBLISH is written whole, its length is returned and the rest of
-- the buffer stays; or, where MQTTPacket_len of the body does not fit, BUFFER_TOO_SHORT is returned
-- and nothing is written.
pub serialize_publish_lem :
    (buf : List ℕ) (buflen : ℕ) (a : PublishArgs) (topic payload tail : List ℕ)
    → let body = publish_bytes a.qos a.packetid topic payload in
      buflen ≤ length buf
      → Holds a.topic_name topic
      → a.payload ≡ payload ++ tail
      → a.payloadlen ≡ length payload
      → length body < 2 ^ 28
      → serialize_publish buf buflen a
        ≡ some (
            written (packet_len (length body)) buflen (frame (to_byte (publish_header a)) body) buf)
unfolding serialize_publish
serialize_publish_lem buf buflen a topic payload tail hb ht hp hl hn =
    rw (length-publish_bytes a topic payload ht hl, hp, hl)
      (guarded_write (packet_len (length body)) buflen (frame (to_byte (publish_header a)) body) buf
        _ (length-frame-le-packet_len (to_byte (publish_header a)) body hn) hb
        (simp (
          write_char-emit,
          packet_encode-emit (length body) (omega arith),
          (λ (c : Cursor). write_mqtt_string-emit c ht),
          write_packetid-emit,
          copy-emit payload tail,
          emit-emit,
          to_byte-mod,
        )))
  where
    body : List ℕ
    body = publish_bytes a.qos a.packetid topic payload
