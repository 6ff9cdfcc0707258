-- ===== src/Packet/Publish/Read.antt =====
-- What the deserialiser makes of a PUBLISH.
use mathlib.Core.Path.{subst}
use fembed_lwip.Common.{
  ℕ, ◌+◌, ◌^◌, ◌≤◌, ◌<◌, ◌≡◌, refl, arith, pos, List, ◌++◌, some, ◌>>=◌, length, drop, ltb,
  if◌then◌else◌,
}
use fembed_lwip.Common.{Bool-cases, inl, inr, le→ltb_false, length-append, append_assoc}
use fembed_lwip.Wire.Reader.{read_char, read_int-int_bytes}
use fembed_lwip.Wire.Length.{packet_len}
use fembed_lwip.Wire.Strings.{MqttString, of_chars}
use fembed_lwip.Wire.Text.{Holds, read_mqtt_len_string-string_bytes}
use fembed_lwip.Packet.MsgType
use fembed_lwip.Packet.Header.{Header, to_byte, of_byte, of_byte-to_byte}
use fembed_lwip.Packet.Frame.{frame, packet_decode_buf-frame}
use fembed_lwip.Packet.Publish.{
  PublishArgs, PublishOut, publish_header, serialize_publish, publish_payload, publish_packetid,
  publish_body, deserialize_publish,
}
use fembed_lwip.Packet.Publish.Laws.{packetid_bytes, publish_bytes, serialize_publish_lem}

-- The variables after a PUBLISH was read: `rest` is what follows it in the buffer.
abbrev pub publish_read : PublishOut → Header → List ℕ → ℕ → List ℕ → List ℕ → PublishOut
publish_read out h topic packetid payload rest = record {
  dup = h.dup;
  qos = h.qos;
  retained = h.retain;
  packetid = if ltb 0 h.qos then packetid else out.packetid;
  topic_name =
      of_chars (length topic)
        (some (topic ++ (packetid_bytes h.qos packetid ++ (payload ++ rest))));
  payload = payload ++ rest;
  payloadlen = pos (length payload);
}

-- The last part: the identifier, if there is one, and the payload up to `enddata`.
publish_packetid_lem :
    (out : PublishOut) (packetid p enddata : ℕ) (payload rest : List ℕ)
    → packetid < 65536
    → enddata ≡ p + length (packetid_bytes out.qos packetid ++ payload)
    → publish_packetid out enddata
        (record { position = p; rest = packetid_bytes out.qos packetid ++ (payload ++ rest) })
      ≡ some (
        pos 1,
        record out {
          packetid = if ltb 0 out.qos then packetid else out.packetid;
          payload = payload ++ rest;
          payloadlen = pos (length payload);
        },
      )
unfolding publish_packetid publish_payload
publish_packetid_lem out packetid p enddata payload rest h e = elim (Bool-cases (ltb 0 out.qos)) [
  | inl t ↦ ground (arith, read_int-int_bytes packetid p (payload ++ rest) h)
  | inr t ↦ ground arith
]

publish_body_lem :
    (out : PublishOut) (packetid rc p : ℕ) (topic payload rest : List ℕ)
    → packetid < 65536
    → length topic < 65536
    → publish_body out rc
        (p + length (publish_bytes out.qos packetid topic payload))
        (record { position = p; rest = publish_bytes out.qos packetid topic payload ++ rest })
      ≡ some (
        pos 1,
        record out {
          packetid = if ltb 0 out.qos then packetid else out.packetid;
          topic_name =
              of_chars
                (length topic)
                (some (topic ++ (packetid_bytes out.qos packetid ++ (payload ++ rest))));
          payload = payload ++ rest;
          payloadlen = pos (length payload);
        },
      )
unfolding publish_body
publish_body_lem out packetid rc p topic payload rest h hl =
    rw
      (
        append_assoc topic (ids ++ payload) rest,
        append_assoc ids payload rest,
        read_mqtt_len_string-string_bytes out.topic_name topic (ids ++ (payload ++ rest)) p enddata
            hl (omega (arith, ends)),
        le→ltb_false enddata (p + 2 + length topic) (omega (arith, ends)),
      )
      (publish_packetid_lem (record out { topic_name = topic_read }) packetid (p + 2 + length topic)
        enddata payload rest h (omega (arith, ends)))
  where
    ids : List ℕ
    ids = packetid_bytes out.qos packetid

    enddata : ℕ
    enddata = p + length (publish_bytes out.qos packetid topic payload)

    topic_read : MqttString
    topic_read = of_chars (length topic) (some (topic ++ (ids ++ (payload ++ rest))))

    ends : enddata ≡ p + 2 + length topic + length (ids ++ payload)
    ends = omega (arith, length-append topic (ids ++ payload))

pub deserialize_publish-frame :
    (out : PublishOut) (byte packetid : ℕ) (topic payload rest : List ℕ)
    → let h = of_byte byte in
      let body = publish_bytes h.qos packetid topic payload in
      h.msg_type ≡ MsgType.publish
      → packetid < 65536
      → length topic < 65536
      → length body < 2 ^ 28
      → deserialize_publish out (frame byte body ++ rest)
        ≡ some (pos 1, publish_read out h topic packetid payload rest)
unfolding deserialize_publish read_char
deserialize_publish-frame out byte packetid topic payload rest ht hi hl hb =
    rw (ht, packet_decode_buf-frame body rest hb)
      (publish_body_lem (record out { dup = h.dup; qos = h.qos; retained = h.retain }) packetid _ _
        topic payload rest hi hl)
  where
    h : Header
    h = of_byte byte

    body : List ℕ
    body = publish_bytes h.qos packetid topic payload

deserialize_publish-header :
    (out : PublishOut) (byte packetid : ℕ) (topic payload rest : List ℕ) (h : Header)
    → let body = publish_bytes h.qos packetid topic payload in
      of_byte byte ≡ h
      → h.msg_type ≡ MsgType.publish
      → packetid < 65536
      → length topic < 65536
      → length body < 2 ^ 28
      → deserialize_publish out (frame byte body ++ rest)
        ≡ some (pos 1, publish_read out h topic packetid payload rest)
deserialize_publish-header out byte packetid topic payload rest h e ht hi hl hb =
    subst
      (λ k.
        k.msg_type ≡ MsgType.publish
        → length (publish_bytes k.qos packetid topic payload) < 2 ^ 28
        → deserialize_publish out (frame byte (publish_bytes k.qos packetid topic payload) ++ rest)
          ≡ some (pos 1, publish_read out k topic packetid payload rest))
      e (λ t b. deserialize_publish-frame out byte packetid topic payload rest t hi hl b) ht hb

-- Arguments that hold the topic and the payload, with flags and identifier in their ranges, a topic
-- below 65536 bytes and a body below 2 ^ 28, in a buffer with room for MQTTPacket_len of the body:
-- what the client wrote is read back. Flags, quality of service, identifier (above quality of
-- service 0), topic and payload are those of the arguments; topic and payload are pointers to the
-- end of the buffer.
pub publish_round_trip :
    (out : PublishOut) (buf : List ℕ) (buflen : ℕ) (a : PublishArgs) (topic payload tail : List ℕ)
    → let body = publish_bytes a.qos a.packetid topic payload in
      let sent = frame (to_byte (publish_header a)) body in
      buflen ≤ length buf
      → packet_len (length body) ≤ buflen
      → Holds a.topic_name topic
      → a.payload ≡ payload ++ tail
      → a.payloadlen ≡ length payload
      → length body < 2 ^ 28
      → a.dup < 2
      → a.qos < 4
      → a.retained < 2
      → a.packetid < 65536
      → length topic < 65536
      → (serialize_publish buf buflen a >>= λ (_, buf'). deserialize_publish out buf')
        ≡ some (
          pos 1,
          publish_read out (publish_header a) topic a.packetid payload (drop (length sent) buf),
        )
publish_round_trip out buf buflen a topic payload tail hb hf ht hp hl hn hd hq hr hi hs =
    rw (serialize_publish_lem buf buflen a topic payload tail hb ht hp hl hn, le→ltb_false _ _ hf)
      (deserialize_publish-header out (to_byte (publish_header a)) a.packetid topic payload
        (drop (length (frame (to_byte (publish_header a)) body)) buf) (publish_header a)
        (of_byte-to_byte (publish_header a) hr hq hd (omega arith)) refl hi hs hn)
  where
    body : List ℕ
    body = publish_bytes a.qos a.packetid topic payload
