-- ===== src/Packet/Server/Subscriptions.antt =====
-- The subscriptions that the server reads from a SUBSCRIBE.
use fembed_lwip.Common.{
  ℕ, zero, suc, ◌+◌, ◌%◌, ◌^◌, ◌≤◌, ◌<◌, ◌≡◌, refl, arith, pos, true, List, [], ◌∷◌, ◌++◌, some,
  ◌>>=◌, All, length, drop, store, get_elem?, le→ltb_false, length-append, append_assoc,
}
use fembed_lwip.Wire.Reader.{Reader, read_char, read_int-int_bytes}
use fembed_lwip.Wire.Length.{packet_len}
use fembed_lwip.Wire.Field.{length_field}
use fembed_lwip.Wire.Strings.{MqttString, of_chars, read_mqtt_len_string}
use fembed_lwip.Wire.Text.{string_bytes, read_mqtt_len_string-string_bytes}
use fembed_lwip.Packet.MsgType
use fembed_lwip.Packet.Header.{of_byte, to_byte}
use fembed_lwip.Packet.Frame.{frame, packet_decode_buf-frame}
use fembed_lwip.Packet.Subscribe.{
  Subscriptions, HoldsAll, subscription_bytes, subscribe_bytes, subscribe_header,
  serialize_subscribe, serialize_subscribe_lem,
}
use fembed_lwip.Packet.Server.{SubscribeOut, read_subscriptions, deserialize_subscribe}
use fembed_lwip.Packet.Server.Filters.{get_elem?-append, store-append}

-- The strings of the topics, each up to the end of the buffer.
unfoldable pub topics_read : Subscriptions → List ℕ → List MqttString
topics_read [] rest = []
topics_read ((t, q) ∷ subs) rest =
    of_chars (length t) (some (t ++ ((q % 256) ∷ (subscription_bytes subs ++ rest))))
    ∷ topics_read subs rest

-- The qualities of service that were asked for.
unfoldable pub qos_read : Subscriptions → List ℕ
qos_read [] = []
qos_read ((t, q) ∷ subs) = (q % 256) ∷ qos_read subs

-- A round that reads a subscription.
read_subscriptions_step :
    (fuel rc enddata p q : ℕ) (more : List ℕ) (out : SubscribeOut) (r : Reader) (m m1 : MqttString)
    (filters : List MqttString) (requested : List ℕ)
    → r.position < enddata
    → p < enddata
    → get_elem? out.topic_filters out.count ≡ some m
    → read_mqtt_len_string m enddata r ≡ some (true, m1, record { position = p; rest = q ∷ more })
    → store out.topic_filters out.count m1 ≡ some filters
    → store out.requested out.count q ≡ some requested
    → read_subscriptions (suc fuel) rc enddata out r
      ≡ read_subscriptions fuel rc enddata
          (record out { topic_filters = filters; requested = requested; count = out.count + 1 })
          (record { position = p + 1; rest = more })
unfolding read_subscriptions read_char
read_subscriptions_step fuel rc enddata p q more out r m m1 filters requested h h1 e1 e2 e3 e4 =
    ground arith

read_subscriptions_lem :
    (subs : Subscriptions) (rest : List ℕ) (fuel rc enddata p dup id : ℕ)
    (front back : List MqttString) (gs hs : List ℕ)
    → length subs < fuel
    → enddata ≡ p + length (subscription_bytes subs)
    → length subs ≤ length back
    → length subs ≤ length hs
    → length gs ≡ length front
    → All (λ x. length x.0 < 65536) subs
    → read_subscriptions fuel rc enddata
        (record {
          dup = dup;
          packetid = id;
          count = length front;
          topic_filters = front ++ back;
          requested = gs ++ hs;
        })
        (record { position = p; rest = subscription_bytes subs ++ rest })
      ≡ some (
        pos 1,
        record {
          dup = dup;
          packetid = id;
          count = length front + length subs;
          topic_filters = front ++ (topics_read subs rest ++ drop (length subs) back);
          requested = gs ++ (qos_read subs ++ drop (length subs) hs);
        },
      )
unfolding read_subscriptions topics_read qos_read
read_subscriptions_lem subs rest zero rc enddata p dup id front back gs hs hf he hb hg hl ht =
    absurd (omega arith)
read_subscriptions_lem [] rest (suc fuel) rc enddata p dup id front back gs hs hf he hb hg hl ht =
    ground arith
read_subscriptions_lem (x ∷ subs) rest (suc fuel) rc enddata p dup id front [] gs hs hf he hb hg hl
      ht =
    absurd (omega arith)
read_subscriptions_lem (x ∷ subs) rest (suc fuel) rc enddata p dup id front (m ∷ back) gs [] hf he
      hb hg hl ht =
    absurd (omega arith)
read_subscriptions_lem ((t, q) ∷ subs) rest (suc fuel) rc enddata p dup id front (m ∷ back) gs
      (g ∷ hs) hf he hb hg hl (h, ht) =
    let tail : List ℕ = subscription_bytes subs ++ rest in
    let more : List ℕ = (q % 256) ∷ tail in
    let sizes = length-append t ((q % 256) ∷ subscription_bytes subs) in
    let m1 : MqttString = of_chars (length t) (some (t ++ more)) in
    let read = read_mqtt_len_string-string_bytes m t more p enddata h (omega (arith, sizes)) in
    let out : SubscribeOut = record {
      dup = dup;
      packetid = id;
      count = length front;
      topic_filters = front ++ m ∷ back;
      requested = gs ++ g ∷ hs;
    } in
    let stored : store (gs ++ g ∷ hs) (length front) (q % 256) ≡ some (gs ++ (q % 256) ∷ hs) =
      rw hl at (store-append gs (q % 256) g hs) in
    let step =
      read_subscriptions_step fuel rc enddata (p + 2 + length t) (q % 256) tail out
        (record { position = p; rest = string_bytes t ++ more }) m m1 (front ++ m1 ∷ back)
        (gs ++ (q % 256) ∷ hs) (omega (arith, sizes)) (omega (arith, sizes))
        (get_elem?-append front m back) read (store-append front m1 m back) stored in
    let grown : length (front ++ m1 ∷ []) ≡ length front + 1 =
      omega (arith, length-append front (m1 ∷ [])) in
    let ih =
      read_subscriptions_lem subs rest fuel rc enddata (p + 2 + length t + 1) dup id
        (front ++ m1 ∷ []) back (gs ++ (q % 256) ∷ []) hs (omega arith) (omega (arith, sizes))
        (omega arith) (omega arith) (omega (arith, grown, length-append gs ((q % 256) ∷ []))) ht in
    let sum : length front + 1 + length subs ≡ length front + suc (length subs) = omega arith in
    rw (append_assoc t ((q % 256) ∷ subscription_bytes subs) rest, step)
      (rw
        (
          grown,
          sum,
          append_assoc front (m1 ∷ []) back,
          append_assoc front (m1 ∷ []) _,
          append_assoc gs ((q % 256) ∷ []) hs,
          append_assoc gs ((q % 256) ∷ []) _,
        )
        at ih)

count_le : (subs : Subscriptions) → length subs ≤ length (subscription_bytes subs)
count_le [] = omega arith
count_le ((t, q) ∷ subs) =
    omega (arith, count_le subs, length-append t ((q % 256) ∷ subscription_bytes subs))

-- A SUBSCRIBE whose subscriptions fit the arrays of the caller is read: the flag, the identifier, the
-- number of subscriptions, and the filters and the qualities of service at the front of the arrays, whose
-- other elements stay.
pub deserialize_subscribe-frame :
    (out : SubscribeOut) (byte id : ℕ) (subs : Subscriptions) (rest : List ℕ)
    → (of_byte byte).msg_type ≡ MsgType.subscribe
    → id < 65536
    → length subs ≤ length out.topic_filters
    → length subs ≤ length out.requested
    → All (λ x. length x.0 < 65536) subs
    → length (subscribe_bytes id subs) < 2 ^ 28
    → deserialize_subscribe out (frame byte (subscribe_bytes id subs) ++ rest)
      ≡ some (
        pos 1,
        record {
          dup = (of_byte byte).dup;
          packetid = id;
          count = length subs;
          topic_filters = topics_read subs rest ++ drop (length subs) out.topic_filters;
          requested = qos_read subs ++ drop (length subs) out.requested;
        },
      )
unfolding deserialize_subscribe read_char
deserialize_subscribe-frame out byte id subs rest ht hi hc hq ha hn =
    rw
      (
        ht,
        packet_decode_buf-frame body rest hn,
        read_int-int_bytes id (1 + k) (subscription_bytes subs ++ rest) hi,
        read_subscriptions_lem subs rest (suc (length body)) k (1 + k + length body) (1 + k + 2)
            (of_byte byte).dup id [] out.topic_filters [] out.requested
            (omega (arith, count_le subs)) (omega arith) hc hq refl ha,
      )
      (ground arith)
  where
    body : List ℕ
    body = subscribe_bytes id subs

    k : ℕ
    k = length (length_field (length body))

-- A SUBSCRIBE that the client wrote into a buffer with room (flag below 2, identifier below 65536,
-- filters below 65536 bytes, body below 2 ^ 28) is read back by a server whose arrays have room:
-- the flag, the identifier, the number, the filters and the low eight bits of the qualities of
-- service; the other elements of the arrays stay.
pub subscribe_round_trip :
    (out : SubscribeOut) (buf : List ℕ) (buflen dup packetid : ℕ) (ms : List MqttString)
    (qs : List ℕ) (subs : Subscriptions)
    → let body = subscribe_bytes packetid subs in
      let sent = frame (to_byte (subscribe_header dup)) body in
      buflen ≤ length buf
      → packet_len (length body) ≤ buflen
      → HoldsAll ms qs subs
      → dup < 2
      → packetid < 65536
      → length subs ≤ length out.topic_filters
      → length subs ≤ length out.requested
      → All (λ x. length x.0 < 65536) subs
      → length body < 2 ^ 28
      → (serialize_subscribe buf buflen dup packetid (length subs) ms qs >>= λ (_, buf').
          deserialize_subscribe out buf')
        ≡ some (
          pos 1,
          record {
            dup = dup;
            packetid = packetid;
            count = length subs;
            topic_filters =
                topics_read subs (drop (length sent) buf) ++ drop (length subs) out.topic_filters;
            requested = qos_read subs ++ drop (length subs) out.requested;
          },
        )
subscribe_round_trip out buf buflen dup packetid ms qs subs hb hl hs hd hi hc hq ha hn =
    let body = subscribe_bytes packetid subs in
    let byte = to_byte (subscribe_header dup) in
    let same : (of_byte byte).dup ≡ dup = omega arith in
    rw
      (
        serialize_subscribe_lem buf buflen dup packetid ms qs subs hb hs hn,
        le→ltb_false buflen (packet_len (length body)) hl,
        deserialize_subscribe-frame out byte packetid subs (drop (length (frame byte body)) buf)
            (omega arith) hi hc hq ha hn,
        same,
      )
      refl
