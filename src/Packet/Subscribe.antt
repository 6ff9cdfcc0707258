-- ===== src/Packet/Subscribe.antt =====
-- MQTTSerialize_subscribeLength and MQTTSerialize_subscribe of
-- paho/MQTTPacket/src/MQTTSubscribeClient.c.
use fembed_lwip.Common.{
  ℕ, zero, suc, ◌+◌, ◌%◌, ◌^◌, ◌≤◌, ◌<◌, ◌≡◌, refl, arith, ℤ, List, [], ◌∷◌, ◌++◌, Option, none,
  some, ◌>>=◌, length, ltb, if◌then◌else◌,
}
use fembed_lwip.Common.{append_assoc, length-append}
use fembed_lwip.Wire.Buffer.{
  Cursor, start, write_char, write_int, write_char-emit, write_int-emit, int_bytes, emit,
  emit-append, emit-emit,
}
use fembed_lwip.Wire.Length.{packet_len, packet_encode}
use fembed_lwip.Wire.Field.{packet_encode-emit}
use fembed_lwip.Wire.Strings.{MqttString, mqtt_strlen, write_mqtt_string}
use fembed_lwip.Wire.Text.{Holds, string_bytes, write_mqtt_string-emit, mqtt_strlen-Holds}
use fembed_lwip.Packet.MsgType
use fembed_lwip.Packet.Header.{Header, to_byte, to_byte-mod, buffer_too_short}
use fembed_lwip.Packet.Frame.{finish, frame, written, guarded_write, length-frame-le-packet_len}

-- The loop over `topicFilters[i]`, with `len` as the accumulator.
unfoldable pub subscribe_length_loop : ℕ → ℕ → List MqttString → Option ℕ
subscribe_length_loop len zero filters = some len
subscribe_length_loop len (suc count) [] = none
subscribe_length_loop len (suc count) (m ∷ filters) =
    subscribe_length_loop (len + (2 + mqtt_strlen m + 1)) count filters

unfoldable pub subscribe_length : ℕ → List MqttString → Option ℕ
subscribe_length count filters = subscribe_length_loop 2 count filters

unfoldable pub write_subscriptions : ℕ → List MqttString → List ℕ → Cursor → Option Cursor
write_subscriptions zero filters qoss c = some c
write_subscriptions (suc count) [] qoss c = none
write_subscriptions (suc count) (m ∷ filters) [] c = none
write_subscriptions (suc count) (m ∷ filters) (q ∷ qoss) c = do
  c1 ← write_mqtt_string m c
  c2 ← write_char q c1
  write_subscriptions count filters qoss c2

abbrev pub subscribe_header : ℕ → Header
subscribe_header dup = record { retain = 0; qos = 1; dup = dup; msg_type = MsgType.subscribe }

unfoldable pub serialize_subscribe :
    List ℕ → ℕ → ℕ → ℕ → ℕ → List MqttString → List ℕ → Option (ℤ × List ℕ)
serialize_subscribe buf buflen dup packetid count filters qoss = do
  rem_len ← subscribe_length count filters
  if ltb buflen (packet_len rem_len) then some (buffer_too_short, buf) else do
    c1 ← write_char (to_byte (subscribe_header dup)) (start buf)
    c2 ← packet_encode rem_len c1
    c3 ← write_int packetid c2
    c4 ← write_subscriptions count filters qoss c3
    some (finish c4)

-- What is asked for: topic filters, each with its quality of service.
abbrev pub Subscriptions : Type 0
Subscriptions = List (List ℕ × ℕ)

-- The two arrays stand for the subscriptions.
abbrev pub HoldsAll : List MqttString → List ℕ → Subscriptions → Type 0
HoldsAll [] [] [] = Unit
HoldsAll (m ∷ ms) (q ∷ qs) ((topic, qos) ∷ subs) = Holds m topic × (q ≡ qos) × HoldsAll ms qs subs
HoldsAll _ _ _ = ⊥

abbrev pub subscription_bytes : Subscriptions → List ℕ
subscription_bytes [] = []
subscription_bytes ((topic, qos) ∷ subs) =
    string_bytes topic ++ (qos % 256) ∷ subscription_bytes subs

abbrev pub subscribe_bytes : ℕ → Subscriptions → List ℕ
subscribe_bytes packetid subs = int_bytes packetid ++ subscription_bytes subs

subscribe_length_loop_lem :
    (ms : List MqttString) (qs : List ℕ) (subs : Subscriptions) (len : ℕ)
    → HoldsAll ms qs subs
    → subscribe_length_loop len (length subs) ms ≡ some (len + length (subscription_bytes subs))
unfolding subscribe_length_loop
subscribe_length_loop_lem [] [] [] len h = ground arith
subscribe_length_loop_lem (m ∷ ms) (q ∷ qs) ((topic, qos) ∷ subs) len (h, _, hs) =
    rw
      (
        subscribe_length_loop_lem ms qs subs (len + (2 + mqtt_strlen m + 1)) hs,
        mqtt_strlen-Holds h,
        length-append topic ((qos % 256) ∷ subscription_bytes subs),
      )
      (ground arith)
subscribe_length_loop_lem _ _ _ len h = absurd h

write_subscriptions-emit :
    (ms : List MqttString) (qs : List ℕ) (subs : Subscriptions) (c : Cursor)
    → HoldsAll ms qs subs
    → write_subscriptions (length subs) ms qs c ≡ emit (subscription_bytes subs) c
unfolding write_subscriptions
write_subscriptions-emit [] [] [] c h = unfold emit in refl
write_subscriptions-emit (m ∷ ms) (q ∷ qs) ((topic, qos) ∷ subs) c (h, e, hs) = rw e (
    simp (
      (λ (c1 : Cursor). write_mqtt_string-emit c1 h),
      write_char-emit,
      (λ (c1 : Cursor). write_subscriptions-emit ms qs subs c1 hs),
      emit-emit,
      ← emit-append,
      append_assoc,
    ))
write_subscriptions-emit _ _ _ c h = absurd h

-- For arrays that hold the subscriptions and a body below 2 ^ 28, in a buffer at least as long as
-- its caller says: a SUBSCRIBE is written whole (the identifier, then each filter with the low
-- eight bits of its quality of service) and its length is returned; or, where MQTTPacket_len of the
-- body does not fit, BUFFER_TOO_SHORT is returned and nothing is written.
pub serialize_subscribe_lem :
    (buf : List ℕ) (buflen dup packetid : ℕ) (ms : List MqttString) (qs : List ℕ)
    (subs : Subscriptions)
    → let body = subscribe_bytes packetid subs in
      buflen ≤ length buf
      → HoldsAll ms qs subs
      → length body < 2 ^ 28
      → serialize_subscribe buf buflen dup packetid (length subs) ms qs
        ≡ some (
            written
              (packet_len (length body))
              buflen
              (frame (to_byte (subscribe_header dup)) body)
              buf)
unfolding serialize_subscribe subscribe_length
serialize_subscribe_lem buf buflen dup packetid ms qs subs hb hs hn =
    rw (subscribe_length_loop_lem ms qs subs 2 hs, two_more (length (subscription_bytes subs)))
      (guarded_write (packet_len (length body)) buflen (frame (to_byte (subscribe_header dup)) body)
        buf _ (length-frame-le-packet_len (to_byte (subscribe_header dup)) body hn) hb
        (simp (
          write_char-emit,
          packet_encode-emit (length body) (omega arith),
          write_int-emit,
          (λ (c : Cursor). write_subscriptions-emit ms qs subs c hs),
          emit-emit,
          to_byte-mod,
        )))
  where
    body : List ℕ
    body = subscribe_bytes packetid subs

    two_more : (n : ℕ) → 2 + n ≡ suc (suc n)
    two_more n = omega arith
