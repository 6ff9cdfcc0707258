-- ===== src/Packet/Unsubscribe.antt =====
-- MQTTSerialize_unsubscribeLength and MQTTSerialize_unsubscribe of
-- paho/MQTTPacket/src/MQTTUnsubscribeClient.c.
use fembed_lwip.Common.{
  ℕ, zero, suc, ◌+◌, ◌^◌, ◌≤◌, ◌<◌, ◌≡◌, refl, arith, ℤ, List, [], ◌∷◌, ◌++◌, Option, none, some,
  ◌>>=◌, length, ltb, if◌then◌else◌,
}
use fembed_lwip.Common.{length-append}
use fembed_lwip.Wire.Buffer.{
  Cursor, start, write_char, write_int, write_char-emit, write_int-emit, int_bytes, emit,
  emit-append, emit-emit,
}
use fembed_lwip.Wire.Length.{packet_len, packet_encode}
use fembed_lwip.Wire.Field.{packet_encode-emit}
use fembed_lwip.Wire.Strings.{MqttString, mqtt_strlen, write_mqtt_string}
use fembed_lwip.Wire.Text.{Holds, string_bytes, write_mqtt_string-emit, mqtt_strlen-Holds}
use fembed_lwip.Packet.MsgType
use fembed_lwip.Packet.Header.{Header, to_byte, to_byte-mod, buffer_too_short}
use fembed_lwip.Packet.Frame.{finish, frame, written, guarded_write, length-frame-le-packet_len}

-- The loop over `topicFilters[i]`, with `len` as the accumulator.
unfoldable pub unsubscribe_length_loop : ℕ → ℕ → List MqttString → Option ℕ
unsubscribe_length_loop len zero filters = some len
unsubscribe_length_loop len (suc count) [] = none
unsubscribe_length_loop len (suc count) (m ∷ filters) =
    unsubscribe_length_loop (len + (2 + mqtt_strlen m)) count filters

unfoldable pub unsubscribe_length : ℕ → List MqttString → Option ℕ
unsubscribe_length count filters = unsubscribe_length_loop 2 count filters

unfoldable pub write_filters : ℕ → List MqttString → Cursor → Option Cursor
write_filters zero filters c = some c
write_filters (suc count) [] c = none
write_filters (suc count) (m ∷ filters) c = do
  c1 ← write_mqtt_string m c
  write_filters count filters c1

abbrev pub unsubscribe_header : ℕ → Header
unsubscribe_header dup = record { retain = 0; qos = 1; dup = dup; msg_type = MsgType.unsubscribe }

unfoldable pub serialize_unsubscribe :
    List ℕ → ℕ → ℕ → ℕ → ℕ → List MqttString → Option (ℤ × List ℕ)
serialize_unsubscribe buf buflen dup packetid count filters = do
  rem_len ← unsubscribe_length count filters
  if ltb buflen (packet_len rem_len) then some (buffer_too_short, buf) else do
    c1 ← write_char (to_byte (unsubscribe_header dup)) (start buf)
    c2 ← packet_encode rem_len c1
    c3 ← write_int packetid c2
    c4 ← write_filters count filters c3
    some (finish c4)

-- The array stands for the topic filters.
abbrev pub HoldsFilters : List MqttString → List (List ℕ) → Type 0
HoldsFilters [] [] = Unit
HoldsFilters (m ∷ ms) (topic ∷ topics) = Holds m topic × HoldsFilters ms topics
HoldsFilters _ _ = ⊥

abbrev pub filter_bytes : List (List ℕ) → List ℕ
filter_bytes [] = []
filter_bytes (topic ∷ topics) = string_bytes topic ++ filter_bytes topics

abbrev pub unsubscribe_bytes : ℕ → List (List ℕ) → List ℕ
unsubscribe_bytes packetid topics = int_bytes packetid ++ filter_bytes topics

unsubscribe_length_loop_lem :
    (ms : List MqttString) (topics : List (List ℕ)) (len : ℕ)
    → HoldsFilters ms topics
    → unsubscribe_length_loop len (length topics) ms ≡ some (len + length (filter_bytes topics))
unfolding unsubscribe_length_loop
unsubscribe_length_loop_lem [] [] len h = ground arith
unsubscribe_length_loop_lem (m ∷ ms) (topic ∷ topics) len (h, hs) =
    rw
      (
        unsubscribe_length_loop_lem ms topics (len + (2 + mqtt_strlen m)) hs,
        mqtt_strlen-Holds h,
        length-append topic (filter_bytes topics),
      )
      (ground arith)
unsubscribe_length_loop_lem _ _ len h = absurd h

write_filters-emit :
    (ms : List MqttString) (topics : List (List ℕ)) (c : Cursor)
    → HoldsFilters ms topics
    → write_filters (length topics) ms c ≡ emit (filter_bytes topics) c
unfolding write_filters
write_filters-emit [] [] c h = unfold emit in refl
write_filters-emit (m ∷ ms) (topic ∷ topics) c (h, hs) = simp (
  (λ (c1 : Cursor). write_mqtt_string-emit c1 h),
  (λ (c1 : Cursor). write_filters-emit ms topics c1 hs),
  ← emit-append,
)
write_filters-emit _ _ c h = absurd h

-- For an array that holds the filters and a body below 2 ^ 28, in a buffer at least as long as its
-- caller says: an UNSUBSCRIBE is written whole (the identifier, then each filter) and its length is
-- returned; or, where MQTTPacket_len of the body does not fit, BUFFER_TOO_SHORT is returned and
-- nothing is written.
pub serialize_unsubscribe_lem :
    (buf : List ℕ) (buflen dup packetid : ℕ) (ms : List MqttString) (topics : List (List ℕ))
    → let body = unsubscribe_bytes packetid topics in
      buflen ≤ length buf
      → HoldsFilters ms topics
      → length body < 2 ^ 28
      → serialize_unsubscribe buf buflen dup packetid (length topics) ms
        ≡ some (
            written
              (packet_len (length body))
              buflen
              (frame (to_byte (unsubscribe_header dup)) body)
              buf)
unfolding serialize_unsubscribe unsubscribe_length
serialize_unsubscribe_lem buf buflen dup packetid ms topics hb hs hn =
    rw (unsubscribe_length_loop_lem ms topics 2 hs, two_more (length (filter_bytes topics)))
      (guarded_write (packet_len (length body)) buflen
        (frame (to_byte (unsubscribe_header dup)) body) buf _
        (length-frame-le-packet_len (to_byte (unsubscribe_header dup)) body hn) hb
        (simp (
          write_char-emit,
          packet_encode-emit (length body) (omega arith),
          write_int-emit,
          (λ (c : Cursor). write_filters-emit ms topics c hs),
          emit-emit,
          to_byte-mod,
        )))
  where
    body : List ℕ
    body = unsubscribe_bytes packetid topics

    two_more : (n : ℕ) → 2 + n ≡ suc (suc n)
    two_more n = omega arith
