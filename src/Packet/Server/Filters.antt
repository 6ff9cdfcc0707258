-- ===== src/Packet/Server/Filters.antt =====
-- The filters that the server reads from an UNSUBSCRIBE.
use fembed_lwip.Common.{
  ℕ, zero, suc, ◌+◌, ◌^◌, ◌≤◌, ◌<◌, ◌≡◌, refl, ap, arith, pos, List, [], ◌∷◌, ◌++◌, true, some,
  ◌>>=◌, All, length, drop, store, set, get_elem?, lt→ltb, le→ltb_false, length-append,
  append_assoc,
}
use fembed_lwip.Wire.Reader.{Reader, read_char, read_int-int_bytes}
use fembed_lwip.Wire.Field.{length_field}
use fembed_lwip.Wire.Strings.{MqttString, of_chars, read_mqtt_len_string}
use fembed_lwip.Wire.Text.{string_bytes, read_mqtt_len_string-string_bytes}
use fembed_lwip.Packet.MsgType
use fembed_lwip.Wire.Length.{packet_len}
use fembed_lwip.Packet.Header.{of_byte, to_byte}
use fembed_lwip.Packet.Frame.{frame, packet_decode_buf-frame}
use fembed_lwip.Packet.Unsubscribe.{
  filter_bytes, unsubscribe_bytes, unsubscribe_header, HoldsFilters, serialize_unsubscribe,
  serialize_unsubscribe_lem,
}
use fembed_lwip.Packet.Server.{UnsubscribeOut, read_filters, deserialize_unsubscribe}

pub get_elem?-append {ℓ} :
    {A : Type ℓ} (front : List A) (y : A) (back : List A)
    → get_elem? (front ++ y ∷ back) (length front) ≡ some y
get_elem?-append [] y back = refl
get_elem?-append (z ∷ front) y back = get_elem?-append front y back

set_at {ℓ} :
    {A : Type ℓ} (front : List A) (x y : A) (back : List A)
    → set (front ++ y ∷ back) (length front) x ≡ front ++ x ∷ back
set_at [] x y back = refl
set_at (z ∷ front) x y back = ap (λ t. z ∷ t) (set_at front x y back)

pub store-append {ℓ} :
    {A : Type ℓ} (front : List A) (x y : A) (back : List A)
    → store (front ++ y ∷ back) (length front) x ≡ some (front ++ x ∷ back)
store-append front x y back =
    rw
      (
        lt→ltb (length front) (length (front ++ y ∷ back))
            (omega (arith, length-append front (y ∷ back))),
        set_at front x y back,
      )
      refl

-- The strings of the topics, each up to the end of the buffer.
unfoldable pub filters_read : List (List ℕ) → List ℕ → List MqttString
filters_read [] rest = []
filters_read (t ∷ topics) rest =
    of_chars (length t) (some (t ++ (filter_bytes topics ++ rest))) ∷ filters_read topics rest

-- A round that reads a filter.
read_filters_step :
    (fuel rc enddata : ℕ) (out : UnsubscribeOut) (r r1 : Reader) (m m1 : MqttString)
    (filters : List MqttString)
    → r.position < enddata
    → get_elem? out.topic_filters out.count ≡ some m
    → read_mqtt_len_string m enddata r ≡ some (true, m1, r1)
    → store out.topic_filters out.count m1 ≡ some filters
    → read_filters (suc fuel) rc enddata out r
      ≡ read_filters fuel rc enddata
          (record out { topic_filters = filters; count = out.count + 1 })
          r1
unfolding read_filters
read_filters_step fuel rc enddata out r r1 m m1 filters h e1 e2 e3 = ground arith

read_filters_lem :
    (topics : List (List ℕ)) (rest : List ℕ) (fuel rc enddata p dup id : ℕ)
    (front back : List MqttString)
    → length topics < fuel
    → enddata ≡ p + length (filter_bytes topics)
    → length topics ≤ length back
    → All (λ t. length t < 65536) topics
    → read_filters fuel rc enddata
        (record { dup = dup; packetid = id; count = length front; topic_filters = front ++ back })
        (record { position = p; rest = filter_bytes topics ++ rest })
      ≡ some (
        pos 1,
        record {
          dup = dup;
          packetid = id;
          count = length front + length topics;
          topic_filters = front ++ (filters_read topics rest ++ drop (length topics) back);
        },
      )
unfolding read_filters filters_read
read_filters_lem topics rest zero rc enddata p dup id front back hf he hb ht = absurd (omega arith)
read_filters_lem [] rest (suc fuel) rc enddata p dup id front back hf he hb ht = ground arith
read_filters_lem (t ∷ topics) rest (suc fuel) rc enddata p dup id front [] hf he hb ht =
    absurd (omega arith)
read_filters_lem (t ∷ topics) rest (suc fuel) rc enddata p dup id front (m ∷ back) hf he hb
      (h, ht) =
    let more : List ℕ = filter_bytes topics ++ rest in
    let sizes = length-append t (filter_bytes topics) in
    let m1 : MqttString = of_chars (length t) (some (t ++ more)) in
    let read = read_mqtt_len_string-string_bytes m t more p enddata h (omega (arith, sizes)) in
    let out : UnsubscribeOut = record {
      dup = dup;
      packetid = id;
      count = length front;
      topic_filters = front ++ m ∷ back;
    } in
    let step =
      read_filters_step fuel rc enddata out (record { position = p; rest = string_bytes t ++ more })
        (record { position = p + 2 + length t; rest = more }) m m1 (front ++ m1 ∷ back)
        (omega (arith, sizes)) (get_elem?-append front m back) read
        (store-append front m1 m back) in
    let ih =
      read_filters_lem topics rest fuel rc enddata (p + 2 + length t) dup id (front ++ m1 ∷ []) back
        (omega arith) (omega (arith, sizes)) (omega arith) ht in
    let grown : length (front ++ m1 ∷ []) ≡ length front + 1 =
      omega (arith, length-append front (m1 ∷ [])) in
    let sum : length front + 1 + length topics ≡ length front + suc (length topics) = omega arith in
    rw (append_assoc t (filter_bytes topics) rest, step)
      (rw (grown, sum, append_assoc front (m1 ∷ []) back, append_assoc front (m1 ∷ []) _) at ih)

count_le : (topics : List (List ℕ)) → length topics ≤ length (filter_bytes topics)
count_le [] = omega arith
count_le (t ∷ topics) = omega (arith, count_le topics, length-append t (filter_bytes topics))

-- An UNSUBSCRIBE whose filters fit the array of the caller is read: the flag, the identifier, the number
-- of filters, and the filters at the front of the array, whose other elements stay.
pub deserialize_unsubscribe-frame :
    (out : UnsubscribeOut) (byte id : ℕ) (topics : List (List ℕ)) (rest : List ℕ)
    → (of_byte byte).msg_type ≡ MsgType.unsubscribe
    → id < 65536
    → length topics ≤ length out.topic_filters
    → All (λ t. length t < 65536) topics
    → length (unsubscribe_bytes id topics) < 2 ^ 28
    → deserialize_unsubscribe out (frame byte (unsubscribe_bytes id topics) ++ rest)
      ≡ some (
        pos 1,
        record {
          dup = (of_byte byte).dup;
          packetid = id;
          count = length topics;
          topic_filters = filters_read topics rest ++ drop (length topics) out.topic_filters;
        },
      )
unfolding deserialize_unsubscribe read_char
deserialize_unsubscribe-frame out byte id topics rest ht hi hc ha hn =
    rw
      (
        ht,
        packet_decode_buf-frame body rest hn,
        read_int-int_bytes id (1 + k) (filter_bytes topics ++ rest) hi,
        read_filters_lem topics rest (suc (length body)) k (1 + k + length body) (1 + k + 2)
            (of_byte byte).dup id [] out.topic_filters (omega (arith, count_le topics))
            (omega arith) hc ha,
      )
      (ground arith)
  where
    body : List ℕ
    body = unsubscribe_bytes id topics

    k : ℕ
    k = length (length_field (length body))

-- An UNSUBSCRIBE that the client wrote into a buffer with room (flag below 2, identifier below
-- 65536, filters below 65536 bytes, body below 2 ^ 28) is read back by a server whose array has
-- room: the flag, the identifier, the number and the filters; the other elements of the array stay.
pub unsubscribe_round_trip :
    (out : UnsubscribeOut) (buf : List ℕ) (buflen dup packetid : ℕ) (ms : List MqttString)
    (topics : List (List ℕ))
    → let body = unsubscribe_bytes packetid topics in
      let sent = frame (to_byte (unsubscribe_header dup)) body in
      buflen ≤ length buf
      → packet_len (length body) ≤ buflen
      → HoldsFilters ms topics
      → dup < 2
      → packetid < 65536
      → length topics ≤ length out.topic_filters
      → All (λ t. length t < 65536) topics
      → length body < 2 ^ 28
      → (serialize_unsubscribe buf buflen dup packetid (length topics) ms >>= λ (_, buf').
          deserialize_unsubscribe out buf')
        ≡ some (
          pos 1,
          record {
            dup = dup;
            packetid = packetid;
            count = length topics;
            topic_filters =
                filters_read topics (drop (length sent) buf)
                ++ drop (length topics) out.topic_filters;
          },
        )
unsubscribe_round_trip out buf buflen dup packetid ms topics hb hl hs hd hi hc ha hn =
    let body = unsubscribe_bytes packetid topics in
    let byte = to_byte (unsubscribe_header dup) in
    let same : (of_byte byte).dup ≡ dup = omega arith in
    rw
      (
        serialize_unsubscribe_lem buf buflen dup packetid ms topics hb hs hn,
        le→ltb_false buflen (packet_len (length body)) hl,
        deserialize_unsubscribe-frame out byte packetid topics (drop (length (frame byte body)) buf)
            (omega arith) hi hc ha hn,
        same,
      )
      refl
