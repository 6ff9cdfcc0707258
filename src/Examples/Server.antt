-- ===== src/Examples/Server.antt =====
-- The client's SUBSCRIBE and UNSUBSCRIBE, read by the server.
use fembed_lwip.Common.{◌≡◌, refl, arith, pos, [], ◌∷◌, some, ◌>>=◌}
use fembed_lwip.Wire.Length.{packet_len}
use fembed_lwip.Wire.Field.{length_groups}
use fembed_lwip.Wire.Strings.{of_chars, mqtt_string_initializer}
use fembed_lwip.Packet.Subscribe.{serialize_subscribe}
use fembed_lwip.Packet.Unsubscribe.{serialize_unsubscribe}
use fembed_lwip.Packet.Server.{
  SubscribeOut, UnsubscribeOut, deserialize_subscribe, deserialize_unsubscribe,
}
use fembed_lwip.Packet.Server.Filters.{filters_read, unsubscribe_round_trip}
use fembed_lwip.Packet.Server.Subscriptions.{topics_read, qos_read, subscribe_round_trip}
use fembed_lwip.Examples.Data.{topic, c_string, zeros, greeting_topic}

abbrev blank_subscribe : SubscribeOut
blank_subscribe = record {
  dup = 9;
  packetid = 9;
  count = 9;
  topic_filters = mqtt_string_initializer ∷ [];
  requested = 9 ∷ 9 ∷ [];
}

abbrev blank_unsubscribe : UnsubscribeOut
blank_unsubscribe = record {
  dup = 9;
  packetid = 9;
  count = 9;
  topic_filters = mqtt_string_initializer ∷ [];
}

subscribe_round_trip_example :
    (serialize_subscribe (zeros 12) 12 0 7 1 (c_string topic ∷ []) (2 ∷ []) >>= λ (_, buf).
    deserialize_subscribe blank_subscribe buf)
    ≡ some (
      pos 1,
      record {
        dup = 0;
        packetid = 7;
        count = 1;
        topic_filters = of_chars 3 (some (97 ∷ 47 ∷ 98 ∷ 2 ∷ 0 ∷ 0 ∷ [])) ∷ [];
        requested = 2 ∷ 9 ∷ [];
      },
    )
unfolding packet_len length_groups topics_read qos_read
subscribe_round_trip_example =
    subscribe_round_trip blank_subscribe (zeros 12) 12 0 7 (c_string topic ∷ []) (2 ∷ [])
      ((topic, 2) ∷ []) (omega arith) (omega arith) (greeting_topic, refl, tt) (omega arith)
      (omega arith) (omega arith) (omega arith) (omega arith, tt) (omega arith)

unsubscribe_round_trip_example :
    (serialize_unsubscribe (zeros 12) 12 0 7 1 (c_string topic ∷ []) >>= λ (_, buf).
    deserialize_unsubscribe blank_unsubscribe buf)
    ≡ some (
      pos 1,
      record {
        dup = 0;
        packetid = 7;
        count = 1;
        topic_filters = of_chars 3 (some (97 ∷ 47 ∷ 98 ∷ 0 ∷ 0 ∷ 0 ∷ [])) ∷ [];
      },
    )
unfolding packet_len length_groups filters_read
unsubscribe_round_trip_example =
    unsubscribe_round_trip blank_unsubscribe (zeros 12) 12 0 7 (c_string topic ∷ []) (topic ∷ [])
      (omega arith) (omega arith) (greeting_topic, tt) (omega arith) (omega arith) (omega arith)
      (omega arith, tt) (omega arith)
