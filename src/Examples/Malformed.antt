-- ===== src/Examples/Malformed.antt =====
-- Packets and buffers that are too short, or too long, for the functions that take them.
use fembed_lwip.Common.{◌≡◌, refl, arith, pos, negsuc, [], ◌∷◌, none, some}
use fembed_lwip.Wire.Field.{length_groups}
use fembed_lwip.Wire.Strings.{of_chars}
use fembed_lwip.Packet.Publish.{deserialize_publish}
use fembed_lwip.Packet.Publish.Malformed.{deserialize_publish_negative}
use fembed_lwip.Packet.Suback.{deserialize_suback}
use fembed_lwip.Packet.Suback.Laws.{deserialize_suback_overrun}
use fembed_lwip.Examples.Data.{topic, blank_suback, blank_publish}

deserialize_publish_negative_example :
    deserialize_publish blank_publish (0x32 ∷ 5 ∷ 0 ∷ 3 ∷ 97 ∷ 47 ∷ 98 ∷ 1 ∷ 44 ∷ [])
    ≡ some (
      pos 1,
      record {
        dup = 0;
        qos = 1;
        retained = 0;
        packetid = 300;
        topic_name = of_chars 3 (some (97 ∷ 47 ∷ 98 ∷ 1 ∷ 44 ∷ []));
        payload = [];
        payloadlen = negsuc 1;
      },
    )
unfolding length_groups
deserialize_publish_negative_example =
    deserialize_publish_negative blank_publish 0x32 1 44 topic [] refl (omega arith) (omega arith)

deserialize_suback_overrun_example :
    deserialize_suback 2 blank_suback (0x90 ∷ 5 ∷ 0 ∷ 7 ∷ 0 ∷ 1 ∷ 2 ∷ []) ≡ none
unfolding length_groups
deserialize_suback_overrun_example =
    deserialize_suback_overrun blank_suback 0x90 7 (0 ∷ 1 ∷ 2 ∷ []) [] refl (omega arith)
      (omega arith) (omega arith)
