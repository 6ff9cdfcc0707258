-- ===== src/Examples/Topics.antt =====
-- Topic filters at concrete topics.
use fembed_lwip.Common.{ℕ, ◌≡◌, refl, List, [], ◌∷◌, some}
use fembed_lwip.Wire.Strings.{MqttString, mqtt_string_initializer}
use fembed_lwip.Client.Topics.{is_topic_matched}
use fembed_lwip.Client.Levels.{split, is_filter, is_plain, is_wildcard, levels_match}
use fembed_lwip.Client.Matching.{is_topic_matched-levels}

-- "a/+/#"
abbrev filter : List ℕ
filter = b'a' ∷ b'/' ∷ b'+' ∷ b'/' ∷ b'#' ∷ []

-- "a/b/c/d"
abbrev name : List ℕ
name = b'a' ∷ b'/' ∷ b'b' ∷ b'/' ∷ b'c' ∷ b'/' ∷ b'd' ∷ []

abbrev received : MqttString
received = record mqtt_string_initializer { lenstring = record { len = 7; chars = some name } }

is_topic_matched-levels_example :
    is_topic_matched filter received
    ≡ some (
        levels_match
          (b'a' ∷ [])
          ((b'+' ∷ []) ∷ (b'#' ∷ []) ∷ [])
          (b'a' ∷ [])
          ((b'b' ∷ []) ∷ (b'c' ∷ []) ∷ (b'd' ∷ []) ∷ []))
unfolding split is_filter is_plain is_wildcard
is_topic_matched-levels_example = is_topic_matched-levels filter name received refl refl
