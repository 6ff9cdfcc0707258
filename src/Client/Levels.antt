-- ===== src/Client/Levels.antt =====
-- Topic filters level by level: what isTopicMatched of paho/MQTTClient-C/src/MQTTClient.c is for.
use fembed_lwip.Common.{ℕ, List, [], ◌∷◌, Bool, true, false, not, ◌&&◌, ◌||◌, ◌==◌, if◌then◌else◌}
use fembed_lwip.Client.Topics.{separator, single_level, multi_level}

-- The first level of a text and the others.
unfoldable pub split : List ℕ → List ℕ × List (List ℕ)
split [] = ([], [])
split (c ∷ text) =
    let (level, levels) = split text in
    if c == separator then ([], level ∷ levels) else (c ∷ level, levels)

unfoldable pub is_empty : List ℕ → Bool
is_empty [] = true
is_empty (c ∷ level) = false

unfoldable pub same : List ℕ → List ℕ → Bool
same [] [] = true
same [] (d ∷ l) = false
same (c ∷ k) [] = false
same (c ∷ k) (d ∷ l) = c == d && same k l

-- The level is the character alone.
unfoldable pub is_wildcard : ℕ → List ℕ → Bool
is_wildcard w [] = false
is_wildcard w (c ∷ []) = c == w
is_wildcard w (c ∷ d ∷ level) = false

unfoldable pub is_plain : List ℕ → Bool
is_plain [] = true
is_plain (c ∷ level) = not (c == single_level) && (not (c == multi_level) && is_plain level)

-- A wildcard fills its level, and `#` is the last level.
unfoldable pub is_filter : List ℕ → List (List ℕ) → Bool
is_filter level [] =
    is_plain level || (is_wildcard single_level level || is_wildcard multi_level level)
is_filter level (next ∷ levels) =
    (is_plain level || is_wildcard single_level level) && is_filter next levels

-- `+` stands for any level that is not empty.
unfoldable pub level_matches : List ℕ → List ℕ → Bool
level_matches pattern level =
    if is_wildcard single_level pattern then not (is_empty level) else same pattern level

-- `#` stands for the rest of the topic, which does not begin with an empty level.
unfoldable pub levels_match : List ℕ → List (List ℕ) → List ℕ → List (List ℕ) → Bool
levels_match pattern [] level [] =
    if is_wildcard multi_level pattern then not (is_empty level) else level_matches pattern level
levels_match pattern [] level (next ∷ levels) =
    if is_wildcard multi_level pattern then not (is_empty level) else false
levels_match pattern (p ∷ ps) level [] = false
levels_match pattern (p ∷ ps) level (next ∷ levels) =
    let rest = levels_match p ps next levels in level_matches pattern level && rest
