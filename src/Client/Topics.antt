-- ===== src/Client/Topics.antt =====
-- isTopicMatched of paho/MQTTClient-C/src/MQTTClient.c.
use fembed_lwip.Common.{
  ℕ, List, [], ◌∷◌, Bool, true, false, not, ◌&&◌, Option, none, some, ◌>>=◌, length, take, leb,
  ◌==◌, if◌then◌else◌,
}
use fembed_lwip.Wire.Strings.{MqttString}

abbrev pub separator : ℕ
separator = b'/'

abbrev pub single_level : ℕ
single_level = b'+'

abbrev pub multi_level : ℕ
multi_level = b'#'

-- `nextpos` runs to the next separator or the end of the name; `curn` stops just before it, and the
-- `curn++` of the round steps onto it.
unfoldable pub skip_level : List ℕ → List ℕ
skip_level [] = []
skip_level (n ∷ name) = let rest = skip_level name in if n == separator then n ∷ name else rest

-- The loop on what is left of the filter and of the name. A `break` leaves the name unfinished, and
-- the final test fails.
unfoldable pub topic_loop : List ℕ → List ℕ → Bool
topic_loop [] [] = true
topic_loop [] (n ∷ name) = false
topic_loop (f ∷ filter) [] = false
topic_loop (f ∷ filter) (n ∷ name) =
    let past = topic_loop filter (skip_level name) in
    let done = topic_loop filter [] in
    let next = topic_loop filter name in
    if n == separator && not (f == separator)
    then false
    else if not (f == single_level) && (not (f == multi_level) && not (f == n))
    then false
    else if f == single_level
    then past
    else if f == multi_level
    then done
    else next

-- The first `n` bytes of an object.
abbrev pub slice : ℕ → List ℕ → Option (List ℕ)
slice n xs = if leb n (length xs) then some (take n xs) else none

-- The characters that `lenstring` points at.
abbrev pub topic_chars : MqttString → Option (List ℕ)
topic_chars m = elim m.lenstring.chars [
  | some chars ↦ slice m.lenstring.len chars
  | none ↦ if m.lenstring.len == 0 then some [] else none
]

unfoldable pub is_topic_matched : List ℕ → MqttString → Option Bool
is_topic_matched filter topic_name = do name ← topic_chars topic_name; some (topic_loop filter name)
