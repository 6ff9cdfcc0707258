-- ===== src/Client/Matching.antt =====
-- isTopicMatched of paho/MQTTClient-C/src/MQTTClient.c matches topics level by level.
use fembed_lwip.Common.{ℕ, ◌≡◌, ◌≢◌, refl, arith, List, [], ◌∷◌, Bool, true, some}
use mathlib.Core.Path.{subst, sym}
use native.Mathlib.Decide.{ℕ_discrete}
use fembed_lwip.Wire.Strings.{MqttString}
use fembed_lwip.Client.Topics.{
  separator, single_level, multi_level, skip_level, topic_loop, topic_chars, is_topic_matched,
}
use fembed_lwip.Client.Levels.{
  split, same, is_wildcard, is_plain, is_filter, level_matches, levels_match,
}
use fembed_lwip.Client.LevelSteps.{
  split-skip_level, split_single, is_filter_rest, literal-is_plain, plain_rest, literal_step,
  literal_mismatch, separator_step, empty_mismatch, plus_step, plus_mismatch, plus_alone,
  hash_alone, hash_step, hash_mismatch, ended,
}

-- The match of the two texts, level by level.
abbrev by_levels : List ℕ → List ℕ → Bool
by_levels filter name = levels_match (split filter).0 (split filter).1 (split name).0 (split name).1

abbrev IsFilter : List ℕ → Type 0
IsFilter filter = is_filter (split filter).0 (split filter).1 ≡ true

behind_literal :
    (c : ℕ) (f : List ℕ)
    → c ≢ separator
    → IsFilter (c ∷ f)
    → is_filter (c ∷ (split f).0) (split f).1 ≡ true
unfolding split
behind_literal c f h k = ground arith

at_separator :
    (x : ℕ) (f n : List ℕ)
    → topic_loop f n ≡ by_levels f n
    → topic_loop (separator ∷ f) (x ∷ n) ≡ by_levels (separator ∷ f) (x ∷ n)
unfolding topic_loop split
at_separator x f n ih =
    let (fl, fs) = split f in
    let (nl, ns) = split n in
    ground (arith, ih, separator_step fl fs nl ns, empty_mismatch (fl ∷ fs) x nl ns)

at_plus :
    (x : ℕ) (f n : List ℕ)
    → IsFilter (single_level ∷ f)
    → topic_loop f (skip_level n) ≡ by_levels f (skip_level n)
    → topic_loop (single_level ∷ f) (x ∷ n) ≡ by_levels (single_level ∷ f) (x ∷ n)
unfolding topic_loop split
at_plus x f n h ih =
    let (fl, fs) = split f in
    let (nl, ns) = split n in
    ground (
      arith,
      ih,
      plus_alone fl fs h,
      split-skip_level n,
      plus_step fs x nl ns,
      plus_mismatch fs (nl ∷ ns),
    )

at_hash :
    (x : ℕ) (f n : List ℕ)
    → IsFilter (multi_level ∷ f)
    → topic_loop (multi_level ∷ f) (x ∷ n) ≡ by_levels (multi_level ∷ f) (x ∷ n)
unfolding topic_loop split
at_hash x f n h =
    let (fl, fs) = split f in
    let (a, b) = hash_alone fl fs h in
    let (nl, ns) = split n in
    let e : f ≡ [] = split_single f a b in
    rw e (ground (arith, hash_step x nl ns, hash_mismatch (nl ∷ ns)))

at_literal :
    (c x : ℕ) (f n : List ℕ)
    → c ≢ separator
    → c ≢ single_level
    → c ≢ multi_level
    → IsFilter (c ∷ f)
    → topic_loop f n ≡ by_levels f n
    → topic_loop (c ∷ f) (x ∷ n) ≡ by_levels (c ∷ f) (x ∷ n)
unfolding topic_loop split same
at_literal c x f n a b d h ih =
    let (fl, fs) = split f in
    let (nl, ns) = split n in
    let k : is_filter (c ∷ fl) fs ≡ true = behind_literal c f a h in
    let plain : is_plain (c ∷ fl) ≡ true = literal-is_plain c fl fs b d k in
    let rest : is_plain fl ≡ true = plain_rest c fl plain in
    ground (
      arith,
      ih,
      plain,
      rest,
      literal_step c fl fs nl ns plain rest,
      literal_mismatch c fl fs [] (nl ∷ ns) plain,
      literal_mismatch c fl fs (x ∷ nl) ns plain,
    )

behind_separator : (f : List ℕ) → IsFilter (separator ∷ f) → IsFilter f
unfolding split is_filter
behind_separator f h = ground arith

IsFilter-behind : (c : ℕ) (f : List ℕ) → IsFilter (c ∷ f) → IsFilter f
unfolding split is_filter
IsFilter-behind c f h = elim (ℕ_discrete c separator) [
  | yes e ↦ behind_separator f (subst (λ k. IsFilter (k ∷ f)) e h)
  | no e ↦ is_filter_rest c (split f).0 (split f).1 (behind_literal c f e h)
]

round :
    (c x : ℕ) (f n : List ℕ)
    → IsFilter (c ∷ f)
    → topic_loop f n ≡ by_levels f n
    → topic_loop f (skip_level n) ≡ by_levels f (skip_level n)
    → topic_loop (c ∷ f) (x ∷ n) ≡ by_levels (c ∷ f) (x ∷ n)
round c x f n h next past = elim (ℕ_discrete c separator) [
  | yes e ↦
      subst (λ k. topic_loop (k ∷ f) (x ∷ n) ≡ by_levels (k ∷ f) (x ∷ n)) (sym e)
        (at_separator x f n next)
  | no a ↦ elim (ℕ_discrete c single_level) [
    | yes e ↦
        subst (λ k. topic_loop (k ∷ f) (x ∷ n) ≡ by_levels (k ∷ f) (x ∷ n)) (sym e)
          (at_plus x f n (subst (λ k. IsFilter (k ∷ f)) e h) past)
    | no b ↦ elim (ℕ_discrete c multi_level) [
      | yes e ↦
          subst (λ k. topic_loop (k ∷ f) (x ∷ n) ≡ by_levels (k ∷ f) (x ∷ n)) (sym e)
            (at_hash x f n (subst (λ k. IsFilter (k ∷ f)) e h))
      | no d ↦ at_literal c x f n a b d h next
    ]
  ]
]

-- The loop decides the match of the levels, for every filter and every topic.
pub topic_loop-levels :
    (filter name : List ℕ) → IsFilter filter → topic_loop filter name ≡ by_levels filter name
unfolding topic_loop split levels_match is_wildcard level_matches same
topic_loop-levels [] [] h = refl
topic_loop-levels [] (n ∷ name) h = ground arith
topic_loop-levels (c ∷ filter) [] h = let (fl, fs) = split filter in ground (arith, ended c fl fs)
topic_loop-levels (c ∷ filter) (n ∷ name) h =
    round c n filter name h (topic_loop-levels filter name (IsFilter-behind c filter h))
      (topic_loop-levels filter (skip_level name) (IsFilter-behind c filter h))

-- For every filter whose wildcards fill their levels, with `#` in the last one, and every topic whose
-- characters are in the object that `lenstring` points at: isTopicMatched tells whether the levels
-- match. Equal levels match, `+` matches a level that is not empty, and `#` matches the levels from
-- one that is not empty on.
pub is_topic_matched-levels :
    (filter name : List ℕ) (topic : MqttString)
    → is_filter (split filter).0 (split filter).1 ≡ true
    → topic_chars topic ≡ some name
    → is_topic_matched filter topic
      ≡ some (levels_match (split filter).0 (split filter).1 (split name).0 (split name).1)
unfolding is_topic_matched
is_topic_matched-levels filter name topic h k = rw (k, topic_loop-levels filter name h) refl
