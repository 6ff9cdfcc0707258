-- ===== src/Client/LevelSteps.antt =====
-- How the match of levels goes on behind the first characters of a filter and a topic.
use fembed_lwip.Common.{ℕ, ◌≡◌, ◌≢◌, refl, arith, List, [], ◌∷◌, true, false}
use fembed_lwip.Client.Topics.{single_level, multi_level, skip_level}
use fembed_lwip.Client.Levels.{
  split, is_empty, same, is_wildcard, is_plain, is_filter, level_matches, levels_match,
}

pub split-skip_level : (name : List ℕ) → split (skip_level name) ≡ ([], (split name).1)
unfolding split skip_level
split-skip_level [] = refl
split-skip_level (n ∷ name) = ground (arith, split-skip_level name)

pub split_single : (text : List ℕ) → (split text).0 ≡ [] → (split text).1 ≡ [] → text ≡ []
unfolding split
split_single [] h k = refl
split_single (c ∷ text) h k = ground arith

-- What is left of a filter behind its first character.
pub is_filter_rest :
    (c : ℕ) (level : List ℕ) (levels : List (List ℕ))
    → is_filter (c ∷ level) levels ≡ true
    → is_filter level levels ≡ true
unfolding is_filter is_plain is_wildcard
is_filter_rest c [] [] h = refl
is_filter_rest c (d ∷ level) [] h = ground arith
is_filter_rest c [] (next ∷ levels) h = ground arith
is_filter_rest c (d ∷ level) (next ∷ levels) h = ground arith

pub plain_wildcard :
    (level : List ℕ)
    → is_plain level ≡ true
    → (is_wildcard single_level level ≡ false) × (is_wildcard multi_level level ≡ false)
unfolding is_plain is_wildcard
plain_wildcard [] h = (refl, refl)
plain_wildcard (c ∷ []) h = ground arith
plain_wildcard (c ∷ d ∷ level) h = (refl, refl)

pub literal-is_plain :
    (c : ℕ) (level : List ℕ) (levels : List (List ℕ))
    → c ≢ single_level
    → c ≢ multi_level
    → is_filter (c ∷ level) levels ≡ true
    → is_plain (c ∷ level) ≡ true
unfolding is_filter is_wildcard is_plain
literal-is_plain c [] [] p m h = ground arith
literal-is_plain c (d ∷ level) [] p m h = ground arith
literal-is_plain c [] (next ∷ levels) p m h = ground arith
literal-is_plain c (d ∷ level) (next ∷ levels) p m h = ground arith

pub plain_rest : (c : ℕ) (level : List ℕ) → is_plain (c ∷ level) ≡ true → is_plain level ≡ true
unfolding is_plain
plain_rest c level h = ground arith

-- A character that both levels begin with has no part in their match.
pub literal_step :
    (c : ℕ) (f : List ℕ) (fs : List (List ℕ)) (l : List ℕ) (ls : List (List ℕ))
    → is_plain (c ∷ f) ≡ true
    → is_plain f ≡ true
    → levels_match (c ∷ f) fs (c ∷ l) ls ≡ levels_match f fs l ls
unfolding levels_match level_matches same
literal_step c f [] l [] h k = ground (arith, plain_wildcard (c ∷ f) h, plain_wildcard f k)
literal_step c f [] l (m ∷ ls) h k = ground (arith, plain_wildcard (c ∷ f) h, plain_wildcard f k)
literal_step c f (p ∷ ps) l [] h k = refl
literal_step c f (p ∷ ps) l (m ∷ ls) h k =
    ground (arith, plain_wildcard (c ∷ f) h, plain_wildcard f k)

-- A level that begins with a literal fits no empty level and no other first character.
pub literal_mismatch :
    (c : ℕ) (f : List ℕ) (fs : List (List ℕ)) (l : List ℕ) (ls : List (List ℕ))
    → is_plain (c ∷ f) ≡ true
    → same (c ∷ f) l ≡ false
    → levels_match (c ∷ f) fs l ls ≡ false
unfolding levels_match level_matches
literal_mismatch c f [] l [] h k = ground (arith, plain_wildcard (c ∷ f) h)
literal_mismatch c f [] l (m ∷ ls) h k = ground (arith, plain_wildcard (c ∷ f) h)
literal_mismatch c f (p ∷ ps) l [] h k = refl
literal_mismatch c f (p ∷ ps) l (m ∷ ls) h k = ground (arith, plain_wildcard (c ∷ f) h)

-- An empty level of the filter fits an empty level only.
pub separator_step :
    (f : List ℕ) (fs : List (List ℕ)) (l : List ℕ) (ls : List (List ℕ))
    → levels_match [] (f ∷ fs) [] (l ∷ ls) ≡ levels_match f fs l ls
unfolding levels_match level_matches same is_wildcard
separator_step f fs l ls = refl

pub empty_mismatch :
    (fs : List (List ℕ)) (c : ℕ) (l : List ℕ) (ls : List (List ℕ))
    → levels_match [] fs (c ∷ l) ls ≡ false
unfolding levels_match level_matches same is_wildcard
empty_mismatch [] c l [] = refl
empty_mismatch [] c l (m ∷ ls) = refl
empty_mismatch (p ∷ ps) c l [] = refl
empty_mismatch (p ∷ ps) c l (m ∷ ls) = refl

pub plus_step :
    (fs : List (List ℕ)) (c : ℕ) (l : List ℕ) (ls : List (List ℕ))
    → levels_match (single_level ∷ []) fs (c ∷ l) ls ≡ levels_match [] fs [] ls
unfolding levels_match level_matches same is_wildcard is_empty
plus_step [] c l [] = refl
plus_step [] c l (m ∷ ls) = refl
plus_step (p ∷ ps) c l [] = refl
plus_step (p ∷ ps) c l (m ∷ ls) = refl

pub plus_mismatch :
    (fs : List (List ℕ)) (ls : List (List ℕ)) → levels_match (single_level ∷ []) fs [] ls ≡ false
unfolding levels_match level_matches same is_wildcard is_empty
plus_mismatch [] [] = refl
plus_mismatch [] (m ∷ ls) = refl
plus_mismatch (p ∷ ps) [] = refl
plus_mismatch (p ∷ ps) (m ∷ ls) = refl

-- What stands behind a wildcard in its level, and behind `#`.
pub plus_alone : (f : List ℕ) (fs : List (List ℕ)) → is_filter (single_level ∷ f) fs ≡ true → f ≡ []
unfolding is_filter is_wildcard is_plain
plus_alone [] fs h = refl
plus_alone (c ∷ f) [] h = ground arith
plus_alone (c ∷ f) (p ∷ ps) h = ground arith

pub hash_alone :
    (f : List ℕ) (fs : List (List ℕ)) → is_filter (multi_level ∷ f) fs ≡ true → (f ≡ []) × (fs ≡ [])
unfolding is_filter is_wildcard is_plain
hash_alone [] [] h = (refl, refl)
hash_alone (c ∷ f) [] h = ground arith
hash_alone [] (p ∷ ps) h = ground arith
hash_alone (c ∷ f) (p ∷ ps) h = ground arith

pub hash_step :
    (c : ℕ) (l : List ℕ) (ls : List (List ℕ)) → levels_match (multi_level ∷ []) [] (c ∷ l) ls ≡ true
unfolding levels_match is_wildcard is_empty
hash_step c l [] = refl
hash_step c l (m ∷ ls) = refl

pub hash_mismatch : (ls : List (List ℕ)) → levels_match (multi_level ∷ []) [] [] ls ≡ false
unfolding levels_match is_wildcard is_empty
hash_mismatch [] = refl
hash_mismatch (m ∷ ls) = refl

pub ended : (c : ℕ) (f : List ℕ) (fs : List (List ℕ)) → levels_match (c ∷ f) fs [] [] ≡ false
unfolding levels_match level_matches same is_empty
ended c f [] = ground arith
ended c f (p ∷ ps) = refl
