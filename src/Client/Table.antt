-- ===== src/Client/Table.antt =====
-- The message handlers of MQTTSetMessageHandler as a bounded map from filters to functions.
use fembed_lwip.Common.{
  ℕ, suc, ◌+◌, ◌-◌, ◌≤◌, ◌≡◌, refl, arith, List, [], ◌∷◌, Bool, true, false, Option, none, some,
  if◌then◌else◌, set, length, length-set,
}
use fembed_lwip.Common.{Bool-cases, Option-cases, inl, inr}
use fembed_lwip.Client.State.{Slot, Client, success}
use fembed_lwip.Client.Handlers.{
  strcmp_eq, has_filter, is_free, find_slot, add_handler, remove_handler, set_message_handler,
}

strcmp_eq_sound : (a b : List ℕ) → strcmp_eq a b ≡ true → a ≡ b
unfolding strcmp_eq
strcmp_eq_sound [] [] h = refl
strcmp_eq_sound [] (y ∷ b) h = ground arith
strcmp_eq_sound (x ∷ a) [] h = ground arith
strcmp_eq_sound (x ∷ a) (y ∷ b) h = ground (arith, strcmp_eq_sound a b)

module _ {H : Type 0} where
  -- The function that the first slot of the filter holds.
  unfoldable pub handler_of : List ℕ → List (Slot H) → Option H
  handler_of filter [] = none
  handler_of filter (slot ∷ slots) =
      let rest = handler_of filter slots in if has_filter filter slot then slot.fp else rest

  abbrev pub filled : List ℕ → H → Slot H
  filled filter fp = record { topic_filter = some filter; fp = some fp }

  find_slot_le :
      (test : Slot H → Bool) (i j : ℕ) (slots : List (Slot H))
      → find_slot test i slots ≡ some j
      → i ≤ j
  unfolding find_slot
  find_slot_le test i j [] h = ground arith
  find_slot_le test i j (slot ∷ slots) h = ground (arith, find_slot_le test (i + 1) j slots)

  has_filter-same :
      (f g : List ℕ) (slot : Slot H) → has_filter f slot ≡ true → has_filter g slot ≡ strcmp_eq f g
  has_filter-same f g slot h = elim (Option-cases slot.topic_filter) [
    | inl e ↦ ground arith
    | inr (t, e) ↦ rw (e, strcmp_eq_sound t f (ground arith)) refl
  ]

  has_filter-other :
      (f g : List ℕ) (slot : Slot H)
      → has_filter f slot ≡ false
      → strcmp_eq f g ≡ true
      → has_filter g slot ≡ false
  has_filter-other f g slot h e = rw (← strcmp_eq_sound f g e) h

  replace_lem :
      (f g : List ℕ) (fp : H) (i j : ℕ) (slots : List (Slot H))
      → find_slot (has_filter f) i slots ≡ some j
      → handler_of g (set slots (j - i) (filled f fp))
        ≡ (if strcmp_eq f g then some fp else handler_of g slots)
  unfolding find_slot handler_of
  replace_lem f g fp i j [] h = ground arith
  replace_lem f g fp i j (slot ∷ slots) h = elim (Bool-cases (has_filter f slot)) [
    | inl e ↦
        let same = has_filter-same f g slot e in
        let at : j - i ≡ 0 = ground arith in rw at (ground arith)
    | inr e ↦
        let rest : find_slot (has_filter f) (i + 1) slots ≡ some j = ground arith in
        let le = find_slot_le (has_filter f) (i + 1) j slots rest in
        let again = replace_lem f g fp (i + 1) j slots rest in
        let step : j - i ≡ suc (j - (i + 1)) = omega arith in
        rw (step, again) (ground (arith, has_filter-other f g slot e))
  ]

  -- A free slot is filled where no slot has the filter.
  fill_lem :
      (f g : List ℕ) (fp : H) (i j : ℕ) (slots : List (Slot H))
      → find_slot (has_filter f) i slots ≡ none
      → find_slot is_free i slots ≡ some j
      → handler_of g (set slots (j - i) (filled f fp))
        ≡ (if strcmp_eq f g then some fp else handler_of g slots)
  unfolding find_slot handler_of
  fill_lem f g fp i j [] n h = ground arith
  fill_lem f g fp i j (slot ∷ slots) n h =
      let e : has_filter f slot ≡ false = ground arith in
      let none_left : find_slot (has_filter f) (i + 1) slots ≡ none = ground arith in
      elim (Bool-cases (is_free slot)) [
        | inl free ↦ let at : j - i ≡ 0 = ground arith in rw at (ground arith)
        | inr full ↦
            let rest : find_slot is_free (i + 1) slots ≡ some j = ground arith in
            let le = find_slot_le is_free (i + 1) j slots rest in
            let again = fill_lem f g fp (i + 1) j slots none_left rest in
            let step : j - i ≡ suc (j - (i + 1)) = omega arith in
            rw (step, again) (ground (arith, has_filter-other f g slot e))
      ]

  -- Emptying the slot of a filter leaves the other filters alone.
  empty_lem :
      (f g : List ℕ) (i j : ℕ) (slots : List (Slot H))
      → strcmp_eq f g ≡ false
      → find_slot (has_filter f) i slots ≡ some j
      → handler_of g (set slots (j - i) (record { topic_filter = none; fp = none }))
        ≡ handler_of g slots
  unfolding find_slot handler_of
  empty_lem f g i j [] d h = ground arith
  empty_lem f g i j (slot ∷ slots) d h = elim (Bool-cases (has_filter f slot)) [
    | inl e ↦
        let same = has_filter-same f g slot e in
        let at : j - i ≡ 0 = ground arith in rw at (ground arith)
    | inr e ↦
        let rest : find_slot (has_filter f) (i + 1) slots ≡ some j = ground arith in
        let le = find_slot_le (has_filter f) (i + 1) j slots rest in
        let again = empty_lem f g (i + 1) j slots d rest in
        let step : j - i ≡ suc (j - (i + 1)) = omega arith in rw (step, again) (ground arith)
  ]

  -- A registration that succeeds gives the filter the function, leaves every other filter with what
  -- it had, and keeps the number of slots.
  pub set_message_handler_registers :
      (c c1 : Client H) (f g : List ℕ) (fp : H)
      → set_message_handler c f (some fp) ≡ (success, c1)
      → (handler_of g c1.message_handlers
          ≡ (if strcmp_eq f g then some fp else handler_of g c.message_handlers))
        × (length c1.message_handlers ≡ length c.message_handlers)
  unfolding set_message_handler add_handler
  set_message_handler_registers c c1 f g fp h =
      elim (Option-cases (find_slot (has_filter f) 0 c.message_handlers)) [
        | inr (j, e) ↦
            let at : c1.message_handlers ≡ set c.message_handlers (j - 0) (filled f fp) =
              ground arith in
            rw at
              (replace_lem f g fp 0 j c.message_handlers e, length-set c.message_handlers (j - 0) _)
        | inl e ↦ elim (Option-cases (find_slot is_free 0 c.message_handlers)) [
          | inr (j, e1) ↦
              let at : c1.message_handlers ≡ set c.message_handlers (j - 0) (filled f fp) =
                ground arith in
              rw at (
                fill_lem f g fp 0 j c.message_handlers e e1,
                length-set c.message_handlers (j - 0) _,
              )
          | inl e1 ↦ ground arith
        ]
      ]

  -- A removal that succeeds leaves every other filter with what it had, and keeps the number of
  -- slots.
  pub set_message_handler_removes :
      (c c1 : Client H) (f g : List ℕ)
      → strcmp_eq f g ≡ false
      → set_message_handler c f none ≡ (success, c1)
      → (handler_of g c1.message_handlers ≡ handler_of g c.message_handlers)
        × (length c1.message_handlers ≡ length c.message_handlers)
  unfolding set_message_handler remove_handler
  set_message_handler_removes c c1 f g d h =
      elim (Option-cases (find_slot (has_filter f) 0 c.message_handlers)) [
        | inr (j, e) ↦
            let at : c1.message_handlers
                ≡ set c.message_handlers (j - 0) (record { topic_filter = none; fp = none }) =
              ground arith in
            rw at
              (empty_lem f g 0 j c.message_handlers d e, length-set c.message_handlers (j - 0) _)
        | inl e ↦ ground arith
      ]
