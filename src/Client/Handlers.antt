-- ===== src/Client/Handlers.antt =====
-- deliverMessage and MQTTSetMessageHandler of paho/MQTTClient-C/src/MQTTClient.c.
use fembed_lwip.Common.{
  ℕ, ◌+◌, ℤ, List, [], ◌∷◌, Bool, true, false, Option, none, some, ◌==◌, if◌then◌else◌, eq_ℤ, set,
}
use fembed_lwip.Wire.Strings.{MqttString, packet_equals}
use fembed_lwip.Client.Run.{Run, returned, lift, ◌>>=◌}
use fembed_lwip.Client.Platform.{Platform, Message}
use fembed_lwip.Client.State.{Slot, Client, Sys, success, failure}
use fembed_lwip.Client.Topics.{is_topic_matched}

-- `strcmp(a, b) == 0`
unfoldable pub strcmp_eq : List ℕ → List ℕ → Bool
strcmp_eq [] [] = true
strcmp_eq [] (y ∷ b) = false
strcmp_eq (x ∷ a) [] = false
strcmp_eq (x ∷ a) (y ∷ b) = let rest = strcmp_eq a b in if x == y then rest else false

-- `MQTTPacket_equals(...) || isTopicMatched(...)`
unfoldable pub filter_accepts : List ℕ → MqttString → Run Bool
filter_accepts filter topic_name = do
  same ← lift (packet_equals topic_name filter)
  if same then returned true else lift (is_topic_matched filter topic_name)

module _ {H W : Type 0} (p : Platform H W) where
  -- The body of the loop of `deliverMessage` for one slot.
  unfoldable pub offer : Slot H → MqttString → Message → ℤ → W → Run (ℤ × W)
  offer slot topic_name message rc w = elim slot.topic_filter [
    | none ↦ returned (rc, w)
    | some filter ↦ filter_accepts filter topic_name >>= λ accepts. elim accepts [
      | false ↦ returned (rc, w)
      | true ↦ elim slot.fp [
        | none ↦ returned (rc, w)
        | some fp ↦ returned (success, p.call_handler fp topic_name message w)
      ]
    ]
  ]

  unfoldable pub deliver_loop : List (Slot H) → MqttString → Message → ℤ → W → Run (ℤ × W)
  deliver_loop [] topic_name message rc w = returned (rc, w)
  deliver_loop (slot ∷ slots) topic_name message rc w = do
    (rc', w') ← offer slot topic_name message rc w
    deliver_loop slots topic_name message rc' w'

  unfoldable pub deliver_default : Option H → MqttString → Message → ℤ → W → ℤ × W
  deliver_default none topic_name message rc w = (rc, w)
  deliver_default (some fp) topic_name message rc w =
      if eq_ℤ rc failure then (success, p.call_handler fp topic_name message w) else (rc, w)

  unfoldable pub deliver_message : MqttString → Message → Sys H W → Run (ℤ × Sys H W)
  deliver_message topic_name message s = do
    (rc, w) ← deliver_loop s.client.message_handlers topic_name message failure s.world
    let (rc', w') = deliver_default s.client.default_message_handler topic_name message rc w
    returned (rc', record s { world = w' })

module _ {H : Type 0} where
  abbrev pub has_filter : List ℕ → Slot H → Bool
  has_filter filter slot = elim slot.topic_filter [ none ↦ false | some f ↦ strcmp_eq f filter ]

  abbrev pub is_free : Slot H → Bool
  is_free slot = elim slot.topic_filter [ none ↦ true | some f ↦ false ]

  -- The loops over the slots: the index at which they break, from `i` on.
  unfoldable pub find_slot : (Slot H → Bool) → ℕ → List (Slot H) → Option ℕ
  find_slot test i [] = none
  find_slot test i (slot ∷ slots) =
      let rest = find_slot test (i + 1) slots in if test slot then some i else rest

  abbrev pub put_slot : Client H → ℕ → Slot H → Client H
  put_slot c i slot = record c { message_handlers = set c.message_handlers i slot }

  -- A handler is registered in the slot of its filter, or else in a free one.
  unfoldable pub add_handler : Client H → List ℕ → H → ℤ × Client H
  add_handler c filter fp =
      let slot : Slot H = record { topic_filter = some filter; fp = some fp } in
      elim (find_slot (has_filter filter) 0 c.message_handlers) [
        | some i ↦ (success, put_slot c i slot)
        | none ↦ elim (find_slot is_free 0 c.message_handlers) [
          | some i ↦ (success, put_slot c i slot)
          | none ↦ (failure, c)
        ]
      ]

  unfoldable pub remove_handler : Client H → List ℕ → ℤ × Client H
  remove_handler c filter = elim (find_slot (has_filter filter) 0 c.message_handlers) [
    | some i ↦ (success, put_slot c i (record { topic_filter = none; fp = none }))
    | none ↦ (failure, c)
  ]

  -- `none` for the handler is NULL.
  unfoldable pub set_message_handler : Client H → List ℕ → Option H → ℤ × Client H
  unfolding add_handler remove_handler
  set_message_handler c filter none = remove_handler c filter
  set_message_handler c filter (some fp) = add_handler c filter fp
