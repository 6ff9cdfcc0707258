-- ===== src/Cpp/Handlers.antt =====
-- deliverMessage and setMessageHandler of paho/MQTTClient/src/MQTTClient.h. isTopicMatched and the
-- comparison of filters are those of the C client.
use fembed_lwip.Common.{
  ℕ, ℤ, List, [], ◌∷◌, true, false, Option, none, some, if◌then◌else◌, eq_ℤ, set,
}
use fembed_lwip.Wire.Strings.{MqttString}
use fembed_lwip.Client.Run.{Run, returned, ◌>>=◌}
use fembed_lwip.Client.Platform.{Message}
use fembed_lwip.Client.State.{Slot, success, failure}
use fembed_lwip.Client.Handlers.{filter_accepts, has_filter, is_free, find_slot}
use fembed_lwip.Cpp.Platform.{Platform}
use fembed_lwip.Cpp.State.{Client, Sys}

module _ {H W : Type 0} (p : Platform H W) where
  -- The body of the loop for one slot: a matching filter, then an attached function.
  unfoldable pub offer : Slot H → MqttString → Message → ℤ → W → Run (ℤ × W)
  offer slot topic_name message rc w = elim slot.topic_filter [
    | none ↦ returned (rc, w)
    | some filter ↦ filter_accepts filter topic_name >>= λ accepts. elim accepts [
      | false ↦ returned (rc, w)
      | true ↦ elim slot.fp [
        | none ↦ returned (rc, w)
        | some fp ↦ returned (success, p.call fp topic_name message w)
      ]
    ]
  ]

  unfoldable pub deliver_loop : List (Slot H) → MqttString → Message → ℤ → W → Run (ℤ × W)
  deliver_loop [] topic_name message rc w = returned (rc, w)
  deliver_loop (slot ∷ slots) topic_name message rc w = do
    (rc', w') ← offer slot topic_name message rc w
    deliver_loop slots topic_name message rc' w'

  -- `rc == FAILURE && defaultMessageHandler.attached()`
  unfoldable pub deliver_default : Option H → MqttString → Message → ℤ → W → ℤ × W
  deliver_default none topic_name message rc w = (rc, w)
  deliver_default (some fp) topic_name message rc w =
      if eq_ℤ rc failure then (success, p.call fp topic_name message w) else (rc, w)

  unfoldable pub deliver_message : MqttString → Message → Sys H W → Run (ℤ × Sys H W)
  deliver_message topic_name message s = do
    (rc, w) ← deliver_loop s.client.message_handlers topic_name message failure s.world
    let (rc', w') = deliver_default s.client.default_message_handler topic_name message rc w
    returned (rc', record s { world = w' })

module _ {H : Type 0} where
  abbrev put_slot : Client H → ℕ → Slot H → Client H
  put_slot c i slot = record c { message_handlers = set c.message_handlers i slot }

  -- Both overloads, which attach to the same member; `none` is NULL. `malloc` is taken to succeed.
  unfoldable pub set_message_handler : List ℕ → Option H → Client H → ℤ × Client H
  set_message_handler filter callback c =
      elim (find_slot (has_filter filter) 0 c.message_handlers) [
        | some i ↦ elim callback [
          | none ↦ (success, put_slot c i (record { topic_filter = none; fp = none }))
          | some fp ↦ (success, put_slot c i (record { topic_filter = some filter; fp = some fp }))
        ]
        | none ↦ elim callback [
          | none ↦ (failure, c)
          | some fp ↦ elim (find_slot is_free 0 c.message_handlers) [
            | some i ↦ (success, put_slot c i (record { topic_filter = some filter; fp = some fp }))
            | none ↦ (failure, c)
          ]
        ]
      ]
