-- ===== src/Cpp/Reachable.antt =====
-- The states that a client of paho/MQTTClient/src/MQTTClient.h can reach: a step is a call that
-- returned.
use fembed_lwip.Common.{
  ℕ, zero, suc, ◌≡◌, refl, ◌∙◌, arith, ℤ, List, Option, none, replicate, length, Bool-cases, inl,
  inr,
}
use fembed_lwip.Packet.Publish.{PublishArgs}
use fembed_lwip.Packet.Connect.{ConnectData}
use fembed_lwip.Client.Run.{returned}
use fembed_lwip.Client.State.{Slot}
use fembed_lwip.Cpp.Platform.{Platform}
use fembed_lwip.Cpp.State.{
  Config, Client, Sys, clear_all, clean_session, close_session, construct,
  set_default_message_handler,
}
use fembed_lwip.Cpp.Inbox.{IsUnique}
use fembed_lwip.Cpp.Handlers.{set_message_handler}
use fembed_lwip.Cpp.Cycle.{client_yield}
use fembed_lwip.Cpp.Calls.{
  client_connect, client_subscribe, client_unsubscribe, client_publish, client_disconnect,
}
use fembed_lwip.Cpp.Sound.{IsSound, length-drop_filters, clear_all-IsUnique}
use fembed_lwip.Cpp.Publishing.{publish-Keeps}
use fembed_lwip.Cpp.Invariant.{
  connect-Keeps, subscribe-Keeps, unsubscribe-Keeps, disconnect-Keeps, yield-Keeps,
  set_message_handler-IsSound,
}

length-replicate : {H : Type 0} (n : ℕ) (slot : Slot H) → length (replicate n slot) ≡ n
length-replicate zero slot = refl
length-replicate (suc n) slot = omega (arith, length-replicate n slot)

module _ {H W : Type 0} (g : Config) (p : Platform H W) where
  pub data Step : Sys H W → Sys H W → Type 0 where
    connects :
        {s s1 : Sys H W} (turns rounds : ℕ) (options : ConnectData) (rc : ℤ)
        → client_connect g p turns rounds options s ≡ returned (rc, s1)
        → Step s s1
    publishes :
        {s s1 : Sys H W} (turns rounds : ℕ) (topic_name : List ℕ) (args : PublishArgs) (rc : ℤ)
        → client_publish g p turns rounds topic_name args s ≡ returned (rc, s1)
        → Step s s1
    subscribes :
        {s s1 : Sys H W} (turns rounds : ℕ) (topic_filter : List ℕ) (qos : ℕ) (callback : Option H)
        (rc : ℤ)
        → client_subscribe g p turns rounds topic_filter qos callback s ≡ returned (rc, s1)
        → Step s s1
    unsubscribes :
        {s s1 : Sys H W} (turns rounds : ℕ) (topic_filter : List ℕ) (rc : ℤ)
        → client_unsubscribe g p turns rounds topic_filter s ≡ returned (rc, s1)
        → Step s s1
    yields :
        {s s1 : Sys H W} (turns rounds timeout_ms : ℕ) (rc : ℤ)
        → client_yield g p turns rounds timeout_ms s ≡ returned (rc, s1)
        → Step s s1
    disconnects :
        {s s1 : Sys H W} (rounds : ℕ) (rc : ℤ)
        → client_disconnect g p rounds s ≡ returned (rc, s1)
        → Step s s1
    registers :
        {s : Sys H W} (topic_filter : List ℕ) (callback : Option H)
        → Step s (record s { client = (set_message_handler topic_filter callback s.client).1 })
    defaults :
        {s : Sys H W} (callback : Option H)
        → Step s (record s { client = set_default_message_handler callback s.client })

  -- The constructor leaves whatever the object held in the members that it does not assign.
  pub data Reachable : Sys H W → Type 0 where
    constructed : (c : Client H) (w : W) → Reachable (record { client = construct g c; world = w })
    stepped : {s s1 : Sys H W} → Reachable s → Step s s1 → Reachable s1

  construct-IsSound : (c : Client H) → IsSound g (construct g c)
  unfolding construct close_session clean_session clear_all IsUnique
  construct-IsSound c = elim (Bool-cases g.qos2) [
    | inl e ↦ rw e (record {
      unique = clear_all-IsUnique c.incoming_qos2_messages;
      slots =
          length-drop_filters
            (replicate g.max_message_handlers (record { topic_filter = none; fp = none }))
          ∙ length-replicate g.max_message_handlers _;
      pings = omega arith;
      number = omega arith;
    })
    | inr e ↦ rw e (record {
      unique = tt;
      slots =
          length-drop_filters
            (replicate g.max_message_handlers (record { topic_filter = none; fp = none }))
          ∙ length-replicate g.max_message_handlers _;
      pings = omega arith;
      number = omega arith;
    })
  ]

  step-IsSound : {s s1 : Sys H W} → Step s s1 → IsSound g s.client → IsSound g s1.client
  unfolding set_default_message_handler
  step-IsSound (connects turns rounds options rc e) i =
      connect-Keeps g p turns rounds options _ i _ e
  step-IsSound (publishes turns rounds topic_name args rc e) i =
      publish-Keeps g p turns rounds topic_name args _ i _ e
  step-IsSound (subscribes turns rounds topic_filter qos callback rc e) i =
      subscribe-Keeps g p turns rounds topic_filter qos callback _ i _ e
  step-IsSound (unsubscribes turns rounds topic_filter rc e) i =
      unsubscribe-Keeps g p turns rounds topic_filter _ i _ e
  step-IsSound (yields turns rounds timeout_ms rc e) i =
      yield-Keeps g p turns rounds timeout_ms _ i _ e
  step-IsSound (disconnects rounds rc e) i = disconnect-Keeps g p rounds _ i _ e
  step-IsSound (registers topic_filter callback) i =
      set_message_handler-IsSound g p topic_filter callback _ i
  step-IsSound (defaults callback) i = record {
    unique = i.unique;
    slots = i.slots;
    pings = i.pings;
    number = i.number;
  }

  -- In every state that calls of the client lead to from its construction, on any platform and
  -- whatever the network delivers: no identifier but 0 stands twice among the incoming messages of
  -- quality of service 2, the table of handlers has its size, at most six pings are outstanding, and
  -- the last packet identifier is at most 65535.
  pub reachable-IsSound : (s : Sys H W) → Reachable s → IsSound g s.client
  reachable-IsSound s (constructed c w) = construct-IsSound c
  reachable-IsSound s (stepped r e) = step-IsSound e (reachable-IsSound _ r)
