-- ===== src/Cpp/Invariant.antt =====
-- The calls of paho/MQTTClient/src/MQTTClient.h as steps, and an invariant of every state they
-- lead to.
use fembed_lwip.Common.{
  ℕ, ◌∙◌, arith, pos, List, [], ◌∷◌, Bool, true, false, not, Option, none, some, length-set, set,
  ltb, if◌then◌else◌, eq_ℤ, Option-cases, inl, inr,
}
use fembed_lwip.Packet.MsgType
use fembed_lwip.Packet.Short.{serialize_disconnect}
use fembed_lwip.Packet.Connect.{ConnectData, is_set, serialize_connect}
use fembed_lwip.Packet.Suback.{deserialize_suback, deserialize_unsuback}
use fembed_lwip.Client.Run.{lift}
use fembed_lwip.Client.State.{Slot, success}
use fembed_lwip.Client.Handlers.{has_filter, is_free, find_slot}
use fembed_lwip.Cpp.Platform.{Platform, call_timer, last_received}
use fembed_lwip.Cpp.State.{Config, Client, get_next}
use fembed_lwip.Cpp.Receive.{receive_limit}
use fembed_lwip.Cpp.Handlers.{set_message_handler}
use fembed_lwip.Cpp.Cycle.{client_yield}
use fembed_lwip.Cpp.Calls.{
  after_reply, read_connack, connect_exit, await_connack, client_connect, read_suback,
  client_subscribe, read_unsuback, client_unsubscribe, client_disconnect,
}
use fembed_lwip.Cpp.Ensures.{ensures_returned, ensures_bind, ensures_any, ensures_if}
use fembed_lwip.Cpp.Sound.{IsSound, close_session-IsSound}
use fembed_lwip.Cpp.Keeps.{send_serialized-Keeps, sound_result}
use fembed_lwip.Cpp.Reach.{
  KeepsAll, yield_loop-Keeps, after_reply-Keeps, when_sent-Keeps, read_connack-Keeps, resend-Keeps,
}

module _ {H W : Type 0} (g : Config) (p : Platform H W) where
  slot_set :
      (c : Client H) (i : ℕ) (slot : Slot H)
      → IsSound g c
      → IsSound g (record c { message_handlers = set c.message_handlers i slot })
  slot_set c i slot h = record {
    unique = h.unique;
    slots = length-set c.message_handlers i slot ∙ h.slots;
    pings = h.pings;
    number = h.number;
  }

  pub set_message_handler-IsSound :
      (filter : List ℕ) (callback : Option H) (c : Client H)
      → IsSound g c
      → IsSound g (set_message_handler filter callback c).1
  unfolding set_message_handler
  set_message_handler-IsSound filter none c i =
      elim (Option-cases (find_slot (has_filter filter) 0 c.message_handlers)) [
        | inr (j, e) ↦ rw (set_message_handler, e) (slot_set c j _ i)
        | inl e ↦ rw (set_message_handler, e) i
      ]
  set_message_handler-IsSound filter (some fp) c i =
      elim (Option-cases (find_slot (has_filter filter) 0 c.message_handlers)) [
        | inr (j, e) ↦ rw (set_message_handler, e) (slot_set c j _ i)
        | inl e ↦ elim (Option-cases (find_slot is_free 0 c.message_handlers)) [
          | inr (j, e1) ↦ rw (set_message_handler, e, e1) (slot_set c j _ i)
          | inl e1 ↦ rw (set_message_handler, e, e1) i
        ]
      ]

  pub number-IsSound : (c : Client H) → IsSound g c → IsSound g (get_next c).1
  unfolding get_next
  number-IsSound c i = record {
    unique = i.unique;
    slots = i.slots;
    pings = i.pings;
    number = ground (arith, i.number);
  }

  pub yield-Keeps :
      (turns rounds timeout_ms : ℕ) → KeepsAll g p (client_yield g p turns rounds timeout_ms)
  unfolding client_yield
  yield-Keeps turns rounds timeout_ms s i = yield_loop-Keeps g p turns rounds _ i

  opened :
      (c : Client H)
      → IsSound g c
      → IsSound g (record c { isconnected = true; ping_outstanding = 0 })
  opened c i = record { unique = i.unique; slots = i.slots; pings = omega arith; number = i.number }

  configured :
      (c : Client H) (interval : ℕ) (clean : Bool)
      → IsSound g c
      → IsSound g (record c { keep_alive_interval = interval; cleansession = clean })
  configured c interval clean i = record {
    unique = i.unique;
    slots = i.slots;
    pings = i.pings;
    number = i.number;
  }

  await_connack-Keeps : (turns rounds : ℕ) → KeepsAll g p (await_connack g p turns rounds)
  unfolding await_connack
  await_connack-Keeps turns rounds s i =
      ensures_bind _ _ (after_reply g p turns rounds MsgType.connack (read_connack g p) _) _
        (after_reply-Keeps g p turns rounds MsgType.connack _ (read_connack-Keeps g p) _
          (counting (ltb 0 s.client.keep_alive_interval)))
        (λ (rc, s2) j. resend-Keeps g p turns rounds rc s2 j)
    where
      counting :
          (t : Bool)
          → IsSound g
              (if t
                then record s {
                  world =
                      p.countdown last_received
                        (receive_limit s.client.keep_alive_interval)
                        s.world;
                }
                else s).client
      counting true = i
      counting false = i

  pub connect-Keeps :
      (turns rounds : ℕ) (options : ConnectData)
      → KeepsAll g p (client_connect g p turns rounds options)
  unfolding client_connect connect_exit
  connect-Keeps turns rounds options s i =
      let c = configured s.client options.keep_alive_interval (is_set options.cleansession) i in
      ensures_if _ s.client.isconnected _ _ (ensures_returned _ _ i) (
        ensures_bind _ _ _ _
          (when_sent-Keeps g p _ (await_connack g p turns rounds)
            (send_serialized-Keeps g p rounds call_timer _
              (serialize_connect s.client.sendbuf g.max_mqtt_packet_size options) c)
            (await_connack-Keeps turns rounds))
          (λ (rc, s1) j.
            ensures_returned _ _ (sound_result g p (eq_ℤ rc success) _ _ (opened s1.client j) j)))

  read_suback-Keeps :
      (filter : List ℕ) (callback : Option H) → KeepsAll g p (read_suback g p filter callback)
  unfolding read_suback
  read_suback-Keeps filter callback s i =
      ensures_any _
        (lift (
          deserialize_suback 1 (record { packetid = p.indeterminate; count = 0; granted = 0 ∷ [] })
            s.client.readbuf))
        _
        (λ (rc, out).
          ensures_if _ _ _ _
            (ensures_returned _ _ (set_message_handler-IsSound filter callback s.client i))
            (ensures_returned _ _ i))

  read_unsuback-Keeps : (filter : List ℕ) → KeepsAll g p (read_unsuback g p filter)
  unfolding read_unsuback
  read_unsuback-Keeps filter s i =
      ensures_any _ (lift (deserialize_unsuback p.indeterminate s.client.readbuf)) _ (λ (rc, id).
        ensures_if _ (eq_ℤ rc (pos 1)) _ _
          (ensures_returned _ _ (set_message_handler-IsSound filter none s.client i))
          (ensures_returned _ _ i))

  pub subscribe-Keeps :
      (turns rounds : ℕ) (filter : List ℕ) (qos : ℕ) (callback : Option H)
      → KeepsAll g p (client_subscribe g p turns rounds filter qos callback)
  unfolding client_subscribe
  subscribe-Keeps turns rounds filter qos callback s i =
      ensures_if _ (not s.client.isconnected) _ _ (ensures_returned _ _ i) (
        when_sent-Keeps g p _ _
          (send_serialized-Keeps g p rounds call_timer _ _ (number-IsSound s.client i))
          (after_reply-Keeps g p turns rounds MsgType.suback _ (read_suback-Keeps filter callback)))

  pub unsubscribe-Keeps :
      (turns rounds : ℕ) (filter : List ℕ)
      → KeepsAll g p (client_unsubscribe g p turns rounds filter)
  unfolding client_unsubscribe
  unsubscribe-Keeps turns rounds filter s i =
      ensures_if _ (not s.client.isconnected) _ _ (ensures_returned _ _ i) (
        when_sent-Keeps g p _ _
          (send_serialized-Keeps g p rounds call_timer _ _ (number-IsSound s.client i))
          (after_reply-Keeps g p turns rounds MsgType.unsuback _ (read_unsuback-Keeps filter)))

  pub disconnect-Keeps : (rounds : ℕ) → KeepsAll g p (client_disconnect g p rounds)
  unfolding client_disconnect
  disconnect-Keeps rounds s i =
      ensures_bind _ _ _ _
        (send_serialized-Keeps g p rounds call_timer _
          (serialize_disconnect s.client.sendbuf g.max_mqtt_packet_size) i)
        (λ (rc, s1) j. ensures_returned _ _ (close_session-IsSound g p s1.client j))
