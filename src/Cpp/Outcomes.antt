-- ===== src/Cpp/Outcomes.antt =====
-- What the results of the calls of paho/MQTTClient/src/MQTTClient.h say about the session.
use fembed_lwip.Common.{
  ℕ, ◌<◌, lt→ltb, ◌≡◌, refl, sym, ◌∙◌, arith, ℤ, pos, List, [], ◌∷◌, ap, ◌⊎◌, true, false, ◌&&◌,
  ltb, ◌==◌, Bool-cases, inl, inr,
}
use fembed_lwip.Packet.MsgType
use fembed_lwip.Packet.Publish.{PublishOut}
use fembed_lwip.Client.Run.{returned, ◌>>=◌, bind_returned}
use fembed_lwip.Client.Cycle.{message_of}
use fembed_lwip.Cpp.Platform.{Platform, call_timer, send_timer}
use fembed_lwip.Cpp.State.{Config, Sys, close_session}
use fembed_lwip.Cpp.Inbox.{is_qos2msgid_free, use_qos2msgid, use_qos2msgid_takes}
use fembed_lwip.Cpp.Receive.{read_packet}
use fembed_lwip.Cpp.Handlers.{deliver_message}
use fembed_lwip.Cpp.Cycle.{deliver_once, dispatch, after_switch, cycle_exit, cycle, with_incoming}
use fembed_lwip.Cpp.Calls.{resend}
use fembed_lwip.Cpp.Ensures.{returned_injective}
use mathlib.Core.Path.{subst}
use fembed_lwip.Cpp.Delivery.{deliver_message_same}

-- A table with no room is left as it was.
use_qos2msgid_full :
    (id : ℕ) (ms : List ℕ) → (use_qos2msgid id ms).0 ≡ false → (use_qos2msgid id ms).1 ≡ ms
unfolding use_qos2msgid
use_qos2msgid_full id [] h = refl
use_qos2msgid_full id (m ∷ ms) h = elim (Bool-cases (m == 0)) [
  | inl z ↦ absurd (ground arith)
  | inr z ↦ rw z (ap (λ l. m ∷ l) (use_qos2msgid_full id ms (rw z at h)))
]

module _ {H W : Type 0} (g : Config) (p : Platform H W) where
  once_more :
      (out : PublishOut) (s : Sys H W)
      → g.qos2 ≡ true
      → out.qos ≡ 2
      → is_qos2msgid_free out.packetid s.client.incoming_qos2_messages ≡ false
      → deliver_once g p out s ≡ returned s
  unfolding deliver_once
  once_more out s q e h = ground arith

  once_stored :
      (out : PublishOut) (s : Sys H W)
      → g.qos2 ≡ true
      → out.qos ≡ 2
      → is_qos2msgid_free out.packetid s.client.incoming_qos2_messages ≡ true
      → (use_qos2msgid out.packetid s.client.incoming_qos2_messages).0 ≡ true
      → deliver_once g p out s ≡ (
          deliver_message p out.topic_name
            (message_of out)
            (with_incoming g p s (use_qos2msgid out.packetid s.client.incoming_qos2_messages).1)
          >>= λ (rc, s2). returned s2)
  unfolding deliver_once
  once_stored out s q e f t = ground arith

  once_full :
      (out : PublishOut) (s : Sys H W)
      → g.qos2 ≡ true
      → out.qos ≡ 2
      → is_qos2msgid_free out.packetid s.client.incoming_qos2_messages ≡ true
      → (use_qos2msgid out.packetid s.client.incoming_qos2_messages).0 ≡ false
      → deliver_once g p out s
        ≡ returned
            (with_incoming g p s (use_qos2msgid out.packetid s.client.incoming_qos2_messages).1)
  unfolding deliver_once
  once_full out s q e f t = ground arith

  -- With MQTTCLIENT_QOS2, handling a message of quality of service 2 that was handled just before
  -- does nothing: it is not handed to any handler again, and the client stays as it is.
  pub deliver_once_idempotent :
      (out : PublishOut) (s s1 : Sys H W)
      → g.qos2 ≡ true
      → out.qos ≡ 2
      → deliver_once g p out s ≡ returned s1
      → deliver_once g p out s1 ≡ returned s1
  deliver_once_idempotent out s s1 q e h =
      let ids : List ℕ = s.client.incoming_qos2_messages in
      elim (Bool-cases (is_qos2msgid_free out.packetid ids)) [
        | inr used ↦
            let same : s ≡ s1 = returned_injective s s1 (sym (once_more out s q e used) ∙ h) in
            subst (λ t. deliver_once g p out t ≡ returned t) same (once_more out s q e used)
        | inl free ↦ elim (Bool-cases (use_qos2msgid out.packetid ids).0) [
          | inl took ↦
              let (a, e1, e2) =
                bind_returned
                  (deliver_message p out.topic_name (message_of out)
                    (with_incoming g p s (use_qos2msgid out.packetid ids).1))
                  (λ (rc, s2). returned s2) s1 (sym (once_stored out s q e free took) ∙ h) in
              let same : a.1.client
                  ≡ (with_incoming g p s (use_qos2msgid out.packetid ids).1).client =
                deliver_message_same g p out.topic_name (message_of out) _ a e1 in
              let last : a.1 ≡ s1 = returned_injective a.1 s1 e2 in
              once_more out s1 q e (rw (← last, same) (use_qos2msgid_takes out.packetid ids took))
          | inr full ↦
              let same : s ≡ s1 = returned_injective s s1 (
                rw (use_qos2msgid_full out.packetid ids full) at
                  (sym (once_full out s q e free full) ∙ h)) in
              subst (λ t. deliver_once g p out t ≡ returned t) same
                (subst (λ t. deliver_once g p out s ≡ returned t) (sym same) h)
        ]
      ]

  -- An UNSUBACK, or the type 1 that `readPacket` returns when a body does not come, read while the
  -- client is connected and stays so: `cycle` returns that type, as for a packet that it handled,
  -- but closes the session.
  pub cycle_unhandled :
      (rounds t : ℕ) (s s1 : Sys H W)
      → read_packet g p call_timer (record s { world = p.timer_default send_timer s.world })
        ≡ returned (pos t, s1)
      → s1.client.isconnected ≡ true
      → (t ≡ MsgType.connect) ⊎ (t ≡ MsgType.unsuback)
      → cycle g p rounds s ≡ returned (pos t, record s1 { client = close_session g s1.client })
  unfolding cycle dispatch after_switch cycle_exit
  cycle_unhandled rounds t s s1 e c (inl h) = rw (e, h) (ground arith)
  cycle_unhandled rounds t s s1 e c (inr h) = rw (e, h) (ground arith)

  -- While a message is in flight, what `connect` returns does not depend on the answer of the
  -- server: `rc` is overwritten by the result of sending the message again, so that a refused
  -- connection is taken for a good one.
  pub resend_ignores :
      (turns rounds : ℕ) (rc rc1 : ℤ) (s : Sys H W)
      → 0 < s.client.inflight_msgid
      → resend g p turns rounds rc s ≡ resend g p turns rounds rc1 s
  unfolding resend
  resend_ignores turns rounds rc rc1 s h =
      let set : ltb 0 s.client.inflight_msgid ≡ true = lt→ltb 0 _ h in
      elim (Bool-cases (
        g.qos2
        && (ltb 0 s.client.inflight_msgid && (s.client.inflight_qos == 2 && s.client.pubrel)))) [
          | inl e ↦ rw e refl
          | inr e ↦ rw (e, set) refl
        ]
