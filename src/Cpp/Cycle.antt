-- ===== src/Cpp/Cycle.antt =====
-- cycle, yield and waitfor of paho/MQTTClient/src/MQTTClient.h.
use fembed_lwip.Common.{
  ℕ, zero, suc, ℤ, pos, negsuc, List, [], Bool, true, false, ◌&&◌, ◌||◌, Option, none, some, ltb,
  ◌==◌, if◌then◌else◌, eq_ℤ, is_neg,
}
use fembed_lwip.Wire.Strings.{mqtt_string_initializer}
use fembed_lwip.Packet.MsgType
use fembed_lwip.Packet.Ack.{serialize_ack, deserialize_ack}
use fembed_lwip.Packet.Publish.{PublishOut, deserialize_publish}
use fembed_lwip.Client.Run.{Run, returned, unfinished, lift, ◌>>=◌}
use fembed_lwip.Client.State.{success, failure}
use fembed_lwip.Client.Cycle.{Jump, go_on, go_exit, message_of, answer_to_publish, answer_to_ack}
use fembed_lwip.Cpp.Platform.{Platform, TimerId, call_timer, send_timer}
use fembed_lwip.Cpp.State.{Config, Sys, close_session}
use fembed_lwip.Cpp.Inbox.{is_qos2msgid_free, use_qos2msgid, free_qos2msgid}
use fembed_lwip.Cpp.Send.{send_packet, keepalive}
use fembed_lwip.Cpp.Receive.{read_packet}
use fembed_lwip.Cpp.Handlers.{deliver_message}

module _ {H W : Type 0} (g : Config) (p : Platform H W) where
  abbrev with_sendbuf : Sys H W → List ℕ → Sys H W
  with_sendbuf s buf = record s { client = record s.client { sendbuf = buf } }

  abbrev pub with_incoming : Sys H W → List ℕ → Sys H W
  with_incoming s ids = record s { client = record s.client { incoming_qos2_messages = ids } }

  -- `len <= 0` is a failure, and otherwise the `len` bytes are sent.
  unfoldable pub send_serialized : ℕ → TimerId → Sys H W → Option (ℤ × List ℕ) → Run (ℤ × Sys H W)
  send_serialized rounds timer s serialized = do
    (len, buf) ← lift serialized
    elim len [
      | negsuc n ↦ returned (failure, with_sendbuf s buf)
      | pos n ↦
          if ltb 0 n
          then send_packet g p rounds n timer (with_sendbuf s buf)
          else returned (failure, with_sendbuf s buf)
    ]

  -- A message of quality of service 2 is delivered once, when its identifier is stored.
  unfoldable pub deliver_once : PublishOut → Sys H W → Run (Sys H W)
  deliver_once out s =
      if g.qos2 && out.qos == 2
      then (if is_qos2msgid_free out.packetid s.client.incoming_qos2_messages
          then (let (stored, ids) = use_qos2msgid out.packetid s.client.incoming_qos2_messages in
              let s1 = with_incoming s ids in
              if stored
              then (deliver_message p out.topic_name (message_of out) s1 >>= λ (_, s2). returned s2)
              else returned s1)
          else returned s)
      else (deliver_message p out.topic_name (message_of out) s >>= λ (_, s1). returned s1)

  abbrev after_send : Run (ℤ × Sys H W) → Run (Jump × ℤ × Sys H W)
  after_send m = m >>= λ (rc, s). returned (if eq_ℤ rc failure then go_exit else go_on, rc, s)

  unfoldable pub answer_publish : ℕ → PublishOut → Sys H W → Run (Jump × ℤ × Sys H W)
  answer_publish rounds out s =
      if out.qos == 0 then returned (go_on, success, s) else elim (answer_to_publish out.qos) [
        | none ↦ returned (go_exit, failure, s)
        | some answer ↦ after_send (
            send_serialized rounds send_timer s
              (serialize_ack s.client.sendbuf g.max_mqtt_packet_size answer 0 out.packetid))
      ]

  -- What the variables hold before a packet is read into them.
  abbrev pub unread_publish : PublishOut
  unread_publish =
      let x = p.indeterminate in
      record {
        dup = x;
        qos = x;
        retained = x;
        packetid = x;
        topic_name = mqtt_string_initializer;
        payload = [];
        payloadlen = pos 0;
      }

  -- `case PUBLISH`
  unfoldable pub on_publish : ℕ → Sys H W → Run (Jump × ℤ × Sys H W)
  on_publish rounds s = lift (deserialize_publish unread_publish s.client.readbuf) >>= λ (rc, out).
      if eq_ℤ rc (pos 1)
      then (deliver_once out s >>= λ s1. answer_publish rounds out s1)
      else returned (go_exit, success, s)

  -- `if (packet_type == PUBREL) freeQoS2msgid(mypacketid);`
  abbrev pub released : ℕ → ℕ → Sys H W → Sys H W
  released packet_type id s =
      if packet_type == MsgType.pubrel
      then with_incoming s (free_qos2msgid id s.client.incoming_qos2_messages)
      else s

  -- `case PUBREC` and `case PUBREL`
  unfoldable pub on_ack : ℕ → ℕ → Sys H W → Run (Jump × ℤ × Sys H W)
  on_ack rounds packet_type s =
      let x = p.indeterminate in
      lift (deserialize_ack (record { packettype = x; dup = x; packetid = x }) s.client.readbuf)
      >>= λ (rc, out).
          if eq_ℤ rc (pos 1)
          then (send_serialized rounds send_timer s (
                serialize_ack s.client.sendbuf g.max_mqtt_packet_size (answer_to_ack packet_type) 0
                  out.packetid)
              >>= λ (sent, s1).
                  if eq_ℤ sent success
                  then returned (go_on, success, released packet_type out.packetid s1)
                  else returned (go_exit, failure, s1))
          else returned (go_exit, failure, s)

  -- The types that need nothing but `keepalive`; UNSUBACK is not among them.
  abbrev pub is_quiet : ℕ → Bool
  is_quiet t =
      t == 0
      || (t == MsgType.connack
          || (t == MsgType.puback || (t == MsgType.suback || (g.qos2 && t == MsgType.pubcomp))))

  -- The `switch` on the type of the packet that was read.
  unfoldable pub dispatch : ℕ → ℤ → Sys H W → Run (Jump × ℤ × Sys H W)
  dispatch rounds (negsuc n) s = returned (go_exit, negsuc n, s)
  dispatch rounds (pos t) s =
      if is_quiet t
      then returned (go_on, success, s)
      else if t == MsgType.publish
      then on_publish rounds s
      else if g.qos2 && (t == MsgType.pubrec || t == MsgType.pubrel)
      then on_ack rounds t s
      else if t == MsgType.pingresp
      then returned (go_on, success, record s { client = record s.client { ping_outstanding = 0 } })
      else returned (go_exit, pos t, s)

  -- `if (keepalive() != SUCCESS) rc = FAILURE;`
  unfoldable pub after_switch : ℕ → Jump → ℤ → Sys H W → Run (ℤ × Sys H W)
  after_switch rounds go_exit rc s = returned (rc, s)
  after_switch rounds go_on rc s = do
    (alive, s1) ← keepalive g p rounds s
    returned (if eq_ℤ alive success then rc else failure, s1)

  -- `exit:`
  unfoldable pub cycle_exit : ℤ → ℤ → Sys H W → ℤ × Sys H W
  cycle_exit packet_type rc s =
      if eq_ℤ rc success
      then (packet_type, s)
      else if s.client.isconnected
      then (rc, record s { client = close_session g s.client })
      else (rc, s)

  unfoldable pub cycle : ℕ → Sys H W → Run (ℤ × Sys H W)
  cycle rounds s = do
    (packet_type, s1) ←
        read_packet g p call_timer (record s { world = p.timer_default send_timer s.world })
    (jump, rc, s2) ← dispatch rounds packet_type s1
    (rc', s3) ← after_switch rounds jump rc s2
    returned (cycle_exit packet_type rc' s3)

  -- The loop of `yield`; `rounds` bounds the sending loops.
  unfoldable pub yield_loop : ℕ → ℕ → Sys H W → Run (ℤ × Sys H W)
  yield_loop zero rounds s = unfinished
  yield_loop (suc turns) rounds s =
      let (over, w) = p.expired call_timer s.world in
      let s1 = record s { world = w } in
      elim over [
        | true ↦ returned (success, s1)
        | false ↦ cycle rounds s1 >>= λ (rc, s2). elim (is_neg rc) [
          | true ↦ returned (failure, s2)
          | false ↦ yield_loop turns rounds s2
        ]
      ]

  unfoldable pub client_yield : ℕ → ℕ → ℕ → Sys H W → Run (ℤ × Sys H W)
  client_yield turns rounds timeout_ms s = yield_loop turns rounds (record s {
    world = p.countdown_ms call_timer timeout_ms (p.timer_default call_timer s.world);
  })

  -- The loop of `waitfor`; `rc` is the value so far, which an expired timer returns.
  unfoldable pub wait_loop : ℕ → ℕ → ℕ → ℤ → Sys H W → Run (ℤ × Sys H W)
  wait_loop zero rounds packet_type rc s = unfinished
  wait_loop (suc turns) rounds packet_type rc s =
      let (over, w) = p.expired call_timer s.world in
      elim over [
        | true ↦ returned (rc, record s { world = w })
        | false ↦ cycle rounds (record s { world = w }) >>= λ (rc', s1).
            elim (eq_ℤ rc' (pos packet_type) || is_neg rc') [
              | true ↦ returned (rc', s1)
              | false ↦ wait_loop turns rounds packet_type rc' s1
            ]
      ]

  unfoldable pub waitfor : ℕ → ℕ → ℕ → Sys H W → Run (ℤ × Sys H W)
  waitfor turns rounds packet_type s = wait_loop turns rounds packet_type failure s
