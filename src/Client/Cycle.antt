-- ===== src/Client/Cycle.antt =====
-- cycle, MQTTYield and waitfor of paho/MQTTClient-C/src/MQTTClient.c.
use fembed_lwip.Common.{
  ℕ, zero, suc, ℤ, pos, negsuc, List, [], Bool, true, false, ◌||◌, Option, none, some, ltb, ◌==◌,
  if◌then◌else◌, eq_ℤ, is_neg,
}
use fembed_lwip.Wire.Strings.{mqtt_string_initializer}
use fembed_lwip.Packet.MsgType
use fembed_lwip.Packet.Ack.{serialize_ack, deserialize_ack}
use fembed_lwip.Packet.Publish.{PublishOut, deserialize_publish}
use fembed_lwip.Client.Run.{Run, returned, unfinished, lift, ◌>>=◌}
use fembed_lwip.Client.Platform.{Platform, Message, TimerId, call_timer}
use fembed_lwip.Client.State.{Sys, success, failure, close_session}
use fembed_lwip.Client.Handlers.{deliver_message}
use fembed_lwip.Client.Send.{send_packet, keepalive}
use fembed_lwip.Client.Receive.{read_packet}

abbrev pub message_of : PublishOut → Message
message_of out = record {
  qos = out.qos;
  retained = out.retained;
  dup = out.dup;
  id = out.packetid;
  payload = out.payload;
  payloadlen = out.payloadlen;
}

-- The acknowledgement of an incoming PUBLISH, by its quality of service; there is none for 0 and 3.
abbrev pub answer_to_publish : ℕ → Option ℕ
answer_to_publish qos =
    if qos == 1 then some MsgType.puback else if qos == 2 then some MsgType.pubrec else none

-- The acknowledgement of a PUBREC or a PUBREL.
abbrev pub answer_to_ack : ℕ → ℕ
answer_to_ack packet_type =
    if packet_type == MsgType.pubrec then MsgType.pubrel else MsgType.pubcomp

-- A branch of the `switch` goes on to `keepalive`, or to `exit`.
pub data Jump : Type 0 where
  go_on go_exit : Jump

module _ {H W : Type 0} (p : Platform H W) where
  abbrev with_buf : Sys H W → List ℕ → Sys H W
  with_buf s buf = record s { client = record s.client { buf = buf } }

  -- `len <= 0` is a failure, and otherwise the `len` bytes are sent.
  unfoldable pub send_serialized : ℕ → TimerId → Sys H W → Option (ℤ × List ℕ) → Run (ℤ × Sys H W)
  send_serialized rounds timer s serialized = do
    (len, buf) ← lift serialized
    elim len [
      | negsuc n ↦ returned (failure, with_buf s buf)
      | pos n ↦
          if ltb 0 n
          then send_packet p rounds n timer (with_buf s buf)
          else returned (failure, with_buf s buf)
    ]

  abbrev after_send : Run (ℤ × Sys H W) → Run (Jump × ℤ × Sys H W)
  after_send m = m >>= λ (rc, s). returned (if eq_ℤ rc failure then go_exit else go_on, rc, s)

  unfoldable pub answer_publish : ℕ → TimerId → PublishOut → Sys H W → Run (Jump × ℤ × Sys H W)
  answer_publish rounds timer out s =
      if out.qos == 0 then returned (go_on, success, s) else elim (answer_to_publish out.qos) [
        | none ↦ returned (go_exit, failure, s)
        | some answer ↦ after_send (
            send_serialized rounds timer s
              (serialize_ack s.client.buf s.client.buf_size answer 0 out.packetid))
      ]

  -- `case PUBLISH`
  unfoldable pub on_publish : ℕ → TimerId → Sys H W → Run (Jump × ℤ × Sys H W)
  on_publish rounds timer s =
      let x = p.indeterminate in
      lift (
        deserialize_publish
          (record {
            dup = x;
            qos = x;
            retained = x;
            packetid = x;
            topic_name = mqtt_string_initializer;
            payload = [];
            payloadlen = pos 0;
          })
          s.client.readbuf)
      >>= λ (rc, out).
          if eq_ℤ rc (pos 1)
          then (deliver_message p out.topic_name (message_of out) s >>= λ (_, s1).
              answer_publish rounds timer out s1)
          else returned (go_exit, success, s)

  -- `case PUBREC` and `case PUBREL`
  unfoldable pub on_ack : ℕ → TimerId → ℕ → Sys H W → Run (Jump × ℤ × Sys H W)
  on_ack rounds timer packet_type s =
      let x = p.indeterminate in
      lift (deserialize_ack (record { packettype = x; dup = x; packetid = x }) s.client.readbuf)
      >>= λ (rc, out).
          if eq_ℤ rc (pos 1)
          then after_send (
              send_serialized rounds timer s (
                serialize_ack s.client.buf s.client.buf_size (answer_to_ack packet_type) 0
                  out.packetid))
          else returned (go_exit, failure, s)

  -- The types that need nothing but `keepalive`.
  abbrev is_quiet : ℕ → Bool
  is_quiet t =
      t == 0
      || (t == MsgType.connack
          || (t == MsgType.puback
              || (t == MsgType.suback || (t == MsgType.unsuback || t == MsgType.pubcomp))))

  -- The `switch` on the type of the packet that was read.
  unfoldable pub dispatch : ℕ → TimerId → ℤ → Sys H W → Run (Jump × ℤ × Sys H W)
  dispatch rounds timer (negsuc n) s = returned (go_exit, negsuc n, s)
  dispatch rounds timer (pos t) s =
      if is_quiet t
      then returned (go_on, success, s)
      else if t == MsgType.publish
      then on_publish rounds timer s
      else if t == MsgType.pubrec || t == MsgType.pubrel
      then on_ack rounds timer t s
      else if t == MsgType.pingresp
      then returned
          (go_on, success, record s { client = record s.client { ping_outstanding = false } })
      else returned (go_exit, pos t, s)

  -- `if (keepalive(c) != SUCCESS) rc = FAILURE;`
  unfoldable pub after_switch : ℕ → Jump → ℤ → Sys H W → Run (ℤ × Sys H W)
  after_switch rounds go_exit rc s = returned (rc, s)
  after_switch rounds go_on rc s = do
    (alive, s1) ← keepalive p rounds s
    returned (if eq_ℤ alive success then rc else failure, s1)

  -- `exit:`
  unfoldable pub cycle_exit : ℤ → ℤ → Sys H W → ℤ × Sys H W
  cycle_exit packet_type rc s =
      if eq_ℤ rc success
      then (packet_type, s)
      else if s.client.isconnected
      then (rc, record s { client = close_session s.client })
      else (rc, s)

  unfoldable pub cycle : ℕ → TimerId → Sys H W → Run (ℤ × Sys H W)
  cycle rounds timer s = do
    (packet_type, s1) ← read_packet p timer s
    (jump, rc, s2) ← dispatch rounds timer packet_type s1
    (rc', s3) ← after_switch rounds jump rc s2
    returned (cycle_exit packet_type rc' s3)

  -- The loop of `MQTTYield`; `rounds` bounds it and the sending loops.
  unfoldable pub yield_loop : ℕ → ℕ → Sys H W → Run (ℤ × Sys H W)
  yield_loop zero rounds s = unfinished
  yield_loop (suc turns) rounds s = cycle rounds call_timer s >>= λ (rc, s1). elim (is_neg rc) [
    | true ↦ returned (failure, s1)
    | false ↦
        let (expired, w) = p.timer_is_expired call_timer s1.world in
        let s2 = record s1 { world = w } in
        elim expired [ true ↦ returned (success, s2) | false ↦ yield_loop turns rounds s2 ]
  ]

  unfoldable pub mqtt_yield : ℕ → ℕ → ℕ → Sys H W → Run (ℤ × Sys H W)
  mqtt_yield turns rounds timeout_ms s = yield_loop turns rounds (record s {
    world = p.timer_countdown_ms call_timer timeout_ms (p.timer_init call_timer s.world);
  })

  -- The loop of `waitfor`; `rc` is the value so far, which an expired timer returns.
  unfoldable pub wait_loop : ℕ → ℕ → ℕ → ℤ → Sys H W → Run (ℤ × Sys H W)
  wait_loop zero rounds packet_type rc s = unfinished
  wait_loop (suc turns) rounds packet_type rc s =
      let (expired, w) = p.timer_is_expired call_timer s.world in
      elim expired [
        | true ↦ returned (rc, record s { world = w })
        | false ↦ cycle rounds call_timer (record s { world = w }) >>= λ (rc', s1).
            elim (eq_ℤ rc' (pos packet_type) || is_neg rc') [
              | true ↦ returned (rc', s1)
              | false ↦ wait_loop turns rounds packet_type rc' s1
            ]
      ]

  unfoldable pub waitfor : ℕ → ℕ → ℕ → Sys H W → Run (ℤ × Sys H W)
  waitfor turns rounds packet_type s = wait_loop turns rounds packet_type failure s
