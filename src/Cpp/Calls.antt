-- ===== src/Cpp/Calls.antt =====
-- connect, publish, subscribe, unsubscribe and disconnect of paho/MQTTClient/src/MQTTClient.h.
use fembed_lwip.Common.{
  ℕ, ℤ, pos, negsuc, List, [], ◌∷◌, ◌++◌, true, false, ◌&&◌, ◌||◌, not, Option, none, take, drop,
  ltb, ◌==◌, if◌then◌else◌, eq_ℤ,
}
use fembed_lwip.Packet.MsgType
use fembed_lwip.Packet.Ack.{AckOut, serialize_ack, deserialize_ack}
use fembed_lwip.Packet.Publish.{PublishArgs, serialize_publish}
use fembed_lwip.Packet.Short.{serialize_disconnect}
use fembed_lwip.Packet.Connack.{deserialize_connack}
use fembed_lwip.Packet.Connect.{ConnectData, is_set, serialize_connect}
use fembed_lwip.Packet.Subscribe.{serialize_subscribe}
use fembed_lwip.Packet.Suback.{deserialize_suback, deserialize_unsuback}
use fembed_lwip.Packet.Unsubscribe.{serialize_unsubscribe}
use fembed_lwip.Client.Run.{Run, returned, lift, ◌>>=◌}
use fembed_lwip.Client.State.{success, failure}
use fembed_lwip.Client.Calls.{of_cstring}
use fembed_lwip.Cpp.Platform.{Platform, call_timer, last_received}
use fembed_lwip.Cpp.State.{Config, Client, Sys, get_next, close_session}
use fembed_lwip.Cpp.Receive.{receive_limit}
use fembed_lwip.Cpp.Handlers.{set_message_handler}
use fembed_lwip.Cpp.Send.{send_packet}
use fembed_lwip.Cpp.Cycle.{send_serialized, waitfor}

module _ {H W : Type 0} (g : Config) (p : Platform H W) where
  abbrev with_client : Sys H W → Client H → Sys H W
  with_client s c = record s { client = c }

  -- `Timer timer;`
  abbrev start_timer : Sys H W → Sys H W
  start_timer s = record s { world = p.timer_default call_timer s.world }

  -- The rest of a call after its packet was sent: nothing more if the sending failed.
  abbrev when_sent : Run (ℤ × Sys H W) → (Sys H W → Run (ℤ × Sys H W)) → Run (ℤ × Sys H W)
  when_sent sent rest = sent >>= λ (rc, s). if eq_ℤ rc success then rest s else returned (rc, s)

  -- `waitfor(packet_type, timer) == packet_type`, and then `rest`; else FAILURE.
  unfoldable pub after_reply :
      ℕ → ℕ → ℕ → (Sys H W → Run (ℤ × Sys H W)) → Sys H W → Run (ℤ × Sys H W)
  after_reply turns rounds packet_type rest s = do
    (rc, s1) ← waitfor g p turns rounds packet_type s
    if eq_ℤ rc (pos packet_type) then rest s1 else returned (failure, s1)

  abbrev unread_ack : AckOut
  unread_ack = let x = p.indeterminate in record { packettype = x; dup = x; packetid = x }

  -- The acknowledged message is no longer in flight.
  unfoldable pub read_ack : Sys H W → Run (ℤ × Sys H W)
  read_ack s = do
    (rc, out) ← lift (deserialize_ack unread_ack s.client.readbuf)
    if eq_ℤ rc (pos 1)
        then (if s.client.inflight_msgid == out.packetid
            then returned (success, with_client s (record s.client { inflight_msgid = 0 }))
            else returned (success, s))
        else returned (failure, s)

  -- The private `publish` behind the sending.
  unfoldable pub await_publish : ℕ → ℕ → ℕ → Sys H W → Run (ℤ × Sys H W)
  await_publish turns rounds qos s =
      if qos == 1
      then after_reply turns rounds MsgType.puback read_ack s
      else if g.qos2 && qos == 2
      then after_reply turns rounds MsgType.pubcomp read_ack s
      else returned (success, s)

  -- `publish(len, timer, qos)` of the `len` bytes in `sendbuf`.
  unfoldable pub publish_serialized : ℕ → ℕ → ℕ → ℕ → Sys H W → Run (ℤ × Sys H W)
  publish_serialized turns rounds len qos s =
      when_sent (send_packet g p rounds len call_timer s) (await_publish turns rounds qos)

  -- The return code of the server, or FAILURE.
  unfoldable pub read_connack : Sys H W → Run (ℤ × Sys H W)
  read_connack s = do
    (rc, out) ←
        lift (deserialize_connack (record { session_present = 0; connack_rc = 0 }) s.client.readbuf)
    returned (if eq_ℤ rc (pos 1) then pos out.connack_rc else failure, s)

  -- A message in flight is sent again, whatever `rc` is by then.
  unfoldable pub resend : ℕ → ℕ → ℤ → Sys H W → Run (ℤ × Sys H W)
  resend turns rounds rc s =
      let c = s.client in
      if g.qos2 && (ltb 0 c.inflight_msgid && (c.inflight_qos == 2 && c.pubrel))
      then (lift (serialize_ack c.sendbuf g.max_mqtt_packet_size MsgType.pubrel 0 c.inflight_msgid)
          >>= λ (len, buf).
              let s1 = with_client s (record c { sendbuf = buf }) in
              elim len [
                | negsuc n ↦ returned (failure, s1)
                | pos n ↦
                    if ltb 0 n
                    then publish_serialized turns rounds n c.inflight_qos s1
                    else returned (failure, s1)
              ])
      else if ltb 0 c.inflight_msgid
      then publish_serialized turns rounds c.inflight_len c.inflight_qos (
          with_client s (record c {
            sendbuf = take g.max_mqtt_packet_size c.pubbuf ++ drop g.max_mqtt_packet_size c.sendbuf;
          }))
      else returned (rc, s)

  -- `exit:`
  unfoldable pub connect_exit : ℤ × Sys H W → ℤ × Sys H W
  connect_exit (rc, s) =
      if eq_ℤ rc success
      then (rc, with_client s (record s.client { isconnected = true; ping_outstanding = 0 }))
      else (rc, s)

  -- From the sent packet on.
  unfoldable pub await_connack : ℕ → ℕ → Sys H W → Run (ℤ × Sys H W)
  await_connack turns rounds s = do
    let interval = s.client.keep_alive_interval
    let s1 : Sys H W =
        if ltb 0 interval
        then record s { world = p.countdown last_received (receive_limit interval) s.world }
        else s
    (rc, s2) ← after_reply turns rounds MsgType.connack read_connack s1
    resend turns rounds rc s2

  -- The fields of `data` are left out.
  unfoldable pub client_connect : ℕ → ℕ → ConnectData → Sys H W → Run (ℤ × Sys H W)
  client_connect turns rounds options s =
      let w = p.timer_of_ms call_timer 5000 s.world in
      if s.client.isconnected then returned (failure, record s { world = w }) else (do
        let c = record s.client {
          keep_alive_interval = options.keep_alive_interval;
          cleansession = is_set options.cleansession;
        }
        done ←
            when_sent
              (send_serialized g p rounds call_timer (record { client = c; world = w })
                (serialize_connect c.sendbuf g.max_mqtt_packet_size options))
              (await_connack turns rounds)
        returned (connect_exit done))

  -- The array of one element that `data.grantedQoS` stands for.
  abbrev pub first_or_zero : List ℕ → ℕ
  first_or_zero [] = 0
  first_or_zero (q ∷ qs) = q

  -- A refusal, and a SUBACK that cannot be read, leave the success of the sending in `rc`.
  unfoldable pub read_suback : List ℕ → Option H → Sys H W → Run (ℤ × Sys H W)
  read_suback topic_filter callback s =
      lift (
        deserialize_suback 1 (record { packetid = p.indeterminate; count = 0; granted = 0 ∷ [] })
          s.client.readbuf)
      >>= λ (rc, out).
          if eq_ℤ rc (pos 1) && not (first_or_zero out.granted == 0x80)
          then (let (done, c) = set_message_handler topic_filter callback s.client in
              returned (done, with_client s c))
          else returned (success, s)

  unfoldable pub client_subscribe : ℕ → ℕ → List ℕ → ℕ → Option H → Sys H W → Run (ℤ × Sys H W)
  client_subscribe turns rounds topic_filter qos callback s =
      let s1 = start_timer s in
      if not s.client.isconnected
      then returned (failure, s1)
      else (let (id, c) = get_next s1.client in
          when_sent
            (send_serialized g p rounds call_timer (with_client s1 c) (
              serialize_subscribe c.sendbuf g.max_mqtt_packet_size 0 id 1
                (of_cstring topic_filter ∷ []) (qos ∷ [])))
            (after_reply turns rounds MsgType.suback (read_suback topic_filter callback)))

  unfoldable pub read_unsuback : List ℕ → Sys H W → Run (ℤ × Sys H W)
  read_unsuback topic_filter s = do
    (rc, _) ← lift (deserialize_unsuback p.indeterminate s.client.readbuf)
    if eq_ℤ rc (pos 1)
        then returned (success, with_client s (set_message_handler topic_filter none s.client).1)
        else returned (success, s)

  unfoldable pub client_unsubscribe : ℕ → ℕ → List ℕ → Sys H W → Run (ℤ × Sys H W)
  client_unsubscribe turns rounds topic_filter s =
      let s1 = start_timer s in
      if not s.client.isconnected
      then returned (failure, s1)
      else (let (id, c) = get_next s1.client in
          when_sent
            (send_serialized g p rounds call_timer (with_client s1 c) (
              serialize_unsubscribe c.sendbuf g.max_mqtt_packet_size 0 id 1
                (of_cstring topic_filter ∷ [])))
            (after_reply turns rounds MsgType.unsuback (read_unsuback topic_filter)))

  -- The arguments of the public `publish`; `id` is returned to the caller in `args.packetid`.
  abbrev pub numbered : PublishArgs → Client H → PublishArgs × Client H
  numbered args c =
      if args.qos == 1 || args.qos == 2
      then (let (id, c1) = get_next c in (record args { packetid = id }, c1))
      else (args, c)

  -- A session that is kept stores the packet for `connect`.
  abbrev pub stored : PublishArgs → ℕ → Client H → Client H
  stored args len c = if c.cleansession then c else record c {
    pubbuf = take len c.sendbuf ++ drop len c.pubbuf;
    inflight_msgid = args.packetid;
    inflight_len = len;
    inflight_qos = args.qos;
    pubrel = if g.qos2 then false else c.pubrel;
  }

  unfoldable pub client_publish : ℕ → ℕ → List ℕ → PublishArgs → Sys H W → Run (ℤ × Sys H W)
  client_publish turns rounds topic_name args s =
      let s1 = start_timer s in
      if not s.client.isconnected
      then returned (failure, s1)
      else (let (args1, c) = numbered args s1.client in
          lift (
            serialize_publish c.sendbuf g.max_mqtt_packet_size
              (record args1 { dup = 0; topic_name = of_cstring topic_name }))
          >>= λ (len, buf).
              let c1 = record c { sendbuf = buf } in
              elim len [
                | negsuc n ↦ returned (failure, with_client s1 c1)
                | pos n ↦
                    if ltb 0 n
                    then publish_serialized turns rounds n args1.qos
                        (with_client s1 (stored args1 n c1))
                    else returned (failure, with_client s1 c1)
              ])

  unfoldable pub client_disconnect : ℕ → Sys H W → Run (ℤ × Sys H W)
  client_disconnect rounds s = do
    let s1 = start_timer s
    (rc, s2) ←
        send_serialized g p rounds call_timer s1
          (serialize_disconnect s1.client.sendbuf g.max_mqtt_packet_size)
    returned (rc, with_client s2 (close_session g s2.client))
