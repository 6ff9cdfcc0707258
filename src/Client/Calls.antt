-- ===== src/Client/Calls.antt =====
-- MQTTConnectWithResults, MQTTSubscribeWithResults, MQTTUnsubscribe, MQTTPublish and MQTTDisconnect of
-- paho/MQTTClient-C/src/MQTTClient.c. The mutex of MQTT_TASK is not modelled: each call is one step.
use fembed_lwip.Common.{
  ℕ, ℤ, pos, List, [], ◌∷◌, true, false, ◌&&◌, ◌||◌, not, Option, none, some, ◌==◌, if◌then◌else◌,
  eq_ℤ,
}
use fembed_lwip.Wire.Strings.{MqttString, mqtt_string_initializer}
use fembed_lwip.Packet.MsgType
use fembed_lwip.Packet.Ack.{deserialize_ack}
use fembed_lwip.Packet.Publish.{PublishArgs, serialize_publish}
use fembed_lwip.Packet.Short.{serialize_disconnect}
use fembed_lwip.Packet.Connack.{deserialize_connack}
use fembed_lwip.Packet.Connect.{ConnectData, connect_data_initializer, is_set, serialize_connect}
use fembed_lwip.Packet.Subscribe.{serialize_subscribe}
use fembed_lwip.Packet.Suback.{deserialize_suback, deserialize_unsuback}
use fembed_lwip.Packet.Unsubscribe.{serialize_unsubscribe}
use fembed_lwip.Client.Run.{Run, returned, lift, ◌>>=◌}
use fembed_lwip.Client.Platform.{Platform, Message, call_timer, last_received}
use fembed_lwip.Client.State.{Client, Sys, success, failure, get_next_packetid, close_session}
use fembed_lwip.Client.Handlers.{set_message_handler}
use fembed_lwip.Client.Cycle.{send_serialized, waitfor}

-- `topic.cstring = s` in an initialised string
abbrev pub of_cstring : List ℕ → MqttString
of_cstring s = record mqtt_string_initializer { cstring = some s }

module _ {H W : Type 0} (p : Platform H W) where
  -- `TimerInit(&timer); TimerCountdownMS(&timer, c->command_timeout_ms);`
  abbrev start_timer : Sys H W → Sys H W
  start_timer s = record s {
    world =
        p.timer_countdown_ms call_timer s.client.command_timeout_ms
          (p.timer_init call_timer s.world);
  }

  -- The rest of a call after its packet was sent: nothing more if the sending failed.
  abbrev when_sent : Run (ℤ × Sys H W) → (Sys H W → Run (ℤ × Sys H W)) → Run (ℤ × Sys H W)
  when_sent sent rest = sent >>= λ (rc, s). if eq_ℤ rc success then rest s else returned (rc, s)

  -- `exit:` of the calls that close the session on a failure.
  unfoldable pub close_on_failure : ℤ × Sys H W → ℤ × Sys H W
  close_on_failure (rc, s) =
      if eq_ℤ rc failure then (rc, record s { client = close_session s.client }) else (rc, s)

  -- `waitfor(c, packet_type, &timer) == packet_type`, and then `rest`; else FAILURE.
  unfoldable pub after_reply :
      ℕ → ℕ → ℕ → (Sys H W → Run (ℤ × Sys H W)) → Sys H W → Run (ℤ × Sys H W)
  after_reply turns rounds packet_type rest s = do
    (rc, s1) ← waitfor p turns rounds packet_type s
    if eq_ℤ rc (pos packet_type) then rest s1 else returned (failure, s1)

  -- The return code of the server, or FAILURE.
  unfoldable pub read_connack : Sys H W → Run (ℤ × Sys H W)
  read_connack s = do
    (rc, out) ←
        lift (deserialize_connack (record { session_present = 0; connack_rc = 0 }) s.client.readbuf)
    returned (if eq_ℤ rc (pos 1) then pos out.connack_rc else failure, s)

  -- `exit:` of the connect call.
  unfoldable pub connect_exit : ℤ × Sys H W → ℤ × Sys H W
  connect_exit (rc, s) =
      if eq_ℤ rc success
      then (
        rc,
        record s { client = record s.client { isconnected = true; ping_outstanding = false } },
      )
      else (rc, s)

  -- The client and the timers as the connect call leaves them before it serialises.
  abbrev connect_setup : ConnectData → Sys H W → Sys H W
  connect_setup d s =
      let s1 = start_timer s in
      record {
        client = record s.client {
          keep_alive_interval = d.keep_alive_interval;
          cleansession = is_set d.cleansession;
        };
        world = p.timer_countdown last_received d.keep_alive_interval s1.world;
      }

  unfoldable pub connect_with : ℕ → ℕ → ConnectData → Sys H W → Run (ℤ × Sys H W)
  connect_with turns rounds d s = do
    let s1 = connect_setup d s
    done ←
        when_sent
          (send_serialized p rounds call_timer s1
            (serialize_connect s1.client.buf s1.client.buf_size d))
          (after_reply turns rounds MsgType.connack read_connack)
    returned (connect_exit done)

  -- `options == 0` takes the default options. The fields of `data` are left out.
  unfoldable pub mqtt_connect : ℕ → ℕ → Option ConnectData → Sys H W → Run (ℤ × Sys H W)
  mqtt_connect turns rounds options s =
      if s.client.isconnected
      then returned (failure, s)
      else connect_with turns rounds (elim options [ none ↦ connect_data_initializer | some d ↦ d ])
          s

  -- The array of one element that `data->grantedQoS` stands for.
  abbrev first_or_zero : List ℕ → ℕ
  first_or_zero [] = 0
  first_or_zero (q ∷ qs) = q

  -- A grant that is not 0x80 registers the handler. A SUBACK that cannot be read leaves the success
  -- of the sending in `rc`.
  unfoldable pub read_suback : List ℕ → Option H → Sys H W → Run (ℤ × Sys H W)
  read_suback topic_filter handler s =
      lift (
        deserialize_suback 1 (record { packetid = p.indeterminate; count = 0; granted = 0 ∷ [] })
          s.client.readbuf)
      >>= λ (rc, out).
          if eq_ℤ rc (pos 1) && not (first_or_zero out.granted == 0x80)
          then (let (done, c) = set_message_handler s.client topic_filter handler in
              returned (done, record s { client = c }))
          else returned (success, s)

  unfoldable pub mqtt_subscribe : ℕ → ℕ → List ℕ → ℕ → Option H → Sys H W → Run (ℤ × Sys H W)
  mqtt_subscribe turns rounds topic_filter qos handler s =
      if not s.client.isconnected then returned (close_on_failure (failure, s)) else do
        let s1 = start_timer s
        let (id, c) = get_next_packetid s1.client
        done ←
            when_sent
              (send_serialized p rounds call_timer (record s1 { client = c })
                (serialize_subscribe c.buf c.buf_size 0 id 1 (of_cstring topic_filter ∷ [])
                  (qos ∷ [])))
              (after_reply turns rounds MsgType.suback (read_suback topic_filter handler))
        returned (close_on_failure done)

  unfoldable pub read_unsuback : List ℕ → Sys H W → Run (ℤ × Sys H W)
  read_unsuback topic_filter s = do
    (rc, _) ← lift (deserialize_unsuback p.indeterminate s.client.readbuf)
    if eq_ℤ rc (pos 1)
        then returned
            (success, record s { client = (set_message_handler s.client topic_filter none).1 })
        else returned (success, s)

  unfoldable pub mqtt_unsubscribe : ℕ → ℕ → List ℕ → Sys H W → Run (ℤ × Sys H W)
  mqtt_unsubscribe turns rounds topic_filter s =
      if not s.client.isconnected then returned (close_on_failure (failure, s)) else do
        let s1 = start_timer s
        let (id, c) = get_next_packetid s1.client
        done ←
            when_sent
              (send_serialized p rounds call_timer (record s1 { client = c })
                (serialize_unsubscribe c.buf c.buf_size 0 id 1 (of_cstring topic_filter ∷ [])))
              (after_reply turns rounds MsgType.unsuback (read_unsuback topic_filter))
        returned (close_on_failure done)

  -- The acknowledgement of the PUBLISH has to be readable.
  unfoldable pub read_ack : Sys H W → Run (ℤ × Sys H W)
  read_ack s = do
    let x = p.indeterminate
    (rc, _) ←
        lift (deserialize_ack (record { packettype = x; dup = x; packetid = x }) s.client.readbuf)
    returned (if eq_ℤ rc (pos 1) then success else failure, s)

  -- What the quality of service asks the call to wait for.
  unfoldable pub await_publish : ℕ → ℕ → ℕ → Sys H W → Run (ℤ × Sys H W)
  await_publish turns rounds qos s =
      if qos == 1
      then after_reply turns rounds MsgType.puback read_ack s
      else if qos == 2
      then after_reply turns rounds MsgType.pubcomp read_ack s
      else returned (success, s)

  -- The identifier of the message, and the client after it was drawn.
  abbrev publish_id : Message → Client H → ℕ × Client H
  publish_id message c =
      if message.qos == 1 || message.qos == 2 then get_next_packetid c else (message.id, c)

  abbrev publish_args : List ℕ → Message → ℕ → ℕ → PublishArgs
  publish_args topic_name message id payloadlen = record {
    dup = 0;
    qos = message.qos;
    retained = message.retained;
    packetid = id;
    topic_name = of_cstring topic_name;
    payload = message.payload;
    payloadlen = payloadlen;
  }

  -- `payloadlen` is a `size_t` below 2 ^ 31. The new identifier in `message->id` is that of the
  -- packet; it is not returned.
  unfoldable pub mqtt_publish : ℕ → ℕ → List ℕ → Message → ℕ → Sys H W → Run (ℤ × Sys H W)
  mqtt_publish turns rounds topic_name message payloadlen s =
      if not s.client.isconnected then returned (close_on_failure (failure, s)) else do
        let s1 = start_timer s
        let (id, c) = publish_id message s1.client
        done ←
            when_sent
              (send_serialized p rounds call_timer (record s1 { client = c })
                (serialize_publish c.buf c.buf_size
                  (publish_args topic_name message id payloadlen)))
              (await_publish turns rounds message.qos)
        returned (close_on_failure done)

  unfoldable pub mqtt_disconnect : ℕ → Sys H W → Run (ℤ × Sys H W)
  mqtt_disconnect rounds s = do
    let s1 = start_timer s
    (rc, s2) ←
        send_serialized p rounds call_timer s1
          (serialize_disconnect s1.client.buf s1.client.buf_size)
    returned (rc, record s2 { client = close_session s2.client })
