-- ===== src/Cpp/Opening.antt =====
-- Where timers expire, connect of paho/MQTTClient/src/MQTTClient.h returns.
use fembed_lwip.Common.{
  ℕ, ◌++◌, ◌≤◌, ◌<◌, arith, ℤ, pos, negsuc, List, Bool, true, false, ◌&&◌, Option, take, drop, ltb,
  ◌==◌, if◌then◌else◌, eq_ℤ,
}
use fembed_lwip.Packet.MsgType
use fembed_lwip.Packet.Ack.{serialize_ack}
use fembed_lwip.Packet.Connack.{deserialize_connack}
use fembed_lwip.Packet.Connect.{ConnectData, is_set, serialize_connect}
use fembed_lwip.Client.Run.{Run, returned, ◌>>=◌}
use fembed_lwip.Client.State.{success, failure}
use fembed_lwip.Cpp.Platform.{Platform, last_received, call_timer}
use fembed_lwip.Cpp.State.{Config, Sys}
use fembed_lwip.Cpp.Receive.{receive_limit}
use fembed_lwip.Cpp.Cycle.{send_serialized}
use fembed_lwip.Cpp.Calls.{
  after_reply, publish_serialized, read_connack, resend, connect_exit, await_connack,
  client_connect,
}
use fembed_lwip.Cpp.Clock.{
  Completes, of_call, Clock, completes_bind, completes_lift, completes_if, completes_weaken,
}
use fembed_lwip.Cpp.Dispatched.{send_serialized-Completes}
use fembed_lwip.Cpp.Yield.{CallWithin, later_call}
use fembed_lwip.Cpp.Waits.{after_reply-Completes, sent_then, publish_serialized-Completes}

module _ {H W : Type 0} (g : Config) (p : Platform H W) (clock : Clock p) (turns rounds : ℕ)
    (enough_turns : clock.limit < turns) (enough_rounds : clock.limit < rounds) where
  read_connack-Completes : (s : Sys H W) → CallWithin g p clock s.world (read_connack g p s)
  unfolding read_connack Completes
  read_connack-Completes s =
      completes_lift _
        (deserialize_connack (record { session_present = 0; connack_rc = 0 }) s.client.readbuf) _
        (λ (rc, out). omega arith)

  republished :
      (qos : ℕ) (len : ℤ) (s : Sys H W)
      → clock.ticks of_call s.world ≤ clock.limit
      → CallWithin g p clock s.world (elim len [
        | negsuc n ↦ returned (failure, s)
        | pos n ↦
            if ltb 0 n then publish_serialized g p turns rounds n qos s else returned (failure, s)
      ])
  unfolding Completes
  republished qos (negsuc n) s h = omega arith
  republished qos (pos n) s h =
      completes_if _ (ltb 0 n) _ _
        (publish_serialized-Completes g p clock turns rounds enough_turns enough_rounds n qos s h)
        (omega arith)

  resend-Completes :
      (rc : ℤ) (s : Sys H W)
      → clock.ticks of_call s.world ≤ clock.limit
      → CallWithin g p clock s.world (resend g p turns rounds rc s)
  unfolding resend Completes
  resend-Completes rc s h =
      let c = s.client in
      completes_if _ (g.qos2 && (ltb 0 c.inflight_msgid && (c.inflight_qos == 2 && c.pubrel))) _ _
        (completes_lift _
          (serialize_ack c.sendbuf g.max_mqtt_packet_size MsgType.pubrel 0 c.inflight_msgid) _
          (λ (len, buf).
            republished c.inflight_qos len (record s { client = record c { sendbuf = buf } }) h))
        (completes_if _ (ltb 0 c.inflight_msgid) _ _
          (publish_serialized-Completes g p clock turns rounds enough_turns enough_rounds
            c.inflight_len c.inflight_qos
            (record s {
              client = record c {
                sendbuf =
                    take g.max_mqtt_packet_size c.pubbuf ++ drop g.max_mqtt_packet_size c.sendbuf;
              };
            })
            h)
          (omega arith))

  connack_then :
      (s : Sys H W)
      → clock.ticks of_call s.world ≤ clock.limit
      → CallWithin g p clock s.world (
          after_reply g p turns rounds MsgType.connack (read_connack g p) s >>= λ (rc, s1).
          resend g p turns rounds rc s1)
  connack_then s h =
      completes_bind _ _ (after_reply g p turns rounds MsgType.connack (read_connack g p) s) _
        (after_reply-Completes g p clock turns rounds enough_turns enough_rounds MsgType.connack
          (read_connack g p) s h read_connack-Completes)
        (λ (rc, s1) e.
          later_call g p clock (resend g p turns rounds rc s1) s.world s1.world e
            (resend-Completes rc s1 (omega (arith, e, h))))

  await_connack-Completes :
      (s : Sys H W)
      → clock.ticks of_call s.world ≤ clock.limit
      → CallWithin g p clock s.world (await_connack g p turns rounds s)
  unfolding await_connack
  await_connack-Completes s h = on (ltb 0 s.client.keep_alive_interval)
    where
      w1 : W
      w1 = p.countdown last_received (receive_limit s.client.keep_alive_interval) s.world

      on :
          (t : Bool)
          → CallWithin g p clock s.world (
              after_reply g p turns rounds MsgType.connack (read_connack g p) (
                if t
                then record s {
                  world =
                      p.countdown last_received
                        (receive_limit s.client.keep_alive_interval)
                        s.world;
                }
                else s)
              >>= λ (rc, s1). resend g p turns rounds rc s1)
      on false = connack_then s h
      on true =
          let w2 = p.countdown last_received (receive_limit s.client.keep_alive_interval) s.world in
          let k : clock.ticks of_call w2 ≤ clock.ticks of_call s.world =
            clock.after_countdown of_call (receive_limit s.client.keep_alive_interval) s.world in
          later_call g p clock _ s.world w2 k
            (connack_then (record s { world = w2 }) (omega (arith, h, k)))

  abbrev pub Done : Run (ℤ × Sys H W) → Type 0
  Done m = Completes m (λ r. Unit)

  pub done : (m : Run (ℤ × Sys H W)) (w : W) → CallWithin g p clock w m → Done m
  done m w h = completes_weaken _ _ m h (λ r k. tt)

  opened :
      (m : Run (ℤ × Sys H W)) (w : W)
      → CallWithin g p clock w m
      → Done (m >>= λ r. returned (connect_exit g p r))
  unfolding Completes
  opened m w h = completes_bind _ _ m _ h (λ r e. tt)

  -- A packet is sent, and then the rest of the call.
  pub requested :
      (serialized : Option (ℤ × List ℕ)) (rest : Sys H W → Run (ℤ × Sys H W)) (s : Sys H W)
      → clock.ticks of_call s.world ≤ clock.limit
      → ((s1 : Sys H W)
          → clock.ticks of_call s1.world ≤ clock.limit
          → CallWithin g p clock s1.world (rest s1))
      → CallWithin g p clock s.world (
          send_serialized g p rounds call_timer s serialized >>= λ (rc, s1).
          if eq_ℤ rc success then rest s1 else returned (rc, s1))
  requested serialized rest s h k =
      sent_then g p clock turns rounds enough_turns enough_rounds
        (send_serialized g p rounds call_timer s serialized) rest s.world h
        (send_serialized-Completes g p clock rounds of_call s serialized
          (omega (arith, h, enough_rounds)))
        k

  pub connect-Completes :
      (options : ConnectData) (s : Sys H W) → Done (client_connect g p turns rounds options s)
  unfolding client_connect Completes
  connect-Completes options s =
      let w = p.timer_of_ms call_timer 5000 s.world in
      let c = record s.client {
        keep_alive_interval = options.keep_alive_interval;
        cleansession = is_set options.cleansession;
      } in
      completes_if _ s.client.isconnected _ _ tt (
        opened _ w (
          requested (serialize_connect c.sendbuf g.max_mqtt_packet_size options)
            (await_connack g p turns rounds) (record { client = c; world = w })
            (clock.call_of_ms 5000 s.world) await_connack-Completes))
