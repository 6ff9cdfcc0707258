-- ===== src/Cpp/Returning.antt =====
-- Where timers expire, every call of paho/MQTTClient/src/MQTTClient.h returns.
use fembed_lwip.Common.{
  ℕ, ◌≤◌, ◌<◌, ◌≢◌, arith, ℤ, pos, negsuc, List, [], ◌∷◌, ◌&&◌, not, Option, ltb, ◌==◌,
  if◌then◌else◌, eq_ℤ,
}
use fembed_lwip.Packet.MsgType
use fembed_lwip.Packet.Publish.{PublishArgs, serialize_publish}
use fembed_lwip.Packet.Short.{serialize_disconnect}
use fembed_lwip.Packet.Connect.{ConnectData}
use fembed_lwip.Packet.Subscribe.{serialize_subscribe}
use fembed_lwip.Packet.Suback.{deserialize_suback, deserialize_unsuback}
use fembed_lwip.Packet.Unsubscribe.{serialize_unsubscribe}
use fembed_lwip.Client.Run.{returned, unfinished}
use fembed_lwip.Client.State.{failure}
use fembed_lwip.Client.Calls.{of_cstring}
use fembed_lwip.Cpp.Platform.{Platform, call_timer}
use fembed_lwip.Cpp.State.{Config, Client, Sys, get_next}
use fembed_lwip.Cpp.Cycle.{send_serialized, client_yield}
use fembed_lwip.Cpp.Calls.{
  after_reply, publish_serialized, client_connect, read_suback, client_subscribe, read_unsuback,
  client_unsubscribe, client_publish, client_disconnect, numbered, stored, first_or_zero,
}
use fembed_lwip.Cpp.Clock.{
  Completes, of_call, Clock, completes_bind, completes_lift, completes_if, completes_ends,
}
use fembed_lwip.Cpp.Dispatched.{send_serialized-Completes}
use fembed_lwip.Cpp.Yield.{CallWithin, client_yield_returns}
use fembed_lwip.Cpp.Waits.{after_reply-Completes, publish_serialized-Completes}
use fembed_lwip.Cpp.Opening.{Done, done, requested, connect-Completes}

module _ {H W : Type 0} (g : Config) (p : Platform H W) (clock : Clock p) (turns rounds : ℕ)
    (enough_turns : clock.limit < turns) (enough_rounds : clock.limit < rounds) where
  read_suback-Completes :
      (topic_filter : List ℕ) (callback : Option H) (s : Sys H W)
      → CallWithin g p clock s.world (read_suback g p topic_filter callback s)
  unfolding read_suback Completes
  read_suback-Completes topic_filter callback s =
      completes_lift _
        (deserialize_suback 1 (record { packetid = p.indeterminate; count = 0; granted = 0 ∷ [] })
          s.client.readbuf)
        _
        (λ (rc, out).
          completes_if _ (eq_ℤ rc (pos 1) && not (first_or_zero g p out.granted == 0x80)) _ _
            (omega arith) (omega arith))

  read_unsuback-Completes :
      (topic_filter : List ℕ) (s : Sys H W)
      → CallWithin g p clock s.world (read_unsuback g p topic_filter s)
  unfolding read_unsuback Completes
  read_unsuback-Completes topic_filter s =
      completes_lift _ (deserialize_unsuback p.indeterminate s.client.readbuf) _
        (λ (rc, id). completes_if _ (eq_ℤ rc (pos 1)) _ _ (omega arith) (omega arith))

  subscribe-Completes :
      (topic_filter : List ℕ) (qos : ℕ) (callback : Option H) (s : Sys H W)
      → Done g p clock turns rounds enough_turns enough_rounds
          (client_subscribe g p turns rounds topic_filter qos callback s)
  unfolding client_subscribe Completes
  subscribe-Completes topic_filter qos callback s =
      let w = p.timer_default call_timer s.world in
      let (id, c) = get_next s.client in
      completes_if _ (not s.client.isconnected) _ _ tt (
        done g p clock turns rounds enough_turns enough_rounds _ w (
          requested g p clock turns rounds enough_turns enough_rounds
            (serialize_subscribe c.sendbuf g.max_mqtt_packet_size 0 id 1
              (of_cstring topic_filter ∷ []) (qos ∷ []))
            (after_reply g p turns rounds MsgType.suback (read_suback g p topic_filter callback))
            (record { client = c; world = w }) (clock.call_default s.world)
            (λ s1 h.
              after_reply-Completes g p clock turns rounds enough_turns enough_rounds MsgType.suback
                (read_suback g p topic_filter callback) s1 h
                (read_suback-Completes topic_filter callback))))

  unsubscribe-Completes :
      (topic_filter : List ℕ) (s : Sys H W)
      → Done g p clock turns rounds enough_turns enough_rounds
          (client_unsubscribe g p turns rounds topic_filter s)
  unfolding client_unsubscribe Completes
  unsubscribe-Completes topic_filter s =
      let w = p.timer_default call_timer s.world in
      let (id, c) = get_next s.client in
      completes_if _ (not s.client.isconnected) _ _ tt (
        done g p clock turns rounds enough_turns enough_rounds _ w (
          requested g p clock turns rounds enough_turns enough_rounds
            (serialize_unsubscribe c.sendbuf g.max_mqtt_packet_size 0 id 1
              (of_cstring topic_filter ∷ []))
            (after_reply g p turns rounds MsgType.unsuback (read_unsuback g p topic_filter))
            (record { client = c; world = w }) (clock.call_default s.world)
            (λ s1 h.
              after_reply-Completes g p clock turns rounds enough_turns enough_rounds
                MsgType.unsuback (read_unsuback g p topic_filter) s1 h
                (read_unsuback-Completes topic_filter))))

  published :
      (args : PublishArgs) (len : ℤ) (c : Client H) (w : W)
      → clock.ticks of_call w ≤ clock.limit
      → CallWithin g p clock w (elim len [
        | negsuc n ↦ returned (failure, record { client = c; world = w })
        | pos n ↦
            if ltb 0 n
            then publish_serialized g p turns rounds n args.qos
                (record { client = stored g p args n c; world = w })
            else returned (failure, record { client = c; world = w })
      ])
  unfolding Completes
  published args (negsuc n) c w h = omega arith
  published args (pos n) c w h =
      completes_if _ (ltb 0 n) _ _
        (publish_serialized-Completes g p clock turns rounds enough_turns enough_rounds n args.qos
          (record { client = stored g p args n c; world = w }) h)
        (omega arith)

  publish-Completes :
      (topic_name : List ℕ) (args : PublishArgs) (s : Sys H W)
      → Done g p clock turns rounds enough_turns enough_rounds
          (client_publish g p turns rounds topic_name args s)
  unfolding client_publish Completes
  publish-Completes topic_name args s =
      let w = p.timer_default call_timer s.world in
      let (args1, c) = numbered g p args s.client in
      completes_if _ (not s.client.isconnected) _ _ tt (
        completes_lift _
          (serialize_publish c.sendbuf g.max_mqtt_packet_size
            (record args1 { dup = 0; topic_name = of_cstring topic_name }))
          _
          (λ (len, buf).
            done g p clock turns rounds enough_turns enough_rounds _ w
              (published args1 len (record c { sendbuf = buf }) w (clock.call_default s.world))))

  disconnect-Completes :
      (s : Sys H W)
      → Done g p clock turns rounds enough_turns enough_rounds (client_disconnect g p rounds s)
  unfolding client_disconnect Completes
  disconnect-Completes s =
      let w = p.timer_default call_timer s.world in
      let serialized = serialize_disconnect s.client.sendbuf g.max_mqtt_packet_size in
      completes_bind _ _ (send_serialized g p rounds call_timer (record s { world = w }) serialized)
        _
        (send_serialized-Completes g p clock rounds of_call (record s { world = w }) serialized
          (omega (arith, clock.call_default s.world, enough_rounds)))
        (λ r k. tt)

  -- Where each timer expires after at most `limit` tests since its start, whatever the network reads
  -- and writes, no call of the client runs for ever: more turns and rounds than `limit` are never
  -- used up by connect, publish, subscribe, unsubscribe, yield and disconnect.
  pub client_calls_return :
      (options : ConnectData) (topic_name topic_filter : List ℕ) (args : PublishArgs)
      (qos timeout_ms : ℕ) (callback : Option H) (s : Sys H W)
      → (client_connect g p turns rounds options s ≢ unfinished)
        × ((client_publish g p turns rounds topic_name args s ≢ unfinished)
            × ((client_subscribe g p turns rounds topic_filter qos callback s ≢ unfinished)
                × ((client_unsubscribe g p turns rounds topic_filter s ≢ unfinished)
                    × ((client_yield g p turns rounds timeout_ms s ≢ unfinished)
                        × (client_disconnect g p rounds s ≢ unfinished)))))
  client_calls_return options topic_name topic_filter args qos timeout_ms callback s = (
    completes_ends _ _
        (connect-Completes g p clock turns rounds enough_turns enough_rounds options s),
    (
      completes_ends _ _ (publish-Completes topic_name args s),
      (
        completes_ends _ _ (subscribe-Completes topic_filter qos callback s),
        (
          completes_ends _ _ (unsubscribe-Completes topic_filter s),
          (
            client_yield_returns g p clock turns rounds timeout_ms s enough_turns enough_rounds,
            completes_ends _ _ (disconnect-Completes s),
          ),
        ),
      ),
    ),
  )
