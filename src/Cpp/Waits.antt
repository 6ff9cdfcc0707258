-- ===== src/Cpp/Waits.antt =====
-- Where timers expire, the calls of paho/MQTTClient/src/MQTTClient.h that wait for an answer return.
use fembed_lwip.Common.{
  ℕ, zero, suc, ◌≤◌, ◌<◌, ◌≡◌, refl, arith, ℤ, pos, Bool, true, false, ◌&&◌, ◌||◌, ◌==◌,
  if◌then◌else◌, eq_ℤ, is_neg,
}
use fembed_lwip.Packet.MsgType
use fembed_lwip.Packet.Ack.{deserialize_ack}
use fembed_lwip.Client.Run.{Run, returned, ◌>>=◌}
use fembed_lwip.Client.State.{success, failure}
use fembed_lwip.Cpp.Platform.{Platform, call_timer}
use fembed_lwip.Cpp.State.{Config, Sys}
use fembed_lwip.Cpp.Send.{send_packet}
use fembed_lwip.Cpp.Cycle.{cycle, wait_loop, waitfor}
use fembed_lwip.Cpp.Calls.{after_reply, read_ack, await_publish, publish_serialized}
use fembed_lwip.Cpp.Clock.{
  Completes, of_call, Clock, completes_bind, completes_lift, completes_if, completes_weaken,
}
use fembed_lwip.Cpp.Returns.{StateWithin, send_packet-Completes}
use fembed_lwip.Cpp.Yield.{CallWithin, later_call, cycle-Completes}

module _ {H W : Type 0} (g : Config) (p : Platform H W) (clock : Clock p) (turns rounds : ℕ)
    (enough_turns : clock.limit < turns) (enough_rounds : clock.limit < rounds) where
  waited :
      (left packet_type : ℕ) (stop : Bool) (rc : ℤ) (w : W) (s : Sys H W)
      → clock.ticks of_call s.world ≤ clock.ticks of_call w
      → CallWithin g p clock s.world (wait_loop g p left rounds packet_type rc s)
      → CallWithin g p clock w (elim stop [
        | true ↦ returned (rc, s)
        | false ↦ wait_loop g p left rounds packet_type rc s
      ])
  unfolding Completes
  waited left packet_type true rc w s h k = h
  waited left packet_type false rc w s h k =
      later_call g p clock (wait_loop g p left rounds packet_type rc s) w s.world h k

  wait_turn :
      (left packet_type : ℕ) (over : Bool) (rc : ℤ) (w : W) (s : Sys H W)
      → clock.ticks of_call s.world ≤ clock.ticks of_call w
      → (over ≡ false
          → (rc1 : ℤ) (s1 : Sys H W) → clock.ticks of_call s1.world ≤ clock.ticks of_call s.world
          → CallWithin g p clock s1.world (wait_loop g p left rounds packet_type rc1 s1))
      → CallWithin g p clock w (elim over [
        | true ↦ returned (rc, s)
        | false ↦ cycle g p rounds s >>= λ (rc', s1).
            elim (eq_ℤ rc' (pos packet_type) || is_neg rc') [
              | true ↦ returned (rc', s1)
              | false ↦ wait_loop g p left rounds packet_type rc' s1
            ]
      ])
  unfolding Completes
  wait_turn left packet_type true rc w s h k = h
  wait_turn left packet_type false rc w s h k =
      completes_bind _ _ (cycle g p rounds s) _ (cycle-Completes g p clock rounds s enough_rounds)
        (λ (rc1, s1) e.
          waited left packet_type (eq_ℤ rc1 (pos packet_type) || is_neg rc1) rc1 w s1
            (omega (arith, e, h)) (k refl rc1 s1 e))

  wait_loop-Completes :
      (left packet_type : ℕ) (rc : ℤ) (s : Sys H W)
      → clock.ticks of_call s.world < left
      → CallWithin g p clock s.world (wait_loop g p left rounds packet_type rc s)
  unfolding wait_loop Completes
  wait_loop-Completes zero packet_type rc s h = absurd (omega arith)
  wait_loop-Completes (suc left) packet_type rc s h =
      wait_turn left packet_type (p.expired call_timer s.world).0 rc s.world
        (record s { world = (p.expired call_timer s.world).1 })
        (clock.after_expired of_call call_timer s.world)
        (λ e rc1 s1 k.
          wait_loop-Completes left packet_type rc1 s1
            (omega (arith, h, k, clock.passes of_call s.world e)))

  pub after_reply-Completes :
      (packet_type : ℕ) (rest : Sys H W → Run (ℤ × Sys H W)) (s : Sys H W)
      → clock.ticks of_call s.world ≤ clock.limit
      → ((s1 : Sys H W) → CallWithin g p clock s1.world (rest s1))
      → CallWithin g p clock s.world (after_reply g p turns rounds packet_type rest s)
  unfolding after_reply waitfor Completes
  after_reply-Completes packet_type rest s h k =
      completes_bind _ _ (wait_loop g p turns rounds packet_type failure s) _
        (wait_loop-Completes turns packet_type failure s (omega (arith, h, enough_turns)))
        (λ (rc, s1) e.
          completes_if _ (eq_ℤ rc (pos packet_type)) _ _
            (later_call g p clock (rest s1) s.world s1.world e (k s1)) e)

  of_within : (m : Run (ℤ × Sys H W)) (w : W) → StateWithin g p clock w m → CallWithin g p clock w m
  of_within m w h = completes_weaken _ _ m h (λ (rc, s) k. k of_call)

  -- The rest of a call after its packet was sent.
  pub sent_then :
      (m : Run (ℤ × Sys H W)) (rest : Sys H W → Run (ℤ × Sys H W)) (w : W)
      → clock.ticks of_call w ≤ clock.limit
      → StateWithin g p clock w m
      → ((s : Sys H W)
          → clock.ticks of_call s.world ≤ clock.limit
          → CallWithin g p clock s.world (rest s))
      → CallWithin g p clock w
          (m >>= λ (rc, s). if eq_ℤ rc success then rest s else returned (rc, s))
  unfolding Completes
  sent_then m rest w h sent k = completes_bind _ _ m _ (of_within m w sent) (λ (rc, s) e.
      completes_if _ (eq_ℤ rc success) _ _
        (later_call g p clock (rest s) w s.world e (k s (omega (arith, e, h)))) e)

  read_ack-Completes : (s : Sys H W) → CallWithin g p clock s.world (read_ack g p s)
  unfolding read_ack Completes
  read_ack-Completes s =
      let x = p.indeterminate in
      completes_lift _
        (deserialize_ack (record { packettype = x; dup = x; packetid = x }) s.client.readbuf) _
        (λ (rc, out).
          completes_if _ (eq_ℤ rc (pos 1)) _ _
            (completes_if _ (s.client.inflight_msgid == out.packetid) _ _ (omega arith)
              (omega arith))
            (omega arith))

  await_publish-Completes :
      (qos : ℕ) (s : Sys H W)
      → clock.ticks of_call s.world ≤ clock.limit
      → CallWithin g p clock s.world (await_publish g p turns rounds qos s)
  unfolding await_publish Completes
  await_publish-Completes qos s h =
      completes_if _ (qos == 1) _ _
        (after_reply-Completes MsgType.puback (read_ack g p) s h read_ack-Completes)
        (completes_if _ (g.qos2 && qos == 2) _ _
          (after_reply-Completes MsgType.pubcomp (read_ack g p) s h read_ack-Completes)
          (omega arith))

  pub publish_serialized-Completes :
      (len qos : ℕ) (s : Sys H W)
      → clock.ticks of_call s.world ≤ clock.limit
      → CallWithin g p clock s.world (publish_serialized g p turns rounds len qos s)
  unfolding publish_serialized
  publish_serialized-Completes len qos s h =
      sent_then (send_packet g p rounds len call_timer s) (await_publish g p turns rounds qos)
        s.world h
        (send_packet-Completes g p clock rounds len of_call s (omega (arith, h, enough_rounds)))
        (await_publish-Completes qos)
