-- ===== src/Cpp/Yield.antt =====
-- Where timers expire, cycle and yield of paho/MQTTClient/src/MQTTClient.h return.
use fembed_lwip.Common.{
  ℕ, zero, suc, ◌+◌, ◌≤◌, ◌<◌, ◌≡◌, ◌≢◌, refl, arith, ℤ, pos, negsuc, Bool, true, false, ltb, ◌==◌,
  if◌then◌else◌, eq_ℤ, is_neg,
}
use fembed_lwip.Packet.Short.{serialize_pingreq}
use fembed_lwip.Client.Run.{Run, returned, unfinished, ◌>>=◌}
use fembed_lwip.Client.State.{success, failure}
use fembed_lwip.Client.Cycle.{Jump, go_on, go_exit}
use fembed_lwip.Cpp.Platform.{Platform, last_received, call_timer, send_timer, ping_timer}
use fembed_lwip.Cpp.State.{Config, Sys, close_session}
use fembed_lwip.Cpp.Send.{send_packet, send_ping, keepalive}
use fembed_lwip.Cpp.Receive.{read_packet}
use fembed_lwip.Cpp.Cycle.{dispatch, after_switch, cycle_exit, cycle, yield_loop, client_yield}
use fembed_lwip.Cpp.Clock.{
  Completes, of_call, of_send, of_ping, Clock, completes_bind, completes_lift, completes_if,
  completes_weaken, completes_ends, Within,
}
use fembed_lwip.Cpp.Returns.{send_packet-Completes}
use fembed_lwip.Cpp.Rounds.{read_packet-Completes}
use fembed_lwip.Cpp.Dispatched.{dispatch-Completes}

module _ {H W : Type 0} (g : Config) (p : Platform H W) (clock : Clock p) where
  -- The timer of the call was not prolonged.
  abbrev pub CallWithin : W → Run (ℤ × Sys H W) → Type 0
  CallWithin w m = Completes m (λ (rc, s). clock.ticks of_call s.world ≤ clock.ticks of_call w)

  pub later_call :
      (m : Run (ℤ × Sys H W)) (w w1 : W)
      → clock.ticks of_call w1 ≤ clock.ticks of_call w
      → CallWithin w1 m
      → CallWithin w m
  later_call m w w1 h k = completes_weaken _ _ m k (λ (rc, s) e. omega (arith, h, e))

  pinged :
      (sent : Bool) (rc : ℤ) (w : W) (s : Sys H W)
      → Within p clock w s.world
      → CallWithin w (
          if sent
          then returned (
            rc,
            record {
              client = record s.client { ping_outstanding = s.client.ping_outstanding + 1 };
              world = p.countdown last_received 15 s.world;
            },
          )
          else returned (rc, s))
  unfolding Completes
  pinged false rc w s h = h of_call
  pinged true rc w s h =
      let k : clock.ticks of_call s.world ≤ clock.ticks of_call w = h of_call in
      omega (arith, k, clock.after_countdown of_call 15 s.world)

  ping_sized :
      (rounds : ℕ) (s : Sys H W) (len : ℤ)
      → clock.ticks of_ping s.world < rounds
      → CallWithin s.world (elim len [
        | negsuc n ↦ returned (success, s)
        | pos n ↦
            if ltb 0 n
            then (send_packet g p rounds n ping_timer s >>= λ (rc, s2).
                if eq_ℤ rc success
                then returned (
                  rc,
                  record {
                    client = record s2.client { ping_outstanding = s2.client.ping_outstanding + 1 };
                    world = p.countdown last_received 15 s2.world;
                  },
                )
                else returned (rc, s2))
            else returned (success, s)
      ])
  unfolding Completes
  ping_sized rounds s (negsuc n) h = omega arith
  ping_sized rounds s (pos n) h =
      completes_if _ (ltb 0 n) _ _
        (completes_bind _ _ (send_packet g p rounds n ping_timer s) _
          (send_packet-Completes g p clock rounds n of_ping s h)
          (λ (rc, s2) k. pinged (eq_ℤ rc success) rc s.world s2 k))
        (omega arith)

  send_ping-Completes :
      (rounds : ℕ) (s : Sys H W)
      → clock.ticks of_ping s.world < rounds
      → CallWithin s.world (send_ping g p rounds s)
  unfolding send_ping Completes
  send_ping-Completes rounds s h =
      completes_lift _ (serialize_pingreq s.client.sendbuf g.max_mqtt_packet_size) _ (λ (len, buf).
        ping_sized rounds (record s { client = record s.client { sendbuf = buf } }) len h)

  keepalive-Completes :
      (rounds : ℕ) (s : Sys H W)
      → clock.limit < rounds
      → CallWithin s.world (keepalive g p rounds s)
  unfolding keepalive Completes
  keepalive-Completes rounds s h =
      let (due, w) = p.expired last_received s.world in
      let first : clock.ticks of_call w ≤ clock.ticks of_call s.world =
        clock.after_expired of_call last_received s.world in
      let w1 = p.timer_of_ms ping_timer 1000 w in
      completes_if _ (s.client.keep_alive_interval == 0) _ _ (omega arith) (
        completes_if _ due _ _
          (completes_if _ (ltb 5 s.client.ping_outstanding) _ _ first (
            later_call _ s.world w1 (omega (arith, first, clock.ping_started_call 1000 w)) (
              send_ping-Completes rounds (record s { world = w1 })
                (omega (arith, h, clock.ping_started 1000 w)))))
          first)

  after_switch-Completes :
      (rounds : ℕ) (jump : Jump) (rc : ℤ) (s : Sys H W)
      → clock.limit < rounds
      → CallWithin s.world (after_switch g p rounds jump rc s)
  unfolding after_switch Completes
  after_switch-Completes rounds go_exit rc s h = omega arith
  after_switch-Completes rounds go_on rc s h =
      completes_bind _ _ (keepalive g p rounds s) _ (keepalive-Completes rounds s h)
        (λ (alive, s1) k. k)

  exited :
      (packet_type rc : ℤ) (s : Sys H W)
      → clock.ticks of_call (cycle_exit g p packet_type rc s).1.world ≤ clock.ticks of_call s.world
  unfolding cycle_exit
  exited packet_type rc s = on (eq_ℤ rc success) s.client.isconnected
    where
      on :
          (ok connected : Bool)
          → clock.ticks of_call
              (if◌then◌else◌ {A = ℤ × Sys H W} ok
                (packet_type, s)
                (if connected
                  then (rc, record s { client = close_session g s.client })
                  else (rc, s))).1.world
            ≤ clock.ticks of_call s.world
      on true connected = omega arith
      on false true = omega arith
      on false false = omega arith

  pub cycle-Completes :
      (rounds : ℕ) (s : Sys H W) → clock.limit < rounds → CallWithin s.world (cycle g p rounds s)
  unfolding cycle Completes
  cycle-Completes rounds s h =
      let w = p.timer_default send_timer s.world in
      completes_bind _ _ (read_packet g p call_timer (record s { world = w })) _
        (read_packet-Completes g p clock call_timer (record s { world = w }))
        (λ (packet_type, s1) read.
          completes_bind _ _ (dispatch g p rounds packet_type s1) _
            (dispatch-Completes g p clock rounds packet_type s1
              (omega (arith, h, read of_send, clock.send_started s.world)))
            (λ (jump, rc, s2) done.
              completes_bind _ _ (after_switch g p rounds jump rc s2) _
                (after_switch-Completes rounds jump rc s2 h)
                (λ (rc1, s3) last.
                  let closed = exited packet_type rc1 s3 in
                  omega (
                    arith,
                    closed,
                    last,
                    done of_call,
                    read of_call,
                    clock.send_started_call s.world,
                  ))))

  -- A round of `yield` needs a test of the timer that fails, so more turns than tests are enough.
  yield_loop-Completes :
      (turns rounds : ℕ) (s : Sys H W)
      → clock.limit < rounds
      → clock.ticks of_call s.world < turns
      → Completes (yield_loop g p turns rounds s) (λ (rc, s1). Unit)
  unfolding yield_loop Completes
  yield_loop-Completes zero rounds s h k = absurd (omega arith)
  yield_loop-Completes (suc turns) rounds s h k =
      let w : W = (p.expired call_timer s.world).1 in
      turn turns rounds (p.expired call_timer s.world).0 (record s { world = w }) h
        (λ e s2 k2.
          yield_loop-Completes turns rounds s2 h
            (omega (arith, k, k2, clock.passes of_call s.world e)))
    where
      negative :
          (turns rounds : ℕ) (b : Bool) (s2 : Sys H W)
          → Completes (yield_loop g p turns rounds s2) (λ (rc, s1). Unit)
          → Completes
              (elim b [ true ↦ returned (failure, s2) | false ↦ yield_loop g p turns rounds s2 ])
              (λ (rc, s1). Unit)
      negative turns rounds true s2 m = tt
      negative turns rounds false s2 m = m

      turn :
          (turns rounds : ℕ) (over : Bool) (s1 : Sys H W)
          → clock.limit < rounds
          → (over ≡ false
              → (s2 : Sys H W) → clock.ticks of_call s2.world ≤ clock.ticks of_call s1.world
              → Completes (yield_loop g p turns rounds s2) (λ (rc, s1). Unit))
          → Completes
              (elim over [
                | true ↦ returned (success, s1)
                | false ↦ cycle g p rounds s1 >>= λ (rc, s2). elim (is_neg rc) [
                  | true ↦ returned (failure, s2)
                  | false ↦ yield_loop g p turns rounds s2
                ]
              ])
              (λ (rc, s1). Unit)
      turn turns rounds true s1 h m = tt
      turn turns rounds false s1 h m =
          completes_bind _ _ (cycle g p rounds s1) _ (cycle-Completes rounds s1 h)
            (λ (rc, s2) e. negative turns rounds (is_neg rc) s2 (m refl s2 e))

  -- Where each timer expires after at most `limit` tests since its start, whatever the network reads
  -- and writes, a call of `yield` returns: more turns and rounds than that are never used up.
  pub client_yield_returns :
      (turns rounds timeout_ms : ℕ) (s : Sys H W)
      → clock.limit < turns
      → clock.limit < rounds
      → client_yield g p turns rounds timeout_ms s ≢ unfinished
  unfolding client_yield
  client_yield_returns turns rounds timeout_ms s h k =
      let w = p.timer_default call_timer s.world in
      completes_ends _ _ (
        yield_loop-Completes turns rounds
          (record s { world = p.countdown_ms call_timer timeout_ms w }) k
          (omega (arith, h, clock.call_started timeout_ms w)))
