-- ===== src/Client/Session.antt =====
-- What the results of cycle and MQTTYield of paho/MQTTClient-C/src/MQTTClient.c say about the session.
use fembed_lwip.Common.{
  ℕ, zero, suc, ◌≡◌, refl, arith, ℤ, pos, negsuc, Bool, true, false, ◌&&◌, eq_ℤ, is_neg,
}
use fembed_lwip.Client.Run.{Run, returned, fault, unfinished, ◌>>=◌, bind_returned}
use fembed_lwip.Client.Platform.{Platform, TimerId, call_timer}
use fembed_lwip.Client.State.{Sys, success, failure, clean_session, close_session}
use fembed_lwip.Client.Cycle.{dispatch, after_switch, cycle_exit, cycle, yield_loop, mqtt_yield}
use fembed_lwip.Client.Receive.{read_packet}
use fembed_lwip.Client.Calls.{}

module _ {H W : Type 0} (p : Platform H W) where
  exiting :
      (packet_type rc : ℤ) (n : ℕ) (s s1 : Sys H W)
      → returned (cycle_exit p packet_type rc s) ≡ returned (negsuc n, s1)
      → (is_neg packet_type && eq_ℤ rc success) ≡ false
      → s1.client.isconnected ≡ false
  unfolding cycle_exit close_session clean_session
  exiting (pos t) (pos zero) n s s1 h q = ground arith
  exiting (negsuc t) (pos zero) n s s1 h q = ground arith
  exiting packet_type (pos (suc k)) n s s1 h q = ground arith
  exiting packet_type (negsuc k) n s s1 h q = ground arith

  cycle_from :
      (rounds n : ℕ) (timer : TimerId) (packet_type : ℤ) (s s1 : Sys H W)
      → (dispatch p rounds timer packet_type s >>= λ (jump, rc, s2).
          after_switch p rounds jump rc s2 >>= λ (rc', s3).
          returned (cycle_exit p packet_type rc' s3))
        ≡ returned (negsuc n, s1)
      → s1.client.isconnected ≡ false
  unfolding dispatch after_switch
  cycle_from rounds n timer (pos t) s s1 h =
      let (a, e, h1) = bind_returned (dispatch p rounds timer (pos t) s) _ _ h in
      let (b, e1, h2) = bind_returned (after_switch p rounds a.0 a.1 a.2) _ _ h1 in
      exiting (pos t) b.0 n b.1 s1 h2 refl
  cycle_from rounds n timer (negsuc k) s s1 h = exiting (negsuc k) (negsuc k) n s s1 h refl

  -- A round of the client that returns a negative code leaves the client disconnected, on any
  -- platform.
  pub cycle_closes :
      (rounds n : ℕ) (timer : TimerId) (s s1 : Sys H W)
      → cycle p rounds timer s ≡ returned (negsuc n, s1)
      → s1.client.isconnected ≡ false
  unfolding cycle
  cycle_closes rounds n timer s s1 h =
      let (a, e, h1) = bind_returned (read_packet p timer s) _ _ h in
      cycle_from rounds n timer a.0 a.1 s1 h1

  yield_on :
      (expired : Bool) (turns rounds : ℕ) (s3 s1 : Sys H W)
      → ((s2 : Sys H W)
          → yield_loop p turns rounds s2 ≡ returned (failure, s1)
          → s1.client.isconnected ≡ false)
      → elim expired [ true ↦ returned (success, s3) | false ↦ yield_loop p turns rounds s3 ]
        ≡ returned (failure, s1)
      → s1.client.isconnected ≡ false
  yield_on true turns rounds s3 s1 again h = ground arith
  yield_on false turns rounds s3 s1 again h = again s3 h

  yield_from :
      (turns rounds : ℕ) (m : Run (ℤ × Sys H W)) (s1 : Sys H W)
      → ((n : ℕ) (s2 : Sys H W) → m ≡ returned (negsuc n, s2) → s2.client.isconnected ≡ false)
      → ((s2 : Sys H W)
          → yield_loop p turns rounds s2 ≡ returned (failure, s1)
          → s1.client.isconnected ≡ false)
      → (m >>= λ (rc, s2). elim (is_neg rc) [
        | true ↦ returned (failure, s2)
        | false ↦
            let (expired, w) = p.timer_is_expired call_timer s2.world in
            let s3 : Sys H W = record s2 { world = w } in
            elim expired [ true ↦ returned (success, s3) | false ↦ yield_loop p turns rounds s3 ]
      ])
        ≡ returned (failure, s1)
      → s1.client.isconnected ≡ false
  yield_from turns rounds (returned (negsuc n, s2)) s1 closes again h = closes n s1 (ground arith)
  yield_from turns rounds (returned (pos n, s2)) s1 closes again h =
      yield_on (p.timer_is_expired call_timer s2.world).0 turns rounds _ s1 again h
  yield_from turns rounds fault s1 closes again h = ground arith
  yield_from turns rounds unfinished s1 closes again h = ground arith

  yield_loop_closes :
      (turns rounds : ℕ) (s s1 : Sys H W)
      → yield_loop p turns rounds s ≡ returned (failure, s1)
      → s1.client.isconnected ≡ false
  unfolding yield_loop
  yield_loop_closes zero rounds s s1 h = ground arith
  yield_loop_closes (suc turns) rounds s s1 h =
      yield_from turns rounds (cycle p rounds call_timer s) s1
        (λ n s2 e. cycle_closes rounds n call_timer s s2 e)
        (λ s2 e. yield_loop_closes turns rounds s2 s1 e) h

  -- A yield that returns FAILURE leaves the client disconnected, on any platform.
  pub mqtt_yield_closes :
      (turns rounds timeout_ms : ℕ) (s s1 : Sys H W)
      → mqtt_yield p turns rounds timeout_ms s ≡ returned (failure, s1)
      → s1.client.isconnected ≡ false
  unfolding mqtt_yield
  mqtt_yield_closes turns rounds timeout_ms s s1 h = yield_loop_closes turns rounds _ s1 h
