-- ===== src/FreeRtos/Timer.antt =====
-- The timers of paho/MQTTClient-C/src/FreeRTOS/MQTTFreeRTOS.c.
use fembed_lwip.Common.{ℕ, ◌*◌, ◌/◌, ◌%◌, ◌^◌, Bool}
use fembed_lwip.FreeRtos.Os.{Os}

pub record Timer (T : Type 0) : Type 0 where
  pub ticks_to_wait : ℕ
  pub time_out : T

module _ {T W : Type 0} (os : Os T W) where
  unfoldable pub timer_init : Timer T
  timer_init = record { ticks_to_wait = 0; time_out = os.zero_time_out }

  -- The timer held something before, which has no part.
  unfoldable pub timer_countdown_ms : ℕ → W → Timer T × W
  timer_countdown_ms timeout_ms w =
      let (t, w1) = os.set_time_out_state w in
      (record { ticks_to_wait = timeout_ms / os.tick_ms; time_out = t }, w1)

  -- The product is that of `unsigned int`.
  unfoldable pub timer_countdown : ℕ → W → Timer T × W
  unfolding timer_countdown_ms
  timer_countdown timeout w = timer_countdown_ms (timeout * 1000 % 2 ^ 32) w

  -- `&timer->xTimeOut, &timer->xTicksToWait`
  abbrev pub checked : Timer T → W → Bool × Timer T × W
  checked timer w =
      let (over, t, ticks, w1) = os.check_for_time_out timer.time_out timer.ticks_to_wait w in
      (over, record { ticks_to_wait = ticks; time_out = t }, w1)

  unfoldable pub timer_left_ms : Timer T → W → ℕ × Timer T × W
  timer_left_ms timer w =
      let (over, timer1, w1) = checked timer w in (timer1.ticks_to_wait * os.tick_ms, timer1, w1)

  unfoldable pub timer_is_expired : Timer T → W → Bool × Timer T × W
  timer_is_expired timer w = checked timer w
