-- ===== src/Cpp/Clock.antt =====
-- Timers that expire, for the client of paho/MQTTClient/src/MQTTClient.h.
use fembed_lwip.Common.{
  ℕ, ◌≤◌, ◌<◌, ◌≡◌, ◌≢◌, arith, List, Bool, true, false, Option, none, some, if◌then◌else◌,
}
use mathlib.Core.Path.{subst}
use fembed_lwip.Wire.Strings.{MqttString}
use fembed_lwip.Client.Run.{Run, returned, fault, unfinished, lift, ◌>>=◌}
use fembed_lwip.Client.Platform.{Message}
use fembed_lwip.Cpp.Platform.{Platform, TimerId, last_received, call_timer, send_timer, ping_timer}

-- The run is not cut off by its fuel, and what it returns satisfies `P`.
unfoldable pub Completes : {A : Type 0} → Run A → (A → Type 0) → Type 0
Completes (returned a) P = P a
Completes fault P = Unit
Completes unfinished P = ⊥

-- The timers of calls, of which each expires after a number of tests unless it is started again.
pub data Deadline : Type 0 where
  of_call of_send of_ping : Deadline

abbrev pub timer_of : Deadline → TimerId
timer_of of_call = call_timer
timer_of of_send = send_timer
timer_of of_ping = ping_timer

-- `ticks d w` more tests of the timer fail. Starting a timer allows at most `limit` tests, and what
-- does not start it does not prolong it. The timer of a call is started by the call alone.
pub record Clock {H W : Type 0} (p : Platform H W) : Type 0 where
  pub limit : ℕ
  pub ticks : Deadline → W → ℕ
  pub passes :
      (d : Deadline) (w : W)
      → (p.expired (timer_of d) w).0 ≡ false
      → ticks d (p.expired (timer_of d) w).1 < ticks d w
  pub after_expired : (d : Deadline) (t : TimerId) (w : W) → ticks d (p.expired t w).1 ≤ ticks d w
  pub after_left_ms : (d : Deadline) (t : TimerId) (w : W) → ticks d (p.left_ms t w).1 ≤ ticks d w
  pub after_read :
      (d : Deadline) (n timeout : ℕ) (w : W) → ticks d (p.read n timeout w).1 ≤ ticks d w
  pub after_write :
      (d : Deadline) (bs : List ℕ) (timeout : ℕ) (w : W)
      → ticks d (p.write bs timeout w).1 ≤ ticks d w
  pub after_call :
      (d : Deadline) (h : H) (topic : MqttString) (message : Message) (w : W)
      → ticks d (p.call h topic message w) ≤ ticks d w
  pub after_countdown :
      (d : Deadline) (n : ℕ) (w : W) → ticks d (p.countdown last_received n w) ≤ ticks d w
  pub send_started : (w : W) → ticks of_send (p.timer_default send_timer w) ≤ limit
  pub send_started_call : (w : W) → ticks of_call (p.timer_default send_timer w) ≤ ticks of_call w
  pub ping_started : (n : ℕ) (w : W) → ticks of_ping (p.timer_of_ms ping_timer n w) ≤ limit
  pub ping_started_call :
      (n : ℕ) (w : W) → ticks of_call (p.timer_of_ms ping_timer n w) ≤ ticks of_call w
  pub call_started : (n : ℕ) (w : W) → ticks of_call (p.countdown_ms call_timer n w) ≤ limit
  pub call_default : (w : W) → ticks of_call (p.timer_default call_timer w) ≤ limit
  pub call_of_ms : (n : ℕ) (w : W) → ticks of_call (p.timer_of_ms call_timer n w) ≤ limit

pub completes_bind :
    {A B : Type 0} (P : A → Type 0) (Q : B → Type 0) (m : Run A) (f : A → Run B)
    → Completes m P
    → ((a : A) → P a → Completes (f a) Q)
    → Completes (m >>= f) Q
unfolding Completes
completes_bind P Q (returned a) f h k = k a h
completes_bind P Q fault f h k = tt
completes_bind P Q unfinished f h k = absurd h

pub completes_lift :
    {A B : Type 0} (Q : B → Type 0) (m : Option A) (f : A → Run B)
    → ((a : A) → Completes (f a) Q)
    → Completes (lift m >>= f) Q
unfolding Completes
completes_lift Q none f k = tt
completes_lift Q (some a) f k = k a

pub completes_if :
    {A : Type 0} (P : A → Type 0) (t : Bool) (m n : Run A)
    → Completes m P
    → Completes n P
    → Completes (if t then m else n) P
completes_if P true m n h k = h
completes_if P false m n h k = k

pub completes_weaken :
    {A : Type 0} (P : A → Type 0) (Q : A → Type 0) (m : Run A)
    → Completes m P
    → ((a : A) → P a → Q a)
    → Completes m Q
unfolding Completes
completes_weaken P Q (returned a) h k = k a h
completes_weaken P Q fault h k = tt
completes_weaken P Q unfinished h k = absurd h

pub completes_ends : {A : Type 0} (P : A → Type 0) (m : Run A) → Completes m P → m ≢ unfinished
unfolding Completes
completes_ends P m h e = subst (λ r. Completes r P) e h

pub completes_lifted : {A : Type 0} (m : Option A) → Completes (lift m) (λ a. Unit)
unfolding Completes
completes_lifted none = tt
completes_lifted (some a) = tt

-- The same for a packet function, which may fault.
unfoldable pub Gives : {A : Type 0} → Option A → (A → Type 0) → Type 0
Gives none P = Unit
Gives (some a) P = P a

pub completes_gives :
    {A B : Type 0} (P : A → Type 0) (Q : B → Type 0) (m : Option A) (f : A → Run B)
    → Gives m P
    → ((a : A) → P a → Completes (f a) Q)
    → Completes (lift m >>= f) Q
unfolding Completes Gives
completes_gives P Q none f h k = tt
completes_gives P Q (some a) f h k = k a h

module _ {H W : Type 0} (p : Platform H W) (clock : Clock p) where
  -- No timer was prolonged from `w` to `w1`.
  abbrev pub Within : W → W → Type 0
  Within w w1 = (d : Deadline) → clock.ticks d w1 ≤ clock.ticks d w

  pub Within-after : (w w1 w2 : W) → Within w w1 → Within w1 w2 → Within w w2
  Within-after w w1 w2 h k d = omega (arith, h d, k d)
