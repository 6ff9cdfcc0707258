-- ===== src/Examples/Clock.antt =====
-- A platform whose timers run out, for the client of paho/MQTTClient/src/MQTTClient.h.
use fembed_lwip.Common.{
  ℕ, ◌-◌, ◌≤◌, ◌<◌, ◌≡◌, ◌≢◌, arith, pos, List, [], ◌∷◌, Bool, false, take, drop, length, some,
  ◌==◌,
}
use fembed_lwip.Wire.Source.{bytes}
use fembed_lwip.Client.Run.{unfinished}
use fembed_lwip.Cpp.Platform.{Platform, TimerId, last_received, call_timer, send_timer, ping_timer}
use fembed_lwip.Cpp.State.{Sys}
use fembed_lwip.Cpp.Cycle.{client_yield}
use fembed_lwip.Cpp.Clock.{Deadline, of_call, of_send, of_ping, timer_of, Clock}
use fembed_lwip.Cpp.Calls.{
  client_connect, client_publish, client_subscribe, client_unsubscribe, client_disconnect,
}
use fembed_lwip.Cpp.Returning.{client_calls_return}
use fembed_lwip.Packet.Connect.{connect_data_initializer}
use fembed_lwip.Examples.Data.{topic, greeting}
use fembed_lwip.Examples.Cpp.{small, opened}

-- The tests that each timer still fails, and what the network still has to deliver.
record Ticking : Type 0 where
  call_left : ℕ
  send_left : ℕ
  ping_left : ℕ
  inbox : List ℕ

unfoldable run_out : TimerId → Ticking → Bool × Ticking
run_out last_received w = (false, w)
run_out call_timer w = (w.call_left == 0, record w { call_left = w.call_left - 1 })
run_out send_timer w = (w.send_left == 0, record w { send_left = w.send_left - 1 })
run_out ping_timer w = (w.ping_left == 0, record w { ping_left = w.ping_left - 1 })

-- A timer fails four tests.
unfoldable begin : TimerId → Ticking → Ticking
begin last_received w = w
begin call_timer w = record w { call_left = 4 }
begin send_timer w = record w { send_left = 4 }
begin ping_timer w = record w { ping_left = 4 }

abbrev ticking : Platform ℕ Ticking
ticking = record {
  timer_default = begin;
  timer_of_ms = λ t n w. begin t w;
  countdown_ms = λ t n w. begin t w;
  countdown = λ t n w. begin t w;
  expired = run_out;
  left_ms = λ t w. (100, w);
  read = λ n timeout w. (bytes (take n w.inbox), record w { inbox = drop n w.inbox });
  write = λ bs timeout w. (pos (length bs), w);
  call = λ h topic message w. w;
  indeterminate = 0;
}

unfoldable left : Deadline → Ticking → ℕ
left of_call w = w.call_left
left of_send w = w.send_left
left of_ping w = w.ping_left

failed_test :
    (d : Deadline) (w : Ticking)
    → (run_out (timer_of d) w).0 ≡ false
    → left d (run_out (timer_of d) w).1 < left d w
unfolding left run_out
failed_test of_call w e = ground arith
failed_test of_send w e = ground arith
failed_test of_ping w e = ground arith

no_longer : (d : Deadline) (t : TimerId) (w : Ticking) → left d (run_out t w).1 ≤ left d w
unfolding left run_out
no_longer of_call last_received w = omega arith
no_longer of_call call_timer w = omega arith
no_longer of_call send_timer w = omega arith
no_longer of_call ping_timer w = omega arith
no_longer of_send last_received w = omega arith
no_longer of_send call_timer w = omega arith
no_longer of_send send_timer w = omega arith
no_longer of_send ping_timer w = omega arith
no_longer of_ping last_received w = omega arith
no_longer of_ping call_timer w = omega arith
no_longer of_ping send_timer w = omega arith
no_longer of_ping ping_timer w = omega arith

same_left : (d : Deadline) (w : Ticking) (bs : List ℕ) → left d (record w { inbox = bs }) ≤ left d w
unfolding left
same_left of_call w bs = omega arith
same_left of_send w bs = omega arith
same_left of_ping w bs = omega arith

left_le : (d : Deadline) (w : Ticking) → left d w ≤ left d w
left_le d w = omega arith

ticking-Clock : Clock ticking
unfolding left begin
ticking-Clock = record {
  limit = 4;
  ticks = left;
  passes = failed_test;
  after_expired = no_longer;
  after_left_ms = λ d t w. left_le d w;
  after_read = λ d n timeout w. same_left d w (drop n w.inbox);
  after_write = λ d bs timeout w. left_le d w;
  after_call = λ d h topic message w. left_le d w;
  after_countdown = λ d n w. left_le d w;
  send_started = λ w. omega arith;
  send_started_call = λ w. omega arith;
  ping_started = λ n w. omega arith;
  ping_started_call = λ n w. omega arith;
  call_started = λ n w. omega arith;
  call_default = λ w. omega arith;
  call_of_ms = λ n w. omega arith;
}

-- A PINGRESP is on its way.
abbrev ponged : Sys ℕ Ticking
ponged = record {
  client = opened.client;
  world = record { call_left = 0; send_left = 0; ping_left = 0; inbox = 0xd0 ∷ 0 ∷ [] };
}

client_calls_return_example :
    (client_connect small ticking 5 5 connect_data_initializer ponged ≢ unfinished)
    × ((client_publish small ticking 5 5 topic greeting ponged ≢ unfinished)
        × ((client_subscribe small ticking 5 5 topic 1 (some 9) ponged ≢ unfinished)
            × ((client_unsubscribe small ticking 5 5 topic ponged ≢ unfinished)
                × ((client_yield small ticking 5 5 1000 ponged ≢ unfinished)
                    × (client_disconnect small ticking 5 ponged ≢ unfinished)))))
unfolding ticking-Clock
client_calls_return_example =
    client_calls_return small ticking ticking-Clock 5 5 (omega arith) (omega arith)
      connect_data_initializer topic topic greeting 1 1000 (some 9) ponged
