-- ===== src/Cpp/Platform.antt =====
-- The template parameters Network and Timer of paho/MQTTClient/src/MQTTClient.h, and the callbacks.
use fembed_lwip.Common.{ℕ, ℤ, List, Bool}
use fembed_lwip.Wire.Strings.{MqttString}
use fembed_lwip.Wire.Source.{Got}
use fembed_lwip.Client.Platform.{Message}

-- The timers, by the variable that holds them: the member, the `timer` of the call that runs, the
-- `send_timer` of `cycle` and the `timer` of `keepalive`.
pub data TimerId : Type 0 where
  last_received call_timer send_timer ping_timer : TimerId

-- `H` are the functions that a callback can be attached to, `W` is the world of the network, the
-- timers and the application. A callback does not call the client back.
pub record Platform (H W : Type 0) : Type 0 where
  -- `Timer timer;`
  pub timer_default : TimerId → W → W
  -- `Timer timer(ms);`
  pub timer_of_ms : TimerId → ℕ → W → W
  pub countdown_ms : TimerId → ℕ → W → W
  pub countdown : TimerId → ℕ → W → W
  pub expired : TimerId → W → Bool × W
  pub left_ms : TimerId → W → ℕ × W
  pub read : ℕ → ℕ → W → Got × W
  pub write : List ℕ → ℕ → W → ℤ × W
  pub call : H → MqttString → Message → W → W
  -- What an uninitialised local variable holds.
  pub indeterminate : ℕ
