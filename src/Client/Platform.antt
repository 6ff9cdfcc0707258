-- ===== src/Client/Platform.antt =====
-- What the client takes from its platform: the Network and Timer functions that
-- paho/MQTTClient-C/src/MQTTClient.h asks the platform header for, and the callbacks of the
-- application.
use fembed_lwip.Common.{ℕ, ℤ, List, Bool}
use fembed_lwip.Wire.Strings.{MqttString}
use fembed_lwip.Wire.Source.{Got}

-- The timers, by the variable that holds them: the two of the client, the one of the call that runs,
-- and the one of `keepalive`.
pub data TimerId : Type 0 where
  last_sent last_received call_timer ping_timer : TimerId

-- `MQTTMessage`; `payload` is the object from that pointer on.
pub record Message : Type 0 where
  pub qos : ℕ
  pub retained : ℕ
  pub dup : ℕ
  pub id : ℕ
  pub payload : List ℕ
  pub payloadlen : ℤ

-- `H` are the message handlers of the application, `W` is the world of the network, the timers and
-- the application. A handler does not call the client back.
pub record Platform (H W : Type 0) : Type 0 where
  pub timer_init : TimerId → W → W
  pub timer_countdown_ms : TimerId → ℕ → W → W
  pub timer_countdown : TimerId → ℕ → W → W
  pub timer_is_expired : TimerId → W → Bool × W
  pub timer_left_ms : TimerId → W → ℕ × W
  pub mqttread : ℕ → ℕ → W → Got × W
  pub mqttwrite : List ℕ → ℕ → W → ℤ × W
  pub call_handler : H → MqttString → Message → W → W
  -- What an uninitialised local variable holds.
  pub indeterminate : ℕ
