-- ===== src/FreeRtos/Os.antt =====
-- What paho/MQTTClient-C/src/FreeRTOS/MQTTFreeRTOS.c calls: the time-out functions of FreeRTOS, the
-- sockets and the resolver of lwIP, and OpenSSL. `T` is TimeOut_t, `W` is the world behind the calls.
use fembed_lwip.Common.{ℕ, ℤ, List, Bool, Option}
use fembed_lwip.Wire.Source.{Got}

-- What `select` returns, and whether it left the socket in the set it was given for reading or writing
-- and in the set of errors.
pub record Ready : Type 0 where
  pub rc : ℤ
  pub is_set : Bool
  pub is_error : Bool

pub record Os (T W : Type 0) : Type 0 where
  -- portTICK_PERIOD_MS
  pub tick_ms : ℕ
  -- A TimeOut_t of zero bytes.
  pub zero_time_out : T
  -- vTaskSetTimeOutState
  pub set_time_out_state : W → T × W
  -- xTaskCheckForTimeOut: whether the time is over, and the two variables after the call.
  pub check_for_time_out : T → ℕ → W → Bool × T × ℕ × W
  -- `select` for one socket, with the microseconds of its `timeval`: for reading, with the socket in
  -- both sets; for writing, with whether it is in the set for writing and in that of errors, which are
  -- overwritten. No socket is in a set that is NULL.
  pub select_read : ℤ → ℕ → W → Ready × W
  pub select_write : ℤ → Bool → Bool → ℕ → W → Ready × W
  -- `recv` and `send` with MSG_DONTWAIT. What is received is stored at the pointer.
  pub recv : ℤ → ℕ → W → Got × W
  pub send : ℤ → List ℕ → W → ℤ × W
  pub socket : W → ℤ × W
  pub connect : ℤ → ℕ → ℕ → W → ℤ × W
  pub close : ℤ → W → W
  pub gethostbyname : List ℕ → W → Option ℕ × W

-- The objects of OpenSSL are handles, NULL is `none`.
pub record OpenSsl (W : Type 0) : Type 0 where
  pub ctx_new : W → Option ℕ × W
  pub ctx_free : ℕ → W → W
  pub load_verify : ℕ → List ℕ → W → ℤ × W
  pub use_certificate : ℕ → List ℕ → W → ℤ × W
  pub use_private_key : ℕ → List ℕ → W → ℤ × W
  pub set_verify : ℕ → Option ℕ → W → W
  pub ssl_new : ℕ → W → Option ℕ × W
  pub ssl_free : ℕ → W → W
  pub set_fd : ℕ → ℤ → W → W
  pub ssl_connect : ℕ → W → ℤ × W
  -- Of the connection that the world is about.
  pub ssl_read : ℕ → W → Got × W
  pub ssl_write : List ℕ → W → ℤ × W
