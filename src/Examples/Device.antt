-- ===== src/Examples/Device.antt =====
-- A platform of the examples: a network that delivers the bytes it holds and takes what it is given,
-- and timers that do not run.
use fembed_lwip.Common.{
  ℕ, List, [], ◌∷◌, ℤ, pos, negsuc, true, false, none, take, drop, length, replicate,
}
use fembed_lwip.Wire.Source.{bytes}
use fembed_lwip.Client.Platform.{Platform, Message}
use fembed_lwip.Client.State.{Slot, Client, Sys}

-- The handlers are numbers, and the world is what the network still has to deliver.
abbrev pub device : (List ℕ → ℤ) → Platform ℕ (List ℕ)
device write = record {
  timer_init = λ t w. w;
  timer_countdown_ms = λ t n w. w;
  timer_countdown = λ t n w. w;
  timer_is_expired = λ t w. (false, w);
  timer_left_ms = λ t w. (100, w);
  mqttread = λ n timeout w. (bytes (take n w), drop n w);
  mqttwrite = λ bs timeout w. (write bs, w);
  call_handler = λ h topic message w. w;
  indeterminate = 0;
}

abbrev pub whole : List ℕ → ℤ
whole bs = pos (length bs)

abbrev pub one_byte : List ℕ → ℤ
one_byte bs = pos 1

abbrev pub broken : List ℕ → ℤ
broken bs = negsuc 0

abbrev pub empty_slot : Slot ℕ
empty_slot = record { topic_filter = none; fp = none }

-- A connected client with buffers of 16 bytes.
abbrev pub connected : Client ℕ
connected = record {
  next_packetid = 1;
  command_timeout_ms = 1000;
  buf_size = 16;
  readbuf_size = 16;
  buf = replicate 16 0;
  readbuf = replicate 16 0;
  keep_alive_interval = 0;
  ping_outstanding = false;
  isconnected = true;
  cleansession = false;
  message_handlers = replicate 5 empty_slot;
  default_message_handler = none;
}

abbrev pub online : List ℕ → Sys ℕ (List ℕ)
online incoming = record { client = connected; world = incoming }

abbrev pub offline : List ℕ → Sys ℕ (List ℕ)
offline incoming = record { client = record connected { isconnected = false }; world = incoming }

abbrev pub note : Message
note = record { qos = 0; retained = 0; dup = 0; id = 0; payload = 104 ∷ []; payloadlen = pos 1 }
