-- ===== src/Client/State.antt =====
-- MQTTClient of paho/MQTTClient-C/src/MQTTClient.h, and getNextPacketId, MQTTClientInit,
-- MQTTCleanSession and MQTTCloseSession of paho/MQTTClient-C/src/MQTTClient.c.
use fembed_lwip.Common.{
  ℕ, ◌+◌, ℤ, pos, negsuc, List, [], ◌∷◌, Bool, false, Option, none, ◌==◌, if◌then◌else◌,
}
use fembed_lwip.Client.Platform.{Platform, last_sent, last_received}

abbrev pub max_packet_id : ℕ
max_packet_id = 65535

abbrev pub max_message_handlers : ℕ
max_message_handlers = 5

-- enum returnCode
abbrev pub buffer_overflow : ℤ
buffer_overflow = negsuc 1

abbrev pub failure : ℤ
failure = negsuc 0

abbrev pub success : ℤ
success = pos 0

-- struct MessageHandlers; `none` is NULL.
pub record Slot (H : Type 0) : Type 0 where
  pub topic_filter : Option (List ℕ)
  pub fp : Option H

-- `buf` and `readbuf` are the objects that the application gave.
pub record Client (H : Type 0) : Type 0 where
  pub next_packetid : ℕ
  pub command_timeout_ms : ℕ
  pub buf_size : ℕ
  pub readbuf_size : ℕ
  pub buf : List ℕ
  pub readbuf : List ℕ
  pub keep_alive_interval : ℕ
  pub ping_outstanding : Bool
  pub isconnected : Bool
  pub cleansession : Bool
  pub message_handlers : List (Slot H)
  pub default_message_handler : Option H

-- A client and the world behind its `ipstack`, timers and handlers.
pub record Sys (H W : Type 0) : Type 0 where
  pub client : Client H
  pub world : W

-- `c->next_packetid = (c->next_packetid == MAX_PACKET_ID) ? 1 : c->next_packetid + 1`
abbrev pub following_packetid : ℕ → ℕ
following_packetid id = if id == max_packet_id then 1 else id + 1

module _ {H : Type 0} where
  unfoldable pub get_next_packetid : Client H → ℕ × Client H
  get_next_packetid c =
      let id = following_packetid c.next_packetid in (id, record c { next_packetid = id })

  abbrev empty_filter : Slot H → Slot H
  empty_filter s = record s { topic_filter = none }

  unfoldable pub clean_slots : List (Slot H) → List (Slot H)
  clean_slots [] = []
  clean_slots (s ∷ slots) = empty_filter s ∷ clean_slots slots

  unfoldable pub clean_session : Client H → Client H
  unfolding clean_slots
  clean_session c = record c { message_handlers = clean_slots c.message_handlers }

  unfoldable pub close_session : Client H → Client H
  close_session c =
      let c1 = record c { ping_outstanding = false; isconnected = false } in
      if c.cleansession then clean_session c1 else c1

module _ {H W : Type 0} (p : Platform H W) where
  -- The fields that are not assigned keep what the object held: the keep-alive interval and the
  -- function pointers of the slots.
  unfoldable pub client_init : ℕ → List ℕ → ℕ → List ℕ → ℕ → Sys H W → Sys H W
  unfolding clean_slots
  client_init command_timeout_ms sendbuf sendbuf_size readbuf readbuf_size s = record {
    client = record s.client {
      message_handlers = clean_slots s.client.message_handlers;
      command_timeout_ms = command_timeout_ms;
      buf = sendbuf;
      buf_size = sendbuf_size;
      readbuf = readbuf;
      readbuf_size = readbuf_size;
      isconnected = false;
      cleansession = false;
      ping_outstanding = false;
      default_message_handler = none;
      next_packetid = 1;
    };
    world = p.timer_init last_received (p.timer_init last_sent s.world);
  }
