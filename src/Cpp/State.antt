-- ===== src/Cpp/State.antt =====
-- The members of MQTT::Client in paho/MQTTClient/src/MQTTClient.h, its constructor, cleanSession,
-- closeSession and PacketId. MQTTCLIENT_QOS1 is set, as by default; MQTTCLIENT_QOS2 is a parameter.
use fembed_lwip.Common.{
  ℕ, ◌+◌, List, [], ◌∷◌, Bool, true, false, Option, none, replicate, ◌==◌, if◌then◌else◌,
}
use fembed_lwip.Client.State.{Slot}

-- The template arguments and the macro.
pub record Config : Type 0 where
  pub max_mqtt_packet_size : ℕ
  pub max_message_handlers : ℕ
  pub qos2 : Bool

abbrev pub max_incoming_qos2_messages : ℕ
max_incoming_qos2_messages = 10

pub record Client (H : Type 0) : Type 0 where
  pub sendbuf : List ℕ
  pub readbuf : List ℕ
  pub keep_alive_interval : ℕ
  pub ping_outstanding : ℕ
  pub cleansession : Bool
  pub packetid : ℕ
  pub message_handlers : List (Slot H)
  pub default_message_handler : Option H
  pub isconnected : Bool
  pub pubbuf : List ℕ
  pub inflight_len : ℕ
  pub inflight_msgid : ℕ
  pub inflight_qos : ℕ
  pub pubrel : Bool
  pub incoming_qos2_messages : List ℕ

-- A client and the world behind its network, timers and callbacks.
pub record Sys (H W : Type 0) : Type 0 where
  pub client : Client H
  pub world : W

unfoldable pub clear_all : List ℕ → List ℕ
clear_all [] = []
clear_all (m ∷ ms) = 0 ∷ clear_all ms

module _ {H : Type 0} where
  -- `packetid.getNext()`
  unfoldable pub get_next : Client H → ℕ × Client H
  get_next c =
      let id = if c.packetid == 65535 then 1 else c.packetid + 1 in (id, record c { packetid = id })

  -- The filter is freed; the function stays attached.
  unfoldable pub drop_filters : List (Slot H) → List (Slot H)
  drop_filters [] = []
  drop_filters (s ∷ slots) = record s { topic_filter = none } ∷ drop_filters slots

  -- `mh != 0` attaches, and 0 detaches.
  unfoldable pub set_default_message_handler : Option H → Client H → Client H
  set_default_message_handler mh c = record c { default_message_handler = mh }

module _ {H : Type 0} (g : Config) where
  unfoldable pub clean_session : Client H → Client H
  unfolding drop_filters clear_all
  clean_session c =
      let c1 = record c {
        message_handlers = drop_filters c.message_handlers;
        inflight_msgid = 0;
        inflight_qos = 0;
      } in
      if g.qos2
      then record c1 { pubrel = false; incoming_qos2_messages = clear_all c.incoming_qos2_messages }
      else c1

  unfoldable pub close_session : Client H → Client H
  close_session c =
      let c1 = record c { ping_outstanding = 0; isconnected = false } in
      if c.cleansession then clean_session c1 else c1

  -- `memset` clears the handlers; members that are not assigned keep what the object held. Without
  -- MQTTCLIENT_QOS2 there are no incoming identifiers.
  unfoldable pub construct : Client H → Client H
  construct c = close_session (record c {
    packetid = 0;
    message_handlers = replicate g.max_message_handlers (record { topic_filter = none; fp = none });
    cleansession = true;
    incoming_qos2_messages = if g.qos2 then c.incoming_qos2_messages else [];
  })
