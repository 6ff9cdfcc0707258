-- ===== src/Examples/Outcomes.antt =====
-- Calls of the client that fail and calls that succeed, on the platforms of the examples.
use fembed_lwip.Common.{ℕ, ◌≡◌, refl, List, [], ◌∷◌, none, some, true, false}
use fembed_lwip.Wire.Buffer.{put_byte, write_char, write_int, copy, emit}
use fembed_lwip.Wire.Reader.{read_char, read_int, bufchar}
use fembed_lwip.Wire.Source.{store_got, buf_getfn}
use fembed_lwip.Wire.Length.{
  packet_len, packet_encode, encode_loop, packet_decode, decode_loop, packet_decode_buf,
}
use fembed_lwip.Wire.Strings.{mqtt_strlen, write_mqtt_string, write_cstring, copy_from}
use fembed_lwip.Packet.Header.{type_of_buffer}
use fembed_lwip.Packet.Ack.{serialize_ack, deserialize_ack, finish_ack}
use fembed_lwip.Packet.Connack.{deserialize_connack, connack_body}
use fembed_lwip.Packet.Connect.{
  serialize_connect, connect_length, write_protocol, write_optional, write_will,
}
use fembed_lwip.Packet.Publish.{serialize_publish, publish_length, write_packetid}
use fembed_lwip.Packet.Subscribe.{
  serialize_subscribe, subscribe_length, subscribe_length_loop, write_subscriptions,
}
use fembed_lwip.Client.Run.{returned}
use fembed_lwip.Client.Platform.{call_timer}
use fembed_lwip.Client.State.{
  Sys, success, failure, close_session, get_next_packetid, clean_session, clean_slots,
}
use fembed_lwip.Client.Send.{send_packet, send_loop, keepalive, ping_due}
use fembed_lwip.Client.Receive.{read_packet, read_rest, packet_received, decode_packet}
use fembed_lwip.Client.Cycle.{
  send_serialized, dispatch, on_ack, after_switch, cycle_exit, cycle, yield_loop, mqtt_yield,
  wait_loop, waitfor,
}
use fembed_lwip.Client.Calls.{
  mqtt_publish, mqtt_subscribe, mqtt_connect, connect_with, connect_exit, after_reply, read_connack,
  close_on_failure,
}
use fembed_lwip.Client.Session.{cycle_closes, mqtt_yield_closes}
use fembed_lwip.Examples.Data.{topic, zeros}
use fembed_lwip.Examples.Device.{device, whole, broken, connected, online, offline, note}

-- The client after the packet in `buf` could not be sent.
abbrev closed : ℕ → List ℕ → List ℕ → Sys ℕ (List ℕ)
closed next_packetid buf readbuf = record {
  client = record connected {
    next_packetid = next_packetid;
    buf = buf;
    readbuf = readbuf;
    isconnected = false;
  };
  world = [];
}

publish_run :
    mqtt_publish (device broken) 1 2 topic note 1 (online [])
    ≡ returned (failure, (closed 1 (0x30 ∷ 6 ∷ 0 ∷ 3 ∷ 97 ∷ 47 ∷ 98 ∷ 104 ∷ zeros 8) (zeros 16)))
unfolding mqtt_publish close_on_failure serialize_publish publish_length write_packetid
    send_serialized send_packet send_loop put_byte write_char write_int copy packet_len
    packet_encode encode_loop mqtt_strlen write_mqtt_string write_cstring copy_from close_session
    clean_session clean_slots
publish_run = refl

subscribe_run :
    mqtt_subscribe (device broken) 1 2 topic 1 (some 8) (online [])
    ≡ returned
        (failure, (closed 2 (0x82 ∷ 8 ∷ 0 ∷ 2 ∷ 0 ∷ 3 ∷ 97 ∷ 47 ∷ 98 ∷ 1 ∷ zeros 6) (zeros 16)))
unfolding mqtt_subscribe close_on_failure get_next_packetid serialize_subscribe subscribe_length
    subscribe_length_loop write_subscriptions send_serialized send_packet send_loop put_byte
    write_char write_int copy packet_len packet_encode encode_loop mqtt_strlen write_mqtt_string
    write_cstring copy_from close_session clean_session clean_slots
subscribe_run = refl

cycle_run :
    cycle (device broken) 2 call_timer (online (0x62 ∷ 2 ∷ 0 ∷ 7 ∷ []))
    ≡ returned (failure, (closed 1 (0x70 ∷ 2 ∷ 0 ∷ 7 ∷ zeros 12) (0x62 ∷ 2 ∷ 0 ∷ 7 ∷ zeros 12)))
unfolding cycle dispatch on_ack after_switch cycle_exit keepalive ping_due deserialize_ack
    finish_ack serialize_ack read_char read_int bufchar buf_getfn packet_decode_buf read_packet
    read_rest packet_received decode_packet store_got type_of_buffer emit packet_decode decode_loop
    send_serialized send_packet send_loop put_byte write_char write_int copy packet_len
    packet_encode encode_loop mqtt_strlen write_mqtt_string write_cstring copy_from close_session
    clean_session clean_slots
cycle_run = refl

cycle_closes_example :
    ((closed 1 (0x70 ∷ 2 ∷ 0 ∷ 7 ∷ zeros 12) (0x62 ∷ 2 ∷ 0 ∷ 7 ∷ zeros 12)).client.isconnected)
    ≡ false
cycle_closes_example =
    cycle_closes (device broken) 2 0 call_timer (online (0x62 ∷ 2 ∷ 0 ∷ 7 ∷ []))
      (closed 1 (0x70 ∷ 2 ∷ 0 ∷ 7 ∷ zeros 12) (0x62 ∷ 2 ∷ 0 ∷ 7 ∷ zeros 12)) cycle_run

yield_run :
    mqtt_yield (device broken) 1 2 500 (online (0x62 ∷ 2 ∷ 0 ∷ 7 ∷ []))
    ≡ returned (failure, (closed 1 (0x70 ∷ 2 ∷ 0 ∷ 7 ∷ zeros 12) (0x62 ∷ 2 ∷ 0 ∷ 7 ∷ zeros 12)))
unfolding mqtt_yield yield_loop cycle dispatch on_ack after_switch cycle_exit keepalive ping_due
    deserialize_ack finish_ack serialize_ack read_char read_int bufchar buf_getfn packet_decode_buf
    read_packet read_rest packet_received decode_packet store_got type_of_buffer emit packet_decode
    decode_loop send_serialized send_packet send_loop put_byte write_char write_int copy packet_len
    packet_encode encode_loop mqtt_strlen write_mqtt_string write_cstring copy_from close_session
    clean_session clean_slots
yield_run = refl

mqtt_yield_closes_example :
    ((closed 1 (0x70 ∷ 2 ∷ 0 ∷ 7 ∷ zeros 12) (0x62 ∷ 2 ∷ 0 ∷ 7 ∷ zeros 12)).client.isconnected)
    ≡ false
mqtt_yield_closes_example =
    mqtt_yield_closes (device broken) 1 2 500 (online (0x62 ∷ 2 ∷ 0 ∷ 7 ∷ []))
      (closed 1 (0x70 ∷ 2 ∷ 0 ∷ 7 ∷ zeros 12) (0x62 ∷ 2 ∷ 0 ∷ 7 ∷ zeros 12)) yield_run

-- The client after the CONNACK of the server.
abbrev opened : Sys ℕ (List ℕ)
opened = record {
  client = record connected {
    buf = 0x10 ∷ 12 ∷ 0 ∷ 4 ∷ 77 ∷ 81 ∷ 84 ∷ 84 ∷ 4 ∷ 2 ∷ 0 ∷ 60 ∷ 0 ∷ 0 ∷ zeros 2;
    readbuf = 0x20 ∷ 2 ∷ 0 ∷ 0 ∷ zeros 12;
    keep_alive_interval = 60;
    cleansession = true;
  };
  world = [];
}

connect_run :
    mqtt_connect (device whole) 1 2 none (offline (0x20 ∷ 2 ∷ 0 ∷ 0 ∷ []))
    ≡ returned (success, opened)
unfolding mqtt_connect connect_with connect_exit after_reply read_connack waitfor wait_loop
    deserialize_connack connack_body serialize_connect connect_length write_protocol write_optional
    write_will cycle dispatch on_ack after_switch cycle_exit keepalive ping_due deserialize_ack
    finish_ack serialize_ack read_char read_int bufchar buf_getfn packet_decode_buf read_packet
    read_rest packet_received decode_packet store_got type_of_buffer emit packet_decode decode_loop
    send_serialized send_packet send_loop put_byte write_char write_int copy packet_len
    packet_encode encode_loop mqtt_strlen write_mqtt_string write_cstring copy_from close_session
    clean_session clean_slots
connect_run = refl
