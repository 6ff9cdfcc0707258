-- ===== src/Examples/Cpp.antt =====
-- The client of paho/MQTTClient/src/MQTTClient.h on a platform of the examples.
use fembed_lwip.Common.{
  arith, ℕ, ◌≡◌, refl, pos, List, [], ◌∷◌, true, false, none, some, take, drop, length, replicate,
}
use fembed_lwip.Wire.Buffer.{put_byte, write_char, write_int, copy, emit}
use fembed_lwip.Wire.Reader.{read_char, read_int, bufchar}
use fembed_lwip.Wire.Source.{next, end, bytes, store_got, buf_getfn}
use fembed_lwip.Wire.Length.{
  packet_len, packet_encode, encode_loop, packet_decode, decode_loop, packet_decode_buf,
}
use fembed_lwip.Wire.Strings.{mqtt_strlen, write_mqtt_string, write_cstring, copy_from}
use fembed_lwip.Packet.Header.{type_of_buffer}
use fembed_lwip.Packet.Publish.{PublishOut}
use fembed_lwip.Packet.Connack.{deserialize_connack, connack_body}
use fembed_lwip.Packet.Connect.{
  connect_data_initializer, serialize_connect, connect_length, write_protocol, write_optional,
  write_will,
}
use fembed_lwip.Client.Run.{returned}
use fembed_lwip.Client.State.{success}
use fembed_lwip.Cpp.Platform.{Platform, call_timer}
use fembed_lwip.Cpp.State.{
  Config, Client, Sys, construct, close_session, clean_session, drop_filters, clear_all,
}
use fembed_lwip.Cpp.Inbox.{is_qos2msgid_free, use_qos2msgid}
use fembed_lwip.Cpp.Send.{send_packet, send_loop, keepalive}
use fembed_lwip.Cpp.Receive.{read_packet, read_rest, packet_received, decode_packet}
use fembed_lwip.Cpp.Handlers.{offer, deliver_message, deliver_loop, deliver_default}
use fembed_lwip.Cpp.Cycle.{
  send_serialized, deliver_once, dispatch, after_switch, cycle_exit, cycle, wait_loop, waitfor,
}
use fembed_lwip.Cpp.Calls.{
  client_connect, connect_exit, await_connack, after_reply, read_connack, resend,
}
use fembed_lwip.Cpp.Sound.{IsSound}
use fembed_lwip.Cpp.Reachable.{connects, Reachable, constructed, stepped, reachable-IsSound}
use fembed_lwip.Wire.Field.{length_groups}
use fembed_lwip.Cpp.Missing.{CutShort, cycle-CutShort}
use fembed_lwip.Cpp.Outcomes.{deliver_once_idempotent}
use fembed_lwip.Examples.Data.{zeros, blank_publish}

-- The world is what the network still has to deliver; timers do not run.
abbrev gadget : Platform ℕ (List ℕ)
gadget = record {
  timer_default = λ t w. w;
  timer_of_ms = λ t n w. w;
  countdown_ms = λ t n w. w;
  countdown = λ t n w. w;
  expired = λ t w. (false, w);
  left_ms = λ t w. (100, w);
  read = λ n timeout w. (bytes (take n w), drop n w);
  write = λ bs timeout w. (pos (length bs), w);
  call = λ h topic message w. h ∷ w;
  indeterminate = 0;
}

abbrev pub small : Config
small = record { max_mqtt_packet_size = 16; max_message_handlers = 2; qos2 = true }

-- What the memory of the object holds before it is constructed.
abbrev memory : Client ℕ
memory = record {
  sendbuf = zeros 16;
  readbuf = zeros 16;
  keep_alive_interval = 7;
  ping_outstanding = 7;
  cleansession = false;
  packetid = 7;
  message_handlers = [];
  default_message_handler = none;
  isconnected = true;
  pubbuf = zeros 16;
  inflight_len = 7;
  inflight_msgid = 7;
  inflight_qos = 7;
  pubrel = true;
  incoming_qos2_messages = replicate 10 7;
}

-- After the construction, with the answer of the server on its way.
abbrev built : Sys ℕ (List ℕ)
built = record {
  client = record memory {
    ping_outstanding = 0;
    cleansession = true;
    packetid = 0;
    message_handlers = replicate 2 (record { topic_filter = none; fp = none });
    isconnected = false;
    inflight_msgid = 0;
    inflight_qos = 0;
    pubrel = false;
    incoming_qos2_messages = zeros 10;
  };
  world = 0x20 ∷ 2 ∷ 0 ∷ 0 ∷ [];
}

abbrev pub opened : Sys ℕ (List ℕ)
opened = record {
  client = record (built.client) {
    sendbuf = 0x10 ∷ 12 ∷ 0 ∷ 4 ∷ 77 ∷ 81 ∷ 84 ∷ 84 ∷ 4 ∷ 2 ∷ 0 ∷ 60 ∷ 0 ∷ 0 ∷ zeros 2;
    readbuf = 0x20 ∷ 2 ∷ 0 ∷ 0 ∷ zeros 12;
    keep_alive_interval = 60;
    isconnected = true;
  };
  world = [];
}

connect_run :
    client_connect small gadget 2 2 connect_data_initializer built ≡ returned (success, opened)
unfolding client_connect connect_exit await_connack after_reply read_connack resend waitfor
    wait_loop cycle dispatch after_switch cycle_exit keepalive read_packet read_rest packet_received
    decode_packet store_got type_of_buffer emit packet_decode decode_loop send_serialized
    send_packet send_loop put_byte write_char write_int copy packet_len packet_encode encode_loop
    mqtt_strlen write_mqtt_string write_cstring copy_from serialize_connect connect_length
    write_protocol write_optional write_will deserialize_connack connack_body read_char read_int
    bufchar buf_getfn packet_decode_buf
connect_run = refl

opened-Reachable : Reachable small gadget opened
unfolding construct close_session clean_session drop_filters clear_all
opened-Reachable =
    stepped (constructed memory (0x20 ∷ 2 ∷ 0 ∷ 0 ∷ []))
      (connects 2 2 connect_data_initializer success connect_run)

reachable-IsSound_example : IsSound small opened.client
reachable-IsSound_example = reachable-IsSound small gadget opened opened-Reachable

abbrev exactly_once : PublishOut
exactly_once = record blank_publish { qos = 2; packetid = 5 }

-- After the message was handed to the default function, 9.
abbrev told : Sys ℕ (List ℕ)
told = record {
  client = record (opened.client) {
    default_message_handler = some 9;
    incoming_qos2_messages = 5 ∷ zeros 9;
  };
  world = 9 ∷ [];
}

deliver_once_idempotent_example : deliver_once small gadget exactly_once told ≡ returned told
unfolding deliver_once is_qos2msgid_free use_qos2msgid deliver_message deliver_loop deliver_default
    offer
deliver_once_idempotent_example =
    deliver_once_idempotent small gadget exactly_once
      (record opened { client = record (opened.client) { default_message_handler = some 9 } }) told
      refl refl refl

-- Of a PUBLISH with five bytes behind its header one arrives.
abbrev cut_off : Sys ℕ (List ℕ)
cut_off = record opened { world = 0x30 ∷ 5 ∷ 9 ∷ [] }

abbrev left_over : Sys ℕ (List ℕ)
left_over = record {
  client = record (opened.client) { readbuf = 0x30 ∷ 5 ∷ 9 ∷ zeros 13 };
  world = [];
}

cut_off-CutShort : CutShort small gadget call_timer cut_off.world 0x30 5 (9 ∷ []) []
unfolding length_groups
cut_off-CutShort = record {
  left1 = 100;
  left2 = 100;
  left3 = 100;
  w1 = cut_off.world;
  w2 = 5 ∷ 9 ∷ [];
  w3 = 5 ∷ 9 ∷ [];
  w4 = 9 ∷ [];
  w5 = 9 ∷ [];
  before_first = refl;
  first = refl;
  before_length = refl;
  length_bytes = next refl end;
  before_body = refl;
  part_bytes = refl;
}

cycle-CutShort_example :
    (read_packet small gadget call_timer cut_off ≡ returned (pos 1, left_over))
    × (cycle small gadget 2 cut_off
        ≡ returned (pos 1, record left_over { client = close_session small left_over.client }))
unfolding length_groups
cycle-CutShort_example =
    cycle-CutShort small gadget 2 cut_off 0x30 5 (9 ∷ []) [] cut_off-CutShort (omega arith)
      (omega arith) (omega arith) (omega arith) refl

-- A client with message 3 in flight.
abbrev pending : Sys ℕ (List ℕ)
pending = record built { client = record (built.client) { inflight_msgid = 3; inflight_len = 4 } }
