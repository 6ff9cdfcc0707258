-- ===== src/Examples/Sessions.antt =====
-- The client on the platforms of the examples.
use fembed_lwip.Common.{ℕ, ◌≡◌, ◌≢◌, refl, arith, pos, List, [], ◌∷◌, some, length, replicate}
use fembed_lwip.Wire.Source.{next, end}
use fembed_lwip.Wire.Field.{length_groups}
use fembed_lwip.Client.Run.{returned, fault}
use fembed_lwip.Client.Platform.{call_timer}
use fembed_lwip.Client.State.{Client}
use fembed_lwip.Client.Handlers.{set_message_handler, add_handler, find_slot, strcmp_eq}
use fembed_lwip.Client.Send.{send_packet}
use fembed_lwip.Client.Receive.{read_packet, with_readbuf}
use fembed_lwip.Client.Ids.{draw, draw_distinct}
use fembed_lwip.Client.Sending.{send_packet_partial}
use fembed_lwip.Client.Receiving.{Arrival, read_packet-frame}
use fembed_lwip.Client.Table.{handler_of, filled, set_message_handler_registers}
use fembed_lwip.Examples.Data.{topic, zeros}
use fembed_lwip.Examples.Device.{device, whole, one_byte, empty_slot, connected, online}

draw_distinct_example : (draw 0 connected).0 ≢ (draw 65534 connected).0
draw_distinct_example = draw_distinct 0 65534 connected (omega arith) (omega arith) (omega arith)

send_packet_partial_example : send_packet (device one_byte) 2 16 call_timer (online []) ≡ fault
send_packet_partial_example =
    send_packet_partial (device one_byte) 0 16 1 100 call_timer (online []) [] [] [] []
      (omega arith) (omega arith) refl refl refl refl refl

-- A PUBREL
abbrev release : List ℕ
release = 0x62 ∷ 2 ∷ 0 ∷ 7 ∷ []

release_arrives : Arrival (device whole) call_timer release 0x62 (0 ∷ 7 ∷ []) []
unfolding length_groups
release_arrives = record {
  left1 = 100;
  left2 = 100;
  left3 = 100;
  w1 = 0x62 ∷ 2 ∷ 0 ∷ 7 ∷ [];
  w2 = 2 ∷ 0 ∷ 7 ∷ [];
  w3 = 2 ∷ 0 ∷ 7 ∷ [];
  w4 = 0 ∷ 7 ∷ [];
  w5 = 0 ∷ 7 ∷ [];
  before_first = refl;
  first = refl;
  before_length = refl;
  length_bytes = next refl end;
  before_body = refl;
  body_bytes = refl;
}

read_packet-frame_example :
    read_packet (device whole) call_timer (online release)
    ≡ returned
        (pos 6, with_readbuf (device whole) (online release) (0x62 ∷ 2 ∷ 0 ∷ 7 ∷ zeros 12) [])
unfolding length_groups
read_packet-frame_example =
    read_packet-frame (device whole) call_timer (online release) 0x62 (0 ∷ 7 ∷ []) []
      release_arrives (omega arith) (omega arith) (omega arith) (omega arith) (omega arith)

abbrev registered : Client ℕ
registered = record connected { message_handlers = filled topic 8 ∷ replicate 4 empty_slot }

set_message_handler_registers_example :
    (handler_of topic registered.message_handlers ≡ some 8)
    × (length registered.message_handlers ≡ 5)
unfolding find_slot strcmp_eq set_message_handler add_handler
set_message_handler_registers_example =
    set_message_handler_registers connected registered topic topic 8 refl
