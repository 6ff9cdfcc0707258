-- ===== src/Examples/Reading.antt =====
-- The reader that is called again, and the server's reading of a CONNECT.
use fembed_lwip.Common.{ℕ, ◌≡◌, refl, arith, pos, List, [], ◌∷◌, some, ◌>>=◌, inr}
use fembed_lwip.Wire.Length.{packet_len}
use fembed_lwip.Wire.Field.{length_groups}
use fembed_lwip.Packet.Connect.{connect_data_initializer, serialize_connect}
use fembed_lwip.Packet.Connect.Read.{deserialize_connect}
use fembed_lwip.Packet.Connect.Stages.{IsAcceptable, connect_read}
use fembed_lwip.Packet.Connect.RoundTrip.{connect_round_trip}
use fembed_lwip.Packet.Nonblocking.{Transport}
use fembed_lwip.Packet.Nonblocking.Pieces.{joined, poll, Finishes}
use fembed_lwip.Packet.Nonblocking.Whole.{poll-packet_readnb}
use fembed_lwip.Examples.Data.{zeros, login, login_texts, login_holds}

-- A PUBREL in pieces, with pauses, and a byte of the next packet.
abbrev pieces : List (List ℕ)
pieces = [] ∷ (0x62 ∷ []) ∷ [] ∷ (2 ∷ 0 ∷ []) ∷ [] ∷ (7 ∷ 0xd0 ∷ []) ∷ []

-- A transport that has never been used.
abbrev fresh : Transport
fresh = record { multiplier = 9; rem_len = 9; len = 9; state = 0 }

poll-packet_readnb_example :
    Finishes (pos 6) (0x62 ∷ 2 ∷ 0 ∷ 7 ∷ zeros 2) (0xd0 ∷ []) (poll 12 (zeros 6) 6 fresh pieces)
unfolding joined length_groups
poll-packet_readnb_example =
    poll-packet_readnb 0x62 12 6 (0 ∷ 7 ∷ []) (0xd0 ∷ []) (zeros 6) fresh pieces (omega arith)
      (omega arith) (omega arith) (omega arith) refl refl (omega arith)

login-IsAcceptable : IsAcceptable login login_texts
login-IsAcceptable = record {
  cleansession = omega arith;
  keep_alive = omega arith;
  will_qos = omega arith;
  will_retained = omega arith;
  client_id = omega arith;
  will_topic = omega arith;
  will_message = omega arith;
  username = omega arith;
  password = omega arith;
  has_name = λ e. refl;
  name_not_empty = λ e. omega arith;
  word_not_empty = λ e. absurd (ground arith);
}

connect_round_trip_example :
    (serialize_connect (zeros 24) 24 login >>= λ (_, buf).
    deserialize_connect connect_data_initializer buf 20)
    ≡ some (pos 1, connect_read connect_data_initializer login login_texts (zeros 4))
unfolding packet_len length_groups
connect_round_trip_example =
    connect_round_trip connect_data_initializer login login_texts (zeros 24) 24 20 (omega arith)
      (omega arith) login_holds (inr refl) login-IsAcceptable (omega arith) (omega arith)
