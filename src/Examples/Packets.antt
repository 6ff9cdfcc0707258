-- ===== src/Examples/Packets.antt =====
-- The serialisers and the deserialisers at concrete packets.
use fembed_lwip.Common.{◌≡◌, refl, arith, pos, [], ◌∷◌, some, ◌>>=◌, inr}
use fembed_lwip.Wire.Buffer.{start, emit}
use fembed_lwip.Wire.Reader.{read_char, bufchar}
use fembed_lwip.Wire.Source.{bytes, Delivers, next, end, buf_getfn}
use fembed_lwip.Wire.Length.{packet_encode, packet_decode, packet_len}
use fembed_lwip.Wire.Field.{
  length_groups, packet_encode-emit, packet_decode-Delivers, packet_len_exact,
}
use fembed_lwip.Packet.MsgType
use fembed_lwip.Packet.Ack.{serialize_ack, deserialize_ack}
use fembed_lwip.Packet.Ack.Laws.{ack_round_trip}
use fembed_lwip.Packet.Publish.{publish_header, serialize_publish, deserialize_publish}
use fembed_lwip.Packet.Publish.Laws.{serialize_publish_lem}
use fembed_lwip.Packet.Publish.Read.{publish_read, publish_round_trip}
use fembed_lwip.Packet.Connect.{serialize_connect}
use fembed_lwip.Packet.Connect.Laws.{serialize_connect_lem}
use fembed_lwip.Packet.Suback.{serialize_suback, deserialize_suback}
use fembed_lwip.Packet.Suback.Write.{suback_round_trip}
use fembed_lwip.Common.{take, drop}
use fembed_lwip.Wire.Source.{Getfn}
use fembed_lwip.Common.{ℕ, List}
use fembed_lwip.Packet.Read.{packet_read, packet_read-frame}
use fembed_lwip.Examples.Data.{
  topic, zeros, blank_ack, blank_suback, blank_publish, greeting, greeting_topic, login,
  login_texts, login_holds,
}

publish_round_trip_example :
    (serialize_publish (zeros 16) 16 greeting >>= λ (_, buf). deserialize_publish blank_publish buf)
    ≡ some (
      pos 1,
      publish_read blank_publish (publish_header greeting) topic 300 (104 ∷ 105 ∷ []) (zeros 5),
    )
unfolding packet_len length_groups
publish_round_trip_example =
    publish_round_trip blank_publish (zeros 16) 16 greeting topic (104 ∷ 105 ∷ []) [] (omega arith)
      (omega arith) greeting_topic refl refl (omega arith) (omega arith) (omega arith) (omega arith)
      (omega arith) (omega arith)

serialize_publish_lem_example :
    serialize_publish (zeros 16) 16 greeting
    ≡ some (pos 11, 0x33 ∷ 9 ∷ 0 ∷ 3 ∷ 97 ∷ 47 ∷ 98 ∷ 1 ∷ 44 ∷ 104 ∷ 105 ∷ zeros 5)
unfolding packet_len length_groups
serialize_publish_lem_example =
    serialize_publish_lem (zeros 16) 16 greeting topic (104 ∷ 105 ∷ []) [] (omega arith)
      greeting_topic refl refl (omega arith)

serialize_connect_lem_example :
    serialize_connect (zeros 24) 24 login
    ≡ some (
      pos 20,
      0x10
          ∷ 18
          ∷ 0
          ∷ 4
          ∷ 77
          ∷ 81
          ∷ 84
          ∷ 84
          ∷ 4
          ∷ 0x82
          ∷ 0
          ∷ 60
          ∷ 0
          ∷ 3
          ∷ 100
          ∷ 101
          ∷ 118
          ∷ 0
          ∷ 1
          ∷ 117
          ∷ zeros 4,
    )
unfolding packet_len length_groups
serialize_connect_lem_example =
    serialize_connect_lem (zeros 24) 24 login login_texts (omega arith) login_holds (inr refl)
      (omega arith)

ack_round_trip_example :
    (serialize_ack (zeros 4) 4 MsgType.pubrel 1 513 >>= λ (_, sent). deserialize_ack blank_ack sent)
    ≡ some (pos 1, record { packettype = MsgType.pubrel; dup = 1; packetid = 513 })
ack_round_trip_example =
    ack_round_trip blank_ack (zeros 4) 4 MsgType.pubrel 1 513 (omega arith) (omega arith)
      (omega arith) (omega arith) (omega arith)

suback_round_trip_example :
    (serialize_suback (zeros 8) 8 7 2 (0 ∷ 0x80 ∷ []) >>= λ (_, sent).
    deserialize_suback 2 blank_suback sent)
    ≡ some (pos 1, record { packetid = 7; count = 2; granted = 0 ∷ 0x80 ∷ [] })
unfolding length_groups
suback_round_trip_example =
    suback_round_trip blank_suback (zeros 8) 8 7 (0 ∷ 0x80 ∷ []) (omega arith) (omega arith)
      (omega arith, omega arith) (omega arith) (omega arith) (omega arith)

packet_encode-emit_example :
    packet_encode 321 (start (zeros 3)) ≡ emit (0xc1 ∷ 2 ∷ []) (start (zeros 3))
unfolding length_groups
packet_encode-emit_example = packet_encode-emit 321 (omega arith) (start (zeros 3))

two_bytes :
    Delivers buf_getfn
      (record { position = 1; rest = 0xc1 ∷ 2 ∷ 9 ∷ [] })
      (0xc1 ∷ 2 ∷ [])
      (record { position = 3; rest = 9 ∷ [] })
unfolding buf_getfn bufchar read_char
two_bytes = next at_two (next refl end)
  where
    at_two :
        buf_getfn 1 (record { position = 1; rest = 0xc1 ∷ 2 ∷ 9 ∷ [] })
        ≡ some (bytes (0xc1 ∷ []), record { position = 2; rest = 2 ∷ 9 ∷ [] })
    at_two = refl

packet_decode-Delivers_example :
    packet_decode buf_getfn (record { position = 1; rest = 0xc1 ∷ 2 ∷ 9 ∷ [] })
    ≡ some (2, 321, record { position = 3; rest = 9 ∷ [] })
unfolding length_groups
packet_decode-Delivers_example =
    packet_decode-Delivers buf_getfn 321 (record { position = 1; rest = 0xc1 ∷ 2 ∷ 9 ∷ [] })
      (record { position = 3; rest = 9 ∷ [] }) (omega arith) two_bytes

packet_len_exact_example : packet_len 127 ≡ 130
unfolding length_groups
packet_len_exact_example = packet_len_exact 127 (omega arith)

-- A source that holds the bytes it delivers.
abbrev list_getfn : Getfn (List ℕ)
list_getfn n bs = some (bytes (take n bs), drop n bs)

packet_read-frame_example :
    packet_read list_getfn (zeros 8) 8 (0x62 ∷ 2 ∷ 0 ∷ 7 ∷ 9 ∷ [])
    ≡ some (pos 6, 0x62 ∷ 2 ∷ 0 ∷ 7 ∷ zeros 4, 9 ∷ [])
unfolding length_groups
packet_read-frame_example =
    packet_read-frame list_getfn 0x62 (0 ∷ 7 ∷ []) (zeros 8) 8 (0x62 ∷ 2 ∷ 0 ∷ 7 ∷ 9 ∷ [])
      (2 ∷ 0 ∷ 7 ∷ 9 ∷ []) (0 ∷ 7 ∷ 9 ∷ []) (9 ∷ []) refl (next refl end) refl (omega arith)
      (omega arith) (omega arith) (omega arith)
