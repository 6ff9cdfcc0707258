-- ===== src/Wire/Length.antt =====
-- The remaining length: MQTTPacket_encode, MQTTPacket_decode, MQTTPacket_decodeBuf and
-- MQTTPacket_len of paho/MQTTPacket/src/MQTTPacket.c.
use fembed_lwip.Common.{ℕ, zero, suc, ◌+◌, ◌*◌, ◌/◌, ◌%◌, true, false}
use fembed_lwip.Common.{[], ◌∷◌, Option, none, some, ◌>>=◌, ltb, ◌==◌, if◌then◌else◌}
use fembed_lwip.Wire.Buffer.{Cursor, put_byte}
use fembed_lwip.Wire.Reader.{Reader}
use fembed_lwip.Wire.Source.{bytes, Getfn, buf_getfn}

-- The loop of `MQTTPacket_encode`, with the pointer moved on by the count that it returns.
unfoldable pub encode_loop : ℕ → ℕ → Cursor → Option Cursor
encode_loop zero len c = none
encode_loop (suc fuel) len c =
    let d = len % 128 in
    elim (ltb 0 (len / 128)) [
      | true ↦ put_byte (d + 128) c >>= λ c1. encode_loop fuel (len / 128) c1
      | false ↦ put_byte d c
    ]

-- An `int` has at most five groups of seven bits.
unfoldable pub packet_encode : ℕ → Cursor → Option Cursor
packet_encode len c = encode_loop 5 len c

abbrev pub max_no_of_remaining_length_bytes : ℕ
max_no_of_remaining_length_bytes = 4

module _ {S : Type 0} (get : Getfn S) where
  -- The loop of `MQTTPacket_decode`; it ends with the count of bytes and the value.
  unfoldable pub decode_loop : ℕ → ℕ → ℕ → ℕ → S → Option (ℕ × ℕ × S)
  decode_loop zero len value multiplier s = none
  decode_loop (suc fuel) len value multiplier s =
      elim (ltb max_no_of_remaining_length_bytes (len + 1)) [
        | true ↦ some (len + 1, value, s)
        | false ↦ get 1 s >>= λ (g, t). elim g [
          | bytes (b ∷ []) ↦
              let value' = value + b % 128 * multiplier in
              elim (b / 128 % 2 == 1) [
                | true ↦ decode_loop fuel (len + 1) value' (multiplier * 128) t
                | false ↦ some (len + 1, value', t)
              ]
          | _ ↦ some (len + 1, value, t)
        ]
      ]

  -- The fifth round stops at its test.
  unfoldable pub packet_decode : S → Option (ℕ × ℕ × S)
  packet_decode s = decode_loop 5 0 0 1 s

unfoldable pub packet_decode_buf : Reader → Option (ℕ × ℕ × Reader)
packet_decode_buf r = packet_decode buf_getfn r

unfoldable pub packet_len : ℕ → ℕ
packet_len rem_len =
    let n = rem_len + 1 in
    if ltb n 128
    then n + 1
    else if ltb n 16384
    then n + 2
    else if ltb n 2097151
    then n + 3
    else n + 4
