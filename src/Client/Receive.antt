-- ===== src/Client/Receive.antt =====
-- decodePacket and readPacket of paho/MQTTClient-C/src/MQTTClient.c.
use fembed_lwip.Common.{
  ℕ, ◌+◌, ◌-◌, ◌%◌, ◌^◌, ℤ, pos, List, Option, none, some, ltb, if◌then◌else◌, eq_ℤ,
}
use fembed_lwip.Wire.Buffer.{Cursor, start, offset, contents}
use fembed_lwip.Wire.Source.{store_got, got_rc}
use fembed_lwip.Wire.Length.{packet_encode, packet_decode}
use fembed_lwip.Packet.Header.{type_of_buffer}
use fembed_lwip.Client.Run.{Run, returned, lift, ◌>>=◌}
use fembed_lwip.Client.Platform.{Platform, TimerId, last_received}
use fembed_lwip.Client.State.{Sys, buffer_overflow}

-- `size_t` has 32 bits on the targets, and its subtraction wraps.
abbrev pub sub_size : ℕ → ℕ → ℕ
sub_size a b = (a + 2 ^ 32 - b) % 2 ^ 32

module _ {H W : Type 0} (p : Platform H W) where
  -- The loop of `decodePacket` is that of `MQTTPacket_decode` over `mqttread`; the value and the
  -- world after it.
  unfoldable pub decode_packet : ℕ → W → Option (ℕ × W)
  decode_packet timeout w = elim (packet_decode (λ n v. some (p.mqttread n timeout v)) w) [
    | none ↦ none
    | some (_, value, v) ↦ some (value, v)
  ]

  abbrev pub with_readbuf : Sys H W → List ℕ → W → Sys H W
  with_readbuf s buf w = record s { client = record s.client { readbuf = buf }; world = w }

  -- The end of `readPacket`, when the packet is complete.
  unfoldable pub packet_received : Sys H W → Run (ℤ × Sys H W)
  packet_received s = do
    rc ← lift (type_of_buffer s.client.readbuf)
    if ltb 0 s.client.keep_alive_interval
        then returned (
          rc,
          record s { world = p.timer_countdown last_received s.client.keep_alive_interval s.world },
        )
        else returned (rc, s)

  -- Step 3: `rem_len` more bytes, at the pointer behind the length.
  unfoldable pub read_rest : TimerId → ℕ → Cursor → Sys H W → Run (ℤ × Sys H W)
  read_rest timer rem_len c s =
      if ltb (sub_size s.client.readbuf_size (offset c)) rem_len
      then returned (buffer_overflow, with_readbuf s (contents c) s.world)
      else if ltb 0 rem_len
      then (let (left, w1) = p.timer_left_ms timer s.world in
          let (got, w2) = p.mqttread rem_len left w1 in
          lift (store_got got c) >>= λ c1.
          if eq_ℤ (got_rc got) (pos rem_len)
          then packet_received (with_readbuf s (contents c1) w2)
          else returned (pos 0, with_readbuf s (contents c1) w2))
      else packet_received (with_readbuf s (contents c) s.world)

  unfoldable pub read_packet : TimerId → Sys H W → Run (ℤ × Sys H W)
  read_packet timer s =
      let (left, w1) = p.timer_left_ms timer s.world in
      let (got, w2) = p.mqttread 1 left w1 in
      lift (store_got got (start s.client.readbuf)) >>= λ c1.
      if eq_ℤ (got_rc got) (pos 1)
      then (let (left2, w3) = p.timer_left_ms timer w2 in
          lift (decode_packet left2 w3) >>= λ (rem_len, w4).
          lift (packet_encode rem_len c1) >>= λ c2.
          read_rest timer rem_len c2 (record s { world = w4 }))
      else returned (got_rc got, with_readbuf s (contents c1) w2)
