-- ===== src/Client/Receiving.antt =====
-- What readPacket makes of the packets that the network delivers.
use fembed_lwip.Common.{
  ℕ, ◌+◌, ◌^◌, ◌≤◌, ◌<◌, ◌≡◌, refl, ◌∙◌, arith, pos, List, [], ◌∷◌, ◌++◌, some, ltb, if◌then◌else◌,
  drop, length, length-drop, drop-drop, ap,
}
use fembed_lwip.Wire.Buffer.{Cursor, start, offset, emit, emit_fits}
use fembed_lwip.Wire.Source.{store_got, bytes, Delivers}
use fembed_lwip.Wire.Length.{packet_encode}
use fembed_lwip.Wire.Field.{length_field, packet_encode-emit, packet_decode-Delivers}
use fembed_lwip.Packet.Header.{type_of_buffer, of_byte}
use fembed_lwip.Packet.Frame.{frame, length-frame}
use fembed_lwip.Client.Run.{returned}
use fembed_lwip.Client.Platform.{Platform, TimerId, last_received}
use fembed_lwip.Client.State.{Sys}
use fembed_lwip.Client.Receive.{
  decode_packet, packet_received, read_rest, read_packet, with_readbuf,
}

module _ {H W : Type 0} (p : Platform H W) where
  -- The network delivers a packet: its first byte, its length byte for byte, its body. The worlds and
  -- the milliseconds left are those that the calls lead through.
  pub record Arrival (timer : TimerId) (w : W) (byte : ℕ) (body : List ℕ) (w6 : W) : Type 0 where
    pub left1 : ℕ
    pub left2 : ℕ
    pub left3 : ℕ
    pub w1 : W
    pub w2 : W
    pub w3 : W
    pub w4 : W
    pub w5 : W
    pub before_first : p.timer_left_ms timer w ≡ (left1, w1)
    pub first : p.mqttread 1 left1 w1 ≡ (bytes (byte ∷ []), w2)
    pub before_length : p.timer_left_ms timer w2 ≡ (left2, w3)
    pub length_bytes :
        Delivers (λ n v. some (p.mqttread n left2 v)) w3 (length_field (length body)) w4
    pub before_body : p.timer_left_ms timer w4 ≡ (left3, w5)
    pub body_bytes : p.mqttread (length body) left3 w5 ≡ (bytes body, w6)

  -- The world after the packet: the timer of the last packet runs again if there is a keep-alive.
  abbrev pub world_after : Sys H W → W → W
  world_after s w =
      if ltb 0 s.client.keep_alive_interval
      then p.timer_countdown last_received s.client.keep_alive_interval w
      else w

  read_rest_whole :
      (timer : TimerId) (left : ℕ) (c : Cursor) (s : Sys H W) (body : List ℕ) (w5 w6 : W)
      → p.timer_left_ms timer s.world ≡ (left, w5)
      → p.mqttread (length body) left w5 ≡ (bytes body, w6)
      → 0 < length body
      → offset c + length body ≤ s.client.readbuf_size
      → s.client.readbuf_size < 2 ^ 32
      → length body ≤ length c.after
      → read_rest p timer (length body) c s
        ≡ packet_received p (with_readbuf p s ((c.before ++ body) ++ drop (length body) c.after) w6)
  unfolding read_rest store_got
  read_rest_whole timer left c s body w5 w6 ht hm h0 hs h32 ha = ground (arith, emit_fits body c ha)

  decode_packet-Delivers :
      (n left : ℕ) (w v : W)
      → n < 2 ^ 28
      → Delivers (λ k u. some (p.mqttread k left u)) w (length_field n) v
      → decode_packet p left w ≡ some (n, v)
  unfolding decode_packet
  decode_packet-Delivers n left w v h d =
      rw (decode_packet, packet_decode-Delivers (λ k u. some (p.mqttread k left u)) n w v h d) refl

  received_lem :
      (byte : ℕ) (bs : List ℕ) (s : Sys H W) (w : W)
      → packet_received p (with_readbuf p s (byte ∷ bs) w)
        ≡ returned (pos (of_byte byte).msg_type, with_readbuf p s (byte ∷ bs) (world_after s w))
  unfolding packet_received type_of_buffer
  received_lem byte bs s w = ground arith

  -- A packet that the network delivers, with a body that is not empty and below 2 ^ 28, is stored
  -- whole at the front of a read buffer with room for it (whose size is below 2 ^ 32 and no more
  -- than the object has), the rest of which stays. The call returns the type of the packet, and
  -- restarts the timer of the last packet if there is a keep-alive interval.
  pub read_packet-frame :
      (timer : TimerId) (s : Sys H W) (byte : ℕ) (body : List ℕ) (w : W)
      → Arrival timer s.world byte body w
      → 0 < length body
      → length body < 2 ^ 28
      → length (frame byte body) ≤ s.client.readbuf_size
      → s.client.readbuf_size ≤ length s.client.readbuf
      → s.client.readbuf_size < 2 ^ 32
      → read_packet p timer s
        ≡ returned (
          pos (of_byte byte).msg_type,
          with_readbuf p s
              (frame byte body ++ drop (length (frame byte body)) s.client.readbuf)
              (world_after s w),
        )
  unfolding read_packet store_got
  read_packet-frame timer s byte body w a h0 h28 hs hr h32 =
      let field = length_field (length body) in
      let total = length-frame byte body in
      let after : List ℕ = drop 1 s.client.readbuf in
      let c1 : Cursor = record { before = byte ∷ []; after = after } in
      let e1 : emit (byte ∷ []) (start s.client.readbuf) ≡ some c1 =
        emit_fits (byte ∷ []) (start s.client.readbuf) (omega (arith, total)) in
      let room = length-drop 1 s.client.readbuf in
      let e2 : packet_encode (length body) c1
          ≡ some (record { before = byte ∷ field; after = drop (length field) after }) =
        packet_encode-emit (length body) (omega arith) c1
        ∙ emit_fits field c1 (omega (arith, total, room)) in
      let d = decode_packet-Delivers (length body) a.left2 a.w3 a.w4 h28 a.length_bytes in
      let room2 = length-drop (length field) after in
      let rest =
        read_rest_whole timer a.left3
          (record { before = byte ∷ field; after = drop (length field) after })
          (record s { world = a.w4 }) body a.w5 w a.before_body a.body_bytes h0
          (omega (arith, total)) h32 (omega (arith, total, room, room2)) in
      let size : 1 + (length field + length body) ≡ length (frame byte body) =
        omega (arith, total) in
      let tail : drop (length body) (drop (length field) after)
          ≡ drop (length (frame byte body)) s.client.readbuf =
        drop-drop (length field) (length body) after
        ∙ drop-drop 1 _ s.client.readbuf
        ∙ ap (λ k. drop k s.client.readbuf) size in
      rw (a.before_first, a.first, e1, a.before_length, d, e2, rest, received_lem byte, tail) refl
