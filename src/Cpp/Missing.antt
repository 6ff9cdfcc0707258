-- ===== src/Cpp/Missing.antt =====
-- A packet whose body does not come, in paho/MQTTClient/src/MQTTClient.h.
use fembed_lwip.Common.{
  ℕ, ◌+◌, ◌≤◌, ◌<◌, ◌^◌, ◌≡◌, refl, ◌∙◌, arith, pos, List, [], ◌∷◌, ◌++◌, true, some, length, drop,
  length-drop, inl,
}
use fembed_lwip.Wire.Buffer.{Cursor, start, offset, emit, emit_fits}
use fembed_lwip.Wire.Source.{bytes, Delivers, store_got}
use fembed_lwip.Wire.Length.{packet_encode}
use fembed_lwip.Wire.Field.{length_field, packet_decode-Delivers, packet_encode-emit}
use fembed_lwip.Packet.MsgType
use fembed_lwip.Client.Run.{returned}
use fembed_lwip.Cpp.Platform.{Platform, TimerId, call_timer, send_timer}
use fembed_lwip.Cpp.State.{Config, Sys, close_session}
use fembed_lwip.Cpp.Receive.{read_packet, read_rest, decode_packet, with_readbuf}
use fembed_lwip.Cpp.Cycle.{cycle}
use fembed_lwip.Cpp.Outcomes.{cycle_unhandled}

module _ {H W : Type 0} (g : Config) (p : Platform H W) where
  -- The network delivers the header byte and a length field, and of the body only `part`.
  pub record CutShort (timer : TimerId) (w : W) (byte n : ℕ) (part : List ℕ) (v : W) : Type 0 where
    pub left1 : ℕ
    pub left2 : ℕ
    pub left3 : ℕ
    pub w1 : W
    pub w2 : W
    pub w3 : W
    pub w4 : W
    pub w5 : W
    pub before_first : p.left_ms timer w ≡ (left1, w1)
    pub first : p.read 1 left1 w1 ≡ (bytes (byte ∷ []), w2)
    pub before_length : p.left_ms timer w2 ≡ (left2, w3)
    pub length_bytes : Delivers (λ k u. some (p.read k left2 u)) w3 (length_field n) w4
    pub before_body : p.left_ms timer w4 ≡ (left3, w5)
    pub part_bytes : p.read n left3 w5 ≡ (bytes part, v)

  read_rest_part :
      (timer : TimerId) (left n : ℕ) (c : Cursor) (s : Sys H W) (part : List ℕ) (w5 w6 : W)
      → p.left_ms timer s.world ≡ (left, w5)
      → p.read n left w5 ≡ (bytes part, w6)
      → length part < n
      → n + offset c ≤ g.max_mqtt_packet_size
      → length part ≤ length c.after
      → read_rest g p timer n c s
        ≡ returned (pos 1, with_readbuf g p s ((c.before ++ part) ++ drop (length part) c.after) w6)
  unfolding read_rest store_got
  read_rest_part timer left n c s part w5 w6 ht hm h0 hs ha = ground (arith, emit_fits part c ha)

  -- The buffer after such a packet: its header, its length and what came of its body.
  abbrev pub cut_buffer : ℕ → ℕ → List ℕ → List ℕ → List ℕ
  cut_buffer byte n part buf =
      (byte ∷ (length_field n ++ part))
      ++ drop (length part) (drop (length (length_field n)) (drop 1 buf))

  decode_packet-Delivers :
      (n left : ℕ) (w v : W)
      → n < 2 ^ 28
      → Delivers (λ k u. some (p.read k left u)) w (length_field n) v
      → decode_packet g p left w ≡ some (n, v)
  unfolding decode_packet
  decode_packet-Delivers n left w v h d =
      rw (decode_packet, packet_decode-Delivers (λ k u. some (p.read k left u)) n w v h d) refl

  read_packet-CutShort :
      (timer : TimerId) (s : Sys H W) (byte n : ℕ) (part : List ℕ) (w : W)
      → CutShort timer s.world byte n part w
      → length part < n
      → n < 2 ^ 28
      → 1 + (length (length_field n) + n) ≤ g.max_mqtt_packet_size
      → g.max_mqtt_packet_size ≤ length s.client.readbuf
      → read_packet g p timer s
        ≡ returned (pos 1, with_readbuf g p s (cut_buffer byte n part s.client.readbuf) w)
  unfolding read_packet store_got
  read_packet-CutShort timer s byte n part w a h0 h28 hs hr =
      let field = length_field n in
      let after : List ℕ = drop 1 s.client.readbuf in
      let c1 : Cursor = record { before = byte ∷ []; after = after } in
      let e1 : emit (byte ∷ []) (start s.client.readbuf) ≡ some c1 =
        emit_fits (byte ∷ []) (start s.client.readbuf) (omega (arith, hs, hr)) in
      let room = length-drop 1 s.client.readbuf in
      let e2 : packet_encode n c1
          ≡ some (record { before = byte ∷ field; after = drop (length field) after }) =
        packet_encode-emit n (omega arith) c1 ∙ emit_fits field c1 (omega (arith, hs, hr, room)) in
      let d = decode_packet-Delivers n a.left2 a.w3 a.w4 h28 a.length_bytes in
      let room2 = length-drop (length field) after in
      let rest =
        read_rest_part timer a.left3 n
          (record { before = byte ∷ field; after = drop (length field) after })
          (record s { world = a.w4 }) part a.w5 w a.before_body a.part_bytes h0 (omega (arith, hs))
          (omega (arith, hs, hr, room, room2, h0)) in
      rw (a.before_first, a.first, e1, a.before_length, d, e2, rest) refl

  -- While the C++ client is connected and a packet of a length below 2 ^ 28, with room in the read
  -- buffer, comes with less than its body before the timer ends: whatever its type is, readPacket
  -- reports the type CONNECT, and cycle returns this 1, as for a packet that it handled, but closes the
  -- session.
  pub cycle-CutShort :
      (rounds : ℕ) (s : Sys H W) (byte n : ℕ) (part : List ℕ) (w : W)
      → CutShort call_timer (p.timer_default send_timer s.world) byte n part w
      → length part < n
      → n < 2 ^ 28
      → 1 + (length (length_field n) + n) ≤ g.max_mqtt_packet_size
      → g.max_mqtt_packet_size ≤ length s.client.readbuf
      → s.client.isconnected ≡ true
      → (let s1 = with_readbuf g p s (cut_buffer byte n part s.client.readbuf) w in
          (read_packet g p call_timer (record s { world = p.timer_default send_timer s.world })
            ≡ returned (pos MsgType.connect, s1))
          × (cycle g p rounds s
              ≡ returned (pos MsgType.connect, record s1 { client = close_session g s1.client })))
  cycle-CutShort rounds s byte n part w a h0 h28 hs hr c =
      let s1 = with_readbuf g p s (cut_buffer byte n part s.client.readbuf) w in
      let e =
        read_packet-CutShort call_timer (record s { world = p.timer_default send_timer s.world })
          byte n part w a h0 h28 hs hr in
      (e, cycle_unhandled g p rounds MsgType.connect s s1 e c (inl refl))
