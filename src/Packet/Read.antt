-- ===== src/Packet/Read.antt =====
-- MQTTPacket_read of paho/MQTTPacket/src/MQTTPacket.c.
use fembed_lwip.Common.{
  suc, lt→ltb, le→ltb_false, ℕ, ◌+◌, ◌^◌, ◌≤◌, ◌<◌, ◌≡◌, refl, ◌∙◌, ap, arith, ℤ, pos, List, [],
  ◌∷◌, ◌++◌, Option, some, ◌>>=◌, drop, length, length-drop, drop-drop, ltb, if◌then◌else◌, eq_ℤ,
}
use fembed_lwip.Wire.Buffer.{Cursor, start, offset, contents, emit, emit_fits}
use fembed_lwip.Wire.Source.{bytes, got_rc, store_got, Getfn, Delivers}
use fembed_lwip.Wire.Length.{packet_encode, packet_decode}
use fembed_lwip.Wire.Field.{length_field, packet_encode-emit, packet_decode-Delivers}
use fembed_lwip.Packet.Header.{of_byte, read_error, type_of_buffer}
use fembed_lwip.Packet.Frame.{frame, length-frame}

module _ {S : Type 0} (get : Getfn S) where
  -- The end: the type of the packet in the buffer.
  unfoldable pub read_done : Cursor → S → Option (ℤ × List ℕ × S)
  read_done c s = do rc ← type_of_buffer (contents c); some (rc, contents c, s)

  -- Step 3: `rem_len` bytes behind the length.
  unfoldable pub read_body : ℕ → Cursor → S → Option (ℤ × List ℕ × S)
  read_body rem_len c s =
      if ltb 0 rem_len
      then (get rem_len s >>= λ (got, t). store_got got c >>= λ c1.
          if eq_ℤ (got_rc got) (pos rem_len)
          then read_done c1 t
          else some (read_error, contents c1, t))
      else read_done c s

  -- The return value, the buffer and the source after the call.
  unfoldable pub packet_read : List ℕ → ℕ → S → Option (ℤ × List ℕ × S)
  packet_read buf buflen s = get 1 s >>= λ (got, s1). store_got got (start buf) >>= λ c1.
      if eq_ℤ (got_rc got) (pos 1)
      then (packet_decode get s1 >>= λ (_, rem_len, s2). packet_encode rem_len c1 >>= λ c2.
          if ltb buflen (rem_len + offset c2)
          then some (read_error, contents c2, s2)
          else read_body rem_len c2 s2)
      else some (read_error, contents c1, s1)

  -- The header byte and the length, put back into the buffer.
  read_to_body :
      (byte n : ℕ) (buf : List ℕ) (buflen : ℕ) (s s1 s2 : S)
      → get 1 s ≡ some (bytes (byte ∷ []), s1)
      → Delivers get s1 (length_field n) s2
      → n < 2 ^ 28
      → 1 + length (length_field n) ≤ length buf
      → let c : Cursor = record {
        before = byte ∷ length_field n;
        after = drop (1 + length (length_field n)) buf;
      } in
        packet_read buf buflen s ≡ (
          if ltb buflen (n + offset c) then some (read_error, contents c, s2) else read_body n c s2)
  unfolding packet_read store_got
  read_to_body byte n buf buflen s s1 s2 h d hn hb =
      let after : List ℕ = drop 1 buf in
      let room = length-drop 1 buf in
      let c1 : Cursor = record { before = byte ∷ []; after = after } in
      let e1 : emit (byte ∷ []) (start buf) ≡ some c1 =
        emit_fits (byte ∷ []) (start buf) (omega arith) in
      let tail : drop (length (length_field n)) after ≡ drop (1 + length (length_field n)) buf =
        drop-drop 1 (length (length_field n)) buf in
      let e2 : packet_encode n c1
          ≡ some (record {
            before = byte ∷ length_field n;
            after = drop (length (length_field n)) after;
          }) =
        packet_encode-emit n (omega arith) c1
        ∙ emit_fits (length_field n) c1 (omega (arith, room)) in
      rw (h, e1, packet_decode-Delivers get n s1 s2 hn d, e2, tail) refl

  -- A packet that the callback delivers, with a body that is not empty and below 2 ^ 28, is stored
  -- whole at the front of a buffer with room for it, the rest of which stays; the call returns the
  -- type of the packet.
  pub packet_read-frame :
      (byte : ℕ) (body buf : List ℕ) (buflen : ℕ) (s s1 s2 s3 : S)
      → get 1 s ≡ some (bytes (byte ∷ []), s1)
      → Delivers get s1 (length_field (length body)) s2
      → get (length body) s2 ≡ some (bytes body, s3)
      → 0 < length body
      → length body < 2 ^ 28
      → length (frame byte body) ≤ buflen
      → buflen ≤ length buf
      → packet_read buf buflen s
        ≡ some (
          pos (of_byte byte).msg_type,
          frame byte body ++ drop (length (frame byte body)) buf,
          s3,
        )
  unfolding read_body read_done store_got type_of_buffer
  packet_read-frame byte body buf buflen s s1 s2 s3 h d hb h0 hn hl hr =
      let total = length-frame byte body in
      let k : ℕ = length (length_field (length body)) in
      let room = length-drop (1 + k) buf in
      let size : 1 + k + length body ≡ length (frame byte body) = omega (arith, total) in
      let tail : drop (length body) (drop (1 + k) buf) ≡ drop (length (frame byte body)) buf =
        drop-drop (1 + k) (length body) buf ∙ ap (λ i. drop i buf) size in
      let c : Cursor = record {
        before = byte ∷ length_field (length body);
        after = drop (1 + k) buf;
      } in
      rw
        (
          read_to_body byte (length body) buf buflen s s1 s2 h d hn (omega (arith, total)),
          le→ltb_false buflen (length body + offset c) (omega (arith, total)),
          lt→ltb 0 (length body) h0,
          hb,
          emit_fits body c (omega (arith, total, room)),
          tail,
        )
        (ground arith)

  -- A packet (length below 2 ^ 28) that is longer than the caller says its buffer is, in an object
  -- with room for its header byte and length: the call returns -1. The header byte and the length
  -- are in the buffer by then, and the source stands before the body.
  pub packet_read_too_long :
      (byte n : ℕ) (buf : List ℕ) (buflen : ℕ) (s s1 s2 : S)
      → get 1 s ≡ some (bytes (byte ∷ []), s1)
      → Delivers get s1 (length_field n) s2
      → n < 2 ^ 28
      → 1 + length (length_field n) ≤ length buf
      → buflen < 1 + length (length_field n) + n
      → packet_read buf buflen s
        ≡ some (read_error, byte ∷ length_field n ++ drop (1 + length (length_field n)) buf, s2)
  packet_read_too_long byte n buf buflen s s1 s2 h d hn hb hl =
      rw
        (
          read_to_body byte n buf buflen s s1 s2 h d hn hb,
          lt→ltb buflen (n + suc (length (length_field n))) (omega arith),
        )
        refl
