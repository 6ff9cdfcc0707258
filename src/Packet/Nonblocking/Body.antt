-- ===== src/Packet/Nonblocking/Body.antt =====
-- One call of MQTTPacket_readnb that waits for the body.
use fembed_lwip.Common.{
  ℕ, suc, ◌+◌, ◌-◌, ◌≤◌, ◌<◌, ◌≡◌, arith, pos, List, [], ◌∷◌, ◌++◌, some, drop, length, take-append,
  drop-append,
}
use fembed_lwip.Wire.Buffer.{emit, emit_fits}
use fembed_lwip.Wire.Source.{bytes, Getfn}
use fembed_lwip.Packet.Header.{of_byte, type_of_buffer}
use fembed_lwip.Packet.Nonblocking.{Transport, cursor_at, read_nb_body}

module _ {S : Type 0} (get : Getfn S) where
  -- Nothing has arrived.
  pub body_pause :
      (buf : List ℕ) (trp : Transport) (s t : S)
      → 0 < trp.rem_len
      → get trp.rem_len s ≡ some (bytes [], t)
      → read_nb_body get buf trp s ≡ some (pos 0, buf, trp, t)
  unfolding read_nb_body
  body_pause buf trp s t h e = ground arith

  -- Nothing is left to wait for.
  pub body_empty :
      (byte : ℕ) (buf : List ℕ) (trp : Transport) (s : S)
      → trp.rem_len ≡ 0
      → read_nb_body get (byte ∷ buf) trp s
        ≡ some (pos (of_byte byte).msg_type, byte ∷ buf, record trp { state = 0 }, s)
  unfolding read_nb_body type_of_buffer
  body_empty byte buf trp s h = ground arith

  stored :
      (front back c : List ℕ)
      → length c ≤ length back
      → emit c (cursor_at (length front) (front ++ back))
        ≡ some (record { before = front ++ c; after = drop (length c) back })
  stored front back c h =
      rw (take-append front back, drop-append front back)
        (emit_fits c (record { before = front; after = back }) h)

  -- A part of what is left has arrived.
  pub body_part :
      (front back c : List ℕ) (x : ℕ) (trp : Transport) (s t : S)
      → get trp.rem_len s ≡ some (bytes (x ∷ c), t)
      → trp.len ≡ length front
      → length (x ∷ c) < trp.rem_len
      → length (x ∷ c) ≤ length back
      → read_nb_body get (front ++ back) trp s
        ≡ some (
          pos 0,
          (front ++ x ∷ c) ++ drop (length (x ∷ c)) back,
          record trp { rem_len = trp.rem_len - length (x ∷ c); len = trp.len + length (x ∷ c) },
          t,
        )
  unfolding read_nb_body
  body_part front back c x trp s t e l h hb =
      let st : emit (x ∷ c) (cursor_at trp.len (front ++ back))
          ≡ some (record { before = front ++ x ∷ c; after = drop (length (x ∷ c)) back }) =
        rw l (stored front back (x ∷ c) hb) in
      ground arith

  -- All that is left has arrived.
  pub body_last :
      (byte : ℕ) (front back c : List ℕ) (x : ℕ) (trp : Transport) (s t : S)
      → get trp.rem_len s ≡ some (bytes (x ∷ c), t)
      → trp.len ≡ suc (length front)
      → length (x ∷ c) ≡ trp.rem_len
      → length (x ∷ c) ≤ length back
      → read_nb_body get (byte ∷ front ++ back) trp s
        ≡ some (
          pos (of_byte byte).msg_type,
          byte ∷ (front ++ x ∷ c) ++ drop (length (x ∷ c)) back,
          record trp { rem_len = 0; len = trp.len + length (x ∷ c); state = 0 },
          t,
        )
  unfolding read_nb_body type_of_buffer
  body_last byte front back c x trp s t e l h hb =
      let st : emit (x ∷ c) (cursor_at trp.len (byte ∷ front ++ back))
          ≡ some (record { before = byte ∷ front ++ x ∷ c; after = drop (length (x ∷ c)) back }) =
        rw l (stored (byte ∷ front) back (x ∷ c) hb) in
      ground arith
