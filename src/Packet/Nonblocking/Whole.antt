-- ===== src/Packet/Nonblocking/Whole.antt =====
-- Calls of MQTTPacket_readnb until there is a packet.
use fembed_lwip.Common.{
  ℕ, zero, suc, ◌+◌, ◌^◌, ◌≤◌, ◌<◌, ◌≡◌, refl, sym, ap, ◌∙◌, arith, ℤ, pos, List, [], ◌∷◌, ◌++◌,
  Option, some, drop, length, length-drop, append_assoc, le→ltb_false,
}
use mathlib.Core.Path.{subst}
use fembed_lwip.Wire.Buffer.{emit, emit_fits, put_byte}
use fembed_lwip.Wire.Source.{bytes}
use fembed_lwip.Wire.Length.{packet_encode}
use fembed_lwip.Wire.Field.{length_groups, length_groups_stable, length_field, packet_encode-emit}
use fembed_lwip.Packet.Header.{of_byte}
use fembed_lwip.Packet.Frame.{frame, length-frame}
use fembed_lwip.Packet.Nonblocking.{
  Transport, cursor_at, packet_readnb, read_nb_header, read_nb_length, read_nb_room, read_nb_body,
  decode_nb,
}
use fembed_lwip.Packet.Nonblocking.Pieces.{
  pieces_getfn, joined, pending, poll, Finishes, poll_again, poll_same, pause, one,
  pieces_getfn-One,
}
use fembed_lwip.Packet.Nonblocking.Polls.{awaiting, rejoin, poll_body}
use fembed_lwip.Packet.Nonblocking.Length.{Halfway, whole, paused, decode_nb-Decoded}

-- The room test, with the length put back.
nb_room :
    (byte n buflen : ℕ) (back : List ℕ) (trp : Transport) (cs : List (List ℕ))
    → trp.rem_len ≡ n
    → trp.state ≡ 1
    → n < 2 ^ 28
    → 1 + length (length_field n) + n ≤ buflen
    → length (length_field n) ≤ length back
    → read_nb_room pieces_getfn (byte ∷ back) buflen trp cs
      ≡ read_nb_body pieces_getfn
          (byte ∷ length_field n ++ drop (length (length_field n)) back)
          (awaiting trp.multiplier (suc (length (length_field n))) n)
          cs
unfolding read_nb_room
nb_room byte n buflen back trp cs e st hn hl hb =
    let put : packet_encode n (cursor_at 1 (byte ∷ back))
        ≡ some (record {
          before = byte ∷ length_field n;
          after = drop (length (length_field n)) back;
        }) =
      packet_encode-emit n (omega arith) _
      ∙ emit_fits (length_field n) (record { before = byte ∷ []; after = back }) hb in
    rw (e, put, le→ltb_false buflen (n + suc (length (length_field n))) (omega arith)) refl

nb_whole :
    (byte n buflen count : ℕ) (back : List ℕ) (trp trp1 : Transport) (cs ds : List (List ℕ))
    → trp.state ≡ 1
    → decode_nb pieces_getfn trp cs ≡ some (pos (suc count), trp1, ds)
    → packet_readnb pieces_getfn (byte ∷ back) buflen trp cs
      ≡ read_nb_room pieces_getfn (byte ∷ back) buflen trp1 ds
unfolding packet_readnb read_nb_length
nb_whole byte n buflen count back trp trp1 cs ds st e = ground arith

nb_length_pause :
    (buflen : ℕ) (buf : List ℕ) (trp trp1 : Transport) (cs ds : List (List ℕ))
    → trp.state ≡ 1
    → decode_nb pieces_getfn trp cs ≡ some (pos 0, trp1, ds)
    → packet_readnb pieces_getfn buf buflen trp cs ≡ some (pos 0, buf, trp1, ds)
unfolding packet_readnb read_nb_length
nb_length_pause buflen buf trp trp1 cs ds st e = ground arith

in_body :
    (buf : List ℕ) (buflen m n left : ℕ) (cs : List (List ℕ))
    → packet_readnb pieces_getfn buf buflen (awaiting m n left) cs
      ≡ read_nb_body pieces_getfn buf (awaiting m n left) cs
unfolding packet_readnb
in_body buf buflen m n left cs = refl

nb_header_pause :
    (buflen : ℕ) (buf : List ℕ) (trp : Transport) (cs ds : List (List ℕ))
    → trp.state ≡ 0
    → pieces_getfn 1 cs ≡ some (bytes [], ds)
    → packet_readnb pieces_getfn buf buflen trp cs ≡ some (pos 0, buf, record trp { state = 0 }, ds)
unfolding packet_readnb read_nb_header
nb_header_pause buflen buf trp cs ds st e = rw (st, e) refl

-- The transport before the first byte of the length.
abbrev begun : Transport
begun = record { multiplier = 1; rem_len = 0; len = 0; state = 1 }

nb_header :
    (buflen b x : ℕ) (back : List ℕ) (trp : Transport) (cs ds : List (List ℕ))
    → trp.state ≡ 0
    → pieces_getfn 1 cs ≡ some (bytes (b ∷ []), ds)
    → packet_readnb pieces_getfn (x ∷ back) buflen trp cs
      ≡ packet_readnb pieces_getfn (b ∷ back) buflen begun ds
unfolding packet_readnb read_nb_header read_nb_length emit put_byte decode_nb
nb_header buflen b x back trp cs ds st e = rw (st, e) refl

module _ (byte buflen : ℕ) (body rest : List ℕ) (h : 0 < (of_byte byte).msg_type)
    (hn : length body < 2 ^ 28) (hl : length (frame byte body) ≤ buflen) where
  abbrev field : List ℕ
  field = length_field (length body)

  abbrev Completes : List ℕ → Option (ℤ × List ℕ × Transport × List (List ℕ)) → Type 0
  Completes back result =
      Finishes (pos (of_byte byte).msg_type)
        (byte ∷ field ++ (body ++ drop (length body) (drop (length field) back))) rest result

  abbrev PollsLength : ℕ → Type 0
  PollsLength fuel =
      (k n : ℕ) (back : List ℕ) (trp : Transport) (cs : List (List ℕ))
      → Halfway (length body) trp k n
      → joined cs ≡ length_groups k n ++ (body ++ rest)
      → pending cs < fuel
      → length (frame byte body) ≤ suc (length back)
      → Completes back (poll fuel (byte ∷ back) buflen trp cs)

  poll_length : (fuel : ℕ) → PollsLength fuel
  poll_length zero k n back trp cs i j p hb = absurd (omega arith)
  poll_length (suc fuel) k n back trp cs i j p hb =
      let size = length-frame byte body in
      elim (decode_nb-Decoded (length body) k n (body ++ rest) trp cs i j) [
        | whole count trp1 ds e v st j1 l ↦
            rw
              (poll_same fuel (byte ∷ back) (byte ∷ field ++ drop (length field) back) buflen trp
                (awaiting trp1.multiplier (suc (length field)) (length body)) cs ds
                (nb_whole byte (length body) buflen count back trp trp1 cs ds i.in_length e
                  ∙ nb_room byte (length body) buflen back trp1 ds v st hn (omega (arith, size))
                      (omega (arith, size))
                  ∙ sym (in_body _ buflen _ _ _ ds)))
              (poll_body byte buflen rest h (suc fuel) ds field (drop (length field) back) body
                trp1.multiplier j1 (omega arith)
                (omega (arith, size, length-drop (length field) back)))
        | paused k1 n1 trp1 ds e i1 j1 l ↦
            rw
              (poll_again fuel _ _ buflen _ _ _ ds
                (nb_length_pause buflen (byte ∷ back) trp trp1 cs ds i.in_length e))
              (poll_length fuel k1 n1 back trp1 ds i1 j1 (omega arith) hb)
      ]

  abbrev PollsHeader : ℕ → Type 0
  PollsHeader fuel =
      (x : ℕ) (back : List ℕ) (trp : Transport) (cs : List (List ℕ))
      → trp.state ≡ 0
      → joined cs ≡ frame byte body ++ rest
      → pending cs < fuel
      → length (frame byte body) ≤ suc (length back)
      → Completes back (poll fuel (x ∷ back) buflen trp cs)

  -- The length field is still to come.
  started : Halfway (length body) begun 3 (length body)
  started = record {
    in_length = refl;
    few = omega arith;
    bound = omega arith;
    value = omega arith;
    initial = λ e. (refl, refl);
  }

  poll_header : (fuel : ℕ) → PollsHeader fuel
  poll_header zero x back trp cs st j p hb = absurd (omega arith)
  poll_header (suc fuel) x back trp cs st j p hb =
      elim (pieces_getfn-One byte (field ++ (body ++ rest)) cs
        (rw (append_assoc field body rest) at j)) [
          | pause ds e j1 l ↦
              rw
                (poll_again fuel _ _ buflen _ _ _ ds
                  (nb_header_pause buflen (x ∷ back) trp cs ds st e))
                (poll_header fuel x back (record trp { state = 0 }) ds refl
                  (rw (append_assoc field body rest) j1) (omega arith) hb)
          | one ds e j1 l ↦
              rw
                (poll_same fuel (x ∷ back) (byte ∷ back) buflen trp begun cs ds
                  (nb_header buflen byte x back trp cs ds st e))
                (poll_length (suc fuel) 3 (length body) back begun ds started
                  (rw (length_groups_stable 3 (length body) (omega arith)) at j1) (omega arith) hb)
        ]

-- A source that delivers a packet (type not 0, body below 2 ^ 28) and whatever follows it in any
-- pieces, with pauses anywhere, to a reader in its initial state whose buffer has room for the
-- packet: with more calls allowed than there are bytes and pieces, MQTTPacket_readnb, called while
-- it returns 0, ends with the type of the packet, has stored the packet whole at the front of the
-- buffer and nothing else, is in its initial state again, and has left what follows unread.
pub poll-packet_readnb :
    (byte fuel buflen : ℕ) (body rest buf : List ℕ) (trp : Transport) (cs : List (List ℕ))
    → 0 < (of_byte byte).msg_type
    → length body < 2 ^ 28
    → length (frame byte body) ≤ buflen
    → buflen ≤ length buf
    → trp.state ≡ 0
    → joined cs ≡ frame byte body ++ rest
    → length (joined cs) + length cs < fuel
    → Finishes
        (pos (of_byte byte).msg_type)
        (frame byte body ++ drop (length (frame byte body)) buf)
        rest
        (poll fuel buf buflen trp cs)
poll-packet_readnb byte fuel buflen body rest [] trp cs h hn hl hb st j p = absurd (omega arith)
poll-packet_readnb byte fuel buflen body rest (x ∷ back) trp cs h hn hl hb st j p =
    subst (λ l. Finishes (pos (of_byte byte).msg_type) l rest (poll fuel (x ∷ back) buflen trp cs))
      (ap (λ l. byte ∷ l) (rejoin [] (length_field (length body)) body back))
      (poll_header byte buflen body rest h hn hl fuel x back trp cs st j p (omega arith))
