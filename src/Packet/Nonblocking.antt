-- ===== src/Packet/Nonblocking.antt =====
-- MQTTTransport of paho/MQTTPacket/src/MQTTPacket.h, and MQTTPacket_decodenb and MQTTPacket_readnb of
-- paho/MQTTPacket/src/MQTTPacket.c.
pub mod Body
pub mod Pieces
pub mod Polls
pub mod Length
pub mod Whole
use fembed_lwip.Common.{
  ℕ, zero, suc, ◌+◌, ◌-◌, ◌*◌, ◌/◌, ◌%◌, ℤ, pos, negsuc, List, [], ◌∷◌, ◌++◌, true, false, Option,
  none, some, ◌>>=◌, take, drop, length, ltb, leb, ◌==◌, if◌then◌else◌,
}
use fembed_lwip.Wire.Buffer.{Cursor, start, offset, contents, emit}
use fembed_lwip.Wire.Source.{Got, failed, bytes, Getfn}
use fembed_lwip.Wire.Length.{packet_encode, max_no_of_remaining_length_bytes}
use fembed_lwip.Packet.Header.{read_error, type_of_buffer}

-- `getfn` and `sck` are the source.
pub record Transport : Type 0 where
  pub multiplier : ℕ
  pub rem_len : ℕ
  pub len : ℕ
  pub state : ℕ

-- `buf + n`
abbrev pub cursor_at : ℕ → List ℕ → Cursor
cursor_at n buf = record { before = take n buf; after = drop n buf }

module _ {S : Type 0} (get : Getfn S) where
  -- The loop. A callback that stores more than the one byte it is asked for writes outside `c`.
  unfoldable pub decode_nb_loop : ℕ → Transport → S → Option (ℤ × Transport × S)
  decode_nb_loop zero trp s = none
  decode_nb_loop (suc fuel) trp s = elim (leb max_no_of_remaining_length_bytes trp.len) [
    | true ↦ some (read_error, trp, s)
    | false ↦ get 1 s >>= λ (got, t). elim got [
      | failed ↦ some (read_error, trp, t)
      | bytes [] ↦ some (pos 0, trp, t)
      | bytes (c ∷ []) ↦
          let trp1 : Transport = record trp {
            len = trp.len + 1;
            rem_len = trp.rem_len + c % 128 * trp.multiplier;
            multiplier = trp.multiplier * 128;
          } in
          elim (c / 128 % 2 == 1) [
            | true ↦ decode_nb_loop fuel trp1 t
            | false ↦ some (pos trp1.len, trp1, t)
          ]
      | bytes (c ∷ b ∷ bs) ↦ none
    ]
  ]

  -- Four bytes at most are read, and the fifth round stops at its test.
  unfoldable pub decode_nb : Transport → S → Option (ℤ × Transport × S)
  decode_nb trp s =
      decode_nb_loop 5 (if trp.len == 0 then record trp { multiplier = 1; rem_len = 0 } else trp) s

  -- The return value, the buffer, the transport and the source after a call.
  abbrev pub Outcome : Type 0
  Outcome = Option (ℤ × List ℕ × Transport × S)

  -- `exit:`
  abbrev pub leave : ℤ → List ℕ → Transport → S → Outcome
  leave rc buf trp s = some (rc, buf, record trp { state = 0 }, s)

  abbrev pub type_read : List ℕ → Transport → S → Outcome
  type_read buf trp s = do rc ← type_of_buffer buf; leave rc buf trp s

  -- `case 2`. A callback that stores more than it is asked for writes outside the packet.
  unfoldable pub read_nb_body : List ℕ → Transport → S → Outcome
  read_nb_body buf trp s =
      if trp.rem_len == 0
      then type_read buf trp s
      else get trp.rem_len s >>= λ (got, t). elim got [
        | failed ↦ leave read_error buf trp t
        | bytes [] ↦ some (pos 0, buf, trp, t)
        | bytes (b ∷ bs) ↦
            if ltb trp.rem_len (length (b ∷ bs))
            then none
            else (emit (b ∷ bs) (cursor_at trp.len buf) >>= λ c.
                let trp1 : Transport = record trp {
                  rem_len = trp.rem_len - length (b ∷ bs);
                  len = trp.len + length (b ∷ bs);
                } in
                if trp1.rem_len == 0
                then type_read (contents c) trp1 t
                else some (pos 0, contents c, trp1, t))
      ]

  -- What follows the length in `case 1`: it is put back into the buffer.
  unfoldable pub read_nb_room : List ℕ → ℕ → Transport → S → Outcome
  read_nb_room buf buflen trp s = packet_encode trp.rem_len (cursor_at 1 buf) >>= λ c.
      let trp1 : Transport = record trp { len = offset c } in
      if ltb buflen (trp1.rem_len + trp1.len)
      then leave read_error (contents c) trp1 s
      else read_nb_body (contents c) (record trp1 { state = 2 }) s

  -- `case 1`
  unfoldable pub read_nb_length : List ℕ → ℕ → Transport → S → Outcome
  read_nb_length buf buflen trp s = decode_nb trp s >>= λ (rc, trp1, t). elim rc [
    | negsuc n ↦ leave read_error buf trp1 t
    | pos zero ↦ some (pos 0, buf, trp1, t)
    | pos (suc n) ↦ read_nb_room buf buflen trp1 t
  ]

  -- `case 0`
  unfoldable pub read_nb_header : List ℕ → ℕ → Transport → S → Outcome
  read_nb_header buf buflen trp s = get 1 s >>= λ (got, t). elim got [
    | failed ↦ leave read_error buf trp t
    | bytes [] ↦ some (pos 0, buf, trp, t)
    | bytes (b ∷ bs) ↦ emit (b ∷ bs) (start buf) >>= λ c.
        read_nb_length (contents c) buflen (record trp { len = 0; state = 1 }) t
  ]

  -- Any other state is taken for 0.
  unfoldable pub packet_readnb : List ℕ → ℕ → Transport → S → Outcome
  packet_readnb buf buflen trp s =
      if trp.state == 1
      then read_nb_length buf buflen trp s
      else if trp.state == 2
      then read_nb_body buf trp s
      else read_nb_header buf buflen (record trp { state = 0 }) s
