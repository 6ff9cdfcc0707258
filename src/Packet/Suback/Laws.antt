-- ===== src/Packet/Suback/Laws.antt =====
-- What the SUBACK deserialiser makes of a packet, sound or not.
use fembed_lwip.Common.{
  ap, ℕ, zero, suc, ◌+◌, ◌^◌, ◌≤◌, ◌<◌, ◌≡◌, refl, arith, pos, List, [], ◌∷◌, ◌++◌, none, some,
  length, drop, set,
}
use fembed_lwip.Common.{le→ltb_false, append_assoc, length-append, length-set}
use fembed_lwip.Wire.Buffer.{int_bytes}
use fembed_lwip.Wire.Reader.{read_char, read_int-int_bytes}
use fembed_lwip.Wire.Field.{length_field}
use fembed_lwip.Packet.MsgType
use fembed_lwip.Packet.Header.{of_byte}
use fembed_lwip.Packet.Frame.{frame, packet_decode_buf-frame}
use fembed_lwip.Packet.Suback.{SubackOut, read_codes, suback_body, deserialize_suback}

-- The array after the codes `qs` were stored in it from index `i` on.
abbrev pub set_all : List ℕ → ℕ → List ℕ → List ℕ
set_all xs i [] = xs
set_all xs i (q ∷ qs) = set_all (set xs i q) (i + 1) qs

-- Codes that fit the array are all stored.
read_codes_fits :
    (qs rest : List ℕ) (fuel maxcount p enddata : ℕ) (out : SubackOut)
    → length qs < fuel
    → enddata ≡ p + length qs
    → out.count + length qs ≤ maxcount
    → maxcount ≤ length out.granted
    → read_codes fuel maxcount enddata out (record { position = p; rest = qs ++ rest })
      ≡ some (
        pos 1,
        record out { granted = set_all out.granted out.count qs; count = out.count + length qs },
      )
unfolding read_codes read_char
read_codes_fits qs rest zero maxcount p enddata out hf he hc hg = absurd (omega arith)
read_codes_fits [] rest (suc fuel) maxcount p enddata out hf he hc hg = ground arith
read_codes_fits (q ∷ qs) rest (suc fuel) maxcount p enddata out hf he hc hg = ground (
  arith,
  length-set out.granted out.count q,
  read_codes_fits qs rest fuel maxcount (p + 1) enddata
      (record out { granted = set out.granted out.count q; count = out.count + 1 }),
)

set-append :
    (front : List ℕ) (x y : ℕ) (back : List ℕ)
    → set (front ++ y ∷ back) (length front) x ≡ front ++ x ∷ back
set-append [] x y back = refl
set-append (z ∷ front) x y back = ap (λ t. z ∷ t) (set-append front x y back)

set_all_lem :
    (front back qs : List ℕ)
    → length qs ≤ length back
    → set_all (front ++ back) (length front) qs ≡ front ++ (qs ++ drop (length qs) back)
set_all_lem front back [] h = refl
set_all_lem front [] (q ∷ qs) h = absurd (omega arith)
set_all_lem front (y ∷ back) (q ∷ qs) h =
    rw (set-append front q y back, grown front q)
      (rw (append_assoc front (q ∷ []) back, append_assoc front (q ∷ []) _) at
        (set_all_lem (front ++ q ∷ []) back qs (omega arith)))
  where
    grown : (front : List ℕ) (q : ℕ) → length front + 1 ≡ length (front ++ q ∷ [])
    grown front q = omega (arith, length-append front (q ∷ []))

-- A code more than the array holds is stored behind its end.
read_codes_overrun :
    (qs rest : List ℕ) (fuel enddata p : ℕ) (out : SubackOut)
    → length qs < fuel
    → enddata ≡ p + length qs
    → out.count ≤ length out.granted
    → length out.granted < out.count + length qs
    → read_codes fuel (length out.granted) enddata out (record { position = p; rest = qs ++ rest })
      ≡ none
unfolding read_codes read_char
read_codes_overrun qs rest zero enddata p out hf he hc hg = absurd (omega arith)
read_codes_overrun [] rest (suc fuel) enddata p out hf he hc hg = absurd (omega arith)
read_codes_overrun (q ∷ qs) rest (suc fuel) enddata p out hf he hc hg = ground (
  arith,
  length-set out.granted out.count q,
  read_codes_overrun qs rest fuel enddata (p + 1)
      (record out { granted = set out.granted out.count q; count = out.count + 1 }),
)

-- A SUBACK (identifier below 65536, body below 2 ^ 28) whose codes fit the array of `maxcount`
-- elements is read: the identifier, the number of codes, and the codes at the front of the array,
-- whose other elements stay.
pub deserialize_suback-frame :
    (out : SubackOut) (byte id maxcount : ℕ) (codes rest : List ℕ)
    → (of_byte byte).msg_type ≡ MsgType.suback
    → id < 65536
    → length codes ≤ maxcount
    → maxcount ≤ length out.granted
    → length codes + 2 < 2 ^ 28
    → deserialize_suback maxcount out (frame byte (int_bytes id ++ codes) ++ rest)
      ≡ some (
        pos 1,
        record {
          packetid = id;
          count = length codes;
          granted = codes ++ drop (length codes) out.granted;
        },
      )
unfolding deserialize_suback read_char suback_body
deserialize_suback-frame out byte id maxcount codes rest ht hi hc hg hn =
    rw
      (
        ht,
        packet_decode_buf-frame body rest (omega arith),
        le→ltb_false (1 + k + length body) (1 + k + 2) (omega arith),
        read_int-int_bytes id (1 + k) (codes ++ rest) hi,
        read_codes_fits codes rest (suc (length body)) maxcount (1 + k + 2) (1 + k + length body)
            (record { packetid = id; count = 0; granted = out.granted }) (omega arith) (omega arith)
            (omega arith) hg,
        set_all_lem [] out.granted codes (omega arith),
      )
      (ground arith)
  where
    body : List ℕ
    body = int_bytes id ++ codes

    k : ℕ
    k = length (length_field (length body))

-- The test of the loop lets one code too many through: a SUBACK (identifier below 65536, body below
-- 2 ^ 28) with more codes than the array, whose size the caller gives as `maxcount`, makes the
-- deserialiser write behind the array.
pub deserialize_suback_overrun :
    (out : SubackOut) (byte id : ℕ) (codes rest : List ℕ)
    → (of_byte byte).msg_type ≡ MsgType.suback
    → id < 65536
    → length out.granted < length codes
    → length codes + 2 < 2 ^ 28
    → deserialize_suback (length out.granted) out (frame byte (int_bytes id ++ codes) ++ rest)
      ≡ none
unfolding deserialize_suback read_char suback_body
deserialize_suback_overrun out byte id codes rest ht hi hg hn = rw (
  ht,
  packet_decode_buf-frame body rest (omega arith),
  le→ltb_false (1 + k + length body) (1 + k + 2) (omega arith),
  read_int-int_bytes id (1 + k) (codes ++ rest) hi,
  read_codes_overrun codes rest (suc (length body)) (1 + k + length body) (1 + k + 2)
      (record { packetid = id; count = 0; granted = out.granted }) (omega arith) (omega arith)
      (omega arith) (omega arith),
)
  where
    body : List ℕ
    body = int_bytes id ++ codes

    k : ℕ
    k = length (length_field (length body))
