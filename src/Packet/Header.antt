-- ===== src/Packet/Header.antt =====
-- enum errors and the union MQTTHeader of paho/MQTTPacket/src/MQTTPacket.h.
use fembed_lwip.Common.{
  ℕ, ◌+◌, ◌*◌, ◌/◌, ◌%◌, ◌<◌, ◌≡◌, arith, ℤ, pos, negsuc, List, [], ◌∷◌, Option, none, some,
}

abbrev pub buffer_too_short : ℤ
buffer_too_short = negsuc 1

abbrev pub read_error : ℤ
read_error = negsuc 0

-- The bit fields of the header byte.
pub record Header : Type 0 where
  pub retain : ℕ
  pub qos : ℕ
  pub dup : ℕ
  pub msg_type : ℕ

-- `header.byte`, read as bits
abbrev pub of_byte : ℕ → Header
of_byte b = record { retain = b % 2; qos = b / 2 % 4; dup = b / 8 % 2; msg_type = b / 16 % 16 }

-- The byte after each field of a zeroed header was assigned; a bit field keeps the low bits.
abbrev pub to_byte : Header → ℕ
to_byte h = h.retain % 2 + h.qos % 4 * 2 + h.dup % 2 * 8 + h.msg_type % 16 * 16

-- Each field that fits its bits is read back from the byte.
pub of_byte-to_byte :
    (h : Header) → h.retain < 2 → h.qos < 4 → h.dup < 2 → h.msg_type < 16 → of_byte (to_byte h) ≡ h
of_byte-to_byte h a b c d = ground arith

pub to_byte-mod : (h : Header) → to_byte h % 256 ≡ to_byte h
to_byte-mod h = omega arith

-- `header.byte = c->readbuf[0]; rc = header.bits.type;`
unfoldable pub type_of_buffer : List ℕ → Option ℤ
type_of_buffer [] = none
type_of_buffer (byte ∷ buf) = some (pos (of_byte byte).msg_type)
