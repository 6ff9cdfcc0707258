-- ===== src/Wire/Strings.antt =====
-- MQTTString and its functions in paho/MQTTPacket/src/MQTTPacket.c.
use fembed_lwip.Common.{ℕ, zero, suc, ◌+◌, Bool, true, false}
use fembed_lwip.Common.{
  List, [], ◌∷◌, Option, none, some, ◌>>=◌, length, ltb, leb, ◌==◌, if◌then◌else◌,
}
use fembed_lwip.Wire.Buffer.{Cursor, write_int, copy}
use fembed_lwip.Wire.Reader.{Reader, read_int, advance}

-- `data` is the object from that pointer on; it may be longer than the string.
pub record LenString : Type 0 where
  pub len : ℕ
  pub chars : Option (List ℕ)

-- A C string is the list of its characters up to the terminator; `none` is NULL.
pub record MqttString : Type 0 where
  pub cstring : Option (List ℕ)
  pub lenstring : LenString

-- A string with no `cstring`.
abbrev pub of_chars : ℕ → Option (List ℕ) → MqttString
of_chars n chars = record { cstring = none; lenstring = record { len = n; chars = chars } }

abbrev pub mqtt_string_initializer : MqttString
mqtt_string_initializer = record { cstring = none; lenstring = record { len = 0; chars = none } }

unfoldable pub write_cstring : List ℕ → Cursor → Option Cursor
write_cstring string c = do c1 ← write_int (length string) c; copy (length string) string c1

-- Reading through NULL is a fault.
unfoldable pub copy_from : Option (List ℕ) → ℕ → Cursor → Option Cursor
copy_from none n c = none
copy_from (some src) n c = copy n src c

unfoldable pub write_mqtt_string : MqttString → Cursor → Option Cursor
unfolding write_cstring copy_from
write_mqtt_string m c =
    if ltb 0 m.lenstring.len
    then (do c1 ← write_int m.lenstring.len c; copy_from m.lenstring.chars m.lenstring.len c1)
    else elim m.cstring [ some s ↦ write_cstring s c | none ↦ write_int 0 c ]

-- The part of `readMQTTLenString` after the length `n`.
unfoldable pub take_len_string : MqttString → ℕ → ℕ → Reader → Option (Bool × MqttString × Reader)
take_len_string m enddata n r =
    if leb (r.position + n) enddata
    then some (true, of_chars n (some r.rest), advance n r)
    else some (false, of_chars n m.lenstring.chars, r)

unfoldable pub read_mqtt_len_string : MqttString → ℕ → Reader → Option (Bool × MqttString × Reader)
unfolding take_len_string
read_mqtt_len_string m enddata r =
    if ltb (r.position + 1) enddata
    then (do (n, r1) ← read_int r; take_len_string m enddata n r1)
    else some (false, record m { cstring = none }, r)

unfoldable pub mqtt_strlen : MqttString → ℕ
mqtt_strlen m = elim m.cstring [ some s ↦ length s | none ↦ m.lenstring.len ]

-- `strncmp(a, b, n) == 0` for the object `a` and the C string `b`
unfoldable pub strncmp_eq : ℕ → List ℕ → List ℕ → Option Bool
strncmp_eq zero a b = some true
strncmp_eq (suc n) [] b = none
strncmp_eq (suc n) (x ∷ a) [] = some (x == 0)
strncmp_eq (suc n) (x ∷ a) (y ∷ b) =
    let rest = strncmp_eq n a b in
    if x == y then (if x == 0 then some true else rest) else some false

unfoldable pub packet_equals : MqttString → List ℕ → Option Bool
unfolding strncmp_eq
packet_equals a bptr = elim a.cstring [
  | some s ↦ if length s == length bptr then strncmp_eq (length s) s bptr else some false
  | none ↦
      if a.lenstring.len == length bptr
      then elim a.lenstring.chars [
        | some chars ↦ strncmp_eq a.lenstring.len chars bptr
        | none ↦ if a.lenstring.len == 0 then some true else none
      ]
      else some false
]
