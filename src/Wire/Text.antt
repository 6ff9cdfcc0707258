-- ===== src/Wire/Text.antt =====
-- The text that an MQTTString stands for, and how the string functions of Wire.Strings keep it.
use mathlib.Core.Path.{fun_ext}
use fembed_lwip.Common.{append-nil, ℕ, suc, ◌+◌, ◌≤◌, ◌<◌, ◌≡◌, sym, arith, true}
use fembed_lwip.Common.{List, [], ◌∷◌, ◌++◌, none, some, ◌>>=◌, length, drop-append, lt→ltb}
use fembed_lwip.Wire.Buffer.{
  Cursor, write_int, copy, emit, int_bytes, emit-append, write_int-emit, copy-emit,
}
use fembed_lwip.Wire.Reader.{read_int-int_bytes}
use fembed_lwip.Wire.Strings.{
  MqttString, of_chars, write_cstring, copy_from, write_mqtt_string, read_mqtt_len_string,
  take_len_string, mqtt_strlen,
}

-- `m` stands for the text `s`: as a C string, as a length with characters, or as the empty string of
-- MQTTString_initializer. A string with both forms stands for none.
pub data Holds (m : MqttString) (s : List ℕ) : Type 0 where
  as_cstring : m.cstring ≡ some s → m.lenstring.len ≡ 0 → Holds m s
  as_lenstring :
      (tail : List ℕ)
      → m.cstring ≡ none
      → m.lenstring.len ≡ length s
      → m.lenstring.chars ≡ some (s ++ tail)
      → Holds m s
  as_null : m.cstring ≡ none → m.lenstring.len ≡ 0 → s ≡ [] → Holds m s

-- The text on the wire: its length in two bytes, and the text.
abbrev pub string_bytes : List ℕ → List ℕ
string_bytes s = int_bytes (length s) ++ s

copy_whole : (s : List ℕ) (c : Cursor) → copy (length s) s c ≡ emit s c
copy_whole s c = rw (append-nil) at (copy-emit s [] c)

write_counted :
    (s tail : List ℕ) (c : Cursor)
    → (write_int (length s) c >>= λ c1. copy (length s) (s ++ tail) c1) ≡ emit (string_bytes s) c
write_counted s tail c =
    rw (write_int-emit (length s) c, fun_ext (copy-emit s tail))
      (sym (emit-append (int_bytes (length s)) s c))

pub write_cstring-emit : (s : List ℕ) (c : Cursor) → write_cstring s c ≡ emit (string_bytes s) c
unfolding write_cstring
write_cstring-emit s c =
    rw (write_int-emit (length s) c, fun_ext (copy_whole s))
      (sym (emit-append (int_bytes (length s)) s c))

pub write_mqtt_string-emit :
    {m : MqttString} {s : List ℕ} (c : Cursor)
    → Holds m s
    → write_mqtt_string m c ≡ emit (string_bytes s) c
unfolding write_mqtt_string copy_from
write_mqtt_string-emit {s = s} c (as_cstring e z) = rw (e, z) (write_cstring-emit s c)
write_mqtt_string-emit {s = []} c (as_lenstring tail e z f) = rw (e, z) (write_int-emit 0 c)
write_mqtt_string-emit {s = x ∷ s} c (as_lenstring tail e z f) =
    rw (z, f, lt→ltb 0 (suc (length s)) (omega arith)) (write_counted (x ∷ s) tail c)
write_mqtt_string-emit c (as_null e z f) = rw (e, z, f) (write_int-emit 0 c)

pub mqtt_strlen-Holds : {m : MqttString} {s : List ℕ} → Holds m s → mqtt_strlen m ≡ length s
unfolding mqtt_strlen
mqtt_strlen-Holds (as_cstring e z) = rw e
mqtt_strlen-Holds (as_lenstring tail e z f) = rw (e, z)
mqtt_strlen-Holds (as_null e z f) = rw (e, z, f)

-- A string in the buffer is read back if it ends before `enddata`.
pub read_mqtt_len_string-string_bytes :
    (m : MqttString) (s rest : List ℕ) (p enddata : ℕ)
    → length s < 65536
    → p + 2 + length s ≤ enddata
    → read_mqtt_len_string m enddata (record { position = p; rest = string_bytes s ++ rest })
      ≡ some (
        true,
        of_chars (length s) (some (s ++ rest)),
        record { position = p + 2 + length s; rest = rest },
      )
unfolding read_mqtt_len_string take_len_string
read_mqtt_len_string-string_bytes m s rest p enddata h k =
    ground (arith, read_int-int_bytes (length s) p (s ++ rest) h, drop-append s rest)
