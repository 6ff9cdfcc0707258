-- ===== src/Packet/Connect.antt =====
-- MQTTPacket_connectData and MQTTConnectFlags of paho/MQTTPacket/src/MQTTConnect.h, and
-- MQTTSerialize_connectLength and MQTTSerialize_connect of
-- paho/MQTTPacket/src/MQTTConnectClient.c.
pub mod Laws
pub mod Read
pub mod Stages
pub mod RoundTrip
use fembed_lwip.Common.{
  ℕ, ◌+◌, ◌*◌, ◌/◌, ◌%◌, ℤ, List, [], ◌∷◌, Bool, true, false, ◌||◌, Option, none, some, ◌>>=◌, ltb,
  ◌==◌, if◌then◌else◌,
}
use fembed_lwip.Wire.Buffer.{Cursor, start, write_char, write_int}
use fembed_lwip.Wire.Length.{packet_len, packet_encode}
use fembed_lwip.Wire.Strings.{
  MqttString, mqtt_string_initializer, mqtt_strlen, write_cstring, write_mqtt_string,
}
use fembed_lwip.Packet.MsgType
use fembed_lwip.Packet.Header.{to_byte, buffer_too_short}
use fembed_lwip.Packet.Frame.{finish}
use fembed_lwip.Packet.Short.{plain_header}

-- The eyecatchers and versions of the two structures are not read.
pub record WillOptions : Type 0 where
  pub topic_name : MqttString
  pub message : MqttString
  pub retained : ℕ
  pub qos : ℕ

pub record ConnectData : Type 0 where
  pub mqtt_version : ℕ
  pub client_id : MqttString
  pub keep_alive_interval : ℕ
  pub cleansession : ℕ
  pub will_flag : ℕ
  pub will : WillOptions
  pub username : MqttString
  pub password : MqttString

abbrev pub will_options_initializer : WillOptions
will_options_initializer = record {
  topic_name = mqtt_string_initializer;
  message = mqtt_string_initializer;
  retained = 0;
  qos = 0;
}

abbrev pub connect_data_initializer : ConnectData
connect_data_initializer = record {
  mqtt_version = 4;
  client_id = mqtt_string_initializer;
  keep_alive_interval = 60;
  cleansession = 1;
  will_flag = 0;
  will = will_options_initializer;
  username = mqtt_string_initializer;
  password = mqtt_string_initializer;
}

-- The bit fields of the flags byte, above its unused lowest bit.
pub record ConnectFlags : Type 0 where
  pub cleansession : ℕ
  pub will : ℕ
  pub will_qos : ℕ
  pub will_retain : ℕ
  pub password : ℕ
  pub username : ℕ

-- `flags.all`, read as bits
abbrev pub flags_of_byte : ℕ → ConnectFlags
flags_of_byte b = record {
  cleansession = b / 2 % 2;
  will = b / 4 % 2;
  will_qos = b / 8 % 4;
  will_retain = b / 32 % 2;
  password = b / 64 % 2;
  username = b / 128 % 2;
}

abbrev pub flags_to_byte : ConnectFlags → ℕ
flags_to_byte f =
    f.cleansession % 2 * 2
    + f.will % 2 * 4
    + f.will_qos % 4 * 8
    + f.will_retain % 2 * 32
    + f.password % 2 * 64
    + f.username % 2 * 128

-- `s.cstring || s.lenstring.data`
abbrev pub is_given : MqttString → Bool
is_given m = elim m.cstring [
  | some s ↦ true
  | none ↦ elim m.lenstring.chars [ some s ↦ true | none ↦ false ]
]

-- A flag of one character, as a test.
abbrev pub is_set : ℕ → Bool
is_set n = ltb 0 n

abbrev pub optional_length : Bool → MqttString → ℕ
optional_length given m = if given then mqtt_strlen m + 2 else 0

abbrev pub will_length : ConnectData → ℕ
will_length d =
    if is_set d.will_flag
    then mqtt_strlen d.will.topic_name + 2 + (mqtt_strlen d.will.message + 2)
    else 0

-- The fixed part of the variable header, for the two versions that are known.
abbrev pub version_length : ℕ → ℕ
version_length version = if version == 3 then 12 else if version == 4 then 10 else 0

unfoldable pub connect_length : ConnectData → ℕ
connect_length d =
    version_length d.mqtt_version
    + (mqtt_strlen d.client_id + 2)
    + will_length d
    + optional_length (is_given d.username) d.username
    + optional_length (is_given d.password) d.password

abbrev pub connect_flags : ConnectData → ConnectFlags
connect_flags d = record {
  cleansession = d.cleansession;
  will = if is_set d.will_flag then 1 else 0;
  will_qos = if is_set d.will_flag then d.will.qos else 0;
  will_retain = if is_set d.will_flag then d.will.retained else 0;
  password = if is_given d.password then 1 else 0;
  username = if is_given d.username then 1 else 0;
}

-- The protocol names "MQTT" and "MQIsdp".
abbrev pub mqtt_name : List ℕ
mqtt_name = b'M' ∷ b'Q' ∷ b'T' ∷ b'T' ∷ []

abbrev pub mqisdp_name : List ℕ
mqisdp_name = b'M' ∷ b'Q' ∷ b'I' ∷ b's' ∷ b'd' ∷ b'p' ∷ []

unfoldable pub write_protocol : ℕ → Cursor → Option Cursor
write_protocol version c =
    if version == 4
    then (do c1 ← write_cstring mqtt_name c; write_char 4 c1)
    else (do c1 ← write_cstring mqisdp_name c; write_char 3 c1)

unfoldable pub write_optional : Bool → MqttString → Cursor → Option Cursor
write_optional given m c = if given then write_mqtt_string m c else some c

unfoldable pub write_will : ConnectData → Cursor → Option Cursor
write_will d c =
    if is_set d.will_flag
    then (do c1 ← write_mqtt_string d.will.topic_name c; write_mqtt_string d.will.message c1)
    else some c

unfoldable pub serialize_connect : List ℕ → ℕ → ConnectData → Option (ℤ × List ℕ)
serialize_connect buf buflen d =
    let len = connect_length d in
    if ltb buflen (packet_len len) then some (buffer_too_short, buf) else do
      c1 ← write_char (to_byte (plain_header MsgType.connect)) (start buf)
      c2 ← packet_encode len c1
      c3 ← write_protocol d.mqtt_version c2
      c4 ← write_char (flags_to_byte (connect_flags d)) c3
      c5 ← write_int d.keep_alive_interval c4
      c6 ← write_mqtt_string d.client_id c5
      c7 ← write_will d c6
      c8 ← write_optional (is_given d.username) d.username c7
      c9 ← write_optional (is_given d.password) d.password c8
      some (finish c9)
