-- ===== src/Packet/Connect/Read.antt =====
-- MQTTPacket_checkVersion and MQTTDeserialize_connect of paho/MQTTPacket/src/MQTTConnectServer.c.
use fembed_lwip.Common.{
  ℕ, zero, suc, ◌+◌, ℤ, pos, List, [], ◌∷◌, Bool, true, false, ◌&&◌, Option, none, some, ◌>>=◌, ltb,
  leb, ◌==◌, if◌then◌else◌,
}
use fembed_lwip.Wire.Reader.{Reader, open_at, read_char, read_int}
use fembed_lwip.Wire.Length.{packet_decode_buf}
use fembed_lwip.Wire.Strings.{MqttString, mqtt_string_initializer, read_mqtt_len_string}
use fembed_lwip.Packet.MsgType
use fembed_lwip.Packet.Header.{of_byte}
use fembed_lwip.Packet.Connect.{
  ConnectData, ConnectFlags, flags_of_byte, mqtt_name, mqisdp_name, is_set,
}

-- `memcmp(a, b, n) == 0`; `none` reads behind one of the objects.
unfoldable pub memcmp_eq : ℕ → List ℕ → List ℕ → Option Bool
memcmp_eq zero a b = some true
memcmp_eq (suc n) [] b = none
memcmp_eq (suc n) (x ∷ a) [] = none
memcmp_eq (suc n) (x ∷ a) (y ∷ b) = do rest ← memcmp_eq n a b; some (x == y && rest)

abbrev pub min : ℕ → ℕ → ℕ
min a b = if ltb a b then a else b

-- The start of the protocol name against a known name. NULL is read only where no byte is.
unfoldable pub name_matches : MqttString → ℕ → List ℕ → Option Bool
name_matches protocol n name = elim protocol.lenstring.chars [
  | some chars ↦ memcmp_eq (min n protocol.lenstring.len) chars name
  | none ↦ if min n protocol.lenstring.len == 0 then some true else none
]

unfoldable pub check_version : MqttString → ℕ → Option Bool
check_version protocol version =
    if version == 3
    then name_matches protocol 6 mqisdp_name
    else if version == 4
    then name_matches protocol 4 mqtt_name
    else some false

-- `enddata - curdata < 3 || !readMQTTLenString(...)`: whether the string was read.
unfoldable pub read_credential : MqttString → ℕ → Reader → Option (Bool × MqttString × Reader)
read_credential m enddata r =
    if ltb enddata (r.position + 3) then some (false, m, r) else read_mqtt_len_string m enddata r

-- The user name and the password.
unfoldable pub read_login : ConnectFlags → ConnectData → ℕ → Reader → Option (ℤ × ConnectData)
read_login flags d enddata r =
    if is_set flags.username
    then (read_credential d.username enddata r >>= λ (got, name, r1).
        let d1 : ConnectData = record d { username = name } in
        elim got [
          | false ↦ some (pos 0, d1)
          | true ↦
              if is_set flags.password
              then (read_credential d.password enddata r1 >>= λ (got1, word, r2).
                  some (if got1 then pos 1 else pos 0, record d1 { password = word }))
              else some (pos 1, d1)
        ])
    else some (if is_set flags.password then pos 0 else pos 1, d)

-- The will, and what follows it.
unfoldable pub read_will : ConnectFlags → ConnectData → ℕ → Reader → Option (ℤ × ConnectData)
read_will flags d enddata r =
    if is_set flags.will
    then (read_mqtt_len_string d.will.topic_name enddata r >>= λ (got, topic, r1).
        let d1 : ConnectData = record d {
          will = record d.will {
            qos = flags.will_qos;
            retained = flags.will_retain;
            topic_name = topic;
          };
        } in
        elim got [
          | false ↦ some (pos 0, d1)
          | true ↦ read_mqtt_len_string d.will.message enddata r1 >>= λ (got1, message, r2).
              let d2 : ConnectData = record d1 { will = record d1.will { message = message } } in
              if got1 then read_login flags d2 enddata r2 else some (pos 0, d2)
        ])
    else read_login flags d enddata r

-- What follows a known protocol name and version.
unfoldable pub read_options : ConnectData → ℕ → Reader → Option (ℤ × ConnectData)
read_options d enddata r = do
  (byte, r1) ← read_char r
  (interval, r2) ← read_int r1
  (got, client, r3) ← read_mqtt_len_string d.client_id enddata r2
  let flags : ConnectFlags = flags_of_byte byte in
      let d1 : ConnectData = record d {
        cleansession = flags.cleansession;
        keep_alive_interval = interval;
        client_id = client;
      } in
      if got
      then read_will flags (record d1 { will_flag = flags.will }) enddata r3
      else some (pos 0, d1)

-- `Protocol` is not set before it is read.
unfoldable pub deserialize_connect : ConnectData → List ℕ → ℕ → Option (ℤ × ConnectData)
deserialize_connect d buf len = do
  (byte, r1) ← read_char (open_at buf)
  if (of_byte byte).msg_type == MsgType.connect
      then (do
        (_, _, r2) ← packet_decode_buf r1
        (got, protocol, r3) ← read_mqtt_len_string mqtt_string_initializer len r2
        if got && leb r3.position len
            then (do
              (version, r4) ← read_char r3
              known ← check_version protocol version
              if known then read_options d len r4 else some (pos 0, d))
            else some (pos 0, d))
      else some (pos 0, d)
