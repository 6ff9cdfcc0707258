-- ===== src/Packet/Connect/Stages.antt =====
-- The stages of MQTTDeserialize_connect on what the client writes.
use fembed_lwip.Common.{
  ℕ, ◌+◌, ◌≤◌, ◌<◌, ◌≡◌, refl, arith, pos, List, ◌∷◌, ◌++◌, Bool, true, false, some, length,
  if◌then◌else◌, le→ltb_false,
}
use fembed_lwip.Wire.Buffer.{int_bytes}
use fembed_lwip.Wire.Reader.{Reader, read_char, read_int-int_bytes}
use fembed_lwip.Wire.Strings.{MqttString, of_chars}
use fembed_lwip.Wire.Text.{string_bytes, read_mqtt_len_string-string_bytes}
use fembed_lwip.Packet.Connect.{
  ConnectData, ConnectFlags, WillOptions, is_given, is_set, flags_of_byte,
}
use fembed_lwip.Packet.Connect.Laws.{Connection, optional_bytes, will_bytes}
use fembed_lwip.Packet.Connect.Read.{read_credential, read_login, read_will, read_options}

-- A text with `rest` behind it, as a pointer into the buffer.
abbrev pub text_at : List ℕ → List ℕ → MqttString
text_at s rest = of_chars (length s) (some (s ++ rest))

abbrev pub bit : Bool → ℕ
bit b = if b then 1 else 0

pub read_credential_lem :
    (m : MqttString) (s rest : List ℕ) (p enddata : ℕ)
    → 0 < length s
    → length s < 65536
    → p + 2 + length s ≤ enddata
    → read_credential m enddata (record { position = p; rest = string_bytes s ++ rest })
      ≡ some (true, text_at s rest, record { position = p + 2 + length s; rest = rest })
unfolding read_credential
read_credential_lem m s rest p enddata h hs hb =
    rw (le→ltb_false enddata (p + 3) (omega arith))
      (read_mqtt_len_string-string_bytes m s rest p enddata hs hb)

-- What the login makes of the record.
abbrev pub login_read : Bool → Bool → ConnectData → List ℕ → List ℕ → List ℕ → ConnectData
login_read gu gp d user word rest = record d {
  username = if gu then text_at user (optional_bytes gp word ++ rest) else d.username;
  password = if gp then text_at word rest else d.password;
}

pub read_login_lem :
    (gu gp : Bool) (flags : ConnectFlags) (d : ConnectData) (user word rest : List ℕ)
    (p enddata : ℕ)
    → flags.username ≡ bit gu
    → flags.password ≡ bit gp
    → (gp ≡ true → gu ≡ true)
    → (gu ≡ true → 0 < length user)
    → (gp ≡ true → 0 < length word)
    → length user < 65536
    → length word < 65536
    → p + length (optional_bytes gu user) + length (optional_bytes gp word) ≤ enddata
    → read_login flags d enddata
        (record { position = p; rest = optional_bytes gu user ++ (optional_bytes gp word ++ rest) })
      ≡ some (pos 1, login_read gu gp d user word rest)
unfolding read_login
read_login_lem true true flags d user word rest p enddata eu ep i hu hw lu lw hb =
    rw
      (
        eu,
        read_credential_lem d.username user (string_bytes word ++ rest) p enddata (hu refl) lu
            (omega arith),
      )
      (rw
        (
          ep,
          read_credential_lem d.password word rest (p + 2 + length user) enddata (hw refl) lw
              (omega arith),
        )
        refl)
read_login_lem true false flags d user word rest p enddata eu ep i hu hw lu lw hb =
    rw (eu, read_credential_lem d.username user rest p enddata (hu refl) lu (omega arith))
      (rw ep refl)
read_login_lem false true flags d user word rest p enddata eu ep i hu hw lu lw hb =
    absurd (ground (arith, i refl))
read_login_lem false false flags d user word rest p enddata eu ep i hu hw lu lw hb =
    rw (eu, ep) refl

pub will_absent :
    (flags : ConnectFlags) (d : ConnectData) (enddata : ℕ) (r : Reader)
    → flags.will ≡ 0
    → read_will flags d enddata r ≡ read_login flags d enddata r
unfolding read_will
will_absent flags d enddata r e = ground arith

pub will_present :
    (flags : ConnectFlags) (d : ConnectData) (topic message rest : List ℕ)
    (p enddata qos retained : ℕ)
    → flags.will ≡ 1
    → flags.will_qos ≡ qos
    → flags.will_retain ≡ retained
    → length topic < 65536
    → length message < 65536
    → p + 2 + length topic + 2 + length message ≤ enddata
    → read_will flags d enddata
        (record { position = p; rest = string_bytes topic ++ (string_bytes message ++ rest) })
      ≡ read_login flags
          (record d {
            will = record {
              qos = qos;
              retained = retained;
              topic_name = text_at topic (string_bytes message ++ rest);
              message = text_at message rest;
            };
          })
          enddata
          (record { position = p + 2 + length topic + 2 + length message; rest = rest })
unfolding read_will
will_present flags d topic message rest p enddata qos retained e eq er ht hm hb =
    let topic_read =
      read_mqtt_len_string-string_bytes d.will.topic_name topic (string_bytes message ++ rest) p
        enddata ht (omega arith) in
    let message_read =
      read_mqtt_len_string-string_bytes d.will.message message rest (p + 2 + length topic) enddata
        hm (omega arith) in
    ground (arith, topic_read, message_read)

-- The flags, the interval and the client identifier.
pub options_step :
    (out : ConnectData) (b interval p enddata : ℕ) (client rest : List ℕ)
    → interval < 65536
    → length client < 65536
    → p + 5 + length client ≤ enddata
    → read_options out enddata
        (record { position = p; rest = b ∷ (int_bytes interval ++ (string_bytes client ++ rest)) })
      ≡ read_will
          (flags_of_byte b)
          (record out {
            cleansession = (flags_of_byte b).cleansession;
            keep_alive_interval = interval;
            client_id = text_at client rest;
            will_flag = (flags_of_byte b).will;
          })
          enddata
          (record { position = p + 5 + length client; rest = rest })
unfolding read_options read_char
options_step out b interval p enddata client rest hi hc hb =
    let shift : p + 1 + 2 + 2 + length client ≡ p + 5 + length client = omega arith in
    rw
      (
        read_int-int_bytes interval (p + 1) (string_bytes client ++ rest) hi,
        read_mqtt_len_string-string_bytes out.client_id client rest (p + 1 + 2) enddata hc
            (omega arith),
        shift,
      )
      refl

-- The rest of the body behind the will.
abbrev pub login_bytes : ConnectData → Connection → List ℕ
login_bytes d t =
    optional_bytes (is_given d.username) t.username
    ++ optional_bytes (is_given d.password) t.password

-- The limits of a CONNECT that comes back: the ranges of the fields, texts that have a two-byte
-- length, a password only with a user name, and neither of them empty.
pub record IsAcceptable (d : ConnectData) (t : Connection) : Type 0 where
  pub cleansession : d.cleansession < 2
  pub keep_alive : d.keep_alive_interval < 65536
  pub will_qos : d.will.qos < 4
  pub will_retained : d.will.retained < 2
  pub client_id : length t.client_id < 65536
  pub will_topic : length t.will_topic < 65536
  pub will_message : length t.will_message < 65536
  pub username : length t.username < 65536
  pub password : length t.password < 65536
  pub has_name : is_given d.password ≡ true → is_given d.username ≡ true
  pub name_not_empty : is_given d.username ≡ true → 0 < length t.username
  pub word_not_empty : is_given d.password ≡ true → 0 < length t.password

-- What MQTTDeserialize_connect makes of the record `out`, with `rest` behind the packet.
abbrev pub will_read : ConnectData → ConnectData → Connection → List ℕ → WillOptions
will_read out d t rest = record {
  qos = d.will.qos;
  retained = d.will.retained;
  topic_name = text_at t.will_topic (string_bytes t.will_message ++ (login_bytes d t ++ rest));
  message = text_at t.will_message (login_bytes d t ++ rest);
}

abbrev pub connect_read : ConnectData → ConnectData → Connection → List ℕ → ConnectData
connect_read out d t rest = record out {
  cleansession = d.cleansession;
  keep_alive_interval = d.keep_alive_interval;
  client_id = text_at t.client_id (will_bytes (is_set d.will_flag) t ++ (login_bytes d t ++ rest));
  will_flag = bit (is_set d.will_flag);
  will = if is_set d.will_flag then will_read out d t rest else out.will;
  username =
      if is_given d.username
      then text_at t.username (optional_bytes (is_given d.password) t.password ++ rest)
      else out.username;
  password = if is_given d.password then text_at t.password rest else out.password;
}
