-- ===== src/Packet/Connect/RoundTrip.antt =====
-- A CONNECT of the client, as MQTTDeserialize_connect reads it.
use fembed_lwip.Common.{
  ℕ, ◌+◌, ◌^◌, ◌≤◌, ◌<◌, ◌≡◌, refl, ◌∙◌, ap, arith, pos, List, ◌∷◌, ◌++◌, Bool, true, false, some,
  ◌>>=◌, length, drop, if◌then◌else◌, inl, inr, le→ltb_false, le→leb, length-append, append_assoc,
}
use fembed_lwip.Wire.Reader.{read_char}
use fembed_lwip.Wire.Length.{packet_len}
use fembed_lwip.Wire.Field.{length_field}
use fembed_lwip.Wire.Strings.{mqtt_string_initializer}
use fembed_lwip.Wire.Text.{string_bytes, read_mqtt_len_string-string_bytes}
use fembed_lwip.Packet.MsgType
use fembed_lwip.Packet.Header.{to_byte, of_byte}
use fembed_lwip.Packet.Frame.{frame, packet_decode_buf-frame, length-frame}
use fembed_lwip.Packet.Short.{plain_header}
use fembed_lwip.Packet.Connect.{
  ConnectData, ConnectFlags, is_given, is_set, connect_flags, flags_of_byte, flags_to_byte,
  mqtt_name, mqisdp_name, serialize_connect,
}
use fembed_lwip.Packet.Connect.Laws.{
  Connection, HoldsConnection, optional_bytes, will_bytes, options_bytes, connect_bytes, IsKnown,
  serialize_connect_lem,
}
use fembed_lwip.Packet.Connect.Read.{
  check_version, name_matches, memcmp_eq, read_login, read_will, read_options, deserialize_connect,
}
use fembed_lwip.Packet.Connect.Stages.{
  text_at, bit, login_read, read_login_lem, will_absent, will_present, options_step, login_bytes,
  IsAcceptable, will_read, connect_read,
}

module _ (out d : ConnectData) (t : Connection) (rest : List ℕ) (ok : IsAcceptable d t) where
  abbrev sent_flags : ConnectFlags
  sent_flags = flags_of_byte (flags_to_byte (connect_flags d))

  sent_username : sent_flags.username ≡ bit (is_given d.username)
  sent_username = ground arith

  sent_password : sent_flags.password ≡ bit (is_given d.password)
  sent_password = ground arith

  sent_will : sent_flags.will ≡ bit (is_set d.will_flag)
  sent_will = ground arith

  sent_cleansession : sent_flags.cleansession ≡ d.cleansession
  sent_cleansession = omega (arith, ok.cleansession)

  sent_will_qos : is_set d.will_flag ≡ true → sent_flags.will_qos ≡ d.will.qos
  sent_will_qos e = rw e (omega (arith, ok.will_qos))

  sent_will_retain : is_set d.will_flag ≡ true → sent_flags.will_retain ≡ d.will.retained
  sent_will_retain e = rw e (omega (arith, ok.will_retained))

  login_lem :
      (flags : ConnectFlags) (data0 : ConnectData) (p enddata : ℕ)
      → flags ≡ sent_flags
      → p + length (login_bytes d t) ≤ enddata
      → read_login flags data0 enddata (record { position = p; rest = login_bytes d t ++ rest })
        ≡ some (
          pos 1,
          login_read (is_given d.username) (is_given d.password) data0 t.username t.password rest,
        )
  login_lem flags data0 p enddata e hb =
      rw
        (append_assoc (optional_bytes (is_given d.username) t.username)
          (optional_bytes (is_given d.password) t.password) rest)
        (read_login_lem (is_given d.username) (is_given d.password) flags data0 t.username
          t.password rest p enddata (rw e sent_username) (rw e sent_password) ok.has_name
          ok.name_not_empty ok.word_not_empty ok.username ok.password
          (omega (
            arith,
            length-append (optional_bytes (is_given d.username) t.username)
                (optional_bytes (is_given d.password) t.password),
          )))

  abbrev with_will : Bool → ConnectData → ConnectData
  with_will w data0 = record data0 { will = if w then will_read data0 d t rest else data0.will }

  will_lem :
      (w : Bool) (flags : ConnectFlags) (data0 : ConnectData) (p enddata : ℕ)
      → is_set d.will_flag ≡ w
      → flags ≡ sent_flags
      → p + length (will_bytes w t) + length (login_bytes d t) ≤ enddata
      → read_will flags data0 enddata
          (record { position = p; rest = will_bytes w t ++ (login_bytes d t ++ rest) })
        ≡ some (
          pos 1,
          login_read
              (is_given d.username)
              (is_given d.password)
              (with_will w data0)
              t.username
              t.password
              rest,
        )
  will_lem true flags data0 p enddata w e hb =
      let ew : flags.will ≡ 1 = rw (e, sent_will) (rw w refl) in
      let eq : flags.will_qos ≡ d.will.qos = rw e (sent_will_qos w) in
      let er : flags.will_retain ≡ d.will.retained = rw e (sent_will_retain w) in
      rw (append_assoc t.will_topic (string_bytes t.will_message) (login_bytes d t ++ rest)) (
        will_present flags data0 t.will_topic t.will_message (login_bytes d t ++ rest) p enddata
          d.will.qos d.will.retained ew eq er ok.will_topic ok.will_message
          (omega (arith, length-append t.will_topic (string_bytes t.will_message)))
        ∙ login_lem flags (with_will true data0) _ enddata e
            (omega (arith, length-append t.will_topic (string_bytes t.will_message))))
  will_lem false flags data0 p enddata w e hb =
      let ew : flags.will ≡ 0 = rw (e, sent_will) (rw w refl) in
      will_absent flags data0 enddata _ ew ∙ login_lem flags data0 p enddata e (omega arith)

  options_lem :
      (p enddata : ℕ)
      → p + length (options_bytes d t) ≤ enddata
      → read_options out enddata (record { position = p; rest = options_bytes d t ++ rest })
        ≡ some (pos 1, connect_read out d t rest)
  options_lem p enddata hb =
      let w : Bool = is_set d.will_flag in
      let size : length (t.client_id ++ (will_bytes w t ++ login_bytes d t))
          ≡ length t.client_id + (length (will_bytes w t) + length (login_bytes d t)) =
        length-append t.client_id (will_bytes w t ++ login_bytes d t)
        ∙ ap (λ n. length t.client_id + n) (length-append (will_bytes w t) (login_bytes d t)) in
      rw
        (
          append_assoc t.client_id (will_bytes w t ++ login_bytes d t) rest,
          append_assoc (will_bytes w t) (login_bytes d t) rest,
        )
        (options_step out (flags_to_byte (connect_flags d)) d.keep_alive_interval p enddata
            t.client_id (will_bytes w t ++ (login_bytes d t ++ rest)) ok.keep_alive ok.client_id
            (omega arith)
          ∙ will_lem w sent_flags _ (p + 5 + length t.client_id) enddata refl refl (omega arith)
          ∙ rw (sent_cleansession, sent_will) refl)

-- The protocol name and the version.
protocol_step :
    (name options rest : List ℕ) (out : ConnectData) (version byte p enddata : ℕ) (body : List ℕ)
    → (of_byte byte).msg_type ≡ MsgType.connect
    → body ≡ string_bytes name ++ version ∷ options
    → length body < 2 ^ 28
    → length name < 65536
    → check_version (text_at name (version ∷ (options ++ rest))) version ≡ some true
    → p ≡ 1 + length (length_field (length body)) + 2 + length name + 1
    → p ≤ enddata
    → deserialize_connect out (frame byte body ++ rest) enddata
      ≡ read_options out enddata (record { position = p; rest = options ++ rest })
unfolding deserialize_connect read_char
protocol_step name options rest out version byte p enddata body ht e hn hm hv hp hl =
    let n : ℕ = length (length_field (length body)) in
    let split : body ++ rest ≡ string_bytes name ++ (version ∷ (options ++ rest)) =
      rw (e, append_assoc name (version ∷ options) rest) refl in
    rw
      (
        ht,
        packet_decode_buf-frame body rest hn,
        split,
        read_mqtt_len_string-string_bytes mqtt_string_initializer name (version ∷ (options ++ rest))
            (1 + n) enddata hm (omega arith),
        le→leb (1 + n + 2 + length name) enddata (omega arith),
        hv,
        hp,
      )
      refl

known_lem :
    (name rest : List ℕ) (version : ℕ) (out d : ConnectData) (t : Connection) (byte len : ℕ)
    → let body = connect_bytes d t in
      (of_byte byte).msg_type ≡ MsgType.connect
      → body ≡ string_bytes name ++ version ∷ options_bytes d t
      → check_version (text_at name (version ∷ (options_bytes d t ++ rest))) version ≡ some true
      → length name < 65536
      → IsAcceptable d t
      → length body < 2 ^ 28
      → length (frame byte body) ≤ len
      → deserialize_connect out (frame byte body ++ rest) len
        ≡ some (pos 1, connect_read out d t rest)
known_lem name rest version out d t byte len ht e hv hm ok hn hl =
    let k : ℕ = length (length_field (length (connect_bytes d t))) in
    let p : ℕ = 1 + k + 2 + length name + 1 in
    let size : p + length (options_bytes d t) ≡ length (frame byte (connect_bytes d t)) = omega (
      arith,
      length-frame byte (connect_bytes d t),
      ap length e,
      length-append name (version ∷ options_bytes d t),
    ) in
    protocol_step name (options_bytes d t) rest out version byte p len (connect_bytes d t) ht e hn
      hm hv refl (omega (arith, size))
    ∙ options_lem out d t rest ok p len (omega (arith, size))

deserialize_connect-frame :
    (out d : ConnectData) (t : Connection) (rest : List ℕ) (byte len : ℕ)
    → let body = connect_bytes d t in
      (of_byte byte).msg_type ≡ MsgType.connect
      → IsKnown d.mqtt_version
      → IsAcceptable d t
      → length body < 2 ^ 28
      → length (frame byte body) ≤ len
      → deserialize_connect out (frame byte body ++ rest) len
        ≡ some (pos 1, connect_read out d t rest)
unfolding check_version name_matches memcmp_eq
deserialize_connect-frame out d t rest byte len ht (inl v) ok hn hl =
    known_lem mqisdp_name rest 3 out d t byte len ht (rw v refl) refl (omega arith) ok hn hl
deserialize_connect-frame out d t rest byte len ht (inr v) ok hn hl =
    known_lem mqtt_name rest 4 out d t byte len ht (rw v refl) refl (omega arith) ok hn hl

-- A CONNECT of version 3 or 4 with texts below 65536 bytes, fields in their ranges, a password only
-- with a user name and neither of them empty, and a body below 2 ^ 28, written into a buffer with
-- room for MQTTPacket_len of the body, is accepted by the server, which is given the length of the
-- packet or more: clean session, interval, client identifier, will (if there is one), user name and
-- password (as far as they are given) are those of the client, as pointers into the buffer, and
-- nothing else of the record of the server changes.
pub connect_round_trip :
    (out d : ConnectData) (t : Connection) (buf : List ℕ) (buflen len : ℕ)
    → let body = connect_bytes d t in
      let sent = frame (to_byte (plain_header MsgType.connect)) body in
      buflen ≤ length buf
      → packet_len (length body) ≤ buflen
      → HoldsConnection d t
      → IsKnown d.mqtt_version
      → IsAcceptable d t
      → length body < 2 ^ 28
      → length sent ≤ len
      → (serialize_connect buf buflen d >>= λ (_, buf'). deserialize_connect out buf' len)
        ≡ some (pos 1, connect_read out d t (drop (length sent) buf))
connect_round_trip out d t buf buflen len hb hf ht hv ok hn hl =
    let sent : List ℕ = frame (to_byte (plain_header MsgType.connect)) (connect_bytes d t) in
    rw (serialize_connect_lem buf buflen d t hb ht hv hn, le→ltb_false _ _ hf)
      (deserialize_connect-frame out d t (drop (length sent) buf)
        (to_byte (plain_header MsgType.connect)) len (omega arith) hv ok hn hl)
