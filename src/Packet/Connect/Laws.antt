-- ===== src/Packet/Connect/Laws.antt =====
-- What the client writes as a CONNECT.
use fembed_lwip.Common.{
  ℕ, suc, ◌+◌, ◌%◌, ◌^◌, ◌≤◌, ◌<◌, ◌≡◌, refl, arith, List, [], ◌∷◌, ◌++◌, Bool, true, false, some,
  length, ◌==◌, if◌then◌else◌,
}
use fembed_lwip.Common.{length-append, Bool-cases, ◌⊎◌, inl, inr}
use fembed_lwip.Wire.Buffer.{
  Cursor, int_bytes, write_char-emit, write_int-emit, emit, emit-append, emit-emit,
}
use fembed_lwip.Wire.Length.{packet_len}
use fembed_lwip.Wire.Field.{packet_encode-emit}
use fembed_lwip.Wire.Strings.{MqttString}
use fembed_lwip.Wire.Text.{
  Holds, string_bytes, write_cstring-emit, write_mqtt_string-emit, mqtt_strlen-Holds,
}
use fembed_lwip.Packet.MsgType
use fembed_lwip.Packet.Header.{to_byte, to_byte-mod}
use fembed_lwip.Packet.Frame.{frame, written, guarded_write, length-frame-le-packet_len}
use fembed_lwip.Packet.Short.{plain_header}
use fembed_lwip.Packet.Connect.{
  ConnectData, is_given, is_set, connect_flags, flags_to_byte, mqtt_name, mqisdp_name,
  connect_length, write_protocol, write_optional, write_will, serialize_connect, version_length,
  optional_length, will_length,
}

-- The texts of a CONNECT, as far as it has them.
pub record Connection : Type 0 where
  pub client_id : List ℕ
  pub will_topic : List ℕ
  pub will_message : List ℕ
  pub username : List ℕ
  pub password : List ℕ

-- The options stand for the texts; a text that they do not give is empty and not sent.
pub record HoldsConnection (d : ConnectData) (t : Connection) : Type 0 where
  pub client_id : Holds d.client_id t.client_id
  pub will_topic : Holds d.will.topic_name t.will_topic
  pub will_message : Holds d.will.message t.will_message
  pub username : Holds d.username t.username
  pub password : Holds d.password t.password

abbrev pub optional_bytes : Bool → List ℕ → List ℕ
optional_bytes given s = if given then string_bytes s else []

abbrev pub will_bytes : Bool → Connection → List ℕ
will_bytes given t = if given then string_bytes t.will_topic ++ string_bytes t.will_message else []

-- The protocol name and level; any version but 4 is announced as 3.
abbrev pub protocol_bytes : ℕ → List ℕ
protocol_bytes version =
    if version == 4 then string_bytes mqtt_name ++ 4 ∷ [] else string_bytes mqisdp_name ++ 3 ∷ []

-- The flags, the keep-alive interval and the texts, which follow the protocol.
abbrev pub options_bytes : ConnectData → Connection → List ℕ
options_bytes d t =
    flags_to_byte (connect_flags d)
    ∷ (int_bytes d.keep_alive_interval
        ++ (string_bytes t.client_id
            ++ (will_bytes (is_set d.will_flag) t
                ++ (optional_bytes (is_given d.username) t.username
                    ++ optional_bytes (is_given d.password) t.password))))

-- The body of a CONNECT.
abbrev pub connect_bytes : ConnectData → Connection → List ℕ
connect_bytes d t = protocol_bytes d.mqtt_version ++ options_bytes d t

write_protocol-emit : (v : ℕ) (c : Cursor) → write_protocol v c ≡ emit (protocol_bytes v) c
unfolding write_protocol
write_protocol-emit v c = elim (Bool-cases (v == 4)) [
  | inl e ↦ rw e (simp (write_cstring-emit, write_char-emit, ← emit-append))
  | inr e ↦ rw e (simp (write_cstring-emit, write_char-emit, ← emit-append))
]

write_optional-emit :
    (given : Bool) {m : MqttString} {s : List ℕ} (c : Cursor)
    → Holds m s
    → write_optional given m c ≡ emit (optional_bytes given s) c
unfolding write_optional
write_optional-emit true c h = write_mqtt_string-emit c h
write_optional-emit false c h = unfold emit in refl

write_will-emit :
    (d : ConnectData) (t : Connection) (c : Cursor)
    → HoldsConnection d t
    → write_will d c ≡ emit (will_bytes (is_set d.will_flag) t) c
unfolding write_will
write_will-emit d t c h = elim (Bool-cases (is_set d.will_flag)) [
  | inl e ↦ rw e (
      simp (
        (λ (c1 : Cursor). write_mqtt_string-emit c1 h.will_topic),
        (λ (c1 : Cursor). write_mqtt_string-emit c1 h.will_message),
        ← emit-append,
      ))
  | inr e ↦ rw e (unfold emit in refl)
]

flags-mod :
    (d : ConnectData) → flags_to_byte (connect_flags d) % 256 ≡ flags_to_byte (connect_flags d)
flags-mod d = omega arith

length-optional_bytes :
    (given : Bool) {m : MqttString} {s : List ℕ}
    → Holds m s
    → optional_length given m ≡ length (optional_bytes given s)
length-optional_bytes true h = rw (mqtt_strlen-Holds h) (omega arith)
length-optional_bytes false h = refl

length-will_bytes :
    (d : ConnectData) (t : Connection)
    → HoldsConnection d t
    → will_length d ≡ length (will_bytes (is_set d.will_flag) t)
length-will_bytes d t h =
    rw (mqtt_strlen-Holds h.will_topic, mqtt_strlen-Holds h.will_message)
      (ground (arith, length-append t.will_topic (string_bytes t.will_message)))

-- MQTTVersion is one of the two that are known.
abbrev pub IsKnown : ℕ → Type 0
IsKnown version = (version ≡ 3) ⊎ (version ≡ 4)

length-protocol_bytes :
    (v : ℕ) (rest : List ℕ)
    → IsKnown v
    → version_length v + length rest ≡ length (protocol_bytes v ++ rest) + 3
length-protocol_bytes v rest (inl e) = rw e (ground arith)
length-protocol_bytes v rest (inr e) = rw e (ground arith)

length_four :
    (a b c e : List ℕ) → length (a ++ (b ++ (c ++ e))) ≡ length a + length b + length c + length e
length_four a b c e =
    rw (length-append a (b ++ (c ++ e)), length-append b (c ++ e), length-append c e) (omega arith)

length-options_bytes :
    (d : ConnectData) (t : Connection)
    → HoldsConnection d t
    → length (options_bytes d t) + 3 + version_length d.mqtt_version ≡ 6 + connect_length d
unfolding connect_length
length-options_bytes d t h =
    rw
      (
        mqtt_strlen-Holds h.client_id,
        length-will_bytes d t h,
        length-optional_bytes (is_given d.username) h.username,
        length-optional_bytes (is_given d.password) h.password,
        length_four t.client_id (will_bytes (is_set d.will_flag) t)
            (optional_bytes (is_given d.username) t.username)
            (optional_bytes (is_given d.password) t.password),
      )
      (generic _ _ _ _ _)
  where
    generic :
        (v a b c e : ℕ)
        → suc (suc (suc (suc (suc (a + b + c + e))))) + 3 + v ≡ 6 + (v + (a + 2) + b + c + e)
    generic v a b c e = omega arith

-- On the two known versions the computed length is that of the body.
connect_length_lem :
    (d : ConnectData) (t : Connection)
    → HoldsConnection d t
    → IsKnown d.mqtt_version
    → connect_length d ≡ length (connect_bytes d t)
connect_length_lem d t h v =
    generic _ _ _ _ (length-protocol_bytes d.mqtt_version (options_bytes d t) v)
      (length-options_bytes d t h)
  where
    generic : (v o p k : ℕ) → v + o ≡ p + 3 → o + 3 + v ≡ 6 + k → k ≡ p
    generic v o p k a b = omega arith

-- For a version 3 or 4, options that hold the texts and a body below 2 ^ 28, in a buffer at least
-- as long as its caller says: a CONNECT is written whole, its length is returned and the rest of
-- the buffer stays; or, where MQTTPacket_len of the body does not fit, BUFFER_TOO_SHORT is returned
-- and nothing is written.
pub serialize_connect_lem :
    (buf : List ℕ) (buflen : ℕ) (d : ConnectData) (t : Connection)
    → let body = connect_bytes d t in
      buflen ≤ length buf
      → HoldsConnection d t
      → IsKnown d.mqtt_version
      → length body < 2 ^ 28
      → serialize_connect buf buflen d
        ≡ some (
            written
              (packet_len (length body))
              buflen
              (frame (to_byte (plain_header MsgType.connect)) body)
              buf)
unfolding serialize_connect
serialize_connect_lem buf buflen d t hb h v hn = rw (connect_length_lem d t h v) (
    guarded_write (packet_len (length body)) buflen
      (frame (to_byte (plain_header MsgType.connect)) body) buf _
      (length-frame-le-packet_len (to_byte (plain_header MsgType.connect)) body hn) hb
      (simp (
        write_char-emit,
        packet_encode-emit (length body) (omega arith),
        write_int-emit,
        write_protocol-emit,
        flags-mod,
        (λ (c : Cursor). write_mqtt_string-emit c h.client_id),
        (λ (c : Cursor). write_will-emit d t c h),
        (λ (c : Cursor). write_optional-emit (is_given d.username) c h.username),
        (λ (c : Cursor). write_optional-emit (is_given d.password) c h.password),
        emit-emit,
        to_byte-mod,
      )))
  where
    body : List ℕ
    body = connect_bytes d t
