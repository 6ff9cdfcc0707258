-- ===== src/Packet/Connack/Laws.antt =====
-- What the CONNACK functions write and read.
use fembed_lwip.Common.{ℕ, ◌%◌, ◌≤◌, ◌<◌, ◌≡◌, arith, pos, List, [], ◌∷◌, none, some, ◌>>=◌, length}
use fembed_lwip.Common.{le→ltb_false}
use fembed_lwip.Wire.Buffer.{start, write_char-emit, emit, emit-emit, emit_overrun}
use fembed_lwip.Wire.Reader.{read_char}
use fembed_lwip.Wire.Field.{length_groups, packet_encode-emit, packet_decode_buf_one}
use fembed_lwip.Packet.MsgType
use fembed_lwip.Packet.Header.{to_byte, to_byte-mod, of_byte}
use fembed_lwip.Packet.Frame.{finish, frame, emit-finish, packet_decode_buf-frame}
use fembed_lwip.Packet.Short.{plain_header}
use fembed_lwip.Packet.Connack.{ConnackOut, serialize_connack, connack_body, deserialize_connack}

-- The four bytes of a CONNACK.
abbrev pub connack_bytes : ℕ → ℕ → List ℕ
connack_bytes connack_rc session_present =
    frame (to_byte (plain_header MsgType.connack)) ((session_present % 2) ∷ (connack_rc % 256) ∷ [])

serialize_connack-emit :
    (buf : List ℕ) (buflen connack_rc session_present : ℕ)
    → 2 ≤ buflen
    → serialize_connack buf buflen connack_rc session_present
      ≡ (emit (connack_bytes connack_rc session_present) (start buf) >>= λ c. some (finish c))
unfolding serialize_connack
serialize_connack-emit buf buflen connack_rc session_present h = rw (le→ltb_false buflen 2 h) (
    simp (write_char-emit, packet_encode-emit 2 (omega arith), emit-emit, to_byte-mod)
      (ground (arith)))

-- A CONNACK (return code below 256, session flag below 2) that was written into an object of four
-- bytes or more, of which the caller says that it has two or more, is read back.
pub connack_round_trip :
    (out : ConnackOut) (buf : List ℕ) (buflen connack_rc session_present : ℕ)
    → 2 ≤ buflen
    → 4 ≤ length buf
    → connack_rc < 256
    → session_present < 2
    → (serialize_connack buf buflen connack_rc session_present >>= λ (_, sent).
        deserialize_connack out sent)
      ≡ some (pos 1, record { session_present = session_present; connack_rc = connack_rc })
unfolding deserialize_connack read_char connack_body
connack_round_trip out buf buflen connack_rc session_present h hb hc hs =
    rw
      (
        serialize_connack-emit buf buflen connack_rc session_present h,
        emit-finish (connack_bytes connack_rc session_present) buf
            (unfold length_groups in omega arith),
        packet_decode_buf-frame ((session_present % 2) ∷ (connack_rc % 256) ∷ []) _ (omega arith),
      )
      (unfold length_groups in ground arith)

-- The guard asks for two bytes and the packet has four: a buffer of two or three bytes, as the
-- caller says, is overrun.
pub serialize_connack_overrun :
    (buf : List ℕ) (buflen connack_rc session_present : ℕ)
    → length buf ≡ buflen
    → 2 ≤ buflen
    → buflen < 4
    → serialize_connack buf buflen connack_rc session_present ≡ none
serialize_connack_overrun buf buflen connack_rc session_present e h k = rw (
  serialize_connack-emit buf buflen connack_rc session_present h,
  emit_overrun (connack_bytes connack_rc session_present) (start buf)
      (unfold length_groups in omega arith),
)

-- A CONNACK whose remaining length is 0 or 1 has no return code. The deserialiser returns 1, its
-- code for success, and leaves the caller's variables as they were.
pub deserialize_connack_short :
    (out : ConnackOut) (byte n : ℕ) (rest : List ℕ)
    → (of_byte byte).msg_type ≡ MsgType.connack
    → n < 2
    → deserialize_connack out (byte ∷ n ∷ rest) ≡ some (pos 1, out)
unfolding deserialize_connack read_char connack_body
deserialize_connack_short out byte n rest e h =
    rw (e, packet_decode_buf_one n 1 rest (omega arith)) (ground arith)
