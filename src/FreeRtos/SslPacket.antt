-- ===== src/FreeRtos/SslPacket.antt =====
-- Packets over OpenSSL: the calls of esp_ssl_read that readPacket makes for one packet.
use mathlib.Core.Path.{sym}
use fembed_lwip.Common.{
  ℕ, suc, ◌+◌, ◌*◌, ◌/◌, ◌<◌, ◌≡◌, refl, ◌∙◌, ap, arith, ℤ, pos, List, [], ◌∷◌, ◌++◌, append_assoc,
  true, false, Option, some, length, length-append, drop, take-append, drop-append, ltb, leb,
  le→leb, le→ltb_false, lt→ltb,
}
use fembed_lwip.Wire.Source.{bytes}
use fembed_lwip.Client.Run.{returned}
use fembed_lwip.Client.Topics.{slice}
use fembed_lwip.FreeRtos.Os.{Os, OpenSsl, Ready}
use fembed_lwip.FreeRtos.Socket.{is_positive}
use fembed_lwip.FreeRtos.Ssl.{
  Pointer, in_readbuf, at_char, Memory, overwrite, poke, peek, Sys, ssl_recv_loop, ssl_read_body,
  ssl_read_packet, esp_ssl_read,
}

pub overwrite-append :
    (pre old new post : List ℕ)
    → length old ≡ length new
    → overwrite (length pre) new (pre ++ (old ++ post)) ≡ some (pre ++ (new ++ post))
unfolding overwrite
overwrite-append pre old new post e =
    let fits : leb (length pre + length new) (length (pre ++ (old ++ post))) ≡ true =
      le→leb _ _ (omega (arith, length-append pre (old ++ post), length-append old post, e)) in
    let whole : length pre + length new ≡ length (pre ++ old) =
      omega (arith, length-append pre old, e) in
    let behind : drop (length pre + length new) (pre ++ (old ++ post)) ≡ post =
      ap (λ (k : ℕ). drop k (pre ++ (old ++ post))) whole
      ∙ (ap (drop (length (pre ++ old))) (sym (append_assoc pre old post))
          ∙ drop-append (pre ++ old) post) in
    rw (fits, behind, take-append pre (old ++ post)) refl

pub slice-append : (xs ys : List ℕ) → slice (length xs) (xs ++ ys) ≡ some xs
slice-append xs ys =
    let fits : leb (length xs) (length (xs ++ ys)) ≡ true =
      le→leb _ _ (omega (arith, length-append xs ys)) in
    rw (fits, take-append xs ys) refl

module _ {T W : Type 0} (os : Os T W) (ssl : OpenSsl W) where
  -- One call of SSL_read gives all that is asked for.
  recv_at_once :
      (rounds k : ℕ) (p : Pointer) (bs : List ℕ) (t : T) (ticks : ℕ) (m m1 : Memory) (w w1 : W)
      → ssl.ssl_read (length bs) w ≡ (bytes bs, w1)
      → poke p k bs m ≡ some m1
      → ssl_recv_loop os ssl (suc rounds) p k (length bs) 0 t ticks m w
        ≡ returned (true, m1, t, ticks, w1)
  unfolding ssl_recv_loop
  recv_at_once rounds k p bs t ticks m m1 w w1 h e =
      let all : ltb (0 + length bs) (length bs) ≡ false = le→ltb_false _ _ (omega arith) in
      ground (arith, h, e, all)

  abbrev pub state : ℕ → Option Pointer → List ℕ → ℕ → W → Sys W
  state count p readbuf char w = record {
    stage = record { read_count = count; read_buffer = p };
    memory = record { readbuf = readbuf; char = char };
    world = w;
  }

  poke_readbuf :
      (pre old new post : List ℕ) (char : ℕ)
      → length old ≡ length new
      → poke
          (in_readbuf 0)
          (length pre)
          new
          (record { readbuf = pre ++ (old ++ post); char = char })
        ≡ some (record { readbuf = pre ++ (new ++ post); char = char })
  unfolding poke
  poke_readbuf pre old new post char e =
      let k : 0 + length pre ≡ length pre = omega arith in
      rw (k, overwrite-append pre old new post e) refl

  peek_length :
      (h0 n char : ℕ) (rest : List ℕ)
      → peek (in_readbuf 0) 1 1 (record { readbuf = h0 ∷ n ∷ rest; char = char }) ≡ some (n ∷ [])
  unfolding peek
  peek_length h0 n char rest = slice-append (n ∷ []) rest

  body_read :
      (rounds : ℕ) (h0 char : ℕ) (old body tail : List ℕ) (t : T) (ticks : ℕ) (w w1 : W)
      → length old ≡ length body
      → 0 < length body
      → ssl.ssl_read (length body) w ≡ (bytes body, w1)
      → ssl_read_body os ssl
          (suc rounds)
          (in_readbuf 0)
          (length body)
          t
          ticks
          (record { readbuf = h0 ∷ length body ∷ (old ++ tail); char = char })
          w
        ≡ returned (true, record { readbuf = h0 ∷ length body ∷ (body ++ tail); char = char }, w1)
  unfolding ssl_read_body
  body_read rounds h0 char old body tail t ticks w w1 e some_body h =
      let m : Memory = record { readbuf = h0 ∷ length body ∷ (old ++ tail); char = char } in
      let m1 : Memory = record { readbuf = h0 ∷ length body ∷ (body ++ tail); char = char } in
      let once =
        recv_at_once rounds 2 (in_readbuf 0) body t ticks m m1 w w1 h
          (poke_readbuf (h0 ∷ length body ∷ []) old body tail char e) in
      rw (lt→ltb 0 (length body) some_body, once) refl

  packet_read :
      (rounds h0 a b char : ℕ) (rb : Option Pointer) (old body tail : List ℕ) (t : T) (ticks : ℕ)
      (w w1 w2 : W)
      → length old ≡ length body
      → 0 < length body
      → ssl.ssl_read 2 w ≡ (bytes (h0 ∷ length body ∷ []), w1)
      → ssl.ssl_read (length body) w1 ≡ (bytes body, w2)
      → ssl_read_packet os ssl
          (suc rounds)
          (in_readbuf 0)
          t
          ticks
          (state 0 rb (a ∷ b ∷ (old ++ tail)) char w)
        ≡ returned
            (pos 1, state 1 (some (in_readbuf 0)) (h0 ∷ length body ∷ (body ++ tail)) char w2)
  unfolding ssl_read_packet
  packet_read rounds h0 a b char rb old body tail t ticks w w1 w2 e some_body r1 r2 =
      let head : List ℕ = h0 ∷ length body ∷ [] in
      let m : Memory = record { readbuf = a ∷ b ∷ (old ++ tail); char = char } in
      let m1 : Memory = record { readbuf = h0 ∷ length body ∷ (old ++ tail); char = char } in
      let once =
        recv_at_once rounds 0 (in_readbuf 0) head t ticks m m1 w w1 r1
          (poke_readbuf [] (a ∷ b ∷ []) head (old ++ tail) char refl) in
      let rest = body_read rounds h0 char old body tail t ticks w1 w2 e some_body r2 in
      rw (once, peek_length h0 (length body) char (old ++ tail), rest) refl

  -- The first call stores the packet whole at the front of the read buffer and returns 1.
  pub first_call :
      (rounds timeout_ms h0 a b char : ℕ) (rb : Option Pointer) (socket : ℤ)
      (old body tail : List ℕ) (t : T) (ready : Ready) (w w1 w2 w3 w4 : W)
      → length old ≡ length body
      → 0 < length body
      → os.set_time_out_state w ≡ (t, w1)
      → os.select_read socket (timeout_ms * 1000) w1 ≡ (ready, w2)
      → is_positive ready.rc ≡ true
      → ready.is_error ≡ false
      → ready.is_set ≡ true
      → ssl.ssl_read 2 w2 ≡ (bytes (h0 ∷ length body ∷ []), w3)
      → ssl.ssl_read (length body) w3 ≡ (bytes body, w4)
      → esp_ssl_read os ssl
          (suc rounds)
          (record { my_socket = socket })
          (in_readbuf 0)
          1
          timeout_ms
          (state 0 rb (a ∷ b ∷ (old ++ tail)) char w)
        ≡ returned
            (pos 1, state 1 (some (in_readbuf 0)) (h0 ∷ length body ∷ (body ++ tail)) char w4)
  unfolding esp_ssl_read ssl_read_packet
  first_call rounds timeout_ms h0 a b char rb socket old body tail t ready w w1 w2 w3 w4 e some_body
        h1 h2 p1 p2 p3 r1 r2 =
      rw (h1, h2, p1, p2, p3)
        (packet_read rounds h0 a b char rb old body tail t (timeout_ms / os.tick_ms) w2 w3 w4 e
          some_body r1 r2)

  -- The first call for a packet with no body, whose length byte is 0.
  pub first_call_bodyless :
      (rounds timeout_ms h0 a b char : ℕ) (rb : Option Pointer) (socket : ℤ) (rest : List ℕ) (t : T)
      (ready : Ready) (w w1 w2 w3 : W)
      → os.set_time_out_state w ≡ (t, w1)
      → os.select_read socket (timeout_ms * 1000) w1 ≡ (ready, w2)
      → is_positive ready.rc ≡ true
      → ready.is_error ≡ false
      → ready.is_set ≡ true
      → ssl.ssl_read 2 w2 ≡ (bytes (h0 ∷ 0 ∷ []), w3)
      → esp_ssl_read os ssl
          (suc rounds)
          (record { my_socket = socket })
          (in_readbuf 0)
          1
          timeout_ms
          (state 0 rb (a ∷ b ∷ rest) char w)
        ≡ returned (pos 1, state 1 (some (in_readbuf 0)) (h0 ∷ 0 ∷ rest) char w3)
  unfolding esp_ssl_read ssl_read_packet ssl_read_body
  first_call_bodyless rounds timeout_ms h0 a b char rb socket rest t ready w w1 w2 w3 h1 h2 p1 p2 p3
        r =
      let head : List ℕ = h0 ∷ 0 ∷ [] in
      let m : Memory = record { readbuf = a ∷ b ∷ rest; char = char } in
      let m1 : Memory = record { readbuf = h0 ∷ 0 ∷ rest; char = char } in
      let once =
        recv_at_once rounds 0 (in_readbuf 0) head t (timeout_ms / os.tick_ms) m m1 w2 w3 r
          (poke_readbuf [] (a ∷ b ∷ []) head rest char refl) in
      rw (h1, h2, p1, p2, p3, once, peek_length h0 0 char rest) refl

  -- What the check of a time-out that was just set leaves as the world.
  abbrev pub after_check : ℕ → W → W
  after_check timeout_ms w =
      let (t, w1) = os.set_time_out_state w in
      (os.check_for_time_out t (timeout_ms / os.tick_ms) w1).3

  -- A time-out that was just set has not passed.
  abbrev pub IsFresh : ℕ → W → Type 0
  IsFresh timeout_ms w =
      let (t, w1) = os.set_time_out_state w in
      (os.check_for_time_out t (timeout_ms / os.tick_ms) w1).0 ≡ false

  -- The second call copies the length byte to the variable of decodePacket.
  pub second_call :
      (rounds timeout_ms h0 n char : ℕ) (socket : ℤ) (rest : List ℕ) (w : W)
      → IsFresh timeout_ms w
      → esp_ssl_read os ssl rounds
          (record { my_socket = socket })
          at_char
          1
          timeout_ms
          (state 1 (some (in_readbuf 0)) (h0 ∷ n ∷ rest) char w)
        ≡ returned
            (pos 1, state 2 (some (in_readbuf 0)) (h0 ∷ n ∷ rest) n (after_check timeout_ms w))
  unfolding esp_ssl_read poke overwrite
  second_call rounds timeout_ms h0 n char socket rest w fresh =
      rw (fresh, peek_length h0 n char rest) refl

  -- The third call gives the body, to where it already stands.
  pub third_call :
      (rounds timeout_ms h0 n char : ℕ) (socket : ℤ) (body tail : List ℕ) (w : W)
      → IsFresh timeout_ms w
      → esp_ssl_read os ssl rounds
          (record { my_socket = socket })
          (in_readbuf 2)
          (length body)
          timeout_ms
          (state 2 (some (in_readbuf 0)) (h0 ∷ n ∷ (body ++ tail)) char w)
        ≡ returned (
          pos (length body),
          state 0 (some (in_readbuf 0)) (h0 ∷ n ∷ (body ++ tail)) char (after_check timeout_ms w),
        )
  unfolding esp_ssl_read poke peek
  third_call rounds timeout_ms h0 n char socket body tail w fresh =
      rw (fresh, slice-append body tail, overwrite-append (h0 ∷ n ∷ []) body body tail refl) refl
