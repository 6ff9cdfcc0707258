-- ===== src/FreeRtos/SslSession.antt =====
-- Whole packets over OpenSSL: what readPacket gets of them, and what it gets after one with no body.
use fembed_lwip.Common.{
  ℕ, suc, ◌*◌, ◌/◌, ◌<◌, ◌≡◌, refl, ℤ, pos, List, [], ◌∷◌, ◌++◌, true, false, Option, some, length,
}
use fembed_lwip.Wire.Source.{bytes}
use fembed_lwip.Client.Run.{Run, returned, fault, ◌>>=◌}
use fembed_lwip.FreeRtos.Os.{Os, OpenSsl, Ready}
use fembed_lwip.FreeRtos.Socket.{is_positive}
use fembed_lwip.FreeRtos.Ssl.{
  Pointer, in_readbuf, at_char, Memory, Sys, poke, peek, overwrite, esp_ssl_read, ssl_read_packet,
  ssl_recv_loop,
}
use fembed_lwip.FreeRtos.SslPacket.{
  state, first_call, first_call_bodyless, second_call, third_call, after_check, IsFresh,
  slice-append, overwrite-append,
}

module _ {T W : Type 0} (os : Os T W) (ssl : OpenSsl W) (socket : ℤ) where
  -- The calls that readPacket makes for a packet with a body: for the header, for the byte of its
  -- length, and for as many bytes as that says. `f` and `g` are what its timers do in between.
  abbrev pub packet_calls : ℕ → ℕ → ℕ → ℕ → (W → W) → (W → W) → Sys W → Run (ℤ × ℤ × ℤ × Sys W)
  packet_calls rounds t1 t2 t3 f g s =
      esp_ssl_read os ssl rounds (record { my_socket = socket }) (in_readbuf 0) 1 t1 s
      >>= λ (rc1, s1).
          esp_ssl_read os ssl rounds (record { my_socket = socket }) at_char 1 t2
            (record s1 { world = f s1.world })
          >>= λ (rc2, s2).
              esp_ssl_read os ssl rounds (record { my_socket = socket }) (in_readbuf 2)
                s2.memory.char t3 (record s2 { world = g s2.world })
              >>= λ (rc3, s3). returned (rc1, rc2, rc3, s3)

  -- From the state between two packets: where SSL_read gives the two bytes of the header at once and
  -- then the body at once, and no time-out passes, the three calls return 1, 1 and the length of the
  -- body, the packet stands whole at the front of the read buffer, and the state is that between two
  -- packets again.
  pub packet_calls-state :
      (rounds t1 t2 t3 : ℕ) (f g : W → W) (h0 a b char : ℕ) (rb : Option Pointer)
      (old body tail : List ℕ) (t : T) (ready : Ready) (w w1 w2 w3 w4 : W)
      → length old ≡ length body
      → 0 < length body
      → os.set_time_out_state w ≡ (t, w1)
      → os.select_read socket (t1 * 1000) w1 ≡ (ready, w2)
      → is_positive ready.rc ≡ true
      → ready.is_error ≡ false
      → ready.is_set ≡ true
      → ssl.ssl_read 2 w2 ≡ (bytes (h0 ∷ length body ∷ []), w3)
      → ssl.ssl_read (length body) w3 ≡ (bytes body, w4)
      → IsFresh os ssl t2 (f w4)
      → IsFresh os ssl t3 (g (after_check os ssl t2 (f w4)))
      → packet_calls (suc rounds) t1 t2 t3 f g (state os ssl 0 rb (a ∷ b ∷ (old ++ tail)) char w)
        ≡ returned (
          pos 1,
          pos 1,
          pos (length body),
          state os ssl 0
              (some (in_readbuf 0))
              (h0 ∷ length body ∷ (body ++ tail))
              (length body)
              (after_check os ssl t3 (g (after_check os ssl t2 (f w4)))),
        )
  packet_calls-state rounds t1 t2 t3 f g h0 a b char rb old body tail t ready w w1 w2 w3 w4 e
        some_body h1 h2 p1 p2 p3 r1 r2 fresh2 fresh3 =
      rw
        (
          first_call os ssl rounds t1 h0 a b char rb socket old body tail t ready w w1 w2 w3 w4 e
              some_body h1 h2 p1 p2 p3 r1 r2,
          second_call os ssl (suc rounds) t2 h0 (length body) char socket (body ++ tail) (f w4)
              fresh2,
          third_call os ssl (suc rounds) t3 h0 (length body) (length body) socket body tail
              (g (after_check os ssl t2 (f w4))) fresh3,
        )
        refl

  recv_char_faults :
      (rounds x y : ℕ) (t : T) (ticks : ℕ) (m : Memory) (w w1 : W)
      → ssl.ssl_read 2 w ≡ (bytes (x ∷ y ∷ []), w1)
      → ssl_recv_loop os ssl (suc rounds) at_char 0 2 0 t ticks m w ≡ fault
  unfolding ssl_recv_loop poke overwrite
  recv_char_faults rounds x y t ticks m w w1 h = rw (h, ssl_recv_loop) refl

  -- The calls for a packet with no body, for the header and the byte of its length, and the call for the
  -- header of the packet behind it.
  abbrev pub bodyless_calls : ℕ → ℕ → ℕ → ℕ → (W → W) → (W → W) → Sys W → Run (ℤ × ℤ × ℤ × Sys W)
  bodyless_calls rounds t1 t2 t3 f g s =
      esp_ssl_read os ssl rounds (record { my_socket = socket }) (in_readbuf 0) 1 t1 s
      >>= λ (rc1, s1).
          esp_ssl_read os ssl rounds (record { my_socket = socket }) at_char 1 t2
            (record s1 { world = f s1.world })
          >>= λ (rc2, s2).
              esp_ssl_read os ssl rounds (record { my_socket = socket }) (in_readbuf 0) 1 t3
                (record s2 { world = g s2.world })
              >>= λ (rc3, s3). returned (rc1, rc2, rc3, s3)

  stale_header :
      (rounds timeout_ms h0 b c char : ℕ) (rest : List ℕ) (w : W)
      → IsFresh os ssl timeout_ms w
      → esp_ssl_read os ssl rounds
          (record { my_socket = socket })
          (in_readbuf 0)
          1
          timeout_ms
          (state os ssl 2 (some (in_readbuf 0)) (h0 ∷ b ∷ c ∷ rest) char w)
        ≡ returned (
          pos 1,
          state os ssl 0
              (some (in_readbuf 0))
              (c ∷ b ∷ c ∷ rest)
              char
              (after_check os ssl timeout_ms w),
        )
  unfolding esp_ssl_read poke peek
  stale_header rounds timeout_ms h0 b c char rest w fresh =
      rw
        (
          fresh,
          slice-append (c ∷ []) rest,
          overwrite-append [] (h0 ∷ []) (c ∷ []) (b ∷ c ∷ rest) refl,
        )
        refl

  -- From the state between two packets, where SSL_read gives the header of a packet with no body, its
  -- length byte 0, and no time-out passes: the two calls for it return 1, and so does the call for the
  -- header of the next packet, but that call reads nothing from the connection: the byte that it stores
  -- as the header is the third byte of the read buffer, left from an earlier packet. If the two bytes of
  -- the next packet then come, the call for its length writes them behind the variable it was given.
  pub bodyless_packet_breaks :
      (rounds t1 t2 t3 t4 : ℕ) (f g : W → W) (h0 a b c char x y : ℕ) (rb : Option Pointer)
      (rest : List ℕ) (t u : T) (ready ready1 : Ready) (w w1 w2 w3 v v1 v2 v3 : W)
      → os.set_time_out_state w ≡ (t, w1)
      → os.select_read socket (t1 * 1000) w1 ≡ (ready, w2)
      → is_positive ready.rc ≡ true
      → ready.is_error ≡ false
      → ready.is_set ≡ true
      → ssl.ssl_read 2 w2 ≡ (bytes (h0 ∷ 0 ∷ []), w3)
      → IsFresh os ssl t2 (f w3)
      → IsFresh os ssl t3 (g (after_check os ssl t2 (f w3)))
      → os.set_time_out_state v ≡ (u, v1)
      → os.select_read socket (t4 * 1000) v1 ≡ (ready1, v2)
      → is_positive ready1.rc ≡ true
      → ready1.is_error ≡ false
      → ready1.is_set ≡ true
      → ssl.ssl_read 2 v2 ≡ (bytes (x ∷ y ∷ []), v3)
      → (bodyless_calls (suc rounds) t1 t2 t3 f g (state os ssl 0 rb (a ∷ b ∷ c ∷ rest) char w)
          ≡ returned (
            pos 1,
            pos 1,
            pos 1,
            state os ssl 0
                (some (in_readbuf 0))
                (c ∷ 0 ∷ c ∷ rest)
                0
                (after_check os ssl t3 (g (after_check os ssl t2 (f w3)))),
          ))
        × (esp_ssl_read os ssl
              (suc rounds)
              (record { my_socket = socket })
              at_char
              1
              t4
              (state os ssl 0 (some (in_readbuf 0)) (c ∷ 0 ∷ c ∷ rest) 0 v)
            ≡ fault)
  unfolding esp_ssl_read ssl_read_packet
  bodyless_packet_breaks rounds t1 t2 t3 t4 f g h0 a b c char x y rb rest t u ready ready1 w w1 w2
        w3 v v1 v2 v3 h1 h2 p1 p2 p3 r fresh2 fresh3 k1 k2 q1 q2 q3 r2 =
      (
        three_calls,
        rw
            (
              k1,
              k2,
              q1,
              q2,
              q3,
              recv_char_faults rounds x y u (t4 / os.tick_ms)
                  (record { readbuf = c ∷ 0 ∷ c ∷ rest; char = 0 }) v2 v3 r2,
            )
            refl,
      )
    where
      three_calls :
          bodyless_calls (suc rounds) t1 t2 t3 f g (state os ssl 0 rb (a ∷ b ∷ c ∷ rest) char w)
          ≡ returned (
            pos 1,
            pos 1,
            pos 1,
            state os ssl 0
                (some (in_readbuf 0))
                (c ∷ 0 ∷ c ∷ rest)
                0
                (after_check os ssl t3 (g (after_check os ssl t2 (f w3)))),
          )
      three_calls =
          rw
            (
              first_call_bodyless os ssl rounds t1 h0 a b char rb socket (c ∷ rest) t ready w w1 w2
                  w3 h1 h2 p1 p2 p3 r,
              second_call os ssl (suc rounds) t2 h0 0 char socket (c ∷ rest) (f w3) fresh2,
              stale_header (suc rounds) t3 h0 0 c 0 rest (g (after_check os ssl t2 (f w3))) fresh3,
            )
            refl
