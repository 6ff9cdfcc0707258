-- ===== src/FreeRtos/Ssl.antt =====
-- Reading and writing over OpenSSL in paho/MQTTClient-C/src/FreeRTOS/MQTTFreeRTOS.c, with the
-- memory that its static pointer `read_buffer` aliases.
use fembed_lwip.Common.{
  ℕ, zero, suc, ◌+◌, ◌*◌, ◌/◌, ℤ, pos, negsuc, List, [], ◌∷◌, ◌++◌, Bool, true, false, Option, none,
  some, length, take, drop, ltb, leb, ◌==◌, if◌then◌else◌,
}
use fembed_lwip.Wire.Source.{failed, bytes}
use fembed_lwip.Client.Run.{Run, returned, fault, unfinished, lift, ◌>>=◌}
use fembed_lwip.Client.Topics.{slice}
use fembed_lwip.FreeRtos.Os.{Os, OpenSsl}
use fembed_lwip.FreeRtos.Socket.{Network, is_positive, select_loop, write_loop}

-- Where the client lets a packet be read to: its read buffer from an offset on, or the variable of
-- decodePacket that holds one byte of the length.
pub data Pointer : Type 0 where
  in_readbuf : ℕ → Pointer
  at_char : Pointer

pub record Memory : Type 0 where
  pub readbuf : List ℕ
  pub char : ℕ

-- `bs` from offset `k` of an object on; `none` is behind the object.
unfoldable pub overwrite : ℕ → List ℕ → List ℕ → Option (List ℕ)
overwrite k bs object =
    if leb (k + length bs) (length object)
    then some (take k object ++ (bs ++ drop (k + length bs) object))
    else none

abbrev set_readbuf : Memory → Option (List ℕ) → Option Memory
set_readbuf m none = none
set_readbuf m (some object) = some (record m { readbuf = object })

abbrev set_char : Memory → Option (List ℕ) → Option Memory
set_char m (some (c ∷ [])) = some (record m { char = c })
set_char m _ = none

-- Stores `bs` at `p + k`.
unfoldable pub poke : Pointer → ℕ → List ℕ → Memory → Option Memory
unfolding overwrite
poke (in_readbuf j) k bs m = set_readbuf m (overwrite (j + k) bs m.readbuf)
poke at_char k bs m = set_char m (overwrite k bs (m.char ∷ []))

-- The `n` bytes at `p + k`.
unfoldable pub peek : Pointer → ℕ → ℕ → Memory → Option (List ℕ)
peek (in_readbuf j) k n m = slice n (drop (j + k) m.readbuf)
peek at_char k n m = slice n (drop k (m.char ∷ []))

-- `read_count` of the network, and the static pointer.
pub record Stage : Type 0 where
  pub read_count : ℕ
  pub read_buffer : Option Pointer

pub record Sys (W : Type 0) : Type 0 where
  pub stage : Stage
  pub memory : Memory
  pub world : W

-- An access through `read_buffer`.
abbrev pub through : {A W : Type 0} → Sys W → (Pointer → Option A) → Run A
through s f = elim s.stage.read_buffer [ none ↦ fault | some p ↦ lift (f p) ]

module _ {T W : Type 0} (os : Os T W) (ssl : OpenSsl W) where
  -- The two loops over SSL_read: whether they ended without an error. Every round stores at the same
  -- place and asks for `len` bytes again.
  unfoldable pub ssl_recv_loop :
      ℕ → Pointer → ℕ → ℕ → ℕ → T → ℕ → Memory → W → Run (Bool × Memory × T × ℕ × W)
  ssl_recv_loop zero p k len count t ticks m w = unfinished
  ssl_recv_loop (suc rounds) p k len count t ticks m w =
      let (got, w1) = ssl.ssl_read len w in
      elim got [
        | failed ↦ returned (false, m, t, ticks, w1)
        | bytes bs ↦ elim (poke p k bs m) [
          | none ↦ fault
          | some m1 ↦ elim (ltb (count + length bs) len) [
            | false ↦ returned (true, m1, t, ticks, w1)
            | true ↦
                let (over, t1, ticks1, w2) = os.check_for_time_out t ticks w1 in
                elim over [
                  | true ↦ returned (true, m1, t1, ticks1, w2)
                  | false ↦ ssl_recv_loop rounds p k len (count + length bs) t1 ticks1 m1 w2
                ]
          ]
        ]
      ]

  abbrev now_at : Stage → Memory → W → Sys W
  now_at stage m w = record { stage = stage; memory = m; world = w }

  first_or_zero : List ℕ → ℕ
  first_or_zero [] = 0
  first_or_zero (b ∷ bs) = b

  -- The loop for the body, when the length byte is not 0.
  unfoldable pub ssl_read_body : ℕ → Pointer → ℕ → T → ℕ → Memory → W → Run (Bool × Memory × W)
  ssl_read_body rounds p len t ticks m w =
      if ltb 0 len
      then (ssl_recv_loop rounds p 2 len 0 t ticks m w >>= λ (ok, m1, _, _, w1).
          returned (ok, m1, w1))
      else returned (true, m, w)

  -- `read_count == 0`: the whole packet is read, of which the caller gets one byte.
  unfoldable pub ssl_read_packet : ℕ → Pointer → T → ℕ → Sys W → Run (ℤ × Sys W)
  unfolding first_or_zero
  ssl_read_packet rounds buffer t ticks s =
      let stage : Stage = record s.stage { read_buffer = some buffer } in
      ssl_recv_loop rounds buffer 0 2 0 t ticks s.memory s.world >>= λ (ok, m, t1, ticks1, w).
      if ok
      then (lift (peek buffer 1 1 m) >>= λ len.
          ssl_read_body rounds buffer (first_or_zero len) t1 ticks1 m w >>= λ (ok1, m1, w1).
          if ok1
          then returned (pos 1, now_at (record stage { read_count = s.stage.read_count + 1 }) m1 w1)
          else returned (negsuc 0, now_at stage m1 w1))
      else returned (negsuc 0, now_at stage m w)

  -- The time is over at the second or third call: `read_buffer[0] = 0`.
  unfoldable pub ssl_timed_out : Sys W → Run (ℤ × Sys W)
  ssl_timed_out s = through s (λ p. poke p 0 (0 ∷ []) s.memory) >>= λ m.
      returned (pos 0, record s { stage = record s.stage { read_count = 0 }; memory = m })

  unfoldable pub esp_ssl_read : ℕ → Network → Pointer → ℕ → ℕ → Sys W → Run (ℤ × Sys W)
  esp_ssl_read rounds n buffer len timeout_ms s =
      let ticks = timeout_ms / os.tick_ms in
      let (t, w1) = os.set_time_out_state s.world in
      if s.stage.read_count == 0
      then (let (ready, w2) = os.select_read n.my_socket (timeout_ms * 1000) w1 in
          let s2 = record s { world = w2 } in
          if is_positive ready.rc
          then (if ready.is_error
              then returned (pos 0, s2)
              else if ready.is_set
              then ssl_read_packet rounds buffer t ticks s2
              else returned (pos 0, s2))
          else returned (pos 0, s2))
      else if s.stage.read_count == 1
      then (let (over, _, _, w2) = os.check_for_time_out t ticks w1 in
          let s2 = record s { world = w2 } in
          if over
          then ssl_timed_out s2
          else (through s2 (λ p. peek p 1 1 s2.memory) >>= λ bs.
              lift (poke buffer 0 bs s2.memory) >>= λ m.
              returned
                (pos 1, record s2 { stage = record s.stage { read_count = 2 }; memory = m })))
      else if s.stage.read_count == 2
      then (let (over, _, _, w2) = os.check_for_time_out t ticks w1 in
          let s2 : Sys W = record s { stage = record s.stage { read_count = 0 }; world = w2 } in
          if over
          then ssl_timed_out s2
          else (through s2 (λ p. peek p 2 len s2.memory) >>= λ bs.
              lift (poke buffer 0 bs s2.memory) >>= λ m.
              returned (pos len, record s2 { memory = m })))
      else returned (pos 0, record s { world = w1 })

  unfoldable pub esp_ssl_write : ℕ → Network → List ℕ → ℕ → W → Run (ℤ × W)
  esp_ssl_write rounds n buffer timeout_ms w =
      let (t, w1) = os.set_time_out_state w in
      select_loop os rounds n.my_socket true true (timeout_ms * 1000) w1 >>= λ (ready, w2).
      if ready.is_error
      then returned (pos 0, w2)
      else if ready.is_set
      then write_loop os rounds ssl.ssl_write buffer 0 t (timeout_ms / os.tick_ms) w2
      else returned (pos 0, w2)
