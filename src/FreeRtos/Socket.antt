-- ===== src/FreeRtos/Socket.antt =====
-- The plain network of paho/MQTTClient-C/src/FreeRTOS/MQTTFreeRTOS.c.
use fembed_lwip.Common.{
  ℕ, zero, suc, ◌+◌, ◌-◌, ◌*◌, ◌/◌, ℤ, pos, negsuc, List, [], ◌++◌, Bool, true, false, ◌&&◌, none,
  some, length, drop, ltb, if◌then◌else◌, is_neg,
}
use fembed_lwip.Wire.Source.{failed, bytes}
use fembed_lwip.Client.Run.{Run, returned, unfinished, ◌>>=◌}
use fembed_lwip.FreeRtos.Os.{Os, Ready}

-- `x > 0`
unfoldable pub is_positive : ℤ → Bool
is_positive (pos n) = ltb 0 n
is_positive (negsuc n) = false

-- The part of `struct Network` that the functions read: which of them its pointers hold is fixed by
-- NetworkInit.
pub record Network : Type 0 where
  pub my_socket : ℤ

unfoldable pub network_init : Network
network_init = record { my_socket = pos 0 }

module _ {T W : Type 0} (os : Os T W) where
  -- The loop of `esp_read`: the value of `recvLen`, and what was stored from `buffer` on.
  unfoldable pub recv_loop : ℕ → ℤ → ℕ → List ℕ → T → ℕ → W → Run (ℤ × List ℕ × W)
  recv_loop zero socket len stored t ticks w = unfinished
  recv_loop (suc rounds) socket len stored t ticks w =
      let (got, w1) = os.recv socket (len - length stored) w in
      elim got [
        | failed ↦ returned (negsuc 0, stored, w1)
        | bytes bs ↦ elim (ltb (length (stored ++ bs)) len) [
          | false ↦ returned (pos (length (stored ++ bs)), stored ++ bs, w1)
          | true ↦
              let (over, t1, ticks1, w2) = os.check_for_time_out t ticks w1 in
              elim over [
                | true ↦ returned (pos (length (stored ++ bs)), stored ++ bs, w2)
                | false ↦ recv_loop rounds socket len (stored ++ bs) t1 ticks1 w2
              ]
        ]
      ]

  -- `timeout_ms * 1000` is handed to `select` as microseconds.
  unfoldable pub esp_read : ℕ → Network → ℕ → ℕ → W → Run (ℤ × List ℕ × W)
  esp_read rounds n len timeout_ms w =
      let (t, w1) = os.set_time_out_state w in
      let (ready, w2) = os.select_read n.my_socket (timeout_ms * 1000) w1 in
      if is_positive ready.rc && ready.is_set
      then recv_loop rounds n.my_socket len [] t (timeout_ms / os.tick_ms) w2
      else returned (pos 0, [], w2)

  -- `do ... while (readysock <= 0)`, with whether the socket is in the two sets. They are filled before
  -- the loop only: each round is given what the round before left of them.
  unfoldable pub select_loop : ℕ → ℤ → Bool → Bool → ℕ → W → Run (Ready × W)
  select_loop zero socket in_set in_errors usec w = unfinished
  select_loop (suc rounds) socket in_set in_errors usec w =
      let (ready, w1) = os.select_write socket in_set in_errors usec w in
      elim (is_positive ready.rc) [
        | true ↦ returned (ready, w1)
        | false ↦ select_loop rounds socket ready.is_set ready.is_error usec w1
      ]

  -- The loop of `esp_write` on the `len` bytes of `buffer`; `send` may be that of OpenSSL.
  unfoldable pub write_loop : ℕ → (List ℕ → W → ℤ × W) → List ℕ → ℕ → T → ℕ → W → Run (ℤ × W)
  write_loop zero send buffer sent t ticks w = unfinished
  write_loop (suc rounds) send buffer sent t ticks w =
      let (rc, w1) = send (drop sent buffer) w in
      elim rc [
        | negsuc n ↦ returned (negsuc n, w1)
        | pos n ↦ elim (ltb (sent + n) (length buffer)) [
          | false ↦ returned (pos (sent + n), w1)
          | true ↦
              let (over, t1, ticks1, w2) = os.check_for_time_out t ticks w1 in
              elim over [
                | true ↦ returned (pos (sent + n), w2)
                | false ↦ write_loop rounds send buffer (sent + n) t1 ticks1 w2
              ]
        ]
      ]

  unfoldable pub esp_write : ℕ → Network → List ℕ → ℕ → W → Run (ℤ × W)
  esp_write rounds n buffer timeout_ms w = do
    let (t, w1) = os.set_time_out_state w
    (ready, w2) ← select_loop rounds n.my_socket true false (timeout_ms * 1000) w1
    if ready.is_set
        then write_loop rounds (os.send n.my_socket) buffer 0 t (timeout_ms / os.tick_ms) w2
        else returned (pos 0, w2)

  unfoldable pub esp_disconnect : Network → W → W
  esp_disconnect n w = os.close n.my_socket w

  -- A failed `connect` closes the socket and leaves its number in `my_socket`.
  unfoldable pub network_connect : List ℕ → ℕ → Network → W → ℤ × Network × W
  network_connect addr port n w =
      let (host, w1) = os.gethostbyname addr w in
      elim host [
        | none ↦ (negsuc 0, n, w1)
        | some ip ↦
            let (fd, w2) = os.socket w1 in
            let n1 : Network = record { my_socket = fd } in
            if is_neg fd
            then (negsuc 0, n1, w2)
            else (let (rc, w3) = os.connect fd ip port w2 in
                if is_neg rc then (rc, n1, os.close fd w3) else (rc, n1, w3))
      ]
