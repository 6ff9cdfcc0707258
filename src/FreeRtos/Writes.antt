-- ===== src/FreeRtos/Writes.antt =====
-- esp_write and esp_ssl_write of paho/MQTTClient-C/src/FreeRTOS/MQTTFreeRTOS.c return.
use mathlib.Core.Path.{sym}
use fembed_lwip.Common.{
  ℕ, zero, suc, ◌*◌, ◌/◌, ◌≤◌, ◌<◌, ◌≡◌, refl, ◌∙◌, ap, inl, inr, arith, ℤ, pos, List, [], ◌++◌,
  append-nil, Bool, true, false, not, ◌&&◌, if◌then◌else◌,
}
use fembed_lwip.Client.Run.{Run, returned, fault, unfinished, ◌>>=◌}
use fembed_lwip.FreeRtos.Os.{Os, OpenSsl, Ready}
use fembed_lwip.FreeRtos.Socket.{is_positive, select_loop, write_loop, esp_write}
use fembed_lwip.FreeRtos.Ssl.{esp_ssl_write}
use fembed_lwip.FreeRtos.Arrivals.{Ends, Expiry, Log, with_delay}
use fembed_lwip.FreeRtos.Departures.{Departures, Writable, Sent, write_loop-Sent}

ends_bind :
    {A B : Type 0} (P : A → Type 0) (Q : B → Type 0) (m : Run A) (f : A → Run B)
    → Ends m P
    → ((a : A) → P a → Ends (f a) Q)
    → Ends (m >>= f) Q
unfolding Ends
ends_bind P Q (returned a) f h k = k a h
ends_bind P Q fault f h k = absurd h
ends_bind P Q unfinished f h k = absurd h

ends_unless :
    {A : Type 0} (P : A → Type 0) (early go : Bool) (l l1 : Log) (m n : Run A)
    → l1 ≡ (if not (not early && go) then with_delay l else l)
    → (l1 ≡ l → Ends m P)
    → (l1 ≡ with_delay l → Ends n P)
    → Ends (if early then n else if go then m else n) P
ends_unless P true go l l1 m n e h k = k e
ends_unless P false true l l1 m n e h k = h e
ends_unless P false false l l1 m n e h k = k e

module _ {T W : Type 0} (os : Os T W) (expiry : Expiry os) (socket : ℤ) (errors : Bool)
    (early go : Ready → Bool) (send : List ℕ → W → ℤ × W) (departures : Departures os expiry send)
    (writable : Writable os expiry socket errors
      (λ ready. not (early ready) && go ready)
      (Departures.sent departures)
      (Departures.log departures)) where
  -- The wait sent nothing, did not prolong the time-out `t` and noted a socket that is of no use.
  abbrev Waited : T → ℕ → W → Ready × W → Type 0
  Waited t ticks w (ready, w1) =
      (departures.sent w1 ≡ departures.sent w)
      × ((expiry.tests t ticks w1 ≤ expiry.tests t ticks w)
          × (departures.log w1 ≡ (
              if not (not (early ready) && go ready)
              then with_delay (departures.log w)
              else departures.log w)))

  abbrev Wait : ℕ → ℕ → T → ℕ → W → W → Bool → Bool → Type 0
  Wait rounds usec t ticks w w1 a b =
      Ends (select_loop os rounds socket a b usec w1) (Waited t ticks w)

  abbrev IsWaiting : T → ℕ → W → W → Type 0
  IsWaiting t ticks w w1 =
      (departures.sent w1 ≡ departures.sent w)
      × ((expiry.tests t ticks w1 ≤ expiry.tests t ticks w)
          × (departures.log w1 ≡ departures.log w))

  selected :
      (rounds usec : ℕ) (t : T) (ticks : ℕ) (w w1 : W) (ready : Ready) (b : Bool)
      → departures.sent w1 ≡ departures.sent w
      → expiry.tests t ticks w1 ≤ expiry.tests t ticks w
      → departures.log w1 ≡ (
          if b && not (not (early ready) && go ready)
          then with_delay (departures.log w)
          else departures.log w)
      → (b ≡ false
          → IsWaiting t ticks w w1
          → Wait rounds usec t ticks w w1 ready.is_set ready.is_error)
      → Ends
          (elim b [
            | true ↦ returned (ready, w1)
            | false ↦ select_loop os rounds socket ready.is_set ready.is_error usec w1
          ])
          (Waited t ticks w)
  unfolding Ends
  selected rounds usec t ticks w w1 ready true h e d k = (h, (e, d))
  selected rounds usec t ticks w w1 ready false h e d k = k refl (h, (e, d))

  select_loop-Waited :
      (rounds usec : ℕ) (t : T) (ticks : ℕ) (w w1 : W) (a b : Bool)
      → a ≡ true
      → b ≡ errors
      → IsWaiting t ticks w w1
      → writable.waits w1 < rounds
      → Wait rounds usec t ticks w w1 a b
  unfolding select_loop
  select_loop-Waited zero usec t ticks w w1 a b p q h k = absurd (omega arith)
  select_loop-Waited (suc rounds) usec t ticks w w1 a b p q (same, (kept, quiet)) k =
      let (ready, w2) = os.select_write socket true errors usec w1 in
      let (sent, noted) = writable.at_select usec w1 in
      let bad : Bool = is_positive ready.rc && not (not (early ready) && go ready) in
      rw (p, q)
        (selected rounds usec t ticks w w2 ready (is_positive ready.rc) (sent ∙ same)
          (omega (arith, kept, writable.after_select t ticks usec w1))
          (noted ∙ ap (λ (x : Log). if bad then with_delay x else x) quiet)
          (λ r waiting.
            let (fewer, (in_set, in_errors)) = writable.not_ready usec w1 r in
            select_loop-Waited rounds usec t ticks w w2 ready.is_set ready.is_error in_set in_errors
              waiting (omega (arith, k, fewer))))

  -- The common part of the two functions, from the wait on.
  pub then_written :
      (rounds usec ticks : ℕ) (buffer : List ℕ) (w : W)
      → expiry.limit < rounds
      → writable.patience < rounds
      → (let (t, w1) = os.set_time_out_state w in
          Ends
            (select_loop os rounds socket true errors usec w1 >>= λ (ready, w2).
              if early ready
              then returned (pos 0, w2)
              else if go ready
              then write_loop os rounds send buffer 0 t ticks w2
              else returned (pos 0, w2))
            (Sent os expiry send departures (departures.sent w) (departures.log w) buffer))
  unfolding Ends
  then_written rounds usec ticks buffer w h k =
      let (t, w1) = os.set_time_out_state w in
      let (start, start_log) = departures.at_start w in
      ends_bind _ _ (select_loop os rounds socket true errors usec w1) _
        (select_loop-Waited rounds usec t ticks w1 w1 true errors refl refl
          (refl, (omega arith, refl)) (omega (arith, k, writable.waits_bound w1)))
        (λ (ready, w2) (same, (kept, noted)).
          let none_sent : departures.sent w2 ≡ departures.sent w ++ [] =
            same ∙ (start ∙ sym (append-nil (departures.sent w))) in
          let bad : Bool = not (not (early ready) && go ready) in
          ends_unless _ (early ready) (go ready) (departures.log w) (departures.log w2) _ _
            (noted ∙ ap (λ (x : Log). if bad then with_delay x else x) start_log)
            (λ d.
              write_loop-Sent os expiry send departures rounds 0 buffer t ticks w2
                (departures.sent w) (departures.log w)
                (omega (arith, h, kept, expiry.started ticks w)) (omega arith, (none_sent, d)))
            (λ d. (0, (omega arith, (none_sent, inr (inl (refl, d)))))))

module _ {T W : Type 0} (os : Os T W) (expiry : Expiry os) (socket : ℤ) where
  -- Where the time-out passes after at most `limit` checks, select finds the socket ready in time after
  -- failing at most `patience` times, and more rounds than both are allowed: esp_write returns. It sent
  -- the bytes of the buffer from the front up to some place and nothing else. Either the result is the
  -- number of these bytes, and it is all of the buffer and neither send failed nor was there a reason
  -- to stop, or there was one such reason: the socket was not in the set or the time-out passed; or the
  -- result is negative and send failed once.
  pub esp_write-Sent :
      (departures : Departures os expiry (os.send socket))
      (writable : Writable os expiry socket false
        (λ ready. ready.is_set)
        (Departures.sent departures)
        (Departures.log departures))
      (rounds timeout_ms : ℕ) (buffer : List ℕ) (w : W)
      → expiry.limit < rounds
      → writable.patience < rounds
      → Ends
          (esp_write os rounds (record { my_socket = socket }) buffer timeout_ms w)
          (Sent os expiry (os.send socket) departures (departures.sent w) (departures.log w) buffer)
  unfolding esp_write
  esp_write-Sent departures writable rounds timeout_ms buffer w h k =
      then_written os expiry socket false (λ ready. false) (λ ready. ready.is_set) (os.send socket)
        departures writable rounds (timeout_ms * 1000) (timeout_ms / os.tick_ms) buffer w h k

  -- The same of esp_ssl_write, with SSL_write for `send`, and an error on the socket as one more reason
  -- to stop.
  pub esp_ssl_write-Sent :
      (ssl : OpenSsl W) (departures : Departures os expiry ssl.ssl_write)
      (writable : Writable os expiry socket true
        (λ ready. not ready.is_error && ready.is_set)
        (Departures.sent departures)
        (Departures.log departures))
      (rounds timeout_ms : ℕ) (buffer : List ℕ) (w : W)
      → expiry.limit < rounds
      → writable.patience < rounds
      → Ends
          (esp_ssl_write os ssl rounds (record { my_socket = socket }) buffer timeout_ms w)
          (Sent os expiry ssl.ssl_write departures (departures.sent w) (departures.log w) buffer)
  unfolding esp_ssl_write
  esp_ssl_write-Sent ssl departures writable rounds timeout_ms buffer w h k =
      then_written os expiry socket true (λ ready. ready.is_error) (λ ready. ready.is_set)
        ssl.ssl_write departures writable rounds (timeout_ms * 1000) (timeout_ms / os.tick_ms)
        buffer w h k

module _ {T W : Type 0} (os : Os T W) (socket : ℤ) where
  -- With the socket in no set, select finds nothing and leaves it in none.
  abbrev pub IsBlind : Type 0
  IsBlind =
      (usec : ℕ) (w : W)
      → (let ready = (os.select_write socket false false usec w).0 in
          (is_positive ready.rc ≡ false) × ((ready.is_set ≡ false) × (ready.is_error ≡ false)))

  select_loop_hangs :
      (rounds usec : ℕ) (w : W) (a b : Bool)
      → IsBlind
      → a ≡ false
      → b ≡ false
      → select_loop os rounds socket a b usec w ≡ unfinished
  unfolding select_loop
  select_loop_hangs zero usec w a b blind p q = refl
  select_loop_hangs (suc rounds) usec w true b blind p q = absurd cc
  select_loop_hangs (suc rounds) usec w false true blind p q = absurd cc
  select_loop_hangs (suc rounds) usec w false false blind p q =
      let (none, (in_set, in_errors)) = blind usec w in
      let (ready, w1) = os.select_write socket false false usec w in
      rw (select_loop, none)
        (select_loop_hangs rounds usec w1 ready.is_set ready.is_error blind in_set in_errors)

  -- Where select finds nothing for a socket that is in no set: once the time of the first select has
  -- passed, which takes the socket out of the set, esp_write never returns, whatever happens to the
  -- socket afterwards. No number of rounds is enough.
  pub esp_write_hangs :
      (rounds timeout_ms : ℕ) (buffer : List ℕ) (w : W)
      → IsBlind
      → (let ready =
            (os.select_write socket true false (timeout_ms * 1000) (os.set_time_out_state w).1).0 in
          (is_positive ready.rc ≡ false) × ((ready.is_set ≡ false) × (ready.is_error ≡ false)))
      → esp_write os rounds (record { my_socket = socket }) buffer timeout_ms w ≡ unfinished
  unfolding esp_write select_loop
  esp_write_hangs zero timeout_ms buffer w blind h = refl
  esp_write_hangs (suc rounds) timeout_ms buffer w blind (none, (in_set, in_errors)) =
      let (ready, w1) =
        os.select_write socket true false (timeout_ms * 1000) (os.set_time_out_state w).1 in
      let stuck : select_loop os rounds socket ready.is_set ready.is_error (timeout_ms * 1000) w1
          ≡ unfinished =
        select_loop_hangs rounds (timeout_ms * 1000) w1 ready.is_set ready.is_error blind in_set
          in_errors in
      rw (esp_write, select_loop, none, stuck) refl
