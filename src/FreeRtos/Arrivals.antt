-- ===== src/FreeRtos/Arrivals.antt =====
-- esp_read of paho/MQTTClient-C/src/FreeRTOS/MQTTFreeRTOS.c takes what the stream holds, in order.
use fembed_lwip.Common.{
  ℕ, zero, suc, ◌-◌, ◌*◌, ◌/◌, ◌≤◌, ◌<◌, ◌≡◌, refl, sym, ◌∙◌, ap, ◌⊎◌, inl, inr, arith, ℤ, pos,
  negsuc, List, [], ◌++◌, append_assoc, Bool, true, false, ◌&&◌, length, length-append, ltb, is_neg,
  if◌then◌else◌,
}
use fembed_lwip.Wire.Source.{Got, failed, bytes}
use fembed_lwip.Client.Run.{Run, returned, fault, unfinished}
use fembed_lwip.FreeRtos.Os.{Os}
use fembed_lwip.FreeRtos.Socket.{is_positive, recv_loop, esp_read}

-- The run returns, and what it returns satisfies `P`.
unfoldable pub Ends : {A : Type 0} → Run A → (A → Type 0) → Type 0
Ends (returned a) P = P a
Ends fault P = ⊥
Ends unfinished P = ⊥

-- A time-out that passes: `tests t ticks w` more checks of it fail, `limit` of one that was just set.
pub record Expiry {T W : Type 0} (os : Os T W) : Type 0 where
  pub limit : ℕ
  pub tests : T → ℕ → W → ℕ
  pub passes :
      (t : T) (ticks : ℕ) (w : W)
      → (os.check_for_time_out t ticks w).0 ≡ false
      → (let (over, t1, ticks1, w1) = os.check_for_time_out t ticks w in
          tests t1 ticks1 w1 < tests t ticks w)
  pub started :
      (ticks : ℕ) (w : W)
      → tests (os.set_time_out_state w).0 ticks (os.set_time_out_state w).1 ≤ limit

-- How often `recv` or `send` has failed, and how often there was a reason to stop early: a `select`
-- after which the socket cannot be used, or a time-out found over.
pub record Log : Type 0 where
  pub refusals : ℕ
  pub delays : ℕ

abbrev pub with_refusal : Log → Log
with_refusal l = record l { refusals = suc l.refusals }

abbrev pub with_delay : Log → Log
with_delay l = record l { delays = suc l.delays }

-- Of `len` bytes `n` were moved between the logs `l` and `l1`, and the result is `rc`: all of them, or
-- fewer for one reason to stop, or a call failed and the result is negative.
abbrev pub Outcome : Log → ℕ → ℕ → ℤ → Log → Type 0
Outcome l n len rc l1 =
    ((rc ≡ pos n) × ((n ≡ len) × (l1 ≡ l)))
    ⊎ (((rc ≡ pos n) × (l1 ≡ with_delay l)) ⊎ ((is_neg rc ≡ true) × (l1 ≡ with_refusal l)))

-- The stream that arrives at the socket: `pending w` are the bytes that are still to be received.
pub record Arrivals {T W : Type 0} (os : Os T W) (expiry : Expiry os) (socket : ℤ) : Type 0 where
  pub pending : W → List ℕ
  pub log : W → Log
  pub received :
      (n : ℕ) (w : W) (bs : List ℕ)
      → (os.recv socket n w).0 ≡ bytes bs
      → (length bs ≤ n)
        × ((pending w ≡ bs ++ pending (os.recv socket n w).1)
            × (log (os.recv socket n w).1 ≡ log w))
  pub refused :
      (n : ℕ) (w : W)
      → (os.recv socket n w).0 ≡ failed
      → (pending (os.recv socket n w).1 ≡ pending w)
        × (log (os.recv socket n w).1 ≡ with_refusal (log w))
  pub after_recv :
      (t : T) (ticks n : ℕ) (w : W)
      → expiry.tests t ticks (os.recv socket n w).1 ≤ expiry.tests t ticks w
  pub at_check :
      (t : T) (ticks : ℕ) (w : W)
      → (let (over, t1, ticks1, w1) = os.check_for_time_out t ticks w in
          (pending w1 ≡ pending w) × (log w1 ≡ (if over then with_delay (log w) else log w)))
  pub at_start :
      (w : W)
      → (pending (os.set_time_out_state w).1 ≡ pending w)
        × (log (os.set_time_out_state w).1 ≡ log w)
  pub at_select :
      (usec : ℕ) (w : W)
      → (let (ready, w1) = os.select_read socket usec w in
          (pending w1 ≡ pending w)
          × (log w1 ≡ (if is_positive ready.rc && ready.is_set then log w else with_delay (log w))))
  pub after_select :
      (t : T) (ticks usec : ℕ) (w : W)
      → expiry.tests t ticks (os.select_read socket usec w).1 ≤ expiry.tests t ticks w

module _ {T W : Type 0} (os : Os T W) (expiry : Expiry os) (socket : ℤ)
    (arrivals : Arrivals os expiry socket) where
  -- What was stored was taken from the front of the stream.
  abbrev pub Taken : List ℕ → Log → ℕ → ℤ × List ℕ × W → Type 0
  Taken before l len (rc, stored, w) =
      (before ≡ stored ++ arrivals.pending w)
      × ((length stored ≤ len) × Outcome l (length stored) len rc (arrivals.log w))

  abbrev StillTaken : ℕ → ℕ → List ℕ → T → ℕ → W → List ℕ → Log → Type 0
  StillTaken rounds len stored t ticks w before l =
      Ends (recv_loop os rounds socket len stored t ticks w) (Taken before l len)

  -- What holds while the loop goes on.
  abbrev IsGoing : ℕ → List ℕ → W → List ℕ → Log → Type 0
  IsGoing len stored w before l =
      (before ≡ stored ++ arrivals.pending w) × ((length stored ≤ len) × (arrivals.log w ≡ l))

  checked :
      (rounds len : ℕ) (stored : List ℕ) (t : T) (ticks : ℕ) (w : W) (before : List ℕ) (l : Log)
      (over : Bool)
      → before ≡ stored ++ arrivals.pending w
      → length stored ≤ len
      → arrivals.log w ≡ (if over then with_delay l else l)
      → (over ≡ false
          → IsGoing len stored w before l
          → StillTaken rounds len stored t ticks w before l)
      → Ends
          (elim over [
            | true ↦ returned (pos (length stored), stored, w)
            | false ↦ recv_loop os rounds socket len stored t ticks w
          ])
          (Taken before l len)
  unfolding Ends
  checked rounds len stored t ticks w before l true e h d k = (e, (h, inr (inl (refl, d))))
  checked rounds len stored t ticks w before l false e h d k = k refl (e, (h, d))

  stored_more :
      (rounds len : ℕ) (stored : List ℕ) (t : T) (ticks : ℕ) (w : W) (before : List ℕ) (l : Log)
      (more : Bool)
      → ltb (length stored) len ≡ more
      → IsGoing len stored w before l
      → (let (over, t1, ticks1, w1) = os.check_for_time_out t ticks w in
          over ≡ false
          → IsGoing len stored w1 before l
          → StillTaken rounds len stored t1 ticks1 w1 before l)
      → Ends
          (elim more [
            | false ↦ returned (pos (length stored), stored, w)
            | true ↦
                let (over, t1, ticks1, w1) = os.check_for_time_out t ticks w in
                elim over [
                  | true ↦ returned (pos (length stored), stored, w1)
                  | false ↦ recv_loop os rounds socket len stored t1 ticks1 w1
                ]
          ])
          (Taken before l len)
  unfolding Ends
  stored_more rounds len stored t ticks w before l false q (e, (h, d)) k =
      let all : length stored ≡ len = ground (arith, q, h) in (e, (h, inl (refl, (all, d))))
  stored_more rounds len stored t ticks w before l true q (e, (h, d)) k =
      let (over, t1, ticks1, w1) = os.check_for_time_out t ticks w in
      let (same, noted) = arrivals.at_check t ticks w in
      checked rounds len stored t1 ticks1 w1 before l over
        (e ∙ ap (λ (p : List ℕ). stored ++ p) (sym same)) h
        (noted ∙ ap (λ (x : Log). if over then with_delay x else x) d) k

  ready_or :
      (b : Bool) (m : Run (ℤ × List ℕ × W)) (w : W) (before : List ℕ) (l : Log) (len : ℕ)
      → before ≡ arrivals.pending w
      → arrivals.log w ≡ (if b then l else with_delay l)
      → (arrivals.log w ≡ l → Ends m (Taken before l len))
      → Ends (if b then m else returned (pos 0, [], w)) (Taken before l len)
  unfolding Ends
  ready_or true m w before l len e d h = h d
  ready_or false m w before l len e d h = (e, (omega arith, inr (inl (refl, d))))

  got_some :
      (rounds len : ℕ) (stored : List ℕ) (t : T) (ticks : ℕ) (w : W) (before : List ℕ) (l : Log)
      (got : Got)
      → (os.recv socket (len - length stored) w).0 ≡ got
      → expiry.tests t ticks w < suc rounds
      → IsGoing len stored w before l
      → ((stored1 : List ℕ) (t1 : T) (ticks1 : ℕ) (w1 : W)
          → expiry.tests t1 ticks1 w1 < rounds
          → IsGoing len stored1 w1 before l
          → StillTaken rounds len stored1 t1 ticks1 w1 before l)
      → (let w1 = (os.recv socket (len - length stored) w).1 in
          Ends
            (elim got [
              | failed ↦ returned (negsuc 0, stored, w1)
              | bytes bs ↦ elim (ltb (length (stored ++ bs)) len) [
                | false ↦ returned (pos (length (stored ++ bs)), stored ++ bs, w1)
                | true ↦
                    let (over, t1, ticks1, w2) = os.check_for_time_out t ticks w1 in
                    elim over [
                      | true ↦ returned (pos (length (stored ++ bs)), stored ++ bs, w2)
                      | false ↦ recv_loop os rounds socket len (stored ++ bs) t1 ticks1 w2
                    ]
              ]
            ])
            (Taken before l len))
  unfolding Ends
  got_some rounds len stored t ticks w before l failed q h (e, (s, d)) k =
      let (same, noted) = arrivals.refused (len - length stored) w q in
      (
        e ∙ ap (λ (p : List ℕ). stored ++ p) (sym same),
        (s, inr (inr (refl, noted ∙ ap with_refusal d))),
      )
  got_some rounds len stored t ticks w before l (bytes bs) q h (e, (s, d)) k =
      let w1 : W = (os.recv socket (len - length stored) w).1 in
      let (few, (front, noted)) = arrivals.received (len - length stored) w bs q in
      let taken : before ≡ (stored ++ bs) ++ arrivals.pending w1 =
        e
        ∙ (ap (λ (p : List ℕ). stored ++ p) front
            ∙ sym (append_assoc stored bs (arrivals.pending w1))) in
      let fits : length (stored ++ bs) ≤ len = omega (arith, length-append stored bs, few, s) in
      let (over, t1, ticks1, w2) = os.check_for_time_out t ticks w1 in
      stored_more rounds len (stored ++ bs) t ticks w1 before l (ltb (length (stored ++ bs)) len)
        refl (taken, (fits, noted ∙ d))
        (λ q2 going.
          k (stored ++ bs) t1 ticks1 w2
            (omega (
              arith,
              h,
              expiry.passes t ticks w1 q2,
              arrivals.after_recv t ticks (len - length stored) w,
            ))
            going)

  recv_loop-Taken :
      (rounds len : ℕ) (stored : List ℕ) (t : T) (ticks : ℕ) (w : W) (before : List ℕ) (l : Log)
      → expiry.tests t ticks w < rounds
      → IsGoing len stored w before l
      → StillTaken rounds len stored t ticks w before l
  unfolding recv_loop
  recv_loop-Taken zero len stored t ticks w before l h g = absurd (omega arith)
  recv_loop-Taken (suc rounds) len stored t ticks w before l h g =
      got_some rounds len stored t ticks w before l (os.recv socket (len - length stored) w).0 refl
        h g
        (λ stored1 t1 ticks1 w1 h1 g1.
          recv_loop-Taken rounds len stored1 t1 ticks1 w1 before l h1 g1)

  -- Where the time-out passes after at most `limit` checks and more rounds than that are allowed,
  -- esp_read returns. What it stored was taken from the front of the stream, no more than asked for.
  -- Either the result is the number of these bytes, and it is all that was asked for and neither recv
  -- failed nor was there a reason to stop, or there was one such reason: the socket was not ready or
  -- the time-out passed; or the result is negative and recv failed once.
  pub esp_read-Taken :
      (rounds len timeout_ms : ℕ) (w : W)
      → expiry.limit < rounds
      → Ends
          (esp_read os rounds (record { my_socket = socket }) len timeout_ms w)
          (Taken (arrivals.pending w) (arrivals.log w) len)
  unfolding esp_read
  esp_read-Taken rounds len timeout_ms w h =
      let (t, w1) = os.set_time_out_state w in
      let (ready, w2) = os.select_read socket (timeout_ms * 1000) w1 in
      let ticks = timeout_ms / os.tick_ms in
      let b : Bool = is_positive ready.rc && ready.is_set in
      let (start, start_log) = arrivals.at_start w in
      let (waited, waited_log) = arrivals.at_select (timeout_ms * 1000) w1 in
      let same : arrivals.pending w ≡ arrivals.pending w2 = sym (waited ∙ start) in
      let noted : arrivals.log w2 ≡ (if b then arrivals.log w else with_delay (arrivals.log w)) =
        waited_log ∙ ap (λ (x : Log). if b then x else with_delay x) start_log in
      ready_or b _ w2 (arrivals.pending w) (arrivals.log w) len same noted (λ d.
        recv_loop-Taken rounds len [] t ticks w2 (arrivals.pending w) (arrivals.log w)
          (omega (
            arith,
            h,
            expiry.started ticks w,
            arrivals.after_select t ticks (timeout_ms * 1000) w1,
          ))
          (same, (omega arith, d)))
