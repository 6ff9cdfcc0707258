-- ===== src/FreeRtos/Departures.antt =====
-- esp_write of paho/MQTTClient-C/src/FreeRTOS/MQTTFreeRTOS.c sends from the front of the buffer.
use fembed_lwip.Common.{
  take-take-drop, ℕ, zero, suc, ◌+◌, ◌≤◌, ◌<◌, ◌≡◌, refl, ◌∙◌, ap, inl, inr, arith, ℤ, pos, negsuc,
  List, ◌++◌, append_assoc, Bool, true, false, not, ◌&&◌, if◌then◌else◌, length, take, drop,
  length-drop, ltb,
}
use fembed_lwip.Client.Run.{returned}
use fembed_lwip.FreeRtos.Os.{Os, Ready}
use fembed_lwip.FreeRtos.Socket.{is_positive, write_loop}
use fembed_lwip.FreeRtos.Arrivals.{Ends, Expiry, Log, with_refusal, with_delay, Outcome}

-- The stream that leaves: `sent w` are the bytes that `send` has taken so far.
pub record Departures {T W : Type 0} (os : Os T W) (expiry : Expiry os) (send : List ℕ → W → ℤ × W)
    : Type 0 where
  pub sent : W → List ℕ
  pub log : W → Log
  pub accepted :
      (bs : List ℕ) (n : ℕ) (w : W)
      → (send bs w).0 ≡ pos n
      → (n ≤ length bs) × ((sent (send bs w).1 ≡ sent w ++ take n bs) × (log (send bs w).1 ≡ log w))
  pub refused :
      (bs : List ℕ) (n : ℕ) (w : W)
      → (send bs w).0 ≡ negsuc n
      → (sent (send bs w).1 ≡ sent w) × (log (send bs w).1 ≡ with_refusal (log w))
  pub after_send :
      (t : T) (ticks : ℕ) (bs : List ℕ) (w : W)
      → expiry.tests t ticks (send bs w).1 ≤ expiry.tests t ticks w
  pub at_check :
      (t : T) (ticks : ℕ) (w : W)
      → (let (over, t1, ticks1, w1) = os.check_for_time_out t ticks w in
          (sent w1 ≡ sent w) × (log w1 ≡ (if over then with_delay (log w) else log w)))
  pub at_start :
      (w : W)
      → (sent (os.set_time_out_state w).1 ≡ sent w) × (log (os.set_time_out_state w).1 ≡ log w)

-- The socket, in the set for writing and, where `errors`, in that of errors, is found ready by `select`
-- before its time is over, after it has failed `patience` times at most: when it fails it leaves the
-- sets. `usable` tells what the code goes on with.
pub record Writable {T W : Type 0} (os : Os T W) (expiry : Expiry os) (socket : ℤ) (errors : Bool)
    (usable : Ready → Bool) (sent : W → List ℕ) (log : W → Log) : Type 0 where
  pub patience : ℕ
  pub waits : W → ℕ
  pub waits_bound : (w : W) → waits w ≤ patience
  pub not_ready :
      (usec : ℕ) (w : W)
      → (let (ready, w1) = os.select_write socket true errors usec w in
          is_positive ready.rc ≡ false
          → (waits w1 < waits w) × ((ready.is_set ≡ true) × (ready.is_error ≡ errors)))
  pub at_select :
      (usec : ℕ) (w : W)
      → (let (ready, w1) = os.select_write socket true errors usec w in
          (sent w1 ≡ sent w)
          × (log w1
              ≡ (if is_positive ready.rc && not (usable ready) then with_delay (log w) else log w)))
  pub after_select :
      (t : T) (ticks usec : ℕ) (w : W)
      → expiry.tests t ticks (os.select_write socket true errors usec w).1 ≤ expiry.tests t ticks w

module _ {T W : Type 0} (os : Os T W) (expiry : Expiry os) (send : List ℕ → W → ℤ × W)
    (departures : Departures os expiry send) where
  -- The first `m` bytes of the buffer were sent.
  abbrev pub Sent : List ℕ → Log → List ℕ → ℤ × W → Type 0
  Sent before l buffer (rc, w) =
      (m : ℕ) × ((m ≤ length buffer)
        × ((departures.sent w ≡ before ++ take m buffer)
            × Outcome l m (length buffer) rc (departures.log w)))

  abbrev StillSent : ℕ → List ℕ → ℕ → T → ℕ → W → List ℕ → Log → Type 0
  StillSent rounds buffer sent t ticks w before l =
      Ends (write_loop os rounds send buffer sent t ticks w) (Sent before l buffer)

  -- What holds while the loop goes on.
  abbrev pub IsSending : List ℕ → ℕ → W → List ℕ → Log → Type 0
  IsSending buffer sent w before l =
      (sent ≤ length buffer)
      × ((departures.sent w ≡ before ++ take sent buffer) × (departures.log w ≡ l))

  checked :
      (rounds sent : ℕ) (buffer : List ℕ) (t : T) (ticks : ℕ) (w : W) (before : List ℕ) (l : Log)
      (over : Bool)
      → sent ≤ length buffer
      → departures.sent w ≡ before ++ take sent buffer
      → departures.log w ≡ (if over then with_delay l else l)
      → (over ≡ false
          → IsSending buffer sent w before l
          → StillSent rounds buffer sent t ticks w before l)
      → Ends
          (elim over [
            | true ↦ returned (pos sent, w)
            | false ↦ write_loop os rounds send buffer sent t ticks w
          ])
          (Sent before l buffer)
  unfolding Ends
  checked rounds sent buffer t ticks w before l true h e d k = (sent, (h, (e, inr (inl (refl, d)))))
  checked rounds sent buffer t ticks w before l false h e d k = k refl (h, (e, d))

  more :
      (rounds sent : ℕ) (buffer : List ℕ) (t : T) (ticks : ℕ) (w : W) (before : List ℕ) (l : Log)
      (left : Bool)
      → ltb sent (length buffer) ≡ left
      → IsSending buffer sent w before l
      → (let (over, t1, ticks1, w1) = os.check_for_time_out t ticks w in
          over ≡ false
          → IsSending buffer sent w1 before l
          → StillSent rounds buffer sent t1 ticks1 w1 before l)
      → Ends
          (elim left [
            | false ↦ returned (pos sent, w)
            | true ↦
                let (over, t1, ticks1, w1) = os.check_for_time_out t ticks w in
                elim over [
                  | true ↦ returned (pos sent, w1)
                  | false ↦ write_loop os rounds send buffer sent t1 ticks1 w1
                ]
          ])
          (Sent before l buffer)
  unfolding Ends
  more rounds sent buffer t ticks w before l false q (h, (e, d)) k =
      let all : sent ≡ length buffer = ground (arith, q, h) in
      (sent, (h, (e, inl (refl, (all, d)))))
  more rounds sent buffer t ticks w before l true q (h, (e, d)) k =
      let (over, t1, ticks1, w1) = os.check_for_time_out t ticks w in
      let (same, noted) = departures.at_check t ticks w in
      checked rounds sent buffer t1 ticks1 w1 before l over h (same ∙ e)
        (noted ∙ ap (λ (x : Log). if over then with_delay x else x) d) k

  sent_some :
      (rounds sent : ℕ) (buffer : List ℕ) (t : T) (ticks : ℕ) (w : W) (before : List ℕ) (l : Log)
      (rc : ℤ)
      → (send (drop sent buffer) w).0 ≡ rc
      → expiry.tests t ticks w < suc rounds
      → IsSending buffer sent w before l
      → ((sent1 : ℕ) (t1 : T) (ticks1 : ℕ) (w1 : W)
          → expiry.tests t1 ticks1 w1 < rounds
          → IsSending buffer sent1 w1 before l
          → StillSent rounds buffer sent1 t1 ticks1 w1 before l)
      → (let w1 = (send (drop sent buffer) w).1 in
          Ends
            (elim rc [
              | negsuc n ↦ returned (negsuc n, w1)
              | pos n ↦ elim (ltb (sent + n) (length buffer)) [
                | false ↦ returned (pos (sent + n), w1)
                | true ↦
                    let (over, t1, ticks1, w2) = os.check_for_time_out t ticks w1 in
                    elim over [
                      | true ↦ returned (pos (sent + n), w2)
                      | false ↦ write_loop os rounds send buffer (sent + n) t1 ticks1 w2
                    ]
              ]
            ])
            (Sent before l buffer))
  unfolding Ends
  sent_some rounds sent buffer t ticks w before l (negsuc n) q h (s, (e, d)) k =
      let (same, noted) = departures.refused (drop sent buffer) n w q in
      (sent, (s, (same ∙ e, inr (inr (refl, noted ∙ ap with_refusal d)))))
  sent_some rounds sent buffer t ticks w before l (pos n) q h (s, (e, d)) k =
      let w1 : W = (send (drop sent buffer) w).1 in
      let (few, (front, noted)) = departures.accepted (drop sent buffer) n w q in
      let fits : sent + n ≤ length buffer = omega (arith, few, s, length-drop sent buffer) in
      let taken : departures.sent w1 ≡ before ++ take (sent + n) buffer =
        front
        ∙ (ap (λ (p : List ℕ). p ++ take n (drop sent buffer)) e
            ∙ (append_assoc before (take sent buffer) (take n (drop sent buffer))
                ∙ ap (λ (p : List ℕ). before ++ p) (take-take-drop sent n buffer))) in
      let (over, t1, ticks1, w2) = os.check_for_time_out t ticks w1 in
      more rounds (sent + n) buffer t ticks w1 before l (ltb (sent + n) (length buffer)) refl
        (fits, (taken, noted ∙ d))
        (λ q2 going.
          k (sent + n) t1 ticks1 w2
            (omega (
              arith,
              h,
              expiry.passes t ticks w1 q2,
              departures.after_send t ticks (drop sent buffer) w,
            ))
            going)

  pub write_loop-Sent :
      (rounds sent : ℕ) (buffer : List ℕ) (t : T) (ticks : ℕ) (w : W) (before : List ℕ) (l : Log)
      → expiry.tests t ticks w < rounds
      → IsSending buffer sent w before l
      → StillSent rounds buffer sent t ticks w before l
  unfolding write_loop
  write_loop-Sent zero sent buffer t ticks w before l h g = absurd (omega arith)
  write_loop-Sent (suc rounds) sent buffer t ticks w before l h g =
      sent_some rounds sent buffer t ticks w before l (send (drop sent buffer) w).0 refl h g
        (λ sent1 t1 ticks1 w1 h1 g1.
          write_loop-Sent rounds sent1 buffer t1 ticks1 w1 before l h1 g1)
