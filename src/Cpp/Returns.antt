-- ===== src/Cpp/Returns.antt =====
-- Where timers expire, the loops of paho/MQTTClient/src/MQTTClient.h end.
use fembed_lwip.Common.{
  ℕ, zero, suc, ◌+◌, ◌-◌, ◌*◌, ◌/◌, ◌%◌, ◌≤◌, ◌<◌, ◌≡◌, refl, arith, ℤ, pos, negsuc, List, [], ◌∷◌,
  Bool, true, false, Option, none, some, drop, ltb, ◌==◌,
}
use fembed_lwip.Wire.Source.{Got, failed, bytes}
use fembed_lwip.Wire.Length.{packet_decode, decode_loop, max_no_of_remaining_length_bytes}
use fembed_lwip.Client.Run.{Run, returned, fault}
use fembed_lwip.Client.Topics.{slice}
use fembed_lwip.Cpp.Platform.{Platform}
use fembed_lwip.Cpp.State.{Config, Sys}
use fembed_lwip.Cpp.Send.{send_loop, send_packet}
use fembed_lwip.Cpp.Receive.{decode_packet}
use fembed_lwip.Cpp.Clock.{
  Completes, Deadline, timer_of, Clock, completes_bind, completes_weaken, Gives, Within,
  Within-after,
}

module _ {H W : Type 0} (g : Config) (p : Platform H W) (clock : Clock p) where
  abbrev pub SentWithin : W → Run (ℕ × W) → Type 0
  SentWithin w m = Completes m (λ (sent, w1). Within p clock w w1)

  wrote :
      (rounds length sent : ℕ) (d : Deadline) (buf : List ℕ) (rc : ℤ) (w w3 : W)
      → Within p clock w w3
      → ((n : ℕ) → SentWithin w3 (send_loop g p rounds length (sent + n) (timer_of d) buf w3))
      → SentWithin w (elim rc [
        | negsuc n ↦ returned (sent, w3)
        | pos n ↦ send_loop g p rounds length (sent + n) (timer_of d) buf w3
      ])
  unfolding Completes
  wrote rounds length sent d buf (negsuc n) w w3 h k = h
  wrote rounds length sent d buf (pos n) w w3 h k =
      completes_weaken _ _ (send_loop g p rounds length (sent + n) (timer_of d) buf w3) (k n)
        (λ (m, w4) e. Within-after p clock w w3 w4 h e)

  sliced :
      (rounds length sent left : ℕ) (d : Deadline) (buf : List ℕ) (part : Option (List ℕ))
      (w w2 : W)
      → Within p clock w w2
      → ((n : ℕ) (w3 : W)
          → Within p clock w2 w3
          → SentWithin w3 (send_loop g p rounds length (sent + n) (timer_of d) buf w3))
      → SentWithin w (elim part [
        | none ↦ fault
        | some bs ↦
            let (rc, w3) = p.write bs left w2 in
            elim rc [
              | negsuc n ↦ returned (sent, w3)
              | pos n ↦ send_loop g p rounds length (sent + n) (timer_of d) buf w3
            ]
      ])
  unfolding Completes
  sliced rounds length sent left d buf none w w2 h k = tt
  sliced rounds length sent left d buf (some bs) w w2 h k =
      let w3 : W = (p.write bs left w2).1 in
      let later : Within p clock w2 w3 = λ d1. clock.after_write d1 bs left w2 in
      wrote rounds length sent d buf (p.write bs left w2).0 w w3
        (Within-after p clock w w2 w3 h later) (λ n. k n w3 later)

  tried :
      (rounds length sent : ℕ) (d : Deadline) (buf : List ℕ) (more over : Bool) (w : W)
      → let w1 = (p.expired (timer_of d) w).1 in
        let (left, w2) = p.left_ms (timer_of d) w1 in
        (over ≡ false
          → (n : ℕ) (w3 : W) → Within p clock w1 w3
          → SentWithin w3 (send_loop g p rounds length (sent + n) (timer_of d) buf w3))
        → SentWithin w (elim more [
          | false ↦ returned (sent, w)
          | true ↦ elim over [
            | true ↦ returned (sent, w1)
            | false ↦ elim (slice (length - sent) (drop sent buf)) [
              | none ↦ fault
              | some bs ↦
                  let (rc, w3) = p.write bs left w2 in
                  elim rc [
                    | negsuc n ↦ returned (sent, w3)
                    | pos n ↦ send_loop g p rounds length (sent + n) (timer_of d) buf w3
                  ]
            ]
          ]
        ])
  unfolding Completes
  tried rounds length sent d buf false over w k = λ d1. omega arith
  tried rounds length sent d buf true true w k = λ d1. clock.after_expired d1 (timer_of d) w
  tried rounds length sent d buf true false w k =
      let w1 : W = (p.expired (timer_of d) w).1 in
      let w2 : W = (p.left_ms (timer_of d) w1).1 in
      let first : Within p clock w w1 = λ d1. clock.after_expired d1 (timer_of d) w in
      let second : Within p clock w1 w2 = λ d1. clock.after_left_ms d1 (timer_of d) w1 in
      sliced rounds length sent (p.left_ms (timer_of d) w1).0 d buf
        (slice (length - sent) (drop sent buf)) w w2 (Within-after p clock w w1 w2 first second)
        (λ n w3 later. k refl n w3 (Within-after p clock w1 w2 w3 second later))

  -- More rounds than the timer allows tests are enough.
  pub send_loop-Completes :
      (rounds length sent : ℕ) (d : Deadline) (buf : List ℕ) (w : W)
      → clock.ticks d w < rounds
      → SentWithin w (send_loop g p rounds length sent (timer_of d) buf w)
  unfolding Completes send_loop
  send_loop-Completes zero length sent d buf w h = absurd (omega arith)
  send_loop-Completes (suc rounds) length sent d buf w h =
      tried rounds length sent d buf (ltb sent length) (p.expired (timer_of d) w).0 w (λ e n w3 k.
        send_loop-Completes rounds length (sent + n) d buf w3 (
          let t : clock.ticks d w3 ≤ clock.ticks d (p.expired (timer_of d) w).1 = k d in
          let u : clock.ticks d (p.expired (timer_of d) w).1 < clock.ticks d w =
            clock.passes d w e in
          omega arith))

  abbrev pub StateWithin : W → Run (ℤ × Sys H W) → Type 0
  StateWithin w m = Completes m (λ (rc, s). Within p clock w s.world)

  pub send_packet-Completes :
      (rounds length : ℕ) (d : Deadline) (s : Sys H W)
      → clock.ticks d s.world < rounds
      → StateWithin s.world (send_packet g p rounds length (timer_of d) s)
  unfolding send_packet Completes
  send_packet-Completes rounds length d s h =
      completes_bind _ _ (send_loop g p rounds length 0 (timer_of d) s.client.sendbuf s.world) _
        (send_loop-Completes rounds length 0 d s.client.sendbuf s.world h) (λ (sent, w) k. k)

  abbrev DecodedWithin : W → Option (ℕ × ℕ × W) → Type 0
  DecodedWithin w m = Gives m (λ (len, value, v). Within p clock w v)

  abbrev network : ℕ → ℕ → W → Option (Got × W)
  network timeout n v = some (p.read n timeout v)

  gives_later :
      (w w1 : W) (m : Option (ℕ × ℕ × W))
      → Within p clock w w1
      → DecodedWithin w1 m
      → DecodedWithin w m
  unfolding Gives
  gives_later w w1 none h k = tt
  gives_later w w1 (some (len, value, v)) h k = Within-after p clock w w1 v h k

  decoded :
      (over : Bool) (got : Got) (len value multiplier : ℕ) (w w1 : W)
      (again : ℕ → Option (ℕ × ℕ × W))
      → Within p clock w w1
      → ((b : ℕ) → DecodedWithin w (again b))
      → DecodedWithin w (elim over [
        | true ↦ some (len + 1, value, w)
        | false ↦ elim got [
          | bytes (b ∷ []) ↦ elim (b / 128 % 2 == 1) [
            | true ↦ again b
            | false ↦ some (len + 1, value + b % 128 * multiplier, w1)
          ]
          | _ ↦ some (len + 1, value, w1)
        ]
      ])
  unfolding Gives
  decoded true got len value multiplier w w1 again h k = λ d. omega arith
  decoded false failed len value multiplier w w1 again h k = h
  decoded false (bytes []) len value multiplier w w1 again h k = h
  decoded false (bytes (b ∷ [])) len value multiplier w w1 again h k = on (b / 128 % 2 == 1)
    where
      on :
          (t : Bool)
          → DecodedWithin w
              (elim t [ true ↦ again b | false ↦ some (len + 1, value + b % 128 * multiplier, w1) ])
      on true = k b
      on false = h
  decoded false (bytes (b ∷ c ∷ bs)) len value multiplier w w1 again h k = h

  decode_loop_within :
      (fuel timeout len value multiplier : ℕ) (w : W)
      → DecodedWithin w (decode_loop (network timeout) fuel len value multiplier w)
  unfolding decode_loop Gives
  decode_loop_within zero timeout len value multiplier w = tt
  decode_loop_within (suc fuel) timeout len value multiplier w =
      decoded (ltb max_no_of_remaining_length_bytes (len + 1)) (p.read 1 timeout w).0 len value
        multiplier w (p.read 1 timeout w).1
        (λ b.
          decode_loop (network timeout) fuel (len + 1) (value + b % 128 * multiplier)
            (multiplier * 128) (p.read 1 timeout w).1)
        (λ d. clock.after_read d 1 timeout w)
        (λ b.
          gives_later w _ _ (λ d. clock.after_read d 1 timeout w)
            (decode_loop_within fuel timeout (len + 1) (value + b % 128 * multiplier)
              (multiplier * 128) (p.read 1 timeout w).1))

  abbrev pub ValueWithin : W → Option (ℕ × W) → Type 0
  ValueWithin w m = Gives m (λ (value, v). Within p clock w v)

  pub decode_packet_within : (timeout : ℕ) (w : W) → ValueWithin w (decode_packet g p timeout w)
  unfolding decode_packet packet_decode
  decode_packet_within timeout w =
      value_of (decode_loop (network timeout) 5 0 0 1 w) (decode_loop_within 5 timeout 0 0 1 w)
    where
      value_of :
          (m : Option (ℕ × ℕ × W))
          → DecodedWithin w m
          → ValueWithin w (elim m [ none ↦ none | some (_, value, v) ↦ some (value, v) ])
      value_of none h = unfold Gives in tt
      value_of (some (len, value, v)) h = unfold Gives in h
