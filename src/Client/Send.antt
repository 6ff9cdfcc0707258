-- ===== src/Client/Send.antt =====
-- sendPacket and keepalive of paho/MQTTClient-C/src/MQTTClient.c.
use fembed_lwip.Common.{
  ℕ, zero, suc, ◌+◌, ℤ, pos, negsuc, List, Bool, true, false, none, some, drop, ltb, ◌==◌,
  if◌then◌else◌, eq_ℤ,
}
use fembed_lwip.Packet.Short.{serialize_pingreq}
use fembed_lwip.Client.Run.{Run, returned, fault, unfinished, lift, ◌>>=◌}
use fembed_lwip.Client.Platform.{Platform, TimerId, last_sent, last_received, ping_timer}
use fembed_lwip.Client.State.{Sys, success, failure}
use fembed_lwip.Client.Topics.{slice}

module _ {H W : Type 0} (p : Platform H W) where
  -- `mqttwrite` is handed `len` bytes from `&c->buf[sent]` on in every round; a buffer that ends
  -- before them is overrun.
  unfoldable pub send_loop : ℕ → ℕ → ℕ → TimerId → List ℕ → W → Run (ℕ × W)
  send_loop zero len sent timer buf w = unfinished
  send_loop (suc rounds) len sent timer buf w = elim (ltb sent len) [
    | false ↦ returned (sent, w)
    | true ↦
        let (expired, w1) = p.timer_is_expired timer w in
        elim expired [
          | true ↦ returned (sent, w1)
          | false ↦
              let (left, w2) = p.timer_left_ms timer w1 in
              elim (slice len (drop sent buf)) [
                | none ↦ fault
                | some bs ↦
                    let (rc, w3) = p.mqttwrite bs left w2 in
                    elim rc [
                      | negsuc n ↦ returned (sent, w3)
                      | pos n ↦ send_loop rounds len (sent + n) timer buf w3
                    ]
              ]
        ]
  ]

  unfoldable pub send_packet : ℕ → ℕ → TimerId → Sys H W → Run (ℤ × Sys H W)
  send_packet rounds len timer s = do
    (sent, w) ← send_loop rounds len 0 timer s.client.buf s.world
    if sent == len
        then returned (
          success,
          record s { world = p.timer_countdown last_sent s.client.keep_alive_interval w },
        )
        else returned (failure, record s { world = w })

  -- `TimerIsExpired(&c->last_sent) || TimerIsExpired(&c->last_received)`
  unfoldable pub ping_due : W → Bool × W
  ping_due w =
      let (sent_expired, w1) = p.timer_is_expired last_sent w in
      if sent_expired then (true, w1) else p.timer_is_expired last_received w1

  -- The ping is sent if it was serialised.
  unfoldable pub send_ping : ℕ → Sys H W → Run (ℤ × Sys H W)
  send_ping rounds s = do
    (len, buf) ← lift (serialize_pingreq s.client.buf s.client.buf_size)
    let s1 = record s { client = record s.client { buf = buf } }
    elim len [
      | negsuc n ↦ returned (success, s1)
      | pos n ↦
          if ltb 0 n
          then (send_packet rounds n ping_timer s1 >>= λ (rc, s2).
              if eq_ℤ rc success
              then returned
                  (rc, record s2 { client = record s2.client { ping_outstanding = true } })
              else returned (rc, s2))
          else returned (success, s1)
    ]

  unfoldable pub keepalive : ℕ → Sys H W → Run (ℤ × Sys H W)
  keepalive rounds s =
      if s.client.keep_alive_interval == 0
      then returned (success, s)
      else let (due, w) = ping_due s.world in
        if due
        then (if s.client.ping_outstanding
            then returned (failure, record s { world = w })
            else send_ping rounds (record s {
              world = p.timer_countdown_ms ping_timer 1000 (p.timer_init ping_timer w);
            }))
        else returned (success, record s { world = w })
