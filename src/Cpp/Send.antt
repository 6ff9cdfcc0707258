-- ===== src/Cpp/Send.antt =====
-- sendPacket and keepalive of paho/MQTTClient/src/MQTTClient.h.
use fembed_lwip.Common.{
  ℕ, zero, suc, ◌+◌, ◌-◌, ℤ, pos, negsuc, List, true, false, none, some, drop, ltb, ◌==◌,
  if◌then◌else◌, eq_ℤ,
}
use fembed_lwip.Packet.Short.{serialize_pingreq}
use fembed_lwip.Client.Run.{Run, returned, fault, unfinished, lift, ◌>>=◌}
use fembed_lwip.Client.State.{success, failure}
use fembed_lwip.Client.Topics.{slice}
use fembed_lwip.Cpp.Platform.{Platform, TimerId, last_received, ping_timer}
use fembed_lwip.Cpp.State.{Config, Sys}

module _ {H W : Type 0} (g : Config) (p : Platform H W) where
  -- The loop; the bytes that were sent. What is left is taken from `&sendbuf[sent]` on.
  unfoldable pub send_loop : ℕ → ℕ → ℕ → TimerId → List ℕ → W → Run (ℕ × W)
  send_loop zero length sent timer buf w = unfinished
  send_loop (suc rounds) length sent timer buf w = elim (ltb sent length) [
    | false ↦ returned (sent, w)
    | true ↦
        let (over, w1) = p.expired timer w in
        elim over [
          | true ↦ returned (sent, w1)
          | false ↦
              let (left, w2) = p.left_ms timer w1 in
              elim (slice (length - sent) (drop sent buf)) [
                | none ↦ fault
                | some bs ↦
                    let (rc, w3) = p.write bs left w2 in
                    elim rc [
                      | negsuc n ↦ returned (sent, w3)
                      | pos n ↦ send_loop rounds length (sent + n) timer buf w3
                    ]
              ]
        ]
  ]

  unfoldable pub send_packet : ℕ → ℕ → TimerId → Sys H W → Run (ℤ × Sys H W)
  send_packet rounds length timer s = do
    (sent, w) ← send_loop rounds length 0 timer s.client.sendbuf s.world
    returned (if sent == length then success else failure, record s { world = w })

  -- The ping is sent if it was serialised.
  unfoldable pub send_ping : ℕ → Sys H W → Run (ℤ × Sys H W)
  send_ping rounds s = do
    (len, buf) ← lift (serialize_pingreq s.client.sendbuf g.max_mqtt_packet_size)
    let s1 = record s { client = record s.client { sendbuf = buf } }
    elim len [
      | negsuc n ↦ returned (success, s1)
      | pos n ↦
          if ltb 0 n
          then (send_packet rounds n ping_timer s1 >>= λ (rc, s2).
              if eq_ℤ rc success
              then returned (
                rc,
                record {
                  client = record s2.client { ping_outstanding = s2.client.ping_outstanding + 1 };
                  world = p.countdown last_received 15 s2.world;
                },
              )
              else returned (rc, s2))
          else returned (success, s1)
    ]

  unfoldable pub keepalive : ℕ → Sys H W → Run (ℤ × Sys H W)
  keepalive rounds s =
      if s.client.keep_alive_interval == 0
      then returned (success, s)
      else let (due, w) = p.expired last_received s.world in
        if due
        then (if ltb 5 s.client.ping_outstanding
            then returned (failure, record s { world = w })
            else send_ping rounds (record s { world = p.timer_of_ms ping_timer 1000 w }))
        else returned (success, record s { world = w })
