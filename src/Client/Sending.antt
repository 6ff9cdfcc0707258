-- ===== src/Client/Sending.antt =====
-- What sendPacket hands to the network.
use fembed_lwip.Common.{ℕ, suc, ◌≤◌, ◌<◌, ◌≡◌, arith, pos, false, length, length-drop, take}
use fembed_lwip.Client.Run.{returned, fault}
use fembed_lwip.Client.Platform.{Platform, TimerId, last_sent}
use fembed_lwip.Client.State.{Sys, success}
use fembed_lwip.Client.Send.{send_loop, send_packet}

module _ {H W : Type 0} (p : Platform H W) where
  -- Where the timer has not expired and the network takes the whole packet, which is not empty and
  -- lies within the send buffer, in the first round, two rounds are enough: the call returns
  -- SUCCESS and restarts the timer of the last sending.
  pub send_packet_whole :
      (rounds len left : ℕ) (timer : TimerId) (s : Sys H W) (w1 w2 w3 : W)
      → 0 < len
      → len ≤ length s.client.buf
      → p.timer_is_expired timer s.world ≡ (false, w1)
      → p.timer_left_ms timer w1 ≡ (left, w2)
      → p.mqttwrite (take len s.client.buf) left w2 ≡ (pos len, w3)
      → send_packet p (suc (suc rounds)) len timer s
        ≡ returned (
          success,
          record s { world = p.timer_countdown last_sent s.client.keep_alive_interval w3 },
        )
  unfolding send_packet send_loop
  send_packet_whole rounds len left timer s w1 w2 w3 hl hb he ht hw = ground arith

  -- The network takes `n` bytes of a packet that ends with the buffer, fewer than all and more than
  -- none, and the timer has not expired in two rounds. The second round asks the network for `len`
  -- bytes again, now from the `n`-th on: the buffer is overrun.
  pub send_packet_partial :
      (rounds len n left : ℕ) (timer : TimerId) (s : Sys H W) (w1 w2 w3 w4 : W)
      → 0 < n
      → n < len
      → len ≡ length s.client.buf
      → p.timer_is_expired timer s.world ≡ (false, w1)
      → p.timer_left_ms timer w1 ≡ (left, w2)
      → p.mqttwrite (take len s.client.buf) left w2 ≡ (pos n, w3)
      → p.timer_is_expired timer w3 ≡ (false, w4)
      → send_packet p (suc (suc rounds)) len timer s ≡ fault
  unfolding send_packet send_loop
  send_packet_partial rounds len n left timer s w1 w2 w3 w4 hn hl hb he ht hw he2 =
      ground (arith, length-drop n s.client.buf)
