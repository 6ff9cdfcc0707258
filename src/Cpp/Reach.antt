-- ===== src/Cpp/Reach.antt =====
-- The states that the calls of paho/MQTTClient/src/MQTTClient.h lead to.
use fembed_lwip.Common.{
  ℕ, zero, suc, ℤ, pos, negsuc, Bool, true, false, ◌&&◌, ◌||◌, ltb, ◌==◌, if◌then◌else◌, eq_ℤ,
  is_neg,
}
use fembed_lwip.Packet.MsgType
use fembed_lwip.Packet.Ack.{serialize_ack, deserialize_ack}
use fembed_lwip.Packet.Connack.{deserialize_connack}
use fembed_lwip.Client.Run.{Run, returned, lift, ◌>>=◌}
use fembed_lwip.Client.State.{success, failure}
use fembed_lwip.Cpp.Platform.{Platform, call_timer}
use fembed_lwip.Cpp.State.{Config, Client, Sys}
use fembed_lwip.Cpp.Send.{send_packet}
use fembed_lwip.Cpp.Cycle.{cycle, yield_loop, wait_loop, waitfor}
use fembed_lwip.Cpp.Calls.{
  after_reply, read_ack, await_publish, publish_serialized, read_connack, resend,
}
use fembed_lwip.Cpp.Ensures.{
  ensures_returned, ensures_bind, ensures_any, ensures_if, ensures_unfinished,
}
use fembed_lwip.Cpp.Sound.{IsSound, Keeps, send_packet-Keeps, with_sendbuf-IsSound}
use fembed_lwip.Cpp.Keeps.{cycle-Keeps}

module _ {H W : Type 0} (g : Config) (p : Platform H W) where
  yielded :
      (turns rounds : ℕ) (rc : ℤ) (s : Sys H W)
      → IsSound g s.client
      → Keeps g p (yield_loop g p turns rounds s)
      → Keeps g p (elim (is_neg rc) [
        | true ↦ returned (failure, s)
        | false ↦ yield_loop g p turns rounds s
      ])
  yielded turns rounds (negsuc n) s i k = ensures_returned _ _ i
  yielded turns rounds (pos n) s i k = k

  -- A loop that ends when its timer has expired, or else goes on with a cycle.
  unless_over :
      (over : Bool) (rc : ℤ) (s : Sys H W) (rounds : ℕ) (next : ℤ × Sys H W → Run (ℤ × Sys H W))
      → IsSound g s.client
      → ((rc1 : ℤ) (s1 : Sys H W) → IsSound g s1.client → Keeps g p (next (rc1, s1)))
      → Keeps g p (elim over [ true ↦ returned (rc, s) | false ↦ cycle g p rounds s >>= next ])
  unless_over true rc s rounds next i k = ensures_returned _ _ i
  unless_over false rc s rounds next i k =
      ensures_bind _ _ (cycle g p rounds s) _ (cycle-Keeps g p rounds s i)
        (λ (rc1, s1) j. k rc1 s1 j)

  pub yield_loop-Keeps :
      (turns rounds : ℕ) (s : Sys H W)
      → IsSound g s.client
      → Keeps g p (yield_loop g p turns rounds s)
  unfolding yield_loop
  yield_loop-Keeps zero rounds s i = ensures_unfinished _
  yield_loop-Keeps (suc turns) rounds s i =
      unless_over (p.expired call_timer s.world).0 success _ rounds _ i
        (λ rc s2 j. yielded turns rounds rc s2 j (yield_loop-Keeps turns rounds s2 j))

  waited :
      (done : Bool) (turns rounds packet_type : ℕ) (rc : ℤ) (s : Sys H W)
      → IsSound g s.client
      → Keeps g p (wait_loop g p turns rounds packet_type rc s)
      → Keeps g p (elim done [
        | true ↦ returned (rc, s)
        | false ↦ wait_loop g p turns rounds packet_type rc s
      ])
  waited true turns rounds packet_type rc s i k = ensures_returned _ _ i
  waited false turns rounds packet_type rc s i k = k

  wait_loop-Keeps :
      (turns rounds packet_type : ℕ) (rc : ℤ) (s : Sys H W)
      → IsSound g s.client
      → Keeps g p (wait_loop g p turns rounds packet_type rc s)
  unfolding wait_loop
  wait_loop-Keeps zero rounds packet_type rc s i = ensures_unfinished _
  wait_loop-Keeps (suc turns) rounds packet_type rc s i =
      unless_over (p.expired call_timer s.world).0 rc _ rounds _ i (λ rc1 s1 j.
        waited (eq_ℤ rc1 (pos packet_type) || is_neg rc1) turns rounds packet_type rc1 s1 j
          (wait_loop-Keeps turns rounds packet_type rc1 s1 j))

  -- A function of the state keeps the invariant.
  abbrev pub KeepsAll : (Sys H W → Run (ℤ × Sys H W)) → Type 0
  KeepsAll f = (s : Sys H W) → IsSound g s.client → Keeps g p (f s)

  pub after_reply-Keeps :
      (turns rounds packet_type : ℕ) (rest : Sys H W → Run (ℤ × Sys H W))
      → KeepsAll rest
      → KeepsAll (after_reply g p turns rounds packet_type rest)
  unfolding after_reply waitfor
  after_reply-Keeps turns rounds packet_type rest k s i =
      ensures_bind _ _ (wait_loop g p turns rounds packet_type failure s) _
        (wait_loop-Keeps turns rounds packet_type failure s i)
        (λ (rc, s1) j.
          ensures_if _ (eq_ℤ rc (pos packet_type)) _ _ (k s1 j) (ensures_returned _ _ j))

  pub when_sent-Keeps :
      (m : Run (ℤ × Sys H W)) (rest : Sys H W → Run (ℤ × Sys H W))
      → Keeps g p m
      → KeepsAll rest
      → Keeps g p (m >>= λ (rc, s). if eq_ℤ rc success then rest s else returned (rc, s))
  when_sent-Keeps m rest h k =
      ensures_bind _ _ m _ h
        (λ (rc, s) i. ensures_if _ (eq_ℤ rc success) _ _ (k s i) (ensures_returned _ _ i))

  done_with :
      (t : Bool) (s : Sys H W) (c : Client H)
      → IsSound g s.client
      → IsSound g c
      → Keeps g p (if t then returned (success, record s { client = c }) else returned (success, s))
  done_with true s c i j = ensures_returned _ _ j
  done_with false s c i j = ensures_returned _ _ i

  flight_over : (c : Client H) → IsSound g c → IsSound g (record c { inflight_msgid = 0 })
  flight_over c i = record {
    unique = i.unique;
    slots = i.slots;
    pings = i.pings;
    number = i.number;
  }

  read_ack-Keeps : KeepsAll (read_ack g p)
  unfolding read_ack
  read_ack-Keeps s i =
      let x = p.indeterminate in
      ensures_any _
        (lift (deserialize_ack (record { packettype = x; dup = x; packetid = x }) s.client.readbuf))
        _
        (λ (rc, out).
          ensures_if _ (eq_ℤ rc (pos 1)) _ _
            (done_with (s.client.inflight_msgid == out.packetid) s _ i (flight_over s.client i))
            (ensures_returned _ _ i))

  pub publish_serialized-Keeps :
      (turns rounds len qos : ℕ) → KeepsAll (publish_serialized g p turns rounds len qos)
  unfolding publish_serialized await_publish
  publish_serialized-Keeps turns rounds len qos s i =
      when_sent-Keeps (send_packet g p rounds len call_timer s) _
        (send_packet-Keeps g p rounds len call_timer s i)
        (λ s1 j.
          ensures_if _ (qos == 1) _ _
            (after_reply-Keeps turns rounds MsgType.puback _ read_ack-Keeps s1 j)
            (ensures_if _ (g.qos2 && qos == 2) _ _
              (after_reply-Keeps turns rounds MsgType.pubcomp _ read_ack-Keeps s1 j)
              (ensures_returned _ _ j)))

  pub read_connack-Keeps : KeepsAll (read_connack g p)
  unfolding read_connack
  read_connack-Keeps s i =
      ensures_any _
        (lift
          (deserialize_connack (record { session_present = 0; connack_rc = 0 }) s.client.readbuf))
        _ (λ (rc, out). ensures_returned _ _ i)

  release_again :
      (turns rounds qos : ℕ) (len : ℤ) (s : Sys H W)
      → IsSound g s.client
      → Keeps g p (elim len [
        | negsuc n ↦ returned (failure, s)
        | pos n ↦
            if ltb 0 n then publish_serialized g p turns rounds n qos s else returned (failure, s)
      ])
  release_again turns rounds qos (negsuc n) s i = ensures_returned _ _ i
  release_again turns rounds qos (pos n) s i =
      ensures_if _ (ltb 0 n) _ _ (publish_serialized-Keeps turns rounds n qos s i)
        (ensures_returned _ _ i)

  pub resend-Keeps : (turns rounds : ℕ) (rc : ℤ) → KeepsAll (resend g p turns rounds rc)
  unfolding resend
  resend-Keeps turns rounds rc s i =
      let c = s.client in
      ensures_if _ (g.qos2 && (ltb 0 c.inflight_msgid && (c.inflight_qos == 2 && c.pubrel))) _ _
        (ensures_any _
          (lift (serialize_ack c.sendbuf g.max_mqtt_packet_size MsgType.pubrel 0 c.inflight_msgid))
          _
          (λ (len, buf).
            release_again turns rounds c.inflight_qos len _ (with_sendbuf-IsSound g p c buf i)))
        (ensures_if _ (ltb 0 c.inflight_msgid) _ _
          (publish_serialized-Keeps turns rounds c.inflight_len c.inflight_qos _
            (with_sendbuf-IsSound g p c _ i))
          (ensures_returned _ _ i))
