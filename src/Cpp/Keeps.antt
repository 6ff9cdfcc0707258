-- ===== src/Cpp/Keeps.antt =====
-- The invariant of the client of paho/MQTTClient/src/MQTTClient.h through cycle, yield and waitfor.
use fembed_lwip.Common.{
  ℕ, arith, ℤ, pos, negsuc, List, Bool, true, false, ◌&&◌, ◌||◌, Option, none, some, ltb, ◌==◌,
  if◌then◌else◌, eq_ℤ,
}
use fembed_lwip.Packet.MsgType
use fembed_lwip.Packet.Ack.{serialize_ack, deserialize_ack}
use fembed_lwip.Packet.Publish.{PublishOut, deserialize_publish}
use fembed_lwip.Client.Run.{Run, returned, lift, ◌>>=◌}
use fembed_lwip.Client.State.{success, failure}
use fembed_lwip.Client.Cycle.{Jump, go_on, go_exit, answer_to_publish, answer_to_ack}
use fembed_lwip.Cpp.Platform.{Platform, TimerId, call_timer, send_timer}
use fembed_lwip.Cpp.State.{Config, Client, Sys}
use fembed_lwip.Cpp.Inbox.{free_qos2msgid, free_qos2msgid-IsUnique}
use fembed_lwip.Cpp.Send.{keepalive}
use fembed_lwip.Cpp.Receive.{read_packet}
use fembed_lwip.Cpp.Cycle.{
  send_serialized, deliver_once, answer_publish, on_publish, on_ack, dispatch, after_switch,
  cycle_exit, cycle, with_incoming, released, unread_publish,
}
use fembed_lwip.Cpp.Ensures.{
  Ensures, ensures_returned, ensures_bind, ensures_any, ensures_if, ensures_fault,
}
use fembed_lwip.Cpp.Sound.{
  IsSound, Keeps, close_session-IsSound, send_packet-Keeps, keepalive-Keeps, with_sendbuf-IsSound,
}
use fembed_lwip.Cpp.Delivery.{read_packet-Keeps, incoming, deliver_once-Keeps}

module _ {H W : Type 0} (g : Config) (p : Platform H W) where
  pub send_serialized-Keeps :
      (rounds : ℕ) (timer : TimerId) (s : Sys H W) (serialized : Option (ℤ × List ℕ))
      → IsSound g s.client
      → Keeps g p (send_serialized g p rounds timer s serialized)
  unfolding send_serialized
  send_serialized-Keeps rounds timer s none i = ensures_fault _
  send_serialized-Keeps rounds timer s (some (negsuc n, buf)) i =
      ensures_returned _ _ (with_sendbuf-IsSound g p s.client buf i)
  send_serialized-Keeps rounds timer s (some (pos n, buf)) i =
      ensures_if _ (ltb 0 n) _ _
        (send_packet-Keeps g p rounds n timer _ (with_sendbuf-IsSound g p s.client buf i))
        (ensures_returned _ _ (with_sendbuf-IsSound g p s.client buf i))

  abbrev KeepsJump : Run (Jump × ℤ × Sys H W) → Type 0
  KeepsJump m = Ensures m (λ (jump, rc, s). IsSound g s.client)

  answered-Keeps :
      (rounds : ℕ) (answer : Option ℕ) (out : PublishOut) (s : Sys H W)
      → IsSound g s.client
      → KeepsJump (elim answer [
        | none ↦ returned (go_exit, failure, s)
        | some t ↦
            send_serialized g p rounds send_timer s
              (serialize_ack s.client.sendbuf g.max_mqtt_packet_size t 0 out.packetid)
            >>= λ (rc, s1). returned (if eq_ℤ rc failure then go_exit else go_on, rc, s1)
      ])
  answered-Keeps rounds none out s i = ensures_returned _ _ i
  answered-Keeps rounds (some t) out s i =
      ensures_bind _ _
        (send_serialized g p rounds send_timer s
          (serialize_ack s.client.sendbuf g.max_mqtt_packet_size t 0 out.packetid))
        _ (send_serialized-Keeps rounds send_timer s _ i) (λ (rc, s1) j. ensures_returned _ _ j)

  on_publish-Keeps :
      (rounds : ℕ) (s : Sys H W) → IsSound g s.client → KeepsJump (on_publish g p rounds s)
  unfolding on_publish answer_publish
  on_publish-Keeps rounds s i =
      ensures_any _ (lift (deserialize_publish (unread_publish g p) s.client.readbuf)) _
        (λ (rc, out).
          ensures_if _ (eq_ℤ rc (pos 1)) _ _
            (ensures_bind _ _ (deliver_once g p out s) _ (deliver_once-Keeps g p out s i) (λ s1 j.
              ensures_if _ (out.qos == 0) _ _ (ensures_returned _ _ j)
                (answered-Keeps rounds (answer_to_publish out.qos) out s1 j)))
            (ensures_returned _ _ i))

  released-IsSound :
      (packet_type id : ℕ) (s : Sys H W)
      → IsSound g s.client
      → IsSound g (released g p packet_type id s).client
  released-IsSound packet_type id s i = at (packet_type == MsgType.pubrel)
    where
      at :
          (t : Bool)
          → IsSound g
              (if t
                then with_incoming g p s (free_qos2msgid id s.client.incoming_qos2_messages)
                else s).client
      at true =
          incoming g p s.client _
            (free_qos2msgid-IsUnique id s.client.incoming_qos2_messages i.unique) i
      at false = i

  on_ack-Keeps :
      (rounds packet_type : ℕ) (s : Sys H W)
      → IsSound g s.client
      → KeepsJump (on_ack g p rounds packet_type s)
  unfolding on_ack
  on_ack-Keeps rounds packet_type s i =
      let x = p.indeterminate in
      ensures_any _
        (lift (deserialize_ack (record { packettype = x; dup = x; packetid = x }) s.client.readbuf))
        _
        (λ (rc, out).
          ensures_if _ (eq_ℤ rc (pos 1)) _ _
            (ensures_bind _ _
              (send_serialized g p rounds send_timer s (
                serialize_ack s.client.sendbuf g.max_mqtt_packet_size (answer_to_ack packet_type) 0
                  out.packetid))
              _ (send_serialized-Keeps rounds send_timer s _ i)
              (λ (sent, s1) j.
                ensures_if _ (eq_ℤ sent success) _ _
                  (ensures_returned _ _ (released-IsSound packet_type out.packetid s1 j))
                  (ensures_returned _ _ j)))
            (ensures_returned _ _ i))

  pong : (c : Client H) → IsSound g c → IsSound g (record c { ping_outstanding = 0 })
  pong c i = record { unique = i.unique; slots = i.slots; pings = omega arith; number = i.number }

  dispatch-Keeps :
      (rounds : ℕ) (packet_type : ℤ) (s : Sys H W)
      → IsSound g s.client
      → KeepsJump (dispatch g p rounds packet_type s)
  unfolding dispatch
  dispatch-Keeps rounds (negsuc n) s i = ensures_returned _ _ i
  dispatch-Keeps rounds (pos t) s i = ensures_if _ _ _ _ (ensures_returned _ _ i) (
      ensures_if _ (t == MsgType.publish) _ _ (on_publish-Keeps rounds s i) (
        ensures_if _ (g.qos2 && (t == MsgType.pubrec || t == MsgType.pubrel)) _ _
          (on_ack-Keeps rounds t s i)
          (ensures_if _ (t == MsgType.pingresp) _ _ (ensures_returned _ _ (pong s.client i))
            (ensures_returned _ _ i))))

  after_switch-Keeps :
      (rounds : ℕ) (jump : Jump) (rc : ℤ) (s : Sys H W)
      → IsSound g s.client
      → Keeps g p (after_switch g p rounds jump rc s)
  unfolding after_switch
  after_switch-Keeps rounds go_exit rc s i = ensures_returned _ _ i
  after_switch-Keeps rounds go_on rc s i =
      ensures_bind _ _ (keepalive g p rounds s) _ (keepalive-Keeps g p rounds s i)
        (λ (alive, s1) j. ensures_returned _ _ j)

  pub sound_result :
      (t : Bool) (a b : ℤ × Sys H W)
      → IsSound g a.1.client
      → IsSound g b.1.client
      → IsSound g (if t then a else b).1.client
  sound_result true a b h k = h
  sound_result false a b h k = k

  cycle_exit-IsSound :
      (packet_type rc : ℤ) (s : Sys H W)
      → IsSound g s.client
      → Keeps g p (returned (cycle_exit g p packet_type rc s))
  unfolding cycle_exit
  cycle_exit-IsSound packet_type rc s i = ensures_returned _ _ (
      sound_result (eq_ℤ rc success) _ _ i
        (sound_result s.client.isconnected _ _ (close_session-IsSound g p s.client i) i))

  -- A round of the client keeps the invariant, on any platform.
  pub cycle-Keeps : (rounds : ℕ) (s : Sys H W) → IsSound g s.client → Keeps g p (cycle g p rounds s)
  unfolding cycle
  cycle-Keeps rounds s i =
      ensures_bind _ _
        (read_packet g p call_timer (record s { world = p.timer_default send_timer s.world })) _
        (read_packet-Keeps g p call_timer _ i)
        (λ (packet_type, s1) i1.
          ensures_bind _ _ (dispatch g p rounds packet_type s1) _
            (dispatch-Keeps rounds packet_type s1 i1)
            (λ (jump, rc, s2) i2.
              ensures_bind _ _ (after_switch g p rounds jump rc s2) _
                (after_switch-Keeps rounds jump rc s2 i2)
                (λ (rc', s3) i3. cycle_exit-IsSound packet_type rc' s3 i3)))
