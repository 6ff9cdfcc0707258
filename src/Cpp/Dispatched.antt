-- ===== src/Cpp/Dispatched.antt =====
-- Where timers expire, what cycle of paho/MQTTClient/src/MQTTClient.h does with a packet ends.
use fembed_lwip.Common.{
  ℕ, ◌≤◌, ◌<◌, arith, ℤ, pos, negsuc, List, Bool, true, false, ◌&&◌, ◌||◌, Option, none, some, ltb,
  ◌==◌, if◌then◌else◌, eq_ℤ,
}
use fembed_lwip.Packet.MsgType
use fembed_lwip.Packet.Ack.{serialize_ack, deserialize_ack}
use fembed_lwip.Packet.Publish.{PublishOut, deserialize_publish}
use fembed_lwip.Client.Run.{Run, returned, ◌>>=◌}
use fembed_lwip.Client.State.{success, failure}
use fembed_lwip.Client.Cycle.{Jump, go_on, go_exit, message_of, answer_to_publish, answer_to_ack}
use fembed_lwip.Cpp.Platform.{Platform, send_timer}
use fembed_lwip.Cpp.State.{Config, Sys}
use fembed_lwip.Cpp.Inbox.{is_qos2msgid_free, use_qos2msgid}
use fembed_lwip.Cpp.Send.{send_packet}
use fembed_lwip.Cpp.Handlers.{deliver_message}
use fembed_lwip.Cpp.Cycle.{
  send_serialized, deliver_once, answer_publish, on_publish, on_ack, dispatch, with_incoming,
  unread_publish, is_quiet,
}
use fembed_lwip.Cpp.Clock.{
  Completes, Deadline, of_send, timer_of, Clock, completes_bind, completes_lift, completes_if,
  completes_weaken, Within, Within-after,
}
use fembed_lwip.Cpp.Returns.{StateWithin, send_packet-Completes}
use fembed_lwip.Cpp.Rounds.{Within-same, deliver_message-Completes}

module _ {H W : Type 0} (g : Config) (p : Platform H W) (clock : Clock p) where
  sized :
      (rounds : ℕ) (d : Deadline) (s : Sys H W) (len : ℤ)
      → clock.ticks d s.world < rounds
      → StateWithin g p clock s.world (elim len [
        | negsuc n ↦ returned (failure, s)
        | pos n ↦ if ltb 0 n then send_packet g p rounds n (timer_of d) s else returned (failure, s)
      ])
  unfolding Completes
  sized rounds d s (negsuc n) h = Within-same g p clock s.world
  sized rounds d s (pos n) h =
      completes_if _ (ltb 0 n) _ _ (send_packet-Completes g p clock rounds n d s h)
        (Within-same g p clock s.world)

  pub send_serialized-Completes :
      (rounds : ℕ) (d : Deadline) (s : Sys H W) (serialized : Option (ℤ × List ℕ))
      → clock.ticks d s.world < rounds
      → StateWithin g p clock s.world (send_serialized g p rounds (timer_of d) s serialized)
  unfolding send_serialized Completes
  send_serialized-Completes rounds d s serialized h =
      completes_lift _ serialized _ (λ (len, buf).
        sized rounds d (record s { client = record s.client { sendbuf = buf } }) len h)

  abbrev OnlyWithin : W → Run (Sys H W) → Type 0
  OnlyWithin w m = Completes m (λ s. Within p clock w s.world)

  abbrev pub JumpWithin : W → Run (Jump × ℤ × Sys H W) → Type 0
  JumpWithin w m = Completes m (λ (jump, rc, s). Within p clock w s.world)

  delivered :
      (out : PublishOut) (s : Sys H W)
      → OnlyWithin s.world
          (deliver_message p out.topic_name (message_of out) s >>= λ (_, s1). returned s1)
  unfolding Completes
  delivered out s =
      completes_bind _ _ (deliver_message p out.topic_name (message_of out) s) _
        (deliver_message-Completes g p clock out.topic_name (message_of out) s) (λ (rc, s1) h. h)

  deliver_once-Completes :
      (out : PublishOut) (s : Sys H W) → OnlyWithin s.world (deliver_once g p out s)
  unfolding deliver_once Completes
  deliver_once-Completes out s =
      let (stored, ids) = use_qos2msgid out.packetid s.client.incoming_qos2_messages in
      completes_if _ (g.qos2 && out.qos == 2) _ _
        (completes_if _ (is_qos2msgid_free out.packetid s.client.incoming_qos2_messages) _ _
          (completes_if _ stored _ _ (delivered out (with_incoming g p s ids))
            (Within-same g p clock s.world))
          (Within-same g p clock s.world))
        (delivered out s)

  answered :
      (rounds : ℕ) (answer : Option ℕ) (out : PublishOut) (s : Sys H W)
      → clock.ticks of_send s.world < rounds
      → JumpWithin s.world (elim answer [
        | none ↦ returned (go_exit, failure, s)
        | some a ↦
            send_serialized g p rounds send_timer s
              (serialize_ack s.client.sendbuf g.max_mqtt_packet_size a 0 out.packetid)
            >>= λ (rc, s1). returned (if eq_ℤ rc failure then go_exit else go_on, rc, s1)
      ])
  unfolding Completes
  answered rounds none out s h = Within-same g p clock s.world
  answered rounds (some a) out s h =
      completes_bind _ _
        (send_serialized g p rounds send_timer s
          (serialize_ack s.client.sendbuf g.max_mqtt_packet_size a 0 out.packetid))
        _
        (send_serialized-Completes rounds of_send s
          (serialize_ack s.client.sendbuf g.max_mqtt_packet_size a 0 out.packetid) h)
        (λ (rc, s1) k. k)

  answer_publish-Completes :
      (rounds : ℕ) (out : PublishOut) (s : Sys H W)
      → clock.ticks of_send s.world < rounds
      → JumpWithin s.world (answer_publish g p rounds out s)
  unfolding answer_publish Completes
  answer_publish-Completes rounds out s h =
      completes_if _ (out.qos == 0) _ _ (Within-same g p clock s.world)
        (answered rounds (answer_to_publish out.qos) out s h)

  later_jump :
      (m : Run (Jump × ℤ × Sys H W)) (w w1 : W)
      → Within p clock w w1
      → JumpWithin w1 m
      → JumpWithin w m
  later_jump m w w1 h k =
      completes_weaken _ _ m k (λ (jump, rc, s) e. Within-after p clock w w1 s.world h e)

  on_publish-Completes :
      (rounds : ℕ) (s : Sys H W)
      → clock.ticks of_send s.world < rounds
      → JumpWithin s.world (on_publish g p rounds s)
  unfolding on_publish Completes
  on_publish-Completes rounds s h =
      completes_lift _ (deserialize_publish (unread_publish g p) s.client.readbuf) _ (λ (rc, out).
        completes_if _ (eq_ℤ rc (pos 1)) _ _
          (completes_bind _ _ (deliver_once g p out s) _ (deliver_once-Completes out s) (λ s1 k.
            later_jump _ s.world s1.world k (
              answer_publish-Completes rounds out s1 (
                let t : clock.ticks of_send s1.world ≤ clock.ticks of_send s.world = k of_send in
                omega arith))))
          (Within-same g p clock s.world))

  released-Within :
      (b : Bool) (s s1 : Sys H W) (w : W)
      → Within p clock w s.world
      → Within p clock w s1.world
      → Within p clock w (if b then s else s1).world
  released-Within true s s1 w h k = h
  released-Within false s s1 w h k = k

  on_ack-Completes :
      (rounds packet_type : ℕ) (s : Sys H W)
      → clock.ticks of_send s.world < rounds
      → JumpWithin s.world (on_ack g p rounds packet_type s)
  unfolding on_ack Completes
  on_ack-Completes rounds packet_type s h =
      let x = p.indeterminate in
      completes_lift _
        (deserialize_ack (record { packettype = x; dup = x; packetid = x }) s.client.readbuf) _
        (λ (rc, out).
          let packet =
            serialize_ack s.client.sendbuf g.max_mqtt_packet_size (answer_to_ack packet_type) 0
              out.packetid in
          completes_if _ (eq_ℤ rc (pos 1)) _ _
            (completes_bind _ _ (send_serialized g p rounds send_timer s packet) _
              (send_serialized-Completes rounds of_send s packet h)
              (λ (sent, s1) k.
                completes_if _ (eq_ℤ sent success) _ _
                  (released-Within (packet_type == MsgType.pubrel) _ s1 s.world k k) k))
            (Within-same g p clock s.world))

  pub dispatch-Completes :
      (rounds : ℕ) (rc : ℤ) (s : Sys H W)
      → clock.ticks of_send s.world < rounds
      → JumpWithin s.world (dispatch g p rounds rc s)
  unfolding dispatch Completes
  dispatch-Completes rounds (negsuc n) s h = Within-same g p clock s.world
  dispatch-Completes rounds (pos t) s h =
      completes_if _ (is_quiet g p t) _ _ (Within-same g p clock s.world) (
        completes_if _ (t == MsgType.publish) _ _ (on_publish-Completes rounds s h) (
          completes_if _ (g.qos2 && (t == MsgType.pubrec || t == MsgType.pubrel)) _ _
            (on_ack-Completes rounds t s h)
            (completes_if _ (t == MsgType.pingresp) _ _ (Within-same g p clock s.world)
              (Within-same g p clock s.world))))
