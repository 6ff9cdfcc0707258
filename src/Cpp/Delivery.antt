-- ===== src/Cpp/Delivery.antt =====
-- The invariant of the client of paho/MQTTClient/src/MQTTClient.h through reading and delivery.
use fembed_lwip.Common.{ℕ, ◌+◌, ◌≡◌, refl, pos, List, ◌&&◌, ltb, ◌==◌, eq_ℤ}
use fembed_lwip.Wire.Buffer.{Cursor, start, offset, contents}
use fembed_lwip.Wire.Source.{store_got, got_rc}
use fembed_lwip.Wire.Length.{packet_encode}
use fembed_lwip.Wire.Strings.{MqttString}
use fembed_lwip.Packet.Header.{type_of_buffer}
use fembed_lwip.Packet.Publish.{PublishOut}
use fembed_lwip.Client.Run.{Run, returned, lift, ◌>>=◌}
use fembed_lwip.Client.Platform.{Message}
use fembed_lwip.Client.State.{failure}
use fembed_lwip.Client.Cycle.{message_of}
use fembed_lwip.Cpp.Platform.{Platform, TimerId}
use fembed_lwip.Cpp.State.{Config, Client, Sys}
use fembed_lwip.Cpp.Inbox.{is_qos2msgid_free, use_qos2msgid, IsUnique, use_qos2msgid-IsUnique}
use fembed_lwip.Cpp.Receive.{read_packet, read_rest, packet_received, decode_packet, with_readbuf}
use fembed_lwip.Cpp.Handlers.{deliver_loop, deliver_message}
use fembed_lwip.Cpp.Cycle.{deliver_once}
use fembed_lwip.Cpp.Ensures.{
  Ensures, ensures_returned, ensures_bind, ensures_any, ensures_if, ensures_split,
}
use fembed_lwip.Cpp.Sound.{IsSound, Keeps}

module _ {H W : Type 0} (g : Config) (p : Platform H W) where
  received : (c : Client H) (buf : List ℕ) → IsSound g c → IsSound g (record c { readbuf = buf })
  received c buf i = record {
    unique = i.unique;
    slots = i.slots;
    pings = i.pings;
    number = i.number;
  }

  packet_received-Keeps : (s : Sys H W) → IsSound g s.client → Keeps g p (packet_received g p s)
  unfolding packet_received
  packet_received-Keeps s i = ensures_any _ (lift (type_of_buffer s.client.readbuf)) _ (λ rc.
      ensures_if _ (ltb 0 s.client.keep_alive_interval) _ _ (ensures_returned _ _ i)
        (ensures_returned _ _ i))

  read_rest-Keeps :
      (timer : TimerId) (rem_len : ℕ) (c : Cursor) (s : Sys H W)
      → IsSound g s.client
      → Keeps g p (read_rest g p timer rem_len c s)
  unfolding read_rest
  read_rest-Keeps timer rem_len c s i =
      let (left, w1) = p.left_ms timer s.world in
      let (got, w2) = p.read rem_len left w1 in
      ensures_if _ (ltb g.max_mqtt_packet_size (rem_len + offset c)) _ _
        (ensures_returned _ _ (received s.client (contents c) i))
        (ensures_if _ (ltb 0 rem_len) _ _
          (ensures_any _ (lift (store_got got c)) _ (λ c1.
            ensures_if _ (eq_ℤ (got_rc got) (pos rem_len)) _ _
              (packet_received-Keeps (with_readbuf g p s (contents c1) w2)
                (received s.client (contents c1) i))
              (ensures_returned _ _ (received s.client (contents c1) i))))
          (packet_received-Keeps (with_readbuf g p s (contents c) s.world)
            (received s.client (contents c) i)))

  pub read_packet-Keeps :
      (timer : TimerId) (s : Sys H W) → IsSound g s.client → Keeps g p (read_packet g p timer s)
  unfolding read_packet
  read_packet-Keeps timer s i =
      let (left, w1) = p.left_ms timer s.world in
      let (got, w2) = p.read 1 left w1 in
      let (left2, w3) = p.left_ms timer w2 in
      ensures_any _ (lift (store_got got (start s.client.readbuf))) _ (λ c1.
        ensures_if _ (eq_ℤ (got_rc got) (pos 1)) _ _
          (ensures_any _ (lift (decode_packet g p left2 w3)) _ (λ (rem_len, w4).
            ensures_any _ (lift (packet_encode rem_len c1)) _
              (λ c2. read_rest-Keeps timer rem_len c2 (record s { world = w4 }) i)))
          (ensures_returned _ _ (received s.client (contents c1) i)))

  pub deliver_message_same :
      (topic_name : MqttString) (message : Message) (s : Sys H W)
      → Ensures (deliver_message p topic_name message s) (λ (rc, s1). s1.client ≡ s.client)
  unfolding deliver_message
  deliver_message_same topic_name message s =
      ensures_any _ (deliver_loop p s.client.message_handlers topic_name message failure s.world) _
        (λ (rc, w). ensures_returned _ _ refl)

  abbrev pub KeepsState : Run (Sys H W) → Type 0
  KeepsState m = Ensures m (λ s. IsSound g s.client)

  delivered-Keeps :
      (out : PublishOut) (s : Sys H W)
      → IsSound g s.client
      → KeepsState (deliver_message p out.topic_name (message_of out) s >>= λ (rc, s1). returned s1)
  delivered-Keeps out s i =
      ensures_bind _ _ (deliver_message p out.topic_name (message_of out) s) _
        (deliver_message_same out.topic_name (message_of out) s)
        (λ (rc, s1) e. ensures_returned _ _ (rw e i))

  pub incoming :
      (c : Client H) (ids : List ℕ)
      → IsUnique ids
      → IsSound g c
      → IsSound g (record c { incoming_qos2_messages = ids })
  incoming c ids u i = record { unique = u; slots = i.slots; pings = i.pings; number = i.number }

  pub deliver_once-Keeps :
      (out : PublishOut) (s : Sys H W) → IsSound g s.client → KeepsState (deliver_once g p out s)
  unfolding deliver_once
  deliver_once-Keeps out s i =
      let ids : List ℕ = s.client.incoming_qos2_messages in
      ensures_if _ (g.qos2 && out.qos == 2) _ _
        (ensures_split _ (is_qos2msgid_free out.packetid ids) _ _
          (λ e.
            let kept : IsSound g
                (record s.client { incoming_qos2_messages = (use_qos2msgid out.packetid ids).1 }) =
              incoming s.client (use_qos2msgid out.packetid ids).1
                (use_qos2msgid-IsUnique out.packetid ids e i.unique) i in
            ensures_if _ (use_qos2msgid out.packetid ids).0 _ _ (delivered-Keeps out _ kept)
              (ensures_returned _ _ kept))
          (λ e. ensures_returned _ _ i))
        (delivered-Keeps out s i)
