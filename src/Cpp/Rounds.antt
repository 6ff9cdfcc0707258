-- ===== src/Cpp/Rounds.antt =====
-- Where timers expire, the rounds of paho/MQTTClient/src/MQTTClient.h end, and so does yield.
use fembed_lwip.Common.{
  ℕ, ◌+◌, arith, ℤ, pos, List, [], ◌∷◌, Bool, true, false, Option, none, some, ltb, if◌then◌else◌,
  eq_ℤ,
}
use fembed_lwip.Wire.Buffer.{Cursor, start, offset, contents}
use fembed_lwip.Wire.Source.{store_got, got_rc}
use fembed_lwip.Wire.Length.{packet_encode}
use fembed_lwip.Wire.Strings.{MqttString, packet_equals}
use fembed_lwip.Packet.Header.{type_of_buffer}
use fembed_lwip.Client.Run.{Run, returned, ◌>>=◌}
use fembed_lwip.Client.Platform.{Message}
use fembed_lwip.Client.State.{Slot, success, failure}
use fembed_lwip.Client.Topics.{is_topic_matched}
use fembed_lwip.Client.Handlers.{filter_accepts}
use fembed_lwip.Cpp.Platform.{Platform, TimerId}
use fembed_lwip.Cpp.State.{Config, Sys}
use fembed_lwip.Cpp.Receive.{
  decode_packet, read_packet, read_rest, packet_received, with_readbuf, receive_limit,
}
use fembed_lwip.Cpp.Handlers.{offer, deliver_loop, deliver_default, deliver_message}
use fembed_lwip.Cpp.Clock.{
  Completes, Clock, completes_bind, completes_lift, completes_if, completes_weaken,
  completes_lifted, completes_gives, Within, Within-after,
}
use fembed_lwip.Cpp.Returns.{StateWithin, decode_packet_within}

module _ {H W : Type 0} (g : Config) (p : Platform H W) (clock : Clock p) where
  pub Within-same : (w : W) → Within p clock w w
  Within-same w d = omega arith

  pub later :
      (m : Run (ℤ × Sys H W)) (w w1 : W)
      → Within p clock w w1
      → StateWithin g p clock w1 m
      → StateWithin g p clock w m
  later m w w1 h k = completes_weaken _ _ m k (λ (rc, s) e. Within-after p clock w w1 s.world h e)

  packet_received-Completes : (s : Sys H W) → StateWithin g p clock s.world (packet_received g p s)
  unfolding packet_received Completes
  packet_received-Completes s = completes_lift _ (type_of_buffer s.client.readbuf) _ (λ rc.
      completes_if _ (ltb 0 s.client.keep_alive_interval) _ _
        (λ d. clock.after_countdown d (receive_limit s.client.keep_alive_interval) s.world)
        (Within-same s.world))

  read_rest-Completes :
      (timer : TimerId) (rem_len : ℕ) (c : Cursor) (s : Sys H W)
      → StateWithin g p clock s.world (read_rest g p timer rem_len c s)
  unfolding read_rest Completes
  read_rest-Completes timer rem_len c s =
      let (left, w1) = p.left_ms timer s.world in
      let (got, w2) = p.read rem_len left w1 in
      let h : Within p clock s.world w2 =
        Within-after p clock s.world w1 w2 (λ d. clock.after_left_ms d timer s.world)
          (λ d. clock.after_read d rem_len left w1) in
      completes_if _ (ltb g.max_mqtt_packet_size (rem_len + offset c)) _ _ (Within-same s.world) (
        completes_if _ (ltb 0 rem_len) _ _
          (completes_lift _ (store_got got c) _ (λ c1.
            completes_if _ (eq_ℤ (got_rc got) (pos rem_len)) _ _
              (later _ s.world w2 h
                (packet_received-Completes (with_readbuf g p s (contents c1) w2)))
              h))
          (packet_received-Completes (with_readbuf g p s (contents c) s.world)))

  pub read_packet-Completes :
      (timer : TimerId) (s : Sys H W) → StateWithin g p clock s.world (read_packet g p timer s)
  unfolding read_packet Completes
  read_packet-Completes timer s =
      let (left, w1) = p.left_ms timer s.world in
      let (got, w2) = p.read 1 left w1 in
      let (left2, w3) = p.left_ms timer w2 in
      let h : Within p clock s.world w2 =
        Within-after p clock s.world w1 w2 (λ d. clock.after_left_ms d timer s.world)
          (λ d. clock.after_read d 1 left w1) in
      let h3 : Within p clock s.world w3 =
        Within-after p clock s.world w2 w3 h (λ d. clock.after_left_ms d timer w2) in
      completes_lift _ (store_got got (start s.client.readbuf)) _ (λ c1.
        completes_if _ (eq_ℤ (got_rc got) (pos 1)) _ _
          (completes_gives _ _ (decode_packet g p left2 w3) _
            (decode_packet_within g p clock left2 w3)
            (λ (rem_len, w4) k. completes_lift _ (packet_encode rem_len c1) _ (λ c2.
              later _ s.world w4 (Within-after p clock s.world w3 w4 h3 k)
                (read_rest-Completes timer rem_len c2 (record s { world = w4 })))))
          h)

  filter_accepts-Completes :
      (filter : List ℕ) (topic : MqttString) → Completes (filter_accepts filter topic) (λ b. Unit)
  unfolding filter_accepts Completes
  filter_accepts-Completes filter topic =
      completes_lift _ (packet_equals topic filter) _
        (λ same. completes_if _ same _ _ tt (completes_lifted (is_topic_matched filter topic)))

  abbrev WorldWithin : W → Run (ℤ × W) → Type 0
  WorldWithin w m = Completes m (λ (rc, w1). Within p clock w w1)

  called :
      (accepts : Bool) (fp : Option H) (topic : MqttString) (message : Message) (rc : ℤ) (w : W)
      → WorldWithin w (elim accepts [
        | false ↦ returned (rc, w)
        | true ↦ elim fp [
          | none ↦ returned (rc, w)
          | some f ↦ returned (success, p.call f topic message w)
        ]
      ])
  unfolding Completes
  called false fp topic message rc w = Within-same w
  called true none topic message rc w = Within-same w
  called true (some f) topic message rc w = λ d. clock.after_call d f topic message w

  offered :
      (filter : Option (List ℕ)) (fp : Option H) (topic : MqttString) (message : Message) (rc : ℤ)
      (w : W)
      → WorldWithin w (elim filter [
        | none ↦ returned (rc, w)
        | some f ↦ filter_accepts f topic >>= λ accepts. elim accepts [
          | false ↦ returned (rc, w)
          | true ↦ elim fp [
            | none ↦ returned (rc, w)
            | some h ↦ returned (success, p.call h topic message w)
          ]
        ]
      ])
  unfolding Completes
  offered none fp topic message rc w = Within-same w
  offered (some f) fp topic message rc w =
      completes_bind _ _ (filter_accepts f topic) _ (filter_accepts-Completes f topic)
        (λ accepts k. called accepts fp topic message rc w)

  deliver_loop-Completes :
      (slots : List (Slot H)) (topic : MqttString) (message : Message) (rc : ℤ) (w : W)
      → WorldWithin w (deliver_loop p slots topic message rc w)
  unfolding deliver_loop offer Completes
  deliver_loop-Completes [] topic message rc w = Within-same w
  deliver_loop-Completes (slot ∷ slots) topic message rc w =
      completes_bind _ _ (offer p slot topic message rc w) _
        (offered slot.topic_filter slot.fp topic message rc w)
        (λ (rc1, w1) h.
          completes_weaken _ _ (deliver_loop p slots topic message rc1 w1)
            (deliver_loop-Completes slots topic message rc1 w1)
            (λ (rc2, w2) k. Within-after p clock w w1 w2 h k))

  default-Within :
      (fp : Option H) (topic : MqttString) (message : Message) (rc : ℤ) (w : W)
      → Within p clock w (deliver_default p fp topic message rc w).1
  unfolding deliver_default
  default-Within none topic message rc w = Within-same w
  default-Within (some f) topic message rc w = on (eq_ℤ rc failure)
    where
      on :
          (t : Bool)
          → Within p clock w
              (if◌then◌else◌ {A = ℤ × W} t (success, p.call f topic message w) (rc, w)).1
      on true = λ d. clock.after_call d f topic message w
      on false = Within-same w

  pub deliver_message-Completes :
      (topic : MqttString) (message : Message) (s : Sys H W)
      → StateWithin g p clock s.world (deliver_message p topic message s)
  unfolding deliver_message Completes
  deliver_message-Completes topic message s =
      completes_bind _ _ (deliver_loop p s.client.message_handlers topic message failure s.world) _
        (deliver_loop-Completes s.client.message_handlers topic message failure s.world)
        (λ (rc, w) h.
          Within-after p clock s.world w _ h
            (default-Within s.client.default_message_handler topic message rc w))
