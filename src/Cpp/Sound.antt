-- ===== src/Cpp/Sound.antt =====
-- An invariant of the client of paho/MQTTClient/src/MQTTClient.h, and that its parts keep it.
use fembed_lwip.Common.{
  ℕ, ◌+◌, ◌≤◌, ◌≡◌, refl, ◌∙◌, arith, ℤ, pos, negsuc, List, [], ◌∷◌, Bool, true, false, length, ltb,
  ◌==◌, if◌then◌else◌, eq_ℤ, inl,
}
use fembed_lwip.Packet.Short.{serialize_pingreq}
use fembed_lwip.Client.Run.{Run, returned, lift, ◌>>=◌}
use fembed_lwip.Client.State.{Slot, success}
use fembed_lwip.Cpp.Platform.{Platform, TimerId, last_received, ping_timer}
use fembed_lwip.Cpp.State.{
  Config, Client, Sys, drop_filters, clear_all, clean_session, close_session,
}
use fembed_lwip.Cpp.Inbox.{IsUnique}
use fembed_lwip.Cpp.Send.{send_packet, send_loop, send_ping, keepalive}
use fembed_lwip.Cpp.Ensures.{
  Ensures, ensures_returned, ensures_bind, ensures_any, ensures_if, ensures_split,
}

-- The identifiers of the incoming messages are distinct, the tables have their sizes, and the
-- counters are in their ranges.
pub record IsSound {H : Type 0} (g : Config) (c : Client H) : Type 0 where
  pub unique : IsUnique c.incoming_qos2_messages
  pub slots : length c.message_handlers ≡ g.max_message_handlers
  pub pings : c.ping_outstanding ≤ 6
  pub number : c.packetid ≤ 65535

pub length-drop_filters :
    {H : Type 0} (slots : List (Slot H)) → length (drop_filters slots) ≡ length slots
unfolding drop_filters
length-drop_filters [] = refl
length-drop_filters (s ∷ slots) = omega (arith, length-drop_filters slots)

pub clear_all-IsUnique : (ms : List ℕ) → IsUnique (clear_all ms)
unfolding clear_all IsUnique
clear_all-IsUnique [] = tt
clear_all-IsUnique (m ∷ ms) = (inl refl, clear_all-IsUnique ms)

module _ {H W : Type 0} (g : Config) (p : Platform H W) where
  abbrev pub Keeps : Run (ℤ × Sys H W) → Type 0
  Keeps m = Ensures m (λ (rc, s). IsSound g s.client)

  sound_if :
      (t : Bool) (c d : Client H) → IsSound g c → IsSound g d → IsSound g (if t then c else d)
  sound_if true c d h k = h
  sound_if false c d h k = k

  pub close_session-IsSound : (c : Client H) → IsSound g c → IsSound g (close_session g c)
  unfolding close_session clean_session
  close_session-IsSound c i =
      let closed : IsSound g (record c { ping_outstanding = 0; isconnected = false }) = record {
        unique = i.unique;
        slots = i.slots;
        pings = omega arith;
        number = i.number;
      } in
      sound_if c.cleansession _ _
        (sound_if g.qos2 _ _
          (record {
            unique = clear_all-IsUnique c.incoming_qos2_messages;
            slots = length-drop_filters c.message_handlers ∙ i.slots;
            pings = omega arith;
            number = i.number;
          })
          (record {
            unique = i.unique;
            slots = length-drop_filters c.message_handlers ∙ i.slots;
            pings = omega arith;
            number = i.number;
          }))
        closed

  pub send_packet-Keeps :
      (rounds len : ℕ) (timer : TimerId) (s : Sys H W)
      → IsSound g s.client
      → Keeps (send_packet g p rounds len timer s)
  unfolding send_packet
  send_packet-Keeps rounds len timer s i =
      ensures_any _ (send_loop g p rounds len 0 timer s.client.sendbuf s.world) _
        (λ (sent, w). ensures_returned _ _ i)

  ping_sent :
      (c : Client H)
      → c.ping_outstanding ≤ 5
      → IsSound g c
      → IsSound g (record c { ping_outstanding = c.ping_outstanding + 1 })
  ping_sent c h i = record {
    unique = i.unique;
    slots = i.slots;
    pings = omega arith;
    number = i.number;
  }

  send_packet_same :
      (rounds len : ℕ) (timer : TimerId) (s : Sys H W)
      → Ensures (send_packet g p rounds len timer s) (λ (rc, s1). s1.client ≡ s.client)
  unfolding send_packet
  send_packet_same rounds len timer s =
      ensures_any _ (send_loop g p rounds len 0 timer s.client.sendbuf s.world) _
        (λ (sent, w). ensures_returned _ _ refl)

  -- The ping is counted if it was sent.
  counted :
      (rc : ℤ) (s s1 : Sys H W)
      → s.client.ping_outstanding ≤ 5
      → IsSound g s.client
      → s1.client ≡ s.client
      → Keeps (
          if eq_ℤ rc success
          then returned (
            rc,
            record {
              client = record s1.client { ping_outstanding = s1.client.ping_outstanding + 1 };
              world = p.countdown last_received 15 s1.world;
            },
          )
          else returned (rc, s1))
  counted rc s s1 h i e =
      ensures_if _ (eq_ℤ rc success) _ _ (ensures_returned _ _ (rw e (ping_sent s.client h i)))
        (ensures_returned _ _ (rw e i))

  ping_serialized :
      (rounds : ℕ) (len : ℤ) (s : Sys H W)
      → s.client.ping_outstanding ≤ 5
      → IsSound g s.client
      → Keeps (elim len [
        | negsuc n ↦ returned (success, s)
        | pos n ↦
            if ltb 0 n
            then (send_packet g p rounds n ping_timer s >>= λ (rc, s2).
                if eq_ℤ rc success
                then returned (
                  rc,
                  record {
                    client = record s2.client { ping_outstanding = s2.client.ping_outstanding + 1 };
                    world = p.countdown last_received 15 s2.world;
                  },
                )
                else returned (rc, s2))
            else returned (success, s)
      ])
  ping_serialized rounds (negsuc n) s h i = ensures_returned _ _ i
  ping_serialized rounds (pos n) s h i =
      ensures_if _ (ltb 0 n) _ _
        (ensures_bind _ _ (send_packet g p rounds n ping_timer s) _
          (send_packet_same rounds n ping_timer s) (λ (rc, s2) e. counted rc s s2 h i e))
        (ensures_returned _ _ i)

  pub with_sendbuf-IsSound :
      (c : Client H) (buf : List ℕ) → IsSound g c → IsSound g (record c { sendbuf = buf })
  with_sendbuf-IsSound c buf i = record {
    unique = i.unique;
    slots = i.slots;
    pings = i.pings;
    number = i.number;
  }

  send_ping-Keeps :
      (rounds : ℕ) (s : Sys H W)
      → s.client.ping_outstanding ≤ 5
      → IsSound g s.client
      → Keeps (send_ping g p rounds s)
  unfolding send_ping
  send_ping-Keeps rounds s h i =
      ensures_any _ (lift (serialize_pingreq s.client.sendbuf g.max_mqtt_packet_size)) _
        (λ (len, buf).
          ping_serialized rounds len (record s { client = record s.client { sendbuf = buf } }) h
            (with_sendbuf-IsSound s.client buf i))

  pub keepalive-Keeps :
      (rounds : ℕ) (s : Sys H W) → IsSound g s.client → Keeps (keepalive g p rounds s)
  unfolding keepalive
  keepalive-Keeps rounds s i =
      ensures_if _ (s.client.keep_alive_interval == 0) _ _ (ensures_returned _ _ i) (
        ensures_if _ (p.expired last_received s.world).0 _ _
          (ensures_split _ (ltb 5 s.client.ping_outstanding) _ _ (λ e. ensures_returned _ _ i)
            (λ e. send_ping-Keeps rounds _ (ground arith) i))
          (ensures_returned _ _ i))
