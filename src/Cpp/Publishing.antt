-- ===== src/Cpp/Publishing.antt =====
-- The invariant of the client of paho/MQTTClient/src/MQTTClient.h through publish.
use fembed_lwip.Common.{
  ℕ, ℤ, pos, negsuc, List, Bool, true, false, ◌||◌, not, ltb, ◌==◌, if◌then◌else◌,
}
use fembed_lwip.Packet.Publish.{PublishArgs, serialize_publish}
use fembed_lwip.Client.Run.{returned, lift}
use fembed_lwip.Client.State.{failure}
use fembed_lwip.Client.Calls.{of_cstring}
use fembed_lwip.Cpp.Platform.{Platform}
use fembed_lwip.Cpp.State.{Config, Client, Sys, get_next}
use fembed_lwip.Cpp.Calls.{numbered, stored, publish_serialized, client_publish}
use fembed_lwip.Cpp.Ensures.{ensures_returned, ensures_any, ensures_if}
use fembed_lwip.Cpp.Sound.{IsSound, Keeps, with_sendbuf-IsSound}
use fembed_lwip.Cpp.Reach.{KeepsAll, publish_serialized-Keeps}
use fembed_lwip.Cpp.Invariant.{number-IsSound}

module _ {H W : Type 0} (g : Config) (p : Platform H W) where
  sound_if :
      (t : Bool) (c d : Client H) → IsSound g c → IsSound g d → IsSound g (if t then c else d)
  sound_if true c d h k = h
  sound_if false c d h k = k

  stored-IsSound :
      (args : PublishArgs) (len : ℕ) (c : Client H)
      → IsSound g c
      → IsSound g (stored g p args len c)
  stored-IsSound args len c i =
      sound_if c.cleansession _ _ i
        (record { unique = i.unique; slots = i.slots; pings = i.pings; number = i.number })

  numbered-IsSound :
      (args : PublishArgs) (c : Client H) → IsSound g c → IsSound g (numbered g p args c).1
  numbered-IsSound args c i = at (args.qos == 1 || args.qos == 2)
    where
      at :
          (t : Bool)
          → IsSound g
              (if◌then◌else◌ {A = PublishArgs × Client H} t
                (let (id, c1) = get_next c in (record args { packetid = id }, c1))
                (args, c)).1
      at true = number-IsSound g p c i
      at false = i

  publish_from :
      (turns rounds : ℕ) (len : ℤ) (args : PublishArgs) (s : Sys H W)
      → IsSound g s.client
      → Keeps g p (elim len [
        | negsuc n ↦ returned (failure, s)
        | pos n ↦
            if ltb 0 n
            then publish_serialized g p turns rounds n args.qos
                (record s { client = stored g p args n s.client })
            else returned (failure, s)
      ])
  publish_from turns rounds (negsuc n) args s i = ensures_returned _ _ i
  publish_from turns rounds (pos n) args s i =
      ensures_if _ (ltb 0 n) _ _
        (publish_serialized-Keeps g p turns rounds n args.qos _ (stored-IsSound args n s.client i))
        (ensures_returned _ _ i)

  pub publish-Keeps :
      (turns rounds : ℕ) (topic_name : List ℕ) (args : PublishArgs)
      → KeepsAll g p (client_publish g p turns rounds topic_name args)
  unfolding client_publish
  publish-Keeps turns rounds topic_name args s i =
      ensures_if _ (not s.client.isconnected) _ _ (ensures_returned _ _ i) (
        ensures_any _
          (lift (
            serialize_publish (numbered g p args s.client).1.sendbuf g.max_mqtt_packet_size
              (record (numbered g p args s.client).0 {
                dup = 0;
                topic_name = of_cstring topic_name;
              })))
          _
          (λ (len, buf).
            publish_from turns rounds len (numbered g p args s.client).0 _
              (with_sendbuf-IsSound g p _ buf (numbered-IsSound args s.client i))))
