-- ===== src/Examples/FreeRtos.antt =====
-- The platform of paho/MQTTClient-C/src/FreeRTOS on the device of the examples.
use fembed_lwip.Common.{false, ℕ, ◌≡◌, refl, arith, pos, negsuc, [], ◌∷◌, none, some}
use fembed_lwip.Client.Run.{unfinished, returned, fault}
use fembed_lwip.FreeRtos.Os.{Os}
use fembed_lwip.FreeRtos.Socket.{is_positive, esp_read, esp_write}
use fembed_lwip.FreeRtos.Ssl.{in_readbuf, at_char, esp_ssl_read}
use fembed_lwip.FreeRtos.SslConnect.{network_connect_ssl, network_init_ssl, Credentials}
use fembed_lwip.FreeRtos.Arrivals.{Ends, Taken, esp_read-Taken}
use fembed_lwip.FreeRtos.Departures.{Sent}
use fembed_lwip.FreeRtos.Writes.{esp_write-Sent, esp_write_hangs}
use fembed_lwip.FreeRtos.Ledger.{with_context}
use fembed_lwip.FreeRtos.Resources.{
  Balanced, network_connect_ssl-Balanced, network_connect_ssl_misreports,
}
use fembed_lwip.FreeRtos.SslPacket.{state}
use fembed_lwip.FreeRtos.SslSession.{
  bodyless_calls, packet_calls, packet_calls-state, bodyless_packet_breaks,
}
use fembed_lwip.Examples.Board.{
  World, ready, device, library, idle, device-Expiry, device-Arrivals, device-Departures,
  device-Writable, device-Ledger,
}

esp_read-Taken_example :
    Ends
      (esp_read device 4 (record { my_socket = pos 0 }) 2 100 (idle (5 ∷ 6 ∷ 7 ∷ [])))
      (Taken device device-Expiry (pos 0) device-Arrivals (5 ∷ 6 ∷ 7 ∷ []) (idle []).log 2)
unfolding device-Expiry device-Arrivals
esp_read-Taken_example =
    esp_read-Taken device device-Expiry (pos 0) device-Arrivals 4 2 100 (idle (5 ∷ 6 ∷ 7 ∷ []))
      (omega arith)

esp_write-Sent_example :
    Ends (esp_write device 4 (record { my_socket = pos 0 }) (8 ∷ 9 ∷ []) 100 (idle [])) (
      Sent device device-Expiry
        (device.send (pos 0))
        device-Departures
        []
        (idle []).log
        (8 ∷ 9 ∷ []))
unfolding device-Expiry device-Departures device-Writable
esp_write-Sent_example =
    esp_write-Sent device device-Expiry (pos 0) device-Departures device-Writable 4 100 (8 ∷ 9 ∷ [])
      (idle []) (omega arith) (omega arith)

-- A device whose socket is never ready for writing.
abbrev busy : Os ℕ World
busy = record device {
  select_write =
      λ s in_set in_errors usec w. (record { rc = pos 0; is_set = false; is_error = false }, w);
}

esp_write_hangs_example :
    esp_write busy 1000 (record { my_socket = pos 0 }) (8 ∷ 9 ∷ []) 100 (idle []) ≡ unfinished
unfolding is_positive
esp_write_hangs_example =
    esp_write_hangs busy (pos 0) 1000 100 (8 ∷ 9 ∷ []) (idle []) (λ usec w. (refl, (refl, refl)))
      (refl, (refl, refl))

abbrev credentials : Credentials
credentials = record { cacrt = some (1 ∷ []); cert = some (2 ∷ []); key = some (3 ∷ []) }

network_connect_ssl-Balanced_example :
    Balanced device library device-Ledger
      (record { sockets = []; contexts = []; sessions = []; failures = 0 })
      (network_connect_ssl device library
        (97 ∷ [])
        8883
        credentials
        (some 1)
        network_init_ssl
        (idle []))
unfolding device-Ledger
network_connect_ssl-Balanced_example =
    network_connect_ssl-Balanced device library device-Ledger (97 ∷ []) 8883 credentials (some 1)
      network_init_ssl (idle [])

-- No socket can be made.
abbrev exhausted : Os ℕ World
exhausted = record device { socket = λ w. (negsuc 0, w) }

network_connect_ssl_misreports_example :
    (network_connect_ssl exhausted library
      (97 ∷ [])
      8883
      (record { cacrt = some (1 ∷ []); cert = none; key = none })
      (some 1)
      network_init_ssl
      (idle [])).0
    ≡ pos 1
network_connect_ssl_misreports_example =
    network_connect_ssl_misreports exhausted library (97 ∷ []) (1 ∷ []) none 8883 1 1 0 (some 1)
      network_init_ssl (idle []) (idle [])
      (record (idle []) { held = with_context 1 (idle []).held })
      (record (idle []) { held = with_context 1 (idle []).held }) refl refl refl refl

-- A SUBACK with an identifier and a code.
packet_calls-state_example :
    packet_calls device library
      (pos 0)
      2
      100
      100
      100
      (λ w. w)
      (λ w. w)
      (state device library 0 none
        (0 ∷ 0 ∷ 0 ∷ 0 ∷ 0 ∷ 0 ∷ [])
        0
        (idle (0x90 ∷ 3 ∷ 0 ∷ 7 ∷ 1 ∷ [])))
    ≡ returned (
      pos 1,
      pos 1,
      pos 3,
      state device library 0 (some (in_readbuf 0)) (0x90 ∷ 3 ∷ 0 ∷ 7 ∷ 1 ∷ 0 ∷ []) 3 (idle []),
    )
unfolding is_positive
packet_calls-state_example =
    packet_calls-state device library (pos 0) 1 100 100 100 (λ w. w) (λ w. w) 0x90 0 0 0 none
      (0 ∷ 0 ∷ 0 ∷ []) (0 ∷ 7 ∷ 1 ∷ []) (0 ∷ []) 3 ready (idle (0x90 ∷ 3 ∷ 0 ∷ 7 ∷ 1 ∷ []))
      (idle (0x90 ∷ 3 ∷ 0 ∷ 7 ∷ 1 ∷ [])) (idle (0x90 ∷ 3 ∷ 0 ∷ 7 ∷ 1 ∷ [])) (idle (0 ∷ 7 ∷ 1 ∷ []))
      (idle []) refl (omega arith) refl refl refl refl refl refl refl refl refl

-- A PINGRESP is read, and a SUBACK follows; both bytes of the buffer behind the header are 9.
bodyless_packet_breaks_example :
    (bodyless_calls device library
        (pos 0)
        2
        100
        100
        100
        (λ w. w)
        (λ w. w)
        (state device library 0 none (9 ∷ 9 ∷ 9 ∷ 9 ∷ []) 0 (idle (0xd0 ∷ 0 ∷ 0x90 ∷ 3 ∷ [])))
      ≡ returned (
        pos 1,
        pos 1,
        pos 1,
        state device library 0 (some (in_readbuf 0)) (9 ∷ 0 ∷ 9 ∷ 9 ∷ []) 0 (idle (0x90 ∷ 3 ∷ [])),
      ))
    × (esp_ssl_read device library 2
          (record { my_socket = pos 0 })
          at_char
          1
          100
          (state device library 0
            (some (in_readbuf 0))
            (9 ∷ 0 ∷ 9 ∷ 9 ∷ [])
            0
            (idle (0x90 ∷ 3 ∷ [])))
        ≡ fault)
unfolding is_positive
bodyless_packet_breaks_example =
    bodyless_packet_breaks device library (pos 0) 1 100 100 100 100 (λ w. w) (λ w. w) 0xd0 9 9 9 0
      0x90 3 none (9 ∷ []) 3 3 ready ready (idle (0xd0 ∷ 0 ∷ 0x90 ∷ 3 ∷ []))
      (idle (0xd0 ∷ 0 ∷ 0x90 ∷ 3 ∷ [])) (idle (0xd0 ∷ 0 ∷ 0x90 ∷ 3 ∷ [])) (idle (0x90 ∷ 3 ∷ []))
      (idle (0x90 ∷ 3 ∷ [])) (idle (0x90 ∷ 3 ∷ [])) (idle (0x90 ∷ 3 ∷ [])) (idle []) refl refl refl
      refl refl refl refl refl refl refl refl refl refl refl
