-- ===== src/FreeRtos.antt =====
-- The FreeRTOS platform of the client: paho/MQTTClient-C/src/FreeRTOS.
pub mod Os
pub mod Timer
pub mod Socket
pub mod Ssl
pub mod SslConnect
pub mod Ledger
pub mod Resources
pub mod Arrivals
pub mod Departures
pub mod Writes
pub mod SslPacket
pub mod SslSession
