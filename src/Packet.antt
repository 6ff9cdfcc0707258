-- ===== src/Packet.antt =====
-- The packets of paho/MQTTPacket/src: their headers, serialisers and deserialisers.
pub mod MsgType
pub mod Header
pub mod Frame
pub mod Ack
pub mod Publish
pub mod Short
pub mod Connack
pub mod Connect
pub mod Subscribe
pub mod Suback
pub mod Unsubscribe
pub mod Read
pub mod Server
pub mod Nonblocking
