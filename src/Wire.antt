-- ===== src/Wire.antt =====
-- Bytes, cursors, length fields and strings of paho/MQTTPacket/src/MQTTPacket.c.
pub mod Buffer
pub mod Reader
pub mod Source
pub mod Length
pub mod Field
pub mod Strings
pub mod Text
