-- ===== src/Client.antt =====
-- The client of paho/MQTTClient-C/src/MQTTClient.c over any network and timers.
pub mod Run
pub mod Platform
pub mod State
pub mod Topics
pub mod Levels
pub mod LevelSteps
pub mod Matching
pub mod Handlers
pub mod Send
pub mod Receive
pub mod Cycle
pub mod Calls
pub mod Ids
pub mod Sending
pub mod Session
pub mod Table
pub mod Receiving
