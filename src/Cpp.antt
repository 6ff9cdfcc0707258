-- ===== src/Cpp.antt =====
-- The client template of paho/MQTTClient/src/MQTTClient.h.
pub mod Platform
pub mod State
pub mod Inbox
pub mod Send
pub mod Receive
pub mod Handlers
pub mod Cycle
pub mod Calls
pub mod Ensures
pub mod Sound
pub mod Delivery
pub mod Keeps
pub mod Reach
pub mod Invariant
pub mod Publishing
pub mod Reachable
pub mod Outcomes
pub mod Missing
pub mod Clock
pub mod Returns
pub mod Rounds
pub mod Dispatched
pub mod Yield
pub mod Waits
pub mod Opening
pub mod Returning
