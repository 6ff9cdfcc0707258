-- ===== src/Examples.antt =====
-- Concrete runs of the packet functions and of the client, and the theorems at concrete inputs.
pub mod Data
pub mod Packets
pub mod Reading
pub mod Cpp
pub mod Clock
pub mod Board
pub mod FreeRtos
pub mod Ftp
pub mod Topics
pub mod Malformed
pub mod Device
pub mod Sessions
pub mod Outcomes
pub mod Server
