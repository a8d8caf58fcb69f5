-- ===== src/Mesh.antt =====
-- src/mesh.h and src/mesh.c: the repeater core.
pub mod State
pub mod Setup
pub mod Random
pub mod Seen
pub mod Neighbors
pub mod Queue
pub mod Policy
pub mod Hotspot
pub mod Channel
pub mod Originate
pub mod Commands
pub mod Replies
pub mod Mailbox
pub mod Probe
pub mod Group
pub mod Receive
pub mod Transmit
pub mod Samples
pub mod Tests
