-- ===== src/Backbone.antt =====
-- src/backbone.h and src/backbone.c: the client of the backbone hub.
pub mod Codec
pub mod Replay
pub mod Policy
pub mod State
pub mod Report
pub mod Handshake
pub mod Bridge
pub mod Inbound
pub mod Service
pub mod Quiet
pub mod RateLimit
pub mod Life
pub mod Invariant
pub mod Authentic
pub mod Agree
pub mod Retry
pub mod Samples
pub mod Tests
