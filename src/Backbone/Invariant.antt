-- ===== src/Backbone/Invariant.antt =====
-- src/backbone.c: the invariant of the client over its operations.
pub mod Handshake
pub mod Session
pub mod Service
use meshcore_repeater.Backbone.State.{Client}
use meshcore_repeater.Backbone.Life.{life, Wf}

-- The invariant, of a client.
abbrev pub ClientWf : Client → Type 0
ClientWf bb = Wf (life bb)
