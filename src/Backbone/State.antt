-- ===== src/Backbone/State.antt =====
-- src/backbone.h, src/backbone.c: the state of the backbone client, what it reads from outside, and
-- the ends of a session.
use meshcore_repeater.Common.{
  ℕ, ◌+◌, ◌*◌, ◌%◌, ◌^◌, Bool, true, false, List, ◌∷◌, Option, none, some, ltb, leb, if◌then◌else◌,
  replicate,
}
use meshcore_repeater.Config.{Policy}
use meshcore_repeater.Mesh.State.{Env, Mesh}
use meshcore_repeater.Mesh.Random.{hal_rng_int, with_rng}
use meshcore_repeater.Backbone.Codec.{bb_max_dgram, bb_seal}
use meshcore_repeater.Backbone.Replay.{Window, fresh_window}

-- `bb_state_t`.
pub data BbState : Type 0 where
  bb_off bb_idle bb_resolving bb_hello_sent bb_up : BbState

-- The fields of `mc_config_t` that only the backbone reads; the others are in the mesh's settings,
-- which are the same object.
pub record Settings : Type 0 where
  pub enable : Bool
  pub have_hub_key : Bool
  pub hub_key : List ℕ
  pub host : List ℕ
  pub port : ℕ
  pub observe : Bool
  pub bridge : Bool
  pub rate : ℕ

-- `mc_backbone`. The mesh is always there and brings its identity and settings. `fd` says whether
-- the socket is open. `tokens` counts in 1/60000 of a frame. `sent` is what was handed to the
-- socket, newest first.
pub record Client : Type 0 where
  pub mesh : Mesh
  pub settings : Settings
  pub hub_pub : List ℕ
  pub roles_asked : ℕ
  pub state : BbState
  pub fd : Bool
  pub gai_busy : Bool
  pub next_try_ms : ℕ
  pub deadline_ms : ℕ
  pub backoff_s : ℕ
  pub hello_tries : ℕ
  pub eph_sec : List ℕ
  pub hello : List ℕ
  pub hello_hash : List ℕ
  pub last_hello_ts : ℕ
  pub sid : ℕ
  pub roles : ℕ
  pub k_up : List ℕ
  pub k_down : List ℕ
  pub seq_out : ℕ
  pub rwin : Window
  pub keepalive_s : ℕ
  pub status_s : ℕ
  pub neighbours_s : ℕ
  pub up_since_ms : ℕ
  pub last_rx_ms : ℕ
  pub next_keepalive_ms : ℕ
  pub next_status_ms : ℕ
  pub next_neighbours_ms : ℕ
  pub last_reset_ms : ℕ
  pub tokens : ℕ
  pub tokens_ms : ℕ
  pub pol : Policy
  pub pol_pages : ℕ
  pub pol_have : ℕ
  pub pol_min_seq : ℕ
  pub pol_max_seq : ℕ
  pub pol_applied_seq : ℕ
  pub sessions : ℕ
  pub dgrams_out : ℕ
  pub dgrams_in : ℕ
  pub observed : ℕ
  pub offered : ℕ
  pub injected : ℕ
  pub limited : ℕ
  pub rejected : ℕ
  pub sent : List (List ℕ)

-- What gai_error reports of a lookup.
pub data Lookup : Type 0 where
  lookup_running lookup_failed lookup_done : Lookup

-- What a call reads from outside: the mesh's environment, X25519 and the random bytes, whether
-- send() took a datagram whole, whether getaddrinfo_a started, what it found, whether socket() and
-- connect() succeeded, what recv() has to give, and the text of a status report (`none` when it
-- does not fit), which prints floating-point settings.
pub record Net : Type 0 where
  pub env : Env
  pub scalarmult : List ℕ → List ℕ → List ℕ
  pub scalarmult_base : List ℕ → List ℕ
  pub random_32 : List ℕ
  pub send_ok : List ℕ → Bool
  pub lookup_started : Bool
  pub lookup : Lookup
  pub connected : Bool
  pub inbox : List (List ℕ)
  pub status_text : Client → ℕ → Option (List ℕ)

abbrev pub bb_role_observe : ℕ
bb_role_observe = 0x01

abbrev pub bb_role_bridge : ℕ
bb_role_bridge = 0x02

abbrev pub bb_backoff_max : ℕ
bb_backoff_max = 300

-- `roles & BB_ROLE_OBSERVE`, `roles & BB_ROLE_BRIDGE`.
abbrev pub observing : Client → Bool
observing bb = leb 1 (bb.roles % 2)

abbrev pub bridging : Client → Bool
bridging bb = leb 2 (bb.roles % 4)

abbrev pub is_up : BbState → Bool
is_up bb_off = false
is_up bb_idle = false
is_up bb_resolving = false
is_up bb_hello_sent = false
is_up bb_up = true

abbrev pub is_hello_sent : BbState → Bool
is_hello_sent bb_off = false
is_hello_sent bb_idle = false
is_hello_sent bb_resolving = false
is_hello_sent bb_hello_sent = true
is_hello_sent bb_up = false

abbrev pub reject : Client → Client
reject bb = record bb { rejected = bb.rejected + 1 }

unfoldable pub send_raw : Net → Client → List ℕ → Client
send_raw net bb d =
    if bb.fd
    then record bb {
      sent = d ∷ bb.sent;
      dgrams_out = bb.dgrams_out + (if net.send_ok d then 1 else 0);
    }
    else bb

unfoldable pub send_session : Net → Client → ℕ → List ℕ → Client
unfolding send_raw
send_session net bb type body =
    let next : Client = record bb { seq_out = (bb.seq_out + 1) % 2 ^ 32 } in
    elim (bb_seal net.env.crypto bb_max_dgram type bb.sid next.seq_out body bb.k_up) [
      | none ↦ next
      | some d ↦ send_raw net next d
    ]

unfoldable pub forget_session : Client → Client
forget_session bb = record bb {
  k_up = replicate 32 0;
  k_down = replicate 32 0;
  eph_sec = replicate 32 0;
  sid = 0;
  roles = 0;
  seq_out = 0;
  rwin = fresh_window;
  fd = false;
  state = bb_idle;
}

unfoldable pub retry_later : Client → ℕ → Client
unfolding forget_session
retry_later bb now =
    let b = bb.backoff_s in
    let (rng, jitter) = hal_rng_int bb.mesh.rng_state 0 (b * 250 % 2 ^ 32) in
    record (forget_session bb) {
      mesh = with_rng bb.mesh rng;
      next_try_ms = now + b * 1000 + jitter;
      backoff_s = if ltb bb_backoff_max (b * 2) then bb_backoff_max else b * 2;
    }
