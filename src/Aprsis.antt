-- ===== src/Aprsis.antt =====
-- src/aprsis.h and src/aprsis.c: the client of APRS-IS.
pub mod Callsign
pub mod Gate
pub mod Session
pub mod Bounds
pub mod Reached
pub mod Tests
use meshcore_repeater.Common.{
  ℕ, ◌+◌, ◌*◌, Bool, true, false, List, [], ◌∷◌, ◌++◌, ltb, if◌then◌else◌, length, ℤ,
}

-- APRSIS_MAX_NODES, APRSIS_TXBUF, APRSIS_RXBUF
abbrev pub aprsis_max_nodes : ℕ
aprsis_max_nodes = 64

abbrev pub aprsis_txbuf : ℕ
aprsis_txbuf = 2048

abbrev pub aprsis_rxbuf : ℕ
aprsis_rxbuf = 600

-- `aprsis_node_t`. A position is in millionths of a degree.
pub record Node : Type 0 where
  pub call : List ℕ
  pub last_ms : ℕ
  pub lat : ℤ
  pub lon : ℤ

-- `aprsis_state_t`.
pub data AprsisState : Type 0 where
  aprsis_disconnected aprsis_connecting aprsis_login aprsis_ready : AprsisState

-- The fields of `mc_config_t` that the client reads.
pub record AprsisSettings : Type 0 where
  pub enable : Bool
  pub call : List ℕ
  pub passcode : List ℕ
  pub tocall : List ℕ
  pub node_symbol : List ℕ
  pub beacon_interval : ℕ
  pub node_rate : ℕ

-- `mc_aprsis`. `fd` says whether the socket is open; a buffer is the bytes in use.
pub record Aprsis : Type 0 where
  pub cfg : AprsisSettings
  pub our_pub : List ℕ
  pub passcode : ℤ
  pub fd : Bool
  pub state : AprsisState
  pub resolved : Bool
  pub next_connect_ms : ℕ
  pub backoff_s : ℕ
  pub deadline_ms : ℕ
  pub last_beacon_ms : ℕ
  pub txbuf : List ℕ
  pub rxbuf : List ℕ
  pub nodes : List Node
  pub stat_gated : ℕ
  pub stat_beacons : ℕ
  pub stat_dropped : ℕ

abbrev pub is_disconnected : AprsisState → Bool
is_disconnected aprsis_disconnected = true
is_disconnected aprsis_connecting = false
is_disconnected aprsis_login = false
is_disconnected aprsis_ready = false

abbrev pub is_login : AprsisState → Bool
is_login aprsis_disconnected = false
is_login aprsis_connecting = false
is_login aprsis_login = true
is_login aprsis_ready = false

abbrev pub is_ready : AprsisState → Bool
is_ready aprsis_disconnected = false
is_ready aprsis_connecting = false
is_ready aprsis_login = false
is_ready aprsis_ready = true

-- A line that does not fit is dropped whole.
unfoldable pub tx_queue : Aprsis → List ℕ → Aprsis
tx_queue a line =
    if ltb aprsis_txbuf (length a.txbuf + length line)
    then record a { stat_dropped = a.stat_dropped + 1 }
    else record a { txbuf = a.txbuf ++ line }

unfoldable pub go_disconnected : Aprsis → ℕ → Bool → Aprsis
go_disconnected a now backoff_bump =
    let doubled = if ltb a.backoff_s 5 then 5 else a.backoff_s * 2 in
    let capped = if ltb 300 doubled then 300 else doubled in
    let b = if backoff_bump then capped else a.backoff_s in
    record a {
      fd = false;
      state = aprsis_disconnected;
      txbuf = [];
      rxbuf = [];
      backoff_s = b;
      next_connect_ms = now + b * 1000;
    }
