-- ===== src/Mesh/State.antt =====
-- src/mesh.h: the state of the repeater core, and what it reads from outside during a call.
use meshcore_repeater.Common.{ℕ, Bool, true, false, List, [], replicate, ℤ, pos}
use meshcore_repeater.Crypto.{Crypto}
use meshcore_repeater.Identity.{Identity}
use meshcore_repeater.Config.{Config, Channel}
use meshcore_repeater.Mbox.{Mbox, mbox_init}
use meshcore_repeater.Packet.{Packet}
use meshcore_repeater.Packet.Codec.{zero_packet}

abbrev pub mesh_seen_size : ℕ
mesh_seen_size = 160

abbrev pub mesh_txq_size : ℕ
mesh_txq_size = 24

abbrev pub mesh_max_neighbors : ℕ
mesh_max_neighbors = 96

abbrev pub max_affinity : ℕ
max_affinity = 16

-- What a call reads from outside: the vendored primitives, hal_millis(), time(NULL), the air time of
-- a frame (floating point over the radio settings), gmtime_r's year, month and day. The clocks stand
-- still during one call.
pub record Env : Type 0 where
  pub crypto : Crypto
  pub millis : ℕ
  pub unix : ℕ
  pub airtime : ℕ → ℕ
  pub utc_date : ℕ → ℕ × ℕ × ℕ

-- MESH_SRC_*.
pub data RxSource : Type 0 where
  from_rf from_backbone : RxSource

-- MESH_RX_*.
pub data RxResult : Type 0 where
  forwarded duplicate refused accepted_local malformed : RxResult

-- `mesh_stats_t`.
pub record Stats : Type 0 where
  pub rx_total : ℕ
  pub rx_bad_parse : ℕ
  pub rx_crc_err : ℕ
  pub rx_hdr_err : ℕ
  pub rx_dup : ℕ
  pub rx_advert : ℕ
  pub rx_advert_bad : ℕ
  pub fwd_flood : ℕ
  pub fwd_direct : ℕ
  pub fwd_dropped : ℕ
  pub trace_seen : ℕ
  pub fwd_grp_public : ℕ
  pub fwd_region : ℕ
  pub rx_transport_flood : ℕ
  pub fwd_denied : ℕ
  pub fwd_denied_dm : ℕ
  pub fwd_denied_grp : ℕ
  pub fwd_denied_other : ℕ
  pub grp_mac_fail : ℕ
  pub ping_seen : ℕ
  pub pong_sent : ℕ
  pub probes_sent : ℕ
  pub mbox_stored : ℕ
  pub mbox_replies : ℕ
  pub timeofday_sent : ℕ
  pub help_sent : ℕ
  pub blacklisted : ℕ
  pub tx_total : ℕ
  pub tx_cad_busy : ℕ
  pub tx_queue_full : ℕ
  pub tx_failed : ℕ
  pub radio_resets : ℕ
  pub adverts_sent : ℕ
  pub tx_silent : ℕ
  pub tx_airtime_ms : ℕ
  pub rx_airtime_ms : ℕ

-- `mesh_neighbor_t`.
pub record Neighbor : Type 0 where
  pub used : Bool
  pub public_key : List ℕ
  pub name : List ℕ
  pub type : ℕ
  pub rssi : ℤ
  pub snr_q : ℤ
  pub last_seen : ℕ
  pub count : ℕ
  pub hops : ℕ

-- `mesh_tx_entry_t`.
pub record TxEntry : Type 0 where
  pub used : Bool
  pub pkt : Packet
  pub due_ms : ℕ
  pub priority : ℕ
  pub power_dbm : ℤ

-- One slot of `mbox_gate`.
pub record Gate : Type 0 where
  pub call : List ℕ
  pub next_ms : ℕ

-- What the core hands to other parts, newest first: backbone_offer, backbone_status_soon,
-- aprsis_gate_node, a frame to the radio at a power, sx126x_reinit.
pub data Output : Type 0 where
  offer : List ℕ → Bool → Output
  status_soon : Output
  gate_node : List ℕ → ℕ → ℤ → ℤ → List ℕ → Output
  transmit : List ℕ → ℤ → ℕ → Output
  reinit : Output

-- `mc_mesh_t`, with the HAL's random state. `aprs_on` and `backbone_on` say that the pointers are
-- set. The live monitors and the log only watch, and are left out.
pub record Mesh : Type 0 where
  pub id : Identity
  pub cfg : Config
  pub seen : List (List ℕ)
  pub seen_idx : ℕ
  pub txq : List TxEntry
  pub neighbors : List Neighbor
  pub stats : Stats
  pub start_ms : ℕ
  pub aprs_on : Bool
  pub backbone_on : Bool
  pub rx_src : RxSource
  pub affinity_hash : List ℕ
  pub hs_awake_until_ms : ℕ
  pub hs_woken_by : List ℕ
  pub hs_silent : Bool
  pub last_advert_ms : ℕ
  pub probe_ch : Channel
  pub probe_interval_ms : ℕ
  pub probe_total : ℕ
  pub probe_remaining : ℕ
  pub probe_seq : ℕ
  pub probe_next_ms : ℕ
  pub mbox : Mbox
  pub mbox_gate : List Gate
  pub tod_ch : Channel
  pub tod_minute : ℕ
  pub tod_time_pending : Bool
  pub tod_date_pending : Bool
  pub mesh_help_next_ms : ℕ
  pub rng_state : ℕ
  pub outputs : List Output

abbrev pub is_backbone : RxSource → Bool
is_backbone from_rf = false
is_backbone from_backbone = true

abbrev pub zero_stats : Stats
zero_stats = record {
  rx_total = 0;
  rx_bad_parse = 0;
  rx_crc_err = 0;
  rx_hdr_err = 0;
  rx_dup = 0;
  rx_advert = 0;
  rx_advert_bad = 0;
  fwd_flood = 0;
  fwd_direct = 0;
  fwd_dropped = 0;
  trace_seen = 0;
  fwd_grp_public = 0;
  fwd_region = 0;
  rx_transport_flood = 0;
  fwd_denied = 0;
  fwd_denied_dm = 0;
  fwd_denied_grp = 0;
  fwd_denied_other = 0;
  grp_mac_fail = 0;
  ping_seen = 0;
  pong_sent = 0;
  probes_sent = 0;
  mbox_stored = 0;
  mbox_replies = 0;
  timeofday_sent = 0;
  help_sent = 0;
  blacklisted = 0;
  tx_total = 0;
  tx_cad_busy = 0;
  tx_queue_full = 0;
  tx_failed = 0;
  radio_resets = 0;
  adverts_sent = 0;
  tx_silent = 0;
  tx_airtime_ms = 0;
  rx_airtime_ms = 0;
}

abbrev pub free_neighbor : Neighbor
free_neighbor = record {
  used = false;
  public_key = replicate 32 0;
  name = [];
  type = 0;
  rssi = pos 0;
  snr_q = pos 0;
  last_seen = 0;
  count = 0;
  hops = 0;
}

abbrev pub free_entry : TxEntry
free_entry = record { used = false; pkt = zero_packet; due_ms = 0; priority = 0; power_dbm = pos 0 }

abbrev pub free_gate : Gate
free_gate = record { call = []; next_ms = 0 }

abbrev pub no_channel : Channel
no_channel = record {
  name = [];
  secret = replicate 32 0;
  secret_len = 0;
  hash = 0;
  derived = false;
  hub = false;
}

-- mesh_init, with the random state that hal_rng_init left.
abbrev pub mesh_init : Identity → Config → ℕ → ℕ → Mesh
mesh_init id cfg now rng = record {
  id = id;
  cfg = cfg;
  seen = replicate 160 (replicate 8 0);
  seen_idx = 0;
  txq = replicate 24 free_entry;
  neighbors = replicate 96 free_neighbor;
  stats = zero_stats;
  start_ms = now;
  aprs_on = false;
  backbone_on = false;
  rx_src = from_rf;
  affinity_hash = [];
  hs_awake_until_ms = 0;
  hs_woken_by = [];
  hs_silent = false;
  last_advert_ms = now;
  probe_ch = no_channel;
  probe_interval_ms = 0;
  probe_total = 0;
  probe_remaining = 0;
  probe_seq = 0;
  probe_next_ms = 0;
  mbox = mbox_init;
  mbox_gate = replicate 8 free_gate;
  tod_ch = no_channel;
  tod_minute = 0;
  tod_time_pending = false;
  tod_date_pending = false;
  mesh_help_next_ms = 0;
  rng_state = rng;
  outputs = [];
}
