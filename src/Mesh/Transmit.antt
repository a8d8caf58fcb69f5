-- ===== src/Mesh/Transmit.antt =====
-- src/mesh.c: mesh_service_tx, which sends the most urgent due entry.
pub mod Service
use meshcore_repeater.Common.{
  ℕ, ◌+◌, ◌*◌, Bool, true, false, not, ◌&&◌, List, [], ◌∷◌, Option, none, some, if◌then◌else◌,
  length, set, ℤ, Result, ok, err,
}
use meshcore_repeater.Packet.{max_trans_unit}
use meshcore_repeater.Packet.Codec.{serialize}
use meshcore_repeater.Mesh.State.{Mesh, Env, TxEntry, Stats, Output, status_soon, transmit, reinit}
use meshcore_repeater.Mesh.Random.{hal_rng_int}
use meshcore_repeater.Mesh.Queue.{mesh_rf_silent, pick_due}

-- What the radio answers during a call: the channel is busy, the transmission completed.
pub record Radio : Type 0 where
  pub channel_busy : Bool
  pub tx_completes : Bool

-- Nothing queued goes out late: the used entries are dropped and counted.
unfoldable pub clear_queue : List TxEntry → List TxEntry
clear_queue [] = []
clear_queue (e ∷ es) = record e { used = false } ∷ clear_queue es

unfoldable pub count_queued : List TxEntry → ℕ
count_queued [] = 0
count_queued (e ∷ es) = (if e.used then 1 else 0) + count_queued es

unfoldable pub fall_silent : Mesh → Mesh
unfolding clear_queue count_queued
fall_silent m = record m {
  hs_silent = true;
  outputs = if m.hs_silent then m.outputs else status_soon ∷ m.outputs;
  txq = clear_queue m.txq;
  stats = record (m.stats) { tx_silent = m.stats.tx_silent + count_queued m.txq };
}

-- A frame that was serialised goes to the radio; a failed transmission resets the radio.
unfoldable pub transmit_raw : Env → Radio → Mesh → List ℕ → ℤ → Mesh
transmit_raw env radio m raw power =
    let airtime = env.airtime (length raw) in
    let m' : Mesh = record m { outputs = transmit raw power (airtime + 1000) ∷ m.outputs } in
    if radio.tx_completes
    then record m' {
      stats = record (m.stats) {
        tx_total = m.stats.tx_total + 1;
        tx_airtime_ms = m.stats.tx_airtime_ms + airtime;
      };
    }
    else record m' {
      stats = record (m.stats) {
        tx_failed = m.stats.tx_failed + 1;
        radio_resets = m.stats.radio_resets + 1;
      };
      outputs = reinit ∷ m'.outputs;
    }

-- The picked entry `e` at index `i`: put off if the channel is busy, else sent once and freed.
unfoldable pub service_entry : Env → Radio → Mesh → ℕ → ℕ → TxEntry → Mesh
unfolding transmit_raw
service_entry env radio m now_ms i e =
    let (state, k) = hal_rng_int m.rng_state 1 4 in
    let sent : Mesh = elim (serialize e.pkt max_trans_unit) [
      | err code ↦ m
      | ok raw ↦ transmit_raw env radio m raw e.power_dbm
    ] in
    if m.cfg.use_cad && radio.channel_busy
    then record m {
      rng_state = state;
      stats = record (m.stats) { tx_cad_busy = m.stats.tx_cad_busy + 1 };
      txq = set m.txq i (record e { due_ms = now_ms + k * 120 });
    }
    else record sent { txq = set sent.txq i (record e { used = false }) }

unfoldable pub mesh_service_tx : Env → Radio → Mesh → ℕ → Mesh
unfolding fall_silent service_entry
mesh_service_tx env radio m now_ms =
    if mesh_rf_silent m now_ms
    then fall_silent m
    else elim (pick_due m now_ms) [ none ↦ m | some (i, e) ↦ service_entry env radio m now_ms i e ]
