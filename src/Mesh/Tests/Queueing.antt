-- ===== src/Mesh/Tests/Queueing.antt =====
-- src/mesh.c: concrete runs of the transmit queue.
use meshcore_repeater.Common.{
  ℕ, zero, suc, ◌≡◌, refl, true, false, List, [], ◌∷◌, some, replicate, pos, arith, subst, some_inj,
}
use meshcore_repeater.Packet.{IsValid}
use meshcore_repeater.Mesh.State.{Mesh, TxEntry, free_entry}
use meshcore_repeater.Mesh.Seen.{seen_check_and_add, seen_contains}
use meshcore_repeater.Mesh.Seen.Memory.{seen_all, seen_remembers}
use meshcore_repeater.Mesh.Queue.{mesh_rf_silent, enqueue, pick_due, pick_from}
use meshcore_repeater.Mesh.Queue.Enqueue.{Queued, entry_of, enqueue-Queued}
use meshcore_repeater.Mesh.Queue.Order.{Chosen, pick_due-Chosen}
use meshcore_repeater.Mesh.Transmit.{Radio, mesh_service_tx}
use meshcore_repeater.Mesh.Transmit.Service.{
  Silenced, Served, HoldsValid, mesh_service_tx-Silenced, mesh_service_tx-Served,
}
use meshcore_repeater.Mesh.Samples.{
  sample_env, sample_node, silent_node, sample_packet, sample_packet-IsValid,
}
use meshcore_repeater.Common.Tests.{bytes_eq}

-- enqueue-Queued, on the empty queue.
enqueue-Queued_example :
    Queued sample_env sample_node
      (entry_of sample_env sample_packet 1 40 (pos 22))
      (enqueue sample_env sample_node sample_packet 1 40 (pos 22) false)
enqueue-Queued_example = enqueue-Queued sample_env sample_node sample_packet 1 40 (pos 22) false

abbrev waiting : ℕ → ℕ → TxEntry
waiting due prio = record {
  used = true;
  pkt = sample_packet;
  due_ms = due;
  priority = prio;
  power_dbm = pos 22;
}

-- Three packets wait: one for later, two due, the second of them of a higher priority.
abbrev busy_node : Mesh
busy_node = record sample_node {
  txq = waiting 9000 0 ∷ waiting 100 2 ∷ waiting 200 1 ∷ replicate 21 free_entry;
}

-- pick_due-Chosen, on three waiting packets.
pick_due-Chosen_example : Chosen 5000 busy_node.txq 0 (pick_due busy_node 5000)
pick_due-Chosen_example = pick_due-Chosen busy_node 5000

picked : pick_due busy_node 5000 ≡ some (2, waiting 200 1)
unfolding pick_due pick_from
picked = refl

abbrev idle_radio : Radio
idle_radio = record { channel_busy = false; tx_completes = true }

silent : mesh_rf_silent silent_node 5000 ≡ true
unfolding mesh_rf_silent
silent = refl

-- mesh_service_tx-Silenced, for a hotspot that has heard no companion.
mesh_service_tx-Silenced_example :
    Silenced silent_node (mesh_service_tx sample_env idle_radio silent_node 5000)
mesh_service_tx-Silenced_example =
    mesh_service_tx-Silenced sample_env idle_radio silent_node 5000 silent

free-HoldsValid : (n : ℕ) → HoldsValid (replicate n free_entry)
free-HoldsValid zero i e at used = absurd (cc)
free-HoldsValid (suc n) zero e at used = absurd (ground (arith, at, used))
free-HoldsValid (suc n) (suc i) e at used = free-HoldsValid n i e at used

waiting-HoldsValid :
    (due prio : ℕ) (es : List TxEntry) → HoldsValid es → HoldsValid (waiting due prio ∷ es)
waiting-HoldsValid due prio es v zero e at used =
    subst (λ x. IsValid x.pkt) (some_inj at) sample_packet-IsValid
waiting-HoldsValid due prio es v (suc i) e at used = v i e at used

busy-HoldsValid : HoldsValid busy_node.txq
busy-HoldsValid =
    waiting-HoldsValid 9000 0 (waiting 100 2 ∷ waiting 200 1 ∷ replicate 21 free_entry) (
      waiting-HoldsValid 100 2 (waiting 200 1 ∷ replicate 21 free_entry)
        (waiting-HoldsValid 200 1 (replicate 21 free_entry) (free-HoldsValid 21)))

awake : mesh_rf_silent busy_node 5000 ≡ false
unfolding mesh_rf_silent
awake = refl

-- mesh_service_tx-Served, on three waiting packets.
mesh_service_tx-Served_example :
    Chosen 5000 busy_node.txq 0 (pick_due busy_node 5000)
    × Served sample_env idle_radio busy_node 5000
        (pick_due busy_node 5000)
        (mesh_service_tx sample_env idle_radio busy_node 5000)
mesh_service_tx-Served_example =
    mesh_service_tx-Served sample_env idle_radio busy_node 5000 awake busy-HoldsValid

fresh_hash : (seen_check_and_add sample_node (replicate 8 7)).1 ≡ false
unfolding seen_check_and_add seen_contains bytes_eq
fresh_hash = refl

-- seen_remembers, two hashes later.
seen_remembers_example :
    let later =
      seen_all
        (seen_check_and_add sample_node (replicate 8 7)).0
        (replicate 8 1 ∷ replicate 8 2 ∷ []) in
    seen_check_and_add later (replicate 8 7) ≡ (later, true)
seen_remembers_example =
    seen_remembers sample_node (replicate 8 7) (replicate 8 1 ∷ replicate 8 2 ∷ [])
      (refl, omega arith) fresh_hash (omega arith)
