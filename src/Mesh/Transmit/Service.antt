-- ===== src/Mesh/Transmit/Service.antt =====
-- src/mesh.c: what one call of mesh_service_tx sends, and what it leaves in the queue.
use meshcore_repeater.Common.{
  ℕ, ◌+◌, ◌*◌, ◌≤◌, ◌≡◌, ◌⊎◌, inl, inr, refl, ap, subst, Bool, true, false, ◌&&◌, List, [], ◌∷◌,
  Option, none, some, if◌then◌else◌, length, get_elem?, set, arith, Bool-cases, ℤ,
}
use meshcore_repeater.Packet.{IsValid}
use meshcore_repeater.Packet.Body.{serialize_total, wire}
use meshcore_repeater.Mesh.State.{Mesh, Env, TxEntry, status_soon, transmit, reinit}
use meshcore_repeater.Mesh.Random.{hal_rng_int, hal_rng_int_bounds}
use meshcore_repeater.Mesh.Queue.{mesh_rf_silent, pick_due, count_free, mesh_txq_free}
use meshcore_repeater.Mesh.Queue.Order.{Chosen, pick_due-Chosen}
use meshcore_repeater.Mesh.Transmit.{
  Radio, clear_queue, count_queued, fall_silent, transmit_raw, service_entry, mesh_service_tx,
}

count_free-clear_queue : (es : List TxEntry) → count_free (clear_queue es) ≡ length es
unfolding count_free clear_queue
count_free-clear_queue [] = refl
count_free-clear_queue (e ∷ es) = ground (arith, count_free-clear_queue es)

length-clear_queue : (es : List TxEntry) → length (clear_queue es) ≡ length es
unfolding clear_queue
length-clear_queue [] = refl
length-clear_queue (e ∷ es) = ground (arith, length-clear_queue es)

count_queued-free : (es : List TxEntry) → count_queued es + count_free es ≡ length es
unfolding count_queued count_free
count_queued-free [] = refl
count_queued-free (e ∷ es) = elim (Bool-cases e.used) [
  | inl used ↦ ground (arith, used, count_queued-free es)
  | inr free ↦ ground (arith, free, count_queued-free es)
]

-- The call of a silent hotspot.
abbrev pub Silenced : Mesh → Mesh → Type 0
Silenced m m' =
    (mesh_txq_free m' ≡ length m.txq)
    × (length m'.txq ≡ length m.txq)
    × (m'.stats.tx_silent + mesh_txq_free m ≡ m.stats.tx_silent + length m.txq)
    × (m'.stats.tx_total ≡ m.stats.tx_total)
    × ((m'.outputs ≡ m.outputs) ⊎ (m'.outputs ≡ status_soon ∷ m.outputs))

-- A silent hotspot sends nothing: every slot of its queue becomes free, and the packets dropped are
-- counted. All that it hands out is word to the hub that its status is due.
pub mesh_service_tx-Silenced :
    (env : Env) (radio : Radio) (m : Mesh) (now : ℕ)
    → mesh_rf_silent m now ≡ true
    → Silenced m (mesh_service_tx env radio m now)
unfolding mesh_service_tx mesh_txq_free
mesh_service_tx-Silenced env radio m now silent = subst (Silenced m) quiet (
  count_free-clear_queue m.txq,
  length-clear_queue m.txq,
  omega (arith, count_queued-free m.txq),
  refl,
  told m,
)
  where
    quiet : fall_silent m ≡ mesh_service_tx env radio m now
    quiet = rw silent refl

    told :
        (m : Mesh)
        → ((fall_silent m).outputs ≡ m.outputs)
          ⊎ ((fall_silent m).outputs ≡ status_soon ∷ m.outputs)
    told m = elim (Bool-cases m.hs_silent) [
      | inl before ↦ inl (rw before refl)
      | inr first ↦ inr (rw first refl)
    ]

-- The entry stays, due 120 to 480 ms from now, and nothing is sent.
abbrev pub PutOff : Mesh → ℕ → ℕ → TxEntry → Mesh → Type 0
PutOff m now i e m' =
    (m'.outputs ≡ m.outputs)
    × ((due : ℕ) × (now + 120 ≤ due)
        × (due ≤ now + 480)
        × (m'.txq ≡ set m.txq i (record e { due_ms = due })))

-- The entry's packet was handed to the radio once, at its power, and its slot is free.
abbrev pub Sent : Env → Radio → Mesh → ℕ → TxEntry → Mesh → Type 0
Sent env radio m i e m' =
    let frame = transmit (wire e.pkt) e.power_dbm (env.airtime (length (wire e.pkt)) + 1000) in
    (m'.txq ≡ set m.txq i (record e { used = false }))
    × (m'.outputs ≡ (if radio.tx_completes then frame ∷ m.outputs else reinit ∷ frame ∷ m.outputs))

-- What a call does with what pick_due found.
abbrev pub Served : Env → Radio → Mesh → ℕ → Option (ℕ × TxEntry) → Mesh → Type 0
Served env radio m now none m' = m' ≡ m
Served env radio m now (some (i, e)) m' =
    if m.cfg.use_cad && radio.channel_busy then PutOff m now i e m' else Sent env radio m i e m'

if-intro : (b : Bool) (P Q : Type 0) → (b ≡ true → P) → (b ≡ false → Q) → if b then P else Q
if-intro true P Q h k = h refl
if-intro false P Q h k = k refl

transmit_raw-outputs :
    (env : Env) (radio : Radio) (m : Mesh) (raw : List ℕ) (power : ℤ)
    → let frame = transmit raw power (env.airtime (length raw) + 1000) in
      ((transmit_raw env radio m raw power).txq ≡ m.txq)
      × ((transmit_raw env radio m raw power).outputs
          ≡ (if radio.tx_completes then frame ∷ m.outputs else reinit ∷ frame ∷ m.outputs))
unfolding transmit_raw
transmit_raw-outputs env radio m raw power = elim (Bool-cases radio.tx_completes) [
  | inl done ↦ rw (transmit_raw, done) (refl, refl)
  | inr failed ↦ rw (transmit_raw, failed) (refl, refl)
]

service_entry-Served :
    (env : Env) (radio : Radio) (m : Mesh) (now i : ℕ) (e : TxEntry)
    → IsValid e.pkt
    → Served env radio m now (some (i, e)) (service_entry env radio m now i e)
unfolding service_entry
service_entry-Served env radio m now i e v =
    if-intro (m.cfg.use_cad && radio.channel_busy) _ _
      (λ busy.
        let k : ℕ = (hal_rng_int m.rng_state 1 4).1 in
        let (lo, hi) = hal_rng_int_bounds m.rng_state 1 4 (omega arith) in
        rw (service_entry, busy)
          (refl, (now + k * 120, omega (arith, lo), omega (arith, hi), refl)))
      (λ free.
        let (kept, out) = transmit_raw-outputs env radio m (wire e.pkt) e.power_dbm in
        rw (service_entry, free, serialize_total e.pkt v)
          (ap (λ q. set q i (record e { used = false })) kept, out))

-- The used entries hold packets that can be serialised.
abbrev pub HoldsValid : List TxEntry → Type 0
HoldsValid es = (i : ℕ) (e : TxEntry) → get_elem? es i ≡ some e → e.used ≡ true → IsValid e.pkt

picked-IsValid :
    (es : List TxEntry) (now i : ℕ) (e : TxEntry)
    → HoldsValid es
    → Chosen now es 0 (some (i, e))
    → IsValid e.pkt
picked-IsValid es now i e v (due, best, (k, h, at)) = v k e at due.0

-- A node that is not silent, whose queue holds valid packets, serves exactly the most urgent due
-- entry: if the channel is busy the entry is put off by 120 to 480 ms, else the packet's wire image
-- goes to the radio once, at the entry's power, and its slot becomes free (a radio that fails to
-- complete is then reset). No other slot changes, and with nothing due nothing changes at all.
pub mesh_service_tx-Served :
    (env : Env) (radio : Radio) (m : Mesh) (now : ℕ)
    → mesh_rf_silent m now ≡ false
    → HoldsValid m.txq
    → Chosen now m.txq 0 (pick_due m now)
      × Served env radio m now (pick_due m now) (mesh_service_tx env radio m now)
unfolding mesh_service_tx
mesh_service_tx-Served env radio m now awake v =
    (pick_due-Chosen m now, served (pick_due m now) refl)
  where
    served :
        (o : Option (ℕ × TxEntry))
        → pick_due m now ≡ o
        → Served env radio m now o (mesh_service_tx env radio m now)
    served none e = rw (mesh_service_tx, awake, e) refl
    served (some (i, x)) e =
        let same : service_entry env radio m now i x ≡ mesh_service_tx env radio m now =
          rw (awake, e) refl in
        subst (Served env radio m now (some (i, x))) same (
          service_entry-Served env radio m now i x
            (picked-IsValid m.txq now i x v (subst (Chosen now m.txq 0) e (pick_due-Chosen m now))))
