-- ===== src/Mesh/Queue/Enqueue.antt =====
-- src/mesh.c: what enqueue does to the queue.
use meshcore_repeater.Common.{
  ℕ, zero, suc, ◌+◌, ◌≡◌, ◌⊎◌, inl, inr, refl, ap, ◌∙◌, subst, Bool, true, false, not, ◌&&◌, List,
  [], ◌∷◌, Option, none, some, get_elem?, set, arith, Bool-cases, Option-cases, ℤ, Result-cases,
}
use meshcore_repeater.Packet.{Packet, max_trans_unit}
use meshcore_repeater.Packet.Codec.{serialize}
use meshcore_repeater.Mesh.State.{Mesh, Env, TxEntry, is_backbone}
use meshcore_repeater.Mesh.Queue.{
  mesh_rf_silent, free_slot, offer_backbone, enqueue, count_free, mesh_txq_free,
}

-- Slot `i` of the queue holds an unused entry.
abbrev pub IsFreeAt : List TxEntry → ℕ → Type 0
IsFreeAt es i = (e : TxEntry) × (get_elem? es i ≡ some e) × (e.used ≡ false)

-- What free_slot answers from index `i` on.
abbrev SlotFound : List TxEntry → ℕ → Option ℕ → Type 0
SlotFound es i none = count_free es ≡ 0
SlotFound es i (some k) = (j : ℕ) × (k ≡ i + j) × IsFreeAt es j

SlotFound-later :
    (e : TxEntry) (es : List TxEntry) (i : ℕ) (o : Option ℕ)
    → e.used ≡ true
    → SlotFound es (i + 1) o
    → SlotFound (e ∷ es) i o
unfolding count_free
SlotFound-later e es i none u h = ground (arith, u, h)
SlotFound-later e es i (some k) u (j, h, f) = (suc j, omega arith, f)

free_slot-SlotFound : (es : List TxEntry) (i : ℕ) → SlotFound es i (free_slot es i)
unfolding free_slot count_free
free_slot-SlotFound [] i = refl
free_slot-SlotFound (e ∷ es) i = elim (Bool-cases e.used) [
  | inl u ↦
      subst (SlotFound (e ∷ es) i) (free_slot-used e es i u)
        (SlotFound-later e es i (free_slot es (i + 1)) u (free_slot-SlotFound es (i + 1)))
  | inr u ↦ subst (SlotFound (e ∷ es) i) (free_slot-unused e es i u) (0, omega arith, (e, refl, u))
]
  where
    free_slot-used :
        (e : TxEntry) (es : List TxEntry) (i : ℕ)
        → e.used ≡ true
        → free_slot es (i + 1) ≡ free_slot (e ∷ es) i
    free_slot-used e es i u = ground (arith, u)

    free_slot-unused :
        (e : TxEntry) (es : List TxEntry) (i : ℕ) → e.used ≡ false → some i ≡ free_slot (e ∷ es) i
    free_slot-unused e es i u = ground (arith, u)

count_free-set :
    (es : List TxEntry) (i : ℕ) (e : TxEntry)
    → IsFreeAt es i
    → e.used ≡ true
    → count_free (set es i e) + 1 ≡ count_free es
unfolding count_free
count_free-set [] i e (f, h, u) used = absurd (cc)
count_free-set (x ∷ es) zero e (f, h, u) used = ground (arith, h, u, used)
count_free-set (x ∷ es) (suc i) e (f, h, u) used =
    ground (arith, count_free-set es i e (f, h, u) used)

offer_backbone-txq : (m : Mesh) (p : Packet) (own : Bool) → (offer_backbone m p own).txq ≡ m.txq
unfolding offer_backbone
offer_backbone-txq m p own = elim (Bool-cases (m.backbone_on && not (is_backbone m.rx_src))) [
  | inr off ↦ rw (offer_backbone, off) refl
  | inl on ↦ elim (Result-cases (serialize p max_trans_unit)) [
    | inl (raw, e) ↦ rw (offer_backbone, on, e) refl
    | inr (n, e) ↦ rw (offer_backbone, on, e) refl
  ]
]

-- What enqueue leaves behind.
abbrev pub Queued : Env → Mesh → TxEntry → Mesh × Bool → Type 0
Queued env m e (m', true) =
    (mesh_rf_silent m env.millis ≡ false)
    × ((i : ℕ) × IsFreeAt m.txq i × (m'.txq ≡ set m.txq i e))
    × (mesh_txq_free m' + 1 ≡ mesh_txq_free m)
Queued env m e (m', false) =
    (m'.txq ≡ m.txq)
    × (m'.outputs ≡ m.outputs)
    × ((mesh_rf_silent m env.millis ≡ true) ⊎ (mesh_txq_free m ≡ 0))

abbrev pub entry_of : Env → Packet → ℕ → ℕ → ℤ → TxEntry
entry_of env p priority delay_ms power = record {
  used = true;
  pkt = p;
  due_ms = env.millis + delay_ms;
  priority = priority;
  power_dbm = power;
}

-- enqueue succeeds just when the node is not silent and a slot is free: a free slot then takes the
-- packet with its due time, priority and power, no other slot changes, and one slot fewer is free.
-- Otherwise the queue is as it was, and nothing is offered to the hub.
pub enqueue-Queued :
    (env : Env) (m : Mesh) (p : Packet) (prio delay : ℕ) (power : ℤ) (own : Bool)
    → Queued env m (entry_of env p prio delay power) (enqueue env m p prio delay power own)
unfolding enqueue mesh_txq_free
enqueue-Queued env m p prio delay power own = elim (Bool-cases (mesh_rf_silent m env.millis)) [
  | inl silent ↦ rw (enqueue, silent) (refl, refl, inl silent)
  | inr awake ↦ elim (Option-cases (free_slot m.txq 0)) [
    | inl full ↦
        rw (enqueue, awake, full)
          (refl, refl, inr (subst (SlotFound m.txq 0) full (free_slot-SlotFound m.txq 0)))
    | inr (i, found) ↦
        let e : TxEntry = entry_of env p prio delay power in
        let (j, h, f) = subst (SlotFound m.txq 0) found (free_slot-SlotFound m.txq 0) in
        let here : j ≡ i = omega (arith, h) in
        let free : IsFreeAt m.txq i = subst (IsFreeAt m.txq) here f in
        let kept = offer_backbone-txq (record m { txq = set m.txq i e }) p own in
        rw (enqueue, awake, found)
          (
            awake,
            (i, free, kept),
            ap (λ q. count_free q + 1) kept ∙ count_free-set m.txq i e free refl,
          )
  ]
]
