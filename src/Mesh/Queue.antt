-- ===== src/Mesh/Queue.antt =====
-- src/mesh.c: RF silence, the transmit queue, and which entry goes next.
pub mod Order
pub mod Enqueue
use meshcore_repeater.Common.{
  ℕ, zero, suc, ◌+◌, ◌<◌, ◌≡◌, Bool, true, false, not, ◌&&◌, ◌||◌, List, [], ◌∷◌, Option, none,
  some, ltb, leb, ◌==◌, if◌then◌else◌, get_or, set, ℤ, Result, ok, err,
}
use meshcore_repeater.Config.{Config, is_hotspot}
use meshcore_repeater.Packet.{Packet, max_trans_unit}
use meshcore_repeater.Packet.Codec.{serialize}
use meshcore_repeater.Mesh.State.{Mesh, Env, TxEntry, Stats, Output, offer, is_backbone, free_entry}

unfoldable pub mesh_rf_silent : Mesh → ℕ → Bool
mesh_rf_silent m now_ms =
    if not (is_hotspot m.cfg.role) || m.cfg.hotspot_awake == 0
    then false
    else leb m.hs_awake_until_ms now_ms

-- The first unused slot, from index `i` on.
unfoldable pub free_slot : List TxEntry → ℕ → Option ℕ
free_slot [] i = none
free_slot (e ∷ es) i = let rest = free_slot es (i + 1) in if e.used then rest else some i

-- The backbone hub is offered everything but its own frames.
unfoldable pub offer_backbone : Mesh → Packet → Bool → Mesh
offer_backbone m p own =
    if m.backbone_on && not (is_backbone m.rx_src)
    then elim (serialize p max_trans_unit) [
      | ok raw ↦ record m { outputs = offer raw own ∷ m.outputs }
      | err code ↦ m
    ]
    else m

unfoldable pub enqueue : Env → Mesh → Packet → ℕ → ℕ → ℤ → Bool → Mesh × Bool
unfolding offer_backbone
enqueue env m p priority delay_ms power_dbm own =
    if mesh_rf_silent m env.millis
    then (record m { stats = record (m.stats) { tx_silent = m.stats.tx_silent + 1 } }, false)
    else elim (free_slot m.txq 0) [
      | none ↦ (
        record m { stats = record (m.stats) { tx_queue_full = m.stats.tx_queue_full + 1 } },
        false,
      )
      | some i ↦
          let e : TxEntry = record {
            used = true;
            pkt = p;
            due_ms = env.millis + delay_ms;
            priority = priority;
            power_dbm = power_dbm;
          } in
          (offer_backbone (record m { txq = set m.txq i e }) p own, true)
    ]

unfoldable pub count_free : List TxEntry → ℕ
count_free [] = 0
count_free (e ∷ es) = (if e.used then 0 else 1) + count_free es

unfoldable pub mesh_txq_free : Mesh → ℕ
unfolding count_free
mesh_txq_free m = count_free m.txq

-- Whether entry `e` goes before the best one so far.
unfoldable pub more_urgent : TxEntry → TxEntry → Bool
more_urgent e best =
    ltb e.priority best.priority || (e.priority == best.priority && ltb e.due_ms best.due_ms)

-- The loop of pick_due, from index `i` on, with the best index and entry so far.
unfoldable pub pick_from : ℕ → List TxEntry → ℕ → Option (ℕ × TxEntry) → Option (ℕ × TxEntry)
unfolding more_urgent
pick_from now [] i best = best
pick_from now (e ∷ es) i best = pick_from now es (i + 1) (
    if not e.used || ltb now e.due_ms then best else elim best [
      | none ↦ some (i, e)
      | some (j, b) ↦ if more_urgent e b then some (i, e) else some (j, b)
    ])

unfoldable pub pick_due : Mesh → ℕ → Option (ℕ × TxEntry)
pick_due m now = pick_from now m.txq 0 none
