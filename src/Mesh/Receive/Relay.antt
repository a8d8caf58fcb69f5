-- ===== src/Mesh/Receive/Relay.antt =====
-- src/mesh.c: what mesh_on_recv queues for a packet that it passes on.
use meshcore_repeater.Common.{
  ℕ, ◌+◌, ◌*◌, ◌≤◌, ◌≡◌, ◌⊎◌, inl, inr, refl, sym, ap, ◌∙◌, subst, Bool, true, false, not, ◌&&◌,
  List, if◌then◌else◌, leb, arith, ◌==◌, Bool-cases, ℤ, set,
}
use meshcore_repeater.Config.{is_hotspot}
use meshcore_repeater.Identity.{hash_match}
use meshcore_repeater.Packet.{
  Packet, is_route_flood, path_hash_count, path_hash_size, max_path_size, set_path_hash_count,
  payload_type, payload_trace,
}
use meshcore_repeater.Packet.Codec.{calc_hash}
use meshcore_repeater.Mesh.Receive.Hops.{calc_hash_cong}
use meshcore_repeater.Mesh.State.{Mesh, Env, TxEntry, forwarded}
use meshcore_repeater.Mesh.Random.{flood_backoff_ms}
use meshcore_repeater.Mesh.Queue.{enqueue}
use meshcore_repeater.Mesh.Queue.Enqueue.{IsFreeAt, Queued, entry_of, enqueue-Queued}
use meshcore_repeater.Mesh.Hotspot.{hotspot_decide}
use meshcore_repeater.Mesh.Receive.{
  append_hop, forward_flood, strip_hop, forward_direct, forward_scoped,
}

-- The packet that goes out, with its priority: this node's hash appended to the path of a flood, or
-- stripped from the front of a direct packet's.
abbrev pub Onward : Mesh → Packet → Packet → ℕ → Type 0
Onward m p q prio =
    ((is_route_flood p ≡ true)
      × (p.marked_dnr ≡ false)
      × ((path_hash_count p + 1) * path_hash_size p ≤ max_path_size)
      × (q ≡ append_hop m p)
      × (prio ≡ path_hash_count p + 1))
    ⊎ ((is_route_flood p ≡ false)
        × (1 ≤ path_hash_count p)
        × (hash_match m.id p.path (path_hash_size p) ≡ true)
        × (q ≡ strip_hop p)
        × (prio ≡ 0))

-- One free slot of the queue has taken the packet, due no earlier than now.
abbrev pub Relayed : Env → Mesh → Packet → ℤ → Mesh → Type 0
Relayed env m p power m' =
    (e : TxEntry) × Onward m p e.pkt e.priority
    × (e.used ≡ true)
    × (env.millis ≤ e.due_ms)
    × (e.power_dbm ≡ power)
    × ((i : ℕ) × IsFreeAt m.txq i × (m'.txq ≡ set m.txq i e))

-- What enqueue answered, in the terms of the packet that came in.
sent-Relayed :
    (env : Env) (m m1 m' : Mesh) (p q : Packet) (prio delay : ℕ) (power : ℤ)
    → m1.txq ≡ m.txq
    → (enqueue env m1 q prio delay power false).1 ≡ true
    → m'.txq ≡ (enqueue env m1 q prio delay power false).0.txq
    → Onward m p q prio
    → Relayed env m p power m'
sent-Relayed env m m1 m' p q prio delay power same sent after onward =
    let (awake, (i, free, put), count) : Queued env m1 (entry_of env q prio delay power)
        ((enqueue env m1 q prio delay power false).0, true) =
      subst
        (λ b.
          Queued env m1 (entry_of env q prio delay power)
            ((enqueue env m1 q prio delay power false).0, b))
        sent (enqueue-Queued env m1 q prio delay power false) in
    (
      entry_of env q prio delay power,
      onward,
      refl,
      omega arith,
      refl,
      (
        i,
        subst (λ es. IsFreeAt es i) same free,
        after ∙ put ∙ ap (λ es. set es i (entry_of env q prio delay power)) same,
      ),
    )

flood_backoff-txq : (env : Env) (p : Packet) (m : Mesh) → (flood_backoff_ms env p m).0.txq ≡ m.txq
unfolding flood_backoff_ms
flood_backoff-txq env p m = refl

forward_flood-Relayed :
    (env : Env) (m : Mesh) (p : Packet) (power : ℤ)
    → is_route_flood p ≡ true
    → (forward_flood env m p power).1 ≡ forwarded
    → Relayed env m p power (forward_flood env m p power).0
unfolding forward_flood
forward_flood-Relayed env m p power flood h =
    let q = append_hop m p in
    let n = path_hash_count p + 1 in
    let m1 : Mesh = (flood_backoff_ms env q m).0 in
    let delay : ℕ = (flood_backoff_ms env q m).1 in
    elim (Bool-cases (not p.marked_dnr && leb (n * path_hash_size p) max_path_size)) [
      | inr full ↦ absurd (ground arith)
      | inl room ↦ elim (Bool-cases (enqueue env m1 q n delay power false).1) [
        | inr unsent ↦ absurd (ground arith)
        | inl sent ↦
            sent-Relayed env m m1 (forward_flood env m p power).0 p q n delay power
              (flood_backoff-txq env q m) sent (rw (forward_flood, room, sent) refl)
              (inl (flood, ground arith, ground arith, refl, refl))
      ]
    ]

forward_direct-Relayed :
    (env : Env) (m : Mesh) (p : Packet) (power : ℤ)
    → is_route_flood p ≡ false
    → (forward_direct env m p power).1 ≡ forwarded
    → Relayed env m p power (forward_direct env m p power).0
unfolding forward_direct
forward_direct-Relayed env m p power direct h =
    elim (Bool-cases (leb 1 (path_hash_count p) && hash_match m.id p.path (path_hash_size p))) [
      | inr elsewhere ↦ absurd (ground arith)
      | inl ours ↦ elim (Bool-cases (enqueue env m (strip_hop p) 0 0 power false).1) [
        | inr unsent ↦ absurd (ground arith)
        | inl sent ↦
            sent-Relayed env m m (forward_direct env m p power).0 p (strip_hop p) 0 0 power refl
              sent (rw (forward_direct, ours, sent) refl)
              (inr (direct, ground arith, ground arith, refl, refl))
      ]
    ]

-- The power a packet is passed on with.
abbrev pub relay_power : Mesh → Packet → List ℕ → List ℕ → ℤ
relay_power m p aname grp_sender =
    if is_hotspot m.cfg.role then (hotspot_decide m p aname grp_sender).1 else m.cfg.tx_power

-- A packet that forward_scoped passes on takes one free slot of the queue, and no other slot
-- changes. A flood goes out with this node's hash appended to a path that has room for it, unless
-- it is marked do-not-retransmit, at a priority that falls with the hops; a direct packet goes out
-- only if this node is the next hop, with that hop stripped, at the highest priority. A hotspot
-- passes on only what is in its scope, at the scope's power; the other roles use their own power.
pub forward_scoped-Relayed :
    (env : Env) (m : Mesh) (p : Packet) (aname grp_sender : List ℕ)
    → (forward_scoped env m p aname grp_sender).1 ≡ forwarded
    → Relayed env m p (relay_power m p aname grp_sender) (forward_scoped env m p aname grp_sender).0
      × (is_hotspot m.cfg.role && not (hotspot_decide m p aname grp_sender).0 ≡ false)
unfolding forward_scoped
forward_scoped-Relayed env m p aname grp_sender h =
    let scope : Bool = (hotspot_decide m p aname grp_sender).0 in
    let power : ℤ = relay_power m p aname grp_sender in
    elim (Bool-cases (is_hotspot m.cfg.role && not scope)) [
      | inl outside ↦ absurd (ground arith)
      | inr inside ↦ elim (Bool-cases (is_route_flood p)) [
        | inl flood ↦
            let same : forward_scoped env m p aname grp_sender ≡ forward_flood env m p power =
              rw (inside, flood) refl in
            (
              subst (λ r. Relayed env m p power r.0) (sym same)
                  (forward_flood-Relayed env m p power flood (ap (λ r. r.1) (sym same) ∙ h)),
              inside,
            )
        | inr direct ↦
            let same : forward_scoped env m p aname grp_sender ≡ forward_direct env m p power =
              rw (inside, direct) refl in
            (
              subst (λ r. Relayed env m p power r.0) (sym same)
                  (forward_direct-Relayed env m p power direct (ap (λ r. r.1) (sym same) ∙ h)),
              inside,
            )
      ]
    ]

-- A packet that is passed on keeps its dedup hash, whichever way it goes, unless it is a trace: its
-- echo from a neighbour is the same packet to the hash ring.
pub Onward-calc_hash :
    (sha256 : List ℕ → List ℕ) (m : Mesh) (p q : Packet) (prio : ℕ)
    → Onward m p q prio
    → (payload_type p == payload_trace) ≡ false
    → calc_hash sha256 q ≡ calc_hash sha256 p
unfolding append_hop strip_hop set_path_hash_count payload_type
Onward-calc_hash sha256 m p q prio (inl (_, _, _, e, _)) t =
    ap (calc_hash sha256) e ∙ calc_hash_cong sha256 p (append_hop m p) refl t refl refl
Onward-calc_hash sha256 m p q prio (inr (_, _, _, e, _)) t =
    ap (calc_hash sha256) e ∙ calc_hash_cong sha256 p (strip_hop p) refl t refl refl
