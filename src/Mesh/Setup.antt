-- ===== src/Mesh/Setup.antt =====
-- src/mesh.c: what no operation of the core changes.
use meshcore_repeater.Common.{
  ℕ, ◌+◌, ◌%◌, ◌^◌, ltb, length, get_or, ◌≡◌, inl, inr, refl, ◌∙◌, Bool, true, false, not, ◌&&◌,
  ◌||◌, List, ◌==◌, if◌then◌else◌, Bool-cases, Option-cases, Result-cases, ℤ,
}
use meshcore_repeater.Config.{is_hotspot, config_is_affinity}
use meshcore_repeater.Packet.{Packet, path_hash_count, max_trans_unit}
use meshcore_repeater.Packet.Codec.{serialize, calc_hash}
use meshcore_repeater.Advert.{adv_type_chat, advert_build, advert_extract_location}
use meshcore_repeater.Mesh.State.{Mesh, Env, Stats, is_backbone, max_affinity}
use meshcore_repeater.Mesh.Seen.{seen_check_and_add, seen_contains}
use meshcore_repeater.Mesh.Random.{small_jitter_ms}
use meshcore_repeater.Mesh.Neighbors.{neighbor_update}
use meshcore_repeater.Mesh.Queue.{mesh_rf_silent, free_slot, offer_backbone, enqueue}
use meshcore_repeater.Mesh.Originate.{own_tx_power, originate, mesh_send_advert, self_advert}
use meshcore_repeater.Mesh.Hotspot.{byte_in, is_companion_name, learn_affinity, hotspot_wake}
use meshcore_repeater.Mesh.Receive.{with_stats, if_rf, note_advert, gate_advert}

-- The configuration, the identity and the source of the frame are as before.
abbrev pub SameConfig : Mesh → Mesh → Type 0
SameConfig m m' = (m'.cfg ≡ m.cfg) × (m'.id ≡ m.id) × (m'.rx_src ≡ m.rx_src)

pub SameConfig-trans : (a b c : Mesh) → SameConfig a b → SameConfig b c → SameConfig a c
SameConfig-trans a b c h k = (k.0 ∙ h.0, k.1 ∙ h.1, k.2 ∙ h.2)

pub if_rf-SameConfig : (m : Mesh) (s : Stats) → SameConfig m (if_rf m s)
if_rf-SameConfig m s = elim (Bool-cases (is_backbone m.rx_src)) [
  | inl hub ↦ rw hub (refl, refl, refl)
  | inr air ↦ rw air (refl, refl, refl)
]

pub if_rf-seen : (m : Mesh) (s : Stats) → (if_rf m s).seen ≡ m.seen
if_rf-seen m s = elim (Bool-cases (is_backbone m.rx_src)) [
  | inl hub ↦ rw hub refl
  | inr air ↦ rw air refl
]

pub seen_check_and_add-SameConfig :
    (m : Mesh) (h : List ℕ) → SameConfig m (seen_check_and_add m h).0
unfolding seen_check_and_add
seen_check_and_add-SameConfig m h = elim (Bool-cases (seen_contains m.seen h)) [
  | inl old ↦ rw old (refl, refl, refl)
  | inr new ↦ rw new (refl, refl, refl)
]

offer_backbone-SameConfig :
    (m : Mesh) (p : Packet) (own : Bool) → SameConfig m (offer_backbone m p own)
unfolding offer_backbone
offer_backbone-SameConfig m p own =
    elim (Bool-cases (m.backbone_on && not (is_backbone m.rx_src))) [
      | inr off ↦ rw off (refl, refl, refl)
      | inl on ↦ elim (Result-cases (serialize p max_trans_unit)) [
        | inl (raw, e) ↦ rw (on, e) (refl, refl, refl)
        | inr (n, e) ↦ rw (on, e) (refl, refl, refl)
      ]
    ]

pub enqueue-SameConfig :
    (env : Env) (m : Mesh) (p : Packet) (prio delay : ℕ) (power : ℤ) (own : Bool)
    → SameConfig m (enqueue env m p prio delay power own).0
unfolding enqueue
enqueue-SameConfig env m p prio delay power own = elim (Bool-cases (mesh_rf_silent m env.millis)) [
  | inl silent ↦ rw silent (refl, refl, refl)
  | inr awake ↦ elim (Option-cases (free_slot m.txq 0)) [
    | inl full ↦ rw (awake, full) (refl, refl, refl)
    | inr (i, e) ↦ rw (awake, e) (offer_backbone-SameConfig _ p own)
  ]
]

pub originate-SameConfig :
    (env : Env) (m : Mesh) (p : Packet) (prio : ℕ)
    → SameConfig m (originate env small_jitter_ms prio m p).0
unfolding originate small_jitter_ms
originate-SameConfig env m p prio =
    let m1 : Mesh = (seen_check_and_add m (calc_hash env.crypto.sha256 p)).0 in
    let m2 : Mesh = (small_jitter_ms m1).0 in
    SameConfig-trans m m2 (originate env small_jitter_ms prio m p).0
      (seen_check_and_add-SameConfig m (calc_hash env.crypto.sha256 p))
      (enqueue-SameConfig env m2 p prio (small_jitter_ms m1).1 (own_tx_power m2) true)

pub mesh_send_advert-SameConfig : (env : Env) (m : Mesh) → SameConfig m (mesh_send_advert env m).0
unfolding mesh_send_advert
mesh_send_advert-SameConfig env m = elim (Bool-cases (mesh_rf_silent m env.millis)) [
  | inl silent ↦ rw silent (refl, refl, refl)
  | inr awake ↦
      elim (Result-cases (advert_build env.crypto m.id (self_advert m) (env.unix % 2 ^ 32))) [
        | inr (n, e) ↦ rw (awake, e) (refl, refl, refl)
        | inl (p, e) ↦ elim (Bool-cases (originate env small_jitter_ms 0 m p).1) [
          | inl sent ↦ rw (awake, e, sent) (originate-SameConfig env m p 0)
          | inr full ↦ rw (awake, e, full) (originate-SameConfig env m p 0)
        ]
      ]
]

-- The guard of hotspot_wake.
abbrev stays_asleep : Mesh → Packet → List ℕ → Bool
stays_asleep m p who =
    not (is_hotspot m.cfg.role)
    || (m.cfg.hotspot_awake == 0
        || (is_backbone m.rx_src
            || (not (path_hash_count p == 0) || not (is_companion_name m who))))

pub hotspot_wake-SameConfig :
    (env : Env) (m : Mesh) (p : Packet) (who : List ℕ) → SameConfig m (hotspot_wake env m p who)
unfolding hotspot_wake
hotspot_wake-SameConfig env m p who = elim (Bool-cases (stays_asleep m p who)) [
  | inl asleep ↦ rw (hotspot_wake, asleep) (refl, refl, refl)
  | inr wakes ↦ elim (Bool-cases (mesh_rf_silent m env.millis)) [
    | inl silent ↦ rw (hotspot_wake, wakes, silent) (mesh_send_advert-SameConfig env _)
    | inr on ↦ rw (hotspot_wake, wakes, on) (refl, refl, refl)
  ]
]

learn_affinity-SameConfig : (m : Mesh) (key : List ℕ) → SameConfig m (learn_affinity m key)
unfolding learn_affinity
learn_affinity-SameConfig m key = elim (Bool-cases (byte_in (get_or key 0 0) m.affinity_hash)) [
  | inl known ↦ rw known (refl, refl, refl)
  | inr new ↦ elim (Bool-cases (ltb (length m.affinity_hash) max_affinity)) [
    | inl room ↦ rw (new, room) (refl, refl, refl)
    | inr full ↦ rw (new, full) (refl, refl, refl)
  ]
]

pub gate_advert-SameConfig :
    (m : Mesh) (p : Packet) (key : List ℕ) (t : ℕ) (aname : List ℕ)
    → SameConfig m (gate_advert m p key t aname)
unfolding gate_advert
gate_advert-SameConfig m p key t aname = elim (Option-cases (advert_extract_location p)) [
  | inl nowhere ↦ rw (gate_advert, nowhere) (refl, refl, refl)
  | inr ((lat, lon), e) ↦ elim (Bool-cases (not (is_backbone m.rx_src) && m.aprs_on)) [
    | inl on ↦ rw (gate_advert, e, on) (refl, refl, refl)
    | inr off ↦ rw (gate_advert, e, off) (refl, refl, refl)
  ]
]

maybe-SameConfig : (b : Bool) (m m' : Mesh) → SameConfig m m' → SameConfig m (if b then m' else m)
maybe-SameConfig true m m' h = h
maybe-SameConfig false m m' h = (refl, refl, refl)

pub unless-SameConfig :
    (b : Bool) (m m' : Mesh) → SameConfig m m' → SameConfig m (if b then m else m')
unless-SameConfig true m m' h = (refl, refl, refl)
unless-SameConfig false m m' h = h

pub note_advert-SameConfig :
    (env : Env) (m : Mesh) (p : Packet) (key : List ℕ) (t : ℕ) (aname : List ℕ) (rssi snr : ℤ)
    → SameConfig m (note_advert env m p key t aname rssi snr)
unfolding note_advert neighbor_update
note_advert-SameConfig env m p key t aname rssi snr =
    let m1 : Mesh =
      neighbor_update env (with_stats m (record (m.stats) { rx_advert = m.stats.rx_advert + 1 }))
        key p rssi snr in
    let learnt = is_hotspot m.cfg.role && config_is_affinity m.cfg aname in
    let m2 : Mesh = if learnt then learn_affinity m1 key else m1 in
    let m3 : Mesh = if t == adv_type_chat then hotspot_wake env m2 p aname else m2 in
    SameConfig-trans m m1 m3 (refl, refl, refl)
      (SameConfig-trans m1 m2 m3 (maybe-SameConfig learnt m1 _ (learn_affinity-SameConfig m1 key))
        (maybe-SameConfig (t == adv_type_chat) m2 _ (hotspot_wake-SameConfig env m2 p aname)))
