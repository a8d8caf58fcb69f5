-- ===== src/Mesh/Receive/Public.antt =====
-- src/mesh.c: mesh_on_recv passes on nothing that is not provably public.
use meshcore_repeater.Common.{
  ℕ, ◌+◌, length, ◌≤◌, ◌≡◌, ◌⊎◌, inl, inr, refl, sym, ap, ◌∙◌, subst, true, false, ◌||◌, List, [],
  Option, none, some, ◌==◌, if◌then◌else◌, arith, Bool-cases, Option-cases, Result-cases, ℤ, ok,
}
use meshcore_repeater.Crypto.{Crypto}
use meshcore_repeater.Advert.{advert_verify, advert_extract}
use meshcore_repeater.Config.{Config, Channel, config_is_blacklisted, config_is_key_blocked}
use meshcore_repeater.Packet.{
  Packet, payload_advert, payload_trace, payload_type, route_type, route_transport_flood,
}
use meshcore_repeater.Packet.Codec.{parse, calc_hash}
use meshcore_repeater.Mesh.State.{Mesh, Env, Stats, forwarded, is_backbone}
use meshcore_repeater.Mesh.Seen.{seen_check_and_add, seen_contains}
use meshcore_repeater.Mesh.Policy.{
  Decision, ok_public, ok_grp_public, ok_region, drop_dm, drop_grp_unmatched, drop_grp_macfail,
  drop_other, classify_forward,
}
use meshcore_repeater.Mesh.Policy.Scan.{EntryOf, Proves, InRegion, IsGroup}
use meshcore_repeater.Mesh.Policy.Allowed.{Evidence, classify_forward-Evidence}
use meshcore_repeater.Mesh.Setup.{
  SameConfig, SameConfig-trans, unless-SameConfig, note_advert-SameConfig, gate_advert-SameConfig,
  if_rf-SameConfig, if_rf-seen, seen_check_and_add-SameConfig,
}
use meshcore_repeater.Mesh.Receive.{
  if_rf, forward_decided, recv_routed, note_advert, gate_advert, recv_verified, recv_advert,
  count_transport, recv_fresh, recv_parsed, mesh_on_recv,
}

-- Group traffic of a channel that proves itself, or of a served room.
abbrev pub PublicGroup : Crypto → Config → Packet → Type 0
PublicGroup c cfg p =
    IsGroup p
    × (19 ≤ p.payload_len)
    × (((ch : Channel) × EntryOf cfg.public_channels ch × Proves c p ch) ⊎ InRegion c cfg p)

-- An advert with a good signature by a key that is not blocked.
abbrev pub SignedAdvert : Crypto → Config → Packet → Type 0
SignedAdvert c cfg p =
    (payload_type p ≡ payload_advert)
    × ((key : List ℕ) × (advert_verify c p ≡ some key) × (config_is_key_blocked cfg key ≡ false))

abbrev pub IsPublic : Crypto → Config → Packet → Type 0
IsPublic c cfg p = SignedAdvert c cfg p ⊎ PublicGroup c cfg p

forward_decided-IsPublic :
    (env : Env) (m : Mesh) (p : Packet) (aname : List ℕ) (d : Decision × Option Channel)
    → Evidence env.crypto m.cfg p d
    → (forward_decided env m p aname d).1 ≡ forwarded
    → (payload_type p ≡ payload_advert)
      ⊎ (payload_type p ≡ payload_trace)
      ⊎ PublicGroup env.crypto m.cfg p
unfolding forward_decided
forward_decided-IsPublic env m p aname (ok_public, ch) (inl a) e = inl a
forward_decided-IsPublic env m p aname (ok_public, ch) (inr t) e = inr (inl t)
forward_decided-IsPublic env m p aname (ok_grp_public, some ch) (g, n, o, pr) e =
    inr (inr (g, n, inl (ch, o, pr)))
forward_decided-IsPublic env m p aname (ok_region, ch) (g, n, r) e = inr (inr (g, n, inr r))
forward_decided-IsPublic env m p aname (drop_dm, ch) v e = absurd (cc)
forward_decided-IsPublic env m p aname (drop_grp_unmatched, ch) v e = absurd (cc)
forward_decided-IsPublic env m p aname (drop_grp_macfail, ch) v e = absurd (cc)
forward_decided-IsPublic env m p aname (drop_other, ch) v e = absurd (cc)
forward_decided-IsPublic env m p aname (ok_grp_public, none) v e = absurd v

count_transport-SameConfig : (m : Mesh) (p : Packet) → SameConfig m (count_transport m p)
unfolding count_transport
count_transport-SameConfig m p = elim (Bool-cases (route_type p == route_transport_flood)) [
  | inl tagged ↦ rw tagged (if_rf-SameConfig m _)
  | inr plain ↦ rw plain (refl, refl, refl)
]

recv_routed-IsPublic :
    (env : Env) (m : Mesh) (p : Packet) (aname : List ℕ)
    → (recv_routed env m p aname).1 ≡ forwarded
    → (m.cfg.forward ≡ true) × ((payload_type p ≡ payload_advert) ⊎ PublicGroup env.crypto m.cfg p)
unfolding recv_routed
recv_routed-IsPublic env m p aname e = elim (Bool-cases (payload_type p == payload_trace)) [
  | inl trace ↦ absurd (ground arith)
  | inr other ↦ elim (Bool-cases m.cfg.forward) [
    | inr off ↦ absurd (ground arith)
    | inl on ↦
        elim (forward_decided-IsPublic env m p aname (classify_forward env.crypto m.cfg p)
          (classify_forward-Evidence env.crypto m.cfg p) (ground arith)) [
            | inl a ↦ (on, inl a)
            | inr (inl t) ↦ absurd (ground arith)
            | inr (inr g) ↦ (on, inr g)
          ]
  ]
]

-- What stands for a packet that is passed on: forwarding is on, and the packet is public.
abbrev pub Licensed : Crypto → Config → Packet → Type 0
Licensed c cfg p = (cfg.forward ≡ true) × (SignedAdvert c cfg p ⊎ PublicGroup c cfg p)

recv_verified-Licensed :
    (env : Env) (m : Mesh) (p : Packet) (key : List ℕ) (t : ℕ) (aname : List ℕ) (rssi snr : ℤ)
    → payload_type p ≡ payload_advert
    → advert_verify env.crypto p ≡ some key
    → (recv_verified env m p key t aname rssi snr).1 ≡ forwarded
    → Licensed env.crypto m.cfg p
unfolding recv_verified
recv_verified-Licensed env m p key t aname rssi snr a v e =
    elim (Bool-cases (config_is_blacklisted m.cfg aname || config_is_key_blocked m.cfg key)) [
      | inl bad ↦ absurd (ground arith)
      | inr good ↦
          let noted : Mesh =
            if is_backbone m.rx_src then m else note_advert env m p key t aname rssi snr in
          let same : SameConfig m (gate_advert noted p key t aname) =
            SameConfig-trans m noted (gate_advert noted p key t aname)
              (unless-SameConfig (is_backbone m.rx_src) m _
                (note_advert-SameConfig env m p key t aname rssi snr))
              (gate_advert-SameConfig noted p key t aname) in
          let on =
            recv_routed-IsPublic env (gate_advert noted p key t aname) p aname (ground arith) in
          (ap (λ cfg. cfg.forward) (sym same.0) ∙ on.0, inl (a, (key, v, ground arith)))
    ]

recv_advert-Licensed :
    (env : Env) (m : Mesh) (p : Packet) (rssi snr : ℤ)
    → payload_type p ≡ payload_advert
    → (recv_advert env m p rssi snr).1 ≡ forwarded
    → Licensed env.crypto m.cfg p
unfolding recv_advert
recv_advert-Licensed env m p rssi snr a e = elim (Option-cases (advert_verify env.crypto p)) [
  | inl bad ↦ absurd (ground arith)
  | inr (key, v) ↦ elim (Option-cases (advert_extract p 32)) [
    | inl short ↦ recv_verified-Licensed env m p key 0 [] rssi snr a v (ground arith)
    | inr ((t, aname), x) ↦ recv_verified-Licensed env m p key t aname rssi snr a v (ground arith)
  ]
]

routed-Licensed :
    (c : Crypto) (cfg : Config) (p : Packet)
    → (payload_type p == payload_advert) ≡ false
    → (cfg.forward ≡ true) × ((payload_type p ≡ payload_advert) ⊎ PublicGroup c cfg p)
    → Licensed c cfg p
routed-Licensed c cfg p no_advert (on, inl a) = absurd (ground arith)
routed-Licensed c cfg p no_advert (on, inr g) = (on, inr g)

recv_fresh-Licensed :
    (env : Env) (m : Mesh) (p : Packet) (rssi snr : ℤ)
    → (recv_fresh env m p rssi snr).1 ≡ forwarded
    → Licensed env.crypto m.cfg p
unfolding recv_fresh
recv_fresh-Licensed env m p rssi snr e =
    let m' : Mesh = count_transport m p in
    let same : SameConfig m m' = count_transport-SameConfig m p in
    subst (λ cfg. Licensed env.crypto cfg p) same.0
      (elim (Bool-cases (payload_type p == payload_advert)) [
        | inl advert ↦ recv_advert-Licensed env m' p rssi snr (ground arith) (ground arith)
        | inr other ↦
            routed-Licensed env.crypto m'.cfg p other
              (recv_routed-IsPublic env m' p [] (ground arith))
      ])

recv_parsed-Licensed :
    (env : Env) (m : Mesh) (p : Packet) (rssi snr : ℤ)
    → (recv_parsed env m p rssi snr).1 ≡ forwarded
    → Licensed env.crypto m.cfg p × (seen_contains m.seen (calc_hash env.crypto.sha256 p) ≡ false)
unfolding recv_parsed seen_check_and_add
recv_parsed-Licensed env m p rssi snr e =
    let counted : Mesh = if_rf m (record (m.stats) { rx_total = m.stats.rx_total + 1 }) in
    let hash = calc_hash env.crypto.sha256 p in
    let added : Mesh = (seen_check_and_add counted hash).0 in
    let same : SameConfig m added =
      SameConfig-trans m counted added (if_rf-SameConfig m _)
        (seen_check_and_add-SameConfig counted hash) in
    elim (Bool-cases (seen_contains counted.seen hash)) [
      | inl old ↦ absurd (ground arith)
      | inr new ↦ (
        subst (λ cfg. Licensed env.crypto cfg p) same.0
            (recv_fresh-Licensed env added p rssi snr (ground arith)),
        ap (λ s. seen_contains s hash) (sym (if_rf-seen m _)) ∙ new,
      )
    ]

-- The packet as mesh_on_recv goes on with it: with the signal it was heard at.
abbrev pub heard_as : ℤ → ℤ → Packet → Packet
heard_as rssi snr p = record p { rssi_dbm = rssi; snr_q = snr }

-- A frame that mesh_on_recv passes on was parsed, was not seen before, came while forwarding is on,
-- and is an advert signed by a key that is not blocked, or group traffic whose MAC a configured
-- public channel verifies or whose transport code is that of a configured room.
pub mesh_on_recv-Licensed :
    (env : Env) (m : Mesh) (raw : List ℕ) (rssi snr : ℤ)
    → (mesh_on_recv env m raw rssi snr).1 ≡ forwarded
    → (p : Packet) × (parse raw ≡ ok p)
      × Licensed env.crypto m.cfg (heard_as rssi snr p)
      × (seen_contains m.seen (calc_hash env.crypto.sha256 (heard_as rssi snr p)) ≡ false)
unfolding mesh_on_recv
mesh_on_recv-Licensed env m raw rssi snr e =
    let s : Stats = record (m.stats) {
      rx_airtime_ms = m.stats.rx_airtime_ms + env.airtime (length raw);
    } in
    let same : SameConfig m (if_rf m s) = if_rf-SameConfig m s in
    elim (Result-cases (parse raw)) [
      | inr (n, bad) ↦ absurd (ground arith)
      | inl (p, good) ↦
          let r =
            recv_parsed-Licensed env (if_rf m s) (heard_as rssi snr p) rssi snr (ground arith) in
          (
            p,
            good,
            subst (λ cfg. Licensed env.crypto cfg (heard_as rssi snr p)) same.0 r.0,
            ap (λ h. seen_contains h (calc_hash env.crypto.sha256 (heard_as rssi snr p)))
                  (sym (if_rf-seen m s))
                ∙ r.1,
          )
    ]
