-- ===== src/Mesh/Receive/Refused.antt =====
-- src/mesh.c: the frames that leave nothing in the node but counters and a hash.
use meshcore_repeater.Common.{
  ℕ, ◌+◌, length, ◌≡◌, ◌≢◌, ◌⊎◌, inl, inr, refl, ap, ◌∙◌, true, false, List, [], none, ◌==◌, arith,
  Bool-cases, ℤ, ok, Result-cases,
}
use meshcore_repeater.Crypto.{Crypto}
use meshcore_repeater.Advert.{advert_verify}
use meshcore_repeater.Packet.{
  Packet, payload_advert, payload_trace, payload_type, route_type, route_transport_flood,
}
use meshcore_repeater.Packet.Codec.{parse, calc_hash}
use meshcore_repeater.Mesh.State.{Mesh, Env, Stats, RxResult, forwarded, is_backbone}
use meshcore_repeater.Mesh.Seen.{seen_check_and_add, seen_contains}
use meshcore_repeater.Mesh.Policy.{classify_forward, is_private, drop_dm}
use meshcore_repeater.Mesh.Setup.{if_rf-seen}
use meshcore_repeater.Mesh.Receive.{
  if_rf, forward_decided, recv_routed, recv_advert, count_transport, recv_fresh, recv_parsed,
  mesh_on_recv,
}
use meshcore_repeater.Mesh.Receive.Public.{heard_as}

-- The state with other counters and another hash ring.
abbrev pub recount : Mesh → Stats → List (List ℕ) → ℕ → Mesh
recount m s hs i = record m { stats = s; seen = hs; seen_idx = i }

-- Only the counters and the hash ring differ.
abbrev pub OnlyCounts : Mesh → Mesh → Type 0
OnlyCounts m m' = (s : Stats) × (hs : List (List ℕ)) × (i : ℕ) × (m' ≡ recount m s hs i)

OnlyCounts-trans : (a b c : Mesh) → OnlyCounts a b → OnlyCounts b c → OnlyCounts a c
OnlyCounts-trans a b c (s, hs, i, e) (s', hs', i', e') =
    (s', hs', i', e' ∙ ap (λ m. recount m s' hs' i') e)

if_rf-OnlyCounts : (m : Mesh) (s : Stats) → OnlyCounts m (if_rf m s)
if_rf-OnlyCounts m s = elim (Bool-cases (is_backbone m.rx_src)) [
  | inl hub ↦ rw hub (m.stats, m.seen, m.seen_idx, refl)
  | inr air ↦ rw air (s, m.seen, m.seen_idx, refl)
]

seen_check_and_add-OnlyCounts : (m : Mesh) (h : List ℕ) → OnlyCounts m (seen_check_and_add m h).0
unfolding seen_check_and_add
seen_check_and_add-OnlyCounts m h = elim (Bool-cases (seen_contains m.seen h)) [
  | inl old ↦ rw old (m.stats, m.seen, m.seen_idx, refl)
  | inr new ↦ rw new (m.stats, _, _, refl)
]

count_transport-OnlyCounts : (m : Mesh) (p : Packet) → OnlyCounts m (count_transport m p)
unfolding count_transport
count_transport-OnlyCounts m p = elim (Bool-cases (route_type p == route_transport_flood)) [
  | inl tagged ↦ rw tagged (if_rf-OnlyCounts m _)
  | inr plain ↦ rw plain (m.stats, m.seen, m.seen_idx, refl)
]

-- Nothing is passed on, and only counters and the hash ring change.
abbrev pub Inert : Mesh → Mesh × RxResult → Type 0
Inert m (m', r) = OnlyCounts m m' × (r ≢ forwarded)

Inert-after : (a b : Mesh) (c : Mesh × RxResult) → OnlyCounts a b → Inert b c → Inert a c
Inert-after a b (c, r) h (k, n) = (OnlyCounts-trans a b c h k, n)

private-classified :
    (c : Crypto) (m : Mesh) (p : Packet)
    → is_private (payload_type p) ≡ true
    → classify_forward c m.cfg p ≡ (drop_dm, none)
unfolding classify_forward
private-classified c m p h = ground arith

-- A packet for one receiver, which nobody but that receiver can read, or a trace.
abbrev pub IsOpaque : Packet → Type 0
IsOpaque p = (is_private (payload_type p) ≡ true) ⊎ (payload_type p ≡ payload_trace)

recv_routed-Inert :
    (env : Env) (m : Mesh) (p : Packet) (aname : List ℕ)
    → IsOpaque p
    → Inert m (recv_routed env m p aname)
unfolding recv_routed forward_decided
recv_routed-Inert env m p aname (inr trace) = rw trace (if_rf-OnlyCounts m _, λ e. absurd (cc))
recv_routed-Inert env m p aname (inl priv) = elim (Bool-cases m.cfg.forward) [
  | inl on ↦
      let t : (payload_type p == payload_trace) ≡ false = ground arith in
      rw (t, private-classified env.crypto m p priv, on)
        ((_, m.seen, m.seen_idx, refl), λ e. absurd (cc))
  | inr off ↦
      let t : (payload_type p == payload_trace) ≡ false = ground arith in
      rw (t, off) ((m.stats, m.seen, m.seen_idx, refl), λ e. absurd (cc))
]

-- An advert whose signature is not good.
abbrev pub IsForged : Crypto → Packet → Type 0
IsForged c p = (payload_type p ≡ payload_advert) × (advert_verify c p ≡ none)

recv_advert-Inert :
    (env : Env) (m : Mesh) (p : Packet) (rssi snr : ℤ)
    → IsForged env.crypto p
    → Inert m (recv_advert env m p rssi snr)
unfolding recv_advert
recv_advert-Inert env m p rssi snr (advert, forged) =
    rw (recv_advert, forged) (if_rf-OnlyCounts m _, λ e. absurd (cc))

recv_fresh-Inert :
    (env : Env) (m : Mesh) (p : Packet) (rssi snr : ℤ)
    → IsOpaque p ⊎ IsForged env.crypto p
    → Inert m (recv_fresh env m p rssi snr)
unfolding recv_fresh
recv_fresh-Inert env m p rssi snr (inr (advert, forged)) =
    let t : (payload_type p == payload_advert) ≡ true = ground arith in
    Inert-after m (count_transport m p) (recv_fresh env m p rssi snr)
      (count_transport-OnlyCounts m p)
      (rw t (recv_advert-Inert env (count_transport m p) p rssi snr (advert, forged)))
recv_fresh-Inert env m p rssi snr (inl opaque_one) =
    let t : (payload_type p == payload_advert) ≡ false = ground arith in
    Inert-after m (count_transport m p) (recv_fresh env m p rssi snr)
      (count_transport-OnlyCounts m p)
      (rw t (recv_routed-Inert env (count_transport m p) p [] opaque_one))

-- A packet that was seen before, or is for one receiver, or is a trace, or is a forged advert.
abbrev pub IsUnwelcome : Env → Mesh → Packet → Type 0
IsUnwelcome env m p =
    (seen_contains m.seen (calc_hash env.crypto.sha256 p) ≡ true)
    ⊎ (IsOpaque p ⊎ IsForged env.crypto p)

-- A packet that the ring does not hold is unwelcome for what it is.
new-unwelcome :
    (env : Env) (m counted : Mesh) (p : Packet)
    → counted.seen ≡ m.seen
    → IsUnwelcome env m p
    → (seen_check_and_add counted (calc_hash env.crypto.sha256 p)).1 ≡ false
    → IsOpaque p ⊎ IsForged env.crypto p
unfolding seen_check_and_add
new-unwelcome env m counted p e (inr u) new = u
new-unwelcome env m counted p e (inl old) new =
    let old' : seen_contains counted.seen (calc_hash env.crypto.sha256 p) ≡ true =
      ap (λ s. seen_contains s (calc_hash env.crypto.sha256 p)) e ∙ old in
    absurd (ground (arith, old', new))

recv_parsed-Inert :
    (env : Env) (m : Mesh) (p : Packet) (rssi snr : ℤ)
    → IsUnwelcome env m p
    → Inert m (recv_parsed env m p rssi snr)
unfolding recv_parsed
recv_parsed-Inert env m p rssi snr u =
    let counted : Mesh = if_rf m (record (m.stats) { rx_total = m.stats.rx_total + 1 }) in
    let hash = calc_hash env.crypto.sha256 p in
    let added : Mesh = (seen_check_and_add counted hash).0 in
    let h : OnlyCounts m added =
      OnlyCounts-trans m counted added (if_rf-OnlyCounts m _)
        (seen_check_and_add-OnlyCounts counted hash) in
    Inert-after m added (recv_parsed env m p rssi snr) h
      (elim (Bool-cases (seen_check_and_add counted hash).1) [
        | inl old ↦ rw (recv_parsed, old) (if_rf-OnlyCounts added _, λ e. absurd (cc))
        | inr new ↦
            rw (recv_parsed, new)
              (recv_fresh-Inert env added p rssi snr
                (new-unwelcome env m counted p (if_rf-seen m _) u new))
      ])

IsUnwelcome-seen :
    (env : Env) (m m' : Mesh) (p : Packet)
    → m'.seen ≡ m.seen
    → IsUnwelcome env m p
    → IsUnwelcome env m' p
IsUnwelcome-seen env m m' p e (inr u) = inr u
IsUnwelcome-seen env m m' p e (inl old) =
    inl (ap (λ s. seen_contains s (calc_hash env.crypto.sha256 p)) e ∙ old)

-- A frame that does not parse, or whose packet was seen before, or is for one receiver, or is a
-- trace, or is an advert with a bad signature, is not passed on and changes nothing in the node but
-- the counters and the hash ring: nothing is queued, heard or answered.
pub mesh_on_recv-Inert :
    (env : Env) (m : Mesh) (raw : List ℕ) (rssi snr : ℤ)
    → ((p : Packet) → parse raw ≡ ok p → IsUnwelcome env m (heard_as rssi snr p))
    → Inert m (mesh_on_recv env m raw rssi snr)
unfolding mesh_on_recv
mesh_on_recv-Inert env m raw rssi snr u =
    let s : Stats = record (m.stats) {
      rx_airtime_ms = m.stats.rx_airtime_ms + env.airtime (length raw);
    } in
    Inert-after m (if_rf m s) (mesh_on_recv env m raw rssi snr) (if_rf-OnlyCounts m s)
      (elim (Result-cases (parse raw)) [
        | inr (n, bad) ↦ rw (mesh_on_recv, bad) (if_rf-OnlyCounts (if_rf m s) _, λ e. absurd (cc))
        | inl (p, good) ↦
            rw (mesh_on_recv, good)
              (recv_parsed-Inert env (if_rf m s) (heard_as rssi snr p) rssi snr (
                IsUnwelcome-seen env m (if_rf m s) (heard_as rssi snr p) (if_rf-seen m s)
                  (u p good)))
      ])
