-- ===== src/Mesh/Receive.antt =====
-- src/mesh.c: mesh_on_recv and mesh_on_backbone, from the raw frame to the queue.
pub mod Hops
pub mod Public
pub mod Relay
pub mod Refused
use meshcore_repeater.Common.{
  ℕ, ◌+◌, ◌-◌, ◌*◌, ◌%◌, ◌<◌, Bool, true, false, not, ◌&&◌, ◌||◌, List, [], ◌∷◌, Option, none, some,
  ◌==◌, ltb, leb, if◌then◌else◌, length, take, drop, write_at, ℤ, pos, negsuc, Result, ok, err,
}
use meshcore_repeater.Advert.{advert_verify, advert_extract, advert_extract_location, adv_type_chat}
use meshcore_repeater.Config.{
  Channel, Config, is_hotspot, config_is_blacklisted, config_is_key_blocked, config_is_affinity,
}
use meshcore_repeater.Identity.{copy_hash, hash_match}
use meshcore_repeater.Packet.{
  Packet, payload_advert, payload_trace, payload_type, route_type, route_transport_flood,
  is_route_flood, path_hash_count, path_hash_size, set_path_hash_count, max_path_size,
}
use meshcore_repeater.Packet.Codec.{parse, calc_hash}
use meshcore_repeater.Mesh.State.{
  Mesh, Env, Stats, RxResult, forwarded, duplicate, refused, accepted_local, malformed,
  from_backbone, is_backbone, gate_node,
}
use meshcore_repeater.Mesh.Random.{flood_backoff_ms}
use meshcore_repeater.Mesh.Seen.{seen_check_and_add}
use meshcore_repeater.Mesh.Neighbors.{neighbor_update}
use meshcore_repeater.Mesh.Queue.{enqueue}
use meshcore_repeater.Mesh.Policy.{
  Decision, ok_public, ok_grp_public, ok_region, drop_dm, drop_grp_unmatched, drop_grp_macfail,
  drop_other, classify_forward,
}
use meshcore_repeater.Mesh.Hotspot.{learn_affinity, hotspot_wake, hotspot_decide}
use meshcore_repeater.Mesh.Group.{Verdict, relay, consumed, blocked, process_public_grp}

abbrev pub with_stats : Mesh → Stats → Mesh
with_stats m s = record m { stats = s }

-- The counters of RF reception do not count the hub's frames.
abbrev pub if_rf : Mesh → Stats → Mesh
if_rf m s = if is_backbone m.rx_src then m else with_stats m s

-- The packet as this node passes it on in a flood: its path hash appended.
unfoldable pub append_hop : Mesh → Packet → Packet
append_hop m p =
    let n = path_hash_count p in
    let hs = path_hash_size p in
    set_path_hash_count (record p { path = write_at (n * hs) (copy_hash m.id hs) p.path }) (n + 1)

unfoldable pub forward_flood : Env → Mesh → Packet → ℤ → Mesh × RxResult
unfolding append_hop
forward_flood env m p power =
    let n = path_hash_count p in
    let hs = path_hash_size p in
    let p' = append_hop m p in
    let (m1, delay_ms) = flood_backoff_ms env p' m in
    let (m2, sent) = enqueue env m1 p' (n + 1) delay_ms power false in
    if not p.marked_dnr && leb ((n + 1) * hs) max_path_size
    then (if sent
        then (with_stats m2 (record (m2.stats) { fwd_flood = m2.stats.fwd_flood + 1 }), forwarded)
        else (m2, accepted_local))
    else (with_stats m (record (m.stats) { fwd_dropped = m.stats.fwd_dropped + 1 }), accepted_local)

-- The packet with the first hop stripped; `memmove` leaves the end of the array as it was.
unfoldable pub strip_hop : Packet → Packet
strip_hop p =
    let n = path_hash_count p in
    let hs = path_hash_size p in
    set_path_hash_count
      (record p { path = write_at 0 (take ((n - 1) * hs) (drop hs p.path)) p.path }) (n - 1)

unfoldable pub forward_direct : Env → Mesh → Packet → ℤ → Mesh × RxResult
unfolding strip_hop
forward_direct env m p power =
    let (m', sent) = enqueue env m (strip_hop p) 0 0 power false in
    if leb 1 (path_hash_count p) && hash_match m.id p.path (path_hash_size p)
    then (if sent
        then (with_stats m' (record (m'.stats) { fwd_direct = m'.stats.fwd_direct + 1 }), forwarded)
        else (m', accepted_local))
    else (m, accepted_local)

-- The hotspot's scope and the power, then the route.
unfoldable pub forward_scoped : Env → Mesh → Packet → List ℕ → List ℕ → Mesh × RxResult
unfolding forward_flood forward_direct
forward_scoped env m p aname grp_sender =
    let (in_scope, hotspot_power) = hotspot_decide m p aname grp_sender in
    let power = if is_hotspot m.cfg.role then hotspot_power else m.cfg.tx_power in
    if is_hotspot m.cfg.role && not in_scope
    then (m, refused)
    else if is_route_flood p
    then forward_flood env m p power
    else forward_direct env m p power

-- The counters of a packet that the policy drops.
unfoldable pub count_denied : Decision → Stats → Stats
count_denied drop_dm s = record s {
  fwd_denied = s.fwd_denied + 1;
  fwd_denied_dm = s.fwd_denied_dm + 1;
}
count_denied drop_grp_unmatched s = record s {
  fwd_denied = s.fwd_denied + 1;
  fwd_denied_grp = s.fwd_denied_grp + 1;
}
count_denied drop_grp_macfail s = record s {
  fwd_denied = s.fwd_denied + 1;
  fwd_denied_grp = s.fwd_denied_grp + 1;
  grp_mac_fail = s.grp_mac_fail + 1;
}
count_denied drop_other s = record s {
  fwd_denied = s.fwd_denied + 1;
  fwd_denied_other = s.fwd_denied_other + 1;
}
count_denied _ s = s

-- A group message on a public channel.
unfoldable pub forward_group :
    Env → Mesh → Packet → List ℕ → Mesh × Verdict × List ℕ → Mesh × RxResult
unfolding forward_scoped
forward_group env m p aname (m', blocked, sender) = (m', refused)
forward_group env m p aname (m', consumed, sender) = (m', accepted_local)
forward_group env m p aname (m', relay, sender) =
    forward_scoped env
      (with_stats m' (record (m'.stats) { fwd_grp_public = m'.stats.fwd_grp_public + 1 })) p aname
      sender

-- The content policy applied.
unfoldable pub forward_decided :
    Env → Mesh → Packet → List ℕ → Decision × Option Channel → Mesh × RxResult
unfolding forward_group count_denied forward_scoped
forward_decided env m p aname (ok_public, ch) = forward_scoped env m p aname []
forward_decided env m p aname (ok_grp_public, some ch) =
    forward_group env m p aname (process_public_grp env m p ch)
forward_decided env m p aname (ok_region, ch) =
    forward_scoped env (with_stats m (record (m.stats) { fwd_region = m.stats.fwd_region + 1 })) p
      aname []
forward_decided env m p aname (d, ch) = (with_stats m (count_denied d m.stats), refused)

-- After the advert's own handling: traces stop here, and so does all if forwarding is off.
unfoldable pub recv_routed : Env → Mesh → Packet → List ℕ → Mesh × RxResult
unfolding forward_decided
recv_routed env m p aname =
    if payload_type p == payload_trace
    then (if_rf m (record (m.stats) { trace_seen = m.stats.trace_seen + 1 }), accepted_local)
    else if not m.cfg.forward
    then (m, accepted_local)
    else forward_decided env m p aname (classify_forward env.crypto m.cfg p)

-- What the radio's own reception of a verified advert does: the neighbour table, the affinity hash,
-- waking up.
unfoldable pub note_advert : Env → Mesh → Packet → List ℕ → ℕ → List ℕ → ℤ → ℤ → Mesh
note_advert env m p key atype aname rssi snr_q =
    let m1 : Mesh =
      neighbor_update env (with_stats m (record (m.stats) { rx_advert = m.stats.rx_advert + 1 }))
        key p rssi snr_q in
    let m2 : Mesh =
      if is_hotspot m.cfg.role && config_is_affinity m.cfg aname
      then learn_affinity m1 key
      else m1 in
    if atype == adv_type_chat then hotspot_wake env m2 p aname else m2

-- The position of an advert heard on RF goes to the APRS iGate.
unfoldable pub gate_advert : Mesh → Packet → List ℕ → ℕ → List ℕ → Mesh
gate_advert m p key atype aname = elim (advert_extract_location p) [
  | none ↦ m
  | some (lat, lon) ↦
      if not (is_backbone m.rx_src) && m.aprs_on
      then record m { outputs = gate_node aname atype lat lon key ∷ m.outputs }
      else m
]

-- An advert with a good signature, its name and type read.
unfoldable pub recv_verified : Env → Mesh → Packet → List ℕ → ℕ → List ℕ → ℤ → ℤ → Mesh × RxResult
unfolding note_advert gate_advert recv_routed
recv_verified env m p key atype aname rssi snr_q =
    let noted =
      if is_backbone m.rx_src then m else note_advert env m p key atype aname rssi snr_q in
    if config_is_blacklisted m.cfg aname || config_is_key_blocked m.cfg key
    then (with_stats m (record (m.stats) { blacklisted = m.stats.blacklisted + 1 }), refused)
    else recv_routed env (gate_advert noted p key atype aname) p aname

unfoldable pub recv_advert : Env → Mesh → Packet → ℤ → ℤ → Mesh × RxResult
unfolding recv_verified
recv_advert env m p rssi snr_q = elim (advert_verify env.crypto p) [
  | none ↦ (if_rf m (record (m.stats) { rx_advert_bad = m.stats.rx_advert_bad + 1 }), refused)
  | some key ↦ elim (advert_extract p 32) [
    | none ↦ recv_verified env m p key 0 [] rssi snr_q
    | some (atype, aname) ↦ recv_verified env m p key atype aname rssi snr_q
  ]
]

unfoldable pub count_transport : Mesh → Packet → Mesh
count_transport m p =
    if route_type p == route_transport_flood
    then if_rf m (record (m.stats) { rx_transport_flood = m.stats.rx_transport_flood + 1 })
    else m

-- A packet that was parsed and not seen before.
unfoldable pub recv_fresh : Env → Mesh → Packet → ℤ → ℤ → Mesh × RxResult
unfolding count_transport recv_advert recv_routed
recv_fresh env m p rssi snr_q =
    let m' = count_transport m p in
    if payload_type p == payload_advert
    then recv_advert env m' p rssi snr_q
    else recv_routed env m' p []

unfoldable pub recv_parsed : Env → Mesh → Packet → ℤ → ℤ → Mesh × RxResult
unfolding recv_fresh
recv_parsed env m p rssi snr_q =
    let counted = if_rf m (record (m.stats) { rx_total = m.stats.rx_total + 1 }) in
    let (m', old) = seen_check_and_add counted (calc_hash env.crypto.sha256 p) in
    if old
    then (if_rf m' (record (m'.stats) { rx_dup = m'.stats.rx_dup + 1 }), duplicate)
    else recv_fresh env m' p rssi snr_q

unfoldable pub mesh_on_recv : Env → Mesh → List ℕ → ℤ → ℤ → Mesh × RxResult
unfolding recv_parsed
mesh_on_recv env m raw rssi snr_q =
    let heard =
      if_rf m
        (record (m.stats) { rx_airtime_ms = m.stats.rx_airtime_ms + env.airtime (length raw) }) in
    elim (parse raw) [
      | err code ↦ (
        if_rf heard (record (heard.stats) { rx_bad_parse = heard.stats.rx_bad_parse + 1 }),
        malformed,
      )
      | ok p ↦ recv_parsed env heard (record p { rssi_dbm = rssi; snr_q = snr_q }) rssi snr_q
    ]

-- MON_VIA_BACKBONE, -32768.
abbrev via_backbone : ℤ
via_backbone = negsuc 32767

unfoldable pub mesh_on_backbone : Env → Mesh → List ℕ → Mesh × RxResult
unfolding mesh_on_recv
mesh_on_backbone env m raw =
    let (m', r) = mesh_on_recv env (record m { rx_src = from_backbone }) raw via_backbone (pos 0) in
    (record m' { rx_src = m.rx_src }, r)

-- A payload CRC error, or else a corrupt header.
unfoldable pub mesh_on_rx_error : Mesh → Bool → Mesh
mesh_on_rx_error m is_crc = with_stats m (
    if is_crc
    then record (m.stats) { rx_crc_err = m.stats.rx_crc_err + 1 }
    else record (m.stats) { rx_hdr_err = m.stats.rx_hdr_err + 1 })
