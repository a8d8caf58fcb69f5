-- ===== src/Mesh/Policy.antt =====
-- src/mesh.c: the ham content policy, which decides what may be relayed at all.
pub mod Scan
pub mod Allowed
use meshcore_repeater.Common.{
  ℕ, ◌+◌, ◌-◌, ◌*◌, ◌%◌, ◌^◌, ◌<◌, ◌≡◌, Bool, true, false, not, ◌&&◌, ◌||◌, List, [], ◌∷◌, Option,
  none, some, ◌==◌, ltb, if◌then◌else◌, length, take, drop, get_or,
}
use meshcore_repeater.Crypto.{Crypto, hmac_sha256}
use meshcore_repeater.Config.{Config, Channel, Room}
use meshcore_repeater.Packet.{
  Packet, payload_advert, payload_trace, payload_grp_txt, payload_grp_data, payload_req,
  payload_response, payload_txt_msg, payload_anon_req, payload_path, payload_type, route_type,
  route_transport_flood, max_packet_payload,
}

-- `fwd_decision_t`.
pub data Decision : Type 0 where
  ok_public ok_grp_public ok_region drop_dm drop_grp_unmatched drop_grp_macfail : Decision
  drop_other : Decision

-- HMAC of type and payload by the room's key, as a u16 with 0 and 0xFFFF reserved.
unfoldable pub region_transport_code : Crypto → List ℕ → ℕ → List ℕ → ℕ
region_transport_code c key ptype payload =
    let h = hmac_sha256 c (take 16 key) (ptype ∷ take max_packet_payload payload) in
    let code = get_or h 0 0 + get_or h 1 0 * 2 ^ 8 in
    if code == 0 then 1 else if code == 0xffff then 0xfffe else code

-- The loop over the rooms from index `i` on.
unfoldable pub region_from : Crypto → List Room → ℕ → Packet → Option ℕ
region_from c [] i p = none
region_from c (r ∷ rs) i p =
    let rest = region_from c rs (i + 1) p in
    if region_transport_code c r.key (payload_type p) (take p.payload_len p.payload)
      == p.transport_code_0
    then some i
    else rest

unfoldable pub region_match_index : Crypto → Config → Packet → Option ℕ
region_match_index c cfg p =
    if not (route_type p == route_transport_flood) then none else region_from c cfg.rooms 0 p

unfoldable pub region_match : Crypto → Config → Packet → Bool
region_match c cfg p = elim (region_match_index c cfg p) [ none ↦ false | some i ↦ true ]

-- Whether a channel's MAC over the ciphertext is the one in the payload.
unfoldable pub mac_ok : Crypto → Channel → Packet → Bool
mac_ok c ch p =
    let h = hmac_sha256 c ch.secret (drop 3 (take p.payload_len p.payload)) in
    get_or h 0 0 == get_or p.payload 1 0 && get_or h 1 0 == get_or p.payload 2 0

-- The loop over the public channels: the first one that proves the packet public, and whether any
-- channel hash was seen.
unfoldable pub scan_channels : Crypto → List Channel → Packet → Bool → Option Channel × Bool
scan_channels c [] p hash_seen = (none, hash_seen)
scan_channels c (ch ∷ chs) p hash_seen =
    let skip = scan_channels c chs p hash_seen in
    let miss = scan_channels c chs p true in
    if not (ch.hash == get_or p.payload 0 0)
    then skip
    else if mac_ok c ch p
    then (some ch, true)
    else miss

unfoldable pub classify_group : Crypto → Config → Packet → Decision × Option Channel
classify_group c cfg p =
    if ltb p.payload_len 19
    then (drop_grp_unmatched, none)
    else let (found, hash_seen) = scan_channels c cfg.public_channels p false in
      elim found [
        | some ch ↦ (ok_grp_public, some ch)
        | none ↦
            if region_match c cfg p
            then (ok_region, none)
            else if hash_seen
            then (drop_grp_macfail, none)
            else (drop_grp_unmatched, none)
      ]

-- Private unicast: encrypted for one receiver.
abbrev pub is_private : ℕ → Bool
is_private t =
    t == payload_req
    || (t == payload_response
        || (t == payload_txt_msg || (t == payload_anon_req || t == payload_path)))

-- The decision and the channel that matched.
unfoldable pub classify_forward : Crypto → Config → Packet → Decision × Option Channel
classify_forward c cfg p =
    let t = payload_type p in
    if t == payload_advert || t == payload_trace
    then (ok_public, none)
    else if t == payload_grp_txt || t == payload_grp_data
    then classify_group c cfg p
    else if is_private t
    then (drop_dm, none)
    else (drop_other, none)
