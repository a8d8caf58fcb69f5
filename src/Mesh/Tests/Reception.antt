-- ===== src/Mesh/Tests/Reception.antt =====
-- src/mesh.c: concrete runs of mesh_on_recv.
use meshcore_repeater.Common.{
  ◌≡◌, refl, sym, ◌∙◌, subst, inl, inr, not, ◌&&◌, false, [], write_at, replicate, ok_inj, ok, pos,
  negsuc,
}
use meshcore_repeater.Packet.Codec.{parse, zero_packet, zero_payload}
use meshcore_repeater.Common.Tests.{bytes_eq}
use meshcore_repeater.Crypto.Tests.{checksum}
use meshcore_repeater.Util.Endian.{wr_u32le}
use meshcore_repeater.Identity.{identity_verify}
use meshcore_repeater.Advert.{advert_verify, advert_extract, advert_extract_location}
use meshcore_repeater.Config.{is_hotspot, config_is_blacklisted, config_is_key_blocked}
use meshcore_repeater.Packet.{
  Packet, has_transport_codes, valid_path_len, path_byte_len, payload_type, route_type,
  is_route_flood, path_hash_count, path_hash_size, set_path_hash_count,
}
use meshcore_repeater.Packet.Codec.{parse_path, parse_body, calc_hash, raw_length}
use meshcore_repeater.Mesh.State.{forwarded}
use meshcore_repeater.Mesh.Seen.{seen_check_and_add, seen_contains}
use meshcore_repeater.Mesh.Random.{flood_backoff_ms, hal_rng_int, xorshift64}
use meshcore_repeater.Mesh.Neighbors.{neighbor_update}
use meshcore_repeater.Mesh.Policy.{classify_forward}
use meshcore_repeater.Mesh.Queue.{mesh_rf_silent, enqueue, free_slot}
use meshcore_repeater.Mesh.Hotspot.{hotspot_decide}
use meshcore_repeater.Mesh.Receive.{mesh_on_recv, forward_scoped}
use meshcore_repeater.Mesh.Receive.Public.{Licensed, heard_as, mesh_on_recv-Licensed}
use meshcore_repeater.Mesh.Receive.Refused.{IsUnwelcome, Inert, mesh_on_recv-Inert}
use meshcore_repeater.Mesh.Receive.Relay.{Relayed, relay_power, forward_scoped-Relayed}
use meshcore_repeater.Mesh.Samples.{
  sample_packet, sample_env, sample_node, advert_frame, private_frame,
}

advert_forwarded :
    (mesh_on_recv sample_env sample_node advert_frame (negsuc 89) (pos 20)).1 ≡ forwarded
unfolding mesh_on_recv parse has_transport_codes parse_path valid_path_len parse_body path_byte_len
    seen_check_and_add seen_contains bytes_eq calc_hash checksum payload_type advert_verify
    identity_verify wr_u32le advert_extract config_is_blacklisted config_is_key_blocked
    classify_forward route_type is_route_flood path_hash_count path_hash_size set_path_hash_count
    advert_extract_location flood_backoff_ms hal_rng_int xorshift64 enqueue mesh_rf_silent free_slot
    hotspot_decide raw_length neighbor_update
advert_forwarded = refl

-- mesh_on_recv-Licensed, for a flooded advert.
mesh_on_recv-Licensed_example :
    (p : Packet) × (parse advert_frame ≡ ok p)
    × Licensed sample_env.crypto sample_node.cfg (heard_as (negsuc 89) (pos 20) p)
    × (seen_contains sample_node.seen
          (calc_hash sample_env.crypto.sha256 (heard_as (negsuc 89) (pos 20) p))
        ≡ false)
mesh_on_recv-Licensed_example =
    mesh_on_recv-Licensed sample_env sample_node advert_frame (negsuc 89) (pos 20) advert_forwarded

-- The packet of `private_frame`.
abbrev private_packet : Packet
private_packet = record zero_packet {
  header = 9;
  payload_len = 20;
  payload = write_at 0 (replicate 20 5) zero_payload;
}

private_parsed : parse private_frame ≡ ok private_packet
unfolding parse has_transport_codes parse_path valid_path_len parse_body path_byte_len
private_parsed = refl

private-IsUnwelcome :
    (p : Packet)
    → parse private_frame ≡ ok p
    → IsUnwelcome sample_env sample_node (heard_as (negsuc 89) (pos 20) p)
unfolding payload_type
private-IsUnwelcome p e =
    subst (λ q. IsUnwelcome sample_env sample_node (heard_as (negsuc 89) (pos 20) q))
      (ok_inj (sym private_parsed ∙ e)) (inr (inl (inl refl)))

-- mesh_on_recv-Inert, for a private message.
mesh_on_recv-Inert_example :
    Inert sample_node (mesh_on_recv sample_env sample_node private_frame (negsuc 89) (pos 20))
mesh_on_recv-Inert_example =
    mesh_on_recv-Inert sample_env sample_node private_frame (negsuc 89) (pos 20) private-IsUnwelcome

sample_forwarded : (forward_scoped sample_env sample_node sample_packet [] []).1 ≡ forwarded
unfolding forward_scoped is_route_flood path_hash_count path_hash_size set_path_hash_count
    flood_backoff_ms hal_rng_int xorshift64 enqueue mesh_rf_silent free_slot hotspot_decide
    raw_length path_byte_len has_transport_codes
sample_forwarded = refl

-- forward_scoped-Relayed, for a flood that nobody has relayed yet.
forward_scoped-Relayed_example :
    Relayed sample_env sample_node sample_packet
      (relay_power sample_node sample_packet [] [])
      (forward_scoped sample_env sample_node sample_packet [] []).0
    × (is_hotspot sample_node.cfg.role && not (hotspot_decide sample_node sample_packet [] []).0
        ≡ false)
forward_scoped-Relayed_example =
    forward_scoped-Relayed sample_env sample_node sample_packet [] [] sample_forwarded
