-- ===== src/Mesh/Tests/Paths.antt =====
-- src/mesh.c: concrete runs of the path changes.
use meshcore_repeater.Common.{
  ◌+◌, ◌-◌, ◌≡◌, ◌≤◌, ◌<◌, refl, false, [], ◌++◌, drop, ◌==◌, arith, inl,
}
use meshcore_repeater.Identity.{copy_hash}
use meshcore_repeater.Packet.{
  IsValid, is_route_flood, path_hash_count, path_hash_size, payload_type, payload_trace,
}
use meshcore_repeater.Packet.Codec.{calc_hash}
use meshcore_repeater.Mesh.Receive.{append_hop, strip_hop}
use meshcore_repeater.Mesh.Receive.Hops.{
  HasRoom, path_bytes, append_hop-IsValid, append_hop_path, append_hop_wraps, strip_hop_lem,
}
use meshcore_repeater.Mesh.Receive.Relay.{Onward, Onward-calc_hash}
use meshcore_repeater.Mesh.Samples.{
  sample_env, sample_node, sample_packet, sample_packet-IsValid, far_packet, far_packet-IsValid,
}

has_room : HasRoom sample_packet
unfolding path_hash_count path_hash_size
has_room = omega arith

near : path_hash_count sample_packet < 63
unfolding path_hash_count
near = omega arith

append_hop-IsValid_example : IsValid (append_hop sample_node sample_packet)
append_hop-IsValid_example =
    append_hop-IsValid sample_node sample_packet sample_packet-IsValid refl has_room

append_hop_path_example :
    (path_hash_count (append_hop sample_node sample_packet) ≡ path_hash_count sample_packet + 1)
    × (path_hash_size (append_hop sample_node sample_packet) ≡ path_hash_size sample_packet)
    × (path_bytes (append_hop sample_node sample_packet)
        ≡ path_bytes sample_packet ++ copy_hash sample_node.id (path_hash_size sample_packet))
    × ((append_hop sample_node sample_packet).payload ≡ sample_packet.payload)
    × ((append_hop sample_node sample_packet).payload_len ≡ sample_packet.payload_len)
    × ((append_hop sample_node sample_packet).header ≡ sample_packet.header)
append_hop_path_example =
    append_hop_path sample_node sample_packet sample_packet-IsValid refl has_room near

far_count : path_hash_count far_packet ≡ 63
unfolding path_hash_count
far_count = refl

far_size : path_hash_size far_packet ≡ 1
unfolding path_hash_size
far_size = refl

append_hop_wraps_example :
    HasRoom far_packet
    × (path_hash_count (append_hop sample_node far_packet) ≡ 0)
    × (path_bytes (append_hop sample_node far_packet) ≡ [])
append_hop_wraps_example =
    append_hop_wraps sample_node far_packet far_packet-IsValid far_count far_size

one_hop : 1 ≤ path_hash_count far_packet
unfolding path_hash_count
one_hop = omega arith

strip_hop_lem_example :
    IsValid (strip_hop far_packet)
    × (path_hash_count (strip_hop far_packet) ≡ path_hash_count far_packet - 1)
    × (path_hash_size (strip_hop far_packet) ≡ path_hash_size far_packet)
    × (path_bytes (strip_hop far_packet) ≡ drop (path_hash_size far_packet) (path_bytes far_packet))
    × ((strip_hop far_packet).payload ≡ far_packet.payload)
    × ((strip_hop far_packet).payload_len ≡ far_packet.payload_len)
    × ((strip_hop far_packet).header ≡ far_packet.header)
strip_hop_lem_example = strip_hop_lem far_packet far_packet-IsValid one_hop

sample_Onward : Onward sample_node sample_packet (append_hop sample_node sample_packet) 1
unfolding is_route_flood path_hash_count path_hash_size
sample_Onward = inl (refl, refl, omega arith, refl, refl)

not_trace : (payload_type sample_packet == payload_trace) ≡ false
unfolding payload_type
not_trace = refl

Onward-calc_hash_example :
    calc_hash sample_env.crypto.sha256 (append_hop sample_node sample_packet)
    ≡ calc_hash sample_env.crypto.sha256 sample_packet
Onward-calc_hash_example =
    Onward-calc_hash sample_env.crypto.sha256 sample_node sample_packet
      (append_hop sample_node sample_packet) 1 sample_Onward not_trace
