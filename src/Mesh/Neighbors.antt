-- ===== src/Mesh/Neighbors.antt =====
-- src/mesh.c: the table of the nodes that this radio hears.
use meshcore_repeater.Common.{
  ℕ, ◌+◌, ◌%◌, ◌^◌, true, ◌&&◌, List, [], ◌∷◌, Option, none, some, ltb, if◌then◌else◌, get_or, set,
  bytes_eq, ℤ,
}
use meshcore_repeater.Advert.{advert_extract}
use meshcore_repeater.Packet.{Packet, path_hash_count}
use meshcore_repeater.Mesh.State.{Mesh, Env, Neighbor, free_neighbor}

-- What the loop over the table found: the entry of the key, or the first free slot and the oldest.
pub data Found : Type 0 where
  known : ℕ → Found
  absent : Option ℕ → ℕ → ℕ → Found

-- From entry `i` on.
unfoldable pub scan_neighbors : List ℕ → List Neighbor → ℕ → Option ℕ → ℕ → ℕ → Found
scan_neighbors key [] i free oldest oldest_ts = absent free oldest oldest_ts
scan_neighbors key (n ∷ ns) i free oldest oldest_ts =
    let free' : Option ℕ = elim free [ none ↦ if n.used then none else some i | some j ↦ some j ] in
    let older = n.used && ltb n.last_seen oldest_ts in
    let rest =
      scan_neighbors key ns (i + 1) free' (if older then i else oldest)
        (if older then n.last_seen else oldest_ts) in
    if n.used && bytes_eq n.public_key key then known i else rest

-- The fields that an advert sets. A name that cannot be read becomes empty, the type then stays.
unfoldable pub refresh_neighbor : ℕ → Packet → ℤ → ℤ → Neighbor → Neighbor
refresh_neighbor now p rssi snr_q n =
    let n' : Neighbor = record n {
      rssi = rssi;
      snr_q = snr_q;
      last_seen = now;
      hops = path_hash_count p;
    } in
    elim (advert_extract p 32) [
      | none ↦ record n' { name = [] }
      | some (type, name) ↦ record n' { type = type; name = name }
    ]

-- The slot that is written and its new content.
unfoldable pub neighbor_slot : Found → ℕ
neighbor_slot (known i) = i
neighbor_slot (absent none oldest ts) = oldest
neighbor_slot (absent (some j) oldest ts) = j

unfoldable pub neighbor_entry : ℕ → List ℕ → Packet → ℤ → ℤ → List Neighbor → Found → Neighbor
unfolding refresh_neighbor
neighbor_entry now key p rssi snr_q table (known i) =
    let n = get_or table i free_neighbor in
    refresh_neighbor now p rssi snr_q (record n { count = (n.count + 1) % 2 ^ 32 })
neighbor_entry now key p rssi snr_q table (absent free oldest ts) =
    refresh_neighbor now p rssi snr_q
      (record free_neighbor { used = true; public_key = key; count = 1 })

unfoldable pub neighbor_update : Env → Mesh → List ℕ → Packet → ℤ → ℤ → Mesh
unfolding neighbor_slot neighbor_entry
neighbor_update env m key p rssi snr_q =
    let found = scan_neighbors key m.neighbors 0 none 0 0xffff_ffff in
    record m {
      neighbors =
          set m.neighbors (neighbor_slot found)
            (neighbor_entry (env.unix % 2 ^ 32) key p rssi snr_q m.neighbors found);
    }

unfoldable pub count_used : List Neighbor → ℕ
count_used [] = 0
count_used (n ∷ ns) = (if n.used then 1 else 0) + count_used ns

unfoldable pub mesh_neighbor_count : Mesh → ℕ
unfolding count_used
mesh_neighbor_count m = count_used m.neighbors
