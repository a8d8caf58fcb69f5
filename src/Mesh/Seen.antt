-- ===== src/Mesh/Seen.antt =====
-- src/mesh.c: the ring of the last 160 packet hashes.
pub mod Memory
use meshcore_repeater.Common.{
  ℕ, ◌+◌, ◌%◌, ◌<◌, ◌≡◌, Bool, true, false, ◌||◌, List, [], ◌∷◌, if◌then◌else◌, set, bytes_eq,
}
use meshcore_repeater.Mesh.State.{Mesh, mesh_seen_size}

unfoldable pub seen_contains : List (List ℕ) → List ℕ → Bool
seen_contains [] hash = false
seen_contains (h ∷ hs) hash = bytes_eq h hash || seen_contains hs hash

-- Whether the hash was there already; otherwise it is recorded over the oldest one.
unfoldable pub seen_check_and_add : Mesh → List ℕ → Mesh × Bool
seen_check_and_add m hash = if seen_contains m.seen hash then (m, true) else (
  record m { seen = set m.seen m.seen_idx hash; seen_idx = (m.seen_idx + 1) % mesh_seen_size },
  false,
)
