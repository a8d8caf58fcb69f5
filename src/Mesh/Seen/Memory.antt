-- ===== src/Mesh/Seen/Memory.antt =====
-- src/mesh.c: how long the ring remembers a packet hash.
use meshcore_repeater.Common.{
  ℕ, zero, suc, ◌+◌, ◌%◌, ◌≤◌, ◌<◌, ◌≡◌, ◌⊎◌, inl, inr, ◌∙◌, true, false, List, [], ◌∷◌, some,
  length, get_elem?, arith, Bool-cases,
}
use meshcore_repeater.Common.{length-set, get_elem?-set_self, get_elem?-set_ne, bytes_eq_self}
use meshcore_repeater.Mesh.State.{Mesh, mesh_seen_size}
use meshcore_repeater.Mesh.Seen.{seen_contains, seen_check_and_add}

abbrev pub IsRing : List (List ℕ) → ℕ → Type 0
IsRing seen idx = (length seen ≡ mesh_seen_size) × (idx < mesh_seen_size)

seen_contains_slot :
    (hs : List (List ℕ)) (j : ℕ) (h : List ℕ) → get_elem? hs j ≡ some h → seen_contains hs h ≡ true
unfolding seen_contains
seen_contains_slot [] j h e = ground arith
seen_contains_slot (x ∷ hs) zero h e = ground (arith, bytes_eq_self h)
seen_contains_slot (x ∷ hs) (suc j) h e = ground (arith, seen_contains_slot hs j h)

pub seen_check_and_add-IsRing :
    (m : Mesh) (h : List ℕ)
    → IsRing m.seen m.seen_idx
    → IsRing (seen_check_and_add m h).0.seen (seen_check_and_add m h).0.seen_idx
unfolding seen_check_and_add
seen_check_and_add-IsRing m h v = ground (arith, length-set m.seen m.seen_idx h)

-- The hash stands in slot `j`, which was written `k` additions ago.
abbrev pub Held : List ℕ → ℕ → ℕ → Mesh → Type 0
Held h j k m =
    IsRing m.seen m.seen_idx
    × (j < mesh_seen_size)
    × (get_elem? m.seen j ≡ some h)
    × (m.seen_idx ≡ (j + 1 + k) % mesh_seen_size)

fresh-Held :
    (m : Mesh) (h : List ℕ)
    → IsRing m.seen m.seen_idx
    → (seen_check_and_add m h).1 ≡ false
    → Held h m.seen_idx 0 (seen_check_and_add m h).0
unfolding seen_check_and_add
fresh-Held m h v e =
    ground (arith, length-set m.seen m.seen_idx h, get_elem?-set_self m.seen m.seen_idx h)

-- One more call ages the slot by one at most.
abbrev HeldBy : List ℕ → ℕ → ℕ → Mesh → Type 0
HeldBy h j n m = (k : ℕ) × (k ≤ n) × Held h j k m

Held-step :
    (h h' : List ℕ) (j k : ℕ) (m : Mesh)
    → k + 1 < mesh_seen_size
    → Held h j k m
    → Held h j k (seen_check_and_add m h').0 ⊎ Held h j (suc k) (seen_check_and_add m h').0
unfolding seen_check_and_add
Held-step h h' j k m l v = elim (Bool-cases (seen_contains m.seen h')) [
  | inl old ↦ inl (rw old v)
  | inr new ↦ inr (
      rw new (
        (length-set m.seen m.seen_idx h' ∙ v.0.0, omega arith),
        v.1,
        get_elem?-set_ne m.seen m.seen_idx j h' (omega (arith, v)) ∙ v.2,
        omega (arith, v),
      ))
]

-- The calls for a list of hashes, one after another.
abbrev pub seen_all : Mesh → List (List ℕ) → Mesh
seen_all m [] = m
seen_all m (h ∷ hs) = seen_all (seen_check_and_add m h).0 hs

Held-seen_all :
    (h : List ℕ) (j k : ℕ) (m : Mesh) (hs : List (List ℕ))
    → k + length hs < mesh_seen_size
    → Held h j k m
    → seen_contains (seen_all m hs).seen h ≡ true
Held-seen_all h j k m [] l v = seen_contains_slot m.seen j h v.2
Held-seen_all h j k m (h' ∷ hs) l v = elim (Held-step h h' j k m (omega arith) v) [
  | inl v' ↦ Held-seen_all h j k (seen_check_and_add m h').0 hs (omega arith) v'
  | inr v' ↦ Held-seen_all h j (suc k) (seen_check_and_add m h').0 hs (omega arith) v'
]

-- A hash that was new is reported as seen after any 159 further calls or fewer.
pub seen_remembers :
    (m : Mesh) (h : List ℕ) (hs : List (List ℕ))
    → IsRing m.seen m.seen_idx
    → (seen_check_and_add m h).1 ≡ false
    → length hs ≤ 159
    → let later = seen_all (seen_check_and_add m h).0 hs in
      seen_check_and_add later h ≡ (later, true)
unfolding seen_check_and_add
seen_remembers m h hs v e l =
    rw (
      Held-seen_all h m.seen_idx 0 (seen_check_and_add m h).0 hs (omega arith) (fresh-Held m h v e))
