-- ===== src/Config/Merge/Counts.antt =====
-- src/config.c: what becomes of the rooms that the hub asks for.
use meshcore_repeater.Common.{
  ℕ, ◌+◌, ◌≡◌, refl, ap, ◌∙◌, true, ◌&&◌, ◌||◌, List, [], ◌∷◌, ◌==◌, leb, ltb, length, arith,
  Bool-cases, inl, inr,
}
use meshcore_repeater.Common.Text.{is_empty}
use meshcore_repeater.Crypto.{Crypto}
use meshcore_repeater.Config.{Config}
use meshcore_repeater.Config.Rooms.{
  max_rooms, room_name, has_room, add_room_ex, serve_room, serve_rooms, config_policy_merge,
}
use meshcore_repeater.Config.Merge.{own_part, merged}

add_room_ex_counts :
    (c : Crypto) (cfg : Config) (val : List ℕ)
    → let cfg' = (add_room_ex c cfg val true).1 in
      (cfg'.policy_rooms ≡ cfg.policy_rooms) × (cfg'.policy_skipped ≡ cfg.policy_skipped)
unfolding add_room_ex
add_room_ex_counts c cfg val = elim (Bool-cases (is_empty (room_name val))) [
  | inl none_left ↦ rw none_left (refl, refl)
  | inr named ↦ elim (Bool-cases (has_room cfg.rooms (room_name val))) [
    | inl known ↦ rw (named, known) (refl, refl)
    | inr new ↦ elim (Bool-cases (leb max_rooms (length cfg.rooms))) [
      | inl full ↦ rw (named, new, full) (refl, refl)
      | inr fits ↦ rw (named, new, fits) (refl, refl)
    ]
  ]
]

serve_room_counts :
    (c : Crypto) (cfg : Config) (name : List ℕ)
    → let cfg' = serve_room c cfg name in
      cfg'.policy_rooms + cfg'.policy_skipped ≡ cfg.policy_rooms + cfg.policy_skipped + 1
unfolding serve_room
serve_room_counts c cfg name =
    let kept = add_room_ex_counts c cfg name in
    elim (Bool-cases (
      has_room cfg.rooms name
      || ((add_room_ex c cfg name true).0 == 0
          && ltb (length cfg.rooms) (length (add_room_ex c cfg name true).1.rooms)))) [
            | inl served ↦ rw served (omega (arith, kept.0, kept.1))
            | inr refused ↦ rw refused (omega (arith, kept.0, kept.1))
          ]

serve_rooms_counts :
    (c : Crypto) (cfg : Config) (names : List (List ℕ))
    → let cfg' = serve_rooms c cfg names in
      cfg'.policy_rooms + cfg'.policy_skipped ≡ cfg.policy_rooms + cfg.policy_skipped + length names
unfolding serve_rooms
serve_rooms_counts c cfg [] = omega arith
serve_rooms_counts c cfg (n ∷ ns) =
    omega (arith, serve_room_counts c cfg n, serve_rooms_counts c (serve_room c cfg n) ns)

-- The node without the hub's rooms.

-- When the hub's policy is taken, each of its rooms is either served or counted as one that this
-- node could not hold, on top of those that the collecting of the pages already skipped.
config_policy_merge_counts :
    (c : Crypto) (cfg : Config)
    → cfg.backbone_policy ≡ true
    → let cfg' = config_policy_merge c cfg in
      cfg'.policy_rooms + cfg'.policy_skipped ≡ cfg.policy.skipped + length cfg.policy.rooms
config_policy_merge_counts c cfg on =
    let counts = serve_rooms_counts c (own_part cfg) cfg.policy.rooms in
    ap (λ (x : Config). x.policy_rooms + x.policy_skipped) (merged c cfg on) ∙ omega (arith, counts)
