-- ===== src/Config/Merge.antt =====
-- src/config.c: what the hub's policy can change, and what it cannot.
pub mod Counts
use meshcore_repeater.Common.{
  ℕ, zero, suc, ◌+◌, ◌≤◌, ◌≡◌, refl, sym, ap, ◌∙◌, subst, Bool, true, false, ◌&&◌, ◌||◌, List, [],
  ◌∷◌, ◌++◌, ◌==◌, leb, ltb, if◌then◌else◌, length, bytes_eq, arith, Bool-cases, if_true, if_false,
  length-push, inl, inr,
}
use meshcore_repeater.Common.Text.{is_empty}
use meshcore_repeater.Crypto.{Crypto}
use meshcore_repeater.Config.{
  Config, Channel, Room, Policy, config_ascii_eq, any_equal, config_is_key_blocked,
}
use meshcore_repeater.Config.Rooms.{
  max_public_channels, max_rooms, register_channel, room_name, has_room, mark_hub, add_room_ex,
  local_rooms, local_channels, serve_room, serve_rooms, config_policy_merge, other_names,
  other_keys, config_set_policy,
}

local_rooms-hub : (x : Room) (rs : List Room) → x.hub ≡ true → local_rooms (x ∷ rs) ≡ local_rooms rs
unfolding local_rooms
local_rooms-hub x rs e = if_true _ _ e

local_rooms-own :
    (x : Room) (rs : List Room) → x.hub ≡ false → local_rooms (x ∷ rs) ≡ x ∷ local_rooms rs
unfolding local_rooms
local_rooms-own x rs e = if_false _ _ e

local_rooms-append :
    (rs : List Room) (r : Room) → r.hub ≡ true → local_rooms (rs ++ (r ∷ [])) ≡ local_rooms rs
unfolding local_rooms
local_rooms-append [] r h = local_rooms-hub r [] h
local_rooms-append (x ∷ rs) r h = elim (Bool-cases x.hub) [
  | inl hub ↦
      local_rooms-hub x (rs ++ (r ∷ [])) hub
      ∙ local_rooms-append rs r h
      ∙ sym (local_rooms-hub x rs hub)
  | inr own ↦
      local_rooms-own x (rs ++ (r ∷ [])) own
      ∙ ap (λ ys. x ∷ ys) (local_rooms-append rs r h)
      ∙ sym (local_rooms-own x rs own)
]

local_rooms_again : (rs : List Room) → local_rooms (local_rooms rs) ≡ local_rooms rs
unfolding local_rooms
local_rooms_again [] = refl
local_rooms_again (x ∷ rs) = elim (Bool-cases x.hub) [
  | inl hub ↦
      ap local_rooms (local_rooms-hub x rs hub)
      ∙ local_rooms_again rs
      ∙ sym (local_rooms-hub x rs hub)
  | inr own ↦
      ap local_rooms (local_rooms-own x rs own)
      ∙ local_rooms-own x (local_rooms rs) own
      ∙ ap (λ ys. x ∷ ys) (local_rooms_again rs)
      ∙ sym (local_rooms-own x rs own)
]

length-local_rooms : (rs : List Room) → length (local_rooms rs) ≤ length rs
unfolding local_rooms
length-local_rooms [] = omega arith
length-local_rooms (x ∷ rs) = ground (arith, length-local_rooms rs)

length-local_channels : (chs : List Channel) → length (local_channels chs) ≤ length chs
unfolding local_channels
length-local_channels [] = omega arith
length-local_channels (x ∷ chs) = ground (arith, length-local_channels chs)

length-mark_hub : (had : ℕ) (chs : List Channel) → length (mark_hub had chs) ≡ length chs
unfolding mark_hub
length-mark_hub zero [] = refl
length-mark_hub (suc had) [] = refl
length-mark_hub zero (ch ∷ chs) = refl
length-mark_hub (suc had) (ch ∷ chs) = ap suc (length-mark_hub had chs)

length-register_channel :
    (c : Crypto) (chs : List Channel) (name secret : List ℕ) (len : ℕ) (derived : Bool)
    → length chs ≤ max_public_channels
    → length (register_channel c chs name secret len derived).1 ≤ max_public_channels
unfolding register_channel
length-register_channel c chs name secret len derived h = grind (arith, length-push {A = Channel})

-- The tables are no larger than the arrays of the source.
abbrev pub TablesFit : Config → Type 0
TablesFit cfg = (length cfg.rooms ≤ max_rooms) × (length cfg.public_channels ≤ max_public_channels)

-- What adding a hub room keeps: the local rooms, the bounds, and everything but the tables.
abbrev Extends : Config → Config → Type 0
Extends cfg cfg' =
    (local_rooms cfg'.rooms ≡ local_rooms cfg.rooms)
    × (TablesFit cfg → TablesFit cfg')
    × (cfg'.policy ≡ cfg.policy)
    × (cfg'.backbone_policy ≡ cfg.backbone_policy)
    × (cfg'.name ≡ cfg.name)

Extends-refl : (cfg : Config) → Extends cfg cfg
Extends-refl cfg = (refl, (λ h. h), refl, refl, refl)

Extends-trans : (a b c : Config) → Extends a b → Extends b c → Extends a c
Extends-trans a b c (l, f, p, q, n) (l', f', p', q', n') =
    (l' ∙ l, (λ h. f' (f h)), p' ∙ p, q' ∙ q, n' ∙ n)

marked_bound :
    (had : ℕ) (chs : List Channel)
    → length chs ≤ max_public_channels
    → length (if true && ltb had (length chs) then mark_hub had chs else chs) ≤ max_public_channels
marked_bound had chs h = elim (Bool-cases (ltb had (length chs))) [
  | inl more ↦ rw (more, length-mark_hub had chs) h
  | inr same ↦ rw same h
]

pushed_bound :
    (rs : List Room) (r : Room)
    → leb max_rooms (length rs) ≡ false
    → length (rs ++ (r ∷ [])) ≤ max_rooms
pushed_bound rs r h = ground (arith, length-push rs r)

add_room_ex-Extends :
    (c : Crypto) (cfg : Config) (val : List ℕ) → Extends cfg (add_room_ex c cfg val true).1
unfolding add_room_ex
add_room_ex-Extends c cfg val = elim (Bool-cases (is_empty (room_name val))) [
  | inl none_left ↦ rw none_left (Extends-refl cfg)
  | inr named ↦ elim (Bool-cases (has_room cfg.rooms (room_name val))) [
    | inl known ↦ rw (named, known) (Extends-refl cfg)
    | inr new ↦ elim (Bool-cases (leb max_rooms (length cfg.rooms))) [
      | inl full ↦ rw (named, new, full) (Extends-refl cfg)
      | inr fits ↦
          rw (named, new, fits)
            (
              local_rooms-append cfg.rooms _ refl,
              (λ h. (
                pushed_bound cfg.rooms _ fits,
                marked_bound (length cfg.public_channels)
                    (register_channel c cfg.public_channels (room_name val)
                      (c.sha256 (room_name val)) 16 true).1
                    (length-register_channel c cfg.public_channels _ _ 16 true h.1),
              )),
              refl,
              refl,
              refl,
            )
    ]
  ]
]

serve_room-Extends :
    (c : Crypto) (cfg : Config) (name : List ℕ) → Extends cfg (serve_room c cfg name)
unfolding serve_room
serve_room-Extends c cfg name =
    elim (Bool-cases (
      has_room cfg.rooms name
      || ((add_room_ex c cfg name true).0 == 0
          && ltb (length cfg.rooms) (length (add_room_ex c cfg name true).1.rooms)))) [
            | inl served ↦ rw served (add_room_ex-Extends c cfg name)
            | inr refused ↦ rw refused (add_room_ex-Extends c cfg name)
          ]

serve_rooms-Extends :
    (c : Crypto) (cfg : Config) (names : List (List ℕ)) → Extends cfg (serve_rooms c cfg names)
unfolding serve_rooms
serve_rooms-Extends c cfg [] = Extends-refl cfg
serve_rooms-Extends c cfg (n ∷ ns) =
    Extends-trans cfg (serve_room c cfg n) (serve_rooms c (serve_room c cfg n) ns)
      (serve_room-Extends c cfg n) (serve_rooms-Extends c (serve_room c cfg n) ns)

abbrev own_part : Config → Config
own_part cfg = record cfg {
  rooms = local_rooms cfg.rooms;
  public_channels = local_channels cfg.public_channels;
  policy_rooms = 0;
  policy_skipped = cfg.policy.skipped;
}

own_part-Extends : (cfg : Config) → Extends cfg (own_part cfg)
own_part-Extends cfg = (
  local_rooms_again cfg.rooms,
  (λ h. (
    omega (arith, length-local_rooms cfg.rooms, h.0),
    omega (arith, length-local_channels cfg.public_channels, h.1),
  )),
  refl,
  refl,
  refl,
)

merged :
    (c : Crypto) (cfg : Config)
    → cfg.backbone_policy ≡ true
    → config_policy_merge c cfg ≡ serve_rooms c (own_part cfg) cfg.policy.rooms
unfolding config_policy_merge
merged c cfg on = if_true (serve_rooms c (own_part cfg) cfg.policy.rooms) (own_part cfg) on

own_only :
    (c : Crypto) (cfg : Config)
    → cfg.backbone_policy ≡ false
    → config_policy_merge c cfg ≡ own_part cfg
unfolding config_policy_merge
own_only c cfg off = if_false (serve_rooms c (own_part cfg) cfg.policy.rooms) (own_part cfg) off

config_policy_merge-Extends : (c : Crypto) (cfg : Config) → Extends cfg (config_policy_merge c cfg)
config_policy_merge-Extends c cfg = elim (Bool-cases cfg.backbone_policy) [
  | inr off ↦ subst (Extends cfg) (sym (own_only c cfg off)) (own_part-Extends cfg)
  | inl on ↦ subst (Extends cfg) (sym (merged c cfg on)) (
      Extends-trans cfg (own_part cfg) (serve_rooms c (own_part cfg) cfg.policy.rooms)
        (own_part-Extends cfg) (serve_rooms-Extends c (own_part cfg) cfg.policy.rooms))
]

-- The settings with a new set, before its rooms are served.
abbrev taken : Config → Policy → List ℕ → Config
taken cfg p own = record cfg {
  policy = record p { names = other_names cfg.name p.names; keys = other_keys own p.keys };
}

-- The hub cannot touch the rooms of the node's own file, nor fill a table beyond its size: after a
-- new policy set the rooms that are not the hub's are the same, in the same order, and both tables
-- still fit.
pub config_set_policy-Local :
    (c : Crypto) (cfg : Config) (p : Policy) (own : List ℕ)
    → TablesFit cfg
    → let cfg' = config_set_policy c cfg p own in
      (local_rooms cfg'.rooms ≡ local_rooms cfg.rooms) × TablesFit cfg'
unfolding config_set_policy
config_set_policy-Local c cfg p own h =
    let kept = config_policy_merge-Extends c (taken cfg p own) in (kept.0, (kept.1) h)

other_names-Spares :
    (own : List ℕ) (ns : List (List ℕ)) → any_equal config_ascii_eq (other_names own ns) own ≡ false
unfolding other_names any_equal
other_names-Spares own [] = refl
other_names-Spares own (n ∷ ns) = elim (Bool-cases (config_ascii_eq n own)) [
  | inl mine ↦ rw (mine) (other_names-Spares own ns)
  | inr other ↦ rw (other, other) (other_names-Spares own ns)
]

other_keys-Spares :
    (own : List ℕ) (ks : List (List ℕ)) → any_equal bytes_eq (other_keys own ks) own ≡ false
unfolding other_keys any_equal
other_keys-Spares own [] = refl
other_keys-Spares own (k ∷ ks) = elim (Bool-cases (bytes_eq k own)) [
  | inl mine ↦ rw (mine) (other_keys-Spares own ks)
  | inr other ↦ rw (other, other) (other_keys-Spares own ks)
]

-- The hub cannot make a node block itself: whatever set it sends, neither the node's own key nor
-- its own name is among the blocks that were taken.
pub config_set_policy-Spares :
    (c : Crypto) (cfg : Config) (p : Policy) (own : List ℕ)
    → let cfg' = config_set_policy c cfg p own in
      (config_is_key_blocked cfg' own ≡ false)
      × (any_equal config_ascii_eq cfg'.policy.names cfg.name ≡ false)
unfolding config_set_policy config_is_key_blocked
config_set_policy-Spares c cfg p own =
    let kept = config_policy_merge-Extends c (taken cfg p own) in
    let keys : any_equal bytes_eq (config_set_policy c cfg p own).policy.keys own ≡ false =
      ap (λ (q : Policy). any_equal bytes_eq q.keys own) kept.2 ∙ other_keys-Spares own p.keys in
    (
      ground (arith, keys),
      ap (λ (q : Policy). any_equal config_ascii_eq q.names cfg.name) kept.2
          ∙ other_names-Spares cfg.name p.names,
    )
