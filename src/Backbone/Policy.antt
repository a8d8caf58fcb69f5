-- ===== src/Backbone/Policy.antt =====
-- src/backbone.c: the entries of a POLICY page, into the set being collected.
pub mod Walk
use meshcore_repeater.Common.{
  ℕ, zero, suc, ◌+◌, ◌-◌, Bool, true, false, not, ◌&&◌, ◌||◌, List, [], ◌∷◌, ◌++◌, ◌==◌, leb, ltb,
  if◌then◌else◌, length, take, drop, get_or, Option, none, some,
}
use meshcore_repeater.Config.{Policy}
use meshcore_repeater.Config.Rooms.{room_name_len}

-- BB_POL_*.
abbrev pub bb_pol_room : ℕ
bb_pol_room = 1

abbrev pub bb_pol_block_name : ℕ
bb_pol_block_name = 2

abbrev pub bb_pol_block_key : ℕ
bb_pol_block_key = 3

abbrev pub bb_pol_max_pages : ℕ
bb_pol_max_pages = 16

-- MC_POLICY_MAX_ROOMS, MC_POLICY_MAX_BLOCKS, MC_BLACKLIST_NAME_LEN
abbrev pub policy_max_rooms : ℕ
policy_max_rooms = 32

abbrev pub policy_max_blocks : ℕ
policy_max_blocks = 256

abbrev pub blacklist_name_len : ℕ
blacklist_name_len = 32

-- The loop over a room's characters: a blank, a control character or DEL.
unfoldable pub has_blank : List ℕ → Bool
has_blank [] = false
has_blank (c ∷ cs) = leb c b' ' || (c == 0x7f || has_blank cs)

-- `memchr(v, 0, l)`.
unfoldable pub has_nul : List ℕ → Bool
has_nul [] = false
has_nul (c ∷ cs) = c == 0 || has_nul cs

-- The value of a room entry: one leading '#', 2 to 31 bytes, no blanks.
unfoldable pub room_ok : List ℕ → Bool
unfolding has_blank
room_ok v =
    not (ltb (length v) 2 || leb room_name_len (length v))
    && (get_or v 0 0 == b'#' && (not (get_or v 1 0 == b'#') && not (has_blank v)))

unfoldable pub name_ok : List ℕ → Bool
unfolding has_nul
name_ok v = not (ltb (length v) 1 || leb blacklist_name_len (length v)) && not (has_nul v)

unfoldable pub policy_add : Policy → ℕ → List ℕ → Policy
policy_add p kind v =
    let full : Policy = record p { skipped = p.skipped + 1 } in
    if kind == bb_pol_room
    then (if not (room_ok v)
        then p
        else if leb policy_max_rooms (length p.rooms)
        then full
        else record p { rooms = p.rooms ++ (v ∷ []) })
    else if kind == bb_pol_block_name
    then (if not (name_ok v)
        then p
        else if leb policy_max_blocks (length p.names)
        then full
        else record p { names = p.names ++ (v ∷ []) })
    else if kind == bb_pol_block_key
    then (if not (length v == 32)
        then p
        else if leb policy_max_blocks (length p.keys)
        then full
        else record p { keys = p.keys ++ (v ∷ []) })
    else p

-- The loop: kind, length, value. `none` where an entry runs past the end. A turn takes two bytes at
-- least; the fuel counts turns.
unfoldable pub walk_entries : ℕ → List ℕ → Policy → Option Policy
walk_entries fuel [] p = some p
walk_entries zero (k ∷ e) p = none
walk_entries (suc fuel) (k ∷ []) p = none
walk_entries (suc fuel) (k ∷ l ∷ e) p =
    let rest = walk_entries fuel (drop l e) (policy_add p k (take l e)) in
    if ltb (length e) l then none else rest

unfoldable pub policy_walk : List ℕ → Policy → Option Policy
policy_walk e p = walk_entries (length e) e p
