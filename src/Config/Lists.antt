-- ===== src/Config/Lists.antt =====
-- src/config.c: the node name's rule, and the bounded lists of names.
use meshcore_repeater.Common.{
  ℕ, Bool, true, false, ◌&&◌, ◌||◌, not, List, [], ◌∷◌, ◌++◌, Option, none, some, ◌==◌, leb, ltb,
  if◌then◌else◌, length, bytes_eq,
}
use mathlib.Core.List.{reverse}
use meshcore_repeater.Common.Text.{
  strcasecmp_eq, is_empty, skip_blanks, skip_space, copy_str, codes,
}
use meshcore_repeater.Config.{Role, is_hotspot, any_equal}

-- `strchr(name, '-')`: what stands before the first dash and after it.
unfoldable pub split_dash : List ℕ → Option (List ℕ × List ℕ)
split_dash [] = none
split_dash (c ∷ cs) =
    let later = split_dash cs in
    if c == b'-'
    then some ([], cs)
    else elim later [ none ↦ none | some (before, after) ↦ some (c ∷ before, after) ]

all_digits : List ℕ → Bool
all_digits [] = true
all_digits (c ∷ cs) = leb b'0' c && leb c b'9' && all_digits cs

-- The reason text is not modelled.
pub config_valid_node_name : List ℕ → Role → Bool
config_valid_node_name name role = if is_empty name then false else elim (split_dash name) [
  | none ↦ true
  | some (call, ssid) ↦
      if not (is_hotspot role)
      then false
      else if is_empty call
      then false
      else if ltb (length ssid) 1 || ltb 2 (length ssid)
      then false
      else all_digits ssid
]

-- Leading blanks go, the buffer truncates, trailing white space goes.
unfoldable pub trim_name : List ℕ → ℕ → List ℕ
trim_name input outsz = reverse (skip_space (reverse (copy_str outsz (skip_blanks input))))

-- A status and the list after it.
pub list_add : List (List ℕ) → ℕ → List ℕ → ℕ × List (List ℕ)
unfolding trim_name
list_add names max val =
    let clean = trim_name val 32 in
    if is_empty clean || bytes_eq clean (codes "*")
    then (2, names)
    else if any_equal strcasecmp_eq names clean
    then (0, names)
    else if leb max (length names)
    then (2, names)
    else (0, names ++ (clean ∷ []))

-- 0 added, 1 already present, 2 (the source's -1) full or empty.
pub config_blacklist_add : List (List ℕ) → List ℕ → ℕ × List (List ℕ)
unfolding trim_name
config_blacklist_add names name =
    let clean = trim_name name 32 in
    if is_empty clean
    then (2, names)
    else if any_equal strcasecmp_eq names clean
    then (1, names)
    else if leb 32 (length names)
    then (2, names)
    else (0, names ++ (clean ∷ []))

-- The first entry that matches goes and the later ones move down; `none` for not found.
remove_first : List (List ℕ) → List ℕ → Option (List (List ℕ))
remove_first [] clean = none
remove_first (x ∷ xs) clean =
    let later = remove_first xs clean in
    if strcasecmp_eq x clean then some xs else elim later [ none ↦ none | some ys ↦ some (x ∷ ys) ]

pub config_blacklist_remove : List (List ℕ) → List ℕ → Option (List (List ℕ))
unfolding trim_name remove_first
config_blacklist_remove names name = remove_first names (trim_name name 32)
