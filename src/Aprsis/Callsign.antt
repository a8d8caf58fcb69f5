-- ===== src/Aprsis/Callsign.antt =====
-- src/aprsis.c: aprsis_passcode and aprsis_valid_callsign.
use meshcore_repeater.Common.{
  ℕ, zero, suc, ◌+◌, ◌-◌, ◌*◌, ◌%◌, ◌^◌, Bool, true, false, not, ◌&&◌, ◌||◌, List, [], ◌∷◌, Option,
  none, some, ltb, leb, ◌==◌, if◌then◌else◌, length, drop, get_or,
}
use Prim.Native.Nat.{bit_xor}
use mathlib.Core.List.{reverse}
use meshcore_repeater.Config.Lists.{split_dash}

-- `toupper` in the POSIX locale.
abbrev pub upper : ℕ → ℕ
upper c = if leb b'a' c && leb c b'z' then c - 32 else c

-- The first `n` letters before the SSID, in upper case.
unfoldable pub call_root : ℕ → List ℕ → List ℕ
call_root zero cs = []
call_root (suc n) [] = []
call_root (suc n) (c ∷ cs) = let rest = call_root n cs in if c == b'-' then [] else upper c ∷ rest

unfoldable pub hash_pairs : List ℕ → ℕ → ℕ
hash_pairs [] h = h
hash_pairs (a ∷ []) h = bit_xor h (a * 2 ^ 8)
hash_pairs (a ∷ b ∷ cs) h = hash_pairs cs (bit_xor (bit_xor h (a * 2 ^ 8)) b)

unfoldable pub aprsis_passcode : List ℕ → ℕ
unfolding call_root hash_pairs
aprsis_passcode call = hash_pairs (call_root 15 call) 0x73e2 % 2 ^ 15

abbrev pub is_letter : ℕ → Bool
is_letter c = leb b'A' c && leb c b'Z'

abbrev pub is_digit : ℕ → Bool
is_digit c = leb b'0' c && leb c b'9'

-- The name in upper case, if it has only letters, digits and dashes, at most `room` of them.
unfoldable pub upper_call : ℕ → List ℕ → Option (List ℕ)
upper_call room [] = some []
upper_call zero (c ∷ cs) = none
upper_call (suc room) (c ∷ cs) =
    let u = upper c in
    let rest = upper_call room cs in
    if not (is_letter u || (is_digit u || u == b'-'))
    then none
    else elim rest [ none ↦ none | some us ↦ some (u ∷ us) ]

unfoldable pub all_alnum : List ℕ → Bool
all_alnum [] = true
all_alnum (c ∷ cs) = (is_letter c || is_digit c) && all_alnum cs

-- The SSID behind a dash, for a base call of `cl` characters.
unfoldable pub ssid_ok : ℕ → List ℕ → Bool
unfolding all_alnum
ssid_ok cl s =
    not (ltb (length s) 1 || ltb 2 (length s))
    && (all_alnum s
        && (not (length s == 1 && get_or s 0 0 == b'0') && not (ltb 9 (cl + 1 + length s))))

-- The number of letters at the head.
unfoldable pub count_letters : List ℕ → ℕ
count_letters [] = 0
count_letters (c ∷ cs) = if is_letter c then 1 + count_letters cs else 0

unfoldable pub has_letter : List ℕ → Bool
has_letter [] = false
has_letter (c ∷ cs) = is_letter c || has_letter cs

-- Prefix of 1 or 2 with a letter in it, a digit, a suffix of 1 to 4 letters; read from the end.
unfoldable pub shape_ok : List ℕ → Bool
unfolding count_letters has_letter all_alnum
shape_ok base =
    let rev = reverse base in
    let suf = count_letters rev in
    let rest = drop suf rev in
    let prefix = drop 1 rest in
    not (ltb suf 1 || ltb 4 suf)
    && (ltb 0 (length rest)
        && (is_digit (get_or rest 0 0)
            && (not (ltb (length prefix) 1 || ltb 2 (length prefix))
                && (all_alnum prefix && has_letter prefix))))

-- The call in upper case, `none` for 0.
unfoldable pub aprsis_valid_callsign : List ℕ → Option (List ℕ)
unfolding upper_call ssid_ok shape_ok
aprsis_valid_callsign name = elim (upper_call 15 name) [
  | none ↦ none
  | some up ↦
      let parts : Option (List ℕ × List ℕ) = split_dash up in
      let base : List ℕ = elim parts [ none ↦ up | some (b, s) ↦ b ] in
      let tail_ok : Bool = elim parts [ none ↦ true | some (b, s) ↦ ssid_ok (length b) s ] in
      if (ltb (length base) 3 || ltb 7 (length base)) || (not tail_ok || not (shape_ok base))
      then none
      else some up
]
