-- ===== src/Mesh/Commands.antt =====
-- src/mesh.c: recognising the commands in a message body, with the sscanf that they use.
use meshcore_repeater.Common.{
  ℕ, ◌+◌, ◌-◌, ◌*◌, Bool, true, false, not, ◌&&◌, ◌||◌, List, [], ◌∷◌, Option, none, some, ◌==◌,
  leb, if◌then◌else◌, length, drop, ℤ, pos, negsuc,
}
use meshcore_repeater.Common.Text.{is_empty, codes, skip_blanks, skip_space, strncasecmp_eq}

-- Exactly `word`, white space around it aside.
unfoldable pub is_word : List ℕ → List ℕ → Bool
is_word msg word =
    let start = skip_blanks msg in
    if strncasecmp_eq (length word) start word
    then is_empty (skip_space (drop (length word) start))
    else false

unfoldable pub is_ping : List ℕ → Bool
is_ping msg =
    let start = skip_blanks msg in
    if strncasecmp_eq 4 start (codes "ping") then is_empty (skip_space (drop 4 start)) else false

-- isspace in the POSIX locale.
skip_isspace : List ℕ → List ℕ
skip_isspace [] = []
skip_isspace (c ∷ cs) = if c == b' ' || (leb 9 c && leb c 13) then skip_isspace cs else c ∷ cs

-- The decimal digits at the front, read onto `acc`, and the rest.
scan_digits : List ℕ → ℕ → ℕ × List ℕ
scan_digits [] acc = (acc, [])
scan_digits (c ∷ cs) acc =
    let more = scan_digits cs (acc * 10 + (c - b'0')) in
    if leb b'0' c && leb c b'9' then more else (acc, c ∷ cs)

starts_with_digit : List ℕ → Bool
starts_with_digit [] = false
starts_with_digit (c ∷ cs) = leb b'0' c && leb c b'9'

unsigned_of : (ℕ → ℤ) → List ℕ → Option (ℤ × List ℕ)
unfolding scan_digits starts_with_digit
unsigned_of sign s =
    let (n, rest) = scan_digits s 0 in if starts_with_digit s then some (sign n, rest) else none

minus : ℕ → ℤ
minus n = if n == 0 then pos 0 else negsuc (n - 1)

signed_of : List ℕ → Option (ℤ × List ℕ)
unfolding unsigned_of minus
signed_of [] = none
signed_of (c ∷ cs) =
    if c == b'-'
    then unsigned_of minus cs
    else if c == b'+'
    then unsigned_of pos cs
    else unsigned_of pos (c ∷ cs)

-- "%d", for a number that an int holds.
scan_int : List ℕ → Option (ℤ × List ℕ)
unfolding skip_isspace signed_of
scan_int s = signed_of (skip_isspace s)

scan_two_ints : List ℕ → Option (ℤ × ℤ)
unfolding scan_int
scan_two_ints s = elim (scan_int s) [
  | none ↦ none
  | some (a, rest) ↦ elim (scan_int rest) [ none ↦ none | some (b, tail) ↦ some (a, b) ]
]

at_word_end : List ℕ → Bool
at_word_end [] = true
at_word_end (c ∷ cs) = c == b' ' || c == 9

-- "probe <secs> <count>"; stop and cancel are two zeros.
unfoldable pub is_probe : List ℕ → Option (ℤ × ℤ)
unfolding at_word_end scan_two_ints
is_probe msg =
    let start = skip_blanks msg in
    let p = drop 5 start in
    let arg = skip_blanks p in
    if not (strncasecmp_eq 5 start (codes "probe"))
    then none
    else if not (at_word_end p)
    then none
    else if strncasecmp_eq 4 arg (codes "stop") || strncasecmp_eq 6 arg (codes "cancel")
    then some (pos 0, pos 0)
    else scan_two_ints arg
