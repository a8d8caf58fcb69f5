-- ===== src/Common/Text.antt =====
-- C strings as the list of their bytes before the NUL, and the libc functions on them that the
-- sources call (POSIX locale).
use meshcore_repeater.Common.Tests.{ltb, leb, ◌==◌, if◌then◌else◌}
use meshcore_repeater.Common.Lists.{take}
use meshcore_repeater.Common.Int.{ℤ, pos, negsuc}
use Prim.Native.Nat.{ℕ, zero, suc, ◌+◌, ◌-◌, ◌/◌, ◌%◌}
use Prim.Native.Char.{code}
use Prim.Native.String.{String}
use mathlib.Core.Bool.{Bool, true, false, ◌&&◌, ◌||◌}
use mathlib.Core.Option.{Option, none, some}
use mathlib.Core.List.{List, [], ◌∷◌}

abbrev pub Bytes : Type 0
Bytes = List ℕ

-- The bytes of an ASCII literal.
abbrev pub codes : String → List ℕ
codes String.[] = []
codes (String.◌∷◌ c s) = code c ∷ codes s

-- The string that starts at the head of a buffer: what stands before the first NUL.
unfoldable pub cstr : List ℕ → List ℕ
cstr [] = []
cstr (c ∷ cs) = elim c [ zero ↦ [] | suc k ↦ suc k ∷ cstr cs ]

-- `tolower` in the POSIX locale.
abbrev pub lower : ℕ → ℕ
lower c = if leb b'A' c && leb c b'Z' then c + 32 else c

-- `strcasecmp(a, b) == 0`.
unfoldable pub strcasecmp_eq : List ℕ → List ℕ → Bool
strcasecmp_eq [] [] = true
strcasecmp_eq [] (b ∷ bs) = false
strcasecmp_eq (a ∷ as_) [] = false
strcasecmp_eq (a ∷ as_) (b ∷ bs) = lower a == lower b && strcasecmp_eq as_ bs

-- `strncasecmp(a, b, n) == 0`.
unfoldable pub strncasecmp_eq : ℕ → List ℕ → List ℕ → Bool
strncasecmp_eq zero a b = true
strncasecmp_eq (suc n) [] [] = true
strncasecmp_eq (suc n) [] (b ∷ bs) = false
strncasecmp_eq (suc n) (a ∷ as_) [] = false
strncasecmp_eq (suc n) (a ∷ as_) (b ∷ bs) = lower a == lower b && strncasecmp_eq n as_ bs

-- `snprintf(out, size, "%s", s)` into a buffer of `size` bytes.
abbrev pub copy_str : ℕ → List ℕ → List ℕ
copy_str size s = take (size - 1) s

-- `while (*p == ' ' || *p == '\t') p++;`
unfoldable pub skip_blanks : List ℕ → List ℕ
skip_blanks [] = []
skip_blanks (c ∷ cs) = if c == b' ' || c == 9 then skip_blanks cs else c ∷ cs

-- The same, over '\r' and '\n' too.
unfoldable pub skip_space : List ℕ → List ℕ
skip_space [] = []
skip_space (c ∷ cs) = if c == b' ' || c == 9 || c == 13 || c == 10 then skip_space cs else c ∷ cs

abbrev pub is_empty : List ℕ → Bool
is_empty [] = true
is_empty (c ∷ cs) = false

-- `strstr(text, ": ")`: what stands before the separator and after it.
unfoldable pub split_sep : List ℕ → Option (List ℕ × List ℕ)
split_sep [] = none
split_sep (c ∷ []) = none
split_sep (c ∷ (d ∷ rest)) =
    let later = split_sep (d ∷ rest) in
    if c == b':' && d == b' '
    then some ([], rest)
    else elim later [ none ↦ none | some (before, after) ↦ some (c ∷ before, after) ]

-- "%d" of a number that is not negative, most significant digit first. The fuel counts digits.
decimal_fuel : ℕ → ℕ → List ℕ → List ℕ
decimal_fuel zero n acc = acc
decimal_fuel (suc fuel) n acc =
    let acc' = (b'0' + n % 10) ∷ acc in
    let more = decimal_fuel fuel (n / 10) acc' in if ltb n 10 then acc' else more

unfoldable pub decimal : ℕ → List ℕ
unfolding decimal_fuel
decimal n = decimal_fuel 20 n []

-- "%d" of an int.
unfoldable pub decimal_int : ℤ → List ℕ
unfolding decimal
decimal_int (pos n) = decimal n
decimal_int (negsuc n) = b'-' ∷ decimal (n + 1)

-- "%02d" of a number that is not negative.
unfoldable pub decimal2 : ℕ → List ℕ
unfolding decimal
decimal2 n = if ltb n 10 then b'0' ∷ decimal n else decimal n
