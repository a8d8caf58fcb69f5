-- ===== src/Util/Hex.antt =====
-- src/util.c: bin2hex and hex2bin.
use meshcore_repeater.Common.{
  ℕ, ◌+◌, ◌-◌, ◌*◌, ◌/◌, ◌%◌, ◌^◌, ◌≤◌, ◌<◌, ◌≡◌, refl, ◌&&◌, Option, none, some, List, [], ◌∷◌,
  arith, length, leb, ltb, ◌==◌, if◌then◌else◌, All,
}
use meshcore_repeater.Util.Endian.{IsByte}

-- `HEXD[d]`.
unfoldable pub hex_digit : ℕ → ℕ
hex_digit d = if ltb d 10 then b'0' + d else b'a' + (d - 10)

unfoldable pub hex_digits : List ℕ → List ℕ
hex_digits [] = []
hex_digits (b ∷ bs) = hex_digit (b / 2 ^ 4 % 16) ∷ hex_digit (b % 16) ∷ hex_digits bs

-- The string written to `out` (its NUL left off); `none` where the source returns 0 for a buffer
-- that is too small.
unfoldable pub bin2hex : List ℕ → ℕ → Option (List ℕ)
bin2hex input outsz = if ltb outsz (length input * 2 + 1) then none else some (hex_digits input)

unfoldable pub hexval : ℕ → Option ℕ
hexval c =
    if leb b'0' c && leb c b'9'
    then some (c - b'0')
    else if leb b'a' c && leb c b'f'
    then some (c - b'a' + 10)
    else if leb b'A' c && leb c b'F'
    then some (c - b'A' + 10)
    else none

-- The loop over the pairs of digits. A lone last digit is refused by the test on the length.
unfoldable pub decode_pairs : List ℕ → Option (List ℕ)
decode_pairs [] = some []
decode_pairs (h ∷ []) = none
decode_pairs (h ∷ (l ∷ rest)) =
    let more = decode_pairs rest in
    elim (hexval h) [
      | none ↦ none
      | some hi ↦ elim (hexval l) [
        | none ↦ none
        | some lo ↦ elim more [ none ↦ none | some bytes ↦ some ((hi * 2 ^ 4 + lo) ∷ bytes) ]
      ]
    ]

unfoldable pub hex2bin : List ℕ → ℕ → Option (List ℕ)
hex2bin input outsz =
    if length input % 2 == 0
    then (if ltb outsz (length input / 2) then none else decode_pairs input)
    else none

hexval-hex_digit : (d : ℕ) → d < 16 → hexval (hex_digit d) ≡ some d
unfolding hexval hex_digit
hexval-hex_digit d h = ground arith

length-hex_digits : (bs : List ℕ) → length (hex_digits bs) ≡ length bs * 2
unfolding hex_digits
length-hex_digits [] = refl
length-hex_digits (b ∷ bs) = omega (arith, length-hex_digits bs)

decode_pairs-hex_digits : (bs : List ℕ) → All IsByte bs → decode_pairs (hex_digits bs) ≡ some bs
unfolding decode_pairs hex_digits
decode_pairs-hex_digits [] h = refl
decode_pairs-hex_digits (b ∷ bs) h = ground (
  arith,
  hexval-hex_digit (b / 2 ^ 4 % 16),
  hexval-hex_digit (b % 16),
  decode_pairs-hex_digits bs h.1,
)

-- What `bin2hex` prints into a buffer that holds it, `hex2bin` reads back as the same bytes, if
-- its own buffer holds them.
pub hex2bin-bin2hex :
    (bs : List ℕ) (outsz cap : ℕ) {text : List ℕ}
    → All IsByte bs
    → length bs ≤ cap
    → bin2hex bs outsz ≡ some text
    → hex2bin text cap ≡ some bs
unfolding bin2hex hex2bin
hex2bin-bin2hex bs outsz cap h room e =
    ground (arith, length-hex_digits bs, decode_pairs-hex_digits bs h)
