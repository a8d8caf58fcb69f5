-- ===== src/Util/Tests.antt =====
-- src/util.c: concrete conversions.
use meshcore_repeater.Common.{ℕ, ◌≡◌, refl, List, [], ◌∷◌, All, some, arith}
use meshcore_repeater.Util.Endian.{IsByte}
use meshcore_repeater.Util.Hex.{hex_digit, hex_digits, bin2hex, hex2bin, hex2bin-bin2hex}

abbrev bytes : List ℕ
bytes = 0xca ∷ 0x07 ∷ []

bytes_in : All IsByte bytes
bytes_in = omega arith

printed : bin2hex bytes 16 ≡ some (b'c' ∷ b'a' ∷ b'0' ∷ b'7' ∷ [])
unfolding bin2hex hex_digits hex_digit
printed = refl

hex2bin-bin2hex_example : hex2bin (b'c' ∷ b'a' ∷ b'0' ∷ b'7' ∷ []) 32 ≡ some bytes
hex2bin-bin2hex_example = hex2bin-bin2hex bytes 16 32 bytes_in (omega arith) printed
