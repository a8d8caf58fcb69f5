-- ===== src/Common/Int.antt =====
-- Signed values (dBm, quarter-dB, degrees): C's intN_t as integers, with the casts between them
-- and the unsigned words that travel on the wire.
use Prim.Native.Nat.{ℕ, suc, ◌+◌, ◌-◌, ◌^◌, ◌%◌, ◌<◌}
use mathlib.Core.Path.{◌≡◌}
use native.Mathlib.Omega.{arith}
use meshcore_repeater.Common.Tests.{ltb, if◌then◌else◌}

-- `negsuc n` is -(n + 1).
pub data ℤ : Type 0 where
  pos : ℕ → ℤ
  negsuc : ℕ → ℤ

-- `(uintW_t)x` for the word of 2 ^ w = m values.
unfoldable pub to_word : ℕ → ℤ → ℕ
to_word m (pos n) = n % m
to_word m (negsuc n) = (m - 1) - n % m

-- `(intW_t)x` of a word: two's complement.
unfoldable pub of_word : ℕ → ℕ → ℤ
of_word m w = if ltb w (m - w) then pos w else negsuc (m - w - 1)

-- What an intW_t can hold.
abbrev pub FitsWord : ℕ → ℤ → Type 0
FitsWord m (pos n) = n + n < m
FitsWord m (negsuc n) = suc (n + n) < m

pub of_word-to_word : (x : ℤ) → (FitsWord (2 ^ 16) x → of_word (2 ^ 16) (to_word (2 ^ 16) x) ≡ x)
unfolding of_word to_word
of_word-to_word (pos n) h = ground arith
of_word-to_word (negsuc n) h = ground arith

pub of_word-to_word_byte : (x : ℤ) → (FitsWord 256 x → of_word 256 (to_word 256 x) ≡ x)
unfolding of_word to_word
of_word-to_word_byte (pos n) h = ground arith
of_word-to_word_byte (negsuc n) h = ground arith
