-- ===== src/Common/Bits.antt =====
-- The bits of a machine word: `w & (1ull << k)`, `w | (1ull << k)` and `w << n` on a uint64_t.
use Prim.Native.Nat.{ℕ, zero, suc, ◌+◌, ◌*◌, ◌/◌, ◌%◌, ◌^◌, ◌<◌}
use mathlib.Core.Path.{◌≡◌, refl, ap, ◌∙◌}
use mathlib.Core.Logic.{◌≢◌, inl, inr}
use native.Mathlib.Omega.{arith, pow_step}
use native.Mathlib.Nat.{
  div-add-mod, mod-lt, mod-eq_of_lt, mod-mod_of_dvd, dvd-mul_right, add-mul-mod_self_left,
}
use meshcore_repeater.Common.Tests.{◌==◌, Bool-cases}

-- `(w >> k) & 1`.
unfoldable pub bit_at : ℕ → ℕ → ℕ
bit_at w zero = w % 2
bit_at w (suc k) = bit_at (w / 2) k

-- `w | (1ull << k)`.
unfoldable pub set_bit : ℕ → ℕ → ℕ
set_bit w zero = w / 2 * 2 + 1
set_bit w (suc k) = w % 2 + 2 * set_bit (w / 2) k

-- `w << n` on 64 bits.
unfoldable pub shift_left : ℕ → ℕ → ℕ
shift_left w zero = w
shift_left w (suc n) = shift_left (w * 2 % 2 ^ 64) n

pub bit_at-set_self : (w k : ℕ) → bit_at (set_bit w k) k ≡ 1
unfolding bit_at set_bit
bit_at-set_self w zero = omega arith
bit_at-set_self w (suc k) =
    let half : (w % 2 + 2 * set_bit (w / 2) k) / 2 ≡ set_bit (w / 2) k = omega arith in
    rw half (bit_at-set_self (w / 2) k)

pub bit_at-set_ne : (w k j : ℕ) → k ≢ j → bit_at (set_bit w k) j ≡ bit_at w j
unfolding bit_at set_bit
bit_at-set_ne w zero zero ne = absurd (ne refl)
bit_at-set_ne w zero (suc j) ne =
    let half : (w / 2 * 2 + 1) / 2 ≡ w / 2 = omega arith in rw half refl
bit_at-set_ne w (suc k) zero ne = omega arith
bit_at-set_ne w (suc k) (suc j) ne =
    let half : (w % 2 + 2 * set_bit (w / 2) k) / 2 ≡ set_bit (w / 2) k = omega arith in
    rw half (bit_at-set_ne (w / 2) k j (λ e. ne (ap suc e)))

half_mod : (x m : ℕ) → 0 < m → x % (2 * m) / 2 ≡ x / 2 % m
half_mod x m h =
    let s : ℕ = x / 2 % m in
    let low : s < m = mod-lt (x / 2) h in
    let split : x ≡ 2 * s + x % 2 + 2 * m * (x / 2 / m) = grind (arith, div-add-mod (x / 2) m) in
    let rest : x % (2 * m) ≡ 2 * s + x % 2 =
      ap (λ y. y % (2 * m)) split
      ∙ add-mul-mod_self_left (2 * s + x % 2) (2 * m) (x / 2 / m)
      ∙ mod-eq_of_lt (omega (arith, low)) in
    omega (arith, rest)

even_mod : (x m : ℕ) → x % (2 * m) % 2 ≡ x % 2
even_mod x m = mod-mod_of_dvd 2 x (dvd-mul_right 2 m)

pow_pos : (n : ℕ) → 0 < 2 ^ n
pow_pos zero = omega arith
pow_pos (suc n) = rw (pow_step 2 n) (omega (arith, pow_pos n))

-- The bits below the width survive the truncation.
bit_at-mod : (w n k : ℕ) → k < n → bit_at (w % 2 ^ n) k ≡ bit_at w k
unfolding bit_at
bit_at-mod w zero k h = absurd (omega arith)
bit_at-mod w (suc n) zero h = rw (pow_step 2 n) (even_mod w (2 ^ n))
bit_at-mod w (suc n) (suc k) h =
    rw (pow_step 2 n, half_mod w (2 ^ n) (pow_pos n)) (bit_at-mod (w / 2) n k (omega arith))

shifted_once : (w k : ℕ) → k < 63 → bit_at (w * 2 % 2 ^ 64) (suc k) ≡ bit_at w k
unfolding bit_at
shifted_once w k h =
    let half : w * 2 % 2 ^ 64 / 2 ≡ w % 2 ^ 63 = omega arith in
    ap (λ v. bit_at v k) half ∙ bit_at-mod w 63 k h

-- Bit `n + k` of the shifted word is bit `k` of the word, below the width.
pub bit_at-shift_left : (n w k : ℕ) → n + k < 64 → bit_at (shift_left w n) (n + k) ≡ bit_at w k
unfolding shift_left
bit_at-shift_left zero w k h = ap (bit_at w) (omega arith)
bit_at-shift_left (suc n) w k h =
    ap (bit_at (shift_left (w * 2 % 2 ^ 64) n)) (omega arith)
    ∙ bit_at-shift_left n (w * 2 % 2 ^ 64) (suc k) (omega arith)
    ∙ shifted_once w k (omega arith)

-- Zeros come in from below.
pub bit_at-shift_left_low : (n w k : ℕ) → k < n → n < 64 → bit_at (shift_left w n) k ≡ 0
unfolding shift_left bit_at
bit_at-shift_left_low zero w k h l = absurd (omega arith)
bit_at-shift_left_low (suc n) w k h l = elim (Bool-cases (k == n)) [
  | inl last ↦
      let at : k ≡ n + 0 = ground arith in
      ap (bit_at (shift_left (w * 2 % 2 ^ 64) n)) at
      ∙ bit_at-shift_left n (w * 2 % 2 ^ 64) 0 (omega arith)
      ∙ omega arith
  | inr below ↦ bit_at-shift_left_low n (w * 2 % 2 ^ 64) k (ground arith) (omega arith)
]
