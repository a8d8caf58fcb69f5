-- ===== src/Util/Endian.antt =====
-- src/util.h: the little-endian readers and writers. A writer returns the bytes that it stores.
use meshcore_repeater.Common.{
  ℕ, ◌≤◌, refl, ap, ◌++◌, length, drop, All, ◌+◌, ◌*◌, ◌/◌, ◌%◌, ◌^◌, ◌<◌, ◌≡◌, List, [], ◌∷◌,
  arith, get_or, Bool, true, ◌&&◌, ltb,
}

abbrev pub IsByte : ℕ → Type 0
IsByte b = b < 256

-- `p` is the buffer from the byte that is read first.
unfoldable pub rd_u16le : List ℕ → ℕ
rd_u16le p = get_or p 0 0 + get_or p 1 0 * 256

unfoldable pub rd_u32le : List ℕ → ℕ
rd_u32le p = get_or p 0 0 + get_or p 1 0 * 2 ^ 8 + get_or p 2 0 * 2 ^ 16 + get_or p 3 0 * 2 ^ 24

unfoldable pub wr_u16le : ℕ → List ℕ
wr_u16le v = (v % 256) ∷ (v / 2 ^ 8 % 256) ∷ []

unfoldable pub wr_u32le : ℕ → List ℕ
wr_u32le v = (v % 256) ∷ (v / 2 ^ 8 % 256) ∷ (v / 2 ^ 16 % 256) ∷ (v / 2 ^ 24 % 256) ∷ []

pub rd_u16le-wr_u16le : (v : ℕ) → v < 2 ^ 16 → rd_u16le (wr_u16le v) ≡ v
unfolding rd_u16le wr_u16le
rd_u16le-wr_u16le v h = omega arith

pub rd_u32le-wr_u32le : (v : ℕ) → v < 2 ^ 32 → rd_u32le (wr_u32le v) ≡ v
unfolding rd_u32le wr_u32le
rd_u32le-wr_u32le v h = omega arith

pub wr_u16le-rd_u16le :
    (a b : ℕ) (rest : List ℕ)
    → IsByte a
    → IsByte b
    → wr_u16le (rd_u16le (a ∷ b ∷ rest)) ≡ a ∷ b ∷ []
unfolding rd_u16le wr_u16le
wr_u16le-rd_u16le a b rest ha hb = ground arith

pub wr_u32le-rd_u32le :
    (a b c d : ℕ) (rest : List ℕ)
    → IsByte a
    → IsByte b
    → IsByte c
    → IsByte d
    → wr_u32le (rd_u32le (a ∷ b ∷ c ∷ d ∷ rest)) ≡ a ∷ b ∷ c ∷ d ∷ []
unfolding rd_u32le wr_u32le
wr_u32le-rd_u32le a b c d rest ha hb hc hd = ground arith

-- The first four bytes of a buffer, read and written back, and what a reader sees behind a writer.
pub wr-rd_u32le_front :
    (xs : List ℕ) → 4 ≤ length xs → All IsByte xs → wr_u32le (rd_u32le xs) ++ drop 4 xs ≡ xs
wr-rd_u32le_front [] h b = absurd (omega arith)
wr-rd_u32le_front (x ∷ []) h b = absurd (omega arith)
wr-rd_u32le_front (x ∷ y ∷ []) h b = absurd (omega arith)
wr-rd_u32le_front (x ∷ y ∷ z ∷ []) h b = absurd (omega arith)
wr-rd_u32le_front (x ∷ y ∷ z ∷ w ∷ xs) h b =
    ap (λ bs. bs ++ xs) (wr_u32le-rd_u32le x y z w xs b.0 b.1.0 b.1.1.0 b.1.1.1.0)

pub rd_u32le_append : (xs ys : List ℕ) → 4 ≤ length xs → rd_u32le (xs ++ ys) ≡ rd_u32le xs
unfolding rd_u32le
rd_u32le_append [] ys h = absurd (omega arith)
rd_u32le_append (x ∷ []) ys h = absurd (omega arith)
rd_u32le_append (x ∷ y ∷ []) ys h = absurd (omega arith)
rd_u32le_append (x ∷ y ∷ z ∷ []) ys h = absurd (omega arith)
rd_u32le_append (x ∷ y ∷ z ∷ w ∷ xs) ys h = refl

pub rd_u32le-wr_append : (v : ℕ) (xs : List ℕ) → v < 2 ^ 32 → rd_u32le (wr_u32le v ++ xs) ≡ v
unfolding rd_u32le wr_u32le
rd_u32le-wr_append v xs h = omega arith

pub rd_u16le-wr_append : (v : ℕ) (xs : List ℕ) → v < 2 ^ 16 → rd_u16le (wr_u16le v ++ xs) ≡ v
unfolding rd_u16le wr_u16le
rd_u16le-wr_append v xs h = omega arith

-- To compute that bytes are bytes.
abbrev pub below : List ℕ → Bool
below [] = true
below (x ∷ xs) = ltb x 256 && below xs

pub below-IsByte : (xs : List ℕ) → below xs ≡ true → All IsByte xs
below-IsByte [] h = tt
below-IsByte (x ∷ xs) h = (ground (arith, h), below-IsByte xs (ground (arith, h)))
