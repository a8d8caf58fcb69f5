-- ===== src/Link/Written.antt =====
-- src/link.c: the head of a datagram, read and written back.
use meshcore_repeater.Common.{
  ℕ, zero, suc, ◌+◌, ◌-◌, ◌^◌, ◌≤◌, ◌<◌, ◌≡◌, refl, sym, ap, ◌∙◌, List, [], ◌∷◌, ◌++◌, ltb, length,
  take, drop, get_or, arith, All, Bool-cases, inl, inr,
}
use meshcore_repeater.Common.Int.{to_word, of_word}
use meshcore_repeater.Util.Endian.{
  IsByte, rd_u16le, rd_u32le, wr_u16le, wr_u32le-rd_u32le, wr_u16le-rd_u16le,
}
use meshcore_repeater.Link.{link_hdr, link_message}

take_eq : (m n : ℕ) (xs : List ℕ) → m ≡ n → take m xs ≡ take n xs
take_eq m n xs e = rw e

pub take_add : (m n : ℕ) (xs : List ℕ) → take (m + n) xs ≡ take m xs ++ take n (drop m xs)
take_add zero n xs = take_eq (zero + n) n xs (omega arith)
take_add (suc m) n [] = cut (suc m + n) ∙ sym (cut n)
  where
    cut : (k : ℕ) → take {A = ℕ} k [] ≡ []
    cut zero = refl
    cut (suc k) = refl
take_add (suc m) n (x ∷ xs) =
    take_eq (suc m + n) (suc (m + n)) (x ∷ xs) (omega arith) ∙ ap (λ ys. x ∷ ys) (take_add m n xs)

to_word-of_word : (w : ℕ) → w < 2 ^ 16 → to_word (2 ^ 16) (of_word (2 ^ 16) w) ≡ w
unfolding to_word of_word
to_word-of_word w h = elim (Bool-cases (ltb w (2 ^ 16 - w))) [
  | inl low ↦ rw low (omega arith)
  | inr high ↦ rw high (ground arith)
]

to_word-of_word_byte : (w : ℕ) → w < 256 → to_word 256 (of_word 256 w) ≡ w
unfolding to_word of_word
to_word-of_word_byte w h = elim (Bool-cases (ltb w (256 - w))) [
  | inl low ↦ rw low (omega arith)
  | inr high ↦ rw high (ground arith)
]

rd_u16le_bound : (a b : ℕ) (rest : List ℕ) → IsByte a → IsByte b → rd_u16le (a ∷ b ∷ rest) < 2 ^ 16
unfolding rd_u16le
rd_u16le_bound a b rest h k = omega arith

-- The head of a datagram, read and written back.
pub head-written :
    (d frame : List ℕ)
    → All IsByte d
    → link_hdr ≤ length d
    → get_or d 0 0 ≡ 1
    → length frame ≡ rd_u16le (drop 8 d)
    → link_message
        (rd_u32le (drop 1 d))
        (of_word (2 ^ 16) (rd_u16le (drop 5 d)))
        (of_word 256 (get_or d 7 0))
        frame
      ≡ take link_hdr d ++ frame
head-written [] frame b n v l = absurd (omega arith)
head-written (b0 ∷ []) frame b n v l = absurd (omega arith)
head-written (b0 ∷ b1 ∷ []) frame b n v l = absurd (omega arith)
head-written (b0 ∷ b1 ∷ b2 ∷ []) frame b n v l = absurd (omega arith)
head-written (b0 ∷ b1 ∷ b2 ∷ b3 ∷ []) frame b n v l = absurd (omega arith)
head-written (b0 ∷ b1 ∷ b2 ∷ b3 ∷ b4 ∷ []) frame b n v l = absurd (omega arith)
head-written (b0 ∷ b1 ∷ b2 ∷ b3 ∷ b4 ∷ b5 ∷ []) frame b n v l = absurd (omega arith)
head-written (b0 ∷ b1 ∷ b2 ∷ b3 ∷ b4 ∷ b5 ∷ b6 ∷ []) frame b n v l = absurd (omega arith)
head-written (b0 ∷ b1 ∷ b2 ∷ b3 ∷ b4 ∷ b5 ∷ b6 ∷ b7 ∷ []) frame b n v l = absurd (omega arith)
head-written (b0 ∷ b1 ∷ b2 ∷ b3 ∷ b4 ∷ b5 ∷ b6 ∷ b7 ∷ b8 ∷ []) frame b n v l = absurd (omega arith)
head-written (b0 ∷ b1 ∷ b2 ∷ b3 ∷ b4 ∷ b5 ∷ b6 ∷ b7 ∷ b8 ∷ b9 ∷ rest) frame b n v l =
    let time =
      wr_u32le-rd_u32le b1 b2 b3 b4 (b5 ∷ b6 ∷ b7 ∷ b8 ∷ b9 ∷ rest) (b.1.0) (b.1.1.0) (b.1.1.1.0)
        (b.1.1.1.1.0) in
    let level =
      ap wr_u16le (
        to_word-of_word (rd_u16le (b5 ∷ b6 ∷ b7 ∷ b8 ∷ b9 ∷ rest))
          (rd_u16le_bound b5 b6 (b7 ∷ b8 ∷ b9 ∷ rest) (b.1.1.1.1.1.0) (b.1.1.1.1.1.1.0)))
      ∙ wr_u16le-rd_u16le b5 b6 (b7 ∷ b8 ∷ b9 ∷ rest) (b.1.1.1.1.1.0) (b.1.1.1.1.1.1.0) in
    let quality = to_word-of_word_byte b7 (b.1.1.1.1.1.1.1.0) in
    let size =
      ap wr_u16le l ∙ wr_u16le-rd_u16le b8 b9 rest (b.1.1.1.1.1.1.1.1.0) (b.1.1.1.1.1.1.1.1.1.0) in
    λ i. sym v i ∷ (time i ++ (level i ++ (quality i ∷ (size i ++ frame))))

get_or-IsByte : (xs : List ℕ) (i : ℕ) → All IsByte xs → IsByte (get_or xs i 0)
get_or-IsByte [] i b = omega arith
get_or-IsByte (x ∷ xs) zero b = b.0
get_or-IsByte (x ∷ xs) (suc i) b = get_or-IsByte xs i b.1

pub rd_u32le_bound : (xs : List ℕ) → All IsByte xs → rd_u32le xs < 2 ^ 32
unfolding rd_u32le
rd_u32le_bound xs b =
    omega (
      arith,
      get_or-IsByte xs 0 b,
      get_or-IsByte xs 1 b,
      get_or-IsByte xs 2 b,
      get_or-IsByte xs 3 b,
    )
