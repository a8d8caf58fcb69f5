-- ===== src/Backbone/Replay/Once.antt =====
-- src/backbone.c: the replay window accepts what a set of all accepted numbers would.
use meshcore_repeater.Common.{
  ℕ, zero, suc, ◌+◌, ◌-◌, ◌≤◌, ◌<◌, ◌≡◌, ◌≢◌, refl, sym, ap, ◌∙◌, subst, Bool, true, false, not,
  ◌&&◌, ◌||◌, if◌then◌else◌, ltb, leb, ◌==◌, List, [], ◌∷◌, arith, Bool-cases, inl, inr,
}
use meshcore_repeater.Common.Bits.{
  bit_at, set_bit, shift_left, bit_at-set_self, bit_at-set_ne, bit_at-shift_left,
  bit_at-shift_left_low,
}
use meshcore_repeater.Backbone.Replay.{Window, fresh_window, bb_replay_check}

abbrev pub member : ℕ → List ℕ → Bool
member s [] = false
member s (x ∷ xs) = x == s || member s xs

-- The largest number accepted so far, 0 if none.
abbrev pub highest : List ℕ → ℕ
highest [] = 0
highest (x ∷ xs) = if ltb (highest xs) x then x else highest xs

-- What a receiver that remembers every accepted number would answer: positive, and above all of them,
-- or within 64 of the highest and not among them.
abbrev pub accepts : List ℕ → ℕ → Bool
accepts acc seq =
    ltb 0 seq && (ltb (highest acc) seq || (ltb (highest acc - seq) 64 && not (member seq acc)))

-- The window stands for the set of the accepted numbers.
pub record Tracks (w : Window) (acc : List ℕ) : Type 0 where
  pub top_is : w.top ≡ highest acc
  pub bits_are :
      (s : ℕ)
      → s ≤ w.top
      → w.top - s < 64
      → bit_at w.bits (w.top - s) ≡ (if member s acc then 1 else 0)

member-highest : (acc : List ℕ) (s : ℕ) → highest acc < s → member s acc ≡ false
member-highest [] s h = refl
member-highest (x ∷ acc) s h = ground (arith, member-highest acc s)

abbrev pub remember : List ℕ → ℕ → List ℕ
remember acc seq = if accepts acc seq then seq ∷ acc else acc

zero_bits : (k : ℕ) → bit_at 0 k ≡ 0
unfolding bit_at
zero_bits zero = refl
zero_bits (suc k) = zero_bits k

highest-newer : (acc : List ℕ) (seq : ℕ) → highest acc < seq → highest (seq ∷ acc) ≡ seq
highest-newer acc seq h = ground arith

highest-older : (acc : List ℕ) (seq : ℕ) → seq ≤ highest acc → highest (seq ∷ acc) ≡ highest acc
highest-older acc seq h = ground arith

member-other : (acc : List ℕ) (seq s : ℕ) → seq ≢ s → member s (seq ∷ acc) ≡ member s acc
member-other acc seq s ne = ground arith

-- The bits of the old window after it moved up by `shift`.
abbrev moved : Window → ℕ → ℕ
moved w shift = if leb 64 shift then 0 else shift_left w.bits shift

moved-bits :
    (w : Window) (acc : List ℕ) (seq s : ℕ)
    → Tracks w acc
    → w.top < seq
    → s < seq
    → seq - s < 64
    → bit_at (moved w (seq - w.top)) (seq - s) ≡ (if member s acc then 1 else 0)
moved-bits w acc seq s t h l d = elim (Bool-cases (ltb w.top s)) [
  | inl above ↦
      let fresh : member s acc ≡ false = member-highest acc s (ground (arith, t.top_is)) in
      elim (Bool-cases (leb 64 (seq - w.top))) [
        | inl far ↦ rw (far, fresh) (zero_bits (seq - s))
        | inr near ↦
            rw (near, fresh)
              (bit_at-shift_left_low (seq - w.top) w.bits (seq - s) (ground arith) (ground arith))
      ]
  | inr below ↦
      let near : leb 64 (seq - w.top) ≡ false = ground arith in
      let place : seq - s ≡ seq - w.top + (w.top - s) = ground arith in
      rw near (
        ap (bit_at (shift_left w.bits (seq - w.top))) place
        ∙ bit_at-shift_left (seq - w.top) w.bits (w.top - s) (ground arith)
        ∙ t.bits_are s (ground arith) (ground arith))
]

newer-Tracks :
    (w : Window) (acc : List ℕ) (seq : ℕ)
    → Tracks w acc
    → w.top < seq
    → Tracks (record { top = seq; bits = set_bit (moved w (seq - w.top)) 0 }) (seq ∷ acc)
newer-Tracks w acc seq t h = record {
  top_is = sym (highest-newer acc seq (omega (arith, t.top_is)));
  bits_are = λ s below d. elim (Bool-cases (seq == s)) [
    | inl same ↦
        let zero_back : seq - s ≡ 0 = ground arith in
        rw (zero_back, same) (bit_at-set_self (moved w (seq - w.top)) 0)
    | inr other ↦ rw (member-other acc seq s (ground arith)) (
        bit_at-set_ne (moved w (seq - w.top)) 0 (seq - s) (ground arith)
        ∙ moved-bits w acc seq s t h (ground arith) d)
  ];
}

older-Tracks :
    (w : Window) (acc : List ℕ) (seq : ℕ)
    → Tracks w acc
    → seq ≤ w.top
    → Tracks (record w { bits = set_bit w.bits (w.top - seq) }) (seq ∷ acc)
older-Tracks w acc seq t h = record {
  top_is = t.top_is ∙ sym (highest-older acc seq (omega (arith, t.top_is)));
  bits_are = λ s below d. elim (Bool-cases (seq == s)) [
    | inl same ↦
        let place : w.top - s ≡ w.top - seq = ground arith in
        rw (place, same) (bit_at-set_self w.bits (w.top - seq))
    | inr other ↦
        rw (member-other acc seq s (ground arith))
          (bit_at-set_ne w.bits (w.top - seq) (w.top - s) (ground arith) ∙ t.bits_are s below d)
  ];
}

-- One call answers as the set does, and the window goes on standing for the set.
bb_replay_check-Tracks :
    (w : Window) (acc : List ℕ) (seq : ℕ)
    → Tracks w acc
    → ((bb_replay_check w seq).1 ≡ accepts acc seq)
      × Tracks (bb_replay_check w seq).0 (remember acc seq)
unfolding bb_replay_check
bb_replay_check-Tracks w acc seq t = elim (Bool-cases (seq == 0)) [
  | inl zero_seq ↦
      let a : accepts acc seq ≡ false = ground arith in rw (bb_replay_check, zero_seq, a) (refl, t)
  | inr positive ↦ elim (Bool-cases (ltb w.top seq)) [
    | inl newer ↦
        let a : accepts acc seq ≡ true = ground (arith, t.top_is) in
        rw (bb_replay_check, positive, newer, a) (refl, newer-Tracks w acc seq t (ground arith))
    | inr not_newer ↦ elim (Bool-cases (leb 64 (w.top - seq))) [
      | inl stale ↦
          let a : accepts acc seq ≡ false = ground (arith, t.top_is) in
          rw (bb_replay_check, positive, not_newer, stale, a) (refl, t)
      | inr recent ↦
          let bit = t.bits_are seq (ground arith) (ground arith) in
          elim (Bool-cases (member seq acc)) [
            | inl seen ↦
                let a : accepts acc seq ≡ false = ground (arith, t.top_is) in
                let b : (bit_at w.bits (w.top - seq) == 1) ≡ true = ground (arith, bit) in
                rw (bb_replay_check, positive, not_newer, recent, b, a) (refl, t)
            | inr new ↦
                let a : accepts acc seq ≡ true = ground (arith, t.top_is) in
                let b : (bit_at w.bits (w.top - seq) == 1) ≡ false = ground (arith, bit) in
                rw (bb_replay_check, positive, not_newer, recent, b, a)
                  (refl, older-Tracks w acc seq t (ground arith))
          ]
    ]
  ]
]

-- The answers to a sequence of numbers, one after another.
abbrev pub answers : Window → List ℕ → List Bool
answers w [] = []
answers w (s ∷ ss) = (bb_replay_check w s).1 ∷ answers (bb_replay_check w s).0 ss

abbrev pub set_answers : List ℕ → List ℕ → List Bool
set_answers acc [] = []
set_answers acc (s ∷ ss) = accepts acc s ∷ set_answers (remember acc s) ss

answers-Tracks : (w : Window) (acc ss : List ℕ) → Tracks w acc → answers w ss ≡ set_answers acc ss
answers-Tracks w acc [] t = refl
answers-Tracks w acc (s ∷ ss) t =
    let (same, t') = bb_replay_check-Tracks w acc s t in
    ap (λ b. b ∷ answers (bb_replay_check w s).0 ss) same
    ∙ ap (λ bs. accepts acc s ∷ bs) (answers-Tracks (bb_replay_check w s).0 (remember acc s) ss t')

fresh-Tracks : Tracks fresh_window []
fresh-Tracks = record { top_is = refl; bits_are = λ s below d. zero_bits (0 - s) }

-- From a fresh window, the window of 64 bits answers every sequence of numbers as a receiver would
-- that remembers all the numbers it accepted: a number is accepted if it is positive and either above
-- all of them, or less than 64 below the highest and not among them.
pub replay_refines : (ss : List ℕ) → answers fresh_window ss ≡ set_answers [] ss
replay_refines ss = answers-Tracks fresh_window [] ss fresh-Tracks

-- The numbers that the answers accept.
abbrev pub accepted : List ℕ → List Bool → List ℕ
accepted [] bs = []
accepted (s ∷ ss) [] = []
accepted (s ∷ ss) (b ∷ bs) = if b then s ∷ accepted ss bs else accepted ss bs

abbrev pub Distinct : List ℕ → Type 0
Distinct [] = Unit {0}
Distinct (x ∷ xs) = (member x xs ≡ false) × Distinct xs

accepts-new : (acc : List ℕ) (s : ℕ) → accepts acc s ≡ true → member s acc ≡ false
accepts-new acc s h = elim (Bool-cases (member s acc)) [
  | inr new ↦ new
  | inl seen ↦ elim (Bool-cases (ltb (highest acc) s)) [
    | inl above ↦ member-highest acc s (ground arith)
    | inr below ↦ ground arith
  ]
]

-- What is in the set is not accepted again.
accepted_not_again :
    (acc ss : List ℕ) (x : ℕ)
    → member x acc ≡ true
    → member x (accepted ss (set_answers acc ss)) ≡ false
accepted_not_again acc [] x h = refl
accepted_not_again acc (s ∷ ss) x h = elim (Bool-cases (accepts acc s)) [
  | inr refused ↦ rw refused (accepted_not_again acc ss x h)
  | inl taken ↦
      let other : (s == x) ≡ false = different s (accepts-new acc s taken) in
      rw (taken, other) (accepted_not_again (s ∷ acc) ss x (ground (arith, h)))
]
  where
    different : (s : ℕ) → member s acc ≡ false → (s == x) ≡ false
    different s new = elim (Bool-cases (s == x)) [
      | inr ne ↦ ne
      | inl e ↦
          let same : s ≡ x = ground arith in
          absurd (ground (arith, h, ap (λ y. member y acc) same, new))
    ]

set_answers-Distinct : (acc ss : List ℕ) → Distinct (accepted ss (set_answers acc ss))
set_answers-Distinct acc [] = tt
set_answers-Distinct acc (s ∷ ss) = elim (Bool-cases (accepts acc s)) [
  | inr refused ↦ rw refused (set_answers-Distinct acc ss)
  | inl taken ↦
      rw taken (accepted_not_again (s ∷ acc) ss s (self s), set_answers-Distinct (s ∷ acc) ss)
]
  where
    self : (s : ℕ) → member s (s ∷ acc) ≡ true
    self s = ground arith

-- No sequence number is accepted twice in a session, whatever order the datagrams come in.
pub replay_at_most_once : (ss : List ℕ) → Distinct (accepted ss (answers fresh_window ss))
replay_at_most_once ss =
    subst (λ bs. Distinct (accepted ss bs)) (sym (replay_refines ss)) (set_answers-Distinct [] ss)
