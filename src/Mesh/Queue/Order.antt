-- ===== src/Mesh/Queue/Order.antt =====
-- src/mesh.c: pick_due takes the most urgent due entry.
use meshcore_repeater.Common.{
  ℕ, suc, ◌+◌, ◌≤◌, ◌<◌, ◌≡◌, ◌⊎◌, inl, inr, refl, true, not, ◌||◌, List, [], ◌∷◌, Option, none,
  some, ltb, get_elem?, arith, Bool-cases,
}
use meshcore_repeater.Mesh.State.{Mesh, TxEntry}
use meshcore_repeater.Mesh.Queue.{more_urgent, pick_from, pick_due}

abbrev pub IsDue : ℕ → TxEntry → Type 0
IsDue now e = (e.used ≡ true) × (e.due_ms ≤ now)

-- Not later in the order of priority, then due time.
abbrev pub NotAfter : TxEntry → TxEntry → Type 0
NotAfter e b = (e.priority < b.priority) ⊎ ((e.priority ≡ b.priority) × (e.due_ms ≤ b.due_ms))

-- Every due entry of a list comes no earlier than `b`.
abbrev pub BestOf : ℕ → List TxEntry → TxEntry → Type 0
BestOf now [] b = Unit {0}
BestOf now (e ∷ es) b = (IsDue now e → NotAfter b e) × BestOf now es b

abbrev pub NoneDue : ℕ → List TxEntry → Type 0
NoneDue now [] = Unit {0}
NoneDue now (e ∷ es) = (¬ IsDue now e) × NoneDue now es

NotAfter-trans : (a b c : TxEntry) → NotAfter a b → NotAfter b c → NotAfter a c
NotAfter-trans a b c h k = ground arith

BestOf-mono :
    (now : ℕ) (es : List TxEntry) (a b : TxEntry) → NotAfter a b → BestOf now es b → BestOf now es a
BestOf-mono now [] a b h k = tt
BestOf-mono now (e ∷ es) a b h k =
    (λ d. NotAfter-trans a b e h (k.0 d), BestOf-mono now es a b h k.1)

-- Where the entry that the loop ends with stands.
abbrev Origin : ℕ → List TxEntry → ℕ → ℕ × TxEntry → ℕ × TxEntry → Type 0
Origin now es i b r =
    (r ≡ b) ⊎ (IsDue now r.1 × ((k : ℕ) × (r.0 ≡ i + k) × (get_elem? es k ≡ some r.1)))

Origin-later :
    (now : ℕ) (e : TxEntry) (es : List TxEntry) (i : ℕ) (b r : ℕ × TxEntry)
    → Origin now es (i + 1) b r
    → Origin now (e ∷ es) i b r
Origin-later now e es i b r (inl h) = inl h
Origin-later now e es i b r (inr (d, (k, h, g))) = inr (d, (suc k, omega arith, g))

Origin-here :
    (now : ℕ) (e : TxEntry) (es : List TxEntry) (i : ℕ) (b r : ℕ × TxEntry)
    → IsDue now e
    → Origin now es (i + 1) (i, e) r
    → Origin now (e ∷ es) i b r
Origin-here now e es i b r d (inl h) = inr (ground arith, (0, ground arith, ground arith))
Origin-here now e es i b r d (inr (d', (k, h, g))) = inr (d', (suc k, omega arith, g))

-- What the loop ends with, from a best entry so far.
abbrev Picked : ℕ → List TxEntry → ℕ → ℕ × TxEntry → Type 0
Picked now es i b =
    (r : ℕ × TxEntry) × (pick_from now es i (some b) ≡ some r)
    × NotAfter r.1 b.1
    × BestOf now es r.1
    × Origin now es i b r

pick_from-Picked : (now : ℕ) (es : List TxEntry) (i : ℕ) (b : ℕ × TxEntry) → Picked now es i b
unfolding pick_from
pick_from-Picked now [] i b = (b, refl, ground arith, tt, inl refl)
pick_from-Picked now (e ∷ es) i (j, b) = elim (Bool-cases (not e.used || ltb now e.due_ms)) [
  | inl skip ↦
      let (r, h, n, best, o) = pick_from-Picked now es (i + 1) (j, b) in
      (r, rw skip h, n, (λ d. absurd (ground arith), best), Origin-later now e es i (j, b) r o)
  | inr due ↦ elim (Bool-cases (more_urgent e b)) [
    | inl first ↦
        let (r, h, n, best, o) = pick_from-Picked now es (i + 1) (i, e) in
        (
          r,
          rw (due, first) h,
          NotAfter-trans r.1 e b n (ground arith),
          (λ d. n, best),
          Origin-here now e es i (j, b) r (ground arith) o,
        )
    | inr second ↦
        let (r, h, n, best, o) = pick_from-Picked now es (i + 1) (j, b) in
        (
          r,
          rw (due, second) h,
          n,
          (λ d. NotAfter-trans r.1 b e n (ground arith), best),
          Origin-later now e es i (j, b) r o,
        )
  ]
]

-- The loop from nothing: no entry is due, or the best of the due ones is found.
abbrev pub Chosen : ℕ → List TxEntry → ℕ → Option (ℕ × TxEntry) → Type 0
Chosen now es i none = NoneDue now es
Chosen now es i (some (j, e)) =
    IsDue now e × BestOf now es e × ((k : ℕ) × (j ≡ i + k) × (get_elem? es k ≡ some e))

Chosen-later :
    (now : ℕ) (e : TxEntry) (es : List TxEntry) (i : ℕ) (r : Option (ℕ × TxEntry))
    → ¬ IsDue now e
    → Chosen now es (i + 1) r
    → Chosen now (e ∷ es) i r
Chosen-later now e es i none d c = (d, c)
Chosen-later now e es i (some (j, b)) d (due, best, (k, h, g)) =
    (due, (λ x. absurd (d x), best), (suc k, omega arith, g))

Chosen-first :
    (now : ℕ) (e : TxEntry) (es : List TxEntry) (i : ℕ) (r : ℕ × TxEntry)
    → IsDue now e
    → NotAfter r.1 e
    → BestOf now es r.1
    → Origin now es (i + 1) (i, e) r
    → Chosen now (e ∷ es) i (some r)
Chosen-first now e es i (j, b) d n best (inl h) =
    (ground arith, (λ x. n, best), (0, ground arith, ground arith))
Chosen-first now e es i (j, b) d n best (inr (d', (k, h, g))) =
    (d', (λ x. n, best), (suc k, omega arith, g))

pick_from-Chosen : (now : ℕ) (es : List TxEntry) (i : ℕ) → Chosen now es i (pick_from now es i none)
unfolding pick_from
pick_from-Chosen now [] i = tt
pick_from-Chosen now (e ∷ es) i = elim (Bool-cases (not e.used || ltb now e.due_ms)) [
  | inl skip ↦ rw skip (
      Chosen-later now e es i (pick_from now es (i + 1) none) (λ d. absurd (ground arith))
        (pick_from-Chosen now es (i + 1)))
  | inr due ↦
      let (r, h, n, best, o) = pick_from-Picked now es (i + 1) (i, e) in
      rw (due, h) (Chosen-first now e es i r (ground arith) n best o)
]

-- pick_due returns nothing exactly when no entry is due; otherwise a due entry of the queue, with
-- its index, that no due entry precedes in priority or, at equal priority, in due time.
pub pick_due-Chosen : (m : Mesh) (now : ℕ) → Chosen now m.txq 0 (pick_due m now)
unfolding pick_due
pick_due-Chosen m now = pick_from-Chosen now m.txq 0
