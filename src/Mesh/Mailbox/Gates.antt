-- ===== src/Mesh/Mailbox/Gates.antt =====
-- src/mesh.c: the rate limit of mailbox replies.
use meshcore_repeater.Common.{
  ℕ, zero, suc, ◌+◌, ◌<◌, ◌≡◌, inl, inr, ap, ◌∙◌, Bool, true, false, not, ◌&&◌, List, [], ◌∷◌,
  Option, none, some, ltb, if◌then◌else◌, get_or, set, length, arith, Bool-cases,
}
use meshcore_repeater.Common.Text.{is_empty, strcasecmp_eq}
use meshcore_repeater.Mesh.State.{Gate, free_gate}
use meshcore_repeater.Mesh.Mailbox.{GateFound, own, take_slot, scan_gates}

-- The gate belongs to the caller.
abbrev pub serves : List ℕ → Gate → Bool
serves base g = not (is_empty g.call) && strcasecmp_eq g.call base

abbrev pub NoneServes : List ℕ → List Gate → Type 0
NoneServes base [] = Unit {0}
NoneServes base (g ∷ gs) = (serves base g ≡ false) × NoneServes base gs

-- The first gate of the caller stands at index `i`.
abbrev pub FirstAt : List ℕ → List Gate → ℕ → Type 0
FirstAt base [] i = ⊥
FirstAt base (g ∷ gs) zero = serves base g ≡ true
FirstAt base (g ∷ gs) (suc i) = (serves base g ≡ false) × FirstAt base gs i

-- What the scan answers.
abbrev pub Scanned : List ℕ → List Gate → ℕ → GateFound → Type 0
Scanned base gs k (own j) = (i : ℕ) × (j ≡ k + i) × FirstAt base gs i
Scanned base gs k (take_slot j) = NoneServes base gs

Scanned-later :
    (base : List ℕ) (g : Gate) (gs : List Gate) (k : ℕ) (r : GateFound)
    → serves base g ≡ false
    → Scanned base gs (k + 1) r
    → Scanned base (g ∷ gs) k r
Scanned-later base g gs k (own j) n (i, e, f) = (suc i, omega arith, (n, f))
Scanned-later base g gs k (take_slot j) n h = (n, h)

pub scan_gates-Scanned :
    (all gs : List Gate) (base : List ℕ) (k : ℕ) (free : Option ℕ) (oldest : ℕ)
    → Scanned base gs k (scan_gates all gs base k free oldest)
unfolding scan_gates
scan_gates-Scanned all [] base k free oldest = tt
scan_gates-Scanned all (g ∷ gs) base k free oldest = elim (Bool-cases (is_empty g.call)) [
  | inl vacant ↦ rw vacant (
      Scanned-later base g gs k _ (ground arith) (
        scan_gates-Scanned all gs base (k + 1) (elim free [ none ↦ some k | some j ↦ some j ])
          oldest))
  | inr taken ↦ elim (Bool-cases (strcasecmp_eq g.call base)) [
    | inl mine ↦ rw (taken, mine) (0, omega arith, ground arith)
    | inr theirs ↦
        rw (taken, theirs)
          (Scanned-later base g gs k _ (ground arith) (
            scan_gates-Scanned all gs base (k + 1) free
              (if ltb g.next_ms (get_or all oldest free_gate).next_ms then k else oldest)))
  ]
]

-- The scan finds the caller's first gate.
pub scan_gates_first :
    (all gs : List Gate) (base : List ℕ) (k : ℕ) (free : Option ℕ) (oldest i : ℕ)
    → FirstAt base gs i
    → scan_gates all gs base k free oldest ≡ own (k + i)
unfolding scan_gates
scan_gates_first all [] base k free oldest i f = absurd f
scan_gates_first all (g ∷ gs) base k free oldest zero f =
    let taken : is_empty g.call ≡ false = ground arith in
    let mine : strcasecmp_eq g.call base ≡ true = ground arith in
    rw (taken, mine) (ap own (omega arith))
scan_gates_first all (g ∷ gs) base k free oldest (suc i) (n, f) =
    elim (Bool-cases (is_empty g.call)) [
      | inl vacant ↦ rw vacant (
          scan_gates_first all gs base (k + 1) (elim free [ none ↦ some k | some j ↦ some j ])
            oldest i f
          ∙ ap own (omega arith))
      | inr taken ↦
          let theirs : strcasecmp_eq g.call base ≡ false = ground arith in
          rw (taken, theirs)
            (scan_gates_first all gs base (k + 1) free
                (if ltb g.next_ms (get_or all oldest free_gate).next_ms then k else oldest) i f
              ∙ ap own (omega arith))
    ]

pub FirstAt-set :
    (base : List ℕ) (gs : List Gate) (i : ℕ) (g : Gate)
    → serves base g ≡ true
    → FirstAt base gs i
    → FirstAt base (set gs i g) i
FirstAt-set base [] i g s f = absurd f
FirstAt-set base (x ∷ gs) zero g s f = s
FirstAt-set base (x ∷ gs) (suc i) g s (n, f) = (n, FirstAt-set base gs i g s f)

pub NoneServes-set :
    (base : List ℕ) (gs : List Gate) (i : ℕ) (g : Gate)
    → serves base g ≡ true
    → i < length gs
    → NoneServes base gs
    → FirstAt base (set gs i g) i
NoneServes-set base [] i g s h n = absurd (omega arith)
NoneServes-set base (x ∷ gs) zero g s h n = s
NoneServes-set base (x ∷ gs) (suc i) g s h n = (n.0, NoneServes-set base gs i g s (omega arith) n.1)

abbrev pub FreeIn : ℕ → Option ℕ → Type 0
FreeIn n none = Unit {0}
FreeIn n (some j) = j < n

-- The slot to take lies in the table.
abbrev pub SlotIn : ℕ → GateFound → Type 0
SlotIn n (own j) = Unit {0}
SlotIn n (take_slot j) = j < n

pub scan_gates-SlotIn :
    (all gs : List Gate) (base : List ℕ) (k : ℕ) (free : Option ℕ) (oldest : ℕ)
    → FreeIn (length all) free
    → oldest < length all
    → k + length gs < length all + 1
    → SlotIn (length all) (scan_gates all gs base k free oldest)
unfolding scan_gates
scan_gates-SlotIn all [] base k none oldest f o h = o
scan_gates-SlotIn all [] base k (some j) oldest f o h = f
scan_gates-SlotIn all (g ∷ gs) base k free oldest f o h = elim (Bool-cases (is_empty g.call)) [
  | inl vacant ↦ rw vacant (
      scan_gates-SlotIn all gs base (k + 1) (elim free [ none ↦ some k | some j ↦ some j ]) oldest
        (first_free free f (omega arith)) o (omega arith))
  | inr taken ↦ elim (Bool-cases (strcasecmp_eq g.call base)) [
    | inl mine ↦ rw (taken, mine) tt
    | inr theirs ↦
        rw (taken, theirs)
          (scan_gates-SlotIn all gs base (k + 1) free
            (if ltb g.next_ms (get_or all oldest free_gate).next_ms then k else oldest) f
            (stalest (ltb g.next_ms (get_or all oldest free_gate).next_ms) (omega arith) o)
            (omega arith))
  ]
]
  where
    first_free :
        (free : Option ℕ)
        → FreeIn (length all) free
        → k < length all
        → FreeIn (length all) (elim free [ none ↦ some k | some j ↦ some j ])
    first_free none f h = h
    first_free (some j) f h = f

    stalest :
        (b : Bool) → k < length all → oldest < length all → (if b then k else oldest) < length all
    stalest true h o = h
    stalest false h o = o
