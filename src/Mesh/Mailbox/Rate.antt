-- ===== src/Mesh/Mailbox/Rate.antt =====
-- src/mesh.c: a mailbox reply is granted once in eight seconds to a callsign.
use meshcore_repeater.Common.{
  ◌⊎◌, ℕ, zero, suc, ◌+◌, ◌<◌, ◌≡◌, inl, inr, refl, sym, ap, ◌∙◌, subst, true, false, not, List, [],
  ◌∷◌, none, ltb, get_or, set, length, arith, Bool-cases,
}
use meshcore_repeater.Common.Text.{is_empty, strcasecmp_eq}
use meshcore_repeater.Mbox.{base_call, mbox_call}
use meshcore_repeater.Mesh.State.{Mesh, Gate, free_gate}
use meshcore_repeater.Mesh.Mailbox.{
  GateFound, own, take_slot, scan_gates, mbox_rate_ok, mbox_reply_cooldown_ms,
}
use meshcore_repeater.Mesh.Mailbox.Gates.{
  serves, FirstAt, NoneServes, Scanned, SlotIn, scan_gates-Scanned, scan_gates_first,
  scan_gates-SlotIn, FirstAt-set, NoneServes-set,
}

strcasecmp_eq_self : (xs : List ℕ) → strcasecmp_eq xs xs ≡ true
unfolding strcasecmp_eq
strcasecmp_eq_self [] = refl
strcasecmp_eq_self (x ∷ xs) = ground (arith, strcasecmp_eq_self xs)

get_or-set_self :
    (gs : List Gate) (i : ℕ) (g d : Gate) → i < length gs → get_or (set gs i g) i d ≡ g
get_or-set_self [] i g d h = absurd (omega arith)
get_or-set_self (x ∷ gs) zero g d h = refl
get_or-set_self (x ∷ gs) (suc i) g d h = get_or-set_self gs i g d (omega arith)

FirstAt-lt : (base : List ℕ) (gs : List Gate) (i : ℕ) → FirstAt base gs i → i < length gs
FirstAt-lt base [] i f = absurd f
FirstAt-lt base (g ∷ gs) zero f = omega arith
FirstAt-lt base (g ∷ gs) (suc i) f = omega (arith, FirstAt-lt base gs i f.1)

FirstAt-serves :
    (base : List ℕ) (gs : List Gate) (i : ℕ)
    → FirstAt base gs i
    → serves base (get_or gs i free_gate) ≡ true
FirstAt-serves base [] i f = absurd f
FirstAt-serves base (g ∷ gs) zero f = f
FirstAt-serves base (g ∷ gs) (suc i) f = FirstAt-serves base gs i f.1

-- The caller's gate is shut until `until`.
abbrev ShutUntil : List ℕ → ℕ → List Gate → Type 0
ShutUntil base until gs = (i : ℕ) × FirstAt base gs i × ((get_or gs i free_gate).next_ms ≡ until)

set-ShutUntil :
    (base : List ℕ) (gs : List Gate) (i : ℕ) (g : Gate)
    → i < length gs
    → FirstAt base (set gs i g) i
    → ShutUntil base g.next_ms (set gs i g)
set-ShutUntil base gs i g l f = (i, f, ap (λ x. x.next_ms) (get_or-set_self gs i g free_gate l))

granted-ShutUntil :
    (m : Mesh) (sender : List ℕ) (now : ℕ)
    → 0 < length m.mbox_gate
    → (mbox_rate_ok m sender now).1 ≡ true
    → (is_empty (base_call sender mbox_call) ≡ false)
      × ShutUntil
          (base_call sender mbox_call)
          (now + mbox_reply_cooldown_ms)
          (mbox_rate_ok m sender now).0.mbox_gate
unfolding mbox_rate_ok
granted-ShutUntil m sender now size h = elim (Bool-cases (is_empty (base_call sender mbox_call))) [
  | inl nobody ↦ absurd (ground arith)
  | inr someone ↦ (
    someone,
    found someone (scan_gates m.mbox_gate m.mbox_gate (base_call sender mbox_call) 0 none 0) refl,
  )
]
  where
    found :
        is_empty (base_call sender mbox_call) ≡ false
        → (r : GateFound)
        → scan_gates m.mbox_gate m.mbox_gate (base_call sender mbox_call) 0 none 0 ≡ r
        → ShutUntil
            (base_call sender mbox_call)
            (now + mbox_reply_cooldown_ms)
            (mbox_rate_ok m sender now).0.mbox_gate
    found someone (own j) e =
        let base : List ℕ = base_call sender mbox_call in
        let gs : List Gate = m.mbox_gate in
        let g : Gate = get_or gs j free_gate in
        let (i, at, first) = subst (Scanned base gs 0) e (scan_gates-Scanned gs gs base 0 none 0) in
        let here : i ≡ j = omega (arith, at) in
        let first' : FirstAt base gs j = subst (FirstAt base gs) here first in
        let g' : Gate = record g { next_ms = now + mbox_reply_cooldown_ms } in
        elim (Bool-cases (ltb now g.next_ms)) [
          | inl early ↦
              let refused : (mbox_rate_ok m sender now).1 ≡ false = rw (someone, e, early) refl in
              absurd (ground (arith, h, refused))
          | inr due ↦
              let after : set gs j g' ≡ (mbox_rate_ok m sender now).0.mbox_gate =
                rw (someone, e, due) refl in
              subst (ShutUntil base (now + mbox_reply_cooldown_ms)) after (
                set-ShutUntil base gs j g' (FirstAt-lt base gs j first')
                  (FirstAt-set base gs j g' (FirstAt-serves base gs j first') first'))
        ]
    found someone (take_slot j) e =
        let base : List ℕ = base_call sender mbox_call in
        let gs : List Gate = m.mbox_gate in
        let none_yet : NoneServes base gs =
          subst (Scanned base gs 0) e (scan_gates-Scanned gs gs base 0 none 0) in
        let inside : j < length gs =
          subst (SlotIn (length gs)) e
            (scan_gates-SlotIn gs gs base 0 none 0 tt size (omega arith)) in
        let g' : Gate = record { call = base; next_ms = now + mbox_reply_cooldown_ms } in
        let after : set gs j g' ≡ (mbox_rate_ok m sender now).0.mbox_gate = rw (someone, e) refl in
        subst (ShutUntil base (now + mbox_reply_cooldown_ms)) after (
          set-ShutUntil base gs j g' inside (
            NoneServes-set base gs j g' (rw (someone, strcasecmp_eq_self base) refl) inside
              none_yet))

ShutUntil-answer :
    (m : Mesh) (sender : List ℕ) (later until : ℕ)
    → is_empty (base_call sender mbox_call) ≡ false
    → ShutUntil (base_call sender mbox_call) until m.mbox_gate
    → (mbox_rate_ok m sender later).1 ≡ not (ltb later until)
unfolding mbox_rate_ok
ShutUntil-answer m sender later until someone (i, first, due) =
    let found =
      scan_gates_first m.mbox_gate m.mbox_gate (base_call sender mbox_call) 0 none 0 i first
      ∙ ap own (index i) in
    elim (Bool-cases (ltb later until)) [
      | inl early ↦ rw (mbox_rate_ok, someone, found, due, early) refl
      | inr late ↦ rw (mbox_rate_ok, someone, found, due, late) refl
    ]
  where
    index : (i : ℕ) → 0 + i ≡ i
    index i = omega arith

-- A request that is refused changes nothing.
refused_unchanged :
    (m : Mesh) (sender : List ℕ) (now : ℕ)
    → (mbox_rate_ok m sender now).1 ≡ false
    → (mbox_rate_ok m sender now).0 ≡ m
unfolding mbox_rate_ok
refused_unchanged m sender now h = elim (Bool-cases (is_empty (base_call sender mbox_call))) [
  | inl nobody ↦ rw nobody refl
  | inr someone ↦
      found someone (scan_gates m.mbox_gate m.mbox_gate (base_call sender mbox_call) 0 none 0) refl
]
  where
    found :
        is_empty (base_call sender mbox_call) ≡ false
        → (r : GateFound)
        → scan_gates m.mbox_gate m.mbox_gate (base_call sender mbox_call) 0 none 0 ≡ r
        → (mbox_rate_ok m sender now).0 ≡ m
    found someone (own j) e = elim (Bool-cases (ltb now (get_or m.mbox_gate j free_gate).next_ms)) [
      | inl early ↦ rw (mbox_rate_ok, someone, e, early) refl
      | inr due ↦
          let granted : (mbox_rate_ok m sender now).1 ≡ true = rw (someone, e, due) refl in
          absurd (ground (arith, h, granted))
    ]
    found someone (take_slot j) e =
        let granted : (mbox_rate_ok m sender now).1 ≡ true = rw (someone, e) refl in
        absurd (ground (arith, h, granted))

-- A sender and the time of its request.
abbrev pub Request : Type 0
Request = List ℕ × ℕ

-- The mesh after some requests.
abbrev pub asked : Mesh → List Request → Mesh
asked m [] = m
asked m (r ∷ rs) = asked (mbox_rate_ok m r.0 r.1).0 rs

-- Requests of the callsign before its time, and refused requests of any other sender.
abbrev pub Between : List ℕ → ℕ → Mesh → List Request → Type 0
Between base until m [] = Unit
Between base until m (r ∷ rs) =
    (((base_call r.0 mbox_call ≡ base) × (r.1 < until)) ⊎ ((mbox_rate_ok m r.0 r.1).1 ≡ false))
    × Between base until (mbox_rate_ok m r.0 r.1).0 rs

between-Refused :
    (base : List ℕ) (until : ℕ) (m : Mesh) (r : Request)
    → is_empty base ≡ false
    → ShutUntil base until m.mbox_gate
    → ((base_call r.0 mbox_call ≡ base) × (r.1 < until)) ⊎ ((mbox_rate_ok m r.0 r.1).1 ≡ false)
    → (mbox_rate_ok m r.0 r.1).1 ≡ false
between-Refused base until m r someone shut (inr refused) = refused
between-Refused base until m r someone shut (inl (same, early)) =
    let answer =
      ShutUntil-answer m r.0 r.1 until (ap is_empty same ∙ someone)
        (subst (λ b. ShutUntil b until m.mbox_gate) (sym same) shut) in
    answer ∙ ground arith

asked-ShutUntil :
    (base : List ℕ) (until : ℕ) (m : Mesh) (rs : List Request)
    → is_empty base ≡ false
    → ShutUntil base until m.mbox_gate
    → Between base until m rs
    → ShutUntil base until (asked m rs).mbox_gate
asked-ShutUntil base until m [] someone shut b = shut
asked-ShutUntil base until m (r ∷ rs) someone shut (now, rest) =
    let same : (mbox_rate_ok m r.0 r.1).0 ≡ m =
      refused_unchanged m r.0 r.1 (between-Refused base until m r someone shut now) in
    asked-ShutUntil base until (mbox_rate_ok m r.0 r.1).0 rs someone
      (subst (λ (x : Mesh). ShutUntil base until x.mbox_gate) (sym same) shut) rest

-- After a reply was granted, the same callsign, under whatever SSID, is refused for the eight seconds
-- of the cooldown and is granted the next reply from then on, however often it asks in between, which
-- does not make the cooldown longer, and whoever else asks and is refused. The table of gates is not
-- empty.
pub mbox_rate_ok_cooldown :
    (m : Mesh) (sender again : List ℕ) (now later : ℕ) (rs : List Request)
    → 0 < length m.mbox_gate
    → (mbox_rate_ok m sender now).1 ≡ true
    → Between
        (base_call sender mbox_call)
        (now + mbox_reply_cooldown_ms)
        (mbox_rate_ok m sender now).0
        rs
    → base_call again mbox_call ≡ base_call sender mbox_call
    → (mbox_rate_ok (asked (mbox_rate_ok m sender now).0 rs) again later).1
      ≡ not (ltb later (now + mbox_reply_cooldown_ms))
mbox_rate_ok_cooldown m sender again now later rs size h between same =
    let until : ℕ = now + mbox_reply_cooldown_ms in
    let after : Mesh = asked (mbox_rate_ok m sender now).0 rs in
    let (someone, shut) = granted-ShutUntil m sender now size h in
    let still : ShutUntil (base_call sender mbox_call) until after.mbox_gate =
      asked-ShutUntil (base_call sender mbox_call) until (mbox_rate_ok m sender now).0 rs someone
        shut between in
    ShutUntil-answer after again later until (ap is_empty same ∙ someone)
      (subst (λ b. ShutUntil b until after.mbox_gate) (sym same) still)
