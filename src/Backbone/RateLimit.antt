-- ===== src/Backbone/RateLimit.antt =====
-- src/backbone.c: the token bucket of on_frame, one frame at a time.
pub mod Meter
pub mod Runs
use meshcore_repeater.Common.{
  ℕ, ◌+◌, ◌-◌, ◌*◌, ◌≤◌, ◌≡◌, ◌⊎◌, refl, sym, ap, ◌∙◌, subst, false, not, ◌||◌, List, if◌then◌else◌,
  if_both, if_true, if_false, ltb, Bool-cases, inl, inr, pos, arith,
}
use native.Mathlib.Nat.{add-mul}
use meshcore_repeater.Mesh.State.{RxResult}
use meshcore_repeater.Mesh.Queue.{mesh_txq_free}
use meshcore_repeater.Backbone.State.{Client, Net, Settings, bridging, reject}
use meshcore_repeater.Backbone.Bridge.{
  on_frame, inject, observe_hub, bucket_rate, bucket_cap, refill, frame_body_bad, frame_of,
  is_malformed, disposition_of, bb_disp_limited, bb_txq_headroom,
}
use meshcore_repeater.Backbone.Quiet.{Core, core, inject-Quiet, observe_hub-Quiet}

-- What the rate limit reads and writes.
abbrev pub SameBucket : Client → Client → Type 0
SameBucket bb bb' =
    (bb'.settings ≡ bb.settings)
    × (bb'.tokens ≡ bb.tokens)
    × (bb'.tokens_ms ≡ bb.tokens_ms)
    × (bb'.injected ≡ bb.injected)

-- A frame that was looked at: the bucket is refilled, and a frame that reaches the mesh costs one.
abbrev Charged : ℕ → Client → Client → Type 0
Charged now bb bb' =
    (bb'.settings ≡ bb.settings)
    × (bb'.tokens_ms ≡ now)
    × (bb'.injected * 60000 + bb'.tokens
        ≤ bb.injected * 60000 + refill bb.settings.rate bb.tokens bb.tokens_ms now)

pub on_frame-Charged :
    (net : Net) (bb : Client) (now : ℕ) (body : List ℕ)
    → SameBucket bb (on_frame net bb now body) ⊎ Charged now bb (on_frame net bb now body)
unfolding on_frame
on_frame-Charged net bb now body =
    if_both (λ x. SameBucket bb x ⊎ Charged now bb x) (not (bridging bb) || frame_body_bad body)
      (inl (refl, refl, refl, refl)) (inr looked)
  where
    tokens : ℕ
    tokens = refill bb.settings.rate bb.tokens bb.tokens_ms now

    timed : Client
    timed = record bb { tokens = tokens; tokens_ms = now }

    spent : Client
    spent = record timed { tokens = tokens - 60000 }

    frame : List ℕ
    frame = frame_of body

    done : Client
    done = (inject net spent frame).0

    r : RxResult
    r = (inject net spent frame).1

    limited : Client
    limited = record timed { limited = bb.limited + 1 }

    counted : Client
    counted = record done { injected = done.injected + 1 }

    -- What holds of a state that agrees with another on the core.
    charged :
        (a b : Client)
        → core b ≡ core a
        → a.settings ≡ bb.settings
        → a.tokens_ms ≡ now
        → a.injected * 60000 + a.tokens ≤ bb.injected * 60000 + tokens
        → Charged now bb b
    charged a b e s t le =
        let injected : b.injected ≡ a.injected = ap (λ (x : Core). x.injected) e in
        let held : b.tokens ≡ a.tokens = ap (λ (x : Core). x.tokens) e in
        (
          ap (λ (x : Core). x.settings) e ∙ s,
          ap (λ (x : Core). x.tokens_ms) e ∙ t,
          omega (arith, injected, held, le),
        )

    enough : (x : ℕ) → ltb x 60000 ≡ false → 60000 ≤ x
    enough x h = ground arith

    taken : 60000 ≤ tokens → Charged now bb done × Charged now bb counted
    taken h =
        let e : core done ≡ core spent = inject-Quiet net spent frame in
        let injected : done.injected ≡ bb.injected = ap (λ (x : Core). x.injected) e in
        let held : done.tokens ≡ tokens - 60000 = ap (λ (x : Core). x.tokens) e in
        let s : done.settings ≡ bb.settings = ap (λ (x : Core). x.settings) e in
        let t : done.tokens_ms ≡ now = ap (λ (x : Core). x.tokens_ms) e in
        ((s, t, omega (arith, injected, held, h)), (s, t, omega (arith, injected, held, h)))

    looked : Charged now bb (
        if ltb tokens 60000 || ltb (mesh_txq_free bb.mesh) bb_txq_headroom
        then observe_hub net limited frame (pos bb_disp_limited)
        else if is_malformed r
        then reject done
        else observe_hub net counted frame (disposition_of r))
    looked = elim (Bool-cases (ltb tokens 60000 || ltb (mesh_txq_free bb.mesh) bb_txq_headroom)) [
      | inl refused ↦ subst (Charged now bb) (sym (if_true _ _ refused)) (
          charged limited (observe_hub net limited frame (pos bb_disp_limited))
            (observe_hub-Quiet net limited frame (pos bb_disp_limited)) refl refl (omega arith))
      | inr allowed ↦
          let h : 60000 ≤ tokens = enough tokens (ground arith) in
          subst (Charged now bb) (sym (if_false _ _ allowed)) (
            if_both (Charged now bb) (is_malformed r) (taken h).0 (
              charged counted (observe_hub net counted frame (disposition_of r))
                (observe_hub-Quiet net counted frame (disposition_of r)) (taken h).1.0 (taken h).1.1
                (taken h).1.2))
    ]

refill_start : (rate tokens now : ℕ) → refill rate tokens 0 now ≡ bucket_cap rate
unfolding refill
refill_start rate tokens now = refl

refill_bound :
    (rate tokens t now : ℕ)
    → 1 ≤ t
    → refill rate tokens t now ≤ tokens + (now - t) * bucket_rate rate
unfolding refill
refill_bound rate tokens t now h = ground arith

-- What has been spent by the time `u` since a client `bb` at `t`.
abbrev pub Budget : ℕ → Client → ℕ → Client → Type 0
Budget t bb u bb' =
    (bb'.settings ≡ bb.settings)
    × (t ≤ u)
    × (((bb'.tokens_ms ≡ 0) × (bb'.injected ≡ bb.injected))
        ⊎ ((t ≤ bb'.tokens_ms)
            × (bb'.tokens_ms ≤ u)
            × (bb'.injected * 60000 + bb'.tokens
                ≤ bb.injected * 60000
                  + bucket_cap bb.settings.rate
                  + (bb'.tokens_ms - t) * bucket_rate bb.settings.rate)))

pub split_time : (t a now r : ℕ) → t ≤ a → a ≤ now → (a - t) * r + (now - a) * r ≡ (now - t) * r
split_time t a now r h k =
    let whole : a - t + (now - a) ≡ now - t = omega arith in
    sym (add-mul (a - t) (now - a) r) ∙ ap (λ x. x * r) whole

pub charge-Budget :
    (t u now : ℕ) (bb b n : Client)
    → 1 ≤ t
    → u ≤ now
    → Budget t bb u b
    → SameBucket b n ⊎ Charged now b n
    → Budget t bb now n
charge-Budget t u now bb b n one later (s, tu, held) (inl (s', k, ms, i)) = (
  s' ∙ s,
  omega (arith, tu, later),
  elim held [
    | inl (zero_ms, none_yet) ↦ inl (ms ∙ zero_ms, i ∙ none_yet)
    | inr (from, to, le) ↦
        let le' : n.injected * 60000 + n.tokens
            ≤ bb.injected * 60000
              + bucket_cap bb.settings.rate
              + (b.tokens_ms - t) * bucket_rate bb.settings.rate =
          omega (arith, i, k, le) in
        inr (
          subst (λ x. t ≤ x) (sym ms) from,
          subst (λ x. x ≤ now) (sym ms) (omega (arith, to, later)),
          subst
              (λ x.
                n.injected * 60000 + n.tokens
                ≤ bb.injected * 60000
                  + bucket_cap bb.settings.rate
                  + (x - t) * bucket_rate bb.settings.rate)
              (sym ms) le',
        )
  ],
)
charge-Budget t u now bb b n one later (s, tu, held) (inr (s', ms, le)) =
    let r : ℕ = bb.settings.rate in
    let cost : n.injected * 60000 + n.tokens
        ≤ b.injected * 60000 + refill r b.tokens b.tokens_ms now =
      subst
        (λ (x : Settings).
          n.injected * 60000 + n.tokens
          ≤ b.injected * 60000 + refill x.rate b.tokens b.tokens_ms now)
        s le in
    let spent : n.injected * 60000 + n.tokens
        ≤ bb.injected * 60000 + bucket_cap r + (now - t) * bucket_rate r =
      elim held [
        | inl (zero_ms, none_yet) ↦
            let full : refill r b.tokens b.tokens_ms now ≡ bucket_cap r =
              ap (λ x. refill r b.tokens x now) zero_ms ∙ refill_start r b.tokens now in
            omega (arith, full, none_yet, cost)
        | inr (from, to, before) ↦
            let more = refill_bound r b.tokens b.tokens_ms now (omega (arith, one, from)) in
            let times =
              split_time t b.tokens_ms now (bucket_rate r) from (omega (arith, to, later)) in
            omega (arith, more, times, before, cost)
      ] in
    (
      s' ∙ s,
      omega (arith, tu, later),
      inr (
        omega (arith, ms, tu, later),
        omega (arith, ms),
        subst
            (λ x.
              n.injected * 60000 + n.tokens
              ≤ bb.injected * 60000 + bucket_cap r + (x - t) * bucket_rate r)
            (sym ms) spent,
      ),
    )
