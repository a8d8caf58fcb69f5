-- ===== src/Backbone/Policy/Walk.antt =====
-- src/backbone.c: policy_walk against the entries that a page is made of.
use meshcore_repeater.Common.{
  ℕ, zero, suc, ◌≤◌, ◌≡◌, refl, sym, ap, ◌∙◌, true, false, List, [], ◌∷◌, ◌++◌, ◌==◌, leb, ltb,
  length, take, drop, some, arith, All, some_inj, subst, length-take, take-append-drop,
  length-append, length-push, take-append, drop-append, Bool-cases, inl, inr,
}
use meshcore_repeater.Config.{Policy}
use meshcore_repeater.Backbone.Policy.{
  policy_add, walk_entries, policy_walk, policy_max_rooms, policy_max_blocks, room_ok, name_ok,
  bb_pol_room, bb_pol_block_name, bb_pol_block_key,
}

-- A page as the hub writes it: the kind and the value of each entry.
abbrev pub print_entries : List (ℕ × List ℕ) → List ℕ
print_entries [] = []
print_entries ((k, v) ∷ es) = k ∷ length v ∷ (v ++ print_entries es)

abbrev pub add_all : Policy → List (ℕ × List ℕ) → Policy
add_all p [] = p
add_all p ((k, v) ∷ es) = add_all (policy_add p k v) es

walk-print :
    (fuel : ℕ) (es : List (ℕ × List ℕ)) (p : Policy)
    → length (print_entries es) ≤ fuel
    → walk_entries fuel (print_entries es) p ≡ some (add_all p es)
unfolding walk_entries
walk-print fuel [] p h = refl
walk-print zero ((k, v) ∷ es) p h = absurd (omega arith)
walk-print (suc fuel) ((k, v) ∷ es) p h =
    let here : ltb (length (v ++ print_entries es)) (length v) ≡ false =
      ground (arith, length-append v (print_entries es)) in
    rw
      (
        here,
        take-append (length v) v (print_entries es) refl,
        drop-append (length v) v (print_entries es) refl,
      )
      (walk-print fuel es (policy_add p k v) (omega (arith, length-append v (print_entries es))))

-- A page is walked to its end, whatever its entries are, and each of them is added in its order.
pub policy_walk-print_entries :
    (es : List (ℕ × List ℕ)) (p : Policy) → policy_walk (print_entries es) p ≡ some (add_all p es)
unfolding policy_walk
policy_walk-print_entries es p = walk-print (length (print_entries es)) es p (omega arith)

-- What is walked is what the hub could have written.
walk-Printed :
    (fuel : ℕ) (e : List ℕ) (p q : Policy)
    → walk_entries fuel e p ≡ some q
    → (es : List (ℕ × List ℕ)) × (print_entries es ≡ e) × (q ≡ add_all p es)
unfolding walk_entries
walk-Printed fuel [] p q h = ([], refl, some_inj (sym h))
walk-Printed zero (k ∷ e) p q h = absurd (ground (arith, h))
walk-Printed (suc fuel) (k ∷ []) p q h = absurd (ground (arith, h))
walk-Printed (suc fuel) (k ∷ l ∷ e) p q h = elim (Bool-cases (ltb (length e) l)) [
  | inl short ↦ absurd (ground (arith, h))
  | inr whole ↦
      let rest : walk_entries fuel (drop l e) (policy_add p k (take l e)) ≡ some q =
        ground (arith, h) in
      let (es, printed, added) = walk-Printed fuel (drop l e) (policy_add p k (take l e)) q rest in
      let size : length (take l e) ≡ l = ground (arith, length-take l e) in
      (
        (k, take l e) ∷ es,
        (λ i. k ∷ size i ∷ (take l e ++ printed i)) ∙ ap (λ x. k ∷ l ∷ x) (take-append-drop l e),
        added,
      )
]

-- What the arrays of `mc_policy_t` hold: no more than they can, each value of the form for its kind.
abbrev pub Fits : Policy → Type 0
Fits p =
    (length p.rooms ≤ policy_max_rooms)
    × (length p.names ≤ policy_max_blocks)
    × (length p.keys ≤ policy_max_blocks)
    × All (λ v. room_ok v ≡ true) p.rooms
    × All (λ v. name_ok v ≡ true) p.names
    × All (λ v. length v ≡ 32) p.keys

push-All {ℓ κ} :
    {A : Type ℓ} (P : A → Type κ) (xs : List A) (x : A) → All P xs → P x → All P (xs ++ (x ∷ []))
push-All P [] x h p = (p, tt)
push-All P (y ∷ xs) x h p = (h.0, push-All P xs x h.1 p)

push_bound :
    (n : ℕ) (xs : List (List ℕ)) (x : List ℕ)
    → leb n (length xs) ≡ false
    → length (xs ++ (x ∷ [])) ≤ n
push_bound n xs x h = ground (arith, length-push xs x)

policy_add-Fits : (p : Policy) (kind : ℕ) (v : List ℕ) → Fits p → Fits (policy_add p kind v)
unfolding policy_add
policy_add-Fits p kind v (r, n, k, rs, ns, ks) = elim (Bool-cases (kind == bb_pol_room)) [
  | inl room ↦ elim (Bool-cases (room_ok v)) [
    | inr bad ↦ rw (room, bad) (r, n, k, rs, ns, ks)
    | inl good ↦ elim (Bool-cases (leb policy_max_rooms (length p.rooms))) [
      | inl full ↦ rw (room, good, full) (r, n, k, rs, ns, ks)
      | inr fits ↦
          rw (room, good, fits)
            (push_bound policy_max_rooms p.rooms v fits, n, k, push-All _ p.rooms v rs good, ns, ks)
    ]
  ]
  | inr not_room ↦ elim (Bool-cases (kind == bb_pol_block_name)) [
    | inl name ↦ elim (Bool-cases (name_ok v)) [
      | inr bad ↦ rw (not_room, name, bad) (r, n, k, rs, ns, ks)
      | inl good ↦ elim (Bool-cases (leb policy_max_blocks (length p.names))) [
        | inl full ↦ rw (not_room, name, good, full) (r, n, k, rs, ns, ks)
        | inr fits ↦
            rw (not_room, name, good, fits)
              (
                r,
                push_bound policy_max_blocks p.names v fits,
                k,
                rs,
                push-All _ p.names v ns good,
                ks,
              )
      ]
    ]
    | inr not_name ↦ elim (Bool-cases (kind == bb_pol_block_key)) [
      | inr other ↦ rw (not_room, not_name, other) (r, n, k, rs, ns, ks)
      | inl key ↦ elim (Bool-cases (length v == 32)) [
        | inr bad ↦ rw (not_room, not_name, key, bad) (r, n, k, rs, ns, ks)
        | inl good ↦ elim (Bool-cases (leb policy_max_blocks (length p.keys))) [
          | inl full ↦ rw (not_room, not_name, key, good, full) (r, n, k, rs, ns, ks)
          | inr fits ↦
              let size : length v ≡ 32 = ground (arith, good) in
              rw (not_room, not_name, key, good, fits)
                (
                  r,
                  n,
                  push_bound policy_max_blocks p.keys v fits,
                  rs,
                  ns,
                  push-All _ p.keys v ks size,
                )
        ]
      ]
    ]
  ]
]

walk-Fits :
    (fuel : ℕ) (e : List ℕ) (p q : Policy) → Fits p → walk_entries fuel e p ≡ some q → Fits q
unfolding walk_entries
walk-Fits fuel [] p q f h = subst Fits (some_inj h) f
walk-Fits zero (k ∷ e) p q f h = absurd (ground (arith, h))
walk-Fits (suc fuel) (k ∷ []) p q f h = absurd (ground (arith, h))
walk-Fits (suc fuel) (k ∷ l ∷ e) p q f h = elim (Bool-cases (ltb (length e) l)) [
  | inl short ↦ absurd (ground (arith, h))
  | inr whole ↦
      walk-Fits fuel (drop l e) (policy_add p k (take l e)) q (policy_add-Fits p k (take l e) f)
        (ground (arith, h))
]

-- However long a page is and whatever it says, a set that fits the arrays of `mc_policy_t` still does
-- when a page has been walked into it, and every value in it is of the form for its kind; and the
-- page was nothing but whole entries, each of which was added in its order.
pub policy_walk-Fits :
    (e : List ℕ) (p q : Policy)
    → Fits p
    → policy_walk e p ≡ some q
    → Fits q × ((es : List (ℕ × List ℕ)) × (print_entries es ≡ e) × (q ≡ add_all p es))
unfolding policy_walk
policy_walk-Fits e p q f h = (walk-Fits (length e) e p q f h, walk-Printed (length e) e p q h)
