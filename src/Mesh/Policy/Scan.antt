-- ===== src/Mesh/Policy/Scan.antt =====
-- src/mesh.c: what a scan of the channels and of the rooms finds, and what it rules out.
use meshcore_repeater.Common.{
  All, some_inj, subst, sym, zero, ℕ, suc, ◌+◌, ◌≡◌, ◌⊎◌, inl, inr, refl, Bool, true, false, List,
  [], ◌∷◌, none, some, ◌==◌, get_elem?, get_or, take, arith, Bool-cases, Option-cases,
}
use meshcore_repeater.Crypto.{Crypto}
use meshcore_repeater.Config.{Config, Channel, Room}
use meshcore_repeater.Packet.{
  Packet, payload_grp_txt, payload_grp_data, payload_type, route_type, route_transport_flood,
}
use meshcore_repeater.Mesh.Policy.{
  region_transport_code, region_from, region_match_index, region_match, mac_ok, scan_channels,
}

-- An entry of a list.
abbrev pub EntryOf {ℓ} : {A : Type ℓ} → List A → A → Type ℓ
EntryOf xs x = (i : ℕ) × (get_elem? xs i ≡ some x)

-- A configured channel whose selector and MAC are those of the packet.
abbrev pub Proves : Crypto → Packet → Channel → Type 0
Proves c p ch = (ch.hash ≡ get_or p.payload 0 0) × (mac_ok c ch p ≡ true)

abbrev pub Tags : Crypto → Packet → Room → Type 0
Tags c p r =
    region_transport_code c r.key (payload_type p) (take p.payload_len p.payload)
    ≡ p.transport_code_0

-- A transport flood that carries the code of a configured room.
abbrev pub InRegion : Crypto → Config → Packet → Type 0
InRegion c cfg p =
    (route_type p ≡ route_transport_flood) × ((r : Room) × EntryOf cfg.rooms r × Tags c p r)

abbrev pub IsGroup : Packet → Type 0
IsGroup p = (payload_type p ≡ payload_grp_txt) ⊎ (payload_type p ≡ payload_grp_data)

pub scan_channels-some :
    (c : Crypto) (chs : List Channel) (p : Packet) (seen : Bool) (ch : Channel)
    → (scan_channels c chs p seen).0 ≡ some ch
    → EntryOf chs ch × Proves c p ch
unfolding scan_channels
scan_channels-some c [] p seen ch e = absurd (cc)
scan_channels-some c (x ∷ chs) p seen ch e = elim (Bool-cases (x.hash == get_or p.payload 0 0)) [
  | inr miss ↦ later (scan_channels-some c chs p seen ch (ground arith))
  | inl hit ↦ elim (Bool-cases (mac_ok c x p)) [
    | inr bad ↦ later (scan_channels-some c chs p true ch (ground arith))
    | inl good ↦ ((0, ground arith), (ground arith, ground arith))
  ]
]
  where
    later : EntryOf chs ch × Proves c p ch → EntryOf (x ∷ chs) ch × Proves c p ch
    later ((i, h), proves) = ((suc i, h), proves)

region_from-some :
    (c : Crypto) (rs : List Room) (i : ℕ) (p : Packet) (j : ℕ)
    → region_from c rs i p ≡ some j
    → (r : Room) × EntryOf rs r × Tags c p r
unfolding region_from
region_from-some c [] i p j e = absurd (cc)
region_from-some c (x ∷ rs) i p j e =
    elim (Bool-cases (
      region_transport_code c x.key (payload_type p) (take p.payload_len p.payload)
      == p.transport_code_0)) [
        | inl hit ↦ (x, (0, refl), ground arith)
        | inr miss ↦ later (region_from-some c rs (i + 1) p j (ground arith))
      ]
  where
    later : (r : Room) × EntryOf rs r × Tags c p r → (r : Room) × EntryOf (x ∷ rs) r × Tags c p r
    later (r, (k, h), t) = (r, (suc k, h), t)

pub region_match-InRegion :
    (c : Crypto) (cfg : Config) (p : Packet) → region_match c cfg p ≡ true → InRegion c cfg p
unfolding region_match region_match_index
region_match-InRegion c cfg p e = elim (Option-cases (region_match_index c cfg p)) [
  | inl n ↦ absurd (ground arith)
  | inr (j, s) ↦ (ground arith, region_from-some c cfg.rooms 0 p j (ground arith))
]

-- A channel whose selector is the packet's, and one that does not prove the packet public.
abbrev pub Selected : Packet → Channel → Type 0
Selected p ch = ch.hash ≡ get_or p.payload 0 0

abbrev pub Unproven : Crypto → Packet → Channel → Type 0
Unproven c p ch = ¬ (Proves c p ch)

abbrev pub Unselected : Packet → Channel → Type 0
Unselected p ch = ¬ (Selected p ch)

-- What a scan that finds no channel tells, with the selector seen or not.
abbrev pub Missed : Crypto → List Channel → Packet → Bool → Type 0
Missed c chs p true = All (Unproven c p) chs × ((ch : Channel) × EntryOf chs ch × Selected p ch)
Missed c chs p false = All (Unselected p) chs

scan_channels-Unproven :
    (c : Crypto) (chs : List Channel) (p : Packet) (seen : Bool)
    → (scan_channels c chs p seen).0 ≡ none
    → All (Unproven c p) chs
unfolding scan_channels
scan_channels-Unproven c [] p seen e = tt
scan_channels-Unproven c (x ∷ chs) p seen e = elim (Bool-cases (x.hash == get_or p.payload 0 0)) [
  | inr miss ↦ (
    λ pr. absurd (ground (arith, miss, pr.0)),
    scan_channels-Unproven c chs p seen (ground (arith, e, miss)),
  )
  | inl hit ↦ elim (Bool-cases (mac_ok c x p)) [
    | inl good ↦ absurd (ground (arith, e, hit, good))
    | inr bad ↦ (
      λ pr. absurd (ground (arith, bad, pr.1)),
      scan_channels-Unproven c chs p true (ground (arith, e, hit, bad)),
    )
  ]
]

scan_channels_seen :
    (c : Crypto) (chs : List Channel) (p : Packet)
    → (scan_channels c chs p true).0 ≡ none
    → (scan_channels c chs p true).1 ≡ true
unfolding scan_channels
scan_channels_seen c [] p e = refl
scan_channels_seen c (x ∷ chs) p e = elim (Bool-cases (x.hash == get_or p.payload 0 0)) [
  | inr miss ↦ rw miss (scan_channels_seen c chs p (ground (arith, e, miss)))
  | inl hit ↦ elim (Bool-cases (mac_ok c x p)) [
    | inl good ↦ rw (hit, good) refl
    | inr bad ↦ rw (hit, bad) (scan_channels_seen c chs p (ground (arith, e, hit, bad)))
  ]
]

pub scan_channels-Missed :
    (c : Crypto) (chs : List Channel) (p : Packet)
    → (scan_channels c chs p false).0 ≡ none
    → Missed c chs p (scan_channels c chs p false).1
unfolding scan_channels
scan_channels-Missed c [] p e = tt
scan_channels-Missed c (x ∷ chs) p e = elim (Bool-cases (x.hash == get_or p.payload 0 0)) [
  | inr miss ↦
      let rest : (scan_channels c chs p false).0 ≡ none = ground (arith, e, miss) in
      rw miss (
        beyond (λ h. absurd (ground (arith, miss, h))) (scan_channels c chs p false).1
          (scan_channels-Missed c chs p rest))
  | inl hit ↦ elim (Bool-cases (mac_ok c x p)) [
    | inl good ↦ absurd (ground (arith, e, hit, good))
    | inr bad ↦
        let rest : (scan_channels c chs p true).0 ≡ none = ground (arith, e, hit, bad) in
        rw (hit, bad, scan_channels_seen c chs p rest)
          (
            (λ pr. absurd (ground (arith, bad, pr.1)), scan_channels-Unproven c chs p true rest),
            (x, (0, refl), ground (arith, hit)),
          )
  ]
]
  where
    beyond : Unselected p x → (s : Bool) → Missed c chs p s → Missed c (x ∷ chs) p s
    beyond other true (all, (ch, (i, at), sel)) = ((λ pr. other pr.0, all), (ch, (suc i, at), sel))
    beyond other false all = (other, all)

region_from-none :
    (c : Crypto) (rs : List Room) (i : ℕ) (p : Packet) (r : Room)
    → region_from c rs i p ≡ none
    → EntryOf rs r
    → ¬ (Tags c p r)
unfolding region_from
region_from-none c [] i p r e (k, at) t = absurd (cc)
region_from-none c (x ∷ rs) i p r e (k, at) t =
    elim (Bool-cases (
      region_transport_code c x.key (payload_type p) (take p.payload_len p.payload)
      == p.transport_code_0)) [
        | inl hit ↦ absurd (ground (arith, e, hit))
        | inr miss ↦
            other k at miss
              (λ j h. region_from-none c rs (i + 1) p r (ground (arith, e, miss)) (j, h) t)
      ]
  where
    other :
        (k : ℕ)
        → get_elem? (x ∷ rs) k ≡ some r
        → (region_transport_code c x.key (payload_type p) (take p.payload_len p.payload)
            == p.transport_code_0)
          ≡ false
        → ((j : ℕ) → get_elem? rs j ≡ some r → ⊥)
        → ⊥
    other zero at miss later =
        let same : x ≡ r = some_inj at in
        let t' : Tags c p x = subst (Tags c p) (sym same) t in absurd (ground (arith, miss, t'))
    other (suc k) at miss later = later k at

pub region_match-NotInRegion :
    (c : Crypto) (cfg : Config) (p : Packet) → region_match c cfg p ≡ false → ¬ (InRegion c cfg p)
unfolding region_match region_match_index
region_match-NotInRegion c cfg p e (flood, (r, at, t)) =
    elim (Option-cases (region_match_index c cfg p)) [
      | inl n ↦ region_from-none c cfg.rooms 0 p r (ground (arith, n, flood)) at t
      | inr (j, s) ↦ absurd (ground (arith, e, s))
    ]
