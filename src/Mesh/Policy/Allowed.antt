-- ===== src/Mesh/Policy/Allowed.antt =====
-- src/mesh.c: what the content policy lets through, exactly.
use meshcore_repeater.Common.{
  All, ◌<◌, ◌≤◌, ◌≡◌, ◌⊎◌, inl, inr, refl, Bool, true, false, ◌||◌, Option, none, some, ◌==◌, ltb,
  if◌then◌else◌, arith, Bool-cases,
}
use meshcore_repeater.Crypto.{Crypto}
use meshcore_repeater.Config.{Config, Channel}
use meshcore_repeater.Packet.{
  Packet, payload_advert, payload_trace, payload_grp_txt, payload_grp_data, payload_type,
}
use meshcore_repeater.Mesh.Policy.{
  Decision, ok_public, ok_grp_public, ok_region, drop_dm, drop_grp_unmatched, drop_grp_macfail,
  drop_other, region_match, scan_channels, classify_group, classify_forward, is_private,
}
use meshcore_repeater.Mesh.Policy.Scan.{
  EntryOf, Proves, InRegion, IsGroup, Unselected, Missed, scan_channels-some, scan_channels-Missed,
  region_match-InRegion, region_match-NotInRegion,
}

-- The evidence for each decision. A group text is dropped as unmatched if it is too short or no
-- channel has its selector, as a MAC failure if one has and none proves it, and in both cases no
-- room has its code.
abbrev pub Evidence : Crypto → Config → Packet → Decision × Option Channel → Type 0
Evidence c cfg p (ok_public, ch) =
    (payload_type p ≡ payload_advert) ⊎ (payload_type p ≡ payload_trace)
Evidence c cfg p (ok_grp_public, none) = ⊥
Evidence c cfg p (ok_grp_public, some ch) =
    IsGroup p × (19 ≤ p.payload_len) × EntryOf cfg.public_channels ch × Proves c p ch
Evidence c cfg p (ok_region, ch) = IsGroup p × (19 ≤ p.payload_len) × InRegion c cfg p
Evidence c cfg p (drop_dm, ch) = is_private (payload_type p) ≡ true
Evidence c cfg p (drop_grp_unmatched, ch) =
    IsGroup p
    × ((p.payload_len < 19)
        ⊎ ((19 ≤ p.payload_len) × All (Unselected p) cfg.public_channels × (¬ (InRegion c cfg p))))
Evidence c cfg p (drop_grp_macfail, ch) =
    IsGroup p × (19 ≤ p.payload_len) × Missed c cfg.public_channels p true × (¬ (InRegion c cfg p))
Evidence c cfg p (drop_other, ch) = is_private (payload_type p) ≡ false

classify_group-Evidence :
    (c : Crypto) (cfg : Config) (p : Packet) → IsGroup p → Evidence c cfg p (classify_group c cfg p)
unfolding classify_group
classify_group-Evidence c cfg p g = elim (Bool-cases (ltb p.payload_len 19)) [
  | inl short ↦ rw short (g, inl (ground (arith, short)))
  | inr long ↦ rw long (
      found (scan_channels c cfg.public_channels p false) refl
        (scan_channels-Missed c cfg.public_channels p) (ground (arith, long)))
]
  where
    unproven :
        (s : Bool)
        → 19 ≤ p.payload_len
        → Missed c cfg.public_channels p s
        → ¬ (InRegion c cfg p)
        → Evidence c cfg p (if s then (drop_grp_macfail, none) else (drop_grp_unmatched, none))
    unproven true n miss out = (g, n, miss, out)
    unproven false n miss out = (g, inr (n, miss, out))

    found :
        (r : Option Channel × Bool)
        → scan_channels c cfg.public_channels p false ≡ r
        → (r.0 ≡ none → Missed c cfg.public_channels p r.1)
        → 19 ≤ p.payload_len
        → Evidence c cfg p (elim r.0 [
          | some ch ↦ (ok_grp_public, some ch)
          | none ↦
              if region_match c cfg p
              then (ok_region, none)
              else if r.1
              then (drop_grp_macfail, none)
              else (drop_grp_unmatched, none)
        ])
    found (some ch, s) e miss n =
        let (o, pr) = scan_channels-some c cfg.public_channels p false ch (ground (arith, e)) in
        (g, n, o, pr)
    found (none, s) e miss n = elim (Bool-cases (region_match c cfg p)) [
      | inl tagged ↦ rw tagged (g, n, region_match-InRegion c cfg p tagged)
      | inr untagged ↦
          rw untagged (unproven s n (miss refl) (region_match-NotInRegion c cfg p untagged))
    ]

pub classify_forward-Evidence :
    (c : Crypto) (cfg : Config) (p : Packet) → Evidence c cfg p (classify_forward c cfg p)
unfolding classify_forward
classify_forward-Evidence c cfg p =
    elim (Bool-cases (payload_type p == payload_advert || payload_type p == payload_trace)) [
      | inl plain ↦ rw plain (ground arith)
      | inr untagged ↦
          elim (Bool-cases
            (payload_type p == payload_grp_txt || payload_type p == payload_grp_data)) [
              | inl grp ↦ rw (untagged, grp) (classify_group-Evidence c cfg p (ground arith))
              | inr other ↦ elim (Bool-cases (is_private (payload_type p))) [
                | inl priv ↦ rw (untagged, other, priv) priv
                | inr rest ↦ rw (untagged, other, rest) rest
              ]
            ]
    ]
