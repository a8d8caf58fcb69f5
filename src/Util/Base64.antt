-- ===== src/Util/Base64.antt =====
-- src/util.c: base64_decode, against an encoder written from the alphabet.
use meshcore_repeater.Common.{
  ℕ, ◌+◌, ◌-◌, ◌*◌, ◌/◌, ◌%◌, ◌^◌, Bool, true, false, ◌&&◌, Option, none, some, List, [], ◌∷◌, ◌++◌,
  length, take, leb, ltb, ◌==◌, if◌then◌else◌,
}
use meshcore_repeater.Common.Text.{is_empty}

b64val : ℕ → Option ℕ
b64val c =
    if leb b'A' c && leb c b'Z'
    then some (c - b'A')
    else if leb b'a' c && leb c b'z'
    then some (c - b'a' + 26)
    else if leb b'0' c && leb c b'9'
    then some (c - b'0' + 52)
    else if c == b'+'
    then some 62
    else if c == b'/'
    then some 63
    else none

-- One character of a quartet: its value and whether padding has been seen. '=' is taken only in
-- the last two slots of the last quartet, and nothing but '=' after it.
sextet : Bool → ℕ → Bool → ℕ → Option (ℕ × Bool)
unfolding b64val
sextet last j padded c =
    if c == b'='
    then (if last && leb 2 j then some (0, true) else none)
    else if padded
    then none
    else elim (b64val c) [ none ↦ none | some v ↦ some (v, false) ]

-- The bytes of one quartet: 3, less one for each '='.
quartet : Bool → ℕ → ℕ → ℕ → ℕ → Option (List ℕ)
quartet last c0 c1 c2 c3 = elim (sextet last 0 false c0) [
  | none ↦ none
  | some (v0, p0) ↦ elim (sextet last 1 p0 c1) [
    | none ↦ none
    | some (v1, p1) ↦ elim (sextet last 2 p1 c2) [
      | none ↦ none
      | some (v2, p2) ↦ elim (sextet last 3 p2 c3) [
        | none ↦ none
        | some (v3, p3) ↦
            let trip = v0 * 2 ^ 18 + v1 * 2 ^ 12 + v2 * 2 ^ 6 + v3 in
            let bytes : List ℕ = (trip / 2 ^ 16 % 256) ∷ (trip / 2 ^ 8 % 256) ∷ (trip % 256) ∷ [] in
            some (take (if p2 then 1 else if p3 then 2 else 3) bytes)
      ]
    ]
  ]
]

-- The loop over the quartets. `outn` bytes are written so far.
decode_quartets : ℕ → ℕ → List ℕ → Option (List ℕ)
decode_quartets outsz outn [] = some []
decode_quartets outsz outn (c0 ∷ []) = none
decode_quartets outsz outn (c0 ∷ (c1 ∷ [])) = none
decode_quartets outsz outn (c0 ∷ (c1 ∷ (c2 ∷ []))) = none
decode_quartets outsz outn (c0 ∷ (c1 ∷ (c2 ∷ (c3 ∷ rest)))) =
    elim (quartet (is_empty rest) c0 c1 c2 c3) [
      | none ↦ none
      | some bytes ↦
          if ltb outsz (outn + length bytes)
          then none
          else elim (decode_quartets outsz (outn + length bytes) rest) [
            | none ↦ none
            | some more ↦ some (bytes ++ more)
          ]
    ]

pub base64_decode : List ℕ → ℕ → Option (List ℕ)
base64_decode input outsz =
    if length input == 0
    then none
    else if length input % 4 == 0
    then decode_quartets outsz 0 input
    else none
