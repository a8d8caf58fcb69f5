-- ===== src/Packet/Body.antt =====
-- src/packet.c: how long a packet is on the wire, and what an accepted body holds.
use meshcore_repeater.Common.{
  ℕ, zero, suc, ◌+◌, ◌-◌, ◌≤◌, ◌<◌, ◌≡◌, refl, sym, ap, ◌∙◌, true, List, [], ◌∷◌, ◌++◌, length,
  get_or, take, drop, write_at, if◌then◌else◌, ok, arith, length-append, length-take, length-drop,
  take-append-drop, take-append, take_all, drop-drop, length-write_at,
}
use mathlib.Core.Path.{ap₂, subst}
use native.Mathlib.Numerals.{add-one}
use meshcore_repeater.Util.Endian.{wr_u16le}
use meshcore_repeater.Packet.{
  Packet, IsValid, max_packet_payload, max_path_size, max_trans_unit, has_transport_codes,
  path_byte_len, valid_path_len,
}
use meshcore_repeater.Packet.Codec.{parse_body, parse_path, raw_length, serialize}

-- A path byte that is accepted stands for at most 64 bytes.
pub path_byte_len-le :
    (p : Packet) → valid_path_len p.path_len ≡ true → path_byte_len p ≤ max_path_size
unfolding valid_path_len path_byte_len
path_byte_len-le p h = ground arith

raw_length-le : (p : Packet) → IsValid p → raw_length p ≤ 254
unfolding raw_length
raw_length-le p v = ground (arith, path_byte_len-le p v.path_len_ok)

-- The bytes that `serialize` writes for a valid packet.
abbrev pub wire : Packet → List ℕ
wire p =
    p.header
    ∷ ((if has_transport_codes p
          then wr_u16le p.transport_code_0 ++ wr_u16le p.transport_code_1
          else [])
        ++ (p.path_len ∷ (take (path_byte_len p) p.path ++ take p.payload_len p.payload)))

-- Every valid packet serialises into a 255-byte buffer, so a queued packet is never lost there.
pub serialize_total : (p : Packet) → IsValid p → serialize p max_trans_unit ≡ ok (wire p)
unfolding serialize
serialize_total p v = ground (arith, raw_length-le p v)

-- The length that pkt_raw_length computes is the length of what pkt_serialize writes.
pub length-serialize :
    (p : Packet)
    → IsValid p
    → {raw : List ℕ} → serialize p max_trans_unit ≡ ok raw
    → length raw ≡ raw_length p
unfolding raw_length wr_u16le
length-serialize p v e = ground (
  arith,
  serialize_total p v,
  length-append (take (path_byte_len p) p.path) (take p.payload_len p.payload),
  length-take (path_byte_len p) p.path,
  length-take p.payload_len p.payload,
  path_byte_len-le p v.path_len_ok,
)

-- What `memcpy` leaves in the front of an array.
pub take-write_at : (src dst : List ℕ) (n : ℕ) → n ≡ length src → take n (write_at 0 src dst) ≡ src
take-write_at src dst n e = take-append n src (drop (0 + length src) dst) e

length-slice : (i n : ℕ) (xs : List ℕ) → i + n ≤ length xs → length (take n (drop i xs)) ≡ n
length-slice i n xs h = omega (arith, length-take n (drop i xs), length-drop i xs)

pub drop-cons : (i : ℕ) (xs : List ℕ) → i < length xs → drop i xs ≡ get_or xs i 0 ∷ drop (suc i) xs
drop-cons i [] h = elim h [ ]
drop-cons zero (x ∷ xs) h = refl
drop-cons (suc i) (x ∷ xs) h = drop-cons i xs (omega arith)

-- The tail of the wire image, from the path on.
abbrev pub body : Packet → List ℕ
body p = take (path_byte_len p) p.path ++ take p.payload_len p.payload

-- Two adjacent slices up to the end are one.
pub slices :
    (i n m : ℕ) (xs : List ℕ)
    → i + n ≤ length xs
    → m ≡ length xs - (i + n)
    → take n (drop i xs) ++ take m (drop (i + n) xs) ≡ drop i xs
slices i n m xs h e =
    rw (take_all m (drop (i + n) xs) (omega (arith, length-drop (i + n) xs)), ← drop-drop n i xs)
      (take-append-drop n (drop i xs))

-- The packet that `parse_body` builds.
abbrev pub filled : List ℕ → ℕ → ℕ → ℕ → Packet → Packet
filled src i pbl n p = record p {
  path = write_at 0 (take pbl (drop i src)) p.path;
  payload_len = n;
  payload = write_at 0 (take n (drop (i + pbl) src)) p.payload;
}

-- The arrays have their C sizes.
abbrev pub IsSized : Packet → Type 0
IsSized p = (length p.path ≡ max_path_size) × (length p.payload ≡ max_packet_payload)

module _ (src : List ℕ) (i : ℕ) (p : Packet) (sized : IsSized p) where
  pub filled-body :
      i + path_byte_len p ≤ length src
      → (n : ℕ) → n ≡ length src - (i + path_byte_len p)
      → body (filled src i (path_byte_len p) n p) ≡ drop i src
  unfolding path_byte_len
  filled-body h n e =
      ap₂ ◌++◌
        (take-write_at (take (path_byte_len p) (drop i src)) p.path (path_byte_len p)
          (sym (length-slice i (path_byte_len p) src h)))
        (take-write_at (take n (drop (i + path_byte_len p) src)) p.payload n
          (sym (length-slice (i + path_byte_len p) n src (omega arith))))
      ∙ slices i (path_byte_len p) n src h e

  pub filled-IsSized :
      (pbl n : ℕ) → pbl ≤ 64 → n ≤ 184 → i + pbl + n ≤ length src → IsSized (filled src i pbl n p)
  filled-IsSized pbl n k m h = (
    length-write_at 0 (take pbl (drop i src)) p.path
          (omega (arith, length-slice i pbl src, sized.0))
        ∙ sized.0,
    length-write_at 0 (take n (drop (i + pbl) src)) p.payload
          (omega (arith, length-slice (i + pbl) n src, sized.1))
        ∙ sized.1,
  )

-- What an accepted body is: everything else in the packet is kept.
pub record IsBodyOf (src : List ℕ) (i : ℕ) (p q : Packet) : Type 0 where
  pub header_kept : q.header ≡ p.header
  pub code_0_kept : q.transport_code_0 ≡ p.transport_code_0
  pub code_1_kept : q.transport_code_1 ≡ p.transport_code_1
  pub path_len_ok : valid_path_len q.path_len ≡ true
  pub path_len_read : q.path_len ≡ get_or src i 0
  pub dnr_kept : q.marked_dnr ≡ p.marked_dnr
  pub rest_read : q.path_len ∷ body q ≡ drop i src
  pub sized : IsSized q
  pub payload_in : q.payload_len ≤ max_packet_payload

parse_body_inv :
    (src : List ℕ) (i : ℕ) (p : Packet) {q : Packet}
    → parse_body src i p ≡ ok q
    → (i + path_byte_len p ≤ length src)
      × (length src - (i + path_byte_len p) ≤ max_packet_payload)
      × (filled src i (path_byte_len p) (length src - (i + path_byte_len p)) p ≡ q)
unfolding parse_body
parse_body_inv src i p e = ground arith

parse_path_inv :
    (src : List ℕ) (i : ℕ) (p : Packet) {q : Packet}
    → parse_path src i p ≡ ok q
    → (i < length src)
      × (valid_path_len (get_or src i 0) ≡ true)
      × (parse_body src (i + 1) (record p { path_len = get_or src i 0 }) ≡ ok q)
unfolding parse_path
parse_path_inv src i p e = ground arith

pub parse_path-IsBodyOf :
    (src : List ℕ) (i : ℕ) (p : Packet) {q : Packet}
    → IsSized p
    → parse_path src i p ≡ ok q
    → IsBodyOf src i p q
parse_path-IsBodyOf src i p s e =
    let (short, valid, e') = parse_path_inv src i p e in
    let p' : Packet = record p { path_len = get_or src i 0 } in
    let (fits, small, built) = parse_body_inv src (i + 1) p' e' in
    let k : ℕ = path_byte_len p' in
    let n : ℕ = length src - (i + 1 + k) in
    subst (IsBodyOf src i p) built (record {
      header_kept = refl;
      code_0_kept = refl;
      code_1_kept = refl;
      path_len_ok = valid;
      path_len_read = refl;
      dnr_kept = refl;
      rest_read =
          ap (◌∷◌ (get_or src i 0)) (filled-body src (i + 1) p' s fits n refl)
          ∙ ap (λ (m : ℕ). get_or src i 0 ∷ drop m src) (add-one i)
          ∙ sym (drop-cons i src short);
      sized = filled-IsSized src (i + 1) p' s k n (path_byte_len-le p' valid) small (omega arith);
      payload_in = small;
    })
