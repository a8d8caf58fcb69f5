-- ===== src/Packet/RoundTrip.antt =====
-- The packet codec of src/packet.c: what it accepts is valid and is written back unchanged.
use meshcore_repeater.Common.{
  ℕ, zero, suc, ◌^◌, ◌≤◌, ◌<◌, ◌≡◌, refl, ap, ◌∙◌, Bool, true, false, List, [], ◌∷◌, ◌++◌, ◌==◌,
  length, get_or, drop, if◌then◌else◌, ok, arith, All, Bool-cases, ◌⊎◌, inl, inr,
}
use meshcore_repeater.Util.Endian.{IsByte, rd_u16le, wr_u16le}
use meshcore_repeater.Packet.{Packet, IsValid, max_trans_unit, has_transport_codes}
use meshcore_repeater.Packet.Codec.{zero_path, zero_payload, zero_packet, parse, serialize}
use meshcore_repeater.Packet.Body.{wire, serialize_total, IsBodyOf, parse_path-IsBodyOf}

get_or-IsByte : (xs : List ℕ) (i : ℕ) → All IsByte xs → IsByte (get_or xs i 0)
get_or-IsByte [] i h = omega arith
get_or-IsByte (x ∷ xs) zero h = h.0
get_or-IsByte (x ∷ xs) (suc i) h = get_or-IsByte xs i h.1

drop-IsByte : (i : ℕ) (xs : List ℕ) → All IsByte xs → All IsByte (drop i xs)
drop-IsByte zero xs h = h
drop-IsByte (suc i) [] h = tt
drop-IsByte (suc i) (x ∷ xs) h = drop-IsByte i xs h.1

rd_u16le-lt : (xs : List ℕ) → All IsByte xs → rd_u16le xs < 2 ^ 16
unfolding rd_u16le
rd_u16le-lt xs h = omega (arith, get_or-IsByte xs 0 h, get_or-IsByte xs 1 h)

-- The packet after the header, without and with the transport codes.
abbrev pub headed : List ℕ → Packet
headed src = record zero_packet { header = get_or src 0 0; marked_dnr = get_or src 0 0 == 0xff }

abbrev pub coded : List ℕ → Packet
coded src = record (headed src) {
  transport_code_0 = rd_u16le (drop 1 src);
  transport_code_1 = rd_u16le (drop 3 src);
}

-- The two ways to be accepted.
abbrev Accepted : List ℕ → Packet → Type 0
Accepted src p =
    ((has_transport_codes (headed src) ≡ true) × (5 ≤ length src) × IsBodyOf src 5 (coded src) p)
    ⊎ ((has_transport_codes (headed src) ≡ false)
        × (2 ≤ length src)
        × IsBodyOf src 1 (headed src) p)

parse-Accepted : (src : List ℕ) (p : Packet) → parse src ≡ ok p → Accepted src p
unfolding parse zero_path zero_payload
parse-Accepted src p e = elim (Bool-cases (has_transport_codes (headed src))) [
  | inl yes' ↦
      inl (yes', ground arith, parse_path-IsBodyOf src 5 (coded src) (refl, refl) (ground arith))
  | inr no' ↦
      inr (no', ground arith, parse_path-IsBodyOf src 1 (headed src) (refl, refl) (ground arith))
]

IsBodyOf-IsValid :
    (src : List ℕ) (i : ℕ) (p q : Packet)
    → All IsByte src
    → IsByte p.header
    → p.transport_code_0 < 2 ^ 16
    → p.transport_code_1 < 2 ^ 16
    → IsBodyOf src i p q
    → IsValid q
IsBodyOf-IsValid src i p q h hh h0 h1 b = record {
  header_in = rw b.header_kept hh;
  code_0_in = rw b.code_0_kept h0;
  code_1_in = rw b.code_1_kept h1;
  path_len_in = rw b.path_len_read (get_or-IsByte src i h);
  path_len_ok = b.path_len_ok;
  path_size = b.sized.0;
  payload_len_in = b.payload_in;
  payload_size = b.sized.1;
}

-- Whatever pkt_parse accepts is a valid packet.
pub parse-IsValid : (src : List ℕ) (p : Packet) → All IsByte src → parse src ≡ ok p → IsValid p
parse-IsValid src p h e = elim (parse-Accepted src p e) [
  | inl (_, _, b) ↦
      IsBodyOf-IsValid src 5 (coded src) p h (get_or-IsByte src 0 h)
        (rd_u16le-lt (drop 1 src) (drop-IsByte 1 src h))
        (rd_u16le-lt (drop 3 src) (drop-IsByte 3 src h)) b
  | inr (_, _, b) ↦
      IsBodyOf-IsValid src 1 (headed src) p h (get_or-IsByte src 0 h) (omega arith) (omega arith) b
]

-- The tests on the header read the header alone.
pub codes_of_header :
    (p q : Packet) → q.header ≡ p.header → has_transport_codes q ≡ has_transport_codes p
unfolding has_transport_codes
codes_of_header p q e = rw e

framed : ℕ → Bool → ℕ → ℕ → List ℕ → List ℕ
framed h t c0 c1 rest = h ∷ ((if t then wr_u16le c0 ++ wr_u16le c1 else []) ++ rest)

framed_cong :
    {h h' c0 c0' c1 c1' : ℕ} {t t' : Bool} {r r' : List ℕ}
    → h ≡ h'
    → t ≡ t'
    → c0 ≡ c0'
    → c1 ≡ c1'
    → r ≡ r'
    → framed h t c0 c1 r ≡ framed h' t' c0' c1' r'
framed_cong a b c d e = λ i. framed (a i) (b i) (c i) (d i) (e i)

wire-plain :
    (src : List ℕ) (p : Packet)
    → 2 ≤ length src
    → has_transport_codes (headed src) ≡ false
    → IsBodyOf src 1 (headed src) p
    → wire p ≡ src
unfolding framed
wire-plain (a ∷ src) p h t b =
    framed_cong b.header_kept (codes_of_header (headed (a ∷ src)) p b.header_kept ∙ t) b.code_0_kept
      b.code_1_kept b.rest_read
wire-plain [] p h t b = absurd (omega arith)

framed_codes :
    (src : List ℕ)
    → All IsByte src
    → 5 ≤ length src
    → framed (get_or src 0 0) true (rd_u16le (drop 1 src)) (rd_u16le (drop 3 src)) (drop 5 src)
      ≡ src
unfolding framed rd_u16le wr_u16le
framed_codes [] h l = absurd (omega arith)
framed_codes (a ∷ []) h l = absurd (omega arith)
framed_codes (a ∷ (b ∷ [])) h l = absurd (omega arith)
framed_codes (a ∷ (b ∷ (c ∷ []))) h l = absurd (omega arith)
framed_codes (a ∷ (b ∷ (c ∷ (d ∷ [])))) h l = absurd (omega arith)
framed_codes (a ∷ (b ∷ (c ∷ (d ∷ (f ∷ src))))) h l = ground arith

wire-coded :
    (src : List ℕ) (p : Packet)
    → All IsByte src
    → 5 ≤ length src
    → has_transport_codes (headed src) ≡ true
    → IsBodyOf src 5 (coded src) p
    → wire p ≡ src
unfolding framed
wire-coded src p h l t b =
    framed_cong b.header_kept
      (codes_of_header (coded src) p b.header_kept
        ∙ codes_of_header (headed src) (coded src) refl
        ∙ t)
      b.code_0_kept b.code_1_kept b.rest_read
    ∙ framed_codes src h l

-- Whatever pkt_parse accepts, pkt_serialize writes back byte for byte.
pub serialize-parse :
    (src : List ℕ) (p : Packet)
    → All IsByte src
    → parse src ≡ ok p
    → serialize p max_trans_unit ≡ ok src
serialize-parse src p h e =
    serialize_total p (parse-IsValid src p h e)
    ∙ ap ok (elim (parse-Accepted src p e) [
      | inl (t, l, b) ↦ wire-coded src p h l t b
      | inr (t, l, b) ↦ wire-plain src p l t b
    ])
