-- ===== src/Packet/Transfer.antt =====
-- src/packet.c: what a receiver's pkt_parse makes of a packet that a sender serialised.
use meshcore_repeater.Common.{
  ℕ, suc, ◌+◌, ◌-◌, ◌≤◌, ◌≡◌, refl, sym, ap, ◌∙◌, Bool, true, false, List, [], ◌∷◌, ◌++◌, ◌==◌,
  length, get_or, take, drop, write_at, if◌then◌else◌, ok_inj, ok, arith, length-append,
  length-take, length-drop, take-append, take_all, drop-drop, drop-append, le→ltb_false,
}
use native.Mathlib.Numerals.{add-one}
use meshcore_repeater.Util.Endian.{rd_u16le, wr_u16le, rd_u16le-wr_u16le}
use meshcore_repeater.Packet.{Packet, IsValid, max_trans_unit, has_transport_codes, path_byte_len}
use meshcore_repeater.Packet.Codec.{zero_packet, parse_body, parse_path, parse, serialize}
use meshcore_repeater.Packet.RoundTrip.{headed, coded, codes_of_header}
use meshcore_repeater.Packet.Body.{serialize_total, body, drop-cons, path_byte_len-le}

-- The packet with what the wire does not carry reset: the unused ends of the arrays, the codes of
-- a route without them, and the receiver's measurements.
abbrev pub received : Packet → Packet
received p = record zero_packet {
  header = p.header;
  transport_code_0 = if has_transport_codes p then p.transport_code_0 else 0;
  transport_code_1 = if has_transport_codes p then p.transport_code_1 else 0;
  path_len = p.path_len;
  path = write_at 0 (take (path_byte_len p) p.path) zero_packet.path;
  payload_len = p.payload_len;
  payload = write_at 0 (take p.payload_len p.payload) zero_packet.payload;
  marked_dnr = p.header == 0xff;
}

abbrev path_bytes : Packet → List ℕ
path_bytes p = take (path_byte_len p) p.path

abbrev payload_bytes : Packet → List ℕ
payload_bytes p = take p.payload_len p.payload

length-path_bytes : (p : Packet) → IsValid p → path_byte_len p ≡ length (path_bytes p)
length-path_bytes p v =
    omega (arith, length-take (path_byte_len p) p.path, path_byte_len-le p v.path_len_ok, v)

length-payload_bytes : (p : Packet) → IsValid p → p.payload_len ≡ length (payload_bytes p)
length-payload_bytes p v = omega (arith, length-take p.payload_len p.payload, v)

head_cong : {x y : ℕ} {xs ys : List ℕ} → x ∷ xs ≡ y ∷ ys → x ≡ y
head_cong e = cc

tail_cong : {x y : ℕ} {xs ys : List ℕ} → x ∷ xs ≡ y ∷ ys → xs ≡ ys
tail_cong e = cc

-- The source buffer holds the path byte and the body from index `i` on.
module _ (p : Packet) (v : IsValid p) (src : List ℕ) (i : ℕ)
    (at : drop i src ≡ p.path_len ∷ body p) where
  length_src : i + 1 + path_byte_len p + p.payload_len ≡ length src
  length_src = omega (
    arith,
    ap (λ (xs : List ℕ). length xs) at,
    length-drop i src,
    length-append (path_bytes p) (payload_bytes p),
    length-path_bytes p v,
    length-payload_bytes p v,
  )

  byte_and_rest : get_or src i 0 ∷ drop (suc i) src ≡ p.path_len ∷ body p
  byte_and_rest = sym (drop-cons i src (omega (arith, length_src))) ∙ at

  body_read : drop (i + 1) src ≡ body p
  body_read = ap (λ (k : ℕ). drop k src) (add-one i) ∙ tail_cong byte_and_rest

  path_read : take (path_byte_len p) (drop (i + 1) src) ≡ path_bytes p
  path_read =
      rw body_read
        (take-append (path_byte_len p) (path_bytes p) (payload_bytes p) (length-path_bytes p v))

  payload_read : drop (i + 1 + path_byte_len p) src ≡ payload_bytes p
  payload_read =
      sym (drop-drop (path_byte_len p) (i + 1) src)
      ∙ ap (drop (path_byte_len p)) body_read
      ∙ drop-append (path_byte_len p) (path_bytes p) (payload_bytes p) (length-path_bytes p v)

  payload_taken : take p.payload_len (drop (i + 1 + path_byte_len p) src) ≡ payload_bytes p
  payload_taken =
      rw payload_read
        (take_all p.payload_len (payload_bytes p) (omega (arith, length-payload_bytes p v)))

  -- What the parser adds to the packet that it has so far.
  abbrev grown : Packet → Packet
  grown q = record q {
    path_len = p.path_len;
    path = write_at 0 (path_bytes p) q.path;
    payload_len = p.payload_len;
    payload = write_at 0 (payload_bytes p) q.payload;
  }

  left_over : length src - (i + 1 + path_byte_len p) ≡ p.payload_len
  left_over = omega (arith, length_src)

  parse_body-wire :
      (q : Packet) → parse_body src (i + 1) (record q { path_len = p.path_len }) ≡ ok (grown q)
  unfolding parse_body path_byte_len
  parse_body-wire q = rw (
    left_over,
    le→ltb_false (length src) (i + 1 + path_byte_len p) (omega (arith, length_src)),
    le→ltb_false 184 p.payload_len v.payload_len_in,
    path_read,
    payload_taken,
  )

  parse_path-wire : (q : Packet) → parse_path src i q ≡ ok (grown q)
  unfolding parse_path
  parse_path-wire q =
      ground (arith, length_src, head_cong byte_and_rest, v.path_len_ok, parse_body-wire q)

parse_plain :
    (src : List ℕ) {q : Packet}
    → has_transport_codes (headed src) ≡ false
    → 2 ≤ length src
    → length src ≤ 255
    → parse_path src 1 (headed src) ≡ ok q
    → parse src ≡ ok q
unfolding parse
parse_plain src t l m e = ground arith

parse-coded :
    (src : List ℕ) {q : Packet}
    → has_transport_codes (headed src) ≡ true
    → 5 ≤ length src
    → length src ≤ 255
    → parse_path src 5 (coded src) ≡ ok q
    → parse src ≡ ok q
unfolding parse
parse-coded src t l m e = ground arith

-- The wire image by the test on the header.
abbrev wire_if : Bool → Packet → List ℕ
wire_if t p =
    p.header
    ∷ ((if t then wr_u16le p.transport_code_0 ++ wr_u16le p.transport_code_1 else [])
        ++ (p.path_len ∷ body p))

abbrev received_if : Bool → Packet → Packet
received_if t p = record (received p) {
  transport_code_0 = if t then p.transport_code_0 else 0;
  transport_code_1 = if t then p.transport_code_1 else 0;
}

length-body : (p : Packet) → IsValid p → length (body p) ≤ 248
length-body p v = omega (
  arith,
  length-append (path_bytes p) (payload_bytes p),
  length-path_bytes p v,
  length-payload_bytes p v,
  path_byte_len-le p v.path_len_ok,
  v.payload_len_in,
)

parse-wire_if :
    (t : Bool) (p : Packet)
    → IsValid p
    → has_transport_codes p ≡ t
    → parse (wire_if t p) ≡ ok (received_if t p)
unfolding rd_u16le wr_u16le
parse-wire_if false p v e =
    parse_plain (wire_if false p) (codes_of_header p (headed (wire_if false p)) refl ∙ e)
      (omega arith) (omega (arith, length-body p v))
      (parse_path-wire p v (wire_if false p) 1 refl (headed (wire_if false p)))
parse-wire_if true p v e =
    parse-coded (wire_if true p) (codes_of_header p (headed (wire_if true p)) refl ∙ e)
      (omega arith) (omega (arith, length-body p v))
      (parse_path-wire p v (wire_if true p) 5 refl (coded (wire_if true p)) ∙ (λ k.
        ok (record (received_if true p) {
          transport_code_0 = rd_u16le-wr_u16le p.transport_code_0 v.code_0_in k;
          transport_code_1 = rd_u16le-wr_u16le p.transport_code_1 v.code_1_in k;
        })))

-- A receiver's pkt_parse of what pkt_serialize wrote for a valid packet gives that packet back, with
-- the unused ends of the arrays, the codes of a route that has none and the measurements reset.
pub parse-serialize :
    (p : Packet) {raw : List ℕ}
    → IsValid p
    → serialize p max_trans_unit ≡ ok raw
    → parse raw ≡ ok (received p)
parse-serialize p v e =
    rw (← ok_inj (sym (serialize_total p v) ∙ e)) (parse-wire_if (has_transport_codes p) p v refl)
