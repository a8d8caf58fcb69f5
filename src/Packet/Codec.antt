-- ===== src/Packet/Codec.antt =====
-- src/packet.c: pkt_parse, pkt_raw_length, pkt_serialize and pkt_calc_hash.
use meshcore_repeater.Common.{
  ℕ, ◌+◌, ◌-◌, false, not, ◌||◌, List, [], ◌∷◌, ◌++◌, ◌==◌, ltb, leb, length, get_or, take, drop,
  replicate, write_at, pos, if◌then◌else◌, Result, ok, err,
}
use meshcore_repeater.Util.Endian.{rd_u16le, wr_u16le}
use meshcore_repeater.Packet.{
  Packet, max_packet_payload, max_trans_unit, max_hash_size, payload_trace, payload_type,
  has_transport_codes, path_byte_len, valid_path_len,
}

unfoldable pub zero_path : List ℕ
zero_path = replicate 64 0

unfoldable pub zero_payload : List ℕ
zero_payload = replicate 184 0

-- `memset(pkt, 0, sizeof *pkt)`.
abbrev pub zero_packet : Packet
zero_packet = record {
  header = 0;
  transport_code_0 = 0;
  transport_code_1 = 0;
  path_len = 0;
  path = zero_path;
  payload_len = 0;
  payload = zero_payload;
  rssi_dbm = pos 0;
  snr_q = pos 0;
  marked_dnr = false;
}

-- The path and the payload, from index `i` on.
unfoldable pub parse_body : List ℕ → ℕ → Packet → Result Packet
parse_body src i p =
    let pbl = path_byte_len p in
    let n = length src - (i + pbl) in
    if ltb (length src) (i + pbl)
    then err 5
    else if ltb max_packet_payload n
    then err 6
    else ok (record p {
      path = write_at 0 (take pbl (drop i src)) p.path;
      payload_len = n;
      payload = write_at 0 (take n (drop (i + pbl) src)) p.payload;
    })

-- The path byte at index `i`, and what follows.
unfoldable pub parse_path : List ℕ → ℕ → Packet → Result Packet
parse_path src i p =
    if leb (length src) i
    then err 3
    else if valid_path_len (get_or src i 0)
    then parse_body src (i + 1) (record p { path_len = get_or src i 0 })
    else err 4

unfoldable pub parse : List ℕ → Result Packet
parse src =
    if ltb (length src) 2 || ltb max_trans_unit (length src)
    then err 1
    else let header = get_or src 0 0 in
      let p = record zero_packet { header = header; marked_dnr = header == 0xff } in
      if has_transport_codes p
      then (if ltb (length src) (1 + 4)
          then err 2
          else parse_path src 5 (record p {
            transport_code_0 = rd_u16le (drop 1 src);
            transport_code_1 = rd_u16le (drop 3 src);
          }))
      else parse_path src 1 p

unfoldable pub raw_length : Packet → ℕ
raw_length p = 2 + path_byte_len p + p.payload_len + (if has_transport_codes p then 4 else 0)

-- The bytes written to `dest`.
unfoldable pub serialize : Packet → ℕ → Result (List ℕ)
unfolding raw_length
serialize p destsz =
    if ltb destsz (raw_length p) || ltb max_trans_unit (raw_length p)
    then err 1
    else if ltb max_packet_payload p.payload_len
    then err 2
    else if not (valid_path_len p.path_len)
    then err 3
    else let codes =
        if has_transport_codes p
        then wr_u16le p.transport_code_0 ++ wr_u16le p.transport_code_1
        else [] in
      let tail = take (path_byte_len p) p.path ++ take p.payload_len p.payload in
      ok (p.header ∷ (codes ++ (p.path_len ∷ tail)))

-- What pkt_calc_hash feeds to SHA-256: the type, for a trace its path byte as a u16, the payload.
unfoldable pub hash_input : Packet → List ℕ
hash_input p =
    let t = payload_type p in
    t ∷ ((if t == payload_trace then wr_u16le p.path_len else []) ++ take p.payload_len p.payload)

-- The dedup hash: the first 8 bytes of the digest. SHA-256 is a parameter.
unfoldable pub calc_hash : (List ℕ → List ℕ) → Packet → List ℕ
unfolding hash_input
calc_hash sha256 p = take max_hash_size (sha256 (hash_input p))
