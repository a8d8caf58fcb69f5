-- ===== src/Packet/Tests.antt =====
-- src/packet.c: concrete packets and frames.
use meshcore_repeater.Common.{ℕ, ◌≡◌, refl, List, [], ◌∷◌, All, ok, arith, length, write_at}
use meshcore_repeater.Packet.{
  Packet, IsValid, max_trans_unit, valid_path_len, has_transport_codes, path_byte_len,
}
use meshcore_repeater.Packet.Codec.{
  zero_packet, zero_path, zero_payload, parse, parse_path, parse_body, serialize, raw_length,
}
use meshcore_repeater.Packet.Body.{wire, serialize_total, length-serialize}
use meshcore_repeater.Packet.RoundTrip.{parse-IsValid, serialize-parse}
use meshcore_repeater.Packet.Transfer.{received, parse-serialize}
use meshcore_repeater.Util.Endian.{IsByte}

-- A flood with one two-byte hop and three bytes of payload.
abbrev frame : List ℕ
frame = 17 ∷ 65 ∷ 170 ∷ 187 ∷ 1 ∷ 2 ∷ 3 ∷ []

frame_bytes : All IsByte frame
frame_bytes = omega arith

abbrev packet : Packet
packet = record zero_packet {
  header = 17;
  path_len = 65;
  path = write_at 0 (170 ∷ 187 ∷ []) zero_path;
  payload_len = 3;
  payload = write_at 0 (1 ∷ 2 ∷ 3 ∷ []) zero_payload;
}

parsed : parse frame ≡ ok packet
unfolding parse parse_path parse_body has_transport_codes valid_path_len path_byte_len
parsed = refl

parse-IsValid_example : IsValid packet
parse-IsValid_example = parse-IsValid frame packet frame_bytes parsed

serialize-parse_example : serialize packet max_trans_unit ≡ ok frame
serialize-parse_example = serialize-parse frame packet frame_bytes parsed

packet-IsValid : IsValid packet
unfolding valid_path_len zero_path zero_payload
packet-IsValid = record {
  header_in = omega arith;
  code_0_in = omega arith;
  code_1_in = omega arith;
  path_len_in = omega arith;
  path_len_ok = refl;
  path_size = refl;
  payload_len_in = omega arith;
  payload_size = refl;
}

written : serialize packet max_trans_unit ≡ ok frame
unfolding serialize has_transport_codes valid_path_len path_byte_len
written = refl

serialize_total_example : serialize packet max_trans_unit ≡ ok (wire packet)
serialize_total_example = serialize_total packet packet-IsValid

parse-serialize_example : parse frame ≡ ok (received packet)
parse-serialize_example = parse-serialize packet packet-IsValid written

length-serialize_example : length frame ≡ raw_length packet
length-serialize_example = length-serialize packet packet-IsValid written
