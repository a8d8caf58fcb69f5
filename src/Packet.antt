-- ===== src/Packet.antt =====
-- src/packet.h: the in-memory packet, its header byte and its path byte. The children model
-- src/packet.c. Masks and shifts of a byte are written as remainders and quotients.
pub mod Codec
pub mod Body
pub mod Transfer
mod Tests
pub mod RoundTrip
use meshcore_repeater.Common.{
  ℕ, ◌+◌, ◌*◌, ◌/◌, ◌%◌, ◌^◌, ◌≤◌, ◌<◌, ◌≡◌, Bool, true, false, not, ◌||◌, List, ◌==◌, leb, length,
  ℤ, if◌then◌else◌,
}
use meshcore_repeater.Util.Endian.{IsByte}

abbrev pub max_packet_payload : ℕ
max_packet_payload = 184

abbrev pub max_path_size : ℕ
max_path_size = 64

abbrev pub max_trans_unit : ℕ
max_trans_unit = 255

abbrev pub max_hash_size : ℕ
max_hash_size = 8

-- `mc_packet_t`. `path` and `payload` are the whole arrays, 64 and 184 bytes long.
pub record Packet : Type 0 where
  pub header : ℕ
  pub transport_code_0 : ℕ
  pub transport_code_1 : ℕ
  pub path_len : ℕ
  pub path : List ℕ
  pub payload_len : ℕ
  pub payload : List ℕ
  pub rssi_dbm : ℤ
  pub snr_q : ℤ
  pub marked_dnr : Bool

abbrev pub route_transport_flood : ℕ
route_transport_flood = 0

abbrev pub route_flood : ℕ
route_flood = 1

abbrev pub route_direct : ℕ
route_direct = 2

abbrev pub route_transport_direct : ℕ
route_transport_direct = 3

abbrev pub payload_req : ℕ
payload_req = 0

abbrev pub payload_response : ℕ
payload_response = 1

abbrev pub payload_txt_msg : ℕ
payload_txt_msg = 2

abbrev pub payload_advert : ℕ
payload_advert = 4

abbrev pub payload_grp_txt : ℕ
payload_grp_txt = 5

abbrev pub payload_grp_data : ℕ
payload_grp_data = 6

abbrev pub payload_anon_req : ℕ
payload_anon_req = 7

abbrev pub payload_path : ℕ
payload_path = 8

abbrev pub payload_trace : ℕ
payload_trace = 9

unfoldable pub route_type : Packet → ℕ
route_type p = p.header % 4

unfoldable pub payload_type : Packet → ℕ
payload_type p = p.header / 2 ^ 2 % 16

unfoldable pub make_header : ℕ → ℕ → ℕ → ℕ
make_header ver type route = route % 4 + type % 16 * 2 ^ 2 + ver % 4 * 2 ^ 6

-- Bit 1 of the route type is clear.
unfoldable pub is_route_flood : Packet → Bool
unfolding route_type
is_route_flood p = route_type p / 2 % 2 == 0

unfoldable pub is_route_direct : Packet → Bool
unfolding route_type
is_route_direct p = not (route_type p / 2 % 2 == 0)

unfoldable pub has_transport_codes : Packet → Bool
unfolding route_type
has_transport_codes p =
    route_type p == route_transport_flood || route_type p == route_transport_direct

unfoldable pub path_hash_count : Packet → ℕ
path_hash_count p = p.path_len % 64

unfoldable pub path_hash_size : Packet → ℕ
path_hash_size p = p.path_len / 2 ^ 6 + 1

unfoldable pub path_byte_len : Packet → ℕ
unfolding path_hash_count path_hash_size
path_byte_len p = path_hash_count p * path_hash_size p

-- `(path_len & 0xC0) | (n & 0x3F)`.
unfoldable pub set_path_hash_count : Packet → ℕ → Packet
set_path_hash_count p n = record p { path_len = p.path_len / 2 ^ 6 * 2 ^ 6 + n % 64 }

unfoldable pub valid_path_len : ℕ → Bool
valid_path_len path_len =
    let hash_count = path_len % 64 in
    let hash_size = path_len / 2 ^ 6 + 1 in
    if hash_size == 4 then false else leb (hash_count * hash_size) max_path_size

-- The arrays have their C sizes, every field fits its C type, and the lengths are those that the
-- parser and the serialiser allow.
pub record IsValid (p : Packet) : Type 0 where
  pub header_in : IsByte p.header
  pub code_0_in : p.transport_code_0 < 2 ^ 16
  pub code_1_in : p.transport_code_1 < 2 ^ 16
  pub path_len_in : IsByte p.path_len
  pub path_len_ok : valid_path_len p.path_len ≡ true
  pub path_size : length p.path ≡ max_path_size
  pub payload_len_in : p.payload_len ≤ max_packet_payload
  pub payload_size : length p.payload ≡ max_packet_payload
