-- ===== src/Advert.antt =====
-- src/advert.h and src/advert.c: building, reading and verifying signed advertisements.
pub mod Signed
mod Tests
use meshcore_repeater.Common.{
  ℕ, ◌+◌, ◌-◌, ◌/◌, ◌%◌, ◌^◌, Bool, not, ◌&&◌, ◌||◌, List, [], ◌∷◌, ◌++◌, Option, none, some, ◌==◌,
  ltb, if◌then◌else◌, length, take, drop, get_or, write_at, ℤ, Result, ok, err,
}
use Prim.Native.Nat.{min}
use meshcore_repeater.Common.Int.{to_word, of_word}
use meshcore_repeater.Common.Text.{is_empty, cstr}
use meshcore_repeater.Util.Endian.{rd_u32le, wr_u32le}
use meshcore_repeater.Crypto.{Crypto}
use meshcore_repeater.Identity.{Identity, identity_sign, identity_verify}
use meshcore_repeater.Packet.{Packet, payload_advert, payload_type, route_flood, make_header}
use meshcore_repeater.Packet.Codec.{zero_packet, zero_payload}

abbrev pub adv_type_chat : ℕ
adv_type_chat = 1

abbrev pub adv_type_repeater : ℕ
adv_type_repeater = 2

-- ADV_DATA_OFF: public key, timestamp, signature.
abbrev pub adv_data_off : ℕ
adv_data_off = 100

abbrev pub max_advert_data : ℕ
max_advert_data = 32

-- `mc_advert_info_t`; the position is rounded to millionths of a degree, and a missing name is
-- the empty one.
pub record AdvertInfo : Type 0 where
  pub type : ℕ
  pub has_location : Bool
  pub latitude : ℤ
  pub longitude : ℤ
  pub name : List ℕ

-- One flag bit of a byte.
abbrev pub has_bit : ℕ → ℕ → Bool
has_bit flags k = flags / 2 ^ k % 2 == 1

-- The flags, the position, and as much of the name as there is room for.
unfoldable pub encode_app_data : AdvertInfo → List ℕ
encode_app_data info =
    let place =
      if info.has_location
      then wr_u32le (to_word (2 ^ 32) info.latitude) ++ wr_u32le (to_word (2 ^ 32) info.longitude)
      else [] in
    let name = take (max_advert_data - (1 + length place)) info.name in
    let flags =
      info.type % 16
      + (if info.has_location then 2 ^ 4 else 0)
      + (if is_empty name then 0 else 2 ^ 7) in
    flags ∷ (place ++ name)

-- What is signed.
abbrev pub signed_message : List ℕ → ℕ → List ℕ → List ℕ
signed_message public_key timestamp app_data = public_key ++ (wr_u32le timestamp ++ app_data)

-- The payload's parts follow one another at offsets 0, 32, 36 and 100.
unfoldable pub advert_build : Crypto → Identity → AdvertInfo → ℕ → Result Packet
advert_build c id info timestamp =
    if not id.has_secret
    then err 1
    else let app_data = encode_app_data info in
      elim (identity_sign c id (signed_message id.public_key timestamp app_data)) [
        | none ↦ err 2
        | some sig ↦ ok (record zero_packet {
          header = make_header 0 payload_advert route_flood;
          payload =
              write_at 0 (id.public_key ++ (wr_u32le timestamp ++ (sig ++ app_data))) zero_payload;
          payload_len = adv_data_off + length app_data;
        })
      ]

-- The application data of an advert.
abbrev pub app_data_of : Packet → List ℕ
app_data_of p = drop adv_data_off (take p.payload_len p.payload)

-- Where the name starts, after the optional fields.
unfoldable pub name_offset : ℕ → ℕ
name_offset flags =
    1
    + (if has_bit flags 4 then 8 else 0)
    + (if has_bit flags 5 then 2 else 0)
    + (if has_bit flags 6 then 2 else 0)

-- The type and the name, as the string that the name buffer of `namesz` bytes then holds. `none`
-- is -1, after which the name buffer holds the empty string.
unfoldable pub advert_extract : Packet → ℕ → Option (ℕ × List ℕ)
unfolding name_offset
advert_extract p namesz =
    let app = app_data_of p in
    if ltb p.payload_len adv_data_off
    then none
    else if p.payload_len - adv_data_off == 0
    then none
    else let flags = get_or app 0 0 in
      let i = name_offset flags in
      let app_len = p.payload_len - adv_data_off in
      some (
        flags % 16,
        if has_bit flags 7 && ltb 0 namesz && ltb i app_len
            then cstr (take (min (app_len - i) (namesz - 1)) (drop i app))
            else [],
      )

-- The position in millionths of a degree.
unfoldable pub advert_extract_location : Packet → Option (ℤ × ℤ)
advert_extract_location p =
    let app = app_data_of p in
    if ltb p.payload_len adv_data_off
    then none
    else if ltb (p.payload_len - adv_data_off) 9 || not (has_bit (get_or app 0 0) 4)
    then none
    else some (of_word (2 ^ 32) (rd_u32le (drop 1 app)), of_word (2 ^ 32) (rd_u32le (drop 5 app)))

-- The advertiser's public key, if the signature over it, the timestamp and the first 32 bytes of
-- the application data is good.
unfoldable pub advert_verify : Crypto → Packet → Option (List ℕ)
advert_verify c p =
    if not (payload_type p == payload_advert)
    then none
    else if ltb p.payload_len adv_data_off
    then none
    else let public_key = take 32 p.payload in
      let timestamp = rd_u32le (drop 32 p.payload) in
      let sig = take 64 (drop 36 p.payload) in
      let app_data = take max_advert_data (app_data_of p) in
      if identity_verify c public_key sig (signed_message public_key timestamp app_data)
      then some public_key
      else none
