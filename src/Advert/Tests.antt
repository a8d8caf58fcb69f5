-- ===== src/Advert/Tests.antt =====
-- src/advert.c: a concrete advert.
use meshcore_repeater.Common.{◌≡◌, refl, true, replicate, some, pos, Result, ok, err, arith}
use meshcore_repeater.Common.Text.{codes}
use meshcore_repeater.Crypto.Tests.{toy_crypto, toy_crypto-SignLaws}
use meshcore_repeater.Identity.{Identity, identity_sign}
use meshcore_repeater.Packet.{Packet}
use meshcore_repeater.Packet.Codec.{zero_packet}
use meshcore_repeater.Util.Endian.{wr_u32le}
use meshcore_repeater.Advert.{
  AdvertInfo, adv_type_repeater, encode_app_data, advert_build, advert_verify,
}
use meshcore_repeater.Identity.File.{mc_identity_generate}
use meshcore_repeater.Advert.Signed.{
  IsKeyPair, mc_identity_generate-IsKeyPair, advert_build-advert_verify,
}

abbrev node : Identity
node = mc_identity_generate toy_crypto (replicate 32 2)

-- A repeater near Brasov.
abbrev info : AdvertInfo
info = record {
  type = adv_type_repeater;
  has_location = true;
  latitude = pos 45_657_000;
  longitude = pos 25_601_000;
  name = codes "YO6XYZ";
}

abbrev packet_of : Result Packet → Packet
packet_of (ok p) = p
packet_of (err n) = zero_packet

abbrev advert : Packet
advert = packet_of (advert_build toy_crypto node info 1_700_000_000)

built : advert_build toy_crypto node info 1_700_000_000 ≡ ok advert
unfolding advert_build identity_sign encode_app_data wr_u32le mc_identity_generate
built = refl

node-IsKeyPair : IsKeyPair toy_crypto node
node-IsKeyPair = mc_identity_generate-IsKeyPair toy_crypto (replicate 32 2) toy_crypto-SignLaws refl

-- advert_build-advert_verify, for a repeater's advert.
advert_build-advert_verify_example : advert_verify toy_crypto advert ≡ some node.public_key
advert_build-advert_verify_example =
    advert_build-advert_verify toy_crypto node info 1_700_000_000 advert toy_crypto-SignLaws
      node-IsKeyPair (omega arith) built
