-- ===== src/Mesh/Tests/Texts.antt =====
-- src/mesh.c: a concrete group text.
use meshcore_repeater.Common.{◌≡◌, refl, All, Result, ok, err, arith}
use meshcore_repeater.Common.Text.{codes}
use meshcore_repeater.Util.Endian.{IsByte, wr_u32le}
use meshcore_repeater.Crypto.Tests.{toy_crypto, toy_crypto-CipherLaws}
use meshcore_repeater.Packet.{Packet}
use meshcore_repeater.Packet.Codec.{zero_packet}
use meshcore_repeater.Mesh.Channel.{grp_plain, channel_build_txt}
use meshcore_repeater.Mesh.Channel.Agree.{ReadsAs, channel_build_txt-ReadsAs}
use meshcore_repeater.Mesh.Samples.{sample_channel}

abbrev packet_of : Result Packet → Packet
packet_of (ok p) = p
packet_of (err n) = zero_packet

abbrev ping_packet : Packet
ping_packet =
    packet_of
      (channel_build_txt toy_crypto sample_channel (codes "YO6XYZ") (codes "ping") 1_700_000_000 1)

ping_built :
    channel_build_txt toy_crypto sample_channel (codes "YO6XYZ") (codes "ping") 1_700_000_000 1
    ≡ ok ping_packet
unfolding channel_build_txt grp_plain wr_u32le
ping_built = refl

sender_bytes : All IsByte (codes "YO6XYZ")
sender_bytes = omega arith

text_bytes : All IsByte (codes "ping")
text_bytes = omega arith

-- channel_build_txt-ReadsAs, for a "ping".
channel_build_txt-ReadsAs_example :
    ReadsAs toy_crypto sample_channel ping_packet
      (grp_plain (codes "YO6XYZ") (codes "ping") 1_700_000_000)
channel_build_txt-ReadsAs_example =
    channel_build_txt-ReadsAs toy_crypto sample_channel (codes "YO6XYZ") (codes "ping")
      1_700_000_000 1 ping_packet toy_crypto-CipherLaws sender_bytes text_bytes ping_built
