-- ===== src/Mesh/Samples.antt =====
-- Concrete nodes, clocks and frames for the tests of src/mesh.c.
use meshcore_repeater.Common.{ℕ, ◌*◌, true, false, List, [], ◌∷◌, replicate, pos, refl, arith}
use meshcore_repeater.Common.Text.{codes}
use meshcore_repeater.Crypto.Tests.{toy_crypto}
use meshcore_repeater.Identity.{Identity}
use meshcore_repeater.Config.{Config, repeater, hotspot, Channel, no_policy}
use meshcore_repeater.Packet.{Packet, IsValid, valid_path_len}
use meshcore_repeater.Packet.Codec.{zero_packet, zero_path, zero_payload}
use meshcore_repeater.Mesh.State.{Env, Mesh, mesh_init}

abbrev pub sample_env : Env
sample_env = record {
  crypto = toy_crypto;
  millis = 5000;
  unix = 1_700_000_000;
  airtime = λ n. n * 8;
  utc_date = λ t. (2023, 11, 14);
}

abbrev pub sample_id : Identity
sample_id = record {
  public_key = 7 ∷ 8 ∷ 9 ∷ replicate 29 1;
  secret_key = replicate 64 2;
  has_secret = true;
}

abbrev pub sample_channel : Channel
sample_channel = record {
  name = codes "#test";
  secret = replicate 32 0;
  secret_len = 16;
  hash = 217;
  derived = true;
  hub = false;
}

abbrev pub sample_config : Config
sample_config = record {
  name = codes "YO6XYZ";
  tx_power = pos 22;
  use_cad = true;
  has_location = false;
  latitude = pos 0;
  longitude = pos 0;
  forward = true;
  ping_pong = true;
  ping_channel = codes "#test";
  probe_allow = [];
  mbox_enable = false;
  timeofday_enable = false;
  public_channels = sample_channel ∷ [];
  rooms = [];
  backbone_policy = false;
  policy = no_policy;
  policy_rooms = 0;
  policy_skipped = 0;
  blacklist = [];
  role = repeater;
  affinity = [];
  home = codes "YO6*" ∷ [];
  hotspot_power_high = pos 22;
  hotspot_power_low = pos 2;
  hotspot_awake = 600;
}

abbrev pub sample_node : Mesh
sample_node = mesh_init sample_id sample_config 0 12345

-- A hotspot that has heard no companion.
abbrev pub silent_node : Mesh
silent_node = mesh_init sample_id (record sample_config { role = hotspot }) 0 12345

-- A flooded advert that nobody has relayed yet.
abbrev pub advert_frame : List ℕ
advert_frame = 17 ∷ 0 ∷ replicate 101 0

-- A private text message in a flood.
abbrev pub private_frame : List ℕ
private_frame = 9 ∷ 0 ∷ replicate 20 5

abbrev pub sample_packet : Packet
sample_packet = record zero_packet { header = 17; payload_len = 101 }

pub sample_packet-IsValid : IsValid sample_packet
unfolding valid_path_len zero_path zero_payload
sample_packet-IsValid = record {
  header_in = omega arith;
  code_0_in = omega arith;
  code_1_in = omega arith;
  path_len_in = omega arith;
  path_len_ok = refl;
  path_size = refl;
  payload_len_in = omega arith;
  payload_size = refl;
}

-- A flood at the sixty-third one-byte hop.
abbrev pub far_packet : Packet
far_packet = record sample_packet { path_len = 63 }

pub far_packet-IsValid : IsValid far_packet
unfolding valid_path_len zero_path zero_payload
far_packet-IsValid = record {
  header_in = omega arith;
  code_0_in = omega arith;
  code_1_in = omega arith;
  path_len_in = omega arith;
  path_len_ok = refl;
  path_size = refl;
  payload_len_in = omega arith;
  payload_size = refl;
}
