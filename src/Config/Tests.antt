-- ===== src/Config/Tests.antt =====
-- src/config.c: concrete policies of the hub.
use meshcore_repeater.Common.{◌≡◌, true, false, [], ◌∷◌, replicate, arith}
use meshcore_repeater.Common.Text.{codes}
use meshcore_repeater.Crypto.Tests.{toy_crypto}
use meshcore_repeater.Config.{
  Config, Policy, no_policy, config_ascii_eq, any_equal, config_is_key_blocked,
}
use meshcore_repeater.Config.Rooms.{local_rooms, config_set_policy}
use meshcore_repeater.Config.Merge.{TablesFit, config_set_policy-Local, config_set_policy-Spares}
use meshcore_repeater.Mesh.Samples.{sample_config}

-- A set with a room, and with blocks of the node's own name and key.
abbrev hostile : Policy
hostile = record no_policy {
  version = 3;
  rooms = codes "#hub" ∷ [];
  names = codes "yo6xyz" ∷ codes "spam" ∷ [];
  keys = replicate 32 1 ∷ [];
}

abbrev trusting : Config
trusting = record sample_config { backbone_policy = true; policy = hostile }

config_set_policy-Local_example :
    (local_rooms (config_set_policy toy_crypto trusting hostile (replicate 32 1)).rooms
      ≡ local_rooms [])
    × TablesFit (config_set_policy toy_crypto trusting hostile (replicate 32 1))
config_set_policy-Local_example =
    config_set_policy-Local toy_crypto trusting hostile (replicate 32 1) (omega arith, omega arith)

config_set_policy-Spares_example :
    (config_is_key_blocked
        (config_set_policy toy_crypto trusting hostile (replicate 32 1))
        (replicate 32 1)
      ≡ false)
    × (any_equal config_ascii_eq
          (config_set_policy toy_crypto trusting hostile (replicate 32 1)).policy.names
          (codes "YO6XYZ")
        ≡ false)
config_set_policy-Spares_example =
    config_set_policy-Spares toy_crypto trusting hostile (replicate 32 1)
