-- ===== src/Config.antt =====
-- src/config.h and src/config.c: the settings that the mesh reads, and the name lists. An array
-- with its count is the list of the entries in use.
pub mod Lists
pub mod Rooms
pub mod Merge
pub mod Tests
use meshcore_repeater.Common.{
  ℕ, ◌+◌, ◌-◌, ◌<◌, ◌≡◌, Bool, true, false, ◌&&◌, ◌||◌, List, [], ◌∷◌, ◌==◌, leb, ltb,
  if◌then◌else◌, length, take, get_or, bytes_eq, ℤ,
}
use meshcore_repeater.Common.Text.{strcasecmp_eq, strncasecmp_eq, is_empty}

pub data Role : Type 0 where
  repeater hotspot : Role

-- `mc_pub_channel_t`: the secret is 32 bytes, zero-padded.
pub record Channel : Type 0 where
  pub name : List ℕ
  pub secret : List ℕ
  pub secret_len : ℕ
  pub hash : ℕ
  pub derived : Bool
  pub hub : Bool

-- A `#room` region with its 16-byte key: one index of `rooms`, `room_key` and `room_hub`.
pub record Room : Type 0 where
  pub room : List ℕ
  pub key : List ℕ
  pub hub : Bool

-- `mc_policy_t`: what the hub sent as one set.
pub record Policy : Type 0 where
  pub version : ℕ
  pub rooms : List (List ℕ)
  pub names : List (List ℕ)
  pub keys : List (List ℕ)
  pub skipped : ℕ

-- The position is the advertised one, in millionths of a degree.
pub record Config : Type 0 where
  pub name : List ℕ
  pub tx_power : ℤ
  pub use_cad : Bool
  pub has_location : Bool
  pub latitude : ℤ
  pub longitude : ℤ
  pub forward : Bool
  pub ping_pong : Bool
  pub ping_channel : List ℕ
  pub probe_allow : List (List ℕ)
  pub mbox_enable : Bool
  pub timeofday_enable : Bool
  pub public_channels : List Channel
  pub rooms : List Room
  pub backbone_policy : Bool
  pub policy : Policy
  pub policy_rooms : ℕ
  pub policy_skipped : ℕ
  pub blacklist : List (List ℕ)
  pub role : Role
  pub affinity : List (List ℕ)
  pub home : List (List ℕ)
  pub hotspot_power_high : ℤ
  pub hotspot_power_low : ℤ
  pub hotspot_awake : ℕ

-- A zeroed `mc_policy_t`.
abbrev pub no_policy : Policy
no_policy = record { version = 0; rooms = []; names = []; keys = []; skipped = 0 }

abbrev pub is_hotspot : Role → Bool
is_hotspot repeater = false
is_hotspot hotspot = true

-- A trailing '*' makes the pattern a prefix.
unfoldable pub config_name_matches : List ℕ → List ℕ → Bool
config_name_matches pattern name =
    let pl = length pattern in
    if ltb 0 pl && get_or pattern (pl - 1) 0 == b'*'
    then strncasecmp_eq (pl - 1) pattern name
    else strcasecmp_eq pattern name

unfoldable pub any_matches : List (List ℕ) → List ℕ → Bool
any_matches [] name = false
any_matches (p ∷ ps) name = config_name_matches p name || any_matches ps name

unfoldable pub config_is_home : Config → List ℕ → Bool
config_is_home cfg name = if is_empty name then false else any_matches cfg.home name

unfoldable pub config_probe_allowed : Config → List ℕ → Bool
config_probe_allowed cfg name = if is_empty name then false else any_matches cfg.probe_allow name

unfoldable pub config_is_affinity : Config → List ℕ → Bool
config_is_affinity cfg name = if is_empty name then false else any_matches cfg.affinity name

-- config_ascii_eq folds A-Z only, as strcasecmp does in the POSIX locale.
unfoldable pub config_ascii_eq : List ℕ → List ℕ → Bool
config_ascii_eq [] [] = true
config_ascii_eq [] (y ∷ ys) = false
config_ascii_eq (x ∷ xs) [] = false
config_ascii_eq (x ∷ xs) (y ∷ ys) =
    let fold = λ (c : ℕ). if leb b'A' c && leb c b'Z' then c - b'A' + b'a' else c in
    if fold x == fold y then config_ascii_eq xs ys else false

unfoldable pub any_equal : (List ℕ → List ℕ → Bool) → List (List ℕ) → List ℕ → Bool
any_equal eq [] name = false
any_equal eq (x ∷ xs) name = eq x name || any_equal eq xs name

unfoldable pub config_is_blacklisted : Config → List ℕ → Bool
config_is_blacklisted cfg name =
    if is_empty name
    then false
    else any_equal strcasecmp_eq cfg.blacklist name
      || (cfg.backbone_policy && any_equal config_ascii_eq cfg.policy.names name)

unfoldable pub config_is_key_blocked : Config → List ℕ → Bool
config_is_key_blocked cfg key = cfg.backbone_policy && any_equal bytes_eq cfg.policy.keys key
