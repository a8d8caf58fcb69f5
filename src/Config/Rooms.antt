-- ===== src/Config/Rooms.antt =====
-- src/config.c: the tables of public channels and rooms, and the hub's policy on top of them.
use meshcore_repeater.Common.{
  ℕ, zero, suc, ◌+◌, ◌-◌, Bool, true, false, not, ◌&&◌, ◌||◌, List, [], ◌∷◌, ◌++◌, ◌==◌, leb, ltb,
  if◌then◌else◌, length, take, get_or, bytes_eq, write_at, replicate, Option, none, some,
}
use meshcore_repeater.Common.Text.{is_empty, copy_str}
use meshcore_repeater.Util.Hex.{hex2bin}
use meshcore_repeater.Util.Base64.{base64_decode}
use meshcore_repeater.Crypto.{Crypto}
use meshcore_repeater.Config.{Config, Channel, Room, Policy, config_ascii_eq}
use meshcore_repeater.Config.Lists.{trim_name}

-- MC_MAX_PUBLIC_CHANNELS, MC_MAX_ROOMS, MC_ROOM_NAME_LEN
abbrev pub max_public_channels : ℕ
max_public_channels = 48

abbrev pub max_rooms : ℕ
max_rooms = 40

abbrev pub room_name_len : ℕ
room_name_len = 32

-- The loop that looks for the same key of the same length.
unfoldable pub has_secret : List Channel → List ℕ → ℕ → Bool
has_secret [] secret len = false
has_secret (ch ∷ chs) secret len =
    (ch.secret_len == len && bytes_eq (take len ch.secret) (take len secret))
    || has_secret chs secret len

-- A status (0, or 2 for -2) and the channels after it.
unfoldable pub register_channel :
    Crypto → List Channel → List ℕ → List ℕ → ℕ → Bool → ℕ × List Channel
register_channel c chs name secret len derived =
    if not (len == 16) && not (len == 32)
    then (2, chs)
    else if has_secret chs secret len
    then (0, chs)
    else if leb max_public_channels (length chs)
    then (2, chs)
    else let ch : Channel = record {
      name = copy_str 32 name;
      secret = write_at 0 (take len secret) (replicate 32 0);
      secret_len = len;
      hash = get_or (c.sha256 (take len secret)) 0 0;
      derived = derived;
      hub = false;
    } in
      (0, chs ++ (ch ∷ []))

-- `strchr(val, ':')`: what stands before the first colon and after it.
unfoldable pub split_colon : List ℕ → Option (List ℕ × List ℕ)
split_colon [] = none
split_colon (c ∷ cs) =
    let later = split_colon cs in
    if c == b':'
    then some ([], cs)
    else elim later [ none ↦ none | some (before, after) ↦ some (c ∷ before, after) ]

unfoldable pub all_hex : List ℕ → Bool
all_hex [] = true
all_hex (c ∷ cs) =
    ((leb b'0' c && leb c b'9') || ((leb b'a' c && leb c b'f') || (leb b'A' c && leb c b'F')))
    && all_hex cs

-- A key of 32 or 64 hex digits, or else base64, after an optional name. 2 stands for -2.
unfoldable pub add_public_channel : Crypto → List Channel → List ℕ → ℕ × List Channel
unfolding split_colon all_hex
add_public_channel c chs val =
    let found : Option (List ℕ × List ℕ) = split_colon val in
    let name : List ℕ = elim found [ none ↦ [] | some (n, rest) ↦ take (room_name_len - 1) n ] in
    let psk : List ℕ = elim found [ none ↦ val | some (n, rest) ↦ rest ] in
    let ishex = (length psk == 32 || length psk == 64) && all_hex psk in
    elim (if ishex then hex2bin psk 32 else base64_decode psk 32) [
      | none ↦ (2, chs)
      | some secret ↦ register_channel c chs name secret (length secret) false
    ]

-- The name with one leading '#', if it can be stored.
unfoldable pub room_name : List ℕ → List ℕ
unfolding trim_name
room_name val =
    let clean = trim_name val 64 in
    let name = if get_or clean 0 0 == b'#' then clean else b'#' ∷ clean in
    if is_empty clean || length name == 1 || leb room_name_len (length name) then [] else name

unfoldable pub has_room : List Room → List ℕ → Bool
has_room [] name = false
has_room (r ∷ rs) name = bytes_eq r.room name || has_room rs name

-- `public_channels[had].hub = true` on the channel that was added.
unfoldable pub mark_hub : ℕ → List Channel → List Channel
mark_hub had [] = []
mark_hub zero (ch ∷ chs) = record ch { hub = true } ∷ chs
mark_hub (suc had) (ch ∷ chs) = ch ∷ mark_hub had chs

-- A status (0, or 2 for -2) and the settings after it.
unfoldable pub add_room_ex : Crypto → Config → List ℕ → Bool → ℕ × Config
add_room_ex c cfg val hub =
    let name = room_name val in
    let digest = c.sha256 name in
    let room : Room = record { room = name; key = take 16 digest; hub = hub } in
    let had = length cfg.public_channels in
    let chs = (register_channel c cfg.public_channels name digest 16 true).1 in
    let chs' = if hub && ltb had (length chs) then mark_hub had chs else chs in
    if is_empty name
    then (2, cfg)
    else if has_room cfg.rooms name
    then (0, cfg)
    else if leb max_rooms (length cfg.rooms)
    then (2, cfg)
    else (0, record cfg { rooms = cfg.rooms ++ (room ∷ []); public_channels = chs' })

-- The entries that are not the hub's.
unfoldable pub local_rooms : List Room → List Room
local_rooms [] = []
local_rooms (r ∷ rs) = if r.hub then local_rooms rs else r ∷ local_rooms rs

unfoldable pub local_channels : List Channel → List Channel
local_channels [] = []
local_channels (ch ∷ chs) = if ch.hub then local_channels chs else ch ∷ local_channels chs

-- One room of the policy.
unfoldable pub serve_room : Crypto → Config → List ℕ → Config
serve_room c cfg name =
    let (rc, cfg') = add_room_ex c cfg name true in
    if has_room cfg.rooms name || (rc == 0 && ltb (length cfg.rooms) (length cfg'.rooms))
    then record cfg' { policy_rooms = cfg'.policy_rooms + 1 }
    else record cfg' { policy_skipped = cfg'.policy_skipped + 1 }

unfoldable pub serve_rooms : Crypto → Config → List (List ℕ) → Config
serve_rooms c cfg [] = cfg
serve_rooms c cfg (r ∷ rs) = serve_rooms c (serve_room c cfg r) rs

unfoldable pub config_policy_merge : Crypto → Config → Config
config_policy_merge c cfg =
    let own : Config = record cfg {
      rooms = local_rooms cfg.rooms;
      public_channels = local_channels cfg.public_channels;
      policy_rooms = 0;
      policy_skipped = cfg.policy.skipped;
    } in
    if cfg.backbone_policy then serve_rooms c own cfg.policy.rooms else own

-- The blocks without the node's own name, and without its own key.
unfoldable pub other_names : List ℕ → List (List ℕ) → List (List ℕ)
other_names own [] = []
other_names own (n ∷ ns) =
    if config_ascii_eq n own then other_names own ns else n ∷ other_names own ns

unfoldable pub other_keys : List ℕ → List (List ℕ) → List (List ℕ)
other_keys own [] = []
other_keys own (k ∷ ks) = if bytes_eq k own then other_keys own ks else k ∷ other_keys own ks

-- With the node's own key (not NULL).
unfoldable pub config_set_policy : Crypto → Config → Policy → List ℕ → Config
config_set_policy c cfg p own = config_policy_merge c (record cfg {
  policy = record p { names = other_names cfg.name p.names; keys = other_keys own p.keys };
})
