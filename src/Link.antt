-- ===== src/Link.antt =====
-- src/link.h and src/link.c: the frames of a receive-only node on their way to the transmitting node.
pub mod Relayed
pub mod Written
pub mod Genuine
pub mod Tests
use meshcore_repeater.Common.{
  ℕ, ◌+◌, ◌-◌, ◌%◌, ◌^◌, Bool, true, false, not, ◌&&◌, ◌||◌, List, [], ◌∷◌, ◌++◌, Option, none,
  some, ltb, leb, ◌==◌, if◌then◌else◌, length, take, drop, get_or, bytes_eq, replicate, ℤ,
}
use meshcore_repeater.Common.Int.{to_word, of_word}
use meshcore_repeater.Common.Text.{codes, strcasecmp_eq, is_empty}
use meshcore_repeater.Util.Endian.{rd_u16le, rd_u32le, wr_u16le, wr_u32le}
use meshcore_repeater.Crypto.{Crypto, hmac_sha256}

abbrev pub link_ver : ℕ
link_ver = 1

abbrev pub link_hdr : ℕ
link_hdr = 10

abbrev pub link_mac : ℕ
link_mac = 8

abbrev pub link_max_frame : ℕ
link_max_frame = 512

abbrev pub link_ts_window : ℕ
link_ts_window = 60

-- `link_mode_t`.
pub data LinkMode : Type 0 where
  link_off link_rx link_tx : LinkMode

-- The fields of `mc_config_t` that the link reads.
pub record LinkSettings : Type 0 where
  pub mode : List ℕ
  pub key : List ℕ
  pub peer : List ℕ

-- The answers of socket(), bind() and getaddrinfo(): the address that was found.
pub record LinkOs : Type 0 where
  pub socket_ok : Bool
  pub bind_ok : Bool
  pub resolved : Option (List ℕ)

-- `mc_link`. `fd` says whether the socket is open; `sent` is what was handed to it, newest first.
pub record Link : Type 0 where
  pub mode : LinkMode
  pub fd : Bool
  pub peer : List ℕ
  pub key : List ℕ
  pub frames_out : ℕ
  pub frames_in : ℕ
  pub frames_bad : ℕ
  pub sent : List (List ℕ)

abbrev pub is_rx : LinkMode → Bool
is_rx link_off = false
is_rx link_rx = true
is_rx link_tx = false

abbrev pub is_tx : LinkMode → Bool
is_tx link_off = false
is_tx link_rx = false
is_tx link_tx = true

unfoldable pub parse_mode : List ℕ → LinkMode
parse_mode s =
    if strcasecmp_eq s (codes "rx")
    then link_rx
    else if strcasecmp_eq s (codes "tx")
    then link_tx
    else link_off

abbrev pub blank_link : Link
blank_link = record {
  mode = link_off;
  fd = false;
  peer = [];
  key = replicate 32 0;
  frames_out = 0;
  frames_in = 0;
  frames_bad = 0;
  sent = [];
}

-- The receiving side binds its port, the relaying side looks its peer up.
unfoldable pub link_open : LinkSettings → LinkOs → Link → ℕ × Link
link_open cfg os lk = elim lk.mode [
  | link_off ↦ (0, lk)
  | link_tx ↦
      if os.bind_ok then (0, record lk { fd = true }) else (1, record lk { mode = link_off })
  | link_rx ↦ if is_empty cfg.peer then (1, record lk { mode = link_off }) else elim os.resolved [
    | none ↦ (1, record lk { mode = link_off })
    | some addr ↦ (0, record lk { fd = true; peer = addr })
  ]
]

-- A status (0, or 1 for -1) and the link.
unfoldable pub link_init : Crypto → LinkSettings → LinkOs → ℕ × Link
unfolding parse_mode link_open
link_init c cfg os =
    let keyed : Link = record blank_link { mode = parse_mode cfg.mode; key = c.sha256 cfg.key } in
    if not (is_rx (parse_mode cfg.mode) || is_tx (parse_mode cfg.mode))
    then (0, blank_link)
    else if is_empty cfg.key
    then (1, blank_link)
    else if not os.socket_ok
    then (1, record keyed { mode = link_off })
    else link_open cfg os keyed

unfoldable pub link_close : Link → Link
link_close lk = record lk { fd = false; mode = link_off }

-- Whether there is a descriptor to poll.
unfoldable pub link_pollfd : Link → Bool
link_pollfd lk = is_tx lk.mode && lk.fd

-- The part of a datagram that the MAC covers.
abbrev pub link_message : ℕ → ℤ → ℤ → List ℕ → List ℕ
link_message ts rssi snr frame =
    link_ver
    ∷ (wr_u32le ts
        ++ (wr_u16le (to_word (2 ^ 16) rssi)
            ++ (to_word 256 snr ∷ (wr_u16le (length frame) ++ frame))))

abbrev pub link_datagram : Crypto → List ℕ → ℕ → ℤ → ℤ → List ℕ → List ℕ
link_datagram c key ts rssi snr frame =
    link_message ts rssi snr frame
    ++ take link_mac (hmac_sha256 c key (link_message ts rssi snr frame))

-- `unix` is time(NULL), `sent_ok` whether sendto() sent anything.
unfoldable pub link_relay : Crypto → Link → ℕ → Bool → List ℕ → ℤ → ℤ → Link
link_relay c lk unix sent_ok frame rssi snr =
    if not (is_rx lk.mode)
      || (not lk.fd || (length frame == 0 || ltb link_max_frame (length frame)))
    then lk
    else record lk {
      sent = link_datagram c lk.key (unix % 2 ^ 32) rssi snr frame ∷ lk.sent;
      frames_out = lk.frames_out + (if sent_ok then 1 else 0);
    }

-- What recvfrom() gives: nothing yet, an error, or a datagram.
pub data Incoming : Type 0 where
  none_pending recv_failed : Incoming
  arrived : List ℕ → Incoming

-- 0, -1, or 1 with the frame, its RSSI and its SNR.
pub data Received : Type 0 where
  no_frame link_error : Received
  one_frame : List ℕ → ℤ → ℤ → Received

abbrev bad_frame : Link → Link × Received
bad_frame lk = (record lk { frames_bad = lk.frames_bad + 1 }, no_frame)

-- `|now - ts|`.
abbrev pub clock_skew : ℕ → ℕ → ℕ
clock_skew now ts = if ltb ts now then now - ts else ts - now

-- A datagram in the buffer `d`.
unfoldable pub link_accept : Crypto → Link → ℕ → ℕ → List ℕ → Link × Received
link_accept c lk unix cap_ d =
    let flen = rd_u16le (drop 8 d) in
    let msg = take (link_hdr + flen) d in
    let mac = take link_mac (drop (link_hdr + flen) d) in
    if ltb (length d) (link_hdr + link_mac) || not (get_or d 0 0 == link_ver)
    then bad_frame lk
    else if not (length d == link_hdr + flen + link_mac) || ltb cap_ flen
    then bad_frame lk
    else if not (bytes_eq (take link_mac (hmac_sha256 c lk.key msg)) mac)
    then bad_frame lk
    else if ltb link_ts_window (clock_skew (unix % 2 ^ 32) (rd_u32le (drop 1 d)))
    then bad_frame lk
    else (
      record lk { frames_in = lk.frames_in + 1 },
      one_frame (take flen (drop link_hdr d)) (of_word (2 ^ 16) (rd_u16le (drop 5 d)))
          (of_word 256 (get_or d 7 0)),
    )

-- recvfrom() cuts a datagram to the buffer.
unfoldable pub link_recv : Crypto → Link → ℕ → ℕ → Incoming → Link × Received
unfolding link_accept
link_recv c lk unix cap_ incoming =
    if not (is_tx lk.mode) || not lk.fd then (lk, no_frame) else elim incoming [
      | none_pending ↦ (lk, no_frame)
      | recv_failed ↦ (lk, link_error)
      | arrived d ↦ link_accept c lk unix cap_ (take (link_hdr + link_max_frame + link_mac) d)
    ]
