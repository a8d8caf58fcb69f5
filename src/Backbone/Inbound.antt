-- ===== src/Backbone/Inbound.antt =====
-- src/backbone.c: what the client does with the datagrams of the hub.
use meshcore_repeater.Common.{
  ℕ, zero, suc, ◌+◌, ◌-◌, ◌*◌, ◌%◌, ◌^◌, Bool, true, false, not, ◌&&◌, ◌||◌, List, [], ◌∷◌, none,
  some, ltb, leb, ◌==◌, if◌then◌else◌, length, take, drop, get_or, ok, err,
}
use meshcore_repeater.Common.Bits.{bit_at, set_bit}
use meshcore_repeater.Util.Endian.{rd_u32le}
use meshcore_repeater.Config.{no_policy}
use meshcore_repeater.Config.Rooms.{config_set_policy}
use meshcore_repeater.Backbone.Codec.{
  bb_max_dgram, bb_hdr, bb_mac, bb_t_welcome, bb_t_reset, magic_ok, Opened, bb_open,
}
use meshcore_repeater.Backbone.Replay.{bb_replay_check}
use meshcore_repeater.Backbone.Policy.{bb_pol_max_pages, policy_walk}
use meshcore_repeater.Backbone.State.{
  Client, Net, is_up, reject, forget_session, retry_later, bb_backoff_max,
}
use meshcore_repeater.Backbone.Handshake.{on_welcome, on_reset}
use meshcore_repeater.Backbone.Bridge.{on_frame, backbone_status_soon}

abbrev pub bb_t_keepalive_ack : ℕ
bb_t_keepalive_ack = 0x20

abbrev pub bb_t_frame : ℕ
bb_t_frame = 0x21

abbrev pub bb_t_policy : ℕ
bb_t_policy = 0x22

abbrev pub bb_t_bye_down : ℕ
bb_t_bye_down = 0x2f

abbrev pub bb_bye_shutdown : ℕ
bb_bye_shutdown = 0

abbrev pub bb_bye_not_allowed : ℕ
bb_bye_not_allowed = 3

abbrev pub bb_rx_burst : ℕ
bb_rx_burst = 16

-- A set is complete: it is applied if its version is new, and acknowledged.
unfoldable pub policy_complete : Net → Client → Client
unfolding backbone_status_soon
policy_complete net bb =
    let closed : Client = record bb { pol_applied_seq = bb.pol_min_seq; pol_pages = 0 } in
    let cfg = config_set_policy net.env.crypto bb.mesh.cfg bb.pol bb.mesh.id.public_key in
    backbone_status_soon (
      if bb.pol.version == bb.mesh.cfg.policy.version
      then closed
      else record closed { mesh = record (bb.mesh) { cfg = cfg } })

-- A page of the set that is being collected.
unfoldable pub policy_page : Net → Client → ℕ → ℕ → ℕ → List ℕ → Client
unfolding policy_complete
policy_page net bb seq page pages entries =
    if leb 1 (bit_at bb.pol_have (page - 1)) then bb else elim (policy_walk entries bb.pol) [
      | none ↦ bb
      | some pol ↦
          let held : Client = record bb {
            pol = pol;
            pol_have = set_bit bb.pol_have (page - 1);
            pol_min_seq = if ltb seq bb.pol_min_seq then seq else bb.pol_min_seq;
            pol_max_seq = if ltb bb.pol_max_seq seq then seq else bb.pol_max_seq;
          } in
          if held.pol_have == (2 ^ pages - 1) % 2 ^ 16 then policy_complete net held else held
    ]

-- A set begins to be collected, unless one is.
unfoldable pub policy_begin : Client → ℕ → ℕ → ℕ → Client
policy_begin bb seq version pages = if leb 1 bb.pol_pages then bb else record bb {
  pol = record no_policy { version = version };
  pol_pages = pages;
  pol_have = 0;
  pol_min_seq = seq;
  pol_max_seq = seq;
}

abbrev pub policy_bad : List ℕ → Bool
policy_bad body =
    let version = rd_u32le body in
    let page = get_or body 4 0 in
    let pages = get_or body 5 0 in
    let walked : Bool = elim (policy_walk (drop 6 body) no_policy) [
      | none ↦ false
      | some p ↦ true
    ] in
    version == 0
    || (pages == 0 || (ltb bb_pol_max_pages pages || (page == 0 || (ltb pages page || not walked))))

unfoldable pub on_policy : Net → Client → ℕ → List ℕ → Client
unfolding policy_page policy_begin
on_policy net bb seq body =
    let version = rd_u32le body in
    let page = get_or body 4 0 in
    let pages = get_or body 5 0 in
    let other =
      leb 1 bb.pol_pages && (not (version == bb.pol.version) || not (pages == bb.pol_pages)) in
    if not bb.mesh.cfg.backbone_policy
    then bb
    else if ltb (length body) 6 || policy_bad body
    then reject bb
    else if leb 1 bb.pol_applied_seq && ltb seq bb.pol_applied_seq
    then bb
    else if other && leb seq bb.pol_max_seq
    then bb
    else policy_page net
        (policy_begin (if other then record bb { pol_pages = 0 } else bb) seq version pages) seq
        page pages (drop 6 body)

unfoldable pub on_bye : Client → ℕ → List ℕ → Client
unfolding forget_session retry_later
on_bye bb now body =
    if get_or body 0 bb_bye_shutdown == bb_bye_not_allowed
    then record (forget_session bb) {
      backoff_s = bb_backoff_max;
      next_try_ms = now + bb_backoff_max * 1000;
    }
    else retry_later bb now

-- A session datagram that was opened, by its type.
unfoldable pub on_opened : Net → Client → ℕ → Opened → Client
unfolding on_frame on_policy on_bye
on_opened net bb now o =
    if o.type == bb_t_keepalive_ack
    then bb
    else if o.type == bb_t_frame
    then on_frame net bb now o.body
    else if o.type == bb_t_policy
    then on_policy net bb o.seq o.body
    else if o.type == bb_t_bye_down
    then on_bye bb now o.body
    else reject bb

unfoldable pub on_session : Net → Client → ℕ → List ℕ → Client
unfolding on_opened
on_session net bb now d =
    if not (is_up bb.state)
      || (ltb (length d) (bb_hdr + bb_mac) || not (rd_u32le (drop 4 d) == bb.sid))
    then reject bb
    else elim (bb_open net.env.crypto d bb.k_down) [
      | err code ↦ reject bb
      | ok o ↦
          let (w, fresh) = bb_replay_check bb.rwin o.seq in
          let counted : Client = record bb {
            rwin = w;
            dgrams_in = bb.dgrams_in + 1;
            last_rx_ms = now;
          } in
          if fresh then on_opened net counted now o else reject (record bb { rwin = w })
    ]

-- One datagram, as recv() put it into the buffer of BB_MAX_DGRAM + 1 bytes.
unfoldable pub on_datagram : Net → Client → ℕ → List ℕ → Client
unfolding on_welcome on_reset on_session
on_datagram net bb now d =
    let type = get_or d 3 0 in
    if ltb bb_max_dgram (length d) || (ltb (length d) 4 || not (magic_ok d))
    then reject bb
    else if type == bb_t_welcome
    then on_welcome net bb now d
    else if type == bb_t_reset
    then on_reset net bb now d
    else if leb 0x20 type && leb type 0x2f
    then on_session net bb now d
    else reject bb

-- At most `n` datagrams, while the socket is open.
unfoldable pub read_loop : ℕ → Net → Client → ℕ → List (List ℕ) → Client
unfolding on_datagram
read_loop zero net bb now ds = bb
read_loop (suc n) net bb now [] = bb
read_loop (suc n) net bb now (d ∷ ds) =
    if bb.fd
    then read_loop n net (on_datagram net bb now (take (bb_max_dgram + 1) d)) now ds
    else bb

unfoldable pub read_datagrams : Net → Client → ℕ → Client
unfolding read_loop
read_datagrams net bb now = read_loop bb_rx_burst net bb now net.inbox
