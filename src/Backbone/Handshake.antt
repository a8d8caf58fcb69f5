-- ===== src/Backbone/Handshake.antt =====
-- src/backbone.c: the handshake of the client, from the name lookup to WELCOME, and RESET.
use meshcore_repeater.Common.{
  ℕ, ◌+◌, ◌-◌, ◌*◌, ◌%◌, ◌^◌, Bool, true, false, not, ◌||◌, List, [], none, some, ltb, leb, ◌==◌,
  if◌then◌else◌, length, drop, replicate, ok, err,
}
use meshcore_repeater.Util.Endian.{rd_u32le}
use meshcore_repeater.Backbone.Codec.{
  bb_build_hello, bb_hello_fixed, bb_name_max, bb_reset_len, Welcome, bb_check_welcome,
  bb_check_reset, bb_derive_keys,
}
use meshcore_repeater.Backbone.Replay.{fresh_window}
use meshcore_repeater.Backbone.State.{
  Client, Net, lookup_running, lookup_failed, lookup_done, bb_resolving, bb_hello_sent, bb_up,
  is_up, is_hello_sent, reject, send_raw, send_session, forget_session, retry_later, observing,
}
use meshcore_repeater.Backbone.Report.{send_status, bb_t_keepalive}

abbrev pub bb_welcome_wait_ms : ℕ
bb_welcome_wait_ms = 5000

abbrev pub bb_ts_window : ℕ
bb_ts_window = 120

-- The timestamp of the next HELLO: the clock, or one more than the last one.
unfoldable pub hello_ts : Net → Client → ℕ
hello_ts net bb =
    let ts = net.env.unix % 2 ^ 32 in
    if leb ts bb.last_hello_ts then (bb.last_hello_ts + 1) % 2 ^ 32 else ts

unfoldable pub send_hello : Net → Client → ℕ → Client
unfolding hello_ts retry_later send_raw
send_hello net bb now =
    let ts = hello_ts net bb in
    let stamped : Client = record bb { eph_sec = net.random_32; last_hello_ts = ts } in
    elim (bb_build_hello net.env.crypto (bb_hello_fixed + bb_name_max + 64) bb.mesh.id
      bb.roles_asked ts (net.scalarmult_base net.random_32) bb.mesh.cfg.name) [
        | none ↦ retry_later (record stamped { hello = [] }) now
        | some h ↦
            let kept : Client = record stamped {
              hello = h;
              hello_hash = net.env.crypto.sha256 h;
            } in
            record (send_raw net kept h) {
              hello_tries = bb.hello_tries + 1;
              state = bb_hello_sent;
              deadline_ms = now + bb_welcome_wait_ms;
            }
      ]

unfoldable pub start_attempt : Net → Client → ℕ → Client
unfolding forget_session retry_later
start_attempt net bb now =
    let cleared : Client = record (forget_session bb) { hello_tries = 0 } in
    if net.lookup_started
    then record cleared { gai_busy = true; state = bb_resolving }
    else retry_later cleared now

unfoldable pub check_resolved : Net → Client → ℕ → Client
unfolding send_hello retry_later
check_resolved net bb now = elim net.lookup [
  | lookup_running ↦ bb
  | lookup_failed ↦ retry_later (record bb { gai_busy = false }) now
  | lookup_done ↦
      if net.connected
      then send_hello net (record bb { gai_busy = false; fd = true }) now
      else retry_later (record bb { gai_busy = false }) now
]

unfoldable pub clamp_iv : ℕ → ℕ → ℕ → ℕ → ℕ
clamp_iv v lo hi def = if v == 0 then def else if ltb v lo then lo else if ltb hi v then hi else v

-- A session with the keys that were derived and what the WELCOME grants.
unfoldable pub new_session : Client → ℕ → Welcome → List ℕ → List ℕ → Client
unfolding clamp_iv
new_session bb now w k_up k_down = record bb {
  eph_sec = replicate 32 0;
  k_up = k_up;
  k_down = k_down;
  sid = w.sid;
  roles = w.roles;
  seq_out = 0;
  pol_pages = 0;
  pol_applied_seq = 0;
  rwin = fresh_window;
  keepalive_s = clamp_iv w.keepalive_s 10 120 25;
  status_s = clamp_iv w.status_s 30 3600 60;
  neighbours_s = clamp_iv w.neighbours_s 60 65535 300;
  state = bb_up;
  sessions = bb.sessions + 1;
  backoff_s = 5;
  up_since_ms = now;
  last_rx_ms = now;
  dgrams_in = bb.dgrams_in + 1;
}

-- The first reports of a session.
unfoldable pub greet : Net → Client → ℕ → Client
unfolding send_session send_status
greet net bb now =
    let alive : Client = record (send_session net bb bb_t_keepalive []) {
      next_keepalive_ms = now + bb.keepalive_s * 1000;
    } in
    if observing bb
    then record (send_status net alive now) {
      next_status_ms = now + bb.status_s * 1000;
      next_neighbours_ms = now + 5000;
    }
    else alive

unfoldable pub on_welcome : Net → Client → ℕ → List ℕ → Client
unfolding greet new_session
on_welcome net bb now d =
    if not (is_hello_sent bb.state)
    then reject bb
    else elim (bb_check_welcome net.env.crypto d bb.hub_pub bb.hello_hash bb.roles_asked) [
      | err code ↦ reject bb
      | ok w ↦
          elim (bb_derive_keys net.env.crypto (net.scalarmult bb.eph_sec w.eph_pub) bb.hello d) [
            | none ↦ reject (record bb { eph_sec = replicate 32 0 })
            | some keys ↦ greet net (new_session bb now w keys.0 keys.1) now
          ]
    ]

-- The cheap checks on the fields of a RESET, before its signature.
unfoldable pub reset_plausible : Net → Client → List ℕ → Bool
reset_plausible net bb d =
    let sid = rd_u32le (drop 4 d) in
    let seq = rd_u32le (drop 8 d) in
    let ts = rd_u32le (drop 12 d) in
    let now_s = net.env.unix % 2 ^ 32 in
    let skew = if ltb ts now_s then now_s - ts else ts - now_s in
    not (
      not (sid == bb.sid)
      || (seq == 0 || (ltb bb.seq_out seq || (leb 64 (bb.seq_out - seq) || ltb bb_ts_window skew))))

unfoldable pub on_reset : Net → Client → ℕ → List ℕ → Client
unfolding reset_plausible forget_session
on_reset net bb now d =
    if not (is_up bb.state) || not (length d == bb_reset_len)
    then reject bb
    else if not (reset_plausible net bb d)
    then reject bb
    else elim (bb_check_reset net.env.crypto d bb.hub_pub) [
      | err code ↦ reject bb
      | ok fields ↦
          let earliest = if leb 1 bb.last_reset_ms then bb.last_reset_ms + 5000 else now in
          record (forget_session bb) {
            next_try_ms = if ltb now earliest then earliest else now;
            last_reset_ms = now;
          }
    ]
