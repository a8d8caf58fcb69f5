-- ===== src/Backbone/Invariant/Session.antt =====
-- src/backbone.c: RESET and the session datagrams keep the invariant of the client.
use meshcore_repeater.Common.{
  ℕ, zero, suc, ◌+◌, refl, not, ◌&&◌, ◌||◌, List, [], ◌∷◌, if◌then◌else◌, if_both, ltb, leb, ◌==◌,
  length, drop, get_or, take, Result, ok, err, arith,
}
use meshcore_repeater.Util.Endian.{rd_u32le}
use meshcore_repeater.Backbone.Codec.{
  Opened, bb_reset_len, bb_check_reset, bb_max_dgram, bb_hdr, bb_mac, bb_t_welcome, bb_t_reset,
  magic_ok, bb_open,
}
use meshcore_repeater.Backbone.Replay.{bb_replay_check}
use meshcore_repeater.Backbone.State.{Client, Net, is_up, reject, forget_session}
use meshcore_repeater.Backbone.Handshake.{reset_plausible, on_reset}
use meshcore_repeater.Backbone.Bridge.{on_frame}
use meshcore_repeater.Backbone.Inbound.{
  on_policy, on_bye, on_opened, on_session, on_datagram, read_loop, bb_t_keepalive_ack, bb_t_frame,
  bb_t_policy, bb_t_bye_down, bb_bye_shutdown, bb_bye_not_allowed,
}
use meshcore_repeater.Backbone.Life.{
  Steady-Wf, retry_later-Wf, quiet-Steady, on_frame-Steady, on_policy-Quiet,
}
use meshcore_repeater.Backbone.Invariant.{ClientWf}
use meshcore_repeater.Backbone.Invariant.Handshake.{on_welcome-Wf}

on_reset-Wf :
    (net : Net) (bb : Client) (now : ℕ) (d : List ℕ)
    → ClientWf bb
    → ClientWf (on_reset net bb now d)
unfolding on_reset forget_session
on_reset-Wf net bb now d w =
    if_both ClientWf (not (is_up bb.state) || not (length d == bb_reset_len)) w (
      if_both ClientWf (not (reset_plausible net bb d)) w
        (go (bb_check_reset net.env.crypto d bb.hub_pub)))
  where
    earliest : ℕ
    earliest = if leb 1 bb.last_reset_ms then bb.last_reset_ms + 5000 else now

    go :
        (r : Result (ℕ × ℕ × ℕ))
        → ClientWf (elim r [
          | err code ↦ reject bb
          | ok fields ↦ record (forget_session bb) {
            next_try_ms = if ltb now earliest then earliest else now;
            last_reset_ms = now;
          }
        ])
    go (err code) = w
    go (ok fields) = (w.0, w.1, (refl, refl, refl))

on_bye-Wf : (bb : Client) (now : ℕ) (body : List ℕ) → ClientWf bb → ClientWf (on_bye bb now body)
unfolding on_bye forget_session
on_bye-Wf bb now body w =
    if_both ClientWf (get_or body 0 bb_bye_shutdown == bb_bye_not_allowed)
      (omega arith, omega arith, (refl, refl, refl)) (retry_later-Wf bb now (w.0, w.1))

on_opened-Wf :
    (net : Net) (bb : Client) (now : ℕ) (o : Opened)
    → ClientWf bb
    → ClientWf (on_opened net bb now o)
unfolding on_opened
on_opened-Wf net bb now o w = if_both ClientWf (o.type == bb_t_keepalive_ack) w (
    if_both ClientWf (o.type == bb_t_frame)
      (Steady-Wf bb (on_frame net bb now o.body) (on_frame-Steady net bb now o.body) w)
      (if_both ClientWf (o.type == bb_t_policy)
        (Steady-Wf bb (on_policy net bb o.seq o.body)
          (quiet-Steady bb (on_policy net bb o.seq o.body) (on_policy-Quiet net bb o.seq o.body)) w)
        (if_both ClientWf (o.type == bb_t_bye_down) (on_bye-Wf bb now o.body w) w)))

on_session-Wf :
    (net : Net) (bb : Client) (now : ℕ) (d : List ℕ)
    → ClientWf bb
    → ClientWf (on_session net bb now d)
unfolding on_session
on_session-Wf net bb now d w =
    if_both ClientWf
      (not (is_up bb.state)
        || (ltb (length d) (bb_hdr + bb_mac) || not (rd_u32le (drop 4 d) == bb.sid)))
      w (go (bb_open net.env.crypto d bb.k_down))
  where
    counted : Opened → Client
    counted o = record bb {
      rwin = (bb_replay_check bb.rwin o.seq).0;
      dgrams_in = bb.dgrams_in + 1;
      last_rx_ms = now;
    }

    go :
        (r : Result Opened)
        → ClientWf (elim r [
          | err code ↦ reject bb
          | ok o ↦
              if (bb_replay_check bb.rwin o.seq).1
              then on_opened net (counted o) now o
              else reject (record bb { rwin = (bb_replay_check bb.rwin o.seq).0 })
        ])
    go (err code) = w
    go (ok o) =
        if_both ClientWf (bb_replay_check bb.rwin o.seq).1 (on_opened-Wf net (counted o) now o w) w

on_datagram-Wf :
    (net : Net) (bb : Client) (now : ℕ) (d : List ℕ)
    → ClientWf bb
    → ClientWf (on_datagram net bb now d)
unfolding on_datagram
on_datagram-Wf net bb now d w =
    let type = get_or d 3 0 in
    if_both ClientWf (ltb bb_max_dgram (length d) || (ltb (length d) 4 || not (magic_ok d))) w (
      if_both ClientWf (type == bb_t_welcome) (on_welcome-Wf net bb now d w) (
        if_both ClientWf (type == bb_t_reset) (on_reset-Wf net bb now d w)
          (if_both ClientWf (leb 0x20 type && leb type 0x2f) (on_session-Wf net bb now d w) w)))

pub read_loop-Wf :
    (n : ℕ) (net : Net) (bb : Client) (now : ℕ) (ds : List (List ℕ))
    → ClientWf bb
    → ClientWf (read_loop n net bb now ds)
unfolding read_loop
read_loop-Wf zero net bb now ds w = w
read_loop-Wf (suc n) net bb now [] w = w
read_loop-Wf (suc n) net bb now (d ∷ ds) w =
    let d' = take (bb_max_dgram + 1) d in
    if_both ClientWf bb.fd
      (read_loop-Wf n net (on_datagram net bb now d') now ds (on_datagram-Wf net bb now d' w)) w
