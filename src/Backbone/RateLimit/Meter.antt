-- ===== src/Backbone/RateLimit/Meter.antt =====
-- src/backbone.c: everything but a frame of the hub leaves the token bucket as it is.
use meshcore_repeater.Common.{
  ℕ, ◌+◌, ◌-◌, ◌*◌, ◌≡◌, refl, true, false, ap, ◌∙◌, Bool, not, ◌&&◌, ◌||◌, List, [], ◌∷◌, Option,
  none, some, if◌then◌else◌, if_both, ltb, leb, ◌==◌, length, get_or, replicate, Result, ok, err,
}
use meshcore_repeater.Backbone.Codec.{
  Welcome, bb_build_hello, bb_hello_fixed, bb_name_max, bb_check_welcome, bb_derive_keys,
  bb_reset_len, bb_check_reset,
}
use meshcore_repeater.Backbone.State.{
  Client, Net, Settings, Lookup, lookup_running, lookup_failed, lookup_done, BbState, bb_off,
  bb_idle, bb_resolving, bb_hello_sent, bb_up, is_up, is_hello_sent, observing, reject,
  forget_session, retry_later, send_raw,
}
use meshcore_repeater.Backbone.Report.{bb_t_keepalive}
use meshcore_repeater.Backbone.Handshake.{
  hello_ts, send_hello, start_attempt, check_resolved, new_session, greet, on_welcome,
  reset_plausible, on_reset, bb_welcome_wait_ms,
}
use meshcore_repeater.Backbone.Inbound.{on_bye, bb_bye_shutdown, bb_bye_not_allowed}
use meshcore_repeater.Backbone.Service.{
  backbone_close, service_connect, service_hello, service_keepalive, service_status,
  service_neighbours, service_up, bb_hello_tries, bb_t_bye, bb_bye_rekey,
}
use meshcore_repeater.Backbone.Quiet.{
  Core, core, send_raw-Quiet, send_session-Quiet, send_status-Quiet, send_neighbours-Quiet,
}
use meshcore_repeater.Backbone.Invariant.Handshake.{greet-Quiet}
use meshcore_repeater.Backbone.RateLimit.{SameBucket}

-- What the rate limit reads and writes.
pub record Meter : Type 0 where
  pub settings : Settings
  pub tokens : ℕ
  pub tokens_ms : ℕ
  pub injected : ℕ

abbrev pub meter_of : Core → Meter
meter_of c = record {
  settings = c.settings;
  tokens = c.tokens;
  tokens_ms = c.tokens_ms;
  injected = c.injected;
}

abbrev pub Same : Client → Client → Type 0
Same bb bb' = meter_of (core bb') ≡ meter_of (core bb)

pub Same-SameBucket : (bb bb' : Client) → Same bb bb' → SameBucket bb bb'
Same-SameBucket bb bb' e = (
  ap (λ (m : Meter). m.settings) e,
  ap (λ (m : Meter). m.tokens) e,
  ap (λ (m : Meter). m.tokens_ms) e,
  ap (λ (m : Meter). m.injected) e,
)

retry_later-Same : (bb : Client) (now : ℕ) → Same bb (retry_later bb now)
unfolding retry_later forget_session
retry_later-Same bb now = refl

send_hello-Same : (net : Net) (bb : Client) (now : ℕ) → Same bb (send_hello net bb now)
unfolding send_hello
send_hello-Same net bb now = go (
    bb_build_hello net.env.crypto (bb_hello_fixed + bb_name_max + 64) bb.mesh.id bb.roles_asked
      (hello_ts net bb) (net.scalarmult_base net.random_32) bb.mesh.cfg.name)
  where
    stamped : Client
    stamped = record bb { eph_sec = net.random_32; last_hello_ts = hello_ts net bb }

    kept : List ℕ → Client
    kept h = record stamped { hello = h; hello_hash = net.env.crypto.sha256 h }

    go :
        (o : Option (List ℕ))
        → Same bb (elim o [
          | none ↦ retry_later (record stamped { hello = [] }) now
          | some h ↦ record (send_raw net (kept h) h) {
            hello_tries = bb.hello_tries + 1;
            state = bb_hello_sent;
            deadline_ms = now + bb_welcome_wait_ms;
          }
        ])
    go none = retry_later-Same (record stamped { hello = [] }) now
    go (some h) = ap meter_of (send_raw-Quiet net (kept h) h)

start_attempt-Same : (net : Net) (bb : Client) (now : ℕ) → Same bb (start_attempt net bb now)
unfolding start_attempt forget_session
start_attempt-Same net bb now =
    if_both (Same bb) net.lookup_started refl
      (retry_later-Same (record (forget_session bb) { hello_tries = 0 }) now)

check_resolved-Same : (net : Net) (bb : Client) (now : ℕ) → Same bb (check_resolved net bb now)
unfolding check_resolved
check_resolved-Same net bb now = go net.lookup
  where
    free : Client
    free = record bb { gai_busy = false }

    linked : Client
    linked = record bb { gai_busy = false; fd = true }

    go :
        (l : Lookup)
        → Same bb (elim l [
          | lookup_running ↦ bb
          | lookup_failed ↦ retry_later free now
          | lookup_done ↦ if net.connected then send_hello net linked now else retry_later free now
        ])
    go lookup_running = refl
    go lookup_failed = retry_later-Same free now
    go lookup_done =
        if_both (Same bb) net.connected (send_hello-Same net linked now) (retry_later-Same free now)

new_session-Same :
    (bb : Client) (now : ℕ) (w : Welcome) (k_up k_down : List ℕ)
    → Same bb (new_session bb now w k_up k_down)
unfolding new_session
new_session-Same bb now w k_up k_down = refl

pub on_welcome-Same :
    (net : Net) (bb : Client) (now : ℕ) (d : List ℕ) → Same bb (on_welcome net bb now d)
unfolding on_welcome
on_welcome-Same net bb now d =
    if_both (Same bb) (not (is_hello_sent bb.state)) refl
      (answered (bb_check_welcome net.env.crypto d bb.hub_pub bb.hello_hash bb.roles_asked))
  where
    keys_of : Welcome → Option (List ℕ × List ℕ)
    keys_of v = bb_derive_keys net.env.crypto (net.scalarmult bb.eph_sec v.eph_pub) bb.hello d

    derived :
        (v : Welcome) (o : Option (List ℕ × List ℕ))
        → Same bb (elim o [
          | none ↦ reject (record bb { eph_sec = replicate 32 0 })
          | some keys ↦ greet net (new_session bb now v keys.0 keys.1) now
        ])
    derived v none = refl
    derived v (some keys) =
        ap meter_of (greet-Quiet net (new_session bb now v keys.0 keys.1) now)
        ∙ new_session-Same bb now v keys.0 keys.1

    answered :
        (r : Result Welcome)
        → Same bb (elim r [
          | err code ↦ reject bb
          | ok v ↦ elim (keys_of v) [
            | none ↦ reject (record bb { eph_sec = replicate 32 0 })
            | some keys ↦ greet net (new_session bb now v keys.0 keys.1) now
          ]
        ])
    answered (err code) = refl
    answered (ok v) = derived v (keys_of v)

pub on_reset-Same :
    (net : Net) (bb : Client) (now : ℕ) (d : List ℕ) → Same bb (on_reset net bb now d)
unfolding on_reset forget_session
on_reset-Same net bb now d =
    if_both (Same bb) (not (is_up bb.state) || not (length d == bb_reset_len)) refl (
      if_both (Same bb) (not (reset_plausible net bb d)) refl
        (go (bb_check_reset net.env.crypto d bb.hub_pub)))
  where
    earliest : ℕ
    earliest = if leb 1 bb.last_reset_ms then bb.last_reset_ms + 5000 else now

    go :
        (r : Result (ℕ × ℕ × ℕ))
        → Same bb (elim r [
          | err code ↦ reject bb
          | ok fields ↦ record (forget_session bb) {
            next_try_ms = if ltb now earliest then earliest else now;
            last_reset_ms = now;
          }
        ])
    go (err code) = refl
    go (ok fields) = refl

pub on_bye-Same : (bb : Client) (now : ℕ) (body : List ℕ) → Same bb (on_bye bb now body)
unfolding on_bye forget_session
on_bye-Same bb now body =
    if_both (Same bb) (get_or body 0 bb_bye_shutdown == bb_bye_not_allowed) refl
      (retry_later-Same bb now)

pub service_connect-Same :
    (net : Net) (bb : Client) (now : ℕ) → Same bb (service_connect net bb now)
unfolding service_connect
service_connect-Same net bb now = go bb.state
  where
    go :
        (s : BbState)
        → Same bb (elim s [
          | bb_idle ↦ if leb bb.next_try_ms now then start_attempt net bb now else bb
          | bb_resolving ↦ check_resolved net bb now
          | _ ↦ bb
        ])
    go bb_off = refl
    go bb_idle = if_both (Same bb) (leb bb.next_try_ms now) (start_attempt-Same net bb now) refl
    go bb_resolving = check_resolved-Same net bb now
    go bb_hello_sent = refl
    go bb_up = refl

pub service_hello-Same : (net : Net) (bb : Client) (now : ℕ) → Same bb (service_hello net bb now)
unfolding service_hello
service_hello-Same net bb now =
    if_both (Same bb) (is_hello_sent bb.state && leb bb.deadline_ms now)
      (if_both (Same bb) (ltb bb.hello_tries bb_hello_tries) (send_hello-Same net bb now)
        (retry_later-Same bb now))
      refl

keepalive-Same : (net : Net) (bb : Client) (now : ℕ) → Same bb (service_keepalive net bb now)
unfolding service_keepalive
keepalive-Same net bb now =
    if_both (Same bb) (leb bb.next_keepalive_ms now)
      (ap meter_of (send_session-Quiet net bb bb_t_keepalive [])) refl

status-Same : (net : Net) (bb : Client) (now : ℕ) → Same bb (service_status net bb now)
unfolding service_status
status-Same net bb now =
    if_both (Same bb) (leb bb.next_status_ms now) (ap meter_of (send_status-Quiet net bb now)) refl

neighbours-Same : (net : Net) (bb : Client) (now : ℕ) → Same bb (service_neighbours net bb now)
unfolding service_neighbours
neighbours-Same net bb now =
    if_both (Same bb) (leb bb.next_neighbours_ms now) (ap meter_of (send_neighbours-Quiet net bb))
      refl

pub service_up-Same : (net : Net) (bb : Client) (now : ℕ) → Same bb (service_up net bb now)
unfolding service_up forget_session
service_up-Same net bb now =
    if_both (Same bb) (ltb ((3 * bb.keepalive_s + 5) * 1000) (now - bb.last_rx_ms)) refl (
      if_both (Same bb) (leb 0x80000000 bb.seq_out)
        (ap meter_of (send_session-Quiet net bb bb_t_bye (bb_bye_rekey ∷ [])))
        (if_both (Same bb) (observing bb)
          (neighbours-Same net (service_status net alive now) now
            ∙ status-Same net alive now
            ∙ keepalive-Same net bb now)
          (keepalive-Same net bb now)))
  where
    alive : Client
    alive = service_keepalive net bb now

pub backbone_close-Same :
    (net : Net) (cancelled : Bool) (bb : Client) → Same bb (backbone_close net cancelled bb)
unfolding backbone_close forget_session
backbone_close-Same net cancelled bb =
    if_both (Same bb) (is_up bb.state)
      (ap meter_of (send_session-Quiet net bb bb_t_bye (bb_bye_shutdown ∷ []))) refl
