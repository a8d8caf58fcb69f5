-- ===== src/Backbone/Invariant/Handshake.antt =====
-- src/backbone.c: the handshake keeps the invariant of the client.
use meshcore_repeater.Common.{
  ℕ, ◌+◌, ◌-◌, ◌*◌, ◌≤◌, ◌≡◌, refl, sym, ap, ◌∙◌, subst, Bool, true, false, not, ◌||◌, List, [],
  Option, none, some, if◌then◌else◌, if_both, if_true, if_false, ◌==◌, length, drop, take,
  replicate, Result, ok, err, Bool-cases, ok_inj, bytes_eq, inl, inr, arith,
}
use Prim.Native.Nat.{bit_and}
use meshcore_repeater.Backbone.Codec.{
  Welcome, bb_build_hello, bb_hello_fixed, bb_name_max, bb_check_welcome, bb_derive_keys,
  read_welcome, hdr_ok, bb_welcome_len, verify_ctx, ctx_welcome, bb_t_welcome,
}
use meshcore_repeater.Backbone.State.{
  Client, Net, Lookup, lookup_running, lookup_failed, lookup_done, BbState, bb_off, bb_idle,
  bb_resolving, bb_hello_sent, bb_up, is_hello_sent, reject, forget_session, retry_later, send_raw,
  send_session, observing,
}
use meshcore_repeater.Backbone.Report.{bb_t_keepalive}
use meshcore_repeater.Backbone.Handshake.{
  hello_ts, send_hello, start_attempt, check_resolved, new_session, greet, on_welcome,
  bb_welcome_wait_ms, clamp_iv,
}
use meshcore_repeater.Backbone.Quiet.{Quiet, send_raw-Quiet, send_session-Quiet, send_status-Quiet}
use meshcore_repeater.Backbone.Life.{
  Life, life, life_of, Unconnected, StateOk, Steady, Steady-Wf, retry_later-Wf, BackoffOk,
}
use meshcore_repeater.Backbone.Invariant.{ClientWf}

pub send_hello-Wf :
    (net : Net) (bb : Client) (now : ℕ)
    → BackoffOk bb
    → Unconnected (life bb) true
    → ClientWf (send_hello net bb now)
unfolding send_hello
send_hello-Wf net bb now (lo, hi) held = go (
    bb_build_hello net.env.crypto (bb_hello_fixed + bb_name_max + 64) bb.mesh.id bb.roles_asked
      (hello_ts net bb) (net.scalarmult_base net.random_32) bb.mesh.cfg.name)
  where
    stamped : Client
    stamped = record bb { eph_sec = net.random_32; last_hello_ts = hello_ts net bb }

    kept : List ℕ → Client
    kept h = record stamped { hello = h; hello_hash = net.env.crypto.sha256 h }

    go :
        (o : Option (List ℕ))
        → ClientWf (elim o [
          | none ↦ retry_later (record stamped { hello = [] }) now
          | some h ↦ record (send_raw net (kept h) h) {
            hello_tries = bb.hello_tries + 1;
            state = bb_hello_sent;
            deadline_ms = now + bb_welcome_wait_ms;
          }
        ])
    go none = retry_later-Wf (record stamped { hello = [] }) now (lo, hi)
    go (some h) =
        subst (λ (l : Life). (5 ≤ l.backoff_s) × (l.backoff_s ≤ 300) × Unconnected l true)
          (sym (ap life_of (send_raw-Quiet net (kept h) h))) (lo, hi, held)

pub backoff_of : (bb : Client) → ClientWf bb → BackoffOk bb
backoff_of bb w = (w.0, w.1)

pub start_attempt-Wf :
    (net : Net) (bb : Client) (now : ℕ) → BackoffOk bb → ClientWf (start_attempt net bb now)
unfolding start_attempt forget_session
start_attempt-Wf net bb now w =
    let cleared : Client = record (forget_session bb) { hello_tries = 0 } in
    if_both ClientWf net.lookup_started (w.0, w.1, (refl, refl, refl))
      (retry_later-Wf cleared now w)

-- While a name is looked up, the socket is closed and there is no session.
pub check_resolved-Wf :
    (net : Net) (bb : Client) (now : ℕ)
    → ClientWf bb
    → Unconnected (life bb) false
    → ClientWf (check_resolved net bb now)
unfolding check_resolved
check_resolved-Wf net bb now w held = go net.lookup
  where
    free : Client
    free = record bb { gai_busy = false }

    linked : Client
    linked = record bb { gai_busy = false; fd = true }

    go :
        (l : Lookup)
        → ClientWf (elim l [
          | lookup_running ↦ bb
          | lookup_failed ↦ retry_later free now
          | lookup_done ↦ if net.connected then send_hello net linked now else retry_later free now
        ])
    go lookup_running = w
    go lookup_failed = retry_later-Wf free now (w.0, w.1)
    go lookup_done =
        if_both ClientWf net.connected
          (send_hello-Wf net linked now (w.0, w.1) (refl, held.1, held.2))
          (retry_later-Wf free now (w.0, w.1))

pub greet-Quiet : (net : Net) (bb : Client) (now : ℕ) → Quiet bb (greet net bb now)
unfolding greet
greet-Quiet net bb now =
    if_both (Quiet bb) (observing bb) (send_status-Quiet net alive now ∙ told) told
  where
    alive : Client
    alive = record (send_session net bb bb_t_keepalive []) {
      next_keepalive_ms = now + bb.keepalive_s * 1000;
    }

    told : Quiet bb alive
    told = send_session-Quiet net bb bb_t_keepalive []

greet-Steady : (net : Net) (bb : Client) (now : ℕ) → Steady bb (greet net bb now)
greet-Steady net bb now = ap life_of (greet-Quiet net bb now)

-- What a WELCOME that passes the checks grants.
check_welcome-Grants :
    (net : Net) (d hub hash : List ℕ) (asked : ℕ) (w : Welcome)
    → bb_check_welcome net.env.crypto d hub hash asked ≡ ok w
    → ((w.sid == 0) ≡ false) × (bit_and w.roles (255 - asked) ≡ 0)
unfolding bb_check_welcome
check_welcome-Grants net d hub hash asked w e =
    let r : Welcome = read_welcome d in
    elim (Bool-cases (not (length d == bb_welcome_len) || not (hdr_ok d bb_t_welcome))) [
      | inl bad ↦ absurd (ground (arith, e))
      | inr shaped ↦ elim (Bool-cases (bytes_eq (take 32 (drop 46 d)) hash)) [
        | inr other ↦ absurd (ground (arith, e))
        | inl answers ↦
            elim (Bool-cases (verify_ctx net.env.crypto hub ctx_welcome (take 84 d) (drop 84 d))) [
              | inr forged ↦ absurd (ground (arith, e))
              | inl signed ↦
                  elim (Bool-cases (r.sid == 0 || not (bit_and r.roles (255 - asked) == 0))) [
                    | inl refused ↦ absurd (ground (arith, e))
                    | inr granted ↦
                        let read : bb_check_welcome net.env.crypto d hub hash asked ≡ ok r =
                          rw (shaped, answers, signed, granted) refl in
                        let same : r ≡ w = ok_inj (sym read ∙ e) in
                        subst
                          (λ (x : Welcome).
                            ((x.sid == 0) ≡ false) × (bit_and x.roles (255 - asked) ≡ 0))
                          same (granted_both (r.sid == 0) (bit_and r.roles (255 - asked)) granted)
                  ]
            ]
      ]
    ]
  where
    granted_both :
        (zero_sid : Bool) (extra : ℕ)
        → (zero_sid || not (extra == 0)) ≡ false
        → (zero_sid ≡ false) × (extra ≡ 0)
    granted_both zero_sid extra h = ground arith

clamp_iv_bounds :
    (v lo hi def : ℕ)
    → lo ≤ def
    → def ≤ hi
    → (lo ≤ clamp_iv v lo hi def) × (clamp_iv v lo hi def ≤ hi)
unfolding clamp_iv
clamp_iv_bounds v lo hi def h k = ground arith

new_session-Wf :
    (bb : Client) (now : ℕ) (w : Welcome) (k_up k_down : List ℕ)
    → bb.fd ≡ true
    → (w.sid == 0) ≡ false
    → bit_and w.roles (255 - bb.roles_asked) ≡ 0
    → ClientWf (new_session bb now w k_up k_down)
unfolding new_session
new_session-Wf bb now w k_up k_down f s r =
    let k = clamp_iv_bounds w.keepalive_s 10 120 25 (omega arith) (omega arith) in
    let t = clamp_iv_bounds w.status_s 30 3600 60 (omega arith) (omega arith) in
    let n = clamp_iv_bounds w.neighbours_s 60 65535 300 (omega arith) (omega arith) in
    (omega arith, omega arith, (f, s, r, k.0, k.1, t.0, t.1, n.0, n.1))

pub waiting : (s : BbState) (l : Life) → is_hello_sent s ≡ true → StateOk s l → Unconnected l true
waiting bb_off l h k = ground arith
waiting bb_idle l h k = ground arith
waiting bb_resolving l h k = ground arith
waiting bb_hello_sent l h k = k
waiting bb_up l h k = ground arith

pub on_welcome-Wf :
    (net : Net) (bb : Client) (now : ℕ) (d : List ℕ)
    → ClientWf bb
    → ClientWf (on_welcome net bb now d)
unfolding on_welcome
on_welcome-Wf net bb now d w = elim (Bool-cases (is_hello_sent bb.state)) [
  | inr other ↦ subst ClientWf (sym (if_true _ _ (ap not other))) w
  | inl sent ↦ subst ClientWf (sym (if_false _ _ (ap not sent))) (
      answered (bb_check_welcome net.env.crypto d bb.hub_pub bb.hello_hash bb.roles_asked) refl
        (waiting bb.state (life bb) sent w.2).0)
]
  where
    keys_of : Welcome → Option (List ℕ × List ℕ)
    keys_of v = bb_derive_keys net.env.crypto (net.scalarmult bb.eph_sec v.eph_pub) bb.hello d

    derived :
        (v : Welcome) (o : Option (List ℕ × List ℕ))
        → bb.fd ≡ true
        → (v.sid == 0) ≡ false
        → bit_and v.roles (255 - bb.roles_asked) ≡ 0
        → ClientWf (elim o [
          | none ↦ reject (record bb { eph_sec = replicate 32 0 })
          | some keys ↦ greet net (new_session bb now v keys.0 keys.1) now
        ])
    derived v none f s r = w
    derived v (some keys) f s r =
        Steady-Wf (new_session bb now v keys.0 keys.1)
          (greet net (new_session bb now v keys.0 keys.1) now)
          (greet-Steady net (new_session bb now v keys.0 keys.1) now)
          (new_session-Wf bb now v keys.0 keys.1 f s r)

    answered :
        (r : Result Welcome)
        → bb_check_welcome net.env.crypto d bb.hub_pub bb.hello_hash bb.roles_asked ≡ r
        → bb.fd ≡ true
        → ClientWf (elim r [
          | err code ↦ reject bb
          | ok v ↦ elim (keys_of v) [
            | none ↦ reject (record bb { eph_sec = replicate 32 0 })
            | some keys ↦ greet net (new_session bb now v keys.0 keys.1) now
          ]
        ])
    answered (err code) e f = w
    answered (ok v) e f =
        let granted = check_welcome-Grants net d bb.hub_pub bb.hello_hash bb.roles_asked v e in
        derived v (keys_of v) f granted.0 granted.1
