-- ===== src/Backbone/Retry.antt =====
-- src/backbone.c: the waits between attempts, and the timestamps of the HELLOs.
use meshcore_repeater.Common.{
  ℕ, suc, ◌+◌, ◌*◌, ◌%◌, ◌^◌, ◌≤◌, ◌<◌, ◌≡◌, ◌⊎◌, inl, inr, Bool-cases, if_true, if_false, refl, ap,
  List, [], Option, none, some, if◌then◌else◌, ltb, leb, arith,
}
use meshcore_repeater.Mesh.Random.{hal_rng_int_bounds}
use meshcore_repeater.Backbone.State.{
  Client, Net, bb_hello_sent, retry_later, forget_session, send_raw,
}
use meshcore_repeater.Backbone.Handshake.{hello_ts, send_hello, bb_welcome_wait_ms}
use meshcore_repeater.Backbone.Life.{BackoffOk}
use meshcore_repeater.Backbone.Quiet.{Core, send_raw-Quiet}

-- After a failed attempt the client waits its backoff, between 5 s and 300 s, and up to a quarter of
-- it more. The next backoff is twice as long, or 300 s when that would be longer.
pub retry_later_bounds :
    (bb : Client) (now : ℕ)
    → BackoffOk bb
    → let bb' = retry_later bb now in
      (now + bb.backoff_s * 1000 ≤ bb'.next_try_ms)
      × (bb'.next_try_ms ≤ now + bb.backoff_s * 1250)
      × (((bb.backoff_s * 2 ≤ 300) × (bb'.backoff_s ≡ bb.backoff_s * 2))
          ⊎ ((300 ≤ bb.backoff_s * 2) × (bb'.backoff_s ≡ 300)))
unfolding retry_later forget_session
retry_later_bounds bb now w =
    let b : ℕ = bb.backoff_s in
    let jitter = hal_rng_int_bounds bb.mesh.rng_state 0 (b * 250 % 2 ^ 32) (omega arith) in
    (omega arith, omega (arith, jitter.1, w.1), doubled b)
  where
    doubled :
        (b : ℕ)
        → ((b * 2 ≤ 300) × ((if ltb 300 (b * 2) then 300 else b * 2) ≡ b * 2))
          ⊎ ((300 ≤ b * 2) × ((if ltb 300 (b * 2) then 300 else b * 2) ≡ 300))
    doubled b = elim (Bool-cases (ltb 300 (b * 2))) [
      | inl long ↦ inr (ground (arith, long), if_true _ _ long)
      | inr short ↦ inl (ground (arith, short), if_false _ _ short)
    ]

-- The timestamp of a HELLO is greater than that of every one before it, whatever the clock says, and
-- it is the one that is remembered: until the last timestamp is the greatest 32-bit one.
send_hello_increases :
    (net : Net) (bb : Client) (now : ℕ)
    → suc bb.last_hello_ts < 2 ^ 32
    → (bb.last_hello_ts < hello_ts net bb)
      × ((send_hello net bb now).last_hello_ts ≡ hello_ts net bb)
unfolding send_hello hello_ts retry_later forget_session
send_hello_increases net bb now h = (later (net.env.unix % 2 ^ 32) bb.last_hello_ts h, go _)
  where
    stamped : Client
    stamped = record bb { eph_sec = net.random_32; last_hello_ts = hello_ts net bb }

    kept : List ℕ → Client
    kept h = record stamped { hello = h; hello_hash = net.env.crypto.sha256 h }

    final : Option (List ℕ) → Client
    final o = elim o [
      | none ↦ retry_later (record stamped { hello = [] }) now
      | some h ↦ record (send_raw net (kept h) h) {
        hello_tries = bb.hello_tries + 1;
        state = bb_hello_sent;
        deadline_ms = now + bb_welcome_wait_ms;
      }
    ]

    go : (o : Option (List ℕ)) → (final o).last_hello_ts ≡ hello_ts net bb
    go none = refl
    go (some h) = ap (λ (x : Core). x.last_hello_ts) (send_raw-Quiet net (kept h) h)

    later :
        (ts last : ℕ) → suc last < 2 ^ 32 → last < (if leb ts last then (last + 1) % 2 ^ 32 else ts)
    later ts last h = ground arith
