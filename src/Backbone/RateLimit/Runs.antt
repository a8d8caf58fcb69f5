-- ===== src/Backbone/RateLimit/Runs.antt =====
-- src/backbone.c: the rate limit over every run of the client.
use meshcore_repeater.Common.{
  ℕ, zero, suc, ◌+◌, ◌-◌, ◌*◌, ◌≤◌, ◌≡◌, refl, ap, Bool, not, ◌&&◌, ◌||◌, List, [], ◌∷◌,
  if◌then◌else◌, if_both, ltb, leb, ◌==◌, length, take, drop, get_or, Result, ok, err, inl, inr, ℤ,
  arith,
}
use meshcore_repeater.Util.Endian.{rd_u32le}
use meshcore_repeater.Mesh.State.{Mesh}
use meshcore_repeater.Backbone.Codec.{
  Opened, bb_max_dgram, bb_hdr, bb_mac, bb_t_welcome, bb_t_reset, magic_ok, bb_open,
}
use meshcore_repeater.Backbone.Replay.{bb_replay_check}
use meshcore_repeater.Backbone.State.{Client, Net, is_up, reject}
use meshcore_repeater.Backbone.Bridge.{
  on_frame, bucket_rate, bucket_cap, backbone_offer, backbone_observe, backbone_status_soon,
}
use meshcore_repeater.Backbone.Inbound.{
  on_opened, on_session, on_datagram, read_loop, read_datagrams, bb_rx_burst, bb_t_keepalive_ack,
  bb_t_frame, bb_t_policy, bb_t_bye_down, on_policy, on_bye,
}
use meshcore_repeater.Backbone.Handshake.{on_welcome, on_reset}
use meshcore_repeater.Backbone.Service.{
  backbone_service, backbone_close, service_connect, service_hello, service_up,
}
use meshcore_repeater.Backbone.Quiet.{
  backbone_offer-Quiet, backbone_observe-Quiet, backbone_status_soon-Quiet,
}
use meshcore_repeater.Backbone.Life.{on_policy-Quiet}
use meshcore_repeater.Backbone.RateLimit.{Budget, charge-Budget, on_frame-Charged, split_time}
use meshcore_repeater.Backbone.RateLimit.Meter.{
  meter_of, Same, Same-SameBucket, on_welcome-Same, on_reset-Same, on_bye-Same,
  service_connect-Same, service_hello-Same, service_up-Same, backbone_close-Same,
}

-- One call at the time `now`, in a run from `bb` at `t` on.
module _ (t now : ℕ) (bb : Client) (one : 1 ≤ t) where
  Same-Budget : (b n : Client) → Same b n → Budget t bb now b → Budget t bb now n
  Same-Budget b n e h =
      charge-Budget t now now bb b n one (omega arith) h (inl (Same-SameBucket b n e))

  on_opened-Budget :
      (net : Net) (b : Client) (o : Opened)
      → Budget t bb now b
      → Budget t bb now (on_opened net b now o)
  unfolding on_opened
  on_opened-Budget net b o h = if_both (Budget t bb now) (o.type == bb_t_keepalive_ack) h (
      if_both (Budget t bb now) (o.type == bb_t_frame)
        (charge-Budget t now now bb b (on_frame net b now o.body) one (omega arith) h
          (on_frame-Charged net b now o.body))
        (if_both (Budget t bb now) (o.type == bb_t_policy)
          (Same-Budget b (on_policy net b o.seq o.body)
            (ap meter_of (on_policy-Quiet net b o.seq o.body)) h)
          (if_both (Budget t bb now) (o.type == bb_t_bye_down)
            (Same-Budget b (on_bye b now o.body) (on_bye-Same b now o.body) h) h)))

  on_session-Budget :
      (net : Net) (b : Client) (d : List ℕ)
      → Budget t bb now b
      → Budget t bb now (on_session net b now d)
  unfolding on_session
  on_session-Budget net b d h =
      if_both (Budget t bb now)
        (not (is_up b.state)
          || (ltb (length d) (bb_hdr + bb_mac) || not (rd_u32le (drop 4 d) == b.sid)))
        h (go (bb_open net.env.crypto d b.k_down))
    where
      counted : Opened → Client
      counted o = record b {
        rwin = (bb_replay_check b.rwin o.seq).0;
        dgrams_in = b.dgrams_in + 1;
        last_rx_ms = now;
      }

      go :
          (r : Result Opened)
          → Budget t bb now (elim r [
            | err code ↦ reject b
            | ok o ↦
                if (bb_replay_check b.rwin o.seq).1
                then on_opened net (counted o) now o
                else reject (record b { rwin = (bb_replay_check b.rwin o.seq).0 })
          ])
      go (err code) = h
      go (ok o) =
          if_both (Budget t bb now) (bb_replay_check b.rwin o.seq).1
            (on_opened-Budget net (counted o) o h) h

  on_datagram-Budget :
      (net : Net) (b : Client) (d : List ℕ)
      → Budget t bb now b
      → Budget t bb now (on_datagram net b now d)
  unfolding on_datagram
  on_datagram-Budget net b d h =
      let type = get_or d 3 0 in
      if_both (Budget t bb now)
        (ltb bb_max_dgram (length d) || (ltb (length d) 4 || not (magic_ok d))) h
        (if_both (Budget t bb now) (type == bb_t_welcome)
          (Same-Budget b (on_welcome net b now d) (on_welcome-Same net b now d) h)
          (if_both (Budget t bb now) (type == bb_t_reset)
            (Same-Budget b (on_reset net b now d) (on_reset-Same net b now d) h)
            (if_both (Budget t bb now) (leb 0x20 type && leb type 0x2f)
              (on_session-Budget net b d h) h)))

  read_loop-Budget :
      (n : ℕ) (net : Net) (b : Client) (ds : List (List ℕ))
      → Budget t bb now b
      → Budget t bb now (read_loop n net b now ds)
  unfolding read_loop
  read_loop-Budget zero net b ds h = h
  read_loop-Budget (suc n) net b [] h = h
  read_loop-Budget (suc n) net b (d ∷ ds) h =
      let d' = take (bb_max_dgram + 1) d in
      if_both (Budget t bb now) b.fd
        (read_loop-Budget n net (on_datagram net b now d') ds (on_datagram-Budget net b d' h)) h

  backbone_service-Budget :
      (net : Net) (b : Client) → Budget t bb now b → Budget t bb now (backbone_service net b now)
  unfolding backbone_service read_datagrams
  backbone_service-Budget net b h = if_both (Budget t bb now) _ h (
      if_both (Budget t bb now) (is_up waited.state)
        (Same-Budget waited (service_up net waited now) (service_up-Same net waited now) waited_ok)
        waited_ok)
    where
      tried : Client
      tried = service_connect net b now

      read : Client
      read = if tried.fd then read_loop bb_rx_burst net tried now net.inbox else tried

      waited : Client
      waited = service_hello net read now

      tried_ok : Budget t bb now tried
      tried_ok = Same-Budget b tried (service_connect-Same net b now) h

      waited_ok : Budget t bb now waited
      waited_ok = Same-Budget read waited (service_hello-Same net read now) (
          if_both (Budget t bb now) tried.fd
            (read_loop-Budget bb_rx_burst net tried net.inbox tried_ok) tried_ok)

-- A run of the client: the calls of the main loop, at times that do not decrease, each of which takes
-- what datagrams there are, and between them the calls of the mesh and of the daemon, in any order
-- and with any answers from outside. `polled`: backbone_service; `meshed`: the mesh, which the client shares, has changed.
pub data Run : ℕ → Client → ℕ → Client → Type 0 where
  start : (t : ℕ) (bb : Client) → Run t bb t bb
  polled :
      {t u : ℕ} {bb bb' : Client} (net : Net) (now : ℕ)
      → Run t bb u bb'
      → u ≤ now
      → Run t bb now (backbone_service net bb' now)
  offered :
      {t u : ℕ} {bb bb' : Client} (net : Net) (frame : List ℕ) (own : Bool)
      → Run t bb u bb'
      → Run t bb u (backbone_offer net bb' frame own)
  observed :
      {t u : ℕ} {bb bb' : Client} (net : Net) (frame : List ℕ) (rssi snr : ℤ) (flags : ℕ)
      (disposition : ℤ)
      → Run t bb u bb'
      → Run t bb u (backbone_observe net bb' frame rssi snr flags disposition)
  hurried : {t u : ℕ} {bb bb' : Client} → Run t bb u bb' → Run t bb u (backbone_status_soon bb')
  meshed :
      {t u : ℕ} {bb bb' : Client} (mesh : Mesh)
      → Run t bb u bb'
      → Run t bb u (record bb' { mesh = mesh })
  closed :
      {t u : ℕ} {bb bb' : Client} (net : Net) (cancelled : Bool)
      → Run t bb u bb'
      → Run t bb u (backbone_close net cancelled bb')

Run-Budget :
    {t u : ℕ} {bb bb' : Client} → bb.tokens_ms ≡ 0 → 1 ≤ t → Run t bb u bb' → Budget t bb u bb'
Run-Budget z one (start t bb) = (refl, omega arith, inl (z, refl))
Run-Budget z one (polled {t} {u} {bb} {bb' = b} net now run later) =
    backbone_service-Budget t now bb one net b
      (charge-Budget t u now bb b b one later (Run-Budget z one run) (inl (refl, refl, refl, refl)))
Run-Budget z one (offered {t} {u} {bb} {bb' = b} net frame own run) =
    Same-Budget t u bb one b (backbone_offer net b frame own)
      (ap meter_of (backbone_offer-Quiet net b frame own)) (Run-Budget z one run)
Run-Budget z one (observed {t} {u} {bb} {bb' = b} net frame rssi snr flags disposition run) =
    Same-Budget t u bb one b (backbone_observe net b frame rssi snr flags disposition)
      (ap meter_of (backbone_observe-Quiet net b frame rssi snr flags disposition))
      (Run-Budget z one run)
Run-Budget z one (hurried {t} {u} {bb} {bb' = b} run) =
    Same-Budget t u bb one b (backbone_status_soon b) (ap meter_of (backbone_status_soon-Quiet b))
      (Run-Budget z one run)
Run-Budget z one (meshed {t} {u} {bb} {bb' = b} mesh run) =
    Same-Budget t u bb one b (record b { mesh = mesh }) refl (Run-Budget z one run)
Run-Budget z one (closed {t} {u} {bb} {bb' = b} net cancelled run) =
    Same-Budget t u bb one b (backbone_close net cancelled b) (backbone_close-Same net cancelled b)
      (Run-Budget z one run)

-- The hub cannot make the node transmit more than the operator allows: over any run of the client
-- that begins before its first frame, however often the hub sends and whatever else it sends, whatever
-- sessions begin and end, the frames that reach the mesh are at most the bucket and what was refilled
-- since, at the rate of the settings per 60000 ms.
pub injected_bounds :
    (t u : ℕ) (bb bb' : Client)
    → bb.tokens_ms ≡ 0
    → 1 ≤ t
    → Run t bb u bb'
    → bb'.injected * 60000
      ≤ bb.injected * 60000 + bucket_cap bb.settings.rate + (u - t) * bucket_rate bb.settings.rate
injected_bounds t u bb bb' z one run = elim (Run-Budget z one run).2 [
  | inl (zero_ms, none_yet) ↦ omega (arith, none_yet)
  | inr (from, to, le) ↦
      omega (arith, le, split_time t bb'.tokens_ms u (bucket_rate bb.settings.rate) from to)
]
