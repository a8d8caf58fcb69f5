-- ===== src/Backbone/Invariant/Service.antt =====
-- src/backbone.c: backbone_init, backbone_service, backbone_close and the hooks keep the invariant.
use meshcore_repeater.Common.{
  ℕ, ◌+◌, ◌-◌, ◌*◌, ◌≤◌, ◌≡◌, refl, sym, ap, ◌∙◌, subst, Bool, true, not, ◌&&◌, ◌||◌, List, [], ◌∷◌,
  if◌then◌else◌, if_both, if_true, if_false, ltb, leb, ◌==◌, Bool-cases, inl, inr, arith,
}
use meshcore_repeater.Mesh.State.{Mesh}
use meshcore_repeater.Backbone.State.{
  Client, Net, Settings, BbState, bb_off, bb_idle, bb_resolving, bb_hello_sent, bb_up, is_up,
  is_hello_sent, forget_session, send_session, observing,
}
use meshcore_repeater.Backbone.Report.{bb_t_keepalive}
use meshcore_repeater.Backbone.Handshake.{start_attempt, check_resolved}
use meshcore_repeater.Backbone.Inbound.{read_loop, read_datagrams, bb_bye_shutdown, bb_rx_burst}
use meshcore_repeater.Backbone.Quiet.{send_session-Quiet, send_status-Quiet, send_neighbours-Quiet}
use meshcore_repeater.Backbone.Life.{
  Life, life, life_of, StateOk, Steady, Steady-Wf, retry_later-Wf, BackoffOk,
}
use meshcore_repeater.Backbone.Invariant.{ClientWf}
use meshcore_repeater.Backbone.Bridge.{backbone_offer, backbone_observe, backbone_status_soon}
use meshcore_repeater.Backbone.Quiet.{
  backbone_offer-Quiet, backbone_observe-Quiet, backbone_status_soon-Quiet,
}
use meshcore_repeater.Common.{ℤ}
use meshcore_repeater.Common.Text.{is_empty}
use meshcore_repeater.Backbone.Service.{
  blank_client, backbone_init, backbone_close, service_connect, service_hello, service_keepalive,
  service_status, service_neighbours, service_up, backbone_service, bb_hello_tries, bb_t_bye,
  bb_bye_rekey,
}
use meshcore_repeater.Backbone.Invariant.Handshake.{
  send_hello-Wf, start_attempt-Wf, check_resolved-Wf, waiting,
}
use meshcore_repeater.Backbone.Invariant.Session.{read_loop-Wf}

service_connect-Wf :
    (net : Net) (bb : Client) (now : ℕ) → ClientWf bb → ClientWf (service_connect net bb now)
unfolding service_connect
service_connect-Wf net bb now w = go bb.state w.2
  where
    go :
        (s : BbState)
        → StateOk s (life bb)
        → ClientWf (elim s [
          | bb_idle ↦ if leb bb.next_try_ms now then start_attempt net bb now else bb
          | bb_resolving ↦ check_resolved net bb now
          | _ ↦ bb
        ])
    go bb_off h = w
    go bb_idle h =
        if_both ClientWf (leb bb.next_try_ms now) (start_attempt-Wf net bb now (w.0, w.1)) w
    go bb_resolving h = check_resolved-Wf net bb now w h
    go bb_hello_sent h = w
    go bb_up h = w

service_hello-Wf :
    (net : Net) (bb : Client) (now : ℕ) → ClientWf bb → ClientWf (service_hello net bb now)
unfolding service_hello
service_hello-Wf net bb now w =
    elim (Bool-cases (is_hello_sent bb.state && leb bb.deadline_ms now)) [
      | inr early ↦ subst ClientWf (sym (if_false _ _ early)) w
      | inl late ↦
          let sent : is_hello_sent bb.state ≡ true = ground (arith, late) in
          subst ClientWf (sym (if_true _ _ late)) (
            if_both ClientWf (ltb bb.hello_tries bb_hello_tries)
              (send_hello-Wf net bb now (w.0, w.1) (waiting bb.state (life bb) sent w.2))
              (retry_later-Wf bb now (w.0, w.1)))
    ]

keepalive-Steady : (net : Net) (bb : Client) (now : ℕ) → Steady bb (service_keepalive net bb now)
unfolding service_keepalive
keepalive-Steady net bb now =
    if_both (Steady bb) (leb bb.next_keepalive_ms now)
      (ap life_of (send_session-Quiet net bb bb_t_keepalive [])) refl

status-Steady : (net : Net) (bb : Client) (now : ℕ) → Steady bb (service_status net bb now)
unfolding service_status
status-Steady net bb now =
    if_both (Steady bb) (leb bb.next_status_ms now) (ap life_of (send_status-Quiet net bb now)) refl

neighbours-Steady : (net : Net) (bb : Client) (now : ℕ) → Steady bb (service_neighbours net bb now)
unfolding service_neighbours
neighbours-Steady net bb now =
    if_both (Steady bb) (leb bb.next_neighbours_ms now) (ap life_of (send_neighbours-Quiet net bb))
      refl

service_up-Wf : (net : Net) (bb : Client) (now : ℕ) → ClientWf bb → ClientWf (service_up net bb now)
unfolding service_up forget_session
service_up-Wf net bb now w =
    if_both ClientWf (ltb ((3 * bb.keepalive_s + 5) * 1000) (now - bb.last_rx_ms))
      (w.0, w.1, (refl, refl, refl))
      (if_both ClientWf (leb 0x80000000 bb.seq_out) (bye.0, bye.1, (refl, refl, refl))
        (if_both ClientWf (observing bb)
          (Steady-Wf bb (service_neighbours net (service_status net alive now) now)
            (neighbours-Steady net (service_status net alive now) now
              ∙ status-Steady net alive now
              ∙ keepalive-Steady net bb now)
            w)
          (Steady-Wf bb alive (keepalive-Steady net bb now) w)))
  where
    alive : Client
    alive = service_keepalive net bb now

    bye : BackoffOk (send_session net bb bb_t_bye (bb_bye_rekey ∷ []))
    bye =
        subst (λ (l : Life). (5 ≤ l.backoff_s) × (l.backoff_s ≤ 300))
          (sym (ap life_of (send_session-Quiet net bb bb_t_bye (bb_bye_rekey ∷ [])))) (w.0, w.1)

backbone_service-Wf :
    (net : Net) (bb : Client) (now : ℕ) → ClientWf bb → ClientWf (backbone_service net bb now)
unfolding backbone_service read_datagrams
backbone_service-Wf net bb now w =
    if_both ClientWf _ w
      (if_both ClientWf (is_up waited.state) (service_up-Wf net waited now waited_ok) waited_ok)
  where
    tried : Client
    tried = service_connect net bb now

    read : Client
    read = if tried.fd then read_loop bb_rx_burst net tried now net.inbox else tried

    waited : Client
    waited = service_hello net read now

    tried_ok : ClientWf tried
    tried_ok = service_connect-Wf net bb now w

    waited_ok : ClientWf waited
    waited_ok = service_hello-Wf net read now (
        if_both ClientWf tried.fd (read_loop-Wf bb_rx_burst net tried now net.inbox tried_ok)
          tried_ok)

backbone_init-Wf :
    (mesh : Mesh) (settings : Settings) (now : ℕ) → ClientWf (backbone_init mesh settings now).1
unfolding backbone_init
backbone_init-Wf mesh settings now =
    if_both (λ (x : ℕ × Client). ClientWf x.1) (not settings.enable) fresh
      (if_both (λ (x : ℕ × Client). ClientWf x.1)
        (not settings.have_hub_key || (is_empty settings.host || settings.port == 0)) fresh fresh)
  where
    fresh : ClientWf (blank_client mesh settings)
    fresh = (omega arith, omega arith, (refl, refl, refl))

backbone_close-Wf :
    (net : Net) (cancelled : Bool) (bb : Client)
    → ClientWf bb
    → ClientWf (backbone_close net cancelled bb)
unfolding backbone_close forget_session
backbone_close-Wf net cancelled bb w = (told.0, told.1, (refl, refl, refl))
  where
    told :
        BackoffOk
          (if is_up bb.state then send_session net bb bb_t_bye (bb_bye_shutdown ∷ []) else bb)
    told =
        if_both BackoffOk (is_up bb.state)
          (subst (λ (l : Life). (5 ≤ l.backoff_s) × (l.backoff_s ≤ 300))
            (sym (ap life_of (send_session-Quiet net bb bb_t_bye (bb_bye_shutdown ∷ []))))
            (w.0, w.1))
          (w.0, w.1)

-- The states of the client in the daemon: after backbone_init, and after each call of the main loop
-- and of the mesh, in any order and with any answers from outside. `meshed`: the mesh, which the
-- client shares, has changed.
pub data Reached : Mesh → Settings → Client → Type 0 where
  booted : (m : Mesh) (s : Settings) (now : ℕ) → Reached m s (backbone_init m s now).1
  serviced :
      {m : Mesh} {s : Settings} {bb : Client} (net : Net) (now : ℕ)
      → Reached m s bb
      → Reached m s (backbone_service net bb now)
  offered :
      {m : Mesh} {s : Settings} {bb : Client} (net : Net) (frame : List ℕ) (own : Bool)
      → Reached m s bb
      → Reached m s (backbone_offer net bb frame own)
  observed :
      {m : Mesh} {s : Settings} {bb : Client} (net : Net) (frame : List ℕ) (rssi snr : ℤ)
      (flags : ℕ) (disposition : ℤ)
      → Reached m s bb
      → Reached m s (backbone_observe net bb frame rssi snr flags disposition)
  hurried :
      {m : Mesh} {s : Settings} {bb : Client}
      → Reached m s bb
      → Reached m s (backbone_status_soon bb)
  meshed :
      {m : Mesh} {s : Settings} {bb : Client} (mesh : Mesh)
      → Reached m s bb
      → Reached m s (record bb { mesh = mesh })
  closed :
      {m : Mesh} {s : Settings} {bb : Client} (net : Net) (cancelled : Bool)
      → Reached m s bb
      → Reached m s (backbone_close net cancelled bb)

-- In every state that the client can reach, whatever the lookup, the socket and the hub do: without a
-- session there is no session id and no role, and the socket is open only while a WELCOME is
-- awaited; a session has a socket, an id other than 0, no role that the node did not ask for, and its
-- intervals in their ranges; the backoff stays between 5 s and 300 s.
pub Reached-Wf : (m : Mesh) (s : Settings) (bb : Client) → Reached m s bb → ClientWf bb
Reached-Wf m s bb (booted m' s' now) = backbone_init-Wf m' s' now
Reached-Wf m s bb' (serviced {bb = bb} net now r) =
    backbone_service-Wf net bb now (Reached-Wf m s bb r)
Reached-Wf m s bb' (offered {bb = bb} net frame own r) =
    Steady-Wf bb (backbone_offer net bb frame own)
      (ap life_of (backbone_offer-Quiet net bb frame own)) (Reached-Wf m s bb r)
Reached-Wf m s bb' (observed {bb = bb} net frame rssi snr flags disposition r) =
    Steady-Wf bb (backbone_observe net bb frame rssi snr flags disposition)
      (ap life_of (backbone_observe-Quiet net bb frame rssi snr flags disposition))
      (Reached-Wf m s bb r)
Reached-Wf m s bb' (hurried {bb = bb} r) =
    Steady-Wf bb (backbone_status_soon bb) (ap life_of (backbone_status_soon-Quiet bb))
      (Reached-Wf m s bb r)
Reached-Wf m s bb' (meshed {bb = bb} mesh r) =
    Steady-Wf bb (record bb { mesh = mesh }) refl (Reached-Wf m s bb r)
Reached-Wf m s bb' (closed {bb = bb} net cancelled r) =
    backbone_close-Wf net cancelled bb (Reached-Wf m s bb r)
