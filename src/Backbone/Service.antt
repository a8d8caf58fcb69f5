-- ===== src/Backbone/Service.antt =====
-- src/backbone.c: backbone_init, backbone_close, backbone_pollfd and backbone_service.
use meshcore_repeater.Common.{
  ℕ, ◌+◌, ◌-◌, ◌*◌, Bool, true, false, not, ◌&&◌, ◌||◌, [], ◌∷◌, ltb, leb, ◌==◌, if◌then◌else◌,
  replicate,
}
use meshcore_repeater.Common.Text.{is_empty}
use meshcore_repeater.Config.{no_policy}
use meshcore_repeater.Mesh.State.{Mesh}
use meshcore_repeater.Backbone.Replay.{fresh_window}
use meshcore_repeater.Backbone.State.{
  Client, Net, Settings, BbState, bb_off, bb_idle, bb_resolving, bb_hello_sent, bb_up, is_up,
  is_hello_sent, observing, send_session, forget_session, retry_later, bb_role_observe,
  bb_role_bridge,
}
use meshcore_repeater.Backbone.Report.{bb_t_keepalive, send_status, send_neighbours}
use meshcore_repeater.Backbone.Handshake.{start_attempt, check_resolved, send_hello}
use meshcore_repeater.Backbone.Inbound.{read_datagrams, bb_bye_shutdown}

abbrev pub bb_hello_tries : ℕ
bb_hello_tries = 3

abbrev pub bb_t_bye : ℕ
bb_t_bye = 0x1f

abbrev pub bb_bye_rekey : ℕ
bb_bye_rekey = 1

-- The state after `memset`, and the fields that backbone_init sets in any case.
abbrev pub blank_client : Mesh → Settings → Client
blank_client mesh settings = record {
  mesh = mesh;
  settings = settings;
  hub_pub = replicate 32 0;
  roles_asked = 0;
  state = bb_off;
  fd = false;
  gai_busy = false;
  next_try_ms = 0;
  deadline_ms = 0;
  backoff_s = 5;
  hello_tries = 0;
  eph_sec = replicate 32 0;
  hello = [];
  hello_hash = replicate 32 0;
  last_hello_ts = 0;
  sid = 0;
  roles = 0;
  k_up = replicate 32 0;
  k_down = replicate 32 0;
  seq_out = 0;
  rwin = fresh_window;
  keepalive_s = 0;
  status_s = 0;
  neighbours_s = 0;
  up_since_ms = 0;
  last_rx_ms = 0;
  next_keepalive_ms = 0;
  next_status_ms = 0;
  next_neighbours_ms = 0;
  last_reset_ms = 0;
  tokens = 0;
  tokens_ms = 0;
  pol = no_policy;
  pol_pages = 0;
  pol_have = 0;
  pol_min_seq = 0;
  pol_max_seq = 0;
  pol_applied_seq = 0;
  sessions = 0;
  dgrams_out = 0;
  dgrams_in = 0;
  observed = 0;
  offered = 0;
  injected = 0;
  limited = 0;
  rejected = 0;
  sent = [];
}

-- A status (0, or 1 for -1) and the client.
unfoldable pub backbone_init : Mesh → Settings → ℕ → ℕ × Client
backbone_init mesh settings now =
    let off = blank_client mesh settings in
    if not settings.enable
    then (0, off)
    else if not settings.have_hub_key || (is_empty settings.host || settings.port == 0)
    then (1, off)
    else (
      0,
      record off {
        hub_pub = settings.hub_key;
        roles_asked =
            (if settings.observe then bb_role_observe else 0)
            + (if settings.bridge then bb_role_bridge else 0);
        state = bb_idle;
        next_try_ms = now;
      },
    )

-- `cancelled`: gai_cancel answered EAI_CANCELED.
unfoldable pub backbone_close : Net → Bool → Client → Client
unfolding send_session forget_session
backbone_close net cancelled bb =
    let told = if is_up bb.state then send_session net bb bb_t_bye (bb_bye_shutdown ∷ []) else bb in
    record (forget_session told) { gai_busy = bb.gai_busy && not cancelled; state = bb_off }

-- Whether there is a descriptor to poll.
unfoldable pub backbone_pollfd : Client → Bool
backbone_pollfd bb = (is_hello_sent bb.state || is_up bb.state) && bb.fd

unfoldable pub service_connect : Net → Client → ℕ → Client
unfolding start_attempt check_resolved
service_connect net bb now = elim bb.state [
  | bb_idle ↦ if leb bb.next_try_ms now then start_attempt net bb now else bb
  | bb_resolving ↦ check_resolved net bb now
  | _ ↦ bb
]

-- The WELCOME that did not come.
unfoldable pub service_hello : Net → Client → ℕ → Client
unfolding send_hello retry_later
service_hello net bb now =
    if is_hello_sent bb.state && leb bb.deadline_ms now
    then (if ltb bb.hello_tries bb_hello_tries then send_hello net bb now else retry_later bb now)
    else bb

unfoldable pub service_keepalive : Net → Client → ℕ → Client
unfolding send_session
service_keepalive net bb now =
    if leb bb.next_keepalive_ms now
    then record (send_session net bb bb_t_keepalive []) {
      next_keepalive_ms = now + bb.keepalive_s * 1000;
    }
    else bb

unfoldable pub service_status : Net → Client → ℕ → Client
unfolding send_status
service_status net bb now =
    if leb bb.next_status_ms now
    then record (send_status net bb now) { next_status_ms = now + bb.status_s * 1000 }
    else bb

unfoldable pub service_neighbours : Net → Client → ℕ → Client
unfolding send_neighbours
service_neighbours net bb now =
    if leb bb.next_neighbours_ms now
    then record (send_neighbours net bb) { next_neighbours_ms = now + bb.neighbours_s * 1000 }
    else bb

-- A session that is up. The clock does not run backwards.
unfoldable pub service_up : Net → Client → ℕ → Client
unfolding forget_session send_session service_keepalive service_status service_neighbours
service_up net bb now =
    let alive = service_keepalive net bb now in
    if ltb ((3 * bb.keepalive_s + 5) * 1000) (now - bb.last_rx_ms)
    then record (forget_session bb) { next_try_ms = now }
    else if leb 0x80000000 bb.seq_out
    then record (forget_session (send_session net bb bb_t_bye (bb_bye_rekey ∷ []))) {
      next_try_ms = now;
    }
    else if observing bb
    then service_neighbours net (service_status net alive now) now
    else alive

unfoldable pub backbone_service : Net → Client → ℕ → Client
unfolding service_connect read_datagrams service_hello service_up
backbone_service net bb now =
    let tried = service_connect net bb now in
    let read = if tried.fd then read_datagrams net tried now else tried in
    let waited = service_hello net read now in
    if is_off bb.state then bb else if is_up waited.state then service_up net waited now else waited
  where
    is_off : BbState → Bool
    is_off bb_off = true
    is_off bb_idle = false
    is_off bb_resolving = false
    is_off bb_hello_sent = false
    is_off bb_up = false
