-- ===== src/Backbone/Life.antt =====
-- src/backbone.c: the states of the client, and what holds in each of them.
use meshcore_repeater.Common.{
  ℕ, ◌+◌, ◌-◌, ◌*◌, ◌%◌, ◌^◌, ◌≤◌, ◌≡◌, refl, sym, ap, ◌∙◌, subst, Bool, true, false, not, ◌&&◌,
  ◌||◌, List, Option, none, some, if◌then◌else◌, if_both, ltb, leb, ◌==◌, length, drop, get_or, pos,
  arith,
}
use Prim.Native.Nat.{bit_and}
use meshcore_repeater.Common.Bits.{bit_at, set_bit}
use meshcore_repeater.Util.Endian.{rd_u32le}
use meshcore_repeater.Mesh.State.{RxResult}
use meshcore_repeater.Mesh.Queue.{mesh_txq_free}
use meshcore_repeater.Config.{Policy}
use meshcore_repeater.Backbone.Policy.{policy_walk}
use meshcore_repeater.Backbone.State.{
  reject, Client, Net, BbState, bb_off, bb_idle, bb_resolving, bb_hello_sent, bb_up, bridging,
  forget_session, retry_later,
}
use meshcore_repeater.Backbone.Bridge.{
  on_frame, inject, refill, frame_body_bad, frame_of, is_malformed, disposition_of, bb_disp_limited,
  bb_txq_headroom,
}
use meshcore_repeater.Backbone.Inbound.{
  policy_complete, policy_page, policy_begin, policy_bad, on_policy,
}
use meshcore_repeater.Backbone.Quiet.{
  Core, core, Quiet, inject-Quiet, observe_hub-Quiet, backbone_status_soon-Quiet,
}

-- The part of the state that says what the client is doing.
pub record Life : Type 0 where
  pub roles_asked : ℕ
  pub state : BbState
  pub fd : Bool
  pub backoff_s : ℕ
  pub sid : ℕ
  pub roles : ℕ
  pub keepalive_s : ℕ
  pub status_s : ℕ
  pub neighbours_s : ℕ

abbrev pub life_of : Core → Life
life_of c = record {
  roles_asked = c.roles_asked;
  state = c.state;
  fd = c.fd;
  backoff_s = c.backoff_s;
  sid = c.sid;
  roles = c.roles;
  keepalive_s = c.keepalive_s;
  status_s = c.status_s;
  neighbours_s = c.neighbours_s;
}

abbrev pub life : Client → Life
life bb = life_of (core bb)

-- Without a session there is no session id and no role; the socket is open from HELLO on.
abbrev pub Unconnected : Life → Bool → Type 0
Unconnected l fd = (l.fd ≡ fd) × (l.sid ≡ 0) × (l.roles ≡ 0)

-- A session has a socket, an id, no role that was not asked for, and intervals in their ranges.
abbrev pub Connected : Life → Type 0
Connected l =
    (l.fd ≡ true)
    × ((l.sid == 0) ≡ false)
    × (bit_and l.roles (255 - l.roles_asked) ≡ 0)
    × (10 ≤ l.keepalive_s)
    × (l.keepalive_s ≤ 120)
    × (30 ≤ l.status_s)
    × (l.status_s ≤ 3600)
    × (60 ≤ l.neighbours_s)
    × (l.neighbours_s ≤ 65535)

abbrev pub StateOk : BbState → Life → Type 0
StateOk bb_off l = Unconnected l false
StateOk bb_idle l = Unconnected l false
StateOk bb_resolving l = Unconnected l false
StateOk bb_hello_sent l = Unconnected l true
StateOk bb_up l = Connected l

-- The backoff stays between 5 s and 300 s.
abbrev pub Wf : Life → Type 0
Wf l = (5 ≤ l.backoff_s) × (l.backoff_s ≤ 300) × StateOk l.state l

abbrev pub Steady : Client → Client → Type 0
Steady bb bb' = life bb' ≡ life bb

pub Steady-Wf : (bb bb' : Client) → Steady bb bb' → Wf (life bb) → Wf (life bb')
Steady-Wf bb bb' e w = subst Wf (sym e) w

pub quiet-Steady : (bb bb' : Client) → core bb' ≡ core bb → Steady bb bb'
quiet-Steady bb bb' e = ap life_of e

-- The bounds of the backoff.
abbrev pub BackoffOk : Client → Type 0
BackoffOk bb = (5 ≤ bb.backoff_s) × (bb.backoff_s ≤ 300)

pub forget_session-Wf : (bb : Client) → BackoffOk bb → Wf (life (forget_session bb))
unfolding forget_session
forget_session-Wf bb w = (w.0, w.1, (refl, refl, refl))

pub retry_later-Wf : (bb : Client) (now : ℕ) → BackoffOk bb → Wf (life (retry_later bb now))
unfolding retry_later forget_session
retry_later-Wf bb now w = (lower bb.backoff_s w.0, upper bb.backoff_s, (refl, refl, refl))
  where
    lower : (b : ℕ) → 5 ≤ b → 5 ≤ (if ltb 300 (b * 2) then 300 else b * 2)
    lower b h = ground arith

    upper : (b : ℕ) → (if ltb 300 (b * 2) then 300 else b * 2) ≤ 300
    upper b = ground arith

pub on_frame-Steady :
    (net : Net) (bb : Client) (now : ℕ) (body : List ℕ) → Steady bb (on_frame net bb now body)
unfolding on_frame
on_frame-Steady net bb now body =
    if_both (Steady bb) (not (bridging bb) || frame_body_bad body) refl (
      if_both (Steady bb) (ltb tokens 60000 || ltb (mesh_txq_free bb.mesh) bb_txq_headroom)
        (ap life_of (observe_hub-Quiet net limited frame (pos bb_disp_limited)))
        (if_both (Steady bb) (is_malformed r) (ap life_of (inject-Quiet net spent frame)) (
          ap life_of (observe_hub-Quiet net counted frame (disposition_of r))
          ∙ ap life_of (inject-Quiet net spent frame))))
  where
    tokens : ℕ
    tokens = refill bb.settings.rate bb.tokens bb.tokens_ms now

    timed : Client
    timed = record bb { tokens = tokens; tokens_ms = now }

    spent : Client
    spent = record timed { tokens = tokens - 60000 }

    frame : List ℕ
    frame = frame_of body

    done : Client
    done = (inject net spent frame).0

    r : RxResult
    r = (inject net spent frame).1

    limited : Client
    limited = record timed { limited = bb.limited + 1 }

    counted : Client
    counted = record done { injected = done.injected + 1 }

policy_complete-Quiet : (net : Net) (bb : Client) → Quiet bb (policy_complete net bb)
unfolding policy_complete
policy_complete-Quiet net bb =
    backbone_status_soon-Quiet _
    ∙ if_both (Quiet bb) (bb.pol.version == bb.mesh.cfg.policy.version) refl refl

policy_page-Quiet :
    (net : Net) (bb : Client) (seq page pages : ℕ) (entries : List ℕ)
    → Quiet bb (policy_page net bb seq page pages entries)
unfolding policy_page
policy_page-Quiet net bb seq page pages entries =
    if_both (Quiet bb) (leb 1 (bit_at bb.pol_have (page - 1))) refl
      (go (policy_walk entries bb.pol))
  where
    held : Policy → Client
    held pol = record bb {
      pol = pol;
      pol_have = set_bit bb.pol_have (page - 1);
      pol_min_seq = if ltb seq bb.pol_min_seq then seq else bb.pol_min_seq;
      pol_max_seq = if ltb bb.pol_max_seq seq then seq else bb.pol_max_seq;
    }

    go :
        (o : Option Policy)
        → Quiet bb (elim o [
          | none ↦ bb
          | some pol ↦
              if (held pol).pol_have == (2 ^ pages - 1) % 2 ^ 16
              then policy_complete net (held pol)
              else held pol
        ])
    go none = refl
    go (some pol) =
        if_both (Quiet bb) ((held pol).pol_have == (2 ^ pages - 1) % 2 ^ 16)
          (policy_complete-Quiet net (held pol)) refl

policy_begin-Quiet :
    (bb : Client) (seq version pages : ℕ) → Quiet bb (policy_begin bb seq version pages)
unfolding policy_begin
policy_begin-Quiet bb seq version pages = if_both (Quiet bb) (leb 1 bb.pol_pages) refl refl

pub on_policy-Quiet :
    (net : Net) (bb : Client) (seq : ℕ) (body : List ℕ) → Quiet bb (on_policy net bb seq body)
unfolding on_policy
on_policy-Quiet net bb seq body =
    if_both {x = bb} {y = shaped} (Quiet bb) (not bb.mesh.cfg.backbone_policy) refl shaped_same
  where
    version : ℕ
    version = rd_u32le body

    page : ℕ
    page = get_or body 4 0

    pages : ℕ
    pages = get_or body 5 0

    other : Bool
    other = leb 1 bb.pol_pages && (not (version == bb.pol.version) || not (pages == bb.pol_pages))

    opened : Client
    opened = if other then record bb { pol_pages = 0 } else bb

    closed : Client
    closed = record bb { pol_pages = 0 }

    closed_same : Quiet bb closed
    closed_same = refl

    opened_same : Quiet bb opened
    opened_same = if_both {x = closed} {y = bb} (Quiet bb) other closed_same refl

    begun : Client
    begun = policy_begin opened seq version pages

    collected : Quiet bb (policy_page net begun seq page pages (drop 6 body))
    collected =
        policy_page-Quiet net begun seq page pages (drop 6 body)
        ∙ policy_begin-Quiet opened seq version pages
        ∙ opened_same

    paged : Client
    paged = policy_page net begun seq page pages (drop 6 body)

    recent : Client
    recent = if other && leb seq bb.pol_max_seq then bb else paged

    unapplied : Client
    unapplied = if leb 1 bb.pol_applied_seq && ltb seq bb.pol_applied_seq then bb else recent

    shaped : Client
    shaped = if ltb (length body) 6 || policy_bad body then reject bb else unapplied

    recent_same : Quiet bb recent
    recent_same =
        if_both {x = bb} {y = paged} (Quiet bb) (other && leb seq bb.pol_max_seq) refl collected

    unapplied_same : Quiet bb unapplied
    unapplied_same =
        if_both {x = bb} {y = recent} (Quiet bb)
          (leb 1 bb.pol_applied_seq && ltb seq bb.pol_applied_seq) refl recent_same

    shaped_same : Quiet bb shaped
    shaped_same =
        if_both {x = reject bb} {y = unapplied} (Quiet bb) (ltb (length body) 6 || policy_bad body)
          refl unapplied_same
