-- ===== src/Backbone/Quiet.antt =====
-- src/backbone.c: what sending and the calls of the mesh leave as it is.
use meshcore_repeater.Common.{
  ℕ, ◌+◌, ◌%◌, ◌^◌, ◌≡◌, refl, ◌∙◌, Bool, not, ◌&&◌, ◌||◌, List, [], ◌∷◌, ◌++◌, Option, none, some,
  if◌then◌else◌, if_both, leb, ◌==◌, length, Result, ok, err, ℤ, pos,
}
use mathlib.Core.List.{reverse}
use meshcore_repeater.Packet.{Packet, is_route_direct, path_hash_count}
use meshcore_repeater.Packet.Codec.{parse, calc_hash}
use meshcore_repeater.Mesh.Receive.{mesh_on_backbone}
use meshcore_repeater.Common.Text.{codes}
use meshcore_repeater.Common.Int.{to_word}
use meshcore_repeater.Util.Endian.{wr_u16le}
use meshcore_repeater.Mesh.State.{Output, offer, status_soon, gate_node, transmit, reinit, Mesh}
use meshcore_repeater.Backbone.Codec.{bb_max_dgram, bb_seal}
use meshcore_repeater.Backbone.Replay.{Window}
use meshcore_repeater.Backbone.State.{
  Client, Net, Settings, BbState, is_up, observing, bridging, send_raw, send_session,
}
use meshcore_repeater.Backbone.Report.{
  Jbuf, bb_t_neighbours, send_pages, send_neighbours, send_status, turns_page, bb_t_status, jb_add,
  page_head, used_after, neighbour_texts, count_pages, empty_jbuf, bb_status_json,
}
use meshcore_repeater.Backbone.Bridge.{
  backbone_observe, backbone_offer, backbone_status_soon, deliver, inject, frame_bad, observe_hub,
  bb_obs_from_backbone, bb_t_observe, bb_t_bridge, bridge_body, disposition_bad,
}

-- The part of the state that sending does not touch.
pub record Core : Type 0 where
  pub settings : Settings
  pub hub_pub : List ℕ
  pub roles_asked : ℕ
  pub state : BbState
  pub fd : Bool
  pub backoff_s : ℕ
  pub last_hello_ts : ℕ
  pub sid : ℕ
  pub roles : ℕ
  pub k_up : List ℕ
  pub k_down : List ℕ
  pub rwin : Window
  pub keepalive_s : ℕ
  pub status_s : ℕ
  pub neighbours_s : ℕ
  pub tokens : ℕ
  pub tokens_ms : ℕ
  pub injected : ℕ

abbrev pub core : Client → Core
core bb = record {
  settings = bb.settings;
  hub_pub = bb.hub_pub;
  roles_asked = bb.roles_asked;
  state = bb.state;
  fd = bb.fd;
  backoff_s = bb.backoff_s;
  last_hello_ts = bb.last_hello_ts;
  sid = bb.sid;
  roles = bb.roles;
  k_up = bb.k_up;
  k_down = bb.k_down;
  rwin = bb.rwin;
  keepalive_s = bb.keepalive_s;
  status_s = bb.status_s;
  neighbours_s = bb.neighbours_s;
  tokens = bb.tokens;
  tokens_ms = bb.tokens_ms;
  injected = bb.injected;
}

abbrev pub Quiet : Client → Client → Type 0
Quiet bb bb' = core bb' ≡ core bb

pub send_raw-Quiet : (net : Net) (bb : Client) (d : List ℕ) → Quiet bb (send_raw net bb d)
unfolding send_raw
send_raw-Quiet net bb d = if_both (Quiet bb) bb.fd refl refl

pub send_session-Quiet :
    (net : Net) (bb : Client) (type : ℕ) (body : List ℕ) → Quiet bb (send_session net bb type body)
unfolding send_session
send_session-Quiet net bb type body =
    go (bb_seal net.env.crypto bb_max_dgram type bb.sid ((bb.seq_out + 1) % 2 ^ 32) body bb.k_up)
  where
    next : Client
    next = record bb { seq_out = (bb.seq_out + 1) % 2 ^ 32 }

    go : (o : Option (List ℕ)) → Quiet bb (elim o [ none ↦ next | some d ↦ send_raw net next d ])
    go none = refl
    go (some d) = send_raw-Quiet net next d

pub backbone_observe-Quiet :
    (net : Net) (bb : Client) (frame : List ℕ) (rssi snr_q : ℤ) (flags : ℕ) (disposition : ℤ)
    → Quiet bb (backbone_observe net bb frame rssi snr_q flags disposition)
unfolding backbone_observe
backbone_observe-Quiet net bb frame rssi snr_q flags disposition =
    if_both (Quiet bb) (not (is_up bb.state) || not (observing bb)) refl
      (if_both (Quiet bb) (disposition_bad disposition || frame_bad frame) refl (go (parse frame)))
  where
    body : Packet → List ℕ
    body p =
        flags
        ∷ to_word 256 disposition
        ∷ (wr_u16le (to_word (2 ^ 16) rssi)
            ++ (to_word 256 snr_q ∷ length frame ∷ (calc_hash net.env.crypto.sha256 p ++ frame)))

    go :
        (r : Result Packet)
        → Quiet bb (elim r [
          | err code ↦ bb
          | ok p ↦ record (send_session net bb bb_t_observe (body p)) { observed = bb.observed + 1 }
        ])
    go (err code) = refl
    go (ok p) = send_session-Quiet net bb bb_t_observe (body p)

pub backbone_offer-Quiet :
    (net : Net) (bb : Client) (frame : List ℕ) (own : Bool)
    → Quiet bb (backbone_offer net bb frame own)
unfolding backbone_offer
backbone_offer-Quiet net bb frame own =
    if_both (Quiet bb) (not (is_up bb.state) || not (bridging bb)) refl
      (if_both (Quiet bb) (frame_bad frame) refl (go (parse frame)))
  where
    go :
        (r : Result Packet)
        → Quiet bb (elim r [
          | err code ↦ bb
          | ok p ↦
              if is_route_direct p && path_hash_count p == 0
              then bb
              else record (send_session net bb bb_t_bridge (bridge_body net p frame own)) {
                offered = bb.offered + 1;
              }
        ])
    go (err code) = refl
    go (ok p) =
        if_both (Quiet bb) (is_route_direct p && path_hash_count p == 0) refl
          (send_session-Quiet net bb bb_t_bridge (bridge_body net p frame own))

pub backbone_status_soon-Quiet : (bb : Client) → Quiet bb (backbone_status_soon bb)
unfolding backbone_status_soon
backbone_status_soon-Quiet bb = if_both (Quiet bb) (is_up bb.state) refl refl

pub deliver-Quiet : (net : Net) (bb : Client) (os : List Output) → Quiet bb (deliver net bb os)
unfolding deliver
deliver-Quiet net bb [] = refl
deliver-Quiet net bb (offer raw own ∷ os) =
    deliver-Quiet net (backbone_offer net bb raw own) os ∙ backbone_offer-Quiet net bb raw own
deliver-Quiet net bb (status_soon ∷ os) =
    deliver-Quiet net (backbone_status_soon bb) os ∙ backbone_status_soon-Quiet bb
deliver-Quiet net bb (gate_node name type lat lon key ∷ os) = deliver-Quiet net bb os
deliver-Quiet net bb (transmit raw power len ∷ os) = deliver-Quiet net bb os
deliver-Quiet net bb (reinit ∷ os) = deliver-Quiet net bb os

pub inject-Quiet : (net : Net) (bb : Client) (frame : List ℕ) → Quiet bb (inject net bb frame).0
unfolding inject
inject-Quiet net bb frame =
    let before : Mesh = record (bb.mesh) { outputs = [] } in
    let m : Mesh = (mesh_on_backbone net.env before frame).0 in
    deliver-Quiet net (record bb { mesh = record m { outputs = m.outputs ++ bb.mesh.outputs } })
      (reverse m.outputs)

pub send_status-Quiet : (net : Net) (bb : Client) (now : ℕ) → Quiet bb (send_status net bb now)
unfolding send_status
send_status-Quiet net bb now = go (net.status_text bb now)
  where
    go :
        (o : Option (List ℕ))
        → Quiet bb (elim o [ none ↦ bb | some text ↦ send_session net bb bb_t_status text ])
    go none = refl
    go (some text) = send_session-Quiet net bb bb_t_status text

send_pages-Quiet :
    (net : Net) (bb : Client) (texts : List (List ℕ)) (page pages used : ℕ) (j : Jbuf)
    → Quiet bb (send_pages net bb texts page pages used j)
unfolding send_pages
send_pages-Quiet net bb [] page pages used j =
    let last = jb_add j (codes "]}") in
    if_both (Quiet bb) last.full refl (send_session-Quiet net bb bb_t_neighbours last.text)
send_pages-Quiet net bb (t ∷ ts) page pages used j =
    let closed = jb_add j (codes "]}") in
    let opened = jb_add (record closed { text = [] }) (page_head (page + 1) pages) in
    let bb' = send_session net bb bb_t_neighbours closed.text in
    if_both (Quiet bb) (turns_page used t)
      (send_pages-Quiet net bb' ts (page + 1) pages (used_after 0 t) (jb_add opened t)
        ∙ send_session-Quiet net bb bb_t_neighbours closed.text)
      (send_pages-Quiet net bb ts page pages (used_after used t)
        (jb_add j ((if leb 1 used then codes "," else []) ++ t)))

pub send_neighbours-Quiet : (net : Net) (bb : Client) → Quiet bb (send_neighbours net bb)
unfolding send_neighbours
send_neighbours-Quiet net bb =
    let texts = neighbour_texts bb.mesh.neighbors (net.env.unix % 2 ^ 32) in
    send_pages-Quiet net bb texts 1 (count_pages texts 1 0) 0
      (jb_add (empty_jbuf (bb_status_json + 1)) (page_head 1 (count_pages texts 1 0)))

pub observe_hub-Quiet :
    (net : Net) (bb : Client) (frame : List ℕ) (disposition : ℤ)
    → Quiet bb (observe_hub net bb frame disposition)
unfolding observe_hub
observe_hub-Quiet net bb frame disposition =
    backbone_observe-Quiet net bb frame (pos 0) (pos 0) bb_obs_from_backbone disposition
