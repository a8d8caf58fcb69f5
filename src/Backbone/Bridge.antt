-- ===== src/Backbone/Bridge.antt =====
-- src/backbone.c: frames between the mesh and the hub.
use meshcore_repeater.Common.{
  ℕ, ◌+◌, ◌-◌, ◌*◌, ◌/◌, ◌^◌, Bool, true, false, not, ◌&&◌, ◌||◌, List, [], ◌∷◌, ◌++◌, ltb, leb,
  ◌==◌, if◌then◌else◌, length, take, drop, get_or, ℤ, pos, negsuc, ok, err,
}
use mathlib.Core.List.{reverse}
use meshcore_repeater.Common.Int.{to_word}
use meshcore_repeater.Util.Endian.{wr_u16le}
use meshcore_repeater.Packet.{Packet, is_route_direct, path_hash_count}
use meshcore_repeater.Packet.Codec.{parse, calc_hash}
use meshcore_repeater.Mesh.State.{
  Mesh, RxResult, forwarded, duplicate, refused, accepted_local, malformed, Output, offer,
  status_soon, gate_node, transmit, reinit,
}
use meshcore_repeater.Mesh.Queue.{mesh_txq_free}
use meshcore_repeater.Mesh.Receive.{mesh_on_backbone}
use meshcore_repeater.Backbone.State.{Client, Net, is_up, observing, bridging, reject, send_session}

abbrev pub bb_max_frame : ℕ
bb_max_frame = 255

abbrev pub bb_t_observe : ℕ
bb_t_observe = 0x11

abbrev pub bb_t_bridge : ℕ
bb_t_bridge = 0x12

abbrev pub bb_obs_from_backbone : ℕ
bb_obs_from_backbone = 0x01

abbrev pub bb_bridge_own : ℕ
bb_bridge_own = 0x01

abbrev pub bb_disp_limited : ℕ
bb_disp_limited = 4

abbrev pub bb_txq_headroom : ℕ
bb_txq_headroom = 8

-- The number of a MESH_RX_* result; a malformed frame is -1.
abbrev pub disposition_of : RxResult → ℤ
disposition_of forwarded = pos 0
disposition_of duplicate = pos 1
disposition_of refused = pos 2
disposition_of accepted_local = pos 3
disposition_of malformed = negsuc 0

abbrev pub is_malformed : RxResult → Bool
is_malformed forwarded = false
is_malformed duplicate = false
is_malformed refused = false
is_malformed accepted_local = false
is_malformed malformed = true

-- `disposition < 0 || disposition > BB_DISP_LIMITED`.
abbrev pub disposition_bad : ℤ → Bool
disposition_bad (pos n) = ltb bb_disp_limited n
disposition_bad (negsuc n) = true

abbrev pub frame_bad : List ℕ → Bool
frame_bad frame = length frame == 0 || ltb bb_max_frame (length frame)

unfoldable pub backbone_observe : Net → Client → List ℕ → ℤ → ℤ → ℕ → ℤ → Client
unfolding send_session
backbone_observe net bb frame rssi snr_q flags disposition =
    if not (is_up bb.state) || not (observing bb)
    then bb
    else if disposition_bad disposition || frame_bad frame
    then bb
    else elim (parse frame) [
      | err code ↦ bb
      | ok p ↦
          let body =
            flags
            ∷ to_word 256 disposition
            ∷ (wr_u16le (to_word (2 ^ 16) rssi)
                ++ (to_word 256 snr_q
                    ∷ length frame
                    ∷ (calc_hash net.env.crypto.sha256 p ++ frame))) in
          record (send_session net bb bb_t_observe body) { observed = bb.observed + 1 }
    ]

unfoldable pub backbone_status_soon : Client → Client
backbone_status_soon bb = if is_up bb.state then record bb { next_status_ms = 0 } else bb

-- The body of a BRIDGE datagram.
abbrev pub bridge_body : Net → Packet → List ℕ → Bool → List ℕ
bridge_body net p frame own =
    (if own then bb_bridge_own else 0) ∷ length frame ∷ (calc_hash net.env.crypto.sha256 p ++ frame)

unfoldable pub backbone_offer : Net → Client → List ℕ → Bool → Client
unfolding send_session
backbone_offer net bb frame own =
    if not (is_up bb.state) || not (bridging bb)
    then bb
    else if frame_bad frame
    then bb
    else elim (parse frame) [
      | err code ↦ bb
      | ok p ↦
          if is_route_direct p && path_hash_count p == 0
          then bb
          else record (send_session net bb bb_t_bridge (bridge_body net p frame own)) {
            offered = bb.offered + 1;
          }
    ]

-- The calls that the mesh made to the backbone, oldest first.
unfoldable pub deliver : Net → Client → List Output → Client
unfolding backbone_offer backbone_status_soon
deliver net bb [] = bb
deliver net bb (offer raw own ∷ os) = deliver net (backbone_offer net bb raw own) os
deliver net bb (status_soon ∷ os) = deliver net (backbone_status_soon bb) os
deliver net bb (gate_node name type lat lon key ∷ os) = deliver net bb os
deliver net bb (transmit raw power len ∷ os) = deliver net bb os
deliver net bb (reinit ∷ os) = deliver net bb os

-- A frame of the hub into the mesh, with the calls that the mesh makes back.
unfoldable pub inject : Net → Client → List ℕ → Client × RxResult
unfolding deliver
inject net bb frame =
    let before : Mesh = record (bb.mesh) { outputs = [] } in
    let (m, r) = mesh_on_backbone net.env before frame in
    let kept : Client = record bb { mesh = record m { outputs = m.outputs ++ bb.mesh.outputs } } in
    (deliver net kept (reverse m.outputs), r)

-- The rate in frames per minute, and the bucket's size in 1/60000 of a frame.
unfoldable pub bucket_rate : ℕ → ℕ
bucket_rate rate = if leb 1 rate then rate else 1

unfoldable pub bucket_cap : ℕ → ℕ
unfolding bucket_rate
bucket_cap rate = let n = bucket_rate rate / 3 in (if leb 1 n then n else 1) * 60000

-- The tokens at `now`: full at the first frame, else refilled. The clock does not run backwards.
unfoldable pub refill : ℕ → ℕ → ℕ → ℕ → ℕ
unfolding bucket_rate bucket_cap
refill rate tokens tokens_ms now =
    let more = tokens + (now - tokens_ms) * bucket_rate rate in
    if tokens_ms == 0
    then bucket_cap rate
    else if ltb (bucket_cap rate) more
    then bucket_cap rate
    else more

-- The frame of a FRAME body, if the body is well formed.
abbrev pub frame_body_bad : List ℕ → Bool
frame_body_bad body =
    ltb (length body) 10 || (get_or body 1 0 == 0 || ltb (length body) (10 + get_or body 1 0))

abbrev pub frame_of : List ℕ → List ℕ
frame_of body = take (get_or body 1 0) (drop 10 body)

unfoldable pub observe_hub : Net → Client → List ℕ → ℤ → Client
unfolding backbone_observe
observe_hub net bb frame disposition =
    backbone_observe net bb frame (pos 0) (pos 0) bb_obs_from_backbone disposition

unfoldable pub on_frame : Net → Client → ℕ → List ℕ → Client
unfolding refill inject observe_hub
on_frame net bb now body =
    if not (bridging bb) || frame_body_bad body
    then reject bb
    else let tokens = refill bb.settings.rate bb.tokens bb.tokens_ms now in
      let timed : Client = record bb { tokens = tokens; tokens_ms = now } in
      let spent : Client = record timed { tokens = tokens - 60000 } in
      if ltb tokens 60000 || ltb (mesh_txq_free bb.mesh) bb_txq_headroom
      then observe_hub net (record timed { limited = bb.limited + 1 }) (frame_of body)
          (pos bb_disp_limited)
      else let (done, r) = inject net spent (frame_of body) in
        if is_malformed r
        then reject done
        else observe_hub net (record done { injected = done.injected + 1 }) (frame_of body)
            (disposition_of r)
