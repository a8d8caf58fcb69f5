-- ===== src/Mesh/Group.antt =====
-- src/mesh.c: process_public_grp, what is done with a proven public group message.
use meshcore_repeater.Common.{
  ℕ, ◌+◌, Bool, true, false, not, ◌&&◌, ◌||◌, List, [], Option, none, some, ◌==◌, ltb, leb,
  if◌then◌else◌, length, bytes_eq, ℤ,
}
use meshcore_repeater.Common.Text.{is_empty, codes}
use meshcore_repeater.Config.{Channel, is_hotspot, config_is_blacklisted, config_probe_allowed}
use meshcore_repeater.Packet.{
  Packet, payload_grp_txt, payload_type, is_route_flood, max_packet_payload,
}
use meshcore_repeater.Mesh.State.{Mesh, Env, is_backbone}
use meshcore_repeater.Mesh.Channel.{channel_decrypt, grp_message_body, grp_sender_name}
use meshcore_repeater.Mesh.Hotspot.{hotspot_wake}
use meshcore_repeater.Mesh.Commands.{is_word, is_ping, is_probe}
use meshcore_repeater.Mesh.Replies.{send_pong, send_help, tod_arm}
use meshcore_repeater.Mesh.Mailbox.{mbox_handle}
use meshcore_repeater.Mesh.Probe.{mesh_start_probe}

-- The results 1, 0 and -1.
pub data Verdict : Type 0 where
  relay consumed blocked : Verdict

-- MESH_HELP_COOLDOWN_MS
abbrev pub mesh_help_cooldown_ms : ℕ
mesh_help_cooldown_ms = 8000

-- "help", at most once in the cooldown.
unfoldable pub answer_help : Env → Mesh → Channel → Mesh
answer_help env m ch =
    if m.mesh_help_next_ms == 0 || leb m.mesh_help_next_ms env.millis
    then record (send_help env m ch) { mesh_help_next_ms = env.millis + mesh_help_cooldown_ms }
    else m

-- An authorised "probe <secs> <count>".
unfoldable pub requested_probe : Mesh → List ℕ → List ℕ → Option (ℤ × ℤ)
requested_probe m sender body = if config_probe_allowed m.cfg sender then is_probe body else none

unfoldable pub answer_ping : Env → Mesh → Packet → Channel → Bool → Mesh
answer_ping env m p ch on_ping_ch =
    let m' : Mesh = record m { stats = record (m.stats) { ping_seen = m.stats.ping_seen + 1 } } in
    if on_ping_ch then send_pong env m' ch p.rssi_dbm p.snr_q else m'

-- The commands after ping and probe.
unfoldable pub answer_other :
    Env → Mesh → Packet → Channel → List ℕ → List ℕ → Bool → Mesh × Verdict
unfolding answer_help
answer_other env m p ch sender body on_ping_ch =
    if on_ping_ch && (m.cfg.timeofday_enable && is_word body (codes "time"))
    then (tod_arm env m ch true false, relay)
    else if on_ping_ch && (m.cfg.timeofday_enable && is_word body (codes "date"))
    then (tod_arm env m ch false true, relay)
    else if on_ping_ch && is_word body (codes "help")
    then (answer_help env m ch, relay)
    else if m.cfg.mbox_enable
        && (not (is_hotspot m.cfg.role) && (is_route_flood p && bytes_eq ch.name (codes "#mbox")))
    then (let (m', floods) = mbox_handle env m p ch sender body in
        (m', if floods then relay else consumed))
    else (m, relay)

-- The local services, for a message heard on RF.
unfoldable pub answer_command : Env → Mesh → Packet → Channel → List ℕ → List ℕ → Mesh × Verdict
unfolding answer_ping requested_probe answer_other
answer_command env m p ch sender body =
    let on_ping_ch = is_empty m.cfg.ping_channel || bytes_eq ch.name m.cfg.ping_channel in
    let probe : Option (ℤ × ℤ) =
      if on_ping_ch && ltb 0 (length m.cfg.probe_allow)
      then requested_probe m sender body
      else none in
    if m.cfg.ping_pong && is_ping body
    then (answer_ping env m p ch on_ping_ch, relay)
    else elim probe [
      | some (secs, count) ↦ (mesh_start_probe env m ch secs count, relay)
      | none ↦ answer_other env m p ch sender body on_ping_ch
    ]

-- A message that was decrypted, from `sender`.
unfoldable pub process_plain : Env → Mesh → Packet → Channel → List ℕ → List ℕ → Mesh × Verdict
unfolding answer_command
process_plain env m p ch sender plain =
    let woken = hotspot_wake env m p sender in
    if config_is_blacklisted m.cfg sender
    then (record m { stats = record (m.stats) { blacklisted = m.stats.blacklisted + 1 } }, blocked)
    else if is_backbone m.rx_src
    then (woken, relay)
    else elim (grp_message_body plain) [
      | none ↦ (woken, relay)
      | some body ↦ answer_command env woken p ch sender body
    ]

-- The new state, the verdict and the sender's name (empty where it cannot be read).
unfoldable pub process_public_grp : Env → Mesh → Packet → Channel → Mesh × Verdict × List ℕ
unfolding process_plain
process_public_grp env m p ch =
    if not (payload_type p == payload_grp_txt)
    then (m, relay, [])
    else elim (channel_decrypt env.crypto ch p max_packet_payload) [
      | none ↦ (m, relay, [])
      | some plain ↦
          if ltb (length plain) 5
          then (m, relay, [])
          else (let sender = grp_sender_name plain 32 in
              let (m', verdict) = process_plain env m p ch sender plain in (m', verdict, sender))
    ]
