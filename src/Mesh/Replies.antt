-- ===== src/Mesh/Replies.antt =====
-- src/mesh.c: the texts that the node floods in answer to commands: pong, time and date, help.
use meshcore_repeater.Common.{
  ℕ, ◌+◌, ◌/◌, ◌%◌, ◌^◌, Bool, not, ◌&&◌, ◌||◌, List, [], ◌∷◌, ◌++◌, Option, none, some, ◌==◌, ltb,
  if◌then◌else◌, length, ℤ, pos, negsuc, ok, err,
}
use meshcore_repeater.Common.Text.{codes, copy_str, decimal}
use meshcore_repeater.Config.{Config, Channel}
use meshcore_repeater.Packet.{route_flood}
use meshcore_repeater.Mesh.State.{Mesh, Env}
use meshcore_repeater.Mesh.Random.{reply_delay_ms, small_jitter_ms}
use meshcore_repeater.Mesh.Channel.{channel_build_txt}
use meshcore_repeater.Mesh.Originate.{originate}

-- "%d".
print_int : ℤ → List ℕ
print_int (pos n) = decimal n
print_int (negsuc n) = b'-' ∷ decimal (n + 1)

-- "%.1f" of a quarter: the exact halves round to even.
tenth_of_quarter : ℕ → ℕ
tenth_of_quarter q = if q == 0 then b'0' else if q == 1 then b'2' else if q == 2 then b'5' else b'8'

print_quarters : ℤ → List ℕ
unfolding tenth_of_quarter
print_quarters (pos n) = decimal (n / 4) ++ (b'.' ∷ tenth_of_quarter (n % 4) ∷ [])
print_quarters (negsuc n) =
    b'-' ∷ (decimal ((n + 1) / 4) ++ (b'.' ∷ tenth_of_quarter ((n + 1) % 4) ∷ []))

pong_text : ℤ → ℤ → List ℕ
unfolding print_int print_quarters
pong_text rssi snr_q = copy_str 48 (
    codes "pong rssi "
    ++ (print_int rssi ++ (codes "dBm snr " ++ (print_quarters snr_q ++ codes "dB"))))

-- A flooded text of this node on a channel: the new state and whether it was queued. A text that
-- does not fit a packet changes nothing.
unfoldable pub flood_text : Env → (Mesh → Mesh × ℕ) → Mesh → Channel → List ℕ → Option (Mesh × Bool)
flood_text env delay m ch text =
    elim (channel_build_txt env.crypto ch m.cfg.name text (env.unix % 2 ^ 32) route_flood) [
      | err code ↦ none
      | ok p ↦ some (originate env delay 1 m p)
    ]

unfoldable pub send_pong : Env → Mesh → Channel → ℤ → ℤ → Mesh
unfolding flood_text pong_text
send_pong env m ch rssi snr_q = elim (flood_text env reply_delay_ms m ch (pong_text rssi snr_q)) [
  | none ↦ m
  | some (m', sent) ↦
      if sent
      then record m' { stats = record (m'.stats) { pong_sent = m'.stats.pong_sent + 1 } }
      else m'
]

unfoldable pub tod_arm : Env → Mesh → Channel → Bool → Bool → Mesh
tod_arm env m ch want_time want_date = record m {
  tod_minute =
      if not m.tod_time_pending && not m.tod_date_pending
      then env.unix / 60 % 2 ^ 32
      else m.tod_minute;
  tod_ch = ch;
  tod_time_pending = want_time || m.tod_time_pending;
  tod_date_pending = want_date || m.tod_date_pending;
}

unfoldable pub send_tod : Env → Mesh → List ℕ → Mesh
unfolding flood_text
send_tod env m text = elim (flood_text env small_jitter_ms m m.tod_ch text) [
  | none ↦ m
  | some (m', sent) ↦
      if sent
      then record m' { stats = record (m'.stats) { timeofday_sent = m'.stats.timeofday_sent + 1 } }
      else m'
]

help_text : Config → List ℕ
help_text cfg = copy_str 160 (
    codes "commands:"
    ++ ((if cfg.ping_pong then codes " ping(alive)" else [])
        ++ ((if cfg.timeofday_enable then codes " time/date(UTC clock)" else [])
            ++ ((if ltb 0 (length cfg.probe_allow)
                  then codes " probe<secs count>(range,auth)"
                  else [])
                ++ codes " help"))))

-- Counted also when the queue refused it.
unfoldable pub send_help : Env → Mesh → Channel → Mesh
unfolding flood_text help_text
send_help env m ch = elim (flood_text env reply_delay_ms m ch (help_text m.cfg)) [
  | none ↦ m
  | some (m', sent) ↦ record m' { stats = record (m'.stats) { help_sent = m'.stats.help_sent + 1 } }
]
