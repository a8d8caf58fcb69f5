-- ===== src/Mesh/Probe.antt =====
-- src/mesh.c: the services that the main loop calls: coverage probes, time and date.
use meshcore_repeater.Common.{
  ℕ, zero, suc, ◌+◌, ◌-◌, ◌*◌, ◌/◌, ◌%◌, ◌^◌, false, not, ◌&&◌, ◌||◌, List, [], ◌++◌, none, some,
  ◌==◌, ltb, if◌then◌else◌, ℤ, pos, negsuc,
}
use meshcore_repeater.Common.Text.{codes, copy_str, decimal, decimal2}
use meshcore_repeater.Config.{Channel}
use meshcore_repeater.Mesh.State.{Mesh, Env}
use meshcore_repeater.Mesh.Random.{small_jitter_ms, mesh_reply_delay_ms}
use meshcore_repeater.Mesh.Queue.{mesh_rf_silent}
use meshcore_repeater.Mesh.Replies.{flood_text, send_tod}

-- max(1, min(secs, 3600)).
clamp_secs : ℤ → ℕ
clamp_secs (pos n) = if ltb n 1 then 1 else if ltb 3600 n then 3600 else n
clamp_secs (negsuc n) = 1

start_counted : Env → Mesh → Channel → ℤ → ℕ → Mesh
unfolding clamp_secs
start_counted env m ch secs zero = record m { probe_remaining = 0 }
start_counted env m ch secs (suc n) =
    let count = if ltb 100 (suc n) then 100 else suc n in
    record m {
      probe_ch = ch;
      probe_interval_ms = clamp_secs secs * 1000;
      probe_total = count;
      probe_remaining = count;
      probe_seq = 0;
      probe_next_ms = env.millis + mesh_reply_delay_ms;
    }

-- A count of zero or less cancels.
unfoldable pub mesh_start_probe : Env → Mesh → Channel → ℤ → ℤ → Mesh
unfolding start_counted
mesh_start_probe env m ch secs (pos n) = start_counted env m ch secs n
mesh_start_probe env m ch secs (negsuc n) = record m { probe_remaining = 0 }

unfoldable pub mesh_service_probe : Env → Mesh → ℕ → Mesh
unfolding flood_text
mesh_service_probe env m now_ms =
    if m.probe_remaining == 0 || ltb now_ms m.probe_next_ms
    then m
    else if mesh_rf_silent m now_ms
    then record m { probe_remaining = 0 }
    else let seq = m.probe_seq + 1 in
      let text = codes "probe " ++ (decimal seq ++ (codes "/" ++ decimal m.probe_total)) in
      let m1 : Mesh = record m { probe_seq = seq } in
      let m2 : Mesh = elim (flood_text env small_jitter_ms m1 m1.probe_ch (copy_str 48 text)) [
        | none ↦ m1
        | some (m', sent) ↦ record m' {
          stats = record (m'.stats) { probes_sent = m'.stats.probes_sent + 1 };
        }
      ] in
      record m2 {
        probe_remaining = m2.probe_remaining - 1;
        probe_next_ms = now_ms + m2.probe_interval_ms;
      }

-- "%04d".
decimal4 : ℕ → List ℕ
decimal4 n =
    (if ltb n 10
      then codes "000"
      else if ltb n 100
      then codes "00"
      else if ltb n 1000
      then codes "0"
      else [])
    ++ decimal n

send_time : Env → Mesh → Mesh
send_time env m =
    if m.tod_time_pending
    then (let text =
          codes "time "
          ++ (decimal2 (env.unix / 3600 % 24)
              ++ (codes ":" ++ (decimal2 (env.unix / 60 % 60) ++ codes " UTC"))) in
        record (send_tod env m (copy_str 40 text)) { tod_time_pending = false })
    else m

send_date : Env → Mesh → Mesh
unfolding decimal4
send_date env m =
    if m.tod_date_pending
    then (let (year, month, day) = env.utc_date env.unix in
        let text =
          codes "date "
          ++ (decimal4 year ++ (codes "-" ++ (decimal2 month ++ (codes "-" ++ decimal2 day)))) in
        record (send_tod env m (copy_str 40 text)) { tod_date_pending = false })
    else m

-- At the first call in a new minute.
unfoldable pub mesh_service_timeofday : Env → Mesh → Mesh
unfolding send_time send_date
mesh_service_timeofday env m =
    let minute = env.unix / 60 % 2 ^ 32 in
    if not m.tod_time_pending && not m.tod_date_pending
    then m
    else if minute == m.tod_minute
    then m
    else send_date env (send_time env (record m { tod_minute = minute }))
