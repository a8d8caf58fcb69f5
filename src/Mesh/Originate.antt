-- ===== src/Mesh/Originate.antt =====
-- src/mesh.c: queueing the packets that this node originates, and its own advert.
use meshcore_repeater.Common.{ℕ, ◌+◌, ◌%◌, ◌^◌, Bool, true, if◌then◌else◌, ℤ, ok, err}
use meshcore_repeater.Advert.{AdvertInfo, adv_type_repeater, advert_build}
use meshcore_repeater.Config.{is_hotspot}
use meshcore_repeater.Packet.{Packet}
use meshcore_repeater.Packet.Codec.{calc_hash}
use meshcore_repeater.Mesh.State.{Mesh, Env}
use meshcore_repeater.Mesh.Random.{small_jitter_ms}
use meshcore_repeater.Mesh.Seen.{seen_check_and_add}
use meshcore_repeater.Mesh.Queue.{mesh_rf_silent, enqueue}

unfoldable pub own_tx_power : Mesh → ℤ
own_tx_power m = if is_hotspot m.cfg.role then m.cfg.hotspot_power_high else m.cfg.tx_power

-- Every originated packet: its hash goes to the ring, so that its echo is a duplicate; a delay is
-- drawn; it is queued at the node's own power.
unfoldable pub originate : Env → (Mesh → Mesh × ℕ) → ℕ → Mesh → Packet → Mesh × Bool
unfolding own_tx_power
originate env delay priority m p =
    let (m1, old) = seen_check_and_add m (calc_hash env.crypto.sha256 p) in
    let (m2, delay_ms) = delay m1 in enqueue env m2 p priority delay_ms (own_tx_power m2) true

-- MESH advert results: queued, deferred by a silent hotspot, failed.
pub data AdvertStatus : Type 0 where
  queued deferred failed : AdvertStatus

abbrev pub self_advert : Mesh → AdvertInfo
self_advert m = record {
  type = adv_type_repeater;
  has_location = m.cfg.has_location;
  latitude = m.cfg.latitude;
  longitude = m.cfg.longitude;
  name = m.cfg.name;
}

unfoldable pub mesh_send_advert : Env → Mesh → Mesh × AdvertStatus
unfolding originate
mesh_send_advert env m =
    if mesh_rf_silent m env.millis
    then (m, deferred)
    else elim (advert_build env.crypto m.id (self_advert m) (env.unix % 2 ^ 32)) [
      | err code ↦ (m, failed)
      | ok p ↦
          let (m', sent) = originate env small_jitter_ms 0 m p in
          if sent
          then (
            record m' {
              stats = record (m'.stats) { adverts_sent = m'.stats.adverts_sent + 1 };
              last_advert_ms = env.millis;
            },
            queued,
          )
          else (m', failed)
    ]
