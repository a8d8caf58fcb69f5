-- ===== src/Mesh/Hotspot.antt =====
-- src/mesh.c: the hotspot role. Waking up on the operator's companion, and the scope and direction
-- of what is bridged.
pub mod Scope
use meshcore_repeater.Common.{
  ℕ, zero, suc, ◌+◌, ◌*◌, ◌<◌, ◌≡◌, Bool, true, false, not, ◌&&◌, ◌||◌, List, [], ◌∷◌, ◌++◌, ◌==◌,
  ltb, if◌then◌else◌, length, get_or, ℤ,
}
use meshcore_repeater.Common.Text.{is_empty, codes, copy_str, strcasecmp_eq, strncasecmp_eq}
use meshcore_repeater.Advert.{adv_type_chat}
use meshcore_repeater.Config.{Config, is_hotspot, config_is_home, config_is_affinity}
use meshcore_repeater.Packet.{
  Packet, payload_advert, payload_grp_txt, payload_type, path_hash_count, path_hash_size,
}
use meshcore_repeater.Mesh.State.{Mesh, Env, Neighbor, status_soon, is_backbone, max_affinity}
use meshcore_repeater.Mesh.Queue.{mesh_rf_silent}
use meshcore_repeater.Mesh.Originate.{mesh_send_advert}

unfoldable pub byte_in : ℕ → List ℕ → Bool
byte_in b [] = false
byte_in b (x ∷ xs) = x == b || byte_in b xs

-- The hops from `h` on, `left` of them.
unfoldable pub affinity_from : Mesh → Packet → ℕ → ℕ → Bool
unfolding byte_in
affinity_from m p zero h = false
affinity_from m p (suc left) h =
    byte_in (get_or p.path (h * path_hash_size p) 0) m.affinity_hash
    || affinity_from m p left (h + 1)

unfoldable pub path_has_affinity : Mesh → Packet → Bool
path_has_affinity m p = affinity_from m p (path_hash_count p) 0

unfoldable pub learn_affinity : Mesh → List ℕ → Mesh
unfolding byte_in
learn_affinity m key =
    if byte_in (get_or key 0 0) m.affinity_hash
    then m
    else if ltb (length m.affinity_hash) max_affinity
    then record m { affinity_hash = m.affinity_hash ++ (get_or key 0 0 ∷ []) }
    else m

-- A name that was heard to advertise as something else than a companion.
unfoldable pub heard_as_other : List Neighbor → List ℕ → Bool
heard_as_other [] name = false
heard_as_other (n ∷ ns) name =
    (n.used && (not (n.type == adv_type_chat) && strcasecmp_eq n.name name))
    || heard_as_other ns name

unfoldable pub is_companion_name : Mesh → List ℕ → Bool
is_companion_name m name =
    if is_empty name
      || (not (config_is_home m.cfg name)
          || (strncasecmp_eq 3 name (codes "ON0")
              || (config_is_affinity m.cfg name || strcasecmp_eq name m.cfg.name)))
    then false
    else not (heard_as_other m.neighbors name)

-- Waking from silence, the hotspot identifies with an advert and has its status sent.
unfoldable pub hotspot_wake : Env → Mesh → Packet → List ℕ → Mesh
hotspot_wake env m p who =
    if not (is_hotspot m.cfg.role)
      || (m.cfg.hotspot_awake == 0
          || (is_backbone m.rx_src
              || (not (path_hash_count p == 0) || not (is_companion_name m who))))
    then m
    else let was_silent = mesh_rf_silent m env.millis in
      let woken : Mesh = record m {
        hs_awake_until_ms = env.millis + m.cfg.hotspot_awake * 1000;
        hs_woken_by = copy_str 32 who;
      } in
      if was_silent
      then (let (m', status) = mesh_send_advert env (record woken { hs_silent = false }) in
          record m' { outputs = status_soon ∷ m'.outputs })
      else woken

-- Whether a packet that the content policy allows is in the operator's scope, and the power.
unfoldable pub hotspot_decide : Mesh → Packet → List ℕ → List ℕ → Bool × ℤ
hotspot_decide m p aname grp_sender =
    let low = m.cfg.hotspot_power_low in
    let high = m.cfg.hotspot_power_high in
    let pt = payload_type p in
    if is_backbone m.rx_src
    then (not (pt == payload_advert) || config_is_affinity m.cfg aname, low)
    else if pt == payload_advert
    then (if config_is_affinity m.cfg aname
        then (true, low)
        else if config_is_home m.cfg aname
        then (true, high)
        else (false, low))
    else if path_has_affinity m p
    then (true, low)
    else if pt == payload_grp_txt && config_is_affinity m.cfg grp_sender
    then (true, low)
    else if pt == payload_grp_txt
    then (config_is_home m.cfg grp_sender, high)
    else (false, high)
