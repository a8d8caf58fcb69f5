-- ===== src/Aprsis/Gate.antt =====
-- src/aprsis.c: the positions of other stations.
use meshcore_repeater.Common.{
  ℕ, ◌+◌, ◌-◌, ◌*◌, Bool, true, false, not, ◌&&◌, ◌||◌, List, [], ◌∷◌, ◌++◌, Option, none, some,
  ltb, ◌==◌, if◌then◌else◌, length, set, bytes_eq, ℤ,
}
use meshcore_repeater.Common.Text.{codes, copy_str}
use meshcore_repeater.Advert.{adv_type_chat, adv_type_repeater}
use meshcore_repeater.Aprsis.{Node, Aprsis, is_ready, aprsis_max_nodes, tx_queue}
use meshcore_repeater.Aprsis.Callsign.{aprsis_valid_callsign}

-- What is computed in floating point: whether two positions are less than 100 m apart (dist_m), and
-- the text of a position with a symbol (aprs_make_position; `none` for an error).
pub record Geo : Type 0 where
  pub near : ℤ → ℤ → ℤ → ℤ → Bool
  pub position : ℤ → ℤ → List ℕ → Option (List ℕ)

-- The index of the node with this call, from `i` on.
unfoldable pub find_node : List Node → List ℕ → ℕ → Option (ℕ × Node)
find_node [] call i = none
find_node (n ∷ ns) call i =
    let rest = find_node ns call (i + 1) in if bytes_eq n.call call then some (i, n) else rest

-- The index of the node that was heard longest ago, with the best index so far.
unfoldable pub oldest_node : List Node → ℕ → ℕ → ℕ → ℕ
oldest_node [] i best best_ms = best
oldest_node (n ∷ ns) i best best_ms =
    if ltb n.last_ms best_ms
    then oldest_node ns (i + 1) i n.last_ms
    else oldest_node ns (i + 1) best best_ms

unfoldable pub remember_node : List Node → Node → List Node
unfolding oldest_node
remember_node [] n = n ∷ []
remember_node (first ∷ rest) n =
    if ltb (length (first ∷ rest)) aprsis_max_nodes
    then (first ∷ rest) ++ (n ∷ [])
    else set (first ∷ rest) (oldest_node rest 1 0 first.last_ms) n

-- The clock does not run backwards.
unfoldable pub rate_ok : Geo → Aprsis → List ℕ → ℕ → ℤ → ℤ → Aprsis × Bool
unfolding find_node remember_node
rate_ok geo a call now lat lon =
    let fresh : Node = record { call = copy_str 12 call; last_ms = now; lat = lat; lon = lon } in
    elim (find_node a.nodes call 0) [
      | none ↦ (record a { nodes = remember_node a.nodes fresh }, true)
      | some (i, n) ↦
          if ltb (now - n.last_ms) (a.cfg.node_rate * 1000) && geo.near n.lat n.lon lat lon
          then (a, false)
          else (
            record a { nodes = set a.nodes i (record n { last_ms = now; lat = lat; lon = lon }) },
            true,
          )
    ]

unfoldable pub type_name : ℕ → List ℕ
type_name t =
    if t == adv_type_chat
    then codes "chat"
    else if t == adv_type_repeater
    then codes "repeater"
    else if t == 3
    then codes "room"
    else if t == 4
    then codes "sensor"
    else codes "node"

-- The line for one station, in its buffer of 300 bytes.
unfoldable pub gate_line : Aprsis → List ℕ → ℕ → List ℕ → List ℕ
unfolding type_name
gate_line a call type position = copy_str 300 (
    call
    ++ (codes ">"
        ++ (a.cfg.tocall
            ++ (codes ",qAO,"
                ++ (a.cfg.call
                    ++ (codes ":!"
                        ++ (position
                            ++ (codes " MeshCore " ++ (type_name type ++ (13 ∷ 10 ∷ []))))))))))

unfoldable pub aprsis_gate_node : Geo → Aprsis → ℕ → List ℕ → ℕ → ℤ → ℤ → List ℕ → Aprsis
unfolding rate_ok gate_line
aprsis_gate_node geo a now name type lat lon key =
    if not (is_ready a.state)
      || (bytes_eq key a.our_pub || not (type == adv_type_chat || type == adv_type_repeater))
    then a
    else elim (aprsis_valid_callsign name) [
      | none ↦ a
      | some call ↦
          let (noted, pass) = rate_ok geo a (copy_str 12 call) now lat lon in
          if not pass then noted else elim (geo.position lat lon a.cfg.node_symbol) [
            | none ↦ noted
            | some position ↦
                let queued = tx_queue noted (gate_line noted (copy_str 12 call) type position) in
                record queued { stat_gated = queued.stat_gated + 1 }
          ]
    ]
