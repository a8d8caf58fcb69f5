-- ===== src/Aprsis/Reached.antt =====
-- src/aprsis.c: every state that the client reaches in the daemon.
use meshcore_repeater.Common.{
  ℕ, ◌+◌, ◌-◌, ◌*◌, ◌≤◌, ◌≡◌, refl, sym, ap, ◌∙◌, subst, Bool, true, false, not, ◌&&◌, ◌||◌, List,
  [], ◌∷◌, Option, none, some, ltb, leb, ◌==◌, if◌then◌else◌, if_both, if_true, if_false, length,
  set, bytes_eq, arith, Bool-cases, inl, inr, ℤ, length-set, length-push,
}
use meshcore_repeater.Common.Text.{is_empty, copy_str}
use meshcore_repeater.Advert.{adv_type_chat, adv_type_repeater}
use meshcore_repeater.Aprsis.{
  Node, Aprsis, AprsisSettings, AprsisState, aprsis_disconnected, aprsis_connecting, aprsis_login,
  aprsis_ready, is_ready, aprsis_max_nodes, tx_queue,
}
use meshcore_repeater.Aprsis.Callsign.{aprsis_valid_callsign}
use meshcore_repeater.Aprsis.Gate.{
  Geo, find_node, oldest_node, remember_node, rate_ok, gate_line, aprsis_gate_node,
}
use meshcore_repeater.Aprsis.Session.{
  Io, start_connect, service_connecting, service_session, aprsis_service, aprsis_init, aprsis_close,
}
use meshcore_repeater.Aprsis.Bounds.{Fits, tx_queue-Fits, aprsis_service-Fits, aprsis_init-Fits}

-- After aprsis_init, and after each call of the main loop and of the mesh, in any order and with any
-- answers from outside. `found`: whether aprsis_init could resolve the server's name.
pub data Reached (cfg : AprsisSettings) (key : List ℕ) (found : Bool) : Aprsis → Type 0 where
  booted : (number : ℤ) → Reached cfg key found (aprsis_init cfg key number found).1
  serviced :
      {a : Aprsis} (io : Io) (now : ℕ)
      → Reached cfg key found a
      → Reached cfg key found (aprsis_service io a now)
  gated :
      {a : Aprsis} (geo : Geo) (now : ℕ) (name : List ℕ) (type : ℕ) (lat lon : ℤ) (pub_key : List ℕ)
      → Reached cfg key found a
      → Reached cfg key found (aprsis_gate_node geo a now name type lat lon pub_key)
  closed : {a : Aprsis} → Reached cfg key found a → Reached cfg key found (aprsis_close a)

remember_node_bound :
    (ns : List Node) (n : Node)
    → length ns ≤ aprsis_max_nodes
    → length (remember_node ns n) ≤ aprsis_max_nodes
unfolding remember_node
remember_node_bound [] n h = omega arith
remember_node_bound (m ∷ ms) n h = elim (Bool-cases (ltb (length (m ∷ ms)) aprsis_max_nodes)) [
  | inl room ↦
      subst (λ (x : List Node). length x ≤ aprsis_max_nodes) (sym (if_true _ _ room))
        (ground (arith, room, length-push (m ∷ ms) n))
  | inr full ↦
      subst (λ (x : List Node). length x ≤ aprsis_max_nodes) (sym (if_false _ _ full))
        (subst (λ k. k ≤ aprsis_max_nodes)
          (sym (length-set (m ∷ ms) (oldest_node ms 1 0 m.last_ms) n)) h)
]

rate_ok-Fits :
    (geo : Geo) (a : Aprsis) (call : List ℕ) (now : ℕ) (lat lon : ℤ)
    → Fits a
    → Fits (rate_ok geo a call now lat lon).0
unfolding rate_ok
rate_ok-Fits geo a call now lat lon h = go (find_node a.nodes call 0)
  where
    fresh : Node
    fresh = record { call = copy_str 12 call; last_ms = now; lat = lat; lon = lon }

    final : Option (ℕ × Node) → Aprsis × Bool
    final o = elim o [
      | none ↦ (record a { nodes = remember_node a.nodes fresh }, true)
      | some (i, n) ↦
          if ltb (now - n.last_ms) (a.cfg.node_rate * 1000) && geo.near n.lat n.lon lat lon
          then (a, false)
          else (
            record a { nodes = set a.nodes i (record n { last_ms = now; lat = lat; lon = lon }) },
            true,
          )
    ]

    go : (o : Option (ℕ × Node)) → Fits (final o).0
    go none = (h.0, h.1, remember_node_bound a.nodes fresh h.2, h.3, h.4)
    go (some (i, n)) =
        let n' : Node = record n { last_ms = now; lat = lat; lon = lon } in
        if_both (λ (x : Aprsis × Bool). Fits x.0)
          (ltb (now - n.last_ms) (a.cfg.node_rate * 1000) && geo.near n.lat n.lon lat lon) h
          (h.0, h.1, omega (arith, length-set a.nodes i n', h.2), h.3, h.4)

gate-Fits :
    (geo : Geo) (a : Aprsis) (now : ℕ) (name : List ℕ) (type : ℕ) (lat lon : ℤ) (key : List ℕ)
    → Fits a
    → Fits (aprsis_gate_node geo a now name type lat lon key)
unfolding aprsis_gate_node
gate-Fits geo a now name type lat lon key h =
    if_both Fits
      (not (is_ready a.state)
        || (bytes_eq key a.our_pub || not (type == adv_type_chat || type == adv_type_repeater)))
      h (go (aprsis_valid_callsign name))
  where
    noted : List ℕ → Aprsis
    noted call = (rate_ok geo a (copy_str 12 call) now lat lon).0

    queued : List ℕ → Option (List ℕ) → Aprsis
    queued call o = elim o [
      | none ↦ noted call
      | some position ↦
          let q = tx_queue (noted call) (gate_line (noted call) (copy_str 12 call) type position) in
          record q { stat_gated = q.stat_gated + 1 }
    ]

    placed : (call : List ℕ) (o : Option (List ℕ)) → Fits (queued call o)
    placed call none = rate_ok-Fits geo a (copy_str 12 call) now lat lon h
    placed call (some position) =
        tx_queue-Fits (noted call) (gate_line (noted call) (copy_str 12 call) type position)
          (rate_ok-Fits geo a (copy_str 12 call) now lat lon h)

    go :
        (o : Option (List ℕ))
        → Fits (elim o [
          | none ↦ a
          | some call ↦
              if not (rate_ok geo a (copy_str 12 call) now lat lon).1
              then noted call
              else queued call (geo.position lat lon a.cfg.node_symbol)
        ])
    go none = h
    go (some call) =
        if_both Fits (not (rate_ok geo a (copy_str 12 call) now lat lon).1)
          (rate_ok-Fits geo a (copy_str 12 call) now lat lon h)
          (placed call (geo.position lat lon a.cfg.node_symbol))

-- In every state that the client reaches, whatever the server, the network and the mesh do: the output
-- holds at most 2048 bytes and the input fewer than 600, at most 64 stations are remembered, and the
-- backoff is between 5 s and 300 s.
pub Reached-Fits :
    (cfg : AprsisSettings) (key : List ℕ) (found : Bool) (a : Aprsis)
    → Reached cfg key found a
    → Fits a
unfolding aprsis_close
Reached-Fits cfg key found a' (booted number) = aprsis_init-Fits cfg key number found
Reached-Fits cfg key found a' (serviced {a = a} io now r) =
    aprsis_service-Fits io a now (Reached-Fits cfg key found a r)
Reached-Fits cfg key found a' (gated {a = a} geo now name type lat lon pub_key r) =
    gate-Fits geo a now name type lat lon pub_key (Reached-Fits cfg key found a r)
Reached-Fits cfg key found a' (closed {a = a} r) = Reached-Fits cfg key found a r

-- Without an address, a service call does nothing.
service_idle :
    (io : Io) (a : Aprsis) (now : ℕ)
    → a.state ≡ aprsis_disconnected
    → a.resolved ≡ false
    → aprsis_service io a now ≡ a
unfolding aprsis_service
service_idle io a now s r = ap final s ∙ if_false _ _ (ap (λ x. x && leb a.next_connect_ms now) r)
  where
    final : AprsisState → Aprsis
    final t = elim t [
      | aprsis_disconnected ↦
          if a.resolved && leb a.next_connect_ms now then start_connect io a now else a
      | aprsis_connecting ↦ service_connecting io a now
      | aprsis_login ↦ service_session io a now
      | aprsis_ready ↦ service_session io a now
    ]

gate_idle :
    (geo : Geo) (a : Aprsis) (now : ℕ) (name : List ℕ) (type : ℕ) (lat lon : ℤ) (key : List ℕ)
    → a.state ≡ aprsis_disconnected
    → aprsis_gate_node geo a now name type lat lon key ≡ a
unfolding aprsis_gate_node
gate_idle geo a now name type lat lon key s = if_true _ _ (
    ap
      (λ t.
        not (is_ready t)
        || (bytes_eq key a.our_pub || not (type == adv_type_chat || type == adv_type_repeater)))
      s)

-- No socket is open, nothing is queued, and no name was resolved.
abbrev pub Idle : Aprsis → Type 0
Idle a = (a.state ≡ aprsis_disconnected) × (a.fd ≡ false) × (a.resolved ≡ false) × (a.txbuf ≡ [])

-- A client whose server name could not be resolved when the daemon started never connects: in every
-- state that it reaches later it is disconnected, without a socket and with nothing to send, although
-- the daemon logged that it will retry.
pub Reached-Idle :
    (cfg : AprsisSettings) (key : List ℕ) (a : Aprsis) → Reached cfg key false a → Idle a
unfolding aprsis_init aprsis_close
Reached-Idle cfg key a' (booted number) =
    if_both (λ (x : ℕ × Aprsis). Idle x.1) (not cfg.enable || is_empty cfg.call)
      (refl, refl, refl, refl) (refl, refl, refl, refl)
Reached-Idle cfg key a' (serviced {a = a} io now r) =
    let idle = Reached-Idle cfg key a r in
    subst Idle (sym (service_idle io a now idle.0 idle.2)) idle
Reached-Idle cfg key a' (gated {a = a} geo now name type lat lon pub_key r) =
    let idle = Reached-Idle cfg key a r in
    subst Idle (sym (gate_idle geo a now name type lat lon pub_key idle.0)) idle
Reached-Idle cfg key a' (closed {a = a} r) =
    let idle = Reached-Idle cfg key a r in (refl, refl, idle.2, idle.3)
