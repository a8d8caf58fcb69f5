-- ===== src/Aprsis/Bounds.antt =====
-- src/aprsis.c: the bounds of the client in every state that it reaches.
use meshcore_repeater.Common.{
  ℤ, ℕ, suc, ◌+◌, ◌-◌, ◌*◌, ◌≤◌, ◌<◌, ◌≡◌, refl, sym, ap, ◌∙◌, subst, Bool, true, false, not, ◌&&◌,
  ◌||◌, List, [], ◌∷◌, ◌++◌, Option, none, some, ltb, leb, ◌==◌, if◌then◌else◌, if_both, if_true,
  if_false, length, take, drop, get_or, arith, Bool-cases, inl, inr, length-append, length-take,
  length-drop, length-push,
}
use mathlib.Core.List.{reverse, reverse-cons}
use meshcore_repeater.Common.Text.{codes, is_empty}
use meshcore_repeater.Aprsis.{
  Aprsis, AprsisSettings, AprsisState, aprsis_disconnected, aprsis_connecting, aprsis_login,
  aprsis_ready, is_disconnected, is_login, is_ready, tx_queue, go_disconnected, aprsis_txbuf,
  aprsis_rxbuf, aprsis_max_nodes,
}
use meshcore_repeater.Aprsis.Session.{
  Io, Input, peer_closed, nothing_yet, recv_broken, bytes_in, SendResult, taken, would_block,
  send_broken, start_connect, send_login, login_line, contains, handle_server_line, cut_line,
  process_lines, read_server, tx_flush, service_beacon, service_session, service_connecting,
  aprsis_service, aprsis_init, blank_aprsis,
}

-- The buffers and the table hold no more than their arrays, and the backoff is 5 s to 300 s.
abbrev pub Fits : Aprsis → Type 0
Fits a =
    (length a.txbuf ≤ aprsis_txbuf)
    × (length a.rxbuf < aprsis_rxbuf)
    × (length a.nodes ≤ aprsis_max_nodes)
    × (5 ≤ a.backoff_s)
    × (a.backoff_s ≤ 300)

pub tx_queue-Fits : (a : Aprsis) (line : List ℕ) → Fits a → Fits (tx_queue a line)
unfolding tx_queue
tx_queue-Fits a line (t, r, n, lo, hi) =
    elim (Bool-cases (ltb aprsis_txbuf (length a.txbuf + length line))) [
      | inl over ↦ subst Fits (sym (if_true _ _ over)) (t, r, n, lo, hi)
      | inr fits ↦
          let room : length a.txbuf + length line ≤ aprsis_txbuf = ground (arith, fits) in
          subst Fits (sym (if_false _ _ fits))
            (omega (arith, room, length-append a.txbuf line), r, n, lo, hi)
    ]

go_disconnected-Fits :
    (a : Aprsis) (now : ℕ) (bump : Bool) → Fits a → Fits (go_disconnected a now bump)
unfolding go_disconnected
go_disconnected-Fits a now bump (t, r, n, lo, hi) = (
  omega arith,
  omega arith,
  n,
  (bounds a.backoff_s bump lo hi).0,
  (bounds a.backoff_s bump lo hi).1,
)
  where
    next : ℕ → Bool → ℕ
    next b bump =
        let doubled = if ltb b 5 then 5 else b * 2 in
        let capped = if ltb 300 doubled then 300 else doubled in if bump then capped else b

    bounds : (b : ℕ) (bump : Bool) → 5 ≤ b → b ≤ 300 → (5 ≤ next b bump) × (next b bump ≤ 300)
    bounds b bump h k = ground arith

start_connect-Fits : (io : Io) (a : Aprsis) (now : ℕ) → Fits a → Fits (start_connect io a now)
unfolding start_connect
start_connect-Fits io a now h =
    let trying : Aprsis = record a { fd = true; deadline_ms = now + 10000 } in
    if_both Fits (not io.socket_ok) (go_disconnected-Fits a now true h)
      (if_both Fits io.connect_ok h (go_disconnected-Fits trying now true h))

handle-Fits : (a : Aprsis) (line : List ℕ) (now : ℕ) → Fits a → Fits (handle_server_line a line now)
unfolding handle_server_line
handle-Fits a line now h =
    let (t, r, n, lo, hi) = go_disconnected-Fits a now true h in
    if_both Fits (not (get_or line 0 0 == b'#')) h (
      if_both Fits (is_login a.state && contains (codes "logresp") line)
        (if_both Fits (contains (codes " verified,") line) (h.0, h.1, h.2, omega arith, omega arith)
          (t, r, n, omega arith, omega arith))
        h)

length-reverse : (xs : List ℕ) → length (reverse xs) ≡ length xs
length-reverse [] = refl
length-reverse (x ∷ xs) =
    ap length (reverse-cons x xs) ∙ length-push (reverse xs) x ∙ ap suc (length-reverse xs)

-- What is still to be looked at and the line so far are no longer than the buffer.
process_lines-Fits :
    (cs : List ℕ) (a : Aprsis) (now : ℕ) (line : List ℕ) (any : Bool)
    → length cs + length line < aprsis_rxbuf
    → Fits a
    → Fits (process_lines cs a now line any)
unfolding process_lines
process_lines-Fits [] a now line any le h =
    if_both Fits any (h.0, omega (arith, length-reverse line, le), h.2, h.3, h.4)
      (if_both Fits (leb (aprsis_rxbuf - 1) (length a.rxbuf)) (h.0, omega arith, h.2, h.3, h.4) h)
process_lines-Fits (c ∷ cs) a now line any le h =
    let handled = handle_server_line a (cut_line (reverse line)) now in
    let ok_ : Fits handled = handle-Fits a (cut_line (reverse line)) now h in
    if_both Fits (not (c == 10)) (process_lines-Fits cs a now (c ∷ line) any (omega (arith, le)) h)
      (if_both Fits (is_disconnected handled.state) ok_
        (process_lines-Fits cs handled now [] true (omega (arith, le)) ok_))

read_server-Fits : (io : Io) (a : Aprsis) (now : ℕ) → Fits a → Fits (read_server io a now)
unfolding read_server
read_server-Fits io a now h = go io.input
  where
    all : List ℕ → List ℕ
    all bytes = a.rxbuf ++ take (aprsis_rxbuf - 1 - length a.rxbuf) bytes

    go :
        (i : Input)
        → Fits (elim i [
          | peer_closed ↦ go_disconnected a now true
          | nothing_yet ↦ a
          | recv_broken ↦ go_disconnected a now true
          | bytes_in bytes ↦ process_lines (all bytes) (record a { rxbuf = all bytes }) now [] false
        ])
    go peer_closed = go_disconnected-Fits a now true h
    go nothing_yet = h
    go recv_broken = go_disconnected-Fits a now true h
    go (bytes_in bytes) =
        let n : length (all bytes) < aprsis_rxbuf = omega (
          arith,
          length-append a.rxbuf (take (aprsis_rxbuf - 1 - length a.rxbuf) bytes),
          length-take (aprsis_rxbuf - 1 - length a.rxbuf) bytes,
          h.1,
        ) in
        process_lines-Fits (all bytes) (record a { rxbuf = all bytes }) now [] false
          (omega (arith, n)) (h.0, n, h.2, h.3, h.4)

tx_flush-Fits : (rs : List SendResult) (a : Aprsis) (now : ℕ) → Fits a → Fits (tx_flush rs a now)
unfolding tx_flush
tx_flush-Fits [] a now h = h
tx_flush-Fits (taken n ∷ rs) a now h = if_both Fits (length a.txbuf == 0 || n == 0) h (
    tx_flush-Fits rs (record a { txbuf = drop n a.txbuf }) now
      (omega (arith, length-drop n a.txbuf, h.0), h.1, h.2, h.3, h.4))
tx_flush-Fits (would_block ∷ rs) a now h = h
tx_flush-Fits (send_broken ∷ rs) a now h =
    if_both Fits (length a.txbuf == 0) h (go_disconnected-Fits a now true h)

service_beacon-Fits : (io : Io) (a : Aprsis) (now : ℕ) → Fits a → Fits (service_beacon io a now)
unfolding service_beacon
service_beacon-Fits io a now h =
    if_both Fits
      (is_ready a.state
        && (leb 1 a.cfg.beacon_interval
            && leb (a.cfg.beacon_interval * 1000) (now - a.last_beacon_ms)))
      (go io.beacon) h
  where
    go :
        (o : Option (List ℕ))
        → Fits (elim o [
          | none ↦ record a { last_beacon_ms = now }
          | some text ↦ record (tx_flush io.beacon_sends (tx_queue a text) now) {
            stat_beacons = (tx_flush io.beacon_sends (tx_queue a text) now).stat_beacons + 1;
            last_beacon_ms = now;
          }
        ])
    go none = h
    go (some text) = tx_flush-Fits io.beacon_sends (tx_queue a text) now (tx_queue-Fits a text h)

service_session-Fits : (io : Io) (a : Aprsis) (now : ℕ) → Fits a → Fits (service_session io a now)
unfolding service_session
service_session-Fits io a now h =
    let read = if io.readable then read_server io a now else a in
    let flushed = tx_flush io.sends read now in
    let read_ok : Fits read = if_both Fits io.readable (read_server-Fits io a now h) h in
    let flushed_ok : Fits flushed = tx_flush-Fits io.sends read now read_ok in
    if_both Fits io.broken (go_disconnected-Fits a now true h) (
      if_both Fits (is_disconnected read.state) read_ok (
        if_both Fits (is_login flushed.state && ltb flushed.deadline_ms now)
          (go_disconnected-Fits flushed now true flushed_ok)
          (service_beacon-Fits io flushed now flushed_ok)))

service_connecting-Fits :
    (io : Io) (a : Aprsis) (now : ℕ) → Fits a → Fits (service_connecting io a now)
unfolding service_connecting send_login
service_connecting-Fits io a now h =
    let off : Fits (go_disconnected a now true) = go_disconnected-Fits a now true h in
    if_both Fits io.broken off (
      if_both Fits io.writable
        (if_both Fits (not (io.so_error == 0)) off
          (tx_flush-Fits io.sends (send_login a now) now (tx_queue-Fits a (login_line a) h)))
        (if_both Fits (ltb a.deadline_ms now) off h))

pub aprsis_service-Fits : (io : Io) (a : Aprsis) (now : ℕ) → Fits a → Fits (aprsis_service io a now)
unfolding aprsis_service
aprsis_service-Fits io a now h = go a.state
  where
    go :
        (s : AprsisState)
        → Fits (elim s [
          | aprsis_disconnected ↦
              if a.resolved && leb a.next_connect_ms now then start_connect io a now else a
          | aprsis_connecting ↦ service_connecting io a now
          | aprsis_login ↦ service_session io a now
          | aprsis_ready ↦ service_session io a now
        ])
    go aprsis_disconnected =
        if_both Fits (a.resolved && leb a.next_connect_ms now) (start_connect-Fits io a now h) h
    go aprsis_connecting = service_connecting-Fits io a now h
    go aprsis_login = service_session-Fits io a now h
    go aprsis_ready = service_session-Fits io a now h

pub aprsis_init-Fits :
    (cfg : AprsisSettings) (our_pub : List ℕ) (number : ℤ) (found : Bool)
    → Fits (aprsis_init cfg our_pub number found).1
unfolding aprsis_init
aprsis_init-Fits cfg our_pub number found =
    let blank : Fits (blank_aprsis cfg our_pub) =
      (omega arith, omega arith, omega arith, omega arith, omega arith) in
    if_both (λ (x : ℕ × Aprsis). Fits x.1) (not cfg.enable || is_empty cfg.call) blank blank
