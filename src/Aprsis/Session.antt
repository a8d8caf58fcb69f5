-- ===== src/Aprsis/Session.antt =====
-- src/aprsis.c: the connection to the server.
use meshcore_repeater.Common.{
  ℕ, ◌+◌, ◌-◌, ◌*◌, Bool, true, false, not, ◌&&◌, ◌||◌, List, [], ◌∷◌, ◌++◌, Option, none, some,
  ltb, leb, ◌==◌, if◌then◌else◌, length, take, drop, get_or, ℤ, pos,
}
use mathlib.Core.List.{reverse}
use meshcore_repeater.Common.Text.{codes, cstr, copy_str, decimal_int, is_empty, strcasecmp_eq}
use meshcore_repeater.Aprsis.{
  aprsis_disconnected, aprsis_connecting, aprsis_login, aprsis_ready, AprsisSettings, Aprsis,
  is_disconnected, is_login, is_ready, aprsis_rxbuf, tx_queue, go_disconnected,
}
use meshcore_repeater.Aprsis.Callsign.{aprsis_passcode}

-- What recv() gives: the end of the stream, nothing for now, an error, or bytes.
pub data Input : Type 0 where
  peer_closed nothing_yet recv_broken : Input
  bytes_in : List ℕ → Input

-- What send() takes: some of the bytes, nothing for now (or an interruption), or an error.
pub data SendResult : Type 0 where
  taken : ℕ → SendResult
  would_block send_broken : SendResult

-- What one call of aprsis_service meets: what poll() reported, socket(), connect() (at once or in
-- progress), SO_ERROR, recv(), the answers of send() in their order for both flushes, and the text of
-- the beacon, which prints floating-point settings (`none` when there is none).
pub record Io : Type 0 where
  pub broken : Bool
  pub readable : Bool
  pub writable : Bool
  pub socket_ok : Bool
  pub connect_ok : Bool
  pub so_error : ℕ
  pub input : Input
  pub sends : List SendResult
  pub beacon_sends : List SendResult
  pub beacon : Option (List ℕ)

unfoldable pub start_connect : Io → Aprsis → ℕ → Aprsis
unfolding go_disconnected
start_connect io a now =
    if not io.socket_ok
    then go_disconnected a now true
    else let trying : Aprsis = record a { fd = true; deadline_ms = now + 10000 } in
      (if io.connect_ok
        then record trying { state = aprsis_connecting }
        else go_disconnected trying now true)

unfoldable pub login_line : Aprsis → List ℕ
login_line a = copy_str 128 (
    codes "user "
    ++ (a.cfg.call
        ++ (codes " pass "
            ++ (decimal_int a.passcode
                ++ (codes " vers meshcore-repeater 1.0" ++ (13 ∷ 10 ∷ []))))))

unfoldable pub send_login : Aprsis → ℕ → Aprsis
unfolding tx_queue login_line
send_login a now = record (tx_queue a (login_line a)) {
  state = aprsis_login;
  deadline_ms = now + 10000;
}

unfoldable pub starts_with : List ℕ → List ℕ → Bool
starts_with [] s = true
starts_with (p ∷ ps) [] = false
starts_with (p ∷ ps) (c ∷ cs) = p == c && starts_with ps cs

-- `strstr(s, pattern) != NULL`.
unfoldable pub contains : List ℕ → List ℕ → Bool
unfolding starts_with
contains pattern [] = starts_with pattern []
contains pattern (c ∷ cs) = starts_with pattern (c ∷ cs) || contains pattern cs

unfoldable pub handle_server_line : Aprsis → List ℕ → ℕ → Aprsis
unfolding contains go_disconnected
handle_server_line a line now =
    if not (get_or line 0 0 == b'#')
    then a
    else if is_login a.state && contains (codes "logresp") line
    then (if contains (codes " verified,") line
        then record a { state = aprsis_ready; backoff_s = 5; last_beacon_ms = 0 }
        else record (go_disconnected a now true) {
          backoff_s = 300;
          next_connect_ms = now + 300000;
        })
    else a

-- A line without the CR at its end, as a C string.
unfoldable pub cut_line : List ℕ → List ℕ
cut_line line =
    let rev = reverse line in cstr (if get_or rev 0 0 == 13 then reverse (drop 1 rev) else line)

-- The loop over the buffer: `line` holds the bytes since the last LF, the last one first, and `any`
-- says that there was one. What is left of the buffer is kept.
unfoldable pub process_lines : List ℕ → Aprsis → ℕ → List ℕ → Bool → Aprsis
unfolding handle_server_line cut_line
process_lines [] a now line any =
    if any
    then record a { rxbuf = reverse line }
    else if leb (aprsis_rxbuf - 1) (length a.rxbuf)
    then record a { rxbuf = [] }
    else a
process_lines (c ∷ cs) a now line any =
    let handled = handle_server_line a (cut_line (reverse line)) now in
    if not (c == 10)
    then process_lines cs a now (c ∷ line) any
    else if is_disconnected handled.state
    then handled
    else process_lines cs handled now [] true

-- recv() is given the space that is left.
unfoldable pub read_server : Io → Aprsis → ℕ → Aprsis
unfolding process_lines go_disconnected
read_server io a now = elim io.input [
  | peer_closed ↦ go_disconnected a now true
  | nothing_yet ↦ a
  | recv_broken ↦ go_disconnected a now true
  | bytes_in bytes ↦
      let all = a.rxbuf ++ take (aprsis_rxbuf - 1 - length a.rxbuf) bytes in
      process_lines all (record a { rxbuf = all }) now [] false
]

unfoldable pub tx_flush : List SendResult → Aprsis → ℕ → Aprsis
unfolding go_disconnected
tx_flush [] a now = a
tx_flush (taken n ∷ rs) a now =
    if length a.txbuf == 0 || n == 0
    then a
    else tx_flush rs (record a { txbuf = drop n a.txbuf }) now
tx_flush (would_block ∷ rs) a now = a
tx_flush (send_broken ∷ rs) a now = if length a.txbuf == 0 then a else go_disconnected a now true

-- Whether to poll for input, for output; `none` without a socket.
unfoldable pub aprsis_pollfd : Aprsis → Option (Bool × Bool)
aprsis_pollfd a = if not a.fd then none else elim a.state [
  | aprsis_connecting ↦ some (false, true)
  | _ ↦ some (true, leb 1 (length a.txbuf))
]

-- The beacon of the node's own position. The clock does not run backwards.
unfoldable pub service_beacon : Io → Aprsis → ℕ → Aprsis
unfolding tx_queue tx_flush
service_beacon io a now =
    if is_ready a.state
      && (leb 1 a.cfg.beacon_interval
          && leb (a.cfg.beacon_interval * 1000) (now - a.last_beacon_ms))
    then elim io.beacon [
      | none ↦ record a { last_beacon_ms = now }
      | some text ↦
          let flushed = tx_flush io.beacon_sends (tx_queue a text) now in
          record flushed { stat_beacons = flushed.stat_beacons + 1; last_beacon_ms = now }
    ]
    else a

-- The states LOGIN and READY.
unfoldable pub service_session : Io → Aprsis → ℕ → Aprsis
unfolding go_disconnected read_server tx_flush service_beacon
service_session io a now =
    let read = if io.readable then read_server io a now else a in
    let flushed = tx_flush io.sends read now in
    if io.broken
    then go_disconnected a now true
    else if is_disconnected read.state
    then read
    else if is_login flushed.state && ltb flushed.deadline_ms now
    then go_disconnected flushed now true
    else service_beacon io flushed now

unfoldable pub service_connecting : Io → Aprsis → ℕ → Aprsis
unfolding go_disconnected send_login tx_flush
service_connecting io a now =
    if io.broken
    then go_disconnected a now true
    else if io.writable
    then (if not (io.so_error == 0)
        then go_disconnected a now true
        else tx_flush io.sends (send_login a now) now)
    else if ltb a.deadline_ms now
    then go_disconnected a now true
    else a

unfoldable pub aprsis_service : Io → Aprsis → ℕ → Aprsis
unfolding start_connect service_connecting service_session
aprsis_service io a now = elim a.state [
  | aprsis_disconnected ↦
      if a.resolved && leb a.next_connect_ms now then start_connect io a now else a
  | aprsis_connecting ↦ service_connecting io a now
  | aprsis_login ↦ service_session io a now
  | aprsis_ready ↦ service_session io a now
]

-- The state after `memset`, and the fields that are set in any case.
abbrev pub blank_aprsis : AprsisSettings → List ℕ → Aprsis
blank_aprsis cfg our_pub = record {
  cfg = cfg;
  our_pub = our_pub;
  passcode = pos 0;
  fd = false;
  state = aprsis_disconnected;
  resolved = false;
  next_connect_ms = 0;
  backoff_s = 5;
  deadline_ms = 0;
  last_beacon_ms = 0;
  txbuf = [];
  rxbuf = [];
  nodes = [];
  stat_gated = 0;
  stat_beacons = 0;
  stat_dropped = 0;
}

-- A status (0, or 1 for -1) and the client. `number` is atoi of the passcode setting, `found` whether
-- the name was resolved.
unfoldable pub aprsis_init : AprsisSettings → List ℕ → ℤ → Bool → ℕ × Aprsis
unfolding aprsis_passcode
aprsis_init cfg our_pub number found =
    let blank = blank_aprsis cfg our_pub in
    let code =
      if strcasecmp_eq cfg.passcode (codes "auto")
      then pos (aprsis_passcode cfg.call)
      else number in
    if not cfg.enable || is_empty cfg.call
    then (1, blank)
    else (0, record blank { passcode = code; resolved = found })

unfoldable pub aprsis_close : Aprsis → Aprsis
aprsis_close a = record a { fd = false; state = aprsis_disconnected }
