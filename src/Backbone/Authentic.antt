-- ===== src/Backbone/Authentic.antt =====
-- src/backbone.c: which session datagrams are acted on, and what the hub reads of those sent to it.
use meshcore_repeater.Common.{
  ℕ, suc, ◌+◌, ◌-◌, ◌%◌, ◌^◌, ◌≤◌, ◌<◌, ◌≡◌, ◌⊎◌, refl, sym, ap, ◌∙◌, subst, Bool, true, false, not,
  ◌&&◌, ◌||◌, List, ◌∷◌, Option, none, some, if◌then◌else◌, if_true, if_false, ltb, leb, ◌==◌,
  length, drop, get_or, take, Result, ok, err, Bool-cases, inl, inr, arith, ok_inj, some_inj,
  bytes_eq, length-take, length-append,
}
use meshcore_repeater.Common.Bits.{bit_at}
use meshcore_repeater.Util.Endian.{rd_u32le}
use meshcore_repeater.Packet.{Packet, is_route_direct, path_hash_count}
use meshcore_repeater.Packet.Codec.{parse, calc_hash, hash_input}
use meshcore_repeater.Crypto.{Crypto, HashLaws, hmac_sha256}
use meshcore_repeater.Backbone.Codec.{
  Opened, bb_open, bb_seal, bb_hdr, bb_mac, bb_max_dgram, magic_ok,
}
use meshcore_repeater.Backbone.Codec.Sealed.{opened, bb_open-bb_seal}
use meshcore_repeater.Backbone.Replay.{Window, bb_replay_check}
use meshcore_repeater.Backbone.State.{Client, Net, is_up, reject, bridging, send_raw, send_session}
use meshcore_repeater.Backbone.Bridge.{backbone_offer, bridge_body, bb_t_bridge, frame_bad}
use meshcore_repeater.Backbone.Inbound.{on_opened, on_session}

-- The client with what every accepted datagram counts.
abbrev pub heard : Client → ℕ → ℕ → Client
heard bb now seq = record bb {
  rwin = (bb_replay_check bb.rwin seq).0;
  dgrams_in = bb.dgrams_in + 1;
  last_rx_ms = now;
}

replay_refused :
    (w : Window) (seq : ℕ) → (bb_replay_check w seq).1 ≡ false → (bb_replay_check w seq).0 ≡ w
unfolding bb_replay_check
replay_refused w seq h = elim (Bool-cases (seq == 0)) [
  | inl none_yet ↦ ap (λ (x : Window × Bool). x.0) (if_true _ _ none_yet)
  | inr numbered ↦ elim (Bool-cases (ltb w.top seq)) [
    | inl above ↦ absurd (ground (arith, h))
    | inr below ↦ elim (Bool-cases (leb 64 (w.top - seq))) [
      | inl old ↦ rw (numbered, below, old) refl
      | inr inside ↦ elim (Bool-cases (bit_at w.bits (w.top - seq) == 1)) [
        | inl seen ↦ rw (numbered, below, inside, seen) refl
        | inr new ↦ absurd (ground (arith, h))
      ]
    ]
  ]
]

bb_open-sid :
    (c : Crypto) (d key : List ℕ) (o : Opened)
    → bb_open c d key ≡ ok o
    → o.sid ≡ rd_u32le (drop 4 d)
unfolding bb_open
bb_open-sid c d key o e =
    let msg : List ℕ = take (length d - bb_mac) d in
    elim (Bool-cases (ltb (length d) (bb_hdr + bb_mac) || not (magic_ok d))) [
      | inl bad ↦ absurd (ground (arith, e))
      | inr good ↦
          elim (Bool-cases
            (bytes_eq (take bb_mac (hmac_sha256 c key msg)) (drop (length d - bb_mac) d))) [
              | inr forged ↦ absurd (ground (arith, e))
              | inl genuine ↦
                  let read : Opened =
                    opened (get_or d 3 0) (rd_u32le (drop 4 d)) (rd_u32le (drop 8 d))
                      (drop bb_hdr msg) in
                  let opens : bb_open c d key ≡ ok read = rw (good, genuine) refl in
                  let same : read ≡ o = ok_inj (sym opens ∙ e) in
                  sym (ap (λ (x : Opened). x.sid) same)
            ]
    ]

-- What has become of the client.
abbrev pub Fate : Net → Client → ℕ → List ℕ → Client → Type 0
Fate net bb now d x =
    (x ≡ reject bb)
    ⊎ ((o : Opened) × (is_up bb.state ≡ true)
        × (bb_open net.env.crypto d bb.k_down ≡ ok o)
        × (o.sid ≡ bb.sid)
        × ((bb_replay_check bb.rwin o.seq).1 ≡ true)
        × (x ≡ on_opened net (heard bb now o.seq) now o))

-- A session datagram has one of two fates: it is counted as rejected and nothing else changes, or the
-- client is up, the datagram opens under the session's key, carries the session's id and a sequence
-- number that the window has not seen, and what was read of it is acted on.
pub on_session-Authentic :
    (net : Net) (bb : Client) (now : ℕ) (d : List ℕ) → Fate net bb now d (on_session net bb now d)
unfolding on_session
on_session-Authentic net bb now d =
    elim (Bool-cases (
      not (is_up bb.state)
      || (ltb (length d) (bb_hdr + bb_mac) || not (rd_u32le (drop 4 d) == bb.sid)))) [
        | inl bad ↦ inl (if_true _ _ bad)
        | inr good ↦
            let up : is_up bb.state ≡ true = ground (arith, good) in
            let ours : rd_u32le (drop 4 d) ≡ bb.sid = same_id (is_up bb.state) _ _ good in
            subst (Fate net bb now d) (sym (if_false _ _ good))
              (go up ours (bb_open net.env.crypto d bb.k_down) refl)
      ]
  where
    same_id :
        (up short : Bool) (id : ℕ) → (not up || (short || not (id == bb.sid))) ≡ false → id ≡ bb.sid
    same_id up short id h = ground arith

    go :
        (up : is_up bb.state ≡ true) (ours : rd_u32le (drop 4 d) ≡ bb.sid) (r : Result Opened)
        → bb_open net.env.crypto d bb.k_down ≡ r
        → Fate net bb now d (elim r [
          | err code ↦ reject bb
          | ok o ↦
              if (bb_replay_check bb.rwin o.seq).1
              then on_opened net (heard bb now o.seq) now o
              else reject (record bb { rwin = (bb_replay_check bb.rwin o.seq).0 })
        ])
    go up ours (err code) e = inl refl
    go up ours (ok o) e = elim (Bool-cases (bb_replay_check bb.rwin o.seq).1) [
      | inl fresh ↦
          inr
            (o, up, e, bb_open-sid net.env.crypto d bb.k_down o e ∙ ours, fresh, if_true _ _ fresh)
      | inr old ↦ inl (
          if_false _ _ old
          ∙ ap (λ (w : Window). reject (record bb { rwin = w })) (replay_refused bb.rwin o.seq old))
    ]

seals :
    (c : Crypto) (type sid seq : ℕ) (body key : List ℕ)
    → bb_hdr + length body + bb_mac ≤ bb_max_dgram
    → (d : List ℕ) × (bb_seal c bb_max_dgram type sid seq body key ≡ some d)
unfolding bb_seal
seals c type sid seq body key h =
    let fits : (ltb bb_max_dgram (bb_hdr + length body + bb_mac)
          || ltb bb_max_dgram (bb_hdr + length body + bb_mac))
        ≡ false =
      ground arith in
    (_, if_false _ _ fits)

-- What goes through the socket of a session, opens at the hub as what was sent.
send_session-Sent :
    (net : Net) (bb : Client) (type : ℕ) (body : List ℕ)
    → HashLaws net.env.crypto
    → bb.fd ≡ true
    → bb.sid < 2 ^ 32
    → suc bb.seq_out < 2 ^ 32
    → bb_hdr + length body + bb_mac ≤ bb_max_dgram
    → (d : List ℕ) × ((send_session net bb type body).sent ≡ d ∷ bb.sent)
      × (bb_open net.env.crypto d bb.k_up ≡ ok (opened type bb.sid (suc bb.seq_out) body))
unfolding send_session send_raw
send_session-Sent net bb type body laws f s q fits =
    let number : (bb.seq_out + 1) % 2 ^ 32 ≡ suc bb.seq_out = omega (arith, q) in
    let (d, sealed) = seals net.env.crypto type bb.sid (suc bb.seq_out) body bb.k_up fits in
    let at : bb_seal net.env.crypto bb_max_dgram type bb.sid ((bb.seq_out + 1) % 2 ^ 32) body
          bb.k_up
        ≡ some d =
      ap (λ n. bb_seal net.env.crypto bb_max_dgram type bb.sid n body bb.k_up) number ∙ sealed in
    (
      d,
      go _ at,
      bb_open-bb_seal net.env.crypto bb_max_dgram type bb.sid (suc bb.seq_out) body bb.k_up d laws s
          q sealed,
    )
  where
    next : Client
    next = record bb { seq_out = (bb.seq_out + 1) % 2 ^ 32 }

    final : Option (List ℕ) → Client
    final o = elim o [ none ↦ next | some x ↦ send_raw net next x ]

    go : (o : Option (List ℕ)) {d : List ℕ} → o ≡ some d → (final o).sent ≡ d ∷ bb.sent
    go none e = absurd (ground (arith, e))
    go (some x) e =
        ap (λ (y : Client). y.sent) (if_true _ next f) ∙ ap (λ y. y ∷ bb.sent) (some_inj e)

short_hash : (net : Net) (p : Packet) → length (calc_hash net.env.crypto.sha256 p) ≤ 8
unfolding calc_hash
short_hash net p = omega (arith, length-take 8 (net.env.crypto.sha256 (hash_input p)))

-- A frame that may be bridged is sent to the hub in one datagram, and the hub, which opens it with
-- the same key, reads a BRIDGE with this session's id and the next sequence number, and in it the
-- flag, the length, the hash and the frame as they were. It holds while the session is up with the
-- bridge role, for a frame of 1 to 255 bytes that parses and is not a direct packet at its last hop.
-- SHA-256 gives 32 bytes.
pub backbone_offer-Sent :
    (net : Net) (bb : Client) (frame : List ℕ) (own : Bool) (p : Packet)
    → HashLaws net.env.crypto
    → is_up bb.state ≡ true
    → bridging bb ≡ true
    → bb.fd ≡ true
    → bb.sid < 2 ^ 32
    → suc bb.seq_out < 2 ^ 32
    → frame_bad frame ≡ false
    → parse frame ≡ ok p
    → (is_route_direct p && path_hash_count p == 0) ≡ false
    → (d : List ℕ) × ((backbone_offer net bb frame own).sent ≡ d ∷ bb.sent)
      × ((backbone_offer net bb frame own).offered ≡ bb.offered + 1)
      × (bb_open net.env.crypto d bb.k_up
          ≡ ok (opened bb_t_bridge bb.sid (suc bb.seq_out) (bridge_body net p frame own)))
unfolding backbone_offer
backbone_offer-Sent net bb frame own p laws up role f s q shape parsed routed =
    let body : List ℕ = bridge_body net p frame own in
    let down : (not (is_up bb.state) || not (bridging bb)) ≡ false = ground (arith, up, role) in
    let offering : Client = record (send_session net bb bb_t_bridge body) {
      offered = bb.offered + 1;
    } in
    let result : backbone_offer net bb frame own ≡ offering =
      if_false _ _ down
      ∙ if_false _ _ shape
      ∙ go (parse frame) parsed
      ∙ if_false bb offering routed in
    let (d, sent, opens) =
      send_session-Sent net bb bb_t_bridge body laws f s q (body_bound shape) in
    (d, ap (λ (x : Client). x.sent) result ∙ sent, ap (λ (x : Client). x.offered) result, opens)
  where
    final : Packet → Client
    final q =
        if is_route_direct q && path_hash_count q == 0
        then bb
        else record (send_session net bb bb_t_bridge (bridge_body net q frame own)) {
          offered = bb.offered + 1;
        }

    go : (r : Result Packet) → r ≡ ok p → (elim r [ err code ↦ bb | ok q ↦ final q ]) ≡ final p
    go (err code) e = absurd (ground (arith, e))
    go (ok q) e = ap final (ok_inj e)

    body_bound :
        frame_bad frame ≡ false
        → bb_hdr + length (bridge_body net p frame own) + bb_mac ≤ bb_max_dgram
    body_bound h =
        let hash : List ℕ = calc_hash net.env.crypto.sha256 p in
        let eight : length hash ≤ 8 = short_hash net p in ground (arith, length-append hash frame)
