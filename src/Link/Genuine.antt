-- ===== src/Link/Genuine.antt =====
-- src/link.c: which datagrams link_recv accepts.
use meshcore_repeater.Common.{
  ◌⊎◌, drop-All, take-All, ℕ, ◌+◌, ◌%◌, ◌^◌, ◌≤◌, ◌<◌, ◌≡◌, refl, sym, ap, ◌∙◌, subst, Bool, true,
  false, not, ◌&&◌, ◌||◌, List, ◌∷◌, ◌++◌, ltb, ◌==◌, if_false, length, take, drop, get_or,
  bytes_eq, bytes_eq→eq, ℤ, arith, All, Bool-cases, inl, inr, length-take, length-drop, take_all,
  take-append-drop,
}
use meshcore_repeater.Common.Int.{of_word}
use meshcore_repeater.Util.Endian.{IsByte, rd_u16le, rd_u32le}
use meshcore_repeater.Crypto.{Crypto, hmac_sha256}
use meshcore_repeater.Link.{
  Link, is_tx, is_rx, link_relay, link_hdr, link_mac, link_max_frame, link_ts_window, link_message,
  link_datagram, arrived, Received, one_frame, no_frame, link_error, clock_skew, link_accept,
  link_recv,
}
use meshcore_repeater.Link.Written.{take_add, head-written, rd_u32le_bound}

-- What holds of the fields of one frame, holds of those of an equal one.
fields :
    (f f' : List ℕ) (r r' s s' : ℤ)
    → one_frame f r s ≡ one_frame f' r' s'
    → (P : List ℕ → ℤ → ℤ → Type 0) → P f r s
    → P f' r' s'
fields f f' r r' s s' e P p = subst (Of P) e p
  where
    Of : (List ℕ → ℤ → ℤ → Type 0) → Received → Type 0
    Of P no_frame = Unit {0}
    Of P link_error = Unit {0}
    Of P (one_frame a x y) = P a x y

link_accept-Genuine :
    (c : Crypto) (lk : Link) (unix cap_ : ℕ) (d frame : List ℕ) (rssi snr : ℤ)
    → All IsByte d
    → (link_accept c lk unix cap_ d).1 ≡ one_frame frame rssi snr
    → (ts : ℕ) × (d ≡ link_datagram c lk.key ts rssi snr frame)
      × (clock_skew (unix % 2 ^ 32) ts ≤ link_ts_window)
      × (length frame ≤ cap_)
      × (ts < 2 ^ 32)
      × (length d ≡ link_hdr + length frame + link_mac)
unfolding link_accept
link_accept-Genuine c lk unix cap_ d frame rssi snr b e =
    let flen : ℕ = rd_u16le (drop 8 d) in
    let msg : List ℕ = take (link_hdr + flen) d in
    let tail : List ℕ = drop (link_hdr + flen) d in
    let ts : ℕ = rd_u32le (drop 1 d) in
    elim (Bool-cases (ltb (length d) (link_hdr + link_mac) || not (get_or d 0 0 == 1))) [
      | inl bad ↦ absurd (ground (arith, e))
      | inr shape ↦
          elim (Bool-cases (not (length d == link_hdr + flen + link_mac) || ltb cap_ flen)) [
            | inl wrong ↦ absurd (ground (arith, e))
            | inr size ↦
                elim (Bool-cases
                  (bytes_eq (take link_mac (hmac_sha256 c lk.key msg)) (take link_mac tail))) [
                    | inr forged ↦ absurd (ground (arith, e))
                    | inl genuine ↦
                        elim (Bool-cases (ltb link_ts_window (clock_skew (unix % 2 ^ 32) ts))) [
                          | inl stale ↦ absurd (ground (arith, e))
                          | inr timely ↦
                              let content : List ℕ = take flen (drop link_hdr d) in
                              let level : ℤ = of_word (2 ^ 16) (rd_u16le (drop 5 d)) in
                              let quality : ℤ = of_word 256 (get_or d 7 0) in
                              let n : length d ≡ link_hdr + flen + link_mac =
                                ground (arith, size) in
                              let room : flen ≤ cap_ = ground (arith, size) in
                              let version : get_or d 0 0 ≡ 1 = ground (arith, shape) in
                              let got : (link_accept c lk unix cap_ d).1
                                  ≡ one_frame content level quality =
                                ap (λ (x : Link × Received). x.1)
                                  (if_false _ _ shape
                                    ∙ if_false _ _ size
                                    ∙ if_false _ _ (ap not genuine)
                                    ∙ if_false _ _ timely) in
                              let same : one_frame content level quality
                                  ≡ one_frame frame rssi snr =
                                sym got ∙ e in
                              let filled : length content ≡ flen = omega (
                                arith,
                                length-take flen (drop link_hdr d),
                                length-drop link_hdr d,
                                n,
                              ) in
                              let written : link_message ts level quality content ≡ msg =
                                head-written d content b (omega (arith, n)) version filled
                                ∙ sym (take_add link_hdr flen d) in
                              let short : take link_mac tail ≡ tail =
                                take_all link_mac tail
                                  (omega (arith, length-drop (link_hdr + flen) d, n)) in
                              let mac : take link_mac (hmac_sha256 c lk.key msg) ≡ tail =
                                bytes_eq→eq (take link_mac (hmac_sha256 c lk.key msg))
                                  (take link_mac tail) genuine
                                ∙ short in
                              let built : d ≡ link_datagram c lk.key ts level quality content =
                                sym (take-append-drop (link_hdr + flen) d)
                                ∙ ap (λ x. msg ++ x) (sym mac)
                                ∙ ap (λ x. x ++ take link_mac (hmac_sha256 c lk.key x))
                                    (sym written) in
                              fields content frame level rssi quality snr same
                                (λ f r s.
                                  (ts : ℕ) × (d ≡ link_datagram c lk.key ts r s f)
                                  × (clock_skew (unix % 2 ^ 32) ts ≤ link_ts_window)
                                  × (length f ≤ cap_)
                                  × (ts < 2 ^ 32)
                                  × (length d ≡ link_hdr + length f + link_mac))
                                (
                                  ts,
                                  built,
                                  ground (arith, timely),
                                  omega (arith, filled, room),
                                  rd_u32le_bound (drop 1 d) (drop-All IsByte 1 d b),
                                  omega (arith, n, filled),
                                )
                        ]
                  ]
          ]
    ]

-- An open relaying link with the same key sends that datagram for that frame, unless it is empty.
relayed :
    (c : Crypto) (from : Link) (ts : ℕ) (sent_ok : Bool) (frame : List ℕ) (rssi snr : ℤ)
    → is_rx from.mode ≡ true
    → from.fd ≡ true
    → ts < 2 ^ 32
    → length frame ≤ link_max_frame
    → (length frame ≡ 0)
      ⊎ ((link_relay c from ts sent_ok frame rssi snr).sent
          ≡ link_datagram c from.key ts rssi snr frame ∷ from.sent)
unfolding link_relay
relayed c from ts sent_ok frame rssi snr rx up t fits = elim (Bool-cases (length frame == 0)) [
  | inl empty ↦ inl (ground (arith, empty))
  | inr some_bytes ↦
      let short : ltb link_max_frame (length frame) ≡ false = ground (arith, fits) in
      let time : ts % 2 ^ 32 ≡ ts = omega (arith, t) in
      inr (rw (rx, up, some_bytes, short, time) refl)
]

-- A frame comes in only from a node with the key: if link_recv gives a frame, the node is the
-- transmitting one with its socket open, the datagram, up to the 530 bytes of the buffer, has the
-- layout and the MAC that this key, frame, RSSI and SNR give at a time within 60 s of now, and the
-- frame fits its buffer. Unless the frame is empty, the datagram is exactly what link_relay sends at
-- that time on an open receive-only node with the same key; an empty frame, which link_relay never
-- sends, is taken too. The datagram consists of bytes.
pub link_recv-Genuine :
    (c : Crypto) (lk from : Link) (unix cap_ : ℕ) (sent_ok : Bool) (d frame : List ℕ) (rssi snr : ℤ)
    → is_rx from.mode ≡ true
    → from.fd ≡ true
    → from.key ≡ lk.key
    → All IsByte d
    → (link_recv c lk unix cap_ (arrived d)).1 ≡ one_frame frame rssi snr
    → let d' = take (link_hdr + link_max_frame + link_mac) d in
      ((is_tx lk.mode && lk.fd) ≡ true)
      × ((ts : ℕ) × (d' ≡ link_datagram c lk.key ts rssi snr frame)
          × (clock_skew (unix % 2 ^ 32) ts ≤ link_ts_window)
          × (length frame ≤ cap_)
          × ((length frame ≡ 0)
              ⊎ ((link_relay c from ts sent_ok frame rssi snr).sent ≡ d' ∷ from.sent)))
unfolding link_recv
link_recv-Genuine c lk from unix cap_ sent_ok d frame rssi snr rx up keys b e =
    elim (Bool-cases (not (is_tx lk.mode) || not lk.fd)) [
      | inl closed ↦ absurd (ground (arith, e))
      | inr listening ↦
          let d' : List ℕ = take (link_hdr + link_max_frame + link_mac) d in
          let heard : (link_accept c lk unix cap_ d').1 ≡ one_frame frame rssi snr =
            ap (λ (x : Link × Received). x.1)
              (sym (if_false (lk, no_frame) (link_accept c lk unix cap_ d') listening))
            ∙ e in
          let (ts, built, timely, room, t, size) =
            link_accept-Genuine c lk unix cap_ d' frame rssi snr
              (take-All IsByte (link_hdr + link_max_frame + link_mac) d b) heard in
          let fits : length frame ≤ link_max_frame =
            omega (arith, size, length-take (link_hdr + link_max_frame + link_mac) d) in
          let same : link_datagram c from.key ts rssi snr frame ≡ d' =
            ap (λ k. link_datagram c k ts rssi snr frame) keys ∙ sym built in
          (
            both (is_tx lk.mode) lk.fd listening,
            (
              ts,
              built,
              timely,
              room,
              subst
                  (λ x.
                    (length frame ≡ 0)
                    ⊎ ((link_relay c from ts sent_ok frame rssi snr).sent ≡ x ∷ from.sent))
                  same (relayed c from ts sent_ok frame rssi snr rx up t fits),
            ),
          )
    ]
  where
    both : (x y : Bool) → (not x || not y) ≡ false → (x && y) ≡ true
    both x y h = ground arith
