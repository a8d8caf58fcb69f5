-- ===== src/Link/Relayed.antt =====
-- src/link.c: what one node relays, the other receives, and nothing else.
use meshcore_repeater.Common.{
  ℕ, ◌+◌, ◌%◌, ◌^◌, ◌≤◌, ◌<◌, ◌≡◌, ap, ◌∙◌, Bool, true, false, not, ◌&&◌, ◌||◌, List, ◌∷◌, ◌++◌,
  ltb, ◌==◌, if_false, le→ltb_false, length, take, drop, get_or, bytes_eq, bytes_eq_self, ℤ, pos,
  negsuc, arith, length-append, length-take, take-append, drop-append, take_all,
}
use meshcore_repeater.Common.Int.{to_word, of_word, FitsWord, of_word-to_word, of_word-to_word_byte}
use meshcore_repeater.Util.Endian.{
  rd_u16le, rd_u32le, wr_u16le, wr_u32le, rd_u32le-wr_append, rd_u16le-wr_append,
}
use meshcore_repeater.Crypto.{Crypto, HashLaws, hmac_sha256, length-hmac_sha256}
use meshcore_repeater.Link.{
  Link, is_rx, is_tx, link_hdr, link_mac, link_max_frame, link_ts_window, link_message,
  link_datagram, link_relay, arrived, one_frame, clock_skew, link_accept, link_recv,
}

length-link_message :
    (ts : ℕ) (rssi snr : ℤ) (frame : List ℕ)
    → length (link_message ts rssi snr frame) ≡ link_hdr + length frame
unfolding wr_u32le wr_u16le
length-link_message ts rssi snr frame = omega arith

to_word_bound : (x : ℤ) → to_word (2 ^ 16) x < 2 ^ 16
unfolding to_word
to_word_bound (pos n) = ground arith
to_word_bound (negsuc n) = ground arith

accept-datagram :
    (c : Crypto) (lk : Link) (unix cap_ ts : ℕ) (rssi snr : ℤ) (frame : List ℕ)
    → HashLaws c
    → FitsWord (2 ^ 16) rssi
    → FitsWord 256 snr
    → ts < 2 ^ 32
    → length frame < 2 ^ 16
    → length frame ≤ cap_
    → clock_skew (unix % 2 ^ 32) ts ≤ link_ts_window
    → link_accept c lk unix cap_ (link_datagram c lk.key ts rssi snr frame)
      ≡ (record lk { frames_in = lk.frames_in + 1 }, one_frame frame rssi snr)
unfolding link_accept wr_u32le wr_u16le
accept-datagram c lk unix cap_ ts rssi snr frame laws r s t small room fresh =
    let msg : List ℕ = link_message ts rssi snr frame in
    let mac : List ℕ = take link_mac (hmac_sha256 c lk.key msg) in
    let d : List ℕ = msg ++ mac in
    let n : length msg ≡ link_hdr + length frame = length-link_message ts rssi snr frame in
    let m : length mac ≡ link_mac = omega (
      arith,
      length-take link_mac (hmac_sha256 c lk.key msg),
      length-hmac_sha256 c laws lk.key msg,
    ) in
    let total : length d ≡ link_hdr + length frame + link_mac =
      omega (arith, length-append msg mac, n, m) in
    let flen : rd_u16le (drop 8 d) ≡ length frame =
      rd_u16le-wr_append (length frame) (frame ++ mac) small in
    let time : rd_u32le (drop 1 d) ≡ ts = rd_u32le-wr_append ts (drop 5 d) t in
    let word : ℕ = to_word (2 ^ 16) rssi in
    let level : of_word (2 ^ 16) (rd_u16le (drop 5 d)) ≡ rssi =
      ap (of_word (2 ^ 16)) (rd_u16le-wr_append word (drop 7 d) (to_word_bound rssi))
      ∙ of_word-to_word rssi r in
    let quality : of_word 256 (get_or d 7 0) ≡ snr = of_word-to_word_byte snr s in
    let shape : (ltb (length d) (link_hdr + link_mac) || not (get_or d 0 0 == 1)) ≡ false =
      ground (arith, total) in
    let size : (not (length d == link_hdr + rd_u16le (drop 8 d) + link_mac)
          || ltb cap_ (rd_u16le (drop 8 d)))
        ≡ false =
      ground (arith, total, flen, room) in
    let front : take (link_hdr + rd_u16le (drop 8 d)) d ≡ msg =
      take-append _ msg mac (omega (arith, n, flen)) in
    let back : take link_mac (drop (link_hdr + rd_u16le (drop 8 d)) d) ≡ mac =
      ap (take link_mac) (drop-append _ msg mac (omega (arith, n, flen)))
      ∙ take_all link_mac mac (omega (arith, m)) in
    let genuine : not (
          bytes_eq (take link_mac (hmac_sha256 c lk.key (take (link_hdr + rd_u16le (drop 8 d)) d)))
            (take link_mac (drop (link_hdr + rd_u16le (drop 8 d)) d)))
        ≡ false =
      (λ i. not (bytes_eq (take link_mac (hmac_sha256 c lk.key (front i))) (back i)))
      ∙ ap not (bytes_eq_self mac) in
    let timely : ltb link_ts_window (clock_skew (unix % 2 ^ 32) (rd_u32le (drop 1 d))) ≡ false =
      ap (λ x. ltb link_ts_window (clock_skew (unix % 2 ^ 32) x)) time
      ∙ le→ltb_false link_ts_window (clock_skew (unix % 2 ^ 32) ts) fresh in
    let content : take (rd_u16le (drop 8 d)) (drop link_hdr d) ≡ frame =
      take-append _ frame mac flen in
    if_false _ _ shape ∙ if_false _ _ size ∙ if_false _ _ genuine ∙ if_false _ _ timely ∙ (λ i.
      (record lk { frames_in = lk.frames_in + 1 }, one_frame (content i) (level i) (quality i)))

-- A frame that a receive-only node relays is received by the transmitting node as it was, with its
-- RSSI and SNR, when both have the same key and their clocks are within 60 s: the datagram of 1 to 512
-- bytes of frame is sent, and it is accepted where the frame has room. SHA-256 gives 32 bytes.
pub link_recv-link_relay :
    (c : Crypto) (from to : Link) (unix unix' cap_ : ℕ) (sent_ok : Bool) (frame : List ℕ)
    (rssi snr : ℤ)
    → HashLaws c
    → (is_rx from.mode && from.fd) ≡ true
    → (is_tx to.mode && to.fd) ≡ true
    → from.key ≡ to.key
    → 1 ≤ length frame
    → length frame ≤ link_max_frame
    → length frame ≤ cap_
    → FitsWord (2 ^ 16) rssi
    → FitsWord 256 snr
    → clock_skew (unix' % 2 ^ 32) (unix % 2 ^ 32) ≤ link_ts_window
    → (d : List ℕ) × ((link_relay c from unix sent_ok frame rssi snr).sent ≡ d ∷ from.sent)
      × (link_recv c to unix' cap_ (arrived d)
          ≡ (record to { frames_in = to.frames_in + 1 }, one_frame frame rssi snr))
unfolding link_relay link_recv
link_recv-link_relay c from to unix unix' cap_ sent_ok frame rssi snr laws rx tx keys some_bytes
      small room r s fresh =
    let ts : ℕ = unix % 2 ^ 32 in
    let d : List ℕ = link_datagram c from.key ts rssi snr frame in
    let sends : (not (is_rx from.mode)
          || (not from.fd || (length frame == 0 || ltb link_max_frame (length frame))))
        ≡ false =
      ready (is_rx from.mode) from.fd (length frame) rx some_bytes small in
    let listens : (not (is_tx to.mode) || not to.fd) ≡ false = open_both (is_tx to.mode) to.fd tx in
    let msg : List ℕ = link_message ts rssi snr frame in
    let whole : take (link_hdr + link_max_frame + link_mac) d ≡ d =
      take_all (link_hdr + link_max_frame + link_mac) d (
        omega (
          arith,
          length-append msg (take link_mac (hmac_sha256 c from.key msg)),
          length-link_message ts rssi snr frame,
          length-take link_mac (hmac_sha256 c from.key msg),
          small,
        )) in
    let same : d ≡ link_datagram c to.key ts rssi snr frame =
      ap (λ k. link_datagram c k ts rssi snr frame) keys in
    (
      d,
      ap (λ (x : Link). x.sent) (if_false _ _ sends),
      if_false _ _ listens
          ∙ ap (link_accept c to unix' cap_) (whole ∙ same)
          ∙ accept-datagram c to unix' cap_ ts rssi snr frame laws r s (omega arith)
              (omega (arith, small)) room fresh,
    )
  where
    ready :
        (a b : Bool) (n : ℕ)
        → (a && b) ≡ true
        → 1 ≤ n
        → n ≤ link_max_frame
        → (not a || (not b || (n == 0 || ltb link_max_frame n))) ≡ false
    ready a b n h k l = ground arith

    open_both : (a b : Bool) → (a && b) ≡ true → (not a || not b) ≡ false
    open_both a b h = ground arith
