-- ===== src/Backbone/Codec/Sealed.antt =====
-- src/backbone.c: session datagrams, sealed and opened.
use meshcore_repeater.Common.{
  take-All, drop-All, ℕ, ◌+◌, ◌-◌, ◌≤◌, ◌<◌, ◌^◌, ◌≡◌, refl, sym, ap, ◌∙◌, subst, true, false, not,
  ◌||◌, List, [], ◌∷◌, ◌++◌, some, some_inj, ltb, length, take, drop, get_or, bytes_eq,
  bytes_eq_self, ok, ok_inj, arith, Bool-cases, inl, inr, length-append, length-take, take-append,
  drop-append, drop-append_le, drop-drop, get_or-append, take-append-drop, All, bytes_eq→eq,
  length-drop,
}
use mathlib.Core.Path.{ap₂}
use meshcore_repeater.Util.Endian.{
  rd_u32le, wr_u32le, rd_u32le-wr_append, wr-rd_u32le_front, rd_u32le_append, IsByte,
}
use meshcore_repeater.Crypto.{Crypto, HashLaws, hmac_sha256, length-hmac_sha256}
use meshcore_repeater.Backbone.Codec.{
  bb_hdr, bb_mac, bb_max_dgram, session_message, bb_seal, Opened, bb_open, magic_ok,
}

length-session_message :
    (type sid seq : ℕ) (body : List ℕ)
    → length (session_message type sid seq body) ≡ bb_hdr + length body
unfolding wr_u32le
length-session_message type sid seq body = omega arith

-- The tag of a message: the front of its HMAC.
abbrev tag : Crypto → List ℕ → List ℕ → List ℕ
tag c key msg = take bb_mac (hmac_sha256 c key msg)

length-tag : (c : Crypto) (key msg : List ℕ) → HashLaws c → length (tag c key msg) ≡ bb_mac
length-tag c key msg laws =
    omega (arith, length-take bb_mac (hmac_sha256 c key msg), length-hmac_sha256 c laws key msg)

abbrev pub opened : ℕ → ℕ → ℕ → List ℕ → Opened
opened type sid seq body = record { type = type; sid = sid; seq = seq; body = body }

-- A message with its tag is opened.
tagged-opens :
    (c : Crypto) (key body : List ℕ) (type sid seq : ℕ)
    → HashLaws c
    → sid < 2 ^ 32
    → seq < 2 ^ 32
    → let msg = session_message type sid seq body in
      bb_open c (msg ++ tag c key msg) key ≡ ok (opened type sid seq body)
unfolding bb_open wr_u32le
tagged-opens c key body type sid seq laws hs hq =
    let msg : List ℕ = session_message type sid seq body in
    let t : List ℕ = tag c key msg in
    let n : length (msg ++ t) - bb_mac ≡ length msg =
      omega (arith, length-append msg t, length-tag c key msg laws) in
    let front : take (length (msg ++ t) - bb_mac) (msg ++ t) ≡ msg = take-append _ msg t n in
    let back : drop (length (msg ++ t) - bb_mac) (msg ++ t) ≡ t = drop-append _ msg t n in
    let long : ltb (length (msg ++ t)) (bb_hdr + bb_mac) ≡ false = ground (
      arith,
      length-append msg t,
      length-tag c key msg laws,
      length-session_message type sid seq body,
    ) in
    rw (long, front, back, bytes_eq_self t)
      (ap₂ (λ a b. ok (opened type a b body))
        (rd_u32le-wr_append sid (wr_u32le seq ++ (body ++ t)) hs)
        (rd_u32le-wr_append seq (body ++ t) hq))

-- What is sealed with a key is opened with it, as it was: type, session, sequence number and body.
-- SHA-256 gives 32 bytes.
pub bb_open-bb_seal :
    (c : Crypto) (cap type sid seq : ℕ) (body key d : List ℕ)
    → HashLaws c
    → sid < 2 ^ 32
    → seq < 2 ^ 32
    → bb_seal c cap type sid seq body key ≡ some d
    → bb_open c d key ≡ ok (opened type sid seq body)
unfolding bb_seal
bb_open-bb_seal c cap type sid seq body key d laws hs hq e =
    elim (Bool-cases (
      ltb cap (bb_hdr + length body + bb_mac)
      || ltb bb_max_dgram (bb_hdr + length body + bb_mac))) [
        | inl big ↦ absurd (ground (arith, e))
        | inr fits ↦
            let msg = session_message type sid seq body in
            subst (λ x. bb_open c x key ≡ ok (opened type sid seq body))
              (some_inj (sym (rw fits refl) ∙ e)) (tagged-opens c key body type sid seq laws hs hq)
      ]

-- The first four bytes, one by one.
front_4 :
    (xs : List ℕ)
    → 4 ≤ length xs
    → get_or xs 0 0 ∷ get_or xs 1 0 ∷ get_or xs 2 0 ∷ get_or xs 3 0 ∷ drop 4 xs ≡ xs
front_4 [] h = absurd (omega arith)
front_4 (x ∷ []) h = absurd (omega arith)
front_4 (x ∷ y ∷ []) h = absurd (omega arith)
front_4 (x ∷ y ∷ z ∷ []) h = absurd (omega arith)
front_4 (x ∷ y ∷ z ∷ w ∷ xs) h = refl

-- A message with the magic is the session message of the fields that are read from it.
session_message-fields :
    (msg : List ℕ)
    → All IsByte msg
    → bb_hdr ≤ length msg
    → magic_ok msg ≡ true
    → session_message
        (get_or msg 3 0)
        (rd_u32le (drop 4 msg))
        (rd_u32le (drop 8 msg))
        (drop bb_hdr msg)
      ≡ msg
session_message-fields msg b n m =
    let t8 : 4 ≤ length (drop 8 msg) = omega (arith, length-drop 8 msg) in
    let t4 : 4 ≤ length (drop 4 msg) = omega (arith, length-drop 4 msg) in
    let a : wr_u32le (rd_u32le (drop 8 msg)) ++ drop bb_hdr msg ≡ drop 8 msg =
      ap (λ xs. wr_u32le (rd_u32le (drop 8 msg)) ++ xs) (sym (drop-drop 4 8 msg))
      ∙ wr-rd_u32le_front (drop 8 msg) t8 (drop-All IsByte 8 msg b) in
    let b' : wr_u32le (rd_u32le (drop 4 msg)) ++ drop 8 msg ≡ drop 4 msg =
      ap (λ xs. wr_u32le (rd_u32le (drop 4 msg)) ++ xs) (sym (drop-drop 4 4 msg))
      ∙ wr-rd_u32le_front (drop 4 msg) t4 (drop-All IsByte 4 msg b) in
    let m0 : get_or msg 0 0 ≡ b'M' = ground arith in
    let m1 : get_or msg 1 0 ≡ b'B' = ground arith in
    let m2 : get_or msg 2 0 ≡ 1 = ground arith in
    rw (a, b')
      ((λ i. sym m0 i ∷ sym m1 i ∷ sym m2 i ∷ get_or msg 3 0 ∷ drop 4 msg)
        ∙ front_4 msg (omega arith))

-- The fields that are read from a datagram stand in the part that the MAC covers.
session_message-prefix :
    (msg t : List ℕ)
    → All IsByte msg
    → bb_hdr ≤ length msg
    → magic_ok (msg ++ t) ≡ true
    → session_message
        (get_or (msg ++ t) 3 0)
        (rd_u32le (drop 4 (msg ++ t)))
        (rd_u32le (drop 8 (msg ++ t)))
        (drop bb_hdr msg)
      ≡ msg
session_message-prefix msg t b n m =
    let g0 = get_or-append 0 msg t 0 (omega arith) in
    let g1 = get_or-append 1 msg t 0 (omega arith) in
    let g2 = get_or-append 2 msg t 0 (omega arith) in
    let g3 = get_or-append 3 msg t 0 (omega arith) in
    let magic : magic_ok msg ≡ true = rw (← g0, ← g1, ← g2) m in
    let s : rd_u32le (drop 4 (msg ++ t)) ≡ rd_u32le (drop 4 msg) =
      ap rd_u32le (drop-append_le 4 msg t (omega arith))
      ∙ rd_u32le_append (drop 4 msg) t (omega (arith, length-drop 4 msg)) in
    let q : rd_u32le (drop 8 (msg ++ t)) ≡ rd_u32le (drop 8 msg) =
      ap rd_u32le (drop-append_le 8 msg t (omega arith))
      ∙ rd_u32le_append (drop 8 msg) t (omega (arith, length-drop 8 msg)) in
    (λ i. session_message (g3 i) (s i) (q i) (drop bb_hdr msg))
    ∙ session_message-fields msg b n magic

-- A datagram that is opened with a key is the one that bb_seal makes of what was read from it: its
-- MAC covers the type, the session, the sequence number and the body, and nothing else is accepted
-- for them. The datagram consists of bytes and is no longer than the protocol allows.
pub bb_seal-bb_open :
    (c : Crypto) (d key : List ℕ) (o : Opened)
    → All IsByte d
    → length d ≤ bb_max_dgram
    → bb_open c d key ≡ ok o
    → bb_seal c bb_max_dgram o.type o.sid o.seq o.body key ≡ some d
unfolding bb_open bb_seal
bb_seal-bb_open c d key o b n e =
    let msg : List ℕ = take (length d - bb_mac) d in
    let t : List ℕ = drop (length d - bb_mac) d in
    let same : msg ++ t ≡ d = take-append-drop (length d - bb_mac) d in
    let read : Opened =
      opened (get_or d 3 0) (rd_u32le (drop 4 d)) (rd_u32le (drop 8 d)) (drop bb_hdr msg) in
    elim (Bool-cases (ltb (length d) (bb_hdr + bb_mac) || not (magic_ok d))) [
      | inl bad ↦ absurd (ground (arith, e))
      | inr good ↦ elim (Bool-cases (bytes_eq (tag c key msg) t)) [
        | inr forged ↦ absurd (ground (arith, e))
        | inl genuine ↦
            let long : bb_hdr + bb_mac ≤ length d = ground arith in
            let magic : magic_ok d ≡ true = ground arith in
            let size : length msg ≡ length d - bb_mac =
              omega (arith, length-take (length d - bb_mac) d) in
            let shape : session_message read.type read.sid read.seq read.body ≡ msg =
              subst
                (λ x.
                  session_message (get_or x 3 0) (rd_u32le (drop 4 x)) (rd_u32le (drop 8 x))
                    (drop bb_hdr msg)
                  ≡ msg)
                same
                (session_message-prefix msg t (take-All IsByte (length d - bb_mac) d b)
                  (omega (arith, size, long)) (ap magic_ok same ∙ magic)) in
            let fits : ltb bb_max_dgram (bb_hdr + length read.body + bb_mac) ≡ false =
              small (length read.body) (omega (arith, length-drop bb_hdr msg, size, long, n)) in
            let opens : bb_open c d key ≡ ok read = rw (good, genuine) refl in
            let built : read ≡ o = ok_inj (sym opens ∙ e) in
            let sealed : bb_seal c bb_max_dgram read.type read.sid read.seq read.body key
                ≡ some (
                    session_message read.type read.sid read.seq read.body
                    ++ tag c key (session_message read.type read.sid read.seq read.body)) =
              rw fits refl in
            subst (λ (r : Opened). bb_seal c bb_max_dgram r.type r.sid r.seq r.body key ≡ some d)
              built
              (sealed
                ∙ ap (λ x. some (x ++ tag c key x)) shape
                ∙ ap (λ y. some (msg ++ y)) (bytes_eq→eq (tag c key msg) t genuine)
                ∙ ap some same)
      ]
    ]
  where
    small :
        (k : ℕ)
        → bb_hdr + k + bb_mac ≤ bb_max_dgram
        → ltb bb_max_dgram (bb_hdr + k + bb_mac) ≡ false
    small k h = ground arith
