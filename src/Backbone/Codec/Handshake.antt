-- ===== src/Backbone/Codec/Handshake.antt =====
-- src/backbone.c: the WELCOME of a hub, and the session that both sides derive from it.
use meshcore_repeater.Common.{
  ℕ, ◌+◌, ◌-◌, ◌^◌, ◌<◌, ◌≡◌, refl, sym, ap, ◌∙◌, subst, Bool, true, false, not, ◌||◌, List, [],
  ◌++◌, Option, none, some, some_inj, if_false, ltb, ◌==◌, length, drop, take, ok, Bool-cases, inl,
  inr, arith, length-append, take-append, drop-append, drop-drop, bytes_eq, bytes_eq_self,
}
use Prim.Native.Nat.{bit_and}
use mathlib.Core.List.{append_assoc}
use meshcore_repeater.Util.Endian.{
  rd_u16le, wr_u16le, wr_u32le, rd_u32le-wr_append, rd_u16le-wr_append,
}
use meshcore_repeater.Crypto.{Crypto, SignLaws}
use meshcore_repeater.Identity.{Identity, identity_sign}
use meshcore_repeater.Advert.Signed.{IsKeyPair, sign-verify}
use meshcore_repeater.Backbone.Codec.{
  Welcome, welcome_message, bb_build_welcome, read_welcome, bb_check_welcome, bb_welcome_len,
  hdr_ok, bb_t_welcome, signed_dgram, sign_ctx, verify_ctx, ctx_welcome,
}

-- What the fields of a WELCOME can carry.
pub record InRange (w : Welcome) : Type 0 where
  pub ts_in : w.ts < 2 ^ 32
  pub sid_in : w.sid < 2 ^ 32
  pub eph_in : length w.eph_pub ≡ 32
  pub keepalive_in : w.keepalive_s < 2 ^ 16
  pub status_in : w.status_s < 2 ^ 16
  pub neighbours_in : w.neighbours_s < 2 ^ 16

module _ (w : Welcome) (hash sig : List ℕ) (range : InRange w) (hash_size : length hash ≡ 32) where
  -- The datagram behind its signed part, and from the hub's key and the intervals on.
  abbrev dgram : List ℕ
  dgram = welcome_message w hash ++ sig

  abbrev intervals : List ℕ
  intervals = wr_u16le w.keepalive_s ++ (wr_u16le w.status_s ++ wr_u16le w.neighbours_s)

  from_eph : drop 14 dgram ≡ w.eph_pub ++ (hash ++ (intervals ++ sig))
  unfolding wr_u32le wr_u16le
  from_eph =
      append_assoc w.eph_pub (hash ++ intervals) sig
      ∙ ap (λ x. w.eph_pub ++ x) (append_assoc hash intervals sig)

  from_hash : drop 46 dgram ≡ hash ++ (intervals ++ sig)
  from_hash =
      sym (drop-drop 32 14 dgram)
      ∙ ap (drop 32) from_eph
      ∙ drop-append 32 w.eph_pub (hash ++ (intervals ++ sig)) (sym range.eph_in)

  from_intervals : drop 78 dgram ≡ intervals ++ sig
  from_intervals =
      sym (drop-drop 32 46 dgram)
      ∙ ap (drop 32) from_hash
      ∙ drop-append 32 hash (intervals ++ sig) (sym hash_size)

  read_eph : take 32 (drop 14 dgram) ≡ w.eph_pub
  read_eph =
      ap (take 32) from_eph
      ∙ take-append 32 w.eph_pub (hash ++ (intervals ++ sig)) (sym range.eph_in)

  read_hash : take 32 (drop 46 dgram) ≡ hash
  read_hash = ap (take 32) from_hash ∙ take-append 32 hash (intervals ++ sig) (sym hash_size)

  read_back : read_welcome dgram ≡ w
  unfolding wr_u32le wr_u16le
  read_back =
      let ts = rd_u32le-wr_append w.ts (drop 10 dgram) range.ts_in in
      let sid = rd_u32le-wr_append w.sid (drop 14 dgram) range.sid_in in
      let k : rd_u16le (drop 78 dgram) ≡ w.keepalive_s =
        ap rd_u16le from_intervals ∙ rd_u16le-wr_append w.keepalive_s _ range.keepalive_in in
      let s : rd_u16le (drop 80 dgram) ≡ w.status_s =
        ap rd_u16le (sym (drop-drop 2 78 dgram) ∙ ap (drop 2) from_intervals)
        ∙ rd_u16le-wr_append w.status_s _ range.status_in in
      let n : rd_u16le (drop 82 dgram) ≡ w.neighbours_s =
        ap rd_u16le (sym (drop-drop 4 78 dgram) ∙ ap (drop 4) from_intervals)
        ∙ rd_u16le-wr_append w.neighbours_s _ range.neighbours_in in
      λ i. record {
        roles = w.roles;
        ts = ts i;
        sid = sid i;
        eph_pub = read_eph i;
        keepalive_s = k i;
        status_s = s i;
        neighbours_s = n i;
      }

  length-message : length (welcome_message w hash) ≡ 84
  unfolding wr_u32le wr_u16le
  length-message = omega (
    arith,
    length-append w.eph_pub (hash ++ intervals),
    length-append hash intervals,
    range.eph_in,
    hash_size,
  )

-- What a signed datagram consists of, and that it verifies.
signed_dgram-Verifies :
    (c : Crypto) (id : Identity) (ctx msg d : List ℕ) (cap : ℕ)
    → SignLaws c
    → IsKeyPair c id
    → signed_dgram c id ctx cap msg ≡ some d
    → (sig : List ℕ) × (d ≡ msg ++ sig)
      × (length sig ≡ 64)
      × (verify_ctx c id.public_key ctx msg sig ≡ true)
unfolding sign_ctx verify_ctx
signed_dgram-Verifies c id ctx msg d cap laws pair e =
    elim (Bool-cases (ltb cap (length msg + 64))) [
      | inl small ↦ absurd (ground (arith, e))
      | inr room ↦ elim (Bool-cases (ltb 160 (length ctx + length msg))) [
        | inl long ↦ absurd (ground (arith, e))
        | inr fits ↦
            let direct : sign_ctx c id ctx msg ≡ identity_sign c id (ctx ++ msg) =
              if_false _ _ fits in
            go (identity_sign c id (ctx ++ msg)) fits refl
              (ap final (sym direct) ∙ sym (if_false none (final (sign_ctx c id ctx msg)) room) ∙ e)
      ]
    ]
  where
    final : Option (List ℕ) → Option (List ℕ)
    final o = elim o [ none ↦ none | some sig ↦ some (msg ++ sig) ]

    go :
        (o : Option (List ℕ))
        → ltb 160 (length ctx + length msg) ≡ false
        → identity_sign c id (ctx ++ msg) ≡ o
        → final o ≡ some d
        → (sig : List ℕ) × (d ≡ msg ++ sig)
          × (length sig ≡ 64)
          × (verify_ctx c id.public_key ctx msg sig ≡ true)
    go none fits s f = absurd (ground (arith, f))
    go (some sig) fits s f =
        let good = sign-verify c laws id (ctx ++ msg) sig pair s in
        (sig, some_inj (sym f), good.0, if_false _ _ fits ∙ good.1)

-- A WELCOME that the hub signs for a HELLO is taken by the client that sent that HELLO and knows the
-- hub's key, and it reads what the hub granted: the session id is not 0, the roles are among those
-- asked for, and the fields fit their widths.
pub bb_check_welcome-bb_build_welcome :
    (c : Crypto) (hub : Identity) (w : Welcome) (hash d : List ℕ) (cap asked : ℕ)
    → SignLaws c
    → IsKeyPair c hub
    → InRange w
    → length hash ≡ 32
    → (w.sid == 0) ≡ false
    → bit_and w.roles (255 - asked) ≡ 0
    → bb_build_welcome c cap hub w hash ≡ some d
    → bb_check_welcome c d hub.public_key hash asked ≡ ok w
unfolding bb_build_welcome bb_check_welcome
bb_check_welcome-bb_build_welcome c hub w hash d cap asked laws pair range size sid roles e =
    let msg : List ℕ = welcome_message w hash in
    let n : length msg ≡ 84 = length-message w hash [] range size in
    let (sig, whole, sig_size, good) =
      signed_dgram-Verifies c hub ctx_welcome msg d cap laws pair e in
    let total : length (msg ++ sig) ≡ 148 = omega (arith, length-append msg sig, n, sig_size) in
    let shaped : (not (length (msg ++ sig) == bb_welcome_len)
          || not (hdr_ok (msg ++ sig) bb_t_welcome))
        ≡ false =
      ground (arith, total) in
    let answers : bytes_eq (take 32 (drop 46 (msg ++ sig))) hash ≡ true =
      ap (λ x. bytes_eq x hash) (read_hash w hash sig range size) ∙ bytes_eq_self hash in
    let front : take 84 (msg ++ sig) ≡ msg = take-append 84 msg sig (sym n) in
    let back : drop 84 (msg ++ sig) ≡ sig = drop-append 84 msg sig (sym n) in
    let signed : verify_ctx c hub.public_key ctx_welcome (take 84 (msg ++ sig))
          (drop 84 (msg ++ sig))
        ≡ true =
      (λ i. verify_ctx c hub.public_key ctx_welcome (front i) (back i)) ∙ good in
    let read : read_welcome (msg ++ sig) ≡ w = read_back w hash sig range size in
    let granted : ((read_welcome (msg ++ sig)).sid == 0
          || not (bit_and (read_welcome (msg ++ sig)).roles (255 - asked) == 0))
        ≡ false =
      ap (λ (x : Welcome). x.sid == 0 || not (bit_and x.roles (255 - asked) == 0)) read
      ∙ both (w.sid == 0) (bit_and w.roles (255 - asked)) sid roles in
    subst (λ x. bb_check_welcome c x hub.public_key hash asked ≡ ok w) (sym whole)
      (if_false _ _ shaped
        ∙ if_false _ _ (ap not answers)
        ∙ if_false _ _ (ap not signed)
        ∙ if_false _ _ granted
        ∙ ap ok read)
  where
    both : (a : Bool) (x : ℕ) → a ≡ false → x ≡ 0 → (a || not (x == 0)) ≡ false
    both a x h k = ground arith
