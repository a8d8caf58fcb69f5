-- ===== src/Backbone/Codec.antt =====
-- src/backbone.c: the datagrams of the backbone. The vendored primitives are parameters.
pub mod Sealed
pub mod Handshake
use meshcore_repeater.Common.{
  ℕ, ◌+◌, ◌-◌, ◌≡◌, Bool, true, false, not, ◌&&◌, ◌||◌, List, [], ◌∷◌, ◌++◌, Option, none, some,
  ltb, leb, ◌==◌, if◌then◌else◌, length, take, drop, get_or, bytes_eq, Result, ok, err,
}
use Prim.Native.Nat.{bit_and, bit_or}
use meshcore_repeater.Common.Text.{codes}
use meshcore_repeater.Util.Endian.{rd_u16le, rd_u32le, wr_u16le, wr_u32le}
use meshcore_repeater.Crypto.{Crypto, hmac_sha256}
use meshcore_repeater.Identity.{Identity, identity_sign, identity_verify}

-- BB_VERSION
abbrev pub bb_version : ℕ
bb_version = 1

-- BB_MAX_DGRAM, BB_HDR, BB_MAC
abbrev pub bb_max_dgram : ℕ
bb_max_dgram = 1200

abbrev pub bb_hdr : ℕ
bb_hdr = 12

abbrev pub bb_mac : ℕ
bb_mac = 16

abbrev pub bb_name_max : ℕ
bb_name_max = 32

abbrev pub bb_hello_fixed : ℕ
bb_hello_fixed = 75

abbrev pub bb_welcome_len : ℕ
bb_welcome_len = 148

abbrev pub bb_reset_len : ℕ
bb_reset_len = 80

-- BB_T_*.
abbrev pub bb_t_hello : ℕ
bb_t_hello = 0x01

abbrev pub bb_t_welcome : ℕ
bb_t_welcome = 0x02

abbrev pub bb_t_reset : ℕ
bb_t_reset = 0x03

-- put_hdr
abbrev pub put_hdr : ℕ → List ℕ
put_hdr type = b'M' ∷ b'B' ∷ bb_version ∷ type ∷ []

abbrev pub magic_ok : List ℕ → Bool
magic_ok d = get_or d 0 0 == b'M' && (get_or d 1 0 == b'B' && get_or d 2 0 == bb_version)

-- hdr_ok
abbrev pub hdr_ok : List ℕ → ℕ → Bool
hdr_ok d type = leb 4 (length d) && (magic_ok d && get_or d 3 0 == type)

-- The signature of a message under a context, in the 160-byte buffer.
unfoldable pub sign_ctx : Crypto → Identity → List ℕ → List ℕ → Option (List ℕ)
sign_ctx c id ctx msg =
    if ltb 160 (length ctx + length msg) then none else identity_sign c id (ctx ++ msg)

unfoldable pub verify_ctx : Crypto → List ℕ → List ℕ → List ℕ → List ℕ → Bool
verify_ctx c public_key ctx msg sig =
    if ltb 160 (length ctx + length msg)
    then false
    else identity_verify c public_key sig (ctx ++ msg)

abbrev pub ctx_hello : List ℕ
ctx_hello = codes "MCBB1 HELLO"

abbrev pub ctx_welcome : List ℕ
ctx_welcome = codes "MCBB1 WELCOME"

abbrev pub ctx_reset : List ℕ
ctx_reset = codes "MCBB1 RESET"

-- A datagram with its signature behind it, into a buffer of `cap` bytes; `none` is 0.
abbrev pub signed_dgram : Crypto → Identity → List ℕ → ℕ → List ℕ → Option (List ℕ)
signed_dgram c id ctx cap msg =
    if ltb cap (length msg + 64)
    then none
    else elim (sign_ctx c id ctx msg) [ none ↦ none | some sig ↦ some (msg ++ sig) ]

-- The part of a HELLO that is signed.
abbrev pub hello_message : Identity → ℕ → ℕ → List ℕ → List ℕ → List ℕ
hello_message id roles ts eph_pub name =
    let n = take bb_name_max name in
    put_hdr bb_t_hello
    ++ (roles ∷ 0 ∷ (wr_u32le ts ++ (id.public_key ++ (eph_pub ++ (length n ∷ n)))))

unfoldable pub bb_build_hello : Crypto → ℕ → Identity → ℕ → ℕ → List ℕ → List ℕ → Option (List ℕ)
bb_build_hello c cap id roles ts eph_pub name =
    signed_dgram c id ctx_hello cap (hello_message id roles ts eph_pub name)

-- `bb_welcome_t`.
pub record Welcome : Type 0 where
  pub roles : ℕ
  pub ts : ℕ
  pub sid : ℕ
  pub eph_pub : List ℕ
  pub keepalive_s : ℕ
  pub status_s : ℕ
  pub neighbours_s : ℕ

abbrev pub welcome_message : Welcome → List ℕ → List ℕ
welcome_message w hello_hash =
    put_hdr bb_t_welcome
    ++ (w.roles
        ∷ 0
        ∷ (wr_u32le w.ts
            ++ (wr_u32le w.sid
                ++ (w.eph_pub
                    ++ (hello_hash
                        ++ (wr_u16le w.keepalive_s
                            ++ (wr_u16le w.status_s ++ wr_u16le w.neighbours_s)))))))

unfoldable pub bb_build_welcome : Crypto → ℕ → Identity → Welcome → List ℕ → Option (List ℕ)
bb_build_welcome c cap hub w hello_hash =
    signed_dgram c hub ctx_welcome cap (welcome_message w hello_hash)

-- The fields of a WELCOME, at their offsets.
abbrev pub read_welcome : List ℕ → Welcome
read_welcome d = record {
  roles = get_or d 4 0;
  ts = rd_u32le (drop 6 d);
  sid = rd_u32le (drop 10 d);
  eph_pub = take 32 (drop 14 d);
  keepalive_s = rd_u16le (drop 78 d);
  status_s = rd_u16le (drop 80 d);
  neighbours_s = rd_u16le (drop 82 d);
}

unfoldable pub bb_check_welcome : Crypto → List ℕ → List ℕ → List ℕ → ℕ → Result Welcome
bb_check_welcome c d hub_pub hello_hash roles_asked =
    let w = read_welcome d in
    if not (length d == bb_welcome_len) || not (hdr_ok d bb_t_welcome)
    then err 1
    else if not (bytes_eq (take 32 (drop 46 d)) hello_hash)
    then err 2
    else if not (verify_ctx c hub_pub ctx_welcome (take 84 d) (drop 84 d))
    then err 3
    else if w.sid == 0 || not (bit_and w.roles (255 - roles_asked) == 0)
    then err 4
    else ok w

abbrev pub reset_message : ℕ → ℕ → ℕ → List ℕ
reset_message sid seq ts = put_hdr bb_t_reset ++ (wr_u32le sid ++ (wr_u32le seq ++ wr_u32le ts))

unfoldable pub bb_build_reset : Crypto → ℕ → Identity → ℕ → ℕ → ℕ → Option (List ℕ)
bb_build_reset c cap hub sid seq ts = signed_dgram c hub ctx_reset cap (reset_message sid seq ts)

-- The session id, the sequence number and the time.
unfoldable pub bb_check_reset : Crypto → List ℕ → List ℕ → Result (ℕ × ℕ × ℕ)
bb_check_reset c d hub_pub =
    if not (length d == bb_reset_len) || not (hdr_ok d bb_t_reset)
    then err 1
    else if not (verify_ctx c hub_pub ctx_reset (take 16 d) (drop 16 d))
    then err 3
    else ok (rd_u32le (drop 4 d), rd_u32le (drop 8 d), rd_u32le (drop 12 d))

-- All the bits of the bytes together.
abbrev or_all : List ℕ → ℕ
or_all [] = 0
or_all (x ∷ xs) = bit_or x (or_all xs)

-- The keys of the two directions, from the X25519 secret and the two handshake datagrams.
unfoldable pub bb_derive_keys : Crypto → List ℕ → List ℕ → List ℕ → Option (List ℕ × List ℕ)
bb_derive_keys c shared hello welcome =
    let th = c.sha256 (hello ++ welcome) in
    if or_all shared == 0
    then none
    else some (
      hmac_sha256 c shared (codes "MCBB1 up" ++ th),
      hmac_sha256 c shared (codes "MCBB1 down" ++ th),
    )

-- The header and the body of a session datagram, which the MAC covers.
abbrev pub session_message : ℕ → ℕ → ℕ → List ℕ → List ℕ
session_message type sid seq body = put_hdr type ++ (wr_u32le sid ++ (wr_u32le seq ++ body))

unfoldable pub bb_seal : Crypto → ℕ → ℕ → ℕ → ℕ → List ℕ → List ℕ → Option (List ℕ)
bb_seal c cap type sid seq body key =
    let len = bb_hdr + length body + bb_mac in
    let msg = session_message type sid seq body in
    if ltb cap len || ltb bb_max_dgram len
    then none
    else some (msg ++ take bb_mac (hmac_sha256 c key msg))

-- `Opened` is what bb_open fills in.
pub record Opened : Type 0 where
  pub type : ℕ
  pub sid : ℕ
  pub seq : ℕ
  pub body : List ℕ

-- The MACs are compared in constant time.
unfoldable pub bb_open : Crypto → List ℕ → List ℕ → Result Opened
bb_open c d key =
    let msg = take (length d - bb_mac) d in
    if ltb (length d) (bb_hdr + bb_mac) || not (magic_ok d)
    then err 1
    else if not (bytes_eq (take bb_mac (hmac_sha256 c key msg)) (drop (length d - bb_mac) d))
    then err 2
    else ok (record {
      type = get_or d 3 0;
      sid = rd_u32le (drop 4 d);
      seq = rd_u32le (drop 8 d);
      body = drop bb_hdr msg;
    })
