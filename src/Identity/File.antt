-- ===== src/Identity/File.antt =====
-- src/identity.c: a new identity, the text of the key file, and reading it back.
use meshcore_repeater.Common.{
  ℕ, ◌+◌, ◌*◌, ◌/◌, ◌%◌, ◌^◌, ◌≡◌, refl, Bool, true, false, ◌&&◌, ◌||◌, List, [], ◌∷◌, ◌++◌, Option,
  none, some, ltb, ◌==◌, if◌then◌else◌, length, replicate, get_or,
}
use meshcore_repeater.Common.Tests.{bytes_eq}
use mathlib.Core.List.{reverse}
use meshcore_repeater.Common.Text.{codes, cstr, is_empty}
use meshcore_repeater.Util.Hex.{hexval, hex_digit, hex_digits, decode_pairs, hex2bin}
use meshcore_repeater.Crypto.{Crypto}
use meshcore_repeater.Identity.{Identity}

-- crypto_sign_keypair draws the seed.
unfoldable pub mc_identity_generate : Crypto → List ℕ → Identity
mc_identity_generate c seed = record {
  public_key = c.public_of seed;
  secret_key = seed ++ c.public_of seed;
  has_secret = true;
}

-- What is written once the file is open. Both buffers hold the digits of their key.
unfoldable mc_identity_save : Identity → List ℕ
mc_identity_save id =
    codes "# MeshCore repeater identity - keep this file private!"
    ++ (10 ∷ codes "pub=")
    ++ hex_digits id.public_key
    ++ (10 ∷ codes "sec=")
    ++ hex_digits id.secret_key
    ++ (10 ∷ [])

-- What the loop of `hex2bin` leaves in `out`: the pairs before the first that is no byte.
unfoldable pairs_written : List ℕ → List ℕ → List ℕ
pairs_written [] out = out
pairs_written (h ∷ []) out = out
pairs_written (h ∷ (l ∷ rest)) [] = []
pairs_written (h ∷ (l ∷ rest)) (o ∷ os) =
    let more = pairs_written rest os in
    elim (hexval h) [
      | none ↦ o ∷ os
      | some hi ↦ elim (hexval l) [ none ↦ o ∷ os | some lo ↦ (hi * 2 ^ 4 + lo) ∷ more ]
    ]

-- The whole buffer after `hex2bin`, which refuses some texts before it writes.
unfoldable hex_written : List ℕ → List ℕ → List ℕ
unfolding pairs_written
hex_written text out =
    if length text % 2 == 0
    then (if ltb (length out) (length text / 2) then out else pairs_written text out)
    else out

-- `hex2bin(val, out, n) == n`
unfoldable fills : List ℕ → ℕ → Bool
fills text n = elim (hex2bin text n) [ none ↦ false | some bytes ↦ length bytes == n ]

-- The locals of the loop, with the key fields of `*id`.
record Loading : Type 0 where
  public_key : List ℕ
  secret_key : List ℕ
  have_pub : Bool
  have_sec : Bool

-- strchr(line, '='): what stands before the first '=' and after it.
unfoldable split_eq : List ℕ → Option (List ℕ × List ℕ)
split_eq [] = none
split_eq (c ∷ cs) =
    let later = split_eq cs in
    if c == b'='
    then some ([], cs)
    else elim later [ none ↦ none | some (before, after) ↦ some (c ∷ before, after) ]

skip_ending : List ℕ → List ℕ
skip_ending [] = []
skip_ending (c ∷ cs) = if c == 10 || c == 13 || c == b' ' then skip_ending cs else c ∷ cs

-- Without the newlines, carriage returns and blanks at the end.
unfoldable strip_end : List ℕ → List ℕ
unfolding skip_ending
strip_end val = reverse (skip_ending (reverse val))

-- One pass of the loop. A key that is refused may have overwritten the start of an earlier one.
unfoldable load_line : Loading → List ℕ → Loading
unfolding split_eq strip_end hex_written fills
load_line st line =
    if get_or line 0 0 == b'#' || get_or line 0 0 == 10 then st else elim (split_eq line) [
      | none ↦ st
      | some (name, value) ↦
          let val = strip_end value in
          if bytes_eq name (codes "pub")
          then record st {
            public_key = hex_written val st.public_key;
            have_pub = st.have_pub || fills val 32;
          }
          else if bytes_eq name (codes "sec")
          then record st {
            secret_key = hex_written val st.secret_key;
            have_sec = st.have_sec || fills val 64;
          }
          else st
    ]

-- fgets into `char line[512]`: a line ends at its newline, at 511 bytes, or with the file. `line`
-- holds its bytes so far, the last one first.
unfoldable load_lines : List ℕ → Loading → List ℕ → Loading
unfolding load_line
load_lines [] st line = if is_empty line then st else load_line st (cstr (reverse line))
load_lines (c ∷ cs) st line =
    let ends = c == 10 || length line + 1 == 511 in
    let st' = if ends then load_line st (cstr (reverse (c ∷ line))) else st in
    let line' = if ends then [] else c ∷ line in load_lines cs st' line'

-- -1, -2 with what `*id` then holds, and 0.
data LoadResult : Type 0 where
  not_opened : LoadResult
  keys_missing : Identity → LoadResult
  loaded : Identity → LoadResult

-- The content of the file, `none` when it cannot be opened.
unfoldable mc_identity_load : Option (List ℕ) → LoadResult
unfolding load_lines
mc_identity_load file = elim file [
  | none ↦ not_opened
  | some content ↦
      let st =
        load_lines content
          (record {
            public_key = replicate 32 0;
            secret_key = replicate 64 0;
            have_pub = false;
            have_sec = false;
          })
          [] in
      let id : Bool → Identity = λ secret. record {
        public_key = st.public_key;
        secret_key = st.secret_key;
        has_secret = secret;
      } in
      if st.have_pub && st.have_sec then loaded (id true) else keys_missing (id false)
]

abbrev fresh : Identity
fresh = record { public_key = replicate 32 171; secret_key = replicate 64 5; has_secret = true }

-- A saved identity, read back.
reread : mc_identity_load (some (mc_identity_save fresh)) ≡ loaded fresh
unfolding mc_identity_load mc_identity_save hex2bin decode_pairs hexval hex_digits hex_digit cstr
    bytes_eq
reread = refl

-- A file with one key only, in upper case and with a carriage return.
one_key :
    mc_identity_load (some (codes "sec=AB" ++ (13 ∷ 10 ∷ codes "pub")))
    ≡ keys_missing (record {
      public_key = replicate 32 0;
      secret_key = 171 ∷ replicate 63 0;
      has_secret = false;
    })
unfolding mc_identity_load cstr bytes_eq hexval
one_key = refl

-- A later line that is no key overwrites the start of the key that was read before it, and the
-- file still loads.
mixed_key :
    mc_identity_load (some (mc_identity_save fresh ++ codes "pub=00zz"))
    ≡ loaded (record {
      public_key = 0 ∷ replicate 31 171;
      secret_key = replicate 64 5;
      has_secret = true;
    })
unfolding mc_identity_load mc_identity_save hex2bin decode_pairs hexval hex_digits hex_digit cstr
    bytes_eq
mixed_key = refl
