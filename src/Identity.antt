-- ===== src/Identity.antt =====
-- src/identity.h and src/identity.c: signing, verifying and the path hash.
pub mod File
use meshcore_repeater.Common.{
  ℕ, ◌+◌, Bool, false, List, ◌++◌, Option, none, some, ltb, ◌==◌, if◌then◌else◌, length, take,
  bytes_eq,
}
use meshcore_repeater.Crypto.{Crypto}

-- `mc_identity_t`.
pub record Identity : Type 0 where
  pub public_key : List ℕ
  pub secret_key : List ℕ
  pub has_secret : Bool

-- SIGN_SCRATCH
abbrev pub sign_scratch : ℕ
sign_scratch = 64 + 128

-- The detached signature, `none` for -1.
unfoldable pub identity_sign : Crypto → Identity → List ℕ → Option (List ℕ)
identity_sign c id msg =
    if id.has_secret
    then (if ltb sign_scratch (length msg + 64)
        then none
        else some (take 64 (c.sign id.secret_key msg)))
    else none

unfoldable pub identity_verify : Crypto → List ℕ → List ℕ → List ℕ → Bool
identity_verify c public_key sig msg =
    if ltb sign_scratch (length msg + 64)
    then false
    else elim (c.sign_open public_key (take 64 sig ++ msg)) [
      | none ↦ false
      | some opened ↦ length opened == length msg
    ]

-- mc_identity_copy_hash: the first `len` bytes of the public key.
unfoldable pub copy_hash : Identity → ℕ → List ℕ
copy_hash id len = take len id.public_key

unfoldable pub hash_match : Identity → List ℕ → ℕ → Bool
hash_match id hash len = bytes_eq (take len id.public_key) (take len hash)
