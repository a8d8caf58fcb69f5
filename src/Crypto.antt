-- ===== src/Crypto.antt =====
-- The vendored primitives of src/crypto (SHA-256, AES-128, TweetNaCl) as parameters, with the
-- documented behaviour that the sources rely on, and src/hmac_sha256.c over them.
pub mod Tests
use meshcore_repeater.Common.{
  ℕ, ◌+◌, ◌*◌, ◌%◌, ◌<◌, ◌≤◌, ◌≡◌, List, [], ◌∷◌, ◌++◌, map, Option, none, some, ltb, if◌then◌else◌,
  length, take, drop, replicate, write_at, All,
}
use meshcore_repeater.Util.Endian.{IsByte}
use Prim.Native.Nat.{bit_xor}

pub record Crypto : Type 0 where
  -- The digest of all that the updates fed in.
  pub sha256 : List ℕ → List ℕ
  -- AES-128 in ECB mode with the first 16 bytes of a key, over whole blocks.
  pub aes_encrypt : List ℕ → List ℕ → List ℕ
  pub aes_decrypt : List ℕ → List ℕ → List ℕ
  -- crypto_sign_keypair: the public key of a 32-byte seed.
  pub public_of : List ℕ → List ℕ
  -- crypto_sign: signature and message, from a 64-byte secret key.
  pub sign : List ℕ → List ℕ → List ℕ
  -- crypto_sign_open by a public key: the message, if the signature is good.
  pub sign_open : List ℕ → List ℕ → Option (List ℕ)

-- SHA-256: 32 bytes.
pub record HashLaws (c : Crypto) : Type 0 where
  pub length-sha256 : (xs : List ℕ) → length (c.sha256 xs) ≡ 32

-- AES-128: the length is kept, and decrypting undoes encrypting.
pub record CipherLaws (c : Crypto) : Type 0 where
  pub length-aes_encrypt :
      (key xs : List ℕ) → length xs % 16 ≡ 0 → length (c.aes_encrypt key xs) ≡ length xs
  pub aes_decrypt-aes_encrypt :
      (key xs : List ℕ)
      → All IsByte xs
      → length xs % 16 ≡ 0
      → c.aes_decrypt key (c.aes_encrypt key xs) ≡ xs

-- A secret key of TweetNaCl: a seed, and behind it the public key of that seed.
abbrev pub IsSecretKey : Crypto → List ℕ → Type 0
IsSecretKey c sec = (length sec ≡ 64) × (drop 32 sec ≡ c.public_of (take 32 sec))

-- TweetNaCl: a signed message is a 64-byte signature before the message, and it is opened with the
-- public key if the secret key is one that crypto_sign_keypair makes.
pub record SignLaws (c : Crypto) : Type 0 where
  pub length-public_of : (seed : List ℕ) → length (c.public_of seed) ≡ 32
  pub length-sign : (sec msg : List ℕ) → length (c.sign sec msg) ≡ 64 + length msg
  pub drop-sign : (sec msg : List ℕ) → drop 64 (c.sign sec msg) ≡ msg
  pub sign_open-sign :
      (sec msg : List ℕ) → IsSecretKey c sec → c.sign_open (drop 32 sec) (c.sign sec msg) ≡ some msg

-- HMAC_BLOCK
abbrev hmac_block : ℕ
hmac_block = 64

-- A key longer than a block is hashed; the rest of the block is zero.
unfoldable pub hmac_key : Crypto → List ℕ → List ℕ
hmac_key c key =
    write_at 0 (if ltb hmac_block (length key) then c.sha256 key else key) (replicate 64 0)

unfoldable pub hmac_sha256 : Crypto → List ℕ → List ℕ → List ℕ
hmac_sha256 c key msg =
    let k = hmac_key c key in
    let ipad = map (λ b. bit_xor b 0x36) k in
    let opad = map (λ b. bit_xor b 0x5c) k in
    let inner = c.sha256 (ipad ++ msg) in c.sha256 (opad ++ inner)

pub length-hmac_sha256 :
    (c : Crypto) → HashLaws c → (key msg : List ℕ) → length (hmac_sha256 c key msg) ≡ 32
unfolding hmac_sha256
length-hmac_sha256 c laws key msg = laws.length-sha256 _
