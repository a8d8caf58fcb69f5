-- ===== src/Crypto/Tests.antt =====
-- Toy primitives that satisfy the laws, for concrete runs: a checksum for SHA-256, the identity for
-- AES, a public key made of the
-- seed's first byte, a signature of 64 zeros.
use meshcore_repeater.Common.{
  ℕ, ◌+◌, ◌*◌, ◌%◌, refl, List, [], ◌∷◌, ◌++◌, some, drop, get_or, replicate, length-append,
}
use meshcore_repeater.Crypto.{Crypto, HashLaws, CipherLaws, SignLaws}

unfoldable pub checksum : List ℕ → ℕ
checksum [] = 0
checksum (x ∷ xs) = (x + 3 * checksum xs) % 251

abbrev pub toy_crypto : Crypto
toy_crypto = record {
  sha256 = λ xs. replicate 32 (checksum xs);
  aes_encrypt = λ key xs. xs;
  aes_decrypt = λ key xs. xs;
  public_of = λ seed. (get_or seed 0 0 * 2) ∷ replicate 31 (get_or seed 0 0 * 3);
  sign = λ sec msg. replicate 64 0 ++ msg;
  sign_open = λ key signed. some (drop 64 signed);
}

pub toy_crypto-HashLaws : HashLaws toy_crypto
toy_crypto-HashLaws = record { length-sha256 = λ xs. refl }

pub toy_crypto-CipherLaws : CipherLaws toy_crypto
toy_crypto-CipherLaws = record {
  length-aes_encrypt = λ key xs h. refl;
  aes_decrypt-aes_encrypt = λ key xs b h. refl;
}

pub toy_crypto-SignLaws : SignLaws toy_crypto
toy_crypto-SignLaws = record {
  length-public_of = λ seed. refl;
  length-sign = λ sec msg. length-append (replicate 64 0) msg;
  drop-sign = λ sec msg. refl;
  sign_open-sign = λ sec msg h. refl;
}
