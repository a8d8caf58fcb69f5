-- ===== src/Mesh/Channel/Agree.antt =====
-- src/mesh.c: what a node that holds the channel makes of a group text that channel_build_txt built.
use meshcore_repeater.Common.{
  ℕ, zero, suc, ◌+◌, ◌-◌, ◌*◌, ◌/◌, ◌%◌, ◌^◌, ◌≤◌, ◌≡◌, refl, sym, ap, ◌∙◌, true, false, not, ◌||◌,
  List, [], ◌∷◌, ◌++◌, All, some, ◌==◌, ==_self, ltb, length, take, drop, get_or, replicate,
  write_at, arith, Bool-cases, inl, inr, ok, ok_inj, length-append, length-replicate, take-append,
  subst,
}
use meshcore_repeater.Common.Text.{codes}
use meshcore_repeater.Util.Endian.{IsByte, wr_u32le}
use meshcore_repeater.Crypto.{Crypto, CipherLaws, hmac_sha256}
use meshcore_repeater.Config.{Channel}
use meshcore_repeater.Packet.{
  Packet, max_packet_payload, make_header, payload_grp_txt, payload_type,
}
use meshcore_repeater.Packet.Codec.{zero_packet, zero_payload}
use meshcore_repeater.Mesh.Channel.{channel_decrypt, grp_plain, channel_build_txt}
use meshcore_repeater.Mesh.Policy.{mac_ok}
use meshcore_repeater.Mesh.Policy.Scan.{Proves}

padded_blocks :
    (xs : List ℕ)
    → 1 ≤ length xs
    → let padded = xs ++ replicate ((length xs + 15) / 16 * 16 - length xs) 0 in
      (length padded % 16 ≡ 0) × (16 ≤ length padded)
padded_blocks xs h = omega (
  arith,
  length-append xs (replicate ((length xs + 15) / 16 * 16 - length xs) 0),
  length-replicate {A = ℕ} ((length xs + 15) / 16 * 16 - length xs) 0,
)

-- The plaintext is a positive number of whole AES blocks.
grp_plain_blocks :
    (sender text : List ℕ) (ts : ℕ)
    → (length (grp_plain sender text ts) % 16 ≡ 0) × (16 ≤ length (grp_plain sender text ts))
unfolding grp_plain wr_u32le
grp_plain_blocks sender text ts =
    padded_blocks (wr_u32le ts ++ (0 ∷ (sender ++ (codes ": " ++ text)))) (omega arith)

append-All : (xs ys : List ℕ) → All IsByte xs → All IsByte ys → All IsByte (xs ++ ys)
append-All [] ys h k = k
append-All (x ∷ xs) ys h k = (h.0, append-All xs ys h.1 k)

replicate-All : (n : ℕ) → All IsByte (replicate n 0)
replicate-All zero = tt
replicate-All (suc n) = (omega arith, replicate-All n)

grp_plain-IsByte :
    (sender text : List ℕ) (ts : ℕ)
    → All IsByte sender
    → All IsByte text
    → All IsByte (grp_plain sender text ts)
unfolding grp_plain wr_u32le
grp_plain-IsByte sender text ts h k =
    let body = sender ++ (codes ": " ++ text) in
    append-All (wr_u32le ts ++ (0 ∷ body)) _
      (
        omega arith,
        (
          omega arith,
          (
            omega arith,
            (
              omega arith,
              (
                omega arith,
                append-All sender (codes ": " ++ text) h (omega arith, (omega arith, k)),
              ),
            ),
          ),
        ),
      )
      (replicate-All _)

drop-take_3 : (k a b c : ℕ) (xs : List ℕ) → drop 3 (take (3 + k) (a ∷ b ∷ c ∷ xs)) ≡ take k xs
drop-take_3 k a b c xs = rw (three_more k) refl
  where
    three_more : (k : ℕ) → 3 + k ≡ suc (suc (suc k))
    three_more k = omega arith

-- A group payload: the channel's selector byte, two MAC bytes, the ciphertext.
abbrev group_packet : Crypto → Channel → ℕ → List ℕ → Packet
group_packet c ch header plain =
    let ct = c.aes_encrypt ch.secret plain in
    let mac = hmac_sha256 c ch.secret ct in
    record zero_packet {
      header = header;
      payload = write_at 0 (ch.hash ∷ get_or mac 0 0 ∷ get_or mac 1 0 ∷ ct) zero_payload;
      payload_len = 3 + length plain;
    }

module _ (c : Crypto) (laws : CipherLaws c) (ch : Channel) (header : ℕ) (plain : List ℕ)
    (blocks : length plain % 16 ≡ 0) where
  abbrev sealed : Packet
  sealed = group_packet c ch header plain

  ciphertext : take (length plain) (drop 3 sealed.payload) ≡ c.aes_encrypt ch.secret plain
  ciphertext =
      take-append (length plain) (c.aes_encrypt ch.secret plain) _
        (sym (laws.length-aes_encrypt ch.secret plain blocks))

  sealed_mac : mac_ok c ch sealed ≡ true
  unfolding mac_ok
  sealed_mac =
      rw
        (
          drop-take_3 (length plain) ch.hash
              (get_or (hmac_sha256 c ch.secret (c.aes_encrypt ch.secret plain)) 0 0)
              (get_or (hmac_sha256 c ch.secret (c.aes_encrypt ch.secret plain)) 1 0)
              (drop 3 sealed.payload),
          ciphertext,
        )
        (rw
          (
            ==_self (get_or (hmac_sha256 c ch.secret (c.aes_encrypt ch.secret plain)) 0 0),
            ==_self (get_or (hmac_sha256 c ch.secret (c.aes_encrypt ch.secret plain)) 1 0),
          )
          refl)

  sealed_decrypts :
      All IsByte plain
      → 16 ≤ length plain
      → 3 + length plain ≤ max_packet_payload
      → channel_decrypt c ch sealed max_packet_payload ≡ some plain
  unfolding channel_decrypt
  sealed_decrypts b n m =
      let e : 3 + length plain - 3 ≡ length plain = omega arith in
      let long : ltb (3 + length plain) 19 ≡ false = ground arith in
      let fits : (not (length plain % 16 == 0) || ltb max_packet_payload (length plain + 1))
          ≡ false =
        ground arith in
      rw (e, long, fits, ciphertext)
        (ap some (laws.aes_decrypt-aes_encrypt ch.secret plain b blocks))

-- A packet that the channel proves public, and from which it reads `plain`.
abbrev pub ReadsAs : Crypto → Channel → Packet → List ℕ → Type 0
ReadsAs c ch p plain =
    (payload_type p ≡ payload_grp_txt)
    × (19 ≤ p.payload_len)
    × Proves c p ch
    × (channel_decrypt c ch p max_packet_payload ≡ some plain)

-- A group text that channel_build_txt builds is public to every node that holds the channel: its
-- selector and its MAC are the channel's, and channel_decrypt reads the plaintext back whole. AES
-- keeps the length of whole blocks and decrypts what it encrypted, and the sender's name and the text
-- are bytes.
pub channel_build_txt-ReadsAs :
    (c : Crypto) (ch : Channel) (sender text : List ℕ) (ts route : ℕ) (p : Packet)
    → CipherLaws c
    → All IsByte sender
    → All IsByte text
    → channel_build_txt c ch sender text ts route ≡ ok p
    → ReadsAs c ch p (grp_plain sender text ts)
unfolding channel_build_txt payload_type make_header
channel_build_txt-ReadsAs c ch sender text ts route p laws bs bt e =
    let plain = grp_plain sender text ts in
    let b = grp_plain-IsByte sender text ts bs bt in
    let (blocks, n) = grp_plain_blocks sender text ts in
    elim (Bool-cases (ltb max_packet_payload (3 + length plain))) [
      | inl long ↦ absurd (ground arith)
      | inr fits ↦
          let built : group_packet c ch (make_header 0 payload_grp_txt route) plain ≡ p =
            ok_inj (sym (rw fits refl) ∙ e) in
          subst (λ q. ReadsAs c ch q plain) built
            (
              header_type route,
              omega (arith, n),
              (refl, sealed_mac c laws ch (make_header 0 payload_grp_txt route) plain blocks),
              sealed_decrypts c laws ch (make_header 0 payload_grp_txt route) plain blocks b n
                  (ground arith),
            )
    ]
  where
    header_type : (r : ℕ) → make_header 0 payload_grp_txt r / 2 ^ 2 % 16 ≡ payload_grp_txt
    header_type r = omega arith
