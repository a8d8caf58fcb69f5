-- ===== src/Advert/Signed.antt =====
-- src/advert.c: an advert that mc_advert_build built verifies.
use meshcore_repeater.Common.{
  ℕ, suc, ◌+◌, ◌-◌, ◌≤◌, ◌<◌, ◌^◌, ◌≡◌, refl, sym, ap, ◌∙◌, subst, true, false, List, [], ◌++◌,
  some, some_inj, ==_self, ltb, if◌then◌else◌, length, take, drop, write_at, arith, Bool-cases,
  Option-cases, inl, inr, ok, ok_inj, length-append, length-take, take-append, take_all,
  drop-append, drop-drop, take-append-drop,
}
use meshcore_repeater.Common.Int.{to_word}
use mathlib.Core.List.{append_assoc}
use meshcore_repeater.Util.Endian.{rd_u32le, wr_u32le, rd_u32le-wr_u32le}
use meshcore_repeater.Crypto.{Crypto, SignLaws, IsSecretKey}
use meshcore_repeater.Identity.{Identity, identity_sign, identity_verify, sign_scratch}
use meshcore_repeater.Identity.File.{mc_identity_generate}
use meshcore_repeater.Packet.{Packet, payload_advert, payload_type, route_flood, make_header}
use meshcore_repeater.Packet.Codec.{zero_packet, zero_payload}
use meshcore_repeater.Advert.{
  AdvertInfo, encode_app_data, signed_message, advert_build, advert_verify, adv_data_off,
  max_advert_data, app_data_of,
}

-- A key pair as mc_identity_generate leaves it: the secret key is a seed with its public key.
abbrev pub IsKeyPair : Crypto → Identity → Type 0
IsKeyPair c id =
    (id.has_secret ≡ true)
    × (length id.public_key ≡ 32)
    × IsSecretKey c id.secret_key
    × (drop 32 id.secret_key ≡ id.public_key)

-- What mc_identity_generate makes is a key pair.
pub mc_identity_generate-IsKeyPair :
    (c : Crypto) (seed : List ℕ)
    → SignLaws c
    → length seed ≡ 32
    → IsKeyPair c (mc_identity_generate c seed)
unfolding mc_identity_generate
mc_identity_generate-IsKeyPair c seed laws h =
    let pk : List ℕ = c.public_of seed in
    let size : length (seed ++ pk) ≡ 64 =
      omega (arith, length-append seed pk, laws.length-public_of seed, h) in
    let head : take 32 (seed ++ pk) ≡ seed = take-append 32 seed pk (sym h) in
    let tail : drop 32 (seed ++ pk) ≡ pk = drop-append 32 seed pk (sym h) in
    (refl, laws.length-public_of seed, (size, tail ∙ ap c.public_of (sym head)), tail)

-- The optional position of the application data.
abbrev place : AdvertInfo → List ℕ
place info =
    if info.has_location
    then wr_u32le (to_word (2 ^ 32) info.latitude) ++ wr_u32le (to_word (2 ^ 32) info.longitude)
    else []

place_bounds : (info : AdvertInfo) → length (place info) ≤ 8
unfolding wr_u32le
place_bounds info = elim (Bool-cases info.has_location) [
  | inl placed ↦ rw placed (omega arith)
  | inr nowhere ↦ rw nowhere (omega arith)
]

encode_app_data_bounds : (info : AdvertInfo) → length (encode_app_data info) ≤ max_advert_data
unfolding encode_app_data
encode_app_data_bounds info = room (place info) info.name (place_bounds info)
  where
    room :
        (place name : List ℕ)
        → length place ≤ 8
        → suc (length (place ++ take (max_advert_data - (1 + length place)) name)) ≤ max_advert_data
    room place name h = omega (
      arith,
      length-append place (take (max_advert_data - (1 + length place)) name),
      length-take (max_advert_data - (1 + length place)) name,
    )

-- What is signed, is opened with the public key.
pub sign-verify :
    (c : Crypto) (laws : SignLaws c) (id : Identity) (msg sig : List ℕ)
    → IsKeyPair c id
    → identity_sign c id msg ≡ some sig
    → (length sig ≡ 64) × (identity_verify c id.public_key sig msg ≡ true)
unfolding identity_sign identity_verify
sign-verify c laws id msg sig (secret, _, sk, half) e =
    elim (Bool-cases (ltb sign_scratch (length msg + 64))) [
      | inl long ↦ absurd (ground arith)
      | inr fits ↦
          let signed : List ℕ = c.sign id.secret_key msg in
          let cut : take 64 signed ≡ sig = some_inj (sym (rw (secret, fits) refl) ∙ e) in
          let size : length sig ≡ 64 =
            ap length (sym cut)
            ∙ omega (arith, length-take 64 signed, laws.length-sign id.secret_key msg) in
          let whole : take 64 sig ++ msg ≡ signed =
            ap (λ s. s ++ msg) (take_all 64 sig (omega (arith, size)) ∙ sym cut)
            ∙ ap (λ m. take 64 signed ++ m) (sym (laws.drop-sign id.secret_key msg))
            ∙ take-append-drop 64 signed in
          let opens : c.sign_open id.public_key (take 64 sig ++ msg) ≡ some msg =
            rw (whole, ← half) (laws.sign_open-sign id.secret_key msg sk) in
          (size, rw (fits, opens) (==_self (length msg)))
    ]

-- The parts of an advert's payload, at their offsets.
abbrev laid : List ℕ → List ℕ → List ℕ → ℕ → List ℕ
laid pk sig app ts = pk ++ (wr_u32le ts ++ (sig ++ app))

module _ (pk sig app : List ℕ) (ts : ℕ) (pk_size : length pk ≡ 32)
    (sig_size : length sig ≡ 64) where
  laid_key : take 32 (laid pk sig app ts) ≡ pk
  laid_key = take-append 32 pk _ (sym pk_size)

  laid_rest : drop 32 (laid pk sig app ts) ≡ wr_u32le ts ++ (sig ++ app)
  laid_rest = drop-append 32 pk _ (sym pk_size)

  laid_time : ts < 2 ^ 32 → rd_u32le (drop 32 (laid pk sig app ts)) ≡ ts
  unfolding wr_u32le rd_u32le
  laid_time h = ap rd_u32le laid_rest ∙ rd_u32le-wr_u32le ts h

  laid_tail : drop 36 (laid pk sig app ts) ≡ sig ++ app
  unfolding wr_u32le
  laid_tail = sym (drop-drop 4 32 (laid pk sig app ts)) ∙ ap (drop 4) laid_rest

  laid_sig : take 64 (drop 36 (laid pk sig app ts)) ≡ sig
  laid_sig = ap (take 64) laid_tail ∙ take-append 64 sig app (sym sig_size)

  laid_app : drop 100 (laid pk sig app ts) ≡ app
  laid_app =
      sym (drop-drop 64 36 (laid pk sig app ts))
      ∙ ap (drop 64) laid_tail
      ∙ drop-append 64 sig app (sym sig_size)

  length-laid : length (laid pk sig app ts) ≡ 100 + length app
  unfolding wr_u32le
  length-laid = omega (
    arith,
    length-append pk (wr_u32le ts ++ (sig ++ app)),
    length-append sig app,
    pk_size,
    sig_size,
  )

laid_append :
    (pk sig app rest : List ℕ) (ts : ℕ) → laid pk sig app ts ++ rest ≡ laid pk sig (app ++ rest) ts
unfolding wr_u32le
laid_append pk sig app rest ts =
    append_assoc pk _ rest
    ∙ ap (λ x. pk ++ x) (ap (λ x. wr_u32le ts ++ x) (append_assoc sig app rest))

abbrev advert_packet : List ℕ → List ℕ → List ℕ → ℕ → Packet
advert_packet pk sig app ts = record zero_packet {
  header = make_header 0 payload_advert route_flood;
  payload = write_at 0 (laid pk sig app ts) zero_payload;
  payload_len = adv_data_off + length app;
}

not_short : (n : ℕ) → ltb (adv_data_off + n) adv_data_off ≡ false
not_short n = ground arith

advert_packet-advert_verify :
    (c : Crypto) (pk sig app : List ℕ) (ts : ℕ)
    → length pk ≡ 32
    → length sig ≡ 64
    → length app ≤ max_advert_data
    → ts < 2 ^ 32
    → identity_verify c pk sig (signed_message pk ts app) ≡ true
    → advert_verify c (advert_packet pk sig app ts) ≡ some pk
unfolding advert_verify payload_type make_header
advert_packet-advert_verify c pk sig app ts kn sn an t v =
    let p : Packet = advert_packet pk sig app ts in
    let rest : List ℕ = drop (0 + length (laid pk sig app ts)) zero_payload in
    let at : p.payload ≡ laid pk sig (app ++ rest) ts = laid_append pk sig app rest ts in
    let key : take 32 p.payload ≡ pk = ap (take 32) at ∙ laid_key pk sig (app ++ rest) ts kn sn in
    let time : rd_u32le (drop 32 p.payload) ≡ ts =
      ap (λ xs. rd_u32le (drop 32 xs)) at ∙ laid_time pk sig (app ++ rest) ts kn sn t in
    let signature : take 64 (drop 36 p.payload) ≡ sig =
      ap (λ xs. take 64 (drop 36 xs)) at ∙ laid_sig pk sig (app ++ rest) ts kn sn in
    let app_read : take max_advert_data (app_data_of p) ≡ app =
      ap (λ xs. take max_advert_data (drop adv_data_off xs))
        (take-append (adv_data_off + length app) (laid pk sig app ts) rest
          (sym (length-laid pk sig app ts kn sn)))
      ∙ ap (take max_advert_data) (laid_app pk sig app ts kn sn)
      ∙ take_all max_advert_data app an in
    rw (not_short (length app), key, time, signature, app_read, v) refl

-- An advert that mc_advert_build makes with a key pair verifies at every receiver, as coming from
-- that key pair's public key. A key pair is one whose secret key is a seed with its own public key, as
-- mc_identity_generate makes it; TweetNaCl opens what such a key signs. The timestamp is a uint32_t.
pub advert_build-advert_verify :
    (c : Crypto) (id : Identity) (info : AdvertInfo) (ts : ℕ) (p : Packet)
    → SignLaws c
    → IsKeyPair c id
    → ts < 2 ^ 32
    → advert_build c id info ts ≡ ok p
    → advert_verify c p ≡ some id.public_key
unfolding advert_build
advert_build-advert_verify c id info ts p laws k t e =
    let app = encode_app_data info in
    let msg = signed_message id.public_key ts app in
    elim (Option-cases (identity_sign c id msg)) [
      | inl unsigned ↦ absurd (ground (arith, k))
      | inr (sig, s) ↦
          let (size, good) = sign-verify c laws id msg sig k s in
          let built : advert_packet id.public_key sig app ts ≡ p =
            ok_inj (sym (rw (s, k.0) refl) ∙ e) in
          subst (λ q. advert_verify c q ≡ some id.public_key) built
            (advert_packet-advert_verify c id.public_key sig app ts k.1 size
              (encode_app_data_bounds info) t good)
    ]
