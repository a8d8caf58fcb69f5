-- ===== src/Backbone/Agree.antt =====
-- src/backbone.c: a handshake in which the hub answers comes to the same session on both sides.
use meshcore_repeater.Common.{
  length, ℕ, ◌-◌, ◌≡◌, refl, ap, ◌∙◌, false, not, List, Option, none, some, if_false, ◌==◌, Result,
  ok, err, replicate,
}
use Prim.Native.Nat.{bit_and}
use meshcore_repeater.Crypto.{Crypto, HashLaws, SignLaws}
use meshcore_repeater.Identity.{Identity}
use meshcore_repeater.Advert.Signed.{IsKeyPair}
use meshcore_repeater.Backbone.Codec.{Welcome, bb_build_welcome, bb_check_welcome, bb_derive_keys}
use meshcore_repeater.Backbone.Codec.Handshake.{InRange, bb_check_welcome-bb_build_welcome}
use meshcore_repeater.Backbone.State.{Client, Net, bb_up, bb_hello_sent, is_hello_sent, reject}
use meshcore_repeater.Backbone.Handshake.{new_session, greet, on_welcome}
use meshcore_repeater.Backbone.Quiet.{Core, core}
use meshcore_repeater.Backbone.Invariant.Handshake.{greet-Quiet}

-- X25519: from 32-byte scalars, both sides compute the same secret.
abbrev pub Agrees : Net → Type 0
Agrees net =
    (a b : List ℕ)
    → length a ≡ 32
    → length b ≡ 32
    → net.scalarmult a (net.scalarmult_base b) ≡ net.scalarmult b (net.scalarmult_base a)

-- A session of this id and these roles is up, with these keys.
abbrev pub Established : Client → Welcome → List ℕ × List ℕ → Type 0
Established bb w keys =
    (bb.state ≡ bb_up)
    × (bb.sid ≡ w.sid)
    × (bb.roles ≡ w.roles)
    × (bb.k_up ≡ keys.0)
    × (bb.k_down ≡ keys.1)

-- A client that waits for a WELCOME and gets the one that the hub signed for its HELLO has a session,
-- with the id and the roles of the WELCOME, and with the same keys that the hub derives on its side,
-- from its own X25519 secret and the client's public key. The hub has a
-- key pair, whose public key the client knows, and grants an id other than 0 and no role that was not
-- asked for; the fields of the WELCOME fit their widths, and the hub derives keys at all, which it does
-- unless the shared secret is all zero. SHA-256 gives 32 bytes, TweetNaCl opens what a key pair signs,
-- and X25519 gives both sides the same secret from scalars of 32 bytes, as
-- theirs are.
pub on_welcome-Established :
    (net : Net) (bb : Client) (now cap : ℕ) (hub : Identity) (hub_sec d : List ℕ) (w : Welcome)
    (keys : List ℕ × List ℕ)
    → HashLaws net.env.crypto
    → SignLaws net.env.crypto
    → Agrees net
    → length bb.eph_sec ≡ 32
    → length hub_sec ≡ 32
    → IsKeyPair net.env.crypto hub
    → InRange w
    → bb.state ≡ bb_hello_sent
    → bb.hub_pub ≡ hub.public_key
    → bb.hello_hash ≡ net.env.crypto.sha256 bb.hello
    → w.eph_pub ≡ net.scalarmult_base hub_sec
    → (w.sid == 0) ≡ false
    → bit_and w.roles (255 - bb.roles_asked) ≡ 0
    → bb_build_welcome net.env.crypto cap hub w (net.env.crypto.sha256 bb.hello) ≡ some d
    → bb_derive_keys net.env.crypto
        (net.scalarmult hub_sec (net.scalarmult_base bb.eph_sec))
        bb.hello
        d
      ≡ some keys
    → Established (on_welcome net bb now d) w keys
unfolding on_welcome new_session
on_welcome-Established net bb now cap hub hub_sec d w keys hashes laws agrees mine_in theirs_in pair
      range waiting known hash eph sid roles built derived =
    let c : Crypto = net.env.crypto in
    let taken : bb_check_welcome c d bb.hub_pub bb.hello_hash bb.roles_asked ≡ ok w =
      (λ i. bb_check_welcome c d (known i) (hash i) bb.roles_asked)
      ∙ bb_check_welcome-bb_build_welcome c hub w (c.sha256 bb.hello) d cap bb.roles_asked laws pair
          range (hashes.length-sha256 bb.hello) sid roles built in
    let mine : bb_derive_keys c (net.scalarmult bb.eph_sec w.eph_pub) bb.hello d ≡ some keys =
      ap (λ x. bb_derive_keys c x bb.hello d)
        (ap (net.scalarmult bb.eph_sec) eph ∙ agrees bb.eph_sec hub_sec mine_in theirs_in)
      ∙ derived in
    let result : on_welcome net bb now d ≡ greet net (started w keys) now =
      if_false _ _ (ap (λ s. not (is_hello_sent s)) waiting)
      ∙ ap checked taken
      ∙ ap (keyed w) mine in
    let up : core (on_welcome net bb now d) ≡ core (started w keys) =
      ap core result ∙ greet-Quiet net (started w keys) now in
    let at : Established (started w keys) w keys = opened w keys in
    (
      ap (λ (x : Core). x.state) up ∙ at.0,
      ap (λ (x : Core). x.sid) up ∙ at.1,
      ap (λ (x : Core). x.roles) up ∙ at.2,
      ap (λ (x : Core). x.k_up) up ∙ at.3,
      ap (λ (x : Core). x.k_down) up ∙ at.4,
    )
  where
    started : Welcome → List ℕ × List ℕ → Client
    started v ks = new_session bb now v ks.0 ks.1

    opened : (v : Welcome) (ks : List ℕ × List ℕ) → Established (started v ks) v ks
    opened v ks = (refl, refl, refl, refl, refl)

    keyed : Welcome → Option (List ℕ × List ℕ) → Client
    keyed v o = elim o [
      | none ↦ reject (record bb { eph_sec = replicate 32 0 })
      | some ks ↦ greet net (started v ks) now
    ]

    checked : Result Welcome → Client
    checked r = elim r [
      | err code ↦ reject bb
      | ok v ↦
          keyed v (bb_derive_keys net.env.crypto (net.scalarmult bb.eph_sec v.eph_pub) bb.hello d)
    ]
