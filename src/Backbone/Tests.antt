-- ===== src/Backbone/Tests.antt =====
-- Concrete runs of src/backbone.c.
pub mod Session
use meshcore_repeater.Common.{
  ℕ, ◌+◌, ◌-◌, ◌*◌, ◌≡◌, ◌≤◌, ◌<◌, refl, sym, true, false, Bool, List, [], ◌∷◌, ◌++◌, Option, none,
  some, replicate, length, take, drop, Result, ok, err, arith, suc, ltb, ◌&&◌, All,
}
use meshcore_repeater.Util.Endian.{IsByte, below-IsByte, rd_u32le, wr_u32le}
use meshcore_repeater.Crypto.{hmac_sha256, hmac_key}
use meshcore_repeater.Crypto.Tests.{toy_crypto, toy_crypto-HashLaws, checksum}
use meshcore_repeater.Config.{no_policy, Policy}
use meshcore_repeater.Backbone.Codec.{bb_seal, bb_open, bb_max_dgram, Opened}
use meshcore_repeater.Backbone.Codec.Sealed.{opened, bb_open-bb_seal, bb_seal-bb_open}
use meshcore_repeater.Backbone.Replay.{fresh_window}
use meshcore_repeater.Backbone.Replay.Once.{
  answers, set_answers, accepted, Distinct, replay_refines, replay_at_most_once,
}
use meshcore_repeater.Backbone.Policy.{policy_walk, walk_entries, policy_add, room_ok, has_blank}
use meshcore_repeater.Backbone.Policy.Walk.{
  print_entries, add_all, Fits, policy_walk-print_entries, policy_walk-Fits,
}
use meshcore_repeater.Backbone.Samples.{sample_page}

-- Sequence numbers out of order, repeated, and old.
abbrev numbers : List ℕ
numbers = 1 ∷ 3 ∷ 2 ∷ 3 ∷ 70 ∷ 2 ∷ 0 ∷ 69 ∷ 69 ∷ []

replay_refines_example : answers fresh_window numbers ≡ set_answers [] numbers
replay_refines_example = replay_refines numbers

replay_at_most_once_example : Distinct (accepted numbers (answers fresh_window numbers))
replay_at_most_once_example = replay_at_most_once numbers

abbrev key : List ℕ
key = replicate 32 1

abbrev body : List ℕ
body = 3 ∷ 1 ∷ 4 ∷ []

abbrev bytes_of : Option (List ℕ) → List ℕ
bytes_of none = []
bytes_of (some d) = d

abbrev sealed : List ℕ
sealed = bytes_of (bb_seal toy_crypto bb_max_dgram 0x12 9 1 body key)

seals : bb_seal toy_crypto bb_max_dgram 0x12 9 1 body key ≡ some sealed
unfolding bb_seal
seals = refl

bb_open-bb_seal_example : bb_open toy_crypto sealed key ≡ ok (opened 0x12 9 1 body)
bb_open-bb_seal_example =
    bb_open-bb_seal toy_crypto bb_max_dgram 0x12 9 1 body key sealed toy_crypto-HashLaws
      (omega arith) (omega arith) seals

abbrev entries : List (ℕ × List ℕ)
entries = (1, b'#' ∷ b'a' ∷ []) ∷ (3, replicate 32 7) ∷ (9, []) ∷ []

policy_walk-print_entries_example :
    policy_walk (print_entries entries) no_policy ≡ some (add_all no_policy entries)
policy_walk-print_entries_example = policy_walk-print_entries entries no_policy

abbrev one_room : Policy
one_room = record no_policy { rooms = (b'#' ∷ b'a' ∷ b'b' ∷ []) ∷ [] }

walked : policy_walk sample_page no_policy ≡ some one_room
unfolding policy_walk walk_entries policy_add room_ok has_blank
walked = refl

policy_walk-Fits_example :
    Fits one_room
    × ((es : List (ℕ × List ℕ)) × (print_entries es ≡ sample_page)
        × (one_room ≡ add_all no_policy es))
policy_walk-Fits_example =
    policy_walk-Fits sample_page no_policy one_room
      (omega arith, omega arith, omega arith, tt, tt, tt) walked

-- The sealed datagram consists of bytes.
sealed-IsByte : All IsByte sealed
unfolding bb_seal wr_u32le hmac_sha256 hmac_key checksum
sealed-IsByte = below-IsByte sealed refl

sealed_size : length sealed ≤ bb_max_dgram
unfolding bb_seal wr_u32le hmac_sha256
sealed_size = omega arith

bb_seal-bb_open_example : bb_seal toy_crypto bb_max_dgram 0x12 9 1 body key ≡ some sealed
bb_seal-bb_open_example =
    bb_seal-bb_open toy_crypto sealed key (opened 0x12 9 1 body) sealed-IsByte sealed_size
      bb_open-bb_seal_example
