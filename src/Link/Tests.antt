-- ===== src/Link/Tests.antt =====
-- src/link.c: a frame over the link.
use meshcore_repeater.Common.{
  ◌⊎◌, ℕ, ◌+◌, ◌%◌, ◌^◌, ◌≡◌, ◌≤◌, ◌&&◌, refl, true, List, [], ◌∷◌, replicate, take, length, arith,
  negsuc, pos, All,
}
use meshcore_repeater.Common.Tests.{bytes_eq}
use meshcore_repeater.Common.Int.{to_word, of_word}
use meshcore_repeater.Util.Endian.{IsByte, below-IsByte, wr_u16le, wr_u32le, rd_u16le, rd_u32le}
use meshcore_repeater.Crypto.{hmac_sha256, hmac_key}
use meshcore_repeater.Crypto.Tests.{toy_crypto, toy_crypto-HashLaws, checksum}
use meshcore_repeater.Link.{
  Link, blank_link, link_rx, link_tx, is_tx, link_relay, link_recv, link_accept, link_datagram,
  link_hdr, link_max_frame, link_mac, link_ts_window, clock_skew, arrived, one_frame,
}
use meshcore_repeater.Link.Relayed.{link_recv-link_relay}
use meshcore_repeater.Link.Genuine.{link_recv-Genuine}

abbrev ear : Link
ear = record blank_link { mode = link_rx; fd = true }

abbrev sender : Link
sender = record blank_link { mode = link_tx; fd = true }

abbrev frame : List ℕ
frame = 17 ∷ 0 ∷ 5 ∷ []

link_recv-link_relay_example :
    (d : List ℕ) × ((link_relay toy_crypto ear 1_700_000_000 true frame (negsuc 89) (pos 7)).sent
      ≡ d ∷ [])
    × (link_recv toy_crypto sender 1_700_000_030 512 (arrived d)
        ≡ (record sender { frames_in = 1 }, one_frame frame (negsuc 89) (pos 7)))
link_recv-link_relay_example =
    link_recv-link_relay toy_crypto ear sender 1_700_000_000 1_700_000_030 512 true frame
      (negsuc 89) (pos 7) toy_crypto-HashLaws refl refl refl (omega arith) (omega arith)
      (omega arith) (omega arith) (omega arith) (omega arith)

abbrev datagram : List ℕ
datagram = link_datagram toy_crypto (replicate 32 0) 1_700_000_000 (negsuc 89) (pos 7) frame

datagram-IsByte : All IsByte datagram
unfolding wr_u32le wr_u16le to_word hmac_sha256 hmac_key checksum
datagram-IsByte = below-IsByte datagram refl

accepted :
    (link_recv toy_crypto sender 1_700_000_030 512 (arrived datagram)).1
    ≡ one_frame frame (negsuc 89) (pos 7)
unfolding link_recv link_accept wr_u32le wr_u16le rd_u16le rd_u32le to_word of_word hmac_sha256
    hmac_key checksum bytes_eq
accepted = refl

link_recv-Genuine_example :
    ((is_tx sender.mode && sender.fd) ≡ true)
    × ((ts : ℕ) × (take (link_hdr + link_max_frame + link_mac) datagram
          ≡ link_datagram toy_crypto (replicate 32 0) ts (negsuc 89) (pos 7) frame)
        × (clock_skew (1_700_000_030 % 2 ^ 32) ts ≤ link_ts_window)
        × (length frame ≤ 512)
        × ((length frame ≡ 0)
            ⊎ ((link_relay toy_crypto ear ts true frame (negsuc 89) (pos 7)).sent
                ≡ take (link_hdr + link_max_frame + link_mac) datagram ∷ [])))
link_recv-Genuine_example =
    link_recv-Genuine toy_crypto sender ear 1_700_000_030 512 true datagram frame (negsuc 89)
      (pos 7) refl refl refl datagram-IsByte accepted

-- A datagram with an empty frame, which link_relay does not send, is taken.
abbrev empty_datagram : List ℕ
empty_datagram = link_datagram toy_crypto (replicate 32 0) 1_700_000_000 (negsuc 89) (pos 7) []

empty_taken :
    ((link_recv toy_crypto sender 1_700_000_030 512 (arrived empty_datagram)).1
      ≡ one_frame [] (negsuc 89) (pos 7))
    × (link_relay toy_crypto ear 1_700_000_000 true [] (negsuc 89) (pos 7) ≡ ear)
unfolding link_recv link_accept wr_u32le wr_u16le rd_u16le rd_u32le to_word of_word hmac_sha256
    hmac_key checksum bytes_eq link_relay
empty_taken = (refl, refl)
