-- ===== src/Backbone/Tests/Session.antt =====
-- Concrete runs of the client of src/backbone.c.
use meshcore_repeater.Common.{
  ℕ, ◌+◌, ◌-◌, ◌*◌, ◌≡◌, ◌⊎◌, ◌≤◌, refl, true, false, List, [], ◌∷◌, ◌++◌, Option, none, some,
  replicate, length, Result, ok, err, arith, ◌&&◌, ◌==◌,
}
use meshcore_repeater.Crypto.Tests.{toy_crypto, toy_crypto-HashLaws, toy_crypto-SignLaws, checksum}
use meshcore_repeater.Packet.{
  Packet, is_route_direct, path_hash_count, has_transport_codes, valid_path_len, path_byte_len,
}
use meshcore_repeater.Util.Endian.{wr_u32le, wr_u16le}
use meshcore_repeater.Identity.{identity_sign}
use meshcore_repeater.Packet.Codec.{parse, parse_path, parse_body, zero_packet}
use meshcore_repeater.Mesh.Samples.{sample_node, advert_frame}
use meshcore_repeater.Backbone.Codec.{
  bb_max_dgram, bb_seal, bb_open, sign_ctx, bb_build_welcome, bb_derive_keys,
}
use meshcore_repeater.Backbone.Codec.Sealed.{opened}
use meshcore_repeater.Backbone.Codec.Handshake.{InRange}
use meshcore_repeater.Backbone.State.{Client, Net, retry_later}
use meshcore_repeater.Backbone.Bridge.{
  backbone_offer, bb_t_bridge, bridge_body, bucket_cap, bucket_rate,
}
use meshcore_repeater.Backbone.Inbound.{bb_t_frame, on_session}
use meshcore_repeater.Backbone.Handshake.{on_welcome}
use meshcore_repeater.Backbone.Service.{backbone_init, backbone_service}
use meshcore_repeater.Backbone.RateLimit.Runs.{start, polled, injected_bounds}
use meshcore_repeater.Backbone.Invariant.{ClientWf}
use meshcore_repeater.Backbone.Invariant.Service.{booted, serviced, Reached-Wf}
use meshcore_repeater.Backbone.Authentic.{Fate, on_session-Authentic, backbone_offer-Sent}
use meshcore_repeater.Backbone.Agree.{Established, on_welcome-Established}
use meshcore_repeater.Backbone.Retry.{retry_later_bounds}
use meshcore_repeater.Backbone.Samples.{
  sample_net, sample_net-Agrees, sample_settings, sample_hub, waiting_client, up_client,
  sample_welcome,
}

-- A FRAME body: flags, length, hash, frame.
abbrev frame_body : List ℕ
frame_body = 0 ∷ length advert_frame ∷ (replicate 8 0 ++ advert_frame)

abbrev bytes_of : Option (List ℕ) → List ℕ
bytes_of none = []
bytes_of (some d) = d

-- The hub has sent one FRAME.
abbrev hub_net : Net
hub_net = record sample_net {
  inbox =
      bytes_of (bb_seal toy_crypto bb_max_dgram bb_t_frame 9 1 frame_body up_client.k_down) ∷ [];
}

abbrev bridged : Client
bridged = backbone_service hub_net up_client 2000

injected_bounds_example :
    bridged.injected * 60000 ≤ 0 * 60000 + bucket_cap 30 + (2000 - 1000) * bucket_rate 30
injected_bounds_example =
    injected_bounds 1000 2000 up_client bridged refl (omega arith)
      (polled hub_net 2000 (start 1000 up_client) (omega arith))

abbrev first_call : Client
first_call = backbone_service sample_net (backbone_init sample_node sample_settings 100).1 200

Reached-Wf_example : ClientWf first_call
Reached-Wf_example =
    Reached-Wf sample_node sample_settings first_call
      (serviced sample_net 200 (booted sample_node sample_settings 100))

on_session-Authentic_example :
    Fate sample_net up_client 2000 frame_body (on_session sample_net up_client 2000 frame_body)
on_session-Authentic_example = on_session-Authentic sample_net up_client 2000 frame_body

abbrev packet_of : Result Packet → Packet
packet_of (ok p) = p
packet_of (err n) = zero_packet

abbrev advert : Packet
advert = packet_of (parse advert_frame)

parsed : parse advert_frame ≡ ok advert
unfolding parse has_transport_codes parse_path valid_path_len parse_body path_byte_len
parsed = refl

routed : (is_route_direct advert && path_hash_count advert == 0) ≡ false
unfolding is_route_direct parse has_transport_codes parse_path valid_path_len parse_body
    path_byte_len
routed = refl

backbone_offer-Sent_example :
    (d : List ℕ) × ((backbone_offer sample_net up_client advert_frame true).sent ≡ d ∷ [])
    × ((backbone_offer sample_net up_client advert_frame true).offered ≡ 1)
    × (bb_open toy_crypto d (replicate 32 1)
        ≡ ok (opened bb_t_bridge 9 1 (bridge_body sample_net advert advert_frame true)))
backbone_offer-Sent_example =
    backbone_offer-Sent sample_net up_client advert_frame true advert toy_crypto-HashLaws refl refl
      refl (omega arith) (omega arith) refl parsed routed

abbrev welcome : List ℕ
welcome = bytes_of (
    bb_build_welcome toy_crypto 1200 sample_hub sample_welcome
      (toy_crypto.sha256 waiting_client.hello))

built :
    bb_build_welcome toy_crypto 1200 sample_hub sample_welcome
      (toy_crypto.sha256 waiting_client.hello)
    ≡ some welcome
unfolding bb_build_welcome wr_u32le wr_u16le sign_ctx identity_sign
built = refl

abbrev pair_of : Option (List ℕ × List ℕ) → List ℕ × List ℕ
pair_of none = ([], [])
pair_of (some ks) = ks

abbrev keys : List ℕ × List ℕ
keys = pair_of (
    bb_derive_keys toy_crypto (sample_net.scalarmult (replicate 32 8) (replicate 32 5))
      waiting_client.hello welcome)

derived :
    bb_derive_keys toy_crypto
      (sample_net.scalarmult (replicate 32 8) (replicate 32 5))
      waiting_client.hello
      welcome
    ≡ some keys
unfolding bb_derive_keys checksum
derived = refl

welcome-InRange : InRange sample_welcome
welcome-InRange = record {
  ts_in = omega arith;
  sid_in = omega arith;
  eph_in = refl;
  keepalive_in = omega arith;
  status_in = omega arith;
  neighbours_in = omega arith;
}

on_welcome-Established_example :
    Established (on_welcome sample_net waiting_client 3000 welcome) sample_welcome keys
on_welcome-Established_example =
    on_welcome-Established sample_net waiting_client 3000 1200 sample_hub (replicate 32 8) welcome
      sample_welcome keys toy_crypto-HashLaws toy_crypto-SignLaws sample_net-Agrees refl refl
      (refl, refl, (refl, refl), refl) welcome-InRange refl refl refl refl refl refl built derived

retry_later_bounds_example :
    (3000 + 5 * 1000 ≤ (retry_later waiting_client 3000).next_try_ms)
    × ((retry_later waiting_client 3000).next_try_ms ≤ 3000 + 5 * 1250)
    × (((5 * 2 ≤ 300) × ((retry_later waiting_client 3000).backoff_s ≡ 5 * 2))
        ⊎ ((300 ≤ 5 * 2) × ((retry_later waiting_client 3000).backoff_s ≡ 300)))
retry_later_bounds_example = retry_later_bounds waiting_client 3000 (omega arith, omega arith)
