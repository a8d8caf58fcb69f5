-- ===== src/Lib.antt =====
-- The repeater daemon of MeshCore for amateur radio: a model of its core logic.
--
-- The program is a daemon in C (src/*.c). A radio driver hands raw frames to the mesh core, the core
-- decides what each frame may do, and a service loop sends what the core has queued. A backbone hub
-- carries the same frames between sites over UDP; a hotspot is a personal node that bridges one
-- operator to the mesh and otherwise stays silent.
--
-- Which file models which part:
--   Common         lists, options, Boolean tests, C strings and signed integers over the native
--                  natural numbers. A byte is a number, an array a list with its C length.
--   Util           src/util.c: Endian the little-endian words, Hex and Base64 the text codings.
--   Packet         src/packet.h and src/packet.c. Packet is mc_packet_t with its two arrays in full;
--                  Codec has parse (pkt_parse), serialize (pkt_serialize) and calc_hash
--                  (pkt_calc_hash); Body, RoundTrip and Transfer hold the proofs.
--   Crypto         src/hmac_sha256.c over the vendored primitives. SHA-256, AES-128 and TweetNaCl are
--                  the fields of the record Crypto; HashLaws, CipherLaws and SignLaws are their
--                  documented behaviour, and a theorem takes those that it rests on. A signature is
--                  good only for a secret key that carries its own public key.
--   Identity       src/identity.c: signing, verifying, the path hash; File the key file, as the list of
--                  its bytes.
--   Config         src/config.h and src/config.c: the settings that the core reads, the name
--                  lists (Lists), the tables of channels and rooms and the hub's policy on top of
--                  them (Rooms); Merge has the proofs.
--   Advert         src/advert.c: signed advertisements; Signed has the proof.
--   Mbox           src/mbox.c: the mailbox of mentions.
--   Mesh           src/mesh.h and src/mesh.c, one module per part of the core:
--     State        mc_mesh_t as the record Mesh, and Env, what a call reads from outside.
--     Random       the xorshift generator of src/hal_linux.c and the delays drawn from it.
--     Seen         the ring of 160 packet hashes (seen_check_and_add); Memory has its proofs.
--     Neighbors    the table of nodes heard (neighbor_update).
--     Queue        mesh_rf_silent, enqueue, pick_due; Order and Enqueue have the proofs.
--     Policy       classify_forward and the tests it rests on; Scan and Allowed have the
--                  proofs.
--     Hotspot      hotspot_wake, hotspot_decide and the affinity hashes.
--     Channel      channel_decrypt, channel_build_txt and the reading of a text; Agree has the
--                  proof.
--     Originate    mesh_send_advert and the queueing of own packets.
--     Commands, Replies, Mailbox, Probe, Group
--                  the commands in group texts and the answers: process_public_grp and what it calls.
--                  Mailbox.Gates and Mailbox.Rate have the proofs on the rate limit.
--     Receive      mesh_on_recv and mesh_on_backbone; Hops, Relay, Public and Refused have the proofs.
--     Transmit     mesh_service_tx; Service has the proofs.
--     Setup        what no operation of the core changes, for the proofs.
--     Samples      concrete nodes and frames for the tests.
--   Backbone       src/backbone.h and src/backbone.c:
--     Codec        the datagrams (bb_build_*, bb_check_*, bb_seal, bb_open, bb_derive_keys); Sealed and
--                  Handshake have the proofs.
--     Replay       bb_replay_check; Once has the proofs.
--     Policy       policy_add and policy_walk; Walk has the proofs.
--     State        mc_backbone as the record Client, and Net, what a call reads from outside;
--                  send_session, forget_session, retry_later.
--     Handshake    send_hello to on_welcome, and on_reset.
--     Report       the JSON reports. Bridge: on_frame, backbone_observe and backbone_offer.
--     Inbound      on_policy, on_session and read_datagrams. Service: backbone_service, init, close.
--     Quiet, Life, Invariant, RateLimit, Authentic, Agree, Retry
--                  the proofs on the client (RateLimit.Meter: what leaves the token bucket alone,
--                  RateLimit.Runs: the rate limit over whole runs).
--   Link           src/link.h and src/link.c: frames of a receive-only node in UDP datagrams; Relayed,
--                  Written and Genuine have the proofs.
--   Aprsis         src/aprsis.h and src/aprsis.c: Callsign the passcode and the test on calls, Gate the
--                  stations' positions, Session the connection; Bounds and Reached have the proofs.
--
-- State is passed explicitly: an operation takes a Mesh and returns the new one, with the result that
-- the C function returns. What the core hands to other parts (a frame to the radio, an offer to the
-- hub, a position to the APRS gate) is appended to the field outputs, newest first. A C status is an
-- Option or a Result. Arithmetic that can wrap around in C keeps its `% 2 ^ w`; times in milliseconds
-- are uint64_t in C and are unbounded here, as are the counters. Loops run over a
-- list or a count; policy_walk, jb_str and the printing of decimals take the length of their text, or
-- the number of digits, as fuel. The clocks stand still during one call.
--
-- The client of the backbone shares its settings, identity and random state with the mesh: the record
-- Client holds the mesh, which is always there. Its token bucket counts in 1/60000 of a frame, which
-- is exact, where the source has a double. The name lookup, the socket, X25519 and the random bytes
-- are fields of Net, and so is the text of the status report, which prints floating-point settings.
-- The file that keeps the policy across restarts is left out.
--
-- The client of APRS-IS has its sockets' answers in Io, and in Geo what is computed in floating point: the
-- distance of two positions and the text of one.
--
-- Not modelled: the compressed positions of src/aprs.c, in floating point; the live monitor, the command
-- line, the log and main, which only watch the core or are input and output; the radio driver
-- (src/sx126x.c), whose answers are the record Radio; reading and writing the configuration file; the
-- vendored cryptography; tools/ and web/.
pub mod Common
pub mod Util
pub mod Packet
pub mod Crypto
pub mod Identity
pub mod Config
pub mod Advert
pub mod Mbox
pub mod Mesh
pub mod Backbone
pub mod Link
pub mod Aprsis
