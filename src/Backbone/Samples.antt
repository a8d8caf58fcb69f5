-- ===== src/Backbone/Samples.antt =====
-- A concrete client, its hub and the world around them, for the tests of src/backbone.c.
use meshcore_repeater.Common.{ℕ, ◌+◌, ap, true, List, [], ◌∷◌, ◌++◌, replicate, none, arith}
use meshcore_repeater.Common.Text.{codes}
use meshcore_repeater.Crypto.Tests.{toy_crypto, checksum}
use meshcore_repeater.Identity.{Identity}
use meshcore_repeater.Mesh.Samples.{sample_env, sample_node}
use meshcore_repeater.Backbone.Codec.{Welcome}
use meshcore_repeater.Backbone.State.{Client, Net, Settings, bb_hello_sent, bb_up, lookup_done}
use meshcore_repeater.Backbone.Service.{blank_client}
use meshcore_repeater.Backbone.Agree.{Agrees}

-- A toy key exchange: a point is its scalar, the secret depends on the sum of the two checksums.
abbrev pub toy_secret : List ℕ → List ℕ → List ℕ
toy_secret a p = replicate 32 (1 + (checksum a + checksum p))

abbrev pub sample_net : Net
sample_net = record {
  env = sample_env;
  scalarmult = toy_secret;
  scalarmult_base = λ a. a;
  random_32 = replicate 32 5;
  send_ok = λ d. true;
  lookup_started = true;
  lookup = lookup_done;
  connected = true;
  inbox = [];
  status_text = λ bb now. none;
}

pub sample_net-Agrees : Agrees sample_net
sample_net-Agrees a b ha hb = ap (λ n. replicate 32 (1 + n)) (omega arith)

abbrev pub sample_settings : Settings
sample_settings = record {
  enable = true;
  have_hub_key = true;
  hub_key = 4 ∷ replicate 31 6;
  host = codes "hub.example";
  port = 4405;
  observe = true;
  bridge = true;
  rate = 30;
}

abbrev pub sample_hub : Identity
sample_hub = record {
  public_key = 4 ∷ replicate 31 6;
  secret_key = replicate 32 2 ++ (4 ∷ replicate 31 6);
  has_secret = true;
}

abbrev pub waiting_client : Client
waiting_client = record (blank_client sample_node sample_settings) {
  hub_pub = sample_hub.public_key;
  roles_asked = 3;
  state = bb_hello_sent;
  fd = true;
  eph_sec = replicate 32 5;
  hello = 77 ∷ 66 ∷ 1 ∷ 1 ∷ [];
  hello_hash = toy_crypto.sha256 (77 ∷ 66 ∷ 1 ∷ 1 ∷ []);
}

abbrev pub up_client : Client
up_client = record waiting_client {
  state = bb_up;
  sid = 9;
  roles = 3;
  k_up = replicate 32 1;
  k_down = replicate 32 2;
  keepalive_s = 25;
  status_s = 60;
  neighbours_s = 300;
}

abbrev pub sample_welcome : Welcome
sample_welcome = record {
  roles = 3;
  ts = 1_700_000_000;
  sid = 9;
  eph_pub = replicate 32 8;
  keepalive_s = 25;
  status_s = 60;
  neighbours_s = 300;
}

-- A session datagram's bytes, a pong that anyone may relay.
abbrev pub sample_page : List ℕ
sample_page = 1 ∷ 3 ∷ b'#' ∷ b'a' ∷ b'b' ∷ []
