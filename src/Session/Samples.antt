-- ===== src/Session/Samples.antt =====
-- A small host, network and session for the tests of src/wg_session.c. The host's state counts the
-- references and allocations that are out.
use polar_wg_app.Common.{
  ℕ, ◌+◌, ◌-◌, refl, true, none, some, List, [], ◌∷◌, ◌++◌, length, take, replicate,
}
use polar_wg_app.Common.Texts.{codes}
use polar_wg_app.Allowedips
use polar_wg_app.Allowedips.{Node, null, node, Trie}
use polar_wg_app.Session.Types.{inet, Cidr, Peer, Session, zero_peer}
use polar_wg_app.Session.Host.{Host, Net, Initiation, Response}
use polar_wg_app.Session.Monad.{St}
use polar_wg_app.Session.Balance.{Account}

abbrev pub initiation : Initiation
initiation = record { s_idx = 5; ue = replicate 32 1; es = replicate 48 2; ets = replicate 28 3 }

abbrev pub response : Response
response = record { s_idx = 6; r_idx = 5; ue = replicate 32 1; en = replicate 16 2 }

-- Every call succeeds, there is one keypair, 7, and one remote, 3, of the peer in slot 0. Encryption
-- appends a tag of 16 bytes.
abbrev pub lab : Host
lab = record {
  W = ℕ;
  time = λ w. (1000, w);
  malloc = λ n w. (some 64, w + 1);
  free = λ a w. w - 1;
  calloc_session = λ w. (some 32, w + 1);
  calloc_node = λ w. (true, w);
  getaddrinfo = λ h p w. (some (replicate 16 1), w);
  crypto_init = λ w. (true, w);
  crypto_deinit = λ w. w;
  local_alloc = λ w. (some 2, w + 1);
  local_private = λ l k w. w;
  local_keys = λ l w. (some (replicate 32 4), w);
  local_put = λ l w. w - 1;
  remote_alloc = λ l i k w. (some 3, w + 1);
  remote_enable = λ r w. (true, w);
  remote_disable = λ r w. w;
  remote_put = λ r w. w - 1;
  remote_arg = λ r w. some 0;
  remote_set_psk = λ r k w. w;
  create_initiation = λ r w. (some initiation, w);
  consume_initiation = λ l m w. (some (some 3), w + 1);
  create_response = λ r w. (some response, w);
  consume_response = λ l m w. (some (some 3), w + 1);
  keypair_current = λ r w. (some 7, w + 1);
  keypair_lookup = λ l i w. (some 7, w + 1);
  keypair_remote = λ k w. (some 3, w + 1);
  keypair_nonce_next = λ k w. (some 1, w);
  keypair_encrypt = λ k n bs w. (some (9, bs ++ replicate 16 0), w);
  keypair_decrypt = λ k n bs w. (some (take (length bs - 16) bs), w);
  keypair_received_with = λ k w. w;
  keypair_put = λ k w. w - 1;
  maker_init = λ i k w. w;
  maker_free = λ i w. w;
  maker_mac = λ i bs w. (replicate 32 8, w);
  maker_consume = λ i n e w. (true, w);
  checker_init = λ w. w;
  checker_update = λ k w. w;
  checker_free = λ w. w;
  validate_macs = λ m bs a w. (true, w);
}

abbrev pub lab_account : Account lab
lab_account = record {
  held = λ w. w;
  malloc = λ n w. refl;
  free = λ a w. refl;
  time = λ w. refl;
  current = λ r w. refl;
  lookup = λ l i w. refl;
  keypair_put = λ k w. refl;
  remote = λ k w. refl;
  remote_put = λ r w. refl;
  nonce = λ k w. refl;
  encrypt = λ k n bs w. refl;
  decrypt = λ k n bs w. refl;
  received = λ k w. refl;
  validate = λ m bs a w. refl;
  mac = λ i bs w. refl;
  respond = λ r w. refl;
  consume_init = λ l m w. refl;
  consume_resp = λ l m w. refl;
}

-- Every address is 10.0.0.0, and every endpoint is of IPv4.
abbrev pub net : Net
net = record {
  inet_pton = λ f h. some (10 ∷ 0 ∷ 0 ∷ 0 ∷ []);
  inet_ntop = λ f a. some (codes "10.0.0.0");
  ss_family = λ ss. some inet;
  sin_addr = λ ss. 10 ∷ 0 ∷ 0 ∷ 0 ∷ [];
  sin_port = λ ss. 51820;
  sin6_addr = λ ss. replicate 16 0;
  sin6_port = λ ss. 51820;
}

abbrev pub cidr : Cidr
cidr = record { family = inet; addr = replicate 16 0; prefix_len = 2 }

-- A peer whose handshake is under way, with a keypair of long ago.
abbrev pub peer : Peer
peer = record zero_peer {
  active = true;
  pubkey = replicate 32 0x11;
  has_endpoint = true;
  endpoint_len = 16;
  allowed = cidr ∷ [];
  remote = some 3;
  hs_pending = true;
  hs_sent_at = 900;
  hs_local_idx = 5;
  hs_attempts = 18;
  keypair_birth = 100;
}

-- The addresses that start with the bits 00 belong to slot 0.
abbrev pub trie : Trie
trie = record {
  root = node none (node none (node (some 0) null null) null) null;
  max_bits = 32;
  entries = 1;
}

abbrev pub sess : Session
sess = record {
  private_key = replicate 32 1;
  listen_port = 51820;
  if_addrs = [];
  peers = peer ∷ [];
  noise_local = some 2;
  checker_inited = true;
  aips_v4 = trie;
  aips_v6 = Allowedips.init 128;
  aips_inited = true;
  has_send_udp = true;
  has_deliver_ip = true;
}

abbrev pub start : St ℕ
start = record { session = sess; world = 4; out = [] }

-- An IPv4 packet of 20 bytes from 10.0.0.2 to 10.0.0.1.
abbrev pub inner : List ℕ
inner = 0x45 ∷ 0 ∷ 0 ∷ 20 ∷ 0 ∷ 0 ∷ 0 ∷ 0 ∷ 64 ∷ 17 ∷ 0 ∷ 0 ∷ 10 ∷ 0 ∷ 0 ∷ 2 ∷ 10 ∷ 0 ∷ 0 ∷ 1 ∷ []

-- It, padded and encrypted, in a data packet.
abbrev pub data_packet : List ℕ
data_packet =
    4 ∷ 0 ∷ 0 ∷ 0 ∷ 5 ∷ 0 ∷ 0 ∷ 0 ∷ 1 ∷ 0 ∷ 0 ∷ 0 ∷ 0 ∷ 0 ∷ 0 ∷ 0 ∷ (inner ++ replicate 28 0)

abbrev pub addr : List ℕ
addr = replicate 16 9
