-- ===== src/Session/Types.antt =====
-- The data of src/wg_session.c: `struct wgs_allowed_cidr`, `struct wgs_iface_addr`,
-- `struct wgs_peer` and `struct wg_session`. A pointer into `peers` is the slot's index, an array
-- with its count (`allowed`, `if_addrs`, `peers`) is the list of the entries in use, and NULL is
-- `none`. What a `struct cookie_maker` or `struct cookie_checker` holds is known to wg_cookie.c
-- alone, and is part of the host's state (Session/Host.antt).
use polar_wg_app.Common.{
  ℕ, ◌+◌, ◌*◌, ◌^◌, Bool, false, Option, none, List, [], ◌∷◌, ◌++◌, ℤ, pos, replicate, get_or, take,
  drop, ◌/◌, ◌%◌,
}
use polar_wg_app.Allowedips.{Trie}

-- AF_INET and AF_INET6
pub data Family : Type 0 where
  inet inet6 : Family

abbrev pub max_allowed_cidrs : ℕ
max_allowed_cidrs = 16

abbrev pub max_iface_addrs : ℕ
max_iface_addrs = 4

abbrev pub max_peers : ℕ
max_peers = 8

abbrev pub rekey_timeout : ℕ
rekey_timeout = 5

abbrev pub rekey_after_time : ℕ
rekey_after_time = 120

abbrev pub max_handshake_attempts : ℕ
max_handshake_attempts = 18

pub record Cidr : Type 0 where
  pub family : Family
  pub addr : List ℕ
  pub prefix_len : ℕ

pub record IfaceAddr : Type 0 where
  pub family : Family
  pub addr_str : List ℕ
  pub prefix_len : ℕ

-- `endpoint` holds the bytes of the `struct sockaddr_storage`, of which `endpoint_len` count.
pub record Peer : Type 0 where
  pub active : Bool
  pub pubkey : List ℕ
  pub psk : List ℕ
  pub has_psk : Bool
  pub has_endpoint : Bool
  pub endpoint_host : List ℕ
  pub endpoint_port : ℕ
  pub endpoint : List ℕ
  pub endpoint_len : ℕ
  pub allowed : List Cidr
  pub pk_sec : ℤ
  pub remote : Option ℕ
  pub cookie_inited : Bool
  pub hs_pending : Bool
  pub hs_sent_at : ℕ
  pub hs_local_idx : ℕ
  pub hs_attempts : ℕ
  pub keypair_birth : ℕ
  pub last_authd_tx : ℕ
  pub tx_pkts : ℕ
  pub tx_bytes : ℕ
  pub rx_pkts : ℕ
  pub rx_bytes : ℕ
  pub rx_dropped_aips : ℕ

-- A slot full of zeros, as `calloc` and `memset` leave it.
abbrev pub zero_peer : Peer
zero_peer = record {
  active = false;
  pubkey = replicate 32 0;
  psk = replicate 32 0;
  has_psk = false;
  has_endpoint = false;
  endpoint_host = [];
  endpoint_port = 0;
  endpoint = replicate 128 0;
  endpoint_len = 0;
  allowed = [];
  pk_sec = pos 0;
  remote = none;
  cookie_inited = false;
  hs_pending = false;
  hs_sent_at = 0;
  hs_local_idx = 0;
  hs_attempts = 0;
  keypair_birth = 0;
  last_authd_tx = 0;
  tx_pkts = 0;
  tx_bytes = 0;
  rx_pkts = 0;
  rx_bytes = 0;
  rx_dropped_aips = 0;
}

-- `has_send_udp` and `has_deliver_ip` say that the callback is not NULL.
pub record Session : Type 0 where
  pub private_key : List ℕ
  pub listen_port : ℕ
  pub if_addrs : List IfaceAddr
  pub peers : List Peer
  pub noise_local : Option ℕ
  pub checker_inited : Bool
  pub aips_v4 : Trie
  pub aips_v6 : Trie
  pub aips_inited : Bool
  pub has_send_udp : Bool
  pub has_deliver_ip : Bool

-- A `uint64_t` sum.
abbrev pub add64 : ℕ → ℕ → ℕ
add64 a b = (a + b) % 2 ^ 64

-- Little-endian words at an offset of a packet.
abbrev pub le32 : List ℕ → ℕ → ℕ
le32 bs i =
    get_or bs i 0
    + 256 * (get_or bs (i + 1) 0 + 256 * (get_or bs (i + 2) 0 + 256 * get_or bs (i + 3) 0))

abbrev pub le64 : List ℕ → ℕ → ℕ
le64 bs i = le32 bs i + 2 ^ 32 * le32 bs (i + 4)

-- The type of a packet, in its first word.
unfoldable pub packet_type : List ℕ → ℕ
packet_type bs = le32 bs 0

abbrev pub put_le32 : ℕ → List ℕ
put_le32 n = n % 256 ∷ n / 2 ^ 8 % 256 ∷ n / 2 ^ 16 % 256 ∷ n / 2 ^ 24 % 256 ∷ []

abbrev pub put_le64 : ℕ → List ℕ
put_le64 n = put_le32 (n % 2 ^ 32) ++ put_le32 (n / 2 ^ 32)

-- `memcpy` of `n` bytes over the front of an array.
abbrev pub memcpy : List ℕ → List ℕ → ℕ → List ℕ
memcpy dst src n = take n src ++ drop n dst
