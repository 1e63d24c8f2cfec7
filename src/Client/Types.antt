-- ===== src/Client/Types.antt =====
-- The configuration and the peers of src/wg_core.c. CIDRs and interface addresses are as in
-- src/wg_session.c (Session/Types.antt).
use polar_wg_app.Common.{ℕ, Bool, false, List, [], replicate, ℤ, pos}
use polar_wg_app.Session.Types.{Cidr, IfaceAddr}

-- `WG_MAX_ALLOWED_CIDRS`, `WG_MAX_IFACE_ADDRS`, `WG_MAX_PEERS`, `WG_MAX_LINE` and `WG_BUF_MAX`.
abbrev pub wg_max_allowed_cidrs : ℕ
wg_max_allowed_cidrs = 16

abbrev pub wg_max_iface_addrs : ℕ
wg_max_iface_addrs = 4

abbrev pub wg_max_peers : ℕ
wg_max_peers = 64

abbrev pub wg_max_line : ℕ
wg_max_line = 512

abbrev pub wg_buf_max : ℕ
wg_buf_max = 16384

-- `struct peer_state`, without its noise and cookie state, and its endpoint and socket (Client/Send.antt).
pub record PeerState : Type 0 where
  pub pubkey : List ℕ
  pub has_endpoint : Bool
  pub endpoint_host : List ℕ
  pub endpoint_port : ℕ
  pub allowed : List Cidr
  pub pk_sec : ℤ
  pub hs_pending : Bool
  pub hs_sent_at : ℕ
  pub hs_local_idx : ℕ
  pub hs_attempts : ℕ
  pub keypair_birth : ℕ
  pub last_authd_tx : ℕ
  pub rekey_jitter_sec : ℕ
  pub tx_pkts : ℕ
  pub tx_bytes : ℕ
  pub rx_pkts : ℕ
  pub rx_bytes : ℕ
  pub rx_dropped_aips : ℕ

abbrev pub zero_peer_state : PeerState
zero_peer_state = record {
  pubkey = replicate 32 0;
  has_endpoint = false;
  endpoint_host = [];
  endpoint_port = 0;
  allowed = [];
  pk_sec = pos 0;
  hs_pending = false;
  hs_sent_at = 0;
  hs_local_idx = 0;
  hs_attempts = 0;
  keypair_birth = 0;
  last_authd_tx = 0;
  rekey_jitter_sec = 0;
  tx_pkts = 0;
  tx_bytes = 0;
  rx_pkts = 0;
  rx_bytes = 0;
  rx_dropped_aips = 0;
}

-- `struct client_config`
pub record ClientConfig : Type 0 where
  pub private_key : List ℕ
  pub listen_port : ℕ
  pub mtu : ℕ
  pub if_addrs : List IfaceAddr
  pub peers : List PeerState

abbrev pub zero_config : ClientConfig
zero_config = record {
  private_key = replicate 32 0;
  listen_port = 0;
  mtu = 0;
  if_addrs = [];
  peers = [];
}
