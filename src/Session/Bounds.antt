-- ===== src/Session/Bounds.antt =====
-- The array bounds and value ranges of the data in src/wg_session.c.
use polar_wg_app.Common.{
  ℕ, ◌+◌, ◌^◌, ◌<◌, ◌≤◌, ◌≡◌, some, List, length, arith, All, Gives, length-append, length-take,
  length-replicate,
}
use polar_wg_app.Session.Types.{
  Cidr, Peer, Session, zero_peer, max_peers, max_allowed_cidrs, max_iface_addrs,
}
use polar_wg_app.Session.Values.{max_prefix, parse_addr, parse_cidr, split_endpoint}
use polar_wg_app.Session.Host.{Net}

-- A prefix length that fits the family, and an address that fills `addr`.
pub record CidrFits (c : Cidr) : Type 0 where
  pub prefix : c.prefix_len ≤ max_prefix c.family
  pub filled : length c.addr ≡ 16

-- No more CIDRs than the array holds, each of them fit.
pub record PeerFits (p : Peer) : Type 0 where
  pub room : length p.allowed ≤ max_allowed_cidrs
  pub cidrs : All CidrFits p.allowed

-- A host that fits `endpoint_host` with its NUL, and a port that fits `endpoint_port`.
abbrev pub EndpointFits : List ℕ → ℕ → Type 0
EndpointFits host port = (length host + 1 ≤ 128) × (port < 2 ^ 16)

-- No more peers than the array holds, each of them fit.
pub record PeersFit (ps : List Peer) : Type 0 where
  pub room : length ps ≤ max_peers
  pub peers : All PeerFits ps

-- No more peers and interface addresses than the arrays hold, and a port of 16 bits.
pub record SessionFits (s : Session) : Type 0 where
  pub peers : PeersFit s.peers
  pub ifaces : length s.if_addrs ≤ max_iface_addrs
  pub port : s.listen_port ≤ 65535

-- What `split_endpoint` accepts fits the fields that it is stored in.
pub split_endpoint-EndpointFits :
    (s : List ℕ) → Gives (λ (e : List ℕ × ℕ). EndpointFits e.0 e.1) (split_endpoint s)
unfolding split_endpoint
split_endpoint-EndpointFits s = ground arith

pub zero_peer-PeerFits : PeerFits zero_peer
unfolding All
zero_peer-PeerFits = record { room = omega arith; cidrs = tt }

module _ (N : Net) where
  -- `parse_cidr` accepts no prefix length beyond 32 or 128, and fills the address.
  pub parse_cidr-CidrFits : (s : List ℕ) {c : Cidr} → parse_cidr N s ≡ some c → CidrFits c
  unfolding parse_cidr parse_addr
  parse_cidr-CidrFits s e = record {
    prefix = ground arith;
    filled = grind (arith, length-take, length-append, length-replicate);
  }
