-- ===== src/Client/Config/Accepted.antt =====
-- What a configuration that `load_config` of src/wg_core.c accepts is like.
use polar_wg_app.Common.{ℕ, ◌-◌, ◌≤◌, ◌<◌, ◌≡◌, true, not, ◌||◌, List, ◌==◌, length, All, ◌⊎◌}
use polar_wg_app.Session.Types.{Cidr, IfaceAddr}
use polar_wg_app.Session.Values.{max_prefix}
use polar_wg_app.Session.Bounds.{CidrFits, EndpointFits}
use polar_wg_app.Session.Host.{Net}
use polar_wg_app.Client.Types.{
  wg_max_allowed_cidrs, wg_max_iface_addrs, wg_max_peers, wg_buf_max, PeerState, ClientConfig,
}
use polar_wg_app.Client.Config.{Loader, has_key, any_endpoint}

-- Room for the CIDRs of a peer, each of them fit.
record AllowedFit (cs : List Cidr) : Type 0 where
  room : length cs ≤ wg_max_allowed_cidrs
  cidrs : All CidrFits cs

abbrev IfaceFits : IfaceAddr → Type 0
IfaceFits a = a.prefix_len ≤ max_prefix a.family

record IfacesFit (xs : List IfaceAddr) : Type 0 where
  room : length xs ≤ wg_max_iface_addrs
  addrs : All IfaceFits xs

abbrev PeerStateFits : PeerState → Type 0
PeerStateFits p = AllowedFit p.allowed × EndpointFits p.endpoint_host p.endpoint_port

-- The arrays have room for what they hold, the ports have 16 bits, and the MTU is the default or within
-- its range.
pub record ConfigFits (c : ClientConfig) : Type 0 where
  room : length c.peers ≤ wg_max_peers
  peers : All PeerStateFits c.peers
  ifaces : IfacesFit c.if_addrs
  port : c.listen_port ≤ 65535
  mtu : (c.mtu ≡ 0) ⊎ ((576 ≤ c.mtu) × (c.mtu ≤ wg_buf_max - 256))

-- At least one peer, none with a key of zeros, and an endpoint or a port.
abbrev pub IsAccepted : ClientConfig → Type 0
IsAccepted c =
    ConfigFits c
    × (0 < length c.peers)
    × (has_key c.peers ≡ true)
    × ((any_endpoint c.peers || not (c.listen_port == 0)) ≡ true)

module _ (N : Net) where
  abbrev Kept : ℕ → List PeerState → Type 0
  Kept n ps = (length ps ≡ n) × All PeerStateFits ps

  abbrev Sound : Loader → Type 0
  Sound st = ConfigFits st.cfg
