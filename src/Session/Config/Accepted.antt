-- ===== src/Session/Config/Accepted.antt =====
-- What a configuration that `parse_config_text` of src/wg_session.c accepts is like.
use polar_wg_app.Common.{ℕ, ◌≤◌, ◌≡◌, List, length, All}
use polar_wg_app.Session.Types.{Cidr, IfaceAddr, Peer, Session, max_allowed_cidrs, max_iface_addrs}
use polar_wg_app.Session.Bounds.{CidrFits, SessionFits, EndpointFits}
use polar_wg_app.Session.Config.{Parser}
use polar_wg_app.Session.Host.{Net}

-- Room for the CIDRs, each of them fit.
record CidrsFit (cs : List Cidr) : Type 0 where
  room : length cs ≤ max_allowed_cidrs
  cidrs : All CidrFits cs

abbrev pub Hosted : Peer → Type 0
Hosted p = EndpointFits p.endpoint_host p.endpoint_port

-- The session within its bounds, and the endpoints of its peers.
abbrev pub ConfigFits : Session → Type 0
ConfigFits s = SessionFits s × All Hosted s.peers

module _ (N : Net) where
  abbrev IfacesFit : List IfaceAddr → Type 0
  IfacesFit xs = length xs ≤ max_iface_addrs

  abbrev OfLength : (Peer → Type 0) → ℕ → List Peer → Type 0
  OfLength P n ps = (length ps ≡ n) × All P ps

  -- What holds of the parser's state between two lines.
  abbrev Sound : Parser → Type 0
  Sound st = ConfigFits st.sess
