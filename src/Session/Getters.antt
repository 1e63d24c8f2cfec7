-- ===== src/Session/Getters.antt =====
-- The read-only accessors of src/wg_session.c. `none` is the return value -1, every output pointer
-- is given, and an index is not negative: a negative one is refused as one out of range is.
pub mod Find
use polar_wg_app.Common.{
  ℕ, ◌≤◌, ◌<◌, ◌≡◌, Bool, true, false, ◌&&◌, Option, none, some, List, [], ◌==◌, if◌then◌else◌,
  length, take, get_elem?, arith, ℤ, pos, list_eq, leb, ◌+◌, zero, suc, ◌∷◌,
}
use polar_wg_app.Session.Types.{Family, inet, inet6, Cidr, IfaceAddr, Peer, Session}
use polar_wg_app.Session.Host.{Net}

-- `wg_session_iface_addr_get`
unfoldable pub iface_addr_get : Session → ℕ → Option (List ℕ × ℕ × Family)
iface_addr_get s i = elim (get_elem? s.if_addrs i) [
  | none ↦ none
  | some a ↦ some (take 63 a.addr_str, a.prefix_len, a.family)
]

-- `wg_session_peer_pubkey`
unfoldable pub peer_pubkey : Session → ℕ → Option (List ℕ)
peer_pubkey s i = elim (get_elem? s.peers i) [
  | none ↦ none
  | some p ↦ if p.active then some p.pubkey else none
]

-- `wg_session_peer_allowed_count`
unfoldable pub peer_allowed_count : Session → ℕ → ℕ
peer_allowed_count s i = elim (get_elem? s.peers i) [
  | none ↦ 0
  | some p ↦ if p.active then length p.allowed else 0
]

-- `wg_session_peer_keepalive`
unfoldable pub peer_keepalive : Session → ℕ → ℤ
peer_keepalive s i = elim (get_elem? s.peers i) [ none ↦ pos 0 | some p ↦ p.pk_sec ]

-- `wg_session_peer_transfer`: received bytes, then sent bytes.
unfoldable pub peer_transfer : Session → ℕ → Option (ℕ × ℕ)
peer_transfer s i = elim (get_elem? s.peers i) [
  | none ↦ none
  | some p ↦ some (p.rx_bytes, p.tx_bytes)
]

module _ (N : Net) where
  open N use {inet_ntop, ss_family, sin_addr, sin_port, sin6_addr, sin6_port}

  -- `wg_session_peer_allowed_get`. The address is empty if `inet_ntop` fails.
  unfoldable pub peer_allowed_get : Session → ℕ → ℕ → Option (List ℕ × ℕ × Family)
  peer_allowed_get s i j = elim (get_elem? s.peers i) [
    | none ↦ none
    | some p ↦ elim (get_elem? p.allowed j) [
      | none ↦ none
      | some c ↦
          some (elim (inet_ntop c.family c.addr) [ none ↦ [] | some t ↦ t ], c.prefix_len, c.family)
    ]
  ]

  -- `wg_session_peer_endpoint`. The address is `none` where `inet_ntop` fails and the buffer of the
  -- caller keeps what it held.
  unfoldable pub peer_endpoint : Session → ℕ → Option (Option (List ℕ) × ℕ)
  peer_endpoint s i = elim (get_elem? s.peers i) [
    | none ↦ none
    | some p ↦ if p.endpoint_len == 0 then none else elim (ss_family p.endpoint) [
      | none ↦ none
      | some inet ↦ some (inet_ntop inet (sin_addr p.endpoint), sin_port p.endpoint)
      | some inet6 ↦ some (inet_ntop inet6 (sin6_addr p.endpoint), sin6_port p.endpoint)
    ]
  ]
