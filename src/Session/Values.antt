-- ===== src/Session/Values.antt =====
-- The values in a configuration of src/wg_session.c: `parse_cidr`, `parse_iface_addr`,
-- `parse_list_cidrs`, `parse_list_iface` and `split_endpoint`. `none` is the return value -1. Texts are byte lists
-- without the final NUL; `inet_pton` is a parameter (Session/Host.antt).
use polar_wg_app.Common.{
  ℕ, not, ◌||◌, Option, none, some, List, [], ◌∷◌, ◌++◌, leb, ltb, ◌==◌, if◌then◌else◌, length,
  take, replicate, ℤ, pos, negsuc, is_negative, to_ℕ, ◌>>=◌, ◌>>◌, require,
}
use polar_wg_app.Text.{trim, split_first, split_last, tokens, atoi, strtol}
use polar_wg_app.Session.Types.{
  Family, inet, inet6, Cidr, IfaceAddr, Peer, Session, max_allowed_cidrs, max_iface_addrs,
}
use polar_wg_app.Session.Host.{Net}

abbrev pub max_prefix : Family → ℕ
max_prefix inet = 32
max_prefix inet6 = 128

-- The text before a `/`, and `atoi` of what follows it; -1 where there is none.
abbrev pub split_prefix : List ℕ → List ℕ × ℤ
split_prefix s = elim (split_first b'/' s) [
  | none ↦ (s, negsuc 0)
  | some (host, bits) ↦ (host, atoi bits)
]

abbrev pub prefix_or_default : ℤ → Family → ℕ
prefix_or_default p f = if is_negative p then max_prefix f else to_ℕ p

-- `split_endpoint`, and the part of `peer_set_endpoint_str` that is the same: host and port around
-- the last colon. The host has 1 to 127 characters, the port is 1 to 65535.
abbrev pub read_port : List ℕ → Option ℕ
read_port s = elim (strtol s) [
  | pos n ↦ if ltb n 1 || ltb 65535 n then none else some n
  | negsuc n ↦ none
]

unfoldable pub split_endpoint : List ℕ → Option (List ℕ × ℕ)
split_endpoint s = do
  (host, digits) ← split_last b':' s
  require (not (length host == 0 || leb 128 (length host)))
  port ← read_port digits
  some (host, port)

module _ (N : Net) where
  open N use {inet_pton}

  -- The 16 bytes of `out->addr` after `inet_pton` wrote its own, and the family that it read.
  unfoldable pub parse_addr : List ℕ → Option (Family × List ℕ)
  parse_addr host = elim (inet_pton inet host) [
    | some a ↦ some (inet, take 16 (a ++ replicate 16 0))
    | none ↦ elim (inet_pton inet6 host) [
      | some a ↦ some (inet6, take 16 (a ++ replicate 16 0))
      | none ↦ none
    ]
  ]

  unfoldable pub parse_cidr : List ℕ → Option Cidr
  parse_cidr s = do
    require (ltb (length s) 64)
    let (host, prefix) = split_prefix s
    (family, addr) ← parse_addr host
    let n = prefix_or_default prefix family
    require (leb n (max_prefix family))
    some (record { family = family; addr = addr; prefix_len = n })

  unfoldable pub parse_iface_addr : List ℕ → Option IfaceAddr
  parse_iface_addr s = do
    require (ltb (length s) 64)
    let (host, prefix) = split_prefix s
    (family, addr) ← parse_addr host
    some (record {
      family = family;
      addr_str = take 63 host;
      prefix_len = prefix_or_default prefix family;
    })

  -- One round of the loop of `parse_list_cidrs`, on a token between commas.
  unfoldable pub add_cidr : List ℕ → List Cidr → Option (List Cidr)
  add_cidr token out =
      let p = trim token in
      if length p == 0
      then some out
      else (do require (ltb (length out) max_allowed_cidrs); c ← parse_cidr p; some (out ++ c ∷ []))

  unfoldable pub add_cidrs : List (List ℕ) → List Cidr → Option (List Cidr)
  add_cidrs [] out = some out
  add_cidrs (t ∷ ts) out = add_cidr t out >>= λ out'. add_cidrs ts out'

  unfoldable pub parse_list_cidrs : List ℕ → Peer → Option Peer
  parse_list_cidrs s peer = do
    require (ltb (length s) 512)
    out ← add_cidrs (tokens b',' s) peer.allowed
    some (record peer { allowed = out })

  -- One round of the loop of `parse_list_iface`.
  unfoldable pub add_iface : List ℕ → List IfaceAddr → Option (List IfaceAddr)
  add_iface token out =
      let p = trim token in
      if length p == 0 then some out else (do
        require (ltb (length out) max_iface_addrs)
        a ← parse_iface_addr p
        some (out ++ a ∷ []))

  unfoldable pub add_ifaces : List (List ℕ) → List IfaceAddr → Option (List IfaceAddr)
  add_ifaces [] out = some out
  add_ifaces (t ∷ ts) out = add_iface t out >>= λ out'. add_ifaces ts out'

  unfoldable pub parse_list_iface : List ℕ → Session → Option Session
  parse_list_iface s sess = do
    require (ltb (length s) 256)
    out ← add_ifaces (tokens b',' s) sess.if_addrs
    some (record sess { if_addrs = out })
