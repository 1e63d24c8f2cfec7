-- ===== src/Client/Config.antt =====
-- `load_config` of src/wg_core.c. `none` is the return value -1, and a file that cannot be opened. Its
-- `b64_value`, `decode_base64_32`, `trim`, `parse_cidr` and `split_endpoint` are word for word those of
-- src/wg_session.c, and so are the definitions.
pub mod Accepted
use polar_wg_app.Common.{
  ℕ, zero, suc, ◌+◌, ◌-◌, Bool, true, false, not, ◌&&◌, ◌||◌, Option, none, some, List, [], ◌∷◌,
  ◌++◌, leb, ltb, ◌==◌, if◌then◌else◌, length, take, list_eq, pos, negsuc, ◌>>=◌, ◌>>◌, require,
}
use mathlib.Core.List.{reverse}
use polar_wg_app.Common.Texts.{codes}
use polar_wg_app.Text.{c_string, trim, split_first, tokens, atoi}
use polar_wg_app.Text.Base64.{decode_base64_32}
use polar_wg_app.Session.Types.{Cidr, IfaceAddr}
use polar_wg_app.Session.Host.{Net}
use polar_wg_app.Session.Values.{
  max_prefix, split_prefix, prefix_or_default, parse_addr, parse_cidr, split_endpoint,
}
use polar_wg_app.Session.Config.{starts, has_nonzero}
use polar_wg_app.Client.Types.{
  wg_max_allowed_cidrs, wg_max_iface_addrs, wg_max_peers, wg_max_line, wg_buf_max, PeerState,
  zero_peer_state, ClientConfig, zero_config,
}

-- What the calls of `fgets` read: lines with their end, and no more than 511 bytes at a time. `room` is
-- how many more bytes fit, `got` what has been read, the last byte first.
unfoldable pub read_lines : ℕ → List ℕ → List ℕ → List (List ℕ)
read_lines room [] [] = []
read_lines room (g ∷ got) [] = reverse (g ∷ got) ∷ []
read_lines room got (c ∷ file) =
    let full = c == 0x0a || leb room 1 in
    let rest =
      read_lines (if full then wg_max_line - 1 else room - 1) (if full then [] else c ∷ got) file in
    if full then reverse (c ∷ got) ∷ rest else rest

abbrev pub is_list_blank : ℕ → Bool
is_list_blank c = c == b' ' || c == 0x09

unfoldable pub skip_list_blanks : List ℕ → List ℕ
skip_list_blanks [] = []
skip_list_blanks (c ∷ s) = if is_list_blank c then skip_list_blanks s else c ∷ s

-- The blanks at the end go, down to the first character.
unfoldable pub drop_list_blanks : List ℕ → List ℕ
drop_list_blanks [] = []
drop_list_blanks (c ∷ s) = elim (drop_list_blanks s) [
  | [] ↦ if is_list_blank c then [] else c ∷ []
  | d ∷ r ↦ c ∷ d ∷ r
]

-- A token of a list without its blanks; the first character that is no blank stays.
abbrev pub list_entry : List ℕ → List ℕ
list_entry token = drop_list_blanks (skip_list_blanks token)

module _ (N : Net) where
  unfoldable pub parse_iface_addr : List ℕ → Option IfaceAddr
  parse_iface_addr s = do
    require (ltb (length s) 64)
    let (host, prefix) = split_prefix s
    (family, bin) ← parse_addr N host
    let n = prefix_or_default prefix family
    require (leb n (max_prefix family))
    some (record { family = family; addr_str = take 63 host; prefix_len = n })

  -- One round of the loop of `parse_iface_addrs`.
  unfoldable pub add_iface_addr : List ℕ → List IfaceAddr → Option (List IfaceAddr)
  add_iface_addr token out =
      let p = list_entry token in
      if length p == 0 then some out else (do
        require (ltb (length out) wg_max_iface_addrs)
        a ← parse_iface_addr p
        some (out ++ a ∷ []))

  unfoldable pub add_iface_addrs : List (List ℕ) → List IfaceAddr → Option (List IfaceAddr)
  add_iface_addrs [] out = some out
  add_iface_addrs (t ∷ ts) out = add_iface_addr t out >>= λ out'. add_iface_addrs ts out'

  unfoldable pub parse_iface_addrs : List ℕ → ClientConfig → Option ClientConfig
  parse_iface_addrs s cfg = do
    require (ltb (length s) 256)
    out ← add_iface_addrs (tokens b',' s) cfg.if_addrs
    some (record cfg { if_addrs = out })

  -- One round of the loop of `parse_allowed_ips`.
  unfoldable pub add_allowed_ip : List ℕ → List Cidr → Option (List Cidr)
  add_allowed_ip token out =
      let p = list_entry token in
      if length p == 0 then some out else (do
        require (ltb (length out) wg_max_allowed_cidrs)
        c ← parse_cidr N p
        some (out ++ c ∷ []))

  unfoldable pub add_allowed_ips : List (List ℕ) → List Cidr → Option (List Cidr)
  add_allowed_ips [] out = some out
  add_allowed_ips (t ∷ ts) out = add_allowed_ip t out >>= λ out'. add_allowed_ips ts out'

  unfoldable pub parse_allowed_ips : List ℕ → PeerState → Option PeerState
  parse_allowed_ips s peer = do
    require (ltb (length s) 512)
    out ← add_allowed_ips (tokens b',' s) peer.allowed
    some (record peer { allowed = out })

-- The variables of the loop over the lines; `cur_peer` is the last of the peers so far, or -1.
pub record Loader : Type 0 where
  pub cfg : ClientConfig
  pub in_interface : Bool
  pub in_peer : Bool
  pub got_priv : Bool

-- A line that opens a section.
unfoldable pub open_section : List ℕ → Loader → Option Loader
open_section p st =
    let q = record st {
      in_interface = starts (codes "[Interface]") p;
      in_peer = starts (codes "[Peer]") p;
    } in
    if starts (codes "[Peer]") p
    then (if leb wg_max_peers (length st.cfg.peers)
        then none
        else some
            (record q { cfg = record st.cfg { peers = st.cfg.peers ++ zero_peer_state ∷ [] } }))
    else some q

-- The current peer changed by `f`.
unfoldable pub on_current :
    (PeerState → Option PeerState) → List PeerState → Option (List PeerState)
on_current f [] = some []
on_current f (p ∷ []) = do q ← f p; some (q ∷ [])
on_current f (p ∷ q ∷ ps) = do let rest = on_current f (q ∷ ps); out ← rest; some (p ∷ out)

unfoldable pub has_key : List PeerState → Bool
has_key [] = true
has_key (p ∷ ps) = has_nonzero p.pubkey && has_key ps

unfoldable pub any_endpoint : List PeerState → Bool
any_endpoint [] = false
any_endpoint (p ∷ ps) = p.has_endpoint || any_endpoint ps

module _ (N : Net) where
  -- A value under [Interface].
  unfoldable pub interface_value : List ℕ → List ℕ → Loader → Option Loader
  interface_value key val st =
      if list_eq key (codes "PrivateKey")
      then (do
        k ← decode_base64_32 val
        some (record st { cfg = record st.cfg { private_key = k }; got_priv = true }))
      else if list_eq key (codes "ListenPort")
      then elim (atoi val) [
        | pos n ↦
            if ltb n 1 || ltb 65535 n
            then none
            else some (record st { cfg = record st.cfg { listen_port = n } })
        | negsuc n ↦ none
      ]
      else if list_eq key (codes "MTU")
      then elim (atoi val) [
        | pos n ↦
            if ltb n 576 || ltb (wg_buf_max - 256) n
            then none
            else some (record st { cfg = record st.cfg { mtu = n } })
        | negsuc n ↦ none
      ]
      else if list_eq key (codes "Address")
      then (do c ← parse_iface_addrs N val st.cfg; some (record st { cfg = c }))
      else some st

  -- A value under [Peer].
  unfoldable pub peer_value : List ℕ → List ℕ → PeerState → Option PeerState
  peer_value key val p =
      if list_eq key (codes "PublicKey")
      then (do k ← decode_base64_32 val; some (record p { pubkey = k }))
      else if list_eq key (codes "Endpoint")
      then (do
        (host, port) ← split_endpoint val
        some (record p { endpoint_host = host; endpoint_port = port; has_endpoint = true }))
      else if list_eq key (codes "PersistentKeepalive")
      then some (record p { pk_sec = atoi val })
      else if list_eq key (codes "AllowedIPs")
      then parse_allowed_ips N val p
      else some p

  -- No line is under both sections: the two flags come from one line.
  unfoldable pub store_value : List ℕ → List ℕ → Loader → Option Loader
  store_value key val st =
      if st.in_interface
      then interface_value key val st
      else if st.in_peer
      then (do
        ps ← on_current (peer_value key val) st.cfg.peers
        some (record st { cfg = record st.cfg { peers = ps } }))
      else some st

  -- One round of the loop, on a line that is trimmed.
  unfoldable pub load_line : List ℕ → Loader → Option Loader
  load_line [] st = some st
  load_line (c ∷ p) st =
      if c == b'#' || c == b';'
      then some st
      else if c == b'['
      then open_section (c ∷ p) st
      else elim (split_first b'=' (c ∷ p)) [
        | none ↦ some st
        | some (key, val) ↦ store_value (trim key) (trim val) st
      ]

  unfoldable pub load_lines : List (List ℕ) → Loader → Option Loader
  load_lines [] st = some st
  load_lines (l ∷ ls) st = load_line (trim (c_string l)) st >>= λ st'. load_lines ls st'

  -- `load_config`, for what the file holds.
  unfoldable pub load_config : Option (List ℕ) → Option ClientConfig
  load_config file = do
    bytes ← file
    st ←
        load_lines (read_lines (wg_max_line - 1) [] bytes)
          (record { cfg = zero_config; in_interface = false; in_peer = false; got_priv = false })
    require (st.got_priv && not (length st.cfg.peers == 0))
    require (has_key st.cfg.peers)
    require (any_endpoint st.cfg.peers || not (st.cfg.listen_port == 0))
    some st.cfg
