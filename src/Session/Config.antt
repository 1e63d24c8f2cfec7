-- ===== src/Session/Config.antt =====
-- `parse_config_text` of src/wg_session.c. `none` is the return value -1. Texts are byte lists
-- without the final NUL; `inet_pton` is a parameter (Session/Host.antt).
pub mod Accepted
use polar_wg_app.Common.{
  ℕ, zero, suc, ◌+◌, ◌-◌, Bool, true, false, not, ◌&&◌, ◌||◌, Option, none, some, List, [], ◌∷◌,
  ◌++◌, leb, ltb, ◌==◌, if◌then◌else◌, length, take, drop, replicate, get_elem?, set, list_eq, ℤ,
  pos, negsuc, is_negative, to_ℕ, ◌>>=◌, ◌>>◌, require,
}
use polar_wg_app.Common.Texts.{codes}
use polar_wg_app.Text.{c_string, trim, split_first, split_last, tokens, atoi, strtol}
use polar_wg_app.Text.Base64.{decode_base64_32}
use polar_wg_app.Session.Types.{
  Family, inet, inet6, Cidr, IfaceAddr, Peer, Session, zero_peer, max_allowed_cidrs,
  max_iface_addrs, max_peers,
}
use polar_wg_app.Session.Host.{Net}
use polar_wg_app.Session.Values.{split_endpoint, parse_list_cidrs, parse_list_iface}

-- Some byte is not zero.
unfoldable pub has_nonzero : List ℕ → Bool
has_nonzero [] = false
has_nonzero (x ∷ xs) = not (x == 0) || has_nonzero xs

unfoldable pub all_keyed : List Peer → Bool
all_keyed [] = true
all_keyed (p ∷ ps) = has_nonzero p.pubkey && all_keyed ps

-- What `parse_config_text` carries from line to line; `cur_peer` is the last slot.
pub record Parser : Type 0 where
  pub sess : Session
  pub in_interface : Bool
  pub in_peer : Bool
  pub got_priv : Bool

-- `strncmp(p, word, n) == 0` for a word of n characters.
abbrev pub starts : List ℕ → List ℕ → Bool
starts word p = list_eq (take (length word) p) word

-- A line that opens a section.
unfoldable pub section_line : List ℕ → Parser → Option Parser
section_line p st =
    let q = record st {
      in_interface = starts (codes "[Interface]") p;
      in_peer = starts (codes "[Peer]") p;
    } in
    if starts (codes "[Peer]") p
    then (if leb max_peers (length st.sess.peers)
        then none
        else some (record q { sess = record st.sess { peers = st.sess.peers ++ zero_peer ∷ [] } }))
    else some q

-- The last slot of the peers so far, if there is one, changed by `f`.
unfoldable pub on_last : (Peer → Option Peer) → List Peer → Option (List Peer)
on_last f [] = some []
on_last f (p ∷ []) = do q ← f p; some (q ∷ [])
on_last f (p ∷ q ∷ ps) = do let rest = on_last f (q ∷ ps); out ← rest; some (p ∷ out)

module _ (N : Net) where
  -- A value of an [Interface] section.
  unfoldable pub interface_line : List ℕ → List ℕ → Parser → Option Parser
  interface_line key val st =
      if list_eq key (codes "PrivateKey")
      then (do
        k ← decode_base64_32 val
        some (record st { sess = record st.sess { private_key = k }; got_priv = true }))
      else if list_eq key (codes "ListenPort")
      then elim (atoi val) [
        | pos n ↦
            if ltb n 1 || ltb 65535 n
            then none
            else some (record st { sess = record st.sess { listen_port = n } })
        | negsuc n ↦ none
      ]
      else if list_eq key (codes "Address")
      then (do s ← parse_list_iface N val st.sess; some (record st { sess = s }))
      else some st

  -- A value of a [Peer] section.
  unfoldable pub peer_line : List ℕ → List ℕ → Peer → Option Peer
  peer_line key val p =
      if list_eq key (codes "PublicKey")
      then (do k ← decode_base64_32 val; some (record p { pubkey = k }))
      else if list_eq key (codes "Endpoint")
      then (do
        (host, port) ← split_endpoint val
        some (record p { endpoint_host = host; endpoint_port = port; has_endpoint = true }))
      else if list_eq key (codes "PersistentKeepalive")
      then some (record p { pk_sec = atoi val })
      else if list_eq key (codes "PresharedKey")
      then (do k ← decode_base64_32 val; some (record p { psk = k; has_psk = true }))
      else if list_eq key (codes "AllowedIPs")
      then parse_list_cidrs N val p
      else some p

  unfoldable pub value_line : List ℕ → List ℕ → Parser → Option Parser
  value_line key val st =
      if st.in_interface
      then interface_line key val st
      else if st.in_peer
      then (do
        ps ← on_last (peer_line key val) st.sess.peers
        some (record st { sess = record st.sess { peers = ps } }))
      else some st

  -- One round of the loop of `parse_config_text`, on a line that is trimmed.
  unfoldable pub config_line : List ℕ → Parser → Option Parser
  config_line [] st = some st
  config_line (c ∷ p) st =
      if c == b'#' || c == b';'
      then some st
      else if c == b'['
      then section_line (c ∷ p) st
      else elim (split_first b'=' (c ∷ p)) [
        | none ↦ some st
        | some (key, val) ↦ value_line (trim key) (trim val) st
      ]

  unfoldable pub config_lines : List (List ℕ) → Parser → Option Parser
  config_lines [] st = some st
  config_lines (l ∷ ls) st = config_line (trim l) st >>= λ st'. config_lines ls st'

  -- `parse_config_text` for a session full of zeros.
  unfoldable pub parse_config_text : Session → List ℕ → Option Session
  parse_config_text s text = do
    st ←
        config_lines (tokens 0x0a (c_string text))
          (record { sess = s; in_interface = false; in_peer = false; got_priv = false })
    require (st.got_priv && not (length st.sess.peers == 0))
    require (all_keyed st.sess.peers)
    some st.sess
