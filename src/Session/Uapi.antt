-- ===== src/Session/Uapi.antt =====
-- `wg_session_set_uapi` of src/wg_session.c: a request to change a running session.
pub mod Routing
pub mod Bounds
use polar_wg_app.Common.{
  ℕ, zero, suc, ◌+◌, Bool, true, false, not, ◌&&◌, ◌||◌, Option, none, some, List, [], ◌∷◌, ◌++◌,
  leb, ltb, ◌==◌, if◌then◌else◌, length, list_eq, ℤ, pos, negsuc,
}
use polar_wg_app.Common.Texts.{codes}
use polar_wg_app.Text.{c_string, trim, split_first, tokens, atoi}
use polar_wg_app.Text.Hex.{hex_decode}
use polar_wg_app.Session.Types.{Peer, Session, Cidr, max_allowed_cidrs}
use polar_wg_app.Session.Values.{parse_cidr}
use polar_wg_app.Session.Config.{has_nonzero}
use polar_wg_app.Session.Host.{Host, Net}
use polar_wg_app.Session.Monad.{
  St, M, Res, ok, fail, fault, pure, failure, ◌>>=◌, ◌>>◌, call, run, check, some_or, deref,
  finally, session, update, peer, set_peer, change_peer,
}
use polar_wg_app.Session.Peers.{
  find_peer_by_pubkey, alloc_peer_slot, peer_tombstone, peer_init_runtime, peer_set_endpoint_str,
}
use polar_wg_app.Session.Routes.{rebuild_aips}

-- `atoi` of a value, in the range 0 to 65535.
abbrev pub read_u16 : List ℕ → Option ℕ
read_u16 val = elim (atoi val) [ pos n ↦ if ltb 65535 n then none else some n | negsuc n ↦ none ]

module _ (N : Net) (L : Host) where
  open L use {W, malloc, free, remote_set_psk}

  unfoldable pub set_psk : Option ℕ → List ℕ → M W (Unit {0})
  set_psk none psk st = (ok tt, st)
  set_psk (some rem) psk st = (ok tt, record st { world = remote_set_psk rem psk st.world })

  -- A line `public_key=…`: the slot of the peer, which is added if there is none.
  unfoldable pub select_peer : List ℕ → M W (Option ℕ)
  select_peer val = do
    pk ← some_or (pure tt) (hex_decode 32 val)
    s ← session
    elim (find_peer_by_pubkey pk 0 s.peers) [
      | some i ↦ pure (some i)
      | none ↦ (do i ← alloc_peer_slot L; peer_init_runtime L i pk; pure (some i))
    ]

  -- The lines `preshared_key`, `persistent_keepalive_interval`, `replace_allowed_ips` and
  -- `allowed_ip` about the peer of slot `i`.
  unfoldable pub psk_field : List ℕ → ℕ → M W (Option ℕ)
  psk_field val i = do
    psk ← some_or (pure tt) (hex_decode 32 val)
    p ← peer i
    set_peer i (record p { psk = psk; has_psk = has_nonzero psk })
    set_psk p.remote psk
    pure (some i)

  unfoldable pub keepalive_field : List ℕ → ℕ → M W (Option ℕ)
  keepalive_field val i = do
    n ← some_or (pure tt) (read_u16 val)
    change_peer i (λ p. record p { pk_sec = pos n })
    pure (some i)

  unfoldable pub replace_field : List ℕ → ℕ → M W (Option ℕ)
  replace_field val i =
      if list_eq val (codes "true")
      then change_peer i (λ p. record p { allowed = [] }) >> pure (some i)
      else pure (some i)

  unfoldable pub allowed_ip_field : List ℕ → ℕ → M W (Option ℕ)
  allowed_ip_field val i = do
    p ← peer i
    check (not (leb max_allowed_cidrs (length p.allowed)))
    c ← some_or (pure tt) (parse_cidr N val)
    set_peer i (record p { allowed = p.allowed ++ c ∷ [] })
    pure (some i)

  -- A line about the peer of slot `i`.
  unfoldable pub peer_field : List ℕ → List ℕ → ℕ → M W (Option ℕ)
  peer_field key val i =
      if list_eq key (codes "remove")
      then (if list_eq val (codes "true") then peer_tombstone L i >> pure none else pure (some i))
      else if list_eq key (codes "preshared_key")
      then psk_field val i
      else if list_eq key (codes "endpoint")
      then peer_set_endpoint_str L i val >> pure (some i)
      else if list_eq key (codes "persistent_keepalive_interval")
      then keepalive_field val i
      else if list_eq key (codes "replace_allowed_ips")
      then replace_field val i
      else if list_eq key (codes "allowed_ip")
      then allowed_ip_field val i
      else pure (some i)

  -- A line with a key: the peer that the next line is about. A failure is the return value -1.
  unfoldable pub set_field : List ℕ → List ℕ → Option ℕ → M W (Option ℕ)
  set_field key val cur =
      if list_eq key (codes "set")
      then pure cur
      else if list_eq key (codes "private_key")
          || (list_eq key (codes "fwmark") || list_eq key (codes "replace_peers"))
      then failure
      else if list_eq key (codes "listen_port")
      then (do
        n ← some_or (pure tt) (read_u16 val)
        update (λ s. record s { listen_port = n })
        pure cur)
      else if list_eq key (codes "public_key")
      then select_peer val
      else elim cur [ none ↦ pure none | some i ↦ peer_field key val i ]

  -- One round of the loop, on a line that is trimmed.
  unfoldable pub set_line : List ℕ → Option ℕ → M W (Option ℕ)
  set_line line cur = elim (split_first b'=' line) [
    | none ↦ pure cur
    | some (key, val) ↦ set_field (trim key) (trim val) cur
  ]

  unfoldable pub set_lines : List (List ℕ) → Option ℕ → M W (Unit {0})
  set_lines [] cur st = (ok tt, st)
  set_lines (l ∷ ls) cur st = (set_line (trim l) cur >>= λ cur' st'. set_lines ls cur' st') st

  -- `wg_session_set_uapi`
  unfoldable pub set_uapi : List ℕ → M W (Unit {0})
  set_uapi text = do
    scratch ← some_or (pure tt) (← call (malloc (length text + 1)))
    finally (set_lines (tokens 0x0a (c_string text)) none) (do run (free scratch); rebuild_aips L)
