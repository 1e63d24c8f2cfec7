-- ===== src/Session/Peers.antt =====
-- Peers that come and go in src/wg_session.c: `find_peer_by_pubkey`, `alloc_peer_slot`,
-- `peer_tombstone`, `peer_init_runtime`, `resolve_endpoint` and `peer_set_endpoint_str`.
use polar_wg_app.Common.{
  ℕ, ◌+◌, Bool, true, false, not, ◌&&◌, ◌||◌, Option, none, some, List, [], ◌∷◌, ◌++◌, leb, ◌==◌,
  if◌then◌else◌, length, list_eq,
}
use polar_wg_app.Text.{split_first}
use polar_wg_app.Session.Types.{Peer, zero_peer, max_peers, memcpy}
use polar_wg_app.Session.Values.{read_port, split_endpoint}
use polar_wg_app.Session.Host.{Host}
use polar_wg_app.Session.Monad.{
  M, ok, pure, ◌>>=◌, ◌>>◌, call, run, check, check_or, some_or, deref, session, update, peer,
  set_peer, change_peer,
}

-- The active slot, from `i` on, with the public key.
unfoldable pub find_peer_by_pubkey : List ℕ → ℕ → List Peer → Option ℕ
find_peer_by_pubkey pk i [] = none
find_peer_by_pubkey pk i (p ∷ ps) =
    if p.active && list_eq p.pubkey pk then some i else find_peer_by_pubkey pk (i + 1) ps

-- The first slot, from `i` on, that is not active.
unfoldable pub free_slot : ℕ → List Peer → Option ℕ
free_slot i [] = none
free_slot i (p ∷ ps) = if p.active then free_slot (i + 1) ps else some i

-- "[host]:port": host and port.
unfoldable pub split_bracketed : List ℕ → Option (List ℕ × ℕ)
split_bracketed s = elim (split_first b']' s) [
  | none ↦ none
  | some (host, []) ↦ none
  | some (host, c ∷ digits) ↦
      if c == b':' && not (length host == 0 || leb 128 (length host))
      then elim (read_port digits) [ none ↦ none | some port ↦ some (host, port) ]
      else none
]

-- The two forms of an endpoint that `peer_set_endpoint_str` reads.
unfoldable pub split_spec : List ℕ → Option (List ℕ × ℕ)
split_spec [] = none
split_spec (c ∷ s) = if c == b'[' then split_bracketed s else split_endpoint (c ∷ s)

module _ (L : Host) where
  open L use {
    W, remote_alloc, remote_enable, remote_disable, remote_put, maker_init, maker_free, getaddrinfo,
  }

  -- `alloc_peer_slot`
  unfoldable pub alloc_peer_slot : M W ℕ
  alloc_peer_slot = do
    s ← session
    elim (free_slot 0 s.peers) [
      | some i ↦ pure i
      | none ↦ (do
        check (not (leb max_peers (length s.peers)))
        update (λ t. record t { peers = t.peers ++ zero_peer ∷ [] })
        pure (length s.peers))
    ]

  -- The noise remote of a tombstoned peer.
  unfoldable pub drop_remote : Option ℕ → M W (Unit {0})
  drop_remote none st = (ok tt, st)
  drop_remote (some rem) st =
      (ok tt, record st { world = remote_put rem (remote_disable rem st.world) })

  unfoldable pub drop_cookie : Bool → ℕ → M W (Unit {0})
  drop_cookie false i st = (ok tt, st)
  drop_cookie true i st = (ok tt, record st { world = maker_free i st.world })

  -- `peer_tombstone`
  unfoldable pub peer_tombstone : ℕ → M W (Unit {0})
  peer_tombstone i = do
    p ← peer i
    drop_remote p.remote
    drop_cookie p.cookie_inited i
    set_peer i zero_peer

  -- `peer_init_runtime`
  unfoldable pub peer_init_runtime : ℕ → List ℕ → M W (Unit {0})
  peer_init_runtime i pubkey = do
    set_peer i (record zero_peer { pubkey = pubkey; active = true })
    s ← session
    loc ← deref s.noise_local
    rem ← some_or (pure tt) (← call (remote_alloc loc i pubkey))
    change_peer i (λ p. record p { remote = some rem })
    enabled ← call (remote_enable rem)
    check_or (do run (remote_put rem); change_peer i (λ p. record p { remote = none })) enabled
    run (maker_init i pubkey)
    change_peer i (λ p. record p { cookie_inited = true })

  -- `resolve_endpoint`: the first address that `getaddrinfo` gives, if any.
  unfoldable pub resolve_endpoint : List ℕ → ℕ → M W (Option (List ℕ))
  resolve_endpoint host port st =
      let (found, w) = getaddrinfo host port st.world in (ok found, record st { world = w })

  -- `peer_set_endpoint_str`
  unfoldable pub peer_set_endpoint_str : ℕ → List ℕ → M W (Unit {0})
  peer_set_endpoint_str i spec = do
    (host, port) ← some_or (pure tt) (split_spec spec)
    ss ← some_or (pure tt) (← resolve_endpoint host port)
    change_peer i (λ p. record p {
      endpoint = memcpy p.endpoint ss (length ss);
      endpoint_len = length ss;
      has_endpoint = true;
      endpoint_host = host;
      endpoint_port = port;
    })
