-- ===== src/Session/Life.antt =====
-- `wg_session_create` and `wg_session_destroy` of src/wg_session.c.
pub mod Ready
use polar_wg_app.Common.{
  ℕ, zero, suc, ◌+◌, Bool, true, false, none, some, List, [], ◌∷◌, if◌then◌else◌, length, replicate,
}
use polar_wg_app.Allowedips
use polar_wg_app.Session.Types.{Peer, Session, memcpy}
use polar_wg_app.Session.Config.{parse_config_text}
use polar_wg_app.Session.Host.{Host, Net}
use polar_wg_app.Session.Monad.{
  M, ok, pure, ◌>>=◌, ◌>>◌, call, run, check, check_or, some_or, deref, on_fail, session, update,
  peer, change_peer,
}
use polar_wg_app.Session.Routes.{add_peers, fresh_tries}
use polar_wg_app.Session.Peers.{resolve_endpoint}
use polar_wg_app.Session.Uapi.{set_psk}

-- A session full of zeros, with the callbacks given.
abbrev pub zero_session : Bool → Bool → Session
zero_session has_send_udp has_deliver_ip = record {
  private_key = replicate 32 0;
  listen_port = 0;
  if_addrs = [];
  peers = [];
  noise_local = none;
  checker_inited = false;
  aips_v4 = Allowedips.init 0;
  aips_v6 = Allowedips.init 0;
  aips_inited = false;
  has_send_udp = has_send_udp;
  has_deliver_ip = has_deliver_ip;
}

module _ (N : Net) (L : Host) where
  open L use {
    W, malloc, free, calloc_session, crypto_init, crypto_deinit, local_alloc, local_private,
    local_keys, local_put, remote_alloc, remote_enable, remote_put, getaddrinfo, maker_init,
    maker_free, checker_init, checker_update, checker_free,
  }

  -- What one slot of `peers` holds of the host.
  unfoldable pub release_peer : ℕ → Peer → W → W
  release_peer i p w =
      let w1 = if p.cookie_inited then maker_free i w else w in
      elim p.remote [ none ↦ w1 | some rem ↦ remote_put rem w1 ]

  unfoldable pub release_peers : ℕ → List Peer → W → W
  release_peers i [] w = w
  release_peers i (p ∷ ps) w = release_peers (i + 1) ps (release_peer i p w)

  -- `wg_session_destroy` for the session at an address. The nodes of the tries are freed too.
  unfoldable pub destroy : ℕ → M W (Unit {0})
  destroy at st =
      let s = st.session in
      let w0 = if s.checker_inited then checker_free st.world else st.world in
      let w1 = release_peers 0 s.peers w0 in
      let w2 : W = elim s.noise_local [ none ↦ w1 | some loc ↦ local_put loc w1 ] in
      (ok tt, record st { world = free at (crypto_deinit w2) })

  -- The endpoint of a new peer; without an address the peer waits to be called.
  unfoldable pub resolve_peer : ℕ → Peer → M W (Unit {0})
  resolve_peer i p =
      if p.has_endpoint
      then (do
        found ← resolve_endpoint L p.endpoint_host p.endpoint_port
        elim found [
          | none ↦ change_peer i (λ q. record q { endpoint_len = 0 })
          | some ss ↦ change_peer i (λ q. record q {
            endpoint = memcpy q.endpoint ss (length ss);
            endpoint_len = length ss;
          })
        ])
      else pure tt

  -- The peer of a slot becomes active, and gets its noise remote and its cookie maker; it is returned
  -- with the remote.
  unfoldable pub equip_peer : ℕ → M W (Peer × ℕ)
  equip_peer i = do
    change_peer i (λ p. record p { active = true })
    p ← peer i
    s ← session
    loc ← deref s.noise_local
    rem ← some_or (pure tt) (← call (remote_alloc loc i p.pubkey))
    change_peer i (λ q. record q { remote = some rem })
    enabled ← call (remote_enable rem)
    check enabled
    run (maker_init i p.pubkey)
    change_peer i (λ q. record q { cookie_inited = true })
    pure (p, rem)

  -- One round of the first loop of `wg_session_create`.
  unfoldable pub create_peer : ℕ → M W (Unit {0})
  create_peer i = do
    (p, rem) ← equip_peer i
    if p.has_psk then set_psk N L (some rem) p.psk else pure tt
    resolve_peer i p

  -- The rounds for `n` slots from `i` on.
  unfoldable pub create_peers : ℕ → ℕ → M W (Unit {0})
  create_peers zero i st = (ok tt, st)
  create_peers (suc n) i st = (create_peer i >>= λ _ st'. create_peers n (i + 1) st') st

  unfoldable pub set_up_checker : M W (Unit {0})
  set_up_checker = do
    run checker_init
    update (λ s. record s { checker_inited = true })
    s ← session
    loc ← deref s.noise_local
    keys ← call (local_keys loc)
    elim keys [ none ↦ pure tt | some pub_key ↦ run (checker_update pub_key) ]

  unfoldable pub set_up_tries : M W (Unit {0})
  set_up_tries st =
      let t = add_peers L 0 st.session.peers (fresh_tries L st.world) in
      (
        ok tt,
        record st {
          session = record st.session { aips_v4 = t.v4; aips_v6 = t.v6; aips_inited = true };
          world = t.world;
        },
      )

  -- From the noise identity on: a failure here is `goto err`.
  unfoldable pub set_up : M W (Unit {0})
  set_up = do
    loc ← some_or (pure tt) (← call local_alloc)
    update (λ s. record s { noise_local = some loc })
    s ← session
    run (local_private loc s.private_key)
    create_peers (length s.peers) 0
    set_up_checker
    set_up_tries

  -- `parse_config_text`, with its scratch copy of the text.
  unfoldable pub read_config : List ℕ → M W (Unit {0})
  read_config text = do
    scratch ← some_or (pure tt) (← call (malloc (length text + 1)))
    s ← session
    let parsed = parse_config_text N s text
    run (free scratch)
    s' ← some_or (pure tt) parsed
    update (λ _. s')

  -- `wg_session_create`, begun in a state with a session full of zeros. A failure is NULL, and on
  -- success the result is the session's address.
  unfoldable pub create : List ℕ → M W ℕ
  create text = do
    at ← some_or (pure tt) (← call calloc_session)
    ready ← call crypto_init
    check_or (run (free at)) ready
    on_fail (read_config text) (do run crypto_deinit; run (free at))
    on_fail set_up (destroy at)
    pure at
