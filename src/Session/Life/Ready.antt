-- ===== src/Session/Life/Ready.antt =====
-- The peers of a session that `wg_session_create` of src/wg_session.c returns.
use polar_wg_app.Common.{
  ℕ, zero, suc, ◌+◌, ◌≤◌, ◌<◌, ◌≡◌, refl, Bool, true, false, ◌&&◌, none, some, is_some, List,
  length, get_elem?, set, arith, get_elem?-set_ne, get_elem?-set_of_some, length-set, Option-cases,
  inl, inr, subst,
}
use polar_wg_app.Session.Types.{Peer}
use polar_wg_app.Session.Host.{Host, Net}
use polar_wg_app.Session.Monad.{St, Res, ok, fail, fault}
use polar_wg_app.Session.Peers.{resolve_endpoint}
use polar_wg_app.Session.Uapi.{set_psk}
use polar_wg_app.Session.Life.{
  resolve_peer, equip_peer, create_peer, create_peers, set_up_checker, set_up_tries, set_up, create,
}

-- A peer is active, with a noise remote and a cookie maker.
unfoldable pub is_ready : Peer → Bool
is_ready p = p.active && (is_some p.remote && p.cookie_inited)

-- So is the peer in slot `i`.
unfoldable pub ready_at : ℕ → List Peer → Bool
ready_at i ps = elim (get_elem? ps i) [ none ↦ false | some p ↦ is_ready p ]

-- And so are the peers in the first `k` slots.
unfoldable pub AreReady : ℕ → List Peer → Type 0
AreReady zero ps = Unit {0}
AreReady (suc k) ps = (ready_at k ps ≡ true) × AreReady k ps

ready_at-set_ne :
    (ps : List Peer) (i j : ℕ) (p : Peer) → j < i → ready_at j (set ps i p) ≡ ready_at j ps
unfolding ready_at
ready_at-set_ne ps i j p h =
    ground (arith, get_elem?-set_ne ps {i = i} {j = j} p (λ e. absurd (omega (arith, e, h))))

set-AreReady :
    (k : ℕ) (ps : List Peer) (i : ℕ) (p : Peer) → k ≤ i → AreReady k ps → AreReady k (set ps i p)
unfolding AreReady
set-AreReady zero ps i p h r = tt
set-AreReady (suc k) ps i p h r = (
  ground (arith, ready_at-set_ne ps i k p (omega arith), r.0),
  set-AreReady k ps i p (omega arith) r.1,
)

next-AreReady :
    (i : ℕ) (ps : List Peer) → AreReady i ps → ready_at i ps ≡ true → AreReady (i + 1) ps
unfolding AreReady
next-AreReady i ps k r = subst (λ j. AreReady j ps) {x = suc i} {y = i + 1} (omega arith) (r, k)

set-ready_at :
    (ps : List Peer) (i : ℕ) (p : Peer) {q : Peer}
    → get_elem? ps i ≡ some q
    → ready_at i (set ps i p) ≡ is_ready p
unfolding ready_at
set-ready_at ps i p e = ground (arith, get_elem?-set_of_some ps i p e)

module _ (N : Net) (L : Host) where
  open L use {W}

  resolve_peer-AreReady :
      (i : ℕ) (q : Peer) (st : St W)
      → AreReady i st.session.peers
      → ready_at i st.session.peers ≡ true
      → let ps = (resolve_peer N L i q st).1.session.peers in
        AreReady i ps × (ready_at i ps ≡ true) × (length ps ≡ length st.session.peers)
  unfolding resolve_peer resolve_endpoint ready_at is_ready
  resolve_peer-AreReady i q st k r = grind (arith, set-AreReady, get_elem?-set_of_some, length-set)

  -- The peer of a slot once its remote and its cookie maker are there.
  abbrev started : ℕ → Peer → Peer
  started rem p = record p { active = true; remote = some rem; cookie_inited = true }

  equip_peer-AreReady :
      (i : ℕ) (st : St W)
      → AreReady i st.session.peers
      → (a : Peer × ℕ) → (equip_peer N L i st).0 ≡ ok a
      → let ps = (equip_peer N L i st).1.session.peers in
        AreReady i ps × (ready_at i ps ≡ true) × (length ps ≡ length st.session.peers)
  unfolding equip_peer is_ready
  equip_peer-AreReady i st k a e = elim (Option-cases (get_elem? st.session.peers i)) [
    | inl e0 ↦ ground arith
    | inr (p, e0) ↦ elim (Option-cases st.session.noise_local) [
      | inl l0 ↦
          ground (arith, get_elem?-set_of_some st.session.peers i (record p { active = true }) e0)
      | inr (loc, l0) ↦ elim (Option-cases (L.remote_alloc loc i p.pubkey st.world).0) [
        | inl r0 ↦
            ground (arith, get_elem?-set_of_some st.session.peers i (record p { active = true }) e0)
        | inr (rem, r0) ↦
            let p1 = record p { active = true } in
            let p2 = record p1 { remote = some rem } in
            let p3 = started rem p in
            let ps1 = set st.session.peers i p1 in
            let ps2 = set ps1 i p2 in
            let ps3 = set ps2 i p3 in
            let e1 = get_elem?-set_of_some st.session.peers i p1 e0 in
            let e2 = get_elem?-set_of_some ps1 i p2 e1 in
            let e3 = get_elem?-set_of_some ps2 i p3 e2 in
            let k3 = set-AreReady i ps2 i p3 (omega arith) (
              set-AreReady i ps1 i p2 (omega arith)
                (set-AreReady i st.session.peers i p1 (omega arith) k)) in
            let r3 : ready_at i ps3 ≡ true = set-ready_at ps2 i p3 e2 in
            ground (
              arith,
              e1,
              e2,
              e3,
              length-set st.session.peers i p1,
              length-set ps1 i p2,
              length-set ps2 i p3,
              k3,
              r3,
            )
      ]
    ]
  ]

  create_peer-AreReady :
      (i : ℕ) (st : St W)
      → AreReady i st.session.peers
      → (create_peer N L i st).0 ≡ ok tt
      → let ps = (create_peer N L i st).1.session.peers in
        AreReady i ps × (ready_at i ps ≡ true) × (length ps ≡ length st.session.peers)
  unfolding create_peer set_psk
  create_peer-AreReady i st k e = go (equip_peer N L i st).0 refl
    where
      go :
          (r : Res (Peer × ℕ))
          → (equip_peer N L i st).0 ≡ r
          → let ps = (create_peer N L i st).1.session.peers in
            AreReady i ps × (ready_at i ps ≡ true) × (length ps ≡ length st.session.peers)
      go (ok (p, rem)) er =
          let st1 = (equip_peer N L i st).1 in
          let st2 : St W = record st1 { world = L.remote_set_psk rem p.psk st1.world } in
          let (k1, r1, l1) = equip_peer-AreReady i st k (p, rem) er in
          ground (
            arith,
            er,
            l1,
            resolve_peer-AreReady i p st1 k1 r1,
            resolve_peer-AreReady i p st2 k1 r1,
          )
      go fail er = ground (arith, er)
      go fault er = ground (arith, er)

  create_peers-AreReady :
      (n i m : ℕ) (st : St W)
      → m ≡ n + i
      → AreReady i st.session.peers
      → (create_peers N L n i st).0 ≡ ok tt
      → let ps = (create_peers N L n i st).1.session.peers in
        AreReady m ps × (length ps ≡ length st.session.peers)
  unfolding create_peers
  create_peers-AreReady zero i m st h k e =
      (subst (λ j. AreReady j st.session.peers) (omega arith) k, refl)
  create_peers-AreReady (suc n) i m st h k e = ground (
    arith,
    create_peer-AreReady i st k,
    next-AreReady i (create_peer N L i st).1.session.peers,
    create_peers-AreReady n (i + 1) m (create_peer N L i st).1,
  )

  set_up_checker-peers : (st : St W) → (set_up_checker N L st).1.session.peers ≡ st.session.peers
  unfolding set_up_checker
  set_up_checker-peers st = ground arith

  set_up_tries-peers : (st : St W) → (set_up_tries N L st).1.session.peers ≡ st.session.peers
  unfolding set_up_tries
  set_up_tries-peers st = ground arith

  zero-AreReady : (ps : List Peer) → AreReady 0 ps
  unfolding AreReady
  zero-AreReady ps = tt

  set_up-AreReady :
      (st : St W)
      → (set_up N L st).0 ≡ ok tt
      → let ps = (set_up N L st).1.session.peers in AreReady (length ps) ps
  unfolding set_up
  set_up-AreReady st e = elim (Option-cases (L.local_alloc st.world).0) [
    | inl e0 ↦ ground arith
    | inr (loc, e0) ↦
        let n = length st.session.peers in
        let st2 : St W = record st {
          session = record st.session { noise_local = some loc };
          world = L.local_private loc st.session.private_key (L.local_alloc st.world).1;
        } in
        let st3 = (create_peers N L n 0 st2).1 in
        ground (
          arith,
          create_peers-AreReady n 0 n st2 (omega arith) (zero-AreReady st.session.peers),
          set_up_checker-peers st3,
          set_up_tries-peers (set_up_checker N L st3).1,
        )
  ]

  -- If `wg_session_create` returns a session, every peer of it is active and has its noise remote and
  -- its cookie maker.
  pub create-AreReady :
      (text : List ℕ) (st : St W) (at : ℕ)
      → (create N L text st).0 ≡ ok at
      → let ps = (create N L text st).1.session.peers in AreReady (length ps) ps
  unfolding create
  create-AreReady text st at e = grind (arith, set_up-AreReady)
