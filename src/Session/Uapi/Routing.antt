-- ===== src/Session/Uapi/Routing.antt =====
-- The routes after `wg_session_set_uapi` of src/wg_session.c.
use polar_wg_app.Common.{
  ℕ, ◌+◌, ◌≡◌, ◌≢◌, subst, Bool, true, false, ◌&&◌, Option, none, some, List, [], ◌∷◌, take,
  if◌then◌else◌, arith, length, Option-cases, inl, inr, ◌⊎◌, ◌==◌, ◌≤◌,
}
use polar_wg_app.Allowedips
use polar_wg_app.Allowedips.Spec.{bits, Longest}
use polar_wg_app.Text.{tokens, c_string}
use polar_wg_app.Session.Types.{Family, Cidr, Peer}
use polar_wg_app.Session.Values.{max_prefix}
use polar_wg_app.Session.Host.{Host, Net}
use polar_wg_app.Session.Monad.{St, fault}
use polar_wg_app.Session.Routes.{rebuild_aips}
use polar_wg_app.Session.Routes.Owners.{
  owner, peers_owner, cidrs_owner, is_prefix, trie_of, rebuild_aips-Longest, peers-rebuild_aips,
}
use polar_wg_app.Session.Uapi.{set_lines, set_uapi}

-- Some CIDR of the list is exactly the prefix `q`.
unfoldable pub covers : Family → List Bool → List Cidr → Bool
covers f q [] = false
covers f q (c ∷ cs) = if is_prefix f q c then true else covers f q cs

-- Slot `i`, counted from `k`, holds an active peer with the prefix `q` among its allowed IPs.
unfoldable pub routes_to : Family → List Bool → ℕ → ℕ → List Peer → Bool
routes_to f q i k [] = false
routes_to f q i k (p ∷ ps) =
    if i == k then p.active && covers f q p.allowed else routes_to f q i (k + 1) ps

cidrs_owner-some :
    (f : Family) (q : List Bool) (slot : ℕ) (cs : List Cidr) (best : Option ℕ) (i : ℕ)
    → cidrs_owner f q slot cs best ≡ some i
    → (best ≡ some i) ⊎ ((i ≡ slot) × (covers f q cs ≡ true))
unfolding cidrs_owner covers
cidrs_owner-some f q slot [] best i e = inl e
cidrs_owner-some f q slot (c ∷ cs) best i e =
    ground (arith, cidrs_owner-some f q slot cs (if is_prefix f q c then some slot else best) i)

peers_owner-some :
    (f : Family) (q : List Bool) (k : ℕ) (ps : List Peer) (best : Option ℕ) (i : ℕ)
    → peers_owner f q k ps best ≡ some i
    → (best ≡ some i) ⊎ ((k ≤ i) × (routes_to f q i k ps ≡ true))
unfolding peers_owner routes_to
peers_owner-some f q k [] best i e = inl e
peers_owner-some f q k (p ∷ ps) best i e = ground (
  arith,
  peers_owner-some f q (k + 1) ps (if p.active then cidrs_owner f q k p.allowed best else best) i e,
  cidrs_owner-some f q k p.allowed best i,
)

-- A prefix has an owner only in an active peer that has the prefix among its allowed IPs.
pub owner_routes :
    (ps : List Peer) (f : Family) (q : List Bool) (i : ℕ)
    → owner ps f q ≡ some i
    → routes_to f q i 0 ps ≡ true
owner_routes ps f q i e = ground (arith, peers_owner-some f q 0 ps none i e)

module _ (N : Net) (L : Host) (ample : (w : L.W) → (L.calloc_node w).0 ≡ true) where
  open L use {W}

  set_uapi-rebuild_aips :
      (text : List ℕ) (st : St W)
      → (L.malloc (length text + 1) st.world).0 ≢ none
      → (set_uapi N L text st).0 ≢ fault
      → (st' : St W) × ((set_uapi N L text st).1 ≡ (rebuild_aips L st').1)
  unfolding set_uapi rebuild_aips
  set_uapi-rebuild_aips text st got sane =
      elim (Option-cases (L.malloc (length text + 1) st.world).0) [
        | inl e ↦ absurd (got e)
        | inr (a, e) ↦
            let st1 : St W = record st { world = (L.malloc (length text + 1) st.world).1 } in
            let st2 = (set_lines N L (tokens 0x0a (c_string text)) none st1).1 in
            (record st2 { world = L.free a st2.world }, ground arith)
      ]

  -- However `wg_session_set_uapi` ends, with 0 or with -1, if the allocator of nodes never fails,
  -- once the request has its scratch copy, and unless
  -- it follows a NULL pointer: a lookup in the trie of either family then yields the owner of the
  -- longest prefix of the address among the allowed IPs of the peers that are active afterwards.
  pub set_uapi-Longest :
      (text : List ℕ) (st : St W) (f : Family) (addr : List ℕ)
      → (L.malloc (length text + 1) st.world).0 ≢ none
      → (set_uapi N L text st).0 ≢ fault
      → let s = (set_uapi N L text st).1.session in
        Longest
          (owner s.peers f)
          (bits (max_prefix f) 0 addr)
          (Allowedips.lookup (trie_of f s) addr)
  set_uapi-Longest text st f addr got sane =
      let (st', e) = set_uapi-rebuild_aips text st got sane in
      rw (e, (peers-rebuild_aips L ample st').0) (rebuild_aips-Longest L ample f addr st')

  -- After `wg_session_set_uapi`, on the same conditions, a lookup that finds a slot finds one whose peer is active and has a
  -- prefix of the address among its allowed IPs: a removed peer is no longer routed to, and a CIDR
  -- that was replaced routes no more.
  pub set_uapi-routes :
      (text : List ℕ) (st : St W) (f : Family) (addr : List ℕ) (i : ℕ)
      → (L.malloc (length text + 1) st.world).0 ≢ none
      → (set_uapi N L text st).0 ≢ fault
      → Allowedips.lookup (trie_of f (set_uapi N L text st).1.session) addr ≡ some i
      → let s = (set_uapi N L text st).1.session in
        (n : ℕ) × (routes_to f (take n (bits (max_prefix f) 0 addr)) i 0 s.peers ≡ true)
  set_uapi-routes text st f addr i got sane found =
      let s = (set_uapi N L text st).1.session in
      let (n, _, own, _) =
        subst (Longest (owner s.peers f) (bits (max_prefix f) 0 addr)) found
          (set_uapi-Longest text st f addr got sane) in
      (n, owner_routes s.peers f _ i own)
