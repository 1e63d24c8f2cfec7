-- ===== src/Session/Routes/Owners.antt =====
-- What the tries hold after `rebuild_aips` of src/wg_session.c.
use polar_wg_app.Common.{
  ℕ, ◌+◌, ◌≡◌, refl, ◌∙◌, ap, Bool, true, false, ◌&&◌, Option, none, some, List, [], ◌∷◌,
  if◌then◌else◌, leb, arith, subst, fun_ext,
}
use polar_wg_app.Allowedips
use polar_wg_app.Allowedips.{Trie, init}
use polar_wg_app.Allowedips.Spec.{bits, entry, same_bits, Longest}
use polar_wg_app.Allowedips.Lookup.{lookup-Longest}
use polar_wg_app.Allowedips.Insert.{entry-insert, insert_succeeds, max_bits-insert}
use polar_wg_app.Session.Types.{Family, inet, inet6, Cidr, Peer, Session}
use polar_wg_app.Session.Values.{max_prefix}
use polar_wg_app.Session.Host.{Host}
use polar_wg_app.Session.Monad.{St}
use polar_wg_app.Session.Routes.{Tries, add_cidr, add_cidrs, add_peers, fresh_tries, rebuild_aips}

abbrev pub same_family : Family → Family → Bool
same_family inet inet = true
same_family inet inet6 = false
same_family inet6 inet = false
same_family inet6 inet6 = true

-- The CIDR is exactly the prefix `q` of the family's addresses.
abbrev pub is_prefix : Family → List Bool → Cidr → Bool
is_prefix f q c =
    same_family f c.family
    && (leb c.prefix_len (max_prefix f) && same_bits (bits c.prefix_len 0 c.addr) q)

-- The slot that a list of CIDRs gives the prefix to, the last one winning.
unfoldable pub cidrs_owner : Family → List Bool → ℕ → List Cidr → Option ℕ → Option ℕ
cidrs_owner f q slot [] best = best
cidrs_owner f q slot (c ∷ cs) best =
    cidrs_owner f q slot cs (if is_prefix f q c then some slot else best)

-- The active peer, from slot `i` on, that was last given the prefix.
unfoldable pub peers_owner : Family → List Bool → ℕ → List Peer → Option ℕ → Option ℕ
peers_owner f q i [] best = best
peers_owner f q i (p ∷ ps) best =
    peers_owner f q (i + 1) ps (if p.active then cidrs_owner f q i p.allowed best else best)

abbrev pub owner : List Peer → Family → List Bool → Option ℕ
owner ps f q = peers_owner f q 0 ps none

-- The trie of a family in a session.
abbrev pub trie_of : Family → Session → Trie
trie_of inet s = s.aips_v4
trie_of inet6 s = s.aips_v6

module _ (L : Host) (ample : (w : L.W) → (L.calloc_node w).0 ≡ true) where
  abbrev trie : Family → Tries L → Trie
  trie inet t = t.v4
  trie inet6 t = t.v6

  abbrev IsSized : Tries L → Type 0
  IsSized t = (t.v4.max_bits ≡ 32) × (t.v6.max_bits ≡ 128)

  add_cidr-IsSized : (slot : ℕ) (c : Cidr) (t : Tries L) → IsSized t → IsSized (add_cidr L slot c t)
  unfolding add_cidr
  add_cidr-IsSized slot c t h = ground (
    arith,
    max_bits-insert L.calloc_node t.v4 c.addr c.prefix_len slot t.world,
    max_bits-insert L.calloc_node t.v6 c.addr c.prefix_len slot t.world,
  )

  entry-add_cidr :
      (f : Family) (q : List Bool) (slot : ℕ) (c : Cidr) (t : Tries L)
      → IsSized t
      → entry (trie f (add_cidr L slot c t)).root q
        ≡ (if is_prefix f q c then some slot else entry (trie f t).root q)
  unfolding add_cidr
  entry-add_cidr inet q slot c t h = ground (
    arith,
    entry-insert L.calloc_node t.v4 c.addr c.prefix_len slot t.world q,
    insert_succeeds L.calloc_node t.v4 c.addr c.prefix_len slot t.world ample,
  )
  entry-add_cidr inet6 q slot c t h = ground (
    arith,
    entry-insert L.calloc_node t.v6 c.addr c.prefix_len slot t.world q,
    insert_succeeds L.calloc_node t.v6 c.addr c.prefix_len slot t.world ample,
  )

  entry-add_cidrs :
      (f : Family) (q : List Bool) (slot : ℕ) (cs : List Cidr) (t : Tries L)
      → IsSized t
      → (entry (trie f (add_cidrs L slot cs t)).root q
          ≡ cidrs_owner f q slot cs (entry (trie f t).root q))
        × IsSized (add_cidrs L slot cs t)
  unfolding add_cidrs cidrs_owner
  entry-add_cidrs f q slot [] t h = (refl, h)
  entry-add_cidrs f q slot (c ∷ cs) t h =
      let (e, sized) =
        entry-add_cidrs f q slot cs (add_cidr L slot c t) (add_cidr-IsSized slot c t h) in
      (e ∙ ap (cidrs_owner f q slot cs) (entry-add_cidr f q slot c t h), sized)

  entry-add_peer :
      (f : Family) (q : List Bool) (i : ℕ) (cs : List Cidr) (t : Tries L) (b : Bool)
      → IsSized t
      → (entry (trie f (if b then add_cidrs L i cs t else t)).root q
          ≡ (if b then cidrs_owner f q i cs (entry (trie f t).root q) else entry (trie f t).root q))
        × IsSized (if b then add_cidrs L i cs t else t)
  entry-add_peer f q i cs t true h = entry-add_cidrs f q i cs t h
  entry-add_peer f q i cs t false h = (refl, h)

  entry-add_peers :
      (f : Family) (q : List Bool) (i : ℕ) (ps : List Peer) (t : Tries L)
      → IsSized t
      → (entry (trie f (add_peers L i ps t)).root q
          ≡ peers_owner f q i ps (entry (trie f t).root q))
        × IsSized (add_peers L i ps t)
  unfolding add_peers peers_owner
  entry-add_peers f q i [] t h = (refl, h)
  entry-add_peers f q i (p ∷ ps) t h =
      let (e, sized) = entry-add_peer f q i p.allowed t p.active h in
      let (e', sized') = entry-add_peers f q (i + 1) ps _ sized in
      (e' ∙ ap (peers_owner f q (i + 1) ps) e, sized')

  pub entry-rebuild_aips :
      (f : Family) (q : List Bool) (st : St L.W)
      → let s = (rebuild_aips L st).1.session in
        (entry (trie_of f s).root q ≡ owner st.session.peers f q)
        × ((trie_of f s).max_bits ≡ max_prefix f)
  unfolding rebuild_aips fresh_tries init entry
  entry-rebuild_aips inet q st =
      let (e, sized) =
        entry-add_peers inet q 0 st.session.peers (fresh_tries L st.world) (refl, refl) in
      (e, sized.0)
  entry-rebuild_aips inet6 q st =
      let (e, sized) =
        entry-add_peers inet6 q 0 st.session.peers (fresh_tries L st.world) (refl, refl) in
      (e, sized.1)

  -- After `rebuild_aips`, with memory enough for its nodes, a lookup in the trie of either family
  -- yields the active peer that was given the longest prefix of the address by its allowed IPs (the
  -- last such peer, where several have that prefix), and NULL if no active peer has a prefix of it.
  pub rebuild_aips-Longest :
      (f : Family) (addr : List ℕ) (st : St L.W)
      → let s = (rebuild_aips L st).1.session in
        Longest
          (owner st.session.peers f)
          (bits (max_prefix f) 0 addr)
          (Allowedips.lookup (trie_of f s) addr)
  rebuild_aips-Longest f addr st =
      let t = trie_of f (rebuild_aips L st).1.session in
      let same : entry t.root ≡ owner st.session.peers f =
        fun_ext λ q. (entry-rebuild_aips f q st).0 in
      let sized : t.max_bits ≡ max_prefix f = (entry-rebuild_aips f [] st).1 in
      subst (λ g. Longest g (bits (max_prefix f) 0 addr) (Allowedips.lookup t addr)) same
        (subst (λ n. Longest (entry t.root) (bits n 0 addr) (Allowedips.lookup t addr)) sized
          (lookup-Longest t addr))

  -- `rebuild_aips` changes nothing of the session but its tries, and makes no upcall.
  pub peers-rebuild_aips :
      (st : St L.W)
      → let st' = (rebuild_aips L st).1 in
        (st'.session.peers ≡ st.session.peers) × (st'.out ≡ st.out)
  unfolding rebuild_aips
  peers-rebuild_aips st = (refl, refl)
