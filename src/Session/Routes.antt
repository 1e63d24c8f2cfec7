-- ===== src/Session/Routes.antt =====
-- `rebuild_aips` of src/wg_session.c, and the loop of `wg_session_create` that fills the tries.
pub mod Owners
use polar_wg_app.Common.{
  ℕ, zero, suc, ◌+◌, Bool, true, false, Option, none, some, List, [], ◌∷◌, if◌then◌else◌,
}
use polar_wg_app.Allowedips
use polar_wg_app.Allowedips.{Trie}
use polar_wg_app.Session.Types.{Family, inet, inet6, Cidr, Peer, Session}
use polar_wg_app.Session.Host.{Host}
use polar_wg_app.Session.Monad.{St, M, Res, ok, fail, fault}

module _ (L : Host) where
  open L use {W, calloc_node}

  pub record Tries : Type 0 where
    pub v4 : Trie
    pub v6 : Trie
    pub world : W

  -- `aips_insert` into the trie of the CIDR's family; its result code is not looked at.
  unfoldable pub add_cidr : ℕ → Cidr → Tries → Tries
  add_cidr slot c t = elim c.family [
    | inet ↦
        let r = Allowedips.insert calloc_node t.v4 c.addr c.prefix_len slot t.world in
        record { v4 = r.1; v6 = t.v6; world = r.2 }
    | inet6 ↦
        let r = Allowedips.insert calloc_node t.v6 c.addr c.prefix_len slot t.world in
        record { v4 = t.v4; v6 = r.1; world = r.2 }
  ]

  unfoldable pub add_cidrs : ℕ → List Cidr → Tries → Tries
  add_cidrs slot [] t = t
  add_cidrs slot (c ∷ cs) t = add_cidrs slot cs (add_cidr slot c t)

  -- The peers from slot `i` on; a slot that is not active is skipped.
  unfoldable pub add_peers : ℕ → List Peer → Tries → Tries
  add_peers i [] t = t
  add_peers i (p ∷ ps) t = add_peers (i + 1) ps (if p.active then add_cidrs i p.allowed t else t)

  unfoldable pub fresh_tries : W → Tries
  fresh_tries w = record { v4 = Allowedips.init 32; v6 = Allowedips.init 128; world = w }

  unfoldable pub rebuild_aips : M W (Unit {0})
  rebuild_aips st =
      let t = add_peers 0 st.session.peers (fresh_tries st.world) in
      (
        ok tt,
        record st {
          session = record st.session { aips_v4 = t.v4; aips_v6 = t.v6; aips_inited = true };
          world = t.world;
        },
      )
