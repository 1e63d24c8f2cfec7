-- ===== src/Client/Ctx.antt =====
-- The state of the tunnel loop of src/wg_core.c: `tunnel_ctx`, its peers, and the globals that the
-- loop uses.
use polar_wg_app.Common.{
  ℕ, ◌≡◌, refl, Bool, Option, none, some, List, get_elem?, set, All, All-set, All-get,
}
use polar_wg_app.Common.Run.{Run, ok, fault, deref}
use polar_wg_app.Allowedips.{Trie}
use polar_wg_app.Client.Types.{PeerState}
use polar_wg_app.Client.Send.{Call, Tx}

-- A peer: its timers and counters, the handle of its noise remote, the slot of its cookie maker, the
-- time of a log line, and what it sends with. What `tx` has besides the peer is valid in a call for the
-- peer only.
pub record Link (W : Type 0) : Type 0 where
  pub state : PeerState
  pub remote : ℕ
  pub slot : ℕ
  pub nokp_log_last : ℕ
  pub tx : Tx W

-- `struct aips_set`
pub record AipsSet : Type 0 where
  pub v4 : Trie
  pub v6 : Trie

-- `has_checker` says that `cookie_checker` is not NULL; `connected_tx` and `bound_port` are globals,
-- `calls` the datagrams so far, and `tun` what was written to the tun device, the last one first.
pub record TunnelCtx (W : Type 0) : Type 0 where
  pub peers : List (Link W)
  pub local : ℕ
  pub has_checker : Bool
  pub aips : AipsSet
  pub connected_tx : Bool
  pub bound_port : ℕ
  pub world : W
  pub calls : List (Call W)
  pub tun : List (List ℕ)

abbrev pub T : Type 0 → Type 0 → Type 0
T W A = Run (TunnelCtx W) A

module _ {W : Type 0} where
  abbrev pub in_world : W → Link W → Link W
  in_world w l = record l { tx = record l.tx { world = w } }

  -- The peer with the world and the globals of the loop, and the loop after a call for the peer.
  abbrev pub enter : TunnelCtx W → Link W → Link W
  enter c l = record l {
    tx = record {
      peer = l.tx.peer;
      connected_tx = c.connected_tx;
      bound_port = c.bound_port;
      world = c.world;
      calls = c.calls;
    };
  }

  abbrev pub leave : ℕ → Link W → TunnelCtx W → TunnelCtx W
  leave i l c = record c {
    peers = set c.peers i l;
    connected_tx = l.tx.connected_tx;
    bound_port = l.tx.bound_port;
    world = l.tx.world;
    calls = l.tx.calls;
  }

  abbrev pub ctx : T W (TunnelCtx W)
  ctx c = (ok c, c)

  abbrev pub call : {A : Type 0} → (W → A × W) → T W A
  call f c = let (a, w) = f c.world in (ok a, record c { world = w })

  abbrev pub run : (W → W) → T W (Unit {0})
  run f c = (ok tt, record c { world = f c.world })

  -- The peer of a slot.
  abbrev pub link : ℕ → T W (Link W)
  link i c = deref (get_elem? c.peers i) c

  -- A call for the peer of a slot.
  abbrev pub on_found : {A : Type 0} → ℕ → (Link W → A × Link W) → Option (Link W) → T W A
  on_found i f none c = (fault, c)
  on_found i f (some l) c = let (a, l1) = f (enter c l) in (ok a, leave i l1 c)

  abbrev pub on_link : {A : Type 0} → ℕ → (Link W → A × Link W) → T W A
  on_link i f c = on_found i f (get_elem? c.peers i) c

  abbrev pub change_state : ℕ → (PeerState → PeerState) → T W (Unit {0})
  change_state i f = on_link i (λ l. (tt, record l { state = f l.state }))

  -- What a call for one peer keeps for it, the loop keeps for all.
  pub on_link-All :
      {A : Type 0} (P : Link W → Type 0) (i : ℕ) (f : Link W → A × Link W) (c : TunnelCtx W)
      → All P c.peers
      → ((l : Link W) → P l → P (f (enter c l)).1)
      → All P (on_link i f c).1.peers
  on_link-All P i f c h keeps = found (get_elem? c.peers i) refl
    where
      found : (o : Option (Link W)) → get_elem? c.peers i ≡ o → All P (on_found i f o c).1.peers
      found none e = h
      found (some l) e = All-set P c.peers i (f (enter c l)).1 h (keeps l (All-get P c.peers i h e))
