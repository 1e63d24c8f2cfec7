-- ===== src/Client/Loop/Waits.antt =====
-- What a round of the loop of `run_tunnel` in src/wg_core.c waits for.
use polar_wg_app.Common.{ℕ, Bool, false, not, ◌&&◌, ◌||◌, none, some, List, [], ◌∷◌, ◌==◌}
use polar_wg_app.Session.Host.{Host}
use polar_wg_app.Client.Send.{Sockets}
use polar_wg_app.Client.Ctx.{Link, TunnelCtx}
use polar_wg_app.Client.Device.{Device}

-- Some peer has this socket open.
unfoldable pub is_open : {W : Type 0} → ℕ → List (Link W) → Bool
is_open fd [] = false
is_open fd (l ∷ ls) = elim l.tx.peer.tx_fd [
  | none ↦ is_open fd ls
  | some x ↦ (x == fd) || is_open fd ls
]

module _ (L : Host) (K : Sockets L.W) (D : Device L.W) (udp_fd utun_fd : ℕ) where
  open L use {W}

  -- `fd` is the listener, the socket that a peer has open, or, without a thread of its own for it, the tun
  -- device.
  abbrev pub is_awaited : Bool → ℕ → TunnelCtx W → Bool
  is_awaited tx_thread fd c =
      (not tx_thread && (utun_fd == fd)) || ((udp_fd == fd) || is_open fd c.peers)
