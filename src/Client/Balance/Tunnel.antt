-- ===== src/Client/Balance/Tunnel.antt =====
-- References and allocations in the timers of src/wg_core.c.
use polar_wg_app.Common.{ℕ, ◌-◌, ◌≡◌, List, arith}
use polar_wg_app.Session.Host.{Host}
use polar_wg_app.Session.Mbuf.{Mbuf}
use polar_wg_app.Session.Balance.{Account, held-devget, held-freem}
use polar_wg_app.Client.Send.{Sockets}
use polar_wg_app.Client.Ctx.{Link}
use polar_wg_app.Client.Device.{Device}
use polar_wg_app.Client.Tunnel.{
  send_message, send_initiation, send_frame, encrypt_frame, fill_frame, number_frame,
  note_no_keypair, wg_encap, tunnel_send_initiation, retransmit, initiate, keep_alive,
  tunnel_tick_peer,
}
use polar_wg_app.Client.Balance.{Neutral, held-peer_send}

module _ (L : Host) (A : Account L) (K : Sockets L.W) (D : Device L.W) (N : Neutral L A K D)
    (udp_fd : ℕ) where
  open L use {W}
  open A use {held}

  held-send_initiation :
      (l : Link W) → held (send_initiation L K udp_fd l).1.tx.world ≡ held l.tx.world
  unfolding send_initiation send_message
  held-send_initiation l = grind (arith, N.initiation, A.mac, held-peer_send L A K D N udp_fd)

  held-send_frame :
      (kp nonce : ℕ) (m : Mbuf) (r_idx : ℕ) (body : List ℕ) (l : Link W)
      → held (send_frame L K udp_fd kp nonce m r_idx body l).1.tx.world ≡ held l.tx.world - 3
  unfolding send_frame
  held-send_frame kp nonce m r_idx body l =
      grind (arith, A.keypair_put, held-freem L A, held-peer_send L A K D N udp_fd)

  held-encrypt_frame :
      (kp nonce : ℕ) (m : Mbuf) (l : Link W)
      → held (encrypt_frame L K udp_fd kp nonce m l).1.tx.world ≡ held l.tx.world - 3
  unfolding encrypt_frame
  held-encrypt_frame kp nonce m l =
      grind (arith, A.encrypt, A.keypair_put, held-freem L A, held-send_frame)

  held-fill_frame :
      (kp nonce : ℕ) (scratch : List ℕ) (l : Link W)
      → held (fill_frame L K udp_fd kp nonce scratch l).1.tx.world ≡ held l.tx.world - 1
  unfolding fill_frame
  held-fill_frame kp nonce scratch l =
      grind (arith, A.keypair_put, held-devget L A, held-encrypt_frame)

  held-number_frame :
      (kp : ℕ) (scratch : List ℕ) (l : Link W)
      → held (number_frame L K udp_fd kp scratch l).1.tx.world ≡ held l.tx.world - 1
  unfolding number_frame
  held-number_frame kp scratch l = grind (arith, A.nonce, A.keypair_put, held-fill_frame)

  -- `wg_encap` gives back the reference to the keypair and the buffer on all of its paths.
  pub held-wg_encap :
      (plain : List ℕ) (l : Link W)
      → held (wg_encap L K udp_fd plain l).1.tx.world ≡ held l.tx.world
  unfolding wg_encap note_no_keypair
  held-wg_encap plain l = grind (arith, A.current, N.time, held-number_frame)

  held-tunnel_send_initiation :
      (now : ℕ) (l : Link W)
      → held (tunnel_send_initiation L K udp_fd now l).tx.world ≡ held l.tx.world
  unfolding tunnel_send_initiation
  held-tunnel_send_initiation now l = grind (arith, held-send_initiation)

  pub held-tunnel_tick_peer :
      (now : ℕ) (l : Link W) → held (tunnel_tick_peer L K udp_fd now l).tx.world ≡ held l.tx.world
  unfolding tunnel_tick_peer retransmit initiate keep_alive
  held-tunnel_tick_peer now l = grind (arith, held-tunnel_send_initiation, held-wg_encap)
