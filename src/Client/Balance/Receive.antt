-- ===== src/Client/Balance/Receive.antt =====
-- References and allocations in the datagrams that src/wg_core.c receives.
use polar_wg_app.Common.{
  ℕ, ◌-◌, ◌≡◌, ◌≢◌, refl, Option, none, some, List, length, ltb, ◌==◌, if-cases, arith,
}
use polar_wg_app.Common.Run.{Res, ok, fail, fault}
use polar_wg_app.Session.Host.{Host}
use polar_wg_app.Session.Mbuf.{Mbuf}
use polar_wg_app.Session.Balance.{Account, one_if, held-devget, held-freem}
use polar_wg_app.Client.Send.{Sockets, peer_set_endpoint}
use polar_wg_app.Client.Ctx.{TunnelCtx, T}
use polar_wg_app.Client.Device.{Device, utun_write}
use polar_wg_app.Client.Handshake.{
  stamp_keypair, roam, reply, matched_link, respond, welcome, tunnel_consume_initiation, put_remote,
  settle, consumed, tunnel_consume_response, rx_cookie,
}
use polar_wg_app.Client.Receive.{
  remote_link, opened_packet, wg_decap, rx_inner, rx_opened, rx_data, rx_dispatch, logs,
  rx_handle_datagram,
}
use polar_wg_app.Client.Balance.{Neutral}

module _ (L : Host) (A : Account L) (K : Sockets L.W) (D : Device L.W) (N : Neutral L A K D)
    (udp_fd utun_fd : ℕ) where
  open L use {W}
  open A use {held}

  held-stamp_keypair :
      (i : ℕ) (c : TunnelCtx W) → held (stamp_keypair L K D udp_fd i c).1.world ≡ held c.world
  unfolding stamp_keypair
  held-stamp_keypair i c = grind (arith, N.time, N.random)

  roam-world :
      (i : ℕ) (from : List ℕ) (c : TunnelCtx W) → (roam L K D udp_fd i from c).1.world ≡ c.world
  unfolding roam peer_set_endpoint
  roam-world i from c = ground arith

  held-respond :
      (rem i : ℕ) (from : List ℕ) (c : TunnelCtx W)
      → (respond L K D udp_fd rem i from c).0 ≢ fault
      → held (respond L K D udp_fd rem i from c).1.world ≡ held c.world - 1
  unfolding respond reply
  held-respond rem i from c sane = grind (arith, A.respond, A.mac, A.remote_put, N.sendto)

  held-tunnel_consume_initiation :
      (buf from : List ℕ) (c : TunnelCtx W)
      → (tunnel_consume_initiation L K D udp_fd buf from c).0 ≢ fault
      → held (tunnel_consume_initiation L K D udp_fd buf from c).1.world ≡ held c.world
  unfolding tunnel_consume_initiation matched_link welcome
  held-tunnel_consume_initiation buf from c sane = grind (
    arith, A.validate, A.consume_init, A.remote_put, held-respond, roam-world, held-stamp_keypair,
  )

  held-tunnel_consume_response :
      (buf : List ℕ) (c : TunnelCtx W)
      → (tunnel_consume_response L K D udp_fd buf c).0 ≢ fault
      → held (tunnel_consume_response L K D udp_fd buf c).1.world ≡ held c.world
  unfolding tunnel_consume_response put_remote consumed settle
  held-tunnel_consume_response buf c sane =
      grind (arith, A.consume_resp, A.remote_put, held-stamp_keypair)

  held-rx_cookie :
      (buf : List ℕ) (c : TunnelCtx W) → held (rx_cookie L K D udp_fd buf c).1.world ≡ held c.world
  unfolding rx_cookie
  held-rx_cookie buf c = grind (arith, N.cookie)

  held-remote_link :
      (r : Option ℕ) (c : TunnelCtx W)
      → held (remote_link L K D udp_fd utun_fd r c).1.world ≡ held c.world - one_if r
  unfolding remote_link
  held-remote_link r c = grind (arith, A.remote_put)

  held-opened_packet :
      (kp : ℕ) (m : Mbuf) (plain : List ℕ) (c : TunnelCtx W)
      → held (opened_packet L K D udp_fd utun_fd kp m plain c).1.world ≡ held c.world - 3
  unfolding opened_packet remote_link
  held-opened_packet kp m plain c =
      grind (arith, A.received, A.remote, A.remote_put, A.keypair_put, held-freem L A)

  held-wg_decap :
      (buf : List ℕ) (c : TunnelCtx W)
      → held (wg_decap L K D udp_fd utun_fd buf c).1.world ≡ held c.world
  unfolding wg_decap
  held-wg_decap buf c = grind (
    arith,
    A.lookup,
    A.decrypt,
    A.keypair_put,
    held-devget L A,
    held-freem L A,
    held-opened_packet,
  )

  held-rx_inner :
      (i : ℕ) (inner from : List ℕ) (c : TunnelCtx W)
      → held (rx_inner L K D udp_fd utun_fd i inner from c).1.world ≡ held c.world
  unfolding rx_inner utun_write
  held-rx_inner i inner from c = grind (arith, N.writev, roam-world)

  held-rx_opened :
      (inner : List ℕ) (src : Option ℕ) (from : List ℕ) (c : TunnelCtx W)
      → held (rx_opened L K D udp_fd utun_fd inner src from c).1.world ≡ held c.world
  unfolding rx_opened
  held-rx_opened inner none from c = refl
  held-rx_opened inner (some i) from c =
      if-cases (λ (m : T W (Unit {0})). held (m c).1.world ≡ held c.world) (length inner == 0)
        (λ _. grind (arith, roam-world)) (λ _. held-rx_inner i inner from c)

  held-rx_data :
      (buf from : List ℕ) (c : TunnelCtx W)
      → held (rx_data L K D udp_fd utun_fd buf from c).1.world ≡ held c.world
  unfolding rx_data
  held-rx_data buf from c = grind (arith, held-wg_decap, held-rx_opened)

  held-rx_dispatch :
      (buf from : List ℕ) (c : TunnelCtx W)
      → (rx_dispatch L K D udp_fd utun_fd buf from c).0 ≢ fault
      → held (rx_dispatch L K D udp_fd utun_fd buf from c).1.world ≡ held c.world
  unfolding rx_dispatch
  held-rx_dispatch buf from c sane = grind (
    arith, held-rx_data, held-tunnel_consume_initiation, held-tunnel_consume_response,
    held-rx_cookie,
  )

  logged_as :
      (r : Res (Unit {0}) × TunnelCtx W) (n : ℕ)
      → (r.0 ≢ fault → held r.1.world ≡ n)
      → (logs r).0 ≢ fault
      → held (logs r).1.world ≡ n
  unfolding logs
  logged_as (ok a, c) n h sane = h (λ e. sane cc)
  logged_as (fail, c) n h sane = h (λ e. sane cc)
  logged_as (fault, c) n h sane = absurd (sane refl)

  -- `rx_handle_datagram` gives back every keypair and remote reference and every allocation that it
  -- takes, on all of its paths that follow no NULL pointer.
  pub held-rx_handle_datagram :
      (buf from : List ℕ) (c : TunnelCtx W)
      → (rx_handle_datagram L K D udp_fd utun_fd buf from c).0 ≢ fault
      → held (rx_handle_datagram L K D udp_fd utun_fd buf from c).1.world ≡ held c.world
  unfolding rx_handle_datagram
  held-rx_handle_datagram buf from c =
      if-cases (λ (r : Res (Unit {0}) × TunnelCtx W). r.0 ≢ fault → held r.1.world ≡ held c.world)
        (ltb (length buf) 4) (λ _ _. refl)
        (λ _.
          logged_as (rx_dispatch L K D udp_fd utun_fd buf from c) (held c.world)
            (held-rx_dispatch buf from c))
