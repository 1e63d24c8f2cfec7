-- ===== src/Client/Handshake/Frame.antt =====
-- What the handshake messages of src/wg_core.c leave alone.
use polar_wg_app.Common.{ℕ, ◌≡◌, List, arith}
use polar_wg_app.Session.Host.{Host}
use polar_wg_app.Client.Send.{Sockets}
use polar_wg_app.Client.Ctx.{TunnelCtx}
use polar_wg_app.Client.Device.{Device}
use polar_wg_app.Client.Handshake.{
  stamp_keypair, roam, reply, matched_link, respond, welcome, tunnel_consume_initiation, put_remote,
  settle, consumed, tunnel_consume_response, rx_cookie,
}

-- What was written to the device, and who owns which address.
abbrev pub SameTun : {W : Type 0} → TunnelCtx W → TunnelCtx W → Type 0
SameTun c d = (d.tun ≡ c.tun) × (d.aips ≡ c.aips)

module _ (L : Host) (K : Sockets L.W) (D : Device L.W) (udp_fd : ℕ) where
  open L use {W}

  pub stamp_keypair-SameTun :
      (i : ℕ) (c : TunnelCtx W) → SameTun c (stamp_keypair L K D udp_fd i c).1
  unfolding stamp_keypair
  stamp_keypair-SameTun i c = ground arith

  pub roam-SameTun :
      (i : ℕ) (from : List ℕ) (c : TunnelCtx W) → SameTun c (roam L K D udp_fd i from c).1
  unfolding roam
  roam-SameTun i from c = ground arith

  respond-SameTun :
      (rem i : ℕ) (from : List ℕ) (c : TunnelCtx W)
      → SameTun c (respond L K D udp_fd rem i from c).1
  unfolding respond reply
  respond-SameTun rem i from c = ground arith

  pub tunnel_consume_initiation-SameTun :
      (buf from : List ℕ) (c : TunnelCtx W)
      → SameTun c (tunnel_consume_initiation L K D udp_fd buf from c).1
  unfolding tunnel_consume_initiation matched_link welcome
  tunnel_consume_initiation-SameTun buf from c =
      grind (arith, respond-SameTun, roam-SameTun, stamp_keypair-SameTun)

  pub tunnel_consume_response-SameTun :
      (buf : List ℕ) (c : TunnelCtx W) → SameTun c (tunnel_consume_response L K D udp_fd buf c).1
  unfolding tunnel_consume_response put_remote consumed settle
  tunnel_consume_response-SameTun buf c = grind (arith, stamp_keypair-SameTun)

  pub rx_cookie-SameTun :
      (buf : List ℕ) (c : TunnelCtx W) → SameTun c (rx_cookie L K D udp_fd buf c).1
  unfolding rx_cookie
  rx_cookie-SameTun buf c = ground arith
