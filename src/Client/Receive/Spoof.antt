-- ===== src/Client/Receive/Spoof.antt =====
-- The anti-spoofing guarantee of `rx_handle_datagram` in src/wg_core.c.
use polar_wg_app.Common.{
  ℕ, ◌≡◌, refl, Bool, true, false, Option, none, some, is_some, List, [], ◌∷◌, ltb, ◌==◌,
  if◌then◌else◌, length, take, drop, arith, ◌⊎◌, inl, inr, if-cases,
}
use polar_wg_app.Common
use polar_wg_app.Common.Run.{Res, ok, fail, fault}
use polar_wg_app.Session.Types.{le32, le64}
use polar_wg_app.Session.Host.{Host}
use polar_wg_app.Session.Mbuf.{devget}
use polar_wg_app.Client.Send.{Sockets}
use polar_wg_app.Client.Ctx.{TunnelCtx, T}
use polar_wg_app.Client.Device.{Device, framed, utun_write}
use polar_wg_app.Client.Handshake.Frame.{
  roam-SameTun, tunnel_consume_initiation-SameTun, tunnel_consume_response-SameTun,
  rx_cookie-SameTun,
}
use polar_wg_app.Client.Receive.{
  aips_lookup_inner_src, logs, remote_link, opened_packet, wg_decap, rx_inner, rx_opened, rx_data,
  rx_dispatch, rx_handle_datagram,
}

-- The packet in the newest write to the device.
unfoldable pub newest : List (List ℕ) → List ℕ
newest [] = []
newest (p ∷ ps) = drop 4 p

module _ (L : Host) (K : Sockets L.W) (D : Device L.W) (udp_fd utun_fd : ℕ) where
  open L use {W, keypair_lookup, keypair_decrypt, keypair_received_with, keypair_remote, remote_arg}

  -- The peer whose keypair opens a data packet.
  unfoldable pub opener : List ℕ → TunnelCtx W → Option ℕ
  opener buf c =
      let (looked, w) = keypair_lookup c.local (le32 buf 4) c.world in
      Common.◌>>=◌ looked λ kp.
        let (got, w1) = devget L (drop 16 buf) w in
        Common.◌>>=◌ got λ m.
          let (inside, w2) = keypair_decrypt kp (le64 buf 8) m.bytes w1 in
          Common.◌>>=◌ inside λ plain.
            let (from, w3) = keypair_remote kp (keypair_received_with kp w2) in
            Common.◌>>=◌ from λ rem. remote_arg rem w3

  -- The writes `new` are those of `old`, with at most one more, of a packet whose source the allowed IPs
  -- of `c` give to the peer `o`.
  abbrev pub OwnedBy : TunnelCtx W → Option ℕ → List (List ℕ) → List (List ℕ) → Type 0
  OwnedBy c o old new =
      (new ≡ old)
      ⊎ ((new ≡ framed K D utun_fd (newest new) ∷ old)
          × (aips_lookup_inner_src c.aips (newest new) ≡ o)
          × (is_some o ≡ true))

  rx_inner-OwnedBy :
      (i : ℕ) (inner from : List ℕ) (c : TunnelCtx W)
      → OwnedBy c (some i) c.tun (rx_inner L K D udp_fd utun_fd i inner from c).1.tun
  unfolding rx_inner utun_write newest framed
  rx_inner-OwnedBy i inner from c = grind (arith, roam-SameTun L K D udp_fd)

  pub logs-ctx : (r : Res (Unit {0}) × TunnelCtx W) → (logs r).1 ≡ r.1
  unfolding logs
  logs-ctx (ok a, c) = refl
  logs-ctx (fail, c) = refl
  logs-ctx (fault, c) = refl

  rx_opened-OwnedBy :
      (inner : List ℕ) (src : Option ℕ) (from : List ℕ) (c : TunnelCtx W)
      → OwnedBy c src c.tun (rx_opened L K D udp_fd utun_fd inner src from c).1.tun
  unfolding rx_opened
  rx_opened-OwnedBy inner none from c = inl refl
  rx_opened-OwnedBy inner (some i) from c =
      if-cases (λ (m : T W (Unit {0})). OwnedBy c (some i) c.tun (m c).1.tun) (length inner == 0)
        (λ _. inl (grind (arith, roam-SameTun L K D udp_fd))) (λ _. rx_inner-OwnedBy i inner from c)

  rx_data-OwnedBy :
      (buf from : List ℕ) (c : TunnelCtx W)
      → OwnedBy c (opener buf c) c.tun (rx_data L K D udp_fd utun_fd buf from c).1.tun
  unfolding rx_data wg_decap opened_packet remote_link opener
  rx_data-OwnedBy buf from c = grind (arith, rx_opened-OwnedBy)

  rx_dispatch-OwnedBy :
      (buf from : List ℕ) (c : TunnelCtx W)
      → OwnedBy c
          (if le32 buf 0 == 4 then opener buf c else none)
          c.tun
          (rx_dispatch L K D udp_fd utun_fd buf from c).1.tun
  unfolding rx_dispatch
  rx_dispatch-OwnedBy buf from c = grind (
    arith,
    rx_data-OwnedBy,
    tunnel_consume_initiation-SameTun L K D udp_fd,
    tunnel_consume_response-SameTun L K D udp_fd,
    rx_cookie-SameTun L K D udp_fd,
  )

  -- For every datagram `rx_handle_datagram` writes at most one packet to the tun device. It does so only
  -- for a data packet, with the family of the packet in front, and only if the allowed IPs give the
  -- source address of the packet to the very peer whose keypair opens the datagram.
  pub rx_handle_datagram-OwnedBy :
      (buf from : List ℕ) (c : TunnelCtx W)
      → OwnedBy c
          (if le32 buf 0 == 4 then opener buf c else none)
          c.tun
          (rx_handle_datagram L K D udp_fd utun_fd buf from c).1.tun
  unfolding rx_handle_datagram
  rx_handle_datagram-OwnedBy buf from c =
      let o = if le32 buf 0 == 4 then opener buf c else none in
      if-cases (λ (r : Res (Unit {0}) × TunnelCtx W). OwnedBy c o c.tun r.1.tun)
        (ltb (length buf) 4) (λ _. inl refl) (λ _. rw logs-ctx (rx_dispatch-OwnedBy buf from c))
