-- ===== src/Client/Loop/Delivery.antt =====
-- Two clients of src/wg_core.c: what one reads from its tun device, the other writes to its own.
use polar_wg_app.Common.{
  ℕ, Bool, ◌+◌, ◌^◌, ◌≤◌, ◌<◌, ◌≡◌, some, List, ◌∷◌, length, get_elem?, arith,
}
use polar_wg_app.Session.Host.{Host}
use polar_wg_app.Session.Data.{padded_len, pad, datagram, inner_ip_len}
use polar_wg_app.Session.Data.Encap.{padded_len_lem}
use polar_wg_app.Client.Types.{wg_buf_max}
use polar_wg_app.Client.Send.{Sockets, Tx, peer_send}
use polar_wg_app.Client.Ctx.{Link, TunnelCtx, enter}
use polar_wg_app.Client.Device.{Device, framed}
use polar_wg_app.Client.Receive.{aips_lookup_inner_src, rx_handle_datagram}
use polar_wg_app.Client.Receive.RoundTrip.{
  Sealed, seal, opens, wg_encap-seal, rx_handle_datagram-tun,
}
use polar_wg_app.Client.Loop.{dst_peer, transmit, tx_route, tx_handle_packet}

module _ (L : Host) (K : Sockets L.W) (D : Device L.W) (udp_fd utun_fd : ℕ) where
  open L use {W}

  -- The datagram that carries a sealed packet, sent by `peer_send` for the peer.
  abbrev pub sent_calls : Sealed W → TunnelCtx W → Link W → Bool × Tx W
  sent_calls s a l =
      peer_send K udp_fd (datagram s.r_idx s.nonce s.body)
        (record (enter a l).tx { world = s.world })

  tx_handle_packet-calls :
      (inner : List ℕ) (now i : ℕ) (a : TunnelCtx W) (l : Link W) (s : Sealed W)
      → dst_peer a inner ≡ some i
      → get_elem? a.peers i ≡ some l
      → seal L K udp_fd inner (enter a l) ≡ some s
      → 0 < length l.tx.peer.endpoint
      → padded_len (length inner) ≤ wg_buf_max
      → 16 + length s.body ≤ wg_buf_max
      → (tx_handle_packet L K D udp_fd utun_fd inner now a).1.calls ≡ (sent_calls s a l).1.calls
  unfolding tx_handle_packet tx_route transmit
  tx_handle_packet-calls inner now i a l s routed e sealed to_someone fits small =
      ground (arith, wg_encap-seal L K udp_fd inner (enter a l) s sealed to_someone fits small)

module _ (LA : Host) (KA : Sockets LA.W) (DA : Device LA.W) (udp_a utun_a : ℕ) (LB : Host)
    (KB : Sockets LB.W) (DB : Device LB.W) (udp_b utun_b : ℕ) where
  -- Two clients, `a` and `b`. The client `a` reads a whole IP packet from its tun device for a peer `i` that has
  -- an endpoint, of at most 16384 bytes when padded. If its noise layer seals the packet, in at most 16384
  -- bytes with the header, and the noise layer of `b` opens what was sealed as the same bytes
  -- and names a peer `j` to which the allowed IPs of `b` give the source address of the packet, then
  -- `tx_handle_packet` of `a` sends a datagram for the peer by `peer_send`, and `rx_handle_datagram` of
  -- `b` for that datagram, from whatever address it comes, writes exactly the packet, with its family in
  -- front, to the tun device of `b`.
  pub packet-delivered :
      (inner from : List ℕ) (now i j : ℕ) (a : TunnelCtx LA.W) (l : Link LA.W) (s : Sealed LA.W)
      (b : TunnelCtx LB.W)
      → inner_ip_len inner ≡ some (length inner)
      → 0 < length inner
      → padded_len (length inner) ≤ wg_buf_max
      → dst_peer a inner ≡ some i
      → get_elem? a.peers i ≡ some l
      → 0 < length l.tx.peer.endpoint
      → seal LA KA udp_a inner (enter a l) ≡ some s
      → 16 ≤ length s.body
      → 16 + length s.body ≤ wg_buf_max
      → s.r_idx < 2 ^ 32
      → s.nonce < 2 ^ 64
      → opens LB KB DB udp_b utun_b s.r_idx s.nonce s.body b ≡ some (j, pad inner)
      → aips_lookup_inner_src b.aips inner ≡ some j
      → let d = datagram s.r_idx s.nonce s.body in
        ((tx_handle_packet LA KA DA udp_a utun_a inner now a).1.calls
          ≡ (sent_calls LA KA DA udp_a utun_a s a l).1.calls)
        × ((rx_handle_datagram LB KB DB udp_b utun_b d from b).1.tun
            ≡ framed KB DB utun_b inner ∷ b.tun)
  packet-delivered inner from now i j a l s b whole_ip some_bytes fits routed e to_someone sealed
        long small hr hn op own =
      (
        tx_handle_packet-calls LA KA DA udp_a utun_a inner now i a l s routed e sealed to_someone
            fits small,
        rx_handle_datagram-tun LB KB DB udp_b utun_b s.r_idx s.nonce s.body inner from j b hr hn
            long op whole_ip some_bytes (omega (arith, (padded_len_lem (length inner)).1)) own,
      )
