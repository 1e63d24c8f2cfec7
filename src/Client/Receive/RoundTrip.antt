-- ===== src/Client/Receive/RoundTrip.antt =====
-- From one tun device to another: what `tx_handle_packet` of src/wg_core.c sends at one end,
-- `rx_handle_datagram` writes at the other.
use polar_wg_app.Common.{
  ℕ, zero, suc, ◌+◌, ◌*◌, ◌/◌, ◌%◌, ◌^◌, ◌≤◌, ◌<◌, ◌≡◌, refl, ap, ◌∙◌, Bool, true, false, Option,
  none, some, List, [], ◌∷◌, ◌++◌, length, take, drop, get_elem?, arith,
}
use polar_wg_app.Common
use polar_wg_app.Common.Run.{ok}
use polar_wg_app.Session.Types.{le32, le64}
use polar_wg_app.Session.Host.{Host}
use polar_wg_app.Session.Mbuf.{Mbuf, devget}
use polar_wg_app.Session.Data.{padded_len, pad, datagram, inner_ip_len}
use polar_wg_app.Session.Data.RoundTrip.{inner_ip_len-pad, take-pad, length-pad}
use polar_wg_app.Session.Data.Encap.{length-datagram}
use polar_wg_app.Client.Types.{wg_buf_max}
use polar_wg_app.Client.Send.{Sockets, peer_send}
use polar_wg_app.Client.Ctx.{Link, TunnelCtx}
use polar_wg_app.Client.Tunnel.{send_frame, encrypt_frame, fill_frame, number_frame, wg_encap}
use polar_wg_app.Client.Device.{Device, framed, utun_write}
use polar_wg_app.Client.Receive.Spoof.{logs-ctx}
use polar_wg_app.Client.Handshake.Frame.{SameTun, roam-SameTun}
use polar_wg_app.Client.Receive.{
  aips_lookup_inner_src, inner_packet, remote_link, opened_packet, wg_decap, rx_inner, rx_opened,
  rx_data, rx_dispatch, rx_handle_datagram,
}

-- The packet that the noise layer of the sender made: the receiver's index, the counter, the bytes, and
-- the sender's world afterwards.
pub record Sealed (W : Type 0) : Type 0 where
  pub r_idx : ℕ
  pub nonce : ℕ
  pub body : List ℕ
  pub world : W

le32-datagram :
    (r n : ℕ) (body : List ℕ)
    → r < 2 ^ 32
    → (le32 (datagram r n body) 0 ≡ 4) × (le32 (datagram r n body) 4 ≡ r)
unfolding datagram
le32-datagram r n body h = (refl, omega arith)

le64-datagram : (r n : ℕ) (body : List ℕ) → n < 2 ^ 64 → le64 (datagram r n body) 8 ≡ n
unfolding datagram
le64-datagram r n body h = omega arith

drop-datagram : (r n : ℕ) (body : List ℕ) → drop 16 (datagram r n body) ≡ body
unfolding datagram
drop-datagram r n body = refl

inner_packet-pad :
    (p : List ℕ)
    → inner_ip_len p ≡ some (length p)
    → length p ≤ wg_buf_max
    → inner_packet (pad p) ≡ some p
unfolding inner_packet
inner_packet-pad p h short = ground (arith, length-pad p, inner_ip_len-pad p h, take-pad p)

module _ (L : Host) (K : Sockets L.W) (udp_fd : ℕ) where
  open L use {W, keypair_current, keypair_nonce_next, keypair_encrypt}

  -- How the noise layer seals a packet for a peer.
  unfoldable pub seal : List ℕ → Link W → Option (Sealed W)
  seal plain l =
      let (o, w) = keypair_current l.remote l.tx.world in
      Common.◌>>=◌ o λ kp.
        let (n, w1) = keypair_nonce_next kp w in
        Common.◌>>=◌ n λ nonce.
          let (got, w2) = devget L (pad plain) w1 in
          Common.◌>>=◌ got λ m.
            let (made, w3) = keypair_encrypt kp nonce m.bytes w2 in
            Common.◌>>=◌ made
              λ x. some (record { r_idx = x.0; nonce = nonce; body = x.1; world = w3 })

  pub wg_encap-seal :
      (plain : List ℕ) (l : Link W) (s : Sealed W)
      → seal plain l ≡ some s
      → 0 < length l.tx.peer.endpoint
      → padded_len (length plain) ≤ wg_buf_max
      → 16 + length s.body ≤ wg_buf_max
      → (wg_encap L K udp_fd plain l).1.tx.calls
        ≡ (peer_send K udp_fd
            (datagram s.r_idx s.nonce s.body)
            (record l.tx { world = s.world })).1.calls
  unfolding wg_encap number_frame fill_frame encrypt_frame send_frame seal
  wg_encap-seal plain l s e to_someone fits small = ground arith

module _ (L : Host) (K : Sockets L.W) (D : Device L.W) (udp_fd utun_fd : ℕ) where
  open L use {W, keypair_lookup, keypair_decrypt, keypair_received_with, keypair_remote, remote_arg}

  -- How the noise layer opens a packet: the peer whose keypair does it, and the bytes inside.
  unfoldable pub opens : ℕ → ℕ → List ℕ → TunnelCtx W → Option (ℕ × List ℕ)
  opens r_idx nonce body c =
      let (looked, w) = keypair_lookup c.local r_idx c.world in
      Common.◌>>=◌ looked λ kp.
        let (got, w1) = devget L body w in
        Common.◌>>=◌ got λ m.
          let (inside, w2) = keypair_decrypt kp nonce m.bytes w1 in
          Common.◌>>=◌ inside λ plain.
            let (from, w3) = keypair_remote kp (keypair_received_with kp w2) in
            Common.◌>>=◌ from λ rem. Common.◌>>=◌ (remote_arg rem w3) λ i. some (i, plain)

  rx_inner-tun :
      (i : ℕ) (inner from : List ℕ) (c : TunnelCtx W)
      → 0 < length inner
      → aips_lookup_inner_src c.aips inner ≡ some i
      → (rx_inner L K D udp_fd utun_fd i inner from c).1.tun ≡ framed K D utun_fd inner ∷ c.tun
  unfolding rx_inner utun_write
  rx_inner-tun i inner from c some_bytes own = grind (arith, roam-SameTun L K D udp_fd)

  opened_packet-opens :
      (kp : ℕ) (m : Mbuf) (plain inner : List ℕ) (c : TunnelCtx W)
      → inner_packet plain ≡ some inner
      → (opened_packet L K D udp_fd utun_fd kp m plain c).0
        ≡ ok (
          inner,
          let (from, w) = keypair_remote kp (keypair_received_with kp c.world) in
              Common.◌>>=◌ from λ rem. remote_arg rem w,
        )
  unfolding opened_packet remote_link
  opened_packet-opens kp m plain inner c cut = ground arith

  opened_packet-SameTun :
      (kp : ℕ) (m : Mbuf) (plain : List ℕ) (c : TunnelCtx W)
      → SameTun c (opened_packet L K D udp_fd utun_fd kp m plain c).1
  unfolding opened_packet remote_link
  opened_packet-SameTun kp m plain c = ground arith

  wg_decap-opens :
      (r n : ℕ) (body inner buf : List ℕ) (i : ℕ) (plain : List ℕ) (c : TunnelCtx W)
      → 32 ≤ length buf
      → le32 buf 0 ≡ 4
      → le32 buf 4 ≡ r
      → le64 buf 8 ≡ n
      → drop 16 buf ≡ body
      → opens r n body c ≡ some (i, plain)
      → inner_packet plain ≡ some inner
      → let (a, d) = wg_decap L K D udp_fd utun_fd buf c in (a ≡ ok (inner, some i)) × SameTun c d
  unfolding wg_decap opens
  wg_decap-opens r n body inner buf i plain c long e0 e4 e8 e16 op cut =
      grind (arith, opened_packet-opens, opened_packet-SameTun)

  rx_data-tun :
      (r n : ℕ) (body inner from : List ℕ) (i : ℕ) (c : TunnelCtx W)
      → r < 2 ^ 32
      → n < 2 ^ 64
      → 16 ≤ length body
      → opens r n body c ≡ some (i, pad inner)
      → inner_ip_len inner ≡ some (length inner)
      → 0 < length inner
      → length inner ≤ wg_buf_max
      → aips_lookup_inner_src c.aips inner ≡ some i
      → (rx_data L K D udp_fd utun_fd (datagram r n body) from c).1.tun
        ≡ framed K D utun_fd inner ∷ c.tun
  unfolding rx_data rx_opened
  rx_data-tun r n body inner from i c hr hn long op whole_ip some_bytes short own =
      let buf = datagram r n body in
      let (e, same) =
        wg_decap-opens r n body inner buf i (pad inner) c (omega (arith, length-datagram r n body))
          (le32-datagram r n body hr).0 (le32-datagram r n body hr).1 (le64-datagram r n body hn)
          (drop-datagram r n body) op (inner_packet-pad inner whole_ip short) in
      let d = (wg_decap L K D udp_fd utun_fd buf c).1 in
      ground (
        arith,
        e,
        same,
        rx_inner-tun i inner from d some_bytes
            (ap (λ t. aips_lookup_inner_src t inner) same.1 ∙ own),
      )

  pub rx_handle_datagram-tun :
      (r n : ℕ) (body inner from : List ℕ) (i : ℕ) (c : TunnelCtx W)
      → r < 2 ^ 32
      → n < 2 ^ 64
      → 16 ≤ length body
      → opens r n body c ≡ some (i, pad inner)
      → inner_ip_len inner ≡ some (length inner)
      → 0 < length inner
      → length inner ≤ wg_buf_max
      → aips_lookup_inner_src c.aips inner ≡ some i
      → (rx_handle_datagram L K D udp_fd utun_fd (datagram r n body) from c).1.tun
        ≡ framed K D utun_fd inner ∷ c.tun
  unfolding rx_handle_datagram rx_dispatch
  rx_handle_datagram-tun r n body inner from i c hr hn long op whole_ip some_bytes short own =
      ground (
        arith,
        length-datagram r n body,
        le32-datagram r n body hr,
        rx_data-tun r n body inner from i c hr hn long op whole_ip some_bytes short own,
        logs-ctx L K D udp_fd utun_fd (rx_data L K D udp_fd utun_fd (datagram r n body) from c),
      )
