-- ===== src/Client/Receive.antt =====
-- What the tunnel loop of src/wg_core.c receives: `aips_lookup_inner_src`, `wg_decap` and
-- `rx_handle_datagram`.
pub mod Spoof
pub mod Roam
pub mod RoundTrip
use polar_wg_app.Common.{
  ℕ, ◌+◌, Option, none, some, List, [], leb, ltb, ◌==◌, if◌then◌else◌, length, take, drop,
}
use polar_wg_app.Common.Run.{Res, ok, fail, fault, pure, ◌>>=◌, ◌>>◌, check, some_or}
use polar_wg_app.Allowedips
use polar_wg_app.Session.Types.{add64, le32, le64}
use polar_wg_app.Session.Host.{Host}
use polar_wg_app.Session.Mbuf.{Mbuf, devget, freem}
use polar_wg_app.Session.Data.{version, inner_ip_len, data_hdr_len, owns}
use polar_wg_app.Client.Types.{PeerState, wg_buf_max}
use polar_wg_app.Client.Send.{Sockets}
use polar_wg_app.Client.Ctx.{AipsSet, TunnelCtx, T, ctx, call, run, change_state}
use polar_wg_app.Client.Device.{Device, utun_write}
use polar_wg_app.Client.Handshake.{
  roam, tunnel_consume_initiation, tunnel_consume_response, rx_cookie,
}

-- `aips_lookup_inner_src`
unfoldable pub aips_lookup_inner_src : AipsSet → List ℕ → Option ℕ
aips_lookup_inner_src s inner =
    if length inner == 0
    then none
    else if version inner == 4
    then (if ltb (length inner) 20 then none else Allowedips.lookup s.v4 (drop 12 inner))
    else if version inner == 6
    then (if ltb (length inner) 40 then none else Allowedips.lookup s.v6 (drop 8 inner))
    else none

-- The packet that `wg_decap` copies out of the decrypted bytes, empty for a keepalive, and `none` where
-- it returns -1.
unfoldable pub inner_packet : List ℕ → Option (List ℕ)
inner_packet plain = if length plain == 0 then some [] else elim (inner_ip_len plain) [
  | none ↦ none
  | some n ↦ if ltb wg_buf_max n then none else some (take n plain)
]

-- `if (f() != 0) log`: the result code is dropped.
unfoldable pub logs : {S : Type 0} → Res (Unit {0}) × S → Res (Unit {0}) × S
logs (ok a, c) = (ok tt, c)
logs (fail, c) = (ok tt, c)
logs (fault, c) = (fault, c)

module _ (L : Host) (K : Sockets L.W) (D : Device L.W) (udp_fd utun_fd : ℕ) where
  open L use {
    W, consume_initiation, create_response, consume_response, maker_mac, maker_consume,
    validate_macs, keypair_lookup, keypair_decrypt, keypair_received_with, keypair_remote,
    keypair_put, remote_arg, remote_put,
  }

  abbrev pub drop_both : Mbuf → ℕ → T W (Unit {0})
  drop_both m kp = run (freem L m) >> run (keypair_put kp)

  -- `r ? noise_remote_arg(r) : NULL`, after which the reference to `r` is given back.
  unfoldable pub remote_link : Option ℕ → T W (Option ℕ)
  remote_link none c = (ok none, c)
  remote_link (some rem) c =
      (ok (remote_arg rem c.world), record c { world = remote_put rem c.world })

  -- `wg_decap` once the packet is decrypted to `plain`.
  unfoldable pub opened_packet : ℕ → Mbuf → List ℕ → T W (List ℕ × Option ℕ)
  opened_packet kp m plain = do
    run (keypair_received_with kp)
    src ← remote_link (← call (keypair_remote kp))
    inner ← some_or (drop_both m kp) (inner_packet plain)
    drop_both m kp
    pure (inner, src)

  -- `wg_decap`: the inner packet, and the peer whose keypair opens the datagram.
  unfoldable pub wg_decap : List ℕ → T W (List ℕ × Option ℕ)
  wg_decap buf = do
    check (leb (data_hdr_len + 16) (length buf))
    check (le32 buf 0 == 4)
    c ← ctx
    kp ← some_or (pure tt) (← call (keypair_lookup c.local (le32 buf 4)))
    m ← some_or (run (keypair_put kp)) (← call (devget L (drop data_hdr_len buf)))
    plain ← some_or (drop_both m kp) (← call (keypair_decrypt kp (le64 buf 8) m.bytes))
    opened_packet kp m plain

  unfoldable pub counted : ℕ → PeerState → PeerState
  counted n p = record p { rx_pkts = add64 p.rx_pkts 1; rx_bytes = add64 p.rx_bytes n }

  -- A packet from a peer whose allowed IPs do not hold its source.
  unfoldable pub dropped : PeerState → PeerState
  dropped p = record p { rx_dropped_aips = add64 p.rx_dropped_aips 1 }

  unfoldable pub kept_alive : PeerState → PeerState
  kept_alive p = record p { rx_pkts = add64 p.rx_pkts 1 }

  -- An inner packet that is no keepalive.
  unfoldable pub rx_inner : ℕ → List ℕ → List ℕ → T W (Unit {0})
  rx_inner i inner from = do
    c ← ctx
    if owns i (aips_lookup_inner_src c.aips inner)
        then (do
          written ← (λ c1. let (done, c2) = utun_write K D utun_fd inner c1 in (ok done, c2))
          if written
              then (do change_state i (counted (length inner)); roam L K D udp_fd i from)
              else pure tt)
        else change_state i dropped

  -- The test of what `wg_decap` returned.
  unfoldable pub rx_opened : List ℕ → Option ℕ → List ℕ → T W (Unit {0})
  rx_opened inner none from c = (ok tt, c)
  rx_opened inner (some i) from c =
      (if length inner == 0
          then (do change_state i kept_alive; roam L K D udp_fd i from)
          else rx_inner i inner from)
        c

  unfoldable pub rx_data : List ℕ → List ℕ → T W (Unit {0})
  rx_data buf from = do (inner, src) ← wg_decap buf; rx_opened inner src from

  -- `rx_handle_datagram` of at least four bytes.
  unfoldable pub rx_dispatch : List ℕ → List ℕ → T W (Unit {0})
  rx_dispatch buf from c =
      let t = le32 buf 0 in
      if t == 4
      then rx_data buf from c
      else if t == 1
      then tunnel_consume_initiation L K D udp_fd buf from c
      else if t == 2
      then tunnel_consume_response L K D udp_fd buf c
      else if t == 3
      then rx_cookie L K D udp_fd buf c
      else (ok tt, c)

  -- `rx_handle_datagram`
  unfoldable pub rx_handle_datagram : List ℕ → List ℕ → T W (Unit {0})
  rx_handle_datagram buf from c =
      if ltb (length buf) 4 then (ok tt, c) else logs (rx_dispatch buf from c)
