-- ===== src/Client/Loop.antt =====
-- The tunnel loop of src/wg_core.c: `tx_handle_packet`, a round of `tx_thread_main`, and a round of the
-- loop of `run_tunnel`, without the status socket, the routes and the texts.
pub mod Delivery
pub mod Rule
pub mod Sound
pub mod Waits
use polar_wg_app.Common.{
  ℕ, zero, suc, Bool, true, false, not, ◌&&◌, Option, none, some, List, [], ◌∷◌, leb, ltb, ◌==◌,
  if◌then◌else◌, length, drop,
}
use polar_wg_app.Common.Run.{ok, fail, pure, ◌>>=◌, ◌>>◌}
use polar_wg_app.Allowedips
use polar_wg_app.Session.Types.{add64}
use polar_wg_app.Session.Host.{Host}
use polar_wg_app.Session.Data.{version}
use polar_wg_app.Client.Types.{PeerState, wg_max_peers}
use polar_wg_app.Client.Send.{Sockets}
use polar_wg_app.Client.Ctx.{ctx, Link, TunnelCtx, T, call, on_link}
use polar_wg_app.Client.Tunnel.{wg_encap, tunnel_tick}
use polar_wg_app.Client.Device.{
  Polled, Received, interrupted, poll_error, idle, hung_up, readable, datagram_from, drained,
  refused, recv_error, Device, utun_read,
}
use polar_wg_app.Client.Receive.{rx_handle_datagram}

abbrev pub wg_rx_batch : ℕ
wg_rx_batch = 64

abbrev pub wg_tx_batch : ℕ
wg_tx_batch = 64

abbrev pub fd_setsize : ℕ
fd_setsize = 1024

unfoldable pub has_fd : ℕ → List ℕ → Bool
has_fd fd [] = false
has_fd fd (x ∷ xs) = if x == fd then true else has_fd fd xs

-- The sockets that are open, of the first peers for which there is room.
unfoldable pub tx_fds : {W : Type 0} → ℕ → List (Link W) → List ℕ
tx_fds zero ls = []
tx_fds (suc n) [] = []
tx_fds (suc n) (l ∷ ls) = elim l.tx.peer.tx_fd [
  | none ↦ tx_fds (suc n) ls
  | some fd ↦ fd ∷ tx_fds n ls
]

-- The peer that owns the destination of a packet from the device.
unfoldable pub dst_peer : {W : Type 0} → TunnelCtx W → List ℕ → Option ℕ
dst_peer c inner =
    if version inner == 4 && leb 20 (length inner)
    then Allowedips.lookup c.aips.v4 (drop 16 inner)
    else if version inner == 6 && leb 40 (length inner)
    then Allowedips.lookup c.aips.v6 (drop 24 inner)
    else none

module _ (L : Host) (K : Sockets L.W) (D : Device L.W) (udp_fd utun_fd : ℕ) where
  open L use {W}

  -- A packet went out to the peer.
  unfoldable pub transmitted : ℕ → ℕ → PeerState → PeerState
  transmitted now n p = record p {
    tx_pkts = add64 p.tx_pkts 1;
    tx_bytes = add64 p.tx_bytes n;
    last_authd_tx = now;
  }

  unfoldable pub transmit : ℕ → List ℕ → Link W → Unit {0} × Link W
  transmit now inner l =
      let (done, l1) = wg_encap L K udp_fd inner l in
      (tt, if done then record l1 { state = transmitted now (length inner) l1.state } else l1)

  unfoldable pub tx_route : List ℕ → ℕ → Option ℕ → T W (Unit {0})
  tx_route inner now none = pure tt
  tx_route inner now (some i) = on_link i (transmit now inner)

  -- `tx_handle_packet`
  unfoldable pub tx_handle_packet : List ℕ → ℕ → T W (Unit {0})
  tx_handle_packet inner now c = tx_route inner now (dst_peer c inner) c

  -- What follows a read from the device, and whether the loop goes on.
  unfoldable pub tx_packet : ℕ → Option (List ℕ) → T W Bool
  tx_packet now none = pure false
  tx_packet now (some inner) =
      if length inner == 0 then pure true else tx_handle_packet inner now >> pure true

  -- The loop that reads at most `n` packets from the device.
  unfoldable pub tx_drain : ℕ → ℕ → T W (Unit {0})
  tx_drain zero now = pure tt
  tx_drain (suc n) now = do
    got ← call (utun_read K D utun_fd)
    more ← tx_packet now got
    if more then tx_drain n now else pure tt

  -- What follows the `poll` of `tx_thread_main`, and whether its loop goes on.
  unfoldable pub after_poll : Polled → T W Bool
  after_poll interrupted = pure true
  after_poll poll_error = pure false
  after_poll idle = pure true
  after_poll hung_up = pure false
  after_poll readable = do now ← call K.time; tx_drain 4096 now; pure true

  -- A round of `tx_thread_main`.
  unfoldable pub tx_thread_round : T W Bool
  tx_thread_round = call (D.poll utun_fd) >>= after_poll

  -- The descriptors that a round of the loop of `run_tunnel` waits for.
  unfoldable pub rx_fds : TunnelCtx W → List ℕ
  rx_fds c = udp_fd ∷ tx_fds wg_max_peers c.peers

  -- What follows a `recvfrom`, and whether the loop goes on.
  unfoldable pub rx_received : Received → T W Bool
  rx_received (datagram_from buf from) =
      rx_handle_datagram L K D udp_fd utun_fd buf from >> pure true
  rx_received drained = pure false
  rx_received refused = pure true
  rx_received recv_error = pure false

  -- The loop that reads at most `n` datagrams from a descriptor.
  unfoldable pub rx_drain : ℕ → ℕ → T W (Unit {0})
  rx_drain zero fd = pure tt
  rx_drain (suc n) fd = do
    got ← call (D.recvfrom fd)
    more ← rx_received got
    if more then rx_drain n fd else pure tt

  unfoldable pub rx_all : List ℕ → List ℕ → T W (Unit {0})
  rx_all ready [] = pure tt
  rx_all ready (fd ∷ fds) =
      (if ltb fd fd_setsize && has_fd fd ready then rx_drain wg_rx_batch fd else pure tt)
      >> rx_all ready fds

  -- The packets of the device, and the datagrams of the descriptors `fds`.
  unfoldable pub drain_all : Bool → List ℕ → List ℕ → ℕ → T W (Unit {0})
  drain_all tx_thread fds ready now =
      (if not tx_thread && has_fd utun_fd ready then tx_drain wg_tx_batch now else pure tt)
      >> rx_all ready fds

  -- What follows `select`.
  unfoldable pub serve : Bool → List ℕ → List ℕ → T W (Unit {0})
  serve tx_thread fds ready = do
    now ← call K.time
    tunnel_tick L K udp_fd now
    if length ready == 0 then pure tt else drain_all tx_thread fds ready now

  -- What `select` returned for the descriptors `fds`.
  unfoldable pub selected : Bool → List ℕ → Option (List ℕ) → T W (Unit {0})
  selected tx_thread fds none c = (if D.is_retried c.world then ok tt else fail, c)
  selected tx_thread fds (some ready) c = serve tx_thread fds ready c

  -- A round of the loop of `run_tunnel`, which goes on unless the round returns -1.
  unfoldable pub tunnel_round : Bool → T W (Unit {0})
  tunnel_round tx_thread = do
    c ← ctx
    got ← call (D.select (if tx_thread then rx_fds c else utun_fd ∷ rx_fds c))
    selected tx_thread (rx_fds c) got
