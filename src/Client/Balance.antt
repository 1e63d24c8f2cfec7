-- ===== src/Client/Balance.antt =====
-- References and allocations in src/wg_core.c: each path gives back what it takes.
pub mod Tunnel
pub mod Receive
pub mod Round
use polar_wg_app.Common.{ℕ, ◌+◌, ◌-◌, ◌≡◌, Bool, Option, none, some, List, arith}
use polar_wg_app.Session.Host.{Host, Initiation}
use polar_wg_app.Session.Mbuf.{Mbuf, devget, freem}
use polar_wg_app.Session.Balance.{Account}
use polar_wg_app.Client.Send.{
  Sockets, Tx, peer_tx_close, connect_socket, bind_socket, open_socket, renew_socket,
  peer_tx_socket, logged, send_by_address, drop_socket, send_on_socket, peer_send,
}
use polar_wg_app.Client.Device.{Device}

-- The other calls hand out nothing that is counted.
pub record Neutral (L : Host) (A : Account L) (K : Sockets L.W) (D : Device L.W) : Type 0 where
  pub socket : (f : ℕ) (w : L.W) → A.held (K.socket f w).1 ≡ A.held w
  pub bind : (fd f p : ℕ) (w : L.W) → A.held (K.bind fd f p w).1 ≡ A.held w
  pub connect : (fd : ℕ) (a : List ℕ) (w : L.W) → A.held (K.connect fd a w).1 ≡ A.held w
  pub close : (fd : ℕ) (w : L.W) → A.held (K.close fd w) ≡ A.held w
  pub send : (fd : ℕ) (b : List ℕ) (w : L.W) → A.held (K.send fd b w).1 ≡ A.held w
  pub sendto : (fd : ℕ) (b a : List ℕ) (w : L.W) → A.held (K.sendto fd b a w).1 ≡ A.held w
  pub time : (w : L.W) → A.held (K.time w).1 ≡ A.held w
  pub read : (fd : ℕ) (w : L.W) → A.held (D.read fd w).1 ≡ A.held w
  pub writev : (fd : ℕ) (b : List ℕ) (w : L.W) → A.held (D.writev fd b w).1 ≡ A.held w
  pub poll : (fd : ℕ) (w : L.W) → A.held (D.poll fd w).1 ≡ A.held w
  pub recvfrom : (fd : ℕ) (w : L.W) → A.held (D.recvfrom fd w).1 ≡ A.held w
  pub select : (fds : List ℕ) (w : L.W) → A.held (D.select fds w).1 ≡ A.held w
  pub random : (n : ℕ) (w : L.W) → A.held (D.arc4random_uniform n w).1 ≡ A.held w
  pub initiation : (r : ℕ) (w : L.W) → A.held (L.create_initiation r w).1 ≡ A.held w
  pub cookie : (i : ℕ) (n e : List ℕ) (w : L.W) → A.held (L.maker_consume i n e w).1 ≡ A.held w

module _ (L : Host) (A : Account L) (K : Sockets L.W) (D : Device L.W) (N : Neutral L A K D)
    (udp_fd : ℕ) where
  open L use {W}
  open A use {held}

  held-peer_tx_close : (s : Tx W) → held (peer_tx_close K s).world ≡ held s.world
  unfolding peer_tx_close
  held-peer_tx_close s = grind (arith, N.close)

  held-connect_socket : (fd : ℕ) (s : Tx W) → held (connect_socket K fd s).1.world ≡ held s.world
  unfolding connect_socket
  held-connect_socket fd s = grind (arith, N.connect, N.time, held-peer_tx_close)

  held-bind_socket : (fd : ℕ) (s : Tx W) → held (bind_socket K fd s).1.world ≡ held s.world
  unfolding bind_socket
  held-bind_socket fd s = grind (arith, N.bind, N.close, held-connect_socket)

  held-open_socket : (s : Tx W) → held (open_socket K s).1.world ≡ held s.world
  unfolding open_socket
  held-open_socket s = grind (arith, N.socket, held-connect_socket, held-bind_socket)

  held-renew_socket : (s : Tx W) → held (renew_socket K s).1.world ≡ held s.world
  unfolding renew_socket
  held-renew_socket s = grind (arith, held-open_socket, held-peer_tx_close)

  held-peer_tx_socket : (s : Tx W) → held (peer_tx_socket K s).1.world ≡ held s.world
  unfolding peer_tx_socket
  held-peer_tx_socket s = grind (arith, N.time, held-renew_socket)

  held-send_by_address :
      (buf ep : List ℕ) (s : Tx W) → held (send_by_address K udp_fd buf ep s).1.world ≡ held s.world
  unfolding send_by_address logged
  held-send_by_address buf ep s = grind (arith, N.sendto, N.time)

  held-drop_socket : (fd : ℕ) (s : Tx W) → held (drop_socket K fd s).world ≡ held s.world
  unfolding drop_socket logged
  held-drop_socket fd s = grind (arith, N.time, held-peer_tx_close)

  held-send_on_socket :
      (buf ep : List ℕ) (fd : ℕ) (s : Tx W)
      → held (send_on_socket K udp_fd buf ep fd s).1.world ≡ held s.world
  unfolding send_on_socket
  held-send_on_socket buf ep fd s = grind (arith, N.send, held-drop_socket, held-send_by_address)

  pub held-peer_send :
      (buf : List ℕ) (s : Tx W) → held (peer_send K udp_fd buf s).1.world ≡ held s.world
  unfolding peer_send
  held-peer_send buf s =
      grind (arith, held-peer_tx_socket, held-send_on_socket, held-send_by_address)
