-- ===== src/Client/Balance/Round.antt =====
-- References and allocations in the rounds of the tunnel loop of src/wg_core.c.
use polar_wg_app.Common.{
  ℕ, zero, suc, ◌+◌, ◌≡◌, ◌≢◌, refl, ◌∙◌, Bool, Option, none, some, List, length, get_elem?, arith,
}
use polar_wg_app.Common.Run.{Res, ok, fail, fault, pure, ◌>>=◌}
use polar_wg_app.Session.Host.{Host}
use polar_wg_app.Session.Balance.{Account}
use polar_wg_app.Client.Send.{Sockets}
use polar_wg_app.Client.Ctx.{Link, TunnelCtx, T, call, enter, on_found, on_link}
use polar_wg_app.Client.Device.{Device, utun_read}
use polar_wg_app.Client.Tunnel.{tunnel_tick_peer, tick_from, tunnel_tick}
use polar_wg_app.Client.Loop.{dst_peer, transmit, tx_route, tx_handle_packet, tunnel_round}
use polar_wg_app.Client.Loop.Rule.{IsCompositional, tunnel_round-rule}
use polar_wg_app.Client.Balance.{Neutral}
use polar_wg_app.Client.Balance.Tunnel.{held-wg_encap, held-tunnel_tick_peer}
use polar_wg_app.Client.Balance.Receive.{held-rx_handle_datagram}

module _ (L : Host) (A : Account L) (K : Sockets L.W) (D : Device L.W) (N : Neutral L A K D)
    (udp_fd utun_fd : ℕ) where
  open L use {W}
  open A use {held}

  -- Unless it follows a NULL pointer, the code leaves the count where it was.
  abbrev GivesBack : {B : Type 0} → T W B → Type 0
  GivesBack m =
      (n : ℕ) (c : TunnelCtx W) → held c.world ≡ n → (m c).0 ≢ fault → held (m c).1.world ≡ n

  then_GivesBack :
      {B C : Type 0} (m : T W B) (f : B → T W C)
      → GivesBack m
      → ((b : B) → GivesBack (f b))
      → GivesBack (m >>= f)
  then_GivesBack {B = B} m f h keeps n c e = ended (m c) (h n c e)
    where
      ended :
          (r : Res B × TunnelCtx W)
          → (r.0 ≢ fault → held r.1.world ≡ n)
          → (((λ _. r) >>= f) c).0 ≢ fault
          → held (((λ _. r) >>= f) c).1.world ≡ n
      ended (ok b, d) k = keeps b n d (k (λ e. cc))
      ended (fail, d) k = λ _. k (λ e. cc)
      ended (fault, d) k = λ sane. absurd (sane refl)

  call-GivesBack :
      {B : Type 0} (f : W → B × W) → ((w : W) → held (f w).1 ≡ held w) → GivesBack (call f)
  call-GivesBack f h n c e = λ _. h c.world ∙ e

  on_link-GivesBack :
      {B : Type 0} (i : ℕ) (f : Link W → B × Link W)
      → ((l : Link W) → held (f l).1.tx.world ≡ held l.tx.world)
      → GivesBack (on_link i f)
  on_link-GivesBack i f keeps n c e = found (get_elem? c.peers i)
    where
      found :
          (o : Option (Link W)) → (on_found i f o c).0 ≢ fault → held (on_found i f o c).1.world ≡ n
      found none = λ sane. absurd (sane refl)
      found (some l) = λ _. keeps (enter c l) ∙ e

  tick_from-GivesBack : (now n i : ℕ) → GivesBack (tick_from L K udp_fd now n i)
  unfolding tick_from
  tick_from-GivesBack now zero i m c e = λ _. e
  tick_from-GivesBack now (suc n) i m c e =
      then_GivesBack (on_link i (λ l. (tt, tunnel_tick_peer L K udp_fd now l)))
        (λ _. tick_from L K udp_fd now n (i + 1))
        (on_link-GivesBack i (λ l. (tt, tunnel_tick_peer L K udp_fd now l))
          (held-tunnel_tick_peer L A K D N udp_fd now))
        (λ _. tick_from-GivesBack now n (i + 1)) m c e

  transmit-held :
      (now : ℕ) (inner : List ℕ) (l : Link W)
      → held (transmit L K D udp_fd utun_fd now inner l).1.tx.world ≡ held l.tx.world
  unfolding transmit
  transmit-held now inner l = grind (arith, held-wg_encap L A K D N udp_fd)

  pure-GivesBack : {B : Type 0} (b : B) → GivesBack (pure b)
  pure-GivesBack b n c e = λ _. e

  tx_route-GivesBack :
      (inner : List ℕ) (now : ℕ) (o : Option ℕ)
      → GivesBack (tx_route L K D udp_fd utun_fd inner now o)
  unfolding tx_route
  tx_route-GivesBack inner now none = pure-GivesBack tt
  tx_route-GivesBack inner now (some i) =
      on_link-GivesBack i (transmit L K D udp_fd utun_fd now inner) (transmit-held now inner)

  loop_rule : IsCompositional L K D udp_fd utun_fd (λ B m. GivesBack {B = B} m)
  unfolding utun_read tunnel_tick tx_handle_packet
  loop_rule = record {
    value = pure-GivesBack;
    sequence = then_GivesBack;
    state = λ f h n c. h c n c;
    stop = λ n c e _. e;
    time = call-GivesBack K.time N.time;
    read = call-GivesBack (utun_read K D utun_fd) (N.read utun_fd);
    poll = call-GivesBack (D.poll utun_fd) (N.poll utun_fd);
    recvfrom = λ fd. call-GivesBack (D.recvfrom fd) (N.recvfrom fd);
    select = λ fds. call-GivesBack (D.select fds) (N.select fds);
    tick = λ now n c. tick_from-GivesBack now (length c.peers) 0 n c;
    transmit = λ inner now n c. tx_route-GivesBack inner now (dst_peer c inner) n c;
    receive =
        λ buf from n c e sane. held-rx_handle_datagram L A K D N udp_fd utun_fd buf from c sane ∙ e;
  }

  -- A round of the loop of `run_tunnel` gives back every keypair and remote reference and every
  -- allocation that it takes, in the timers, for every packet from the device and for every datagram,
  -- unless it follows a NULL pointer.
  pub tunnel_round-GivesBack :
      (tx_thread : Bool) (c : TunnelCtx W)
      → (tunnel_round L K D udp_fd utun_fd tx_thread c).0 ≢ fault
      → held (tunnel_round L K D udp_fd utun_fd tx_thread c).1.world ≡ held c.world
  tunnel_round-GivesBack tx_thread c =
      tunnel_round-rule L K D udp_fd utun_fd (λ B m. GivesBack {B = B} m) loop_rule tx_thread
        (held c.world) c refl
