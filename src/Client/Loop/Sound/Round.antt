-- ===== src/Client/Loop/Sound/Round.antt =====
-- What the rounds of the tunnel loop of src/wg_core.c keep.
use polar_wg_app.Common.{
  ℕ, ◌≢◌, zero, suc, ◌+◌, ◌≤◌, ◌<◌, ◌≡◌, refl, ap, Bool, Option, none, some, List, if-cases, length,
  arith,
}
use polar_wg_app.Common.Run.{fault, pure, ◌>>=◌}
use polar_wg_app.Session.Host.{Host}
use polar_wg_app.Client.Types.{PeerState}
use polar_wg_app.Client.Send.{Sockets}
use polar_wg_app.Client.Ctx.{Link, AipsSet, TunnelCtx, T, call, enter, on_link}
use polar_wg_app.Client.Device.{Device, utun_read}
use polar_wg_app.Client.Tunnel.{wg_encap, tunnel_tick_peer, tick_from, tunnel_tick}
use polar_wg_app.Client.Tunnel.Attempts.{IsTried, wg_encap-Keeps, tunnel_tick_peer-IsTried}
use polar_wg_app.Client.Loop.{
  dst_peer, transmitted, transmit, tx_route, tx_handle_packet, tunnel_round, tx_thread_round,
}
use polar_wg_app.Client.Loop.Rule.{IsCompositional, tunnel_round-rule, tx_thread_round-rule}
use polar_wg_app.Client.Loop.Sound.{
  IsWired, IsSound, Keeps, in_world-IsSound, on_link-Keeps, then_Keeps,
}
use polar_wg_app.Client.Loop.Sound.Receive.{rx_handle_datagram-Safe}

-- The states that rounds of the loop and of the sending thread lead to.
pub data Reached (L : Host) (K : Sockets L.W) (D : Device L.W) (udp_fd utun_fd : ℕ)
    (c : TunnelCtx L.W) : TunnelCtx L.W → Type 0 where
  here : Reached L K D udp_fd utun_fd c c
  main :
      {d : TunnelCtx L.W}
      → Reached L K D udp_fd utun_fd c d
      → (tx_thread : Bool)
      → Reached L K D udp_fd utun_fd c (tunnel_round L K D udp_fd utun_fd tx_thread d).1
  thread :
      {d : TunnelCtx L.W}
      → Reached L K D udp_fd utun_fd c d
      → Reached L K D udp_fd utun_fd c (tx_thread_round L K D udp_fd utun_fd d).1

module _ (L : Host) (K : Sockets L.W) (D : Device L.W) (udp_fd utun_fd : ℕ) (s : AipsSet) (n : ℕ)
    (wired : IsWired L s n) where
  open L use {W}

  -- Code that keeps the invariant and follows no NULL pointer.
  abbrev IsSafe : {B : Type 0} → T W B → Type 0
  IsSafe m = (c : TunnelCtx W) → IsSound W s n c → Keeps L K D udp_fd utun_fd s n wired (m c)

  then_IsSafe :
      {B C : Type 0} (m : T W B) (f : B → T W C)
      → IsSafe m
      → ((b : B) → IsSafe (f b))
      → IsSafe (m >>= f)
  then_IsSafe m f h keeps c inv = then_Keeps L K D udp_fd utun_fd s n wired m f c (h c inv) keeps

  pure-IsSafe : {B : Type 0} (b : B) → IsSafe (pure b)
  pure-IsSafe b c inv = (λ e. cc, inv)

  call-IsSafe : {B : Type 0} (f : W → B × W) → IsSafe (call f)
  call-IsSafe f c inv =
      (λ e. cc, in_world-IsSound L K D udp_fd utun_fd s n wired c (f c.world).1 inv)

  tick_from-IsSafe : (now m i : ℕ) → i + m ≤ n → IsSafe (tick_from L K udp_fd now m i)
  unfolding tick_from
  tick_from-IsSafe now zero i h c inv = (λ e. cc, inv)
  tick_from-IsSafe now (suc m) i h c inv =
      let tick : Link W → Unit {0} × Link W = λ l. (tt, tunnel_tick_peer L K udp_fd now l) in
      then_IsSafe (on_link i tick) (λ _. tick_from L K udp_fd now m (i + 1))
        (λ d k.
          on_link-Keeps L K D udp_fd utun_fd s n wired i tick d (omega arith) k
            (λ l. tunnel_tick_peer-IsTried L K udp_fd now (enter d l)))
        (λ _. tick_from-IsSafe now m (i + 1) (omega arith)) c inv

  tunnel_tick-IsSafe : (now : ℕ) → IsSafe (tunnel_tick L K udp_fd now)
  unfolding tunnel_tick
  tunnel_tick-IsSafe now c inv =
      tick_from-IsSafe now (length c.peers) 0 (omega (arith, inv.count)) c inv

  transmit-IsTried :
      (now : ℕ) (inner : List ℕ) (l : Link W)
      → IsTried l
      → IsTried (transmit L K D udp_fd utun_fd now inner l).1
  unfolding transmit transmitted
  transmit-IsTried now inner l h =
      let e = ap (λ (q : PeerState). q.hs_attempts) (wg_encap-Keeps L K udp_fd inner l) in
      if-cases IsTried (wg_encap L K udp_fd inner l).0 (λ _. omega (arith, e, h))
        (λ _. omega (arith, e, h))

  dst_peer-lt :
      (inner : List ℕ) (c : TunnelCtx W) {i : ℕ} → c.aips ≡ s → dst_peer c inner ≡ some i → i < n
  unfolding dst_peer
  dst_peer-lt inner c same e = grind (arith, wired.v4, wired.v6)

  tx_handle_packet-IsSafe :
      (inner : List ℕ) (now : ℕ) → IsSafe (tx_handle_packet L K D udp_fd utun_fd inner now)
  unfolding tx_handle_packet tx_route
  tx_handle_packet-IsSafe inner now c inv = routed (dst_peer c inner) refl
    where
      routed :
          (o : Option ℕ)
          → dst_peer c inner ≡ o
          → Keeps L K D udp_fd utun_fd s n wired (tx_route L K D udp_fd utun_fd inner now o c)
      routed none e = (λ p. cc, inv)
      routed (some i) e =
          on_link-Keeps L K D udp_fd utun_fd s n wired i (transmit L K D udp_fd utun_fd now inner) c
            (dst_peer-lt inner c inv.tries e) inv (λ l. transmit-IsTried now inner (enter c l))

  loop_rule : IsCompositional L K D udp_fd utun_fd (λ B m. IsSafe {B = B} m)
  loop_rule = record {
    value = pure-IsSafe;
    sequence = then_IsSafe;
    state = λ f h c. h c c;
    stop = λ c inv. (grind arith, inv);
    time = call-IsSafe K.time;
    read = call-IsSafe (utun_read K D utun_fd);
    poll = call-IsSafe (D.poll utun_fd);
    recvfrom = λ fd. call-IsSafe (D.recvfrom fd);
    select = λ fds. call-IsSafe (D.select fds);
    tick = tunnel_tick-IsSafe;
    transmit = tx_handle_packet-IsSafe;
    receive = rx_handle_datagram-Safe L K D udp_fd utun_fd s n wired;
  }

  tunnel_round-IsSafe : (tx_thread : Bool) → IsSafe (tunnel_round L K D udp_fd utun_fd tx_thread)
  tunnel_round-IsSafe tx_thread =
      tunnel_round-rule L K D udp_fd utun_fd (λ B m. IsSafe {B = B} m) loop_rule tx_thread

  tx_thread_round-IsSafe : IsSafe (tx_thread_round L K D udp_fd utun_fd)
  tx_thread_round-IsSafe =
      tx_thread_round-rule L K D udp_fd utun_fd (λ B m. IsSafe {B = B} m) loop_rule

  -- If the noise layer and the tries name none but the peers of the loop, then in every state that it
  -- reaches from one in which the invariant holds, by rounds of the loop of `run_tunnel` and of `tx_thread_main`
  -- in any order, the invariant holds, and the next round of either follows no NULL pointer. The
  -- invariant says that no peer is beyond MAX_HANDSHAKE_ATTEMPTS attempts and that every packet
  -- written to the tun device has a source address that the allowed IPs give to a peer.
  pub Reached-IsSound :
      {c d : TunnelCtx W}
      → IsSound W s n c
      → Reached L K D udp_fd utun_fd c d
      → IsSound W s n d
        × ((tx_thread : Bool) → (tunnel_round L K D udp_fd utun_fd tx_thread d).0 ≢ fault)
        × ((tx_thread_round L K D udp_fd utun_fd d).0 ≢ fault)
  Reached-IsSound {d = d} inv r =
      let k = reached inv r in
      (k, λ tx_thread. (tunnel_round-IsSafe tx_thread d k).0, (tx_thread_round-IsSafe d k).0)
    where
      reached :
          {c e : TunnelCtx W} → IsSound W s n c → Reached L K D udp_fd utun_fd c e → IsSound W s n e
      reached inv here = inv
      reached inv (main {d = d} q tx_thread) = (tunnel_round-IsSafe tx_thread d (reached inv q)).1
      reached inv (thread {d = d} q) = (tx_thread_round-IsSafe d (reached inv q)).1
