-- ===== src/Client/Loop/Rule.antt =====
-- How to prove a property of a round of the tunnel loop of src/wg_core.c: from its parts.
use polar_wg_app.Common.{
  ℕ, zero, suc, Bool, true, false, not, ◌&&◌, Option, none, some, List, [], ◌∷◌, ◌==◌, ltb,
  if◌then◌else◌, if-cases, length,
}
use polar_wg_app.Common.Run.{ok, fail, pure, ◌>>=◌, ◌>>◌}
use polar_wg_app.Session.Host.{Host}
use polar_wg_app.Client.Send.{Sockets}
use polar_wg_app.Client.Ctx.{TunnelCtx, T, call}
use polar_wg_app.Client.Device.{
  Polled, interrupted, poll_error, idle, hung_up, readable, Received, datagram_from, drained,
  refused, recv_error, Device, utun_read,
}
use polar_wg_app.Client.Tunnel.{tunnel_tick}
use polar_wg_app.Client.Receive.{rx_handle_datagram}
use polar_wg_app.Client.Loop.{
  has_fd, wg_rx_batch, wg_tx_batch, fd_setsize, tx_packet, tx_handle_packet, tx_drain, after_poll,
  tx_thread_round, rx_received, rx_drain, rx_all, drain_all, serve, selected, rx_fds, tunnel_round,
}

module _ (L : Host) (K : Sockets L.W) (D : Device L.W) (udp_fd utun_fd : ℕ) where
  open L use {W}

  -- A property of code that sequences keep and the calls of the loop have.
  pub record IsCompositional (P : (B : Type 0) → T W B → Type 0) : Type 1 where
    pub value : {B : Type 0} (b : B) → P B (pure b)
    pub sequence :
        {B C : Type 0} (m : T W B) (f : B → T W C) → P B m → ((b : B) → P C (f b)) → P C (m >>= f)
    pub state :
        {B : Type 0} (f : TunnelCtx W → T W B) → ((c : TunnelCtx W) → P B (f c)) → P B (λ c. f c c)
    pub stop : P (Unit {0}) (λ c. (if D.is_retried c.world then ok tt else fail, c))
    pub time : P ℕ (call K.time)
    pub read : P (Option (List ℕ)) (call (utun_read K D utun_fd))
    pub poll : P Polled (call (D.poll utun_fd))
    pub recvfrom : (fd : ℕ) → P Received (call (D.recvfrom fd))
    pub select : (fds : List ℕ) → P (Option (List ℕ)) (call (D.select fds))
    pub tick : (now : ℕ) → P (Unit {0}) (tunnel_tick L K udp_fd now)
    pub transmit :
        (inner : List ℕ) (now : ℕ) → P (Unit {0}) (tx_handle_packet L K D udp_fd utun_fd inner now)
    pub receive :
        (buf from : List ℕ) → P (Unit {0}) (rx_handle_datagram L K D udp_fd utun_fd buf from)

  module _ (P : (B : Type 0) → T W B → Type 0) (rule : IsCompositional P) where
    open rule use {value, sequence}

    tx_packet-rule : (now : ℕ) (o : Option (List ℕ)) → P Bool (tx_packet L K D udp_fd utun_fd now o)
    unfolding tx_packet
    tx_packet-rule now none = value false
    tx_packet-rule now (some inner) =
        if-cases (P Bool) (length inner == 0) (λ _. value true)
          (λ _.
            sequence (tx_handle_packet L K D udp_fd utun_fd inner now) (λ _. pure true)
              (rule.transmit inner now) (λ _. value true))

    tx_drain-rule : (n now : ℕ) → P (Unit {0}) (tx_drain L K D udp_fd utun_fd n now)
    unfolding tx_drain
    tx_drain-rule zero now = value tt
    tx_drain-rule (suc n) now =
        sequence (call (utun_read K D utun_fd))
          (λ got. tx_packet L K D udp_fd utun_fd now got >>= λ more.
            if more then tx_drain L K D udp_fd utun_fd n now else pure tt)
          rule.read
          (λ got.
            sequence (tx_packet L K D udp_fd utun_fd now got)
              (λ more. if more then tx_drain L K D udp_fd utun_fd n now else pure tt)
              (tx_packet-rule now got)
              (λ more. if-cases (P (Unit {0})) more (λ _. tx_drain-rule n now) (λ _. value tt)))

    after_poll-rule : (p : Polled) → P Bool (after_poll L K D udp_fd utun_fd p)
    unfolding after_poll
    after_poll-rule interrupted = value true
    after_poll-rule poll_error = value false
    after_poll-rule idle = value true
    after_poll-rule hung_up = value false
    after_poll-rule readable =
        sequence (call K.time) (λ now. tx_drain L K D udp_fd utun_fd 4096 now >> pure true)
          rule.time
          (λ now.
            sequence (tx_drain L K D udp_fd utun_fd 4096 now) (λ _. pure true)
              (tx_drain-rule 4096 now) (λ _. value true))

    -- The same for a round of `tx_thread_main`.
    pub tx_thread_round-rule : P Bool (tx_thread_round L K D udp_fd utun_fd)
    unfolding tx_thread_round
    tx_thread_round-rule =
        sequence (call (D.poll utun_fd)) (after_poll L K D udp_fd utun_fd) rule.poll after_poll-rule

    rx_received-rule : (r : Received) → P Bool (rx_received L K D udp_fd utun_fd r)
    unfolding rx_received
    rx_received-rule (datagram_from buf from) =
        sequence (rx_handle_datagram L K D udp_fd utun_fd buf from) (λ _. pure true)
          (rule.receive buf from) (λ _. value true)
    rx_received-rule drained = value false
    rx_received-rule refused = value true
    rx_received-rule recv_error = value false

    rx_drain-rule : (n fd : ℕ) → P (Unit {0}) (rx_drain L K D udp_fd utun_fd n fd)
    unfolding rx_drain
    rx_drain-rule zero fd = value tt
    rx_drain-rule (suc n) fd =
        sequence (call (D.recvfrom fd))
          (λ got. rx_received L K D udp_fd utun_fd got >>= λ more.
            if more then rx_drain L K D udp_fd utun_fd n fd else pure tt)
          (rule.recvfrom fd)
          (λ got.
            sequence (rx_received L K D udp_fd utun_fd got)
              (λ more. if more then rx_drain L K D udp_fd utun_fd n fd else pure tt)
              (rx_received-rule got)
              (λ more. if-cases (P (Unit {0})) more (λ _. rx_drain-rule n fd) (λ _. value tt)))

    rx_all-rule : (ready fds : List ℕ) → P (Unit {0}) (rx_all L K D udp_fd utun_fd ready fds)
    unfolding rx_all
    rx_all-rule ready [] = value tt
    rx_all-rule ready (fd ∷ fds) =
        let is_set = ltb fd fd_setsize && has_fd fd ready in
        sequence (if is_set then rx_drain L K D udp_fd utun_fd wg_rx_batch fd else pure tt)
          (λ _. rx_all L K D udp_fd utun_fd ready fds)
          (if-cases (P (Unit {0})) is_set (λ _. rx_drain-rule wg_rx_batch fd) (λ _. value tt))
          (λ _. rx_all-rule ready fds)

    drain_all-rule :
        (tx_thread : Bool) (fds ready : List ℕ) (now : ℕ)
        → P (Unit {0}) (drain_all L K D udp_fd utun_fd tx_thread fds ready now)
    unfolding drain_all
    drain_all-rule tx_thread fds ready now =
        let is_set = not tx_thread && has_fd utun_fd ready in
        sequence (if is_set then tx_drain L K D udp_fd utun_fd wg_tx_batch now else pure tt)
          (λ _. rx_all L K D udp_fd utun_fd ready fds)
          (if-cases (P (Unit {0})) is_set (λ _. tx_drain-rule wg_tx_batch now) (λ _. value tt))
          (λ _. rx_all-rule ready fds)

    serve-rule :
        (tx_thread : Bool) (fds ready : List ℕ)
        → P (Unit {0}) (serve L K D udp_fd utun_fd tx_thread fds ready)
    unfolding serve
    serve-rule tx_thread fds ready =
        let rest : ℕ → T W (Unit {0}) = λ now.
          if length ready == 0
          then pure tt
          else drain_all L K D udp_fd utun_fd tx_thread fds ready now in
        sequence (call K.time) (λ now. tunnel_tick L K udp_fd now >> rest now) rule.time
          (λ now.
            sequence (tunnel_tick L K udp_fd now) (λ _. rest now) (rule.tick now)
              (λ _.
                if-cases (P (Unit {0})) (length ready == 0) (λ _. value tt)
                  (λ _. drain_all-rule tx_thread fds ready now)))

    selected-rule :
        (tx_thread : Bool) (fds : List ℕ) (o : Option (List ℕ))
        → P (Unit {0}) (selected L K D udp_fd utun_fd tx_thread fds o)
    unfolding selected
    selected-rule tx_thread fds none = rule.stop
    selected-rule tx_thread fds (some ready) = serve-rule tx_thread fds ready

    -- A property that sequences keep holds of a round if it holds of the calls in it.
    pub tunnel_round-rule :
        (tx_thread : Bool) → P (Unit {0}) (tunnel_round L K D udp_fd utun_fd tx_thread)
    unfolding tunnel_round
    tunnel_round-rule tx_thread =
        let fds = rx_fds L K D udp_fd utun_fd in
        let waits = λ (c : TunnelCtx W). if tx_thread then fds c else utun_fd ∷ fds c in
        rule.state
          (λ c. call (D.select (waits c)) >>= selected L K D udp_fd utun_fd tx_thread (fds c))
          (λ c.
            sequence (call (D.select (waits c))) (selected L K D udp_fd utun_fd tx_thread (fds c))
              (rule.select (waits c)) (selected-rule tx_thread (fds c)))
