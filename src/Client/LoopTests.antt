-- ===== src/Client/LoopTests.antt =====
-- Tests of the tunnel loop of src/wg_core.c.
use polar_wg_app.Common.{
  ℕ, zero, suc, ◌+◌, subst, ◌<◌, ◌≡◌, ◌≢◌, refl, Bool, true, false, Option, some, none, List, [],
  ◌∷◌, ◌++◌, All, length, replicate, get_or, drop, ◌==◌, if◌then◌else◌, arith,
}
use polar_wg_app.Common.Run.{fault}
use polar_wg_app.Allowedips
use polar_wg_app.Allowedips.{Node, null, node}
use polar_wg_app.Session.Types.{le32}
use polar_wg_app.Session.Data.{padded_len, pad, datagram, inner_ip_len}
use polar_wg_app.Session.Mbuf
use polar_wg_app.Session.Samples
use polar_wg_app.Client.Types.{zero_peer_state}
use polar_wg_app.Client.Send.{Sockets, Tx, broken}
use polar_wg_app.Client.Ctx.{Link, TunnelCtx, enter}
use polar_wg_app.Client.Device.{Device, readable, drained, framed}
use polar_wg_app.Client.Handshake.{
  find_peer_pending, tunnel_consume_initiation, tunnel_consume_response,
}
use polar_wg_app.Client.Handshake.Pending.{
  Settles, find_peer_pending-tunnel_consume_initiation, tunnel_consume_response-Settles,
}
use polar_wg_app.Client.Receive.{aips_lookup_inner_src, rx_handle_datagram}
use polar_wg_app.Client.Receive.Spoof.{opener, OwnedBy, rx_handle_datagram-OwnedBy}
use polar_wg_app.Client.Receive.Roam.{sender, MovesOnly, rx_handle_datagram-MovesOnly}
use polar_wg_app.Client.Receive.RoundTrip.{Sealed, seal, opens}
use polar_wg_app.Client.Loop
use polar_wg_app.Client.Loop.{tx_handle_packet, tunnel_round, tx_thread_round}
use polar_wg_app.Client.Loop.Delivery.{sent_calls, packet-delivered}
use polar_wg_app.Client.Loop.Sound.{IsWired, IsSound}
use polar_wg_app.Client.Loop.Sound.Round.{here, main, Reached-IsSound}
use polar_wg_app.Client.Balance.{Neutral}
use polar_wg_app.Client.Balance.Round.{tunnel_round-GivesBack}

-- Sockets over the world of the session's samples.
abbrev plain_sockets : Sockets ℕ
plain_sockets = record {
  ss_family = λ a. get_or a 0 0;
  af_inet = 2;
  af_inet6 = 30;
  sin_port = λ a. get_or a 1 0;
  sin_addr = λ a. drop 2 a;
  sin6_port = λ a. get_or a 1 0;
  sin6_addr = λ a. drop 2 a;
  socket = λ f w. (none, w);
  bind = λ fd f port w. (true, w);
  connect = λ fd a w. (true, w);
  close = λ fd w. w;
  send = λ fd buf w. (broken, w);
  sendto = λ fd buf a w. (true, w);
  time = λ w. (100, w);
}

abbrev idle_tx : Tx ℕ
idle_tx = record {
  peer = record {
    endpoint = 2 ∷ 51820 ∷ 10 ∷ 0 ∷ 0 ∷ 1 ∷ [];
    tx_fd = none;
    tx_ep = [];
    tx_err_last = 0;
    tx_retry_at = 0;
    tx_send_errs = 0;
  };
  connected_tx = true;
  bound_port = 51820;
  world = 0;
  calls = [];
}

-- A peer whose initiation has waited for its answer, at its attempt `n`.
abbrev waiting : ℕ → Link ℕ
waiting n = record {
  state = record zero_peer_state {
    has_endpoint = true;
    hs_pending = true;
    hs_sent_at = 10;
    hs_attempts = n;
  };
  remote = 1;
  slot = 0;
  nokp_log_last = 0;
  tx = idle_tx;
}

-- A loop whose tries give the addresses that start with the bits 00 to its first peer.
abbrev loop : List (Link ℕ) → TunnelCtx ℕ
loop ls = record {
  peers = ls;
  local = 2;
  has_checker = true;
  aips = record { v4 = Samples.trie; v6 = Allowedips.init 128 };
  connected_tx = true;
  bound_port = 51820;
  world = 0;
  calls = [];
  tun = [];
}

-- A device that hands out the sample packet, and sockets without a datagram.
abbrev device : Device ℕ
device = record {
  read = λ fd w. (some (0 ∷ 0 ∷ 0 ∷ 2 ∷ Samples.inner), w);
  writev = λ fd b w. (true, w);
  poll = λ fd w. (readable, w);
  recvfrom = λ fd w. (drained, w);
  select = λ fds w. (some fds, w);
  is_retried = λ w. true;
  arc4random_uniform = λ n w. (7, w);
}

-- A peer that waits for the answer with the index 5.
abbrev greeting : Link ℕ
greeting = record (waiting 1) {
  state = record zero_peer_state { hs_pending = true; hs_local_idx = 5; hs_attempts = 1 };
  remote = 3;
}

abbrev start : TunnelCtx ℕ
start = loop (greeting ∷ [])

rx_handle_datagram-OwnedBy_example :
    OwnedBy Samples.lab plain_sockets device 3 4 start
      (if le32 Samples.data_packet 0 == 4
        then opener Samples.lab plain_sockets device 3 4 Samples.data_packet start
        else none)
      []
      (rx_handle_datagram Samples.lab plain_sockets device 3 4 Samples.data_packet Samples.addr
        start).1.tun
rx_handle_datagram-OwnedBy_example =
    rx_handle_datagram-OwnedBy Samples.lab plain_sockets device 3 4 Samples.data_packet Samples.addr
      start

rx_handle_datagram-MovesOnly_example :
    MovesOnly 0 Samples.addr
      (sender Samples.lab plain_sockets device 3 4 Samples.data_packet Samples.addr start)
      start
      (rx_handle_datagram Samples.lab plain_sockets device 3 4 Samples.data_packet Samples.addr
        start).1
rx_handle_datagram-MovesOnly_example =
    rx_handle_datagram-MovesOnly Samples.lab plain_sockets device 3 4 0 Samples.data_packet
      Samples.addr start

abbrev body : List ℕ
body = pad Samples.inner ++ replicate 16 0

abbrev sealed : Sealed ℕ
sealed = record { r_idx = 9; nonce = 1; body = body; world = 3 }

sealed_lem : seal Samples.lab plain_sockets 3 Samples.inner (enter start greeting) ≡ some sealed
unfolding seal Mbuf.devget pad padded_len
sealed_lem = refl

opened_lem : opens Samples.lab plain_sockets device 3 4 9 1 body start ≡ some (0, pad Samples.inner)
unfolding opens Mbuf.devget pad padded_len
opened_lem = refl

inner_length : inner_ip_len Samples.inner ≡ some 20
unfolding inner_ip_len
inner_length = refl

destination : Loop.dst_peer start Samples.inner ≡ some 0
unfolding Loop.dst_peer Allowedips.lookup Allowedips.walk Allowedips.bit_at
destination = refl

source : aips_lookup_inner_src start.aips Samples.inner ≡ some 0
unfolding aips_lookup_inner_src Allowedips.lookup Allowedips.walk Allowedips.bit_at
source = refl

body_length : length body ≡ 48
unfolding pad padded_len
body_length = refl

inner_fits : padded_len (length Samples.inner) ≡ 32
unfolding padded_len
inner_fits = refl

packet-delivered_example :
    let d = datagram 9 1 body in
    ((tx_handle_packet Samples.lab plain_sockets device 3 4 Samples.inner 50 start).1.calls
      ≡ (sent_calls Samples.lab plain_sockets device 3 4 sealed start greeting).1.calls)
    × ((rx_handle_datagram Samples.lab plain_sockets device 3 4 d Samples.addr start).1.tun
        ≡ framed plain_sockets device 4 Samples.inner ∷ [])
packet-delivered_example =
    packet-delivered Samples.lab plain_sockets device 3 4 Samples.lab plain_sockets device 3 4
      Samples.inner Samples.addr 50 0 0 start greeting sealed start inner_length (omega arith)
      (omega (arith, inner_fits)) destination refl (omega arith) sealed_lem
      (omega (arith, body_length)) (omega (arith, body_length)) (omega arith) (omega arith)
      opened_lem source

abbrev answer : List ℕ
answer = 2 ∷ 0 ∷ 0 ∷ 0 ∷ 6 ∷ 0 ∷ 0 ∷ 0 ∷ 5 ∷ replicate 83 0

tunnel_consume_response-Settles_example :
    Settles Samples.lab plain_sockets device 3 answer start
      (tunnel_consume_response Samples.lab plain_sockets device 3 answer start)
tunnel_consume_response-Settles_example =
    tunnel_consume_response-Settles Samples.lab plain_sockets device 3 answer start

find_peer_pending-tunnel_consume_initiation_example :
    find_peer_pending 5 0
      (tunnel_consume_initiation Samples.lab plain_sockets device 3
        (1 ∷ replicate 147 0)
        Samples.addr
        start).1.peers
    ≡ find_peer_pending 5 0 start.peers
find_peer_pending-tunnel_consume_initiation_example =
    find_peer_pending-tunnel_consume_initiation Samples.lab plain_sockets device 3 5
      (1 ∷ replicate 147 0) Samples.addr start

neutral : Neutral Samples.lab Samples.lab_account plain_sockets device
neutral = record {
  socket = λ f w. refl;
  bind = λ fd f p w. refl;
  connect = λ fd a w. refl;
  close = λ fd w. refl;
  send = λ fd b w. refl;
  sendto = λ fd b a w. refl;
  time = λ w. refl;
  read = λ fd w. refl;
  writev = λ fd b w. refl;
  poll = λ fd w. refl;
  recvfrom = λ fd w. refl;
  select = λ fds w. refl;
  random = λ n w. refl;
  initiation = λ r w. refl;
  cookie = λ i n e w. refl;
}

-- Only the first peer stands in the tree.
abbrev IsFirst : Option ℕ → Type 0
IsFirst none = Unit {0}
IsFirst (some i) = i < 1

unfoldable AreFirst : Node → Type 0
AreFirst null = Unit {0}
AreFirst (node p l r) = IsFirst p × AreFirst l × AreFirst r

better-IsFirst : (p best : Option ℕ) → IsFirst p → IsFirst best → IsFirst (Allowedips.better p best)
better-IsFirst none best h k = k
better-IsFirst (some i) best h k = h

child-AreFirst :
    (b : Bool) (l r : Node) → AreFirst l → AreFirst r → AreFirst (Allowedips.child b l r)
child-AreFirst false l r u v = u
child-AreFirst true l r u v = v

walk-IsFirst :
    (k i : ℕ) (a : List ℕ) (best : Option ℕ) (t : Node)
    → IsFirst best
    → AreFirst t
    → IsFirst (Allowedips.walk k i a best t)
unfolding Allowedips.walk AreFirst
walk-IsFirst k i a best null h u = h
walk-IsFirst zero i a best (node p l r) h u = better-IsFirst p best u.0 h
walk-IsFirst (suc k) i a best (node p l r) h u =
    walk-IsFirst k (i + 1) a (Allowedips.better p best)
      (Allowedips.child (Allowedips.bit_at a i) l r) (better-IsFirst p best u.0 h)
      (child-AreFirst (Allowedips.bit_at a i) l r u.1 u.2)

in_trie : (a : List ℕ) {i : ℕ} → Allowedips.lookup Samples.trie a ≡ some i → i < 1
unfolding Allowedips.lookup AreFirst
in_trie a e =
    subst IsFirst e
      (walk-IsFirst 32 0 a none Samples.trie.root tt (tt, (tt, (omega arith, tt, tt), tt), tt))

wired : IsWired Samples.lab start.aips 1
unfolding Allowedips.lookup Allowedips.walk Allowedips.init
wired = record {
  arg = λ r w e. ground arith;
  matched = λ l m w e. cc;
  v4 = in_trie;
  v6 = λ a e. cc;
}

sound : IsSound ℕ start.aips 1 start
unfolding All
sound = record { count = refl; tries = refl; tried = (omega arith, tt); from = tt }

Reached-IsSound_example :
    let d = (tunnel_round Samples.lab plain_sockets device 3 4 false start).1 in
    IsSound ℕ start.aips 1 d
    × ((tx_thread : Bool)
        → (tunnel_round Samples.lab plain_sockets device 3 4 tx_thread d).0 ≢ fault)
    × ((tx_thread_round Samples.lab plain_sockets device 3 4 d).0 ≢ fault)
Reached-IsSound_example =
    Reached-IsSound Samples.lab plain_sockets device 3 4 start.aips 1 wired sound (main here false)

tunnel_round-GivesBack_example :
    (tunnel_round Samples.lab plain_sockets device 3 4 false start).1.world ≡ 0
tunnel_round-GivesBack_example =
    tunnel_round-GivesBack Samples.lab Samples.lab_account plain_sockets device neutral 3 4 false
      start
      ((Reached-IsSound Samples.lab plain_sockets device 3 4 start.aips 1 wired sound here).1 false)
