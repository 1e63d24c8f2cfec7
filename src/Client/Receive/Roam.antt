-- ===== src/Client/Receive/Roam.antt =====
-- Roaming in src/wg_core.c: which datagrams change where a peer is.
use polar_wg_app.Common.{
  ℕ, zero, suc, ◌≡◌, refl, Bool, true, false, Option, none, some, List, [], ◌∷◌, ltb, ◌==◌,
  if◌then◌else◌, length, take, get_elem?, set, arith, ◌⊎◌, inl, inr, if-cases,
}
use polar_wg_app.Common
use polar_wg_app.Common.Run.{Res}
use polar_wg_app.Session.Types.{le32}
use polar_wg_app.Session.Host.{Host}
use polar_wg_app.Session.Handshake.{slice, read_initiation}
use polar_wg_app.Client.Types.{PeerState}
use polar_wg_app.Client.Send.{Sockets, peer_set_endpoint}
use polar_wg_app.Client.Ctx.{Link, TunnelCtx, T, change_state}
use polar_wg_app.Client.Device.{Device, utun_write}
use polar_wg_app.Client.Handshake.{
  stamp_keypair, roam, reply, matched_link, respond, welcome, tunnel_consume_initiation, put_remote,
  settle, consumed, tunnel_consume_response, rx_cookie,
}
use polar_wg_app.Client.Receive.{
  remote_link, opened_packet, wg_decap, rx_inner, rx_opened, rx_data, rx_dispatch,
  rx_handle_datagram,
}
use polar_wg_app.Client.Receive.Spoof.{opener, logs-ctx}

unfoldable pub endpoint_at : {W : Type 0} → ℕ → List (Link W) → Option (List ℕ)
endpoint_at j [] = none
endpoint_at zero (l ∷ ls) = some l.tx.peer.endpoint
endpoint_at (suc j) (l ∷ ls) = endpoint_at j ls

module _ {W : Type 0} where
  endpoint_at-set :
      (j i : ℕ) (ls : List (Link W)) (l l0 : Link W)
      → get_elem? ls i ≡ some l0
      → l.tx.peer.endpoint ≡ l0.tx.peer.endpoint
      → endpoint_at j (set ls i l) ≡ endpoint_at j ls
  unfolding endpoint_at
  endpoint_at-set j i [] l l0 e h = refl
  endpoint_at-set zero zero (x ∷ ls) l l0 e h = cc
  endpoint_at-set zero (suc i) (x ∷ ls) l l0 e h = refl
  endpoint_at-set (suc j) zero (x ∷ ls) l l0 e h = refl
  endpoint_at-set (suc j) (suc i) (x ∷ ls) l l0 e h = endpoint_at-set j i ls l l0 e h

  endpoint_at-set_other :
      (j i : ℕ) (ls : List (Link W)) (l : Link W)
      → (endpoint_at j (set ls i l) ≡ endpoint_at j ls)
        ⊎ ((endpoint_at j (set ls i l) ≡ some l.tx.peer.endpoint) × (i ≡ j))
  unfolding endpoint_at
  endpoint_at-set_other j i [] l = inl refl
  endpoint_at-set_other zero zero (x ∷ ls) l = inr (refl, refl)
  endpoint_at-set_other zero (suc i) (x ∷ ls) l = inl refl
  endpoint_at-set_other (suc j) zero (x ∷ ls) l = inl refl
  endpoint_at-set_other (suc j) (suc i) (x ∷ ls) l = grind (arith, endpoint_at-set_other j i ls l)

  -- Peer `j` is where it was, or at `from` and then it is the peer `o`.
  abbrev pub MovesOnly : ℕ → List ℕ → Option ℕ → TunnelCtx W → TunnelCtx W → Type 0
  MovesOnly j from o c d =
      (endpoint_at j d.peers ≡ endpoint_at j c.peers)
      ⊎ ((endpoint_at j d.peers ≡ some from) × (o ≡ some j))

  abbrev Stays : ℕ → TunnelCtx W → TunnelCtx W → Type 0
  Stays j c d = endpoint_at j d.peers ≡ endpoint_at j c.peers

  change_state-Stays :
      (j i : ℕ) (f : PeerState → PeerState) (c : TunnelCtx W) → Stays j c (change_state i f c).1
  change_state-Stays j i f c = grind (arith, endpoint_at-set)

module _ (L : Host) (K : Sockets L.W) (D : Device L.W) (udp_fd utun_fd : ℕ) where
  open L use {W, validate_macs, consume_initiation, remote_arg}

  roam-MovesOnly :
      (j i : ℕ) (from : List ℕ) (c : TunnelCtx W)
      → MovesOnly j from (some i) c (roam L K D udp_fd i from c).1
  unfolding roam peer_set_endpoint
  roam-MovesOnly j i from c = grind (arith, endpoint_at-set, endpoint_at-set_other)

  stamp_keypair-Stays : (j i : ℕ) (c : TunnelCtx W) → Stays j c (stamp_keypair L K D udp_fd i c).1
  unfolding stamp_keypair
  stamp_keypair-Stays j i c = grind (arith, endpoint_at-set)

  respond-peers :
      (rem i : ℕ) (from : List ℕ) (c : TunnelCtx W)
      → (respond L K D udp_fd rem i from c).1.peers ≡ c.peers
  unfolding respond reply
  respond-peers rem i from c = ground arith

  -- The peer whose initiation a message is.
  unfoldable pub greeter : List ℕ → List ℕ → TunnelCtx W → Option ℕ
  greeter buf from c =
      let (valid, w) = validate_macs (slice 116 32 buf) (take 116 buf) from c.world in
      let (matched, w1) = consume_initiation c.local (read_initiation buf) w in
      if valid then (Common.◌>>=◌ matched λ r. Common.◌>>=◌ r λ rem. remote_arg rem w1) else none

  tunnel_consume_initiation-MovesOnly :
      (j : ℕ) (buf from : List ℕ) (c : TunnelCtx W)
      → MovesOnly j from
          (greeter buf from c)
          c
          (tunnel_consume_initiation L K D udp_fd buf from c).1
  unfolding tunnel_consume_initiation matched_link greeter welcome
  tunnel_consume_initiation-MovesOnly j buf from c =
      grind (arith, respond-peers, roam-MovesOnly, stamp_keypair-Stays)

  tunnel_consume_response-Stays :
      (j : ℕ) (buf : List ℕ) (c : TunnelCtx W)
      → Stays j c (tunnel_consume_response L K D udp_fd buf c).1
  unfolding tunnel_consume_response put_remote consumed settle
  tunnel_consume_response-Stays j buf c = grind (arith, stamp_keypair-Stays, endpoint_at-set)

  rx_cookie-peers :
      (buf : List ℕ) (c : TunnelCtx W) → (rx_cookie L K D udp_fd buf c).1.peers ≡ c.peers
  unfolding rx_cookie
  rx_cookie-peers buf c = ground arith

  rx_inner-MovesOnly :
      (j i : ℕ) (inner from : List ℕ) (c : TunnelCtx W)
      → MovesOnly j from (some i) c (rx_inner L K D udp_fd utun_fd i inner from c).1
  unfolding rx_inner utun_write
  rx_inner-MovesOnly j i inner from c = grind (arith, endpoint_at-set, roam-MovesOnly)

  rx_opened-MovesOnly :
      (j : ℕ) (inner : List ℕ) (src : Option ℕ) (from : List ℕ) (c : TunnelCtx W)
      → MovesOnly j from src c (rx_opened L K D udp_fd utun_fd inner src from c).1
  unfolding rx_opened
  rx_opened-MovesOnly j inner none from c = inl refl
  rx_opened-MovesOnly j inner (some i) from c =
      if-cases (λ (m : T W (Unit {0})). MovesOnly j from (some i) c (m c).1) (length inner == 0)
        (λ _. grind (arith, endpoint_at-set, roam-MovesOnly))
        (λ _. rx_inner-MovesOnly j i inner from c)

  rx_data-MovesOnly :
      (j : ℕ) (buf from : List ℕ) (c : TunnelCtx W)
      → MovesOnly j from
          (opener L K D udp_fd utun_fd buf c)
          c
          (rx_data L K D udp_fd utun_fd buf from c).1
  unfolding rx_data wg_decap opened_packet remote_link opener
  rx_data-MovesOnly j buf from c = grind (arith, rx_opened-MovesOnly)

  -- The peer that a datagram comes from, as its keypair or its initiation proves it.
  unfoldable pub sender : List ℕ → List ℕ → TunnelCtx W → Option ℕ
  sender buf from c =
      if le32 buf 0 == 4
      then opener L K D udp_fd utun_fd buf c
      else if le32 buf 0 == 1
      then greeter buf from c
      else none

  rx_dispatch-MovesOnly :
      (j : ℕ) (buf from : List ℕ) (c : TunnelCtx W)
      → MovesOnly j from (sender buf from c) c (rx_dispatch L K D udp_fd utun_fd buf from c).1
  unfolding rx_dispatch sender
  rx_dispatch-MovesOnly j buf from c = grind (
    arith, rx_data-MovesOnly, tunnel_consume_initiation-MovesOnly, tunnel_consume_response-Stays,
    rx_cookie-peers,
  )

  -- Whatever datagram arrives, `rx_handle_datagram` leaves the endpoint of every peer as it was, or sets
  -- it to the address that the datagram came from; the latter only for the peer whose keypair opens the
  -- datagram, or whose initiation it is by the noise layer, with valid MACs.
  pub rx_handle_datagram-MovesOnly :
      (j : ℕ) (buf from : List ℕ) (c : TunnelCtx W)
      → MovesOnly j from
          (sender buf from c)
          c
          (rx_handle_datagram L K D udp_fd utun_fd buf from c).1
  unfolding rx_handle_datagram
  rx_handle_datagram-MovesOnly j buf from c =
      if-cases (λ (r : Res (Unit {0}) × TunnelCtx W). MovesOnly j from (sender buf from c) c r.1)
        (ltb (length buf) 4) (λ _. inl refl)
        (λ _. rw (logs-ctx L K D udp_fd utun_fd) (rx_dispatch-MovesOnly j buf from c))
