-- ===== src/Client/Send.antt =====
-- The sockets of src/wg_core.c: `peer_set_endpoint`, `peer_tx_socket` and `peer_send`, for one peer and
-- one thread. An endpoint is the list of the `endpoint_len` bytes of its address, empty for none, and a
-- descriptor of -1 is `none`.
pub mod Socket
pub mod Destination
use polar_wg_app.Common.{
  ℕ, ◌+◌, ◌-◌, Bool, true, false, not, ◌&&◌, ◌||◌, Option, none, some, List, [], ◌∷◌, ◌++◌, leb,
  ltb, ◌==◌, if◌then◌else◌, length, list_eq,
}

-- What `send` does: all bytes go, EAGAIN, EWOULDBLOCK, ENOBUFS or ECONNREFUSED, or any other end.
pub data Sent : Type 0 where
  whole : Sent
  transient : Sent
  broken : Sent

-- The calls of the system, and the fields of a socket address. `socket` stands for the call with the
-- options that are set after it, `bind` for the bind to any address of the family at the given port,
-- and the calls of a `world` that can fail return whether they succeed.
pub record Sockets (W : Type 0) : Type 0 where
  pub ss_family : List ℕ → ℕ
  pub af_inet : ℕ
  pub af_inet6 : ℕ
  pub sin_port : List ℕ → ℕ
  pub sin_addr : List ℕ → List ℕ
  pub sin6_port : List ℕ → ℕ
  pub sin6_addr : List ℕ → List ℕ
  pub socket : ℕ → W → Option ℕ × W
  pub bind : ℕ → ℕ → ℕ → W → Bool × W
  pub connect : ℕ → List ℕ → W → Bool × W
  pub close : ℕ → W → W
  pub send : ℕ → List ℕ → W → Sent × W
  pub sendto : ℕ → List ℕ → List ℕ → W → Bool × W
  pub time : W → ℕ × W

-- The calls that carry a datagram: `send` on a connected socket, in the world that it meets, and
-- `sendto` on the listener.
pub data Call (W : Type 0) : Type 0 where
  on_socket : ℕ → List ℕ → W → Call W
  to_address : List ℕ → List ℕ → Call W

-- The part of `struct peer_state` that is about sending.
pub record TxPeer : Type 0 where
  pub endpoint : List ℕ
  pub tx_fd : Option ℕ
  pub tx_ep : List ℕ
  pub tx_err_last : ℕ
  pub tx_retry_at : ℕ
  pub tx_send_errs : ℕ

-- The peer, `g_connected_tx`, `g_bound_port`, the world, and the datagrams so far, the last one first.
pub record Tx (W : Type 0) : Type 0 where
  pub peer : TxPeer
  pub connected_tx : Bool
  pub bound_port : ℕ
  pub world : W
  pub calls : List (Call W)

module _ {W : Type 0} (K : Sockets W) where
  open K use {
    ss_family, af_inet, af_inet6, sin_port, sin_addr, sin6_port, sin6_addr, socket, bind, connect,
    close, send, sendto, time,
  }

  unfoldable pub sockaddr_same : List ℕ → List ℕ → Bool
  sockaddr_same a b =
      if length a == 0 || (length b == 0 || not (ss_family a == ss_family b))
      then false
      else if ss_family a == af_inet
      then sin_port a == sin_port b && list_eq (sin_addr a) (sin_addr b)
      else if ss_family a == af_inet6
      then sin6_port a == sin6_port b && list_eq (sin6_addr a) (sin6_addr b)
      else false

  unfoldable pub peer_tx_close : Tx W → Tx W
  peer_tx_close s = record s {
    peer = record s.peer { tx_fd = none; tx_ep = [] };
    world = elim s.peer.tx_fd [ none ↦ s.world | some fd ↦ close fd s.world ];
  }

  -- `sizeof(struct sockaddr_storage)` is 128.
  unfoldable pub peer_set_endpoint : List ℕ → Tx W → Tx W
  peer_set_endpoint from s =
      if length from == 0 || ltb 128 (length from)
      then s
      else if sockaddr_same s.peer.endpoint from
      then s
      else record s { peer = record s.peer { endpoint = from } }

  -- The end of `peer_tx_socket`, with a socket of the right family.
  unfoldable pub connect_socket : ℕ → Tx W → Option ℕ × Tx W
  connect_socket fd s =
      let (ok, w) = connect fd s.peer.endpoint s.world in
      if ok
      then (
        some fd,
        record s { peer = record s.peer { tx_retry_at = 0; tx_ep = s.peer.endpoint }; world = w },
      )
      else (let (now, w1) = time w in
          (
            none,
            peer_tx_close
                (record s { peer = record s.peer { tx_retry_at = now + 10 }; world = w1 }),
          ))

  -- A socket bound to the port of the listener.
  unfoldable pub bind_socket : ℕ → Tx W → Option ℕ × Tx W
  bind_socket fd s =
      let (ok, w) = bind fd (ss_family s.peer.endpoint) s.bound_port s.world in
      if ok
      then connect_socket fd (record s { peer = record s.peer { tx_fd = some fd }; world = w })
      else (none, record s { connected_tx = false; world = close fd w })

  unfoldable pub open_socket : Tx W → Option ℕ × Tx W
  open_socket s = elim s.peer.tx_fd [
    | some fd ↦ connect_socket fd s
    | none ↦
        let (o, w) = socket (ss_family s.peer.endpoint) s.world in
        elim o [
          | none ↦ (none, record s { world = w })
          | some fd ↦ bind_socket fd (record s { world = w })
        ]
  ]

  -- The socket of another family is closed first.
  unfoldable pub renew_socket : Tx W → Option ℕ × Tx W
  renew_socket s = elim s.peer.tx_fd [
    | none ↦ open_socket s
    | some fd ↦
        if ss_family s.peer.tx_ep == ss_family s.peer.endpoint
        then open_socket s
        else open_socket (peer_tx_close s)
  ]

  -- The socket that is connected already, if it is to the present endpoint.
  unfoldable pub fitting_socket : TxPeer → Option ℕ
  fitting_socket p = if sockaddr_same p.tx_ep p.endpoint then p.tx_fd else none

  -- `peer_tx_socket`
  unfoldable pub peer_tx_socket : Tx W → Option ℕ × Tx W
  peer_tx_socket s =
      if not s.connected_tx || (length s.peer.endpoint == 0 || s.bound_port == 0)
      then (none, s)
      else elim (fitting_socket s.peer) [
        | some fd ↦ (some fd, s)
        | none ↦
            let (now, w) = time s.world in
            if s.peer.tx_retry_at == 0
            then renew_socket s
            else if ltb now s.peer.tx_retry_at
            then (none, record s { world = w })
            else renew_socket (record s { world = w })
      ]

  -- An error, with the time of its log line.
  unfoldable pub logged : Tx W → Tx W
  logged s =
      let (now, w) = time s.world in
      record s {
        peer =
            if leb 10 (now - s.peer.tx_err_last)
            then record s.peer { tx_err_last = now }
            else s.peer;
        world = w;
      }

  -- `sendto` on the listener.
  unfoldable pub send_by_address : ℕ → List ℕ → List ℕ → Tx W → Bool × Tx W
  send_by_address udp_fd buf ep s =
      let (ok, w) = sendto udp_fd buf ep s.world in
      let s1 = record s { world = w; calls = to_address buf ep ∷ s.calls } in
      if length ep == 0 then (false, s) else if ok then (true, s1) else (false, logged s1)

  -- The socket is stale.
  unfoldable pub drop_socket : ℕ → Tx W → Tx W
  drop_socket fd s =
      let s1 =
        logged (record s { peer = record s.peer { tx_send_errs = s.peer.tx_send_errs + 1 } }) in
      elim s1.peer.tx_fd [ none ↦ s1 | some g ↦ if g == fd then peer_tx_close s1 else s1 ]

  unfoldable pub send_on_socket : ℕ → List ℕ → List ℕ → ℕ → Tx W → Bool × Tx W
  send_on_socket udp_fd buf ep fd s =
      let (result, w) = send fd buf s.world in
      let s1 = record s { world = w; calls = on_socket fd buf s.world ∷ s.calls } in
      elim result [
        | whole ↦ (true, s1)
        | transient ↦ (false, s1)
        | broken ↦ send_by_address udp_fd buf ep (drop_socket fd s1)
      ]

  -- `peer_send`: whether it returns 0, and the state after it.
  unfoldable pub peer_send : ℕ → List ℕ → Tx W → Bool × Tx W
  peer_send udp_fd buf s =
      let (o, s1) = peer_tx_socket s in
      elim o [
        | some fd ↦ send_on_socket udp_fd buf s1.peer.endpoint fd s1
        | none ↦ send_by_address udp_fd buf s1.peer.endpoint s1
      ]
