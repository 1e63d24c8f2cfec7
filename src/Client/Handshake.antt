-- ===== src/Client/Handshake.antt =====
-- The handshake messages that the tunnel loop of src/wg_core.c receives: `peer_stamp_keypair`,
-- `tunnel_consume_initiation`, `find_peer_pending_response`, `tunnel_consume_response` and the cookie
-- replies. The layouts of the messages are those of src/wg_session.c.
pub mod Frame
pub mod Pending
use polar_wg_app.Common.{
  ℕ, ◌+◌, Bool, false, not, ◌&&◌, Option, none, some, List, [], ◌∷◌, ◌++◌, leb, ◌==◌, if◌then◌else◌,
  length, take,
}
use polar_wg_app.Common.Run.{ok, fail, pure, failure, ◌>>=◌, ◌>>◌, check_or, check, some_or, deref}
use polar_wg_app.Allowedips
use polar_wg_app.Session.Types.{le32}
use polar_wg_app.Session.Host.{Host}
use polar_wg_app.Session.Handshake.{
  slice, read_initiation, read_response, response_msg, initiation_size, response_size, cookie_size,
  same_ptr,
}
use polar_wg_app.Client.Types.{PeerState}
use polar_wg_app.Client.Send.{Sockets, to_address, peer_set_endpoint}
use polar_wg_app.Client.Ctx.{Link, T, ctx, call, run, link, on_link, change_state}
use polar_wg_app.Client.Device.{Device}

abbrev pub rekey_jitter_max_sec : ℕ
rekey_jitter_max_sec = 30

-- The first peer, counted from `i`, whose pending handshake has the index.
unfoldable pub find_peer_pending : {W : Type 0} → ℕ → ℕ → List (Link W) → Option ℕ
find_peer_pending idx i [] = none
find_peer_pending idx i (l ∷ ls) =
    if l.state.hs_pending && l.state.hs_local_idx == idx
    then some i
    else find_peer_pending idx (i + 1) ls

module _ (L : Host) (K : Sockets L.W) (D : Device L.W) (udp_fd : ℕ) where
  open L use {
    W, consume_initiation, create_response, consume_response, maker_mac, maker_consume,
    validate_macs, keypair_lookup, keypair_decrypt, keypair_received_with, keypair_remote,
    keypair_put, remote_arg, remote_put,
  }

  unfoldable pub stamped : ℕ → ℕ → PeerState → PeerState
  stamped now jitter p = record p {
    keypair_birth = now;
    last_authd_tx = now;
    rekey_jitter_sec = jitter;
  }

  -- `peer_stamp_keypair(peer, time(NULL))`
  unfoldable pub stamp_keypair : ℕ → T W (Unit {0})
  stamp_keypair i = do
    now ← call K.time
    jitter ← call (D.arc4random_uniform rekey_jitter_max_sec)
    change_state i (stamped now jitter)

  -- `peer_set_endpoint`
  unfoldable pub roam : ℕ → List ℕ → T W (Unit {0})
  roam i from = on_link i (λ l. (tt, record l { tx = peer_set_endpoint K from l.tx }))

  -- `sendto` on the listener, and whether it sends the whole message.
  unfoldable pub reply : List ℕ → List ℕ → T W Bool
  reply msg from c =
      let (done, w) = K.sendto udp_fd msg from c.world in
      (ok done, record c { world = w; calls = to_address msg from ∷ c.calls })

  -- `noise_remote_arg(matched)`; without a peer the reference is given back.
  unfoldable pub matched_link : ℕ → T W ℕ
  matched_link rem c = elim (remote_arg rem c.world) [
    | none ↦ (fail, record c { world = remote_put rem c.world })
    | some i ↦ (ok i, c)
  ]

  -- The part of `tunnel_consume_initiation` that answers the message.
  unfoldable pub respond : ℕ → ℕ → List ℕ → T W (Unit {0})
  respond rem i from = do
    m ← some_or (run (remote_put rem)) (← call (create_response rem))
    l ← link i
    macs ← call (maker_mac l.slot (response_msg m))
    done ← reply (response_msg m ++ macs) from
    check_or (run (remote_put rem)) done
    run (remote_put rem)

  -- The part of `tunnel_consume_initiation` for the peer that it found.
  unfoldable pub welcome : ℕ → ℕ → List ℕ → T W (Unit {0})
  welcome rem i from = do respond rem i from; roam i from; stamp_keypair i

  -- `tunnel_consume_initiation`
  unfoldable pub tunnel_consume_initiation : List ℕ → List ℕ → T W (Unit {0})
  tunnel_consume_initiation buf from = do
    check (leb initiation_size (length buf))
    c ← ctx
    check c.has_checker
    valid ← call (validate_macs (slice 116 32 buf) (take 116 buf) from)
    check valid
    matched ← some_or (pure tt) (← call (consume_initiation c.local (read_initiation buf)))
    rem ← deref matched
    i ← matched_link rem
    welcome rem i from

  -- `if (matched) noise_remote_put(matched);`
  unfoldable pub put_remote : Option ℕ → T W (Unit {0})
  put_remote none c = (ok tt, c)
  put_remote (some rem) c = (ok tt, record c { world = remote_put rem c.world })

  -- The end of the handshake, in `tunnel_consume_response`.
  unfoldable pub finished : PeerState → PeerState
  finished p = record p { hs_pending = false; hs_attempts = 0 }

  unfoldable pub settle : ℕ → T W (Unit {0})
  settle i = do change_state i finished; stamp_keypair i

  -- `tunnel_consume_response` once the noise layer has accepted the message of peer `i`.
  unfoldable pub consumed : ℕ → Option ℕ → T W (Unit {0})
  consumed i matched = do
    l ← link i
    if same_ptr matched (some l.remote)
        then (do put_remote matched; settle i)
        else put_remote matched >> failure

  -- `tunnel_consume_response`
  unfoldable pub tunnel_consume_response : List ℕ → T W (Unit {0})
  tunnel_consume_response buf = do
    check (leb response_size (length buf))
    c ← ctx
    i ← some_or (pure tt) (find_peer_pending (le32 buf 8) 0 c.peers)
    matched ← some_or (pure tt) (← call (consume_response c.local (read_response buf)))
    consumed i matched

  -- A cookie reply goes to the peer whose initiation it names.
  unfoldable pub rx_cookie : List ℕ → T W (Unit {0})
  rx_cookie buf = do
    check (leb cookie_size (length buf))
    c ← ctx
    i ← some_or (pure tt) (find_peer_pending (le32 buf 4) 0 c.peers)
    l ← link i
    accepted ← call (maker_consume l.slot (slice 8 24 buf) (slice 32 32 buf))
    pure tt
