-- ===== src/Client/Tunnel.antt =====
-- The handshake timers of src/wg_core.c: `send_initiation`, `wg_encap` and `tunnel_tick`. Times are
-- seconds; a difference that is negative in C is 0 here, and fails the same tests. The allocator and the
-- noise and cookie layers are those of Session/Host.antt.
pub mod Attempts
use polar_wg_app.Common.{
  ℕ, zero, suc, ◌+◌, ◌-◌, Bool, true, false, not, ◌&&◌, ◌||◌, Option, none, some, List, [], ◌∷◌,
  ◌++◌, leb, ltb, ◌==◌, if◌then◌else◌, length, is_positive, to_ℕ,
}
use polar_wg_app.Session.Host.{Host, Initiation}
use polar_wg_app.Session.Mbuf.{Mbuf, devget, freem}
use polar_wg_app.Session.Data.{padded_len, pad, data_hdr_len, datagram}
use polar_wg_app.Session.Handshake.{initiation_msg}
use polar_wg_app.Client.Types.{PeerState, wg_buf_max}
use polar_wg_app.Common.Run.{ok, ◌>>=◌}
use polar_wg_app.Client.Ctx.{Link, in_world, T, ctx, on_link}
use polar_wg_app.Client.Send.{Sockets, peer_send}

-- `REKEY_TIMEOUT_SEC`, `REKEY_AFTER_TIME_SEC` and `MAX_HANDSHAKE_ATTEMPTS`.
abbrev pub rekey_timeout_sec : ℕ
rekey_timeout_sec = 5

abbrev pub rekey_after_time_sec : ℕ
rekey_after_time_sec = 120

abbrev pub max_attempts : ℕ
max_attempts = 18

module _ (L : Host) (K : Sockets L.W) (udp_fd : ℕ) where
  open L use {
    W, create_initiation, maker_mac, keypair_current, keypair_nonce_next, keypair_encrypt,
    keypair_put,
  }

  -- The end of `send_initiation`, with the message that the noise layer made.
  unfoldable pub send_message : Initiation → Link W → Option ℕ × Link W
  send_message m l =
      let (macs, w) = maker_mac l.slot (initiation_msg m) l.tx.world in
      let (done, t) = peer_send K udp_fd (initiation_msg m ++ macs) (record l.tx { world = w }) in
      (if done then some m.s_idx else none, record l { tx = t })

  -- `send_initiation`: the index of the message that was sent.
  unfoldable pub send_initiation : Link W → Option ℕ × Link W
  send_initiation l =
      let (o, w) = create_initiation l.remote l.tx.world in
      if length l.tx.peer.endpoint == 0
      then (none, l)
      else elim o [ none ↦ (none, in_world w l) | some m ↦ send_message m (in_world w l) ]

  -- `wg_encap` after the encryption, which gave the peer's index and the bytes.
  unfoldable pub send_frame : ℕ → ℕ → Mbuf → ℕ → List ℕ → Link W → Bool × Link W
  send_frame kp nonce m r_idx body l =
      let (done, t) = peer_send K udp_fd (datagram r_idx nonce body) l.tx in
      if ltb wg_buf_max (data_hdr_len + length body)
      then (false, in_world (keypair_put kp (freem L m l.tx.world)) l)
      else (done, record l { tx = record t { world = keypair_put kp (freem L m t.world) } })

  unfoldable pub encrypt_frame : ℕ → ℕ → Mbuf → Link W → Bool × Link W
  encrypt_frame kp nonce m l =
      let (o, w) = keypair_encrypt kp nonce m.bytes l.tx.world in
      elim o [
        | none ↦ (false, in_world (keypair_put kp (freem L m w)) l)
        | some (r_idx, body) ↦ send_frame kp nonce m r_idx body (in_world w l)
      ]

  unfoldable pub fill_frame : ℕ → ℕ → List ℕ → Link W → Bool × Link W
  fill_frame kp nonce scratch l =
      let (o, w) = devget L scratch l.tx.world in
      elim o [
        | none ↦ (false, in_world (keypair_put kp w) l)
        | some m ↦ encrypt_frame kp nonce m (in_world w l)
      ]

  unfoldable pub number_frame : ℕ → List ℕ → Link W → Bool × Link W
  number_frame kp scratch l =
      let (o, w) = keypair_nonce_next kp l.tx.world in
      elim o [
        | none ↦ (false, in_world (keypair_put kp w) l)
        | some nonce ↦ fill_frame kp nonce scratch (in_world w l)
      ]

  -- No keypair: the time of the log line.
  unfoldable pub note_no_keypair : Link W → Link W
  note_no_keypair l =
      let (now, w) = K.time l.tx.world in
      let l1 = in_world w l in
      if leb 10 (now - l.nokp_log_last) then record l1 { nokp_log_last = now } else l1

  -- `wg_encap`: whether it returns 0.
  unfoldable pub wg_encap : List ℕ → Link W → Bool × Link W
  wg_encap plain l =
      let (o, w) = keypair_current l.remote l.tx.world in
      if length l.tx.peer.endpoint == 0 || ltb wg_buf_max (padded_len (length plain))
      then (false, l)
      else elim o [
        | none ↦ (false, note_no_keypair (in_world w l))
        | some kp ↦ number_frame kp (pad plain) (in_world w l)
      ]

  -- The peer's timers once an initiation with this index is out.
  unfoldable pub initiated : ℕ → Option ℕ → PeerState → PeerState
  initiated now none p = p
  initiated now (some idx) p = record p {
    hs_pending = true;
    hs_sent_at = now;
    hs_local_idx = idx;
    hs_attempts = p.hs_attempts + 1;
    last_authd_tx = now;
  }

  -- `tunnel_send_initiation`, whose result is not used.
  unfoldable pub tunnel_send_initiation : ℕ → Link W → Link W
  tunnel_send_initiation now l =
      let (o, l1) = send_initiation l in record l1 { state = initiated now o l1.state }

  unfoldable pub retransmit : ℕ → Link W → Link W
  retransmit now l =
      let l1 = record l { state = record l.state { hs_sent_at = now } } in
      if l.state.hs_pending && leb rekey_timeout_sec (now - l.state.hs_sent_at)
      then (if leb max_attempts l.state.hs_attempts
          then record l1 { state = record l1.state { hs_pending = false; hs_attempts = 0 } }
          else tunnel_send_initiation now l1)
      else l

  abbrev pub needs_handshake : ℕ → PeerState → Bool
  needs_handshake now p =
      not p.hs_pending
      && (p.has_endpoint
          && (p.keypair_birth == 0
              || leb (rekey_after_time_sec + p.rekey_jitter_sec) (now - p.keypair_birth)))

  unfoldable pub initiate : ℕ → Link W → Link W
  initiate now l =
      if needs_handshake now l.state
      then tunnel_send_initiation now (record l { state = record l.state { hs_attempts = 0 } })
      else l

  unfoldable pub keep_alive : ℕ → Link W → Link W
  keep_alive now l =
      let p = l.state in
      let (done, l1) = wg_encap [] l in
      if is_positive p.pk_sec
        && (ltb 0 p.last_authd_tx && leb (to_ℕ p.pk_sec) (now - p.last_authd_tx))
      then (if done then record l1 { state = record l1.state { last_authd_tx = now } } else l1)
      else l

  -- `tunnel_tick_peer`
  unfoldable pub tunnel_tick_peer : ℕ → Link W → Link W
  tunnel_tick_peer now l = keep_alive now (initiate now (retransmit now l))

  -- The rounds for `n` peers from `i` on.
  unfoldable pub tick_from : ℕ → ℕ → ℕ → T W (Unit {0})
  tick_from now zero i c = (ok tt, c)
  tick_from now (suc n) i c =
      (on_link i (λ l. (tt, tunnel_tick_peer now l)) >>= λ _ c1. tick_from now n (i + 1) c1) c

  -- `tunnel_tick`
  unfoldable pub tunnel_tick : ℕ → T W (Unit {0})
  tunnel_tick now = do c ← ctx; tick_from now (length c.peers) 0
