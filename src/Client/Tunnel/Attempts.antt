-- ===== src/Client/Tunnel/Attempts.antt =====
-- How often the timers of src/wg_core.c try a handshake.
use polar_wg_app.Common.{
  ℕ, zero, suc, ◌+◌, ◌-◌, ◌≤◌, ◌≡◌, refl, ap, Bool, false, Option, none, some, List, [], ◌&&◌, ◌||◌,
  leb, ltb, ◌==◌, if-cases, leb-lt, length, arith, All, is_positive, to_ℕ,
}
use polar_wg_app.Session.Host.{Host, Initiation}
use polar_wg_app.Session.Mbuf.{Mbuf, devget, freem}
use polar_wg_app.Session.Data.{padded_len, pad, data_hdr_len}
use polar_wg_app.Client.Types.{PeerState, wg_buf_max}
use polar_wg_app.Client.Send.{Sockets}
use polar_wg_app.Common.Run.{then_Keeps}
use polar_wg_app.Client.Ctx.{Link, TunnelCtx, in_world, enter, on_link, on_link-All}
use polar_wg_app.Client.Tunnel.{
  rekey_timeout_sec, max_attempts, tick_from, send_message, send_initiation, send_frame,
  encrypt_frame, fill_frame, number_frame, note_no_keypair, wg_encap, initiated,
  tunnel_send_initiation, retransmit, needs_handshake, initiate, keep_alive, tunnel_tick_peer,
  tunnel_tick,
}

abbrev pub IsTried : {W : Type 0} → Link W → Type 0
IsTried l = l.state.hs_attempts ≤ max_attempts

module _ (L : Host) (K : Sockets L.W) (udp_fd : ℕ) where
  open L use {W, create_initiation, keypair_current, keypair_nonce_next, keypair_encrypt}

  -- The timers are as they were.
  abbrev pub Keeps : {A : Type 0} → Link W → A × Link W → Type 0
  Keeps l r = r.1.state ≡ l.state

  send_initiation-Keeps : (l : Link W) → Keeps l (send_initiation L K udp_fd l)
  unfolding send_initiation send_message
  send_initiation-Keeps l =
      let (o, w) = create_initiation l.remote l.tx.world in
      if-cases (Keeps l) (length l.tx.peer.endpoint == 0) (λ _. refl) (λ _. made o w)
    where
      made :
          (o : Option Initiation) (w : W)
          → Keeps {A = Option ℕ} l (elim o [
            | none ↦ (none, in_world w l)
            | some m ↦ send_message L K udp_fd m (in_world w l)
          ])
      made none w = refl
      made (some m) w = refl

  encrypt_frame-Keeps :
      (kp nonce : ℕ) (m : Mbuf) (l : Link W) → Keeps l (encrypt_frame L K udp_fd kp nonce m l)
  unfolding encrypt_frame send_frame
  encrypt_frame-Keeps kp nonce m l =
      let (o, w) = keypair_encrypt kp nonce m.bytes l.tx.world in ended o w
    where
      ended :
          (o : Option (ℕ × List ℕ)) (w : W)
          → Keeps {A = Bool} l (elim o [
            | none ↦ (false, in_world (L.keypair_put kp (freem L m w)) l)
            | some (r_idx, body) ↦ send_frame L K udp_fd kp nonce m r_idx body (in_world w l)
          ])
      ended none w = refl
      ended (some (r_idx, body)) w =
          if-cases (Keeps l) (ltb wg_buf_max (data_hdr_len + length body)) (λ _. refl) (λ _. refl)

  fill_frame-Keeps :
      (kp nonce : ℕ) (scratch : List ℕ) (l : Link W)
      → Keeps l (fill_frame L K udp_fd kp nonce scratch l)
  unfolding fill_frame
  fill_frame-Keeps kp nonce scratch l = let (o, w) = devget L scratch l.tx.world in ended o w
    where
      ended :
          (o : Option Mbuf) (w : W)
          → Keeps {A = Bool} l (elim o [
            | none ↦ (false, in_world (L.keypair_put kp w) l)
            | some m ↦ encrypt_frame L K udp_fd kp nonce m (in_world w l)
          ])
      ended none w = refl
      ended (some m) w = encrypt_frame-Keeps kp nonce m (in_world w l)

  number_frame-Keeps :
      (kp : ℕ) (scratch : List ℕ) (l : Link W) → Keeps l (number_frame L K udp_fd kp scratch l)
  unfolding number_frame
  number_frame-Keeps kp scratch l = let (o, w) = keypair_nonce_next kp l.tx.world in ended o w
    where
      ended :
          (o : Option ℕ) (w : W)
          → Keeps {A = Bool} l (elim o [
            | none ↦ (false, in_world (L.keypair_put kp w) l)
            | some nonce ↦ fill_frame L K udp_fd kp nonce scratch (in_world w l)
          ])
      ended none w = refl
      ended (some nonce) w = fill_frame-Keeps kp nonce scratch (in_world w l)

  note_no_keypair-state : (l : Link W) → (note_no_keypair L K udp_fd l).state ≡ l.state
  unfolding note_no_keypair
  note_no_keypair-state l =
      if-cases (λ (m : Link W). m.state ≡ l.state)
        (leb 10 ((K.time l.tx.world).0 - l.nokp_log_last)) (λ _. refl) (λ _. refl)

  pub wg_encap-Keeps : (plain : List ℕ) (l : Link W) → Keeps l (wg_encap L K udp_fd plain l)
  unfolding wg_encap
  wg_encap-Keeps plain l =
      let (o, w) = keypair_current l.remote l.tx.world in
      if-cases (Keeps l)
        (length l.tx.peer.endpoint == 0 || ltb wg_buf_max (padded_len (length plain))) (λ _. refl)
        (λ _. ended o w)
    where
      ended :
          (o : Option ℕ) (w : W)
          → Keeps {A = Bool} l (elim o [
            | none ↦ (false, note_no_keypair L K udp_fd (in_world w l))
            | some kp ↦ number_frame L K udp_fd kp (pad plain) (in_world w l)
          ])
      ended none w = note_no_keypair-state (in_world w l)
      ended (some kp) w = number_frame-Keeps kp (pad plain) (in_world w l)

  initiated-Attempts :
      (now : ℕ) (o : Option ℕ) (p : PeerState)
      → (initiated L K udp_fd now o p).hs_attempts ≤ p.hs_attempts + 1
  unfolding initiated
  initiated-Attempts now none p = omega arith
  initiated-Attempts now (some idx) p = omega arith

  tunnel_send_initiation-attempts :
      (now : ℕ) (l : Link W)
      → (tunnel_send_initiation L K udp_fd now l).state.hs_attempts ≤ l.state.hs_attempts + 1
  unfolding tunnel_send_initiation
  tunnel_send_initiation-attempts now l =
      let (o, l1) = send_initiation L K udp_fd l in
      omega (
        arith,
        initiated-Attempts now o l1.state,
        ap (λ (p : PeerState). p.hs_attempts) (send_initiation-Keeps l),
      )

  retransmit-IsTried : (now : ℕ) (l : Link W) → IsTried l → IsTried (retransmit L K udp_fd now l)
  unfolding retransmit
  retransmit-IsTried now l h =
      if-cases IsTried (l.state.hs_pending && leb rekey_timeout_sec (now - l.state.hs_sent_at))
        (λ _.
          if-cases IsTried (leb max_attempts l.state.hs_attempts) (λ _. omega arith)
            (λ k. omega (
              arith,
              tunnel_send_initiation-attempts now
                  (record l { state = record l.state { hs_sent_at = now } }),
              leb-lt max_attempts l.state.hs_attempts k,
            )))
        (λ _. h)

  initiate-IsTried : (now : ℕ) (l : Link W) → IsTried l → IsTried (initiate L K udp_fd now l)
  unfolding initiate
  initiate-IsTried now l h =
      if-cases IsTried (needs_handshake L K udp_fd now l.state)
        (λ _. omega (
          arith,
          tunnel_send_initiation-attempts now
              (record l { state = record l.state { hs_attempts = 0 } }),
        ))
        (λ _. h)

  keep_alive-IsTried : (now : ℕ) (l : Link W) → IsTried l → IsTried (keep_alive L K udp_fd now l)
  unfolding keep_alive
  keep_alive-IsTried now l h =
      let p = l.state in
      let e = ap (λ (q : PeerState). q.hs_attempts) (wg_encap-Keeps [] l) in
      if-cases IsTried
        (is_positive p.pk_sec
          && (ltb 0 p.last_authd_tx && leb (to_ℕ p.pk_sec) (now - p.last_authd_tx)))
        (λ _.
          if-cases IsTried ((wg_encap L K udp_fd [] l).0) (λ _. omega (arith, e, h))
            (λ _. omega (arith, e, h)))
        (λ _. h)

  pub tunnel_tick_peer-IsTried :
      (now : ℕ) (l : Link W) → IsTried l → IsTried (tunnel_tick_peer L K udp_fd now l)
  unfolding tunnel_tick_peer
  tunnel_tick_peer-IsTried now l h =
      let l1 = retransmit L K udp_fd now l in
      keep_alive-IsTried now (initiate L K udp_fd now l1)
        (initiate-IsTried now l1 (retransmit-IsTried now l h))

  tick_from-AreTried :
      (now n i : ℕ) (c : TunnelCtx W)
      → All IsTried c.peers
      → All IsTried (tick_from L K udp_fd now n i c).1.peers
  unfolding tick_from
  tick_from-AreTried now zero i c h = h
  tick_from-AreTried now (suc n) i c h =
      then_Keeps (λ c1. All IsTried c1.peers)
        (on_link i (λ l. (tt, tunnel_tick_peer L K udp_fd now l)))
        (λ _. tick_from L K udp_fd now n (i + 1)) c
        (on_link-All IsTried i (λ l. (tt, tunnel_tick_peer L K udp_fd now l)) c h
          (λ l p. tunnel_tick_peer-IsTried now (enter c l) p))
        (λ _ c1 k. tick_from-AreTried now n (i + 1) c1 k)

  -- If every peer has had at most MAX_HANDSHAKE_ATTEMPTS attempts at its handshake, the same holds after
  -- `tunnel_tick`, whatever the calls of the system and of the noise and cookie layers return.
  pub tunnel_tick-AreTried :
      (now : ℕ) (c : TunnelCtx W)
      → All IsTried c.peers
      → All IsTried (tunnel_tick L K udp_fd now c).1.peers
  unfolding tunnel_tick
  tunnel_tick-AreTried now c h = tick_from-AreTried now (length c.peers) 0 c h
