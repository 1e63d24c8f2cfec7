-- ===== src/Session/Timers/Idle.antt =====
-- Which peers `wg_session_tick` of src/wg_session.c leaves alone, and what it does to one that has
-- used up its handshake attempts.
use polar_wg_app.Common.{
  ℕ, ◌+◌, ◌≤◌, ◌≡◌, true, false, not, ◌&&◌, ◌||◌, Option, none, some, if◌then◌else◌, arith,
  get_elem?, set, leb, ◌==◌, ◌≢◌, pos, get_elem?-set_of_some,
}
use polar_wg_app.Session.Types.{Peer, max_handshake_attempts, rekey_after_time}
use polar_wg_app.Session.Host.{Host, Initiation}
use polar_wg_app.Session.Monad.{St, ok}
use polar_wg_app.Session.Handshake.{send_initiation, initiation_msg}
use polar_wg_app.Session.Timers.{
  ignore, retransmit, rekey, keepalive, tick_peer, answer_overdue, rekey_due, keepalive_due,
}

module _ (L : Host) where
  open L use {W}

  -- A round of `wg_session_tick` does nothing to a slot whose peer is not active, or has no answer
  -- overdue, no rekey due and no keepalive due: no upcall, no call of the host, no change.
  pub tick_peer_idle :
      (now i : ℕ) (st : St W) (p : Peer)
      → get_elem? st.session.peers i ≡ some p
      → (p.active && (answer_overdue now p || (rekey_due now p || keepalive_due now p))) ≡ false
      → tick_peer L now i st ≡ (ok tt, st)
  unfolding tick_peer retransmit rekey keepalive
  tick_peer_idle now i st p e idle = ground arith

  -- The attempts of the peer at a slot, while its handshake is under way.
  unfoldable pub tries_at : ℕ → St W → Option ℕ
  tries_at i st = elim (get_elem? st.session.peers i) [
    | none ↦ none
    | some p ↦ if p.hs_pending then some p.hs_attempts else none
  ]

  retransmit_gives_up :
      (now i : ℕ) (st : St W) (p : Peer)
      → get_elem? st.session.peers i ≡ some p
      → answer_overdue now p ≡ true
      → max_handshake_attempts ≤ p.hs_attempts
      → let (r, st') = retransmit L now i st in
        (r ≡ ok tt)
        × (st'.world ≡ st.world)
        × (get_elem? st'.session.peers i
            ≡ some (record p { hs_sent_at = now; hs_pending = false; hs_attempts = 0 }))
  unfolding retransmit
  retransmit_gives_up now i st p e over many =
      let q = record p { hs_sent_at = now } in
      let e' = get_elem?-set_of_some st.session.peers i q e in
      let used : leb max_handshake_attempts p.hs_attempts ≡ true = ground arith in
      ground (
        arith,
        e',
        used,
        get_elem?-set_of_some (set st.session.peers i q) i
            (record p { hs_sent_at = now; hs_pending = false; hs_attempts = 0 }) e',
      )

  -- The peer after an initiation `m` was created in the host's state `w`.
  abbrev initiated : ℕ → Initiation → Peer → W → Peer
  initiated i m p w =
      let now = (L.time (L.maker_mac i (initiation_msg m) w).1).0 in
      record p {
        hs_pending = true;
        hs_sent_at = now;
        hs_local_idx = m.s_idx;
        hs_attempts = p.hs_attempts + 1;
        last_authd_tx = now;
      }

  send_initiation_ok :
      (i : ℕ) (st : St W) (p : Peer) (rem : ℕ) (m : Initiation)
      → get_elem? st.session.peers i ≡ some p
      → (p.has_endpoint && not (p.endpoint_len == 0)) ≡ true
      → p.remote ≡ some rem
      → (L.create_initiation rem st.world).0 ≡ some m
      → let (r, st') = send_initiation L i st in
        (r ≡ ok tt)
        × (get_elem? st'.session.peers i
            ≡ some (initiated i m p (L.create_initiation rem st.world).1))
  unfolding send_initiation
  send_initiation_ok i st p rem m e h r c = ground (
    arith,
    get_elem?-set_of_some st.session.peers i (initiated i m p (L.create_initiation rem st.world).1)
        e,
  )

  rekey_ok :
      (now i : ℕ) (st : St W) (p : Peer) (rem : ℕ) (m : Initiation)
      → get_elem? st.session.peers i ≡ some p
      → rekey_due now p ≡ true
      → (p.has_endpoint && not (p.endpoint_len == 0)) ≡ true
      → p.remote ≡ some rem
      → (L.create_initiation rem st.world).0 ≡ some m
      → let (r, st') = rekey L now i st in
        (r ≡ ok tt)
        × (get_elem? st'.session.peers i
            ≡ some
                (initiated i m (record p { hs_attempts = 0 }) (L.create_initiation rem st.world).1))
  unfolding rekey ignore
  rekey_ok now i st p rem m e due h r c =
      let p' = record p { hs_attempts = 0 } in
      let ps = set st.session.peers i p' in
      let st' : St W = record st { session = record st.session { peers = ps } } in
      ground (
        arith,
        send_initiation_ok i st' p' rem m (get_elem?-set_of_some st.session.peers i p' e) h r c,
      )

  keepalive_off :
      (now i : ℕ) (st : St W) (p : Peer)
      → get_elem? st.session.peers i ≡ some p
      → p.pk_sec ≡ pos 0
      → keepalive L now i st ≡ (ok tt, st)
  unfolding keepalive
  keepalive_off now i st p e h = ground arith

  -- `wg_session_tick` gives a handshake up after MAX_HANDSHAKE_ATTEMPTS attempts without an answer,
  -- but if the peer still has an old keypair and an endpoint from its configuration, and no
  -- keepalive, the same round starts a new handshake at once, at its first attempt.
  pub gives_up_and_starts :
      (now i : ℕ) (st : St W) (p : Peer) (rem : ℕ) (m : Initiation)
      → get_elem? st.session.peers i ≡ some p
      → p.active ≡ true
      → answer_overdue now p ≡ true
      → max_handshake_attempts ≤ p.hs_attempts
      → p.keypair_birth ≢ 0
      → p.keypair_birth + rekey_after_time ≤ now
      → p.has_endpoint ≡ true
      → p.endpoint_len ≢ 0
      → p.pk_sec ≡ pos 0
      → p.remote ≡ some rem
      → (L.create_initiation rem st.world).0 ≡ some m
      → tries_at i (tick_peer L now i st).1 ≡ some 1
  unfolding tick_peer tries_at
  gives_up_and_starts now i st p rem m e act over many born old ep len pk r c =
      let p' = record p { hs_sent_at = now; hs_pending = false; hs_attempts = 0 } in
      let up = retransmit_gives_up now i st p e over many in
      let st' = (retransmit L now i st).1 in
      let again = rekey_ok now i st' p' rem m up.2 (ground arith) (ground arith) r (rw up.1 c) in
      let off = keepalive_off now i (rekey L now i st').1 _ again.1 pk in
      ground (arith, up, again, off)
