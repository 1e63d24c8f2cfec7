-- ===== src/Session/Timers/Attempts.antt =====
-- The number of handshake attempts under `wg_session_tick` of src/wg_session.c.
use polar_wg_app.Common.{
  ℕ, zero, suc, ◌+◌, ◌≤◌, ◌<◌, ◌≡◌, false, some, List, [], arith, get_elem?, set, All, All-set,
  All-get, Option-cases, inl, inr, get_elem?-set_of_some,
}
use polar_wg_app.Session.Types.{Peer, max_handshake_attempts}
use polar_wg_app.Session.Host.{Host}
use polar_wg_app.Session.Monad.{St}
use polar_wg_app.Session.Mbuf.{Mbuf}
use polar_wg_app.Session.Data.{encap, encap_to, send_data}
use polar_wg_app.Session.Handshake.{send_initiation}
use polar_wg_app.Session.Timers.{ignore, retransmit, rekey, keepalive, tick_peer, tick_from, tick}

abbrev IsTried : Peer → Type 0
IsTried p = p.hs_attempts ≤ max_handshake_attempts

-- No peer has tried more than MAX_HANDSHAKE_ATTEMPTS times.
unfoldable pub AreTried : List Peer → Type 0
AreTried ps = All IsTried ps

set-AreTried : (ps : List Peer) (i : ℕ) (p : Peer) → AreTried ps → IsTried p → AreTried (set ps i p)
unfolding AreTried
set-AreTried ps i p h k = All-set IsTried ps i p h k

get-IsTried :
    (ps : List Peer) (i : ℕ) {p : Peer} → AreTried ps → get_elem? ps i ≡ some p → IsTried p
unfolding AreTried
get-IsTried ps i h e = All-get IsTried ps i h e

module _ (L : Host) where
  open L use {W}

  send_initiation-AreTried :
      (i : ℕ) (st : St W) (p : Peer)
      → get_elem? st.session.peers i ≡ some p
      → p.hs_attempts < max_handshake_attempts
      → AreTried st.session.peers
      → AreTried (send_initiation L i st).1.session.peers
  unfolding send_initiation
  send_initiation-AreTried i st p e h k = grind (arith, set-AreTried)

  send_data-AreTried :
      (i : ℕ) (p : Peer) (plain : List ℕ) (kp : ℕ) (m : Mbuf) (r_idx nonce : ℕ) (body : List ℕ)
      (st : St W)
      → AreTried st.session.peers
      → AreTried (send_data L i p plain kp m r_idx nonce body st).1.session.peers
  unfolding send_data
  send_data-AreTried i p plain kp m r_idx nonce body st k = grind (arith, set-AreTried, get-IsTried)

  encap-AreTried :
      (i : ℕ) (plain : List ℕ) (st : St W)
      → AreTried st.session.peers
      → AreTried (encap_to L i plain st).1.session.peers
  unfolding encap_to
  encap-AreTried i plain st k = grind (arith, send_data-AreTried)

  retransmit-AreTried :
      (now i : ℕ) (st : St W)
      → AreTried st.session.peers
      → AreTried (retransmit L now i st).1.session.peers
  unfolding retransmit ignore
  retransmit-AreTried now i st k = elim (Option-cases (get_elem? st.session.peers i)) [
    | inl e ↦ ground arith
    | inr (p, e) ↦
        let ps = set st.session.peers i (record p { hs_sent_at = now }) in
        let st' : St W = record st { session = record st.session { peers = ps } } in
        ground (
          arith,
          get-IsTried st.session.peers i k e,
          set-AreTried st.session.peers i (record p { hs_sent_at = now }) k,
          get_elem?-set_of_some st.session.peers i (record p { hs_sent_at = now }) e,
          send_initiation-AreTried i st' (record p { hs_sent_at = now }),
          set-AreTried ps i (record p { hs_sent_at = now; hs_pending = false; hs_attempts = 0 }),
        )
  ]

  rekey-AreTried :
      (now i : ℕ) (st : St W)
      → AreTried st.session.peers
      → AreTried (rekey L now i st).1.session.peers
  unfolding rekey ignore
  rekey-AreTried now i st k = elim (Option-cases (get_elem? st.session.peers i)) [
    | inl e ↦ ground arith
    | inr (p, e) ↦
        let ps = set st.session.peers i (record p { hs_attempts = 0 }) in
        let st' : St W = record st { session = record st.session { peers = ps } } in
        ground (
          arith,
          set-AreTried st.session.peers i (record p { hs_attempts = 0 }) k,
          get_elem?-set_of_some st.session.peers i (record p { hs_attempts = 0 }) e,
          send_initiation-AreTried i st' (record p { hs_attempts = 0 }),
        )
  ]

  keepalive-AreTried :
      (now i : ℕ) (st : St W)
      → AreTried st.session.peers
      → AreTried (keepalive L now i st).1.session.peers
  unfolding keepalive encap ignore
  keepalive-AreTried now i st k = ground (arith, encap-AreTried i [] st k)

  tick_peer-AreTried :
      (now i : ℕ) (st : St W)
      → AreTried st.session.peers
      → AreTried (tick_peer L now i st).1.session.peers
  unfolding tick_peer
  tick_peer-AreTried now i st k =
      grind (arith, retransmit-AreTried, rekey-AreTried, keepalive-AreTried)

  tick_from-AreTried :
      (now n i : ℕ) (st : St W)
      → AreTried st.session.peers
      → AreTried (tick_from L now n i st).1.session.peers
  unfolding tick_from
  tick_from-AreTried now zero i st k = k
  tick_from-AreTried now (suc n) i st k = ground (
    arith,
    tick_peer-AreTried now i st k,
    tick_from-AreTried now n (i + 1) (tick_peer L now i st).1,
  )

  -- `wg_session_tick` never lets a peer go beyond MAX_HANDSHAKE_ATTEMPTS handshake attempts, however
  -- its calls of the noise layer turn out.
  pub tick-AreTried : (st : St W) → AreTried st.session.peers → AreTried (tick L st).1.session.peers
  unfolding tick
  tick-AreTried st k = grind (arith, tick_from-AreTried)
