-- ===== src/Session/Timers.antt =====
-- The entry points of src/wg_session.c that drive a running session: `wg_session_handle_udp`,
-- `wg_session_handle_tun`, `wg_session_tick` and `wg_session_kick`. Times are seconds; a difference
-- that is negative in C is 0 here, and fails the same tests.
pub mod Attempts
pub mod Idle
pub mod Dispatch
use polar_wg_app.Common.{
  ℕ, zero, suc, ◌+◌, ◌-◌, Bool, true, false, not, ◌&&◌, Option, none, some, List, [], ◌∷◌, leb, ltb,
  ◌==◌, if◌then◌else◌, length, is_positive, to_ℕ,
}
use polar_wg_app.Session.Types.{
  Peer, Session, packet_type, rekey_timeout, rekey_after_time, max_handshake_attempts,
}
use polar_wg_app.Session.Host.{Host}
use polar_wg_app.Session.Monad.{
  St, M, Res, ok, fail, fault, pure, failure, ◌>>=◌, ◌>>◌, call, check, some_or, session, peer,
  change_peer,
}
use polar_wg_app.Session.Data.{lookup_dst, encap, handle_data}
use polar_wg_app.Session.Handshake.{
  send_initiation, handle_initiation, handle_response, handle_cookie,
}

-- A handshake message has waited for its answer for REKEY_TIMEOUT_SEC.
abbrev pub answer_overdue : ℕ → Peer → Bool
answer_overdue now p = p.hs_pending && leb rekey_timeout (now - p.hs_sent_at)

-- The keypair is REKEY_AFTER_TIME_SEC old, and no handshake is under way.
abbrev pub rekey_due : ℕ → Peer → Bool
rekey_due now p =
    not p.hs_pending
    && (not (p.keypair_birth == 0)
        && (ltb 0 p.endpoint_len && leb rekey_after_time (now - p.keypair_birth)))

abbrev pub keepalive_due : ℕ → Peer → Bool
keepalive_due now p =
    is_positive p.pk_sec && (ltb 0 p.last_authd_tx && leb (to_ℕ p.pk_sec) (now - p.last_authd_tx))

module _ (L : Host) where
  open L use {W, time}

  -- `(void)f()`: the result code is dropped.
  unfoldable pub ignore : Res (Unit {0}) × St W → Res (Unit {0}) × St W
  ignore (ok a, st) = (ok tt, st)
  ignore (fail, st) = (ok tt, st)
  ignore (fault, st) = (fault, st)

  unfoldable pub retransmit : ℕ → ℕ → M W (Unit {0})
  retransmit now i = do
    p ← peer i
    if answer_overdue now p
        then (do
          change_peer i (λ q. record q { hs_sent_at = now })
          if leb max_handshake_attempts p.hs_attempts
              then change_peer i (λ q. record q { hs_pending = false; hs_attempts = 0 })
              else (λ st. ignore (send_initiation L i st)))
        else pure tt

  unfoldable pub rekey : ℕ → ℕ → M W (Unit {0})
  rekey now i = do
    p ← peer i
    if rekey_due now p
        then (do
          change_peer i (λ q. record q { hs_attempts = 0 })
          λ st. ignore (send_initiation L i st))
        else pure tt

  unfoldable pub keepalive : ℕ → ℕ → M W (Unit {0})
  keepalive now i = do
    p ← peer i
    if keepalive_due now p then (λ st. ignore (encap L (some i) [] st)) else pure tt

  -- One round of the loop of `wg_session_tick`.
  unfoldable pub tick_peer : ℕ → ℕ → M W (Unit {0})
  tick_peer now i = do
    p ← peer i
    if p.active then (do retransmit now i; rekey now i; keepalive now i) else pure tt

  -- The rounds for `n` slots from `i` on.
  unfoldable pub tick_from : ℕ → ℕ → ℕ → M W (Unit {0})
  tick_from now zero i st = (ok tt, st)
  tick_from now (suc n) i st = (tick_peer now i >>= λ _ st'. tick_from now n (i + 1) st') st

  -- `wg_session_tick`
  unfoldable pub tick : M W (Unit {0})
  tick = do now ← call time; s ← session; tick_from now (length s.peers) 0

  -- The first slot, counted from `i`, whose active peer was given an endpoint.
  unfoldable pub first_with_endpoint : ℕ → List Peer → Option ℕ
  first_with_endpoint i [] = none
  first_with_endpoint i (p ∷ ps) =
      if p.active && (p.has_endpoint && ltb 0 p.endpoint_len)
      then some i
      else first_with_endpoint (i + 1) ps

  -- `wg_session_kick`
  unfoldable pub kick : M W (Unit {0})
  kick = do s ← session; i ← some_or (pure tt) (first_with_endpoint 0 s.peers); send_initiation L i

  -- `wg_session_handle_udp`
  unfoldable pub handle_udp : List ℕ → List ℕ → M W (Unit {0})
  handle_udp bytes from = do
    check (leb 4 (length bytes))
    let t = packet_type bytes
    if t == 4
        then handle_data L bytes from
        else if t == 1
        then handle_initiation L bytes from
        else if t == 2
        then handle_response L bytes
        else if t == 3
        then handle_cookie L bytes
        else failure

  -- `wg_session_handle_tun`
  unfoldable pub handle_tun : List ℕ → M W (Unit {0})
  handle_tun bytes = do
    check (leb 1 (length bytes))
    s ← session
    dst ← some_or (pure tt) (lookup_dst s bytes)
    encap L (some dst) bytes
