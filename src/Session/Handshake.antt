-- ===== src/Session/Handshake.antt =====
-- The handshake messages of src/wg_session.c: `wgs_send_initiation`, `find_pending`,
-- `wgs_handle_initiation`, `wgs_handle_response` and `wgs_handle_cookie`.
pub mod Outcomes
use polar_wg_app.Common.{
  ℕ, zero, suc, ◌+◌, Bool, true, false, not, ◌&&◌, Option, none, some, List, [], ◌∷◌, ◌++◌, leb,
  ◌==◌, if◌then◌else◌, length, take, drop,
}
use polar_wg_app.Session.Types.{Peer, Session, le32, put_le32, memcpy}
use polar_wg_app.Session.Host.{Host, Initiation, Response}
use polar_wg_app.Session.Monad.{
  Event, sent, delivered, St, M, Res, ok, fail, fault, pure, failure, ◌>>=◌, ◌>>◌, call, run, check,
  some_or, deref, upcall, session, peer, set_peer, change_peer,
}

abbrev pub slice : ℕ → ℕ → List ℕ → List ℕ
slice i n bs = take n (drop i bs)

-- `struct wgs_pkt_initiation` up to its MACs.
unfoldable pub initiation_msg : Initiation → List ℕ
initiation_msg m = put_le32 1 ++ put_le32 m.s_idx ++ m.ue ++ m.es ++ m.ets

unfoldable pub read_initiation : List ℕ → Initiation
read_initiation bs = record {
  s_idx = le32 bs 4;
  ue = slice 8 32 bs;
  es = slice 40 48 bs;
  ets = slice 88 28 bs;
}

-- `struct wgs_pkt_response` up to its MACs.
unfoldable pub response_msg : Response → List ℕ
response_msg m = put_le32 2 ++ put_le32 m.s_idx ++ put_le32 m.r_idx ++ m.ue ++ m.en

unfoldable pub read_response : List ℕ → Response
read_response bs = record {
  s_idx = le32 bs 4;
  r_idx = le32 bs 8;
  ue = slice 12 32 bs;
  en = slice 44 16 bs;
}

abbrev pub initiation_size : ℕ
initiation_size = 148

abbrev pub response_size : ℕ
response_size = 92

abbrev pub cookie_size : ℕ
cookie_size = 64

abbrev pub waits_for : ℕ → Peer → Bool
waits_for idx p = p.active && (p.hs_pending && p.hs_local_idx == idx)

-- The first slot, counted from `i`, whose pending handshake has the index.
unfoldable pub find_pending : ℕ → ℕ → List Peer → Option ℕ
find_pending idx i [] = none
find_pending idx i (p ∷ ps) = if waits_for idx p then some i else find_pending idx (i + 1) ps

-- Equality of two pointers, NULL being `none`.
abbrev pub same_ptr : Option ℕ → Option ℕ → Bool
same_ptr none none = true
same_ptr none (some b) = false
same_ptr (some a) none = false
same_ptr (some a) (some b) = a == b

module _ (L : Host) where
  open L use {
    W, time, create_initiation, consume_initiation, create_response, consume_response, maker_mac,
    maker_consume, validate_macs, remote_arg, remote_put,
  }

  -- `wgs_send_initiation`
  unfoldable pub send_initiation : ℕ → M W (Unit {0})
  send_initiation i = do
    p ← peer i
    check (p.has_endpoint && not (p.endpoint_len == 0))
    m ← some_or (pure tt) (← call (create_initiation (← deref p.remote)))
    macs ← call (maker_mac i (initiation_msg m))
    s ← session
    upcall s.has_send_udp (sent (initiation_msg m ++ macs) (take p.endpoint_len p.endpoint))
    now ← call time
    change_peer i (λ q. record q {
      hs_pending = true;
      hs_sent_at = now;
      hs_local_idx = m.s_idx;
      hs_attempts = q.hs_attempts + 1;
      last_authd_tx = now;
    })

  -- `matched ? noise_remote_arg(matched) : NULL`; without a peer the reference is given back.
  unfoldable pub matched_peer : Option ℕ → M W (ℕ × ℕ)
  matched_peer none st = (fail, st)
  matched_peer (some rem) st = elim (remote_arg rem st.world) [
    | none ↦ (fail, record st { world = remote_put rem st.world })
    | some i ↦ (ok (rem, i), st)
  ]

  -- `wgs_handle_initiation`
  unfoldable pub handle_initiation : List ℕ → List ℕ → M W (Unit {0})
  handle_initiation bytes from = do
    check (leb initiation_size (length bytes))
    valid ← call (validate_macs (slice 116 32 bytes) (take 116 bytes) from)
    check valid
    s ← session
    loc ← deref s.noise_local
    matched ← some_or (pure tt) (← call (consume_initiation loc (read_initiation bytes)))
    (rem, i) ← matched_peer matched
    m ← some_or (run (remote_put rem)) (← call (create_response rem))
    macs ← call (maker_mac i (response_msg m))
    upcall s.has_send_udp (sent (response_msg m ++ macs) from)
    run (remote_put rem)
    now ← call time
    change_peer i (λ p. record p {
      endpoint = memcpy p.endpoint from (length from);
      endpoint_len = length from;
      keypair_birth = now;
      last_authd_tx = now;
      hs_pending = false;
    })

  -- `if (matched) noise_remote_put(matched);`
  unfoldable pub put_matched : Option ℕ → M W (Unit {0})
  put_matched none st = (ok tt, st)
  put_matched (some rem) st = (ok tt, record st { world = remote_put rem st.world })

  -- `wgs_handle_response`
  unfoldable pub handle_response : List ℕ → M W (Unit {0})
  handle_response bytes = do
    check (leb response_size (length bytes))
    s ← session
    i ← some_or (pure tt) (find_pending (le32 bytes 8) 0 s.peers)
    p ← peer i
    loc ← deref s.noise_local
    matched ← some_or (pure tt) (← call (consume_response loc (read_response bytes)))
    if not (same_ptr matched p.remote) then put_matched matched >> failure else (do
      rem ← deref matched
      run (remote_put rem)
      now ← call time
      change_peer i (λ q. record q { hs_pending = false; hs_attempts = 0; keypair_birth = now }))

  -- `wgs_handle_cookie`
  unfoldable pub handle_cookie : List ℕ → M W (Unit {0})
  handle_cookie bytes = do
    check (leb cookie_size (length bytes))
    s ← session
    i ← some_or (pure tt) (find_pending (le32 bytes 4) 0 s.peers)
    consumed ← call (maker_consume i (slice 8 24 bytes) (slice 32 32 bytes))
    pure tt
