-- ===== src/Client/Handshake/Pending.antt =====
-- Handshakes that are under way when a message of src/wg_core.c arrives.
use polar_wg_app.Common.{
  false, true, ℕ, zero, suc, ◌+◌, ◌≡◌, ◌≢◌, refl, sym, ap, ◌∙◌, Bool, Option, none, some, List, [],
  ◌∷◌, ◌==◌, if◌then◌else◌, if-cases, leb-le, length, ◌≤◌, get_elem?, set, get_elem?-set_of_some,
  arith,
}
use polar_wg_app.Common.Run.{Res, ok, fail, fault, failure, deref, ◌>>=◌, ◌>>◌}
use polar_wg_app.Session.Types.{le32}
use polar_wg_app.Session.Host.{Host}
use polar_wg_app.Client.Types.{PeerState}
use polar_wg_app.Client.Send.{Sockets}
use polar_wg_app.Client.Ctx.{Link, TunnelCtx, T}
use polar_wg_app.Client.Device.{Device}
use polar_wg_app.Session.Handshake.{read_response, response_size, same_ptr}
use polar_wg_app.Client.Handshake.{
  settle, rekey_jitter_max_sec, find_peer_pending, stamped, stamp_keypair, roam, reply,
  matched_link, respond, welcome, tunnel_consume_initiation, put_remote, finished,
  tunnel_consume_response, consumed,
}

-- The answers that the peers wait for.
unfoldable pub awaited : {W : Type 0} → List (Link W) → List (Bool × ℕ)
awaited [] = []
awaited (l ∷ ls) = (l.state.hs_pending, l.state.hs_local_idx) ∷ awaited ls

unfoldable pub state_at : {W : Type 0} → ℕ → List (Link W) → Option PeerState
state_at j [] = none
state_at zero (l ∷ ls) = some l.state
state_at (suc j) (l ∷ ls) = state_at j ls

module _ {W : Type 0} where
  awaited-set :
      (i : ℕ) (ls : List (Link W)) (l l0 : Link W)
      → get_elem? ls i ≡ some l0
      → l.state.hs_pending ≡ l0.state.hs_pending
      → l.state.hs_local_idx ≡ l0.state.hs_local_idx
      → awaited (set ls i l) ≡ awaited ls
  unfolding awaited
  awaited-set i [] l l0 e p q = refl
  awaited-set zero (x ∷ ls) l l0 e p q = cc
  awaited-set (suc i) (x ∷ ls) l l0 e p q =
      ap (◌∷◌ (x.state.hs_pending, x.state.hs_local_idx)) (awaited-set i ls l l0 e p q)

  state_at-set :
      (j i : ℕ) (ls : List (Link W)) (l l0 : Link W)
      → get_elem? ls i ≡ some l0
      → state_at j (set ls i l) ≡ (if i == j then some l.state else state_at j ls)
  unfolding state_at
  state_at-set j i [] l l0 e = absurd (cc)
  state_at-set zero zero (x ∷ ls) l l0 e = refl
  state_at-set zero (suc i) (x ∷ ls) l l0 e = ground arith
  state_at-set (suc j) zero (x ∷ ls) l l0 e = ground arith
  state_at-set (suc j) (suc i) (x ∷ ls) l l0 e = ground (arith, state_at-set j i ls l l0 e)

  find_peer_pending-awaited :
      (idx i : ℕ) (ls ms : List (Link W))
      → awaited ls ≡ awaited ms
      → find_peer_pending idx i ls ≡ find_peer_pending idx i ms
  unfolding awaited find_peer_pending
  find_peer_pending-awaited idx i [] [] e = refl
  find_peer_pending-awaited idx i [] (m ∷ ms) e = cc
  find_peer_pending-awaited idx i (l ∷ ls) [] e = cc
  find_peer_pending-awaited idx i (l ∷ ls) (m ∷ ms) e =
      grind (arith, find_peer_pending-awaited idx (i + 1) ls ms)

module _ (L : Host) (K : Sockets L.W) (D : Device L.W) (udp_fd : ℕ) where
  open L use {W}

  stamp_keypair-awaited :
      (i : ℕ) (c : TunnelCtx W) → awaited (stamp_keypair L K D udp_fd i c).1.peers ≡ awaited c.peers
  unfolding stamp_keypair stamped
  stamp_keypair-awaited i c = grind (arith, awaited-set)

  roam-awaited :
      (i : ℕ) (from : List ℕ) (c : TunnelCtx W)
      → awaited (roam L K D udp_fd i from c).1.peers ≡ awaited c.peers
  unfolding roam
  roam-awaited i from c = grind (arith, awaited-set)

  respond-peers :
      (rem i : ℕ) (from : List ℕ) (c : TunnelCtx W)
      → (respond L K D udp_fd rem i from c).1.peers ≡ c.peers
  unfolding respond reply
  respond-peers rem i from c = ground arith

  tunnel_consume_initiation-awaited :
      (buf from : List ℕ) (c : TunnelCtx W)
      → awaited (tunnel_consume_initiation L K D udp_fd buf from c).1.peers ≡ awaited c.peers
  unfolding tunnel_consume_initiation matched_link welcome
  tunnel_consume_initiation-awaited buf from c =
      grind (arith, respond-peers, roam-awaited, stamp_keypair-awaited)

  -- An initiation of a peer that crosses our own does not lose it: after `tunnel_consume_initiation`,
  -- whatever the message and the outcome, an answer with any index is given to the same peer as before,
  -- or to none as before.
  pub find_peer_pending-tunnel_consume_initiation :
      (idx : ℕ) (buf from : List ℕ) (c : TunnelCtx W)
      → find_peer_pending idx 0 (tunnel_consume_initiation L K D udp_fd buf from c).1.peers
        ≡ find_peer_pending idx 0 c.peers
  find_peer_pending-tunnel_consume_initiation idx buf from c =
      find_peer_pending-awaited idx 0 (tunnel_consume_initiation L K D udp_fd buf from c).1.peers
        c.peers (tunnel_consume_initiation-awaited buf from c)

  -- The peer that a response is for.
  abbrev pub answered : List ℕ → TunnelCtx W → Option ℕ
  answered buf c = find_peer_pending (le32 buf 8) 0 c.peers

  -- What the noise layer makes of the response.
  abbrev pub Accepts : List ℕ → TunnelCtx W → Option ℕ → Type 0
  Accepts buf c matched = (L.consume_response c.local (read_response buf) c.world).0 ≡ some matched

  -- The noise layer accepted the response as that of the peer that waited for it. This peer's handshake
  -- is over, its new keypair is of the time that the clock gave, and the states of the others are as they
  -- were.
  pub record IsSettled (buf : List ℕ) (c d : TunnelCtx W) : Type 0 where
    pub long : response_size ≤ length buf
    pub index : ℕ
    pub before : Link W
    pub clock : W
    pub found : answered buf c ≡ some index
    pub was : get_elem? c.peers index ≡ some before
    pub accepted : Accepts buf c (some before.remote)
    pub is :
        state_at index d.peers
        ≡ some (record before.state {
          hs_pending = false;
          hs_attempts = 0;
          keypair_birth = (K.time clock).0;
          last_authd_tx = (K.time clock).0;
          rekey_jitter_sec = (D.arc4random_uniform rekey_jitter_max_sec (K.time clock).1).0;
        })
    pub others : (j : ℕ) → index ≢ j → state_at j d.peers ≡ state_at j c.peers

  abbrev pub Settles : List ℕ → TunnelCtx W → Res (Unit {0}) × TunnelCtx W → Type 0
  Settles buf c (fail, d) = d.peers ≡ c.peers
  Settles buf c (fault, d) = Unit {0}
  Settles buf c (ok a, d) = IsSettled buf c d

  settle-state :
      (i : ℕ) (l : Link W) (c : TunnelCtx W)
      → get_elem? c.peers i ≡ some l
      → let (r, d) = settle L K D udp_fd i c in
        (r ≡ ok tt)
        × ((j : ℕ)
            → state_at j d.peers ≡ (
                if i == j
                then some (
                    stamped L K D udp_fd
                      (K.time c.world).0
                      (D.arc4random_uniform rekey_jitter_max_sec (K.time c.world).1).0
                      (finished L K D udp_fd l.state))
                else state_at j c.peers))
  unfolding settle stamp_keypair
  settle-state i l c e = (
    grind (arith, get_elem?-set_of_some),
    λ j. grind (arith, state_at-set, get_elem?-set_of_some),
  )

  settled :
      (buf : List ℕ) (i : ℕ) (l : Link W) (c d : TunnelCtx W)
      → response_size ≤ length buf
      → answered buf c ≡ some i
      → Accepts buf c (some l.remote)
      → get_elem? c.peers i ≡ some l
      → d.peers ≡ c.peers
      → Settles buf c (settle L K D udp_fd i d)
  unfolding finished stamped
  settled buf i l c d long found acc e same =
      let (done, states) = settle-state i l d (ap (λ ls. get_elem? ls i) same ∙ e) in
      ended (settle L K D udp_fd i d) done states
    where
      ended :
          (r : Res (Unit {0}) × TunnelCtx W)
          → r.0 ≡ ok tt
          → ((j : ℕ)
              → state_at j r.1.peers ≡ (
                  if i == j
                  then some (
                      stamped L K D udp_fd
                        (K.time d.world).0
                        (D.arc4random_uniform rekey_jitter_max_sec (K.time d.world).1).0
                        (finished L K D udp_fd l.state))
                  else state_at j d.peers))
          → Settles buf c r
      ended (ok a, f) p q = record {
        long = long;
        index = i;
        before = l;
        clock = d.world;
        found = found;
        was = e;
        accepted = acc;
        is = ground (arith, q i);
        others = λ j h. ground (arith, q j, ap (state_at j) same);
      }
      ended (fail, f) p q = cc
      ended (fault, f) p q = tt

  put_remote-Settles :
      (buf : List ℕ) (i : ℕ) (l : Link W) (matched : Option ℕ) (c d : TunnelCtx W)
      → response_size ≤ length buf
      → answered buf c ≡ some i
      → Accepts buf c (some l.remote)
      → get_elem? c.peers i ≡ some l
      → d.peers ≡ c.peers
      → Settles buf c ((put_remote L K D udp_fd matched >> settle L K D udp_fd i) d)
  unfolding put_remote
  put_remote-Settles buf i l none c d long found acc e same =
      settled buf i l c d long found acc e same
  put_remote-Settles buf i l (some rem) c d long found acc e same =
      settled buf i l c (record d { world = L.remote_put rem d.world }) long found acc e same

  refused-Settles :
      (buf : List ℕ) (matched : Option ℕ) (c d : TunnelCtx W)
      → d.peers ≡ c.peers
      → Settles buf c ((put_remote L K D udp_fd matched >> failure) d)
  unfolding put_remote
  refused-Settles buf none c d same = same
  refused-Settles buf (some rem) c d same = same

  same_ptr-eq : (o : Option ℕ) (r : ℕ) → same_ptr o (some r) ≡ true → o ≡ some r
  same_ptr-eq none r e = cc
  same_ptr-eq (some a) r e = ground arith

  consumed-Settles :
      (buf : List ℕ) (i : ℕ) (matched : Option ℕ) (c d : TunnelCtx W)
      → response_size ≤ length buf
      → answered buf c ≡ some i
      → Accepts buf c matched
      → d.peers ≡ c.peers
      → Settles buf c (consumed L K D udp_fd i matched d)
  unfolding consumed
  consumed-Settles buf i matched c d long found acc same = linked (get_elem? d.peers i) refl
    where
      linked :
          (o : Option (Link W))
          → get_elem? d.peers i ≡ o
          → Settles buf c (
              (deref o >>= λ l.
              if same_ptr matched (some l.remote)
              then put_remote L K D udp_fd matched >> settle L K D udp_fd i
              else put_remote L K D udp_fd matched >> failure)
                d)
      linked none e = tt
      linked (some l) e =
          if-cases (λ (m : T W (Unit {0})). Settles buf c (m d)) (same_ptr matched (some l.remote))
            (λ h.
              put_remote-Settles buf i l matched c d long found
                (acc ∙ ap some (same_ptr-eq matched l.remote h))
                (ap (λ ls. get_elem? ls i) (sym same) ∙ e) same)
            (λ _. refused-Settles buf matched c d same)

  -- `tunnel_consume_response` that fails leaves the peers alone. If it succeeds, the message has at least
  -- 92 bytes, and the noise layer accepts it for the remote of the peer that waits for the answer
  -- with its index. This peer waits no more, has no attempts, and has the time of the new keypair
  -- and a new jitter; the states of the other peers are as they were.
  pub tunnel_consume_response-Settles :
      (buf : List ℕ) (c : TunnelCtx W) → Settles buf c (tunnel_consume_response L K D udp_fd buf c)
  unfolding tunnel_consume_response
  tunnel_consume_response-Settles buf c =
      grind (arith, consumed-Settles buf, leb-le response_size (length buf))
