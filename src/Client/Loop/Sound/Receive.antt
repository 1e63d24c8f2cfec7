-- ===== src/Client/Loop/Sound/Receive.antt =====
-- What a datagram leaves alone in the tunnel loop of src/wg_core.c.
use polar_wg_app.Common.{
  ℕ, ◌+◌, ◌<◌, ◌≡◌, refl, subst, Bool, true, Option, none, some, is_some, List, [], ◌∷◌, ◌==◌, ltb,
  if◌then◌else◌, if-cases, length, All, arith,
}
use polar_wg_app.Common.Run.{Res, ok, fail, fault, pure, ◌>>=◌, ◌>>◌}
use polar_wg_app.Session.Types.{le32}
use polar_wg_app.Session.Host.{Host}
use polar_wg_app.Session.Mbuf.{Mbuf}
use polar_wg_app.Session.Data.{owns}
use polar_wg_app.Client.Types.{PeerState}
use polar_wg_app.Client.Send.{Sockets}
use polar_wg_app.Client.Ctx.{Link, AipsSet, TunnelCtx, T, change_state}
use polar_wg_app.Client.Device.{Device, framed, utun_write}
use polar_wg_app.Client.Handshake.{
  find_peer_pending, put_remote, settle, consumed, finished, stamp_keypair, roam,
  tunnel_consume_response, rx_cookie,
}
use polar_wg_app.Client.Receive.{
  aips_lookup_inner_src, logs, remote_link, opened_packet, wg_decap, kept_alive, dropped, counted,
  rx_inner, rx_opened, rx_data, rx_dispatch, rx_handle_datagram,
}
use polar_wg_app.Client.Loop.Sound.{
  IsWired, IsSound, Keeps, get_elem?-some, in_world-IsSound, on_link-Keeps, then_Keeps, roam-Keeps,
  stamp_keypair-Keeps, tunnel_consume_initiation-Keeps,
}

find_peer_pending-lt :
    {W : Type 0} (idx i : ℕ) (ls : List (Link W)) {j : ℕ}
    → find_peer_pending idx i ls ≡ some j
    → j < i + length ls
unfolding find_peer_pending
find_peer_pending-lt idx i [] e = cc
find_peer_pending-lt idx i (l ∷ ls) {j} e = ground (
  arith,
  λ (h : find_peer_pending idx (i + 1) ls ≡ some j). find_peer_pending-lt idx (i + 1) ls h,
)

owns-some : (i : ℕ) (o : Option ℕ) → owns i o ≡ true → is_some o ≡ true
owns-some i none e = cc
owns-some i (some j) e = refl

module _ (L : Host) (K : Sockets L.W) (D : Device L.W) (udp_fd utun_fd : ℕ) (s : AipsSet) (n : ℕ)
    (wired : IsWired L s n) where
  open L use {W}

  -- The abbreviations of `Keeps` and its lemmas at these parameters.
  abbrev Safe : {B : Type 0} → Res B × TunnelCtx W → Type 0
  Safe r = Keeps L K D udp_fd utun_fd s n wired r

  rx_cookie-Safe :
      (buf : List ℕ) (c : TunnelCtx W) → IsSound W s n c → Safe (rx_cookie L K D udp_fd buf c)
  unfolding rx_cookie
  rx_cookie-Safe buf c inv = grind (
    arith,
    inv.count,
    get_elem?-some,
    find_peer_pending-lt (le32 buf 4) 0 c.peers,
    in_world-IsSound L K D udp_fd utun_fd s n wired c,
  )

  finished-Safe :
      (i : ℕ) (c : TunnelCtx W)
      → i < n
      → IsSound W s n c
      → Safe ((change_state i (finished L K D udp_fd) >> stamp_keypair L K D udp_fd i) c)
  unfolding finished
  finished-Safe i c h inv =
      then_Keeps L K D udp_fd utun_fd s n wired (change_state i (finished L K D udp_fd))
        (λ _. stamp_keypair L K D udp_fd i) c
        (on_link-Keeps L K D udp_fd utun_fd s n wired i
          (λ l. (tt, record l { state = finished L K D udp_fd l.state })) c h inv
          (λ l p. omega arith))
        (λ _ d k. stamp_keypair-Keeps L K D udp_fd utun_fd s n wired i d h k)

  tunnel_consume_response-Safe :
      (buf : List ℕ) (c : TunnelCtx W)
      → IsSound W s n c
      → Safe (tunnel_consume_response L K D udp_fd buf c)
  unfolding tunnel_consume_response put_remote consumed settle
  tunnel_consume_response-Safe buf c inv = grind (
    arith,
    inv.count,
    get_elem?-some,
    find_peer_pending-lt (le32 buf 8) 0 c.peers,
    in_world-IsSound L K D udp_fd utun_fd s n wired c,
    finished-Safe,
  )

  -- The counters of a peer, and its address.
  counted-Safe :
      (i : ℕ) (f : PeerState → PeerState) (from : List ℕ) (c : TunnelCtx W)
      → i < n
      → ((p : PeerState) → (f p).hs_attempts ≡ p.hs_attempts)
      → IsSound W s n c
      → Safe ((change_state i f >> roam L K D udp_fd i from) c)
  counted-Safe i f from c h same inv =
      then_Keeps L K D udp_fd utun_fd s n wired (change_state i f) (λ _. roam L K D udp_fd i from) c
        (on_link-Keeps L K D udp_fd utun_fd s n wired i (λ l. (tt, record l { state = f l.state }))
          c h inv (λ l p. omega (arith, same l.state, p)))
        (λ _ d k. roam-Keeps L K D udp_fd utun_fd s n wired i from d h k)

  written-IsSound :
      (inner : List ℕ) (c : TunnelCtx W)
      → is_some (aips_lookup_inner_src c.aips inner) ≡ true
      → IsSound W s n c
      → IsSound W s n (utun_write K D utun_fd inner c).1
  unfolding utun_write framed All
  written-IsSound inner c own inv =
      if-cases (λ (r : Bool × TunnelCtx W). IsSound W s n r.1) (length inner == 0) (λ _. inv)
        (λ _. record {
          count = inv.count;
          tries = inv.tries;
          tried = inv.tried;
          from =
              (subst (λ t. is_some (aips_lookup_inner_src t inner) ≡ true) inv.tries own, inv.from);
        })

  rx_inner-Safe :
      (i : ℕ) (inner from : List ℕ) (c : TunnelCtx W)
      → i < n
      → IsSound W s n c
      → Safe (rx_inner L K D udp_fd utun_fd i inner from c)
  unfolding rx_inner counted dropped
  rx_inner-Safe i inner from c h inv =
      let count = counted L K D udp_fd utun_fd (length inner) in
      let drop_it = dropped L K D udp_fd utun_fd in
      if-cases (λ (m : T W (Unit {0})). Safe (m c)) (owns i (aips_lookup_inner_src c.aips inner))
        (λ own.
          then_Keeps L K D udp_fd utun_fd s n wired
            (λ c1. let (done, c2) = utun_write K D utun_fd inner c1 in (ok done, c2))
            (λ written.
              if written then change_state i count >> roam L K D udp_fd i from else pure tt)
            c
            (
              λ e. cc,
              written-IsSound inner c (owns-some i (aips_lookup_inner_src c.aips inner) own) inv,
            )
            (λ written d k.
              if-cases (λ (m : T W (Unit {0})). Safe (m d)) written
                (λ _. counted-Safe i count from d h (λ p. refl) k) (λ _. (λ e. cc, k))))
        (λ _.
          on_link-Keeps L K D udp_fd utun_fd s n wired i
            (λ l. (tt, record l { state = drop_it l.state })) c h inv (λ l p. p))

  rx_opened-Safe :
      (inner : List ℕ) (i : ℕ) (from : List ℕ) (c : TunnelCtx W)
      → i < n
      → IsSound W s n c
      → Safe (rx_opened L K D udp_fd utun_fd inner (some i) from c)
  unfolding rx_opened kept_alive
  rx_opened-Safe inner i from c h inv =
      if-cases (λ (m : T W (Unit {0})). Safe (m c)) (length inner == 0)
        (λ _. counted-Safe i (kept_alive L K D udp_fd utun_fd) from c h (λ p. refl) inv)
        (λ _. rx_inner-Safe i inner from c h inv)

  opened_packet-Safe :
      (kp : ℕ) (m : Mbuf) (plain : List ℕ) (c : TunnelCtx W)
      → IsSound W s n c
      → Safe (opened_packet L K D udp_fd utun_fd kp m plain c)
        × ((inner : List ℕ) (i : ℕ)
            → (opened_packet L K D udp_fd utun_fd kp m plain c).0 ≡ ok (inner, some i)
            → i < n)
  unfolding opened_packet remote_link
  opened_packet-Safe kp m plain c inv = (
    grind (arith, in_world-IsSound L K D udp_fd utun_fd s n wired c),
    λ inner i e. grind (arith, wired.arg),
  )

  -- What `wg_decap` names as the sender is one of the peers.
  abbrev Decapped : Res (List ℕ × Option ℕ) × TunnelCtx W → Type 0
  Decapped r = Safe r × ((inner : List ℕ) (i : ℕ) → r.0 ≡ ok (inner, some i) → i < n)

  wg_decap-Decapped :
      (buf : List ℕ) (c : TunnelCtx W)
      → IsSound W s n c
      → Decapped (wg_decap L K D udp_fd utun_fd buf c)
  unfolding wg_decap
  wg_decap-Decapped buf c inv = (
    grind (arith, in_world-IsSound L K D udp_fd utun_fd s n wired c, opened_packet-Safe),
    λ inner i e.
        grind (arith, in_world-IsSound L K D udp_fd utun_fd s n wired c, opened_packet-Safe),
  )

  rx_data-Safe :
      (buf from : List ℕ) (c : TunnelCtx W)
      → IsSound W s n c
      → Safe (rx_data L K D udp_fd utun_fd buf from c)
  unfolding rx_data rx_opened
  rx_data-Safe buf from c inv =
      ended (wg_decap L K D udp_fd utun_fd buf c) (wg_decap-Decapped buf c inv)
    where
      ended :
          (r : Res (List ℕ × Option ℕ) × TunnelCtx W)
          → Decapped r
          → Safe (((λ _. r) >>= λ x. rx_opened L K D udp_fd utun_fd x.0 x.1 from) c)
      ended (ok (inner, none), d) k = (λ e. cc, k.0.1)
      ended (ok (inner, some i), d) k = rx_opened-Safe inner i from d (k.1 inner i refl) k.0.1
      ended (fail, d) k = (λ e. cc, k.0.1)
      ended (fault, d) k = absurd (k.0.0 refl)

  logs-Safe : (r : Res (Unit {0}) × TunnelCtx W) → Safe r → Safe (logs r)
  unfolding logs
  logs-Safe (ok a, d) k = (λ e. cc, k.1)
  logs-Safe (fail, d) k = (λ e. cc, k.1)
  logs-Safe (fault, d) k = absurd (k.0 refl)

  rx_dispatch-Safe :
      (buf from : List ℕ) (c : TunnelCtx W)
      → IsSound W s n c
      → Safe (rx_dispatch L K D udp_fd utun_fd buf from c)
  unfolding rx_dispatch
  rx_dispatch-Safe buf from c inv = grind (
    arith,
    rx_data-Safe,
    tunnel_consume_initiation-Keeps L K D udp_fd utun_fd s n wired,
    tunnel_consume_response-Safe,
    rx_cookie-Safe,
  )

  pub rx_handle_datagram-Safe :
      (buf from : List ℕ) (c : TunnelCtx W)
      → IsSound W s n c
      → Safe (rx_handle_datagram L K D udp_fd utun_fd buf from c)
  unfolding rx_handle_datagram
  rx_handle_datagram-Safe buf from c inv =
      if-cases Safe (ltb (length buf) 4) (λ _. (λ e. cc, inv))
        (λ _.
          logs-Safe (rx_dispatch L K D udp_fd utun_fd buf from c) (rx_dispatch-Safe buf from c inv))
