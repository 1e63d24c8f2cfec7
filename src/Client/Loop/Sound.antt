-- ===== src/Client/Loop/Sound.antt =====
-- What holds throughout the tunnel loop of src/wg_core.c.
pub mod Receive
pub mod Round
use polar_wg_app.Common.{
  ℕ, zero, suc, ◌+◌, ◌≤◌, ◌<◌, ◌≡◌, ◌≢◌, refl, ◌∙◌, Bool, true, Option, none, some, is_some, List,
  [], ◌∷◌, length, length-set, take, drop, get_elem?, All, All-set, All-get, arith,
}
use polar_wg_app.Common.Run.{Res, ok, fail, fault, pure, some_or, deref, ◌>>=◌, ◌>>◌}
use polar_wg_app.Allowedips
use polar_wg_app.Session.Host.{Host, Initiation}
use polar_wg_app.Session.Handshake.{slice, read_initiation}
use polar_wg_app.Client.Types.{PeerState}
use polar_wg_app.Client.Send.{Sockets, Call, peer_set_endpoint}
use polar_wg_app.Client.Ctx.{
  Link, AipsSet, TunnelCtx, T, enter, leave, on_found, on_link, change_state,
}
use polar_wg_app.Client.Device.{Device}
use polar_wg_app.Client.Tunnel.Attempts.{IsTried}
use polar_wg_app.Client.Handshake.{
  rekey_jitter_max_sec, stamped, stamp_keypair, roam, reply, matched_link, respond, welcome,
  tunnel_consume_initiation, put_remote, finished, tunnel_consume_response, rx_cookie,
}
use polar_wg_app.Client.Receive.{aips_lookup_inner_src}

-- A packet written to the device, behind its family, comes from an address of some peer.
abbrev pub IsFrom : AipsSet → List ℕ → Type 0
IsFrom s p = is_some (aips_lookup_inner_src s (drop 4 p)) ≡ true

-- The remotes that the noise layer hands out and the entries of the tries are of the `n` peers.
pub record IsWired (L : Host) (s : AipsSet) (n : ℕ) : Type 0 where
  pub arg : (r : ℕ) (w : L.W) {i : ℕ} → L.remote_arg r w ≡ some i → i < n
  pub matched : (l : ℕ) (m : Initiation) (w : L.W) → (L.consume_initiation l m w).0 ≢ some none
  pub v4 : (a : List ℕ) {i : ℕ} → Allowedips.lookup s.v4 a ≡ some i → i < n
  pub v6 : (a : List ℕ) {i : ℕ} → Allowedips.lookup s.v6 a ≡ some i → i < n

-- There are `n` peers with the tries `s`, none beyond its handshake attempts, and what was written to the
-- device came from addresses of peers.
pub record IsSound (W : Type 0) (s : AipsSet) (n : ℕ) (c : TunnelCtx W) : Type 0 where
  pub count : length c.peers ≡ n
  pub tries : c.aips ≡ s
  pub tried : All IsTried c.peers
  pub from : All (IsFrom s) c.tun

pub get_elem?-some {ℓ} : {A : Type ℓ} (xs : List A) (i : ℕ) → i < length xs → get_elem? xs i ≢ none
get_elem?-some [] i h = absurd (omega arith)
get_elem?-some (x ∷ xs) zero h = λ e. cc
get_elem?-some (x ∷ xs) (suc i) h = get_elem?-some xs i (omega arith)

module _ (L : Host) (K : Sockets L.W) (D : Device L.W) (udp_fd utun_fd : ℕ) (s : AipsSet) (n : ℕ)
    (wired : IsWired L s n) where
  open L use {W}

  -- The code neither follows a NULL pointer nor breaks the invariant.
  abbrev pub Keeps : {B : Type 0} → Res B × TunnelCtx W → Type 0
  Keeps r = (r.0 ≢ fault) × IsSound W s n r.1

  pub on_link-Keeps :
      {B : Type 0} (i : ℕ) (f : Link W → B × Link W) (c : TunnelCtx W)
      → i < n
      → IsSound W s n c
      → ((l : Link W) → IsTried l → IsTried (f (enter c l)).1)
      → Keeps (on_link i f c)
  on_link-Keeps {B = B} i f c h inv keeps = found (get_elem? c.peers i) refl
    where
      found : (o : Option (Link W)) → get_elem? c.peers i ≡ o → Keeps (on_found i f o c)
      found none e = absurd (get_elem?-some c.peers i (omega (arith, inv.count)) e)
      found (some l) e = (
        λ p. cc,
        record {
          count = length-set c.peers i (f (enter c l)).1 ∙ inv.count;
          tries = inv.tries;
          tried =
              All-set IsTried c.peers i (f (enter c l)).1 inv.tried
                (keeps l (All-get IsTried c.peers i inv.tried e));
          from = inv.from;
        },
      )

  pub in_world-IsSound :
      (c : TunnelCtx W) (w : W) → IsSound W s n c → IsSound W s n (record c { world = w })
  in_world-IsSound c w inv = record {
    count = inv.count;
    tries = inv.tries;
    tried = inv.tried;
    from = inv.from;
  }

  called-IsSound :
      (c : TunnelCtx W) (w : W) (new : List (Call W))
      → IsSound W s n c
      → IsSound W s n (record c { world = w; calls = new })
  called-IsSound c w new inv = record {
    count = inv.count;
    tries = inv.tries;
    tried = inv.tried;
    from = inv.from;
  }

  pub stamp_keypair-Keeps :
      (i : ℕ) (c : TunnelCtx W) → i < n → IsSound W s n c → Keeps (stamp_keypair L K D udp_fd i c)
  unfolding stamp_keypair stamped
  stamp_keypair-Keeps i c h inv =
      let (now, w) = K.time c.world in
      let (jitter, w1) = D.arc4random_uniform rekey_jitter_max_sec w in
      on_link-Keeps i (λ l. (tt, record l { state = stamped L K D udp_fd now jitter l.state }))
        (record c { world = w1 }) h (in_world-IsSound c w1 inv) (λ l p. p)

  pub roam-Keeps :
      (i : ℕ) (from : List ℕ) (c : TunnelCtx W)
      → i < n
      → IsSound W s n c
      → Keeps (roam L K D udp_fd i from c)
  unfolding roam
  roam-Keeps i from c h inv =
      on_link-Keeps i (λ l. (tt, record l { tx = peer_set_endpoint K from l.tx })) c h inv
        (λ l p. p)

  respond-Keeps :
      (rem i : ℕ) (from : List ℕ) (c : TunnelCtx W)
      → i < n
      → IsSound W s n c
      → Keeps (respond L K D udp_fd rem i from c)
  unfolding respond reply
  respond-Keeps rem i from c h inv =
      grind (arith, get_elem?-some c.peers i, inv.count, in_world-IsSound c, called-IsSound c)

  pub then_Keeps :
      {B C : Type 0} (m : T W B) (f : B → T W C) (c : TunnelCtx W)
      → Keeps (m c)
      → ((b : B) (d : TunnelCtx W) → IsSound W s n d → Keeps (f b d))
      → Keeps ((m >>= f) c)
  then_Keeps {B = B} m f c h keeps = ended (m c) h
    where
      ended : (r : Res B × TunnelCtx W) → Keeps r → Keeps (((λ _. r) >>= f) c)
      ended (ok b, d) k = keeps b d k.1
      ended (fail, d) k = (λ e. cc, k.1)
      ended (fault, d) k = absurd (k.0 refl)

  welcome-Keeps :
      (rem i : ℕ) (from : List ℕ) (c : TunnelCtx W)
      → i < n
      → IsSound W s n c
      → Keeps (welcome L K D udp_fd rem i from c)
  unfolding welcome
  welcome-Keeps rem i from c h inv =
      then_Keeps (respond L K D udp_fd rem i from)
        (λ _. roam L K D udp_fd i from >> stamp_keypair L K D udp_fd i) c
        (respond-Keeps rem i from c h inv)
        (λ _ d k.
          then_Keeps (roam L K D udp_fd i from) (λ _. stamp_keypair L K D udp_fd i) d
            (roam-Keeps i from d h k) (λ _ e. stamp_keypair-Keeps i e h))

  -- What follows the noise layer's answer to an initiation.
  abbrev accepted : List ℕ → Option (Option ℕ) → T W (Unit {0})
  accepted from o = do
    matched ← some_or (pure tt) o
    rem ← deref matched
    i ← matched_link L K D udp_fd rem
    welcome L K D udp_fd rem i from

  accepted-Keeps :
      (from : List ℕ) (o : Option (Option ℕ)) (c : TunnelCtx W)
      → o ≢ some none
      → IsSound W s n c
      → Keeps (accepted from o c)
  unfolding matched_link
  accepted-Keeps from none c h inv = (λ e. cc, inv)
  accepted-Keeps from (some none) c h inv = absurd (h refl)
  accepted-Keeps from (some (some rem)) c h inv = matched (L.remote_arg rem c.world) refl
    where
      matched :
          (o : Option ℕ)
          → L.remote_arg rem c.world ≡ o
          → Keeps (
              ((λ _. elim o [
                | none ↦ (fail, record c { world = L.remote_put rem c.world })
                | some i ↦ (ok i, c)
              ])
                  >>= λ i. welcome L K D udp_fd rem i from)
                c)
      matched none e = (λ p. cc, in_world-IsSound c (L.remote_put rem c.world) inv)
      matched (some i) e = welcome-Keeps rem i from c (wired.arg rem c.world e) inv

  pub tunnel_consume_initiation-Keeps :
      (buf from : List ℕ) (c : TunnelCtx W)
      → IsSound W s n c
      → Keeps (tunnel_consume_initiation L K D udp_fd buf from c)
  unfolding tunnel_consume_initiation
  tunnel_consume_initiation-Keeps buf from c inv =
      let (valid, w) = L.validate_macs (slice 116 32 buf) (take 116 buf) from c.world in
      let (matched, w1) = L.consume_initiation c.local (read_initiation buf) w in
      ground (
        arith,
        in_world-IsSound c w inv,
        accepted-Keeps from matched (record c { world = w1 })
            (wired.matched c.local (read_initiation buf) w) (in_world-IsSound c w1 inv),
      )
