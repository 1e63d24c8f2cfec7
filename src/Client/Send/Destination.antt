-- ===== src/Client/Send/Destination.antt =====
-- Where `peer_send` of src/wg_core.c sends a datagram.
use polar_wg_app.Common.{
  ℕ, suc, ◌+◌, ◌≤◌, ◌<◌, ◌≡◌, ◌⊎◌, inl, inr, refl, sym, ap, subst, ◌∙◌, Bool, true, false, Option,
  none, some, List, [], ◌∷◌, ◌++◌, ◌==◌, leb, ◌-◌, if◌then◌else◌, if-cases, length, arith, All,
  All-append, length-append,
}
use polar_wg_app.Client.Send.{
  Sent, whole, transient, broken, Sockets, Call, on_socket, to_address, Tx, peer_tx_close,
  peer_tx_socket, logged, send_by_address, drop_socket, send_on_socket, peer_send,
}
use polar_wg_app.Client.Send.Socket.{
  IsKernel, IsLinked, Leads, IsKept, LeadsTo, IsChosen, Linked-same, timed-IsLinked,
  peer_tx_socket-IsChosen,
}

module _ {W : Type 0} (K : Sockets W) (remote : W → ℕ → List ℕ) where
  open K use {send, sendto, time}

  abbrev pub GoesTo : List ℕ → List ℕ → Call W → Type 0
  GoesTo ep buf (on_socket fd b w) = (b ≡ buf) × Leads K remote ep w fd
  GoesTo ep buf (to_address b a) = (b ≡ buf) × (a ≡ ep)

  pub record IsSent (n : ℕ) (buf : List ℕ) (s : Tx W) (r : Bool × Tx W) : Type 0 where
    pub linked : IsLinked K remote r.1
    pub endpoint : r.1.peer.endpoint ≡ s.peer.endpoint
    pub new : List (Call W)
    pub calls : r.1.calls ≡ new ++ s.calls
    pub to_endpoint : All (GoesTo s.peer.endpoint buf) new
    pub few : length new ≤ n
    pub reported : (r.0 ≡ false) ⊎ (0 < length new)

  module _ (kernel : IsKernel K remote) where
    logged-IsKept : (s : Tx W) → IsLinked K remote s → IsKept K remote s (logged K s)
    unfolding logged
    logged-IsKept s h =
        let (now, w) = time s.world in
        let h1 = timed-IsLinked K remote kernel s h in
        if-cases (λ q. IsKept K remote s (record s { peer = q; world = w }))
          (leb 10 (now - s.peer.tx_err_last))
          (λ _. record { linked = h1; endpoint = refl; calls = refl })
          (λ _. record { linked = h1; endpoint = refl; calls = refl })

    drop_socket-IsKept :
        (fd : ℕ) (s : Tx W) → IsLinked K remote s → IsKept K remote s (drop_socket K fd s)
    unfolding drop_socket peer_tx_close
    drop_socket-IsKept fd s h =
        let t =
          logged K (record s { peer = record s.peer { tx_send_errs = s.peer.tx_send_errs + 1 } }) in
        let kept =
          logged-IsKept
            (record s { peer = record s.peer { tx_send_errs = s.peer.tx_send_errs + 1 } }) h in
        dropped t t.peer.tx_fd
          (record { linked = kept.linked; endpoint = kept.endpoint; calls = kept.calls })
      where
        dropped :
            (t : Tx W) (o : Option ℕ)
            → IsKept K remote s t
            → IsKept K remote s
                (elim o [ none ↦ t | some g ↦ if g == fd then peer_tx_close K t else t ])
        dropped t none k = k
        dropped t (some g) k =
            if-cases (IsKept K remote s) (g == fd)
              (λ _. record { linked = tt; endpoint = k.endpoint; calls = k.calls }) (λ _. k)

    send_by_address-IsSent :
        (udp_fd : ℕ) (buf ep : List ℕ) (s : Tx W)
        → IsLinked K remote s
        → ep ≡ s.peer.endpoint
        → IsSent 1 buf s (send_by_address K udp_fd buf ep s)
    unfolding send_by_address All
    send_by_address-IsSent udp_fd buf ep s h e =
        let (ok, w) = sendto udp_fd buf ep s.world in
        let s1 = record s { world = w; calls = to_address buf ep ∷ s.calls } in
        let h1 : IsLinked K remote s1 =
          Linked-same K remote s.peer.tx_fd s.peer.tx_ep s.world w
            (kernel.sendto_keeps udp_fd buf ep s.world) h in
        let k = logged-IsKept s1 h1 in
        if-cases (IsSent 1 buf s) (length ep == 0)
          (λ _. record {
            linked = h;
            endpoint = refl;
            new = [];
            calls = refl;
            to_endpoint = tt;
            few = omega arith;
            reported = inl refl;
          })
          (λ _.
            if-cases (IsSent 1 buf s) ok
              (λ _. record {
                linked = h1;
                endpoint = refl;
                new = to_address buf ep ∷ [];
                calls = refl;
                to_endpoint = ((refl, e), tt);
                few = omega arith;
                reported = inr (omega arith);
              })
              (λ _. record {
                linked = k.linked;
                endpoint = k.endpoint;
                new = to_address buf ep ∷ [];
                calls = k.calls;
                to_endpoint = ((refl, e), tt);
                few = omega arith;
                reported = inl refl;
              }))

    -- A datagram before the others.
    IsSent-after :
        (n : ℕ) (buf : List ℕ) (c : Call W) (s t : Tx W) (r : Bool × Tx W)
        → t.peer.endpoint ≡ s.peer.endpoint
        → t.calls ≡ c ∷ s.calls
        → GoesTo s.peer.endpoint buf c
        → IsSent n buf t r
        → IsSent (suc n) buf s r
    unfolding All
    IsSent-after n buf c s t r e f g h = record {
      linked = h.linked;
      endpoint = h.endpoint ∙ e;
      new = h.new ++ c ∷ [];
      calls = h.calls ∙ ap (λ x. h.new ++ x) f ∙ sym (append_one h.new);
      to_endpoint =
          All-append (GoesTo s.peer.endpoint buf) h.new (c ∷ [])
            (subst (λ ep. All (GoesTo ep buf) h.new) e h.to_endpoint) (g, tt);
      few = omega (arith, h.few, length-append h.new (c ∷ []));
      reported = inr (omega (arith, length-append h.new (c ∷ [])));
    }
      where
        append_one : (xs : List (Call W)) → (xs ++ c ∷ []) ++ s.calls ≡ xs ++ c ∷ s.calls
        append_one [] = refl
        append_one (x ∷ xs) = ap (λ ys. x ∷ ys) (append_one xs)

    send_on_socket-IsSent :
        (udp_fd : ℕ) (buf : List ℕ) (fd : ℕ) (s : Tx W)
        → IsLinked K remote s
        → Leads K remote s.peer.endpoint s.world fd
        → IsSent 2 buf s (send_on_socket K udp_fd buf s.peer.endpoint fd s)
    unfolding send_on_socket All
    send_on_socket-IsSent udp_fd buf fd s h l = ended ((send fd buf s.world).0)
      where
        t : Tx W
        t = record s { world = (send fd buf s.world).1; calls = on_socket fd buf s.world ∷ s.calls }

        ht : IsLinked K remote t
        ht =
            Linked-same K remote s.peer.tx_fd s.peer.tx_ep s.world (send fd buf s.world).1
              (kernel.send_keeps fd buf s.world) h

        once : (b : Bool) → IsSent 2 buf s (b, t)
        once b = record {
          linked = ht;
          endpoint = refl;
          new = on_socket fd buf s.world ∷ [];
          calls = refl;
          to_endpoint = ((refl, l), tt);
          few = omega arith;
          reported = inr (omega arith);
        }

        ended :
            (r : Sent)
            → IsSent 2 buf s (elim r [
              | whole ↦ (true, t)
              | transient ↦ (false, t)
              | broken ↦ send_by_address K udp_fd buf s.peer.endpoint (drop_socket K fd t)
            ])
        ended whole = once true
        ended transient = once false
        ended broken =
            let k = drop_socket-IsKept fd t ht in
            IsSent-after 1 buf (on_socket fd buf s.world) s (drop_socket K fd t) _ k.endpoint
              k.calls (refl, l)
              (send_by_address-IsSent udp_fd buf s.peer.endpoint (drop_socket K fd t) k.linked
                (sym k.endpoint))

    IsSent-from :
        (n : ℕ) (buf : List ℕ) (s t : Tx W) (r : Bool × Tx W)
        → IsKept K remote s t
        → n ≤ 2
        → IsSent n buf t r
        → IsSent 2 buf s r
    IsSent-from n buf s t r k le h = record {
      linked = h.linked;
      endpoint = h.endpoint ∙ k.endpoint;
      new = h.new;
      calls = h.calls ∙ ap (λ x. h.new ++ x) k.calls;
      to_endpoint = subst (λ ep. All (GoesTo ep buf) h.new) k.endpoint h.to_endpoint;
      few = omega (arith, h.few);
      reported = h.reported;
    }

    -- For a peer whose socket, if it has one, is connected to `tx_ep`, `peer_send` makes at most two
    -- calls with a datagram, and at least one if it returns 0. Each carries the bytes it was given and
    -- goes to the endpoint of the peer by address, or on a socket that is connected to the endpoint or to an
    -- address with the same family, port and IP address, though perhaps another scope id. The endpoint stays, and the socket left is connected to `tx_ep`. This
    -- holds of any kernel on which `connect` sets where a socket leads and the other calls but `close`
    -- leave it.
    pub peer_send-IsSent :
        (udp_fd : ℕ) (buf : List ℕ) (s : Tx W)
        → IsLinked K remote s
        → IsSent 2 buf s (peer_send K udp_fd buf s)
    unfolding peer_send
    peer_send-IsSent udp_fd buf s h = sent ((peer_tx_socket K s).0) chosen.leads
      where
        chosen : IsChosen K remote s (peer_tx_socket K s)
        chosen = peer_tx_socket-IsChosen K remote kernel s h

        s1 : Tx W
        s1 = (peer_tx_socket K s).1

        sent :
            (o : Option ℕ)
            → LeadsTo K remote s.peer.endpoint s1.world o
            → IsSent 2 buf s (elim o [
              | some fd ↦ send_on_socket K udp_fd buf s1.peer.endpoint fd s1
              | none ↦ send_by_address K udp_fd buf s1.peer.endpoint s1
            ])
        sent none l =
            IsSent-from 1 buf s s1 _ chosen.kept (omega arith)
              (send_by_address-IsSent udp_fd buf s1.peer.endpoint s1 chosen.kept.linked refl)
        sent (some fd) l = IsSent-from 2 buf s s1 _ chosen.kept (omega arith) (
            send_on_socket-IsSent udp_fd buf fd s1 chosen.kept.linked
              (subst (λ ep. Leads K remote ep s1.world fd) (sym chosen.kept.endpoint) l))
