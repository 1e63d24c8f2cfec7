-- ===== src/Client/Send/Socket.antt =====
-- The socket that `peer_tx_socket` of src/wg_core.c gives leads to the peer's endpoint.
use polar_wg_app.Common.{
  ℕ, ◌≡◌, ◌⊎◌, inl, inr, refl, sym, ap, subst, ◌∙◌, true, Option, none, some, List, ◌==◌, ltb, not,
  ◌||◌, if◌then◌else◌, if-cases, length, Bool, list_eq_sound, arith,
}
use polar_wg_app.Client.Send.{
  Sockets, Tx, sockaddr_same, peer_tx_close, connect_socket, bind_socket, open_socket, renew_socket,
  fitting_socket, peer_tx_socket,
}

module _ {W : Type 0} (K : Sockets W) (remote : W → ℕ → List ℕ) where
  open K use {socket, bind, connect, close, send, sendto, time}

  -- `remote` is where a socket is connected to: `connect` that succeeds sets it, and no other call but
  -- `close` changes it.
  pub record IsKernel : Type 0 where
    pub connected :
        (fd : ℕ) (a : List ℕ) (w : W) → (connect fd a w).0 ≡ true → remote (connect fd a w).1 fd ≡ a
    pub socket_keeps : (f : ℕ) (w : W) (fd : ℕ) → remote (socket f w).1 fd ≡ remote w fd
    pub send_keeps : (g : ℕ) (b : List ℕ) (w : W) (fd : ℕ) → remote (send g b w).1 fd ≡ remote w fd
    pub sendto_keeps :
        (g : ℕ) (b a : List ℕ) (w : W) (fd : ℕ) → remote (sendto g b a w).1 fd ≡ remote w fd
    pub time_keeps : (w : W) (fd : ℕ) → remote (time w).1 fd ≡ remote w fd

  -- The peer's socket, if it has one, is connected to `tx_ep`.
  abbrev pub Linked : W → Option ℕ → List ℕ → Type 0
  Linked w none ep = Unit {0}
  Linked w (some fd) ep = remote w fd ≡ ep

  abbrev pub IsLinked : Tx W → Type 0
  IsLinked s = Linked s.world s.peer.tx_fd s.peer.tx_ep

  -- Two IPv4 or two IPv6 addresses with the same port and the same address, whatever else they hold.
  abbrev pub SamePlace : List ℕ → List ℕ → Type 0
  SamePlace a b =
      ((K.ss_family a ≡ K.af_inet)
        × (K.ss_family b ≡ K.af_inet)
        × (K.sin_port a ≡ K.sin_port b)
        × (K.sin_addr a ≡ K.sin_addr b))
      ⊎ ((K.ss_family a ≡ K.af_inet6)
          × (K.ss_family b ≡ K.af_inet6)
          × (K.sin6_port a ≡ K.sin6_port b)
          × (K.sin6_addr a ≡ K.sin6_addr b))

  -- The socket is connected to the endpoint, or to an address of the same family, port and address.
  abbrev pub Leads : List ℕ → W → ℕ → Type 0
  Leads ep w fd = (remote w fd ≡ ep) ⊎ SamePlace (remote w fd) ep

  sockaddr_same-SamePlace : (a b : List ℕ) → sockaddr_same K a b ≡ true → SamePlace a b
  unfolding sockaddr_same
  sockaddr_same-SamePlace a b e =
      let P = λ (x : Bool). x ≡ true → SamePlace a b in
      if-cases P (length a == 0 || (length b == 0 || not (K.ss_family a == K.ss_family b)))
        (λ _ refused. cc)
        (λ same.
          if-cases P (K.ss_family a == K.af_inet)
            (λ four both. inl (
              ground arith,
              ground arith,
              ground arith,
              list_eq_sound (K.sin_addr a) (K.sin_addr b) (ground arith),
            ))
            (λ _.
              if-cases P (K.ss_family a == K.af_inet6)
                (λ six both. inr (
                  ground arith,
                  ground arith,
                  ground arith,
                  list_eq_sound (K.sin6_addr a) (K.sin6_addr b) (ground arith),
                ))
                (λ _ refused. cc)))
        e

  -- What a part of `peer_send` without a datagram leaves.
  pub record IsKept (s t : Tx W) : Type 0 where
    pub linked : IsLinked t
    pub endpoint : t.peer.endpoint ≡ s.peer.endpoint
    pub calls : t.calls ≡ s.calls

  abbrev pub LeadsTo : List ℕ → W → Option ℕ → Type 0
  LeadsTo ep w none = Unit {0}
  LeadsTo ep w (some fd) = Leads ep w fd

  pub record IsChosen (s : Tx W) (r : Option ℕ × Tx W) : Type 0 where
    pub kept : IsKept s r.1
    pub leads : LeadsTo s.peer.endpoint r.1.world r.0

  pub Linked-same :
      (o : Option ℕ) (ep : List ℕ) (w v : W)
      → ((fd : ℕ) → remote v fd ≡ remote w fd)
      → Linked w o ep
      → Linked v o ep
  Linked-same none ep w v h l = tt
  Linked-same (some fd) ep w v h l = h fd ∙ l

  module _ (kernel : IsKernel) where
    connect_socket-IsChosen :
        (fd : ℕ) (s : Tx W) → s.peer.tx_fd ≡ some fd → IsChosen s (connect_socket K fd s)
    unfolding connect_socket peer_tx_close
    connect_socket-IsChosen fd s e =
        if-cases (IsChosen s) ((connect fd s.peer.endpoint s.world).0)
          (λ ok.
            let at = kernel.connected fd s.peer.endpoint s.world ok in
            record {
              kept = record {
                linked =
                    subst (λ o. Linked (connect fd s.peer.endpoint s.world).1 o s.peer.endpoint)
                      (sym e) at;
                endpoint = refl;
                calls = refl;
              };
              leads = inl at;
            })
          (λ _. record { kept = record { linked = tt; endpoint = refl; calls = refl }; leads = tt })

    -- A world in which the sockets lead where they led.
    IsChosen-from :
        (s t : Tx W) (r : Option ℕ × Tx W)
        → t.peer.endpoint ≡ s.peer.endpoint
        → t.calls ≡ s.calls
        → IsChosen t r
        → IsChosen s r
    IsChosen-from s t r e c h = record {
      kept = record {
        linked = h.kept.linked;
        endpoint = h.kept.endpoint ∙ e;
        calls = h.kept.calls ∙ c;
      };
      leads = subst (λ ep. LeadsTo ep r.1.world r.0) e h.leads;
    }

    bind_socket-IsChosen :
        (fd : ℕ) (s : Tx W) → s.peer.tx_fd ≡ none → IsChosen s (bind_socket K fd s)
    unfolding bind_socket
    bind_socket-IsChosen fd s e =
        let (ok, w) = bind fd (K.ss_family s.peer.endpoint) s.bound_port s.world in
        let t = record s { peer = record s.peer { tx_fd = some fd }; world = w } in
        if-cases (IsChosen s) ok
          (λ _.
            IsChosen-from s t (connect_socket K fd t) refl refl (connect_socket-IsChosen fd t refl))
          (λ _. record {
            kept = record {
              linked = subst (λ o. Linked (close fd w) o s.peer.tx_ep) (sym e) tt;
              endpoint = refl;
              calls = refl;
            };
            leads = tt;
          })

    open_socket-IsChosen : (s : Tx W) → IsLinked s → IsChosen s (open_socket K s)
    unfolding open_socket
    open_socket-IsChosen s h = opened s.peer.tx_fd refl
      where
        made :
            s.peer.tx_fd ≡ none
            → (o : Option ℕ) (w : W)
            → IsChosen s (elim o [
              | none ↦ (none, record s { world = w })
              | some fd ↦ bind_socket K fd (record s { world = w })
            ])
        made e none w = record {
          kept = record {
            linked = subst (λ o. Linked w o s.peer.tx_ep) (sym e) tt;
            endpoint = refl;
            calls = refl;
          };
          leads = tt;
        }
        made e (some fd) w =
            IsChosen-from s (record s { world = w }) _ refl refl
              (bind_socket-IsChosen fd (record s { world = w }) e)

        opened :
            (o : Option ℕ)
            → s.peer.tx_fd ≡ o
            → IsChosen s (elim o [
              | some fd ↦ connect_socket K fd s
              | none ↦
                  let (o, w) = socket (K.ss_family s.peer.endpoint) s.world in
                  elim o [
                    | none ↦ (none, record s { world = w })
                    | some fd ↦ bind_socket K fd (record s { world = w })
                  ]
            ])
        opened none e =
            made e ((socket (K.ss_family s.peer.endpoint) s.world).0)
              ((socket (K.ss_family s.peer.endpoint) s.world).1)
        opened (some fd) e = connect_socket-IsChosen fd s e

    close-IsLinked : (s : Tx W) → IsLinked (peer_tx_close K s)
    unfolding peer_tx_close
    close-IsLinked s = tt

    close_then_open : (s : Tx W) → IsChosen s (open_socket K (peer_tx_close K s))
    unfolding peer_tx_close
    close_then_open s =
        IsChosen-from s (peer_tx_close K s) _ refl refl
          (open_socket-IsChosen (peer_tx_close K s) tt)

    renew_socket-IsChosen : (s : Tx W) → IsLinked s → IsChosen s (renew_socket K s)
    unfolding renew_socket
    renew_socket-IsChosen s h = renewed s.peer.tx_fd
      where
        renewed :
            (o : Option ℕ)
            → IsChosen s (elim o [
              | none ↦ open_socket K s
              | some fd ↦
                  if K.ss_family s.peer.tx_ep == K.ss_family s.peer.endpoint
                  then open_socket K s
                  else open_socket K (peer_tx_close K s)
            ])
        renewed none = open_socket-IsChosen s h
        renewed (some fd) =
            if-cases (IsChosen s) (K.ss_family s.peer.tx_ep == K.ss_family s.peer.endpoint)
              (λ _. open_socket-IsChosen s h) (λ _. close_then_open s)

    fitting_socket-Leads :
        (s : Tx W) → IsLinked s → LeadsTo s.peer.endpoint s.world (fitting_socket K s.peer)
    unfolding fitting_socket
    fitting_socket-Leads s h =
        if-cases (LeadsTo s.peer.endpoint s.world) (sockaddr_same K s.peer.tx_ep s.peer.endpoint)
          (λ e. held s.peer.tx_fd h e) (λ _. tt)
      where
        held :
            (o : Option ℕ)
            → Linked s.world o s.peer.tx_ep
            → sockaddr_same K s.peer.tx_ep s.peer.endpoint ≡ true
            → LeadsTo s.peer.endpoint s.world o
        held none l e = tt
        held (some fd) l e = inr (
            sockaddr_same-SamePlace (remote s.world fd) s.peer.endpoint
              (ap (λ a. sockaddr_same K a s.peer.endpoint) l ∙ e))

    pub timed-IsLinked : (s : Tx W) → IsLinked s → IsLinked (record s { world = (time s.world).1 })
    timed-IsLinked s h =
        Linked-same s.peer.tx_fd s.peer.tx_ep s.world (time s.world).1 (kernel.time_keeps s.world) h

    pub peer_tx_socket-IsChosen : (s : Tx W) → IsLinked s → IsChosen s (peer_tx_socket K s)
    unfolding peer_tx_socket
    peer_tx_socket-IsChosen s h =
        let same : IsChosen s (none, s) = record {
          kept = record { linked = h; endpoint = refl; calls = refl };
          leads = tt;
        } in
        if-cases (IsChosen s)
          (not s.connected_tx || (length s.peer.endpoint == 0 || s.bound_port == 0)) (λ _. same)
          (λ _. chosen (fitting_socket K s.peer) (fitting_socket-Leads s h))
      where
        chosen :
            (o : Option ℕ)
            → LeadsTo s.peer.endpoint s.world o
            → IsChosen s (elim o [
              | some fd ↦ (some fd, s)
              | none ↦
                  let (now, w) = time s.world in
                  if s.peer.tx_retry_at == 0
                  then renew_socket K s
                  else if ltb now s.peer.tx_retry_at
                  then (none, record s { world = w })
                  else renew_socket K (record s { world = w })
            ])
        chosen (some fd) l = record {
          kept = record { linked = h; endpoint = refl; calls = refl };
          leads = l;
        }
        chosen none l =
            let t = record s { world = (time s.world).1 } in
            if-cases (IsChosen s) (s.peer.tx_retry_at == 0) (λ _. renew_socket-IsChosen s h)
              (λ _.
                if-cases (IsChosen s) (ltb (time s.world).0 s.peer.tx_retry_at)
                  (λ _. record {
                    kept = record { linked = timed-IsLinked s h; endpoint = refl; calls = refl };
                    leads = tt;
                  })
                  (λ _.
                    IsChosen-from s t _ refl refl (renew_socket-IsChosen t (timed-IsLinked s h))))
