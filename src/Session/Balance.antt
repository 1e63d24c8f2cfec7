-- ===== src/Session/Balance.antt =====
-- References and allocations in the packet handlers of src/wg_session.c: each path gives back what
-- it takes.
use polar_wg_app.Common.{
  ℕ, ◌+◌, ◌-◌, ◌≡◌, ◌≢◌, Option, none, some, List, if◌then◌else◌, arith, is_some,
}
use polar_wg_app.Session.Types.{Peer}
use polar_wg_app.Session.Host.{Host, Initiation, Response}
use polar_wg_app.Session.Mbuf.{Mbuf, devget, freem}
use polar_wg_app.Session.Monad.{St, fail, fault}
use polar_wg_app.Session.Data.{
  send_data, encap_to, accept_inner, accept_data, remote_peer, opened_data, handle_data,
}
use polar_wg_app.Session.Handshake.{handle_initiation, handle_response, matched_peer, put_matched}

abbrev pub one_if {ℓ} : {A : Type ℓ} → Option A → ℕ
one_if none = 0
one_if (some a) = 1

-- A handshake message that is accepted hands out the remote that it matched.
abbrev pub matched_refs : Option (Option ℕ) → ℕ
matched_refs none = 0
matched_refs (some r) = one_if r

-- A count of the references and allocations that are out, as the calls of the host change it: what
-- hands out a pointer adds one, and `free` and the `put` calls take one away.
pub record Account (L : Host) : Type 0 where
  pub held : L.W → ℕ
  pub malloc : (n : ℕ) (w : L.W) → held (L.malloc n w).1 ≡ held w + one_if (L.malloc n w).0
  pub free : (a : ℕ) (w : L.W) → held (L.free a w) ≡ held w - 1
  pub time : (w : L.W) → held (L.time w).1 ≡ held w
  pub current :
      (r : ℕ) (w : L.W) → held (L.keypair_current r w).1 ≡ held w + one_if (L.keypair_current r w).0
  pub lookup :
      (l i : ℕ) (w : L.W)
      → held (L.keypair_lookup l i w).1 ≡ held w + one_if (L.keypair_lookup l i w).0
  pub keypair_put : (k : ℕ) (w : L.W) → held (L.keypair_put k w) ≡ held w - 1
  pub remote :
      (k : ℕ) (w : L.W) → held (L.keypair_remote k w).1 ≡ held w + one_if (L.keypair_remote k w).0
  pub remote_put : (r : ℕ) (w : L.W) → held (L.remote_put r w) ≡ held w - 1
  pub nonce : (k : ℕ) (w : L.W) → held (L.keypair_nonce_next k w).1 ≡ held w
  pub encrypt : (k n : ℕ) (bs : List ℕ) (w : L.W) → held (L.keypair_encrypt k n bs w).1 ≡ held w
  pub decrypt : (k n : ℕ) (bs : List ℕ) (w : L.W) → held (L.keypair_decrypt k n bs w).1 ≡ held w
  pub received : (k : ℕ) (w : L.W) → held (L.keypair_received_with k w) ≡ held w
  pub validate : (m bs a : List ℕ) (w : L.W) → held (L.validate_macs m bs a w).1 ≡ held w
  pub mac : (i : ℕ) (bs : List ℕ) (w : L.W) → held (L.maker_mac i bs w).1 ≡ held w
  pub respond : (r : ℕ) (w : L.W) → held (L.create_response r w).1 ≡ held w
  pub consume_init :
      (l : ℕ) (m : Initiation) (w : L.W)
      → held (L.consume_initiation l m w).1 ≡ held w + matched_refs (L.consume_initiation l m w).0
  pub consume_resp :
      (l : ℕ) (m : Response) (w : L.W)
      → held (L.consume_response l m w).1 ≡ held w + matched_refs (L.consume_response l m w).0

module _ (L : Host) (A : Account L) where
  open L use {W}
  open A use {held}

  pub held-devget :
      (bs : List ℕ) (w : W)
      → held (devget L bs w).1 ≡ held w + (if is_some (devget L bs w).0 then 2 else 0)
  unfolding devget
  held-devget bs w = grind (arith, A.malloc, A.free)

  pub held-freem : (m : Mbuf) (w : W) → held (freem L m w) ≡ held w - 2
  unfolding freem
  held-freem m w = grind (arith, A.free)

  held-send_data :
      (i : ℕ) (p : Peer) (plain : List ℕ) (kp : ℕ) (m : Mbuf) (r_idx nonce : ℕ) (body : List ℕ)
      (st : St W)
      → (send_data L i p plain kp m r_idx nonce body st).0 ≢ fault
      → held (send_data L i p plain kp m r_idx nonce body st).1.world ≡ held st.world - 3
  unfolding send_data
  held-send_data i p plain kp m r_idx nonce body st sane =
      grind (arith, held-freem, A.keypair_put, A.time)

  held-encap_to :
      (i : ℕ) (plain : List ℕ) (st : St W)
      → (encap_to L i plain st).0 ≢ fault
      → held (encap_to L i plain st).1.world ≡ held st.world
  unfolding encap_to
  held-encap_to i plain st sane =
      grind (
        arith, held-send_data, held-devget, held-freem, A.current, A.nonce, A.encrypt,
        A.keypair_put,
      )

  accept_inner-world :
      (i : ℕ) (inner : List ℕ) (st : St W) → (accept_inner L i inner st).1.world ≡ st.world
  unfolding accept_inner
  accept_inner-world i inner st = ground arith

  accept_data-world :
      (i : ℕ) (plain from : List ℕ) (st : St W) → (accept_data L i plain from st).1.world ≡ st.world
  unfolding accept_data
  accept_data-world i plain from st = grind (arith, accept_inner-world)

  held-remote_peer :
      (r : Option ℕ) (st : St W) → held (remote_peer L r st).1.world ≡ held st.world - one_if r
  unfolding remote_peer
  held-remote_peer r st = grind (arith, A.remote_put)

  remote_peer-no_fail : (r : Option ℕ) (st : St W) → (remote_peer L r st).0 ≢ fail
  unfolding remote_peer
  remote_peer-no_fail r st = ground arith

  held-opened_data :
      (kp : ℕ) (m : Mbuf) (plain from : List ℕ) (st : St W)
      → (opened_data L kp m plain from st).0 ≢ fault
      → held (opened_data L kp m plain from st).1.world ≡ held st.world - 3
  unfolding opened_data
  held-opened_data kp m plain from st sane = grind (
    arith, accept_data-world, held-remote_peer, remote_peer-no_fail, held-freem, A.received,
    A.remote, A.keypair_put,
  )

  -- `wgs_handle_data` gives back every keypair and remote reference and every allocation that it
  -- takes, on all of its paths that follow no NULL pointer.
  pub held-handle_data :
      (bytes from : List ℕ) (st : St W)
      → (handle_data L bytes from st).0 ≢ fault
      → held (handle_data L bytes from st).1.world ≡ held st.world
  unfolding handle_data
  held-handle_data bytes from st sane =
      grind (arith, held-opened_data, held-devget, held-freem, A.lookup, A.decrypt, A.keypair_put)

  -- `wgs_handle_initiation` gives back the reference to the remote that the message matched.
  pub held-handle_initiation :
      (bytes from : List ℕ) (st : St W)
      → (handle_initiation L bytes from st).0 ≢ fault
      → held (handle_initiation L bytes from st).1.world ≡ held st.world
  unfolding handle_initiation matched_peer
  held-handle_initiation bytes from st sane =
      grind (arith, A.validate, A.consume_init, A.respond, A.mac, A.time, A.remote_put)

  -- So does `wgs_handle_response`, also when the message matches another peer.
  pub held-handle_response :
      (bytes : List ℕ) (st : St W)
      → (handle_response L bytes st).0 ≢ fault
      → held (handle_response L bytes st).1.world ≡ held st.world
  unfolding handle_response put_matched
  held-handle_response bytes st sane = grind (arith, A.consume_resp, A.time, A.remote_put)
