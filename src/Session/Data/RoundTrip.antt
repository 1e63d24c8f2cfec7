-- ===== src/Session/Data/RoundTrip.antt =====
-- What `wgs_handle_data` of src/wg_session.c gets back of a packet that `wgs_encap` padded.
use polar_wg_app.Common.{
  ℕ, zero, suc, ◌-◌, ◌≤◌, ◌<◌, ◌≡◌, refl, ap, some, List, [], ◌∷◌, ◌++◌, if◌then◌else◌, length,
  take, get_or, arith, get_elem?, set, length-append, get_elem?-set_self, get_elem?-lt, replicate,
  length-replicate,
}
use polar_wg_app.Session.Types.{Peer, Session, memcpy}
use polar_wg_app.Session.Host.{Host}
use polar_wg_app.Session.Monad.{Event, delivered, St, ok, finally}
use polar_wg_app.Session.Data.{
  accept_inner, accept_data, handle_data, opened_data, remote_peer, lookup_inner_src, inner_ip_len,
  pad, drop_both, padded_len,
}
use polar_wg_app.Session.Data.Spoof.{Opened, opened, lookup_inner_src-peers}

pub get_or-append :
    (xs ys : List ℕ) (i d : ℕ) → i < length xs → get_or (xs ++ ys) i d ≡ get_or xs i d
get_or-append [] ys i d h = absurd (omega arith)
get_or-append (x ∷ xs) ys zero d h = refl
get_or-append (x ∷ xs) ys (suc i) d h = get_or-append xs ys i d (omega arith)

take-append : (xs ys : List ℕ) → take (length xs) (xs ++ ys) ≡ xs
take-append [] ys = refl
take-append (x ∷ xs) ys = ap (◌∷◌ x) (take-append xs ys)

-- A packet whose header gives its own length keeps that length, whatever is appended to it.
inner_ip_len-append :
    (p z : List ℕ) → inner_ip_len p ≡ some (length p) → inner_ip_len (p ++ z) ≡ some (length p)
unfolding inner_ip_len
inner_ip_len-append p z h = ground (
  arith,
  length-append p z,
  get_or-append p z 0 0,
  get_or-append p z 2 0,
  get_or-append p z 3 0,
  get_or-append p z 4 0,
  get_or-append p z 5 0,
)

pub length-pad : (p : List ℕ) → 16 ≤ length (pad p)
unfolding pad padded_len
length-pad p = ground (
  arith,
  length-append p (replicate (padded_len (length p) - length p) 0),
  length-replicate (padded_len (length p) - length p) (zero),
)

pub take-pad : (p : List ℕ) → take (length p) (pad p) ≡ p
unfolding pad
take-pad p = take-append p _

pub inner_ip_len-pad :
    (p : List ℕ) → inner_ip_len p ≡ some (length p) → inner_ip_len (pad p) ≡ some (length p)
unfolding pad
inner_ip_len-pad p = inner_ip_len-append p _

abbrev roamed : List ℕ → Peer → Peer
roamed from p = record p {
  endpoint = memcpy p.endpoint from (length from);
  endpoint_len = length from;
}

-- The packet is handed over, on top of the upcalls so far, if there is a callback.
abbrev pub handed : Session → List ℕ → List Event → List Event
handed s inner old = if s.has_deliver_ip then delivered inner ∷ old else old

module _ (L : Host) where
  open L use {W}

  accept_inner-handed :
      (i : ℕ) (inner : List ℕ) (st : St W) (p : Peer)
      → get_elem? st.session.peers i ≡ some p
      → lookup_inner_src st.session inner ≡ some i
      → let (r, st') = accept_inner L i inner st in
        (r ≡ ok tt) × (st'.out ≡ handed st.session inner st.out)
  unfolding accept_inner
  accept_inner-handed i inner st p e own = ground arith

  accept_data-handed :
      (i : ℕ) (inner from : List ℕ) (st : St W) (p : Peer)
      → get_elem? st.session.peers i ≡ some p
      → inner_ip_len inner ≡ some (length inner)
      → lookup_inner_src st.session inner ≡ some i
      → let (r, st') = accept_data L i (pad inner) from st in
        (r ≡ ok tt) × (st'.out ≡ handed st.session inner st.out)
  unfolding accept_data
  accept_data-handed i inner from st p e h own =
      let ps = set st.session.peers i (roamed from p) in
      let st' : St W = record st { session = record st.session { peers = ps } } in
      ground (
        arith,
        get_elem?-set_self st.session.peers i (roamed from p) (get_elem?-lt st.session.peers i e),
        accept_inner-handed i inner st' (roamed from p),
        lookup_inner_src-peers st.session ps inner,
        inner_ip_len-pad inner h,
        take-pad inner,
        length-pad inner,
      )

  handle_data-opened :
      (bytes from : List ℕ) (st : St W) (o : Opened L)
      → 32 ≤ length bytes
      → opened L bytes st ≡ some o
      → handle_data L bytes from st
        ≡ finally
            (accept_data L o.slot o.plain from)
            (drop_both L o.buffer o.keypair)
            (record st { world = o.world })
  unfolding handle_data opened_data opened remote_peer
  handle_data-opened bytes from st o long op = ground arith

  -- A data packet of at least 32 bytes of a known keypair of a slot in use, whose inside is an IP packet with the padding of `wgs_encap`
  -- and with a source address that belongs to the sender, is accepted, and exactly the IP packet
  -- without the padding is handed over.
  pub handle_data-handed :
      (bytes inner from : List ℕ) (st : St W) (o : Opened L) (p : Peer)
      → 32 ≤ length bytes
      → opened L bytes st ≡ some o
      → o.plain ≡ pad inner
      → get_elem? st.session.peers o.slot ≡ some p
      → inner_ip_len inner ≡ some (length inner)
      → lookup_inner_src st.session inner ≡ some o.slot
      → let (r, st') = handle_data L bytes from st in
        (r ≡ ok tt) × (st'.out ≡ handed st.session inner st.out)
  handle_data-handed bytes inner from st o p long op padded e h own = ground (
    arith,
    handle_data-opened bytes from st o long op,
    accept_data-handed o.slot inner from (record st { world = o.world }) p e h own,
  )
