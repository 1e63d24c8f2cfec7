-- ===== src/Session/Data/Encap.antt =====
-- What `wgs_encap` of src/wg_session.c sends, and when.
use polar_wg_app.Common.{
  ℕ, ◌+◌, ◌*◌, ◌%◌, ◌≤◌, ◌≡◌, refl, some, List, ◌∷◌, if◌then◌else◌, length, take, arith, get_elem?,
  ◌≢◌,
}
use polar_wg_app.Session.Types.{Peer, packet_type}
use polar_wg_app.Session.Host.{Host}
use polar_wg_app.Session.Mbuf.{Mbuf}
use polar_wg_app.Session.Monad.{sent, St, Res, ok, fail, fault}
use polar_wg_app.Session.Data.Spoof.{newest}
use polar_wg_app.Session.Data.{encap_to, send_data, padded_len, datagram}

-- The padded length is the least multiple of 16 that holds the packet, and at least 16.
pub padded_len_lem :
    (n : ℕ)
    → (padded_len n % 16 ≡ 0)
      × (n ≤ padded_len n)
      × (16 ≤ padded_len n)
      × ((m : ℕ) → n ≤ 16 * m → 16 ≤ 16 * m → padded_len n ≤ 16 * m)
unfolding padded_len
padded_len_lem n = (ground arith, ground arith, ground arith, λ m h k. ground arith)

packet_type-datagram : (r n : ℕ) (body : List ℕ) → packet_type (datagram r n body) ≡ 4
unfolding packet_type datagram
packet_type-datagram r n body = refl

pub length-datagram : (r n : ℕ) (body : List ℕ) → length (datagram r n body) ≡ 16 + length body
unfolding datagram
length-datagram r n body = omega arith

-- What must hold for a packet to be sent.
abbrev pub Sendable : Peer → List ℕ → Res (Unit {0}) → Type 0
Sendable p plain (ok a) = (p.endpoint_len ≢ 0) × (padded_len (length plain) ≤ 2000)
Sendable p plain fail = Unit {0}
Sendable p plain fault = Unit {0}

module _ (L : Host) where
  open L use {W}

  -- What a sender of `plain` does at slot `i`, whose peer is `p`: a failure leaves the session and the
  -- upcalls alone, and success makes one upcall, if the callback is set: a datagram of type 4 and of
  -- 16 to 2048 bytes to the endpoint of `p`.
  abbrev pub Sends : ℕ → Peer → St W → Res (Unit {0}) × St W → Type 0
  Sends i p st (fail, st') = (st'.session ≡ st.session) × (st'.out ≡ st.out)
  Sends i p st (fault, st') = Unit {0}
  Sends i p st (ok a, st') =
      let d = newest st'.out in
      if st.session.has_send_udp
      then ((st'.out ≡ sent d (take p.endpoint_len p.endpoint) ∷ st.out)
          × (packet_type d ≡ 4)
          × (length d ≤ 2048)
          × (16 ≤ length d))
      else (st'.out ≡ st.out)

  send_data-Sends :
      (i : ℕ) (p : Peer) (plain : List ℕ) (kp : ℕ) (m : Mbuf) (r_idx nonce : ℕ) (body : List ℕ)
      (st : St W)
      → Sends i p st (send_data L i p plain kp m r_idx nonce body st)
  unfolding send_data newest
  send_data-Sends i p plain kp m r_idx nonce body st =
      ground (arith, packet_type-datagram r_idx nonce body, length-datagram r_idx nonce body)

  send_data-no_fault :
      (i : ℕ) (p : Peer) (plain : List ℕ) (kp : ℕ) (m : Mbuf) (r_idx nonce : ℕ) (body : List ℕ)
      (st : St W)
      → get_elem? st.session.peers i ≡ some p
      → (send_data L i p plain kp m r_idx nonce body st).0 ≢ fault
  unfolding send_data
  send_data-no_fault i p plain kp m r_idx nonce body st e = ground arith

  -- `wgs_encap` for a slot in use whose peer has a noise remote returns: it never follows a NULL
  -- pointer. If it fails, it has sent nothing and left every peer as it was. If it succeeds, the
  -- peer has an endpoint, the packet is at most 2000 bytes long with its padding, and the one
  -- upcall, if the callback is set, is a datagram of type 4 and of 16 to 2048 bytes, to the
  -- endpoint of that peer.
  pub encap_to-Sends :
      (i : ℕ) (plain : List ℕ) (st : St W) (p : Peer) (rem : ℕ)
      → get_elem? st.session.peers i ≡ some p
      → p.remote ≡ some rem
      → Sends i p st (encap_to L i plain st)
        × ((encap_to L i plain st).0 ≢ fault)
        × Sendable p plain (encap_to L i plain st).0
  unfolding encap_to
  encap_to-Sends i plain st p rem e h =
      (grind (arith, send_data-Sends), grind (arith, send_data-no_fault), ground arith)
