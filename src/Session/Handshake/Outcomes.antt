-- ===== src/Session/Handshake/Outcomes.antt =====
-- How the handshake handlers of src/wg_session.c end.
use polar_wg_app.Common.{
  ℕ, ◌≤◌, ◌≡◌, refl, Bool, true, false, not, ◌&&◌, Option, none, some, List, ◌∷◌, ◌++◌, ◌==◌,
  length, take, arith, get_elem?, get_elem?-set_of_some, ◌⊎◌,
}
use polar_wg_app.Session.Types.{Peer, le32, packet_type}
use polar_wg_app.Session.Host.{Host, Response}
use polar_wg_app.Session.Monad.{Event, sent, St, Res, ok, fail, fault}
use polar_wg_app.Session.Data.Spoof.{newest}
use polar_wg_app.Session.Handshake.{
  slice, response_msg, find_pending, matched_peer, put_matched, handle_initiation, handle_response,
  handle_cookie,
}

-- The newest upcall is a datagram of type 2 to the address `to`, on top of the older ones.
abbrev pub Replies : Bool → List ℕ → List Event → List Event → Type 0
Replies true to old new = (new ≡ sent (newest new) to ∷ old) × (packet_type (newest new) ≡ 2)
Replies false to old new = new ≡ old

packet_type-response : (m : Response) (macs : List ℕ) → packet_type (response_msg m ++ macs) ≡ 2
unfolding packet_type response_msg
packet_type-response m macs = refl

-- The slot holds a peer without a handshake under way.
unfoldable pub is_settled : Option ℕ → List Peer → Bool
is_settled none ps = false
is_settled (some i) ps = elim (get_elem? ps i) [
  | none ↦ false
  | some q ↦ not q.hs_pending && q.hs_attempts == 0
]

module _ (L : Host) where
  open L use {W}

  -- How a call of `wgs_handle_initiation` ends.
  abbrev pub Initiated : List ℕ → List ℕ → St W → Res (Unit {0}) → St W → Type 0
  Initiated bytes from st fail st' = (st'.session ≡ st.session) × (st'.out ≡ st.out)
  Initiated bytes from st fault st' = Unit {0}
  Initiated bytes from st (ok a) st' =
      (148 ≤ length bytes)
      × ((L.validate_macs (slice 116 32 bytes) (take 116 bytes) from st.world).0 ≡ true)
      × Replies st.session.has_send_udp from st.out st'.out

  -- How a call of `wgs_handle_response` ends.
  abbrev pub Answered : List ℕ → St W → Res (Unit {0}) → St W → Type 0
  Answered bytes st fail st' = st'.session ≡ st.session
  Answered bytes st fault st' = Unit {0}
  Answered bytes st (ok a) st' =
      (92 ≤ length bytes)
      × (is_settled (find_pending (le32 bytes 8) 0 st.session.peers) st'.session.peers ≡ true)

  -- `wgs_handle_initiation` that fails leaves the session alone and sends nothing. One that succeeds
  -- had a message of 148 bytes or more whose MACs are valid, and its one upcall, if the callback is
  -- set, is a datagram of type 2 to the address that the message came from.
  pub handle_initiation-Replies :
      (bytes from : List ℕ) (st : St W)
      → let (r, st') = handle_initiation L bytes from st in Initiated bytes from st r st'
  unfolding handle_initiation matched_peer newest
  handle_initiation-Replies bytes from st = grind (arith, packet_type-response)

  -- `wgs_handle_response` makes no upcall. If it fails, the session is as before. If it succeeds, the
  -- message has 92 bytes or more and names the pending handshake of an active peer, and that
  -- peer's handshake is over.
  pub handle_response-is_settled :
      (bytes : List ℕ) (st : St W)
      → let (r, st') = handle_response L bytes st in (st'.out ≡ st.out) × Answered bytes st r st'
  unfolding handle_response put_matched is_settled
  handle_response-is_settled bytes st = grind (arith, get_elem?-set_of_some)

  pub handle_initiation-out :
      (bytes from : List ℕ) (st : St W)
      → let new = (handle_initiation L bytes from st).1.out in
        (new ≡ st.out) ⊎ (new ≡ sent (newest new) from ∷ st.out)
  unfolding handle_initiation matched_peer newest
  handle_initiation-out bytes from st = ground arith

  pub handle_cookie-session :
      (bytes : List ℕ) (st : St W)
      → ((handle_cookie L bytes st).1.out ≡ st.out)
        × ((handle_cookie L bytes st).1.session ≡ st.session)
  unfolding handle_cookie
  handle_cookie-session bytes st = ground arith
