-- ===== src/Session/Timers/Dispatch.antt =====
-- What `wg_session_handle_udp` and `wg_session_handle_tun` of src/wg_session.c do with a packet.
use polar_wg_app.Common.{ℕ, ◌≡◌, Bool, ◌&&◌, List, ◌∷◌, leb, if◌then◌else◌, length, arith, ◌⊎◌}
use polar_wg_app.Session.Types.{packet_type}
use polar_wg_app.Session.Host.{Host}
use polar_wg_app.Session.Monad.{Event, sent, St, fail}
use polar_wg_app.Session.Data.Spoof.{newest, OwnedBy, sender, handle_data-OwnedBy}
use polar_wg_app.Session.Handshake.Outcomes.{
  handle_initiation-out, handle_response-is_settled, handle_cookie-session,
}
use polar_wg_app.Session.Timers.{handle_udp}

-- A datagram that holds one of the four packet types.
abbrev pub is_known : List ℕ → Bool
is_known bytes = leb 4 (length bytes) && (leb 1 (packet_type bytes) && leb (packet_type bytes) 4)

module _ (L : Host) where
  open L use {W}

  -- The upcalls of one datagram: none; or one reply to its sender, for an initiation; or one inner
  -- packet, for a data packet, whose source the allowed IPs give to the peer that sent it.
  abbrev pub Upcalls : List ℕ → List ℕ → St W → List Event → Type 0
  Upcalls bytes from st new =
      (new ≡ st.out)
      ⊎ ((packet_type bytes ≡ 1) × (new ≡ sent (newest new) from ∷ st.out))
      ⊎ ((packet_type bytes ≡ 4) × OwnedBy st.session (sender L bytes st) st.out new)

  -- `wg_session_handle_udp` makes at most one upcall: a reply to the sender, for a packet of type 1,
  -- or an inner packet, for one of type 4, whose source address the allowed IPs give to the peer
  -- whose keypair opened the packet. A datagram of fewer than 4 bytes or of a type beyond 1 to 4
  -- fails and changes nothing.
  pub handle_udp-Upcalls :
      (bytes from : List ℕ) (st : St W)
      → if is_known bytes
        then Upcalls bytes from st (handle_udp L bytes from st).1.out
        else (handle_udp L bytes from st ≡ (fail, st))
  unfolding handle_udp
  handle_udp-Upcalls bytes from st = ground (
    arith,
    handle_data-OwnedBy L bytes from st,
    handle_initiation-out L bytes from st,
    handle_response-is_settled L bytes st,
    handle_cookie-session L bytes st,
  )
