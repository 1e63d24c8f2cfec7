-- ===== src/Session/Monad.antt =====
-- State of a session and its host, for the functions of src/wg_session.c.
pub use polar_wg_app.Common.Run.{
  Res, ok, fail, fault, pure, failure, ◌>>=◌, ◌>>◌, check_or, check, some_or, deref, finally,
  on_fail,
}
use polar_wg_app.Common.{ℕ, Bool, true, false, List, ◌∷◌, get_elem?, set}
use polar_wg_app.Common.Run.{Run}
use polar_wg_app.Session.Types.{Peer, Session}

-- An upcall: an outer datagram with its destination, or an inner packet for the host.
pub data Event : Type 0 where
  sent : List ℕ → List ℕ → Event
  delivered : List ℕ → Event

-- `out` holds the upcalls, the newest first.
pub record St (W : Type 0) : Type 0 where
  pub session : Session
  pub world : W
  pub out : List Event

abbrev pub M : Type 0 → Type 0 → Type 0
M W A = Run (St W) A

module _ {W : Type 0} where
  -- A call that cannot fail.
  abbrev pub call : {A : Type 0} → (W → A × W) → M W A
  call f st = let (a, w) = f st.world in (ok a, record st { world = w })

  abbrev pub run : (W → W) → M W (Unit {0})
  run f st = (ok tt, record st { world = f st.world })

  abbrev pub emit : Event → M W (Unit {0})
  emit e st = (ok tt, record st { out = e ∷ st.out })

  -- An upcall through a callback that may be NULL.
  abbrev pub upcall : Bool → Event → M W (Unit {0})
  upcall true e st = emit e st
  upcall false e st = (ok tt, st)

  abbrev pub session : M W Session
  session st = (ok st.session, st)

  abbrev pub update : (Session → Session) → M W (Unit {0})
  update f st = (ok tt, record st { session = f st.session })

  -- `&s->peers[i]` for a slot in use.
  abbrev pub peer : ℕ → M W Peer
  peer i = session >>= λ s. deref (get_elem? s.peers i)

  abbrev pub set_peer : ℕ → Peer → M W (Unit {0})
  set_peer i p = update (λ s. record s { peers = set s.peers i p })

  abbrev pub change_peer : ℕ → (Peer → Peer) → M W (Unit {0})
  change_peer i f = peer i >>= λ p. set_peer i (f p)
