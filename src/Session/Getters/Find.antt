-- ===== src/Session/Getters/Find.antt =====
-- `find_peer_by_pubkey` of src/wg_session.c against `wg_session_peer_pubkey`.
use polar_wg_app.Common.{
  list_eq_refl, list_eq_sound, ℕ, ◌+◌, ◌≤◌, ◌≡◌, ◌≢◌, refl, Option, none, some, List, [], ◌∷◌,
  if◌then◌else◌, get_elem?, arith, zero, suc, ◌∙◌, Option-cases, inl, inr,
}
use polar_wg_app.Session.Types.{Peer, Session}
use polar_wg_app.Session.Peers.{find_peer_by_pubkey}
use polar_wg_app.Session.Getters.{peer_pubkey}

-- The public key in slot `j` of a list, if that slot is active.
unfoldable key_at : List Peer → ℕ → Option (List ℕ)
key_at [] j = none
key_at (p ∷ ps) zero = if p.active then some p.pubkey else none
key_at (p ∷ ps) (suc j) = key_at ps j

key_at-pubkey : (s : Session) (j : ℕ) → peer_pubkey s j ≡ key_at s.peers j
unfolding peer_pubkey key_at
key_at-pubkey s j = go s.peers j
  where
    go :
        (ps : List Peer) (j : ℕ)
        → elim (get_elem? ps j) as (λ x. Option (List ℕ)) [
          | none ↦ none
          | some p ↦ if p.active then some p.pubkey else none
        ]
          ≡ key_at ps j
    go [] j = refl
    go (p ∷ ps) zero = refl
    go (p ∷ ps) (suc j) = go ps j

find-le :
    (pk : List ℕ) (i : ℕ) (ps : List Peer) (n : ℕ) → find_peer_by_pubkey pk i ps ≡ some n → i ≤ n
unfolding find_peer_by_pubkey
find-le pk i [] n e = ground arith
find-le pk i (p ∷ ps) n e = ground (arith, find-le pk (i + 1) ps n)

find-some :
    (pk : List ℕ) (i : ℕ) (ps : List Peer) (j n : ℕ)
    → find_peer_by_pubkey pk i ps ≡ some n
    → n ≡ j + i
    → key_at ps j ≡ some pk
unfolding find_peer_by_pubkey key_at
find-some pk i [] j n e h = ground arith
find-some pk i (p ∷ ps) zero n e h =
    ground (arith, list_eq_sound p.pubkey pk, find-le pk (i + 1) ps n)
find-some pk i (p ∷ ps) (suc j) n e h = ground (arith, find-some pk (i + 1) ps j n)

find-none :
    (pk : List ℕ) (i : ℕ) (ps : List Peer) (j : ℕ)
    → find_peer_by_pubkey pk i ps ≡ none
    → key_at ps j ≢ some pk
unfolding find_peer_by_pubkey key_at
find-none pk i [] j e = ground arith
find-none pk i (p ∷ ps) zero e = ground (arith, list_eq_refl pk)
find-none pk i (p ∷ ps) (suc j) e = ground (arith, find-none pk (i + 1) ps j)

-- The result `o` of a search for the active peer with the public key `pk`.
abbrev pub Holds : Session → List ℕ → Option ℕ → Type 0
Holds s pk none = (j : ℕ) → peer_pubkey s j ≢ some pk
Holds s pk (some j) = peer_pubkey s j ≡ some pk

-- The slot that `find_peer_by_pubkey` finds is active and has the public key, and if it finds
-- none, no active slot has it; `wg_session_peer_pubkey` is what reads the key of an active slot.
pub find-peer_pubkey : (s : Session) (pk : List ℕ) → Holds s pk (find_peer_by_pubkey pk 0 s.peers)
find-peer_pubkey s pk = elim (Option-cases (find_peer_by_pubkey pk 0 s.peers)) [
  | inl e ↦ rw e (λ j. ground (arith, key_at-pubkey s j, find-none pk 0 s.peers j e))
  | inr (j, e) ↦ rw e (key_at-pubkey s j ∙ find-some pk 0 s.peers j j e (omega arith))
]
