-- ===== src/Session/Data/Spoof.antt =====
-- The anti-spoofing guarantee of `wgs_handle_data` in src/wg_session.c.
use polar_wg_app.Common.{
  ℕ, ◌+◌, ◌≡◌, refl, Bool, true, false, Option, none, some, is_some, Option-cases, List, [], ◌∷◌,
  ◌==◌, if◌then◌else◌, length, take, drop, arith, ◌⊎◌, inl, inr, get_elem?, set,
}
use polar_wg_app.Common
use polar_wg_app.Session.Types.{Peer, Session, le32, le64, memcpy}
use polar_wg_app.Session.Host.{Host}
use polar_wg_app.Session.Mbuf.{Mbuf, devget}
use polar_wg_app.Session.Monad.{Event, sent, delivered, St}
use polar_wg_app.Session.Data.{
  accept_inner, accept_data, handle_data, opened_data, remote_peer, lookup_inner_src, inner_ip_len,
}

-- The packet in the newest upcall.
unfoldable pub newest : List Event → List ℕ
newest [] = []
newest (sent d to ∷ es) = d
newest (delivered p ∷ es) = p

-- The upcalls `new` are those of `old`, with at most one inner packet delivered on top, which
-- the allowed IPs give to the slot `o`.
abbrev pub OwnedBy : Session → Option ℕ → List Event → List Event → Type 0
OwnedBy s o old new =
    (new ≡ old)
    ⊎ ((new ≡ delivered (newest new) ∷ old)
        × (lookup_inner_src s (newest new) ≡ o)
        × (is_some o ≡ true))

abbrev roamed : List ℕ → Peer → Peer
roamed from p = record p {
  endpoint = memcpy p.endpoint from (length from);
  endpoint_len = length from;
}

pub lookup_inner_src-peers :
    (s : Session) (ps : List Peer) (inner : List ℕ)
    → lookup_inner_src (record s { peers = ps }) inner ≡ lookup_inner_src s inner
unfolding lookup_inner_src
lookup_inner_src-peers s ps inner = refl

module _ (L : Host) where
  open L use {W, keypair_lookup, keypair_decrypt, keypair_received_with, keypair_remote, remote_arg}

  accept_inner-OwnedBy :
      (i : ℕ) (inner : List ℕ) (st : St W)
      → OwnedBy st.session (some i) st.out (accept_inner L i inner st).1.out
  unfolding accept_inner newest
  accept_inner-OwnedBy i inner st = ground arith

  accept_data-OwnedBy :
      (i : ℕ) (plain from : List ℕ) (st : St W)
      → OwnedBy st.session (some i) st.out (accept_data L i plain from st).1.out
  unfolding accept_data
  accept_data-OwnedBy i plain from st = elim (Option-cases (get_elem? st.session.peers i)) [
    | inl e ↦ ground arith
    | inr (p, e) ↦
        let ps = set st.session.peers i (roamed from p) in
        elim (Option-cases (inner_ip_len plain)) [
          | inl e' ↦ ground arith
          | inr (n, e') ↦ ground (
            arith,
            accept_inner-OwnedBy i (take n plain)
                (record st { session = record st.session { peers = ps } }),
            lookup_inner_src-peers st.session ps (
                newest
                  (accept_inner L i (take n plain)
                    (record st { session = record st.session { peers = ps } })).1.out),
          )
        ]
  ]

  -- How the noise layer opens a data packet: the slot of the peer whose keypair opens it, the
  -- bytes inside, what is held meanwhile, and the host's state afterwards.
  pub record Opened : Type 0 where
    pub slot : ℕ
    pub plain : List ℕ
    pub keypair : ℕ
    pub buffer : Mbuf
    pub world : W

  unfoldable pub opened : List ℕ → St W → Option Opened
  opened bytes st = Common.◌>>=◌ st.session.noise_local λ loc.
      let looked = keypair_lookup loc (le32 bytes 4) st.world in
      Common.◌>>=◌ looked.0 λ kp.
        let got = devget L (drop 16 bytes) looked.1 in
        Common.◌>>=◌ got.0 λ m.
          let inside = keypair_decrypt kp (le64 bytes 8) m.bytes got.1 in
          Common.◌>>=◌ inside.0 λ plain.
            let from = keypair_remote kp (keypair_received_with kp inside.1) in
            Common.◌>>=◌ from.0 λ rem. Common.◌>>=◌ (remote_arg rem from.1) λ i. some (record {
              slot = i;
              plain = plain;
              keypair = kp;
              buffer = m;
              world = L.remote_put rem from.1;
            })

  abbrev pub sender : List ℕ → St W → Option ℕ
  sender bytes st = Common.◌>>=◌ (opened bytes st) λ o. some o.slot

  -- For every data packet `wgs_handle_data` either makes no upcall, or delivers one inner packet
  -- whose source address the allowed IPs give to the very peer whose keypair opened the packet.
  pub handle_data-OwnedBy :
      (bytes from : List ℕ) (st : St W)
      → OwnedBy st.session (sender bytes st) st.out (handle_data L bytes from st).1.out
  unfolding handle_data opened_data opened remote_peer
  handle_data-OwnedBy bytes from st = grind (arith, accept_data-OwnedBy)
