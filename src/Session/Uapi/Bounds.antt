-- ===== src/Session/Uapi/Bounds.antt =====
-- `wg_session_set_uapi` of src/wg_session.c keeps the bounds of the session's arrays.
use polar_wg_app.Common.{
  ℕ, ◌+◌, ◌≡◌, false, Option, none, some, List, [], ◌∷◌, ◌++◌, length, arith, get_elem?, set, All,
  All-set, All-get, All-append, length-append, length-set, leb,
}
use polar_wg_app.Session.Types.{Cidr, Peer, zero_peer, max_peers, max_allowed_cidrs}
use polar_wg_app.Session.Bounds.{
  CidrFits, PeerFits, PeersFit, zero_peer-PeerFits, parse_cidr-CidrFits,
}
use polar_wg_app.Session.Values.{parse_cidr}
use polar_wg_app.Session.Host.{Host, Net}
use polar_wg_app.Session.Monad.{St, Res, ok, fail, fault}
use polar_wg_app.Session.Peers.{
  alloc_peer_slot, peer_tombstone, peer_init_runtime, peer_set_endpoint_str, resolve_endpoint,
  drop_remote, drop_cookie,
}
use polar_wg_app.Session.Routes.{rebuild_aips}
use polar_wg_app.Text.{trim, tokens, c_string}
use polar_wg_app.Session.Uapi.{
  set_psk, psk_field, keepalive_field, replace_field, allowed_ip_field, select_peer, peer_field,
  set_field, set_line, set_lines, set_uapi,
}

-- The bounds of a session's peers, for automation that need not look inside.
unfoldable pub Fits : List Peer → Type 0
Fits ps = PeersFit ps

unfoldable pub FitsPeer : Peer → Type 0
FitsPeer p = PeerFits p

set-Fits : (ps : List Peer) (i : ℕ) (p : Peer) → Fits ps → FitsPeer p → Fits (set ps i p)
unfolding Fits FitsPeer
set-Fits ps i p f g = record {
  room = omega (arith, f.room, length-set ps i p);
  peers = All-set PeerFits ps i p f.peers g;
}

get-FitsPeer : (ps : List Peer) (i : ℕ) {p : Peer} → Fits ps → get_elem? ps i ≡ some p → FitsPeer p
unfolding Fits FitsPeer
get-FitsPeer ps i f e = All-get PeerFits ps i f.peers e

-- A peer fits by its allowed IPs alone.
same-FitsPeer : (p q : Peer) → FitsPeer p → q.allowed ≡ p.allowed → FitsPeer q
unfolding FitsPeer
same-FitsPeer p q f e = record { room = rw e f.room; cidrs = rw e f.cidrs }

none-FitsPeer : (q : Peer) → q.allowed ≡ [] → FitsPeer q
unfolding FitsPeer All
none-FitsPeer q e = record { room = rw e (omega arith); cidrs = rw e tt }

change-Fits :
    (ps : List Peer) (i : ℕ) (p q : Peer)
    → Fits ps
    → get_elem? ps i ≡ some p
    → q.allowed ≡ p.allowed
    → Fits (set ps i q)
change-Fits ps i p q f e a = set-Fits ps i q f (same-FitsPeer p q (get-FitsPeer ps i f e) a)

clear-Fits : (ps : List Peer) (i : ℕ) (q : Peer) → Fits ps → q.allowed ≡ [] → Fits (set ps i q)
clear-Fits ps i q f a = set-Fits ps i q f (none-FitsPeer q a)

grow-Fits :
    (ps : List Peer) → Fits ps → leb max_peers (length ps) ≡ false → Fits (ps ++ zero_peer ∷ [])
unfolding Fits All
grow-Fits ps f more = record {
  room = ground (arith, length-append ps (zero_peer ∷ []));
  peers = All-append PeerFits ps (zero_peer ∷ []) f.peers (zero_peer-PeerFits, tt);
}

add_cidr-Fits :
    (N : Net) (ps : List Peer) (i : ℕ) (p q : Peer) (s : List ℕ) (c : Cidr)
    → Fits ps
    → get_elem? ps i ≡ some p
    → leb max_allowed_cidrs (length p.allowed) ≡ false
    → parse_cidr N s ≡ some c
    → q.allowed ≡ p.allowed ++ c ∷ []
    → Fits (set ps i q)
unfolding FitsPeer All
add_cidr-Fits N ps i p q s c f e more fit a =
    let g : PeerFits p = get-FitsPeer ps i f e in
    set-Fits ps i q f (record {
      room = rw a (ground (arith, length-append p.allowed (c ∷ [])));
      cidrs =
          rw a (All-append CidrFits p.allowed (c ∷ []) g.cidrs (parse_cidr-CidrFits N s fit, tt));
    })

module _ (N : Net) (L : Host) where
  open L use {W}

  peer_set_endpoint_str-Fits :
      (i : ℕ) (spec : List ℕ) (st : St W)
      → Fits st.session.peers
      → Fits (peer_set_endpoint_str L i spec st).1.session.peers
  unfolding peer_set_endpoint_str resolve_endpoint
  peer_set_endpoint_str-Fits i spec st f = grind (arith, change-Fits)

  peer_tombstone-Fits :
      (i : ℕ) (st : St W) → Fits st.session.peers → Fits (peer_tombstone L i st).1.session.peers
  unfolding peer_tombstone drop_remote drop_cookie
  peer_tombstone-Fits i st f = grind (arith, clear-Fits)

  alloc_peer_slot-Fits :
      (st : St W) → Fits st.session.peers → Fits (alloc_peer_slot L st).1.session.peers
  unfolding alloc_peer_slot
  alloc_peer_slot-Fits st f = grind (arith, grow-Fits)

  peer_init_runtime-Fits :
      (i : ℕ) (pk : List ℕ) (st : St W)
      → Fits st.session.peers
      → Fits (peer_init_runtime L i pk st).1.session.peers
  unfolding peer_init_runtime
  peer_init_runtime-Fits i pk st f = grind (arith, clear-Fits, change-Fits)

  select_peer-Fits :
      (val : List ℕ) (st : St W)
      → Fits st.session.peers
      → Fits (select_peer N L val st).1.session.peers
  unfolding select_peer
  select_peer-Fits val st f = grind (arith, alloc_peer_slot-Fits, peer_init_runtime-Fits)

  set_psk-session :
      (rem : Option ℕ) (psk : List ℕ) (st : St W) → (set_psk N L rem psk st).1.session ≡ st.session
  unfolding set_psk
  set_psk-session rem psk st = ground arith

  psk_field-Fits :
      (val : List ℕ) (i : ℕ) (st : St W)
      → Fits st.session.peers
      → Fits (psk_field N L val i st).1.session.peers
  unfolding psk_field
  psk_field-Fits val i st f = grind (arith, change-Fits, set_psk-session)

  keepalive_field-Fits :
      (val : List ℕ) (i : ℕ) (st : St W)
      → Fits st.session.peers
      → Fits (keepalive_field N L val i st).1.session.peers
  unfolding keepalive_field
  keepalive_field-Fits val i st f = grind (arith, change-Fits)

  replace_field-Fits :
      (val : List ℕ) (i : ℕ) (st : St W)
      → Fits st.session.peers
      → Fits (replace_field N L val i st).1.session.peers
  unfolding replace_field
  replace_field-Fits val i st f = grind (arith, clear-Fits)

  allowed_ip_field-Fits :
      (val : List ℕ) (i : ℕ) (st : St W)
      → Fits st.session.peers
      → Fits (allowed_ip_field N L val i st).1.session.peers
  unfolding allowed_ip_field
  allowed_ip_field-Fits val i st f = grind (arith, add_cidr-Fits)

  peer_field-Fits :
      (key val : List ℕ) (i : ℕ) (st : St W)
      → Fits st.session.peers
      → Fits (peer_field N L key val i st).1.session.peers
  unfolding peer_field
  peer_field-Fits key val i st f = ground (
    arith,
    peer_tombstone-Fits i st f,
    peer_set_endpoint_str-Fits i val st f,
    psk_field-Fits val i st f,
    keepalive_field-Fits val i st f,
    replace_field-Fits val i st f,
    allowed_ip_field-Fits val i st f,
  )

  set_field-Fits :
      (key val : List ℕ) (cur : Option ℕ) (st : St W)
      → Fits st.session.peers
      → Fits (set_field N L key val cur st).1.session.peers
  unfolding set_field
  set_field-Fits key val none st f = ground (arith, select_peer-Fits val st f)
  set_field-Fits key val (some i) st f =
      ground (arith, select_peer-Fits val st f, peer_field-Fits key val i st f)

  set_line-Fits :
      (line : List ℕ) (cur : Option ℕ) (st : St W)
      → Fits st.session.peers
      → Fits (set_line N L line cur st).1.session.peers
  unfolding set_line
  set_line-Fits line cur st f = grind (arith, set_field-Fits)

  set_lines-Fits :
      (ls : List (List ℕ)) (cur : Option ℕ) (st : St W)
      → Fits st.session.peers
      → Fits (set_lines N L ls cur st).1.session.peers
  unfolding set_lines
  set_lines-Fits [] cur st f = f
  set_lines-Fits (l ∷ ls) cur st f =
      go (set_line N L (trim l) cur st) (set_line-Fits (trim l) cur st f)
        λ a st' g. set_lines-Fits ls a st' g
    where
      go :
          (r : Res (Option ℕ) × St W)
          → Fits r.1.session.peers
          → ((a : Option ℕ) (st' : St W)
              → Fits st'.session.peers
              → Fits (set_lines N L ls a st').1.session.peers)
          → Fits
              (elim r.0 as (λ x. Res (Unit {0}) × St W) [
                | ok a ↦ set_lines N L ls a r.1
                | fail ↦ (fail, r.1)
                | fault ↦ (fault, r.1)
              ]).1.session.peers
      go (ok a, st') g next = next a st' g
      go (fail, st') g next = g
      go (fault, st') g next = g

  -- `wg_session_set_uapi`, however it ends, leaves at most WGS_MAX_PEERS peers with at most
  -- WGS_MAX_ALLOWED_CIDRS allowed IPs each, every one with a prefix length of its family and a full
  -- address, if the session was such before.
  pub set_uapi-Fits :
      (text : List ℕ) (st : St W)
      → Fits st.session.peers
      → Fits (set_uapi N L text st).1.session.peers
  unfolding set_uapi rebuild_aips
  set_uapi-Fits text st f =
      let st' : St W = record st { world = (L.malloc (length text + 1) st.world).1 } in
      ground (arith, set_lines-Fits (tokens 0x0a (c_string text)) none st' f)
