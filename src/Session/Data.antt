-- ===== src/Session/Data.antt =====
-- The data plane of src/wg_session.c: `session_lookup_dst`, `session_lookup_inner_src`,
-- `wgs_encap`, `inner_ip_len` and `wgs_handle_data`.
pub mod Spoof
pub mod Encap
pub mod RoundTrip
use polar_wg_app.Common.{
  ℕ, zero, suc, ◌+◌, ◌-◌, ◌*◌, ◌/◌, ◌%◌, ◌^◌, ◌≡◌, Bool, true, false, not, ◌&&◌, ◌||◌, Option, none,
  some, List, [], ◌∷◌, ◌++◌, ltb, leb, ◌==◌, if◌then◌else◌, length, take, drop, get_or, replicate,
}
use polar_wg_app.Allowedips
use polar_wg_app.Session.Types.{Peer, Session, add64, le32, le64, put_le32, put_le64, memcpy}
use polar_wg_app.Session.Host.{Host}
use polar_wg_app.Session.Mbuf.{Mbuf, devget, freem}
use polar_wg_app.Session.Monad.{
  Event, sent, delivered, St, M, Res, ok, fail, fault, pure, failure, ◌>>=◌, ◌>>◌, call, run, check,
  check_or, some_or, deref, upcall, finally, session, peer, set_peer, change_peer,
}

abbrev pub version : List ℕ → ℕ
version inner = get_or inner 0 0 / 16

-- The slot that owns the destination of an inner packet.
unfoldable pub lookup_dst : Session → List ℕ → Option ℕ
lookup_dst s inner =
    if length inner == 0
    then none
    else if version inner == 4 && leb 20 (length inner)
    then Allowedips.lookup s.aips_v4 (drop 16 inner)
    else if version inner == 6 && leb 40 (length inner)
    then Allowedips.lookup s.aips_v6 (drop 24 inner)
    else none

-- The slot that owns its source.
unfoldable pub lookup_inner_src : Session → List ℕ → Option ℕ
lookup_inner_src s inner =
    if length inner == 0
    then none
    else if version inner == 4 && leb 20 (length inner)
    then Allowedips.lookup s.aips_v4 (drop 12 inner)
    else if version inner == 6 && leb 40 (length inner)
    then Allowedips.lookup s.aips_v6 (drop 8 inner)
    else none

-- `none` is the return value -1.
unfoldable pub inner_ip_len : List ℕ → Option ℕ
inner_ip_len p =
    if length p == 0
    then none
    else if version p == 4
    then (let total = get_or p 2 0 * 256 + get_or p 3 0 in
        if ltb (length p) 20 || ltb total 20 || ltb (length p) total then none else some total)
    else if version p == 6
    then (let t = get_or p 4 0 * 256 + get_or p 5 0 + 40 in
        if ltb (length p) 40 || ltb (length p) t then none else some t)
    else none

abbrev pub data_hdr_len : ℕ
data_hdr_len = 16

-- A multiple of 16 bytes, and never none.
unfoldable pub padded_len : ℕ → ℕ
padded_len n = let padded = (n + 15) / 16 * 16 in if padded == 0 then 16 else padded

-- The copy of an inner packet in `scratch`, padded with zeros.
unfoldable pub pad : List ℕ → List ℕ
pad plain = plain ++ replicate (padded_len (length plain) - length plain) 0

-- WGS_PKT_DATA, the receiver's index and the counter.
abbrev pub data_hdr : ℕ → ℕ → List ℕ
data_hdr r_idx nonce = put_le32 4 ++ put_le32 r_idx ++ put_le64 nonce

-- The header and the encrypted bytes, as they are copied to `out`.
unfoldable pub datagram : ℕ → ℕ → List ℕ → List ℕ
datagram r_idx nonce body = data_hdr r_idx nonce ++ body

-- `owner == src_peer`
abbrev pub owns : ℕ → Option ℕ → Bool
owns i none = false
owns i (some j) = i == j

module _ (L : Host) where
  open L use {
    W, time, keypair_current, keypair_lookup, keypair_nonce_next, keypair_encrypt, keypair_decrypt,
    keypair_received_with, keypair_remote, keypair_put, remote_arg, remote_put,
  }

  -- `noise_keypair_put`, and `m_freem` before it.
  abbrev pub drop_keypair : ℕ → M W (Unit {0})
  drop_keypair kp = run (keypair_put kp)

  abbrev pub drop_both : Mbuf → ℕ → M W (Unit {0})
  drop_both m kp = run (freem L m) >> drop_keypair kp

  -- The second half of `wgs_encap`, from the header on: `body` is the encrypted packet.
  unfoldable pub send_data : ℕ → Peer → List ℕ → ℕ → Mbuf → ℕ → ℕ → List ℕ → M W (Unit {0})
  send_data i p plain kp m r_idx nonce body = do
    check_or (drop_both m kp) (leb (data_hdr_len + length body) 2048)
    s ← session
    upcall s.has_send_udp (sent (datagram r_idx nonce body) (take p.endpoint_len p.endpoint))
    now ← call time
    change_peer i (λ q. record q {
      tx_pkts = add64 q.tx_pkts 1;
      tx_bytes = add64 q.tx_bytes (length plain);
      last_authd_tx = now;
    })
    drop_both m kp

  -- `wgs_encap` for the peer of a slot.
  unfoldable pub encap_to : ℕ → List ℕ → M W (Unit {0})
  encap_to i plain = do
    p ← peer i
    check (not (p.endpoint_len == 0))
    let padded = padded_len (length plain)
    check (leb padded 2000)
    let scratch = pad plain
    kp ← some_or (pure tt) (← call (keypair_current (← deref p.remote)))
    nonce ← some_or (drop_keypair kp) (← call (keypair_nonce_next kp))
    m ← some_or (drop_keypair kp) (← call (devget L scratch))
    (r_idx, body) ← some_or (drop_both m kp) (← call (keypair_encrypt kp nonce m.bytes))
    send_data i p plain kp m r_idx nonce body

  -- `wgs_encap` with its test of `peer`, NULL being `none`.
  unfoldable pub encap : Option ℕ → List ℕ → M W (Unit {0})
  encap none plain st = (fail, st)
  encap (some i) plain st = encap_to i plain st

  -- The rest of `wgs_handle_data` for an inner packet of the peer of slot `i`, cut to the length
  -- that its own header gives: the test against spoofing, and the upcall.
  unfoldable pub accept_inner : ℕ → List ℕ → M W (Unit {0})
  accept_inner i inner = do
    s ← session
    if owns i (lookup_inner_src s inner)
        then (do
          change_peer i (λ p. record p {
            rx_pkts = add64 p.rx_pkts 1;
            rx_bytes = add64 p.rx_bytes (length inner);
          })
          upcall s.has_deliver_ip (delivered inner))
        else change_peer i (λ p. record p { rx_dropped_aips = add64 p.rx_dropped_aips 1 })

  -- What `wgs_handle_data` does once the packet is authenticated as the peer of slot `i`: `plain`
  -- holds the decrypted bytes, and `from` is the sender's address.
  unfoldable pub accept_data : ℕ → List ℕ → List ℕ → M W (Unit {0})
  accept_data i plain from = do
    change_peer i (λ p. record p {
      endpoint = memcpy p.endpoint from (length from);
      endpoint_len = length from;
    })
    if length plain == 0
        then change_peer i (λ p. record p { rx_pkts = add64 p.rx_pkts 1 })
        else (do ilen ← some_or (pure tt) (inner_ip_len plain); accept_inner i (take ilen plain))

  -- `rem ? noise_remote_arg(rem) : NULL`, after which the reference to `rem` is given back.
  unfoldable pub remote_peer : Option ℕ → M W (Option ℕ)
  remote_peer none st = (ok none, st)
  remote_peer (some rem) st =
      (ok (remote_arg rem st.world), record st { world = remote_put rem st.world })

  -- The part of `wgs_handle_data` after the decryption by `kp` of the buffer `m` to `plain`.
  unfoldable pub opened_data : ℕ → Mbuf → List ℕ → List ℕ → M W (Unit {0})
  opened_data kp m plain from = do
    run (keypair_received_with kp)
    src ← remote_peer (← call (keypair_remote kp))
    i ← some_or (drop_both m kp) src
    finally (accept_data i plain from) (drop_both m kp)

  -- `wgs_handle_data`
  unfoldable pub handle_data : List ℕ → List ℕ → M W (Unit {0})
  handle_data bytes from = do
    check (leb (data_hdr_len + 16) (length bytes))
    s ← session
    kp ← some_or (pure tt) (← call (keypair_lookup (← deref s.noise_local) (le32 bytes 4)))
    m ← some_or (drop_keypair kp) (← call (devget L (drop data_hdr_len bytes)))
    plain ← some_or (drop_both m kp) (← call (keypair_decrypt kp (le64 bytes 8) m.bytes))
    opened_data kp m plain from
