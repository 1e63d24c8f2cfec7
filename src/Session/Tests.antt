-- ===== src/Session/Tests.antt =====
-- Tests of src/wg_session.c at a small host and session.
use polar_wg_app.Common.{
  ℕ, ◌≡◌, ◌≢◌, refl, some, List, [], ◌∷◌, ◌++◌, replicate, arith, All, if◌then◌else◌,
}
use polar_wg_app.Allowedips
use polar_wg_app.Allowedips.{Trie, bit_at, walk}
use polar_wg_app.Session.Mbuf.{devget}
use polar_wg_app.Session.Monad.{delivered, Res, ok, fail, fault}
use polar_wg_app.Session.Data.{
  handle_data, lookup_inner_src, inner_ip_len, pad, padded_len, encap_to,
}
use polar_wg_app.Session.Data.Spoof.{OwnedBy, Opened, opened, sender, handle_data-OwnedBy}
use polar_wg_app.Session.Data.RoundTrip.{handle_data-handed}
use polar_wg_app.Session.Data.Encap.{Sends, Sendable, encap_to-Sends}
use polar_wg_app.Session.Handshake
use polar_wg_app.Session.Handshake.{slice, find_pending, handle_initiation, handle_response}
use polar_wg_app.Session.Handshake.Outcomes.{Initiated, handle_initiation-Replies}
use polar_wg_app.Session.Timers.{handle_udp, tick, tick_peer}
use polar_wg_app.Session.Timers.Dispatch.{is_known, Upcalls, handle_udp-Upcalls}
use polar_wg_app.Session.Timers.Attempts.{AreTried, tick-AreTried}
use polar_wg_app.Session.Timers.Idle.{gives_up_and_starts, tries_at}
use polar_wg_app.Session.Balance.{held-handle_data}
use polar_wg_app.Session.Samples.{
  lab, lab_account, peer, sess, start, inner, data_packet, addr, initiation,
}

handle_data-OwnedBy_example :
    OwnedBy sess (sender lab data_packet start) [] (handle_data lab data_packet addr start).1.out
handle_data-OwnedBy_example = handle_data-OwnedBy lab data_packet addr start

-- What the noise layer makes of the packet.
abbrev seen : Opened lab
seen = record {
  slot = 0;
  plain = pad inner;
  keypair = 7;
  buffer = record { chunk = 64; buf = 64; bytes = inner ++ replicate 28 0 };
  world = 7;
}

opened-seen : opened lab data_packet start ≡ some seen
unfolding opened devget pad padded_len
opened-seen = refl

inner-length : inner_ip_len inner ≡ some 20
unfolding inner_ip_len
inner-length = refl

inner-owner : lookup_inner_src sess inner ≡ some 0
unfolding lookup_inner_src Allowedips.lookup walk bit_at
inner-owner = refl

handle_data-handed_example :
    ((handle_data lab data_packet addr start).0 ≡ ok tt)
    × ((handle_data lab data_packet addr start).1.out ≡ delivered inner ∷ [])
handle_data-handed_example =
    handle_data-handed lab data_packet inner addr start seen peer (omega arith) opened-seen refl
      refl inner-length inner-owner

encap_to-Sends_example :
    Sends lab 0 peer start (encap_to lab 0 inner start)
    × ((encap_to lab 0 inner start).0 ≢ fault)
    × Sendable peer inner (encap_to lab 0 inner start).0
encap_to-Sends_example = encap_to-Sends lab 0 inner start peer 3 refl refl

handle_udp-Upcalls_example :
    if is_known data_packet
    then Upcalls lab data_packet addr start (handle_udp lab data_packet addr start).1.out
    else (handle_udp lab data_packet addr start ≡ (fail, start))
handle_udp-Upcalls_example = handle_udp-Upcalls lab data_packet addr start

abbrev initiation_packet : List ℕ
initiation_packet = 1 ∷ replicate 147 0

handle_initiation-Replies_example :
    let (r, st') = handle_initiation lab initiation_packet addr start in
    Initiated lab initiation_packet addr start r st'
handle_initiation-Replies_example = handle_initiation-Replies lab initiation_packet addr start

abbrev response_packet : List ℕ
response_packet = 2 ∷ 0 ∷ 0 ∷ 0 ∷ 6 ∷ 0 ∷ 0 ∷ 0 ∷ 5 ∷ replicate 83 0

ok-ne : {r : Res (Unit {0})} → r ≡ ok tt → r ≢ fault
ok-ne e = ground arith

held-handle_data_example : (handle_data lab data_packet addr start).1.world ≡ 4
held-handle_data_example =
    held-handle_data lab lab_account data_packet addr start (ok-ne handle_data-handed_example.0)

initiation_ok : (handle_initiation lab initiation_packet addr start).0 ≡ ok tt
unfolding handle_initiation Handshake.matched_peer
initiation_ok = refl

response_ok : (handle_response lab response_packet start).0 ≡ ok tt
unfolding handle_response find_pending Handshake.put_matched
response_ok = refl

start-AreTried : AreTried (peer ∷ [])
unfolding AreTried All
start-AreTried = ground arith

tick-AreTried_example : AreTried (tick lab start).1.session.peers
tick-AreTried_example = tick-AreTried lab start start-AreTried

gives_up_and_starts_example : tries_at lab 0 (tick_peer lab 1000 0 start).1 ≡ some 1
gives_up_and_starts_example =
    gives_up_and_starts lab 1000 0 start peer 3 initiation refl refl refl (omega arith)
      (λ e. ground arith) (omega arith) refl (λ e. ground arith) refl refl refl
