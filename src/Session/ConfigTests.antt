-- ===== src/Session/ConfigTests.antt =====
-- Tests of the configuration side of src/wg_session.c: parsing, requests, routes and reports.
use polar_wg_app.Common.{
  ◌≤◌, ℕ, ◌≡◌, ◌≢◌, refl, true, some, List, [], ◌∷◌, ◌++◌, length, take, replicate, arith, All,
  list_eq, replicate,
}
use polar_wg_app.Common.Texts.{codes}
use polar_wg_app.Allowedips
use polar_wg_app.Allowedips.Spec.{bits, Longest}
use polar_wg_app.Text.{
  c_string, trim, skip_blanks, drop_trailing, tokens, tokens_from, split_first, atoi, strtol,
  signed_digits, digits_from, skip_spaces,
}
use polar_wg_app.Text.Hex.{hex_encode, hex_decode, hex_pairs, hex_value, hex_digit}
use polar_wg_app.Session.Types.{inet, Cidr, Session, zero_peer}
use polar_wg_app.Session.Monad.{St, ok, fault}
use polar_wg_app.Session.Values
use polar_wg_app.Text.Base64.{decode_base64_32, decode_groups, b64_value}
use polar_wg_app.Session.Config
use polar_wg_app.Session.Config.{parse_config_text, all_keyed}
use polar_wg_app.Session.Bounds.{PeerFits, PeersFit}
use polar_wg_app.Session.Routes
use polar_wg_app.Session.Routes.{rebuild_aips}
use polar_wg_app.Session.Routes.Owners.{owner, trie_of}
use polar_wg_app.Session.Uapi.{
  set_uapi, set_lines, set_line, set_field, select_peer, peer_field, allowed_ip_field,
}
use polar_wg_app.Session.Uapi.Routing.{set_uapi-Longest}
use polar_wg_app.Session.Uapi.Bounds.{Fits, set_uapi-Fits}
use polar_wg_app.Session.Peers.{find_peer_by_pubkey}
use polar_wg_app.Session.Report.{append_all, get_uapi, uapi_lines}
use polar_wg_app.Session.Report.Truncate.{concat, empty_sink, get_uapi-prefix}
use polar_wg_app.Session.Life
use polar_wg_app.Session.Life.{zero_session, create}
use polar_wg_app.Session.Life.Ready.{AreReady, create-AreReady}
use polar_wg_app.Session.Samples.{lab, net, peer, sess, start}

peer-PeerFits : PeerFits peer
unfolding All
peer-PeerFits = record {
  room = omega arith;
  cidrs = (record { prefix = omega arith; filled = refl }, tt);
}

sess-Fits : PeersFit sess.peers
unfolding All
sess-Fits = record { room = omega arith; peers = (peer-PeerFits, tt) }

-- A request that names the peer, and gives it the prefix 0.
abbrev request : List ℕ
request = codes "public_key=" ++ hex_encode peer.pubkey ++ 0x0a ∷ codes "allowed_ip=10.0.0.0/1"

request_done : (set_uapi net lab request start).0 ≡ ok tt
unfolding set_uapi set_lines set_line set_field select_peer peer_field allowed_ip_field rebuild_aips
    find_peer_by_pubkey hex_decode hex_pairs hex_value tokens tokens_from c_string trim skip_blanks
    drop_trailing split_first list_eq Values.parse_cidr Values.parse_addr atoi strtol signed_digits
    digits_from skip_spaces hex_encode hex_digit
request_done = refl

request_ok : (set_uapi net lab request start).0 ≢ fault
request_ok e = ground (arith, request_done)

request_routed :
    Allowedips.lookup (trie_of inet (set_uapi net lab request start).1.session) (10 ∷ []) ≡ some 0
unfolding set_uapi set_lines set_line set_field select_peer peer_field allowed_ip_field rebuild_aips
    find_peer_by_pubkey hex_decode hex_pairs hex_value tokens tokens_from c_string trim skip_blanks
    drop_trailing split_first list_eq Values.parse_cidr Values.parse_addr atoi strtol signed_digits
    digits_from skip_spaces hex_encode hex_digit Routes.add_peers Routes.add_cidrs Routes.add_cidr
    Routes.fresh_tries Allowedips.init Allowedips.insert Allowedips.insert_at Allowedips.ensure
    Allowedips.bit_at Allowedips.lookup Allowedips.walk
request_routed = refl

set_uapi-Longest_example :
    let s = (set_uapi net lab request start).1.session in
    Longest
      (owner s.peers inet)
      (bits 32 0 (10 ∷ []))
      (Allowedips.lookup (trie_of inet s) (10 ∷ []))
set_uapi-Longest_example =
    set_uapi-Longest net lab (λ w. refl) request start inet (10 ∷ []) (λ e. ground arith) request_ok

start-Fits : Fits start.session.peers
unfolding Fits
start-Fits = sess-Fits

set_uapi-Fits_example : Fits (set_uapi net lab request start).1.session.peers
set_uapi-Fits_example = set_uapi-Fits net lab request start start-Fits

abbrev ten : Cidr
ten = record { family = inet; addr = 10 ∷ replicate 15 0; prefix_len = 2 }

get_uapi-prefix_example :
    (get_uapi net sess 30
      ≡ (take 29 (concat (uapi_lines net sess)), length (concat (uapi_lines net sess))))
    × (length (append_all (uapi_lines net sess) (empty_sink 30)).text ≤ 29)
get_uapi-prefix_example = get_uapi-prefix net sess 30

abbrev config : List ℕ
config =
    codes "[Interface]"
    ++ 0x0a
      ∷ (codes "PrivateKey = AAAAAAAAAAAAAAAAAAAAAAAAAAAAAAAAAAAAAAAAAAA="
          ++ 0x0a
            ∷ (codes "[Peer]"
                ++ 0x0a ∷ codes "PublicKey = AQEBAQEBAQEBAQEBAQEBAQEBAQEBAQEBAQEBAQEBAQE="))

abbrev parsed : Session
parsed = record sess {
  private_key = replicate 32 0;
  peers = peer ∷ record zero_peer { pubkey = replicate 32 1 } ∷ [];
}

abbrev fresh : St ℕ
fresh = record { session = zero_session true true; world = 0; out = [] }

created : (create net lab config fresh).0 ≡ ok 32
unfolding create Life.read_config Life.set_up Life.create_peers Life.create_peer Life.equip_peer
    Life.resolve_peer Life.set_up_checker Life.set_up_tries parse_config_text Config.config_lines
    Config.config_line Config.section_line Config.value_line Config.interface_line Config.peer_line
    Config.on_last Config.has_nonzero all_keyed decode_base64_32 decode_groups b64_value tokens
    tokens_from c_string trim skip_blanks drop_trailing split_first list_eq
created = refl

create-AreReady_example :
    let ps = (create net lab config fresh).1.session.peers in AreReady (length ps) ps
create-AreReady_example = create-AreReady net lab config fresh 32 created
