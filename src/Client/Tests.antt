-- ===== src/Client/Tests.antt =====
-- Tests of src/wg_core.c.
use polar_wg_app.Common.{
  ℕ, ◌≡◌, refl, Option, some, none, List, [], ◌∷◌, ◌++◌, length, list_eq, true, get_or, drop, ◌==◌,
  if◌then◌else◌, if-cases, arith,
}
use polar_wg_app.Common.Texts.{codes}
use polar_wg_app.Text.{
  c_string, trim, skip_blanks, drop_trailing, tokens, tokens_from, split_first, split_last, atoi,
  strtol, signed_digits, digits_from, skip_spaces,
}
use polar_wg_app.Text.Base64.{decode_base64_32, decode_groups, b64_value}
use polar_wg_app.Session.Samples.{net}
use polar_wg_app.Session.Values
use polar_wg_app.Session.Config.{has_nonzero}
use polar_wg_app.Client.Types.{ClientConfig}
use polar_wg_app.Client.Config
use polar_wg_app.Client.Send
use polar_wg_app.Client.Send.{Sockets, Tx, broken, peer_send}
use polar_wg_app.Client.Send.Socket.{IsKernel}
use polar_wg_app.Client.Send.Destination.{IsSent, peer_send-IsSent}
use polar_wg_app.Client.Config.{load_config}

abbrev sample_file : List ℕ
sample_file =
    codes "[Interface]"
    ++ 0x0a
      ∷ (codes "PrivateKey = AAAAAAAAAAAAAAAAAAAAAAAAAAAAAAAAAAAAAAAAAAA="
          ++ 0x0a
            ∷ (codes "MTU=1420"
                ++ 0x0a
                  ∷ (codes "[Peer]"
                      ++ 0x0a
                        ∷ (codes "PublicKey = AQEBAQEBAQEBAQEBAQEBAQEBAQEBAQEBAQEBAQEBAQE="
                            ++ 0x0a
                              ∷ (codes "Endpoint = h:51820"
                                  ++ 0x0a ∷ codes "AllowedIPs = 10.0.0.0/2, 10.1.0.0/16")))))

abbrev shape : Option ClientConfig → List ℕ
shape none = []
shape (some c) = c.mtu ∷ c.listen_port ∷ length c.peers ∷ []

sample_shape : shape (load_config net (some sample_file)) ≡ 1420 ∷ 0 ∷ 1 ∷ []
unfolding load_config Config.read_lines Config.load_lines Config.load_line Config.open_section
    Config.interface_value Config.peer_value Config.on_current Config.store_value Config.has_key
    Config.any_endpoint Config.parse_allowed_ips Config.add_allowed_ips Config.add_allowed_ip
    Config.skip_list_blanks Config.drop_list_blanks c_string trim skip_blanks drop_trailing tokens
    tokens_from split_first split_last atoi strtol signed_digits digits_from skip_spaces
    decode_base64_32 decode_groups b64_value Values.split_endpoint Values.parse_cidr
    Values.parse_addr has_nonzero list_eq
sample_shape = refl

-- A kernel whose world says where each socket leads; its clock stands at 100, and `send` fails.
abbrev lab : Sockets (ℕ → List ℕ)
lab = record {
  ss_family = λ a. get_or a 0 0;
  af_inet = 2;
  af_inet6 = 30;
  sin_port = λ a. get_or a 1 0;
  sin_addr = λ a. drop 2 a;
  sin6_port = λ a. get_or a 1 0;
  sin6_addr = λ a. drop 2 a;
  socket = λ f w. (some 7, w);
  bind = λ fd f port w. (true, w);
  connect = λ fd a w. (true, λ g. if g == fd then a else w g);
  close = λ fd w. w;
  send = λ fd buf w. (broken, w);
  sendto = λ fd buf a w. (true, w);
  time = λ w. (100, w);
}

abbrev lab_remote : (ℕ → List ℕ) → ℕ → List ℕ
lab_remote w fd = w fd

lab-IsKernel : IsKernel lab lab_remote
lab-IsKernel = record {
  connected = λ fd a w e. if-cases (λ x. x ≡ a) (fd == fd) (λ _. refl) (λ f. absurd (ground arith));
  socket_keeps = λ f w fd. refl;
  send_keeps = λ g b w fd. refl;
  sendto_keeps = λ g b a w fd. refl;
  time_keeps = λ w fd. refl;
}

abbrev ready : Tx (ℕ → List ℕ)
ready = record {
  peer = record {
    endpoint = 2 ∷ 51820 ∷ 10 ∷ 0 ∷ 0 ∷ 1 ∷ [];
    tx_fd = none;
    tx_ep = [];
    tx_err_last = 0;
    tx_retry_at = 0;
    tx_send_errs = 0;
  };
  connected_tx = true;
  bound_port = 51820;
  world = λ fd. [];
  calls = [];
}

sent_twice : length ((peer_send lab 3 (1 ∷ []) ready).1.calls) ≡ 2
unfolding peer_send Send.peer_tx_socket Send.fitting_socket Send.sockaddr_same Send.renew_socket
    Send.open_socket Send.bind_socket Send.connect_socket Send.send_on_socket Send.drop_socket
    Send.send_by_address Send.logged Send.peer_tx_close list_eq
sent_twice = refl

peer_send-IsSent_example : IsSent lab lab_remote 2 (1 ∷ []) ready (peer_send lab 3 (1 ∷ []) ready)
peer_send-IsSent_example = peer_send-IsSent lab lab_remote lab-IsKernel 3 (1 ∷ []) ready tt
