-- ===== src/Lib.antt =====
-- polar-wg-app: the userland WireGuard session library of src/ (wg_session.c with allowedips.c), which
-- the network extensions of the app drive, its portable cryptography, and parts of
-- the programs around it.
--
-- The program's parts, and the files that model them:
-- - src/allowedips.c, the trie from prefixes to peers: Allowedips.antt, one function per C function
--   (`aips_` left out), over a parameter `calloc`. Allowedips/Spec.antt holds the map from prefixes
--   to peers that a trie stands for.
-- - src/wg_session.c, the session: Session.antt and its children. Session/Types.antt has `struct
--   wg_session` and its parts, Session/Monad.antt the calls that change it. Data.antt is the data
--   plane (`wgs_encap`, `wgs_handle_data`), Handshake.antt the handshake messages, Timers.antt the
--   entry points `wg_session_handle_udp`, `wg_session_handle_tun`, `wg_session_tick` and
--   `wg_session_kick`. Values.antt and Config.antt are `parse_config_text`, Peers.antt, Routes.antt and
--   Uapi.antt are `wg_session_set_uapi`, Report.antt is `wg_session_get_uapi`, Getters.antt the accessors
--   and Life.antt `wg_session_create` and `wg_session_destroy`.
-- - The texts that both sides of the configuration use: Text.antt (`wgs_trim`, and the C string functions
--   that are called), Text/Base64.antt and Text/Hex.antt.
-- - src/wgctl.c, the control tool: Wgctl.antt has its base64 encoder and the names of its files,
--   Wgctl/Commands.antt the commands `cmd_genkey`, `cmd_pubkey`, `cmd_genpsk`, `cmd_up` and `cmd_down`, and
--   Wgctl/Show.antt `cmd_show` and `main`, over parameters for the system's calls. Messages to stderr are
--   left out, and what `read` gives on the status socket is a finite list of pieces.
-- - src/wg_core.c, the command-line client: Client/Config.antt is `load_config`, Client/Send.antt the sockets
--   that datagrams leave by (`peer_tx_socket`, `peer_send`), over a parameter for the system's calls.
--   Client/Ctx.antt is `tunnel_ctx`, Client/Tunnel.antt `wg_encap` and the timers (`tunnel_tick`),
--   Client/Device.antt the tun device, Client/Handshake.antt and Client/Receive.antt what happens to a
--   datagram (`rx_handle_datagram`), and Client/Loop.antt `tx_handle_packet` and the rounds of
--   `run_tunnel` and `tx_thread_main`. Client/Balance.antt and its children count references.
--   Client/Routes.antt is `utun_configure` with the routes of the system, over a parameter for `system`.
-- - src/macos_stubs/sys/callout.h, the timer under the cookie layer: Callout.antt.
-- - src/wg_crypto_impl.c, the portable cryptography: Crypto/Chacha.antt (ChaCha20 and HChaCha20),
--   Crypto/Poly.antt (Poly1305 with limbs of 26 bits), Crypto/Aead.antt (the AEAD and the buffer API) and
--   Crypto/Dispatch.antt (`crypto_dispatch`). Crypto/Bits.antt has the laws of C's bit operations, and
--   Crypto/Poly/Mac.antt the MAC of RFC 8439 by arithmetic on numbers, which the limbs are held against.
-- Common.antt and its children hold names, lists, tests and integers that the others share.
--
-- How the state corresponds: a peer pointer is the index of its slot in `peers`, NULL is `none`, an array
-- with its count is the list of the entries in use, and a C string is the list of its bytes without the
-- NUL. A function of the session takes a state (the session, the state of its host, the upcalls made so
-- far) and returns a result and a state: `ok` with a value, `fail` for -1 with whatever was changed up to
-- there, and `fault` where the C code follows a NULL pointer.
--
-- Parameters: the record `Net` (inet_pton, inet_ntop and the fields of a socket address) and the record
-- `Host` (the allocator, the clock, the resolver, and the noise and cookie layers of wg_noise.c and
-- wg_cookie.c, which are copies of FreeBSD's), and in the client the records
-- `Sockets` (the system's calls on sockets and the clock) and `Device` (the tun device, `select`,
-- `recvfrom` and random numbers). The record `Account` in Session/Balance.antt states how
-- those calls change the number of references and allocations that are out.
--
-- The two threads of the client take turns by whole rounds of their loops, and words are stored as on a little-endian machine. Lengths of C
-- type `int` or `size_t` are lengths of lists, so neither negative nor beyond 2 ^ 64.
--
-- Loops are structural recursion on lists or numbers. `decimal` has room for 20 digits, enough for any
-- number below 2 ^ 64. The loops of `chacha20_xor`, `poly1305_update` and the reference MAC run on fuel,
-- as much as the buffer has bytes; each round takes at least one. The
-- loops of `run_tunnel` that drain a descriptor stop after 64 reads, as the code does, and that of
-- `tx_thread_main` after 4096. A negative difference of two times is 0, which fails the same tests.
--
-- Not modelled: log lines, `wg_session_status`, `wg_session_peer_handshake_age`, the noise and cookie
-- files, the FreeBSD driver with wg_crypto.c, curve25519_portable.c, the clearing of keys on the stack,
-- `main`, the status texts, the runtime files and the post-up hook of wg_core.c, and the Windows files.
pub mod Common
pub mod Allowedips
pub mod Text
pub mod Session
pub mod Wgctl
pub mod Callout
pub mod Crypto
pub mod Client
