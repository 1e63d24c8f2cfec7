-- ===== src/Session/Host.antt =====
-- What src/wg_session.c calls and does not implement: the C library, the resolver, and the noise
-- and cookie layers (wg_noise.c, wg_cookie.c). `W` is the state of all of these. Every pointer that
-- they hand out is an address, and a slot stands for the peer at it, or for its cookie maker.
use polar_wg_app.Common.{ℕ, Bool, Option, List}
use polar_wg_app.Session.Types.{Family}

-- Addresses as text, and the fields of a `struct sockaddr_storage`.
pub record Net : Type 0 where
  pub inet_pton : Family → List ℕ → Option (List ℕ)
  pub inet_ntop : Family → List ℕ → Option (List ℕ)
  pub ss_family : List ℕ → Option Family
  pub sin_addr : List ℕ → List ℕ
  pub sin_port : List ℕ → ℕ
  pub sin6_addr : List ℕ → List ℕ
  pub sin6_port : List ℕ → ℕ

-- What `noise_create_initiation` writes.
pub record Initiation : Type 0 where
  pub s_idx : ℕ
  pub ue : List ℕ
  pub es : List ℕ
  pub ets : List ℕ

-- What `noise_create_response` writes.
pub record Response : Type 0 where
  pub s_idx : ℕ
  pub r_idx : ℕ
  pub ue : List ℕ
  pub en : List ℕ

-- A Boolean result is true for success, and `none` is a failure or NULL.
pub record Host : Type 1 where
  pub W : Type 0
  pub time : W → ℕ × W
  pub malloc : ℕ → W → Option ℕ × W
  pub free : ℕ → W → W
  pub calloc_session : W → Option ℕ × W
  pub calloc_node : W → Bool × W
  pub getaddrinfo : List ℕ → ℕ → W → Option (List ℕ) × W
  pub crypto_init : W → Bool × W
  pub crypto_deinit : W → W
  pub local_alloc : W → Option ℕ × W
  pub local_private : ℕ → List ℕ → W → W
  pub local_keys : ℕ → W → Option (List ℕ) × W
  pub local_put : ℕ → W → W
  pub remote_alloc : ℕ → ℕ → List ℕ → W → Option ℕ × W
  pub remote_enable : ℕ → W → Bool × W
  pub remote_disable : ℕ → W → W
  pub remote_put : ℕ → W → W
  pub remote_arg : ℕ → W → Option ℕ
  pub remote_set_psk : ℕ → List ℕ → W → W
  pub create_initiation : ℕ → W → Option Initiation × W
  pub consume_initiation : ℕ → Initiation → W → Option (Option ℕ) × W
  pub create_response : ℕ → W → Option Response × W
  pub consume_response : ℕ → Response → W → Option (Option ℕ) × W
  pub keypair_current : ℕ → W → Option ℕ × W
  pub keypair_lookup : ℕ → ℕ → W → Option ℕ × W
  pub keypair_remote : ℕ → W → Option ℕ × W
  pub keypair_nonce_next : ℕ → W → Option ℕ × W
  pub keypair_encrypt : ℕ → ℕ → List ℕ → W → Option (ℕ × List ℕ) × W
  pub keypair_decrypt : ℕ → ℕ → List ℕ → W → Option (List ℕ) × W
  pub keypair_received_with : ℕ → W → W
  pub keypair_put : ℕ → W → W
  pub maker_init : ℕ → List ℕ → W → W
  pub maker_free : ℕ → W → W
  pub maker_mac : ℕ → List ℕ → W → List ℕ × W
  pub maker_consume : ℕ → List ℕ → List ℕ → W → Bool × W
  pub checker_init : W → W
  pub checker_update : List ℕ → W → W
  pub checker_free : W → W
  pub validate_macs : List ℕ → List ℕ → List ℕ → W → Bool × W
