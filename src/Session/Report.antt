-- ===== src/Session/Report.antt =====
-- `wg_session_get_uapi` of src/wg_session.c, and the accumulator `append_fmt` under it.
pub mod Truncate
use polar_wg_app.Common.{
  ℕ, zero, suc, ◌+◌, ◌-◌, ◌*◌, ◌/◌, ◌%◌, Bool, true, false, not, Option, none, some, List, [], ◌∷◌,
  ◌++◌, ltb, ◌==◌, if◌then◌else◌, length, take, replicate, ℤ, is_positive, to_ℕ, min,
}
use polar_wg_app.Common.Texts.{codes}
use polar_wg_app.Text.Hex.{hex_encode}
use polar_wg_app.Session.Types.{Family, inet, inet6, Cidr, Peer, Session}
use polar_wg_app.Session.Host.{Net}

-- The bytes in the buffer so far, the room left from there, and the length wanted so far.
pub record Sink : Type 0 where
  pub text : List ℕ
  pub cap : ℕ
  pub written : ℕ

-- `append_fmt` for a formatted text: `vsnprintf` writes at most `cap - 1` bytes of it, and a NUL.
unfoldable pub append_fmt : List ℕ → Sink → Sink
append_fmt new s = record {
  text = s.text ++ take (s.cap - 1) new;
  cap = if ltb (length new) s.cap then s.cap - length new else if ltb 0 s.cap then 1 else s.cap;
  written = s.written + length new;
}

unfoldable pub append_all : List (List ℕ) → Sink → Sink
append_all [] s = s
append_all (t ∷ ts) s = append_all ts (append_fmt t s)

-- Decimal digits of a number below 10 ^ k.
unfoldable pub decimal_from : ℕ → ℕ → List ℕ
decimal_from zero n = []
decimal_from (suc k) n =
    let rest = decimal_from k (n / 10) ++ (b'0' + n % 10) ∷ [] in
    if ltb n 10 then (b'0' + n) ∷ [] else rest

-- `%u`, `%llu` and `%lld` of a number that is not negative and below 2 ^ 64.
unfoldable pub decimal : ℕ → List ℕ
decimal n = decimal_from 20 n

abbrev pub line : List ℕ → List ℕ → List ℕ
line key val = key ++ b'=' ∷ (val ++ 0x0a ∷ [])

module _ (N : Net) where
  open N use {inet_ntop, ss_family, sin_addr, sin_port, sin6_addr, sin6_port}

  -- `inet_ntop` into a zeroed buffer.
  abbrev pub addr_text : Family → List ℕ → List ℕ
  addr_text f a = elim (inet_ntop f a) [ none ↦ [] | some t ↦ t ]

  unfoldable pub endpoint_lines : Peer → List (List ℕ)
  endpoint_lines p = if p.endpoint_len == 0 then [] else elim (ss_family p.endpoint) [
    | none ↦ []
    | some inet ↦
        line (codes "endpoint")
          (addr_text inet (sin_addr p.endpoint) ++ b':' ∷ decimal (sin_port p.endpoint))
        ∷ []
    | some inet6 ↦
        line (codes "endpoint") (
          b'['
          ∷ (addr_text inet6 (sin6_addr p.endpoint)
              ++ b']' ∷ b':' ∷ decimal (sin6_port p.endpoint)))
        ∷ []
  ]

  unfoldable pub allowed_lines : List Cidr → List (List ℕ)
  allowed_lines [] = []
  allowed_lines (c ∷ cs) =
      elim (inet_ntop c.family c.addr) [
        | none ↦ []
        | some t ↦ line (codes "allowed_ip") (t ++ b'/' ∷ decimal c.prefix_len) ∷ []
      ]
      ++ allowed_lines cs

  -- The lines about an active peer.
  unfoldable pub peer_lines : Peer → List (List ℕ)
  peer_lines p =
      line (codes "public_key") (hex_encode p.pubkey)
      ∷ line (codes "preshared_key") (if p.has_psk then hex_encode p.psk else replicate 64 b'0')
      ∷ (endpoint_lines p
          ++ (line (codes "last_handshake_time_sec") (decimal p.keypair_birth)
              ++ line (codes "last_handshake_time_nsec") (codes "0"))
            ∷ (line (codes "tx_bytes") (decimal p.tx_bytes)
                ++ line (codes "rx_bytes") (decimal p.rx_bytes))
            ∷ ((if is_positive p.pk_sec
                  then line (codes "persistent_keepalive_interval") (decimal (to_ℕ p.pk_sec)) ∷ []
                  else [])
                ++ (allowed_lines p.allowed ++ line (codes "protocol_version") (codes "1") ∷ [])))

  unfoldable pub peers_lines : List Peer → List (List ℕ)
  peers_lines [] = []
  peers_lines (p ∷ ps) = (if p.active then peer_lines p else []) ++ peers_lines ps

  -- The texts that `wg_session_get_uapi` appends, in order.
  unfoldable pub uapi_lines : Session → List (List ℕ)
  uapi_lines s =
      line (codes "private_key") (codes "none")
      ∷ line (codes "listen_port") (decimal s.listen_port)
      ∷ line (codes "fwmark") (codes "0")
      ∷ (peers_lines s.peers ++ (line (codes "errno") (codes "0") ++ 0x0a ∷ []) ∷ [])

  -- The bytes that `wg_session_get_uapi` leaves in a buffer of `buf_len` bytes, up to the final NUL,
  -- and its return value.
  unfoldable pub get_uapi : Session → ℕ → List ℕ × ℕ
  get_uapi s buf_len =
      let sink = append_all (uapi_lines s) (record { text = []; cap = buf_len; written = 0 }) in
      (take (min (buf_len - 1) sink.written) sink.text, sink.written)
