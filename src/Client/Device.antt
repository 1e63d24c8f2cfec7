-- ===== src/Client/Device.antt =====
-- The tun device of src/wg_core.c: `utun_read` and `utun_write`. The four bytes before a packet are
-- the family of its addresses.
use polar_wg_app.Common.{
  ℕ, ◌-◌, ◌/◌, ◌%◌, ◌^◌, Bool, false, Option, none, some, List, [], ◌∷◌, ◌++◌, ltb, ◌==◌,
  if◌then◌else◌, length, drop,
}
use polar_wg_app.Session.Data.{version}
use polar_wg_app.Client.Types.{wg_buf_max}
use polar_wg_app.Client.Send.{Sockets}
use polar_wg_app.Client.Ctx.{TunnelCtx}

-- How `poll` on the device ends: EINTR, any other error, no packet within its time, an event on the
-- device that is none of reading, or a packet to read.
pub data Polled : Type 0 where
  interrupted : Polled
  poll_error : Polled
  idle : Polled
  hung_up : Polled
  readable : Polled

-- What `recvfrom` gives: a datagram and its sender, EAGAIN, EWOULDBLOCK or EBADF, ECONNREFUSED, or any
-- other error.
pub data Received : Type 0 where
  datagram_from : List ℕ → List ℕ → Received
  drained : Received
  refused : Received
  recv_error : Received

-- The system's calls of the tunnel loop. `read` gives the bytes that it read, and `writev` whether it
-- succeeds for the bytes that it was given. `select` gives the descriptors that are ready among those
-- that it was given, `none` for an error, of which `is_retried` tells whether it is EINTR or EBADF.
pub record Device (W : Type 0) : Type 0 where
  pub read : ℕ → W → Option (List ℕ) × W
  pub writev : ℕ → List ℕ → W → Bool × W
  pub poll : ℕ → W → Polled × W
  pub recvfrom : ℕ → W → Received × W
  pub select : List ℕ → W → Option (List ℕ) × W
  pub is_retried : W → Bool
  pub arc4random_uniform : ℕ → W → ℕ × W

abbrev pub be32 : ℕ → List ℕ
be32 n = n / 2 ^ 24 % 256 ∷ n / 2 ^ 16 % 256 ∷ n / 2 ^ 8 % 256 ∷ n % 256 ∷ []

module _ {W : Type 0} (K : Sockets W) (D : Device W) (utun_fd : ℕ) where
  -- The packet that `utun_read` copies to a buffer of `WG_BUF_MAX` bytes; `none` is the return value -1.
  unfoldable pub packet_read : Option (List ℕ) → Option (List ℕ)
  packet_read none = none
  packet_read (some buf) =
      if ltb (length buf) 4
      then none
      else if ltb wg_buf_max (length buf - 4)
      then none
      else some (drop 4 buf)

  -- `utun_read`
  unfoldable pub utun_read : W → Option (List ℕ) × W
  utun_read w = let (got, w1) = D.read utun_fd w in (packet_read got, w1)

  unfoldable pub framed : List ℕ → List ℕ
  framed pkt = be32 (if version pkt == 6 then K.af_inet6 else K.af_inet) ++ pkt

  -- `utun_write`: whether it returns 0.
  unfoldable pub utun_write : List ℕ → TunnelCtx W → Bool × TunnelCtx W
  utun_write pkt c =
      let (done, w) = D.writev utun_fd (framed pkt) c.world in
      if length pkt == 0
      then (false, c)
      else (done, record c { world = w; tun = framed pkt ∷ c.tun })
