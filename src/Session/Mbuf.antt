-- ===== src/Session/Mbuf.antt =====
-- src/macos_stubs/sys/mbuf.h: a buffer of one segment. `bytes` is the payload, from `m_data` on for
-- `m_len` bytes, `chunk` and `buf` are the two allocations behind it.
use polar_wg_app.Common.{ℕ, ◌+◌, Option, none, some, List, length}
use polar_wg_app.Session.Host.{Host}

pub record Mbuf : Type 0 where
  pub chunk : ℕ
  pub buf : ℕ
  pub bytes : List ℕ

-- The size of `struct mbuf` on a machine with 64-bit pointers.
abbrev pub mbuf_size : ℕ
mbuf_size = 32

module _ (L : Host) where
  open L use {W, malloc, free}

  -- `m_devget`
  unfoldable pub devget : List ℕ → W → Option Mbuf × W
  devget bytes w =
      let (m, w1) = malloc mbuf_size w in
      elim m [
        | none ↦ (none, w1)
        | some chunk ↦
            let (d, w2) = malloc (length bytes + 64) w1 in
            elim d [
              | none ↦ (none, free chunk w2)
              | some buf ↦ (some (record { chunk = chunk; buf = buf; bytes = bytes }), w2)
            ]
      ]

  -- `m_freem`
  unfoldable pub freem : Mbuf → W → W
  freem m w = free m.chunk (free m.buf w)
