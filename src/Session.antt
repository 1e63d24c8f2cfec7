-- ===== src/Session.antt =====
-- src/wg_session.c, the I/O-free session: its data, its host, and its operations.
pub mod Types
pub mod Host
pub mod Monad
pub mod Mbuf
pub mod Data
pub mod Handshake
pub mod Timers
pub mod Values
pub mod Config
pub mod Routes
pub mod Peers
pub mod Uapi
pub mod Getters
pub mod Life
pub mod Report
pub mod Bounds
pub mod Balance
pub mod Samples
mod Tests
mod ConfigTests
