-- ===== src/Client.antt =====
-- The command-line client src/wg_core.c, as far as it keeps state of its own.
pub mod Types
pub mod Config
pub mod Send
pub mod Ctx
pub mod Tunnel
pub mod Device
pub mod Handshake
pub mod Receive
pub mod Loop
pub mod Balance
pub mod Routes
mod Tests
mod LoopTests
mod RouteTests
