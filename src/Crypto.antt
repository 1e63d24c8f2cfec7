-- ===== src/Crypto.antt =====
-- src/wg_crypto_impl.c: ChaCha20, Poly1305 and the AEAD made of them.
pub mod Bits
pub mod Bytes
pub mod Chacha
pub mod Poly
pub mod Aead
pub mod Dispatch
mod Tests
