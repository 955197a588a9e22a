-- ===== src/Crypto.antt =====
-- stack/common/src/crypto.cpp: SHA-256, HMAC and ChaCha20 on 32-bit words. A byte array is a list.
pub mod Sha256
pub mod Hmac
pub mod Chacha
mod Tests
