-- ===== src/Phy.antt =====
-- stack/phy: the forward error correction.
pub mod Fec
mod Tests
