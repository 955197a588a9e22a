-- ===== src/Rlc.antt =====
-- stack/rlc: radio link control.
pub mod Um
pub mod Am
pub mod Tm
mod Tests
