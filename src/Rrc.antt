-- ===== src/Rrc.antt =====
-- stack/rrc: radio resource control.
pub mod Messages
pub mod Ue
pub mod Bs
pub mod Resume
mod Tests
