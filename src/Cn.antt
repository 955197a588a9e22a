-- ===== src/Cn.antt =====
-- stack/cn: the core network.
pub mod Messages
pub mod Upf
mod Tests
