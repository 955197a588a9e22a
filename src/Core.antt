-- ===== src/Core.antt =====
-- stack/core: the air frames, HARQ, the bearer scheduler and the timer list.
pub mod Frames
pub mod Harq
pub mod Qos
pub mod Timers
mod Tests
