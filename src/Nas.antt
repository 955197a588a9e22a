-- ===== src/Nas.antt =====
-- stack/nas: authentication, the NAS messages and both ends of the attach procedure.
pub mod Aka
pub mod Messages
pub mod Ue
pub mod Bs
pub mod Attach
pub mod Replay
pub mod Moves
pub mod Resync
mod Tests
