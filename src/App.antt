-- ===== src/App.antt =====
-- stack/app: what the user plane carries.
pub mod U2u
mod Tests
