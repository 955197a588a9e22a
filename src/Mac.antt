-- ===== src/Mac.antt =====
-- stack/mac: the logical channels, the MAC PDU codec and random access.
pub mod Lcid
pub mod Pdu
pub mod Rach
mod Tests
