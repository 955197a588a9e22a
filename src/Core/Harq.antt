-- ===== src/Core/Harq.antt =====
-- stack/core/src/harq.cpp: the link reliability layer. `Wire` is the frame format and the coding of a
-- transport block, `Link` its round trip; `Rx` is the receiver and `Tx` the transmitter.
pub mod Wire
pub mod Link
pub mod Rx
pub mod Tx
