-- ===== src/Phy/Fec.antt =====
-- stack/phy/src/fec.cpp: bit order, CRC16, the convolutional encoder and the Viterbi decoder, one
-- child module for each and further children for their proofs.
pub mod BitOrder
pub mod Crc
pub mod Trellis
pub mod Viterbi
