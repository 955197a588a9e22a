-- ===== src/Lib.antt =====
-- AetherStack is a small mobile radio stack: a terminal (UE) and a base station (BS), each of which
-- sends a transport block down through RLC, PDCP, MAC and HARQ to a physical layer, and a core
-- network behind the base station. This library models the parts below and proves what makes them
-- correct. The parts meet as in the code: HARQ calls the CRC, the convolutional code and the bit
-- order of the physical layer, the nodes hand random access messages to the two ends of MAC, and the
-- bearer scheduler uses the logical channels of MAC. NAS derives a session key by AKA at both ends,
-- and PDCP protects the user plane with it; both call the cryptography.
--
-- Files and code:
--   Phy/Fec: stack/phy/src/fec.cpp. BitOrder is bytes_to_bits_fec and bits_to_bytes_fec, Crc is
--     crc16, crc_attach and crc_verify_strip, Trellis the tables and fec_encode, Viterbi fec_decode.
--     The decoder's metrics are native numbers with the code's `inf`; the theorems keep the number of
--     received pairs below 2 ^ 29, where no `int` of the code overflows.
--   Mac/Lcid, Mac/Pdu: stack/mac/include/mac/mac_pdu.h and stack/mac/src/mac_pdu.cpp. The parser runs
--     on as much fuel as the PDU has bytes; each round takes two bytes or ends, so that is enough.
--   Mac/Rach: stack/mac/include/mac/rach_common.h; Mac/Rach/Ue is stack/mac/src/rach_ue.cpp,
--     Mac/Rach/Bs is stack/mac/src/rach_bs.cpp. Callbacks are outputs, in the order of the calls.
--     Mac/Rach/Handshake has the dispatch of their messages in stack/core/src/ue_node.cpp and
--     stack/core/src/bs_node.cpp, and composes the two ends.
--   Rlc/Um: stack/rlc/src/rlc_um.cpp and stack/rlc/include/rlc/rlc_um.h. deliver_ready has a round of
--     fuel for each PDU held, and each round takes one out.
--   Rlc/Am: stack/rlc/src/rlc_am.cpp and stack/rlc/include/rlc/rlc_am.h. Tx is the class AmTx, Rx the
--     class AmRx. The loop of drain_reorder has a round of fuel for each PDU held.
--   Crypto: stack/common/src/crypto.cpp. Sha256 has the streaming context; its loop of update has a
--     round of fuel for each byte and takes at least one, and the padding loop has 64 rounds and needs
--     no more than 63. Hmac and Chacha are the keyed hash and the stream cipher; xor_loop has a round
--     for each byte and takes up to 64.
--   Pdcp: stack/pdcp/src/pdcp_entity.cpp, on top of Crypto.
--   Nas: stack/nas. Aka is src/aka.cpp, on top of Crypto; Messages is src/nas_messages.cpp, Ue is
--     src/nas_ue.cpp and Bs is src/nas_bs.cpp with its header. Attach composes the two ends: what one
--     sends is what the other takes next. Moves is the machine of the three states; Moves/History says
--     in terms of the history alone when a UE is registered.
--   Rlc/Tm: stack/rlc/src/rlc_tm.cpp.
--   Cn: stack/cn. Messages is src/cn_messages.cpp with its header, Upf is src/upf.cpp, on a table of
--     routes. The specification in Upf/Routing knows only the history of messages.
--   Rrc: stack/rrc. Messages is src/rrc_messages.cpp with its header, Ue is src/rrc_ue.cpp and
--     Bs is src/rrc_bs.cpp; their callbacks are outputs. Ue/History and Bs/Keys are any sequence of
--     calls and messages; Resume puts a station and a UE together.
--   App/U2u: stack/app/src/u2u.cpp and its header, on the media kinds of Core/Qos.
--   Core/Harq: stack/core/src/harq.cpp and stack/core/include/core/harq.h. Wire is the header and the
--     link codec, Tx the class HarqTx, Rx the class HarqRx. Tx.run and Rx.History.run are sequences of
--     calls on one object. An exception is a constructor of the result. The padding loop of
--     link_encode has eight rounds of fuel, and it never needs more than seven.
--   Core/Frames: stack/core/src/radio_frames.cpp.
--   Core/Qos: stack/core/include/core/qos.h, the channel maps and the scheduler BearerSet.
--   Core/Timers: stack/core/src/timer_list.cpp; a callback is a number, and what it does to the list
--     when it runs is an argument of the tick.
--   Base: lists, words of a fixed width and bitwise operations, shared by all.
--
-- Bytes and words are native numbers; what the code narrows is taken modulo 2 ^ 8, 2 ^ 16, 2 ^ 32 or
-- 2 ^ 64. A send callback is a list of what it is called with. The order in which a hash map of the
-- C++ library is run through and the numbers of its random source are arguments.
--
-- Not modelled: logging and the strings made for it; the sample processing of stack/phy (frame, ofdm,
-- qam, qpsk, sync, phy_io), which is floating-point; the AMF, the test application of
-- stack/app/src/app_layer.cpp, and the orchestration in the nodes; sockets and the programs' main
-- functions.
pub mod Base
pub mod Mac
pub mod Phy
pub mod Core
pub mod Rlc
pub mod Crypto
pub mod Pdcp
pub mod Nas
pub mod Cn
pub mod Rrc
pub mod App
