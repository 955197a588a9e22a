-- ===== src/Mac/Rach.antt =====
-- stack/mac/include/mac/rach_common.h: random access, what the two ends share. A call of the send
-- or of the state callback is an output, in the order of the calls; logging is left out.
pub mod Ue
pub mod Bs
pub mod Handshake
use aether_stack.Base.{
  ℕ, ◌+◌, ◌*◌, ◌/◌, ◌^◌, List, [], ◌∷◌, ◌++◌, bit_and, bit_or, leb, if◌then◌else◌, u8, u16,
}

unfoldable pub preamble_for_cell : ℕ → ℕ → ℕ
preamble_for_cell base cell_id =
    let half = if leb 2 cell_id then 1 else 0 in u8 (half * 32 + bit_and base 0x1f)

unfoldable pub cell_for_preamble : ℕ → ℕ
cell_for_preamble p = u16 (p / 2 ^ 5 + 1)

unfoldable pub ra_rnti_for_preamble : ℕ → ℕ
ra_rnti_for_preamble p = u16 (bit_or 0x4300 p)

pub data RachMsgType : Type 0 where
  msg1_prach msg2_rar msg3_rrc_req msg4_contention_resolve : RachMsgType

-- The enumerators' values.
abbrev pub msg_byte : RachMsgType → ℕ
msg_byte msg1_prach = 1
msg_byte msg2_rar = 2
msg_byte msg3_rrc_req = 3
msg_byte msg4_contention_resolve = 4

pub data RachState : Type 0 where
  idle wait_rar wait_contention_resolve connected : RachState

pub data Output : Type 0 where
  sends : RachMsgType → List ℕ → Output
  moves : RachState → RachState → Output
  hands_ccch : ℕ → List ℕ → Output

-- `static_cast<uint8_t>(v & 0xFF), static_cast<uint8_t>((v >> 8) & 0xFF)`
abbrev pub le16 : ℕ → List ℕ
le16 v = u8 (bit_and v 0xff) ∷ u8 (bit_and (v / 2 ^ 8) 0xff) ∷ []
