-- ===== src/Nas/Messages.antt =====
-- stack/nas/src/nas_messages.cpp and stack/nas/include/nas/nas_messages.h. A type is the byte of its
-- cast, which the decoder does not check.
pub mod Codec
use aether_stack.Base.{
  ℕ, ◌+◌, ◌/◌, ◌*◌, ◌^◌, List, [], ◌∷◌, bit_and, bit_or, length, take, leb, if◌then◌else◌, u8, u16,
  u32,
}

abbrev pub attach_request : ℕ
attach_request = 1

abbrev pub attach_accept : ℕ
attach_accept = 2

abbrev pub attach_reject : ℕ
attach_reject = 3

abbrev pub detach : ℕ
detach = 4

abbrev pub auth_request : ℕ
auth_request = 5

abbrev pub auth_response : ℕ
auth_response = 6

abbrev pub auth_failure : ℕ
auth_failure = 7

pub record NasMessage : Type 0 where
  pub msg_type : ℕ
  pub value : List ℕ

unfoldable pub encode : NasMessage → List ℕ
encode msg =
    let len = u16 (length msg.value) in
    msg.msg_type ∷ u8 (bit_and len 0xff) ∷ u8 (bit_and (len / 2 ^ 8) 0xff) ∷ msg.value

unfoldable pub decode : List ℕ → NasMessage
decode [] = record { msg_type = attach_request; value = [] }
decode (a ∷ []) = record { msg_type = attach_request; value = [] }
decode (a ∷ b ∷ []) = record { msg_type = attach_request; value = [] }
decode (a ∷ b ∷ c ∷ bytes) =
    let len = u16 (bit_or b (c * 2 ^ 8)) in
    record { msg_type = a; value = if leb (3 + len) (3 + length bytes) then take len bytes else [] }
