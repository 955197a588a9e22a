-- ===== src/Cn/Messages.antt =====
-- stack/cn/src/cn_messages.cpp and stack/cn/include/cn/cn_messages.h. A type is the byte of its cast.
use aether_stack.Base.{
  ℕ, ◌+◌, ◌/◌, ◌*◌, ◌^◌, min, List, [], ◌∷◌, bit_and, bit_or, length, get_or, take, u8, u16, u32,
}

abbrev pub ng_setup : ℕ
ng_setup = 1

abbrev pub ul_data : ℕ
ul_data = 32

abbrev pub dl_data : ℕ
dl_data = 33

abbrev pub path_switch : ℕ
path_switch = 34

pub record CnMessage : Type 0 where
  pub msg_type : ℕ
  pub value : List ℕ

unfoldable pub encode : CnMessage → List ℕ
encode m =
    let len = u16 (length m.value) in
    m.msg_type ∷ u8 (bit_and len 0xff) ∷ u8 (bit_and (len / 2 ^ 8) 0xff) ∷ m.value

-- A value that is cut short is taken as far as it goes.
unfoldable pub decode : List ℕ → CnMessage
decode [] = record { msg_type = ng_setup; value = [] }
decode (a ∷ []) = record { msg_type = ng_setup; value = [] }
decode (a ∷ b ∷ []) = record { msg_type = ng_setup; value = [] }
decode (a ∷ b ∷ c ∷ bytes) = record {
  msg_type = a;
  value = take (min (bit_or b (c * 2 ^ 8)) (length bytes)) bytes;
}

unfoldable pub put16 : ℕ → List ℕ
put16 x = u8 (bit_and x 0xff) ∷ u8 (bit_and (x / 2 ^ 8) 0xff) ∷ []

unfoldable pub put32 : ℕ → List ℕ
put32 x =
    u8 (bit_and x 0xff)
    ∷ u8 (bit_and (x / 2 ^ 8) 0xff)
    ∷ u8 (bit_and (x / 2 ^ 16) 0xff)
    ∷ u8 (bit_and (x / 2 ^ 24) 0xff)
    ∷ []

unfoldable pub get16 : List ℕ → ℕ → ℕ
get16 v off = u16 (bit_or (get_or v off 0) (get_or v (off + 1) 0 * 2 ^ 8))

unfoldable pub get32 : List ℕ → ℕ → ℕ
get32 v off =
    bit_or
      (bit_or (bit_or (get_or v off 0) (u32 (get_or v (off + 1) 0 * 2 ^ 8)))
        (u32 (get_or v (off + 2) 0 * 2 ^ 16)))
      (u32 (get_or v (off + 3) 0 * 2 ^ 24))
