-- ===== src/Rrc/Messages.antt =====
-- stack/rrc/src/rrc_messages.cpp, stack/rrc/include/rrc/rrc_messages.h and the types of rrc_types.h. A
-- type is the byte of its cast, which the decoder does not check; a character is its byte.
pub mod RoundTrip
use aether_stack.Base.{
  ℕ, ◌+◌, ◌/◌, ◌*◌, ◌^◌, List, [], ◌∷◌, ◌++◌, bit_and, bit_or, length, get_or, take, ltb, leb, ◌==◌,
  if◌then◌else◌, u8, u16,
}

abbrev pub setup_request : ℕ
setup_request = 1

abbrev pub setup : ℕ
setup = 2

abbrev pub setup_complete : ℕ
setup_complete = 3

abbrev pub release_type : ℕ
release_type = 4

abbrev pub mib_broadcast : ℕ
mib_broadcast = 10

abbrev pub sib1_broadcast : ℕ
sib1_broadcast = 11

abbrev pub reestablishment_request : ℕ
reestablishment_request = 23

abbrev pub reestablishment_ok : ℕ
reestablishment_ok = 24

abbrev pub reestablishment_failure : ℕ
reestablishment_failure = 25

abbrev pub resume_request : ℕ
resume_request = 30

abbrev pub resume_ok : ℕ
resume_ok = 31

abbrev pub resume_failure : ℕ
resume_failure = 32

pub record Mib : Type 0 where
  pub sfn : ℕ
  pub dl_bandwidth : ℕ
  pub phich_config : ℕ

pub record Sib1 : Type 0 where
  pub plmn_id : List ℕ
  pub tac : ℕ
  pub cell_id : ℕ

pub record RrcMessage : Type 0 where
  pub msg_type : ℕ
  pub value : List ℕ

-- A 16-bit word as two bytes, and two bytes as a word.
unfoldable pub put_word : ℕ → List ℕ
put_word x = u8 (bit_and x 0xff) ∷ u8 (bit_and (x / 2 ^ 8) 0xff) ∷ []

unfoldable pub get_word : List ℕ → ℕ → ℕ
get_word bytes pos = u16 (bit_or (get_or bytes pos 0) (get_or bytes (pos + 1) 0 * 2 ^ 8))

unfoldable pub encode_mib : Mib → List ℕ
unfolding put_word
encode_mib mib = mib_broadcast ∷ put_word mib.sfn ++ mib.dl_bandwidth ∷ mib.phich_config ∷ []

unfoldable pub decode_mib : List ℕ → Mib
unfolding get_word
decode_mib bytes =
    if ltb (length bytes) 5
    then record { sfn = 0; dl_bandwidth = 50; phich_config = 0 }
    else record {
      sfn = get_word bytes 1;
      dl_bandwidth = get_or bytes 3 0;
      phich_config = get_or bytes 4 0;
    }

unfoldable pub encode_sib1 : Sib1 → List ℕ
unfolding put_word
encode_sib1 sib1 =
    sib1_broadcast ∷ (sib1.plmn_id ++ 0 ∷ (put_word sib1.tac ++ put_word sib1.cell_id))

-- The bytes that the loop appends to the name.
unfoldable pub name_of : List ℕ → List ℕ
name_of [] = []
name_of (c ∷ bytes) = let rest = name_of bytes in if c == 0 then [] else c ∷ rest

-- The bytes that are left behind the loop and the zero that ends it.
unfoldable pub behind_name : List ℕ → List ℕ
behind_name [] = []
behind_name (c ∷ bytes) = let rest = behind_name bytes in if c == 0 then bytes else rest

unfoldable pub sib1_of : List ℕ → List ℕ → Sib1
unfolding get_word
sib1_of name rest =
    if ltb 3 (length rest)
    then record { plmn_id = name; tac = get_word rest 0; cell_id = get_word rest 2 }
    else record { plmn_id = name; tac = 1; cell_id = 1 }

unfoldable pub decode_sib1 : List ℕ → Sib1
unfolding sib1_of name_of behind_name
decode_sib1 [] = record { plmn_id = []; tac = 1; cell_id = 1 }
decode_sib1 (t ∷ bytes) =
    if ltb (1 + length bytes) 7
    then record { plmn_id = []; tac = 1; cell_id = 1 }
    else sib1_of (name_of bytes) (behind_name bytes)

unfoldable pub encode : RrcMessage → List ℕ
unfolding put_word
encode msg = msg.msg_type ∷ put_word (u16 (length msg.value)) ++ msg.value

unfoldable pub decode : List ℕ → RrcMessage
decode [] = record { msg_type = setup_request; value = [] }
decode (a ∷ []) = record { msg_type = setup_request; value = [] }
decode (a ∷ b ∷ []) = record { msg_type = setup_request; value = [] }
decode (a ∷ b ∷ c ∷ bytes) =
    let len = u16 (bit_or b (c * 2 ^ 8)) in
    record { msg_type = a; value = if leb (3 + len) (3 + length bytes) then take len bytes else [] }

unfoldable pub generate_mib : ℕ → Mib
generate_mib sfn = record { sfn = sfn; dl_bandwidth = 50; phich_config = 0 }

unfoldable pub generate_sib1 : Sib1
generate_sib1 = record { plmn_id = 0x34 ∷ 0x36 ∷ 0x30 ∷ 0x30 ∷ 0x31 ∷ []; tac = 1; cell_id = 1 }
