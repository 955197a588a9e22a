-- ===== src/Rrc/Resume.antt =====
-- stack/rrc/src/rrc_bs.cpp and stack/rrc/src/rrc_ue.cpp together: a station suspends a UE, which is
-- resumed later.
use aether_stack.Base.{
  ℕ, ◌+◌, ◌*◌, ◌/◌, ◌%◌, ◌^◌, ◌<◌, ◌≡◌, refl, ◌∙◌, List, [], ◌∷◌, some, arith, bit_and, bit_or,
  ◌==◌, lookup, u8, u32,
}
use aether_stack.Base.Bits.{bit_and_mask, bit_or_low}
use aether_stack.Base.Endian.{bytes32}
use aether_stack.Rrc.Messages.{put_word, encode}
use aether_stack.Rrc.Ue.{connected, inactive}
use aether_stack.Rrc.Bs.{
  RrcContext, RrcBs, send_to, parked, is_in_use, suspend_known, suspend_found, suspend_context,
}

byte_of : (x : ℕ) → u8 (bit_and x 0xff) ≡ x % 256
byte_of x = rw (bit_and_mask 8 x) (omega arith)

-- The bytes of a suspension, and of the answer to a resume.
abbrev pub suspension : ℕ → ℕ → List ℕ
suspension rnti seq =
    4 ∷ 7 ∷ 0 ∷ rnti % 256 ∷ rnti / 256 ∷ 1 ∷ seq % 256 ∷ seq / 256 ∷ rnti % 256 ∷ rnti / 256 ∷ []

abbrev pub resumption : ℕ → List ℕ
resumption crnti = 31 ∷ 2 ∷ 0 ∷ crnti % 256 ∷ crnti / 256 ∷ []

module _ (rnti seq : ℕ) (h : rnti < 2 ^ 16) (k : seq < 2 ^ 16) where
  abbrev id : ℕ
  id = rnti * 2 ^ 16 + seq

  id_lem : bit_or (u32 (rnti * 2 ^ 16)) seq ≡ id
  id_lem =
      let whole : u32 (rnti * 2 ^ 16) ≡ rnti * 2 ^ 16 = omega (arith, h) in
      rw whole (bit_or_low 16 rnti seq k)

  byte_0 : u8 (bit_and id 0xff) ≡ seq % 256
  byte_0 = byte_of id ∙ omega arith

  byte_1 : u8 (bit_and (id / 2 ^ 8) 0xff) ≡ seq / 256
  byte_1 = byte_of (id / 2 ^ 8) ∙ omega (arith, k)

  byte_2 : u8 (bit_and (id / 2 ^ 16) 0xff) ≡ rnti % 256
  byte_2 = byte_of (id / 2 ^ 16) ∙ omega (arith, k)

  byte_3 : u8 (bit_and (id / 2 ^ 24) 0xff) ≡ rnti / 256
  byte_3 = byte_of (id / 2 ^ 24) ∙ omega (arith, h, k)

  -- What the station sends and keeps.
  module _ (b : RrcBs) (ctx : RrcContext) (known : lookup ◌==◌ b.ue_contexts rnti ≡ some ctx)
      (in_use : ctx.state ≡ connected) (this : b.next_resume_seq ≡ seq) where
    abbrev kept : RrcContext
    kept = record ctx { state = inactive; resume_id = id }

    sent : (suspend_context b rnti).1 ≡ send_to rnti (suspension rnti seq) ∷ parked rnti ∷ []
    unfolding suspend_context suspend_found suspend_known is_in_use encode put_word bytes32
    sent =
        let low : u8 (bit_and rnti 0xff) ≡ rnti % 256 = byte_of rnti in
        let high : u8 (bit_and (rnti / 2 ^ 8) 0xff) ≡ rnti / 256 =
          byte_of (rnti / 2 ^ 8) ∙ omega (arith, h) in
        rw (known, in_use, this, id_lem) (rw (low, high, byte_0, byte_1, byte_2, byte_3) refl)
