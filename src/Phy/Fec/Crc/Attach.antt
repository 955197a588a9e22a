-- ===== src/Phy/Fec/Crc/Attach.antt =====
-- `crc_verify_strip` accepts exactly the blocks that `crc_attach` makes.
use aether_stack.Base.{
  append-IsBytes, dec_lt, ap₂, get_or-length, get_or-length_next, ℕ, zero, suc, ◌+◌, ◌-◌, ◌*◌, ◌/◌,
  ◌^◌, ◌<◌, ◌≤◌, ◌≡◌, ◌↔◌, refl, sym, ap, ◌∙◌, List, [], ◌∷◌, ◌++◌, bit_and, bit_or, bit_xor, true,
  false, ◌==◌, ==_iff, length, u8, u16, arith, length-append, take-length-append, IsBytes,
}
use aether_stack.Base.Bits.{bit_and_mask, word_of_bytes}
use aether_stack.Phy.Fec.Crc.{
  crc_shift, crc_shifts, crc_byte, crc_from, crc16, crc_attach, crc_verify_strip,
}

pub crc_shift-lt : (crc : ℕ) → crc_shift crc < 2 ^ 16
unfolding crc_shift
crc_shift-lt crc = ground arith

crc_shifts-lt : (n crc : ℕ) → crc < 2 ^ 16 → crc_shifts n crc < 2 ^ 16
unfolding crc_shifts
crc_shifts-lt zero crc h = h
crc_shifts-lt (suc n) crc h = crc_shifts-lt n (crc_shift crc) (crc_shift-lt crc)

pub crc_byte-lt : (crc byte : ℕ) → crc_byte crc byte < 2 ^ 16
unfolding crc_byte
crc_byte-lt crc byte = crc_shifts-lt 8 (u16 (bit_xor crc (u16 (byte * 2 ^ 8)))) (omega arith)

pub crc_from-lt : (bytes : List ℕ) (crc : ℕ) → crc < 2 ^ 16 → crc_from crc bytes < 2 ^ 16
unfolding crc_from
crc_from-lt [] crc h = h
crc_from-lt (b ∷ bytes) crc h = crc_from-lt bytes (crc_byte crc b) (crc_byte-lt crc b)

pub crc16-lt : (bytes : List ℕ) → crc16 bytes < 2 ^ 16
unfolding crc16
crc16-lt bytes = crc_from-lt bytes 0xffff (omega arith)

two_more : (p : List ℕ) (lo hi : ℕ) → length (p ++ lo ∷ hi ∷ []) ≡ suc (suc (length p))
two_more p lo hi = omega (arith, length-append p (lo ∷ hi ∷ []))

sub_two : (n : ℕ) → suc (suc n) - 2 ≡ n
sub_two n = omega arith

sub_one : (n : ℕ) → suc (suc n) - 1 ≡ suc n
sub_one n = omega arith

low_first : (lo hi : ℕ) → lo < 256 → hi < 256 → u16 (bit_or lo (hi * 2 ^ 8)) ≡ hi * 256 + lo
low_first lo hi h k = omega (arith, word_of_bytes lo hi h)

-- A block splits into a payload and two bytes behind it.
pub verify_split :
    (p : List ℕ) (lo hi : ℕ) (old : List ℕ)
    → lo < 256
    → hi < 256
    → crc_verify_strip (p ++ lo ∷ hi ∷ []) old ≡ (crc16 p == hi * 256 + lo, p)
unfolding crc_verify_strip
verify_split p lo hi old h k = rw (two_more p lo hi) (
    rw
      (
        sub_two (length p),
        sub_one (length p),
        take-length-append p (lo ∷ hi ∷ []),
        get_or-length p lo (hi ∷ []) 0,
        get_or-length_next p lo hi [] 0,
        low_first lo hi h k,
      )
      (ground arith))

-- The frame check sequence survives the way into two bytes and back.
pub fcs_bytes :
    (fcs : ℕ) → fcs < 2 ^ 16 → u8 (bit_and (fcs / 2 ^ 8) 0xff) * 256 + u8 (bit_and fcs 0xff) ≡ fcs
fcs_bytes fcs h = omega (arith, bit_and_mask 8 fcs, bit_and_mask 8 (fcs / 2 ^ 8))

pub verify-crc_attach : (p old : List ℕ) → crc_verify_strip (crc_attach p) old ≡ (true, p)
unfolding crc_attach
verify-crc_attach p old =
    verify_split p (u8 (bit_and (crc16 p) 0xff)) (u8 (bit_and (crc16 p / 2 ^ 8) 0xff)) old
      (omega arith) (omega arith)
    ∙ rw (fcs_bytes (crc16 p) (crc16-lt p)) (ground arith)

attach_split :
    (p : List ℕ) (lo hi : ℕ)
    → lo < 256
    → hi < 256
    → crc16 p ≡ hi * 256 + lo
    → p ++ lo ∷ hi ∷ [] ≡ crc_attach p
unfolding crc_attach
attach_split p lo hi h k e =
    ap₂ (λ x y. p ++ x ∷ y ∷ []) (omega (arith, bit_and_mask 8 (crc16 p)))
      (omega (arith, bit_and_mask 8 (crc16 p / 2 ^ 8)))

-- A block of bytes, taken apart from its end.
split_last2 :
    (b : List ℕ)
    → 2 ≤ length b
    → IsBytes b
    → (p : List ℕ) × (lo : ℕ) × (hi : ℕ) × (b ≡ p ++ lo ∷ hi ∷ []) × (lo < 256) × (hi < 256)
split_last2 [] h k = absurd (omega arith)
split_last2 (x ∷ []) h k = absurd (omega arith)
split_last2 (x ∷ y ∷ []) h k = ([], x, y, refl, k.0, k.1.0)
split_last2 (x ∷ y ∷ z ∷ b) h k =
    let r = split_last2 (y ∷ z ∷ b) (omega arith) k.1 in
    (x ∷ r.0, r.1, r.2, ap (◌∷◌ x) r.3, r.4, r.5)

verify_short : (block old : List ℕ) → length block < 2 → crc_verify_strip block old ≡ (false, old)
unfolding crc_verify_strip
verify_short block old h = ground arith

verify_attached :
    (p : List ℕ) (lo hi : ℕ) (payload old : List ℕ)
    → lo < 256
    → hi < 256
    → crc_verify_strip (p ++ lo ∷ hi ∷ []) old ≡ (true, payload)
    → p ++ lo ∷ hi ∷ [] ≡ crc_attach payload
verify_attached p lo hi payload old h k e =
    let split = sym (verify_split p lo hi old h k) ∙ e in
    attach_split p lo hi h k ((==_iff (crc16 p) (hi * 256 + lo)).0 (ap (λ r. r.0) split))
    ∙ ap (λ r. crc_attach r.1) split

verify_accepted :
    (block payload old : List ℕ)
    → IsBytes block
    → crc_verify_strip block old ≡ (true, payload)
    → block ≡ crc_attach payload
verify_accepted block payload old h e = elim (dec_lt (length block) 2) [
  | yes short ↦ cc (ap (λ r. r.0) (sym (verify_short block old short) ∙ e))
  | no long ↦
      let r = split_last2 block (omega arith) h in
      r.3
      ∙ verify_attached r.0 r.1 r.2 payload old r.4 r.5
          (ap (λ b. crc_verify_strip b old) (sym r.3) ∙ e)
]

-- A block of bytes is accepted, with the payload that it carries, exactly when it is what
-- `crc_attach` makes of that payload.
pub crc_verify_strip_iff :
    (block payload old : List ℕ)
    → IsBytes block
    → (crc_verify_strip block old ≡ (true, payload)) ↔ (block ≡ crc_attach payload)
crc_verify_strip_iff block payload old h =
    (verify_accepted block payload old h, λ e. rw e (verify-crc_attach payload old))

pub length-crc_attach : (p : List ℕ) → length (crc_attach p) ≡ length p + 2
unfolding crc_attach
length-crc_attach p = omega (
  arith,
  length-append p (u8 (bit_and (crc16 p) 0xff) ∷ u8 (bit_and (crc16 p / 2 ^ 8) 0xff) ∷ []),
)

pub crc_attach-IsBytes : (p : List ℕ) → IsBytes p → IsBytes (crc_attach p)
unfolding crc_attach
crc_attach-IsBytes p h =
    append-IsBytes p (u8 (bit_and (crc16 p) 0xff) ∷ u8 (bit_and (crc16 p / 2 ^ 8) 0xff) ∷ []) h
      (omega arith)
