-- ===== src/Core/Harq/Rx/Soft.antt =====
-- The soft buffers of a receiver that is sent frames of `link_encode`'s form. A coded block has 12
-- bits above a multiple of 16, and its frame pads them to a multiple of 16; what is stored has lost
-- the padding, and what arrives still has it.
use aether_stack.Base.{
  ℕ, zero, suc, ◌+◌, ◌*◌, ◌%◌, min, ◌≡◌, ◌⊎◌, inl, inr, refl, List, [], ◌∷◌, ◌++◌, Bool, true,
  false, not, ◌&&◌, ◌||◌, length, get_or, set, take, replicate, ltb, leb, ◌==◌, if◌then◌else◌,
  arith, Bool-cases,
}
use aether_stack.Core.Harq.Wire.{Header, valid_coded_bits, link_decode_bits}
use aether_stack.Core.Harq.Rx.{
  SoftBuf, HarqRx, empty_slot, slot, combines, merged, cleared, grown, remember, after_decode,
  receive_block, reset, is_empty,
}

abbrev pub SlotFits : SoftBuf → Type 0
SlotFits b = (b.bits ≡ []) ⊎ (length b.bits % 16 ≡ 12)

abbrev pub AllFit : List SoftBuf → Type 0
AllFit [] = Unit {0}
AllFit (b ∷ bs) = SlotFits b × AllFit bs

-- A header whose two lengths agree as `link_encode` makes them agree.
abbrev pub Agrees : Header → Type 0
Agrees h = h.len ≡ 2 * h.info_len + 2

set-AllFit :
    (bs : List SoftBuf) (i : ℕ) (b : SoftBuf) → AllFit bs → SlotFits b → AllFit (set bs i b)
set-AllFit [] i b h k = tt
set-AllFit (x ∷ bs) zero b h k = (k, h.1)
set-AllFit (x ∷ bs) (suc i) b h k = (h.0, set-AllFit bs i b h.1 k)

get_or-AllFit : (bs : List SoftBuf) (i : ℕ) → AllFit bs → SlotFits (get_or bs i empty_slot)
get_or-AllFit [] i h = inl refl
get_or-AllFit (x ∷ bs) zero h = h.0
get_or-AllFit (x ∷ bs) (suc i) h = get_or-AllFit bs i h.1

append-AllFit : (xs ys : List SoftBuf) → AllFit xs → AllFit ys → AllFit (xs ++ ys)
append-AllFit [] ys h k = k
append-AllFit (x ∷ xs) ys h k = (h.0, append-AllFit xs ys h.1 k)

replicate-AllFit : (n : ℕ) → AllFit (replicate n empty_slot)
replicate-AllFit zero = tt
replicate-AllFit (suc n) = (inl refl, replicate-AllFit n)

pub reset-AllFit : (s : HarqRx) → AllFit (reset s).soft
unfolding reset
reset-AllFit s = replicate-AllFit 8

grown-AllFit : (soft : List SoftBuf) (proc : ℕ) → AllFit soft → AllFit (grown soft proc)
unfolding grown
grown-AllFit soft proc h = elim (Bool-cases (leb (length soft) proc)) [
  | inl e ↦ rw e (append-AllFit soft _ h (replicate-AllFit _))
  | inr e ↦ rw e h
]

cleared-AllFit : (soft : List SoftBuf) (proc : ℕ) → AllFit soft → AllFit (cleared soft proc)
unfolding cleared
cleared-AllFit soft proc h = set-AllFit soft proc _ h (inl refl)

kept-AllFit :
    (soft : List SoftBuf) (proc : ℕ) (clear : Bool)
    → AllFit soft
    → AllFit (if clear then cleared soft proc else soft)
kept-AllFit soft proc true h = cleared-AllFit soft proc h
kept-AllFit soft proc false h = h

pub remember-AllFit :
    (s : HarqRx) (h : Header) (delivered : Bool) (bits : List ℕ)
    → AllFit s.soft
    → length bits % 16 ≡ 12
    → AllFit (remember s h delivered bits).soft
unfolding remember
remember-AllFit s h true bits fit e = kept-AllFit s.soft h.proc (not (h.ndi == 0) || true) fit
remember-AllFit s h false bits fit e =
    set-AllFit (grown (if not (h.ndi == 0) || false then cleared s.soft h.proc else s.soft) h.proc)
      h.proc _ (grown-AllFit _ h.proc (kept-AllFit s.soft h.proc (not (h.ndi == 0) || false) fit))
      (inr e)

stored_differs :
    (b : SoftBuf) (rx_bits : List ℕ)
    → SlotFits b
    → length rx_bits % 16 ≡ 0
    → (not (is_empty b.bits) && (length b.bits == length rx_bits)) ≡ false
stored_differs b rx_bits (inl e) h = rw e refl
stored_differs b rx_bits (inr e) h =
    rw (unequal (length b.bits) (length rx_bits) e h) (last_false (not (is_empty b.bits)))
  where
    unequal : (m n : ℕ) → m % 16 ≡ 12 → n % 16 ≡ 0 → (m == n) ≡ false
    unequal m n p q = ground arith

    last_false : (a : Bool) → (a && false) ≡ false
    last_false a = ground arith

-- Stored bits never have the length of arriving bits.
combines_never :
    (s : HarqRx) (h : Header) (rx_bits : List ℕ)
    → AllFit s.soft
    → length rx_bits % 16 ≡ 0
    → combines s h rx_bits ≡ false
unfolding combines
combines_never s h rx_bits fit e =
    rw (stored_differs (slot s h.proc) rx_bits (get_or-AllFit s.soft h.proc fit) e)
      (last_false (h.ndi == 0) (ltb h.proc (length s.soft)))
  where
    last_false : (a b : Bool) → (a && (b && false)) ≡ false
    last_false a b = ground arith

-- A coded block, received with its padding, is decoded by itself and stored without it.
pub receive_block_alone :
    (s : HarqRx) (h : Header) (rx_bits : List ℕ)
    → AllFit s.soft
    → length rx_bits ≡ 16 * h.info_len + 16
    → receive_block s h rx_bits
      ≡ after_decode s h
          (take (16 * h.info_len + 12) rx_bits)
          (link_decode_bits (take (16 * h.info_len + 12) rx_bits) h.info_len [])
unfolding receive_block merged
receive_block_alone s h rx_bits fit e =
    rw (combines_never s h rx_bits fit (omega (arith, e)), trimmed h rx_bits e) refl
  where
    trimmed :
        (g : Header) (rx : List ℕ)
        → length rx ≡ 16 * g.info_len + 16
        → min (length rx) (valid_coded_bits g) ≡ 16 * g.info_len + 12
    trimmed g rx k = unfold valid_coded_bits in omega (arith, k)
