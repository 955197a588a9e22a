-- ===== src/Nas/Aka/Verify.antt =====
-- What the two ends recover from AUTN and AUTS.
use aether_stack.Base.{
  ℕ, zero, suc, ◌/◌, ◌*◌, ◌^◌, ◌%◌, ◌<◌, ◌≤◌, ◌≡◌, refl, sym, ap, ◌∙◌, List, [], ◌∷◌, ◌++◌, none,
  some, bit_and, bit_or, bit_xor, arith, append_assoc, append-nil, length, length-append,
  length-take, take, drop, take-prefix, drop-prefix, same_bytes, same_bytes_self, same_bytes→eq,
  Bool-cases, ◌⊎◌, inl, inr, true, false, if◌then◌else◌, u8,
}
use aether_stack.Base.Bits.{bit_or_low, bit_and_mask, bit_xor_cancel, div-pow_byte_last}
use aether_stack.Crypto.Hmac.{length-hmac_sha256}
use aether_stack.Crypto.Chacha.{xor_bytes}
use aether_stack.Crypto.Chacha.Inverse.{length-xor_bytes}
use aether_stack.Nas.Aka.{
  sqn_mask, amf_bytes, f, sqn_bytes, f5, f1, f2, f5s, f1s, generate, autn, reveal, verify_autn,
  build_auts, verify_auts,
}

length-f : (k : List ℕ) (label : ℕ) (parts : List (List ℕ)) → length (f k label parts) ≡ 32
unfolding f
length-f k label parts = length-hmac_sha256 k _

length-sqn_bytes : (n sqn : ℕ) → length (sqn_bytes n sqn) ≡ n
unfolding sqn_bytes
length-sqn_bytes zero sqn = refl
length-sqn_bytes (suc n) sqn = ap suc (length-sqn_bytes n sqn)

quotient_le : (n p : ℕ) → n / p ≤ n
quotient_le n p = grind arith

-- A byte more of the sequence number.
next_byte :
    (n sqn a : ℕ)
    → sqn < 2 ^ 48
    → bit_or
        (sqn / 2 ^ (8 * suc n) * 2 ^ 8 % 2 ^ 64)
        (u8 (bit_xor (bit_xor (u8 (bit_and (sqn / 2 ^ (8 * n)) 0xff)) a) a))
      ≡ sqn / 2 ^ (8 * n)
next_byte n sqn a h =
    let q = sqn / 2 ^ (8 * n) in
    let small : q < 2 ^ 48 = omega (arith, quotient_le sqn (2 ^ (8 * n))) in
    let high : sqn / 2 ^ (8 * suc n) * 2 ^ 8 % 2 ^ 64 ≡ q / 256 * 2 ^ 8 =
      omega (arith, div-pow_byte_last n sqn, small) in
    let low : u8 (bit_xor (bit_xor (u8 (bit_and q 0xff)) a) a) ≡ q % 256 =
      rw (bit_xor_cancel (u8 (bit_and q 0xff)) a, bit_and_mask 8 q) (omega arith) in
    rw (high, low) (bit_or_low 8 (q / 256) (q % 256) (omega arith) ∙ omega arith)

reveal-sqn_bytes :
    (n sqn : ℕ) (ak : List ℕ)
    → sqn < 2 ^ 48
    → length ak ≡ n
    → reveal (sqn / 2 ^ (8 * n)) (xor_bytes (sqn_bytes n sqn) ak) ak ≡ sqn
unfolding reveal sqn_bytes xor_bytes
reveal-sqn_bytes zero sqn ak h e = omega arith
reveal-sqn_bytes (suc n) sqn [] h e = absurd (omega (arith, e))
reveal-sqn_bytes (suc n) sqn (a ∷ ak) h e =
    ap (λ s. reveal s (xor_bytes (sqn_bytes n sqn) ak) ak) (next_byte n sqn a h)
    ∙ reveal-sqn_bytes n sqn ak h (omega (arith, e))

-- The whole sequence number, behind a mask of 48 bits.
reveal_masked :
    (sqn : ℕ) (ak : List ℕ)
    → length ak ≡ 6
    → reveal 0 (xor_bytes (sqn_bytes 6 (bit_and sqn sqn_mask)) ak) ak ≡ sqn % 2 ^ 48
reveal_masked sqn ak e =
    let s = sqn % 2 ^ 48 in
    let zero_first : s / 2 ^ (8 * 6) ≡ 0 = omega arith in
    ap (λ n. reveal 0 (xor_bytes (sqn_bytes 6 n) ak) ak) (bit_and_mask 48 sqn)
    ∙ ap (λ n. reveal n (xor_bytes (sqn_bytes 6 s) ak) ak) (sym zero_first)
    ∙ reveal-sqn_bytes 6 s ak (omega arith) e

length-f5 : (k rand : List ℕ) → length (f5 k rand) ≡ 6
unfolding f5
length-f5 k rand = omega (arith, length-take 6 (f k 0x05 (rand ∷ [])), length-f k 0x05 (rand ∷ []))

length-f5s : (k rand : List ℕ) → length (f5s k rand) ≡ 6
unfolding f5s
length-f5s k rand = omega (arith, length-take 6 (f k 0x55 (rand ∷ [])), length-f k 0x55 (rand ∷ []))

length-f1 : (k : List ℕ) (sqn : ℕ) (rand amf : List ℕ) → length (f1 k sqn rand amf) ≡ 8
unfolding f1
length-f1 k sqn rand amf =
    let parts = sqn_bytes 6 sqn ∷ rand ∷ amf ∷ [] in
    omega (arith, length-take 8 (f k 0x01 parts), length-f k 0x01 parts)

length-f1s : (k : List ℕ) (sqn : ℕ) (rand amf : List ℕ) → length (f1s k sqn rand amf) ≡ 8
unfolding f1s
length-f1s k sqn rand amf =
    let parts = sqn_bytes 6 sqn ∷ rand ∷ amf ∷ [] in
    omega (arith, length-take 8 (f k 0x51 parts), length-f k 0x51 parts)

length_hidden :
    (sqn : ℕ) (ak : List ℕ) → length ak ≡ 6 → length (xor_bytes (sqn_bytes 6 sqn) ak) ≡ 6
length_hidden sqn ak e =
    omega (arith, length-xor_bytes (sqn_bytes 6 sqn) ak, length-sqn_bytes 6 sqn, e)

-- AUTN in its three fields.
verify_autn_fields :
    (k rand hidden amf mac : List ℕ)
    → length hidden ≡ 6
    → length amf ≡ 2
    → length mac ≡ 8
    → verify_autn k rand (hidden ++ (amf ++ mac)) ≡ (
        let sqn = reveal 0 hidden (f5 k rand) in
        if same_bytes (f1 k sqn rand amf) mac then some sqn else none)
unfolding verify_autn
verify_autn_fields k rand hidden amf mac a b c =
    let first = take-prefix 6 hidden (amf ++ mac) (sym a) in
    let second =
      ap (take 2) (drop-prefix 6 hidden (amf ++ mac) (sym a)) ∙ take-prefix 2 amf mac (sym b) in
    let third : take 8 (drop 8 (hidden ++ (amf ++ mac))) ≡ mac =
      ap (λ l. take 8 (drop 8 l)) (sym (append_assoc hidden amf mac))
      ∙ ap (take 8)
          (drop-prefix 8 (hidden ++ amf) mac (omega (arith, length-append hidden amf, a, b)))
      ∙ ap (take 8) (sym (append-nil mac))
      ∙ take-prefix 8 mac [] (sym c) in
    rw (first, second, third) refl

agreed :
    (g : ℕ → List ℕ) (r s v : ℕ)
    → r ≡ v
    → s ≡ v
    → (if same_bytes (g r) (g s) then some r else none) ≡ some v
agreed g r s v a b = rw (a, b, same_bytes_self (g v)) refl

-- The UE that holds the same key accepts the AUTN of every vector, and recovers the sequence number
-- that the vector was made for, in its 48 bits.
pub verify_autn-generate :
    (k : List ℕ) (sqn : ℕ) (rand : List ℕ)
    → verify_autn k rand (autn (generate k sqn rand)) ≡ some (sqn % 2 ^ 48)
unfolding autn generate
verify_autn-generate k sqn rand =
    let s = bit_and sqn sqn_mask in
    let hidden = xor_bytes (sqn_bytes 6 s) (f5 k rand) in
    verify_autn_fields k rand hidden amf_bytes (f1 k s rand amf_bytes)
      (length_hidden s (f5 k rand) (length-f5 k rand)) refl (length-f1 k s rand amf_bytes)
    ∙ agreed (λ n. f1 k n rand amf_bytes) (reveal 0 hidden (f5 k rand)) s (sqn % 2 ^ 48)
        (reveal_masked sqn (f5 k rand) (length-f5 k rand)) (bit_and_mask 48 sqn)

-- The network that holds the same key accepts the AUTS of the UE, and recovers the sequence number
-- of the UE, in its 48 bits.
pub verify_auts-build_auts :
    (k : List ℕ) (sqn : ℕ) (rand : List ℕ)
    → verify_auts k (build_auts k sqn rand) rand ≡ some (sqn % 2 ^ 48)
unfolding verify_auts build_auts
verify_auts-build_auts k sqn rand =
    let s = bit_and sqn sqn_mask in
    let ak = f5s k rand in
    let hidden = xor_bytes (sqn_bytes 6 s) ak in
    let mac = f1s k s rand amf_bytes in
    let e = length_hidden s ak (length-f5s k rand) in
    let first = take-prefix 6 hidden mac (sym e) in
    let second : take 8 (drop 6 (hidden ++ mac)) ≡ mac =
      ap (take 8) (drop-prefix 6 hidden mac (sym e))
      ∙ ap (take 8) (sym (append-nil mac))
      ∙ take-prefix 8 mac [] (sym (length-f1s k s rand amf_bytes)) in
    rw (first, second)
      (agreed (λ n. f1s k n rand amf_bytes) (reveal 0 hidden ak) s (sqn % 2 ^ 48)
        (reveal_masked sqn ak (length-f5s k rand)) (bit_and_mask 48 sqn))

pub length-f2 : (k rand : List ℕ) → length (f2 k rand) ≡ 16
unfolding f2
length-f2 k rand = omega (arith, length-take 16 (f k 0x02 (rand ∷ [])), length-f k 0x02 (rand ∷ []))

pub length-autn : (k : List ℕ) (sqn : ℕ) (rand : List ℕ) → length (autn (generate k sqn rand)) ≡ 16
unfolding autn generate
length-autn k sqn rand =
    let s = bit_and sqn sqn_mask in
    let hidden = xor_bytes (sqn_bytes 6 s) (f5 k rand) in
    omega (
      arith,
      length-append hidden (amf_bytes ++ f1 k s rand amf_bytes),
      length_hidden s (f5 k rand) (length-f5 k rand),
      length-f1 k s rand amf_bytes,
    )

pub take-autn :
    (k : List ℕ) (sqn : ℕ) (rand : List ℕ)
    → take 6 (autn (generate k sqn rand)) ≡ (generate k sqn rand).sqn_xor_ak
unfolding autn generate
take-autn k sqn rand =
    let s = bit_and sqn sqn_mask in
    let hidden = xor_bytes (sqn_bytes 6 s) (f5 k rand) in
    take-prefix 6 hidden (amf_bytes ++ f1 k s rand amf_bytes)
      (sym (length_hidden s (f5 k rand) (length-f5 k rand)))

pub length-build_auts : (k : List ℕ) (sqn : ℕ) (rand : List ℕ) → length (build_auts k sqn rand) ≡ 14
unfolding build_auts
length-build_auts k sqn rand =
    let s = bit_and sqn sqn_mask in
    let hidden = xor_bytes (sqn_bytes 6 s) (f5s k rand) in
    omega (
      arith,
      length-append hidden (f1s k s rand amf_bytes),
      length_hidden s (f5s k rand) (length-f5s k rand),
      length-f1s k s rand amf_bytes,
    )

-- What an AUTN that is accepted carries: the MAC over the number that the UE recovers.
pub verify_autn-mac :
    (k rand token : List ℕ) (sqn : ℕ)
    → verify_autn k rand token ≡ some sqn
    → (sqn ≡ reveal 0 (take 6 token) (f5 k rand))
      × (take 8 (drop 8 token) ≡ f1 k sqn rand (take 2 (drop 6 token)))
unfolding verify_autn
verify_autn-mac k rand token sqn h =
    let n = reveal 0 (take 6 token) (f5 k rand) in
    let mac = f1 k n rand (take 2 (drop 6 token)) in
    by_test (take 2 (drop 6 token)) n mac (take 8 (drop 8 token)) refl
      (Bool-cases (same_bytes mac (take 8 (drop 8 token)))) h
  where
    by_test :
        (amf : List ℕ) (n : ℕ) (mac given : List ℕ)
        → mac ≡ f1 k n rand amf
        → (same_bytes mac given ≡ true) ⊎ (same_bytes mac given ≡ false)
        → (if same_bytes mac given then some n else none) ≡ some sqn
        → (sqn ≡ n) × (given ≡ f1 k sqn rand amf)
    by_test amf n mac given e (inr bad) h = absurd (clash (rw bad at h))
      where
        clash : none ≡ some sqn → ⊥
        clash c = cc
    by_test amf n mac given e (inl good) h =
        let same : sqn ≡ n = same_some (rw good at h) in
        (same, sym (same_bytes→eq mac given good) ∙ e ∙ ap (λ x. f1 k x rand amf) (sym same))
      where
        same_some : some n ≡ some sqn → sqn ≡ n
        same_some c = cc
