-- ===== src/Pdcp/Acceptance.antt =====
-- Which PDUs `unprotect` accepts: with the integrity flag only what the key holder makes, without
-- it everything.
use aether_stack.Base.{
  same_bytes, same_bytes→eq, ℕ, zero, suc, ◌+◌, ◌-◌, ◌*◌, ◌/◌, ◌%◌, ◌^◌, ◌≤◌, ◌≡◌, refl, sym, ap,
  ap₂, ◌∙◌, List, [], ◌∷◌, ◌++◌, none, some, true, false, arith, bit_and, length, append_assoc, ◌⊎◌,
  length-take, length-drop, take, drop, take-append-drop, ◌==◌, if◌then◌else◌, Bool-cases, inl, inr,
  u8, IsBytes,
}
use aether_stack.Base.Bits.{div-pow_byte}
use aether_stack.Crypto.Hmac.{hmac_sha256}
use aether_stack.Crypto.Chacha.{chacha20_xor}
use aether_stack.Crypto.Chacha.Inverse.{chacha20_xor-chacha20_xor}
use aether_stack.Pdcp.{mac_i_size, seq_bytes, nonce_of, protect, has_integrity, unprotect}
use aether_stack.Pdcp.Protection.{unprotect-sealed}

-- The number that bytes spell, the lowest first.
unfoldable pub seq_of : List ℕ → ℕ
seq_of [] = 0
seq_of (b ∷ bytes) = b + seq_of bytes * 256

seq_bytes_next : (n i seq : ℕ) → seq_bytes n (i + 1) seq ≡ seq_bytes n i (seq / 256)
unfolding seq_bytes
seq_bytes_next zero i seq = refl
seq_bytes_next (suc n) i seq = ap₂ ◌∷◌ (ap u8 (div-pow_byte i seq)) (seq_bytes_next n (i + 1) seq)

seq_bytes-seq_of :
    (bytes : List ℕ) → IsBytes bytes → seq_bytes (length bytes) 0 (seq_of bytes) ≡ bytes
unfolding seq_bytes seq_of
seq_bytes-seq_of [] h = refl
seq_bytes-seq_of (b ∷ bytes) h =
    let low : (b + seq_of bytes * 256) / 2 ^ (8 * 0) % 2 ^ 8 ≡ b = omega (arith, h.0) in
    let high : (b + seq_of bytes * 256) / 256 ≡ seq_of bytes = omega (arith, h.0) in
    ap₂ ◌∷◌ low (
      seq_bytes_next (length bytes) 0 (b + seq_of bytes * 256)
      ∙ ap (seq_bytes (length bytes) 0) high
      ∙ seq_bytes-seq_of bytes h.1)

take-IsBytes : (n : ℕ) (xs : List ℕ) → IsBytes xs → IsBytes (take n xs)
take-IsBytes zero xs h = omega arith
take-IsBytes (suc n) [] h = h
take-IsBytes (suc n) (x ∷ xs) h = (h.0, take-IsBytes n xs h.1)

-- What the three fields of an accepted PDU are.
module _ (key : List ℕ) (flags : ℕ) (rest sdu : List ℕ) where
  enough :
      unprotect key (flags ∷ rest) ≡ some sdu
      → has_integrity (flags ∷ rest) ≡ true
      → 12 ≤ length rest
  unfolding unprotect
  enough h i = ground (arith, i, h)

  encrypted : unprotect key (flags ∷ rest) ≡ some sdu → (bit_and flags 1 == 0) ≡ false
  unfolding unprotect
  encrypted h = elim (Bool-cases (bit_and flags 1 == 0)) [
    | inl e ↦ absurd (ground (arith, e, h))
    | inr e ↦ e
  ]

  flagged : has_integrity (flags ∷ rest) ≡ true → (bit_and flags 2 == 0) ≡ false
  unfolding has_integrity
  flagged i = ground (arith, i)

  -- The bytes behind the flags are the header's, the ciphertext and the MAC.
  abbrev seqs : List ℕ
  seqs = take 8 rest

  abbrev ct : List ℕ
  ct = take (length rest - 12) (drop 8 rest)

  abbrev mac : List ℕ
  mac = drop (length rest - 12) (drop 8 rest)

  fields : rest ≡ (seqs ++ ct) ++ mac
  fields = sym (
      append_assoc seqs ct mac
      ∙ ap (λ l. seqs ++ l) (take-append-drop (length rest - 12) (drop 8 rest))
      ∙ take-append-drop 8 rest)

  from_mac :
      (same_bytes (take mac_i_size (hmac_sha256 key (seqs ++ ct))) mac ≡ true)
        ⊎ (same_bytes (take mac_i_size (hmac_sha256 key (seqs ++ ct))) mac ≡ false)
      → (if same_bytes (take mac_i_size (hmac_sha256 key (seqs ++ ct))) mac
          then some (chacha20_xor key (nonce_of seqs) 0 ct)
          else none)
        ≡ some sdu
      → (take mac_i_size (hmac_sha256 key (seqs ++ ct)) ≡ mac)
        × (chacha20_xor key (nonce_of seqs) 0 ct ≡ sdu)
  from_mac (inl e) h =
      (same_bytes→eq (take mac_i_size (hmac_sha256 key (seqs ++ ct))) mac e, ground (arith, e, h))
  from_mac (inr e) h = absurd (ground (arith, e, h))

  accepted :
      unprotect key (flags ∷ rest) ≡ some sdu
      → has_integrity (flags ∷ rest) ≡ true
      → (take mac_i_size (hmac_sha256 key (seqs ++ ct)) ≡ mac)
        × (chacha20_xor key (nonce_of seqs) 0 ct ≡ sdu)
  accepted h i =
      let k = enough h i in
      let h8 : length seqs ≡ 8 = omega (arith, length-take 8 rest, k) in
      let h4 : length mac ≡ 4 =
        omega (arith, length-drop (length rest - 12) (drop 8 rest), length-drop 8 rest, k) in
      from_mac (Bool-cases (same_bytes (take mac_i_size (hmac_sha256 key (seqs ++ ct))) mac)) (
        sym (unprotect-sealed flags seqs ct mac h8 h4 key (encrypted h) (flagged i))
        ∙ sym (ap (λ l. unprotect key (flags ∷ l)) fields)
        ∙ h)

-- What is accepted with the integrity flag is, behind the flags, exactly the PDU that the holder of
-- the key makes of the SDU that is returned, under the sequence number that it carries: no other
-- ciphertext and no other MAC is accepted. (The PDU is a list of bytes.)
pub unprotect-authentic :
    (key : List ℕ) (flags : ℕ) (rest sdu : List ℕ)
    → IsBytes rest
    → unprotect key (flags ∷ rest) ≡ some sdu
    → has_integrity (flags ∷ rest) ≡ true
    → drop 1 (protect key (seq_of (take 8 rest)) sdu) ≡ rest
unfolding protect
unprotect-authentic key flags rest sdu bytes h i =
    let made : List ℕ → List ℕ → List ℕ =
      λ l c. (l ++ c) ++ take mac_i_size (hmac_sha256 key (l ++ c)) in
    let s = seqs key flags rest sdu in
    let c = ct key flags rest sdu in
    let k = enough key flags rest sdu h i in
    let e = accepted key flags rest sdu h i in
    let h8 : length s ≡ 8 = omega (arith, length-take 8 rest, k) in
    let same : seq_bytes 8 0 (seq_of s) ≡ s =
      ap (λ n. seq_bytes n 0 (seq_of s)) (sym h8)
      ∙ seq_bytes-seq_of s (take-IsBytes 8 rest bytes) in
    let cipher : chacha20_xor key (nonce_of s) 0 sdu ≡ c =
      ap (chacha20_xor key (nonce_of s) 0) (sym e.1)
      ∙ chacha20_xor-chacha20_xor key (nonce_of s) 0 c in
    ap (λ l. made l (chacha20_xor key (nonce_of l) 0 sdu)) same
    ∙ ap (made s) cipher
    ∙ ap (λ l. (s ++ c) ++ l) e.0
    ∙ sym (fields key flags rest sdu)
