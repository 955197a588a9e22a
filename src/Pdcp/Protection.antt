-- ===== src/Pdcp/Protection.antt =====
-- What `unprotect` makes of the PDUs of `protect`, and what it accepts.
use aether_stack.Base.{
  ℕ, zero, suc, ◌+◌, ◌-◌, ◌≡◌, refl, sym, ap, ◌∙◌, List, ◌∷◌, ◌++◌, Option, none, some, Bool, true,
  false, not, arith, append_assoc, same_bytes, same_bytes_self, take-prefix, drop-prefix, bit_and,
  length, length-append, length-take, take, drop, ltb, lt→ltb, ◌==◌, if◌then◌else◌,
}
use aether_stack.Crypto.Hmac.{hmac_sha256, length-hmac_sha256}
use aether_stack.Crypto.Chacha.{chacha20_xor}
use aether_stack.Crypto.Chacha.Inverse.{chacha20_xor-chacha20_xor}
use aether_stack.Pdcp.{
  mac_i_size, seq_bytes, nonce_of, protect, has_integrity, slice, mac_matches, unprotect,
}

length-seq_bytes : (n i seq : ℕ) → length (seq_bytes n i seq) ≡ n
unfolding seq_bytes
length-seq_bytes zero i seq = refl
length-seq_bytes (suc n) i seq = ap suc (length-seq_bytes n (i + 1) seq)

length-mac : (key bytes : List ℕ) → length (take mac_i_size (hmac_sha256 key bytes)) ≡ 4
length-mac key bytes =
    omega (arith, length-take 4 (hmac_sha256 key bytes), length-hmac_sha256 key bytes)

abbrev pub sealed : ℕ → List ℕ → List ℕ → List ℕ → List ℕ
sealed flags seqs ct mac = flags ∷ ((seqs ++ ct) ++ mac)

-- The fields of a PDU with a MAC.
module _ (flags : ℕ) (seqs ct mac : List ℕ) (h8 : length seqs ≡ 8) (h4 : length mac ≡ 4) where
  length-pdu : length (sealed flags seqs ct mac) ≡ length ct + 13
  length-pdu = omega (arith, length-append (seqs ++ ct) mac, length-append seqs ct, h8, h4)

  mac-input :
      slice 1 (length (sealed flags seqs ct mac) - mac_i_size) (sealed flags seqs ct mac)
      ≡ seqs ++ ct
  mac-input = rw length-pdu (
      unfold slice in
      take-prefix (length ct + 13 - 4 - 1) (seqs ++ ct) mac
        (omega (arith, length-append seqs ct, h8)))

  mac-last : drop (length (sealed flags seqs ct mac) - mac_i_size) (sealed flags seqs ct mac) ≡ mac
  mac-last =
      rw (length-pdu, shape)
        (drop-prefix (length ct + 8) (seqs ++ ct) mac (omega (arith, length-append seqs ct, h8)))
    where
      shape : length ct + 13 - mac_i_size ≡ suc (length ct + 8)
      shape = omega arith

  seqs-first : slice 1 9 (sealed flags seqs ct mac) ≡ seqs
  seqs-first =
      unfold slice in rw (append_assoc seqs ct mac) (take-prefix 8 seqs (ct ++ mac) (sym h8))

  ct-middle :
      slice 9 (length (sealed flags seqs ct mac) - mac_i_size) (sealed flags seqs ct mac) ≡ ct
  ct-middle = rw length-pdu (
      unfold slice in
      rw (append_assoc seqs ct mac, drop-prefix 8 seqs (ct ++ mac) (sym h8))
        (take-prefix (length ct + 13 - 4 - 9) ct mac (omega arith)))

  flagged : (bit_and flags 2 == 0) ≡ false → has_integrity (sealed flags seqs ct mac) ≡ true
  flagged h =
      unfold has_integrity in
      rw ((lt→ltb 9 (length (sealed flags seqs ct mac)) (omega (arith, length-pdu)))) (rw h refl)

  -- The result, by the test of the MAC.
  pub unprotect-sealed :
      (key : List ℕ)
      → (bit_and flags 1 == 0) ≡ false
      → (bit_and flags 2 == 0) ≡ false
      → unprotect key (sealed flags seqs ct mac) ≡ (
          if same_bytes (take mac_i_size (hmac_sha256 key (seqs ++ ct))) mac
          then some (chacha20_xor key (nonce_of seqs) 0 ct)
          else none)
  unfolding unprotect mac_matches
  unprotect-sealed key e i =
      let long : ltb (length (sealed flags seqs ct mac)) 13 ≡ false = ground (arith, length-pdu) in
      rw (flagged i, ct-middle, seqs-first, mac-input, mac-last)
        (rw (long, e)
          (by_mac (same_bytes (take mac_i_size (hmac_sha256 key (seqs ++ ct))) mac)
            (some (chacha20_xor key (nonce_of seqs) 0 ct))))
    where
      by_mac :
          (b : Bool) (o : Option (List ℕ)) → (if not b then none else o) ≡ (if b then o else none)
      by_mac true o = refl
      by_mac false o = refl

-- An SDU of any length, protected under any key and sequence number, is unprotected under the same
-- key: the code returns true and gives exactly that SDU.
pub unprotect-protect :
    (key : List ℕ) (seq : ℕ) (sdu : List ℕ) → unprotect key (protect key seq sdu) ≡ some sdu
unfolding protect
unprotect-protect key seq sdu =
    let seqs = seq_bytes 8 0 seq in
    let ct = chacha20_xor key (nonce_of seqs) 0 sdu in
    let mac = take mac_i_size (hmac_sha256 key (seqs ++ ct)) in
    unprotect-sealed 3 seqs ct mac (length-seq_bytes 8 0 seq) (length-mac key (seqs ++ ct)) key refl
      refl
    ∙ accepted mac ct seqs
    ∙ ap some (chacha20_xor-chacha20_xor key (nonce_of seqs) 0 sdu)
  where
    accepted :
        (mac ct seqs : List ℕ)
        → (if same_bytes mac mac then some (chacha20_xor key (nonce_of seqs) 0 ct) else none)
          ≡ some (chacha20_xor key (nonce_of seqs) 0 ct)
    accepted mac ct seqs = rw (same_bytes_self mac) refl
