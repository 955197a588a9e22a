-- ===== src/Pdcp.antt =====
-- stack/pdcp/src/pdcp_entity.cpp and stack/pdcp/include/pdcp/pdcp_entity.h: the plain PDCP header
-- and the protection of an SDU by ChaCha20 and a truncated HMAC. The logged warning is left out.
pub mod Protection
pub mod Acceptance
mod Tests
use aether_stack.Base.{
  ℕ, zero, suc, ◌+◌, ◌-◌, ◌/◌, ◌*◌, ◌^◌, List, [], ◌∷◌, ◌++◌, Option, none, some, Bool, true, false,
  not, ◌&&◌, ◌||◌, bit_and, bit_or, length, get_or, take, drop, replicate, same_bytes, ltb, ◌==◌,
  if◌then◌else◌, u8,
}
use aether_stack.Crypto.Hmac.{hmac_sha256}
use aether_stack.Crypto.Chacha.{chacha20_xor}

abbrev pub pdcp_header_size : ℕ
pdcp_header_size = 2

abbrev pub pdcp_flag_encrypted : ℕ
pdcp_flag_encrypted = 0x01

abbrev pub pdcp_flag_integrity : ℕ
pdcp_flag_integrity = 0x02

abbrev pub sec_header_size : ℕ
sec_header_size = 9

abbrev pub mac_i_size : ℕ
mac_i_size = 4

unfoldable pub tx : List ℕ → List ℕ
tx sdu = 0x00 ∷ 0x00 ∷ sdu

unfoldable pub rx : List ℕ → List ℕ
rx pdu = if ltb (length pdu) pdcp_header_size then [] else drop pdcp_header_size pdu

-- `for i in [i, i + n)`: the bytes of the sequence number.
unfoldable pub seq_bytes : ℕ → ℕ → ℕ → List ℕ
seq_bytes zero i seq = []
seq_bytes (suc n) i seq = u8 (seq / 2 ^ (8 * i)) ∷ seq_bytes n (i + 1) seq

-- Eight bytes, and zeros up to the twelve of a nonce.
unfoldable pub nonce_of : List ℕ → List ℕ
nonce_of bytes = bytes ++ replicate 4 0

unfoldable pub protect : List ℕ → ℕ → List ℕ → List ℕ
unfolding seq_bytes nonce_of
protect key seq sdu =
    let seqs = seq_bytes 8 0 seq in
    let mac_input = seqs ++ chacha20_xor key (nonce_of seqs) 0 sdu in
    bit_or pdcp_flag_encrypted pdcp_flag_integrity
    ∷ (mac_input ++ take mac_i_size (hmac_sha256 key mac_input))

unfoldable pub has_integrity : List ℕ → Bool
has_integrity pdu =
    ltb sec_header_size (length pdu) && not (bit_and (get_or pdu 0 0) pdcp_flag_integrity == 0)

-- The bytes of `pdu` in [from, to).
unfoldable pub slice : ℕ → ℕ → List ℕ → List ℕ
slice from to pdu = take (to - from) (drop from pdu)

-- The test of the MAC, over the sequence number and the ciphertext.
unfoldable pub mac_matches : List ℕ → List ℕ → Bool
unfolding slice
mac_matches key pdu =
    same_bytes (take mac_i_size (hmac_sha256 key (slice 1 (length pdu - mac_i_size) pdu)))
      (drop (length pdu - mac_i_size) pdu)

-- `sdu`, which the caller reads when the code returns true.
unfoldable pub unprotect : List ℕ → List ℕ → Option (List ℕ)
unfolding has_integrity mac_matches slice nonce_of
unprotect key pdu =
    let integrity = has_integrity pdu in
    let min_size = sec_header_size + (if integrity then mac_i_size else 0) in
    let ct_end = if integrity then length pdu - mac_i_size else length pdu in
    if ltb (length pdu) min_size || bit_and (get_or pdu 0 0) pdcp_flag_encrypted == 0
    then none
    else if integrity && not (mac_matches key pdu)
    then none
    else some (
        chacha20_xor key (nonce_of (slice 1 sec_header_size pdu)) 0
          (slice sec_header_size ct_end pdu))
