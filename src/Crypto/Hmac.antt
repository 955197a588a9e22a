-- ===== src/Crypto/Hmac.antt =====
-- stack/common/src/crypto.cpp, `hmac_sha256`.
use aether_stack.Base.{
  ℕ, ◌-◌, List, ◌++◌, ◌≡◌, refl, map, bit_xor, ltb, if◌then◌else◌, length, replicate,
}
use aether_stack.Crypto.Sha256.{init, update, finalise, digest, store_be, sha256}

-- The key, or its hash when it is longer than a block, and zeros up to 64 bytes.
unfoldable pub key_block : List ℕ → List ℕ
key_block key =
    let k = if ltb 64 (length key) then sha256 key else key in k ++ replicate (64 - length k) 0

unfoldable pub hmac_sha256 : List ℕ → List ℕ → List ℕ
unfolding key_block
hmac_sha256 key message =
    let ipad = map (λ b. bit_xor b 0x36) (key_block key) in
    let opad = map (λ b. bit_xor b 0x5c) (key_block key) in
    let ih = finalise (update (update init ipad) message) in finalise (update (update init opad) ih)

-- A MAC has the 32 bytes of a digest.
pub length-hmac_sha256 : (key message : List ℕ) → length (hmac_sha256 key message) ≡ 32
unfolding hmac_sha256 finalise digest store_be
length-hmac_sha256 key message = refl
