-- ===== src/Crypto/Tests.antt =====
-- Published vectors and runs at concrete inputs.
use aether_stack.Base.{
  ℕ, ◌+◌, ◌%◌, ◌≤◌, ◌<◌, ◌≡◌, refl, List, [], ◌∷◌, ◌++◌, arith, length, take, replicate,
}
use aether_stack.Crypto.Sha256.{Sha256Ctx, init, update, padding, finalise, sha256}
use aether_stack.Crypto.Sha256.Padding.{padding-ends}
use aether_stack.Crypto.Sha256.Streaming.{update-append}
use aether_stack.Crypto.Chacha.{chacha20_block, chacha20_xor}
use aether_stack.Crypto.Chacha.Inverse.{chacha20_xor-chacha20_xor}

-- FIPS 180-2, the digest of "abc".
sha256_abc :
    sha256 (0x61 ∷ 0x62 ∷ 0x63 ∷ [])
    ≡ 0xba ∷ 0x78 ∷ 0x16 ∷ 0xbf ∷ 0x8f ∷ 0x01 ∷ 0xcf ∷ 0xea ∷ 0x41 ∷ 0x41 ∷ 0x40 ∷ 0xde ∷ 0x5d
      ∷ 0xae ∷ 0x22 ∷ 0x23 ∷ 0xb0 ∷ 0x03 ∷ 0x61 ∷ 0xa3 ∷ 0x96 ∷ 0x17 ∷ 0x7a ∷ 0x9c ∷ 0xb4 ∷ 0x10
      ∷ 0xff ∷ 0x61 ∷ 0xf2 ∷ 0x00 ∷ 0x15 ∷ 0xad ∷ []
unfolding sha256 init update padding finalise aether_stack.Crypto.Sha256.compress
    aether_stack.Crypto.Sha256.digest
sha256_abc = refl

-- RFC 8439, 2.3.2: the first bytes of the key stream for the key 0, 1, …, 31.
block_vector :
    take 16 (
      chacha20_block
        (0 ∷ 1 ∷ 2 ∷ 3 ∷ 4 ∷ 5 ∷ 6 ∷ 7 ∷ 8 ∷ 9 ∷ 10 ∷ 11 ∷ 12 ∷ 13 ∷ 14 ∷ 15 ∷ 16 ∷ 17 ∷ 18 ∷ 19
          ∷ 20 ∷ 21 ∷ 22 ∷ 23 ∷ 24 ∷ 25 ∷ 26 ∷ 27 ∷ 28 ∷ 29 ∷ 30 ∷ 31 ∷ [])
        (0 ∷ 0 ∷ 0 ∷ 9 ∷ 0 ∷ 0 ∷ 0 ∷ 0x4a ∷ 0 ∷ 0 ∷ 0 ∷ 0 ∷ [])
        1)
    ≡ 0x10 ∷ 0xf1 ∷ 0xe7 ∷ 0xe4 ∷ 0xd1 ∷ 0x3b ∷ 0x59 ∷ 0x15 ∷ 0x50 ∷ 0x0f ∷ 0xdd ∷ 0x1f ∷ 0xa3
      ∷ 0x20 ∷ 0x71 ∷ 0xc4 ∷ []
unfolding chacha20_block aether_stack.Crypto.Chacha.rotl
block_vector = refl

abbrev key : List ℕ
key = replicate 32 7

abbrev nonce : List ℕ
nonce = replicate 12 3

abbrev long_message : List ℕ
long_message = replicate 70 0x41

chacha20_xor-chacha20_xor_example :
    chacha20_xor key nonce 0xffffffff (chacha20_xor key nonce 0xffffffff long_message)
    ≡ long_message
chacha20_xor-chacha20_xor_example = chacha20_xor-chacha20_xor key nonce 0xffffffff long_message

padding-ends_example : ((60 + length (padding 60 480)) % 64 ≡ 0) × (length (padding 60 480) ≤ 72)
padding-ends_example = padding-ends 60 480 (omega arith)

abbrev half_full : Sha256Ctx
half_full = record { h = (init).h; total_bits = 240; buf = replicate 30 5 }

update-append_example :
    (update (update half_full long_message) key ≡ update half_full (long_message ++ key))
    × (length (update half_full long_message).buf < 64)
update-append_example = update-append half_full long_message key (omega arith)
