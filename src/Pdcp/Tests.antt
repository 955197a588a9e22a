-- ===== src/Pdcp/Tests.antt =====
-- Protected PDUs at concrete inputs.
use aether_stack.Base.{
  ℕ, ◌≡◌, refl, sym, ap, ◌∙◌, List, [], ◌∷◌, some, true, arith, drop, take, replicate,
}
use aether_stack.Crypto.Chacha.{chacha20_xor}
use aether_stack.Pdcp.{protect, unprotect, has_integrity}
use aether_stack.Pdcp.Protection.{unprotect-protect}
use aether_stack.Pdcp.Acceptance.{seq_of, unprotect-authentic}

abbrev key : List ℕ
key = replicate 32 7

abbrev sdu : List ℕ
sdu = 1 ∷ 2 ∷ 3 ∷ []

unprotect-protect_example : unprotect key (protect key 0x0102 sdu) ≡ some sdu
unprotect-protect_example = unprotect-protect key 0x0102 sdu

abbrev received : List ℕ
received = 2 ∷ 1 ∷ 0 ∷ 0 ∷ 0 ∷ 0 ∷ 0 ∷ 0 ∷ 153 ∷ 160 ∷ 21 ∷ 16 ∷ 229 ∷ 19 ∷ 160 ∷ []

protect_run : protect key 0x0102 sdu ≡ 3 ∷ received
unfolding protect chacha20_xor aether_stack.Crypto.Hmac.hmac_sha256 aether_stack.Crypto.Chacha.rotl
    aether_stack.Crypto.Chacha.chacha20_block aether_stack.Crypto.Chacha.xor_loop
    aether_stack.Crypto.Sha256.finalise aether_stack.Crypto.Sha256.update
    aether_stack.Crypto.Sha256.init aether_stack.Crypto.Sha256.rotr
    aether_stack.Crypto.Sha256.compress aether_stack.Crypto.Sha256.digest
    aether_stack.Crypto.Sha256.padding
protect_run = refl

received_accepted : unprotect key (3 ∷ received) ≡ some sdu
received_accepted = sym (ap (unprotect key) protect_run) ∙ unprotect-protect key 0x0102 sdu

received_flagged : has_integrity (3 ∷ received) ≡ true
unfolding has_integrity
received_flagged = refl

unprotect-authentic_example : drop 1 (protect key (seq_of (take 8 received)) sdu) ≡ received
unprotect-authentic_example =
    unprotect-authentic key 3 received sdu (omega arith) received_accepted received_flagged
