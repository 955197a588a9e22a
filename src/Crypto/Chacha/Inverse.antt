-- ===== src/Crypto/Chacha/Inverse.antt =====
-- The stream of key bytes taken twice gives the data again.
use aether_stack.Base.{
  ℕ, zero, suc, ◌+◌, ◌*◌, ◌≤◌, ◌<◌, min, ◌≡◌, refl, sym, ap, ap₂, ◌∙◌, List, [], ◌∷◌, ◌++◌, arith,
  length, length-append, length-take, length-drop, take, drop, take-append-drop, take-append_full,
  drop-append_full, drop_all, u32,
}
use aether_stack.Base.Bits.{bit_xor_cancel}
use aether_stack.Crypto.Chacha.{
  chacha20_block, out_bytes, start_state, double_rounds, xor_bytes, xor_loop, chacha20_xor,
}

pub length-xor_bytes :
    (bytes ks : List ℕ) → length (xor_bytes bytes ks) ≡ min (length bytes) (length ks)
unfolding xor_bytes
length-xor_bytes [] ks = omega arith
length-xor_bytes (x ∷ bytes) [] = omega arith
length-xor_bytes (x ∷ bytes) (k ∷ ks) = omega (arith, length-xor_bytes bytes ks)

xor_bytes_cancel :
    (bytes ks : List ℕ) → length bytes ≤ length ks → xor_bytes (xor_bytes bytes ks) ks ≡ bytes
unfolding xor_bytes
xor_bytes_cancel [] ks h = refl
xor_bytes_cancel (x ∷ bytes) [] h = absurd (omega arith)
xor_bytes_cancel (x ∷ bytes) (k ∷ ks) h =
    ap₂ ◌∷◌ (bit_xor_cancel x k) (xor_bytes_cancel bytes ks (omega arith))

length-out_bytes : (n i : ℕ) (x st : List ℕ) → length (out_bytes n i x st) ≡ 4 * n
unfolding out_bytes
length-out_bytes zero i x st = omega arith
length-out_bytes (suc n) i x st = omega (arith, length-out_bytes n (i + 1) x st)

length-chacha20_block :
    (key nonce : List ℕ) (counter : ℕ) → length (chacha20_block key nonce counter) ≡ 64
unfolding chacha20_block
length-chacha20_block key nonce counter =
    let st = start_state key nonce counter in length-out_bytes 16 0 (double_rounds 10 st) st

module _ (key nonce : List ℕ) where
  masked : ℕ → List ℕ → List ℕ
  masked ctr bytes = xor_bytes (take 64 bytes) (chacha20_block key nonce ctr)

  length-masked : (ctr : ℕ) (bytes : List ℕ) → length (masked ctr bytes) ≡ min 64 (length bytes)
  length-masked ctr bytes =
      unfold masked in
      omega (
        arith,
        length-xor_bytes (take 64 bytes) (chacha20_block key nonce ctr),
        length-take 64 bytes,
        length-chacha20_block key nonce ctr,
      )

  masked_cancel :
      (ctr : ℕ) (bytes : List ℕ)
      → xor_bytes (masked ctr bytes) (chacha20_block key nonce ctr) ≡ take 64 bytes
  masked_cancel ctr bytes =
      unfold masked in
      xor_bytes_cancel (take 64 bytes) (chacha20_block key nonce ctr)
        (omega (arith, length-take 64 bytes, length-chacha20_block key nonce ctr))

  xor_loop_nil : (fuel ctr : ℕ) → xor_loop fuel key nonce ctr [] ≡ []
  unfolding xor_loop
  xor_loop_nil zero ctr = refl
  xor_loop_nil (suc fuel) ctr = refl

  xor_loop_step :
      (fuel ctr : ℕ) (bytes : List ℕ)
      → xor_loop (suc fuel) key nonce ctr bytes
        ≡ masked ctr bytes ++ xor_loop fuel key nonce (u32 (ctr + 1)) (drop 64 bytes)
  unfolding xor_loop masked
  xor_loop_step fuel ctr [] = sym (xor_loop_nil fuel (u32 (ctr + 1)))
  xor_loop_step fuel ctr (x ∷ bytes) = refl

  -- With as much fuel as there are bytes none is lost.
  length-xor_loop :
      (fuel ctr : ℕ) (bytes : List ℕ)
      → length bytes ≤ fuel
      → length (xor_loop fuel key nonce ctr bytes) ≡ length bytes
  length-xor_loop zero ctr [] h = unfold xor_loop in refl
  length-xor_loop zero ctr (x ∷ bytes) h = absurd (omega arith)
  length-xor_loop (suc fuel) ctr [] h = unfold xor_loop in refl
  length-xor_loop (suc fuel) ctr (x ∷ bytes) h =
      let next = u32 (ctr + 1) in
      let left = drop 64 (x ∷ bytes) in
      rw (xor_loop_step fuel ctr (x ∷ bytes)) (
        omega (
          arith,
          length-append (masked ctr (x ∷ bytes)) (xor_loop fuel key nonce next left),
          length-masked ctr (x ∷ bytes),
          length-drop 64 (x ∷ bytes),
          length-xor_loop fuel next left (omega (arith, length-drop 64 (x ∷ bytes))),
        ))

  -- Behind a block that is not full there is nothing.
  last_block :
      (fuel ctr : ℕ) (bytes : List ℕ)
      → length (masked ctr bytes) < 64
      → xor_loop fuel key nonce (u32 (ctr + 1)) (drop 64 bytes) ≡ []
  last_block fuel ctr bytes h =
      rw (drop_all 64 bytes (omega (arith, length-masked ctr bytes)))
        (xor_loop_nil fuel (u32 (ctr + 1)))

  masked-append :
      (ctr : ℕ) (bytes rest : List ℕ)
      → (length (masked ctr bytes) < 64 → rest ≡ [])
      → masked ctr (masked ctr bytes ++ rest) ≡ take 64 bytes
  masked-append ctr bytes rest h =
      let short : length (masked ctr bytes) ≤ 64 = omega (arith, length-masked ctr bytes) in
      masked_start (masked ctr bytes ++ rest)
      ∙ ap (λ l. xor_bytes l (chacha20_block key nonce ctr))
          (take-append_full 64 (masked ctr bytes) rest short h)
      ∙ masked_cancel ctr bytes
    where
      masked_start :
          (l : List ℕ) → masked ctr l ≡ xor_bytes (take 64 l) (chacha20_block key nonce ctr)
      masked_start l = unfold masked in refl

  xor_loop_cancel :
      (fuel ctr : ℕ) (bytes : List ℕ)
      → length bytes ≤ fuel
      → xor_loop fuel key nonce ctr (xor_loop fuel key nonce ctr bytes) ≡ bytes
  xor_loop_cancel zero ctr [] h = unfold xor_loop in refl
  xor_loop_cancel zero ctr (x ∷ bytes) h = absurd (omega arith)
  xor_loop_cancel (suc fuel) ctr [] h = unfold xor_loop in refl
  xor_loop_cancel (suc fuel) ctr (x ∷ bytes) h =
      let next = u32 (ctr + 1) in
      let block = masked ctr (x ∷ bytes) in
      let rest = xor_loop fuel key nonce next (drop 64 (x ∷ bytes)) in
      let short : length (masked ctr (x ∷ bytes)) ≤ 64 =
        omega (arith, length-masked ctr (x ∷ bytes)) in
      rw
        (
          xor_loop_step fuel ctr (x ∷ bytes),
          xor_loop_step fuel ctr (block ++ rest),
          drop-append_full 64 block rest short (last_block fuel ctr (x ∷ bytes)),
          xor_loop_cancel fuel next (drop 64 (x ∷ bytes))
              (omega (arith, length-drop 64 (x ∷ bytes))),
          masked-append ctr (x ∷ bytes) rest (last_block fuel ctr (x ∷ bytes)),
        )
        (take-append-drop 64 (x ∷ bytes))

-- ChaCha20 decrypts what it encrypts under the same key, nonce and counter, whatever the number of
-- bytes and also where the block counter wraps around.
pub chacha20_xor-chacha20_xor :
    (key nonce : List ℕ) (counter : ℕ) (bytes : List ℕ)
    → chacha20_xor key nonce counter (chacha20_xor key nonce counter bytes) ≡ bytes
unfolding chacha20_xor
chacha20_xor-chacha20_xor key nonce counter bytes =
    rw (length-xor_loop key nonce (length bytes) counter bytes (omega arith))
      (xor_loop_cancel key nonce (length bytes) counter bytes (omega arith))
