-- ===== src/Crypto/Sha256/Streaming.antt =====
-- `update` in blocks against a reference that takes a byte at a time, and what follows for the hash
-- of a message in pieces.
use aether_stack.Base.{
  ℕ, zero, suc, ◌+◌, ◌-◌, ◌*◌, ◌%◌, ◌^◌, ◌≤◌, ◌<◌, min, ◌≡◌, refl, sym, ap, ◌∙◌, List, [], ◌∷◌,
  ◌++◌, arith, append_assoc, length, length-append, length-take, length-drop, take, drop,
  take-append-drop, ◌==◌, Bool-cases, inl, inr, ==_iff, false,
}
use aether_stack.Crypto.Sha256.{Sha256Ctx, flush, update_loop, update}

-- One byte, with the block compressed when it is full.
feed : Sha256Ctx → ℕ → Sha256Ctx
feed s x = flush (record s { buf = s.buf ++ (x ∷ []) })

feeds : Sha256Ctx → List ℕ → Sha256Ctx
feeds s [] = s
feeds s (x ∷ xs) = feeds (feed s x) xs

feeds-append : (s : Sha256Ctx) (xs ys : List ℕ) → feeds s (xs ++ ys) ≡ feeds (feeds s xs) ys
unfolding feeds
feeds-append s [] ys = refl
feeds-append s (x ∷ xs) ys = feeds-append (feed s x) xs ys

flush_short : (s : Sha256Ctx) → length s.buf < 64 → flush s ≡ s
unfolding flush
flush_short s h = elim (Bool-cases (length s.buf == 64)) [
  | inl e ↦ absurd (omega (arith, (==_iff (length s.buf) 64).0 e))
  | inr e ↦ rw e refl
]

flush_bound : (s : Sha256Ctx) → length s.buf ≤ 64 → length (flush s).buf < 64
unfolding flush
flush_bound s h = elim (Bool-cases (length s.buf == 64)) [
  | inl e ↦ rw e (omega arith)
  | inr e ↦ rw e (below e)
]
  where
    below : (length s.buf == 64) ≡ false → length s.buf < 64
    below e = ground (arith, e, h)

-- Bytes that fit in the block are taken at once.
feeds_block :
    (s : Sha256Ctx) (x : ℕ) (xs : List ℕ)
    → length s.buf + suc (length xs) ≤ 64
    → feeds s (x ∷ xs) ≡ flush (record s { buf = s.buf ++ (x ∷ xs) })
unfolding feeds feed
feeds_block s x [] h = refl
feeds_block s x (y ∷ xs) h =
    let t : Sha256Ctx = record s { buf = s.buf ++ (x ∷ []) } in
    let n = length-append s.buf (x ∷ []) in
    ap (λ u. feeds u (y ∷ xs)) (flush_short t (omega (arith, n, h)))
    ∙ feeds_block t y xs (omega (arith, n, h))
    ∙ ap (λ l. flush (record s { buf = l })) (append_assoc s.buf (x ∷ []) (y ∷ xs))

-- The loop with enough fuel is the reference.
update_loop-feeds :
    (fuel : ℕ) (s : Sha256Ctx) (xs : List ℕ)
    → length s.buf < 64
    → length xs ≤ fuel
    → update_loop fuel s xs ≡ feeds s xs
unfolding update_loop
update_loop-feeds zero s [] b h = unfold feeds in refl
update_loop-feeds zero s (x ∷ xs) b h = absurd (omega arith)
update_loop-feeds (suc fuel) s [] b h = unfold feeds in refl
update_loop-feeds (suc fuel) s (x ∷ xs) b h =
    let n = min (length (x ∷ xs)) (64 - length s.buf) in
    let t : Sha256Ctx = record s { buf = s.buf ++ take n (x ∷ xs) } in
    let size = length-append s.buf (take n (x ∷ xs)) in
    let taken = length-take n (x ∷ xs) in
    update_loop-feeds fuel (flush t) (drop n (x ∷ xs)) (flush_bound t (omega (arith, size, taken)))
      (omega (arith, length-drop n (x ∷ xs)))
    ∙ ap (λ u. feeds u (drop n (x ∷ xs))) (sym (whole (n - 1) n (omega arith) (omega arith)))
    ∙ sym (feeds-append s (take n (x ∷ xs)) (drop n (x ∷ xs)))
    ∙ ap (feeds s) (take-append-drop n (x ∷ xs))
  where
    whole :
        (m n : ℕ)
        → n ≡ suc m
        → n ≤ 64 - length s.buf
        → feeds s (take n (x ∷ xs)) ≡ flush (record s { buf = s.buf ++ take n (x ∷ xs) })
    whole m n e k = rw e (feeds_block s x (take m xs) (omega (arith, e, length-take m xs)))

feeds_bound : (s : Sha256Ctx) (xs : List ℕ) → length s.buf < 64 → length (feeds s xs).buf < 64
unfolding feeds feed
feeds_bound s [] h = h
feeds_bound s (x ∷ xs) h =
    let t : Sha256Ctx = record s { buf = s.buf ++ (x ∷ []) } in
    feeds_bound (flush t) xs (flush_bound t (omega (arith, length-append s.buf (x ∷ []))))

-- The count of bits is no part of what the bytes do.
abbrev counted : Sha256Ctx → ℕ → Sha256Ctx
counted s bits = record s { total_bits = bits }

flush-counted : (s : Sha256Ctx) (bits : ℕ) → flush (counted s bits) ≡ counted (flush s) bits
unfolding flush
flush-counted s bits = elim (Bool-cases (length s.buf == 64)) [
  | inl e ↦ rw e refl
  | inr e ↦ rw e refl
]

feeds-counted :
    (s : Sha256Ctx) (bits : ℕ) (xs : List ℕ) → feeds (counted s bits) xs ≡ counted (feeds s xs) bits
unfolding feeds feed
feeds-counted s bits [] = refl
feeds-counted s bits (x ∷ xs) =
    let t : Sha256Ctx = record s { buf = s.buf ++ (x ∷ []) } in
    ap (λ u. feeds u xs) (flush-counted t bits) ∙ feeds-counted (flush t) bits xs

update_lem :
    (s : Sha256Ctx) (xs : List ℕ)
    → length s.buf < 64
    → update s xs ≡ counted (feeds s xs) ((s.total_bits + length xs * 8) % 2 ^ 64)
unfolding update
update_lem s xs h =
    let bits = (s.total_bits + length xs * 8) % 2 ^ 64 in
    update_loop-feeds (length xs) (counted s bits) xs h (omega arith) ∙ feeds-counted s bits xs

-- A message in two pieces leaves the state that the whole message leaves, wherever the cut is and
-- whatever stood in the buffer before, and the buffer never holds a full block. (It holds less than
-- a block at the start.)
pub update-append :
    (s : Sha256Ctx) (xs ys : List ℕ)
    → length s.buf < 64
    → (update (update s xs) ys ≡ update s (xs ++ ys)) × (length (update s xs).buf < 64)
update-append s xs ys h =
    let bits = (s.total_bits + length xs * 8) % 2 ^ 64 in
    let first = update_lem s xs h in
    let bound = feeds_bound s xs h in
    let n = length-append xs ys in
    let total : (bits + length ys * 8) % 2 ^ 64 ≡ (s.total_bits + length (xs ++ ys) * 8) % 2 ^ 64 =
      omega (arith, n) in
    (
      rw first (
          update_lem (counted (feeds s xs) bits) ys bound
          ∙ ap (λ u. counted u ((bits + length ys * 8) % 2 ^ 64))
              (feeds-counted (feeds s xs) bits ys
                ∙ ap (λ u. counted u bits) (sym (feeds-append s xs ys)))
          ∙ ap (counted (feeds s (xs ++ ys))) total
          ∙ sym (update_lem s (xs ++ ys) h)),
      rw first bound,
    )
