-- ===== src/Rlc/Um/Seen.antt =====
-- The sequence numbers that a receiver remembers, while they only grow.
use aether_stack.Base.{
  ℕ, ◌+◌, ◌<◌, ◌≡◌, refl, List, [], ◌∷◌, ◌++◌, some, Bool, true, false, arith, length, drop, ltb,
  ◌==◌, if◌then◌else◌,
}
use aether_stack.Rlc.Um.{insert_seen, bounded}

abbrev pub Below : ℕ → List ℕ → Type 0
Below n [] = Unit {0}
Below n (x ∷ xs) = (x < n) × Below n xs

pub insert_seen-Below :
    (n : ℕ) (xs : List ℕ) → Below n xs → insert_seen xs n ≡ some (xs ++ (n ∷ []))
unfolding insert_seen
insert_seen-Below n [] h = refl
insert_seen-Below n (x ∷ xs) h =
    let other : (x == n) ≡ false = ground (arith, h.0) in
    let behind : ltb n x ≡ false = ground (arith, h.0) in
    rw (other, behind, insert_seen-Below n xs h.1) refl

pub append-Below : (n : ℕ) (xs : List ℕ) → Below n xs → Below (n + 1) (xs ++ (n ∷ []))
append-Below n [] h = omega arith
append-Below n (x ∷ xs) h = (omega (arith, h.0), append-Below n xs h.1)

pub bounded-Below : (n : ℕ) (xs : List ℕ) → Below n xs → Below n (bounded xs)
unfolding bounded
bounded-Below n xs h = by_size (ltb 8192 (length xs))
  where
    tail : (xs : List ℕ) → Below n xs → Below n (drop 1 xs)
    tail [] h = h
    tail (x ∷ xs) h = h.1

    by_size : (b : Bool) → Below n (if b then drop 1 xs else xs)
    by_size true = tail xs h
    by_size false = h
