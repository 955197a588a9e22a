-- ===== src/Base/Words.antt =====
-- Machine words: a byte, a 16-bit and a 32-bit word are numbers with their range stated, the
-- casts and the wrapping subtractions are written out.
use Prim.Native.Nat.{ℕ, ◌+◌, ◌-◌, ◌%◌, ◌^◌, ◌<◌}
use mathlib.Core.Bool.{Bool, true, false, ◌&&◌}
use mathlib.Core.List.{List, [], ◌∷◌, ◌++◌}
use mathlib.Core.Path.{◌≡◌, refl, ap₂}
use mathlib.Core.Logic.{inl, inr}
use native.Mathlib.Omega.{arith}
use aether_stack.Base.Tests.{ltb, ◌==◌, ==_iff, Bool-cases}

abbrev pub u8 : ℕ → ℕ
u8 n = n % 2 ^ 8

abbrev pub u16 : ℕ → ℕ
u16 n = n % 2 ^ 16

abbrev pub u32 : ℕ → ℕ
u32 n = n % 2 ^ 32

-- `(uint16_t)(a - b)` and `(uint32_t)(a - b)` of words in range.
abbrev pub sub16 : ℕ → ℕ → ℕ
sub16 a b = (a + 2 ^ 16 - b) % 2 ^ 16

abbrev pub sub32 : ℕ → ℕ → ℕ
sub32 a b = (a + 2 ^ 32 - b) % 2 ^ 32

-- `(int16_t)w >= 0` and `(int32_t)w >= 0`.
abbrev pub nonneg16 : ℕ → Bool
nonneg16 w = ltb w (2 ^ 15)

abbrev pub nonneg32 : ℕ → Bool
nonneg32 w = ltb w (2 ^ 31)

-- Every value of a buffer is a byte.
abbrev pub IsBytes : List ℕ → Type 0
IsBytes [] = Unit {0}
IsBytes (x ∷ xs) = (x < 256) × IsBytes xs

pub append-IsBytes : (xs ys : List ℕ) → IsBytes xs → IsBytes ys → IsBytes (xs ++ ys)
append-IsBytes [] ys h k = k
append-IsBytes (x ∷ xs) ys h k = (h.0, append-IsBytes xs ys h.1 k)

-- A sequence of bits, each in a byte of its own.
abbrev pub AllBits : List ℕ → Type 0
AllBits [] = Unit {0}
AllBits (b ∷ bs) = (b < 2) × AllBits bs

pub append-AllBits : (xs ys : List ℕ) → AllBits xs → AllBits ys → AllBits (xs ++ ys)
append-AllBits [] ys h k = k
append-AllBits (x ∷ xs) ys h k = (h.0, append-AllBits xs ys h.1 k)

-- `memcmp(...) == 0` and the `==` of arrays, vectors and strings.
abbrev pub same_bytes : List ℕ → List ℕ → Bool
same_bytes [] [] = true
same_bytes [] (y ∷ ys) = false
same_bytes (x ∷ xs) [] = false
same_bytes (x ∷ xs) (y ∷ ys) = x == y && same_bytes xs ys

pub same_bytes_self : (xs : List ℕ) → same_bytes xs xs ≡ true
same_bytes_self [] = refl
same_bytes_self (x ∷ xs) = rw ((==_iff x x).1 refl, same_bytes_self xs) refl

pub same_bytes→eq : (xs ys : List ℕ) → same_bytes xs ys ≡ true → xs ≡ ys
same_bytes→eq [] [] h = refl
same_bytes→eq [] (y ∷ ys) h = absurd (ground (arith, h))
same_bytes→eq (x ∷ xs) [] h = absurd (ground (arith, h))
same_bytes→eq (x ∷ xs) (y ∷ ys) h = elim (Bool-cases (x == y)) [
  | inl e ↦ ap₂ ◌∷◌ ((==_iff x y).0 e) (same_bytes→eq xs ys (second e h))
  | inr e ↦ absurd (ground (arith, e, h))
]
  where
    second : (x == y) ≡ true → ((x == y) && same_bytes xs ys) ≡ true → same_bytes xs ys ≡ true
    second e h = ground (arith, e, h)
