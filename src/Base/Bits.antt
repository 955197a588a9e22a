-- ===== src/Base/Bits.antt =====
-- Masks, disjoint unions and parities of binary digits at every width, by one law for the lowest
-- digit of each bit operation.
use Prim.Native.Nat.{
  differ, bit_xor, bit_xor-bitwise, ℕ, zero, suc, ◌+◌, ◌-◌, ◌*◌, ◌/◌, ◌%◌, ◌^◌, ◌≤◌, ◌<◌, min, max,
  bit_and, bit_or, digits, bitwise, bit_and-bitwise, bit_or-bitwise,
}
use mathlib.Core.Path.{◌≡◌, refl, ap, ◌∙◌, sym}
use mathlib.Core.Bool.{Bool, true, ◌&&◌}
use native.Mathlib.Nat.{pow-suc, div-div-eq-div-mul, mul_comm}
use native.Mathlib.Omega.{arith}
use aether_stack.Base.Tests.{◌==◌, ==_iff}

module _ (z : ℕ → ℕ) (f : ℕ → ℕ → ℕ) where
  -- Any count of digits that covers the first number gives the same result.
  digits-eq-digits : (n m a b : ℕ) → a ≤ n → a ≤ m → digits z f n a b ≡ digits z f m a b
  digits-eq-digits zero zero a b h k = refl
  digits-eq-digits zero (suc m) zero b h k = refl
  digits-eq-digits zero (suc m) (suc a) b h k = absurd (omega arith)
  digits-eq-digits (suc n) zero zero b h k = refl
  digits-eq-digits (suc n) zero (suc a) b h k = absurd (omega arith)
  digits-eq-digits (suc n) (suc m) zero b h k = refl
  digits-eq-digits (suc n) (suc m) (suc a) b h k =
      rw (digits-eq-digits n m (suc a / 2) (b / 2) (omega arith) (omega arith))

  bitwise_lowest :
      ((b : ℕ) → z b ≡ z (b / 2) * 2 + f 0 (b % 2))
      → (a b : ℕ) → bitwise z f a b ≡ bitwise z f (a / 2) (b / 2) * 2 + f (a % 2) (b % 2)
  bitwise_lowest base zero b = base b
  bitwise_lowest base (suc a) b =
      omega (arith, digits-eq-digits a (suc a / 2) (suc a / 2) (b / 2) (omega arith) (omega arith))

pub bit_and_lowest : (a b : ℕ) → bit_and a b ≡ bit_and (a / 2) (b / 2) * 2 + min (a % 2) (b % 2)
bit_and_lowest a b = simp bit_and-bitwise (bitwise_lowest (λ y. 0) min (λ y. omega arith) a b)

pub bit_or_lowest : (a b : ℕ) → bit_or a b ≡ bit_or (a / 2) (b / 2) * 2 + max (a % 2) (b % 2)
bit_or_lowest a b = simp bit_or-bitwise (bitwise_lowest (λ y. y) max (λ y. omega arith) a b)

pub bit_xor_lowest : (a b : ℕ) → bit_xor a b ≡ bit_xor (a / 2) (b / 2) * 2 + differ (a % 2) (b % 2)
bit_xor_lowest a b = simp bit_xor-bitwise (bitwise_lowest (λ y. y) differ (λ y. omega arith) a b)

differ-lt : (x y : ℕ) → x < 2 → y < 2 → differ x y < 2
differ-lt zero y h k = k
differ-lt (suc zero) zero h k = omega arith
differ-lt (suc zero) (suc zero) h k = omega arith
differ-lt (suc zero) (suc (suc y)) h k = absurd (omega arith)
differ-lt (suc (suc x)) y h k = absurd (omega arith)

differ_cancel : (x y : ℕ) → x < 2 → y < 2 → differ (differ x y) y ≡ x
differ_cancel zero zero h k = refl
differ_cancel zero (suc zero) h k = refl
differ_cancel (suc zero) zero h k = refl
differ_cancel (suc zero) (suc zero) h k = refl
differ_cancel zero (suc (suc y)) h k = absurd (omega arith)
differ_cancel (suc zero) (suc (suc y)) h k = absurd (omega arith)
differ_cancel (suc (suc x)) y h k = absurd (omega arith)

pub bit_xor_half : (a b : ℕ) → bit_xor a b / 2 ≡ bit_xor (a / 2) (b / 2)
bit_xor_half a b =
    omega (arith, bit_xor_lowest a b, differ-lt (a % 2) (b % 2) (omega arith) (omega arith))

pub bit_xor_parity : (a b : ℕ) → bit_xor a b % 2 ≡ differ (a % 2) (b % 2)
bit_xor_parity a b =
    omega (arith, bit_xor_lowest a b, differ-lt (a % 2) (b % 2) (omega arith) (omega arith))

bit_xor_cancel_le : (n a b : ℕ) → a ≤ n → b ≤ n → bit_xor (bit_xor a b) b ≡ a
bit_xor_cancel_le zero zero zero h k = refl
bit_xor_cancel_le zero zero (suc b) h k = absurd (omega arith)
bit_xor_cancel_le zero (suc a) b h k = absurd (omega arith)
bit_xor_cancel_le (suc n) a b h k =
    bit_xor_lowest (bit_xor a b) b
    ∙ rw
        (
          bit_xor_half a b,
          bit_xor_parity a b,
          bit_xor_cancel_le n (a / 2) (b / 2) (omega arith) (omega arith),
          differ_cancel (a % 2) (b % 2) (omega arith) (omega arith),
        )
        (omega arith)

pub bit_xor_cancel : (a b : ℕ) → bit_xor (bit_xor a b) b ≡ a
bit_xor_cancel a b = bit_xor_cancel_le (a + b) a b (omega arith) (omega arith)

bit_and-zero_le : (n a : ℕ) → a ≤ n → bit_and a 0 ≡ 0
bit_and-zero_le n zero h = refl
bit_and-zero_le zero (suc a) h = absurd (omega arith)
bit_and-zero_le (suc n) (suc a) h =
    omega (arith, bit_and_lowest (suc a) 0, bit_and-zero_le n (suc a / 2) (omega arith))

bit_or-zero_le : (n a : ℕ) → a ≤ n → bit_or a 0 ≡ a
bit_or-zero_le n zero h = refl
bit_or-zero_le zero (suc a) h = absurd (omega arith)
bit_or-zero_le (suc n) (suc a) h =
    omega (arith, bit_or_lowest (suc a) 0, bit_or-zero_le n (suc a / 2) (omega arith))

pub bit_and-zero : (a : ℕ) → bit_and a 0 ≡ 0
bit_and-zero a = bit_and-zero_le a a (omega arith)

pub bit_or-zero : (a : ℕ) → bit_or a 0 ≡ a
bit_or-zero a = bit_or-zero_le a a (omega arith)

pub pow_pos : (k : ℕ) → 0 < 2 ^ k
pow_pos zero = omega arith
pow_pos (suc k) = omega (arith, pow-suc 2 k, pow_pos k)

double_field : (q k : ℕ) → q * 2 ^ suc k ≡ q * 2 ^ k * 2
double_field q k = omega (arith, ap (λ (t : ℕ). q * t) (pow-suc 2 k))

-- `x << k` united with a value of `k` bits is their sum.
pub bit_or_low : (k q r : ℕ) → r < 2 ^ k → bit_or (q * 2 ^ k) r ≡ q * 2 ^ k + r
bit_or_low zero q r h = ground (arith, bit_or-zero q)
bit_or_low (suc k) q r h =
    ground (
      arith,
      bit_or_lowest (q * 2 ^ suc k) r,
      double_field q k,
      pow-suc 2 k,
      bit_or_low k q (r / 2),
    )

bit_and_low : (k q r : ℕ) → r < 2 ^ k → bit_and (q * 2 ^ k + r) (2 ^ k - 1) ≡ r
bit_and_low zero q r h = rw bit_and-zero (omega arith)
bit_and_low (suc k) q r h = ground (
  arith,
  bit_and_lowest (q * 2 ^ suc k + r) (2 ^ suc k - 1),
  double_field q k,
  pow-suc 2 k,
  bit_and_low k q (r / 2),
)

-- A mask of `k` low ones is the remainder.
pub bit_and_mask : (k a : ℕ) → bit_and a (2 ^ k - 1) ≡ a % 2 ^ k
bit_and_mask k a = ground (arith, pow_pos k, bit_and_low k (a / 2 ^ k) (a % 2 ^ k))

bit_or_comm_le : (n a b : ℕ) → a ≤ n → b ≤ n → bit_or a b ≡ bit_or b a
bit_or_comm_le zero zero zero h k = refl
bit_or_comm_le zero zero (suc b) h k = absurd (omega arith)
bit_or_comm_le zero (suc a) b h k = absurd (omega arith)
bit_or_comm_le (suc n) a b h k = omega (
  arith,
  bit_or_lowest a b,
  bit_or_lowest b a,
  bit_or_comm_le n (a / 2) (b / 2) (omega arith) (omega arith),
)

pub bit_or_comm : (a b : ℕ) → bit_or a b ≡ bit_or b a
bit_or_comm a b = bit_or_comm_le (a + b) a b (omega arith) (omega arith)

differ_comm : (x y : ℕ) → x < 2 → y < 2 → differ x y ≡ differ y x
differ_comm zero zero h k = refl
differ_comm zero (suc zero) h k = refl
differ_comm (suc zero) zero h k = refl
differ_comm (suc zero) (suc zero) h k = refl
differ_comm zero (suc (suc y)) h k = absurd (omega arith)
differ_comm (suc zero) (suc (suc y)) h k = absurd (omega arith)
differ_comm (suc (suc x)) y h k = absurd (omega arith)

bit_xor_comm_le : (n a b : ℕ) → a ≤ n → b ≤ n → bit_xor a b ≡ bit_xor b a
bit_xor_comm_le zero zero zero h k = refl
bit_xor_comm_le zero zero (suc b) h k = absurd (omega arith)
bit_xor_comm_le zero (suc a) b h k = absurd (omega arith)
bit_xor_comm_le (suc n) a b h k = omega (
  arith,
  bit_xor_lowest a b,
  bit_xor_lowest b a,
  bit_xor_comm_le n (a / 2) (b / 2) (omega arith) (omega arith),
  differ_comm (a % 2) (b % 2) (omega arith) (omega arith),
)

pub bit_xor_comm : (a b : ℕ) → bit_xor a b ≡ bit_xor b a
bit_xor_comm a b = bit_xor_comm_le (a + b) a b (omega arith) (omega arith)

-- Two bytes of a little-endian word.
pub word_of_bytes : (lo hi : ℕ) → lo < 256 → bit_or lo (hi * 2 ^ 8) ≡ hi * 256 + lo
word_of_bytes lo hi h = bit_or_comm lo (hi * 2 ^ 8) ∙ bit_or_low 8 hi lo h

-- A test that evaluation finds true at every value below a bound.
unfoldable pub checks : (ℕ → Bool) → ℕ → Bool
checks test zero = true
checks test (suc bound) = checks test bound && test bound

pub checked : (test : ℕ → Bool) (bound i : ℕ) → i < bound → checks test bound ≡ true → test i ≡ true
unfolding checks
checked test zero i inside h = absurd (omega arith)
checked test (suc bound) i inside h = ground (arith, checked test bound i)

-- Two functions that agree below `n` by evaluation are equal there.
pub eq_below :
    (n : ℕ) (f g : ℕ → ℕ) → checks (λ x. f x == g x) n ≡ true → (x : ℕ) → x < n → f x ≡ g x
eq_below n f g h x lt = (==_iff (f x) (g x)).0 (checked (λ x. f x == g x) n x lt h)

-- A remainder by one more binary digit.
pub mod-double : (n p : ℕ) → 0 < p → n % (p * 2) ≡ n / 2 % p * 2 + n % 2
mod-double n p h = grind arith

mod-one : (n : ℕ) → n % 2 ^ 0 ≡ 0
mod-one n = omega arith

double_half : (n p : ℕ) → 0 < p → n % (p * 2) / 2 ≡ n / 2 % p
double_half n p h = omega (arith, mod-double n p h)

double_parity : (n p : ℕ) → 0 < p → n % (p * 2) % 2 ≡ n % 2
double_parity n p h = omega (arith, mod-double n p h)

pub bit_xor-mod : (k a b : ℕ) → bit_xor a b % 2 ^ k ≡ bit_xor (a % 2 ^ k) (b % 2 ^ k)
bit_xor-mod zero a b = rw (mod-one a, mod-one b, mod-one (bit_xor a b)) refl
bit_xor-mod (suc k) a b =
    rw (pow-suc 2 k, mod-double (bit_xor a b) (2 ^ k) (pow_pos k), bit_xor_half a b)
      (rw (bit_xor-mod k (a / 2) (b / 2), bit_xor_parity a b)
        (sym (
          bit_xor_lowest (a % (2 ^ k * 2)) (b % (2 ^ k * 2))
          ∙ rw
              (
                double_half a (2 ^ k) (pow_pos k),
                double_half b (2 ^ k) (pow_pos k),
                double_parity a (2 ^ k) (pow_pos k),
                double_parity b (2 ^ k) (pow_pos k),
              )
              refl)))

half_double : (p : ℕ) → p * 2 / 2 ≡ p
half_double p = omega arith

parity_double : (p : ℕ) → p * 2 % 2 ≡ 0
parity_double p = omega arith

-- The test of one binary digit.
pub bit_and_digit : (k a : ℕ) → bit_and a (2 ^ k) ≡ a / 2 ^ k % 2 * 2 ^ k
bit_and_digit zero a = omega (arith, bit_and_mask 1 a)
bit_and_digit (suc k) a = rw (pow-suc 2 k) (
    bit_and_lowest a (2 ^ k * 2)
    ∙ rw
        (
          half_double (2 ^ k),
          parity_double (2 ^ k),
          bit_and_digit k (a / 2),
          div-div-eq-div-mul a 2 (2 ^ k),
          mul_comm 2 (2 ^ k),
        )
        (omega arith))

-- Shifting by one more byte.
pub div-pow_byte : (i seq : ℕ) → seq / 2 ^ (8 * (i + 1)) ≡ seq / 256 / 2 ^ (8 * i)
div-pow_byte i seq =
    let e : 8 * (i + 1) ≡ suc (suc (suc (suc (suc (suc (suc (suc (8 * i)))))))) = omega arith in
    ap (λ k. seq / 2 ^ k) e
    ∙ ap (λ (k : ℕ). seq / k) (eight (8 * i))
    ∙ sym (div-div-eq-div-mul seq 256 (2 ^ (8 * i)))
  where
    eight : (n : ℕ) → 2 ^ suc (suc (suc (suc (suc (suc (suc (suc n))))))) ≡ 256 * 2 ^ n
    eight n =
        rw
          (
            pow-suc 2 (suc (suc (suc (suc (suc (suc (suc n))))))),
            pow-suc 2 (suc (suc (suc (suc (suc (suc n)))))),
            pow-suc 2 (suc (suc (suc (suc (suc n))))),
            pow-suc 2 (suc (suc (suc (suc n)))),
            pow-suc 2 (suc (suc (suc n))),
            pow-suc 2 (suc (suc n)),
            pow-suc 2 (suc n),
            pow-suc 2 n,
          )
          (omega arith)

pub div-pow_byte_last : (i seq : ℕ) → seq / 2 ^ (8 * suc i) ≡ seq / 2 ^ (8 * i) / 256
div-pow_byte_last i seq =
    let e : 8 * suc i ≡ 8 * (i + 1) = omega arith in
    let p = 2 ^ (8 * i) in
    ap (λ k. seq / 2 ^ k) e
    ∙ div-pow_byte i seq
    ∙ div-div-eq-div-mul seq 256 p
    ∙ ap (λ (k : ℕ). seq / k) (mul_comm 256 p)
    ∙ sym (div-div-eq-div-mul seq p 256)
