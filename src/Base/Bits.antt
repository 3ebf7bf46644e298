-- ===== src/Base/Bits.antt =====
-- `&` and `|` on machine words: masks of low ones, of high ones, and a single bit.
use Prim.Native.Nat.{
  ℕ, zero, suc, ◌+◌, ◌-◌, ◌*◌, ◌/◌, ◌%◌, ◌^◌, ◌≤◌, ◌<◌, min, max, bit_and, bit_or, digits,
  bit_and-bitwise, bit_or-bitwise,
}
use mathlib.Core.Path.{◌≡◌, refl, sym, ap, ap₂}
use native.Mathlib.Nat.{pow-suc, mod-lt, div-div-eq-div-mul}
use native.Mathlib.Omega.{arith}

abbrev low_zero : ℕ → ℕ
low_zero b = 0

abbrev low_same : ℕ → ℕ
low_same b = b

-- The digit recursion does not depend on its fuel, once that is at least the first number.
module _ (z : ℕ → ℕ) (f : ℕ → ℕ → ℕ) where
  digits_any_fuel : (m n a b : ℕ) → a ≤ m → a ≤ n → digits z f m a b ≡ digits z f n a b
  digits_any_fuel m n zero b h k = at_zero m n
    where
      at_zero : (m n : ℕ) → digits z f m 0 b ≡ digits z f n 0 b
      at_zero zero zero = refl
      at_zero zero (suc n) = refl
      at_zero (suc m) zero = refl
      at_zero (suc m) (suc n) = refl
  digits_any_fuel zero n (suc a) b h k = absurd (omega arith)
  digits_any_fuel (suc m) zero (suc a) b h k = absurd (omega arith)
  digits_any_fuel (suc m) (suc n) (suc a) b h k =
      omega (arith, digits_any_fuel m n (suc a / 2) (b / 2) (omega arith) (omega arith))

bit_and-zero_left : (b : ℕ) → bit_and 0 b ≡ 0
bit_and-zero_left b = bit_and-bitwise 0 b

pub bit_or-zero_left : (b : ℕ) → bit_or 0 b ≡ b
bit_or-zero_left b = bit_or-bitwise 0 b

-- One digit at a time.
pub bit_and_halves : (a b : ℕ) → bit_and a b ≡ bit_and (a / 2) (b / 2) * 2 + min (a % 2) (b % 2)
bit_and_halves zero b = omega (arith, bit_and-zero_left b, bit_and-zero_left (b / 2))
bit_and_halves (suc a) b = omega (
  arith,
  bit_and-bitwise (suc a) b,
  bit_and-bitwise (suc a / 2) (b / 2),
  digits_any_fuel low_zero min a (suc a / 2) (suc a / 2) (b / 2) (omega arith) (omega arith),
)

pub bit_or_halves : (a b : ℕ) → bit_or a b ≡ bit_or (a / 2) (b / 2) * 2 + max (a % 2) (b % 2)
bit_or_halves zero b = omega (arith, bit_or-zero_left b, bit_or-zero_left (b / 2))
bit_or_halves (suc a) b = omega (
  arith,
  bit_or-bitwise (suc a) b,
  bit_or-bitwise (suc a / 2) (b / 2),
  digits_any_fuel low_same max a (suc a / 2) (suc a / 2) (b / 2) (omega arith) (omega arith),
)

bit_and-zero_below : (n a : ℕ) → a ≤ n → bit_and a 0 ≡ 0
bit_and-zero_below n zero h = refl
bit_and-zero_below zero (suc a) h = absurd (omega arith)
bit_and-zero_below (suc n) (suc a) h =
    omega (arith, bit_and_halves (suc a) 0, bit_and-zero_below n (suc a / 2) (omega arith))

bit_or-zero_below : (n a : ℕ) → a ≤ n → bit_or a 0 ≡ a
bit_or-zero_below n zero h = refl
bit_or-zero_below zero (suc a) h = absurd (omega arith)
bit_or-zero_below (suc n) (suc a) h =
    omega (arith, bit_or_halves (suc a) 0, bit_or-zero_below n (suc a / 2) (omega arith))

pub bit_and-zero : (a : ℕ) → bit_and a 0 ≡ 0
bit_and-zero a = bit_and-zero_below a a (omega arith)

pub bit_or-zero : (a : ℕ) → bit_or a 0 ≡ a
bit_or-zero a = bit_or-zero_below a a (omega arith)

pub pow_pos : (k : ℕ) → 1 ≤ 2 ^ k
pow_pos zero = omega arith
pow_pos (suc k) = omega (arith, pow-suc 2 k, pow_pos k)

pub pow_double : (k : ℕ) → 2 ^ suc k ≡ 2 * 2 ^ k
pow_double k = omega (arith, pow-suc 2 k)

-- `x & ((1 << k) - 1)`, at the quotient and the remainder of `x`.
bit_and-fields : (k q r : ℕ) → r < 2 ^ k → bit_and (q * 2 ^ k + r) (2 ^ k - 1) ≡ r
bit_and-fields zero q r h = omega (arith, bit_and-zero (q * 2 ^ 0 + r))
bit_and-fields (suc k) q r h = omega (
  arith,
  bit_and_halves (q * 2 ^ suc k + r) (2 ^ suc k - 1),
  ap₂ bit_and halved mask,
  bit_and-fields k q (r / 2) (omega (arith, pow_double k)),
  pow_double k,
  pow_pos k,
  scaled,
)
  where
    scaled : q * 2 ^ suc k ≡ 2 * (q * 2 ^ k)
    scaled = omega (arith, ap (λ (t : ℕ). q * t) (pow_double k))

    halved : (q * 2 ^ suc k + r) / 2 ≡ q * 2 ^ k + r / 2
    halved = omega (arith, scaled)

    mask : (2 ^ suc k - 1) / 2 ≡ 2 ^ k - 1
    mask = omega (arith, pow_double k, pow_pos k)

pub bit_and-low : (k x : ℕ) → bit_and x (2 ^ k - 1) ≡ x % 2 ^ k
bit_and-low k x = omega (
  arith,
  bit_and-fields k (x / 2 ^ k) (x % 2 ^ k) (mod-lt x (pow_pos k)),
  ap (λ (t : ℕ). bit_and t (2 ^ k - 1)) whole,
)
  where
    whole : x / 2 ^ k * 2 ^ k + x % 2 ^ k ≡ x
    whole = grind arith

half-div-pow : (k x : ℕ) → x / 2 / 2 ^ k ≡ x / 2 ^ suc k
half-div-pow k x = rw (pow_double k) (div-div-eq-div-mul x 2 (2 ^ k))

-- A mask with `k` low zeros.
pub bit_and-high : (k x m : ℕ) → bit_and x (m * 2 ^ k) ≡ bit_and (x / 2 ^ k) m * 2 ^ k
bit_and-high zero x m = omega (arith, ap₂ bit_and (sym whole) unit)
  where
    whole : x / 2 ^ 0 ≡ x
    whole = omega arith

    unit : m * 2 ^ 0 ≡ m
    unit = omega arith
bit_and-high (suc k) x m = omega (
  arith,
  bit_and_halves x (m * 2 ^ suc k),
  ap (bit_and (x / 2)) halved,
  bit_and-high k (x / 2) m,
  ap (λ (t : ℕ). bit_and t m * 2 ^ k) (half-div-pow k x),
  ap (λ (t : ℕ). bit_and (x / 2 ^ suc k) m * t) (pow_double k),
  scaled,
)
  where
    scaled : m * 2 ^ suc k ≡ 2 * (m * 2 ^ k)
    scaled = omega (arith, ap (λ (t : ℕ). m * t) (pow_double k))

    halved : m * 2 ^ suc k / 2 ≡ m * 2 ^ k
    halved = omega (arith, scaled)

-- `x | (1 << k)` sets a bit that is clear.
pub bit_or-bit : (k x : ℕ) → x / 2 ^ k % 2 ≡ 0 → bit_or x (2 ^ k) ≡ x + 2 ^ k
bit_or-bit zero x h = omega (arith, bit_or_halves x 1, bit_or-zero (x / 2))
bit_or-bit (suc k) x h = omega (
  arith,
  bit_or_halves x (2 ^ suc k),
  ap (bit_or (x / 2)) halved,
  bit_or-bit k (x / 2) (rw (half-div-pow k x) h),
  pow_double k,
)
  where
    halved : 2 ^ suc k / 2 ≡ 2 ^ k
    halved = omega (arith, pow_double k)
