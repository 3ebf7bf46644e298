-- ===== src/EasyFs/Bitmap/Words.antt =====
-- The digits of a word, and what `|`, `-` and `&` with a single digit do to them.
use r_core_tutorial_v3_arm.Base.{
  ℕ, zero, suc, ◌-◌, ◌*◌, ◌/◌, ◌%◌, ◌^◌, ◌≤◌, ◌<◌, bit_and, bit_or, ◌≡◌, ap, ◌∙◌, inl, inr, arith,
  ◌==◌, if◌then◌else◌, ==_iff, Bool-cases,
}
use r_core_tutorial_v3_arm.Base.Bits.{
  bit_and_halves, bit_or_halves, bit_or-zero, bit_and-zero, pow_pos, pow_double,
}
use r_core_tutorial_v3_arm.EasyFs.Bitmap.{trailing_ones}

-- The digit of `x` at place `k`.
abbrev pub bit : ℕ → ℕ → ℕ
bit zero x = x % 2
bit (suc k) x = bit k (x / 2)

pub bit-bounded : (k x : ℕ) → bit k x < 2
bit-bounded zero x = omega arith
bit-bounded (suc k) x = bit-bounded k (x / 2)

half_pow : (k : ℕ) → 2 ^ suc k / 2 ≡ 2 ^ k
half_pow k = omega (arith, pow_double k)

even_pow : (k : ℕ) → 2 ^ suc k % 2 ≡ 0
even_pow k = omega (arith, pow_double k)

bit_or-half : (x k : ℕ) → bit_or x (2 ^ suc k) / 2 ≡ bit_or (x / 2) (2 ^ k)
bit_or-half x k =
    omega (arith, bit_or_halves x (2 ^ suc k), even_pow k, ap (bit_or (x / 2)) (half_pow k))

pub bit-bit_or : (k j x : ℕ) → bit j (bit_or x (2 ^ k)) ≡ (if j == k then 1 else bit j x)
bit-bit_or zero zero x = omega (arith, bit_or_halves x 1)
bit-bit_or zero (suc j) x = ground (arith, ap (bit j) or_one)
  where
    or_one : bit_or x (2 ^ 0) / 2 ≡ x / 2
    or_one = omega (arith, bit_or_halves x 1, bit_or-zero (x / 2))
bit-bit_or (suc k) zero x = ground (arith, bit_or_halves x (2 ^ suc k), even_pow k)
bit-bit_or (suc k) (suc j) x = ground (arith, ap (bit j) (bit_or-half x k), bit-bit_or k j (x / 2))

-- `x & (1 << k)`
pub bit_and-bit : (k x : ℕ) → bit_and x (2 ^ k) ≡ bit k x * 2 ^ k
bit_and-bit zero x = omega (arith, bit_and_halves x 1, bit_and-zero (x / 2))
bit_and-bit (suc k) x = omega (
  arith,
  bit_and_halves x (2 ^ suc k),
  even_pow k,
  ap (bit_and (x / 2)) (half_pow k),
  bit_and-bit k (x / 2),
  ap (λ (t : ℕ). bit k (x / 2) * t) (pow_double k),
)

pub bit-le : (k x : ℕ) → bit k x ≡ 1 → 2 ^ k ≤ x
bit-le zero x h = omega (arith, h)
bit-le (suc k) x h = omega (arith, bit-le k (x / 2) h, pow_double k)

pub bit-minus : (k j x : ℕ) → bit k x ≡ 1 → bit j (x - 2 ^ k) ≡ (if j == k then 0 else bit j x)
bit-minus zero zero x h = omega (arith, h)
bit-minus zero (suc j) x h = ground (arith, ap (bit j) (minus_one))
  where
    minus_one : (x - 2 ^ 0) / 2 ≡ x / 2
    minus_one = omega (arith, h)
bit-minus (suc k) zero x h = ground (arith, bit-le k (x / 2) h, pow_double k)
bit-minus (suc k) (suc j) x h = ground (arith, ap (bit j) minus_half, bit-minus k j (x / 2) h)
  where
    minus_half : (x - 2 ^ suc k) / 2 ≡ x / 2 - 2 ^ k
    minus_half = omega (arith, pow_double k)

ones-suc : (t x k : ℕ) → x % 2 ≡ 1 → ((i : ℕ) → i < t → bit i (x / 2) ≡ 1) → k < suc t → bit k x ≡ 1
ones-suc t x zero odd h l = odd
ones-suc t x (suc k) odd h l = h k (omega arith)

-- The first clear digit of a word.
pub trailing_ones-clear :
    (w x : ℕ)
    → x < 2 ^ w - 1
    → (trailing_ones w x < w)
      × (bit (trailing_ones w x) x ≡ 0)
      × ((k : ℕ) → k < trailing_ones w x → bit k x ≡ 1)
trailing_ones-clear zero x h = absurd (omega arith)
trailing_ones-clear (suc w) x h = elim (Bool-cases (x % 2 == 1)) [
  | inr n ↦ (ground (arith, n), ground (arith, n), λ k l. absurd (ground (arith, n, l)))
  | inl y ↦
      let odd = (==_iff (x % 2) 1).0 y in
      let below = trailing_ones-clear w (x / 2) (omega (arith, pow_double w, odd)) in
      (
        ground (arith, y, below.0),
        ground (arith, y, below.1),
        λ k l. ones-suc (trailing_ones w (x / 2)) x k odd below.2 (ground (arith, y, l)),
      )
]

-- All digits of the greatest word are set.
pub bit-ones : (w k : ℕ) → k < w → bit k (2 ^ w - 1) ≡ 1
bit-ones zero k h = absurd (omega arith)
bit-ones (suc w) zero h = omega (arith, pow_double w, pow_pos w)
bit-ones (suc w) (suc k) h =
    ap (bit k) (omega (arith, pow_double w, pow_pos w)) ∙ bit-ones w k (omega arith)
