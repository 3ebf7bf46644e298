-- ===== src/EasyFs/Bitmap/Block.antt =====
-- The bits of one block of a bitmap.
use r_core_tutorial_v3_arm.Base.{
  ℕ, zero, suc, ◌+◌, ◌*◌, ◌/◌, ◌%◌, ◌^◌, ◌≤◌, ◌<◌, bit_or, ◌≡◌, refl, sym, ap, ◌∙◌, ◌⊎◌, inl, inr,
  none, some, List, [], ◌∷◌, arith, ltb, ◌==◌, if◌then◌else◌, ltb→lt, ==_iff, Bool-cases, length,
  set, get_or, get_or-set_self, get_or-set_ne, All,
}
use mathlib.Core.Path.{ap₂}
use r_core_tutorial_v3_arm.EasyFs.Bitmap.{trailing_ones, max_u64, find_free, mark}
use r_core_tutorial_v3_arm.EasyFs.Bitmap.Words.{bit, bit-bit_or, trailing_ones-clear, bit-ones}

abbrev pub is_set : List ℕ → ℕ → ℕ
is_set ws j = bit (j % 64) (get_or ws (j / 64) 0)

abbrev pub AllWords : List ℕ → Type 0
AllWords ws = All (λ x. x ≤ max_u64) ws

-- No word with a clear bit, or the first one and its first clear bit.
abbrev pub Found : List ℕ → Type 0
Found ws =
    ((find_free ws ≡ none) × ((m : ℕ) → m < length ws → get_or ws m 0 ≡ max_u64))
    ⊎ ((n t : ℕ) × (find_free ws ≡ some (n, t))
        × (n < length ws)
        × (t < 64)
        × (bit t (get_or ws n 0) ≡ 0)
        × ((k : ℕ) → k < t → bit k (get_or ws n 0) ≡ 1)
        × ((m : ℕ) → m < n → get_or ws m 0 ≡ max_u64))

full-cons :
    (x : ℕ) (ws : List ℕ) (n m : ℕ)
    → x ≡ max_u64
    → ((i : ℕ) → i < n → get_or ws i 0 ≡ max_u64)
    → m < suc n
    → get_or (x ∷ ws) m 0 ≡ max_u64
full-cons x ws n zero e h l = e
full-cons x ws n (suc m) e h l = h m (omega arith)

pub find_free-Found : (ws : List ℕ) → AllWords ws → Found ws
find_free-Found [] a = inl (refl, λ m l. absurd (omega arith))
find_free-Found (x ∷ ws) a = elim (Bool-cases (x == max_u64)) [
  | inr n ↦
      let t = trailing_ones-clear 64 x (ground (arith, n, a.0)) in
      inr (
        0,
        trailing_ones 64 x,
        ground (arith, n),
        omega arith,
        t.0,
        t.1,
        t.2,
        λ m l. absurd (omega arith),
      )
  | inl y ↦
      let e = (==_iff x max_u64).0 y in
      elim (find_free-Found ws a.1) [
        | inl (f, h) ↦ inl (ground (arith, y, f), λ m l. full-cons x ws (length ws) m e h l)
        | inr (n, t, f, ln, lt, c, k, h) ↦
            inr (
              suc n,
              t,
              ground (arith, y, f),
              omega arith,
              lt,
              c,
              k,
              λ m l. full-cons x ws n m e h l,
            )
      ]
]

is_set-place : (ws : List ℕ) (n t : ℕ) → t < 64 → is_set ws (n * 64 + t) ≡ bit t (get_or ws n 0)
is_set-place ws n t l = ap₂ (λ k m. bit k (get_or ws m 0)) inner word
  where
    inner : (n * 64 + t) % 64 ≡ t
    inner = omega arith

    word : (n * 64 + t) / 64 ≡ n
    word = omega arith

-- A bit of a list in which one word is written.
pub is_set-set :
    (ws : List ℕ) (n t v b j : ℕ)
    → n < length ws
    → t < 64
    → ((k : ℕ) → bit k v ≡ (if k == t then b else bit k (get_or ws n 0)))
    → is_set (set ws n v) j ≡ (if j == n * 64 + t then b else is_set ws j)
is_set-set ws n t v b j ln lt h = elim (Bool-cases (n == j / 64)) [
  | inl y ↦
      let e = sym ((==_iff n (j / 64)).0 y) in
      ap (bit (j % 64)) (ap (λ m. get_or (set ws n v) m 0) e ∙ get_or-set_self ws n v 0 ln)
      ∙ h (j % 64)
      ∙ ground (arith, e, ap (λ m. bit (j % 64) (get_or ws m 0)) e)
  | inr ne ↦
      ground (arith, ne, get_or-set_ne ws {i = n} {j = j / 64} v 0 (λ e. ground (arith, ne, e)))
]

-- What the search of a block says of its bits.
abbrev pub Searched : List ℕ → Type 0
Searched ws =
    ((find_free ws ≡ none) × ((j : ℕ) → j < 4096 → is_set ws j ≡ 1))
    ⊎ ((n t : ℕ) × (find_free ws ≡ some (n, t))
        × (n * 64 + t < 4096)
        × (is_set ws (n * 64 + t) ≡ 0)
        × ((j : ℕ) → j < n * 64 + t → is_set ws j ≡ 1)
        × ((j : ℕ) → is_set (mark ws (n, t)) j ≡ (if j == n * 64 + t then 1 else is_set ws j)))

full_word : (ws : List ℕ) (m k : ℕ) → get_or ws m 0 ≡ max_u64 → k < 64 → bit k (get_or ws m 0) ≡ 1
full_word ws m k h l = ap (bit k) h ∙ bit-ones 64 k l

before-set :
    (ws : List ℕ) (n t j : ℕ)
    → j < n * 64 + t
    → t < 64
    → ((k : ℕ) → k < t → bit k (get_or ws n 0) ≡ 1)
    → ((m : ℕ) → m < n → get_or ws m 0 ≡ max_u64)
    → is_set ws j ≡ 1
before-set ws n t j l lt k h = elim (Bool-cases (ltb (j / 64) n)) [
  | inl y ↦ full_word ws (j / 64) (j % 64) (h (j / 64) (ltb→lt (j / 64) n y)) (omega arith)
  | inr past ↦
      let here : j / 64 ≡ n = ground (arith, past, l, lt) in
      ap (λ m. bit (j % 64) (get_or ws m 0)) here ∙ k (j % 64) (omega (arith, here))
]

pub find_free-Searched : (ws : List ℕ) → length ws ≡ 64 → AllWords ws → Searched ws
find_free-Searched ws l a = elim (find_free-Found ws a) [
  | inl (f, h) ↦
      inl (f, λ j lj. full_word ws (j / 64) (j % 64) (h (j / 64) (omega (arith, l))) (omega arith))
  | inr (n, t, f, ln, lt, c, k, h) ↦ inr (
    n,
    t,
    f,
    omega (arith, l),
    is_set-place ws n t lt ∙ c,
    λ j lj. before-set ws n t j lj lt k h,
    λ j.
        is_set-set ws n t (bit_or (get_or ws n 0) (2 ^ t)) 1 j ln lt
          (λ i. bit-bit_or t i (get_or ws n 0)),
  )
]
