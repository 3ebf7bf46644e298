-- ===== src/EasyFs/Bitmap/Alloc.antt =====
-- Allocation and release of a bit of a whole bitmap.
use r_core_tutorial_v3_arm.Base.{
  ℕ, zero, suc, ◌+◌, ◌-◌, ◌*◌, ◌/◌, ◌%◌, ◌^◌, ◌≤◌, ◌<◌, bit_and, ◌≡◌, refl, sym, ap, ◌∙◌, subst,
  ◌⊎◌, inl, inr, true, false, Option, none, some, List, arith, ltb, ◌==◌, if◌then◌else◌, ==_iff,
  Bool-cases, length, set, get_or, done, panic,
}
use mathlib.Core.Path.{ap₂}
use r_core_tutorial_v3_arm.Base.Bits.{pow_pos}
use r_core_tutorial_v3_arm.EasyFs.Bitmap.{
  Bitmap, block_bits, mark, write_words, alloc_from, alloc, dealloc, decomposition, maximum,
}
use r_core_tutorial_v3_arm.EasyFs.Bitmap.Words.{bit, bit-bounded, bit_and-bit, bit-minus}
use r_core_tutorial_v3_arm.EasyFs.Bitmap.Block.{is_set, AllWords, is_set-set, find_free-Searched}

-- The bit of a number in the bitmap.
abbrev pub in_use : Bitmap → (ℕ → List ℕ) → ℕ → ℕ
in_use bm device j = is_set (device (j / 4096 + bm.start_block_id)) (j % 4096)

-- Every block is 64 words of 64 bits.
abbrev pub AreBlocks : (ℕ → List ℕ) → Type 0
AreBlocks device = (i : ℕ) → (length (device i) ≡ 64) × AllWords (device i)

-- The outcome of a search from the bit `low` up to the bit `high`: every bit is set and nothing
-- changes, or the first clear bit is given out and it alone is set.
abbrev pub Granted : Bitmap → (ℕ → List ℕ) → ℕ → ℕ → Option ℕ × (ℕ → List ℕ) → Type 0
Granted bm device low high r =
    ((r ≡ (none, device)) × ((j : ℕ) → low ≤ j → j < high → in_use bm device j ≡ 1))
    ⊎ ((b : ℕ) × (r.0 ≡ some b)
        × (b < high)
        × (in_use bm device b ≡ 0)
        × ((j : ℕ) → low ≤ j → j < b → in_use bm device j ≡ 1)
        × ((j : ℕ) → in_use bm r.1 j ≡ (if j == b then 1 else in_use bm device j)))

-- A write of the block of one bit.
in_use-write_words :
    (bm : Bitmap) (device : ℕ → List ℕ) (block p v : ℕ) (ws : List ℕ)
    → p < 4096
    → ((i : ℕ)
        → is_set ws i ≡ (if i == p then v else is_set (device (block + bm.start_block_id)) i))
    → (j : ℕ)
    → in_use bm (write_words device (block + bm.start_block_id) ws) j
      ≡ (if j == block * 4096 + p then v else in_use bm device j)
in_use-write_words bm device block p v ws lp h j = elim (Bool-cases (block == j / 4096)) [
  | inl y ↦
      let e = sym ((==_iff block (j / 4096)).0 y) in
      ap (λ w. is_set w (j % 4096)) (ground (arith, e))
      ∙ h (j % 4096)
      ∙ ground (arith, e, ap (λ m. is_set (device (m + bm.start_block_id)) (j % 4096)) e)
  | inr ne ↦ ground (arith, ne)
]

in_use-place :
    (bm : Bitmap) (device : ℕ → List ℕ) (block p : ℕ)
    → p < 4096
    → in_use bm device (block * 4096 + p) ≡ is_set (device (block + bm.start_block_id)) p
in_use-place bm device block p l =
    ap₂ (λ m q. is_set (device (m + bm.start_block_id)) q) block_pos bit_pos
  where
    block_pos : (block * 4096 + p) / 4096 ≡ block
    block_pos = omega arith

    bit_pos : (block * 4096 + p) % 4096 ≡ p
    bit_pos = omega arith

in_use-block :
    (bm : Bitmap) (device : ℕ → List ℕ) (block p j : ℕ)
    → ((i : ℕ) → i < p → is_set (device (block + bm.start_block_id)) i ≡ 1)
    → p ≤ 4096
    → block * 4096 ≤ j
    → j < block * 4096 + p
    → in_use bm device j ≡ 1
in_use-block bm device block p j h lp l k =
    ap (λ m. is_set (device (m + bm.start_block_id)) (j % 4096)) here ∙ h (j % 4096) (omega arith)
  where
    here : j / 4096 ≡ block
    here = omega arith

-- The bit is in the first block of the search.
here-Granted :
    (bm : Bitmap) (device : ℕ → List ℕ) (block high p : ℕ) (ws : List ℕ)
    (r : Option ℕ × (ℕ → List ℕ))
    → p < 4096
    → suc block * 4096 ≤ high
    → is_set (device (block + bm.start_block_id)) p ≡ 0
    → ((j : ℕ) → j < p → is_set (device (block + bm.start_block_id)) j ≡ 1)
    → ((j : ℕ)
        → is_set ws j ≡ (if j == p then 1 else is_set (device (block + bm.start_block_id)) j))
    → r ≡ (some (block * 4096 + p), write_words device (block + bm.start_block_id) ws)
    → Granted bm device (block * 4096) high r
here-Granted bm device block high p ws r lp lh c before marked e = inr (
  block * 4096 + p,
  ap (λ x. x.0) e,
  omega (arith, lp, lh),
  in_use-place bm device block p lp ∙ c,
  λ j l k. in_use-block bm device block p j before (omega (arith, lp)) l k,
  λ j.
      ap (λ (x : Option ℕ × (ℕ → List ℕ)). in_use bm x.1 j) e
      ∙ in_use-write_words bm device block p 1 ws lp marked j,
)

-- The first block of the search is full.
later-Granted :
    (bm : Bitmap) (device : ℕ → List ℕ) (block high : ℕ) (r : Option ℕ × (ℕ → List ℕ))
    → ((j : ℕ) → j < 4096 → is_set (device (block + bm.start_block_id)) j ≡ 1)
    → Granted bm device (suc block * 4096) high r
    → Granted bm device (block * 4096) high r
later-Granted bm device block high r full g = elim g [
  | inl (e, h) ↦ inl (e, λ j l k. all_set j l (h j) k)
  | inr (b, e, lb, c, before, after) ↦
      inr (b, e, lb, c, λ j l k. all_set j l (λ x y. before j x k) k, after)
]
  where
    all_set :
        {top : ℕ}
        → (j : ℕ) → block * 4096 ≤ j
        → (suc block * 4096 ≤ j → j < top → in_use bm device j ≡ 1)
        → j < top
        → in_use bm device j ≡ 1
    all_set j l h k = elim (Bool-cases (ltb j (suc block * 4096))) [
      | inl y ↦ in_use-block bm device block 4096 j full (omega arith) l (ground (arith, y))
      | inr past ↦ h (ground (arith, past)) k
    ]

alloc_from-Granted :
    (bm : Bitmap) (count block high : ℕ) (device : ℕ → List ℕ)
    → AreBlocks device
    → (block + count) * 4096 ≡ high
    → Granted bm device (block * 4096) high (alloc_from bm count block device)
alloc_from-Granted bm zero block high device a e = inl (refl, λ j l h. absurd (omega (arith, e)))
alloc_from-Granted bm (suc count) block high device a e =
    elim (find_free-Searched (device (block + bm.start_block_id)) (a (block + bm.start_block_id)).0
      (a (block + bm.start_block_id)).1) [
        | inr (n, t, f, lp, c, before, marked) ↦
            here-Granted bm device block high (n * 64 + t)
              (mark (device (block + bm.start_block_id)) (n, t))
              (alloc_from bm (suc count) block device) lp (omega (arith, e)) c before marked
              (ground (arith, f))
        | inl (f, full) ↦
            later-Granted bm device block high (alloc_from bm (suc count) block device) full (
              subst (Granted bm device (suc block * 4096) high) (ground (arith, f))
                (alloc_from-Granted bm count (suc block) high device a (omega (arith, e))))
      ]

-- On 64-word blocks, `Bitmap::alloc` gives out the first clear bit below the maximum and sets exactly
-- that bit; it fails, changing nothing, only where every bit is set.
pub alloc-Granted :
    (bm : Bitmap) (device : ℕ → List ℕ)
    → AreBlocks device
    → Granted bm device 0 (maximum bm) (alloc bm device)
unfolding alloc maximum
alloc-Granted bm device a =
    alloc_from-Granted bm bm.blocks 0 (bm.blocks * block_bits) device a (omega arith)

-- The test of `dealloc`.
assert-bit :
    (t x : ℕ)
    → ((bit t x ≡ 0) × (ltb 0 (bit_and x (2 ^ t)) ≡ false))
      ⊎ ((bit t x ≡ 1) × (ltb 0 (bit_and x (2 ^ t)) ≡ true))
assert-bit t x = elim (Bool-cases (bit t x == 0)) [
  | inl y ↦
      let e = (==_iff (bit t x) 0).0 y in
      inl (e, ground (arith, bit_and-bit t x, ap (λ (d : ℕ). d * 2 ^ t) e))
  | inr set_bit ↦
      let e : bit t x ≡ 1 = ground (arith, set_bit, bit-bounded t x) in
      inr (e, ground (arith, bit_and-bit t x, ap (λ (d : ℕ). d * 2 ^ t) e, pow_pos t))
]

-- The words after bit `p` of them was cleared.
is_set-unmark :
    (ws : List ℕ) (p j : ℕ)
    → length ws ≡ 64
    → p < 4096
    → is_set ws p ≡ 1
    → is_set (set ws (p / 64) (get_or ws (p / 64) 0 - 2 ^ (p % 64))) j
      ≡ (if j == p then 0 else is_set ws j)
is_set-unmark ws p j l lp c =
    is_set-set ws (p / 64) (p % 64) (get_or ws (p / 64) 0 - 2 ^ (p % 64)) 0 j (omega (arith, l))
      (omega arith) (λ k. bit-minus (p % 64) k (get_or ws (p / 64) 0) c)
    ∙ ap (λ (q : ℕ). if j == q then 0 else is_set ws j) whole
  where
    whole : p / 64 * 64 + p % 64 ≡ p
    whole = omega arith

abbrev pub Freed : Bitmap → (ℕ → List ℕ) → ℕ → Type 0
Freed bm device b =
    ((in_use bm device b ≡ 0) × (dealloc bm device b ≡ panic))
    ⊎ ((in_use bm device b ≡ 1)
        × (device' : ℕ → List ℕ) × (dealloc bm device b ≡ done device')
        × ((j : ℕ) → in_use bm device' j ≡ (if j == b then 0 else in_use bm device j)))

-- On 64-word blocks, `Bitmap::dealloc` of a bit that is set clears exactly that bit, and of a bit that
-- is clear panics.
pub dealloc-Freed :
    (bm : Bitmap) (device : ℕ → List ℕ) (b : ℕ) → AreBlocks device → Freed bm device b
unfolding dealloc decomposition
dealloc-Freed bm device b a = elim (assert-bit (b % 4096 % 64) (get_or ws (b % 4096 / 64) 0)) [
  | inl (e, f) ↦ inl (e, ground (arith, f))
  | inr (e, f) ↦ inr (
    e,
    write_words device (b / 4096 + bm.start_block_id) cleared,
    ground (arith, f),
    λ j.
        in_use-write_words bm device (b / 4096) (b % 4096) 0 cleared (omega arith)
          (λ i. is_set-unmark ws (b % 4096) i (a (b / 4096 + bm.start_block_id)).0 (omega arith) e)
          j
        ∙ ap (λ (q : ℕ). if j == q then 0 else in_use bm device j) whole,
  )
]
  where
    ws : List ℕ
    ws = device (b / 4096 + bm.start_block_id)

    cleared : List ℕ
    cleared = set ws (b % 4096 / 64) (get_or ws (b % 4096 / 64) 0 - 2 ^ (b % 4096 % 64))

    whole : b / 4096 * 4096 + b % 4096 ≡ b
    whole = omega arith
