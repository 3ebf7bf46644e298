-- ===== src/EasyFs/Areas/Beyond.antt =====
-- Which block `alloc_data` gives out.
use r_core_tutorial_v3_arm.Base.{
  ℕ, ◌+◌, ◌^◌, ◌≤◌, ◌<◌, ◌≡◌, refl, ap, ◌∙◌, ◌↔◌, ◌⊎◌, inl, inr, some, List, arith, ltb, ◌==◌,
  if◌then◌else◌, ltb→lt, Bool-cases, done, panic,
}
use r_core_tutorial_v3_arm.EasyFs.Bitmap.{Bitmap, maximum, alloc}
use r_core_tutorial_v3_arm.EasyFs.Bitmap.Alloc.{in_use, AreBlocks, alloc-Granted}
use r_core_tutorial_v3_arm.EasyFs.Layout.{SuperBlock}
use r_core_tutorial_v3_arm.EasyFs.Areas.{EasyFileSystem, u32, alloc_data}
use r_core_tutorial_v3_arm.EasyFs.Areas.Division.{IsDivision, add32-eq, add32-over}

-- The first clear bit of a bitmap.
pub record IsFirstClear (bm : Bitmap) (device : ℕ → List ℕ) (b : ℕ) : Type 0 where
  pub inside : b < maximum bm
  pub clear : in_use bm device b ≡ 0
  pub before : (j : ℕ) → j < b → in_use bm device j ≡ 1

same_first :
    (bm : Bitmap) (device : ℕ → List ℕ) (b c : ℕ)
    → IsFirstClear bm device b
    → in_use bm device c ≡ 0
    → ((j : ℕ) → j < c → in_use bm device j ≡ 1)
    → c ≡ b
same_first bm device b c f e h = elim (Bool-cases (ltb c b)) [
  | inl y ↦ absurd (cc (f.before c (ltb→lt c b y), e))
  | inr n ↦ elim (Bool-cases (ltb b c)) [
    | inl y ↦ absurd (cc (h b (ltb→lt b c y), f.clear))
    | inr m ↦ ground (arith, n, m)
  ]
]

alloc-first :
    (bm : Bitmap) (device : ℕ → List ℕ) (b : ℕ)
    → AreBlocks device
    → IsFirstClear bm device b
    → ((alloc bm device).0 ≡ some b)
      × ((j : ℕ) → in_use bm (alloc bm device).1 j ≡ (if j == b then 1 else in_use bm device j))
alloc-first bm device b a f = elim (alloc-Granted bm device a) [
  | inl (e, full) ↦ absurd (cc (full b (omega arith) f.inside, f.clear))
  | inr (c, e, l, z, h, after) ↦
      let same = same_first bm device b c f z (λ j k. h j (omega arith) k) in
      (
        e ∙ ap some same,
        λ j. after j ∙ ap (λ (q : ℕ). if j == q then 1 else in_use bm device j) same,
      )
]

-- A number of a bit of the data bitmap fits 32 bits.
bit_fits :
    (total : ℕ) (efs : EasyFileSystem) (sb : SuperBlock) (b : ℕ)
    → IsDivision total efs sb
    → total < 2 ^ 32
    → b < maximum efs.data_bitmap
    → u32 b ≡ b
unfolding maximum
bit_fits total efs sb b d t h = omega (arith, d.whole, d.data_area, d.data_room, d.data_tight, t, h)

-- On a division of a device of fewer than 2 ^ 32 blocks, where the data bitmap has a clear bit, `alloc_data`
-- gives out the block of the first one and sets that bit alone, unless the number of the block does
-- not fit 32 bits: then it panics. The block is on the device just in the case that the bit is one of
-- the data area: the bits behind them, which the last block of the bitmap has as well, are given out
-- too, or are those of the panic.
pub alloc_data-first :
    (total : ℕ) (efs : EasyFileSystem) (sb : SuperBlock) (device : ℕ → List ℕ) (b : ℕ)
    → IsDivision total efs sb
    → total < 2 ^ 32
    → AreBlocks device
    → IsFirstClear efs.data_bitmap device b
    → (((b + efs.data_area_start_block < 2 ^ 32)
          × ((device' : ℕ → List ℕ) × (alloc_data efs device
                ≡ done (b + efs.data_area_start_block, device'))
              × ((j : ℕ)
                  → in_use efs.data_bitmap device' j
                    ≡ (if j == b then 1 else in_use efs.data_bitmap device j))))
        ⊎ ((2 ^ 32 ≤ b + efs.data_area_start_block)
            × (sb.data_area_blocks ≤ b)
            × (alloc_data efs device ≡ panic)))
      × ((b + efs.data_area_start_block < total) ↔ (b < sb.data_area_blocks))
unfolding alloc_data
alloc_data-first total efs sb device b d t a f =
    let (e, after) = alloc-first efs.data_bitmap device b a f in
    let small = bit_fits total efs sb b d t f.inside in
    (
      elim (Bool-cases (ltb (b + efs.data_area_start_block) (2 ^ 32))) [
        | inl y ↦
            let fits = ltb→lt (b + efs.data_area_start_block) (2 ^ 32) y in
            inl (
              fits,
              (
                (alloc efs.data_bitmap device).1,
                rw (e, small, add32-eq b efs.data_area_start_block fits) refl,
                after,
              ),
            )
        | inr y ↦
            let over : 2 ^ 32 ≤ b + efs.data_area_start_block = ground (arith, y) in
            inr (
              over,
              omega (arith, over, d.whole, t),
              rw (e, small, add32-over b efs.data_area_start_block over) refl,
            )
      ],
      ground (arith, d.whole),
    )
