-- ===== src/EasyFs/Areas/Tests.antt =====
-- A device of 1028 blocks, of which one is for data.
use r_core_tutorial_v3_arm.Base.{
  ℕ, zero, suc, ◌+◌, ◌^◌, ◌≤◌, ◌<◌, ◌≡◌, refl, ◌↔◌, ◌⊎◌, List, ◌∷◌, arith, ◌==◌, if◌then◌else◌,
  replicate, done, panic,
}
use r_core_tutorial_v3_arm.EasyFs.Bitmap.{maximum}
use r_core_tutorial_v3_arm.EasyFs.Bitmap.Alloc.{in_use, AreBlocks}
use r_core_tutorial_v3_arm.EasyFs.Layout.{SuperBlock, initialize_super}
use r_core_tutorial_v3_arm.EasyFs.Areas.{EasyFileSystem, divide, open_fs, alloc_data}
use r_core_tutorial_v3_arm.EasyFs.Areas.Division.{
  IsDivision, divided, before_data, data_total, divide-IsDivision,
}
use r_core_tutorial_v3_arm.EasyFs.Areas.Beyond.{IsFirstClear, alloc_data-first}

divide-IsDivision_example :
    ((before_data 1 ≤ 1028)
      × (data_total 1028 1 + 4096 < 2 ^ 32)
      × ((efs : EasyFileSystem) × (b : SuperBlock) × (divide 1028 1 ≡ done (efs, b))
          × IsDivision 1028 efs b
          × (open_fs b ≡ done efs)))
    ⊎ (((1028 < before_data 1) ⊎ (2 ^ 32 ≤ data_total 1028 1 + 4096)) × (divide 1028 1 ≡ panic))
divide-IsDivision_example = divide-IsDivision 1028 1 (omega arith) (omega arith)

-- The file system of that device, and a device that is too large.
divide-some : divide 1028 1 ≡ done (divided 1 1, initialize_super 1028 1 1024 1 1)
unfolding divide maximum
divide-some = refl

divide-too-large : divide 0xffff_ffff 1 ≡ panic
unfolding divide maximum
divide-too-large = refl

abbrev small : EasyFileSystem
small = divided 1 1

abbrev small_super : SuperBlock
small_super = initialize_super 1028 1 1024 1 1

-- The one data block is in use.
abbrev one_used : ℕ → List ℕ
one_used i = 1 ∷ replicate 63 0

one_used-AreBlocks : AreBlocks one_used
one_used-AreBlocks i = ground arith

small-IsDivision : IsDivision 1028 small small_super
unfolding maximum initialize_super
small-IsDivision = record {
  inode_area = refl;
  inode_room = omega arith;
  data_bitmap = refl;
  data_area = refl;
  data_room = omega arith;
  data_tight = omega arith;
  whole = refl;
}

second-IsFirstClear : IsFirstClear small.data_bitmap one_used 1
unfolding maximum
second-IsFirstClear = record { inside = omega arith; clear = refl; before = only_zero }
  where
    only_zero : (j : ℕ) → j < 1 → in_use small.data_bitmap one_used j ≡ 1
    only_zero zero l = refl
    only_zero (suc j) l = absurd (omega (arith, l))

alloc_data-first_example :
    (((1028 < 2 ^ 32)
        × ((device' : ℕ → List ℕ) × (alloc_data small one_used ≡ done (1028, device'))
            × ((j : ℕ)
                → in_use small.data_bitmap device' j
                  ≡ (if j == 1 then 1 else in_use small.data_bitmap one_used j))))
      ⊎ ((2 ^ 32 ≤ 1028) × (1 ≤ 1) × (alloc_data small one_used ≡ panic)))
    × ((1028 < 1028) ↔ (1 < 1))
unfolding initialize_super
alloc_data-first_example =
    alloc_data-first 1028 small small_super one_used 1 small-IsDivision (omega arith)
      one_used-AreBlocks second-IsFirstClear
