-- ===== src/EasyFs/Bitmap/Tests.antt =====
-- A bitmap of one block, of which the first 70 bits are in use.
use r_core_tutorial_v3_arm.Base.{ℕ, ◌-◌, ◌^◌, ◌≡◌, refl, some, List, ◌∷◌, arith, replicate}
use r_core_tutorial_v3_arm.EasyFs.Bitmap.{Bitmap, alloc, maximum}
use r_core_tutorial_v3_arm.EasyFs.Bitmap.Alloc.{AreBlocks, Granted, alloc-Granted}

abbrev one_block : Bitmap
one_block = record { start_block_id = 1; blocks = 1 }

abbrev seventy_used : ℕ → List ℕ
seventy_used i = (2 ^ 64 - 1) ∷ (63 ∷ replicate 62 0)

seventy_used-AreBlocks : AreBlocks seventy_used
seventy_used-AreBlocks i = ground arith

alloc-seventy : (alloc one_block seventy_used).0 ≡ some 70
unfolding alloc
alloc-seventy = refl

alloc-Granted_example :
    Granted one_block seventy_used 0 (maximum one_block) (alloc one_block seventy_used)
alloc-Granted_example = alloc-Granted one_block seventy_used seventy_used-AreBlocks
