-- ===== src/EasyFs/Cache/Tests.antt =====
-- The block cache at concrete stores.
use r_core_tutorial_v3_arm.Base.{
  ℕ, ◌+◌, ◌*◌, ◌≡◌, refl, true, false, [], ◌∷◌, arith, ◌==◌, if◌then◌else◌,
}
use r_core_tutorial_v3_arm.EasyFs.Cache.{Store, sync_all}
use r_core_tutorial_v3_arm.EasyFs.Cache.Refine.{view, IsCoherent}
use r_core_tutorial_v3_arm.EasyFs.Cache.Transparent.{Answered, get_block_cache-Answered}
use r_core_tutorial_v3_arm.EasyFs.Cache.Durable.{sync_all-durable}

-- Block 7 is dirty and held, block 9 is clean.
abbrev two_blocks : Store ℕ
two_blocks = record {
  queue =
      record { cache = 70; block_id = 7; modified = true; held = 1 }
      ∷ (record { cache = 90; block_id = 9; modified = false; held = 0 } ∷ []);
  device = λ i. i * 10 + (if i == 7 then 5 else 0);
}

two_blocks-IsCoherent : IsCoherent two_blocks
two_blocks-IsCoherent = record {
  distinct = (refl, (refl, tt));
  clean = ((λ m. absurd (cc m)), ((λ m. refl), tt));
  bounded = omega arith;
}

get_block_cache-Answered_example : Answered two_blocks 3
get_block_cache-Answered_example = get_block_cache-Answered two_blocks 3 two_blocks-IsCoherent

sync_all-durable_example :
    ((i : ℕ) → (sync_all two_blocks).device i ≡ view two_blocks i)
    × ((i : ℕ) → view (sync_all two_blocks) i ≡ view two_blocks i)
    × IsCoherent (sync_all two_blocks)
sync_all-durable_example = sync_all-durable two_blocks two_blocks-IsCoherent
