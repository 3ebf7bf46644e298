-- ===== src/Allocator/Tests.antt =====
-- An allocator of four numbers, of which 2 and 4 are held, and the theorems at it.
use r_core_tutorial_v3_arm.Base.{ℕ, ◌≡◌, refl, ◌⊎◌, none, some, [], ◌∷◌, arith}
use r_core_tutorial_v3_arm.Allocator.{FreeListAllocator, alloc, available_space, empty, init}
use r_core_tutorial_v3_arm.Allocator.Inv.{IsValid, Allocated, alloc-Allocated}

abbrev pub four : FreeListAllocator
four = record { range_start = 2; range_end = 6; next_available = 5; free_list = 3 ∷ [] }

pub four-IsValid : IsValid four
four-IsValid = record {
  order = omega arith;
  bounded = omega arith;
  distinct = (refl, tt);
  in_range = ((omega arith, omega arith), tt);
}

init_test :
    init empty 2 6 ≡ record { range_start = 2; range_end = 6; next_available = 2; free_list = [] }
unfolding init
init_test = refl

alloc-Allocated_example :
    ((alloc four ≡ (none, four)) × (available_space four ≡ 0))
    ⊎ ((v : ℕ) × (b : FreeListAllocator) × (alloc four ≡ (some v, b)) × Allocated four b v)
alloc-Allocated_example = alloc-Allocated four four-IsValid
