-- ===== src/Mm/PageTable/Tests.antt =====
-- A page table in the first of the free frames.
use r_core_tutorial_v3_arm.Base.{ℕ, ◌≡◌, refl, true, false, none, List, [], ◌∷◌, arith, done}
use r_core_tutorial_v3_arm.Allocator.{available_space}
use r_core_tutorial_v3_arm.Mm.Frame.{IsMemory}
use r_core_tutorial_v3_arm.Mm.Entry.{MemFlags, is_present}
use r_core_tutorial_v3_arm.Mm.PageTable.{
  PageTable, Machine, map_page, unmap_page, query, index_of, indices, next_table,
}
use r_core_tutorial_v3_arm.Mm.PageTable.Tree.{IsTree}
use r_core_tutorial_v3_arm.Mm.PageTable.Root.{root-IsTree}
use r_core_tutorial_v3_arm.Mm.PageTable.Refine.{Mapped, map_page_refines, unmap_page-map_page}
use r_core_tutorial_v3_arm.Mm.PageTable.Change.{beside}

abbrev user_data : MemFlags
user_data = record { read = true; write = true; execute = false; user = true; device = false }

-- The frame 0x40100 is given out.
abbrev machine : Machine
machine = record {
  frames = record {
    range_start = 0x40100;
    range_end = 0x48000;
    next_available = 0x40101;
    free_list = [];
  };
  tables = λ f i. 0;
}

abbrev root : PageTable
root = record { root_paddr = 0x4010_0000; intrm_tables = 0x4010_0000 ∷ [] }

machine-IsMemory : IsMemory machine.frames
machine-IsMemory = record {
  valid = record { order = omega arith; bounded = omega arith; distinct = tt; in_range = tt };
  last = omega arith;
}

root-IsTree-example : IsTree root machine (λ h. [])
root-IsTree-example =
    root-IsTree machine 0x4010_0000 machine-IsMemory
      (record {
        held = record { first = omega arith; given = omega arith; taken = refl };
        aligned = omega arith;
        inside = omega arith;
      })
      (λ i. refl)

map_page_refines_example : Mapped root machine 0x7000 0x4010_0000 user_data
unfolding available_space
map_page_refines_example =
    map_page_refines root machine (λ h. []) 0x7000 0x4010_0000 user_data root-IsTree-example
      (omega arith) (omega arith)

root-unmapped : query root machine 0x7000 ≡ done none
unfolding query index_of indices next_table is_present
root-unmapped = refl

unmap_page-map_page_example :
    (pt' : PageTable) × (m' m'' : Machine) × (place' : ℕ → List ℕ) × (map_page root machine 0x7000
        0x4010_0000 user_data
      ≡ done (pt', m'))
    × (unmap_page pt' m' 0x7000 ≡ done m'')
    × IsTree pt' m'' place'
    × ((x : ℕ) → query pt' m'' (beside 0x7000 x) ≡ query root machine (beside 0x7000 x))
unfolding available_space
unmap_page-map_page_example =
    unmap_page-map_page root machine (λ h. []) 0x7000 0x4010_0000 user_data root-IsTree-example
      (omega arith) (omega arith) root-unmapped
