-- ===== src/Mm/Tests.antt =====
-- The theorems about addresses and frames, at concrete values.
use r_core_tutorial_v3_arm.Base.{
  ℕ, ◌≤◌, ◌≡◌, refl, ◌⊎◌, none, some, List, [], ◌∷◌, ◌++◌, arith, ◌==◌, if◌then◌else◌, length, done,
  panic,
}
use r_core_tutorial_v3_arm.Allocator.{FreeListAllocator, available_space}
use r_core_tutorial_v3_arm.Mm.Address.{phys_to_virt, virt_to_phys, new_vaddr}
use r_core_tutorial_v3_arm.Mm.Access.{read_str}
use r_core_tutorial_v3_arm.Mm.Access.Strings.{IsStringAt, read_str_lem}
use r_core_tutorial_v3_arm.Mm.Frame.{PhysFrame, alloc, drop_frame, IsMemory, Owns, alloc-Owns}

-- Frames 0x40100 to 0x47fff, of which the first two were given out and the second came back.
abbrev frames : FreeListAllocator
frames = record {
  range_start = 0x40100;
  range_end = 0x48000;
  next_available = 0x40102;
  free_list = 0x40101 ∷ [];
}

frames-IsMemory : IsMemory frames
frames-IsMemory = record {
  valid = record {
    order = omega arith;
    bounded = omega arith;
    distinct = (refl, tt);
    in_range = ((omega arith, omega arith), tt);
  };
  last = omega arith;
}

virtual_addresses :
    (phys_to_virt 0x4000_0000 ≡ done 0xffff_0000_4000_0000)
    × (virt_to_phys 0xffff_0000_4000_0000 ≡ done 0x4000_0000)
    × (virt_to_phys 0x4000_0000 ≡ panic)
    × (new_vaddr 0x1_0000_0000_0000 ≡ panic)
    × (new_vaddr 0xffff_0000_0000_0000 ≡ done 0xffff_0000_0000_0000)
unfolding phys_to_virt virt_to_phys new_vaddr
virtual_addresses = (refl, refl, refl, refl, refl)

alloc-Owns_example :
    ((alloc frames ≡ done (none, frames)) × (available_space frames ≡ 0))
    ⊎ ((f : PhysFrame) × (b c : FreeListAllocator) × (alloc frames ≡ done (some f, b))
        × (¬ Owns frames f)
        × Owns b f
        × IsMemory b
        × (drop_frame f b ≡ done c)
        × (available_space c ≡ available_space frames))
alloc-Owns_example = alloc-Owns frames frames-IsMemory

-- The string "ab" at address 0x7000, and a pointer to the kernel.
abbrev user_memory : ℕ → ℕ
user_memory a = if a == 0x7000 then 97 else if a == 0x7001 then 98 else 0

abbrev buffer_start : ℕ
buffer_start = 0x7000

read_str_lem_example :
    (((buffer_start ≡ 0) × (read_str user_memory buffer_start 256 ≡ panic))
      ⊎ ((s : List ℕ) × (read_str user_memory buffer_start 256 ≡ done (s ++ (0 ∷ []), length s))
          × IsStringAt user_memory buffer_start 255 s
          × (length (s ++ (0 ∷ [])) ≤ 256)))
    × (read_str user_memory 0xffff_0000_4000_0000 256 ≡ panic)
read_str_lem_example =
    read_str_lem user_memory buffer_start 256 0xffff_0000_4000_0000 (omega arith) (omega arith)
      (omega arith) (omega arith)
