-- ===== src/Mm/Area/Tests.antt =====
-- An area of two pages without frames, and three bytes across the border of its pages.
use r_core_tutorial_v3_arm.Base.{ℕ, ◌≡◌, refl, true, false, List, [], ◌∷◌, arith}
use r_core_tutorial_v3_arm.Mm.Address.{is_aligned}
use r_core_tutorial_v3_arm.Mm.Frame.{PhysFrame}
use r_core_tutorial_v3_arm.Mm.Area.{Mapper, framed, MapArea, Memory, write_data}
use r_core_tutorial_v3_arm.Mm.Area
use r_core_tutorial_v3_arm.Mm.Area.Mapped.{IsArea, IsMapped, mapped, map-IsMapped}
use r_core_tutorial_v3_arm.Mm.Area.Loaded.{IsLoaded}
use r_core_tutorial_v3_arm.Mm.Area.Joined.{loaded}
use r_core_tutorial_v3_arm.Mm.Area.Writing.{write_data-IsLoaded}
use r_core_tutorial_v3_arm.Allocator.{available_space}

abbrev two_pages : MapArea
two_pages = record {
  start = 0x7000;
  size = 0x2000;
  flags = record { read = true; write = true; execute = false; user = true; device = false };
  mapper = framed [];
}

abbrev memory : Memory
memory = record {
  frames = record {
    range_start = 0x40100;
    range_end = 0x48000;
    next_available = 0x40101;
    free_list = [];
  };
  bytes = λ q. 0;
}

empty-IsArea : IsArea [] memory.frames
empty-IsArea = record {
  memory = record {
    valid = record { order = omega arith; bounded = omega arith; distinct = tt; in_range = tt };
    last = omega arith;
  };
  owned = λ v f e. absurd (grind (arith, e));
  apart = λ v w f g n e d. absurd (grind (arith, e));
}

map-IsMapped_example :
    (p : ℕ) × (frames' : List (ℕ × PhysFrame)) × (m' : Memory) × (Area.map two_pages memory 0x8000
      ≡ mapped p two_pages frames' m')
    × IsMapped [] memory 0x8000 p frames' m'
unfolding available_space is_aligned
map-IsMapped_example = map-IsMapped two_pages memory [] 0x8000 refl empty-IsArea refl (omega arith)

write_data-IsLoaded_example :
    (frames' : List (ℕ × PhysFrame)) × (m' : Memory) × (write_data two_pages memory 4095
        (1 ∷ (2 ∷ (3 ∷ [])))
      ≡ loaded two_pages frames' m')
    × IsLoaded 0x7000 [] memory 4095 (1 ∷ (2 ∷ (3 ∷ []))) frames' m'
unfolding available_space is_aligned
write_data-IsLoaded_example =
    write_data-IsLoaded 7 two_pages memory 4095 (1 ∷ (2 ∷ (3 ∷ []))) [] refl refl empty-IsArea
      (omega arith) (omega arith) (omega arith) (omega arith)
