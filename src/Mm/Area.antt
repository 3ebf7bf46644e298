-- ===== src/Mm/Area.antt =====
-- os/src/mm/memory_set.rs: `MapArea`. The `BTreeMap` of the frames is a list of pairs in which the first
-- one with a key counts; physical memory is a function from addresses to bytes, beside the frame allocator.
pub mod Mapped
pub mod Loaded
pub mod Joined
pub mod Writing
mod Tests
use r_core_tutorial_v3_arm.Base.{
  ℕ, zero, suc, ◌+◌, ◌-◌, ◌*◌, ◌/◌, ◌%◌, ◌^◌, ◌≤◌, ◌<◌, min, bit_and, bit_or, ◌≡◌, refl, sym, ap,
  ◌∙◌, subst, fun_ext, ◌≢◌, ◌↔◌, ◌⊎◌, inl, inr, Bool, true, false, not, ◌&&◌, ◌||◌, Option, none,
  some, List, [], ◌∷◌, ◌++◌, arith, ltb, leb, ◌==◌, if◌then◌else◌, ltb→lt, leb→le, ==_iff, eq_refl,
  Bool-cases, Option-cases, length, get_elem?, set, get_or, take, drop, replicate, length-append,
  length-set, length-replicate, get_or-set_self, get_or-set_ne, get_elem?-set_self,
  get_elem?-set_ne, All, All-map, All-append, contains, Distinct, contains-append, Distinct-snoc,
  Run, done, panic, ◌>>=◌, ◌>>◌, take-nil, drop-nil, take-append-drop, length-drop, List-cases,
  ltb-suc, ltb-zero, assert, unwrap, done-injective,
}
use r_core_tutorial_v3_arm.Allocator.{FreeListAllocator}
use r_core_tutorial_v3_arm.Mm.Address.{page_size, is_aligned, align_down, new_paddr, new_vaddr}
use r_core_tutorial_v3_arm.Mm.Frame.{PhysFrame, alloc_zero, drop_frame}
use r_core_tutorial_v3_arm.Mm.Entry.{MemFlags}

pub data Mapper : Type 0 where
  offset : ℕ → Mapper
  framed : List (ℕ × PhysFrame) → Mapper

pub record MapArea : Type 0 where
  pub start : ℕ
  pub size : ℕ
  pub flags : MemFlags
  pub mapper : Mapper

pub record Memory : Type 0 where
  pub frames : FreeListAllocator
  pub bytes : ℕ → ℕ

unfoldable pub new_offset : ℕ → ℕ → ℕ → MemFlags → Run MapArea
new_offset start_vaddr start_paddr size flags = do
  assert (is_aligned start_vaddr page_size)
  assert (is_aligned start_paddr page_size)
  assert (is_aligned size page_size)
  assert (leb start_paddr start_vaddr)
  done (record {
    start = start_vaddr;
    size = size;
    flags = flags;
    mapper = offset (start_vaddr - start_paddr);
  })

unfoldable pub new_framed : ℕ → ℕ → MemFlags → Run MapArea
new_framed start_vaddr size flags = do
  assert (is_aligned start_vaddr page_size)
  assert (is_aligned size page_size)
  done (record { start = start_vaddr; size = size; flags = flags; mapper = framed [] })

-- The map of pages to frames.
abbrev pub find_frame : List (ℕ × PhysFrame) → ℕ → Option PhysFrame
find_frame [] vaddr = none
find_frame ((key, f) ∷ frames) vaddr = if key == vaddr then some f else find_frame frames vaddr

abbrev pub remove : List (ℕ × PhysFrame) → ℕ → List (ℕ × PhysFrame)
remove [] vaddr = []
remove ((key, f) ∷ frames) vaddr =
    let rest = remove frames vaddr in if key == vaddr then rest else (key, f) ∷ rest

-- `PhysFrame::alloc_zero().unwrap()` for a page that is not in the map.
unfoldable pub map_vacant : List (ℕ × PhysFrame) → MapArea → Memory → ℕ → Run (ℕ × MapArea × Memory)
map_vacant frames area m vaddr = do
  r ← alloc_zero m.frames m.bytes
  f ← unwrap r.0
  done (
    f.start_paddr,
    record area { mapper = framed ((vaddr, f) ∷ frames) },
    record { frames = r.1; bytes = r.2 },
  )

abbrev pub map_by : Mapper → MapArea → Memory → ℕ → Run (ℕ × MapArea × Memory)
map_by (offset off) area m vaddr = assert (leb off vaddr) >> done (new_paddr (vaddr - off), area, m)
map_by (framed frames) area m vaddr = elim (find_frame frames vaddr) [
  | some f ↦ done (f.start_paddr, area, m)
  | none ↦ map_vacant frames area m vaddr
]

unfoldable pub map : MapArea → Memory → ℕ → Run (ℕ × MapArea × Memory)
map area m vaddr = assert (is_aligned vaddr page_size) >> map_by area.mapper area m vaddr

-- The frame that leaves the map is dropped.
abbrev pub unmap_by : Mapper → MapArea → Memory → ℕ → Run (MapArea × Memory)
unmap_by (offset off) area m vaddr = done (area, m)
unmap_by (framed frames) area m vaddr = elim (find_frame frames vaddr) [
  | none ↦ done (area, m)
  | some f ↦ drop_frame f m.frames >>= λ b.
      done (record area { mapper = framed (remove frames vaddr) }, record m { frames = b })
]

unfoldable pub unmap : MapArea → Memory → ℕ → Run (MapArea × Memory)
unmap area m vaddr = unmap_by area.mapper area m vaddr

-- The bytes that one round of `write_data` copies to `p`.
abbrev pub copy_to : ℕ → List ℕ → (ℕ → ℕ) → ℕ → ℕ
copy_to p bytes mem q =
    if leb p q && ltb q (p + length bytes) then get_or bytes (q - p) 0 else mem q

-- The loop of `write_data`, on fuel; `input` is what remains.
abbrev pub write_loop : ℕ → MapArea → Memory → ℕ → List ℕ → Run (MapArea × Memory)
write_loop fuel area m start [] = done (area, m)
write_loop zero area m start (x ∷ input) = panic
write_loop (suc fuel) area m start (x ∷ input) = do
  vaddr ← new_vaddr (area.start + align_down start page_size)
  r ← map area m vaddr
  let pgoff = start - align_down start page_size
  let n = min (page_size - pgoff) (length (x ∷ input))
  write_loop fuel r.1 (record r.2 { bytes = copy_to (r.0 + pgoff) (take n (x ∷ input)) r.2.bytes })
      (start + n) (drop n (x ∷ input))

unfoldable pub write_data : MapArea → Memory → ℕ → List ℕ → Run (MapArea × Memory)
write_data area m from input = do
  assert (ltb from area.size)
  assert (leb (from + length input) area.size)
  write_loop (length input) area m from input
