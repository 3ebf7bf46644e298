-- ===== src/Mm/PageTable.antt =====
-- os/src/mm/page_table.rs: the four-level table, in the frames that the frame allocator gives out. The
-- memory of the tables is a function from the address of a frame and an index to the entry. The walk
-- through the levels, which the source writes out, is a recursion over the indices.
pub mod Tree
pub mod Grow
pub mod Create
pub mod Map
pub mod Root
pub mod Change
pub mod Refine
mod Tests
use r_core_tutorial_v3_arm.Base.{
  ℕ, zero, suc, ◌+◌, ◌-◌, ◌*◌, ◌/◌, ◌%◌, ◌^◌, ◌≤◌, ◌<◌, min, bit_and, bit_or, ◌≡◌, refl, sym, ap,
  ◌∙◌, subst, fun_ext, ◌≢◌, ◌↔◌, ◌⊎◌, inl, inr, Bool, true, false, not, ◌&&◌, ◌||◌, Option, none,
  some, List, [], ◌∷◌, ◌++◌, map, arith, ltb, leb, ◌==◌, if◌then◌else◌, ltb→lt, leb→le, ==_iff,
  eq_refl, Bool-cases, Option-cases, length, get_elem?, set, get_or, take, drop, replicate,
  length-append, length-set, length-replicate, get_or-set_self, get_or-set_ne, get_elem?-set_self,
  get_elem?-set_ne, All, All-map, All-append, contains, Distinct, contains-append, Distinct-snoc,
  Run, done, panic, ◌>>=◌, ◌>>◌, take-nil, drop-nil, take-append-drop, length-drop, List-cases,
  ltb-suc, ltb-zero, assert, unwrap, done-injective,
}
use r_core_tutorial_v3_arm.Allocator.{FreeListAllocator}
use r_core_tutorial_v3_arm.Mm.Address.{page_size, new_paddr, align_down, page_offset}
use r_core_tutorial_v3_arm.Mm.Frame
use r_core_tutorial_v3_arm.Mm.Frame.{PhysFrame}
use r_core_tutorial_v3_arm.Mm.Entry.{
  MemFlags, new_page, new_table, entry_paddr, entry_flags, is_unused, is_present, is_block,
}

pub record PageTable : Type 0 where
  pub root_paddr : ℕ
  pub intrm_tables : List ℕ

-- The frame allocator, and the memory of the tables.
pub record Machine : Type 0 where
  pub frames : FreeListAllocator
  pub tables : ℕ → ℕ → ℕ

abbrev pub set_entry : (ℕ → ℕ → ℕ) → ℕ → ℕ → ℕ → ℕ → ℕ → ℕ
set_entry t f i e g j = if g == f && j == i then e else t g j

abbrev pub zero_table : (ℕ → ℕ → ℕ) → ℕ → ℕ → ℕ → ℕ
zero_table t f g j = if g == f then 0 else t g j

-- `PhysFrame::alloc_zero().unwrap()`
unfoldable pub alloc_table : Machine → Run (ℕ × Machine)
alloc_table m = do
  r ← Frame.alloc m.frames
  f ← unwrap r.0
  done (f.start_paddr, record { frames = r.1; tables = zero_table m.tables f.start_paddr })

unfoldable pub new_table_set : Machine → Run (PageTable × Machine)
unfolding alloc_table
new_table_set m = do
  r ← alloc_table m
  done (record { root_paddr = r.0; intrm_tables = r.0 ∷ [] }, r.1)

-- `p4_index` is that of level 3, and so on.
unfoldable pub index_of : ℕ → ℕ → ℕ
index_of level vaddr = bit_and (vaddr / 2 ^ (12 + 9 * level)) (512 - 1)

unfoldable pub indices : ℕ → List ℕ
unfolding index_of
indices vaddr = index_of 3 vaddr ∷ (index_of 2 vaddr ∷ (index_of 1 vaddr ∷ (index_of 0 vaddr ∷ [])))

-- `next_table_mut`
unfoldable pub next_table : ℕ → Run (Option ℕ)
next_table e =
    if not (is_present e)
    then done none
    else (assert (not (is_block e)) >> done (some (entry_paddr e)))

-- `get_entry_mut`: the frame and the index of the last entry.
abbrev pub get_entry : (ℕ → ℕ → ℕ) → ℕ → List ℕ → Run (Option (ℕ × ℕ))
get_entry t f [] = panic
get_entry t f (i ∷ []) = done (some (f, i))
get_entry t f (i ∷ (j ∷ is)) =
    next_table (t f i) >>= λ next. elim next [ none ↦ done none | some g ↦ get_entry t g (j ∷ is) ]

-- `alloc_intrm_table` and the entry that refers to the new table.
unfoldable pub grow : PageTable → Machine → ℕ → ℕ → Run (ℕ × PageTable × Machine)
unfolding alloc_table
grow pt m f i = do
  r ← alloc_table m
  done (
    r.0,
    record pt { intrm_tables = pt.intrm_tables ++ (r.0 ∷ []) },
    record r.1 { tables = set_entry r.1.tables f i (new_table r.0) },
  )

-- `next_table_mut_or_create`
unfoldable pub next_or_create : PageTable → Machine → ℕ → ℕ → Run (Option ℕ × PageTable × Machine)
unfolding grow
next_or_create pt m f i =
    if is_unused (m.tables f i)
    then (grow pt m f i >>= λ r. done (some r.0, r.1, r.2))
    else (next_table (m.tables f i) >>= λ next. done (next, pt, m))

-- `get_entry_mut_or_create`
abbrev pub get_or_create :
    PageTable → Machine → ℕ → List ℕ → Run (Option (ℕ × ℕ) × PageTable × Machine)
get_or_create pt m f [] = panic
get_or_create pt m f (i ∷ []) = done (some (f, i), pt, m)
get_or_create pt m f (i ∷ (j ∷ is)) = next_or_create pt m f i >>= λ r. elim r.0 [
  | none ↦ done (none, r.1, r.2)
  | some g ↦ get_or_create r.1 r.2 g (j ∷ is)
]

unfoldable pub map_page : PageTable → Machine → ℕ → ℕ → MemFlags → Run (PageTable × Machine)
map_page pt m vaddr paddr flags = do
  r ← get_or_create pt m pt.root_paddr (indices vaddr)
  entry ← unwrap r.0
  assert (is_unused (r.2.tables entry.0 entry.1))
  done (
    r.1,
    record r.2 {
      tables =
          set_entry r.2.tables entry.0 entry.1 (new_page (align_down paddr page_size) flags false);
    },
  )

unfoldable pub unmap_page : PageTable → Machine → ℕ → Run Machine
unmap_page pt m vaddr = do
  found ← get_entry m.tables pt.root_paddr (indices vaddr)
  entry ← unwrap found
  assert (not (is_unused (m.tables entry.0 entry.1)))
  done (record m { tables = set_entry m.tables entry.0 entry.1 0 })

-- The answer for the entry that was found.
abbrev pub translate : ℕ → ℕ → Run (Option (ℕ × MemFlags))
translate e vaddr =
    if is_unused e
    then done none
    else (entry_flags e >>= λ flags.
        done (some (new_paddr (entry_paddr e + page_offset vaddr page_size), flags)))

unfoldable pub query : PageTable → Machine → ℕ → Run (Option (ℕ × MemFlags))
query pt m vaddr = get_entry m.tables pt.root_paddr (indices vaddr) >>= λ found. elim found [
  | none ↦ done none
  | some (f, i) ↦ translate (m.tables f i) vaddr
]
