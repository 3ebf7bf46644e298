-- ===== src/Allocator.antt =====
-- os/src/utils/allocator.rs: the allocator of numbers behind the physical frames.
-- `usize` values are plain numbers: none is computed that exceeds `range.end`.
pub mod Inv
mod Tests
use r_core_tutorial_v3_arm.Base.{
  ℕ, ◌+◌, ◌-◌, Bool, not, true, false, Option, none, some, List, [], ◌∷◌, leb, ltb, length,
  contains, if◌then◌else◌, Run, done, assert, ◌>>=◌, ◌>>◌,
}

-- `range` is `range_start..range_end`. The head of `free_list` is the back of the `Vec`.
pub record FreeListAllocator : Type 0 where
  pub range_start : ℕ
  pub range_end : ℕ
  pub next_available : ℕ
  pub free_list : List ℕ

abbrev pub empty : FreeListAllocator
empty = record { range_start = 0; range_end = 0; next_available = 0; free_list = [] }

-- `init` keeps the free list as it is.
unfoldable pub init : FreeListAllocator → ℕ → ℕ → FreeListAllocator
init a first last = record a { range_start = first; range_end = last; next_available = first }

unfoldable pub available_space : FreeListAllocator → ℕ
available_space a = length a.free_list + a.range_end - a.next_available

-- `free_list.pop()`, and otherwise a number that was never given out.
fresh : FreeListAllocator → Option ℕ × FreeListAllocator
fresh a =
    if leb a.range_end a.next_available
    then (none, a)
    else (some (a.next_available + 1 - 1), record a { next_available = a.next_available + 1 })

alloc_from : FreeListAllocator → List ℕ → Option ℕ × FreeListAllocator
unfolding fresh
alloc_from a [] = fresh a
alloc_from a (value ∷ rest) = (some value, record a { free_list = rest })

unfoldable pub alloc : FreeListAllocator → Option ℕ × FreeListAllocator
unfolding alloc_from fresh
alloc a = alloc_from a a.free_list

-- The three assertions, then the push.
unfoldable pub dealloc : FreeListAllocator → ℕ → Run FreeListAllocator
dealloc a value = do
  assert (leb a.range_start value)
  assert (ltb value a.next_available)
  assert (not (contains a.free_list value))
  done (record a { free_list = value ∷ a.free_list })
