-- ===== src/Syscall/Slots.antt =====
-- A table whose free places are used again: `Process::alloc_fd` of os/src/task/structs.rs and the search
-- in the three `create` calls of os/src/syscall/sync.rs.
pub mod Lowest
use r_core_tutorial_v3_arm.Base.{
  ℕ, zero, suc, ◌+◌, ◌-◌, ◌*◌, ◌/◌, ◌%◌, ◌^◌, ◌≤◌, ◌<◌, min, bit_and, bit_or, ◌≡◌, refl, sym, ap,
  ◌∙◌, subst, fun_ext, ◌≢◌, ◌↔◌, ◌⊎◌, inl, inr, Bool, true, false, not, ◌&&◌, ◌||◌, Option, none,
  some, List, [], ◌∷◌, ◌++◌, map, arith, ltb, leb, ◌==◌, if◌then◌else◌, ltb→lt, leb→le, ==_iff,
  eq_refl, Bool-cases, Option-cases, length, get_elem?, set, get_or, take, drop, replicate,
  length-append, length-set, length-replicate, get_or-set_self, get_or-set_ne, get_elem?-set_self,
  get_elem?-set_ne, All, All-map, All-append, contains, Distinct, contains-append, Distinct-snoc,
  Run, done, panic, ◌>>=◌, ◌>>◌, take-nil, drop-nil, take-append-drop, length-drop, List-cases,
  ltb-suc, ltb-zero, assert, unwrap, done-injective,
}

module _ {ℓ} {A : Type ℓ} where
  abbrev pub is_none : Option A → Bool
  is_none none = true
  is_none (some a) = false

  -- `(0..table.len()).find(|i| table[*i].is_none())`, with the number of the first place.
  abbrev pub find_free : List (Option A) → ℕ → Option ℕ
  find_free [] i = none
  find_free (x ∷ xs) i = let rest = find_free xs (suc i) in if is_none x then some i else rest

  -- `alloc_fd`: the number of the place, and the table.
  abbrev pub choose : List (Option A) → Option ℕ → ℕ × List (Option A)
  choose table (some i) = (i, table)
  choose table none = (length table, table ++ (none ∷ []))

  abbrev pub fill : ℕ × List (Option A) → Option A → ℕ × List (Option A)
  fill (i, table) none = (i, table)
  fill (i, table) (some a) = (i, set table i (some a))

  unfoldable pub alloc_fd : List (Option A) → Option A → ℕ × List (Option A)
  alloc_fd table file = fill (choose table (find_free table 0)) file

  -- The same in `sys_semaphore_create` and its siblings, which push the new object itself.
  abbrev pub put : List (Option A) → A → Option ℕ → ℕ × List (Option A)
  put table a (some id) = (id, set table id (some a))
  put table a none = (length table, table ++ (some a ∷ []))

  unfoldable pub create : List (Option A) → A → ℕ × List (Option A)
  create table a = put table a (find_free table 0)
