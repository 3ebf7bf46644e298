-- ===== src/Mm/PageTable/Root.antt =====
-- A new page table: its root alone.
use r_core_tutorial_v3_arm.Base.{
  ℕ, ◌+◌, ◌≤◌, ◌≡◌, refl, sym, ap, ◌∙◌, subst, [], ◌∷◌, arith, eq_refl, done,
}
use r_core_tutorial_v3_arm.Allocator.{available_space}
use r_core_tutorial_v3_arm.Mm.Frame.{IsMemory, Owns}
use r_core_tutorial_v3_arm.Mm.PageTable.{PageTable, Machine, zero_table, alloc_table, new_table_set}
use r_core_tutorial_v3_arm.Mm.PageTable.Tree.{IsTable, IsTree}
use r_core_tutorial_v3_arm.Mm.PageTable.Grow.{alloc-Given}

-- One empty table is a tree.
pub root-IsTree :
    (m : Machine) (g : ℕ)
    → IsMemory m.frames
    → Owns m.frames (record { start_paddr = g })
    → ((i : ℕ) → m.tables g i ≡ 0)
    → IsTree (record { root_paddr = g; intrm_tables = g ∷ [] }) m (λ h. [])
root-IsTree m g memory o empty = record {
  memory = memory;
  root_table = ground (arith, eq_refl g);
  root_place = refl;
  owned = λ f t. subst (λ x. Owns m.frames (record { start_paddr = x })) (only f t) o;
  linked = λ f i t l n. absurd (n (ap (λ x. m.tables x i) (sym (only f t)) ∙ empty i));
}
  where
    only : (f : ℕ) → IsTable (record { root_paddr = g; intrm_tables = g ∷ [] }) f → g ≡ f
    only f t = ground (arith, t)

-- `PageTable::new` gives a tree that maps nothing, where a frame is left.
pub new_table_set-IsTree :
    (m : Machine)
    → IsMemory m.frames
    → 1 ≤ available_space m.frames
    → (pt : PageTable) × (m' : Machine) × (new_table_set m ≡ done (pt, m'))
      × IsTree pt m' (λ h. [])
      × (available_space m'.frames + 1 ≡ available_space m.frames)
unfolding new_table_set alloc_table
new_table_set-IsTree m memory room =
    let (g, b, e, given) = alloc-Given m.frames memory room in
    let cleared : Machine = record { frames = b; tables = zero_table m.tables g } in
    (
      record { root_paddr = g; intrm_tables = g ∷ [] },
      cleared,
      rw e,
      root-IsTree cleared g given.memory given.owns (λ i. ground (arith, eq_refl g)),
      given.space,
    )
