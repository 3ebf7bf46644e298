-- ===== src/Mm/PageTable/Change.antt =====
-- What a write at the end of a walk changes in the answers of `query`.
use r_core_tutorial_v3_arm.Base.{
  ℕ, ◌+◌, ◌*◌, ◌/◌, ◌%◌, ◌^◌, ◌≡◌, refl, sym, ap, ◌∙◌, subst, ◌≢◌, inl, inr, Option, some, List, [],
  ◌∷◌, arith, ◌==◌, if◌then◌else◌, ==_iff, Bool-cases, length, Run, done,
}
use r_core_tutorial_v3_arm.Mm.Address.{page_size}
use r_core_tutorial_v3_arm.Mm.Entry.{MemFlags}
use r_core_tutorial_v3_arm.Mm.PageTable.{
  PageTable, Machine, set_entry, index_of, indices, get_entry, translate, query,
}
use r_core_tutorial_v3_arm.Mm.PageTable.Tree.{
  IsTable, IsTree, leaf, rev_append, leaf-set_entry, set_entry-ne,
}
use r_core_tutorial_v3_arm.Mm.PageTable.Grow.{Extends}
use r_core_tutorial_v3_arm.Mm.PageTable.Map.{
  indices_page, later, indices-cons, entry_of, four_places, query-entry_of,
}

-- A write at an entry of the last level keeps the tree.
pub set_entry-IsTree :
    (pt : PageTable) (m : Machine) (place : ℕ → List ℕ) (g k e : ℕ)
    → IsTree pt m place
    → length (place g) ≡ 3
    → IsTree pt (record m { tables = set_entry m.tables g k e }) place
set_entry-IsTree pt m place g k e tree lg = record {
  memory = tree.memory;
  root_table = tree.root_table;
  root_place = tree.root_place;
  owned = tree.owned;
  linked = λ f i t l n.
      let same : set_entry m.tables g k e f i ≡ m.tables f i =
        set_entry-ne m.tables g k e f i
          (λ x y. absurd (omega (arith, l, lg, ap (λ z. length (place z)) x))) in
      let (x, q, u, p) = tree.linked f i t l (λ z. n (same ∙ z)) in (x, same ∙ q, u, p);
}

-- The address with the low 48 bits of `x` in the half of the address space that `v` lies in.
abbrev pub beside : ℕ → ℕ → ℕ
beside v x = (v / 2 ^ 48) * 2 ^ 48 + x % 2 ^ 48

pub beside-half : (v x : ℕ) → v / 2 ^ 48 ≡ beside v x / 2 ^ 48
beside-half v x = omega arith

pub beside_same : (v w : ℕ) → v / 2 ^ 48 ≡ w / 2 ^ 48 → beside v w ≡ w
beside_same v w half = omega (arith, half)

abbrev pub Change :
    PageTable → Machine → ℕ → (ℕ → Run (Option (ℕ × MemFlags))) → PageTable → Machine → ℕ → Type 0
Change pt m v answer pt' m' w =
    query pt' m' w ≡ (if v / page_size == w / page_size then answer w else query pt m w)

-- What a change of one page leaves: in its half of the address space the page answers `answer`, and
-- every other page what it answered.
abbrev pub Changes :
    PageTable → Machine → ℕ → (ℕ → Run (Option (ℕ × MemFlags))) → PageTable → Machine → Type 0
Changes pt m v answer pt' m' = (x : ℕ) → Change pt m v answer pt' m' (beside v x)

pub Changes-at :
    (pt : PageTable) (m : Machine) (v : ℕ) (answer : ℕ → Run (Option (ℕ × MemFlags)))
    (pt' : PageTable) (m' : Machine) (w : ℕ)
    → Changes pt m v answer pt' m'
    → v / 2 ^ 48 ≡ w / 2 ^ 48
    → Change pt m v answer pt' m' w
Changes-at pt m v answer pt' m' w c half =
    subst (Change pt m v answer pt' m') (beside_same v w half) (c w)

-- A write at the end of the walk of `v`, seen by the queries.
pub written-Changes :
    (pt : PageTable) (m : Machine) (place : ℕ → List ℕ) (v g k e : ℕ)
    (answer : ℕ → Run (Option (ℕ × MemFlags)))
    → IsTree pt m place
    → IsTable pt g
    → length (place g) ≡ 3
    → get_entry m.tables pt.root_paddr (indices v) ≡ done (some (g, k))
    → k ∷ place g ≡ rev_append (indices v) []
    → ((w : ℕ) → translate e w ≡ answer w)
    → (w : ℕ) → v / 2 ^ 48 ≡ w / 2 ^ 48
    → Change pt m v answer pt (record m { tables = set_entry m.tables g k e }) w
unfolding indices
written-Changes pt m place v g k e answer tree tg lg walk path a w half =
    elim (Bool-cases (v / page_size == w / page_size)) [
      | inl y ↦
          let is = (indices_page v w half).1 ((==_iff (v / page_size) (w / page_size)).0 y) in
          query-entry_of pt after place w after_tree
          ∙ ap (λ x. translate x w) (leaves.0 (sym is))
          ∙ a w
          ∙ ground (arith, y)
      | inr n ↦
          query-entry_of pt after place w after_tree
          ∙ ap (λ x. translate x w)
              (leaves.1 (λ is. ground (arith, n, (indices_page v w half).0 (sym is))))
          ∙ sym (query-entry_of pt m place w tree)
          ∙ ground (arith, n)
    ]
  where
    after : Machine
    after = record m { tables = set_entry m.tables g k e }

    after_tree : IsTree pt after place
    after_tree = set_entry-IsTree pt m place g k e tree lg

    leaves :
        ((indices w ≡ indices v) → entry_of pt after w ≡ e)
        × ((indices w ≢ indices v) → entry_of pt after w ≡ entry_of pt m w)
    leaves =
        leaf-set_entry pt m place g k e (index_of 3 v) (later v) (index_of 3 w) (later w) tree tg lg
          walk path refl

-- The walk of `map` does not change what the queries answer.
pub Extends-query :
    (pt : PageTable) (m : Machine) (place : ℕ → List ℕ) (pt' : PageTable) (m' : Machine)
    (place' : ℕ → List ℕ) (w : ℕ)
    → IsTree pt m place
    → Extends pt m place pt' m' place'
    → (entry_of pt' m' w ≡ entry_of pt m w) × (query pt' m' w ≡ query pt m w)
Extends-query pt m place pt' m' place' w tree x = (
  same,
  query-entry_of pt' m' place' w x.tree
      ∙ ap (λ e. translate e w) same
      ∙ sym (query-entry_of pt m place w tree),
)
  where
    same : entry_of pt' m' w ≡ entry_of pt m w
    same =
        ap (λ r. leaf m'.tables r (indices w)) x.same_root
        ∙ ap (leaf m'.tables pt.root_paddr) (indices-cons w)
        ∙ x.leaves pt.root_paddr (index_of 3 w) (later w) tree.root_table
            (four_places pt m place w tree)
        ∙ ap (leaf m.tables pt.root_paddr) (sym (indices-cons w))
