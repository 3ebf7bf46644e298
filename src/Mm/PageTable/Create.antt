-- ===== src/Mm/PageTable/Create.antt =====
-- The walk that makes the tables it misses.
use r_core_tutorial_v3_arm.Base.{
  ℕ, ◌+◌, ◌≤◌, ◌<◌, ◌≡◌, refl, sym, ap, ◌∙◌, ◌≢◌, inl, inr, some, List, [], ◌∷◌, arith, ◌==◌,
  ==_iff, Bool-cases, length, done,
}
use r_core_tutorial_v3_arm.Allocator.{available_space}
use r_core_tutorial_v3_arm.Mm.Entry.{new_table, is_unused}
use r_core_tutorial_v3_arm.Mm.Entry.Fields.{entry_paddr-new_table}
use r_core_tutorial_v3_arm.Mm.PageTable.{
  PageTable, Machine, get_entry, next_or_create, get_or_create,
}
use r_core_tutorial_v3_arm.Mm.PageTable.Tree.{
  IsTable, IsTree, owned_page, rev_append, next_table-some, step_some,
}
use r_core_tutorial_v3_arm.Mm.PageTable.Grow.{Extends, Extends-refl, Extends-trans, grow-Extends}

-- One level down: to the table that is there, or to a new one.
abbrev Descends : PageTable → Machine → (ℕ → List ℕ) → ℕ → ℕ → Type 0
Descends pt m place f i =
    (g : ℕ) × (pt' : PageTable) × (m' : Machine) × (place' : ℕ → List ℕ) × (next_or_create pt m f i
      ≡ done (some g, pt', m'))
    × Extends pt m place pt' m' place'
    × IsTable pt' g
    × (place' g ≡ i ∷ place f)
    × (m'.tables f i ≡ new_table g)
    × (available_space m.frames ≤ available_space m'.frames + 1)

next_or_create-Descends :
    (pt : PageTable) (m : Machine) (place : ℕ → List ℕ) (f i : ℕ)
    → IsTree pt m place
    → IsTable pt f
    → length (place f) < 3
    → 1 ≤ available_space m.frames
    → Descends pt m place f i
unfolding next_or_create is_unused
next_or_create-Descends pt m place f i tree tf lf room = elim (Bool-cases (m.tables f i == 0)) [
  | inl y ↦
      let (g, pt', m', place', e, x, tg, pg, link, space) =
        grow-Extends pt m place f i tree tf lf ((==_iff (m.tables f i) 0).0 y) room in
      (g, pt', m', place', rw (y, e), x, tg, pg, link, omega (arith, space))
  | inr used ↦
      let (g, e, tg, pg) = tree.linked f i tf lf (λ z. ground (arith, used, z)) in
      (
        g,
        pt,
        m,
        place,
        rw used (rw e (rw (next_table-some g (owned_page m g (tree.owned g tg))))),
        Extends-refl pt m place tree,
        tg,
        pg,
        e,
        omega arith,
      )
]

-- The whole walk ends at an entry of a table of the last level.
abbrev Reaches : PageTable → Machine → (ℕ → List ℕ) → ℕ → List ℕ → Type 0
Reaches pt m place f is =
    (g k : ℕ) × (pt' : PageTable) × (m' : Machine) × (place' : ℕ → List ℕ) × (get_or_create pt m f
        is
      ≡ done (some (g, k), pt', m'))
    × Extends pt m place pt' m' place'
    × IsTable pt' g
    × (length (place' g) ≡ 3)
    × (k ∷ place' g ≡ rev_append is (place f))
    × (get_entry m'.tables f is ≡ done (some (g, k)))

new_table_nonzero : (g : ℕ) → new_table g ≢ 0
unfolding is_unused
new_table_nonzero g z = let (p, b, v, u) = entry_paddr-new_table g in ground (arith, u, z)

pub get_or_create-Reaches :
    (pt : PageTable) (m : Machine) (place : ℕ → List ℕ) (f i : ℕ) (is : List ℕ)
    → IsTree pt m place
    → IsTable pt f
    → length (place f) + length (i ∷ is) ≡ 4
    → length is ≤ available_space m.frames
    → Reaches pt m place f (i ∷ is)
get_or_create-Reaches pt m place f i [] tree tf l room =
    (f, i, pt, m, place, refl, Extends-refl pt m place tree, tf, omega (arith, l), refl, refl)
get_or_create-Reaches pt m place f i (j ∷ is) tree tf l room =
    let (g, pt1, m1, place1, e, x, tg, pg, link, space) =
      next_or_create-Descends pt m place f i tree tf (omega (arith, l)) (omega (arith, room)) in
    let (h, k, pt2, m2, place2, e2, x2, th, lh, q, w) =
      get_or_create-Reaches pt1 m1 place1 g j is x.tree tg (omega (arith, l, ap length pg))
        (omega (arith, room, space)) in
    let link2 = x2.entries f i (x.kept f tf).0 (λ z. new_table_nonzero g (sym link ∙ z)) ∙ link in
    (
      h,
      k,
      pt2,
      m2,
      place2,
      rw e e2,
      Extends-trans pt m place pt1 m1 place1 pt2 m2 place2 x x2,
      th,
      lh,
      q ∙ ap (rev_append (j ∷ is)) pg,
      step_some m2.tables f i j g is link2 (owned_page m1 g (x.tree.owned g tg)) ∙ w,
    )
