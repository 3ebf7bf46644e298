-- ===== src/Mm/PageTable/Refine.antt =====
-- `map`, `unmap` and `query` are those of a finite map from pages to frames.
use r_core_tutorial_v3_arm.Base.{
  ℕ, ◌/◌, ◌^◌, ◌≤◌, ◌<◌, ◌≡◌, refl, sym, ap, ◌∙◌, ◌≢◌, ◌⊎◌, inl, inr, false, not, Option, none,
  some, List, [], ◌∷◌, arith, ◌==◌, if◌then◌else◌, ==_iff, eq_refl, Bool-cases, length, Run, done,
  panic, ◌>>◌, assert,
}
use r_core_tutorial_v3_arm.Allocator.{available_space}
use r_core_tutorial_v3_arm.Mm.Address.{page_size, align_down}
use r_core_tutorial_v3_arm.Mm.Entry.{MemFlags, new_page, is_unused}
use r_core_tutorial_v3_arm.Mm.PageTable.{
  PageTable, Machine, set_entry, index_of, indices, get_entry, map_page, unmap_page, translate,
  query,
}
use r_core_tutorial_v3_arm.Mm.PageTable.Tree.{
  IsTable, IsTree, Walked, early, arrived, entry_at, leaf, rev_append,
}
use r_core_tutorial_v3_arm.Mm.PageTable.Grow.{Extends}
use r_core_tutorial_v3_arm.Mm.PageTable.Create.{get_or_create-Reaches}
use r_core_tutorial_v3_arm.Mm.PageTable.Map.{
  indices_page, later, entry_of, four_places, walk-indices, query-entry_of, translate-none,
  mapped_to, translate-new_page,
}
use r_core_tutorial_v3_arm.Mm.PageTable.Change.{
  set_entry-IsTree, beside, beside-half, Changes, Changes-at, written-Changes, Extends-query,
}

-- The end of `map`, after its walk arrived at the entry `k` of the table `g`.
abbrev finish_map : PageTable → Machine → ℕ → ℕ → ℕ → Run (PageTable × Machine)
finish_map pt m g k e =
    assert (is_unused (m.tables g k)) >> done (pt, record m { tables = set_entry m.tables g k e })

abbrev Reached :
    PageTable → Machine → (ℕ → List ℕ) → ℕ → ℕ → ℕ → PageTable → Machine → (ℕ → List ℕ) → Type 0
Reached pt m place v g k pt' m' place' =
    Extends pt m place pt' m' place'
    × IsTable pt' g
    × (length (place' g) ≡ 3)
    × (k ∷ place' g ≡ rev_append (indices v) [])
    × (get_entry m'.tables pt'.root_paddr (indices v) ≡ done (some (g, k)))

map_page-Reached :
    (pt : PageTable) (m : Machine) (place : ℕ → List ℕ) (v p : ℕ) (f : MemFlags)
    → IsTree pt m place
    → 3 ≤ available_space m.frames
    → (g k : ℕ) × (pt' : PageTable) × (m' : Machine) × (place' : ℕ → List ℕ) × (map_page pt m v p f
        ≡ finish_map pt' m' g k (new_page (align_down p page_size) f false))
      × Reached pt m place v g k pt' m' place'
unfolding map_page indices
map_page-Reached pt m place v p f tree room =
    let (g, k, pt', m', place', e, x, t, l, q, w) =
      get_or_create-Reaches pt m place pt.root_paddr (index_of 3 v) (later v) tree tree.root_table
        (four_places pt m place v tree) room in
    (
      g,
      k,
      pt',
      m',
      place',
      rw e,
      (
        x,
        t,
        l,
        q ∙ ap (rev_append (indices v)) tree.root_place,
        ap (λ r. get_entry m'.tables r (indices v)) x.same_root ∙ w,
      ),
    )

-- Where the walk arrived, the entry is that of the page.
entry_of-arrived :
    (pt : PageTable) (m : Machine) (v g k : ℕ)
    → get_entry m.tables pt.root_paddr (indices v) ≡ done (some (g, k))
    → entry_of pt m v ≡ m.tables g k
entry_of-arrived pt m v g k w = ap (entry_at m.tables) w

-- The two outcomes of `map`.
abbrev pub Mapped : PageTable → Machine → ℕ → ℕ → MemFlags → Type 0
Mapped pt m v p f =
    ((query pt m v ≡ done none)
      × ((pt' : PageTable) × (m' : Machine) × (place' : ℕ → List ℕ) × (map_page pt m v p f
            ≡ done (pt', m'))
          × IsTree pt' m' place'
          × Changes pt m v (λ w. done (some (mapped_to p w, f))) pt' m'))
    ⊎ ((query pt m v ≢ done none) × (map_page pt m v p f ≡ panic))

-- On a tree of tables with three frames left, `map` of a page that answers nothing does not panic: the
-- tables are a tree again, every address of the page translates to the given frame, at its offset and
-- with the given flags, and every other page of that half of the address space translates as before.
-- `map` of a page that has a translation panics.
pub map_page_refines :
    (pt : PageTable) (m : Machine) (place : ℕ → List ℕ) (v p : ℕ) (f : MemFlags)
    → IsTree pt m place
    → 3 ≤ available_space m.frames
    → p < 2 ^ 40
    → Mapped pt m v p f
unfolding is_unused
map_page_refines pt m place v p f tree room lp =
    let (g, k, pt', m', place', e, (x, t, l, path, w)) =
      map_page-Reached pt m place v p f tree room in
    let arrived : m'.tables g k ≡ entry_of pt m v =
      sym (entry_of-arrived pt' m' v g k w) ∙ (Extends-query pt m place pt' m' place' v tree x).0 in
    elim (Bool-cases (m'.tables g k == 0)) [
      | inl y ↦
          let zero_entry = (==_iff (m'.tables g k) 0).0 y in
          inl (
            query-entry_of pt m place v tree ∙ ap (λ z. translate z v) (sym arrived ∙ zero_entry),
            (
              pt',
              record m' {
                tables = set_entry m'.tables g k (new_page (align_down p page_size) f false);
              },
              place',
              e ∙ rw zero_entry,
              set_entry-IsTree pt' m' place' g k (new_page (align_down p page_size) f false) x.tree
                  l,
              λ y.
                  written-Changes pt' m' place' v g k (new_page (align_down p page_size) f false)
                    (λ u. done (some (mapped_to p u, f))) x.tree t l w path
                    (λ u. translate-new_page p f u lp) (beside v y) (beside-half v y)
                  ∙ ap
                      (λ q.
                        if v / page_size == beside v y / page_size
                        then done (some (mapped_to p (beside v y), f))
                        else q)
                      (Extends-query pt m place pt' m' place' (beside v y) tree x).1,
            ),
          )
      | inr n ↦
          let used : m'.tables g k ≢ 0 = λ z. ground (arith, n, z) in
          inr (
            λ free. used (
                arrived
                ∙ translate-none (entry_of pt m v) v
                    (sym (query-entry_of pt m place v tree) ∙ free)),
            e ∙ used_panic pt' m' g k used,
          )
    ]
  where
    used_panic :
        (pt : PageTable) (m : Machine) (g k : ℕ)
        → m.tables g k ≢ 0
        → finish_map pt m g k (new_page (align_down p page_size) f false) ≡ panic
    used_panic pt m g k n = ground (arith, n)

-- The same for `unmap`, where the walk arrives.
unmap-arrived :
    (pt : PageTable) (m : Machine) (place : ℕ → List ℕ) (v : ℕ)
    → IsTree pt m place
    → (entry_of pt m v ≡ 0)
      ⊎ ((g k : ℕ) × (get_entry m.tables pt.root_paddr (indices v) ≡ done (some (g, k)))
          × IsTable pt g
          × (k ∷ place g ≡ rev_append (indices v) []))
unmap-arrived pt m place v tree = by_walk (walk-indices pt m place v tree)
  where
    by_walk :
        Walked pt m place pt.root_paddr (indices v)
        → (entry_of pt m v ≡ 0)
          ⊎ ((g k : ℕ) × (get_entry m.tables pt.root_paddr (indices v) ≡ done (some (g, k)))
              × IsTable pt g
              × (k ∷ place g ≡ rev_append (indices v) []))
    by_walk (early e) = inl (ap (entry_at m.tables) e)
    by_walk (arrived g i e t q) = inr (g, i, e, t, q ∙ ap (rev_append (indices v)) tree.root_place)

last_level : (v k : ℕ) (is : List ℕ) → k ∷ is ≡ rev_append (indices v) [] → length is ≡ 3
unfolding indices
last_level v k is e = omega (arith, ap length e)

-- On a tree of tables, `unmap` of a page that translates does not panic: the page answers nothing from
-- then on, every other page of that half translates as before, and the tables stay a tree.
pub unmap_page_refines :
    (pt : PageTable) (m : Machine) (place : ℕ → List ℕ) (v : ℕ) (r : ℕ × MemFlags)
    → IsTree pt m place
    → query pt m v ≡ done (some r)
    → (m' : Machine) × (unmap_page pt m v ≡ done m')
      × IsTree pt m' place
      × Changes pt m v (λ w. done none) pt m'
unfolding unmap_page is_unused
unmap_page_refines pt m place v r tree mapped = elim (unmap-arrived pt m place v tree) [
  | inl z ↦ absurd (cc (sym mapped ∙ query-entry_of pt m place v tree ∙ ap (λ y. translate y v) z))
  | inr (g, k, w, t, path) ↦ (
    record m { tables = set_entry m.tables g k 0 },
    rw w (still_used (m.tables g k) (used (entry_of-arrived pt m v g k w))),
    set_entry-IsTree pt m place g k 0 tree (last_level v k (place g) path),
    λ x.
        written-Changes pt m place v g k 0 (λ w. done none) tree t (last_level v k (place g) path) w
          path (λ u. refl) (beside v x) (beside-half v x),
  )
]
  where
    used : {e : ℕ} → entry_of pt m v ≡ e → e ≢ 0
    used a z =
        absurd
          (cc (sym mapped ∙ query-entry_of pt m place v tree ∙ ap (λ y. translate y v) (a ∙ z)))

    still_used : {A : Type 0} {a : A} (e : ℕ) → e ≢ 0 → (assert (not (e == 0)) >> done a) ≡ done a
    still_used e n = ground (arith, n)

same_page-none :
    (pt : PageTable) (m : Machine) (place : ℕ → List ℕ) (v w : ℕ)
    → IsTree pt m place
    → v / 2 ^ 48 ≡ w / 2 ^ 48
    → query pt m v ≡ done none
    → v / page_size ≡ w / page_size
    → query pt m w ≡ done none
unfolding is_unused
same_page-none pt m place v w tree half free page =
    query-entry_of pt m place w tree
    ∙ ap (λ e. translate e w)
        (ap (leaf m.tables pt.root_paddr) (sym ((indices_page v w half).1 page))
          ∙ translate-none (entry_of pt m v) v (sym (query-entry_of pt m place v tree) ∙ free))

Mapped-free :
    (pt : PageTable) (m : Machine) (v p : ℕ) (f : MemFlags)
    → query pt m v ≡ done none
    → Mapped pt m v p f
    → (pt' : PageTable) × (m' : Machine) × (place' : ℕ → List ℕ) × (map_page pt m v p f
        ≡ done (pt', m'))
      × IsTree pt' m' place'
      × Changes pt m v (λ w. done (some (mapped_to p w, f))) pt' m'
Mapped-free pt m v p f free (inl (e, r)) = r
Mapped-free pt m v p f free (inr (n, e)) = absurd (n free)

-- On a tree of tables with three frames left, `map` of a page that answers nothing and then `unmap` of it
-- both succeed, leave a tree, and every page of that half of the address space answers as at first.
pub unmap_page-map_page :
    (pt : PageTable) (m : Machine) (place : ℕ → List ℕ) (v p : ℕ) (f : MemFlags)
    → IsTree pt m place
    → 3 ≤ available_space m.frames
    → p < 2 ^ 40
    → query pt m v ≡ done none
    → (pt' : PageTable) × (m' m'' : Machine) × (place' : ℕ → List ℕ) × (map_page pt m v p f
        ≡ done (pt', m'))
      × (unmap_page pt' m' v ≡ done m'')
      × IsTree pt' m'' place'
      × ((x : ℕ) → query pt' m'' (beside v x) ≡ query pt m (beside v x))
unmap_page-map_page pt m place v p f tree room lp free =
    let (pt', m', place', e, tree', changed) =
      Mapped-free pt m v p f free (map_page_refines pt m place v p f tree room lp) in
    let mapped : query pt' m' v ≡ done (some (mapped_to p v, f)) =
      Changes-at pt m v (λ w. done (some (mapped_to p w, f))) pt' m' v changed refl
      ∙ ground (arith, eq_refl (v / page_size)) in
    let (m'', e', tree'', back) =
      unmap_page_refines pt' m' place' v (mapped_to p v, f) tree' mapped in
    (
      pt',
      m',
      m'',
      place',
      e,
      e',
      tree'',
      λ x.
          back x
          ∙ restored (beside v x) (query pt' m' (beside v x)) (query pt m (beside v x)) (changed x)
              (same_page-none pt m place v (beside v x) tree (beside-half v x) free),
    )
  where
    restored :
        (w : ℕ) (now before : Run (Option (ℕ × MemFlags)))
        → now ≡ (if v / page_size == w / page_size then done (some (mapped_to p w, f)) else before)
        → (v / page_size ≡ w / page_size → before ≡ done none)
        → (if v / page_size == w / page_size then done none else now) ≡ before
    restored w now before e none_here = elim (Bool-cases (v / page_size == w / page_size)) [
      | inl y ↦ ground (arith, y, none_here ((==_iff (v / page_size) (w / page_size)).0 y))
      | inr n ↦ ground (arith, n, e)
    ]
