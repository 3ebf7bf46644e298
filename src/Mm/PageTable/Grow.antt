-- ===== src/Mm/PageTable/Grow.antt =====
-- A new table below an entry that was unused.
use r_core_tutorial_v3_arm.Base.{
  ℕ, ◌+◌, ◌*◌, ◌/◌, ◌≤◌, ◌<◌, ◌≡◌, refl, sym, ap, ◌∙◌, subst, ◌≢◌, ◌⊎◌, inl, inr, true, false, some,
  List, [], ◌∷◌, ◌++◌, arith, ◌==◌, if◌then◌else◌, ==_iff, eq_refl, Bool-cases, length, contains,
  contains-append, done,
}
use mathlib.Core.Path.{ap₂}
use r_core_tutorial_v3_arm.Allocator.{FreeListAllocator, available_space}
use r_core_tutorial_v3_arm.Allocator.Inv.{Held, alloc-Allocated}
use r_core_tutorial_v3_arm.Mm.Address.{page_size, memory_end}
use r_core_tutorial_v3_arm.Mm.Frame
use r_core_tutorial_v3_arm.Mm.Frame.{PhysFrame, IsMemory, Owns, alloc-some, frame_owned}
use r_core_tutorial_v3_arm.Mm.Entry.{new_table}
use r_core_tutorial_v3_arm.Mm.Entry.Fields.{page_of}
use r_core_tutorial_v3_arm.Mm.PageTable.{
  PageTable, Machine, set_entry, zero_table, alloc_table, grow,
}
use r_core_tutorial_v3_arm.Mm.PageTable.Tree.{
  IsTable, Link, IsTree, owned_page, entry_at, leaf, step_none, step_some, set_entry-ne,
}

-- What an allocation of a frame leaves.
pub record Given (a b : FreeListAllocator) (f : ℕ) : Type 0 where
  pub memory : IsMemory b
  pub fresh : ¬ Owns a (record { start_paddr = f })
  pub owns : Owns b (record { start_paddr = f })
  pub keeps : (g : ℕ) → Owns a (record { start_paddr = g }) → Owns b (record { start_paddr = g })
  pub space : available_space b + 1 ≡ available_space a

pub alloc-Given :
    (a : FreeListAllocator)
    → IsMemory a
    → 1 ≤ available_space a
    → (f : ℕ) × (b : FreeListAllocator) × (Frame.alloc a
        ≡ done (some (record { start_paddr = f }), b))
      × Given a b f
alloc-Given a m room = elim (alloc-Allocated a m.valid) [
  | inl (e, space) ↦ absurd (omega (arith, room, space))
  | inr (v, b, e, r) ↦
      let inside : v < memory_end / page_size =
        omega (arith, m.last, r.now_held.given, r.valid.bounded, r.range.1) in
      let number : v * page_size / page_size ≡ v = omega arith in
      (
        v * page_size,
        b,
        alloc-some a b v e inside,
        record {
          memory = record { valid = r.valid; last = omega (arith, m.last, r.range.1) };
          fresh = λ o. r.was_free (subst (Held a) number o.held);
          owns = frame_owned b v r.now_held inside;
          keeps = λ g o. record {
            held = (r.others (g / page_size) (λ z. r.was_free (subst (Held a) z o.held))).0 o.held;
            aligned = o.aligned;
            inside = o.inside;
          };
          space = r.space;
        },
      )
]

-- The tables after some were added: those of before keep their place and their used entries, and every
-- walk of before ends with the same entry.
pub record Extends (pt : PageTable) (m : Machine) (place : ℕ → List ℕ) (pt' : PageTable)
    (m' : Machine) (place' : ℕ → List ℕ) : Type 0 where
  pub tree : IsTree pt' m' place'
  pub same_root : pt'.root_paddr ≡ pt.root_paddr
  pub kept : (h : ℕ) → IsTable pt h → IsTable pt' h × (place' h ≡ place h)
  pub entries : (h j : ℕ) → IsTable pt h → m.tables h j ≢ 0 → m'.tables h j ≡ m.tables h j
  pub leaves :
      (h j : ℕ) (js : List ℕ)
      → IsTable pt h
      → length (place h) + length (j ∷ js) ≡ 4
      → leaf m'.tables h (j ∷ js) ≡ leaf m.tables h (j ∷ js)

pub Extends-refl :
    (pt : PageTable) (m : Machine) (place : ℕ → List ℕ)
    → IsTree pt m place
    → Extends pt m place pt m place
Extends-refl pt m place tree = record {
  tree = tree;
  same_root = refl;
  kept = λ h t. (t, refl);
  entries = λ h j t n. refl;
  leaves = λ h j js t l. refl;
}

pub Extends-trans :
    (pt : PageTable) (m : Machine) (place : ℕ → List ℕ) (pt' : PageTable) (m' : Machine)
    (place' : ℕ → List ℕ) (pt'' : PageTable) (m'' : Machine) (place'' : ℕ → List ℕ)
    → Extends pt m place pt' m' place'
    → Extends pt' m' place' pt'' m'' place''
    → Extends pt m place pt'' m'' place''
Extends-trans pt m place pt' m' place' pt'' m'' place'' x y = record {
  tree = y.tree;
  same_root = y.same_root ∙ x.same_root;
  kept = λ h t. ((y.kept h (x.kept h t).0).0, (y.kept h (x.kept h t).0).1 ∙ (x.kept h t).1);
  entries = λ h j t n.
      y.entries h j (x.kept h t).0 (λ z. n (sym (x.entries h j t n) ∙ z)) ∙ x.entries h j t n;
  leaves = λ h j js t l.
      y.leaves h j js (x.kept h t).0 (omega (arith, l, ap length (x.kept h t).1))
      ∙ x.leaves h j js t l;
}

-- `grow` at an unused entry, with the frame `g`.
module _ (pt : PageTable) (m : Machine) (place : ℕ → List ℕ) (f i g : ℕ)
    (b : FreeListAllocator) where
  abbrev grown : PageTable
  grown = record pt { intrm_tables = pt.intrm_tables ++ (g ∷ []) }

  abbrev grown_machine : Machine
  grown_machine = record {
    frames = b;
    tables = set_entry (zero_table m.tables g) f i (new_table g);
  }

  abbrev grown_place : ℕ → List ℕ
  grown_place h = if h == g then i ∷ place f else place h

  -- The tables of before, and the new one.
  grown_cases : (h : ℕ) → IsTable grown h → IsTable pt h ⊎ (h ≡ g)
  grown_cases h t = elim (Bool-cases (contains pt.intrm_tables h)) [
    | inl y ↦ inl y
    | inr n ↦ inr (ground (arith, contains-append pt.intrm_tables (g ∷ []) h, t, n))
  ]

  grown-IsTable : (h : ℕ) → IsTable pt h → IsTable grown h
  grown-IsTable h t = ground (arith, contains-append pt.intrm_tables (g ∷ []) h, t)

  new-IsTable : IsTable grown g
  new-IsTable = ground (arith, contains-append pt.intrm_tables (g ∷ []) g, eq_refl g)

  module _ (tree : IsTree pt m place) (given : Given m.frames b g) (tf : IsTable pt f)
      (unused : m.tables f i ≡ 0) where
    new : (h : ℕ) → IsTable pt h → h ≢ g
    new h t z =
        given.fresh (subst (λ x. Owns m.frames (record { start_paddr = x })) z (tree.owned h t))

    old_place : (h : ℕ) → IsTable pt h → grown_place h ≡ place h
    old_place h t = ground (arith, new h t)

    new_place : grown_place g ≡ i ∷ place f
    new_place = ground (arith, eq_refl g)

    points : grown_machine.tables f i ≡ new_table g
    points = ground (arith, eq_refl f, eq_refl i)

    old_entry :
        (h j : ℕ) → IsTable pt h → m.tables h j ≢ 0 → grown_machine.tables h j ≡ m.tables h j
    old_entry h j t n =
        set_entry-ne (zero_table m.tables g) f i (new_table g) h j
          (λ x y. n (ap₂ m.tables x y ∙ unused))
        ∙ ground (arith, new h t)

    new_entry : (j : ℕ) → grown_machine.tables g j ≡ 0
    new_entry j =
        set_entry-ne (zero_table m.tables g) f i (new_table g) g j
          (λ x y. absurd (new f tf (sym x)))
        ∙ ground (arith, eq_refl g)

    -- An unused entry of before is still unused, or the one that was written.
    unused_cases :
        (h j : ℕ)
        → IsTable pt h
        → m.tables h j ≡ 0
        → ((h ≡ f) × (j ≡ i)) ⊎ (grown_machine.tables h j ≡ 0)
    unused_cases h j t z = elim (Bool-cases (h == f)) [
      | inr x ↦ inr (ground (arith, x, z))
      | inl x ↦ elim (Bool-cases (j == i)) [
        | inr y ↦ inr (ground (arith, y, z))
        | inl y ↦ inl ((==_iff h f).0 x, (==_iff j i).0 y)
      ]
    ]

    old-Link :
        (h j : ℕ)
        → IsTable pt h
        → length (grown_place h) < 3
        → grown_machine.tables h j ≢ 0
        → ((m.tables h j == 0) ≡ true) ⊎ ((m.tables h j == 0) ≡ false)
        → Link grown grown_place h j (grown_machine.tables h j)
    old-Link h j t l n (inr used) =
        let nz : m.tables h j ≢ 0 = λ z. ground (arith, used, z) in
        let (x, e, tx, p) = tree.linked h j t (omega (arith, l, ap length (old_place h t))) nz in
        (
          x,
          old_entry h j t nz ∙ e,
          grown-IsTable x tx,
          old_place x tx ∙ p ∙ ap (◌∷◌ j) (sym (old_place h t)),
        )
    old-Link h j t l n (inl free) = elim (unused_cases h j t ((==_iff (m.tables h j) 0).0 free)) [
      | inr z ↦ absurd (n z)
      | inl (x, y) ↦ (
        g,
        ap₂ grown_machine.tables x y ∙ points,
        new-IsTable,
        new_place ∙ ap₂ ◌∷◌ (sym y) (ap place (sym x) ∙ sym (old_place h t)),
      )
    ]

    new_leaf : (j : ℕ) (js : List ℕ) → leaf grown_machine.tables g (j ∷ js) ≡ 0
    new_leaf j [] = new_entry j
    new_leaf j (k ∷ js) =
        ap (entry_at grown_machine.tables) (step_none grown_machine.tables g j k js (new_entry j))

    grown-Link :
        (h j : ℕ)
        → IsTable grown h
        → length (grown_place h) < 3
        → grown_machine.tables h j ≢ 0
        → Link grown grown_place h j (grown_machine.tables h j)
    grown-Link h j t l n = elim (grown_cases h t) [
      | inr z ↦ absurd (n (ap (λ x. grown_machine.tables x j) z ∙ new_entry j))
      | inl u ↦ old-Link h j u l n (Bool-cases (m.tables h j == 0))
    ]

    grown-IsTree : IsTree grown grown_machine grown_place
    grown-IsTree = record {
      memory = given.memory;
      root_table = grown-IsTable pt.root_paddr tree.root_table;
      root_place = old_place pt.root_paddr tree.root_table ∙ tree.root_place;
      owned = λ h t. owned_now h (grown_cases h t);
      linked = grown-Link;
    }
      where
        owned_now : (h : ℕ) → IsTable pt h ⊎ (h ≡ g) → Owns b (record { start_paddr = h })
        owned_now h (inl t) = given.keeps h (tree.owned h t)
        owned_now h (inr z) = subst (λ x. Owns b (record { start_paddr = x })) (sym z) given.owns

    page_of_old : (h : ℕ) → IsTable pt h → page_of h ≡ h
    page_of_old h t = owned_page m h (tree.owned h t)

    page_of_new : page_of g ≡ g
    page_of_new = owned_page grown_machine g given.owns

    grown_leaf :
        (h j : ℕ) (js : List ℕ)
        → length (place f) < 3
        → IsTable pt h
        → length (place h) + length (j ∷ js) ≡ 4
        → leaf grown_machine.tables h (j ∷ js) ≡ leaf m.tables h (j ∷ js)
    grown_leaf h j [] lf t l =
        set_entry-ne (zero_table m.tables g) f i (new_table g) h j (λ x y. last x)
        ∙ ground (arith, new h t)
      where
        last : h ≢ f
        last x = absurd (omega (arith, l, lf, ap (λ y. length (place y)) x))
    grown_leaf h j (k ∷ js) lf t l = elim (Bool-cases (m.tables h j == 0)) [
      | inr used ↦
          let nz : m.tables h j ≢ 0 = λ z. ground (arith, used, z) in
          let (x, e, tx, p) = tree.linked h j t (omega (arith, l)) nz in
          ap (entry_at grown_machine.tables)
            (step_some grown_machine.tables h j k x js (old_entry h j t nz ∙ e) (page_of_old x tx))
          ∙ grown_leaf x k js lf tx (omega (arith, l, ap length p))
          ∙ sym (ap (entry_at m.tables) (step_some m.tables h j k x js e (page_of_old x tx)))
      | inl y ↦
          let z = (==_iff (m.tables h j) 0).0 y in
          elim (unused_cases h j t z) [
            | inr zero_now ↦
                ap (entry_at grown_machine.tables)
                  (step_none grown_machine.tables h j k js zero_now)
                ∙ none_before z
            | inl (x, w) ↦
                ap (entry_at grown_machine.tables) (
                  step_some grown_machine.tables h j k g js (ap₂ grown_machine.tables x w ∙ points)
                    page_of_new)
                ∙ new_leaf k js
                ∙ none_before z
          ]
    ]
      where
        none_before : m.tables h j ≡ 0 → 0 ≡ leaf m.tables h (j ∷ (k ∷ js))
        none_before z = sym (ap (entry_at m.tables) (step_none m.tables h j k js z))

    grown-Extends : length (place f) < 3 → Extends pt m place grown grown_machine grown_place
    grown-Extends lf = record {
      tree = grown-IsTree;
      same_root = refl;
      kept = λ h t. (grown-IsTable h t, old_place h t);
      entries = old_entry;
      leaves = λ h j js t l. grown_leaf h j js lf t l;
    }

-- `grow` at an unused entry of an upper level: where a frame is left it does not panic, the entry refers
-- to the new table, and the tables are extended.
pub grow-Extends :
    (pt : PageTable) (m : Machine) (place : ℕ → List ℕ) (f i : ℕ)
    → IsTree pt m place
    → IsTable pt f
    → length (place f) < 3
    → m.tables f i ≡ 0
    → 1 ≤ available_space m.frames
    → (g : ℕ) × (pt' : PageTable) × (m' : Machine) × (place' : ℕ → List ℕ) × (grow pt m f i
        ≡ done (g, pt', m'))
      × Extends pt m place pt' m' place'
      × IsTable pt' g
      × (place' g ≡ i ∷ place f)
      × (m'.tables f i ≡ new_table g)
      × (available_space m'.frames + 1 ≡ available_space m.frames)
unfolding grow alloc_table
grow-Extends pt m place f i tree tf lf z room =
    let (g, b, e, given) = alloc-Given m.frames tree.memory room in
    (
      g,
      grown pt m place f i g b,
      grown_machine pt m place f i g b,
      grown_place pt m place f i g b,
      rw e,
      grown-Extends pt m place f i g b tree given tf z lf,
      new-IsTable pt m place f i g b,
      new_place pt m place f i g b tree given tf z,
      points pt m place f i g b tree given tf z,
      given.space,
    )
