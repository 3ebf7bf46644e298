-- ===== src/Mm/PageTable/Tree.antt =====
-- The tables form a tree: each is reached from the root by one list of indices.
use r_core_tutorial_v3_arm.Base.{
  ℕ, ◌+◌, ◌<◌, ◌≡◌, refl, sym, ap, ◌∙◌, ◌≢◌, inl, inr, true, Option, none, some, List, [], ◌∷◌,
  ◌++◌, arith, ◌==◌, ==_iff, eq_refl, Bool-cases, length, contains, Run, done, panic,
}
use mathlib.Core.Path.{ap₂}
use r_core_tutorial_v3_arm.Mm.Frame.{IsMemory, Owns}
use r_core_tutorial_v3_arm.Mm.Entry.{new_table, is_present}
use r_core_tutorial_v3_arm.Mm.Entry.Fields.{page_of, entry_paddr-new_table}
use r_core_tutorial_v3_arm.Mm.PageTable.{PageTable, Machine, set_entry, next_table, get_entry}

abbrev pub IsTable : PageTable → ℕ → Type 0
IsTable pt f = contains pt.intrm_tables f ≡ true

-- Where the entry `i` of a table points to: the table whose place is one index further.
abbrev pub Link : PageTable → (ℕ → List ℕ) → ℕ → ℕ → ℕ → Type 0
Link pt place f i e = (g : ℕ) × (e ≡ new_table g) × IsTable pt g × (place g ≡ i ∷ place f)

-- `place` is the list of indices that leads to a table, the last one first.
pub record IsTree (pt : PageTable) (m : Machine) (place : ℕ → List ℕ) : Type 0 where
  pub memory : IsMemory m.frames
  pub root_table : IsTable pt pt.root_paddr
  pub root_place : place pt.root_paddr ≡ []
  pub owned : (f : ℕ) → IsTable pt f → Owns m.frames (record { start_paddr = f })
  pub linked :
      (f i : ℕ)
      → IsTable pt f
      → length (place f) < 3
      → m.tables f i ≢ 0
      → Link pt place f i (m.tables f i)

pub owned_page : (m : Machine) (f : ℕ) → Owns m.frames (record { start_paddr = f }) → page_of f ≡ f
owned_page m f o = omega (arith, o.aligned, o.inside)

-- One step of a walk.
pub next_table-none : (e : ℕ) → e ≡ 0 → next_table e ≡ done none
unfolding next_table is_present
next_table-none e h = ap next_table h

pub next_table-some : (g : ℕ) → page_of g ≡ g → next_table (new_table g) ≡ done (some g)
unfolding next_table
next_table-some g h = let (p, b, v, u) = entry_paddr-new_table g in rw (v, b, p, h)

-- The entry at the end of a walk, zero where the walk ends before.
abbrev pub entry_at : (ℕ → ℕ → ℕ) → Run (Option (ℕ × ℕ)) → ℕ
entry_at t panic = 0
entry_at t (done none) = 0
entry_at t (done (some (f, i))) = t f i

abbrev pub leaf : (ℕ → ℕ → ℕ) → ℕ → List ℕ → ℕ
leaf t f is = entry_at t (get_entry t f is)

abbrev pub rev_append : List ℕ → List ℕ → List ℕ
rev_append [] acc = acc
rev_append (i ∷ is) acc = rev_append is (i ∷ acc)

-- What a walk over a tree does: it ends early, or in the table of its place.
pub data Walked (pt : PageTable) (m : Machine) (place : ℕ → List ℕ) (f : ℕ) (is : List ℕ)
    : Type 0 where
  early : get_entry m.tables f is ≡ done none → Walked pt m place f is
  arrived :
      (g i : ℕ)
      → get_entry m.tables f is ≡ done (some (g, i))
      → IsTable pt g
      → i ∷ place g ≡ rev_append is (place f)
      → Walked pt m place f is

pub step_none :
    (t : ℕ → ℕ → ℕ) (f i j : ℕ) (is : List ℕ) → t f i ≡ 0 → get_entry t f (i ∷ (j ∷ is)) ≡ done none
step_none t f i j is h = rw (next_table-none (t f i) h)

pub step_some :
    (t : ℕ → ℕ → ℕ) (f i j g : ℕ) (is : List ℕ)
    → t f i ≡ new_table g
    → page_of g ≡ g
    → get_entry t f (i ∷ (j ∷ is)) ≡ get_entry t g (j ∷ is)
step_some t f i j g is h p = rw (h, next_table-some g p)

Walked-on :
    (pt : PageTable) (m : Machine) (place : ℕ → List ℕ) (f i j g : ℕ) (is : List ℕ)
    → m.tables f i ≡ new_table g
    → page_of g ≡ g
    → place g ≡ i ∷ place f
    → Walked pt m place g (j ∷ is)
    → Walked pt m place f (i ∷ (j ∷ is))
Walked-on pt m place f i j g is e o p (early w) = early (step_some m.tables f i j g is e o ∙ w)
Walked-on pt m place f i j g is e o p (arrived h k w t q) =
    arrived h k (step_some m.tables f i j g is e o ∙ w) t (q ∙ ap (rev_append (j ∷ is)) p)

pub walk-Walked :
    (pt : PageTable) (m : Machine) (place : ℕ → List ℕ) (f : ℕ) (i : ℕ) (is : List ℕ)
    → IsTree pt m place
    → IsTable pt f
    → length (place f) + length (i ∷ is) ≡ 4
    → Walked pt m place f (i ∷ is)
walk-Walked pt m place f i [] tree h l = arrived f i refl h refl
walk-Walked pt m place f i (j ∷ is) tree h l = elim (Bool-cases (m.tables f i == 0)) [
  | inl y ↦ early (step_none m.tables f i j is ((==_iff (m.tables f i) 0).0 y))
  | inr used ↦
      let (g, e, k, p) = tree.linked f i h (omega (arith, l)) (λ z. ground (arith, used, z)) in
      Walked-on pt m place f i j g is e (owned_page m g (tree.owned g k)) p
        (walk-Walked pt m place g j is tree k (omega (arith, l, ap length p)))
]

-- A write in a table of the last level changes no walk.
get_entry-set_entry :
    (pt : PageTable) (m : Machine) (place : ℕ → List ℕ) (g k e f i : ℕ) (is : List ℕ)
    → IsTree pt m place
    → length (place g) ≡ 3
    → IsTable pt f
    → length (place f) + length (i ∷ is) ≡ 4
    → get_entry (set_entry m.tables g k e) f (i ∷ is) ≡ get_entry m.tables f (i ∷ is)
get_entry-set_entry pt m place g k e f i [] tree lg h l = refl
get_entry-set_entry pt m place g k e f i (j ∷ is) tree lg h l =
    elim (Bool-cases (m.tables f i == 0)) [
      | inl y ↦
          let z = (==_iff (m.tables f i) 0).0 y in
          step_none (set_entry m.tables g k e) f i j is (same ∙ z)
          ∙ sym (step_none m.tables f i j is z)
      | inr used ↦
          let (n, q, t, p) = tree.linked f i h (omega (arith, l)) (λ z. ground (arith, used, z)) in
          let o = owned_page m n (tree.owned n t) in
          step_some (set_entry m.tables g k e) f i j n is (same ∙ q) o
          ∙ get_entry-set_entry pt m place g k e n j is tree lg t (omega (arith, l, ap length p))
          ∙ sym (step_some m.tables f i j n is q o)
    ]
  where
    upper : f ≢ g
    upper z = absurd (omega (arith, l, lg, ap (λ x. length (place x)) z))

    same : set_entry m.tables g k e f i ≡ m.tables f i
    same = ground (arith, upper)

rev_append_back :
    (is acc rest : List ℕ) → rev_append (rev_append is acc) rest ≡ rev_append acc (is ++ rest)
rev_append_back [] acc rest = refl
rev_append_back (i ∷ is) acc rest = rev_append_back is (i ∷ acc) rest

append-nil : (is : List ℕ) → is ++ [] ≡ is
append-nil [] = refl
append-nil (i ∷ is) = ap (◌∷◌ i) (append-nil is)

-- Two walks that end in one place were along the same indices.
pub rev_append-injective : (is js : List ℕ) → rev_append is [] ≡ rev_append js [] → is ≡ js
rev_append-injective is js e =
    sym (append-nil is)
    ∙ sym (rev_append_back is [] [])
    ∙ ap (λ (x : List ℕ). rev_append x []) e
    ∙ rev_append_back js [] []
    ∙ append-nil js

pub set_entry-ne :
    (t : ℕ → ℕ → ℕ) (g k e h n : ℕ) → (h ≡ g → n ≡ k → ⊥) → set_entry t g k e h n ≡ t h n
set_entry-ne t g k e h n apart = elim (Bool-cases (h == g)) [
  | inr x ↦ ground (arith, x)
  | inl x ↦ elim (Bool-cases (n == k)) [
    | inr y ↦ ground (arith, y)
    | inl y ↦ absurd (apart ((==_iff h g).0 x) ((==_iff n k).0 y))
  ]
]

-- The entry at the end of every walk from the root after a write at the end of one of them.
pub leaf-set_entry :
    (pt : PageTable) (m : Machine) (place : ℕ → List ℕ) (g k e i : ℕ) (is : List ℕ) (j : ℕ)
    (js : List ℕ)
    → IsTree pt m place
    → IsTable pt g
    → length (place g) ≡ 3
    → get_entry m.tables pt.root_paddr (i ∷ is) ≡ done (some (g, k))
    → k ∷ place g ≡ rev_append (i ∷ is) []
    → length js ≡ 3
    → ((j ∷ js ≡ i ∷ is) → leaf (set_entry m.tables g k e) pt.root_paddr (j ∷ js) ≡ e)
      × ((j ∷ js ≢ i ∷ is)
          → leaf (set_entry m.tables g k e) pt.root_paddr (j ∷ js)
            ≡ leaf m.tables pt.root_paddr (j ∷ js))
leaf-set_entry pt m place g k e i is j js tree tg lg w p l = (
  λ same.
      ap (entry_at (set_entry m.tables g k e))
        (walk ∙ ap (get_entry m.tables pt.root_paddr) same ∙ w)
      ∙ ground (arith, eq_refl g, eq_refl k),
  λ ne.
      ap (entry_at (set_entry m.tables g k e)) walk
      ∙ elsewhere ne (walk-Walked pt m place pt.root_paddr j js tree tree.root_table places),
)
  where
    places : length (place pt.root_paddr) + length (j ∷ js) ≡ 4
    places = omega (arith, l, ap length tree.root_place)

    walk :
        get_entry (set_entry m.tables g k e) pt.root_paddr (j ∷ js)
        ≡ get_entry m.tables pt.root_paddr (j ∷ js)
    walk = get_entry-set_entry pt m place g k e pt.root_paddr j js tree lg tree.root_table places

    elsewhere :
        j ∷ js ≢ i ∷ is
        → Walked pt m place pt.root_paddr (j ∷ js)
        → entry_at (set_entry m.tables g k e) (get_entry m.tables pt.root_paddr (j ∷ js))
          ≡ leaf m.tables pt.root_paddr (j ∷ js)
    elsewhere ne (early x) =
        ap (entry_at (set_entry m.tables g k e)) x ∙ sym (ap (entry_at m.tables) x)
    elsewhere ne (arrived h n x t q) =
        ap (entry_at (set_entry m.tables g k e)) x
        ∙ set_entry-ne m.tables g k e h n apart
        ∙ sym (ap (entry_at m.tables) x)
      where
        apart : h ≡ g → n ≡ k → ⊥
        apart a b = ne (
            rev_append-injective (j ∷ js) (i ∷ is) (
              ap (rev_append (j ∷ js)) (sym tree.root_place)
              ∙ sym q
              ∙ ap₂ (λ x y. y ∷ place x) a b
              ∙ p))
