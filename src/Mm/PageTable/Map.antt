-- ===== src/Mm/PageTable/Map.antt =====
-- A query is a function of the entry at the end of the walk.
use r_core_tutorial_v3_arm.Base.{
  ℕ, ◌+◌, ◌*◌, ◌/◌, ◌%◌, ◌^◌, ◌<◌, ◌≡◌, refl, sym, ap, ◌∙◌, subst, ◌↔◌, inl, inr, Bool, false,
  Option, none, some, List, [], ◌∷◌, arith, ◌==◌, if◌then◌else◌, ==_iff, Bool-cases, length, get_or,
  Run, done, panic, ◌>>=◌,
}
use r_core_tutorial_v3_arm.Base.Bits.{bit_and-low}
use r_core_tutorial_v3_arm.Mm.Address.{
  page_size, new_paddr, new_paddr-eq, align_down, align_down-eq, page_offset, page_offset-eq,
}
use r_core_tutorial_v3_arm.Mm.Entry.{MemFlags, new_page, entry_paddr, entry_flags, is_unused}
use r_core_tutorial_v3_arm.Mm.Entry.Fields.{page_of, entry_flags-new_page}
use r_core_tutorial_v3_arm.Mm.PageTable.{PageTable, Machine, index_of, indices, translate, query}
use r_core_tutorial_v3_arm.Mm.PageTable.Tree.{IsTree, Walked, early, arrived, walk-Walked, leaf}

index_of-eq : (k v : ℕ) → index_of k v ≡ v / 2 ^ (12 + 9 * k) % 512
unfolding index_of
index_of-eq k v = bit_and-low 9 (v / 2 ^ (12 + 9 * k))

index_same :
    (k v w : ℕ)
    → v / 2 ^ (12 + 9 * k) % 512 ≡ w / 2 ^ (12 + 9 * k) % 512
    → index_of k v ≡ index_of k w
index_same k v w e = index_of-eq k v ∙ e ∙ sym (index_of-eq k w)

nth_same :
    (n k v w : ℕ)
    → get_or (indices v) n 0 ≡ index_of k v
    → get_or (indices w) n 0 ≡ index_of k w
    → indices v ≡ indices w
    → v / 2 ^ (12 + 9 * k) % 512 ≡ w / 2 ^ (12 + 9 * k) % 512
nth_same n k v w a b e =
    sym (index_of-eq k v) ∙ sym a ∙ ap (λ (is : List ℕ). get_or is n 0) e ∙ b ∙ index_of-eq k w

-- Addresses in one half of the address space have the same indices just when they are on one page.
pub indices_page :
    (v w : ℕ) → v / 2 ^ 48 ≡ w / 2 ^ 48 → (indices v ≡ indices w) ↔ (v / page_size ≡ w / page_size)
unfolding indices
indices_page v w h = (
  λ e. omega (
    arith,
    h,
    nth_same 0 3 v w refl refl e,
    nth_same 1 2 v w refl refl e,
    nth_same 2 1 v w refl refl e,
    nth_same 3 0 v w refl refl e,
  ),
  λ e. cc (
    index_same 3 v w (omega (arith, e)),
    index_same 2 v w (omega (arith, e)),
    index_same 1 v w (omega (arith, e)),
    index_same 0 v w (omega (arith, e)),
  ),
)

-- The rest of the indices.
abbrev pub later : ℕ → List ℕ
later v = index_of 2 v ∷ (index_of 1 v ∷ (index_of 0 v ∷ []))

pub indices-cons : (v : ℕ) → indices v ≡ index_of 3 v ∷ later v
unfolding indices
indices-cons v = refl

-- The entry of a page, zero where there is none.
abbrev pub entry_of : PageTable → Machine → ℕ → ℕ
entry_of pt m v = leaf m.tables pt.root_paddr (indices v)

pub four_places :
    (pt : PageTable) (m : Machine) (place : ℕ → List ℕ) (v : ℕ)
    → IsTree pt m place
    → length (place pt.root_paddr) + length (index_of 3 v ∷ later v) ≡ 4
four_places pt m place v tree = omega (arith, ap length tree.root_place)

pub walk-indices :
    (pt : PageTable) (m : Machine) (place : ℕ → List ℕ) (v : ℕ)
    → IsTree pt m place
    → Walked pt m place pt.root_paddr (indices v)
walk-indices pt m place v tree = subst (Walked pt m place pt.root_paddr) (sym (indices-cons v)) (
    walk-Walked pt m place pt.root_paddr (index_of 3 v) (later v) tree tree.root_table
      (four_places pt m place v tree))

pub query-entry_of :
    (pt : PageTable) (m : Machine) (place : ℕ → List ℕ) (v : ℕ)
    → IsTree pt m place
    → query pt m v ≡ translate (entry_of pt m v) v
unfolding query is_unused
query-entry_of pt m place v tree = by_walk (walk-indices pt m place v tree)
  where
    by_walk :
        Walked pt m place pt.root_paddr (indices v) → query pt m v ≡ translate (entry_of pt m v) v
    by_walk (early e) = rw e
    by_walk (arrived g i e t q) = rw e

pub translate-none : (e v : ℕ) → translate e v ≡ done none → e ≡ 0
unfolding is_unused
translate-none e v h = elim (Bool-cases (e == 0)) [
  | inl y ↦ (==_iff e 0).0 y
  | inr n ↦
      absurd (used (entry_flags e) (sym (ap (λ (b : Bool). if b then done none else shown) n) ∙ h))
]
  where
    shown : Run (Option (ℕ × MemFlags))
    shown = entry_flags e >>= λ flags.
        done (some (new_paddr (entry_paddr e + page_offset v page_size), flags))

    used :
        (r : Run MemFlags)
        → ◌>>=◌ {B = Option (ℕ × MemFlags)} r
            (λ flags. done (some (new_paddr (entry_paddr e + page_offset v page_size), flags)))
          ≡ done none
        → ⊥
    used (done f) k = absurd (cc k)
    used panic k = absurd (cc k)

-- The physical address that a page of `paddr` gives to `vaddr`.
abbrev pub mapped_to : ℕ → ℕ → ℕ
mapped_to paddr vaddr = paddr / page_size * page_size + vaddr % page_size

pub translate-new_page :
    (paddr : ℕ) (f : MemFlags) (v : ℕ)
    → paddr < 2 ^ 40
    → translate (new_page (align_down paddr page_size) f false) v
      ≡ done (some (mapped_to paddr v, f))
translate-new_page paddr f v h =
    let (flags, address, kind, present, used) =
      entry_flags-new_page (align_down paddr page_size) f false in
    rw (used, flags, address) (ap (λ (a : ℕ). done (some (a, f))) place)
  where
    place :
        new_paddr (page_of (align_down paddr page_size) + page_offset v page_size)
        ≡ mapped_to paddr v
    place = omega (
      arith,
      new_paddr-eq (page_of (align_down paddr page_size) + page_offset v page_size),
      align_down-eq paddr (omega (arith, h)),
      page_offset-eq v,
      h,
    )
