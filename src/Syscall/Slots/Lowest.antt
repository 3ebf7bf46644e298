-- ===== src/Syscall/Slots/Lowest.antt =====
-- Both searches give out the lowest free place.
use r_core_tutorial_v3_arm.Base.{
  ℕ, zero, suc, ◌+◌, ◌<◌, ◌≡◌, refl, sym, ap, ◌∙◌, subst, ◌⊎◌, inl, inr, false, ◌&&◌, Option, none,
  some, List, [], ◌∷◌, ◌++◌, arith, ltb, ◌==◌, if◌then◌else◌, length, set, get_or, ltb-suc,
}
use r_core_tutorial_v3_arm.Syscall.Slots.{is_none, find_free, choose, fill, alloc_fd, put, create}

module _ {ℓ} {A : Type ℓ} where
  -- A table read as a map: nothing stands beyond its end.
  abbrev pub at : List (Option A) → ℕ → Option A
  at table i = get_or table i none

  -- The lowest free place, and the table with it in use.
  abbrev pub lowest : List (Option A) → ℕ
  lowest [] = 0
  lowest (none ∷ xs) = 0
  lowest (some x ∷ xs) = suc (lowest xs)

  abbrev pub put_lowest : List (Option A) → A → List (Option A)
  put_lowest [] a = some a ∷ []
  put_lowest (none ∷ xs) a = some a ∷ xs
  put_lowest (some x ∷ xs) a = some x ∷ put_lowest xs a

  find_free-lowest :
      (xs : List (Option A)) (i : ℕ)
      → ((find_free xs i ≡ some (i + lowest xs)) × (lowest xs < length xs))
        ⊎ ((find_free xs i ≡ none) × (lowest xs ≡ length xs))
  find_free-lowest [] i = inr (refl, refl)
  find_free-lowest (none ∷ xs) i = inl (ap some (omega arith), omega arith)
  find_free-lowest (some x ∷ xs) i = elim (find_free-lowest xs (suc i)) [
    | inl (e, h) ↦ inl (e ∙ ap some (omega arith), omega (arith, h))
    | inr (e, h) ↦ inr (e, ap suc h)
  ]

  set-lowest :
      (xs : List (Option A)) (a : A)
      → lowest xs < length xs
      → set xs (lowest xs) (some a) ≡ put_lowest xs a
  set-lowest [] a h = absurd (omega (arith, h))
  set-lowest (none ∷ xs) a h = refl
  set-lowest (some x ∷ xs) a h = ap (◌∷◌ (some x)) (set-lowest xs a (omega (arith, h)))

  -- No place is free: the new one is at the end.
  append-lowest :
      (xs : List (Option A)) (a : A)
      → lowest xs ≡ length xs
      → (xs ++ (some a ∷ []) ≡ put_lowest xs a)
        × (set (xs ++ (none ∷ [])) (length xs) (some a) ≡ put_lowest xs a)
  append-lowest [] a h = (refl, refl)
  append-lowest (none ∷ xs) a h = absurd (omega (arith, h))
  append-lowest (some x ∷ xs) a h =
      let (e, d) = append-lowest xs a (omega (arith, h)) in
      (ap (◌∷◌ (some x)) e, ap (◌∷◌ (some x)) d)

  pub create-put_lowest :
      (table : List (Option A)) (a : A)
      → (alloc_fd table (some a) ≡ (lowest table, put_lowest table a))
        × (create table a ≡ (lowest table, put_lowest table a))
  unfolding alloc_fd create
  create-put_lowest table a = elim (find_free-lowest table 0) [
    | inl (e, h) ↦
        let found : find_free table 0 ≡ some (lowest table) = e ∙ ap some (omega arith) in
        let same : set table (lowest table) (some a) ≡ put_lowest table a = set-lowest table a h in
        (
          ap (λ f. fill (choose table f) (some a)) found ∙ ap (λ t. (lowest table, t)) same,
          ap (put table a) found ∙ ap (λ t. (lowest table, t)) same,
        )
    | inr (e, h) ↦
        let (d, d') = append-lowest table a h in
        (
          ap (λ f. fill (choose table f) (some a)) e ∙ rw (d', sym h),
          ap (put table a) e ∙ rw (d, sym h),
        )
  ]

  pub at-lowest : (table : List (Option A)) → at table (lowest table) ≡ none
  at-lowest [] = refl
  at-lowest (none ∷ xs) = refl
  at-lowest (some x ∷ xs) = at-lowest xs

  taken_below :
      (table : List (Option A)) (m : ℕ) → (ltb m (lowest table) && is_none (at table m)) ≡ false
  taken_below [] m = ground arith
  taken_below (none ∷ xs) m = ground arith
  taken_below (some x ∷ xs) zero = ground arith
  taken_below (some x ∷ xs) (suc m) =
      ap (λ b. b && is_none (at xs m)) (ltb-suc m (lowest xs)) ∙ taken_below xs m

  at-put_lowest :
      (table : List (Option A)) (a : A) (m : ℕ)
      → at (put_lowest table a) m ≡ (if lowest table == m then some a else at table m)
  at-put_lowest [] a zero = refl
  at-put_lowest [] a (suc m) = ground arith
  at-put_lowest (none ∷ xs) a zero = refl
  at-put_lowest (none ∷ xs) a (suc m) = ground arith
  at-put_lowest (some x ∷ xs) a zero = ground arith
  at-put_lowest (some x ∷ xs) a (suc m) = at-put_lowest xs a m ∙ ground arith

  -- What a search gives: a free place, with none free below it, where `a` now stands; every other place
  -- has what it had.
  abbrev pub Granted : List (Option A) → A → ℕ × List (Option A) → Type ℓ
  Granted table a (n, table') =
      (at table n ≡ none)
      × ((m : ℕ) → (ltb m n && is_none (at table m)) ≡ false)
      × ((m : ℕ) → at table' m ≡ (if n == m then some a else at table m))

  put_lowest-Granted :
      (table : List (Option A)) (a : A) → Granted table a (lowest table, put_lowest table a)
  put_lowest-Granted table a = (at-lowest table, taken_below table, at-put_lowest table a)

  -- The search of `alloc_fd` for a given file and that of the `create` calls have the same result: the
  -- lowest free number, where the new object now stands, with every other place as it was.
  pub alloc_fd-create :
      (table : List (Option A)) (a : A)
      → (alloc_fd table (some a) ≡ create table a) × Granted table a (create table a)
  alloc_fd-create table a =
      let (e, d) = create-put_lowest table a in
      (e ∙ sym d, subst (Granted table a) (sym d) (put_lowest-Granted table a))
