-- ===== src/Syscall/Files/Descriptors.antt =====
-- `sys_dup` and `sys_close` as changes of a map from descriptors to files.
use r_core_tutorial_v3_arm.Base.{
  ℕ, zero, suc, ◌≡◌, refl, sym, ap, ◌∙◌, inl, inr, false, Option, none, some, List, [], ◌∷◌, ◌++◌,
  arith, leb, ◌==◌, if◌then◌else◌, ==_iff, eq_refl, Bool-cases, length, set, done,
}
use r_core_tutorial_v3_arm.Base.Int.{pos}
use r_core_tutorial_v3_arm.Syscall.Slots.{find_free, choose, alloc_fd, create}
use r_core_tutorial_v3_arm.Syscall.Slots.Lowest.{at, Granted, alloc_fd-create}
use r_core_tutorial_v3_arm.Syscall.Files.{file_at, sys_dup, sys_close}

inside : (table : List (Option ℕ)) (i f : ℕ) → at table i ≡ some f → leb (length table) i ≡ false
inside [] i f e = absurd (cc e)
inside (x ∷ xs) zero f e = ground arith
inside (x ∷ xs) (suc i) f e = ground (arith, inside xs i f e)

at-append_none : (table : List (Option ℕ)) (i : ℕ) → at (table ++ (none ∷ [])) i ≡ at table i
at-append_none [] zero = refl
at-append_none [] (suc i) = refl
at-append_none (x ∷ xs) zero = refl
at-append_none (x ∷ xs) (suc i) = at-append_none xs i

at-choose : (table : List (Option ℕ)) (r : Option ℕ) (i : ℕ) → at (choose table r).1 i ≡ at table i
at-choose table none i = at-append_none table i
at-choose table (some n) i = refl

sys_dup-create :
    (table : List (Option ℕ)) (fd f : ℕ)
    → at table fd ≡ some f
    → sys_dup table fd ≡ done (pos (create table f).0, (create table f).1)
unfolding sys_dup alloc_fd
sys_dup-create table fd f e =
    rw (inside table fd f e, e, at-choose table (find_free table 0) fd, e)
      (ap (λ r. done (pos r.0, r.1)) (alloc_fd-create table f).0)

closed-at :
    (table : List (Option ℕ)) (n m : ℕ)
    → at (set table n none) m ≡ (if n == m then none else at table m)
closed-at [] n m = ground arith
closed-at (x ∷ xs) zero zero = refl
closed-at (x ∷ xs) zero (suc m) = ground arith
closed-at (x ∷ xs) (suc n) zero = ground arith
closed-at (x ∷ xs) (suc n) (suc m) = closed-at xs n m ∙ ground arith

-- `sys_dup` of a descriptor in use gives the lowest free one, which then refers to the same file, and
-- leaves all others; `sys_close` of the new one succeeds, and every descriptor refers to what it did at
-- first.
pub sys_close-sys_dup :
    (table : List (Option ℕ)) (fd f : ℕ)
    → file_at table fd ≡ some f
    → (n : ℕ) × (table' table'' : List (Option ℕ)) × (sys_dup table fd ≡ done (pos n, table'))
      × Granted table f (n, table')
      × (sys_close table' n ≡ (pos 0, table''))
      × ((m : ℕ) → file_at table'' m ≡ file_at table m)
unfolding sys_close
sys_close-sys_dup table fd f e =
    let (free, below, now) = granted in
    let used : at new n ≡ some f = now n ∙ rw (eq_refl n) in
    (
      n,
      new,
      set new n none,
      sys_dup-create table fd f e,
      (free, below, now),
      rw (inside new n f used, used),
      λ m. closed-at new n m ∙ again free m (now m),
    )
  where
    n : ℕ
    n = (create table f).0

    new : List (Option ℕ)
    new = (create table f).1

    granted : Granted table f (n, new)
    granted = (alloc_fd-create table f).1

    again :
        at table n ≡ none
        → (m : ℕ) → at new m ≡ (if n == m then some f else at table m)
        → (if n == m then none else at new m) ≡ at table m
    again free m e = elim (Bool-cases (n == m)) [
      | inl y ↦ rw y (sym free ∙ ap (at table) ((==_iff n m).0 y))
      | inr k ↦ rw k (e ∙ rw k)
    ]
