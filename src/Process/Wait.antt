-- ===== src/Process/Wait.antt =====
-- `Process::waitpid`: which child it reaps.
use r_core_tutorial_v3_arm.Base.{
  ℕ, ◌≡◌, refl, sym, ap, ◌∙◌, subst, ◌≢◌, ◌⊎◌, inl, inr, Bool, true, false, ◌&&◌, Option, none,
  some, List, [], ◌∷◌, ◌++◌, arith, if◌then◌else◌, eq_refl, Bool-cases, All, All-map, contains,
  contains-append, Run, done,
}
use r_core_tutorial_v3_arm.Base.Int.{ℤ, pos, negsuc}
use r_core_tutorial_v3_arm.Process.{
  Process, World, write, ◌==proc◌, zombie, matches, find_zombie, not_this, any_child, reap, remove,
  waitpid,
}

-- A child that the call may reap.
abbrev pub ripe : (ℕ → Process) → ℕ → ℕ → Bool
ripe procs pid c = matches pid c && (procs c).state ==proc zombie

-- What the loop finds among the children.
abbrev pub Found : (ℕ → Process) → ℕ → List ℕ → Bool × Option (ℕ × List ℕ) → Type 0
Found procs pid cs (false, none) = All (λ c. matches pid c ≡ false) cs
Found procs pid cs (true, none) =
    (contains cs pid ≡ true ⊎ (pid ≡ any_child)) × All (λ c. ripe procs pid c ≡ false) cs
Found procs pid cs (false, some z) = false ≡ true
Found procs pid cs (true, some (c, left)) =
    (l r : List ℕ) × (cs ≡ l ++ (c ∷ r))
    × (left ≡ l ++ r)
    × (ripe procs pid c ≡ true)
    × All (λ c. ripe procs pid c ≡ false) l

abbrev pub step : Bool → Bool → ℕ → List ℕ → Bool × Option (ℕ × List ℕ) → Bool × Option (ℕ × List ℕ)
step m z c cs (found, reaped) =
    if m then (true, if z then some (c, cs) else not_this c reaped) else (found, not_this c reaped)

matching :
    (pid c : ℕ) (cs : List ℕ)
    → matches pid c ≡ true
    → contains (c ∷ cs) pid ≡ true ⊎ (pid ≡ any_child)
matching pid c cs m = ground (arith, m)

-- A child that is not reaped goes before what the loop finds behind it.
skipped :
    (procs : ℕ → Process) (pid c : ℕ) (cs : List ℕ) (rest : Bool × Option (ℕ × List ℕ))
    → Found procs pid cs rest
    → (m : Bool) → matches pid c ≡ m
    → ripe procs pid c ≡ false
    → Found procs pid (c ∷ cs) (step m false c cs rest)
skipped procs pid c cs (false, none) f false e n = (e, f)
skipped procs pid c cs (false, none) f true e n =
    (matching pid c cs e, (n, All-map (λ d h. ground (arith, h)) cs f))
skipped procs pid c cs (true, none) (inl h, f) false e n = (inl (ground (arith, h)), (n, f))
skipped procs pid c cs (true, none) (inr h, f) false e n = (inr h, (n, f))
skipped procs pid c cs (true, none) (h, f) true e n = (matching pid c cs e, (n, f))
skipped procs pid c cs (false, some z) f m e n = absurd (cc f)
skipped procs pid c cs (true, some (d, left)) (l, r, e', q, x, a) false e n =
    (c ∷ l, r, ap (◌∷◌ c) e', ap (◌∷◌ c) q, x, (n, a))
skipped procs pid c cs (true, some (d, left)) (l, r, e', q, x, a) true e n =
    (c ∷ l, r, ap (◌∷◌ c) e', ap (◌∷◌ c) q, x, (n, a))

pub find_zombie-Found :
    (procs : ℕ → Process) (pid : ℕ) (cs : List ℕ) → Found procs pid cs (find_zombie procs pid cs)
find_zombie-Found procs pid [] = tt
find_zombie-Found procs pid (c ∷ cs) = elim (Bool-cases (ripe procs pid c)) [
  | inl y ↦ subst (Found procs pid (c ∷ cs)) (sym (reaps y)) ([], cs, refl, refl, y, tt)
  | inr n ↦ subst (Found procs pid (c ∷ cs)) (sym (skips n)) (
      skipped procs pid c cs (find_zombie procs pid cs) (find_zombie-Found procs pid cs)
        (matches pid c) refl n)
]
  where
    reaps : ripe procs pid c ≡ true → find_zombie procs pid (c ∷ cs) ≡ (true, some (c, cs))
    reaps y = ground (arith, y)

    skips :
        ripe procs pid c ≡ false
        → find_zombie procs pid (c ∷ cs)
          ≡ step (matches pid c) false c cs (find_zombie procs pid cs)
    skips n = ground (arith, n)

-- The world after the child `c` was reaped.
abbrev pub reaped : World → ℕ → List ℕ → ℕ → World
reaped w p left c = record (write w p (record (w.procs p) { children = left })) {
  proc_map = remove w.proc_map c;
}

-- There is no child at all, or none of that number where one number is asked for.
abbrev pub IsChildless : ℕ → List ℕ → Type 0
IsChildless pid cs = (cs ≡ []) ⊎ ((pid ≢ any_child) × (contains cs pid ≡ false))

unmatched-IsChildless :
    (pid : ℕ) (cs : List ℕ) → All (λ c. matches pid c ≡ false) cs → IsChildless pid cs
unmatched-IsChildless pid [] h = inl refl
unmatched-IsChildless pid (c ∷ cs) (n, h) = inr (ground (arith, n), misses (c ∷ cs) (n, h))
  where
    misses : (cs : List ℕ) → All (λ c. matches pid c ≡ false) cs → contains cs pid ≡ false
    misses [] h = refl
    misses (c ∷ cs) (n, h) = ground (arith, n, misses cs h)

-- The three outcomes of `waitpid`.
abbrev pub Waited : World → ℕ → ℕ → ℕ → Run (ℤ × ℕ × World) → Type 0
Waited w p pid code result =
    (IsChildless pid (w.procs p).children × (result ≡ done (negsuc 0, code, w)))
    ⊎ (((contains (w.procs p).children pid ≡ true) ⊎ (pid ≡ any_child))
        × All (λ c. ripe w.procs pid c ≡ false) (w.procs p).children
        × (result ≡ done (negsuc 1, code, w)))
    ⊎ ((l r : List ℕ) × (c : ℕ) × ((w.procs p).children ≡ l ++ (c ∷ r))
        × (ripe w.procs pid c ≡ true)
        × All (λ c. ripe w.procs pid c ≡ false) l
        × (result ≡ done (pos c, (w.procs c).exit_code, reaped w p (l ++ r) c)))

-- `waitpid` returns minus one where there is no child, or none of the number asked for, minus two where
-- none that matches is over, and in both cases changes nothing. Otherwise it reaps the first matching child that is over: it returns
-- the number of it, with its exit code, and takes it out of the children and of the process map, where
-- this is the last reference to it.
pub waitpid-Waited :
    (strong_count : ℕ → ℕ) (w : World) (p pid code : ℕ)
    → ((c : ℕ) → contains (w.procs p).children c ≡ true → strong_count c ≡ 1)
    → Waited w p pid code (waitpid strong_count w p pid code)
unfolding waitpid
waitpid-Waited strong_count w p pid code last =
    by_found (find_zombie w.procs pid (w.procs p).children) refl
      (find_zombie-Found w.procs pid (w.procs p).children)
  where
    mem :
        (l r : List ℕ) (c : ℕ)
        → (w.procs p).children ≡ l ++ (c ∷ r)
        → contains (w.procs p).children c ≡ true
    mem l r c cs = rw (cs, contains-append l (c ∷ r) c) (ground (arith, eq_refl c))

    opened :
        (f : Bool × Option (ℕ × List ℕ))
        → find_zombie w.procs pid (w.procs p).children ≡ f
        → waitpid strong_count w p pid code ≡ reap strong_count w p code f
    opened f e = ap (reap strong_count w p code) e

    by_found :
        (f : Bool × Option (ℕ × List ℕ))
        → find_zombie w.procs pid (w.procs p).children ≡ f
        → Found w.procs pid (w.procs p).children f
        → Waited w p pid code (waitpid strong_count w p pid code)
    by_found (false, none) e h =
        inl (unmatched-IsChildless pid (w.procs p).children h, opened (false, none) e)
    by_found (true, none) e (h, n) = inr (inl (h, n, opened (true, none) e))
    by_found (false, some z) e h = absurd (cc h)
    by_found (true, some (c, left)) e (l, r, cs, q, y, n) =
        inr
          (inr (l, r, c, cs, y, n, opened (true, some (c, left)) e ∙ rw (last c (mem l r c cs), q)))
