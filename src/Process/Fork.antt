-- ===== src/Process/Fork.antt =====
-- `fork` as a change of the tree of processes.
use r_core_tutorial_v3_arm.Base.{
  ℕ, ◌+◌, ◌%◌, ◌^◌, ◌≤◌, ◌<◌, ◌≡◌, sym, ap, ◌∙◌, subst, ◌⊎◌, inl, inr, true, false, ◌||◌, some, [],
  ◌∷◌, ◌++◌, arith, ◌==◌, if◌then◌else◌, Bool-cases, contains, Distinct, contains-append,
  Distinct-snoc, done,
}
use r_core_tutorial_v3_arm.Process.{
  Process, World, new_common, new_thread, write, add_child, copy_table, new_fork, fork, spawn_proc,
}
use r_core_tutorial_v3_arm.Process.Family.{IsFamily}

-- The child that `fork` makes.
abbrev pub forked_child : Process → Process
forked_child parent = record (new_common false) {
  next_tid = 1;
  tasks = (0, new_thread) ∷ [];
  has_vm = true;
  fd_table = copy_table parent.fd_table;
}

abbrev pub forked : World → ℕ → World
forked w p =
    spawn_proc
      (add_child
        (record (write w w.next_pid (forked_child (w.procs p))) { next_pid = w.next_pid + 1 }) p
        w.next_pid)
      w.next_pid

pub fork-forked :
    (w : World) (p : ℕ)
    → (w.procs p).is_kernel ≡ false
    → (w.procs p).has_vm ≡ true
    → w.next_pid + 1 < 2 ^ 64
    → fork w p ≡ done (w.next_pid, forked w p)
unfolding fork new_fork new_common
fork-forked w p user vm small = rw (user, vm, next)
  where
    next : (w.next_pid + 1) % 2 ^ 64 ≡ w.next_pid + 1
    next = omega (arith, small)

pub forked-IsFamily : (w : World) (p : ℕ) → IsFamily w → p < w.next_pid → IsFamily (forked w p)
unfolding add_child new_common
forked-IsFamily w p f lt = record {
  parent = λ q c h. parents c ∙ by_child q c (sym (children q c) ∙ h);
  distinct = λ q. subst Distinct (sym (lists q)) (one_more q (Bool-cases (p == q)));
  fresh = λ q c h. children q c ∙ not_child q c h;
  childless = λ q h. lists q ∙ ground (arith, h, lt, f.childless q (omega (arith, h)));
  rooted = omega (arith, f.rooted);
}
  where
    lists :
        (q : ℕ)
        → ((forked w p).procs q).children ≡ (
            if p == q
            then (w.procs p).children ++ (w.next_pid ∷ [])
            else (if w.next_pid == q then [] else (w.procs q).children))
    lists q = ground (arith, lt)

    children :
        (q c : ℕ)
        → contains ((forked w p).procs q).children c ≡ (
            if p == q
            then contains (w.procs p).children c || w.next_pid == c
            else (if w.next_pid == q then false else contains (w.procs q).children c))
    children q c =
        ap (λ l. contains l c) (lists q)
        ∙ ground (arith, contains-append (w.procs p).children (w.next_pid ∷ []) c)

    parents :
        (q : ℕ)
        → ((forked w p).procs q).parent ≡ (if w.next_pid == q then some p else (w.procs q).parent)
    parents q = ground (arith, lt)

    by_child :
        (q c : ℕ)
        → (if p == q
            then contains (w.procs p).children c || w.next_pid == c
            else (if w.next_pid == q then false else contains (w.procs q).children c))
          ≡ true
        → (if w.next_pid == c then some p else (w.procs c).parent) ≡ some q
    by_child q c h = ground (arith, h, f.parent p c, f.parent q c, f.fresh p c, f.fresh q c)

    not_child :
        (q c : ℕ)
        → w.next_pid + 1 ≤ c
        → (if p == q
            then contains (w.procs p).children c || w.next_pid == c
            else (if w.next_pid == q then false else contains (w.procs q).children c))
          ≡ false
    not_child q c h =
        ground (arith, h, f.fresh p c (omega (arith, h)), f.fresh q c (omega (arith, h)))

    one_more :
        (q : ℕ)
        → ((p == q) ≡ true) ⊎ ((p == q) ≡ false)
        → Distinct (
            if p == q
            then (w.procs p).children ++ (w.next_pid ∷ [])
            else (if w.next_pid == q then [] else (w.procs q).children))
    one_more q (inl y) =
        subst
          (λ b. Distinct (
            if b
            then (w.procs p).children ++ (w.next_pid ∷ [])
            else (if w.next_pid == q then [] else (w.procs q).children)))
          (sym y)
          (Distinct-snoc (w.procs p).children w.next_pid (f.distinct p)
            (f.fresh p w.next_pid (omega arith)))
    one_more q (inr n) = subst Distinct (sym other) (f.distinct q)
      where
        other :
            (if p == q
              then (w.procs p).children ++ (w.next_pid ∷ [])
              else (if w.next_pid == q then [] else (w.procs q).children))
            ≡ (w.procs q).children
        other = ground (arith, n, f.childless q)
