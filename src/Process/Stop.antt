-- ===== src/Process/Stop.antt =====
-- `stop` and `waitpid` as changes of the tree of processes.
use r_core_tutorial_v3_arm.Base.{
  ℕ, ◌≡◌, sym, ap, ◌∙◌, subst, ◌≢◌, ◌⊎◌, inl, inr, true, false, ◌||◌, some, List, [], ◌∷◌, ◌++◌,
  arith, ◌==◌, if◌then◌else◌, ==_iff, Bool-cases, contains, Distinct, contains-append,
}
use r_core_tutorial_v3_arm.Process.Wait.{reaped}
use r_core_tutorial_v3_arm.Process.{World, root_proc, stopped, write, adopt, kill_all}
use r_core_tutorial_v3_arm.Process.Family.{
  IsFamily, adopt_lem, Distinct-append, Distinct-middle, contains-middle,
}

-- What `stop` leaves.
abbrev pub stopped_world : World → ℕ → ℕ → World
stopped_world w p code =
    let w' = adopt w (w.procs p).children in
    write w' p (record (w'.procs p) {
      children = [];
      tasks = kill_all (w'.procs p).tasks;
      state = stopped;
      exit_code = code;
    })

pub stopped_world-IsFamily :
    (w : World) (p code : ℕ) → IsFamily w → p ≢ root_proc → IsFamily (stopped_world w p code)
stopped_world-IsFamily w p code f ne = record {
  parent = λ q c h. parents c ∙ by_child q c (sym (children q c) ∙ h);
  distinct = λ q.
      subst Distinct (sym (lists q))
        (no_more q (Bool-cases (p == q)) (Bool-cases (root_proc == q)));
  fresh = λ q c h.
      children q c
      ∙ ground (
        arith,
        f.fresh p c (omega (arith, h, same_next)),
        f.fresh q c (omega (arith, h, same_next)),
      );
  childless = λ q h.
      lists q ∙ ground (arith, f.rooted, same_next, h, f.childless q (omega (arith, h, same_next)));
  rooted = omega (arith, f.rooted, same_next);
}
  where
    cs : List ℕ
    cs = (w.procs p).children

    same_next : (stopped_world w p code).next_pid ≡ w.next_pid
    same_next = (adopt_lem w cs p).2

    lists :
        (q : ℕ)
        → ((stopped_world w p code).procs q).children ≡ (
            if p == q
            then []
            else (if root_proc == q then (w.procs q).children ++ cs else (w.procs q).children))
    lists q = ground (arith, (adopt_lem w cs q).0)

    children :
        (q c : ℕ)
        → contains ((stopped_world w p code).procs q).children c ≡ (
            if p == q
            then false
            else (if root_proc == q
                then contains (w.procs q).children c || contains cs c
                else contains (w.procs q).children c))
    children q c =
        ap (λ l. contains l c) (lists q) ∙ ground (arith, contains-append (w.procs q).children cs c)

    parents :
        (q : ℕ)
        → ((stopped_world w p code).procs q).parent
          ≡ (if contains cs q then some root_proc else (w.procs q).parent)
    parents q = ground (arith, (adopt_lem w cs q).1)

    by_child :
        (q c : ℕ)
        → (if p == q
            then false
            else (if root_proc == q
                then contains (w.procs q).children c || contains cs c
                else contains (w.procs q).children c))
          ≡ true
        → (if contains cs c then some root_proc else (w.procs c).parent) ≡ some q
    by_child q c h = ground (arith, h, f.parent q c, f.parent p c)

    no_more :
        (q : ℕ)
        → ((p == q) ≡ true) ⊎ ((p == q) ≡ false)
        → ((root_proc == q) ≡ true) ⊎ ((root_proc == q) ≡ false)
        → Distinct (
            if p == q
            then []
            else (if root_proc == q then (w.procs q).children ++ cs else (w.procs q).children))
    no_more q (inl y) r = rw y tt
    no_more q (inr n) (inr m) = rw (n, m) (f.distinct q)
    no_more q (inr n) (inl m) =
        rw (n, m)
          (Distinct-append (w.procs q).children cs (f.distinct q) (f.distinct p)
            (λ c h. apart c h (Bool-cases (contains cs c))))
      where
        apart :
            (c : ℕ)
            → contains (w.procs q).children c ≡ true
            → (contains cs c ≡ true) ⊎ (contains cs c ≡ false)
            → contains cs c ≡ false
        apart c h (inr e) = e
        apart c h (inl e) = absurd (two (sym (f.parent q c h) ∙ f.parent p c e))
          where
            two : some q ≡ some p → ⊥
            two e = ground (arith, n, e)

pub reaped-IsFamily :
    (w : World) (p c : ℕ) (l r : List ℕ)
    → IsFamily w
    → (w.procs p).children ≡ l ++ (c ∷ r)
    → IsFamily (reaped w p (l ++ r) c)
reaped-IsFamily w p c l r f e = record {
  parent = λ q d h. parents d ∙ f.parent q d (fewer q d h (Bool-cases (p == q)));
  distinct = λ q. subst Distinct (sym (lists q)) (still q (Bool-cases (p == q)));
  fresh = λ q d h.
      gone q d (f.fresh q d h) (Bool-cases (contains ((reaped w p (l ++ r) c).procs q).children d));
  childless = λ q h. lists q ∙ none_left q (f.childless q h) (Bool-cases (p == q));
  rooted = f.rooted;
}
  where
    lists :
        (q : ℕ)
        → ((reaped w p (l ++ r) c).procs q).children
          ≡ (if p == q then l ++ r else (w.procs q).children)
    lists q = ground arith

    parents : (q : ℕ) → ((reaped w p (l ++ r) c).procs q).parent ≡ (w.procs q).parent
    parents q = ground arith

    same : (q : ℕ) → (p == q) ≡ true → p ≡ q
    same q = (==_iff p q).0

    fewer :
        (q d : ℕ)
        → contains ((reaped w p (l ++ r) c).procs q).children d ≡ true
        → ((p == q) ≡ true) ⊎ ((p == q) ≡ false)
        → contains (w.procs q).children d ≡ true
    fewer q d h (inr n) = ap (λ x. contains x d) (sym (lists q ∙ rw n)) ∙ h
    fewer q d h (inl y) =
        subst (λ q. contains (w.procs q).children d ≡ true) (same q y)
          (ap (λ x. contains x d) e
            ∙ contains-middle l r c d (ap (λ x. contains x d) (sym (lists q ∙ rw y)) ∙ h))

    gone :
        (q d : ℕ)
        → contains (w.procs q).children d ≡ false
        → (contains ((reaped w p (l ++ r) c).procs q).children d ≡ true)
          ⊎ (contains ((reaped w p (l ++ r) c).procs q).children d ≡ false)
        → contains ((reaped w p (l ++ r) c).procs q).children d ≡ false
    gone q d n (inr h) = h
    gone q d n (inl h) = absurd (cc (sym n ∙ fewer q d h (Bool-cases (p == q))))

    still :
        (q : ℕ)
        → ((p == q) ≡ true) ⊎ ((p == q) ≡ false)
        → Distinct (if p == q then l ++ r else (w.procs q).children)
    still q (inr n) = rw n (f.distinct q)
    still q (inl y) = rw y (Distinct-middle l r c (subst Distinct e (f.distinct p))).0

    none_left :
        (q : ℕ)
        → (w.procs q).children ≡ []
        → ((p == q) ≡ true) ⊎ ((p == q) ≡ false)
        → (if p == q then l ++ r else (w.procs q).children) ≡ []
    none_left q h (inr n) = rw n h
    none_left q h (inl y) =
        absurd (not_empty l (sym e ∙ ap (λ q. (w.procs q).children) (same q y) ∙ h))
      where
        not_empty : (l : List ℕ) → l ++ (c ∷ r) ≡ [] → ⊥
        not_empty [] z = absurd (cc z)
        not_empty (x ∷ l) z = absurd (cc z)
