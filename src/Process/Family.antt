-- ===== src/Process/Family.antt =====
-- The tree of processes: who is whose child, kept by `fork`, `stop`, `waitpid` and the end of a task.
use r_core_tutorial_v3_arm.Base.{
  ℕ, ◌≤◌, ◌<◌, ◌≡◌, refl, sym, ap, ◌∙◌, subst, true, false, some, List, [], ◌∷◌, ◌++◌, arith, ◌==◌,
  if◌then◌else◌, eq_refl, contains, Distinct, contains-append,
}
use mathlib.Core.List.{append-nil, append_assoc}
use r_core_tutorial_v3_arm.Process.{World, root_proc, add_child, adopt}

-- Each child knows its parent, no list of children has one twice, and the numbers from `next_pid` on
-- belong to nobody: they are neither children nor have any. The root process is there.
pub record IsFamily (w : World) : Type 0 where
  pub parent : (p c : ℕ) → contains (w.procs p).children c ≡ true → (w.procs c).parent ≡ some p
  pub distinct : (p : ℕ) → Distinct (w.procs p).children
  pub fresh : (p c : ℕ) → w.next_pid ≤ c → contains (w.procs p).children c ≡ false
  pub childless : (p : ℕ) → w.next_pid ≤ p → (w.procs p).children ≡ []
  pub rooted : root_proc < w.next_pid

-- What the invariant reads of the processes.
pub Family-same :
    (w w' : World)
    → ((p : ℕ) → (w'.procs p).children ≡ (w.procs p).children)
    → ((p : ℕ) → (w'.procs p).parent ≡ (w.procs p).parent)
    → w'.next_pid ≡ w.next_pid
    → IsFamily w
    → IsFamily w'
Family-same w w' cs ps n f = record {
  parent = λ p c h. ps c ∙ f.parent p c (ap (λ l. contains l c) (sym (cs p)) ∙ h);
  distinct = λ p. subst Distinct (sym (cs p)) (f.distinct p);
  fresh = λ p c h. ap (λ l. contains l c) (cs p) ∙ f.fresh p c (omega (arith, h, n));
  childless = λ p h. cs p ∙ f.childless p (omega (arith, h, n));
  rooted = omega (arith, n, f.rooted);
}

-- The children after `add_child`.
pub children-add_child :
    (w : World) (p c q : ℕ)
    → ((add_child w p c).procs q).children
      ≡ (if p == q then (w.procs p).children ++ (c ∷ []) else (w.procs q).children)
unfolding add_child
children-add_child w p c q = ground arith

pub parent-add_child :
    (w : World) (p c q : ℕ)
    → ((add_child w p c).procs q).parent ≡ (if c == q then some p else (w.procs q).parent)
unfolding add_child
parent-add_child w p c q = ground arith

-- All that `stop` does to the tree, process by process.
pub adopt_lem :
    (w : World) (cs : List ℕ) (q : ℕ)
    → (((adopt w cs).procs q).children
        ≡ (if root_proc == q then (w.procs q).children ++ cs else (w.procs q).children))
      × (((adopt w cs).procs q).parent
          ≡ (if contains cs q then some root_proc else (w.procs q).parent))
      × ((adopt w cs).next_pid ≡ w.next_pid)
unfolding add_child
adopt_lem w [] q = (ground (arith, append-nil (w.procs q).children), refl, refl)
adopt_lem w (c ∷ cs) q =
    let (a, b, n) = adopt_lem (add_child w root_proc c) cs q in
    (
      a
          ∙ ground (
            arith,
            children-add_child w root_proc c q,
            append_assoc (w.procs root_proc).children (c ∷ []) cs,
          ),
      b ∙ ground (arith, parent-add_child w root_proc c q),
      n,
    )

pub Distinct-append :
    (xs ys : List ℕ)
    → Distinct xs
    → Distinct ys
    → ((a : ℕ) → contains xs a ≡ true → contains ys a ≡ false)
    → Distinct (xs ++ ys)
Distinct-append [] ys dx dy apart = dy
Distinct-append (x ∷ xs) ys dx dy apart = (
  contains-append xs ys x ∙ ground (arith, dx.0, apart x (ground (arith, eq_refl x))),
  Distinct-append xs ys dx.1 dy (λ a h. apart a (ground (arith, h))),
)

pub Distinct-middle :
    (l r : List ℕ) (c : ℕ)
    → Distinct (l ++ (c ∷ r))
    → Distinct (l ++ r) × (contains (l ++ r) c ≡ false)
Distinct-middle [] r c d = (d.1, d.0)
Distinct-middle (x ∷ l) r c d =
    let (e, n) = Distinct-middle l r c d.1 in
    let apart = contains-append l (c ∷ r) x ∙ refl in
    (
      (ground (arith, d.0, apart, contains-append l r x), e),
      ground (arith, d.0, apart, n, eq_refl c),
    )

pub contains-middle :
    (l r : List ℕ) (c a : ℕ) → contains (l ++ r) a ≡ true → contains (l ++ (c ∷ r)) a ≡ true
contains-middle l r c a h =
    contains-append l (c ∷ r) a ∙ ground (arith, sym (contains-append l r a) ∙ h)
