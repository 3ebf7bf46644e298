-- ===== src/Task/Fair.antt =====
-- Round robin: a ready task runs after as many yields as tasks stand before it.
use r_core_tutorial_v3_arm.Base.{
  ℕ, zero, suc, ◌≡◌, refl, ◌∙◌, ◌≢◌, Bool, false, some, List, [], ◌∷◌, ◌++◌, arith, get_elem?,
  contains, Run, done, ◌>>=◌,
}
use r_core_tutorial_v3_arm.Task.{Kernel, yield_current}
use r_core_tutorial_v3_arm.Task.Valid.{IsScheduled, front, behind}
use r_core_tutorial_v3_arm.Task.Steps.{enqueued, next_scheduled, yield_current_lem}

-- `n` tasks yield, one after the other.
pub yields : ℕ → Kernel → Run Kernel
yields zero k = done k
yields (suc n) k = yield_current k >>= yields n

-- In a queue with a task of number `n` the front is the task itself, or it is one nearer the front.
get_elem?-append :
    (q : List ℕ) (n t u : ℕ) → get_elem? q n ≡ some t → get_elem? (q ++ (u ∷ [])) n ≡ some t
get_elem?-append [] n t u e = cc
get_elem?-append (x ∷ q) zero t u e = e
get_elem?-append (x ∷ q) (suc n) t u e = get_elem?-append q n t u e

get_elem?-behind : (q : List ℕ) (n : ℕ) → get_elem? (behind q) n ≡ get_elem? q (suc n)
get_elem?-behind [] n = refl
get_elem?-behind (x ∷ q) n = refl

get_elem?-front : (idle : ℕ) (q : List ℕ) (t : ℕ) → get_elem? q 0 ≡ some t → front idle q ≡ t
get_elem?-front idle [] t e = cc
get_elem?-front idle (x ∷ q) t e = cc

front_of_append :
    (idle u : ℕ) (q : List ℕ)
    → contains q idle ≡ false
    → u ≢ idle
    → front idle (q ++ (u ∷ [])) ≢ idle
front_of_append idle u [] h ne = ne
front_of_append idle u (x ∷ q) h ne = ground arith

-- From a valid state in which a task other than the idle one runs, the task at place `n` of the queue
-- is the one that runs after `n + 1` yields; none of them panics.
pub yields-runs :
    (spawned : ℕ → Bool) (n t : ℕ) (k : Kernel)
    → IsScheduled spawned k
    → k.current ≢ k.idle
    → get_elem? k.ready_queue n ≡ some t
    → (k' : Kernel) × (yields (suc n) k ≡ done k') × (k'.current ≡ t) × IsScheduled spawned k'
unfolding yields
yields-runs sp zero t k v ne e =
    let (ran, w) = yield_current_lem sp k v ne in
    (
      next_scheduled (enqueued k k.current),
      rw (ran, yields),
      get_elem?-front k.idle _ t (get_elem?-append k.ready_queue 0 t k.current e),
      w,
    )
yields-runs sp (suc n) t k v ne e =
    let (ran, w) = yield_current_lem sp k v ne in
    let q : List ℕ = k.ready_queue ++ (k.current ∷ []) in
    let (k', done', at, w') =
      yields-runs sp n t (next_scheduled (enqueued k k.current)) w
        (front_of_append k.idle k.current k.ready_queue v.queued.idle_out ne)
        (get_elem?-behind q n ∙ get_elem?-append k.ready_queue (suc n) t k.current e) in
    (k', rw ran done', at, w')
