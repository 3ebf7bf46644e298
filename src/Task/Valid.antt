-- ===== src/Task/Valid.antt =====
-- The scheduler's invariant, and what `resched` does to a kernel that satisfies its half.
use r_core_tutorial_v3_arm.Base.{
  ℕ, ◌≡◌, refl, ap, subst, ◌≢◌, inl, inr, Bool, true, false, not, Option, none, some, List, [], ◌∷◌,
  arith, ◌==◌, ==_iff, Bool-cases, All, contains, Distinct, done,
}
use r_core_tutorial_v3_arm.Task.{
  TaskState, ready, running, zombie, blocking, ◌==state◌, Kernel, update, pick_next_task, switch_to,
  next_or_idle, resched,
}

-- What holds of the queue at all times. `spawned` are the tasks that were handed to the scheduler.
pub record IsQueued (spawned : ℕ → Bool) (k : Kernel) : Type 0 where
  pub all_ready : All (λ t. k.state t ≡ ready) k.ready_queue
  pub distinct : Distinct k.ready_queue
  pub idle_out : contains k.ready_queue k.idle ≡ false
  pub no_lost :
      (t : ℕ) → spawned t ≡ true → k.state t ≡ ready → t ≢ k.idle → contains k.ready_queue t ≡ true

-- The current task runs and no other does.
pub record IsScheduled (spawned : ℕ → Bool) (k : Kernel) : Type 0 where
  pub queued : IsQueued spawned k
  pub runs : k.state k.current ≡ running
  pub alone : (t : ℕ) → k.state t ≡ running → t ≡ k.current

-- No task runs: the kernel is between two tasks.
pub record IsParted (spawned : ℕ → Bool) (k : Kernel) : Type 0 where
  pub queued : IsQueued spawned k
  pub nobody : (t : ℕ) → k.state t ≢ running

-- The kernel after a switch to `next`, with `rest` left in the queue.
abbrev pub switched : Kernel → ℕ → List ℕ → Kernel
switched k next rest = record k {
  state = update k.state next running;
  ready_queue = rest;
  current = next;
}

-- The front of the queue, or the idle task.
abbrev pub front : ℕ → List ℕ → ℕ
front idle [] = idle
front idle (t ∷ q) = t

abbrev pub behind : List ℕ → List ℕ
behind [] = []
behind (t ∷ q) = q

pick-front :
    (k : Kernel) (q : List ℕ)
    → All (λ t. k.state t ≡ ready) q
    → (o : Option ℕ) × (pick_next_task k.state q ≡ done (o, behind q))
      × (next_or_idle k o ≡ front k.idle q)
unfolding pick_next_task
pick-front k [] h = (none, refl, refl)
pick-front k (t ∷ q) h = (some t, ground (arith, h.0), refl)

switch_to-switched :
    (k : Kernel) (q : List ℕ) (next : ℕ)
    → switch_to (record k { ready_queue = q }) next ≡ switched k next q
unfolding switch_to
switch_to-switched k q next = ground arith

not_running : (s : TaskState) → s ≢ running → not (s ==state running) ≡ true
not_running ready h = refl
not_running running h = absurd (h refl)
not_running zombie h = refl
not_running blocking h = refl

-- `resched` goes to the front of the queue, or to the idle task.
pub resched-switched :
    (k : Kernel)
    → All (λ t. k.state t ≡ ready) k.ready_queue
    → k.state k.current ≢ running
    → resched k ≡ done (switched k (front k.idle k.ready_queue) (behind k.ready_queue))
unfolding resched
resched-switched k h ne =
    let (o, picked, next) = pick-front k k.ready_queue h in
    rw (not_running (k.state k.current) ne, picked, next)
      (ap done (switch_to-switched k (behind k.ready_queue) (front k.idle k.ready_queue)))

-- The states of a list's tasks do not depend on a task outside it.
pub All-update :
    (r : TaskState) (st : ℕ → TaskState) (t : ℕ) (s : TaskState) (q : List ℕ)
    → contains q t ≡ false
    → All (λ u. st u ≡ r) q
    → All (λ u. update st t s u ≡ r) q
All-update r st t s [] h a = tt
All-update r st t s (u ∷ q) h a = (ground (arith, a.0), All-update r st t s q (ground arith) a.1)

-- A task in another state is not in the list.
pub not_queued :
    (r : TaskState) (st : ℕ → TaskState) (t : ℕ) (q : List ℕ)
    → All (λ u. st u ≡ r) q
    → st t ≢ r
    → contains q t ≡ false
not_queued r st t [] a ne = refl
not_queued r st t (u ∷ q) a ne = elim (Bool-cases (u == t)) [
  | inl e ↦ absurd (ne (subst (λ w. st w ≡ r) ((==_iff u t).0 e) a.0))
  | inr d ↦ rw d (not_queued r st t q a.1 ne)
]

module _ (spawned : ℕ → Bool) where
  switched-IsQueued :
      (k : Kernel) (q : List ℕ)
      → k.ready_queue ≡ q
      → IsQueued spawned k
      → IsQueued spawned (switched k (front k.idle q) (behind q))
  switched-IsQueued k [] e v = record {
    all_ready = tt;
    distinct = tt;
    idle_out = refl;
    no_lost = λ t sp r ne. ground (arith, rw e at (v.no_lost t sp), ne);
  }
  switched-IsQueued k (t ∷ q) e v =
      let d : Distinct (t ∷ q) = rw e at v.distinct in
      let a : All (λ u. k.state u ≡ ready) (t ∷ q) = rw e at v.all_ready in
      let i : contains (t ∷ q) k.idle ≡ false = rw e at v.idle_out in
      record {
        all_ready = All-update ready k.state t running q d.0 a.1;
        distinct = d.1;
        idle_out = ground arith;
        no_lost = λ u sp r ne. ground (arith, rw e at (v.no_lost u sp), ne);
      }

  -- From between two tasks, `resched` does not panic and leaves exactly one task running.
  pub resched-IsScheduled :
      (k : Kernel)
      → IsParted spawned k
      → (resched k ≡ done (switched k (front k.idle k.ready_queue) (behind k.ready_queue)))
        × IsScheduled spawned (switched k (front k.idle k.ready_queue) (behind k.ready_queue))
  resched-IsScheduled k v = (
    resched-switched k v.queued.all_ready (v.nobody k.current),
    record {
      queued = switched-IsQueued k k.ready_queue refl v.queued;
      runs = ground arith;
      alone = λ t r. ground (arith, v.nobody t);
    },
  )
