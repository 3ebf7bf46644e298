-- ===== src/Task/Steps.antt =====
-- Every call of the scheduler keeps the invariant and does not panic.
use r_core_tutorial_v3_arm.Base.{
  ℕ, ◌≡◌, refl, ◌∙◌, fun_ext, ◌≢◌, Bool, true, false, [], ◌∷◌, ◌++◌, arith, All-map, All-append,
  contains, contains-append, Distinct-snoc, Run, done,
}
use native.Mathlib.Decide.{ℕ_discrete}
use r_core_tutorial_v3_arm.Task.{
  TaskState, ready, running, zombie, blocking, Kernel, update, set_state, add_ready_task, spawn,
  yield_current, block_current, exit_current, exit, resume,
}
use r_core_tutorial_v3_arm.Task.Valid.{
  IsQueued, IsScheduled, IsParted, switched, front, behind, resched-IsScheduled, All-update,
  not_queued,
}

-- The kernel with `t` ready at the end of the queue.
abbrev pub enqueued : Kernel → ℕ → Kernel
enqueued k t = record k { state = update k.state t ready; ready_queue = k.ready_queue ++ (t ∷ []) }

-- The kernel after the current task was set aside.
abbrev pub next_scheduled : Kernel → Kernel
next_scheduled k = switched k (front k.idle k.ready_queue) (behind k.ready_queue)

module _ (spawned : ℕ → Bool) where
  enqueued-IsQueued :
      (k : Kernel) (t : ℕ)
      → IsQueued spawned k
      → contains k.ready_queue t ≡ false
      → t ≢ k.idle
      → IsQueued (update spawned t true) (enqueued k t)
  enqueued-IsQueued k t v out ne = record {
    all_ready =
        All-append _ k.ready_queue (t ∷ [])
          (All-update ready k.state t ready k.ready_queue out v.all_ready) (ground arith);
    distinct = Distinct-snoc k.ready_queue t v.distinct out;
    idle_out = ground (arith, contains-append k.ready_queue (t ∷ []) k.idle, v.idle_out);
    no_lost = λ u sp r nu. ground (arith, contains-append k.ready_queue (t ∷ []) u, v.no_lost u);
  }

  -- Fewer tasks were handed over: the invariant asks for less.
  IsQueued-weaken : (k : Kernel) (t : ℕ) → IsQueued (update spawned t true) k → IsQueued spawned k
  IsQueued-weaken k t v = record {
    all_ready = v.all_ready;
    distinct = v.distinct;
    idle_out = v.idle_out;
    no_lost = λ u sp. v.no_lost u (ground arith);
  }

  -- The current task waits, or is gone.
  pub leave-IsParted :
      (k : Kernel) (s : TaskState) (st : ℕ → TaskState) (codes : ℕ → ℕ)
      → IsScheduled spawned k
      → s ≢ running
      → s ≢ ready
      → ((t : ℕ) → st t ≡ update k.state k.current s t)
      → IsParted spawned (record k { state = st; exit_code = codes })
  leave-IsParted k s st codes v nr nq e = record {
    queued = record {
      all_ready =
          All-map (λ t h. e t ∙ h) k.ready_queue
            (All-update ready k.state k.current s k.ready_queue out v.queued.all_ready);
      distinct = v.queued.distinct;
      idle_out = v.queued.idle_out;
      no_lost = λ t sp r ne. v.queued.no_lost t sp (ground (arith, e t)) ne;
    };
    nobody = λ t r. ground (arith, e t, v.alone t);
  }
    where
      out : contains k.ready_queue k.current ≡ false
      out = not_queued ready k.state k.current k.ready_queue v.queued.all_ready (λ h. cc (v.runs))

  pub yield-IsParted :
      (k : Kernel)
      → IsScheduled spawned k
      → k.current ≢ k.idle
      → IsParted spawned (enqueued k k.current)
  yield-IsParted k v ne = record {
    queued = IsQueued-weaken (enqueued k k.current) k.current (
        enqueued-IsQueued k k.current v.queued
          (not_queued ready k.state k.current k.ready_queue v.queued.all_ready (λ h. cc (v.runs)))
          ne);
    nobody = λ t r. ground (arith, v.alone t);
  }

  pub idle-IsParted :
      (k : Kernel)
      → IsScheduled spawned k
      → k.current ≡ k.idle
      → IsParted spawned (set_state k k.current ready)
  idle-IsParted k v e = record {
    queued = record {
      all_ready =
          All-update ready k.state k.current ready k.ready_queue
            (not_queued ready k.state k.current k.ready_queue v.queued.all_ready (λ h. cc (v.runs)))
            v.queued.all_ready;
      distinct = v.queued.distinct;
      idle_out = v.queued.idle_out;
      no_lost = λ t sp r ne. v.queued.no_lost t sp (ground (arith, e)) ne;
    };
    nobody = λ t r. ground (arith, v.alone t);
  }

  -- What a call leaves: the kernel that it returns satisfies the invariant and is known.
  abbrev pub Leaves : (ℕ → Bool) → Run Kernel → Kernel → Type 0
  Leaves sp r k = (r ≡ done k) × IsScheduled sp k

  -- `yield_current` of a task puts it behind all that are ready, and runs the one that waited longest.
  pub yield_current_lem :
      (k : Kernel)
      → IsScheduled spawned k
      → k.current ≢ k.idle
      → Leaves spawned (yield_current k) (next_scheduled (enqueued k k.current))
  unfolding yield_current add_ready_task
  yield_current_lem k v ne =
      let (e, w) = resched-IsScheduled spawned (enqueued k k.current) (yield-IsParted k v ne) in
      (ground (arith, v.runs, e), w)

  pub yield_current_idle :
      (k : Kernel)
      → IsScheduled spawned k
      → k.current ≡ k.idle
      → Leaves spawned (yield_current k) (next_scheduled (set_state k k.current ready))
  unfolding yield_current
  yield_current_idle k v i =
      let (e, w) =
        resched-IsScheduled spawned (set_state k k.current ready) (idle-IsParted k v i) in
      (ground (arith, v.runs, e), w)

  pub block_current_lem :
      (k : Kernel)
      → IsScheduled spawned k
      → Leaves spawned (block_current k) (next_scheduled (set_state k k.current blocking))
  unfolding block_current
  block_current_lem k v =
      resched-IsScheduled spawned (set_state k k.current blocking)
        (leave-IsParted k blocking _ k.exit_code v (λ h. cc) (λ h. cc) (λ t. refl))

  -- The kernel after the current task has exited.
  abbrev pub exited : Kernel → ℕ → Kernel
  exited k code = record k {
    state = update (update k.state k.current zombie) k.current zombie;
    exit_code = update (update k.exit_code k.current code) k.current code;
  }

  pub exit_lem :
      (k : Kernel) (code : ℕ)
      → IsScheduled spawned k
      → Leaves spawned (exit k code) (next_scheduled (exited k code))
  unfolding exit exit_current
  exit_lem k code v =
      let (e, w) =
        resched-IsScheduled spawned (exited k code)
          (leave-IsParted k zombie _ _ v (λ h. cc) (λ h. cc) (λ t. ground arith)) in
      (ground (arith, e), w)

  -- `spawn` of a ready task that is not in the queue.
  pub spawn_lem :
      (k : Kernel) (t : ℕ)
      → IsScheduled spawned k
      → k.state t ≡ ready
      → contains k.ready_queue t ≡ false
      → t ≢ k.idle
      → Leaves (update spawned t true) (spawn k t) (enqueued k t)
  unfolding spawn add_ready_task
  spawn_lem k t v r out ne = (
    ground (arith, r, same),
    record {
      queued = enqueued-IsQueued k t v.queued out ne;
      runs = ground (arith, v.runs);
      alone = λ u h. ground (arith, v.alone u);
    },
  )
    where
      same : k.state ≡ update k.state t ready
      same = fun_ext λ u. ground (arith, r)

  -- `resume` of a blocked task wakes it: it is ready, and last in the queue.
  pub resume_lem :
      (k : Kernel) (t : ℕ)
      → IsScheduled spawned k
      → k.state t ≡ blocking
      → t ≢ k.idle
      → Leaves spawned (resume k t) (enqueued k t)
  unfolding resume spawn add_ready_task
  resume_lem k t v b ne = (
    ground (arith, b),
    record {
      queued = IsQueued-weaken (enqueued k t) t (
          enqueued-IsQueued k t v.queued
            (not_queued ready k.state t k.ready_queue v.queued.all_ready (λ h. cc)) ne);
      runs = ground (arith, v.runs, b);
      alone = λ u h. ground (arith, v.alone u);
    },
  )

-- The calls that tasks and the rest of the kernel make.
pub data Call : Type 0 where
  yields blocks : Call
  exits resumes spawns : ℕ → Call

unfoldable pub call : Kernel → Call → Run Kernel
call k yields = yield_current k
call k blocks = block_current k
call k (exits code) = exit k code
call k (resumes t) = resume k t
call k (spawns t) = spawn k t

-- The idle task neither blocks nor exits; only a blocked task is resumed, and only a ready task that
-- is not queued is handed over.
abbrev pub Allowed : Kernel → Call → Type 0
Allowed k yields = Unit {0}
Allowed k blocks = k.current ≢ k.idle
Allowed k (exits code) = k.current ≢ k.idle
Allowed k (resumes t) = (k.state t ≡ blocking) × (t ≢ k.idle)
Allowed k (spawns t) = (k.state t ≡ ready) × (contains k.ready_queue t ≡ false) × (t ≢ k.idle)

abbrev pub spawned_after : (ℕ → Bool) → Call → ℕ → Bool
spawned_after sp (spawns t) = update sp t true
spawned_after sp _ = sp

returned :
    (spawned : ℕ → Bool) (r : Run Kernel) (k : Kernel)
    → Leaves spawned spawned r k
    → (k' : Kernel) × (r ≡ done k') × IsScheduled spawned k'
returned sp r k l = (k, l.0, l.1)

-- A call that is allowed does not panic, and keeps the invariant: exactly one task runs, the queue
-- holds ready tasks only and none twice, and every ready task that was handed over is in it.
pub call-IsScheduled :
    (spawned : ℕ → Bool) (k : Kernel) (c : Call)
    → IsScheduled spawned k
    → Allowed k c
    → (k' : Kernel) × (call k c ≡ done k') × IsScheduled (spawned_after spawned c) k'
unfolding call
call-IsScheduled sp k yields v a = elim (ℕ_discrete k.current k.idle) [
  | yes i ↦ returned sp _ _ (yield_current_idle sp k v i)
  | no ne ↦ returned sp _ _ (yield_current_lem sp k v ne)
]
call-IsScheduled sp k blocks v a = returned sp _ _ (block_current_lem sp k v)
call-IsScheduled sp k (exits code) v a = returned sp _ _ (exit_lem sp k code v)
call-IsScheduled sp k (resumes t) v a = returned sp _ _ (resume_lem sp k t v a.0 a.1)
call-IsScheduled sp k (spawns t) v a =
    returned (update sp t true) _ _ (spawn_lem sp k t v a.0 a.1 a.2)
