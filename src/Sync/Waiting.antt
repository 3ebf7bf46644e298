-- ===== src/Sync/Waiting.antt =====
-- What a wait queue of os/src/sync holds: tasks that are blocked, none twice. Tasks join it and block
-- in one step, since interrupts are off in a system call.
use r_core_tutorial_v3_arm.Base.{
  ℕ, ◌≡◌, refl, sym, ◌∙◌, subst, ◌≢◌, Bool, false, List, [], ◌∷◌, ◌++◌, arith, ◌==◌, All, All-map,
  All-append, contains, Distinct, contains-append, Distinct-snoc, Run, done, done-injective,
}
use native.Mathlib.Decide.{ℕ_discrete}
use r_core_tutorial_v3_arm.Task.{
  yield_current, TaskState, ready, running, zombie, blocking, Kernel, set_state,
}
use r_core_tutorial_v3_arm.Task.Valid.{IsScheduled, front, All-update, not_queued}
use r_core_tutorial_v3_arm.Task.Steps.{
  enqueued, next_scheduled, exited, Call, call, call-IsScheduled, yields, yield_current_lem,
  yield_current_idle, block_current_lem, exit_lem, resume_lem, spawn_lem, yield-IsParted,
  idle-IsParted, leave-IsParted, blocks, exits, resumes, spawns, Allowed,
}

pub record IsWaiting (q : List ℕ) (k : Kernel) : Type 0 where
  pub all_blocked : All (λ t. k.state t ≡ blocking) q
  pub distinct : Distinct q
  pub idle_out : contains q k.idle ≡ false

pub nobody-IsWaiting : (k : Kernel) → IsWaiting [] k
nobody-IsWaiting k = record { all_blocked = tt; distinct = tt; idle_out = refl }

-- The task that runs next was ready, or is the idle task: it waits nowhere.
front-not-waiting :
    (q : List ℕ) (k : Kernel) (r : List ℕ)
    → IsWaiting q k
    → All (λ t. k.state t ≡ ready) r
    → contains q (front k.idle r) ≡ false
front-not-waiting q k [] w a = w.idle_out
front-not-waiting q k (t ∷ r) w a = not_queued blocking k.state t q w.all_blocked (λ e. cc (a.0))

-- A switch leaves a wait queue alone.
pub next-IsWaiting :
    (q : List ℕ) (k : Kernel)
    → IsWaiting q k
    → All (λ t. k.state t ≡ ready) k.ready_queue
    → IsWaiting q (next_scheduled k)
next-IsWaiting q k w a = record {
  all_blocked =
      All-update blocking k.state (front k.idle k.ready_queue) running q
        (front-not-waiting q k k.ready_queue w a) w.all_blocked;
  distinct = w.distinct;
  idle_out = w.idle_out;
}

-- So does a new state of a task that is not in it.
pub set_state-IsWaiting :
    (q : List ℕ) (k : Kernel) (t : ℕ) (s : TaskState)
    → IsWaiting q k
    → contains q t ≡ false
    → IsWaiting q (set_state k t s)
set_state-IsWaiting q k t s w out = record {
  all_blocked = All-update blocking k.state t s q out w.all_blocked;
  distinct = w.distinct;
  idle_out = w.idle_out;
}

-- The running task is in no wait queue.
pub current-not-waiting :
    (spawned : ℕ → Bool) (q : List ℕ) (k : Kernel)
    → IsScheduled spawned k
    → IsWaiting q k
    → contains q k.current ≡ false
current-not-waiting sp q k v w =
    not_queued blocking k.state k.current q w.all_blocked (λ e. cc (v.runs))

-- Joining: the current task goes to the end of the queue, and blocks.
pub join-IsWaiting :
    (spawned : ℕ → Bool) (q : List ℕ) (k : Kernel)
    → IsScheduled spawned k
    → IsWaiting q k
    → k.current ≢ k.idle
    → IsWaiting (q ++ (k.current ∷ [])) (next_scheduled (set_state k k.current blocking))
join-IsWaiting sp q k v w ne =
    next-IsWaiting (q ++ (k.current ∷ [])) (set_state k k.current blocking)
      (record {
        all_blocked =
            All-append _ q (k.current ∷ [])
              (All-update blocking k.state k.current blocking q out w.all_blocked) (ground arith);
        distinct = Distinct-snoc q k.current w.distinct out;
        idle_out = ground (arith, contains-append q (k.current ∷ []) k.idle, w.idle_out);
      })
      (All-update ready k.state k.current blocking k.ready_queue
        (not_queued ready k.state k.current k.ready_queue v.queued.all_ready (λ e. cc (v.runs)))
        v.queued.all_ready)
  where
    out : contains q k.current ≡ false
    out = current-not-waiting sp q k v w

-- Waking the task at the front.
pub wake-IsWaiting :
    (t : ℕ) (q : List ℕ) (k : Kernel) → IsWaiting (t ∷ q) k → IsWaiting q (enqueued k t)
wake-IsWaiting t q k w = record {
  all_blocked = All-update blocking k.state t ready q w.distinct.0 w.all_blocked.1;
  distinct = w.distinct.1;
  idle_out = ground (arith, w.idle_out);
}

pub front-may-resume :
    (t : ℕ) (q : List ℕ) (k : Kernel) → IsWaiting (t ∷ q) k → (k.state t ≡ blocking) × (t ≢ k.idle)
front-may-resume t q k w = (w.all_blocked.0, λ e. ground (arith, w.idle_out))

-- The tasks that a call of the scheduler may wake.
abbrev pub wakes : Call → ℕ → Bool
wakes (resumes t) u = t == u
wakes _ u = false

restate-IsWaiting :
    (q : List ℕ) (k k' : Kernel)
    → ((t : ℕ) → k'.state t ≡ k.state t)
    → k'.idle ≡ k.idle
    → IsWaiting q k
    → IsWaiting q k'
restate-IsWaiting q k k' e i w = record {
  all_blocked = All-map (λ t h. e t ∙ h) q w.all_blocked;
  distinct = w.distinct;
  idle_out = rw i w.idle_out;
}

pub enqueue-IsWaiting :
    (q : List ℕ) (k : Kernel) (t : ℕ)
    → IsWaiting q k
    → contains q t ≡ false
    → IsWaiting q (enqueued k t)
enqueue-IsWaiting q k t w out =
    restate-IsWaiting q (set_state k t ready) (enqueued k t) (λ u. refl) refl
      (set_state-IsWaiting q k t ready w out)

not_woken : (t : ℕ) (q : List ℕ) → All (λ u. (t == u) ≡ false) q → contains q t ≡ false
not_woken t [] h = refl
not_woken t (x ∷ q) h = ground (arith, h.0, not_woken t q h.1)

module _ (spawned : ℕ → Bool) (q : List ℕ) (k : Kernel) (v : IsScheduled spawned k)
    (w : IsWaiting q k) where
  -- A call whose answer is known.
  answered :
      (r : Run Kernel) (k₀ k' : Kernel)
      → r ≡ done k₀
      → r ≡ done k'
      → IsWaiting q k₀
      → IsWaiting q k'
  answered r k₀ k' e f = subst (IsWaiting q) (done-injective (sym e ∙ f))

  out : contains q k.current ≡ false
  out = current-not-waiting spawned q k v w

  yields-IsWaiting : (k' : Kernel) → yield_current k ≡ done k' → IsWaiting q k'
  yields-IsWaiting k' e = elim (ℕ_discrete k.current k.idle) [
    | yes i ↦ answered _ _ k' (yield_current_idle spawned k v i).0 e (
        next-IsWaiting q (set_state k k.current ready)
          (set_state-IsWaiting q k k.current ready w out)
          (idle-IsParted spawned k v i).queued.all_ready)
    | no ne ↦ answered _ _ k' (yield_current_lem spawned k v ne).0 e (
        next-IsWaiting q (enqueued k k.current) (enqueue-IsWaiting q k k.current w out)
          (yield-IsParted spawned k v ne).queued.all_ready)
  ]

  called-IsWaiting :
      (c : Call) (k' : Kernel)
      → Allowed k c
      → All (λ t. wakes c t ≡ false) q
      → call k c ≡ done k'
      → IsWaiting q k'
  unfolding call
  called-IsWaiting yields k' a h e = yields-IsWaiting k' e
  called-IsWaiting blocks k' a h e = answered _ _ k' (block_current_lem spawned k v).0 e (
      next-IsWaiting q (set_state k k.current blocking)
        (set_state-IsWaiting q k k.current blocking w out)
        (leave-IsParted spawned k blocking _ k.exit_code v (λ h. cc) (λ h. cc)
          (λ t. refl)).queued.all_ready)
  called-IsWaiting (exits code) k' a h e = answered _ _ k' (exit_lem spawned k code v).0 e (
      next-IsWaiting q (exited spawned k code)
        (restate-IsWaiting q (set_state k k.current zombie) _ (λ t. ground arith) refl
          (set_state-IsWaiting q k k.current zombie w out))
        (leave-IsParted spawned k zombie _ k.exit_code v (λ h. cc) (λ h. cc)
          (λ t. ground arith)).queued.all_ready)
  called-IsWaiting (resumes t) k' a h e =
      answered _ _ k' (resume_lem spawned k t v a.0 a.1).0 e
        (enqueue-IsWaiting q k t w (not_woken t q h))
  called-IsWaiting (spawns t) k' a h e =
      answered _ _ k' (spawn_lem spawned k t v a.0 a.1 a.2).0 e
        (enqueue-IsWaiting q k t w (not_queued blocking k.state t q w.all_blocked (λ b. cc (a.0))))

  -- In a kernel that satisfies the scheduler's invariant, an allowed call of the scheduler that wakes none
  -- of the tasks of a wait queue does not panic, and leaves them all blocked in their queue.
  pub call-IsWaiting :
      (c : Call)
      → Allowed k c
      → All (λ t. wakes c t ≡ false) q
      → (k' : Kernel) × (call k c ≡ done k') × IsWaiting q k'
  call-IsWaiting c a h =
      let (k', e, v') = call-IsScheduled spawned k c v a in (k', e, called-IsWaiting c k' a h e)
