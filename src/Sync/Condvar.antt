-- ===== src/Sync/Condvar.antt =====
-- os/src/sync/condvar.rs, over the blocking mutex. A wait is two steps of the waiting task: up to the
-- switch, and after it was resumed, when it takes the mutex again by `Mutex.lock`.
use r_core_tutorial_v3_arm.Base.{
  ℕ, ◌≡◌, refl, subst, ◌≢◌, Bool, false, some, List, [], ◌∷◌, ◌++◌, contains, Run, done, ◌>>=◌,
}
use r_core_tutorial_v3_arm.Task.{blocking, Kernel, set_state, block_current, resume}
use r_core_tutorial_v3_arm.Task.Valid.{IsScheduled}
use r_core_tutorial_v3_arm.Task.Steps.{next_scheduled, block_current_lem, resume_lem}
use r_core_tutorial_v3_arm.Sync.Waiting.{
  IsWaiting, join-IsWaiting, wake-IsWaiting, front-may-resume, enqueue-IsWaiting,
}
use r_core_tutorial_v3_arm.Sync.Mutex
use r_core_tutorial_v3_arm.Sync.Mutex.{
  MutexBlocking, Owned, Represents, unlock, given_up, kernel_unlock, unlock_refines,
}

pub record Condvar : Type 0 where
  pub wait_queue : List ℕ

abbrev pub new : Condvar
new = record { wait_queue = [] }

signal_front : List ℕ → Kernel → Run (Condvar × Kernel)
signal_front [] k = done (record { wait_queue = [] }, k)
signal_front (t ∷ q) k = do k' ← resume k t; done (record { wait_queue = q }, k')

unfoldable pub signal : Condvar → Kernel → Run (Condvar × Kernel)
unfolding signal_front
signal c k = signal_front c.wait_queue k

-- `wait` up to the switch to another task: the mutex is released, the task joins the queue and blocks.
unfoldable pub wait_begin :
    Condvar → MutexBlocking → Kernel → Run (Condvar × MutexBlocking × Kernel)
wait_begin c m k = do
  released ← unlock m k
  let c' : Condvar = record { wait_queue = c.wait_queue ++ (k.current ∷ []) }
  k' ← block_current released.1
  done (c', released.0, k')

-- The front of a queue, if there is one, is not in another.
abbrev pub FrontOutside : List ℕ → List ℕ → Type 0
FrontOutside [] q = Unit {0}
FrontOutside (t ∷ w) q = contains q t ≡ false

unlock-keeps-IsWaiting :
    (w q : List ℕ) (k : Kernel) → IsWaiting q k → FrontOutside w q → IsWaiting q (kernel_unlock k w)
unlock-keeps-IsWaiting [] q k v h = v
unlock-keeps-IsWaiting (t ∷ w) q k v h = enqueue-IsWaiting q k t v h

current-kernel_unlock : (w : List ℕ) (k : Kernel) → (kernel_unlock k w).current ≡ k.current
current-kernel_unlock [] k = refl
current-kernel_unlock (t ∷ w) k = refl

idle-kernel_unlock : (w : List ℕ) (k : Kernel) → (kernel_unlock k w).idle ≡ k.idle
idle-kernel_unlock [] k = refl
idle-kernel_unlock (t ∷ w) k = refl

-- The kernel once the current task has released the mutex and waits.
abbrev pub kernel_wait : Kernel → List ℕ → Kernel
kernel_wait k w =
    next_scheduled (set_state (kernel_unlock k w) (kernel_unlock k w).current blocking)

abbrev pub behind : List ℕ → List ℕ
behind [] = []
behind (t ∷ q) = q

-- Where the running task owns the mutex, `wait` never panics: the mutex goes to its next waiter or
-- becomes free, and the task is blocked as the last of the condition variable's queue. A signal that
-- comes later therefore finds it. The scheduler's invariant is kept.
pub wait_begin_lem :
    (spawned : ℕ → Bool) (c : Condvar) (m : MutexBlocking) (o : ℕ) (w : List ℕ) (k : Kernel)
    → IsScheduled spawned k
    → k.current ≢ k.idle
    → Represents m (record { owner = some o; waiters = w }) k
    → IsWaiting c.wait_queue k
    → FrontOutside w c.wait_queue
    → (m' : MutexBlocking) × (wait_begin c m k
        ≡ done (record { wait_queue = c.wait_queue ++ (k.current ∷ []) }, m', kernel_wait k w))
      × (m'.locked ≡ Mutex.is_some (given_up w).owner)
      × (m'.wait_queue ≡ (given_up w).waiters)
      × IsWaiting (c.wait_queue ++ (k.current ∷ [])) (kernel_wait k w)
      × IsScheduled spawned (kernel_wait k w)
unfolding wait_begin
wait_begin_lem sp c m o w k v ne r q out =
    let (m', ran, r', v') = unlock_refines sp m o w k v r in
    let ne' : (kernel_unlock k w).current ≢ (kernel_unlock k w).idle =
      rw (current-kernel_unlock w k, idle-kernel_unlock w k) ne in
    let (blocked, v'') = block_current_lem sp (kernel_unlock k w) v' in
    (
      m',
      rw (ran, blocked),
      r'.locked,
      r'.queue,
      subst (λ t. IsWaiting (c.wait_queue ++ (t ∷ [])) (kernel_wait k w))
          (current-kernel_unlock w k)
          (join-IsWaiting sp c.wait_queue (kernel_unlock k w) v'
            (unlock-keeps-IsWaiting w c.wait_queue k q out) ne'),
      v'',
    )

-- `signal` never panics: it wakes the task that waited longest, which is ready again, and changes
-- nothing where nobody waits. The scheduler's invariant is kept.
pub signal_lem :
    (spawned : ℕ → Bool) (c : Condvar) (k : Kernel)
    → IsScheduled spawned k
    → IsWaiting c.wait_queue k
    → (signal c k
        ≡ done (record { wait_queue = behind c.wait_queue }, kernel_unlock k c.wait_queue))
      × IsWaiting (behind c.wait_queue) (kernel_unlock k c.wait_queue)
      × IsScheduled spawned (kernel_unlock k c.wait_queue)
unfolding signal
signal_lem sp c k v w = at_queue c.wait_queue w
  where
    at_queue :
        (q : List ℕ)
        → IsWaiting q k
        → (signal_front q k ≡ done (record { wait_queue = behind q }, kernel_unlock k q))
          × IsWaiting (behind q) (kernel_unlock k q)
          × IsScheduled sp (kernel_unlock k q)
    at_queue [] w = (refl, w, v)
    at_queue (t ∷ q) w =
        let (b, ne) = front-may-resume t q k w in
        let (e, v') = resume_lem sp k t v b ne in (rw e, wake-IsWaiting t q k w, v')
