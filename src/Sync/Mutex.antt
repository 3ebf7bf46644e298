-- ===== src/Sync/Mutex.antt =====
-- os/src/sync/user_mutex.rs: the blocking mutex, which hands the lock over to the task that waited
-- longest, and the spinning one.
use r_core_tutorial_v3_arm.Base.{
  ℕ, ◌≡◌, refl, ◌≢◌, Bool, true, false, Option, none, some, List, [], ◌∷◌, ◌++◌, if◌then◌else◌, Run,
  done, panic, ◌>>=◌, ◌>>◌, assert,
}
use r_core_tutorial_v3_arm.Task.{blocking, Kernel, set_state, block_current, yield_current, resume}
use r_core_tutorial_v3_arm.Task.Valid.{IsScheduled}
use r_core_tutorial_v3_arm.Task.Steps.{enqueued, next_scheduled, block_current_lem, resume_lem}
use r_core_tutorial_v3_arm.Sync.Waiting.{
  IsWaiting, join-IsWaiting, wake-IsWaiting, front-may-resume, nobody-IsWaiting,
}

pub record MutexBlocking : Type 0 where
  pub locked : Bool
  pub wait_queue : List ℕ

abbrev pub new_blocking : MutexBlocking
new_blocking = record { locked = false; wait_queue = [] }

-- Where the lock is held, the task joins the queue and blocks; it holds the lock when it is resumed.
wait_for_lock : MutexBlocking → Kernel → Run (MutexBlocking × Kernel)
wait_for_lock m k = do
  k' ← block_current k
  done (record m { wait_queue = m.wait_queue ++ (k.current ∷ []) }, k')

unfoldable pub lock : MutexBlocking → Kernel → Run (MutexBlocking × Kernel)
unfolding wait_for_lock
lock m k = if m.locked then wait_for_lock m k else done (record m { locked = true }, k)

-- The lock stays locked when a task waits for it.
hand_over : MutexBlocking → List ℕ → Kernel → Run (MutexBlocking × Kernel)
hand_over m [] k = done (record m { locked = false }, k)
hand_over m (t ∷ q) k = do k' ← resume k t; done (record m { wait_queue = q }, k')

unfoldable pub unlock : MutexBlocking → Kernel → Run (MutexBlocking × Kernel)
unfolding hand_over
unlock m k = do assert m.locked; hand_over m m.wait_queue k

-- `MutexSpin`. One round of the loop of `lock`: the task took the lock, or it yields and will try
-- again. The test says whether the loop is over.
pub record MutexSpin : Type 0 where
  pub locked : Bool

abbrev pub new_spin : MutexSpin
new_spin = record { locked = false }

spin_again : MutexSpin → Kernel → Run (Bool × MutexSpin × Kernel)
spin_again m k = do k' ← yield_current k; done (false, m, k')

unfoldable pub lock_round : MutexSpin → Kernel → Run (Bool × MutexSpin × Kernel)
unfolding spin_again
lock_round m k = if m.locked then spin_again m k else done (true, record { locked = true }, k)

unfoldable pub unlock_spin : MutexSpin → MutexSpin
unlock_spin m = record { locked = false }

-- The specification of the blocking mutex: who owns it, and who waits for it.
pub record Owned : Type 0 where
  pub owner : Option ℕ
  pub waiters : List ℕ

-- A task that asks owns the mutex, or waits behind the others; the test says which.
abbrev pub asked : Option ℕ → List ℕ → ℕ → Owned × Bool
asked none w t = (record { owner = some t; waiters = w }, false)
asked (some o) w t = (record { owner = some o; waiters = w ++ (t ∷ []) }, true)

-- The owner gives the mutex to the task that waited longest, if one waits.
abbrev pub given_up : List ℕ → Owned
given_up [] = record { owner = none; waiters = [] }
given_up (t ∷ q) = record { owner = some t; waiters = q }

abbrev pub front? : List ℕ → Option ℕ
front? [] = none
front? (t ∷ q) = some t

abbrev pub is_some : Option ℕ → Bool
is_some none = false
is_some (some o) = true

pub record Represents (m : MutexBlocking) (p : Owned) (k : Kernel) : Type 0 where
  pub locked : m.locked ≡ is_some p.owner
  pub queue : m.wait_queue ≡ p.waiters
  pub nobody_waits : p.owner ≡ none → p.waiters ≡ []
  pub waiting : IsWaiting p.waiters k

abbrev pub kernel_lock : Kernel → Bool → Kernel
kernel_lock k true = next_scheduled (set_state k k.current blocking)
kernel_lock k false = k

abbrev pub kernel_unlock : Kernel → List ℕ → Kernel
kernel_unlock k [] = k
kernel_unlock k (t ∷ q) = enqueued k t

pub new-Represents :
    (k : Kernel) → Represents new_blocking (record { owner = none; waiters = [] }) k
new-Represents k = record {
  locked = refl;
  queue = refl;
  nobody_waits = λ e. refl;
  waiting = nobody-IsWaiting k;
}

-- A mutex that stands for an owner `o` and the waiters `w`: `lock` by the running task never panics,
-- makes the task the owner where nobody was, and otherwise leaves the owner as it is and the task
-- blocked behind those that wait. It keeps the scheduler's invariant.
pub lock_refines :
    (spawned : ℕ → Bool) (m : MutexBlocking) (o : Option ℕ) (w : List ℕ) (k : Kernel)
    → IsScheduled spawned k
    → k.current ≢ k.idle
    → Represents m (record { owner = o; waiters = w }) k
    → let (p', waits) = asked o w k.current in
      (m' : MutexBlocking) × (lock m k ≡ done (m', kernel_lock k waits))
      × Represents m' p' (kernel_lock k waits)
      × IsScheduled spawned (kernel_lock k waits)
unfolding lock
lock_refines sp m none w k v ne r = (
  record { locked = true; wait_queue = w },
  rw (r.locked, r.queue),
  record { locked = refl; queue = refl; nobody_waits = λ e. cc; waiting = r.waiting },
  v,
)
lock_refines sp m (some o) w k v ne r =
    let (e, v') = block_current_lem sp k v in
    (
      record { locked = true; wait_queue = w ++ (k.current ∷ []) },
      rw (r.locked, e, r.queue),
      record {
        locked = refl;
        queue = refl;
        nobody_waits = λ e. cc;
        waiting = join-IsWaiting sp w k v r.waiting ne;
      },
      v',
    )

-- `unlock` of a mutex with an owner never panics. The mutex goes to the task that waited longest,
-- which is ready again, so that no other task can take it in between; it is free afterwards only where
-- nobody waited. The scheduler's invariant is kept.
pub unlock_refines :
    (spawned : ℕ → Bool) (m : MutexBlocking) (o : ℕ) (w : List ℕ) (k : Kernel)
    → IsScheduled spawned k
    → Represents m (record { owner = some o; waiters = w }) k
    → (m' : MutexBlocking) × (unlock m k ≡ done (m', kernel_unlock k w))
      × Represents m' (given_up w) (kernel_unlock k w)
      × IsScheduled spawned (kernel_unlock k w)
unfolding unlock
unlock_refines sp m o [] k v r = (
  record { locked = false; wait_queue = [] },
  rw (r.locked, r.queue),
  record { locked = refl; queue = refl; nobody_waits = λ e. refl; waiting = r.waiting },
  v,
)
unlock_refines sp m o (t ∷ q) k v r =
    let (b, ne) = front-may-resume t q k r.waiting in
    let (e, v') = resume_lem sp k t v b ne in
    (
      record { locked = true; wait_queue = q },
      rw (r.locked, r.queue, e),
      record {
        locked = refl;
        queue = refl;
        nobody_waits = λ e. cc;
        waiting = wake-IsWaiting t q k r.waiting;
      },
      v',
    )

-- `unlock` of a mutex that nobody owns panics.
pub unlock-panic :
    (m : MutexBlocking) (w : List ℕ) (k : Kernel)
    → Represents m (record { owner = none; waiters = w }) k
    → unlock m k ≡ panic
unfolding unlock
unlock-panic m w k r = rw r.locked
