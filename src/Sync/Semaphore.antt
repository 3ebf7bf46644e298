-- ===== src/Sync/Semaphore.antt =====
-- os/src/sync/semaphore.rs: a counting semaphore, against its specification by a number of permits
-- and a line of waiting tasks.
use r_core_tutorial_v3_arm.Base.{
  ℕ, zero, suc, ◌+◌, ◌≤◌, ◌<◌, ◌≡◌, refl, sym, ap, ◌≢◌, ◌⊎◌, inl, inr, Bool, true, false, Option,
  none, some, List, [], ◌∷◌, ◌++◌, arith, if◌then◌else◌, length, length-append, Run, done, ◌>>=◌,
}
use r_core_tutorial_v3_arm.Base.Int.{
  ℤ, pos, negsuc, max_isize, as_isize, add_one, sub_one, is_negative, is_nonpos,
}
use r_core_tutorial_v3_arm.Task.{blocking, Kernel, set_state, block_current, resume}
use r_core_tutorial_v3_arm.Task.Valid.{IsScheduled}
use r_core_tutorial_v3_arm.Task.Steps.{enqueued, next_scheduled, block_current_lem, resume_lem}
use r_core_tutorial_v3_arm.Sync.Waiting.{
  IsWaiting, join-IsWaiting, wake-IsWaiting, front-may-resume, nobody-IsWaiting,
}

pub record Semaphore : Type 0 where
  pub count : ℤ
  pub wait_queue : List ℕ

unfoldable pub new : ℕ → Semaphore
new res_count = record { count = as_isize res_count; wait_queue = [] }

-- `wait_queue.pop_front()`, and the task that was there resumes.
wake_front : ℤ → List ℕ → Kernel → Run (Semaphore × Kernel)
wake_front count [] k = done (record { count = count; wait_queue = [] }, k)
wake_front count (t ∷ q) k = do k' ← resume k t; done (record { count = count; wait_queue = q }, k')

unfoldable pub up : Semaphore → Kernel → Run (Semaphore × Kernel)
unfolding wake_front
up s k = do
  count ← add_one s.count
  if is_nonpos count then wake_front count s.wait_queue k else done (record s { count = count }, k)

-- `down` where no permit is left: the task joins the queue and blocks. The call returns once the task
-- was resumed; the kernel is the one in which the next task runs.
wait_for_permit : ℤ → Semaphore → Kernel → Run (Semaphore × Kernel)
wait_for_permit count s k = do
  k' ← block_current k
  done (record { count = count; wait_queue = s.wait_queue ++ (k.current ∷ []) }, k')

unfoldable pub down : Semaphore → Kernel → Run (Semaphore × Kernel)
unfolding wait_for_permit
down s k = do
  count ← sub_one s.count
  if is_negative count then wait_for_permit count s k else done (record s { count = count }, k)

-- The specification: free permits, and who waits for one.
pub record Permits : Type 0 where
  pub free : ℕ
  pub waiters : List ℕ

-- A release gives its permit to the task that waited longest, if one waits.
abbrev pub released : ℕ → List ℕ → Permits × Option ℕ
released n [] = (record { free = n + 1; waiters = [] }, none)
released n (t ∷ q) = (record { free = n; waiters = q }, some t)

-- A task that asks takes a free permit, or waits behind the others; the test says which.
abbrev pub acquired : ℕ → List ℕ → ℕ → Permits × Bool
acquired zero w t = (record { free = zero; waiters = w ++ (t ∷ []) }, true)
acquired (suc n) w t = (record { free = n; waiters = w }, false)

-- The count of a semaphore: the free permits, or minus the number of tasks that wait.
abbrev pub level : ℕ → List ℕ → ℤ
level n [] = pos n
level n (t ∷ q) = negsuc (length q)

pub record Represents (s : Semaphore) (p : Permits) (k : Kernel) : Type 0 where
  pub queue : s.wait_queue ≡ p.waiters
  pub count : s.count ≡ level p.free p.waiters
  pub exclusive : (p.free ≡ 0) ⊎ (p.waiters ≡ [])
  pub waiting : IsWaiting p.waiters k

-- The kernel after `up` woke a task, and after `down` made one wait.
abbrev pub kernel_up : Kernel → Option ℕ → Kernel
kernel_up k none = k
kernel_up k (some t) = enqueued k t

abbrev pub kernel_down : Kernel → Bool → Kernel
kernel_down k true = next_scheduled (set_state k k.current blocking)
kernel_down k false = k

pub new-Represents :
    (n : ℕ) (k : Kernel) → n ≤ max_isize → Represents (new n) (record { free = n; waiters = [] }) k
unfolding new as_isize
new-Represents n k h = record {
  queue = refl;
  count = ground arith;
  exclusive = inr refl;
  waiting = nobody-IsWaiting k;
}

level-snoc : (w : List ℕ) (t : ℕ) → level 0 (w ++ (t ∷ [])) ≡ negsuc (length w)
level-snoc [] t = refl
level-snoc (x ∷ w) t = ground (arith, length-append w (t ∷ []))

sub_one-level : (w : List ℕ) → length w ≤ max_isize → sub_one (level 0 w) ≡ done (negsuc (length w))
unfolding sub_one
sub_one-level [] h = refl
sub_one-level (x ∷ w) h = ground arith

sub_one-suc : (n : ℕ) → sub_one (pos (suc n)) ≡ done (pos n)
unfolding sub_one
sub_one-suc n = refl

add_one-pos : (n : ℕ) → n < max_isize → add_one (pos n) ≡ done (pos (n + 1))
unfolding add_one
add_one-pos n h = ground arith

-- A semaphore that stands for `n` free permits and the waiters `w`: `down` by the running task does
-- what the specification does, never panics, and keeps the scheduler's invariant.
pub down_refines :
    (spawned : ℕ → Bool) (s : Semaphore) (n : ℕ) (w : List ℕ) (k : Kernel)
    → IsScheduled spawned k
    → k.current ≢ k.idle
    → length w ≤ max_isize
    → Represents s (record { free = n; waiters = w }) k
    → let (p', waits) = acquired n w k.current in
      (s' : Semaphore) × (down s k ≡ done (s', kernel_down k waits))
      × Represents s' p' (kernel_down k waits)
      × IsScheduled spawned (kernel_down k waits)
unfolding down
down_refines sp s zero w k v ne small r =
    let (e, v') = block_current_lem sp k v in
    (
      record { count = negsuc (length w); wait_queue = w ++ (k.current ∷ []) },
      rw (r.count, sub_one-level w small, e, r.queue),
      record {
        queue = refl;
        count = sym (level-snoc w k.current);
        exclusive = inl refl;
        waiting = join-IsWaiting sp w k v r.waiting ne;
      },
      v',
    )
down_refines sp s (suc n) [] k v ne small r = (
  record { count = pos n; wait_queue = [] },
  rw (r.count, sub_one-suc n, r.queue),
  record { queue = refl; count = refl; exclusive = inr refl; waiting = r.waiting },
  v,
)
down_refines sp s (suc n) (x ∷ w) k v ne small r = absurd (ground (arith, r.exclusive))

add_one-level : (q : List ℕ) → add_one (negsuc (length q)) ≡ done (level 0 q)
unfolding add_one
add_one-level [] = refl
add_one-level (x ∷ q) = refl

is_nonpos-level : (q : List ℕ) → is_nonpos (level 0 q) ≡ true
is_nonpos-level [] = refl
is_nonpos-level (x ∷ q) = refl

-- A semaphore that stands for `n` free permits and the waiters `w`: `up` does what the specification
-- does, never panics, and keeps the scheduler's invariant. The permit goes to the task that waited
-- longest, which is ready again; it becomes free only where nobody waits.
pub up_refines :
    (spawned : ℕ → Bool) (s : Semaphore) (n : ℕ) (w : List ℕ) (k : Kernel)
    → IsScheduled spawned k
    → n < max_isize
    → Represents s (record { free = n; waiters = w }) k
    → let (p', woken) = released n w in
      (s' : Semaphore) × (up s k ≡ done (s', kernel_up k woken))
      × Represents s' p' (kernel_up k woken)
      × IsScheduled spawned (kernel_up k woken)
unfolding up
up_refines sp s n [] k v small r = (
  record { count = pos (n + 1); wait_queue = [] },
  rw (r.count, add_one-pos n small, r.queue) (ground arith),
  record { queue = refl; count = refl; exclusive = inr refl; waiting = r.waiting },
  v,
)
up_refines sp s n (t ∷ q) k v small r =
    let (b, ne) = front-may-resume t q k r.waiting in
    let (e, v') = resume_lem sp k t v b ne in
    (
      record { count = level 0 q; wait_queue = q },
      rw (r.count, add_one-level q, is_nonpos-level q, r.queue, e),
      record {
        queue = refl;
        count = ap (λ m. level m q) (sym zero_free);
        exclusive = inl zero_free;
        waiting = wake-IsWaiting t q k r.waiting;
      },
      v',
    )
  where
    zero_free : n ≡ 0
    zero_free = ground (arith, r.exclusive)
