-- ===== src/Sync/Tests.antt =====
-- The objects of os/src/sync in the kernel of five tasks, where tasks 4 and 5 wait.
use r_core_tutorial_v3_arm.Base.{
  ℕ, ◌-◌, ◌^◌, ◌≡◌, refl, inl, true, some, List, [], ◌∷◌, arith, done,
}
use r_core_tutorial_v3_arm.Base.Int.{pos, negsuc, as_isize}
use r_core_tutorial_v3_arm.Task.Valid.{IsScheduled}
use r_core_tutorial_v3_arm.Task.Steps.{enqueued}
use r_core_tutorial_v3_arm.Task.Examples.{five, five-IsScheduled, everyone}
use r_core_tutorial_v3_arm.Sync.Waiting.{IsWaiting}
use r_core_tutorial_v3_arm.Sync.Semaphore
use r_core_tutorial_v3_arm.Sync.Semaphore.{down_refines, up_refines}
use r_core_tutorial_v3_arm.Sync.Mutex
use r_core_tutorial_v3_arm.Sync.Mutex.{
  MutexBlocking, lock_refines, unlock_refines, new_spin, unlock_spin, lock_round,
}
use r_core_tutorial_v3_arm.Sync.Condvar
use r_core_tutorial_v3_arm.Sync.Condvar.{wait_begin_lem, signal_lem}

abbrev both : List ℕ
both = 4 ∷ 5 ∷ []

both-IsWaiting : IsWaiting both five
both-IsWaiting = record {
  all_blocked = (refl, (refl, tt));
  distinct = (refl, (refl, tt));
  idle_out = refl;
}

four-IsWaiting : IsWaiting (4 ∷ []) five
four-IsWaiting = record { all_blocked = (refl, tt); distinct = (refl, tt); idle_out = refl }

five-IsWaiting : IsWaiting (5 ∷ []) five
five-IsWaiting = record { all_blocked = (refl, tt); distinct = (refl, tt); idle_out = refl }

counts : (as_isize 3 ≡ pos 3) × (as_isize (2 ^ 64 - 2) ≡ negsuc 1)
unfolding as_isize
counts = (refl, refl)

spin_test :
    (lock_round new_spin five ≡ done (true, record { locked = true }, five))
    × (unlock_spin (record { locked = true }) ≡ new_spin)
unfolding lock_round unlock_spin
spin_test = (refl, refl)

-- Both wait for a permit.
abbrev taken : Semaphore.Semaphore
taken = record { count = negsuc 1; wait_queue = both }

abbrev taken_permits : Semaphore.Permits
taken_permits = record { free = 0; waiters = both }

taken-Represents : Semaphore.Represents taken taken_permits five
taken-Represents = record {
  queue = refl;
  count = refl;
  exclusive = inl refl;
  waiting = both-IsWaiting;
}

down_refines_example :
    (s' : Semaphore.Semaphore) × (Semaphore.down taken five
      ≡ done (s', Semaphore.kernel_down five true))
    × Semaphore.Represents s'
        (record { free = 0; waiters = 4 ∷ 5 ∷ 1 ∷ [] })
        (Semaphore.kernel_down five true)
    × IsScheduled everyone (Semaphore.kernel_down five true)
down_refines_example =
    down_refines everyone taken 0 both five five-IsScheduled (λ e. omega arith) (omega arith)
      taken-Represents

up_refines_example :
    (s' : Semaphore.Semaphore) × (Semaphore.up taken five ≡ done (s', enqueued five 4))
    × Semaphore.Represents s' (record { free = 0; waiters = 5 ∷ [] }) (enqueued five 4)
    × IsScheduled everyone (enqueued five 4)
up_refines_example =
    up_refines everyone taken 0 both five five-IsScheduled (omega arith) taken-Represents

-- Task 1 owns the mutex, and task 4 waits for it.
abbrev held : MutexBlocking
held = record { locked = true; wait_queue = 4 ∷ [] }

held-Represents : Mutex.Represents held (record { owner = some 1; waiters = 4 ∷ [] }) five
held-Represents = record {
  locked = refl;
  queue = refl;
  nobody_waits = λ e. cc;
  waiting = four-IsWaiting;
}

lock_refines_example :
    (m' : MutexBlocking) × (Mutex.lock held five ≡ done (m', Mutex.kernel_lock five true))
    × Mutex.Represents m'
        (record { owner = some 1; waiters = 4 ∷ 1 ∷ [] })
        (Mutex.kernel_lock five true)
    × IsScheduled everyone (Mutex.kernel_lock five true)
lock_refines_example =
    lock_refines everyone held (some 1) (4 ∷ []) five five-IsScheduled (λ e. omega arith)
      held-Represents

unlock_refines_example :
    (m' : MutexBlocking) × (Mutex.unlock held five ≡ done (m', enqueued five 4))
    × Mutex.Represents m' (record { owner = some 4; waiters = [] }) (enqueued five 4)
    × IsScheduled everyone (enqueued five 4)
unlock_refines_example =
    unlock_refines everyone held 1 (4 ∷ []) five five-IsScheduled held-Represents

-- Task 5 waits on the condition variable.
abbrev condvar : Condvar.Condvar
condvar = record { wait_queue = 5 ∷ [] }

wait_begin_lem_example :
    (m' : MutexBlocking) × (Condvar.wait_begin condvar held five
      ≡ done (record { wait_queue = 5 ∷ 1 ∷ [] }, m', Condvar.kernel_wait five (4 ∷ [])))
    × (m'.locked ≡ true)
    × (m'.wait_queue ≡ [])
    × IsWaiting (5 ∷ 1 ∷ []) (Condvar.kernel_wait five (4 ∷ []))
    × IsScheduled everyone (Condvar.kernel_wait five (4 ∷ []))
wait_begin_lem_example =
    wait_begin_lem everyone condvar held 1 (4 ∷ []) five five-IsScheduled (λ e. omega arith)
      held-Represents five-IsWaiting refl
