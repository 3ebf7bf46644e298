-- ===== src/Syscall/Objects/Semaphores.antt =====
-- The semaphores of a process as permits, reached by their numbers.
use r_core_tutorial_v3_arm.Base.{
  ℕ, zero, suc, ◌<◌, ◌≡◌, refl, ◌∙◌, Bool, Option, none, some, List, [], ◌∷◌, arith, ◌==◌,
  if◌then◌else◌, set, done, panic,
}
use r_core_tutorial_v3_arm.Task.{Kernel}
use r_core_tutorial_v3_arm.Task.Valid.{IsScheduled}
use r_core_tutorial_v3_arm.Sync.Semaphore.{Semaphore, Represents, released, kernel_up, up_refines}
use r_core_tutorial_v3_arm.Base.Int.{max_isize}
use r_core_tutorial_v3_arm.Syscall.Slots.Lowest.{at}
use r_core_tutorial_v3_arm.Syscall.Objects.{sys_semaphore_up}

set-at :
    (sems : List (Option Semaphore)) (id : ℕ) (s s' : Semaphore) (m : ℕ)
    → at sems id ≡ some s
    → at (set sems id (some s')) m ≡ (if id == m then some s' else at sems m)
set-at [] id s s' m e = absurd (cc e)
set-at (x ∷ xs) zero s s' zero e = refl
set-at (x ∷ xs) zero s s' (suc m) e = ground arith
set-at (x ∷ xs) (suc id) s s' zero e = ground arith
set-at (x ∷ xs) (suc id) s s' (suc m) e = set-at xs id s s' m e ∙ ground arith

-- `sys_semaphore_up` with the number of a semaphore of `n` permits where `w` wait does not panic: the one
-- that waited longest is ready again, or else the permits are one more, and every other place of the
-- table is as it was. With a number that is not in use it panics.
pub sys_semaphore_up_lem :
    (spawned : ℕ → Bool) (sems : List (Option Semaphore)) (id n : ℕ) (w : List ℕ) (k : Kernel)
    (s : Semaphore) (unused : ℕ)
    → IsScheduled spawned k
    → n < max_isize
    → at sems id ≡ some s
    → Represents s (record { free = n; waiters = w }) k
    → at sems unused ≡ none
    → ((s' : Semaphore) × (sems' : List (Option Semaphore)) × (sys_semaphore_up sems k id
          ≡ done (sems', kernel_up k (released n w).1))
        × Represents s' (released n w).0 (kernel_up k (released n w).1)
        × IsScheduled spawned (kernel_up k (released n w).1)
        × ((m : ℕ) → at sems' m ≡ (if id == m then some s' else at sems m)))
      × (sys_semaphore_up sems k unused ≡ panic)
unfolding sys_semaphore_up
sys_semaphore_up_lem sp sems id n w k s unused v small here r gone =
    let (s', e, r', v') = up_refines sp s n w k v small r in
    ((s', set sems id (some s'), rw (here, e), r', v', λ m. set-at sems id s s' m here), rw gone)
