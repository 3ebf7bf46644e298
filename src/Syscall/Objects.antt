-- ===== src/Syscall/Objects.antt =====
-- os/src/syscall/sync.rs: the calls on the mutexes, semaphores and condition variables of a process. An
-- object is shared through the table alone, so it stands in its place. A call that blocks is one step
-- up to the switch to another task; it returns zero later. The lock of a spinning mutex is one round.
pub mod Semaphores
use r_core_tutorial_v3_arm.Base.{
  ℕ, zero, suc, ◌+◌, ◌-◌, ◌*◌, ◌/◌, ◌%◌, ◌^◌, ◌≤◌, ◌<◌, min, bit_and, bit_or, ◌≡◌, refl, sym, ap,
  ◌∙◌, subst, fun_ext, ◌≢◌, ◌↔◌, ◌⊎◌, inl, inr, Bool, true, false, not, ◌&&◌, ◌||◌, Option, none,
  some, List, [], ◌∷◌, ◌++◌, map, arith, ltb, leb, ◌==◌, if◌then◌else◌, ltb→lt, leb→le, ==_iff,
  eq_refl, Bool-cases, Option-cases, length, get_elem?, set, get_or, take, drop, replicate,
  length-append, length-set, length-replicate, get_or-set_self, get_or-set_ne, get_elem?-set_self,
  get_elem?-set_ne, All, All-map, All-append, contains, Distinct, contains-append, Distinct-snoc,
  Run, done, panic, ◌>>=◌, ◌>>◌, take-nil, drop-nil, take-append-drop, length-drop, List-cases,
  ltb-suc, ltb-zero, assert, unwrap, done-injective,
}
use r_core_tutorial_v3_arm.Task.{Kernel}
use r_core_tutorial_v3_arm.Sync.Semaphore
use r_core_tutorial_v3_arm.Sync.Semaphore.{Semaphore}
use r_core_tutorial_v3_arm.Sync.Mutex.{
  MutexBlocking, MutexSpin, new_blocking, new_spin, lock, unlock, lock_round, unlock_spin,
}
use r_core_tutorial_v3_arm.Sync.Condvar
use r_core_tutorial_v3_arm.Sync.Condvar.{Condvar, wait_begin}
use r_core_tutorial_v3_arm.Syscall.Slots.{create}

-- `table[id].as_ref().unwrap()`
abbrev pub object_at {ℓ} : {A : Type ℓ} → List (Option A) → ℕ → Run A
object_at table id = unwrap (get_or table id none)

unfoldable pub sys_semaphore_create : List (Option Semaphore) → ℕ → ℕ × List (Option Semaphore)
sys_semaphore_create sems res_count = create sems (Semaphore.new res_count)

unfoldable pub sys_semaphore_up :
    List (Option Semaphore) → Kernel → ℕ → Run (List (Option Semaphore) × Kernel)
sys_semaphore_up sems k id = do
  sem ← object_at sems id
  r ← Semaphore.up sem k
  done (set sems id (some r.0), r.1)

unfoldable pub sys_semaphore_down :
    List (Option Semaphore) → Kernel → ℕ → Run (List (Option Semaphore) × Kernel)
sys_semaphore_down sems k id = do
  sem ← object_at sems id
  r ← Semaphore.down sem k
  done (set sems id (some r.0), r.1)

-- `dyn UserMutex`
pub data UserMutex : Type 0 where
  spin : MutexSpin → UserMutex
  blocks : MutexBlocking → UserMutex

unfoldable pub sys_mutex_create : List (Option UserMutex) → Bool → ℕ × List (Option UserMutex)
sys_mutex_create mutexes blocking =
    create mutexes (if not blocking then spin new_spin else blocks new_blocking)

-- The test says whether the call is past its loop.
abbrev pub lock_user : UserMutex → Kernel → Run (Bool × UserMutex × Kernel)
lock_user (spin m) k = lock_round m k >>= λ r. done (r.0, spin r.1, r.2)
lock_user (blocks m) k = lock m k >>= λ r. done (true, blocks r.0, r.1)

abbrev pub unlock_user : UserMutex → Kernel → Run (UserMutex × Kernel)
unlock_user (spin m) k = done (spin (unlock_spin m), k)
unlock_user (blocks m) k = unlock m k >>= λ r. done (blocks r.0, r.1)

unfoldable pub sys_mutex_lock :
    List (Option UserMutex) → Kernel → ℕ → Run (Bool × List (Option UserMutex) × Kernel)
sys_mutex_lock mutexes k id = do
  mutex ← object_at mutexes id
  r ← lock_user mutex k
  done (r.0, set mutexes id (some r.1), r.2)

unfoldable pub sys_mutex_unlock :
    List (Option UserMutex) → Kernel → ℕ → Run (List (Option UserMutex) × Kernel)
sys_mutex_unlock mutexes k id = do
  mutex ← object_at mutexes id
  r ← unlock_user mutex k
  done (set mutexes id (some r.0), r.1)

unfoldable pub sys_condvar_create : List (Option Condvar) → ℕ × List (Option Condvar)
sys_condvar_create condvars = create condvars Condvar.new

unfoldable pub sys_condvar_signal :
    List (Option Condvar) → Kernel → ℕ → Run (List (Option Condvar) × Kernel)
sys_condvar_signal condvars k id = do
  condvar ← object_at condvars id
  r ← Condvar.signal condvar k
  done (set condvars id (some r.0), r.1)
