-- ===== src/Task.antt =====
-- os/src/task/manager.rs, os/src/task/schedule.rs and the task states of os/src/task/structs.rs: the
-- scheduler of one CPU. A task is the number of its `Arc<Task>`; `state` and `exit_code` are the
-- atomic fields of all tasks; `current` and `idle` are those of os/src/task/percpu.rs. A context
-- switch is the change of `current`. Interrupts are off while the manager's lock is held, so each
-- function is one step. Reference counts and the saved registers are not modelled.
pub mod Valid
pub mod Steps
pub mod Fair
pub mod Examples
mod Tests
use r_core_tutorial_v3_arm.Base.{
  ℕ, zero, suc, ◌+◌, ◌-◌, ◌*◌, ◌/◌, ◌%◌, ◌^◌, ◌≤◌, ◌<◌, min, bit_and, bit_or, ◌≡◌, refl, sym, ap,
  ◌∙◌, subst, fun_ext, ◌≢◌, ◌↔◌, ◌⊎◌, inl, inr, Bool, true, false, not, ◌&&◌, ◌||◌, Option, none,
  some, List, [], ◌∷◌, ◌++◌, map, arith, ltb, leb, ◌==◌, if◌then◌else◌, ltb→lt, leb→le, ==_iff,
  eq_refl, Bool-cases, Option-cases, length, get_elem?, set, get_or, take, drop, replicate,
  length-append, length-set, length-replicate, get_or-set_self, get_or-set_ne, get_elem?-set_self,
  get_elem?-set_ne, All, All-map, All-append, contains, Distinct, contains-append, Distinct-snoc,
  Run, done, panic, ◌>>=◌, ◌>>◌, assert, unwrap,
}

pub data TaskState : Type 0 where
  ready running zombie blocking : TaskState

-- `state as u8`, by which two states are compared.
abbrev pub as_u8 : TaskState → ℕ
as_u8 ready = 1
as_u8 running = 2
as_u8 zombie = 3
as_u8 blocking = 4

-- `TaskState::from`
unfoldable pub from_u8 : ℕ → Run TaskState
from_u8 n =
    if n == 1
    then done ready
    else if n == 2
    then done running
    else if n == 3
    then done zombie
    else if n == 4
    then done blocking
    else panic

infix 50 ◌==state◌
abbrev pub ◌==state◌ : TaskState → TaskState → Bool
a ==state b = as_u8 a == as_u8 b

pub record Kernel : Type 0 where
  pub state : ℕ → TaskState
  pub exit_code : ℕ → ℕ
  pub ready_queue : List ℕ
  pub current : ℕ
  pub idle : ℕ

abbrev pub update {ℓ} : {A : Type ℓ} → (ℕ → A) → ℕ → A → ℕ → A
update f t a u = if t == u then a else f u

abbrev pub set_state : Kernel → ℕ → TaskState → Kernel
set_state k t s = record k { state = update k.state t s }

-- `SimpleScheduler::add_ready_task`
unfoldable pub add_ready_task : Kernel → ℕ → Kernel
add_ready_task k t = record k { ready_queue = k.ready_queue ++ (t ∷ []) }

-- `SimpleScheduler::pick_next_task`: the task, and the queue that is left.
unfoldable pub pick_next_task : (ℕ → TaskState) → List ℕ → Run (Option ℕ × List ℕ)
pick_next_task state [] = done (none, [])
pick_next_task state (t ∷ q) = elim (state t) [
  | ready ↦ done (some t, q)
  | running ↦ panic
  | zombie ↦ pick_next_task state q
  | blocking ↦ pick_next_task state q
]

-- `SimpleScheduler::block_task`
unfoldable pub block_task : Kernel → ℕ → Kernel
block_task k t = set_state k t blocking

-- `TaskManager::spawn`
unfoldable pub spawn : Kernel → ℕ → Run Kernel
unfolding add_ready_task
spawn k t = do assert (k.state t ==state ready); done (add_ready_task k t)

unfoldable pub switch_to : Kernel → ℕ → Kernel
switch_to k next =
    let k' = set_state k next running in
    if k.current == next then k' else record k' { current = next }

abbrev pub next_or_idle : Kernel → Option ℕ → ℕ
next_or_idle k none = k.idle
next_or_idle k (some next) = next

unfoldable pub resched : Kernel → Run Kernel
resched k = do
  assert (not (k.state k.current ==state running))
  picked ← pick_next_task k.state k.ready_queue
  done (switch_to (record k { ready_queue = picked.1 }) (next_or_idle k picked.0))

unfoldable pub yield_current : Kernel → Run Kernel
yield_current k = do
  assert (k.state k.current ==state running)
  let k' = set_state k k.current ready
  resched (if not (k.current == k.idle) then add_ready_task k' k.current else k')

unfoldable pub block_current : Kernel → Run Kernel
block_current k = resched (set_state k k.current blocking)

unfoldable pub exit_current : Kernel → ℕ → Run Kernel
exit_current k code = do
  assert (k.state k.current ==state running || k.state k.current ==state zombie)
  resched (record k {
    state = update k.state k.current zombie;
    exit_code = update k.exit_code k.current code;
  })

-- `Task::resume`
unfoldable pub resume : Kernel → ℕ → Run Kernel
resume k t = do assert (k.state t ==state blocking); spawn (set_state k t ready) t

-- `CurrentTask::exit`, whose process bookkeeping is a matter of the process table: the state is
-- `Zombie` before the manager is asked.
unfoldable pub exit : Kernel → ℕ → Run Kernel
exit k code =
    exit_current
      (record k {
        state = update k.state k.current zombie;
        exit_code = update k.exit_code k.current code;
      })
      code
