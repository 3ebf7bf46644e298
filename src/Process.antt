-- ===== src/Process.antt =====
-- os/src/task/structs.rs, the processes: the tree of parents and children, the tasks of a process, its
-- descriptors, and how it ends; PROC_MAP of os/src/task/manager.rs. A process is the number of its
-- `ProcId`, and `procs` what its `Arc<Process>` points to; a file is the number of its `Arc`. The
-- memory set of a process is there or not; the list of tasks is in the order of their keys. How many
-- references to a process there are is a parameter.
pub mod Stacks
pub mod Wait
pub mod Family
pub mod Fork
pub mod Stop
pub mod Calls
mod Tests
use r_core_tutorial_v3_arm.Base.{
  ℕ, zero, suc, ◌+◌, ◌-◌, ◌*◌, ◌/◌, ◌%◌, ◌^◌, ◌≤◌, ◌<◌, min, bit_and, bit_or, ◌≡◌, refl, sym, ap,
  ◌∙◌, subst, fun_ext, ◌≢◌, ◌↔◌, ◌⊎◌, inl, inr, Bool, true, false, not, ◌&&◌, ◌||◌, Option, none,
  some, List, [], ◌∷◌, ◌++◌, map, arith, ltb, leb, ◌==◌, if◌then◌else◌, ltb→lt, leb→le, ==_iff,
  eq_refl, Bool-cases, Option-cases, length, get_elem?, set, get_or, take, drop, replicate,
  length-append, length-set, length-replicate, get_or-set_self, get_or-set_ne, get_elem?-set_self,
  get_elem?-set_ne, All, All-map, All-append, contains, Distinct, contains-append, Distinct-snoc,
  Run, done, panic, ◌>>=◌, ◌>>◌, take-nil, drop-nil, take-append-drop, length-drop, List-cases,
  ltb-suc, ltb-zero, assert, unwrap, done-injective,
}
use r_core_tutorial_v3_arm.Task
use r_core_tutorial_v3_arm.Task.{TaskState, as_u8, ◌==state◌, update}
use r_core_tutorial_v3_arm.Signal.{SignalFlags, sigkill}
use r_core_tutorial_v3_arm.Signal
use r_core_tutorial_v3_arm.Base.Int.{ℤ, pos, negsuc}

pub data ProcState : Type 0 where
  normal stopped zombie : ProcState

abbrev pub proc_state_as_u8 : ProcState → ℕ
proc_state_as_u8 normal = 1
proc_state_as_u8 stopped = 2
proc_state_as_u8 zombie = 3

infix 50 ◌==proc◌
abbrev pub ◌==proc◌ : ProcState → ProcState → Bool
a ==proc b = proc_state_as_u8 a == proc_state_as_u8 b

-- A task of the process, without what the scheduler and the signals keep of it.
pub record Thread : Type 0 where
  pub state : TaskState
  pub exit_code : ℕ
  pub signals : SignalFlags

pub record Process : Type 0 where
  pub is_kernel : Bool
  pub state : ProcState
  pub exit_code : ℕ
  pub has_vm : Bool
  pub tasks : List (ℕ × Thread)
  pub next_tid : ℕ
  pub parent : Option ℕ
  pub children : List ℕ
  pub fd_table : List (Option ℕ)

pub record World : Type 0 where
  pub procs : ℕ → Process
  pub proc_map : List ℕ
  pub next_pid : ℕ

abbrev pub root_proc : ℕ
root_proc = 1

-- `fetch_add(1)`: the number given out, and the next.
abbrev pub alloc_id : ℕ → ℕ × ℕ
alloc_id id = (id, (id + 1) % 2 ^ 64)

abbrev pub stdin : ℕ
stdin = 0

abbrev pub stdout : ℕ
stdout = 1

unfoldable pub new_common : Bool → Process
new_common is_kernel = record {
  is_kernel = is_kernel;
  state = normal;
  exit_code = 0;
  has_vm = false;
  tasks = [];
  next_tid = 0;
  parent = none;
  children = [];
  fd_table = some stdin ∷ (some stdout ∷ (some stdout ∷ []));
}

abbrev pub new_thread : Thread
new_thread = record { state = Task.ready; exit_code = 0; signals = Signal.empty }

-- A write to the fields of the process `p`.
abbrev pub write : World → ℕ → Process → World
write w p new = record w { procs = update w.procs p new }

unfoldable pub add_child : World → ℕ → ℕ → World
add_child w p c =
    let w' = write w c (record (w.procs c) { parent = some p }) in
    write w' p (record (w'.procs p) { children = (w'.procs p).children ++ (c ∷ []) })

-- The loop over the descriptors in `new_fork`.
abbrev pub copy_table : List (Option ℕ) → List (Option ℕ)
copy_table [] = []
copy_table (some file ∷ fds) = some file ∷ copy_table fds
copy_table (none ∷ fds) = none ∷ copy_table fds

-- `Process::new_fork`: the new process, and `spawn_proc`, by which `sys_fork` enters it in the map.
unfoldable pub new_fork : World → ℕ → Run (ℕ × World)
new_fork w p = do
  assert (not (w.procs p).is_kernel)
  let (pid, next) = alloc_id w.next_pid
  let t = new_common false
  assert (w.procs p).has_vm
  let (tid, next_tid) = alloc_id t.next_tid
  let child = record t {
    next_tid = next_tid;
    tasks = (tid, new_thread) ∷ [];
    has_vm = true;
    fd_table = copy_table (w.procs p).fd_table;
  }
  done (pid, add_child (record (write w pid child) { next_pid = next }) p pid)

abbrev pub spawn_proc : World → ℕ → World
spawn_proc w p = record w {
  proc_map = if contains w.proc_map p then w.proc_map else w.proc_map ++ (p ∷ []);
}

unfoldable pub fork : World → ℕ → Run (ℕ × World)
unfolding new_fork
fork w p = new_fork w p >>= λ r. done (r.0, spawn_proc r.1 r.0)

-- `Process::task_count`
abbrev pub task_count : List (ℕ × Thread) → ℕ
task_count [] = 0
task_count ((tid, t) ∷ tasks) =
    let rest = task_count tasks in if not (t.state ==state Task.zombie) then suc rest else rest

-- The loops of `stop`: the children go to the root process, the live tasks get SIGKILL.
abbrev pub adopt : World → List ℕ → World
adopt w [] = w
adopt w (c ∷ cs) = adopt (add_child w root_proc c) cs

abbrev pub kill_all : List (ℕ × Thread) → List (ℕ × Thread)
kill_all [] = []
kill_all ((tid, t) ∷ tasks) =
    let rest = kill_all tasks in
    if not (t.state ==state Task.zombie) && not (t.signals sigkill)
    then (tid, record t { signals = Signal.insert t.signals sigkill }) ∷ rest
    else (tid, t) ∷ rest

unfoldable pub stop : World → ℕ → ℕ → Run World
stop w p exit_code = do
  assert (not (p == 0))
  assert (not (p == root_proc))
  let w' = adopt w (w.procs p).children
  let proc = w'.procs p
  done (
      write w' p (record proc {
        children = [];
        tasks = kill_all proc.tasks;
        state = stopped;
        exit_code = exit_code;
      }))

-- `Process::exit`
abbrev pub exit_proc : Process → Process
exit_proc proc = record proc { state = zombie; has_vm = false }

unfoldable pub task_exit : Process → ℕ → Process
task_exit proc exit_code =
    if task_count proc.tasks == 0
    then exit_proc
        (if proc.state ==proc normal then record proc { exit_code = exit_code } else proc)
    else proc

-- `CurrentTask::exit`, without the switch to another task.
abbrev pub end_thread : List (ℕ × Thread) → ℕ → ℕ → List (ℕ × Thread)
end_thread [] tid code = []
end_thread ((i, t) ∷ tasks) tid code =
    let rest = end_thread tasks tid code in
    if i == tid
    then (i, record t { state = Task.zombie; exit_code = code }) ∷ rest
    else (i, t) ∷ rest

unfoldable pub exit_thread : World → ℕ → ℕ → ℕ → World
unfolding task_exit
exit_thread w p tid code =
    write w p
      (task_exit (record (w.procs p) { tasks = end_thread (w.procs p).tasks tid code }) code)

-- `pid == -1 || t.pid().as_usize() == pid as usize`
abbrev pub any_child : ℕ
any_child = 2 ^ 64 - 1

abbrev pub matches : ℕ → ℕ → Bool
matches pid c = pid == any_child || c == pid

abbrev pub not_this : ℕ → Option (ℕ × List ℕ) → Option (ℕ × List ℕ)
not_this c none = none
not_this c (some (z, left)) = some (z, c ∷ left)

-- The loop of `waitpid`: whether a child matches, and the one to reap with the children that are left.
abbrev pub find_zombie : (ℕ → Process) → ℕ → List ℕ → Bool × Option (ℕ × List ℕ)
find_zombie procs pid [] = (false, none)
find_zombie procs pid (c ∷ cs) =
    let (found, reaped) = find_zombie procs pid cs in
    if matches pid c
    then (true, if (procs c).state ==proc zombie then some (c, cs) else not_this c reaped)
    else (found, not_this c reaped)

abbrev pub remove : List ℕ → ℕ → List ℕ
remove [] a = []
remove (x ∷ xs) a = let rest = remove xs a in if x == a then rest else x ∷ rest

abbrev pub reap : (ℕ → ℕ) → World → ℕ → ℕ → Bool × Option (ℕ × List ℕ) → Run (ℤ × ℕ × World)
reap strong_count w p code (found, none) = done (if found then negsuc 1 else negsuc 0, code, w)
reap strong_count w p code (found, some (c, left)) =
    assert (strong_count c == 1)
    >> done (
      pos c,
      (w.procs c).exit_code,
      record (write w p (record (w.procs p) { children = left })) {
        proc_map = remove w.proc_map c;
      },
    )

-- `Process::waitpid`: the result, the exit code that the caller sees, and the world.
unfoldable pub waitpid : (ℕ → ℕ) → World → ℕ → ℕ → ℕ → Run (ℤ × ℕ × World)
waitpid strong_count w p pid code =
    reap strong_count w p code (find_zombie w.procs pid (w.procs p).children)

abbrev pub find_thread : List (ℕ × Thread) → ℕ → Option Thread
find_thread [] tid = none
find_thread ((i, t) ∷ tasks) tid = if i == tid then some t else find_thread tasks tid

abbrev pub remove_thread : List (ℕ × Thread) → ℕ → List (ℕ × Thread)
remove_thread [] tid = []
remove_thread ((i, t) ∷ tasks) tid =
    let rest = remove_thread tasks tid in if i == tid then rest else (i, t) ∷ rest

-- `Process::waittid`
unfoldable pub waittid : Process → ℕ → ℤ × Process
waittid proc tid = elim (find_thread proc.tasks tid) [
  | none ↦ (negsuc 0, proc)
  | some t ↦
      if t.state ==state Task.zombie
      then (pos t.exit_code, record proc { tasks = remove_thread proc.tasks tid })
      else (negsuc 1, proc)
]
