-- ===== src/Process/Calls.antt =====
-- The calls that change the tree of processes, and the life of a child from `fork` to `waitpid`.
use r_core_tutorial_v3_arm.Base.{
  ℕ, ◌+◌, ◌^◌, ◌<◌, ◌≡◌, refl, ap, ◌∙◌, ◌≢◌, inl, inr, Bool, true, false, Option, none, some, List,
  [], ◌∷◌, ◌++◌, arith, if◌then◌else◌, eq_refl, contains, Run, done, ◌>>=◌,
}
use r_core_tutorial_v3_arm.Base.Int.{ℤ, pos, negsuc}
use r_core_tutorial_v3_arm.Task.{update}
use r_core_tutorial_v3_arm.Task
use r_core_tutorial_v3_arm.Process.{
  ProcState, Process, World, root_proc, new_common, new_thread, add_child, copy_table, fork, zombie,
  ◌==proc◌, stop, task_exit, exit_thread, end_thread, any_child, matches, find_zombie, waitpid,
  reap,
}
use r_core_tutorial_v3_arm.Process.Wait.{step, reaped, Waited, waitpid-Waited}
use r_core_tutorial_v3_arm.Process.Family.{IsFamily, Family-same}
use r_core_tutorial_v3_arm.Process.Fork.{forked, forked_child, fork-forked, forked-IsFamily}
use r_core_tutorial_v3_arm.Process.Stop.{stopped_world, stopped_world-IsFamily, reaped-IsFamily}

-- What a process does to the tree: `sys_fork`, `Process::stop`, `sys_waitpid`, and the end of a task.
pub data Call : Type 0 where
  forks : ℕ → Call
  stops waits : ℕ → ℕ → Call
  exits : ℕ → ℕ → ℕ → Call

unfoldable pub call : (ℕ → ℕ) → World → Call → Run World
call strong_count w (forks p) = fork w p >>= λ r. done r.1
call strong_count w (stops p code) = stop w p code
call strong_count w (waits p pid) = waitpid strong_count w p pid 0 >>= λ r. done r.2
call strong_count w (exits p tid code) = done (exit_thread w p tid code)

-- Only a user process with a memory set forks, and only while there are numbers left; the idle process
-- and the root process are not stopped.
abbrev pub Allowed : World → Call → Type 0
Allowed w (forks p) =
    (p < w.next_pid)
    × ((w.procs p).is_kernel ≡ false)
    × ((w.procs p).has_vm ≡ true)
    × (w.next_pid + 1 < 2 ^ 64)
Allowed w (stops p code) = (p ≢ 0) × (p ≢ root_proc)
Allowed w (waits p pid) = Unit {0}
Allowed w (exits p tid code) = Unit {0}

exit_thread-IsFamily :
    (w : World) (p tid code : ℕ) → IsFamily w → IsFamily (exit_thread w p tid code)
unfolding exit_thread task_exit
exit_thread-IsFamily w p tid code f =
    Family-same w (exit_thread w p tid code) (λ q. ground arith) (λ q. ground arith) refl f

stop-stopped :
    (w : World) (p code : ℕ) → p ≢ 0 → p ≢ root_proc → stop w p code ≡ done (stopped_world w p code)
unfolding stop
stop-stopped w p code n m = ground (arith, n, m)

Waited-IsFamily :
    (strong_count : ℕ → ℕ) (w : World) (p pid code : ℕ) (result : Run (ℤ × ℕ × World))
    → IsFamily w
    → Waited w p pid code result
    → (w' : World) × ((result >>= λ r. done r.2) ≡ done w') × IsFamily w'
Waited-IsFamily strong_count w p pid code result f (inl (n, e)) =
    (w, ap (λ r. r >>= λ r. done r.2) e, f)
Waited-IsFamily strong_count w p pid code result f (inr (inl (h, n, e))) =
    (w, ap (λ r. r >>= λ r. done r.2) e, f)
Waited-IsFamily strong_count w p pid code result f (inr (inr (l, r, c, cs, y, n, e))) =
    (reaped w p (l ++ r) c, ap (λ r. r >>= λ r. done r.2) e, reaped-IsFamily w p c l r f cs)

-- Where the list of children holds the last reference to a child that is over, a call that is allowed
-- does not panic, and afterwards again each child knows its parent, no process has a child twice, and
-- the numbers not given out yet belong to nobody: so a process is the child of one other at most, also
-- after `stop` gave its children to the root process.
pub call-IsFamily :
    (strong_count : ℕ → ℕ) (w : World) (c : Call)
    → ((c : ℕ) → strong_count c ≡ 1)
    → IsFamily w
    → Allowed w c
    → (w' : World) × (call strong_count w c ≡ done w') × IsFamily w'
unfolding call
call-IsFamily strong_count w (forks p) last f (lt, user, vm, small) = (
  forked w p,
  ap (λ r. r >>= λ r. done r.1) (fork-forked w p user vm small),
  forked-IsFamily w p f lt,
)
call-IsFamily strong_count w (stops p code) last f (n, m) =
    (stopped_world w p code, stop-stopped w p code n m, stopped_world-IsFamily w p code f m)
call-IsFamily strong_count w (waits p pid) last f a =
    Waited-IsFamily strong_count w p pid 0 (waitpid strong_count w p pid 0) f
      (waitpid-Waited strong_count w p pid 0 (λ c h. last c))
call-IsFamily strong_count w (exits p tid code) last f a =
    (exit_thread w p tid code, refl, exit_thread-IsFamily w p tid code f)

abbrev last_answer : ℕ → List ℕ → Bool → Bool × Option (ℕ × List ℕ)
last_answer pid cs over = (true, if over then some (pid, cs) else none)

-- The search for one child, which is the last of the list.
find_last :
    (procs : ℕ → Process) (pid : ℕ) (cs : List ℕ)
    → pid ≢ any_child
    → contains cs pid ≡ false
    → find_zombie procs pid (cs ++ (pid ∷ []))
      ≡ last_answer pid cs ((procs pid).state ==proc zombie)
find_last procs pid [] n h = ground (arith, eq_refl pid)
find_last procs pid (c ∷ cs) n h =
    ap (step (matches pid c) ((procs c).state ==proc zombie) c (cs ++ (pid ∷ [])))
      (find_last procs pid cs n (ground (arith, h)))
    ∙ by_state ((procs pid).state ==proc zombie) (matches pid c) ((procs c).state ==proc zombie)
        (ground (arith, n, h))
  where
    by_state :
        (b m z : Bool)
        → m ≡ false
        → step m z c (cs ++ (pid ∷ [])) (last_answer pid cs b) ≡ last_answer pid (c ∷ cs) b
    by_state true true z m = absurd (cc m)
    by_state false true z m = absurd (cc m)
    by_state true false z m = refl
    by_state false false z m = refl

copy_table_lem : (fds : List (Option ℕ)) → copy_table fds ≡ fds
copy_table_lem [] = refl
copy_table_lem (some f ∷ fds) = ap (◌∷◌ (some f)) (copy_table_lem fds)
copy_table_lem (none ∷ fds) = ap (◌∷◌ none) (copy_table_lem fds)

update_self : (f : ℕ → Process) (t : ℕ) (a : Process) → update f t a t ≡ a
update_self f t a = rw (eq_refl t)

-- The world after the child of `fork` ended its only task.
abbrev pub child_over : World → ℕ → ℕ → World
child_over w p code = exit_thread (forked w p) w.next_pid 0 code

-- The child of `fork` has the descriptors of its parent. While it runs, `waitpid` for it returns minus
-- two and changes nothing; once its task has ended, `waitpid` returns its number and its exit code, and
-- the parent has the children it had before.
pub waitpid-fork :
    (strong_count : ℕ → ℕ) (w : World) (p code : ℕ)
    → IsFamily w
    → p < w.next_pid
    → (w.procs p).is_kernel ≡ false
    → (w.procs p).has_vm ≡ true
    → w.next_pid + 1 < 2 ^ 64
    → strong_count w.next_pid ≡ 1
    → (fork w p ≡ done (w.next_pid, forked w p))
      × (((forked w p).procs w.next_pid).fd_table ≡ (w.procs p).fd_table)
      × (waitpid strong_count (forked w p) p w.next_pid 0 ≡ done (negsuc 1, 0, forked w p))
      × ((w' : World) × (waitpid strong_count (child_over w p code) p w.next_pid 0
            ≡ done (pos w.next_pid, code, w'))
          × ((w'.procs p).children ≡ (w.procs p).children))
unfolding waitpid add_child new_common exit_thread task_exit
waitpid-fork strong_count w p code f lt user vm small last = (
  fork-forked w p user vm small,
  ap fd_table child ∙ copy_table_lem (w.procs p).fd_table,
  ap (reap strong_count (forked w p) p 0) (searched (forked w p) parents_list)
      ∙ ap (λ s. reap strong_count (forked w p) p 0 (last_answer w.next_pid cs (s ==proc zombie)))
          (ap state child),
  (
    reaped (child_over w p code) p cs w.next_pid,
    ap (reap strong_count (child_over w p code) p 0)
          (searched (child_over w p code) (still_list ∙ parents_list))
        ∙ ap
            (λ s.
              reap strong_count (child_over w p code) p 0
                (last_answer w.next_pid cs (s ==proc zombie)))
            (ap state ended)
        ∙ rw (last, ended),
    ground arith,
  ),
)
  where
    cs : List ℕ
    cs = (w.procs p).children

    fd_table : Process → List (Option ℕ)
    fd_table proc = proc.fd_table

    state : Process → ProcState
    state proc = proc.state

    child : (forked w p).procs w.next_pid ≡ record (forked_child (w.procs p)) { parent = some p }
    child = ground (arith, lt)

    last_step : Process → Process
    last_step proc = task_exit (record proc { tasks = end_thread proc.tasks 0 code }) code

    parents_list : ((forked w p).procs p).children ≡ cs ++ (w.next_pid ∷ [])
    parents_list = ground (arith, lt)

    still_list : ((child_over w p code).procs p).children ≡ ((forked w p).procs p).children
    still_list = ground (arith, lt)

    ended : (child_over w p code).procs w.next_pid ≡ record (forked_child (w.procs p)) {
      parent = some p;
      tasks = (0, record new_thread { state = Task.zombie; exit_code = code }) ∷ [];
      state = zombie;
      has_vm = false;
      exit_code = code;
    }
    ended =
        update_self (forked w p).procs w.next_pid (last_step ((forked w p).procs w.next_pid))
        ∙ ap last_step child

    searched :
        (u : World)
        → (u.procs p).children ≡ cs ++ (w.next_pid ∷ [])
        → find_zombie u.procs w.next_pid (u.procs p).children
          ≡ last_answer w.next_pid cs ((u.procs w.next_pid).state ==proc zombie)
    searched u e =
        ap (find_zombie u.procs w.next_pid) e
        ∙ find_last u.procs w.next_pid cs (λ x. omega (arith, x, small))
            (f.fresh p w.next_pid (omega arith))
