-- ===== src/Timer.antt =====
-- os/src/timer.rs: the timers of sleeping tasks, and `sys_sleep` of os/src/syscall/sync.rs. The heap is a
-- list, of which `peek` takes out a greatest element in the order of `TimerCondVar`; the time is an
-- argument.
pub mod Earliest
pub mod Wakes
mod Tests
use r_core_tutorial_v3_arm.Base.{
  ℕ, zero, suc, ◌+◌, ◌-◌, ◌*◌, ◌/◌, ◌%◌, ◌^◌, ◌≤◌, ◌<◌, min, bit_and, bit_or, ◌≡◌, refl, sym, ap,
  ◌∙◌, subst, fun_ext, ◌≢◌, ◌↔◌, ◌⊎◌, inl, inr, Bool, true, false, not, ◌&&◌, ◌||◌, Option, none,
  some, List, [], ◌∷◌, ◌++◌, map, arith, ltb, leb, ◌==◌, if◌then◌else◌, ltb→lt, leb→le, ==_iff,
  eq_refl, Bool-cases, Option-cases, length, get_elem?, set, get_or, take, drop, replicate,
  length-append, length-set, length-replicate, get_or-set_self, get_or-set_ne, get_elem?-set_self,
  get_elem?-set_ne, All, All-map, All-append, contains, Distinct, contains-append, Distinct-snoc,
  Run, done, panic, ◌>>=◌, ◌>>◌, take-nil, drop-nil, take-append-drop, length-drop, List-cases,
  ltb-suc, ltb-zero, assert, unwrap, done-injective,
}
use r_core_tutorial_v3_arm.Task.{Kernel, resume, block_current}

pub record TimerCondVar : Type 0 where
  pub expire_ms : ℕ
  pub task : ℕ

-- The place of `expire_ms as isize` among the values of an `isize`.
abbrev pub key : TimerCondVar → ℕ
key t = (t.expire_ms + 2 ^ 63) % 2 ^ 64

-- `partial_cmp`, whether `u` is greater than `t`: the negation of the least `isize` overflows.
unfoldable pub greater : TimerCondVar → TimerCondVar → Run Bool
greater u t =
    if u.expire_ms == 2 ^ 63 || t.expire_ms == 2 ^ 63 then panic else done (ltb (key u) (key t))

abbrev pub keep_greater :
    TimerCondVar
    → List TimerCondVar
    → Option (TimerCondVar × List TimerCondVar)
    → Run (Option (TimerCondVar × List TimerCondVar))
keep_greater t ts none = done (some (t, []))
keep_greater t ts (some (u, rest)) =
    greater u t >>= λ b. done (some (if b then (u, t ∷ rest) else (t, ts)))

-- `timers.peek()`, with what `timers.pop()` then leaves.
unfoldable pub peek : List TimerCondVar → Run (Option (TimerCondVar × List TimerCondVar))
peek [] = done none
peek (t ∷ ts) = peek ts >>= λ found. keep_greater t ts found

unfoldable pub add_timer : List TimerCondVar → ℕ → ℕ → List TimerCondVar
add_timer timers expire_ms task = record { expire_ms = expire_ms; task = task } ∷ timers

unfoldable pub remove_timer : List TimerCondVar → ℕ → List TimerCondVar
remove_timer [] task = []
remove_timer (t ∷ ts) task =
    let temp = remove_timer ts task in if not (task == t.task) then t ∷ temp else temp

-- The loop, with a round for each timer.
unfoldable pub check_timer : ℕ → ℕ → List TimerCondVar → Kernel → Run (List TimerCondVar × Kernel)
check_timer zero current_ms timers k = done (timers, k)
check_timer (suc fuel) current_ms timers k = peek timers >>= λ found. elim found [
  | none ↦ done (timers, k)
  | some (t, rest) ↦
      if leb t.expire_ms current_ms
      then (resume k t.task >>= λ k'. check_timer fuel current_ms rest k')
      else done (timers, k)
]

-- `sys_sleep`, up to the switch to another task.
unfoldable pub sys_sleep : ℕ → List TimerCondVar → Kernel → ℕ → Run (List TimerCondVar × Kernel)
sys_sleep current_ms timers k ms = do
  assert (ltb (current_ms + ms) (2 ^ 64))
  k' ← block_current k
  done (add_timer timers (current_ms + ms) k.current, k')
