-- ===== src/Task/Examples.antt =====
-- A kernel of five tasks.
use r_core_tutorial_v3_arm.Base.{ℕ, refl, Bool, true, [], ◌∷◌, arith, ltb, ◌==◌, if◌then◌else◌}
use r_core_tutorial_v3_arm.Task.{TaskState, ready, running, zombie, blocking, Kernel}
use r_core_tutorial_v3_arm.Task.Valid.{IsScheduled}

-- Task 0 idles, task 1 runs, tasks 2 and 3 are ready, tasks 4 and 5 wait.
abbrev pub five_states : ℕ → TaskState
five_states t =
    if t == 0
    then ready
    else if t == 1
    then running
    else if ltb t 4
    then ready
    else if ltb t 6
    then blocking
    else zombie

abbrev pub five : Kernel
five = record {
  state = five_states;
  exit_code = λ t. 0;
  ready_queue = 2 ∷ 3 ∷ [];
  current = 1;
  idle = 0;
}

abbrev pub everyone : ℕ → Bool
everyone t = true

pub five-IsScheduled : IsScheduled everyone five
five-IsScheduled = record {
  queued = record {
    all_ready = (refl, (refl, tt));
    distinct = (refl, (refl, tt));
    idle_out = refl;
    no_lost = λ t sp r ne. ground arith;
  };
  runs = refl;
  alone = λ t r. ground arith;
}
