-- ===== src/Timer/Tests.antt =====
-- Tasks 4 and 5 of the example kernel sleep; the timer of 4 is due.
use r_core_tutorial_v3_arm.Base.{refl, List, [], ◌∷◌, arith}
use r_core_tutorial_v3_arm.Task.Examples.{five, five-IsScheduled, everyone}
use r_core_tutorial_v3_arm.Timer.{TimerCondVar, check_timer}
use r_core_tutorial_v3_arm.Timer.Wakes.{IsAsleep, TimerChecked, check_timer_lem}

abbrev timers : List TimerCondVar
timers = record { expire_ms = 900; task = 5 } ∷ (record { expire_ms = 100; task = 4 } ∷ [])

timers-IsAsleep : IsAsleep timers five
timers-IsAsleep = record {
  fits = refl;
  once = λ x. ground arith;
  asleep = λ x h. ground (arith, h);
  idle_out = refl;
}

check_timer_lem_example : TimerChecked everyone 200 timers five (check_timer 2 200 timers five)
check_timer_lem_example =
    check_timer_lem everyone 200 timers five five-IsScheduled timers-IsAsleep refl (omega arith)
