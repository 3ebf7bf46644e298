-- ===== src/Signal/Tests.antt =====
-- Signals at concrete tasks.
use r_core_tutorial_v3_arm.Base.{
  set, ℕ, ◌≡◌, refl, true, false, ◌||◌, none, some, List, [], ◌∷◌, arith, ltb, ◌==◌, if◌then◌else◌,
  replicate, All, done, get_or, get_elem?, suc,
}
use r_core_tutorial_v3_arm.Signal.Trap.{svc, syscall_sigreturn, svc-user_signal_handler}
use r_core_tutorial_v3_arm.Task.{TaskState, ready, blocking, zombie}
use r_core_tutorial_v3_arm.Signal.{
  new, insert, empty, SignalActions, default_action, TrapFrame, SignalInner, user_signal_handler,
  check_pending_signals, sigreturn, kill,
}
use r_core_tutorial_v3_arm.Signal.Return.{
  Receives, states, newly, sigreturn-user_signal_handler, nested-sigreturn, kill-Receives,
}

-- Signals 10 and 12 have handlers, which accept both.
abbrev actions : SignalActions
actions i =
    if i == 10
    then record { handler = 0x1000; mask = λ j. j == 12 || j == 10 }
    else if i == 12
    then record { handler = 0x2000; mask = λ j. j == 12 || j == 10 }
    else default_action

abbrev frame : ℕ → TrapFrame
frame pc = record { r = replicate 31 7; usp = 0x8000; elr = pc; spsr = 0 }

-- Both signals are pending and enabled.
abbrev both_pending : SignalInner
both_pending = record new { signals = insert (insert empty 12) 10; signal_mask = λ j. true }

abbrev in_handler : SignalInner
in_handler = (user_signal_handler both_pending actions 10 (frame 0x40)).0

first-handled : (check_pending_signals both_pending actions (frame 0x40)).0 ≡ some 10
unfolding check_pending_signals
first-handled = refl

second-handled : (check_pending_signals in_handler actions (frame 0x1000)).0 ≡ some 12
unfolding check_pending_signals user_signal_handler
second-handled = refl

sigreturn-user_signal_handler_example :
    ((user_signal_handler both_pending actions 10 (frame 0x40)).1.elr ≡ 0x1000)
    × ((user_signal_handler both_pending actions 10 (frame 0x40)).1.r ≡ set (replicate 31 7) 0 10)
    × ((user_signal_handler both_pending actions 10 (frame 0x40)).0.signal_mask ≡ (actions 10).mask)
    × ((inner' : SignalInner) × (sigreturn in_handler (frame 0x1080)
          ≡ done (true, inner', frame 0x40))
        × (inner'.signal_mask ≡ both_pending.signal_mask)
        × (inner'.handling_sig ≡ none)
        × (inner'.trapframe_backup ≡ none))
sigreturn-user_signal_handler_example =
    sigreturn-user_signal_handler both_pending actions 10 (frame 0x40) in_handler (frame 0x1080)
      (omega arith) (record { same_frame = refl; same_mask = refl })

nested-sigreturn_example :
    (middle : SignalInner) × (sigreturn
        (user_signal_handler
          (user_signal_handler both_pending actions 10 (frame 0x40)).0
          actions
          12
          (frame 0x1000)).0
        (frame 0x2080)
      ≡ done (true, middle, frame 0x1000))
    × (sigreturn middle (frame 0x1080) ≡ done (false, middle, frame 0x1080))
nested-sigreturn_example =
    nested-sigreturn both_pending actions 10 12 (frame 0x40) (frame 0x1000) (frame 0x2080)
      (frame 0x1080) (omega arith) (omega arith)

abbrev tasks : List (TaskState × SignalInner)
tasks = (blocking, new) ∷ ((zombie, new) ∷ ((ready, both_pending) ∷ []))

kill-Receives_example :
    (tasks' : List (TaskState × SignalInner)) × (kill (some tasks) 18
      ≡ done (ltb 0 (newly tasks 18), some tasks'))
    × All (Receives 18) tasks'
    × (states tasks' ≡ states tasks)
kill-Receives_example = kill-Receives tasks 18 (omega arith)

-- The interrupted call had returned 7.
svc-user_signal_handler_example :
    (inner' : SignalInner) × (back : TrapFrame) × (svc syscall_sigreturn in_handler (frame 0x1080)
      ≡ done (inner', back))
    × (inner'.signal_mask ≡ both_pending.signal_mask)
    × (back.elr ≡ 0x40)
    × (back.usp ≡ 0x8000)
    × (back.spsr ≡ 0)
    × ((i : ℕ) → get_or back.r (suc i) 0 ≡ get_or (replicate 31 7) (suc i) 0)
    × (get_elem? back.r 0 ≡ some 0)
svc-user_signal_handler_example =
    svc-user_signal_handler both_pending actions 10 (frame 0x40) in_handler (frame 0x1080)
      (omega arith) (omega arith) (record { same_frame = refl; same_mask = refl })
