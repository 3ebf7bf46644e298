-- ===== src/Signal/Return.antt =====
-- The frame of the program across a handler, and what `kill` does to the tasks of a process.
use r_core_tutorial_v3_arm.Base.{
  set, ℕ, ◌+◌, ◌≤◌, ◌≡◌, refl, ap, ◌≢◌, inl, inr, true, false, ◌||◌, none, some, List, [], ◌∷◌, map,
  arith, ltb, if◌then◌else◌, eq_refl, Bool-cases, All, done,
}
use r_core_tutorial_v3_arm.Task.{TaskState}
use r_core_tutorial_v3_arm.Signal.{
  insert, SignalActions, TrapFrame, SignalInner, user_signal_handler, sigreturn, is_zombie,
  kill_tasks, kill, max_sig,
}

-- What a task may do between the start of a handler and its return: everything but another handler.
pub record IsSameHandler (before after : SignalInner) : Type 0 where
  pub same_frame : after.trapframe_backup ≡ before.trapframe_backup
  pub same_mask : after.mask_backup ≡ before.mask_backup

-- Where the action of a signal has a handler, the program continues in it with the signal as argument
-- and under the mask of the action; whatever the handler does to the frame, the pending signals, the
-- mask and the flags, its return restores frame and mask as they were.
pub sigreturn-user_signal_handler :
    (inner : SignalInner) (actions : SignalActions) (sig : ℕ) (tf : TrapFrame) (later : SignalInner)
    (tf' : TrapFrame)
    → (actions sig).handler ≢ 0
    → IsSameHandler (user_signal_handler inner actions sig tf).0 later
    → ((user_signal_handler inner actions sig tf).1.elr ≡ (actions sig).handler)
      × ((user_signal_handler inner actions sig tf).1.r ≡ set tf.r 0 sig)
      × ((user_signal_handler inner actions sig tf).0.signal_mask ≡ (actions sig).mask)
      × ((inner' : SignalInner) × (sigreturn later tf' ≡ done (true, inner', tf))
          × (inner'.signal_mask ≡ inner.signal_mask)
          × (inner'.handling_sig ≡ none)
          × (inner'.trapframe_backup ≡ none))
unfolding user_signal_handler sigreturn
sigreturn-user_signal_handler inner actions sig tf later tf' h s = (
  ground (arith, h),
  ground (arith, h),
  ground (arith, h),
  (
    record later {
      trapframe_backup = none;
      handling_sig = none;
      signal_mask = inner.signal_mask;
      mask_backup = none;
    },
    rw (s.same_frame, s.same_mask) (ground (arith, h)),
    refl,
    refl,
    refl,
  ),
)

-- A second signal with a handler that is handled before the first handler returned: the return of the
-- second handler leads into the first, and the return of the first is then refused, with the frame and
-- the task left as they are. The frame of the program is lost.
pub nested-sigreturn :
    (inner : SignalInner) (actions : SignalActions) (first second : ℕ)
    (tf tf' tf'' tf''' : TrapFrame)
    → (actions first).handler ≢ 0
    → (actions second).handler ≢ 0
    → (middle : SignalInner) × (sigreturn
          (user_signal_handler (user_signal_handler inner actions first tf).0 actions second tf').0
          tf''
        ≡ done (true, middle, tf'))
      × (sigreturn middle tf''' ≡ done (false, middle, tf'''))
unfolding user_signal_handler sigreturn
nested-sigreturn inner actions first second tf tf' tf'' tf''' h k =
    let started =
      (user_signal_handler (user_signal_handler inner actions first tf).0 actions second tf').0 in
    (
      record started {
        trapframe_backup = none;
        handling_sig = none;
        signal_mask = (actions first).mask;
        mask_backup = none;
      },
      ground (arith, h, k),
      refl,
    )

abbrev pub states : List (TaskState × SignalInner) → List TaskState
states tasks = map (λ task. task.0) tasks

-- A task that has not ended has the signal pending.
abbrev pub Receives : ℕ → TaskState × SignalInner → Type 0
Receives sig task = (is_zombie task.0 ≡ false) → task.1.signals sig ≡ true

-- The tasks that have neither ended nor got the signal yet.
abbrev pub newly : List (TaskState × SignalInner) → ℕ → ℕ
newly [] sig = 0
newly (task ∷ tasks) sig =
    (if is_zombie task.0 || task.1.signals sig then 0 else 1) + newly tasks sig

kill_tasks-Receives :
    (tasks : List (TaskState × SignalInner)) (sig : ℕ)
    → ((kill_tasks tasks sig).0 ≡ newly tasks sig)
      × All (Receives sig) (kill_tasks tasks sig).1
      × (states (kill_tasks tasks sig).1 ≡ states tasks)
kill_tasks-Receives [] sig = (refl, tt, refl)
kill_tasks-Receives ((state, inner) ∷ tasks) sig =
    let (c, a, s) = kill_tasks-Receives tasks sig in
    elim (Bool-cases (is_zombie state || inner.signals sig)) [
      | inl y ↦ (rw y (omega (arith, c)), rw y ((λ z. pending y z), a), rw y (ap (◌∷◌ state) s))
      | inr n ↦ (rw n (omega (arith, c)), rw n ((λ z. inserted), a), rw n (ap (◌∷◌ state) s))
    ]
  where
    pending :
        (is_zombie state || inner.signals sig) ≡ true
        → is_zombie state ≡ false
        → inner.signals sig ≡ true
    pending y z = ground (arith, y, z)

    inserted : insert inner.signals sig sig ≡ true
    inserted = ground (arith, eq_refl sig)

-- `kill` with a signal below 32 leaves it pending at every task that has not ended, succeeds if some
-- task newly got it, and changes the state of no task: it wakes nobody.
pub kill-Receives :
    (tasks : List (TaskState × SignalInner)) (sig : ℕ)
    → sig ≤ max_sig
    → (tasks' : List (TaskState × SignalInner)) × (kill (some tasks) sig
        ≡ done (ltb 0 (newly tasks sig), some tasks'))
      × All (Receives sig) tasks'
      × (states tasks' ≡ states tasks)
unfolding kill
kill-Receives tasks sig h =
    let (c, a, s) = kill_tasks-Receives tasks sig in
    ((kill_tasks tasks sig).1, rw c (ground (arith, h)), a, s)
