-- ===== src/Signal/Trap.antt =====
-- The system call path of `handle_sync_exception` in os/src/trap/mod.rs, around `sys_sigretrun`: the call
-- gets the trap frame, and its result goes into register 0 of it afterwards.
use r_core_tutorial_v3_arm.Base.{
  ℕ, suc, ◌-◌, ◌^◌, ◌<◌, ◌≡◌, refl, ◌≢◌, Bool, Option, some, List, [], ◌∷◌, if◌then◌else◌, length,
  get_elem?, set, get_or, get_elem?-set_self, Run, done, ◌>>=◌,
}
use r_core_tutorial_v3_arm.Signal.{
  SignalActions, TrapFrame, SignalInner, user_signal_handler, sigreturn, handle_round, check_error,
}
use r_core_tutorial_v3_arm.Signal.Return.{IsSameHandler, sigreturn-user_signal_handler}

-- `isize as u64` of a status: zero or minus one.
abbrev pub status : Bool → ℕ
status ok = if ok then 0 else 2 ^ 64 - 1

-- `syscall` for the number of `sigreturn`.
unfoldable pub syscall_sigreturn : SignalInner → TrapFrame → Run (ℕ × SignalInner × TrapFrame)
syscall_sigreturn inner tf = sigreturn inner tf >>= λ r. done (status r.0, r.1, r.2)

-- The case `SVC64`: `tf.r[0] = syscall(.., tf)`.
unfoldable pub svc :
    (SignalInner → TrapFrame → Run (ℕ × SignalInner × TrapFrame))
    → SignalInner
    → TrapFrame
    → Run (SignalInner × TrapFrame)
svc syscall inner tf = syscall inner tf >>= λ r. done (r.1, record r.2 { r = set r.2.r 0 r.0 })

-- A system call and the first round of the signals behind it: whether the task blocks, and the exit code
-- of a fatal signal.
unfoldable pub handle_sync_exception :
    (SignalInner → TrapFrame → Run (ℕ × SignalInner × TrapFrame))
    → SignalInner
    → SignalActions
    → TrapFrame
    → Run (Bool × Option ℕ × SignalInner × TrapFrame)
unfolding svc
handle_sync_exception syscall inner actions tf = do
  r ← svc syscall inner tf
  let (blocks, inner', tf') = handle_round r.0 actions r.1
  done (blocks, check_error inner'.signals, inner', tf')

set-zero_tail : (r : List ℕ) (v i : ℕ) → get_or (set r 0 v) (suc i) 0 ≡ get_or r (suc i) 0
set-zero_tail [] v i = refl
set-zero_tail (x ∷ xs) v i = refl

-- Where a system call was about to return to the program with the frame `tf` and a handler was started
-- instead, the `sigreturn` of the handler leads back to the same place, stack and status and with
-- registers 1 and up as they were; but register 0 is zero, whatever the interrupted call returned.
pub svc-user_signal_handler :
    (inner : SignalInner) (actions : SignalActions) (sig : ℕ) (tf : TrapFrame) (later : SignalInner)
    (tf' : TrapFrame)
    → 0 < length tf.r
    → (actions sig).handler ≢ 0
    → IsSameHandler (user_signal_handler inner actions sig tf).0 later
    → (inner' : SignalInner) × (back : TrapFrame) × (svc syscall_sigreturn later tf'
        ≡ done (inner', back))
      × (inner'.signal_mask ≡ inner.signal_mask)
      × (back.elr ≡ tf.elr)
      × (back.usp ≡ tf.usp)
      × (back.spsr ≡ tf.spsr)
      × ((i : ℕ) → get_or back.r (suc i) 0 ≡ get_or tf.r (suc i) 0)
      × (get_elem? back.r 0 ≡ some 0)
unfolding svc syscall_sigreturn
svc-user_signal_handler inner actions sig tf later tf' long h s =
    let (a, b, c, (inner', e, m, n, o)) =
      sigreturn-user_signal_handler inner actions sig tf later tf' h s in
    (
      inner',
      record tf { r = set tf.r 0 0 },
      rw e,
      m,
      refl,
      refl,
      refl,
      set-zero_tail tf.r 0,
      get_elem?-set_self tf.r 0 0 long,
    )
