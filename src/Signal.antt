-- ===== src/Signal.antt =====
-- os/src/task/signal.rs, the signal handling of os/src/task/structs.rs and os/src/syscall/signal.rs. A set
-- of signals is the test whether a bit of it is set; the trap frame is that of
-- os/src/trap/context.rs. Reading and writing user memory is left out: an action is passed as a value.
pub mod Handling
pub mod Delivery
pub mod Return
pub mod Trap
mod Tests
use r_core_tutorial_v3_arm.Base.{
  ℕ, zero, suc, ◌+◌, ◌-◌, ◌*◌, ◌/◌, ◌%◌, ◌^◌, ◌≤◌, ◌<◌, min, bit_and, bit_or, ◌≡◌, refl, sym, ap,
  ◌∙◌, subst, fun_ext, ◌≢◌, ◌↔◌, ◌⊎◌, inl, inr, Bool, true, false, not, ◌&&◌, ◌||◌, Option, none,
  some, List, [], ◌∷◌, ◌++◌, map, arith, ltb, leb, ◌==◌, if◌then◌else◌, ltb→lt, leb→le, ==_iff,
  eq_refl, Bool-cases, Option-cases, length, get_elem?, set, get_or, take, drop, replicate,
  length-append, length-set, length-replicate, get_or-set_self, get_or-set_ne, get_elem?-set_self,
  get_elem?-set_ne, All, All-map, All-append, contains, Distinct, contains-append, Distinct-snoc,
  Run, done, panic, ◌>>=◌, ◌>>◌, take-nil, drop-nil, take-append-drop, length-drop, List-cases,
  ltb-suc, ltb-zero, assert, unwrap, done-injective,
}
use r_core_tutorial_v3_arm.Task.{TaskState, ready, running, blocking, zombie}

abbrev pub SignalFlags : Type 0
SignalFlags = ℕ → Bool

abbrev pub empty : SignalFlags
empty i = false

abbrev pub max_sig : ℕ
max_sig = 31

-- `insert`, and `^=` of one signal
abbrev pub insert : SignalFlags → ℕ → SignalFlags
insert s sig i = if i == sig then true else s i

abbrev pub toggle : SignalFlags → ℕ → SignalFlags
toggle s sig i = if i == sig then not (s i) else s i

abbrev pub both : SignalFlags → SignalFlags → SignalFlags
both s t i = s i && t i

abbrev pub sigdef : ℕ
sigdef = 0

abbrev pub sigkill : ℕ
sigkill = 9

abbrev pub sigcont : ℕ
sigcont = 18

abbrev pub sigstop : ℕ
sigstop = 19

-- `KERNEL_SIGNAL.contains(signal)`
abbrev pub is_kernel_signal : ℕ → Bool
is_kernel_signal sig = sig == sigkill || sig == sigstop || sig == sigcont || sig == sigdef

-- The exit code of a fatal signal, the negated number.
unfoldable pub check_error : SignalFlags → Option ℕ
check_error s =
    if s 2
    then some 2
    else if s 4
    then some 4
    else if s 6
    then some 6
    else if s 8
    then some 8
    else if s 9
    then some 9
    else if s 11
    then some 11
    else none

pub record SignalAction : Type 0 where
  pub handler : ℕ
  pub mask : SignalFlags

-- The default mask is the bits of 40, which are 3 and 5.
abbrev pub default_action : SignalAction
default_action = record { handler = 0; mask = λ i. i == 3 || i == 5 }

-- The table of the process.
abbrev pub SignalActions : Type 0
SignalActions = ℕ → SignalAction

pub record TrapFrame : Type 0 where
  pub r : List ℕ
  pub usp : ℕ
  pub elr : ℕ
  pub spsr : ℕ

pub record SignalInner : Type 0 where
  pub signals : SignalFlags
  pub signal_mask : SignalFlags
  pub handling_sig : Option ℕ
  pub killed : Bool
  pub frozen : Bool
  pub mask_backup : Option SignalFlags
  pub trapframe_backup : Option TrapFrame

abbrev pub new : SignalInner
new = record {
  signals = empty;
  signal_mask = empty;
  handling_sig = none;
  killed = false;
  frozen = false;
  mask_backup = none;
  trapframe_backup = none;
}

unfoldable pub set_singal : SignalInner → SignalFlags → SignalInner
set_singal inner s = record inner { signals = λ i. inner.signals i || s i }

-- The signals that the task accepts, and those that the action in progress accepts.
abbrev pub singal_metadata : SignalInner → SignalActions → SignalFlags × Option SignalFlags
singal_metadata inner actions = (
  both inner.signals inner.signal_mask,
  elim inner.handling_sig [ none ↦ none | some sig ↦ some (actions sig).mask ],
)

unfoldable pub kernel_signal_handler : SignalInner → ℕ → SignalInner
kernel_signal_handler inner sig =
    if sig == sigstop
    then record inner { frozen = true; signals = toggle inner.signals sigstop }
    else if sig == sigcont
    then (if inner.signals sigcont
        then record inner { signals = toggle inner.signals sigcont; frozen = false }
        else inner)
    else record inner { killed = true }

unfoldable pub user_signal_handler :
    SignalInner → SignalActions → ℕ → TrapFrame → SignalInner × TrapFrame
user_signal_handler inner actions sig tf =
    if not ((actions sig).handler == 0)
    then (
      record inner {
        mask_backup = some inner.signal_mask;
        signal_mask = (actions sig).mask;
        handling_sig = some sig;
        signals = toggle inner.signals sig;
        trapframe_backup = some tf;
      },
      record tf { elr = (actions sig).handler; r = set tf.r 0 sig },
    )
    else (inner, tf)

-- `masked.contains(signal) && (handling == None || handling.unwrap().contains(signal))`
abbrev pub accepts : SignalInner → SignalActions → ℕ → Bool
accepts inner actions sig =
    let (masked, handling) = singal_metadata inner actions in
    masked sig && elim handling [ none ↦ true | some mask ↦ mask sig ]

abbrev pub handle : SignalInner → SignalActions → ℕ → TrapFrame → SignalInner × TrapFrame
handle inner actions sig tf =
    if is_kernel_signal sig
    then (kernel_signal_handler inner sig, tf)
    else user_signal_handler inner actions sig tf

-- The loop of `check_pending_signals`, with `count` signals left from `sig` on.
abbrev pub check_from :
    ℕ → ℕ → SignalInner → SignalActions → TrapFrame → Option ℕ × SignalInner × TrapFrame
check_from zero sig inner actions tf = (none, inner, tf)
check_from (suc count) sig inner actions tf =
    let rest = check_from count (suc sig) inner actions tf in
    if accepts inner actions sig
    then (let (inner', tf') = handle inner actions sig tf in (some sig, inner', tf'))
    else rest

unfoldable pub check_pending_signals :
    SignalInner → SignalActions → TrapFrame → Option ℕ × SignalInner × TrapFrame
check_pending_signals inner actions tf = check_from (max_sig + 1) 0 inner actions tf

-- One round of `handle_signals`: the task leaves the loop, or blocks and comes round again.
unfoldable pub handle_round :
    SignalInner → SignalActions → TrapFrame → Bool × SignalInner × TrapFrame
unfolding check_pending_signals
handle_round inner actions tf =
    let (found, inner', tf') = check_pending_signals inner actions tf in
    (not inner'.killed && inner'.frozen, inner', tf')

-- `sys_sigretrun`: the status, zero or minus one.
unfoldable pub sigreturn : SignalInner → TrapFrame → Run (Bool × SignalInner × TrapFrame)
sigreturn inner tf = elim inner.trapframe_backup [
  | none ↦ done (false, inner, tf)
  | some backup ↦ unwrap inner.mask_backup >>= λ mask. done (
    true,
    record inner {
      trapframe_backup = none;
      handling_sig = none;
      signal_mask = mask;
      mask_backup = none;
    },
    backup,
  )
]

-- `sys_sigprocmask`: every 32-bit mask is one of known signals.
unfoldable pub sigprocmask : SignalInner → SignalFlags → SignalFlags × SignalInner
sigprocmask inner mask = (inner.signal_mask, record inner { signal_mask = mask })

-- `sys_kill` on the tasks of the process that was found: how many had not got the signal yet.
abbrev pub is_zombie : TaskState → Bool
is_zombie zombie = true
is_zombie _ = false

abbrev pub kill_tasks : List (TaskState × SignalInner) → ℕ → ℕ × List (TaskState × SignalInner)
kill_tasks [] sig = (0, [])
kill_tasks ((state, inner) ∷ tasks) sig =
    let (count, rest) = kill_tasks tasks sig in
    if is_zombie state || inner.signals sig
    then (count, (state, inner) ∷ rest)
    else (suc count, (state, record inner { signals = insert inner.signals sig }) ∷ rest)

-- The shift by `signum` overflows past 31.
unfoldable pub kill :
    Option (List (TaskState × SignalInner))
    → ℕ
    → Run (Bool × Option (List (TaskState × SignalInner)))
kill none sig = done (false, none)
kill (some tasks) sig =
    if ltb max_sig sig
    then panic
    else (let (count, rest) = kill_tasks tasks sig in done (ltb 0 count, some rest))

-- `sys_sigaction` with both pointers given: the table, where the call succeeds. That the old action is
-- written to the user is left out.
unfoldable pub sigaction : SignalActions → ℕ → SignalAction → Option SignalActions
sigaction actions signum action =
    if ltb max_sig signum || signum == sigkill || signum == sigstop
    then none
    else some (λ i. if i == signum then action else actions i)
