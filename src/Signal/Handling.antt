-- ===== src/Signal/Handling.antt =====
-- When a signal may be delivered, and what becomes of the task then.
use r_core_tutorial_v3_arm.Base.{
  ℕ, ◌≡◌, refl, sym, ap, ◌∙◌, subst, fun_ext, ◌≢◌, ◌⊎◌, inl, inr, Bool, true, false, not, ◌&&◌,
  Option, some, arith, ◌==◌, if◌then◌else◌, ==_iff, Bool-cases, Option-cases, set,
}
use r_core_tutorial_v3_arm.Signal.{
  is_kernel_signal, SignalFlags, SignalActions, TrapFrame, SignalInner, toggle, accepts, handle,
  kernel_signal_handler, user_signal_handler,
}

-- The signal is pending, the mask of the task enables it, and so does that of the action in progress, if
-- there is one.
pub record IsDeliverable (inner : SignalInner) (actions : SignalActions) (sig : ℕ) : Type 0 where
  pub pending : inner.signals sig ≡ true
  pub enabled : inner.signal_mask sig ≡ true
  pub not_held_off :
      (current : ℕ) → inner.handling_sig ≡ some current → (actions current).mask sig ≡ true

-- The set without one signal.
abbrev pub without : SignalFlags → ℕ → SignalFlags
without s sig i = if i == sig then false else s i

-- What becomes of a task and its trap frame: SIGSTOP (19) freezes it, SIGCONT (18) ends that, SIGDEF (0) and
-- SIGKILL (9) kill it, and any other signal starts its action, unless that has no handler.
pub record IsHandled (inner : SignalInner) (actions : SignalActions) (tf : TrapFrame) (sig : ℕ)
    (inner' : SignalInner) (tf' : TrapFrame) : Type 0 where
  pub stopped :
      sig ≡ 19
      → (inner' ≡ record inner { frozen = true; signals = without inner.signals 19 }) × (tf' ≡ tf)
  pub continued :
      sig ≡ 18
      → (inner' ≡ record inner { frozen = false; signals = without inner.signals 18 }) × (tf' ≡ tf)
  pub killed : (sig ≡ 0) ⊎ (sig ≡ 9) → (inner' ≡ record inner { killed = true }) × (tf' ≡ tf)
  pub ignored :
      sig ≢ 0
      → sig ≢ 9
      → sig ≢ 18
      → sig ≢ 19
      → (actions sig).handler ≡ 0
      → (inner' ≡ inner) × (tf' ≡ tf)
  pub caught :
      sig ≢ 0
      → sig ≢ 9
      → sig ≢ 18
      → sig ≢ 19
      → (actions sig).handler ≢ 0
      → (inner' ≡ record inner {
        signals = without inner.signals sig;
        signal_mask = (actions sig).mask;
        handling_sig = some sig;
        mask_backup = some inner.signal_mask;
        trapframe_backup = some tf;
      })
        × (tf' ≡ record tf { elr = (actions sig).handler; r = set tf.r 0 sig })

abbrev unchanged : SignalInner → TrapFrame → SignalInner × TrapFrame
unchanged inner tf = (inner, tf)

abbrev enabled_by : SignalInner → SignalActions → ℕ → Option ℕ → Bool
enabled_by inner actions sig current = accepts (record inner { handling_sig = current }) actions sig

and_true_right : (p q : Bool) → (p && q) ≡ true → q ≡ true
and_true_right true q e = e
and_true_right false q e = absurd (grind (arith, e))

toggle-without : (s : SignalFlags) (sig : ℕ) → s sig ≡ true → toggle s sig ≡ without s sig
toggle-without s sig e = fun_ext (λ i. at i (Bool-cases (i == sig)))
  where
    at : (i : ℕ) → ((i == sig) ≡ true) ⊎ ((i == sig) ≡ false) → toggle s sig i ≡ without s sig i
    at i (inl y) = rw y (ap (λ j. not (s j)) ((==_iff i sig).0 y) ∙ rw e refl)
    at i (inr n) = rw n refl

not_kernel : (sig : ℕ) → sig ≢ 0 → sig ≢ 9 → sig ≢ 18 → sig ≢ 19 → is_kernel_signal sig ≡ false
not_kernel sig a b c d = ground (arith, a, b, c, d)

-- The parts of the answer that handling gives.
abbrev Gives : SignalInner → SignalActions → TrapFrame → ℕ → SignalInner → TrapFrame → Type 0
Gives inner actions tf sig inner' tf' =
    ((handle inner actions sig tf).0 ≡ inner') × ((handle inner actions sig tf).1 ≡ tf')

stop_lem :
    (inner : SignalInner) (actions : SignalActions) (tf : TrapFrame)
    → inner.signals 19 ≡ true
    → Gives inner actions tf 19
        (record inner { frozen = true; signals = without inner.signals 19 })
        tf
unfolding kernel_signal_handler
stop_lem inner actions tf p = (
  ap (λ s. record inner { frozen = true; signals = s }) (toggle-without inner.signals 19 p),
  refl,
)

continue_lem :
    (inner : SignalInner) (actions : SignalActions) (tf : TrapFrame)
    → inner.signals 18 ≡ true
    → Gives inner actions tf 18
        (record inner { frozen = false; signals = without inner.signals 18 })
        tf
unfolding kernel_signal_handler
continue_lem inner actions tf p = (
  rw p (ap (λ s. record inner { frozen = false; signals = s }) (toggle-without inner.signals 18 p)),
  refl,
)

kill_lem :
    (inner : SignalInner) (actions : SignalActions) (tf : TrapFrame)
    → Gives inner actions tf 0 (record inner { killed = true }) tf
      × Gives inner actions tf 9 (record inner { killed = true }) tf
unfolding kernel_signal_handler
kill_lem inner actions tf = ((refl, refl), (refl, refl))

handle-user :
    (inner : SignalInner) (actions : SignalActions) (tf : TrapFrame) (sig : ℕ)
    → sig ≢ 0
    → sig ≢ 9
    → sig ≢ 18
    → sig ≢ 19
    → handle inner actions sig tf ≡ user_signal_handler inner actions sig tf
handle-user inner actions tf sig a b c d = rw (not_kernel sig a b c d) refl

ignore_lem :
    (inner : SignalInner) (actions : SignalActions) (tf : TrapFrame) (sig : ℕ)
    → (actions sig).handler ≡ 0
    → user_signal_handler inner actions sig tf ≡ unchanged inner tf
unfolding user_signal_handler
ignore_lem inner actions tf sig h = rw h refl

catch_lem :
    (inner : SignalInner) (actions : SignalActions) (tf : TrapFrame) (sig : ℕ)
    → inner.signals sig ≡ true
    → (actions sig).handler ≢ 0
    → user_signal_handler inner actions sig tf
      ≡ unchanged
          (record inner {
            signals = without inner.signals sig;
            signal_mask = (actions sig).mask;
            handling_sig = some sig;
            mask_backup = some inner.signal_mask;
            trapframe_backup = some tf;
          })
          (record tf { elr = (actions sig).handler; r = set tf.r 0 sig })
unfolding user_signal_handler
catch_lem inner actions tf sig p h =
    let there : ((actions sig).handler == 0) ≡ false = ground (arith, h) in
    rw there (
      ap
        (λ s.
          unchanged
            (record inner {
              signals = s;
              signal_mask = (actions sig).mask;
              handling_sig = some sig;
              mask_backup = some inner.signal_mask;
              trapframe_backup = some tf;
            })
            (record tf { elr = (actions sig).handler; r = set tf.r 0 sig }))
        (toggle-without inner.signals sig p))

pub handle-IsHandled :
    (inner : SignalInner) (actions : SignalActions) (tf : TrapFrame) (sig : ℕ)
    → inner.signals sig ≡ true
    → IsHandled inner actions tf sig (handle inner actions sig tf).0 (handle inner actions sig tf).1
handle-IsHandled inner actions tf sig p = record {
  stopped = λ e.
      subst
        (λ z.
          Gives inner actions tf z
            (record inner { frozen = true; signals = without inner.signals 19 }) tf)
        (sym e) (stop_lem inner actions tf (ap inner.signals (sym e) ∙ p));
  continued = λ e.
      subst
        (λ z.
          Gives inner actions tf z
            (record inner { frozen = false; signals = without inner.signals 18 }) tf)
        (sym e) (continue_lem inner actions tf (ap inner.signals (sym e) ∙ p));
  killed = λ e. elim e [
    | inl z ↦
        subst (λ y. Gives inner actions tf y (record inner { killed = true }) tf) (sym z)
          (kill_lem inner actions tf).0
    | inr z ↦
        subst (λ y. Gives inner actions tf y (record inner { killed = true }) tf) (sym z)
          (kill_lem inner actions tf).1
  ];
  ignored = λ a b c d h.
      let same = handle-user inner actions tf sig a b c d ∙ ignore_lem inner actions tf sig h in
      (ap (λ q. q.0) same, ap (λ q. q.1) same);
  caught = λ a b c d h.
      let same = handle-user inner actions tf sig a b c d ∙ catch_lem inner actions tf sig p h in
      (ap (λ q. q.0) same, ap (λ q. q.1) same);
}

pub accepts-IsDeliverable :
    (inner : SignalInner) (actions : SignalActions) (sig : ℕ)
    → accepts inner actions sig ≡ true
    → IsDeliverable inner actions sig
accepts-IsDeliverable inner actions sig e = record {
  pending = ground (arith, e);
  enabled = ground (arith, e);
  not_held_off = λ current h.
      and_true_right (inner.signals sig && inner.signal_mask sig) ((actions current).mask sig)
        (ap (enabled_by inner actions sig) (sym h) ∙ e);
}

pub IsDeliverable-accepts :
    (inner : SignalInner) (actions : SignalActions) (sig : ℕ)
    → IsDeliverable inner actions sig
    → accepts inner actions sig ≡ true
IsDeliverable-accepts inner actions sig d = elim (Option-cases inner.handling_sig) [
  | inl h ↦ ap (enabled_by inner actions sig) h ∙ rw (d.pending, d.enabled) refl
  | inr (current, h) ↦
      ap (enabled_by inner actions sig) h ∙ rw (d.pending, d.enabled, d.not_held_off current h) refl
]
