-- ===== src/Signal/Delivery.antt =====
-- Which signal a task handles next, and what handling it does.
use r_core_tutorial_v3_arm.Base.{ℕ, ◌≤◌, ◌<◌, ◌≡◌, ◌⊎◌, true, false, Option, none, some}
use r_core_tutorial_v3_arm.Signal.{SignalActions, TrapFrame, SignalInner, accepts, handle}
use r_core_tutorial_v3_arm.Signal.Handling.{IsDeliverable, IsHandled}

-- The outcome of a search through the signals from `low` to `high`: none of them is accepted and nothing
-- changes, or the least that is accepted is handled.
abbrev Searched :
    SignalInner → SignalActions → TrapFrame → ℕ → ℕ → Option ℕ × SignalInner × TrapFrame → Type 0
Searched inner actions tf low high r =
    ((r ≡ (none, inner, tf))
      × ((sig : ℕ) → low ≤ sig → sig < high → accepts inner actions sig ≡ false))
    ⊎ ((sig : ℕ) × (sig < high)
        × (r ≡ (some sig, (handle inner actions sig tf).0, (handle inner actions sig tf).1))
        × (accepts inner actions sig ≡ true)
        × ((lower : ℕ) → low ≤ lower → lower < sig → accepts inner actions lower ≡ false))

-- The outcome: no signal is deliverable and nothing changes, or the least that is deliverable is handled.
abbrev pub Checked :
    SignalInner → SignalActions → TrapFrame → Option ℕ × SignalInner × TrapFrame → Type 0
Checked inner actions tf r =
    ((r ≡ (none, inner, tf)) × ((sig : ℕ) → sig < 32 → ¬ IsDeliverable inner actions sig))
    ⊎ ((sig : ℕ) × (sig < 32)
        × (r.0 ≡ some sig)
        × IsHandled inner actions tf sig r.1 r.2
        × IsDeliverable inner actions sig
        × ((lower : ℕ) → lower < sig → ¬ IsDeliverable inner actions lower))
