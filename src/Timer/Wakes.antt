-- ===== src/Timer/Wakes.antt =====
-- Which tasks `check_timer` wakes.
use r_core_tutorial_v3_arm.Base.{
  ℕ, zero, suc, ◌^◌, ◌≤◌, ◌<◌, ◌≡◌, refl, ◌∙◌, ◌≢◌, ◌⊎◌, inl, inr, Bool, true, false, not, ◌&&◌,
  List, [], ◌∷◌, arith, ltb, leb, ◌==◌, if◌then◌else◌, ==_iff, eq_refl, Bool-cases, length, Run,
  done,
}
use r_core_tutorial_v3_arm.Task.{Kernel, ready, blocking}
use r_core_tutorial_v3_arm.Task.Valid.{IsScheduled}
use r_core_tutorial_v3_arm.Task.Steps.{enqueued, resume_lem}
use r_core_tutorial_v3_arm.Timer.{TimerCondVar, key, peek, check_timer}
use r_core_tutorial_v3_arm.Timer.Earliest.{
  count, count_mono, count-split, overflows, IsPeeked, peek-IsPeeked,
}

abbrev pub of_task : ℕ → TimerCondVar → Bool
of_task x t = t.task == x

-- The timer is due.
abbrev pub due : ℕ → TimerCondVar → Bool
due now t = leb t.expire_ms now

-- Each task has at most one timer, and is blocked while it has one.
pub record IsAsleep (ts : List TimerCondVar) (k : Kernel) : Type 0 where
  pub fits : count overflows ts ≡ 0
  pub once : (x : ℕ) → count (of_task x) ts ≤ 1
  pub asleep : (x : ℕ) → count (of_task x) ts ≡ 1 → k.state x ≡ blocking
  pub idle_out : count (of_task k.idle) ts ≡ 0

-- What the call leaves: a task is ready again if a timer of it was due, and the timers that were not are
-- still there.
pub record Woke (spawned : ℕ → Bool) (now : ℕ) (ts : List TimerCondVar) (k : Kernel)
    (ts' : List TimerCondVar) (k' : Kernel) : Type 0 where
  pub state :
      (x : ℕ)
      → k'.state x ≡ (if count (λ t. of_task x t && due now t) ts == 0 then k.state x else ready)
  pub kept : (f : TimerCondVar → Bool) → count f ts' ≡ count (λ t. f t && not (due now t)) ts
  pub scheduled : IsScheduled spawned k'
  pub sleeping : IsAsleep ts' k'

-- A timer beyond the range of an `isize`.
abbrev pub far : TimerCondVar → Bool
far t = leb (2 ^ 63) t.expire_ms

resumed-IsAsleep :
    (ts : List TimerCondVar) (t : TimerCondVar) (rest : List TimerCondVar) (k : Kernel)
    → IsPeeked ts t rest
    → IsAsleep ts k
    → IsAsleep rest (enqueued k t.task)
resumed-IsAsleep ts t rest k q a = record {
  fits = omega (arith, q.parts overflows, a.fits);
  once = λ x. omega (arith, q.parts (of_task x), a.once x);
  asleep = λ x h. ground (arith, h, q.parts (of_task x), a.once x, a.asleep x, eq_refl t.task);
  idle_out = omega (arith, q.parts (of_task k.idle), a.idle_out);
}

none_due :
    (now : ℕ) (ts : List TimerCondVar) (t : TimerCondVar) (rest : List TimerCondVar)
    → count far ts ≡ 0
    → IsPeeked ts t rest
    → due now t ≡ false
    → count (due now) ts ≡ 0
none_due now ts t rest near q n = omega (
  arith,
  count-split (due now) far ts,
  count_mono (λ u. due now u && far u) far ts (λ u b. ground (arith, b)),
  near,
  count_mono (λ u. due now u && not (far u)) (λ u. ltb (key u) (key t)) ts (λ u b. before u b),
  q.first,
)
  where
    before : (u : TimerCondVar) → (due now u && not (far u)) ≡ true → ltb (key u) (key t) ≡ true
    before u b = ground (arith, b, n, near, q.parts far)

-- Nothing is due: nothing changes.
unchanged-Woke :
    (spawned : ℕ → Bool) (now : ℕ) (ts : List TimerCondVar) (k : Kernel)
    → IsScheduled spawned k
    → IsAsleep ts k
    → count (due now) ts ≡ 0
    → Woke spawned now ts k ts k
unchanged-Woke sp now ts k v a none_is = record {
  state = λ x. ground (
    arith,
    none_is,
    count_mono (λ t. of_task x t && due now t) (due now) ts (λ t b. ground (arith, b)),
  );
  kept = λ f. omega (
    arith,
    none_is,
    count-split f (due now) ts,
    count_mono (λ t. f t && due now t) (due now) ts (λ t b. ground (arith, b)),
  );
  scheduled = v;
  sleeping = a;
}

check_timer-Woke :
    (spawned : ℕ → Bool) (fuel now : ℕ) (ts : List TimerCondVar) (k : Kernel)
    → IsScheduled spawned k
    → IsAsleep ts k
    → count far ts ≡ 0
    → length ts ≤ fuel
    → (ts' : List TimerCondVar) × (k' : Kernel) × (check_timer fuel now ts k ≡ done (ts', k'))
      × Woke spawned now ts k ts' k'
unfolding check_timer peek
check_timer-Woke sp zero now [] k v a near h = ([], k, refl, unchanged-Woke sp now [] k v a refl)
check_timer-Woke sp zero now (t ∷ ts) k v a near h = absurd (omega (arith, h))
check_timer-Woke sp (suc fuel) now [] k v a near h =
    ([], k, refl, unchanged-Woke sp now [] k v a refl)
check_timer-Woke sp (suc fuel) now (first ∷ others) k v a near h =
    let (t, rest, e, q) = peek-IsPeeked first others a.fits in
    elim (Bool-cases (due now t)) [
      | inr n ↦ (
        first ∷ others,
        k,
        rw e (rw n),
        unchanged-Woke sp now (first ∷ others) k v a
            (none_due now (first ∷ others) t rest near q n),
      )
      | inl y ↦
          let mine : count (of_task t.task) (first ∷ others) ≡ 1 =
            ground (arith, q.parts (of_task t.task), a.once t.task, eq_refl t.task) in
          let awake : t.task ≢ k.idle = λ z. ground (arith, z, mine, a.idle_out) in
          let (r, v') = resume_lem sp k t.task v (a.asleep t.task mine) awake in
          let (ts', k', e', w) =
            check_timer-Woke sp fuel now rest (enqueued k t.task) v'
              (resumed-IsAsleep (first ∷ others) t rest k q a) (omega (arith, near, q.parts far))
              (omega (arith, h, q.shorter)) in
          (
            ts',
            k',
            rw (e, y, r) e',
            record {
              state = λ x. w.state x ∙ ground (arith, y, q.parts (λ t. of_task x t && due now t));
              kept = λ f. w.kept f ∙ ground (arith, y, q.parts (λ t. f t && not (due now t)));
              scheduled = w.scheduled;
              sleeping = w.sleeping;
            },
          )
    ]

-- Not a `usize`.
abbrev pub beyond : TimerCondVar → Bool
beyond t = leb (2 ^ 64) t.expire_ms

-- The timer that `peek` gives is one of those out of range, if there is one.
far-first :
    (ts : List TimerCondVar) (t : TimerCondVar) (rest : List TimerCondVar)
    → count beyond ts ≡ 0
    → 1 ≤ count far ts
    → IsPeeked ts t rest
    → far t ≡ true
far-first ts t rest words some_far q = elim (Bool-cases (far t)) [
  | inl y ↦ y
  | inr n ↦ absurd (
      omega (
        arith,
        some_far,
        words,
        count-split far beyond ts,
        count_mono (λ u. far u && beyond u) beyond ts (λ u b. ground (arith, b)),
        count_mono (λ u. far u && not (beyond u)) (λ u. ltb (key u) (key t)) ts
            (λ u b. before u n b),
        q.first,
      ))
]
  where
    before :
        (u : TimerCondVar)
        → far t ≡ false
        → (far u && not (beyond u)) ≡ true
        → ltb (key u) (key t) ≡ true
    before u n b = ground (arith, n, b)

stuck :
    (fuel now : ℕ) (ts : List TimerCondVar) (k : Kernel)
    → count overflows ts ≡ 0
    → count beyond ts ≡ 0
    → 1 ≤ count far ts
    → now < 2 ^ 63
    → check_timer fuel now ts k ≡ done (ts, k)
unfolding check_timer
stuck zero now ts k fits words some_far early = refl
stuck (suc fuel) now [] k fits words some_far early = absurd (omega (arith, some_far))
stuck (suc fuel) now (first ∷ others) k fits words some_far early =
    let (t, rest, e, q) = peek-IsPeeked first others fits in
    let not_due : leb t.expire_ms now ≡ false =
      ground (arith, far-first (first ∷ others) t rest words some_far q, early) in
    rw e (rw not_due)

-- What one call of `check_timer` does.
abbrev pub TimerChecked :
    (ℕ → Bool) → ℕ → List TimerCondVar → Kernel → Run (List TimerCondVar × Kernel) → Type 0
TimerChecked spawned now ts k result =
    ((count far ts ≡ 0)
      × ((ts' : List TimerCondVar) × (k' : Kernel) × (result ≡ done (ts', k'))
          × Woke spawned now ts k ts' k'))
    ⊎ ((1 ≤ count far ts) × (result ≡ done (ts, k)))

-- Where each timer is that of a blocked task with no other, none expires at 2^63 exactly and the time is
-- below that, `check_timer` does not panic. If all expire below 2^63, it wakes exactly the tasks whose
-- timer is due, keeps exactly the other timers, and a round for each timer is enough. If any expires
-- later, the signed order puts that one first, and the call wakes nobody, whoever else is due.
pub check_timer_lem :
    (spawned : ℕ → Bool) (now : ℕ) (ts : List TimerCondVar) (k : Kernel)
    → IsScheduled spawned k
    → IsAsleep ts k
    → count beyond ts ≡ 0
    → now < 2 ^ 63
    → TimerChecked spawned now ts k (check_timer (length ts) now ts k)
check_timer_lem sp now ts k v a words early = elim (Bool-cases (count far ts == 0)) [
  | inl y ↦
      let near : count far ts ≡ 0 = (==_iff (count far ts) 0).0 y in
      inl (near, check_timer-Woke sp (length ts) now ts k v a near (omega arith))
  | inr n ↦
      let some_far : 1 ≤ count far ts = ground (arith, n) in
      inr (some_far, stuck (length ts) now ts k a.fits words some_far early)
]
