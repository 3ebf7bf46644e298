-- ===== src/Process/Stacks.antt =====
-- `Process::user_stack` and its use in `Process::new_user_task`: where the stack of a thread lies.
use r_core_tutorial_v3_arm.Base.{
  ℕ, ◌+◌, ◌-◌, ◌*◌, ◌%◌, ◌^◌, ◌≤◌, ◌<◌, ◌≡◌, refl, ap, true, false, arith, ltb, if◌then◌else◌, Run,
  done, panic, ◌>>=◌,
}
use r_core_tutorial_v3_arm.Mm.Address.{page_size}

abbrev pub user_stack_size : ℕ
user_stack_size = 4096 * 4

abbrev pub user_stack_top : ℕ
user_stack_top = 0x8000_0000_0000

-- `a - b` of two `usize`
abbrev pub checked_sub : ℕ → ℕ → Run ℕ
checked_sub a b = if ltb a b then panic else done (a - b)

-- `a * b` of two `usize`
abbrev pub checked_mul : ℕ → ℕ → Run ℕ
checked_mul a b = if ltb (a * b) (2 ^ 64) then done (a * b) else panic

-- The bottom and the top.
unfoldable pub user_stack : ℕ → Run (ℕ × ℕ)
user_stack tid = do
  below ← checked_mul tid (user_stack_size + page_size)
  top ← checked_sub user_stack_top below
  bottom ← checked_sub top user_stack_size
  done (bottom, top)

-- The stacks of the threads whose number `Task::new_user` accepts.
abbrev pub stack_bottom : ℕ → ℕ
stack_bottom tid = user_stack_top - tid * (user_stack_size + page_size) - user_stack_size

-- The stacks of two threads with different numbers up to 16 are computed without a panic, each is as
-- large as it should be and page aligned, and between two of them there is at least one page that
-- belongs to none.
pub user_stack-apart :
    (t u : ℕ)
    → t < u
    → u ≤ 16
    → (b c top top' : ℕ) × (user_stack t ≡ done (b, top))
      × (user_stack u ≡ done (c, top'))
      × (b + user_stack_size ≡ top)
      × (c + user_stack_size ≡ top')
      × (top' + page_size ≤ b)
      × (b % page_size ≡ 0)
      × (c % page_size ≡ 0)
      × (top ≤ 2 ^ 47)
unfolding user_stack
user_stack-apart t u lt le = (
  stack_bottom t,
  stack_bottom u,
  stack_bottom t + user_stack_size,
  stack_bottom u + user_stack_size,
  computed t (omega (arith, lt, le)),
  computed u le,
  refl,
  refl,
  omega (arith, lt, le),
  omega (arith, lt, le),
  omega (arith, le),
  omega (arith, lt, le),
)
  where
    computed :
        (t : ℕ) → t ≤ 16 → user_stack t ≡ done (stack_bottom t, stack_bottom t + user_stack_size)
    computed t h = rw (small, enough, enough') (ap done (ap (λ x. (stack_bottom t, x)) top_is))
      where
        small : ltb (t * (user_stack_size + page_size)) (2 ^ 64) ≡ true
        small = ground (arith, h)

        enough : ltb user_stack_top (t * (user_stack_size + page_size)) ≡ false
        enough = ground (arith, h)

        enough' : ltb (user_stack_top - t * (user_stack_size + page_size)) user_stack_size ≡ false
        enough' = ground (arith, h)

        top_is :
            user_stack_top - t * (user_stack_size + page_size) ≡ stack_bottom t + user_stack_size
        top_is = omega (arith, h)
