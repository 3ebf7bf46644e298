-- ===== src/Mm/Access/Strings.antt =====
-- What `read_str` copies.
use r_core_tutorial_v3_arm.Base.{
  ℕ, zero, suc, ◌+◌, ◌-◌, ◌%◌, ◌≤◌, ◌<◌, ◌≡◌, refl, sym, ap, ◌∙◌, ◌⊎◌, inl, inr, true, false, List,
  [], ◌∷◌, ◌++◌, arith, ltb, leb, ◌==◌, if◌then◌else◌, ==_iff, Bool-cases, length, get_or,
  length-append, contains, done, panic, ltb-suc,
}
use r_core_tutorial_v3_arm.Mm.Access.{
  user_aspace_end, uaccess_ok, check, copy_str, copy_from_user_str, read_str,
}

-- The bytes of memory from `p` on, up to a zero byte or a limit.
pub record IsStringAt (mem : ℕ → ℕ) (p left : ℕ) (s : List ℕ) : Type 0 where
  pub bytes : (i : ℕ) → get_or s i 0 ≡ (if ltb i (length s) then mem (p + i) else 0)
  pub no_zero : contains s 0 ≡ false
  pub fits : length s ≤ left
  pub ends : (length s ≡ left) ⊎ (mem (p + length s) ≡ 0)

copy_str-IsStringAt :
    (mem : ℕ → ℕ) (p left : ℕ)
    → p + left ≤ user_aspace_end
    → (s : List ℕ) × (copy_str mem p left ≡ done s) × IsStringAt mem p left s
copy_str-IsStringAt mem p zero h = (
  [],
  refl,
  record { bytes = λ i. ground arith; no_zero = refl; fits = omega arith; ends = inl refl },
)
copy_str-IsStringAt mem p (suc left) h = elim (Bool-cases (mem p == 0)) [
  | inl y ↦ (
    [],
    rw (inside, y),
    record {
      bytes = λ i. ground arith;
      no_zero = refl;
      fits = omega arith;
      ends = inr (ap mem (plus_zero p) ∙ (==_iff (mem p) 0).0 y);
    },
  )
  | inr n ↦
      let (s, e, q) = copy_str-IsStringAt mem (p + 1) left (omega (arith, h)) in
      (
        mem p ∷ s,
        rw (inside, n, e),
        record {
          bytes = shifted s q.bytes;
          no_zero = ground (arith, n, q.no_zero);
          fits = omega (arith, q.fits);
          ends = shifted_end s q.ends;
        },
      )
]
  where
    inside : ltb p user_aspace_end ≡ true
    inside = ground (arith, h)

    plus_zero : (p : ℕ) → p + 0 ≡ p
    plus_zero p = omega arith

    plus_suc : (i : ℕ) → p + 1 + i ≡ p + suc i
    plus_suc i = omega arith

    shifted :
        (s : List ℕ)
        → ((i : ℕ) → get_or s i 0 ≡ (if ltb i (length s) then mem (p + 1 + i) else 0))
        → (i : ℕ) → get_or (mem p ∷ s) i 0 ≡ (if ltb i (suc (length s)) then mem (p + i) else 0)
    shifted s b zero = ap mem (sym (plus_zero p)) ∙ ground arith
    shifted s b (suc i) =
        b i
        ∙ ap (λ a. if ltb i (length s) then mem a else 0) (plus_suc i)
        ∙ ap (λ c. if c then mem (p + suc i) else 0) (sym (ltb-suc i (length s)))

    shifted_end :
        (s : List ℕ)
        → (length s ≡ left) ⊎ (mem (p + 1 + length s) ≡ 0)
        → (suc (length s) ≡ suc left) ⊎ (mem (p + suc (length s)) ≡ 0)
    shifted_end s (inl e) = inl (ap suc e)
    shifted_end s (inr e) = inr (ap mem (sym (plus_suc (length s))) ∙ e)

-- For a buffer of `n` bytes and a pointer from which `n - 1` bytes lie in the user's address space,
-- `read_str` panics for the null pointer. For any other it writes the bytes of the memory up to the
-- first zero byte, or `n - 1` of them, and a zero byte behind them, all within the buffer, and returns
-- their number; every pointer behind the user's address space makes it panic.
pub read_str_lem :
    (mem : ℕ → ℕ) (p n outside : ℕ)
    → 0 < n
    → p + (n - 1) ≤ user_aspace_end
    → p < user_aspace_end
    → user_aspace_end ≤ outside
    → (((p ≡ 0) × (read_str mem p n ≡ panic))
        ⊎ ((s : List ℕ) × (read_str mem p n ≡ done (s ++ (0 ∷ []), length s))
            × IsStringAt mem p (n - 1) s
            × (length (s ++ (0 ∷ [])) ≤ n)))
      × (read_str mem outside n ≡ panic)
unfolding read_str copy_from_user_str check uaccess_ok
read_str_lem mem p n outside pos_n room lt far = (by_null (Bool-cases (p == 0)), refused)
  where
    refused : read_str mem outside n ≡ panic
    refused = ground (arith, far)

    by_null :
        ((p == 0) ≡ true) ⊎ ((p == 0) ≡ false)
        → ((p ≡ 0) × (read_str mem p n ≡ panic))
          ⊎ ((s : List ℕ) × (read_str mem p n ≡ done (s ++ (0 ∷ []), length s))
              × IsStringAt mem p (n - 1) s
              × (length (s ++ (0 ∷ [])) ≤ n))
    by_null (inl y) = inl ((==_iff p 0).0 y, rw y)
    by_null (inr k) =
        let (s, e, q) = copy_str-IsStringAt mem p (n - 1) room in
        let low : leb p (user_aspace_end - 1) ≡ true = ground (arith, lt) in
        let aligned : (p % 1 == 0) ≡ true = ground arith in
        let some_room : (n == 0) ≡ false = ground (arith, pos_n) in
        inr (
          s,
          rw (k, low, aligned, some_room, e),
          q,
          omega (arith, length-append s (0 ∷ []), q.fits, pos_n),
        )
