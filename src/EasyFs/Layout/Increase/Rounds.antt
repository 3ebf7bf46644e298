-- ===== src/EasyFs/Layout/Increase/Rounds.antt =====
-- The loops of `increase_size`, each as a run of assignments to the slots that follow one another.
use r_core_tutorial_v3_arm.Base.{
  ℕ, zero, suc, ◌+◌, ◌-◌, ◌*◌, ◌≤◌, ◌<◌, ◌≡◌, refl, sym, ap, ◌∙◌, inl, inr, Bool, true, false, ◌&&◌,
  ◌||◌, arith, ltb, ◌==◌, if◌then◌else◌, Bool-cases, Run, done, panic, ◌>>=◌,
}
use r_core_tutorial_v3_arm.EasyFs.Layout.Increase.{
  Growth, put_direct, put_entry, put_leaf, fill_direct, fill_indirect1, put_pair, fill_indirect2,
}
use r_core_tutorial_v3_arm.EasyFs.Layout.Increase.Slots.{
  direct_slot, entry_slot, row_slot, leaf_slot, slot, slot-number,
}
use r_core_tutorial_v3_arm.EasyFs.Layout.Increase.Append.{put}

-- The assignments to the `n` slots from `p` on.
abbrev pub appends : ℕ → ℕ → Growth → Run Growth
appends zero p g = done g
appends (suc n) p g = put (slot p) g >>= appends n (suc p)

bind_assoc : (m : Run Growth) (f h : Growth → Run Growth) → (m >>= f) >>= h ≡ m >>= (λ g. f g >>= h)
bind_assoc (done g) f h = refl
bind_assoc panic f h = refl

bind_ext :
    (m : Run Growth) (f h : Growth → Run Growth) → ((g : Growth) → f g ≡ h g) → m >>= f ≡ m >>= h
bind_ext (done g) f h e = e g
bind_ext panic f h e = refl

bind_done : (m : Run Growth) → m >>= done ≡ m
bind_done (done g) = refl
bind_done panic = refl

appends_add :
    (m n t p q : ℕ) (g : Growth)
    → t ≡ m + n
    → q ≡ p + m
    → appends t p g ≡ appends m p g >>= appends n q
appends_add zero n t p q g e f = ap (λ k. appends k p g) same ∙ ap (λ k. appends n k g) (sym start)
  where
    same : t ≡ n
    same = omega (arith, e)

    start : q ≡ p
    start = omega (arith, f)
appends_add (suc m) n zero p q g e f = absurd (omega (arith, e))
appends_add (suc m) n (suc t) p q g e f =
    bind_ext (put (slot p) g) (appends t (suc p)) (λ g'. appends m (suc p) g' >>= appends n q)
      (λ g'. appends_add m n t (suc p) q g' (omega (arith, e)) (omega (arith, f)))
    ∙ sym (bind_assoc (put (slot p) g) (appends m (suc p)) (appends n q))

-- A run of assignments and then another one.
pub then_rounds :
    (m : Run Growth) (f : Growth → Run Growth) (k n t p : ℕ) (g : Growth)
    → m ≡ appends k p g
    → ((g' : Growth) → f g' ≡ appends n (p + k) g')
    → t ≡ k + n
    → m >>= f ≡ appends t p g
then_rounds m f k n t p g e h l =
    ap (λ m. m >>= f) e
    ∙ bind_ext (appends k p g) f (appends n (p + k)) h
    ∙ sym (appends_add k n t p (p + k) g l refl)

pub direct_rounds : (n c : ℕ) (g : Growth) → c + n ≤ 28 → fill_direct n c g ≡ appends n c g
direct_rounds zero c g h = refl
direct_rounds (suc n) c g h =
    bind_ext (put_direct c g) (fill_direct n (suc c)) (appends n (suc c))
      (λ g'. direct_rounds n (suc c) g' (omega (arith, h)))
    ∙ ap (λ s. put s g >>= appends n (suc c)) (sym (slot-number (direct_slot c) (omega (arith, h))))

pub entry_rounds :
    (n c p : ℕ) (g : Growth) → c + n ≤ 128 → p ≡ 29 + c → fill_indirect1 n c g ≡ appends n p g
entry_rounds zero c p g h e = refl
entry_rounds (suc n) c p g h e =
    bind_ext (put_entry g.inode.indirect1 c g) (fill_indirect1 n (suc c)) (appends n (suc p))
      (λ g'. entry_rounds n (suc c) (suc p) g' (omega (arith, h)) (omega (arith, e)))
    ∙ ap (λ s. put s g >>= appends n (suc p))
        (sym (ap slot e ∙ slot-number (entry_slot c) (omega (arith, h))))

-- The slot of the entry `b` of the block `a`, or of that block itself when it has no entry yet.
abbrev pub position : ℕ → ℕ → ℕ
position a b = 158 + 129 * a + (if b == 0 then 0 else suc b)

abbrev pair_size : ℕ → ℕ
pair_size b = if b == 0 then 2 else 1

row_at : (a p : ℕ) → a < 128 → p ≡ 158 + 129 * a → slot p ≡ row_slot a
row_at a p h e = ap slot e ∙ slot-number (row_slot a) h

leaf_at : (a b p : ℕ) → a < 128 → b < 128 → p ≡ 159 + 129 * a + b → slot p ≡ leaf_slot a b
leaf_at a b p ha hb e = ap slot e ∙ slot-number (leaf_slot a b) (ha, hb)

suc_ne : (b : ℕ) → (suc b == 0) ≡ false
suc_ne b = ground arith

pair_round :
    (a b p : ℕ) (g : Growth)
    → a < 128
    → b < 128
    → p ≡ position a b
    → put_pair a b g ≡ appends (pair_size b) p g
pair_round a zero p g ha hb e =
    bind_ext (put_entry g.inode.indirect2 a g) (put_leaf a 0)
      (λ g'. put (leaf_slot a 0) g' >>= done) (λ g'. sym (bind_done (put_leaf a 0 g')))
    ∙ ap (λ s. put s g >>= (λ g'. put_leaf a 0 g' >>= done))
        (sym (row_at a p ha (omega (arith, e))))
    ∙ ap (λ t. put (slot p) g >>= (λ g'. put t g' >>= done))
        (sym (leaf_at a 0 (suc p) ha hb (omega (arith, e))))
pair_round a (suc b) p g ha hb e =
    let leaf = leaf_at a (suc b) p ha hb (ground (arith, e)) in
    rw (suc_ne b) (sym (bind_done (put_leaf a (suc b) g)) ∙ ap (λ s. put s g >>= done) (sym leaf))

-- The loop goes on, as the source tests it.
abbrev goes_on : ℕ → ℕ → ℕ → ℕ → Bool
goes_on a b a1 b1 = ltb a a1 || (a == a1 && ltb b b1)

abbrev next_row : ℕ → ℕ → ℕ
next_row a b = if suc b == 128 then suc a else a

abbrev next_column : ℕ → ℕ
next_column b = if suc b == 128 then 0 else suc b

-- A round at `a` and `b` of a loop up to `a1` and `b1`: `n` slots from `p` on are left.
pub record Round (a b a1 b1 n p : ℕ) : Type 0 where
  pub in_row : b < 128
  pub last_in_row : b1 < 128
  pub ahead : 128 * a + b ≤ 128 * a1 + b1
  pub fits : 128 * a1 + b1 ≤ 16384
  pub starts : p ≡ position a b
  pub ends : p + n ≡ position a1 b1

goes_on_row :
    (a b a1 b1 n p : ℕ)
    → Round a b a1 b1 n p
    → goes_on a b a1 b1 ≡ true
    → (a < 128) × (128 * a + b < 128 * a1 + b1)
goes_on_row a b a1 b1 n p r t = (
  ground (arith, r.in_row, r.last_in_row, r.ahead, r.fits, t),
  ground (arith, r.in_row, r.last_in_row, r.ahead, r.fits, t),
)

stops_at : (a b a1 b1 n p : ℕ) → Round a b a1 b1 n p → goes_on a b a1 b1 ≡ false → n ≡ 0
stops_at a b a1 b1 n p r f = ground (arith, r.in_row, r.last_in_row, r.ahead, r.starts, r.ends, f)

pair_fits :
    (a b a1 b1 n p : ℕ) → Round a b a1 b1 n p → 128 * a + b < 128 * a1 + b1 → pair_size b ≤ n
pair_fits a b a1 b1 n p r h = ground (arith, r.in_row, r.last_in_row, r.starts, r.ends, h)

next-Round :
    (a b a1 b1 n p : ℕ)
    → Round a b a1 b1 n p
    → 128 * a + b < 128 * a1 + b1
    → Round (next_row a b) (next_column b) a1 b1 (n - pair_size b) (p + pair_size b)
      × (pair_size b ≤ n)
next-Round a b a1 b1 n p r h = (
  record {
    in_row = ground (arith, r.in_row);
    last_in_row = r.last_in_row;
    ahead = ground (arith, h);
    fits = r.fits;
    starts = ground (arith, r.in_row, r.starts);
    ends = omega (arith, r.ends, pair_fits a b a1 b1 n p r h);
  },
  pair_fits a b a1 b1 n p r h,
)

pub pair_rounds :
    (fuel a b a1 b1 n p : ℕ) (g : Growth)
    → Round a b a1 b1 n p
    → 128 * a1 + b1 ≤ fuel + (128 * a + b)
    → fill_indirect2 fuel a b a1 b1 g ≡ appends n p g
pair_rounds zero a b a1 b1 n p g r e = elim (Bool-cases (goes_on a b a1 b1)) [
  | inr f ↦ rw (f, stops_at a b a1 b1 n p r f) refl
  | inl t ↦ absurd (omega (arith, e, (goes_on_row a b a1 b1 n p r t).1))
]
pair_rounds (suc fuel) a b a1 b1 n p g r e = elim (Bool-cases (goes_on a b a1 b1)) [
  | inr f ↦ rw (f, stops_at a b a1 b1 n p r f) refl
  | inl t ↦
      let (in_table, less) = goes_on_row a b a1 b1 n p r t in
      let (next, enough) = next-Round a b a1 b1 n p r less in
      rw t (
        then_rounds (put_pair a b g) (fill_indirect2 fuel (next_row a b) (next_column b) a1 b1)
          (pair_size b) (n - pair_size b) n p g (pair_round a b p g in_table r.in_row r.starts)
          (λ g'.
            pair_rounds fuel (next_row a b) (next_column b) a1 b1 (n - pair_size b)
              (p + pair_size b) g' next (ground (arith, e, r.in_row)))
          (omega (arith, enough)))
]
