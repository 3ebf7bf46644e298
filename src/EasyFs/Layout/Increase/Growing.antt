-- ===== src/EasyFs/Layout/Increase/Growing.antt =====
-- The parts of `increase_size` as runs of assignments: from the slots of the old size to those of the new one.
use r_core_tutorial_v3_arm.Base.{
  ℕ, zero, suc, ◌+◌, ◌-◌, ◌*◌, ◌/◌, ◌%◌, ◌≤◌, ◌<◌, min, ◌≡◌, refl, sym, ap, ◌∙◌, inl, inr, Bool,
  true, false, List, arith, ltb, leb, ◌==◌, if◌then◌else◌, ltb→lt, Bool-cases, Run, done, panic,
  ◌>>=◌, ◌>>◌, assert,
}
use r_core_tutorial_v3_arm.EasyFs.Layout.{DiskInode, with_indices}
use r_core_tutorial_v3_arm.EasyFs.Layout.Sizes.{blocks_of, data_blocks-eq}
use r_core_tutorial_v3_arm.EasyFs.Layout.Increase.{
  Growth, put_indirect1, put_indirect2, fill_direct, fill_indirect1, fill_indirect2, grow_indirect1,
  grow_indirect2, increase_size,
}
use r_core_tutorial_v3_arm.EasyFs.Layout.Increase.Slots.{Slot, first_slot, second_slot, slot}
use r_core_tutorial_v3_arm.EasyFs.Layout.Increase.Append.{put}
use r_core_tutorial_v3_arm.EasyFs.Layout.Increase.Rounds.{
  appends, then_rounds, direct_rounds, entry_rounds, position, pair_rounds,
}

abbrev one_if : Bool → ℕ
one_if b = if b then 1 else 0

-- The step that takes a block of indices when the old size ends where it begins.
put_if :
    (b : Bool) (s : Slot) (p : ℕ) (g : Growth)
    → (b ≡ true → slot p ≡ s)
    → (if b then put s g else done g) ≡ appends (one_if b) p g
put_if true s p g e = last_assignment s p g (e refl)
  where
    bind_done : (m : Run Growth) → m >>= done ≡ m
    bind_done (done g) = refl
    bind_done panic = refl

    last_assignment : (s : Slot) (p : ℕ) (g : Growth) → slot p ≡ s → put s g ≡ appends 1 p g
    last_assignment s p g e = sym (bind_done (put s g)) ∙ ap (λ s. put s g >>= done) (sym e)
put_if false s p g e = refl

second_rounds :
    (c t n p : ℕ) (g : Growth)
    → 128 ≤ c
    → 128 < t
    → c ≤ t
    → t ≤ 128 + 128 * 128
    → p ≡ position ((c - 128) / 128) ((c - 128) % 128)
    → p + n ≡ with_indices (28 + t)
    → assert (leb 128 c)
        >> fill_indirect2
            (t - c)
            ((c - 128) / 128)
            ((c - 128) % 128)
            ((t - 128) / 128)
            ((t - 128) % 128)
            g
      ≡ appends n p g
second_rounds c t n p g h k l m e f =
    let opened : leb 128 c ≡ true = ground (arith, h) in
    rw opened (
      pair_rounds (t - c) ((c - 128) / 128) ((c - 128) % 128) ((t - 128) / 128) ((t - 128) % 128) n
        p g
        (record {
          in_row = omega arith;
          last_in_row = omega arith;
          ahead = omega (arith, l);
          fits = omega (arith, m);
          starts = e;
          ends = ground (arith, k, f);
        })
        (omega (arith, l, h)))

grow_indirect2_rounds :
    (c t n p : ℕ) (g : Growth)
    → min t 128 ≤ c
    → c ≤ t
    → t ≤ 128 + 128 * 128
    → p ≡ with_indices (28 + c)
    → p + n ≡ with_indices (28 + t)
    → grow_indirect2 c t g ≡ appends n p g
grow_indirect2_rounds c t n p g h l m e f = elim (Bool-cases (ltb 128 t)) [
  | inr few ↦ rw (few, nothing few) refl
  | inl few ↦
      let from : 128 ≤ c = ground (arith, h, few) in
      let fits : one_if (c == 128) ≤ n = ground (arith, h, l, e, f, few) in
      let starts : p + one_if (c == 128) ≡ position ((c - 128) / 128) ((c - 128) % 128) =
        ground (arith, from, e) in
      let ends : p + one_if (c == 128) + (n - one_if (c == 128)) ≡ with_indices (28 + t) =
        omega (arith, f, fits) in
      let k = one_if (c == 128) in
      rw few (
        then_rounds (if c == 128 then put_indirect2 g else done g)
          (λ g'.
            assert (leb 128 c)
            >> fill_indirect2 (t - c) ((c - 128) / 128) ((c - 128) % 128) ((t - 128) / 128)
                ((t - 128) % 128) g')
          k (n - k) n p g (put_if (c == 128) second_slot p g (λ y. ground (arith, e, y)))
          (λ g'. second_rounds c t (n - k) (p + k) g' from (ltb→lt 128 t few) l m starts ends)
          (omega (arith, fits)))
]
  where
    nothing : ltb 128 t ≡ false → n ≡ 0
    nothing few = ground (arith, h, l, e, f, few)

entries_if :
    (n c p : ℕ) (g : Growth)
    → (0 < n → (c + n ≤ 128) × (p ≡ 29 + c))
    → fill_indirect1 n c g ≡ appends n p g
entries_if zero c p g h = refl
entries_if (suc n) c p g h = let (fits, e) = h (omega arith) in entry_rounds (suc n) c p g fits e

first_rounds :
    (c t n p : ℕ) (g : Growth)
    → 28 ≤ c
    → c ≤ t
    → 28 < t
    → t ≤ 156 + 128 * 128
    → p ≡ with_indices c + one_if (c == 28)
    → p + n ≡ with_indices t
    → assert (leb 28 c)
        >> (fill_indirect1 (min (t - 28) 128 - (c - 28)) (c - 28) g
            >>= grow_indirect2 (c - 28 + (min (t - 28) 128 - (c - 28))) (t - 28))
      ≡ appends n p g
first_rounds c t n p g h l k m e f =
    let opened : leb 28 c ≡ true = ground (arith, h) in
    let fits : min (t - 28) 128 - (c - 28) ≤ n = ground (arith, h, l, k, e, f) in
    let next : p + (min (t - 28) 128 - (c - 28))
        ≡ with_indices (28 + (c - 28 + (min (t - 28) 128 - (c - 28)))) =
      ground (arith, h, l, k, e) in
    let back : t ≡ 28 + (t - 28) = omega (arith, k) in
    let end : p + (min (t - 28) 128 - (c - 28)) + (n - (min (t - 28) 128 - (c - 28)))
        ≡ with_indices (28 + (t - 28)) =
      rw (sym back) (omega (arith, f, fits)) in
    rw opened (
      then_rounds (fill_indirect1 (min (t - 28) 128 - (c - 28)) (c - 28) g)
        (grow_indirect2 (c - 28 + (min (t - 28) 128 - (c - 28))) (t - 28))
        (min (t - 28) 128 - (c - 28)) (n - (min (t - 28) 128 - (c - 28))) n p g
        (entries_if (min (t - 28) 128 - (c - 28)) (c - 28) p g
          (λ some. (omega (arith, h, some), ground (arith, h, some, e))))
        (λ g'.
          grow_indirect2_rounds (c - 28 + (min (t - 28) 128 - (c - 28))) (t - 28)
            (n - (min (t - 28) 128 - (c - 28))) (p + (min (t - 28) 128 - (c - 28))) g' (omega arith)
            (omega (arith, h, l)) (omega (arith, m)) next end)
        (omega (arith, fits)))

grow_indirect1_rounds :
    (c t n p : ℕ) (g : Growth)
    → min t 28 ≤ c
    → c ≤ t
    → t ≤ 156 + 128 * 128
    → p ≡ with_indices c
    → p + n ≡ with_indices t
    → grow_indirect1 c t g ≡ appends n p g
grow_indirect1_rounds c t n p g h l m e f = elim (Bool-cases (ltb 28 t)) [
  | inr few ↦ rw (few, nothing few) refl
  | inl more ↦
      let from : 28 ≤ c = ground (arith, h, more) in
      let fits : one_if (c == 28) ≤ n = ground (arith, h, l, e, f, more) in
      let starts : p + one_if (c == 28) ≡ with_indices c + one_if (c == 28) = omega (arith, e) in
      rw more (
        then_rounds (if c == 28 then put_indirect1 g else done g)
          (λ g'.
            assert (leb 28 c)
            >> (fill_indirect1 (min (t - 28) 128 - (c - 28)) (c - 28) g'
                >>= grow_indirect2 (c - 28 + (min (t - 28) 128 - (c - 28))) (t - 28)))
          (one_if (c == 28)) (n - one_if (c == 28)) n p g
          (put_if (c == 28) first_slot p g (λ y. ground (arith, e, y)))
          (λ g'.
            first_rounds c t (n - one_if (c == 28)) (p + one_if (c == 28)) g' from l
              (ltb→lt 28 t more) m starts (omega (arith, f, fits)))
          (omega (arith, fits)))
]
  where
    nothing : ltb 28 t ≡ false → n ≡ 0
    nothing few = ground (arith, h, l, e, f, few)

directs_if :
    (n c p : ℕ) (g : Growth) → (0 < n → (c + n ≤ 28) × (p ≡ c)) → fill_direct n c g ≡ appends n p g
directs_if zero c p g h = refl
directs_if (suc n) c p g h =
    let (fits, e) = h (omega arith) in
    direct_rounds (suc n) c g fits ∙ ap (λ q. appends (suc n) q g) (sym e)

direct_part :
    (c t n : ℕ) (g : Growth)
    → c ≤ t
    → t ≤ 156 + 128 * 128
    → with_indices c + n ≡ with_indices t
    → fill_direct (min t 28 - c) c g >>= grow_indirect1 (c + (min t 28 - c)) t
      ≡ appends n (with_indices c) g
direct_part c t n g l m f =
    let fits : min t 28 - c ≤ n = ground (arith, l, f) in
    then_rounds (fill_direct (min t 28 - c) c g) (grow_indirect1 (c + (min t 28 - c)) t)
      (min t 28 - c) (n - (min t 28 - c)) n (with_indices c) g
      (directs_if (min t 28 - c) c (with_indices c) g
        (λ some. (omega (arith, some), ground (arith, some))))
      (λ g'.
        grow_indirect1_rounds (c + (min t 28 - c)) t (n - (min t 28 - c))
          (with_indices c + (min t 28 - c)) g' (omega arith) (omega (arith, l)) m
          (ground (arith, l)) (omega (arith, f, fits)))
      (omega (arith, fits))

-- `increase_size` assigns the slots after those of the old size, up to those of the new size.
pub increase_size-appends :
    (inode : DiskInode) (new_size : ℕ) (new_blocks : List ℕ) (device : ℕ → List ℕ) (n : ℕ)
    → inode.size ≤ new_size
    → blocks_of new_size ≤ 156 + 128 * 128
    → with_indices (blocks_of inode.size) + n ≡ with_indices (blocks_of new_size)
    → increase_size inode new_size new_blocks device
      ≡ appends n (with_indices (blocks_of inode.size)) (record {
        inode = record inode { size = new_size };
        device = device;
        new_blocks = new_blocks;
      })
unfolding increase_size
increase_size-appends inode new_size new_blocks device n h m e =
    rw (data_blocks-eq inode.size (omega (arith, h, m)), data_blocks-eq new_size (omega (arith, m)))
      (direct_part (blocks_of inode.size) (blocks_of new_size) n
        (record {
          inode = record inode { size = new_size };
          device = device;
          new_blocks = new_blocks;
        })
        (omega (arith, h)) m e)
