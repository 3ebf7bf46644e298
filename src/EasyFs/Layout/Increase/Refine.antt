-- ===== src/EasyFs/Layout/Increase/Refine.antt =====
-- `increase_size` appends its new blocks to the list of an inode's blocks.
use r_core_tutorial_v3_arm.Base.{
  ℕ, suc, ◌+◌, ◌^◌, ◌≤◌, ◌<◌, ◌≡◌, refl, sym, ap, ◌∙◌, subst, List, [], ◌∷◌, ◌++◌, arith, length,
  length-append, All, Distinct, contains-append, done,
}
use r_core_tutorial_v3_arm.EasyFs.Layout.{DiskInode, with_indices}
use r_core_tutorial_v3_arm.EasyFs.Layout.Clear.{max_blocks}
use r_core_tutorial_v3_arm.EasyFs.Layout.Sizes.{blocks_of}
use r_core_tutorial_v3_arm.EasyFs.Layout.Increase.{Growth, increase_size}
use r_core_tutorial_v3_arm.EasyFs.Layout.Increase.Slots.{slot, slot-IsSlot, max_slots, Represents}
use r_core_tutorial_v3_arm.EasyFs.Layout.Increase.Append.{OnlyIndices}
use r_core_tutorial_v3_arm.EasyFs.Layout.Increase.Appends.{
  Appended, put-Appended, OnlyIndices-append,
}
use r_core_tutorial_v3_arm.EasyFs.Layout.Increase.Rounds.{appends}
use r_core_tutorial_v3_arm.EasyFs.Layout.Increase.Growing.{increase_size-appends}

append_snoc : (xs : List ℕ) (x : ℕ) (ys : List ℕ) → (xs ++ (x ∷ [])) ++ ys ≡ xs ++ (x ∷ ys)
append_snoc [] x ys = refl
append_snoc (z ∷ xs) x ys = ap (◌∷◌ z) (append_snoc xs x ys)

pub Distinct-left : (xs ys : List ℕ) → Distinct (xs ++ ys) → Distinct xs
Distinct-left [] ys d = tt
Distinct-left (x ∷ xs) ys d =
    (ground (arith, contains-append xs ys x, d.0), Distinct-left xs ys d.1)

append_nil : (xs : List ℕ) → xs ++ [] ≡ xs
append_nil [] = refl
append_nil (x ∷ xs) = ap (◌∷◌ x) (append_nil xs)

appends-Appended :
    (bs all rest : List ℕ) (g : Growth)
    → Represents g.inode g.device all
    → Distinct (all ++ bs)
    → All (λ x. x < 2 ^ 32) bs
    → length all + length bs ≤ max_slots
    → g.new_blocks ≡ bs ++ rest
    → (g' : Growth) × (appends (length bs) (length all) g ≡ done g') × Appended g g' all bs rest
appends-Appended [] all rest g r d w m e = (
  g,
  refl,
  record {
    represented = subst (Represents g.inode g.device) (sym (append_nil all)) r;
    left = e;
    size_kept = refl;
    type_kept = refl;
    only = λ b n. refl;
  },
)
appends-Appended (x ∷ bs) all rest g r d w m e =
    let (in_range, at) = slot-IsSlot (length all) (omega (arith, m)) in
    let (g', p, a) =
      put-Appended (slot (length all)) g all x (bs ++ rest) r (Distinct-left all (x ∷ bs) d)
        in_range at e w.0 in
    let longer = append_snoc all x bs in
    let count : length (all ++ (x ∷ [])) ≡ suc (length all) =
      omega (arith, length-append all (x ∷ [])) in
    let (h, q, b) =
      appends-Appended bs (all ++ (x ∷ [])) rest g' a.represented (subst Distinct (sym longer) d)
        w.1 (omega (arith, count, m)) a.left in
    (
      h,
      rw p (ap (λ k. appends (length bs) k g') (sym count) ∙ q),
      record {
        represented = subst (Represents h.inode h.device) longer b.represented;
        left = b.left;
        size_kept = b.size_kept ∙ a.size_kept;
        type_kept = b.type_kept ∙ a.type_kept;
        only = λ c n.
            subst (λ l. OnlyIndices l g'.device h.device) longer b.only c n
            ∙ subst (λ l. OnlyIndices l g.device g'.device) longer
                (OnlyIndices-append (all ++ (x ∷ [])) bs g.device g'.device a.only) c n;
      },
    )

-- An inode whose blocks are the list `all`, as many as its size asks for, grows by the distinct blocks `bs`,
-- as many as the new size asks for: `increase_size` does not panic, the inode then has the new size and
-- its blocks are `all` followed by `bs`, no block is left, and of the device only blocks of indices of the
-- inode were written.
pub increase_size_refines :
    (inode : DiskInode) (new_size : ℕ) (all bs : List ℕ) (device : ℕ → List ℕ)
    → Represents inode device all
    → length all ≡ with_indices (blocks_of inode.size)
    → Distinct (all ++ bs)
    → All (λ x. x < 2 ^ 32) bs
    → inode.size ≤ new_size
    → blocks_of new_size ≤ max_blocks
    → length all + length bs ≡ with_indices (blocks_of new_size)
    → (g : Growth) × (increase_size inode new_size bs device ≡ done g)
      × Represents g.inode g.device (all ++ bs)
      × (g.inode.size ≡ new_size)
      × (g.inode.type_ ≡ inode.type_)
      × (g.new_blocks ≡ [])
      × OnlyIndices (all ++ bs) device g.device
increase_size_refines inode new_size all bs device r l d w h m n =
    let resized : DiskInode = record inode { size = new_size } in
    let g : Growth = record { inode = resized; device = device; new_blocks = bs } in
    let kept : Represents resized device all = record {
      held = λ s x i e. r.held s x i e;
      directs = r.directs;
      blocks = r.blocks;
    } in
    let (g', p, a) =
      appends-Appended bs all [] g kept d w (ground (arith, m, n)) (sym (append_nil bs)) in
    (
      g',
      increase_size-appends inode new_size bs device (length bs) h m (omega (arith, l, n))
          ∙ ap (λ q. appends (length bs) q g) (sym l)
          ∙ p,
      a.represented,
      a.size_kept,
      a.type_kept,
      a.left,
      a.only,
    )
