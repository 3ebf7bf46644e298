-- ===== src/EasyFs/Layout/Increase/Appends.antt =====
-- The assignments of `increase_size`, one after the other.
use r_core_tutorial_v3_arm.Base.{
  ℕ, ◌+◌, ◌*◌, ◌^◌, ◌<◌, ◌≡◌, refl, ap, ◌∙◌, inl, inr, true, some, List, [], ◌∷◌, ◌++◌, arith, ◌==◌,
  ==_iff, Bool-cases, length, get_elem?, set, Distinct, done, ◌>>=◌,
}
use r_core_tutorial_v3_arm.EasyFs.Layout.{DiskInode, word}
use r_core_tutorial_v3_arm.EasyFs.Layout.Clear.{AreBlocks, get_elem?-in}
use r_core_tutorial_v3_arm.EasyFs.Layout.Increase.{
  Growth, put_direct, put_indirect1, put_indirect2, put_entry, put_leaf,
}
use r_core_tutorial_v3_arm.EasyFs.Layout.Increase.Slots.{
  Slot, direct_slot, first_slot, entry_slot, second_slot, row_slot, leaf_slot, number, IsSlot,
  Represents, with_word, put_word-done,
}
use r_core_tutorial_v3_arm.EasyFs.Layout.Increase.Append.{
  is_index, OnlyIndices, get_elem?-append, put, Names, Names-Represents, first_named, second_named,
}
use r_core_tutorial_v3_arm.EasyFs.Layout.Increase.Fields.{direct-Names, first-Names, second-Names}
use r_core_tutorial_v3_arm.EasyFs.Layout.Increase.Step.{entry-Names, row-Names, leaf-Names}

-- The blocks `bs` were appended to the list `all`, and `rest` is left.
pub record Appended (g g' : Growth) (all bs rest : List ℕ) : Type 0 where
  pub represented : Represents g'.inode g'.device (all ++ bs)
  pub left : g'.new_blocks ≡ rest
  pub size_kept : g'.inode.size ≡ g.inode.size
  pub type_kept : g'.inode.type_ ≡ g.inode.type_
  pub only : OnlyIndices (all ++ bs) g.device g'.device

pub OnlyIndices-append :
    (all bs : List ℕ) (before after : ℕ → List ℕ)
    → OnlyIndices all before after
    → OnlyIndices (all ++ bs) before after
OnlyIndices-append all bs before after o b n =
    o b (λ s i h e. n s i h (get_elem?-append all bs (number s) b e))

OnlyIndices-with_word :
    (all : List ℕ) (device : ℕ → List ℕ) (s : Slot) (id i v : ℕ)
    → is_index s ≡ true
    → IsSlot s
    → get_elem? all (number s) ≡ some id
    → OnlyIndices all device (with_word device id i v)
OnlyIndices-with_word all device s id i v t h e b n = elim (Bool-cases (id == b)) [
  | inr d ↦ rw d
  | inl y ↦ absurd (n s t h (e ∙ ap some ((==_iff id b).0 y)))
]

put_direct-done :
    (g : Growth) (i x : ℕ) (xs : List ℕ)
    → g.new_blocks ≡ x ∷ xs
    → i < length g.inode.direct
    → put_direct i g
      ≡ done
          (record g { inode = record g.inode { direct = set g.inode.direct i x }; new_blocks = xs })
unfolding put_direct
put_direct-done g i x xs e h = ground (arith, e, h)

put_indirect1-done :
    (g : Growth) (x : ℕ) (xs : List ℕ)
    → g.new_blocks ≡ x ∷ xs
    → put_indirect1 g
      ≡ done (record g { inode = record g.inode { indirect1 = x }; new_blocks = xs })
unfolding put_indirect1
put_indirect1-done g x xs e = rw e

put_indirect2-done :
    (g : Growth) (x : ℕ) (xs : List ℕ)
    → g.new_blocks ≡ x ∷ xs
    → put_indirect2 g
      ≡ done (record g { inode = record g.inode { indirect2 = x }; new_blocks = xs })
unfolding put_indirect2
put_indirect2-done g x xs e = rw e

put_entry-done :
    (g : Growth) (id i x : ℕ) (xs : List ℕ)
    → AreBlocks g.device
    → g.new_blocks ≡ x ∷ xs
    → i < 128
    → put_entry id i g ≡ done (record g { device = with_word g.device id i x; new_blocks = xs })
unfolding put_entry
put_entry-done g id i x xs blocks e h = rw e (
    ap (λ m. m >>= λ device. done (record g { device = device; new_blocks = xs }))
      (put_word-done g.device id i x blocks h))

put_leaf-done :
    (g : Growth) (a b z x : ℕ) (xs : List ℕ)
    → AreBlocks g.device
    → word g.device g.inode.indirect2 a ≡ done z
    → g.new_blocks ≡ x ∷ xs
    → b < 128
    → put_leaf a b g ≡ done (record g { device = with_word g.device z b x; new_blocks = xs })
unfolding put_leaf
put_leaf-done g a b z x xs blocks w e h = rw w (put_entry-done g z b x xs blocks e h)

-- One assignment.
pub put-Appended :
    (s : Slot) (g : Growth) (all : List ℕ) (x : ℕ) (xs : List ℕ)
    → Represents g.inode g.device all
    → Distinct all
    → IsSlot s
    → number s ≡ length all
    → g.new_blocks ≡ x ∷ xs
    → x < 2 ^ 32
    → (g' : Growth) × (put s g ≡ done g') × Appended g g' all (x ∷ []) xs
put-Appended s g all x xs r d h l e v = by_slot s h l
  where
    appended :
        (s : Slot) (inode : DiskInode) (device : ℕ → List ℕ)
        → IsSlot s
        → number s ≡ length all
        → inode.size ≡ g.inode.size
        → inode.type_ ≡ g.inode.type_
        → OnlyIndices all g.device device
        → Names inode device all s x
        → Appended g (record { inode = inode; device = device; new_blocks = xs }) all (x ∷ []) xs
    appended s inode device h l p q o n = record {
      represented = Names-Represents inode device all s x h l n;
      left = refl;
      size_kept = p;
      type_kept = q;
      only = OnlyIndices-append all (x ∷ []) g.device device o;
    }

    by_slot :
        (s : Slot)
        → IsSlot s
        → number s ≡ length all
        → (g' : Growth) × (put s g ≡ done g') × Appended g g' all (x ∷ []) xs
    by_slot (direct_slot i) h l = (
      _,
      put_direct-done g i x xs e (omega (arith, h, r.directs)),
      appended (direct_slot i) (record g.inode { direct = set g.inode.direct i x }) g.device h l
          refl refl (λ b n. refl) (direct-Names g.inode g.device all i x r h l),
    )
    by_slot first_slot h l = (
      _,
      put_indirect1-done g x xs e,
      appended first_slot (record g.inode { indirect1 = x }) g.device h l refl refl (λ b n. refl)
          (first-Names g.inode g.device all x r l),
    )
    by_slot (entry_slot i) h l = (
      _,
      put_entry-done g g.inode.indirect1 i x xs r.blocks e h,
      appended (entry_slot i) g.inode (with_word g.device g.inode.indirect1 i x) h l refl refl
          (OnlyIndices-with_word all g.device first_slot g.inode.indirect1 i x refl tt
            (first_named g.inode g.device all r (omega (arith, l))))
          (entry-Names g.inode g.device all i x r h v l),
    )
    by_slot second_slot h l = (
      _,
      put_indirect2-done g x xs e,
      appended second_slot (record g.inode { indirect2 = x }) g.device h l refl refl (λ b n. refl)
          (second-Names g.inode g.device all x r l),
    )
    by_slot (row_slot a) h l = (
      _,
      put_entry-done g g.inode.indirect2 a x xs r.blocks e h,
      appended (row_slot a) g.inode (with_word g.device g.inode.indirect2 a x) h l refl refl
          (OnlyIndices-with_word all g.device second_slot g.inode.indirect2 a x refl tt
            (second_named g.inode g.device all r (omega (arith, l))))
          (row-Names g.inode g.device all a x r d h v l),
    )
    by_slot (leaf_slot a b) h l =
        let (z, f) = get_elem?-in all (158 + 129 * a) (omega (arith, l)) in
        (
          _,
          put_leaf-done g a b z x xs r.blocks (r.held (row_slot a) z h.0 f) e h.1,
          appended (leaf_slot a b) g.inode (with_word g.device z b x) h l refl refl
              (OnlyIndices-with_word all g.device (row_slot a) z b x refl h.0 f)
              (leaf-Names g.inode g.device all a b z x r d h.0 h.1 v l f),
        )
