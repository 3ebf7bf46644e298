-- ===== src/EasyFs/Layout/Increase/Step.antt =====
-- The assignments of `increase_size` in blocks of indices.
use r_core_tutorial_v3_arm.Base.{
  ℕ, ◌+◌, ◌*◌, ◌^◌, ◌<◌, ◌≡◌, sym, ap, ◌∙◌, ◌⊎◌, inl, inr, true, false, ◌&&◌, some, List, arith,
  ◌==◌, Bool-cases, length, get_elem?, Distinct, done, ◌>>=◌,
}
use r_core_tutorial_v3_arm.EasyFs.Layout.{DiskInode, word}
use r_core_tutorial_v3_arm.EasyFs.Layout.Clear.{get_elem?-in}
use r_core_tutorial_v3_arm.EasyFs.Layout.Increase.Slots.{
  Slot, direct_slot, first_slot, entry_slot, second_slot, row_slot, leaf_slot, read_slot, number,
  IsSlot, Represents, with_word, with_word-AreBlocks,
}
use r_core_tutorial_v3_arm.EasyFs.Layout.Increase.Append.{
  get_elem?-bound, apart, and_left, and_right, less_ne, Names, other_word, same_word, first_named,
  second_named,
}

-- An entry of a block that the second block of indices names, when another word was written.
leaf_kept :
    (inode : DiskInode) (device : ℕ → List ℕ) (all : List ℕ)
    → Represents inode device all
    → (a b id i v z y : ℕ) → a < 128
    → b < 128
    → i < 128
    → v < 2 ^ 32
    → get_elem? all (number (row_slot a)) ≡ some z
    → get_elem? all (number (leaf_slot a b)) ≡ some y
    → (id == inode.indirect2 && i == a) ≡ false
    → (id == z && i == b) ≡ false
    → read_slot inode (with_word device id i v) (leaf_slot a b) ≡ done y
leaf_kept inode device all r a b id i v z y ha hb hi hv e f p q =
    let row : word (with_word device id i v) inode.indirect2 a ≡ done z =
      other_word device id i v inode.indirect2 a r.blocks hi hv p ∙ r.held (row_slot a) z ha e in
    let leaf : word device z b ≡ done y =
      ap (λ m. m >>= λ c. word device c b) (sym (r.held (row_slot a) z ha e))
      ∙ r.held (leaf_slot a b) y (ha, hb) f in
    rw row (other_word device id i v z b r.blocks hi hv q ∙ leaf)

pub entry-Names :
    (inode : DiskInode) (device : ℕ → List ℕ) (all : List ℕ) (i x : ℕ)
    → Represents inode device all
    → i < 128
    → x < 2 ^ 32
    → 29 + i ≡ length all
    → Names inode (with_word device inode.indirect1 i x) all (entry_slot i) x
entry-Names inode device all i x r h v l = record {
  kept = kept_slot;
  named = same_word device inode.indirect1 i x r.blocks h v;
  room = r.directs;
  whole = with_word-AreBlocks device inode.indirect1 i x r.blocks;
}
  where
    kept_slot :
        (t : Slot) (y : ℕ)
        → IsSlot t
        → get_elem? all (number t) ≡ some y
        → read_slot inode (with_word device inode.indirect1 i x) t ≡ done y
    kept_slot (direct_slot j) y k e = r.held (direct_slot j) y k e
    kept_slot first_slot y k e = r.held first_slot y k e
    kept_slot (entry_slot j) y k e =
        other_word device inode.indirect1 i x inode.indirect1 j r.blocks h v (
          and_right (inode.indirect1 == inode.indirect1) (i == j)
            (less_ne j i (omega (arith, l, get_elem?-bound all (29 + j) y e))))
        ∙ r.held (entry_slot j) y k e
    kept_slot second_slot y k e = r.held second_slot y k e
    kept_slot (row_slot a) y k e =
        absurd (omega (arith, h, l, get_elem?-bound all (158 + 129 * a) y e))
    kept_slot (leaf_slot a b) y k e =
        absurd (omega (arith, h, l, get_elem?-bound all (159 + 129 * a + b) y e))

pub row-Names :
    (inode : DiskInode) (device : ℕ → List ℕ) (all : List ℕ) (a x : ℕ)
    → Represents inode device all
    → Distinct all
    → a < 128
    → x < 2 ^ 32
    → 158 + 129 * a ≡ length all
    → Names inode (with_word device inode.indirect2 a x) all (row_slot a) x
row-Names inode device all a x r d h v l = record {
  kept = kept_slot;
  named = same_word device inode.indirect2 a x r.blocks h v;
  room = r.directs;
  whole = with_word-AreBlocks device inode.indirect2 a x r.blocks;
}
  where
    other_row :
        (c : ℕ)
        → 158 + 129 * c < length all
        → (inode.indirect2 == inode.indirect2 && a == c) ≡ false
    other_row c k =
        and_right (inode.indirect2 == inode.indirect2) (a == c) (less_ne c a (omega (arith, l, k)))

    kept_slot :
        (t : Slot) (y : ℕ)
        → IsSlot t
        → get_elem? all (number t) ≡ some y
        → read_slot inode (with_word device inode.indirect2 a x) t ≡ done y
    kept_slot (direct_slot j) y k e = r.held (direct_slot j) y k e
    kept_slot first_slot y k e = r.held first_slot y k e
    kept_slot (entry_slot j) y k e =
        other_word device inode.indirect2 a x inode.indirect1 j r.blocks h v (
          and_left (inode.indirect2 == inode.indirect1) (a == j) (
            apart all 157 28 inode.indirect2 inode.indirect1 d
              (second_named inode device all r (omega (arith, l)))
              (first_named inode device all r (omega (arith, l))) (λ q. absurd (omega (arith, q)))))
        ∙ r.held (entry_slot j) y k e
    kept_slot second_slot y k e = r.held second_slot y k e
    kept_slot (row_slot c) y k e =
        other_word device inode.indirect2 a x inode.indirect2 c r.blocks h v
          (other_row c (get_elem?-bound all (158 + 129 * c) y e))
        ∙ r.held (row_slot c) y k e
    kept_slot (leaf_slot c b) y k e =
        let (z, f) =
          get_elem?-in all (158 + 129 * c)
            (omega (arith, get_elem?-bound all (159 + 129 * c + b) y e)) in
        leaf_kept inode device all r c b inode.indirect2 a x z y k.0 k.1 h v f e
          (other_row c (get_elem?-bound all (158 + 129 * c) z f))
          (and_left (inode.indirect2 == z) (a == b) (
            apart all 157 (158 + 129 * c) inode.indirect2 z d
              (second_named inode device all r (omega (arith, l))) f
              (λ q. absurd (omega (arith, q)))))

pub leaf-Names :
    (inode : DiskInode) (device : ℕ → List ℕ) (all : List ℕ) (a b z x : ℕ)
    → Represents inode device all
    → Distinct all
    → a < 128
    → b < 128
    → x < 2 ^ 32
    → 159 + 129 * a + b ≡ length all
    → get_elem? all (158 + 129 * a) ≡ some z
    → Names inode (with_word device z b x) all (leaf_slot a b) x
leaf-Names inode device all a b z x r d ha hb v l f = record {
  kept = kept_slot;
  named = rw (other_row a ∙ r.held (row_slot a) z ha f) (same_word device z b x r.blocks hb v);
  room = r.directs;
  whole = with_word-AreBlocks device z b x r.blocks;
}
  where
    second_apart : (c : ℕ) → (z == inode.indirect2 && b == c) ≡ false
    second_apart c = and_left (z == inode.indirect2) (b == c) (
        apart all (158 + 129 * a) 157 z inode.indirect2 d f
          (second_named inode device all r (omega (arith, l))) (λ q. absurd (omega (arith, q))))

    other_row :
        (c : ℕ) → word (with_word device z b x) inode.indirect2 c ≡ word device inode.indirect2 c
    other_row c = other_word device z b x inode.indirect2 c r.blocks hb v (second_apart c)

    other_leaf :
        (c e w : ℕ)
        → 159 + 129 * c + e < length all
        → get_elem? all (158 + 129 * c) ≡ some w
        → ((c == a) ≡ true) ⊎ ((c == a) ≡ false)
        → (z == w && b == e) ≡ false
    other_leaf c e w k g (inl y) =
        and_right (z == w) (b == e) (less_ne e b (ground (arith, l, k, y)))
    other_leaf c e w k g (inr n) =
        and_left (z == w) (b == e)
          (apart all (158 + 129 * a) (158 + 129 * c) z w d f g (λ q. absurd (ground (arith, n, q))))

    kept_slot :
        (t : Slot) (y : ℕ)
        → IsSlot t
        → get_elem? all (number t) ≡ some y
        → read_slot inode (with_word device z b x) t ≡ done y
    kept_slot (direct_slot j) y k e = r.held (direct_slot j) y k e
    kept_slot first_slot y k e = r.held first_slot y k e
    kept_slot (entry_slot j) y k e =
        other_word device z b x inode.indirect1 j r.blocks hb v (
          and_left (z == inode.indirect1) (b == j) (
            apart all (158 + 129 * a) 28 z inode.indirect1 d f
              (first_named inode device all r (omega (arith, l))) (λ q. absurd (omega (arith, q)))))
        ∙ r.held (entry_slot j) y k e
    kept_slot second_slot y k e = r.held second_slot y k e
    kept_slot (row_slot c) y k e = other_row c ∙ r.held (row_slot c) y k e
    kept_slot (leaf_slot c e) y k g =
        let n = get_elem?-bound all (159 + 129 * c + e) y g in
        let (w, m) = get_elem?-in all (158 + 129 * c) (omega (arith, n)) in
        leaf_kept inode device all r c e z b x w y k.0 k.1 hb v m g (second_apart c)
          (other_leaf c e w n m (Bool-cases (c == a)))
