-- ===== src/EasyFs/Layout/Increase/Append.antt =====
-- One assignment of `increase_size` in the list of an inode's blocks: it puts the next block at the end.
use r_core_tutorial_v3_arm.Base.{
  ℕ, zero, suc, ◌^◌, ◌<◌, ◌≡◌, refl, sym, ap, ◌∙◌, ◌≢◌, ◌⊎◌, inl, inr, Bool, true, false, ◌&&◌,
  some, List, [], ◌∷◌, ◌++◌, arith, ◌==◌, ==_iff, eq_refl, Bool-cases, length, get_elem?, contains,
  Distinct, Run, done, unwrap, done-injective,
}
use r_core_tutorial_v3_arm.EasyFs.Layout.{DiskInode, word}
use r_core_tutorial_v3_arm.EasyFs.Layout.Clear.{AreBlocks, get_elem?-in}
use r_core_tutorial_v3_arm.EasyFs.Layout.Increase.{
  Growth, put_direct, put_indirect1, put_indirect2, put_entry, put_leaf,
}
use r_core_tutorial_v3_arm.EasyFs.Layout.Increase.Slots.{
  Slot, direct_slot, first_slot, entry_slot, second_slot, row_slot, leaf_slot, read_slot, number,
  IsSlot, slot, slot-number, Represents, with_word, word-with_word,
}

-- A slot that names a block of indices.
abbrev pub is_index : Slot → Bool
is_index first_slot = true
is_index second_slot = true
is_index (row_slot a) = true
is_index _ = false

-- Nothing but the blocks of indices of the list was written.
abbrev pub OnlyIndices : List ℕ → (ℕ → List ℕ) → (ℕ → List ℕ) → Type 0
OnlyIndices all before after =
    (b : ℕ)
    → ((s : Slot) → is_index s ≡ true → IsSlot s → get_elem? all (number s) ≢ some b)
    → after b ≡ before b

pub get_elem?-bound : (xs : List ℕ) (p x : ℕ) → get_elem? xs p ≡ some x → p < length xs
get_elem?-bound [] p x e = absurd (grind (arith, e))
get_elem?-bound (y ∷ xs) zero x e = omega arith
get_elem?-bound (y ∷ xs) (suc p) x e = omega (arith, get_elem?-bound xs p x e)

pub get_elem?-append :
    (xs ys : List ℕ) (p x : ℕ) → get_elem? xs p ≡ some x → get_elem? (xs ++ ys) p ≡ some x
get_elem?-append [] ys p x e = absurd (grind (arith, e))
get_elem?-append (y ∷ xs) ys zero x e = e
get_elem?-append (y ∷ xs) ys (suc p) x e = get_elem?-append xs ys p x e

pub get_elem?-snoc :
    (xs : List ℕ) (x p y : ℕ)
    → get_elem? (xs ++ (x ∷ [])) p ≡ some y
    → (get_elem? xs p ≡ some y) ⊎ ((p ≡ length xs) × (some x ≡ some y))
get_elem?-snoc [] x zero y e = inr (refl, e)
get_elem?-snoc [] x (suc p) y e = inl e
get_elem?-snoc (z ∷ xs) x zero y e = inl e
get_elem?-snoc (z ∷ xs) x (suc p) y e = elim (get_elem?-snoc xs x p y e) [
  | inl f ↦ inl f
  | inr (f, g) ↦ inr (ap suc f, g)
]

pub get_elem?-contains : (xs : List ℕ) (p x : ℕ) → get_elem? xs p ≡ some x → contains xs x ≡ true
get_elem?-contains [] p x e = absurd (grind (arith, e))
get_elem?-contains (y ∷ xs) zero x e = grind (arith, e, eq_refl x)
get_elem?-contains (y ∷ xs) (suc p) x e = ground (arith, get_elem?-contains xs p x e)

-- A block stands at one place of a list without repetitions.
pub place_unique :
    (xs : List ℕ) (i j x : ℕ)
    → Distinct xs
    → get_elem? xs i ≡ some x
    → get_elem? xs j ≡ some x
    → i ≡ j
place_unique [] i j x d e f = absurd (grind (arith, e))
place_unique (y ∷ xs) zero zero x d e f = refl
place_unique (y ∷ xs) zero (suc j) x d e f =
    absurd (grind (arith, d.0, e, get_elem?-contains xs j x f))
place_unique (y ∷ xs) (suc i) zero x d e f =
    absurd (grind (arith, d.0, f, get_elem?-contains xs i x e))
place_unique (y ∷ xs) (suc i) (suc j) x d e f = ap suc (place_unique xs i j x d.1 e f)

pub apart :
    (xs : List ℕ) (i j x y : ℕ)
    → Distinct xs
    → get_elem? xs i ≡ some x
    → get_elem? xs j ≡ some y
    → i ≢ j
    → (x == y) ≡ false
apart xs i j x y d e f n = elim (Bool-cases (x == y)) [
  | inr h ↦ h
  | inl h ↦ absurd (n (place_unique xs i j x d e (f ∙ ap some (sym ((==_iff x y).0 h)))))
]

pub and_left : (p q : Bool) → p ≡ false → (p && q) ≡ false
and_left p q e = rw e

pub and_right : (p q : Bool) → q ≡ false → (p && q) ≡ false
and_right true q e = e
and_right false q e = refl

pub less_ne : (i j : ℕ) → i < j → (j == i) ≡ false
less_ne i j h = ground (arith, h)

-- The assignment of a slot.
abbrev pub put : Slot → Growth → Run Growth
put (direct_slot i) g = put_direct i g
put first_slot g = put_indirect1 g
put (entry_slot i) g = put_entry g.inode.indirect1 i g
put second_slot g = put_indirect2 g
put (row_slot a) g = put_entry g.inode.indirect2 a g
put (leaf_slot a b) g = put_leaf a b g

-- What was named before is named still, and the new block is named in slot `s`.
pub record Names (inode : DiskInode) (device : ℕ → List ℕ) (all : List ℕ) (s : Slot) (x : ℕ)
    : Type 0 where
  pub kept :
      (t : Slot) (y : ℕ)
      → IsSlot t
      → get_elem? all (number t) ≡ some y
      → read_slot inode device t ≡ done y
  pub named : read_slot inode device s ≡ done x
  pub room : length inode.direct ≡ 28
  pub whole : AreBlocks device

pub Names-Represents :
    (inode : DiskInode) (device : ℕ → List ℕ) (all : List ℕ) (s : Slot) (x : ℕ)
    → IsSlot s
    → number s ≡ length all
    → Names inode device all s x
    → Represents inode device (all ++ (x ∷ []))
Names-Represents inode device all s x h e n = record {
  held = λ t y i f. by_place t y i (get_elem?-snoc all x (number t) y f);
  directs = n.room;
  blocks = n.whole;
}
  where
    by_place :
        (t : Slot) (y : ℕ)
        → IsSlot t
        → (get_elem? all (number t) ≡ some y) ⊎ ((number t ≡ length all) × (some x ≡ some y))
        → read_slot inode device t ≡ done y
    by_place t y i (inl f) = n.kept t y i f
    by_place t y i (inr (p, q)) =
        ap (read_slot inode device) (sym (slot-number t i) ∙ ap slot (p ∙ sym e) ∙ slot-number s h)
        ∙ n.named
        ∙ ap unwrap q

-- A word that another one than the written one keeps its value.
pub other_word :
    (device : ℕ → List ℕ) (id i v b j : ℕ)
    → AreBlocks device
    → i < 128
    → v < 2 ^ 32
    → (id == b && i == j) ≡ false
    → word (with_word device id i v) b j ≡ word device b j
other_word device id i v b j blocks h small e =
    word-with_word device id i v b j blocks h small ∙ rw e

pub same_word :
    (device : ℕ → List ℕ) (id i v : ℕ)
    → AreBlocks device
    → i < 128
    → v < 2 ^ 32
    → word (with_word device id i v) id i ≡ done v
same_word device id i v blocks h small =
    word-with_word device id i v id i blocks h small ∙ rw (eq_refl id, eq_refl i)

pub done_value : (x y : ℕ) → done x ≡ done y → x ≡ y
done_value x y e = done-injective e

module _ (inode : DiskInode) (device : ℕ → List ℕ) (all : List ℕ)
    (r : Represents inode device all) where
  pub first_named : 28 < length all → get_elem? all 28 ≡ some inode.indirect1
  first_named h =
      let (x, e) = get_elem?-in all 28 h in
      e ∙ ap some (sym (done_value inode.indirect1 x (r.held first_slot x tt e)))

  pub second_named : 157 < length all → get_elem? all 157 ≡ some inode.indirect2
  second_named h =
      let (x, e) = get_elem?-in all 157 h in
      e ∙ ap some (sym (done_value inode.indirect2 x (r.held second_slot x tt e)))
