-- ===== src/EasyFs/Layout/Write/Written.antt =====
-- What `write_at` does to the bytes of the file.
use r_core_tutorial_v3_arm.Base.{
  ℕ, zero, suc, ◌+◌, ◌-◌, ◌*◌, ◌≤◌, ◌<◌, ◌≡◌, refl, sym, ap, ◌∙◌, ◌⊎◌, inl, inr, true, false, some,
  List, [], ◌∷◌, arith, ◌==◌, length, get_elem?, get_or, Distinct, done, ◌>>=◌, unwrap,
}
use r_core_tutorial_v3_arm.EasyFs.Layout.{DiskInode, with_indices, as_words, word}
use r_core_tutorial_v3_arm.EasyFs.Layout.Clear.{AreBlocks, get_elem?-in}
use r_core_tutorial_v3_arm.EasyFs.Layout.Copy.{same_place}
use r_core_tutorial_v3_arm.EasyFs.Layout.Increase.Slots.{
  Slot, direct_slot, first_slot, entry_slot, second_slot, row_slot, leaf_slot, IsSlot, number,
  read_slot, Represents,
}
use r_core_tutorial_v3_arm.EasyFs.Layout.Increase.Append.{
  is_index, get_elem?-bound, first_named, second_named,
}
use r_core_tutorial_v3_arm.EasyFs.Layout.Contents.{data_block, index-data_block}
use r_core_tutorial_v3_arm.EasyFs.Layout.Write.{copy_from_slice}

pub length-copy_from_slice :
    (from : ℕ) (src dst : List ℕ) → length (copy_from_slice from src dst) ≡ length dst
length-copy_from_slice from src [] = refl
length-copy_from_slice zero [] (b ∷ dst) = refl
length-copy_from_slice zero (x ∷ src) (b ∷ dst) = ap suc (length-copy_from_slice zero src dst)
length-copy_from_slice (suc from) src (b ∷ dst) = ap suc (length-copy_from_slice from src dst)

pub get_or-copied :
    (from : ℕ) (src dst : List ℕ) (i : ℕ)
    → from ≤ i
    → i < from + length src
    → from + length src ≤ length dst
    → get_or (copy_from_slice from src dst) i 0 ≡ get_or src (i - from) 0
get_or-copied from src [] i g h l = absurd (omega (arith, h, l))
get_or-copied zero [] (b ∷ dst) i g h l = absurd (omega (arith, h))
get_or-copied zero (x ∷ src) (b ∷ dst) zero g h l = refl
get_or-copied zero (x ∷ src) (b ∷ dst) (suc i) g h l =
    get_or-copied zero src dst i (omega arith) (omega (arith, h)) (omega (arith, l))
    ∙ same_place (x ∷ src) (suc (i - 0)) (suc i - 0) (omega arith)
get_or-copied (suc from) src (b ∷ dst) zero g h l = absurd (omega (arith, g))
get_or-copied (suc from) src (b ∷ dst) (suc i) g h l =
    get_or-copied from src dst i (omega (arith, g)) (omega (arith, h)) (omega (arith, l))
    ∙ same_place src (i - from) (suc i - suc from) (omega arith)

pub get_or-around :
    (from : ℕ) (src dst : List ℕ) (i : ℕ)
    → (i < from) ⊎ (from + length src ≤ i)
    → get_or (copy_from_slice from src dst) i 0 ≡ get_or dst i 0
get_or-around from src [] i h = refl
get_or-around zero [] (b ∷ dst) i h = refl
get_or-around zero (x ∷ src) (b ∷ dst) zero (inl h) = absurd (omega (arith, h))
get_or-around zero (x ∷ src) (b ∷ dst) zero (inr h) = absurd (omega (arith, h))
get_or-around zero (x ∷ src) (b ∷ dst) (suc i) (inl h) = absurd (omega (arith, h))
get_or-around zero (x ∷ src) (b ∷ dst) (suc i) (inr h) =
    get_or-around zero src dst i (inr (omega (arith, h)))
get_or-around (suc from) src (b ∷ dst) zero h = refl
get_or-around (suc from) src (b ∷ dst) (suc i) (inl h) =
    get_or-around from src dst i (inl (omega (arith, h)))
get_or-around (suc from) src (b ∷ dst) (suc i) (inr h) =
    get_or-around from src dst i (inr (omega (arith, h)))

-- A write to a block of data leaves the inode's list.
pub Represents-data :
    (inode : DiskInode) (device device' : ℕ → List ℕ) (all : List ℕ) (k n : ℕ)
    → Represents inode device all
    → Distinct all
    → k < n
    → with_indices n ≤ length all
    → AreBlocks device'
    → ((b : ℕ) → (data_block all k == b) ≡ false → device' b ≡ device b)
    → Represents inode device' all
Represents-data inode device device' all k n r d h l blocks same = record {
  held = held;
  directs = r.directs;
  blocks = blocks;
}
  where
    same_word :
        (s : Slot) (x i : ℕ)
        → is_index s ≡ true
        → IsSlot s
        → get_elem? all (number s) ≡ some x
        → word device' x i ≡ word device x i
    same_word s x i t j e =
        ap (λ bytes. unwrap (get_elem? (as_words bytes) i))
          (same x (index-data_block all k n s x d h l t j e))

    held :
        (s : Slot) (x : ℕ)
        → IsSlot s
        → get_elem? all (number s) ≡ some x
        → read_slot inode device' s ≡ done x
    held (direct_slot i) x j e = r.held (direct_slot i) x j e
    held first_slot x j e = r.held first_slot x j e
    held (entry_slot i) x j e =
        same_word first_slot inode.indirect1 i refl tt
          (first_named inode device all r (omega (arith, get_elem?-bound all (29 + i) x e)))
        ∙ r.held (entry_slot i) x j e
    held second_slot x j e = r.held second_slot x j e
    held (row_slot a) x j e =
        same_word second_slot inode.indirect2 a refl tt
          (second_named inode device all r (omega (arith, get_elem?-bound all (158 + 129 * a) x e)))
        ∙ r.held (row_slot a) x j e
    held (leaf_slot a b) x j e =
        let bound = get_elem?-bound all (159 + 129 * a + b) x e in
        let (z, f) = get_elem?-in all (158 + 129 * a) (omega (arith, bound)) in
        let row : word device' inode.indirect2 a ≡ word device inode.indirect2 a =
          same_word second_slot inode.indirect2 a refl tt
            (second_named inode device all r (omega (arith, bound))) in
        let old : word device inode.indirect2 a ≡ done z = r.held (row_slot a) z j.0 f in
        let leaf : word device z b ≡ done x =
          ap (λ m. m >>= λ id. word device id b) (sym old) ∙ r.held (leaf_slot a b) x j e in
        rw (row ∙ old) (same_word (row_slot a) z b refl j.0 f ∙ leaf)
