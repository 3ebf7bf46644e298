-- ===== src/EasyFs/Layout/Kept.antt =====
-- Growing a file keeps its bytes.
use r_core_tutorial_v3_arm.Base.{
  ℕ, suc, ◌+◌, ◌/◌, ◌%◌, ◌^◌, ◌≤◌, ◌<◌, ◌≡◌, refl, sym, ap, ◌∙◌, subst, List, [], ◌∷◌, ◌++◌, arith,
  eq_refl, length, get_or, length-append, All, Distinct, done,
}
use r_core_tutorial_v3_arm.EasyFs.Layout.{DiskInode, with_indices, read_at}
use r_core_tutorial_v3_arm.EasyFs.Layout.Sizes.{blocks_of}
use r_core_tutorial_v3_arm.EasyFs.Layout.Clear.{max_blocks}
use r_core_tutorial_v3_arm.EasyFs.Layout.Copy.{byte_at, IsCopy, read_at-IsCopy, get_or-append_left}
use r_core_tutorial_v3_arm.EasyFs.Layout.Increase.{Growth, increase_size}
use r_core_tutorial_v3_arm.EasyFs.Layout.Increase.Slots.{Represents, slot_of}
use r_core_tutorial_v3_arm.EasyFs.Layout.Increase.Append.{OnlyIndices}
use r_core_tutorial_v3_arm.EasyFs.Layout.Increase.Refine.{increase_size_refines}
use r_core_tutorial_v3_arm.EasyFs.Layout.Contents.{
  data_block, slot_of-bound, byte, byte_at-byte, index-data_block,
}

pub same_bytes :
    (xs ys : List ℕ)
    → length xs ≡ length ys
    → ((i : ℕ) → i < length xs → get_or xs i 0 ≡ get_or ys i 0)
    → xs ≡ ys
same_bytes [] [] l h = refl
same_bytes [] (y ∷ ys) l h = absurd (omega (arith, l))
same_bytes (x ∷ xs) [] l h = absurd (omega (arith, l))
same_bytes (x ∷ xs) (y ∷ ys) l h =
    ap (λ z. z ∷ xs) (h 0 (omega arith))
    ∙ ap (◌∷◌ y) (same_bytes xs ys (omega (arith, l)) (λ i k. h (suc i) (omega (arith, k))))

pub IsCopy-unique :
    (inode inode' : DiskInode) (device device' : ℕ → List ℕ) (start end : ℕ) (xs ys : List ℕ)
    → IsCopy inode device start end xs
    → IsCopy inode' device' start end ys
    → ((i : ℕ) → i < end → byte_at inode device i ≡ byte_at inode' device' i)
    → xs ≡ ys
IsCopy-unique inode inode' device device' start end xs ys c d h =
    same_bytes xs ys (c.full ∙ sym d.full) (λ i k.
      c.same i (omega (arith, k, c.full))
      ∙ h (start + i) (omega (arith, k, c.full))
      ∙ sym (d.same i (omega (arith, k, c.full))))

data_block-append :
    (all bs : List ℕ) (k n : ℕ)
    → k < n
    → n ≤ max_blocks
    → with_indices n ≤ length all
    → data_block (all ++ bs) k ≡ data_block all k
data_block-append all bs k n h m l =
    get_or-append_left all bs (slot_of k) (omega (arith, slot_of-bound k n h, l))

byte-append :
    (all bs : List ℕ) (device device' : ℕ → List ℕ) (i n : ℕ)
    → Distinct (all ++ bs)
    → OnlyIndices (all ++ bs) device device'
    → i / 512 < n
    → n ≤ max_blocks
    → with_indices n ≤ length all
    → byte (all ++ bs) device' i ≡ byte all device i
byte-append all bs device device' i n d o h m l =
    ap (λ b. get_or b (i % 512) 0)
      (o (data_block (all ++ bs) (i / 512)) (λ s t j e. absurd (
          grind (
            arith,
            index-data_block (all ++ bs) (i / 512) n s (data_block (all ++ bs) (i / 512)) d h
                (omega (arith, l, length-append all bs)) t j e,
            eq_refl (data_block (all ++ bs) (i / 512)),
          )))
        ∙ ap device (data_block-append all bs (i / 512) n h m l))

-- Under the conditions of `increase_size_refines`, what `read_at` copies from a range within the old
-- size is the same before and after.
pub increase_size-read_at :
    (inode : DiskInode) (new_size : ℕ) (all bs : List ℕ) (device : ℕ → List ℕ) (offset len : ℕ)
    → Represents inode device all
    → length all ≡ with_indices (blocks_of inode.size)
    → Distinct (all ++ bs)
    → All (λ x. x < 2 ^ 32) bs
    → inode.size ≤ new_size
    → blocks_of new_size ≤ max_blocks
    → length all + length bs ≡ with_indices (blocks_of new_size)
    → offset + len ≤ inode.size
    → (g : Growth) × (increase_size inode new_size bs device ≡ done g)
      × (read_at g.inode offset len g.device ≡ read_at inode offset len device)
increase_size-read_at inode new_size all bs device offset len r l d w h m n fits =
    let (g, e, r', s, t, rest, o) =
      increase_size_refines inode new_size all bs device r l d w h m n in
    let (xs, p, c) =
      read_at-IsCopy g.inode offset len g.device r'.blocks r'.directs (omega (arith, s, m)) in
    let (ys, q, c') =
      read_at-IsCopy inode offset len device r.blocks r.directs (omega (arith, h, m)) in
    let same : xs ≡ ys =
      IsCopy-unique g.inode inode g.device device offset (offset + len) xs ys
        (subst (λ z. IsCopy g.inode g.device offset z xs) (omega (arith, s, h, fits)) c)
        (subst (λ z. IsCopy inode device offset z ys) (omega (arith, fits)) c')
        (λ i k.
          byte_at-byte g.inode g.device (all ++ bs) i (blocks_of inode.size) r'
            (omega (arith, k, fits)) (omega (arith, h, m)) (omega (arith, l, length-append all bs))
          ∙ byte-append all bs device g.device i (blocks_of inode.size) d o (omega (arith, k, fits))
              (omega (arith, h, m)) (omega (arith, l))
          ∙ sym (
              byte_at-byte inode device all i (blocks_of inode.size) r (omega (arith, k, fits))
                (omega (arith, h, m)) (omega (arith, l)))) in
    (g, e, p ∙ ap done same ∙ sym q)
