-- ===== src/EasyFs/Layout/Tests.antt =====
-- Inodes of two and of a few hundred blocks.
use r_core_tutorial_v3_arm.Base.{
  ℕ, ◌+◌, ◌*◌, ◌≤◌, ◌≡◌, refl, ap, ◌∙◌, some, List, [], ◌∷◌, ◌++◌, arith, length, get_elem?,
  replicate, length-replicate, Distinct, done, unwrap,
}
use r_core_tutorial_v3_arm.EasyFs.Layout.{DiskInode, file, get_block_id, read_at}
use r_core_tutorial_v3_arm.EasyFs.Layout.Clear.{AreBlocks}
use r_core_tutorial_v3_arm.EasyFs.Layout.Copy.{IsCopy, read_at-IsCopy}
use r_core_tutorial_v3_arm.EasyFs.Layout.Increase.{Growth, increase_size}
use r_core_tutorial_v3_arm.EasyFs.Layout.Increase.Slots.{
  Slot, direct_slot, first_slot, entry_slot, second_slot, row_slot, leaf_slot, IsSlot, number,
  read_slot, Represents,
}
use r_core_tutorial_v3_arm.EasyFs.Layout.Increase.Append.{
  OnlyIndices, get_elem?-bound, get_elem?-append,
}
use r_core_tutorial_v3_arm.EasyFs.Layout.Increase.Refine.{increase_size_refines}
use r_core_tutorial_v3_arm.EasyFs.Layout.Kept.{increase_size-read_at}
use r_core_tutorial_v3_arm.EasyFs.Layout.{clear_size, total_blocks}
use r_core_tutorial_v3_arm.EasyFs.Layout.Released.{cleared, clear_size-released}
use r_core_tutorial_v3_arm.EasyFs.Layout.Write.{write_at}
use r_core_tutorial_v3_arm.EasyFs.Layout.Write.Round.{IsWritten}
use r_core_tutorial_v3_arm.EasyFs.Layout.Write.Loop.{wrote}
use r_core_tutorial_v3_arm.EasyFs.Layout.Write.Refine.{write_at-IsWritten, write_at-read_at}

abbrev two_blocks : DiskInode
two_blocks = record {
  size = 1000;
  direct = 3 ∷ (4 ∷ replicate 26 0);
  indirect1 = 0;
  indirect2 = 0;
  type_ = file;
}

abbrev many_blocks : DiskInode
many_blocks = record {
  size = 150000;
  direct = replicate 28 9;
  indirect1 = 5;
  indirect2 = 6;
  type_ = file;
}

-- Each block holds its own number.
abbrev numbered : ℕ → List ℕ
numbered i = replicate 512 i

numbered-AreBlocks : AreBlocks numbered
numbered-AreBlocks i = length-replicate 512 i

read_at-boundary : read_at two_blocks 510 4 numbered ≡ done (3 ∷ 3 ∷ 4 ∷ 4 ∷ [])
unfolding read_at get_block_id
read_at-boundary = refl

read_at-end : read_at two_blocks 998 4 numbered ≡ done (4 ∷ 4 ∷ [])
unfolding read_at get_block_id
read_at-end = refl

read_at-IsCopy_example :
    (bytes : List ℕ) × (read_at two_blocks 510 4 numbered ≡ done bytes)
    × IsCopy two_blocks numbered 510 514 bytes
read_at-IsCopy_example =
    read_at-IsCopy two_blocks 510 4 numbered numbered-AreBlocks refl (omega arith)

-- A file of 28 full blocks, and the two blocks with which it grows by one more.
abbrev full_directs : List ℕ
full_directs =
    1
    ∷ (2
        ∷ (3
            ∷ (4
                ∷ (5
                    ∷ (6
                        ∷ (7
                            ∷ (8
                                ∷ (9
                                    ∷ (10
                                        ∷ (11
                                            ∷ (12
                                                ∷ (13
                                                    ∷ (14
                                                        ∷ (15
                                                            ∷ (16
                                                            ∷ (17
                                                            ∷ (18
                                                            ∷ (19
                                                            ∷ (20
                                                            ∷ (21
                                                            ∷ (22
                                                            ∷ (23
                                                            ∷ (24
                                                            ∷ (25
                                                            ∷ (26
                                                            ∷ (27
                                                            ∷ (28 ∷ [])))))))))))))))))))))))))))

abbrev full_file : DiskInode
full_file = record {
  size = 14336;
  direct = full_directs;
  indirect1 = 0;
  indirect2 = 0;
  type_ = file;
}

abbrev two_new : List ℕ
two_new = 40 ∷ (41 ∷ [])

-- An inode without blocks of indices represents the first of its direct entries.
directs-Represents :
    (inode : DiskInode) (device : ℕ → List ℕ) (all others : List ℕ)
    → inode.direct ≡ all ++ others
    → length all ≤ 28
    → length inode.direct ≡ 28
    → AreBlocks device
    → Represents inode device all
directs-Represents inode device all others e few d blocks = record {
  held = held;
  directs = d;
  blocks = blocks;
}
  where
    held :
        (s : Slot) (x : ℕ)
        → IsSlot s
        → get_elem? all (number s) ≡ some x
        → read_slot inode device s ≡ done x
    held (direct_slot i) x h f =
        ap (λ l. unwrap (get_elem? l i)) e ∙ ap unwrap (get_elem?-append all others i x f)
    held first_slot x h f = absurd (omega (arith, few, get_elem?-bound all 28 x f))
    held (entry_slot i) x h f = absurd (omega (arith, few, get_elem?-bound all (29 + i) x f))
    held second_slot x h f = absurd (omega (arith, few, get_elem?-bound all 157 x f))
    held (row_slot a) x h f = absurd (omega (arith, few, get_elem?-bound all (158 + 129 * a) x f))
    held (leaf_slot a b) x h f =
        absurd (omega (arith, few, get_elem?-bound all (159 + 129 * a + b) x f))

full_file-Represents : Represents full_file numbered full_directs
full_file-Represents =
    directs-Represents full_file numbered full_directs [] refl (omega arith) refl numbered-AreBlocks

two_blocks-Represents : Represents two_blocks numbered (3 ∷ (4 ∷ []))
two_blocks-Represents =
    directs-Represents two_blocks numbered (3 ∷ (4 ∷ [])) (replicate 26 0) refl (omega arith) refl
      numbered-AreBlocks

grown-Distinct : Distinct (full_directs ++ two_new)
grown-Distinct = (
  refl,
  (
    refl,
    (
      refl,
      (
        refl,
        (
          refl,
          (
            refl,
            (
              refl,
              (
                refl,
                (
                  refl,
                  (
                    refl,
                    (
                      refl,
                      (
                        refl,
                        (
                          refl,
                          (
                            refl,
                            (
                              refl,
                              (
                                refl,
                                (
                                  refl,
                                  (
                                    refl,
                                    (
                                      refl,
                                      (
                                        refl,
                                        (
                                          refl,
                                          (
                                            refl,
                                            (
                                              refl,
                                              (
                                                refl,
                                                (refl, (refl, (refl, (refl, (refl, (refl, tt)))))),
                                              ),
                                            ),
                                          ),
                                        ),
                                      ),
                                    ),
                                  ),
                                ),
                              ),
                            ),
                          ),
                        ),
                      ),
                    ),
                  ),
                ),
              ),
            ),
          ),
        ),
      ),
    ),
  ),
)

increase_size_refines_example :
    (g : Growth) × (increase_size full_file 14337 two_new numbered ≡ done g)
    × Represents g.inode g.device (full_directs ++ two_new)
    × (g.inode.size ≡ 14337)
    × (g.inode.type_ ≡ file)
    × (g.new_blocks ≡ [])
    × OnlyIndices (full_directs ++ two_new) numbered g.device
increase_size_refines_example =
    increase_size_refines full_file 14337 full_directs two_new numbered full_file-Represents refl
      grown-Distinct (omega arith, (omega arith, tt)) (omega arith) (omega arith) refl

increase_size-read_at_example :
    (g : Growth) × (increase_size full_file 14337 two_new numbered ≡ done g)
    × (read_at g.inode 510 4 g.device ≡ read_at full_file 510 4 numbered)
increase_size-read_at_example =
    increase_size-read_at full_file 14337 full_directs two_new numbered 510 4 full_file-Represents
      refl grown-Distinct (omega arith, (omega arith, tt)) (omega arith) (omega arith) refl
      (omega arith)

write_at-IsWritten_example :
    (device' : ℕ → List ℕ) × (write_at two_blocks 998 (7 ∷ (8 ∷ (9 ∷ []))) numbered
      ≡ wrote 2 device')
    × IsWritten two_blocks (3 ∷ (4 ∷ [])) 2 numbered device' 998 1000 (7 ∷ (8 ∷ (9 ∷ []))) 0
write_at-IsWritten_example =
    write_at-IsWritten two_blocks 998 (7 ∷ (8 ∷ (9 ∷ []))) numbered (3 ∷ (4 ∷ []))
      two_blocks-Represents (refl, (refl, tt)) refl (omega arith) (omega arith) (omega arith)

write_at-read_at_example :
    (device' : ℕ → List ℕ) × (write_at two_blocks 510 (7 ∷ (8 ∷ (9 ∷ []))) numbered
      ≡ wrote 3 device')
    × (read_at two_blocks 510 3 device' ≡ done (7 ∷ (8 ∷ (9 ∷ []))))
write_at-read_at_example =
    write_at-read_at two_blocks 510 (7 ∷ (8 ∷ (9 ∷ []))) numbered (3 ∷ (4 ∷ []))
      two_blocks-Represents (refl, (refl, tt)) refl (omega arith) (omega arith) (omega arith)

clear_size-released_example :
    (inode' : DiskInode) × (clear_size full_file numbered ≡ cleared full_directs inode')
    × (inode'.size ≡ 0)
    × (total_blocks 14336 ≡ done 28)
clear_size-released_example =
    clear_size-released full_file numbered full_directs full_file-Represents refl (omega arith)
