-- ===== src/EasyFs/Layout/Write/Refine.antt =====
-- What `write_at` writes, and what `read_at` finds there.
use r_core_tutorial_v3_arm.Base.{
  ℕ, suc, ◌+◌, ◌-◌, ◌/◌, ◌≤◌, ◌<◌, min, ◌≡◌, refl, ap, ◌∙◌, true, List, arith, leb, length,
  Distinct, done,
}
use r_core_tutorial_v3_arm.EasyFs.Layout.{DiskInode, with_indices, read_at}
use r_core_tutorial_v3_arm.EasyFs.Layout.Sizes.{blocks_of}
use r_core_tutorial_v3_arm.EasyFs.Layout.Clear.{max_blocks}
use r_core_tutorial_v3_arm.EasyFs.Layout.Copy.{read_at-IsCopy, same_place}
use r_core_tutorial_v3_arm.EasyFs.Layout.Increase.Slots.{Represents}
use r_core_tutorial_v3_arm.EasyFs.Layout.Contents.{byte_at-byte}
use r_core_tutorial_v3_arm.EasyFs.Layout.Kept.{same_bytes}
use r_core_tutorial_v3_arm.EasyFs.Layout.Write.{write_at}
use r_core_tutorial_v3_arm.EasyFs.Layout.Write.Round.{IsWritten}
use r_core_tutorial_v3_arm.EasyFs.Layout.Write.Loop.{wrote, write_loop-IsWritten}

-- For an inode whose distinct blocks are the list `all`, a write of some bytes at an offset within the file
-- does not panic: it writes as many as the file has room for, and answers how many. Byte by byte the
-- file then has those in their places and what it had elsewhere, its blocks are the same ones, and no
-- block of another list was touched. The fuel of the loop is enough.
pub write_at-IsWritten :
    (inode : DiskInode) (offset : ℕ) (buf : List ℕ) (device : ℕ → List ℕ) (all : List ℕ)
    → Represents inode device all
    → Distinct all
    → length all ≡ with_indices (blocks_of inode.size)
    → blocks_of inode.size ≤ max_blocks
    → 0 < length buf
    → offset < inode.size
    → (device' : ℕ → List ℕ) × (write_at inode offset buf device
        ≡ wrote (min (offset + length buf) inode.size - offset) device')
      × IsWritten inode all
          (blocks_of inode.size)
          device
          device'
          offset
          (min (offset + length buf) inode.size)
          buf
          0
unfolding write_at
write_at-IsWritten inode offset buf device all r d l m room inside =
    let end = min (offset + length buf) inode.size in
    let opened : leb offset (min (offset + length buf) inode.size) ≡ true =
      ground (arith, room, inside) in
    let (device', e, w) =
      write_loop-IsWritten inode all (blocks_of inode.size) d m (omega (arith, l))
        (suc (end - offset)) buf device offset (offset / 512) end 0 r (omega (arith, room, inside))
        (omega arith) (omega arith) refl (omega arith) in
    (device', rw opened (e ∙ ap (λ z. wrote z device') (omega arith)), w)

-- Under the same conditions, a write that stays within the size of the file writes all its bytes, and
-- `read_at` at the same offset into a buffer of the same length then gives them back.
pub write_at-read_at :
    (inode : DiskInode) (offset : ℕ) (buf : List ℕ) (device : ℕ → List ℕ) (all : List ℕ)
    → Represents inode device all
    → Distinct all
    → length all ≡ with_indices (blocks_of inode.size)
    → blocks_of inode.size ≤ max_blocks
    → 0 < length buf
    → offset + length buf ≤ inode.size
    → (device' : ℕ → List ℕ) × (write_at inode offset buf device ≡ wrote (length buf) device')
      × (read_at inode offset (length buf) device' ≡ done buf)
write_at-read_at inode offset buf device all r d l m room fits =
    let (device', e, w) =
      write_at-IsWritten inode offset buf device all r d l m room (omega (arith, room, fits)) in
    let (bytes, f, c) =
      read_at-IsCopy inode offset (length buf) device' w.kept.blocks w.kept.directs
        (omega (arith, m)) in
    let same : bytes ≡ buf = same_bytes bytes buf (omega (arith, c.full, fits)) (λ i k.
      c.same i (omega (arith, c.full, k))
      ∙ byte_at-byte inode device' all (offset + i) (blocks_of inode.size) w.kept
          (omega (arith, c.full, k, fits)) m (omega (arith, l))
      ∙ w.bytes (offset + i) (omega arith) (omega (arith, c.full, k))
      ∙ same_place buf (0 + (offset + i - offset)) i (omega arith)) in
    (device', e ∙ ap (λ z. wrote z device') (omega (arith, fits)), f ∙ ap done same)
