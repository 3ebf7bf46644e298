-- ===== src/EasyFs/Layout/Sizes.antt =====
-- How many blocks an inode needs.
use r_core_tutorial_v3_arm.Base.{ℕ, ◌+◌, ◌-◌, ◌/◌, ◌^◌, ◌≤◌, ◌<◌, ◌≡◌, arith, done}
use r_core_tutorial_v3_arm.EasyFs.Layout.{
  block_sz, DiskInode, data_blocks, with_indices, total_blocks, blocks_num_needed,
}

abbrev pub blocks_of : ℕ → ℕ
blocks_of size = (size + 511) / 512

pub data_blocks-eq :
    (size : ℕ) → size + block_sz < 2 ^ 32 → data_blocks size ≡ done (blocks_of size)
unfolding data_blocks
data_blocks-eq size h = ground (arith, h)

with_indices_mono : (a b : ℕ) → a ≤ b → with_indices a ≤ with_indices b
with_indices_mono a b h = ground (arith, h)

pub total_blocks-eq :
    (size : ℕ) → size + block_sz < 2 ^ 32 → total_blocks size ≡ done (with_indices (blocks_of size))
unfolding total_blocks
total_blocks-eq size h = rw (data_blocks-eq size h)

-- For a new size that is not below the old one and fits, `blocks_num_needed` does not panic, and its
-- answer takes the blocks of the old size to those of the new one.
pub blocks_num_needed_lem :
    (inode : DiskInode) (new_size : ℕ)
    → inode.size ≤ new_size
    → new_size + block_sz < 2 ^ 32
    → (n : ℕ) × (blocks_num_needed inode new_size ≡ done n)
      × (with_indices (blocks_of inode.size) + n ≡ with_indices (blocks_of new_size))
unfolding blocks_num_needed
blocks_num_needed_lem inode new_size le fits = (
  with_indices (blocks_of new_size) - with_indices (blocks_of inode.size),
  rw (total_blocks-eq new_size fits, total_blocks-eq inode.size (omega arith))
      (ground (arith, le, grows)),
  omega (arith, grows),
)
  where
    grows : with_indices (blocks_of inode.size) ≤ with_indices (blocks_of new_size)
    grows = with_indices_mono (blocks_of inode.size) (blocks_of new_size) (omega arith)
