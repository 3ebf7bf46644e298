-- ===== src/EasyFs/Areas.antt =====
-- easy-fs/src/efs.rs: how a device is divided into areas, and the allocation of inodes and data blocks. The
-- device is the view of the bitmaps, the 64 words of each block; the super block and the root inode,
-- which `create` writes too, are values beside it.
pub mod Division
pub mod Beyond
mod Tests
use r_core_tutorial_v3_arm.Base.{
  ℕ, zero, suc, ◌+◌, ◌-◌, ◌*◌, ◌/◌, ◌%◌, ◌^◌, ◌≤◌, ◌<◌, min, bit_and, bit_or, ◌≡◌, refl, sym, ap,
  ◌∙◌, subst, fun_ext, ◌≢◌, ◌↔◌, ◌⊎◌, inl, inr, Bool, true, false, not, ◌&&◌, ◌||◌, Option, none,
  some, List, [], ◌∷◌, ◌++◌, map, arith, ltb, leb, ◌==◌, if◌then◌else◌, ltb→lt, leb→le, ==_iff,
  eq_refl, Bool-cases, Option-cases, length, get_elem?, set, get_or, take, drop, replicate,
  length-append, length-set, length-replicate, get_or-set_self, get_or-set_ne, get_elem?-set_self,
  get_elem?-set_ne, All, All-map, All-append, contains, Distinct, contains-append, Distinct-snoc,
  Run, done, panic, ◌>>=◌, ◌>>◌, take-nil, drop-nil, take-append-drop, length-drop, List-cases,
  ltb-suc, ltb-zero, assert, unwrap, done-injective,
}
use r_core_tutorial_v3_arm.EasyFs.Bitmap.{Bitmap, maximum, alloc, dealloc, write_words}
use r_core_tutorial_v3_arm.EasyFs.Layout.{block_sz, SuperBlock, initialize_super, is_valid}

pub record EasyFileSystem : Type 0 where
  pub inode_bitmap : Bitmap
  pub data_bitmap : Bitmap
  pub inode_area_start_block : ℕ
  pub data_area_start_block : ℕ

-- `size_of::<DiskInode>()`: 32 words of four bytes, the type in the last one.
abbrev pub inode_size : ℕ
inode_size = 128

abbrev pub inodes_per_block : ℕ
inodes_per_block = block_sz / inode_size

-- A difference that may be below zero.
abbrev pub minus : ℕ → ℕ → Run ℕ
minus a b = if leb b a then done (a - b) else panic

-- A sum in 32 bits.
abbrev pub add32 : ℕ → ℕ → Run ℕ
add32 a b = if ltb (a + b) (2 ^ 32) then done (a + b) else panic

-- `as u32`
abbrev pub u32 : ℕ → ℕ
u32 n = n % 2 ^ 32

-- The quotient is a `usize`, and is cut to 32 bits.
abbrev pub inode_area_blocks_of : ℕ → ℕ
inode_area_blocks_of inode_bitmap_blocks = u32 (
    (maximum (record { start_block_id = 1; blocks = inode_bitmap_blocks }) * inode_size
      + block_sz
      - 1)
    / block_sz)

-- The first part of `create`: the areas, and what the super block says of them.
unfoldable pub divide : ℕ → ℕ → Run (EasyFileSystem × SuperBlock)
unfolding maximum
divide total_blocks inode_bitmap_blocks = do
  let inode_area_blocks = inode_area_blocks_of inode_bitmap_blocks
  inode_total_blocks ← add32 inode_bitmap_blocks inode_area_blocks
  without_super ← minus total_blocks 1
  data_total_blocks ← minus without_super inode_total_blocks
  rounded ← add32 data_total_blocks 4096
  let data_bitmap_blocks = rounded / 4097
  data_area_blocks ← minus data_total_blocks data_bitmap_blocks
  bitmap_end ← add32 1 inode_bitmap_blocks
  data_bitmap_start ← add32 bitmap_end inode_area_blocks
  inode_area_start ← add32 1 inode_bitmap_blocks
  inode_area_end ← add32 1 inode_total_blocks
  data_area_start ← add32 inode_area_end data_bitmap_blocks
  done (
    record {
      inode_bitmap = record { start_block_id = 1; blocks = inode_bitmap_blocks };
      data_bitmap = record { start_block_id = data_bitmap_start; blocks = data_bitmap_blocks };
      inode_area_start_block = inode_area_start;
      data_area_start_block = data_area_start;
    },
    initialize_super total_blocks inode_bitmap_blocks inode_area_blocks data_bitmap_blocks
        data_area_blocks,
  )

unfoldable pub open_fs : SuperBlock → Run EasyFileSystem
open_fs super_block = do
  assert (is_valid super_block)
  inode_total_blocks ← add32 super_block.inode_bitmap_blocks super_block.inode_area_blocks
  data_bitmap_start ← add32 1 inode_total_blocks
  inode_area_start ← add32 1 super_block.inode_bitmap_blocks
  inode_area_end ← add32 1 inode_total_blocks
  data_area_start ← add32 inode_area_end super_block.data_bitmap_blocks
  done (record {
    inode_bitmap = record { start_block_id = 1; blocks = super_block.inode_bitmap_blocks };
    data_bitmap = record {
      start_block_id = data_bitmap_start;
      blocks = super_block.data_bitmap_blocks;
    };
    inode_area_start_block = inode_area_start;
    data_area_start_block = data_area_start;
  })

-- The block and the offset in it.
unfoldable pub get_disk_inode_pos : EasyFileSystem → ℕ → Run (ℕ × ℕ)
get_disk_inode_pos efs inode_id =
    add32 efs.inode_area_start_block (inode_id / inodes_per_block) >>= λ block_id.
    done (block_id, inode_id % inodes_per_block * inode_size)

unfoldable pub get_data_block_id : EasyFileSystem → ℕ → Run ℕ
get_data_block_id efs data_block_id = add32 efs.data_area_start_block data_block_id

unfoldable pub alloc_inode : EasyFileSystem → (ℕ → List ℕ) → Run (ℕ × (ℕ → List ℕ))
alloc_inode efs device =
    let (id, device') = alloc efs.inode_bitmap device in unwrap id >>= λ i. done (u32 i, device')

unfoldable pub alloc_data : EasyFileSystem → (ℕ → List ℕ) → Run (ℕ × (ℕ → List ℕ))
alloc_data efs device =
    let (id, device') = alloc efs.data_bitmap device in
    unwrap id >>= λ i.
    add32 (u32 i) efs.data_area_start_block >>= λ block_id. done (block_id, device')

abbrev pub zero_block : List ℕ
zero_block = replicate 64 0

unfoldable pub dealloc_data : EasyFileSystem → (ℕ → List ℕ) → ℕ → Run (ℕ → List ℕ)
dealloc_data efs device block_id = do
  bit ← minus block_id efs.data_area_start_block
  dealloc efs.data_bitmap (write_words device block_id zero_block) bit

-- The loop of `create` that clears the device.
abbrev pub clear_blocks : ℕ → ℕ → (ℕ → List ℕ) → ℕ → List ℕ
clear_blocks zero i device = device
clear_blocks (suc count) i device = clear_blocks count (suc i) (write_words device i zero_block)

unfoldable pub create : ℕ → ℕ → (ℕ → List ℕ) → Run (EasyFileSystem × SuperBlock × (ℕ → List ℕ))
unfolding divide alloc_inode get_disk_inode_pos
create total_blocks inode_bitmap_blocks device = do
  areas ← divide total_blocks inode_bitmap_blocks
  root ← alloc_inode areas.0 (clear_blocks total_blocks 0 device)
  assert (root.0 == 0)
  root_pos ← get_disk_inode_pos areas.0 0
  done (areas.0, areas.1, root.1)
