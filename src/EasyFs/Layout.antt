-- ===== src/EasyFs/Layout.antt =====
-- easy-fs/src/layout.rs: the super block and the inodes on disk. A block is its 512 bytes; the device is
-- the view that the block cache shows. `Run` panics on an index out of range, on a failed assertion
-- and on an overflow, as in the checked build.
pub mod Sizes
pub mod Clear
pub mod Copy
pub mod Increase
pub mod Contents
pub mod Kept
pub mod Write
pub mod Parts
pub mod Indices
pub mod Released
mod Tests
use r_core_tutorial_v3_arm.Base.{
  ℕ, zero, suc, ◌+◌, ◌-◌, ◌*◌, ◌/◌, ◌%◌, ◌^◌, ◌≤◌, ◌<◌, min, bit_and, bit_or, ◌≡◌, refl, sym, ap,
  ◌∙◌, subst, fun_ext, ◌≢◌, ◌↔◌, ◌⊎◌, inl, inr, Bool, true, false, not, ◌&&◌, ◌||◌, Option, none,
  some, List, [], ◌∷◌, ◌++◌, map, arith, ltb, leb, ◌==◌, if◌then◌else◌, ltb→lt, leb→le, ==_iff,
  eq_refl, Bool-cases, Option-cases, length, get_elem?, set, get_or, take, drop, replicate,
  length-append, length-set, length-replicate, get_or-set_self, get_or-set_ne, get_elem?-set_self,
  get_elem?-set_ne, All, All-map, All-append, contains, Distinct, contains-append, Distinct-snoc,
  Run, done, panic, ◌>>=◌, ◌>>◌, take-nil, drop-nil, take-append-drop, length-drop, List-cases,
  ltb-suc, ltb-zero, assert, unwrap, done-injective,
}

abbrev pub block_sz : ℕ
block_sz = 512

abbrev pub efs_magic : ℕ
efs_magic = 0x3b800001

abbrev pub inode_direct_count : ℕ
inode_direct_count = 28

abbrev pub inode_indirect1_count : ℕ
inode_indirect1_count = block_sz / 4

abbrev pub inode_indirect2_count : ℕ
inode_indirect2_count = inode_indirect1_count * inode_indirect1_count

abbrev pub indirect1_bound : ℕ
indirect1_bound = inode_direct_count + inode_indirect1_count

pub record SuperBlock : Type 0 where
  pub magic : ℕ
  pub total_blocks : ℕ
  pub inode_bitmap_blocks : ℕ
  pub inode_area_blocks : ℕ
  pub data_bitmap_blocks : ℕ
  pub data_area_blocks : ℕ

unfoldable pub initialize_super : ℕ → ℕ → ℕ → ℕ → ℕ → SuperBlock
initialize_super total inode_bitmap inode_area data_bitmap data_area = record {
  magic = efs_magic;
  total_blocks = total;
  inode_bitmap_blocks = inode_bitmap;
  inode_area_blocks = inode_area;
  data_bitmap_blocks = data_bitmap;
  data_area_blocks = data_area;
}

unfoldable pub is_valid : SuperBlock → Bool
is_valid b = b.magic == efs_magic

pub data DiskInodeType : Type 0 where
  file : DiskInodeType
  directory : DiskInodeType

pub record DiskInode : Type 0 where
  pub size : ℕ
  pub direct : List ℕ
  pub indirect1 : ℕ
  pub indirect2 : ℕ
  pub type_ : DiskInodeType

unfoldable pub initialize : DiskInode → DiskInodeType → DiskInode
initialize inode t = record {
  size = 0;
  direct = map (λ v. 0) inode.direct;
  indirect1 = 0;
  indirect2 = 0;
  type_ = t;
}

unfoldable pub is_dir : DiskInode → Bool
is_dir inode = elim inode.type_ [ file ↦ false | directory ↦ true ]

unfoldable pub is_file : DiskInode → Bool
is_file inode = elim inode.type_ [ file ↦ true | directory ↦ false ]

-- `_data_blocks`, in 32 bits.
unfoldable pub data_blocks : ℕ → Run ℕ
data_blocks size =
    if ltb (size + block_sz) (2 ^ 32) then done ((size + block_sz - 1) / block_sz) else panic

-- The blocks of data and of indices for that many blocks of data.
abbrev pub with_indices : ℕ → ℕ
with_indices n =
    n
    + (if ltb inode_direct_count n then 1 else 0)
    + (if ltb indirect1_bound n
        then 1 + (n - indirect1_bound + inode_indirect1_count - 1) / inode_indirect1_count
        else 0)

unfoldable pub total_blocks : ℕ → Run ℕ
total_blocks size = data_blocks size >>= λ n. done (with_indices n)

unfoldable pub blocks_num_needed : DiskInode → ℕ → Run ℕ
blocks_num_needed inode new_size = do
  assert (leb inode.size new_size)
  after ← total_blocks new_size
  before ← total_blocks inode.size
  if leb before after then done (after - before) else panic

-- A block read as an `IndirectBlock`, 128 little-endian words of four bytes.
abbrev pub as_words : List ℕ → List ℕ
as_words (a ∷ b ∷ c ∷ d ∷ bytes) = (a + b * 2 ^ 8 + c * 2 ^ 16 + d * 2 ^ 24) ∷ as_words bytes
as_words _ = []

abbrev pub word : (ℕ → List ℕ) → ℕ → ℕ → Run ℕ
word device id i = unwrap (get_elem? (as_words (device id)) i)

unfoldable pub get_block_id : DiskInode → ℕ → (ℕ → List ℕ) → Run ℕ
get_block_id inode inner_id device =
    if ltb inner_id inode_direct_count
    then unwrap (get_elem? inode.direct inner_id)
    else if ltb inner_id indirect1_bound
    then word device inode.indirect1 (inner_id - inode_direct_count)
    else (word device inode.indirect2 ((inner_id - indirect1_bound) / inode_indirect1_count)
        >>= λ indirect1.
            word device indirect1 ((inner_id - indirect1_bound) % inode_indirect1_count))

-- The loops of `clear_size`: `count` entries from `current` on are pushed, and reset in the inode.
abbrev pub push_entries : ℕ → ℕ → List ℕ → Run (List ℕ)
push_entries zero current words = done []
push_entries (suc count) current words = do
  entry ← unwrap (get_elem? words current)
  rest ← push_entries count (suc current) words
  done (entry ∷ rest)

abbrev pub reset_entries : ℕ → ℕ → List ℕ → List ℕ
reset_entries zero current direct = direct
reset_entries (suc count) current direct = reset_entries count (suc current) (set direct current 0)

-- The full blocks of indices, each before its entries.
abbrev pub push_full : (ℕ → List ℕ) → List ℕ → List ℕ
push_full device [] = []
push_full device (entry ∷ entries) = (entry ∷ as_words (device entry)) ++ push_full device entries

-- The last block of indices, of which `b` entries are in use.
abbrev pub push_last : (ℕ → List ℕ) → ℕ → ℕ → ℕ → Run (List ℕ)
push_last device indirect2 a b =
    if ltb 0 b
    then (word device indirect2 a >>= λ entry. done (entry ∷ take b (as_words (device entry))))
    else done []

abbrev pub push_indirect2 : (ℕ → List ℕ) → ℕ → ℕ → Run (List ℕ)
push_indirect2 device indirect2 n = do
  assert (leb n inode_indirect2_count)
  last ← push_last device indirect2 (n / inode_indirect1_count) (n % inode_indirect1_count)
  done (push_full device (take (n / inode_indirect1_count) (as_words (device indirect2))) ++ last)

-- `clear_size`, which writes nothing to the device.
abbrev pub clear_indirect2 : DiskInode → ℕ → List ℕ → (ℕ → List ℕ) → Run (List ℕ × DiskInode)
clear_indirect2 inode n v device =
    if ltb inode_indirect1_count n
    then (push_indirect2 device inode.indirect2 (n - inode_indirect1_count) >>= λ w.
        done (v ++ (inode.indirect2 ∷ w), record inode { indirect2 = 0 }))
    else done (v, inode)

abbrev pub clear_indirect1 : DiskInode → ℕ → List ℕ → (ℕ → List ℕ) → Run (List ℕ × DiskInode)
clear_indirect1 inode n v device =
    if ltb inode_direct_count n
    then (push_entries (min (n - inode_direct_count) inode_indirect1_count) 0
          (as_words (device inode.indirect1))
        >>= λ w.
            clear_indirect2 (record inode { indirect1 = 0 }) (n - inode_direct_count)
              (v ++ (inode.indirect1 ∷ w)) device)
    else done (v, inode)

unfoldable pub clear_size : DiskInode → (ℕ → List ℕ) → Run (List ℕ × DiskInode)
clear_size inode device = do
  n ← data_blocks inode.size
  v ← push_entries (min n inode_direct_count) 0 inode.direct
  clear_indirect1
      (record inode { size = 0; direct = reset_entries (min n inode_direct_count) 0 inode.direct })
      n v device

-- The part of a block that one round of `read_at` or `write_at` covers.
abbrev pub slice : ℕ → ℕ → List ℕ → List ℕ
slice from count bytes = take count (drop from bytes)

-- The end of the round that begins at `start`.
abbrev pub round_end : ℕ → ℕ → ℕ
round_end start end = min ((start / block_sz + 1) * block_sz) end

-- The loop of `read_at`, on fuel: the bytes that it copies into the buffer.
abbrev pub read_loop : ℕ → DiskInode → (ℕ → List ℕ) → ℕ → ℕ → ℕ → Run (List ℕ)
read_loop zero inode device start start_block end = panic
read_loop (suc fuel) inode device start start_block end = do
  id ← get_block_id inode start_block device
  rest ←
      (if round_end start end == end
        then done []
        else read_loop fuel inode device (round_end start end) (suc start_block) end)
  done (slice (start % block_sz) (round_end start end - start) (device id) ++ rest)

-- `read_at` into a buffer of `len` bytes.
unfoldable pub read_at : DiskInode → ℕ → ℕ → (ℕ → List ℕ) → Run (List ℕ)
read_at inode offset len device =
    let end = min (offset + len) inode.size in
    if leb end offset
    then done []
    else read_loop (end - offset) inode device offset (offset / block_sz) end
