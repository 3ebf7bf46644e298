-- ===== src/EasyFs/Areas/Division.antt =====
-- The areas follow one another and are large enough.
use r_core_tutorial_v3_arm.Base.{
  ℕ, ◌+◌, ◌-◌, ◌*◌, ◌/◌, ◌^◌, ◌≤◌, ◌<◌, ◌≡◌, refl, sym, ap, ◌⊎◌, inl, inr, arith, ltb, ltb→lt,
  Bool-cases, Run, done, panic,
}
use r_core_tutorial_v3_arm.EasyFs.Bitmap.{maximum}
use r_core_tutorial_v3_arm.EasyFs.Layout.{block_sz, SuperBlock, initialize_super, is_valid}
use r_core_tutorial_v3_arm.EasyFs.Areas.{
  EasyFileSystem, inode_size, minus, add32, inode_area_blocks_of, divide, open_fs,
}

-- The blocks in front of the data bitmap.
abbrev pub before_data : ℕ → ℕ
before_data inode_bitmap_blocks = 1 + inode_bitmap_blocks + inode_bitmap_blocks * 1024

-- What a division of `total` blocks has to be.
pub record IsDivision (total : ℕ) (efs : EasyFileSystem) (b : SuperBlock) : Type 0 where
  pub inode_area : efs.inode_area_start_block ≡ 1 + efs.inode_bitmap.blocks
  pub inode_room : maximum efs.inode_bitmap * inode_size ≤ b.inode_area_blocks * block_sz
  pub data_bitmap :
      efs.data_bitmap.start_block_id ≡ efs.inode_area_start_block + b.inode_area_blocks
  pub data_area :
      efs.data_area_start_block ≡ efs.data_bitmap.start_block_id + efs.data_bitmap.blocks
  pub data_room : b.data_area_blocks ≤ maximum efs.data_bitmap
  pub data_tight : maximum efs.data_bitmap ≤ b.data_area_blocks + 4096
  pub whole : efs.data_area_start_block + b.data_area_blocks ≡ total

minus-eq : (a b : ℕ) → b ≤ a → minus a b ≡ done (a - b)
minus-eq a b h = ground (arith, h)

minus-below : (a b : ℕ) → a < b → minus a b ≡ panic
minus-below a b h = ground (arith, h)

pub add32-eq : (a b : ℕ) → a + b < 2 ^ 32 → add32 a b ≡ done (a + b)
add32-eq a b h = ground (arith, h)

pub add32-over : (a b : ℕ) → 2 ^ 32 ≤ a + b → add32 a b ≡ panic
add32-over a b h = ground (arith, h)

area_blocks : (n : ℕ) → n < 2 ^ 22 → inode_area_blocks_of n ≡ n * 1024
unfolding maximum
area_blocks n h = omega (arith, h)

abbrev pub data_total : ℕ → ℕ → ℕ
data_total total n = total - 1 - (n + n * 1024)

-- The file system of the areas that follow one another.
abbrev pub divided : ℕ → ℕ → EasyFileSystem
divided n k = record {
  inode_bitmap = record { start_block_id = 1; blocks = n };
  data_bitmap = record { start_block_id = 1 + n + n * 1024; blocks = k };
  inode_area_start_block = 1 + n;
  data_area_start_block = 1 + (n + n * 1024) + k;
}

-- The same, with the start of the data bitmap as `open` forms it.
abbrev divided_at : ℕ → ℕ → ℕ → EasyFileSystem
divided_at n k start = record {
  inode_bitmap = record { start_block_id = 1; blocks = n };
  data_bitmap = record { start_block_id = start; blocks = k };
  inode_area_start_block = 1 + n;
  data_area_start_block = 1 + (n + n * 1024) + k;
}

abbrev result : EasyFileSystem → SuperBlock → Run (EasyFileSystem × SuperBlock)
result efs b = done (efs, b)

divide-done :
    (total n d k : ℕ)
    → n < 2 ^ 22
    → total < 2 ^ 32
    → before_data n ≤ total
    → d ≡ data_total total n
    → d + 4096 < 2 ^ 32
    → k ≡ (d + 4096) / 4097
    → divide total n ≡ result (divided n k) (initialize_super total n (n * 1024) k (d - k))
unfolding divide
divide-done total n d k small t h e f g =
    rw
      (
        area_blocks n small,
        add32-eq n (n * 1024) (omega (arith, h, t)),
        minus-eq total 1 (omega (arith, h)),
        minus-eq (total - 1) (n + n * 1024) (omega (arith, h)),
        sym e,
        add32-eq d 4096 f,
        sym g,
        minus-eq d k (omega (arith, g)),
        add32-eq 1 n (omega (arith, h, t)),
        add32-eq (1 + n) (n * 1024) (omega (arith, h, t)),
        add32-eq 1 (n + n * 1024) (omega (arith, h, t)),
        add32-eq (1 + (n + n * 1024)) k (omega (arith, h, t, e, g)),
      )
      refl

open_fs-initialize_super :
    (total n k area : ℕ)
    → 1 + (n + n * 1024) + k < 2 ^ 32
    → open_fs (initialize_super total n (n * 1024) k area) ≡ done (divided n k)
unfolding open_fs initialize_super is_valid
open_fs-initialize_super total n k area h =
    rw
      (
        add32-eq n (n * 1024) (omega (arith, h)),
        add32-eq 1 (n + n * 1024) (omega (arith, h)),
        add32-eq 1 n (omega (arith, h)),
        add32-eq (1 + (n + n * 1024)) k h,
      )
      (ap (λ start. done (divided_at n k start)) same)
  where
    same : 1 + (n + n * 1024) ≡ 1 + n + n * 1024
    same = omega arith

divided-IsDivision :
    (total n d k : ℕ)
    → before_data n ≤ total
    → d ≡ data_total total n
    → k ≡ (d + 4096) / 4097
    → IsDivision total (divided n k) (initialize_super total n (n * 1024) k (d - k))
unfolding initialize_super maximum
divided-IsDivision total n d k h e g = record {
  inode_area = refl;
  inode_room = omega arith;
  data_bitmap = omega arith;
  data_area = omega arith;
  data_room = omega (arith, g);
  data_tight = omega (arith, g);
  whole = omega (arith, h, e, g);
}

-- The additions and subtractions on the way that do not fit.
divide-small : (total n : ℕ) → n < 2 ^ 22 → total < before_data n → divide total n ≡ panic
unfolding divide
divide-small total n small h = elim (Bool-cases (ltb (n + n * 1024) (2 ^ 32))) [
  | inr over ↦ rw (area_blocks n small, add32-over n (n * 1024) (ground (arith, over))) refl
  | inl fits ↦ elim (Bool-cases (ltb total 1)) [
    | inl y ↦
        rw
          (
            area_blocks n small,
            add32-eq n (n * 1024) (ltb→lt (n + n * 1024) (2 ^ 32) fits),
            minus-below total 1 (ltb→lt total 1 y),
          )
          refl
    | inr y ↦
        let some_block : 1 ≤ total = ground (arith, y) in
        rw
          (
            area_blocks n small,
            add32-eq n (n * 1024) (ltb→lt (n + n * 1024) (2 ^ 32) fits),
            minus-eq total 1 some_block,
            minus-below (total - 1) (n + n * 1024) (omega (arith, h, some_block)),
          )
          refl
  ]
]

divide-large :
    (total n : ℕ)
    → n < 2 ^ 22
    → total < 2 ^ 32
    → before_data n ≤ total
    → 2 ^ 32 ≤ data_total total n + 4096
    → divide total n ≡ panic
unfolding divide
divide-large total n small t h over =
    rw
      (
        area_blocks n small,
        add32-eq n (n * 1024) (omega (arith, h, t)),
        minus-eq total 1 (omega (arith, h)),
        minus-eq (total - 1) (n + n * 1024) (omega (arith, h)),
        add32-over (data_total total n) 4096 over,
      )
      refl

-- A device with fewer than 2 ^ 32 blocks, and an inode bitmap of fewer than 2 ^ 22. Where it has room for the
-- super block, the inode bitmap and the inodes that this numbers, and fewer than 2 ^ 32 - 4096 blocks
-- remain, it is divided: the areas follow one another up to the last block, every bit of the inode
-- bitmap has a place in the inode area, every data block has a bit in the data bitmap, which has at
-- most the bits of one block too many, and `open` of the super block computes the same file system.
-- Otherwise `create` panics, with a difference or a sum that does not fit.
pub divide-IsDivision :
    (total n : ℕ)
    → n < 2 ^ 22
    → total < 2 ^ 32
    → ((before_data n ≤ total)
        × (data_total total n + 4096 < 2 ^ 32)
        × ((efs : EasyFileSystem) × (b : SuperBlock) × (divide total n ≡ done (efs, b))
            × IsDivision total efs b
            × (open_fs b ≡ done efs)))
      ⊎ (((total < before_data n) ⊎ (2 ^ 32 ≤ data_total total n + 4096))
          × (divide total n ≡ panic))
divide-IsDivision total n small t = elim (Bool-cases (ltb total (before_data n))) [
  | inl y ↦
      let few = ltb→lt total (before_data n) y in inr (inl few, divide-small total n small few)
  | inr enough ↦
      let h : before_data n ≤ total = ground (arith, enough) in
      elim (Bool-cases (ltb (data_total total n + 4096) (2 ^ 32))) [
        | inr over ↦
            let many : 2 ^ 32 ≤ data_total total n + 4096 = ground (arith, over) in
            inr (inr many, divide-large total n small t h many)
        | inl y ↦
            let fits = ltb→lt (data_total total n + 4096) (2 ^ 32) y in
            let d = data_total total n in
            let k = (data_total total n + 4096) / 4097 in
            inl (
              h,
              fits,
              (
                divided n k,
                initialize_super total n (n * 1024) k (d - k),
                divide-done total n d k small t h refl fits refl,
                divided-IsDivision total n d k h refl refl,
                open_fs-initialize_super total n k (d - k) (omega (arith, h, t)),
              ),
            )
      ]
]
