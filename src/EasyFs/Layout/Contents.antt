-- ===== src/EasyFs/Layout/Contents.antt =====
-- The bytes of a file in the list of its inode's blocks: block `k` of the data is in slot `slot_of k`.
use r_core_tutorial_v3_arm.Base.{
  ℕ, zero, suc, ◌/◌, ◌%◌, ◌≤◌, ◌<◌, ◌≡◌, refl, ap, ◌∙◌, ◌≢◌, inl, inr, true, false, some, List, [],
  ◌∷◌, arith, ltb, ◌==◌, Bool-cases, length, get_elem?, get_or, Distinct, done,
}
use r_core_tutorial_v3_arm.EasyFs.Layout.{DiskInode, with_indices, get_block_id}
use r_core_tutorial_v3_arm.EasyFs.Layout.Clear.{max_blocks}
use r_core_tutorial_v3_arm.EasyFs.Layout.Copy.{answer, byte_at}
use r_core_tutorial_v3_arm.EasyFs.Layout.Increase.Slots.{
  Slot, direct_slot, IsSlot, number, slot, slot_of, max_slots, slot-number, slot-IsSlot, entry_of,
  leaf_of, get_block_id-read_slot, Represents,
}
use r_core_tutorial_v3_arm.EasyFs.Layout.Increase.Append.{is_index, apart}

-- The block of data `k` in the list.
abbrev pub data_block : List ℕ → ℕ → ℕ
data_block all k = get_or all (slot_of k) 0

pub slot_of-bound : (k n : ℕ) → k < n → slot_of k < with_indices n
slot_of-bound k n h = ground (arith, h)

slot_of-fits : (k n : ℕ) → k < n → n ≤ max_blocks → slot_of k < max_slots
slot_of-fits k n h m = ground (arith, h, m)

slot_of-ne : (j k : ℕ) → j ≢ k → slot_of j ≢ slot_of k
slot_of-ne j k n e = absurd (ground (arith, n, e))

direct_of : (k : ℕ) → ltb k 28 ≡ true → slot (slot_of k) ≡ direct_slot k
direct_of k h = ground (arith, h)

data_slot : (k : ℕ) → is_index (slot (slot_of k)) ≡ false
data_slot k = elim (Bool-cases (ltb k 28)) [
  | inl y ↦ ap is_index (direct_of k y)
  | inr n ↦ elim (Bool-cases (ltb k 156)) [
    | inl y ↦ ap is_index (entry_of k n y)
    | inr m ↦ ap is_index (leaf_of k m)
  ]
]

get_elem?-get_or : (xs : List ℕ) (i : ℕ) → i < length xs → get_elem? xs i ≡ some (get_or xs i 0)
get_elem?-get_or [] i h = absurd (omega (arith, h))
get_elem?-get_or (x ∷ xs) zero h = refl
get_elem?-get_or (x ∷ xs) (suc i) h = get_elem?-get_or xs i (omega (arith, h))

pub data_block-at :
    (all : List ℕ) (k n : ℕ)
    → k < n
    → with_indices n ≤ length all
    → get_elem? all (slot_of k) ≡ some (data_block all k)
data_block-at all k n h l = get_elem?-get_or all (slot_of k) (omega (arith, slot_of-bound k n h, l))

-- `get_block_id` answers from the list.
pub get_block_id-data_block :
    (inode : DiskInode) (device : ℕ → List ℕ) (all : List ℕ) (k n : ℕ)
    → Represents inode device all
    → k < n
    → n ≤ max_blocks
    → with_indices n ≤ length all
    → get_block_id inode k device ≡ done (data_block all k)
get_block_id-data_block inode device all k n r h m l =
    let (in_range, at) = slot-IsSlot (slot_of k) (slot_of-fits k n h m) in
    get_block_id-read_slot inode device k
    ∙ r.held (slot (slot_of k)) (data_block all k) in_range
        (ap (get_elem? all) at ∙ data_block-at all k n h l)

-- The byte `i` of the file.
abbrev pub byte : List ℕ → (ℕ → List ℕ) → ℕ → ℕ
byte all device i = get_or (device (data_block all (i / 512))) (i % 512) 0

pub byte_at-byte :
    (inode : DiskInode) (device : ℕ → List ℕ) (all : List ℕ) (i n : ℕ)
    → Represents inode device all
    → i / 512 < n
    → n ≤ max_blocks
    → with_indices n ≤ length all
    → byte_at inode device i ≡ byte all device i
byte_at-byte inode device all i n r h m l =
    ap (λ a. get_or (device (answer a)) (i % 512) 0)
      (get_block_id-data_block inode device all (i / 512) n r h m l)

pub data_block-apart :
    (all : List ℕ) (j k n : ℕ)
    → Distinct all
    → j < n
    → k < n
    → with_indices n ≤ length all
    → j ≢ k
    → (data_block all j == data_block all k) ≡ false
data_block-apart all j k n d hj hk l ne =
    apart all (slot_of j) (slot_of k) (data_block all j) (data_block all k) d
      (data_block-at all j n hj l) (data_block-at all k n hk l) (slot_of-ne j k ne)

-- No block of indices is a block of data.
pub index-data_block :
    (all : List ℕ) (k n : ℕ) (s : Slot) (x : ℕ)
    → Distinct all
    → k < n
    → with_indices n ≤ length all
    → is_index s ≡ true
    → IsSlot s
    → get_elem? all (number s) ≡ some x
    → (data_block all k == x) ≡ false
index-data_block all k n s x d h l t i e =
    apart all (slot_of k) (number s) (data_block all k) x d (data_block-at all k n h l) e
      (λ same. absurd (grind (arith, t, data_slot k, ap slot same ∙ slot-number s i)))
