-- ===== src/EasyFs/Layout/Increase/Slots.antt =====
-- The blocks of an inode as one list: the data blocks in their order, each block of indices before the
-- first that it names. Block `p` of the list is named in slot `p`.
use r_core_tutorial_v3_arm.Base.{
  ℕ, zero, suc, ◌+◌, ◌-◌, ◌*◌, ◌/◌, ◌%◌, ◌^◌, ◌<◌, ◌≡◌, refl, sym, ap, ◌∙◌, ◌⊎◌, inl, inr, true,
  false, ◌&&◌, some, List, [], ◌∷◌, arith, ltb, ◌==◌, if◌then◌else◌, ltb→lt, ==_iff, Bool-cases,
  length, get_elem?, set, Run, done, ◌>>=◌, unwrap,
}
use r_core_tutorial_v3_arm.EasyFs.Cache.{write_block}
use r_core_tutorial_v3_arm.EasyFs.Layout.{DiskInode, as_words, word, get_block_id}
use r_core_tutorial_v3_arm.EasyFs.Layout.Clear.{AreBlocks, length-as_words}
use r_core_tutorial_v3_arm.EasyFs.Layout.Increase.{set_word, put_word}

-- The places that name a block: a direct entry, the two blocks of indices, an entry of the first, an
-- entry of the second, and an entry of a block that the second names.
pub data Slot : Type 0 where
  direct_slot entry_slot row_slot : ℕ → Slot
  first_slot second_slot : Slot
  leaf_slot : ℕ → ℕ → Slot

abbrev pub read_slot : DiskInode → (ℕ → List ℕ) → Slot → Run ℕ
read_slot inode device (direct_slot i) = unwrap (get_elem? inode.direct i)
read_slot inode device first_slot = done inode.indirect1
read_slot inode device (entry_slot i) = word device inode.indirect1 i
read_slot inode device second_slot = done inode.indirect2
read_slot inode device (row_slot a) = word device inode.indirect2 a
read_slot inode device (leaf_slot a b) = word device inode.indirect2 a >>= λ id. word device id b

-- The number of a slot, and its range.
abbrev pub number : Slot → ℕ
number (direct_slot i) = i
number first_slot = 28
number (entry_slot i) = 29 + i
number second_slot = 157
number (row_slot a) = 158 + 129 * a
number (leaf_slot a b) = 159 + 129 * a + b

abbrev pub IsSlot : Slot → Type 0
IsSlot (direct_slot i) = i < 28
IsSlot first_slot = Unit {0}
IsSlot (entry_slot i) = i < 128
IsSlot second_slot = Unit {0}
IsSlot (row_slot a) = a < 128
IsSlot (leaf_slot a b) = (a < 128) × (b < 128)

-- The slots of the largest inode.
abbrev pub max_slots : ℕ
max_slots = 158 + 129 * 128

abbrev pub slot : ℕ → Slot
slot p =
    if ltb p 28
    then direct_slot p
    else if p == 28
    then first_slot
    else if ltb p 157
    then entry_slot (p - 29)
    else if p == 157
    then second_slot
    else if (p - 158) % 129 == 0
    then row_slot ((p - 158) / 129)
    else leaf_slot ((p - 158) / 129) ((p - 158) % 129 - 1)

pub slot-number : (s : Slot) → IsSlot s → slot (number s) ≡ s
slot-number (direct_slot i) h = ground (arith, h)
slot-number first_slot h = refl
slot-number (entry_slot i) h = ground (arith, h)
slot-number second_slot h = refl
slot-number (row_slot a) h = ground (arith, h)
slot-number (leaf_slot a b) h = ground (arith, h)

pub slot-IsSlot : (p : ℕ) → p < max_slots → IsSlot (slot p) × (number (slot p) ≡ p)
slot-IsSlot p h = elim (Bool-cases (ltb p 28)) [
  | inl y ↦ rw y (ltb→lt p 28 y, refl)
  | inr a ↦ elim (Bool-cases (p == 28)) [
    | inl y ↦ rw (a, y) (tt, sym ((==_iff p 28).0 y))
    | inr b ↦ elim (Bool-cases (ltb p 157)) [
      | inl y ↦ rw (a, b, y) (ground (arith, a, b, y), ground (arith, a, b, y))
      | inr c ↦ elim (Bool-cases (p == 157)) [
        | inl y ↦ rw (a, b, c, y) (tt, sym ((==_iff p 157).0 y))
        | inr d ↦ elim (Bool-cases ((p - 158) % 129 == 0)) [
          | inl y ↦ rw (a, b, c, d, y) (omega (arith, h), ground (arith, c, d, y))
          | inr e ↦
              rw (a, b, c, d, e) ((omega (arith, h), ground (arith, e)), ground (arith, c, d, e))
        ]
      ]
    ]
  ]
]

-- The slot of a data block.
abbrev pub slot_of : ℕ → ℕ
slot_of k = if ltb k 28 then k else if ltb k 156 then k + 1 else k + 3 + (k - 156) / 128

pub entry_of :
    (k : ℕ) → ltb k 28 ≡ false → ltb k 156 ≡ true → slot (slot_of k) ≡ entry_slot (k - 28)
entry_of k a b = ground (arith, a, b)

pub leaf_of :
    (k : ℕ) → ltb k 156 ≡ false → slot (slot_of k) ≡ leaf_slot ((k - 156) / 128) ((k - 156) % 128)
leaf_of k a = ground (arith, a)

pub get_block_id-read_slot :
    (inode : DiskInode) (device : ℕ → List ℕ) (k : ℕ)
    → get_block_id inode k device ≡ read_slot inode device (slot (slot_of k))
unfolding get_block_id
get_block_id-read_slot inode device k = elim (Bool-cases (ltb k 28)) [
  | inl y ↦ rw (y, y)
  | inr n ↦ elim (Bool-cases (ltb k 156)) [
    | inl y ↦ rw (n, y) refl ∙ sym (ap (read_slot inode device) (entry_of k n y))
    | inr m ↦ rw (n, m) refl ∙ sym (ap (read_slot inode device) (leaf_of k m))
  ]
]

-- The list `all` stands in the slots from the first on.
pub record Represents (inode : DiskInode) (device : ℕ → List ℕ) (all : List ℕ) : Type 0 where
  pub held :
      (s : Slot) (x : ℕ)
      → IsSlot s
      → get_elem? all (number s) ≡ some x
      → read_slot inode device s ≡ done x
  pub directs : length inode.direct ≡ 28
  pub blocks : AreBlocks device

length-set_word : (bytes : List ℕ) (i v : ℕ) → length (set_word bytes i v) ≡ length bytes
length-set_word [] i v = refl
length-set_word (a ∷ []) i v = refl
length-set_word (a ∷ (b ∷ [])) i v = refl
length-set_word (a ∷ (b ∷ (c ∷ []))) i v = refl
length-set_word (a ∷ (b ∷ (c ∷ (d ∷ bytes)))) zero v = refl
length-set_word (a ∷ (b ∷ (c ∷ (d ∷ bytes)))) (suc i) v =
    ap (λ n. suc (suc (suc (suc n)))) (length-set_word bytes i v)

little_endian :
    (v : ℕ)
    → v < 2 ^ 32
    → v % 256 + v / 2 ^ 8 % 256 * 2 ^ 8 + v / 2 ^ 16 % 256 * 2 ^ 16 + v / 2 ^ 24 % 256 * 2 ^ 24 ≡ v
little_endian v h = omega (arith, h)

as_words-set_word :
    (bytes : List ℕ) (i v : ℕ)
    → v < 2 ^ 32
    → as_words (set_word bytes i v) ≡ set (as_words bytes) i v
as_words-set_word [] i v h = refl
as_words-set_word (a ∷ []) i v h = refl
as_words-set_word (a ∷ (b ∷ [])) i v h = refl
as_words-set_word (a ∷ (b ∷ (c ∷ []))) i v h = refl
as_words-set_word (a ∷ (b ∷ (c ∷ (d ∷ bytes)))) zero v h =
    ap (λ w. w ∷ as_words bytes) (little_endian v h)
as_words-set_word (a ∷ (b ∷ (c ∷ (d ∷ bytes)))) (suc i) v h =
    ap (◌∷◌ (a + b * 2 ^ 8 + c * 2 ^ 16 + d * 2 ^ 24)) (as_words-set_word bytes i v h)

-- The device after word `i` of the block `id` was written.
abbrev pub with_word : (ℕ → List ℕ) → ℕ → ℕ → ℕ → ℕ → List ℕ
with_word device id i v = write_block device id (set_word (device id) i v)

pub with_word-AreBlocks :
    (device : ℕ → List ℕ) (id i v : ℕ) → AreBlocks device → AreBlocks (with_word device id i v)
with_word-AreBlocks device id i v blocks b =
    ground (arith, blocks b, blocks id, length-set_word (device id) i v)

pub put_word-done :
    (device : ℕ → List ℕ) (id i v : ℕ)
    → AreBlocks device
    → i < 128
    → put_word device id i v ≡ done (with_word device id i v)
put_word-done device id i v blocks h =
    ground (arith, h, length-as_words 128 (device id) (blocks id))

pub get_elem?-set :
    (xs : List ℕ) (i j v : ℕ)
    → i < length xs
    → get_elem? (set xs i v) j ≡ (if i == j then some v else get_elem? xs j)
get_elem?-set [] i j v h = absurd (omega (arith, h))
get_elem?-set (x ∷ xs) zero zero v h = refl
get_elem?-set (x ∷ xs) zero (suc j) v h = ground arith
get_elem?-set (x ∷ xs) (suc i) zero v h = ground arith
get_elem?-set (x ∷ xs) (suc i) (suc j) v h =
    get_elem?-set xs i j v (omega (arith, h)) ∙ ground arith

pub word-with_word :
    (device : ℕ → List ℕ) (id i v b j : ℕ)
    → AreBlocks device
    → i < 128
    → v < 2 ^ 32
    → word (with_word device id i v) b j ≡ (if id == b && i == j then done v else word device b j)
word-with_word device id i v b j blocks h small = elim (Bool-cases (id == b)) [
  | inr n ↦ rw n
  | inl y ↦ rw y (
      ap unwrap (
        ap (λ ws. get_elem? ws j) (as_words-set_word (device id) i v small)
        ∙ get_elem?-set (as_words (device id)) i j v
            (omega (arith, h, length-as_words 128 (device id) (blocks id))))
      ∙ by_index (Bool-cases (i == j))
      ∙ ap (λ c. if i == j then done v else word device c j) ((==_iff id b).0 y))
]
  where
    by_index :
        ((i == j) ≡ true) ⊎ ((i == j) ≡ false)
        → unwrap (if i == j then some v else get_elem? (as_words (device id)) j)
          ≡ (if i == j then done v else word device id j)
    by_index (inl e) = rw e
    by_index (inr e) = rw e
