-- ===== src/EasyFs/Layout/Copy.antt =====
-- `read_at` copies the bytes of the file.
use mathlib.Core.Path.{ap₂}
use r_core_tutorial_v3_arm.Base.{
  ℕ, zero, suc, ◌+◌, ◌-◌, ◌*◌, ◌/◌, ◌%◌, ◌≤◌, ◌<◌, min, ◌≡◌, refl, sym, ap, ◌∙◌, ◌≢◌, inl, inr,
  List, [], ◌∷◌, ◌++◌, arith, ltb, leb, ◌==◌, if◌then◌else◌, ltb→lt, Bool-cases, length, get_or,
  take, drop, length-append, Run, done, panic, length-drop, unwrap,
}
use r_core_tutorial_v3_arm.EasyFs.Layout.{
  block_sz, DiskInode, as_words, word, get_block_id, slice, round_end, read_loop, read_at,
}
use r_core_tutorial_v3_arm.EasyFs.Layout.Clear.{
  AreBlocks, max_blocks, get_elem?-in, length-take, length-as_words,
}

-- The answer of a lookup that cannot fail.
abbrev pub answer : Run ℕ → ℕ
answer (done n) = n
answer panic = 0

word-answers :
    (device : ℕ → List ℕ) (id i : ℕ)
    → AreBlocks device
    → i < 128
    → (x : ℕ) × (word device id i ≡ done x)
word-answers device id i blocks h =
    let (x, e) =
      get_elem?-in (as_words (device id)) i
        (omega (arith, h, length-as_words 128 (device id) (blocks id))) in
    (x, ap unwrap e)

-- Every number below `max_blocks` has a block, and the lookup does not panic.
pub get_block_id-answers :
    (inode : DiskInode) (k : ℕ) (device : ℕ → List ℕ)
    → AreBlocks device
    → length inode.direct ≡ 28
    → k < max_blocks
    → (x : ℕ) × (get_block_id inode k device ≡ done x)
unfolding get_block_id
get_block_id-answers inode k device blocks d h = elim (Bool-cases (ltb k 28)) [
  | inl y ↦
      let (x, e) = get_elem?-in inode.direct k (omega (arith, d, ltb→lt k 28 y)) in
      (x, ground (arith, y, e))
  | inr n ↦ elim (Bool-cases (ltb k 156)) [
    | inl y ↦
        let (x, e) =
          word-answers device inode.indirect1 (k - 28) blocks (omega (arith, ltb→lt k 156 y)) in
        (x, ground (arith, n, y, e))
    | inr m ↦
        let (x, e) =
          word-answers device inode.indirect2 ((k - 156) / 128) blocks (omega (arith, h)) in
        let (z, f) = word-answers device x ((k - 156) % 128) blocks (omega arith) in
        (z, ground (arith, n, m, e, f))
  ]
]

-- The byte of a file at one offset.
abbrev pub byte_at : DiskInode → (ℕ → List ℕ) → ℕ → ℕ
byte_at inode device i =
    get_or (device (answer (get_block_id inode (i / block_sz) device))) (i % block_sz) 0

pub same_place : (xs : List ℕ) (i j : ℕ) → i ≡ j → get_or xs i 0 ≡ get_or xs j 0
same_place xs i j e = ap (λ k. get_or xs k 0) e

pub get_or-take : (n i : ℕ) (xs : List ℕ) → i < n → get_or (take n xs) i 0 ≡ get_or xs i 0
get_or-take zero i xs h = absurd (omega arith)
get_or-take (suc n) i [] h = refl
get_or-take (suc n) zero (x ∷ xs) h = refl
get_or-take (suc n) (suc i) (x ∷ xs) h = get_or-take n i xs (omega arith)

pub get_or-drop : (r i : ℕ) (xs : List ℕ) → get_or (drop r xs) i 0 ≡ get_or xs (r + i) 0
get_or-drop zero i xs = same_place xs i (0 + i) (omega arith)
get_or-drop (suc r) i [] = refl
get_or-drop (suc r) i (x ∷ xs) =
    get_or-drop r i xs ∙ same_place (x ∷ xs) (suc (r + i)) (suc r + i) (omega arith)

pub get_or-append_left :
    (xs ys : List ℕ) (i : ℕ) → i < length xs → get_or (xs ++ ys) i 0 ≡ get_or xs i 0
get_or-append_left [] ys i h = absurd (omega arith)
get_or-append_left (x ∷ xs) ys zero h = refl
get_or-append_left (x ∷ xs) ys (suc i) h = get_or-append_left xs ys i (omega arith)

pub get_or-append_right :
    (xs ys : List ℕ) (i : ℕ) → get_or (xs ++ ys) (length xs + i) 0 ≡ get_or ys i 0
get_or-append_right [] ys i = same_place ys (0 + i) i (omega arith)
get_or-append_right (x ∷ xs) ys i =
    same_place (x ∷ (xs ++ ys)) (suc (length xs) + i) (suc (length xs + i)) (omega arith)
    ∙ get_or-append_right xs ys i

-- The bytes of the file from `start` to `end`.
pub record IsCopy (inode : DiskInode) (device : ℕ → List ℕ) (start end : ℕ) (bytes : List ℕ)
    : Type 0 where
  pub full : length bytes ≡ end - start
  pub same : (i : ℕ) → i < end - start → get_or bytes i 0 ≡ byte_at inode device (start + i)

slice-IsCopy :
    (inode : DiskInode) (device : ℕ → List ℕ) (start m id : ℕ)
    → AreBlocks device
    → start ≤ m
    → m ≤ (start / 512 + 1) * 512
    → get_block_id inode (start / 512) device ≡ done id
    → IsCopy inode device start m (slice (start % 512) (m - start) (device id))
slice-IsCopy inode device start m id blocks l h e = record {
  full = omega (
    arith,
    l,
    h,
    length-take (m - start) (drop (start % 512) (device id)),
    length-drop (start % 512) (device id),
    blocks id,
  );
  same = λ i k.
      get_or-take (m - start) i (drop (start % 512) (device id)) k
      ∙ get_or-drop (start % 512) i (device id)
      ∙ ap (λ b. get_or (device b) (start % 512 + i) 0) (sym (ap answer e))
      ∙ ap₂ (λ q r. get_or (device (answer (get_block_id inode q device))) r 0)
          (omega (arith, l, h, k)) (omega (arith, l, h, k));
}

append-IsCopy :
    (inode : DiskInode) (device : ℕ → List ℕ) (start m end : ℕ) (xs ys : List ℕ)
    → start ≤ m
    → m ≤ end
    → IsCopy inode device start m xs
    → IsCopy inode device m end ys
    → IsCopy inode device start end (xs ++ ys)
append-IsCopy inode device start m end xs ys l h c d = record {
  full = omega (arith, l, h, length-append xs ys, c.full, d.full);
  same = λ i k. elim (Bool-cases (ltb i (m - start))) [
    | inl y ↦
        get_or-append_left xs ys i (omega (arith, c.full, ltb→lt i (m - start) y))
        ∙ c.same i (ltb→lt i (m - start) y)
    | inr past ↦
        same_place (xs ++ ys) i (length xs + (i - (m - start))) (ground (arith, past, c.full, l))
        ∙ get_or-append_right xs ys (i - (m - start))
        ∙ d.same (i - (m - start)) (ground (arith, past, k, l, h))
        ∙ ap (byte_at inode device) (ground (arith, past, l))
  ];
}

pub round_end-bounds :
    (start end : ℕ)
    → start < end
    → (start < round_end start end)
      × (round_end start end ≤ end)
      × (round_end start end ≤ (start / 512 + 1) * 512)
round_end-bounds start end l = (omega (arith, l), omega arith, omega arith)

-- One round, and what the rounds after it copy.
round-IsCopy :
    (fuel : ℕ) (inode : DiskInode) (device : ℕ → List ℕ) (start start_block end id : ℕ)
    (rest : List ℕ)
    → AreBlocks device
    → start < end
    → start_block ≡ start / 512
    → get_block_id inode (start / 512) device ≡ done id
    → (if round_end start end == end
        then done []
        else read_loop fuel inode device (round_end start end) (suc start_block) end)
      ≡ done rest
    → IsCopy inode device (round_end start end) end rest
    → (bytes : List ℕ) × (read_loop (suc fuel) inode device start start_block end ≡ done bytes)
      × IsCopy inode device start end bytes
round-IsCopy fuel inode device start start_block end id rest blocks l b e f c =
    let (before, after, inside) = round_end-bounds start end l in
    (
      slice (start % 512) (round_end start end - start) (device id) ++ rest,
      rw (ap (λ k. get_block_id inode k device) b, e, f),
      append-IsCopy inode device start (round_end start end) end
          (slice (start % 512) (round_end start end - start) (device id)) rest
          (omega (arith, before)) after
          (slice-IsCopy inode device start (round_end start end) id blocks (omega (arith, before))
            inside e)
          c,
    )

pub next_block :
    (start end : ℕ) → round_end start end ≢ end → suc (start / 512) ≡ round_end start end / 512
next_block start end more = omega (arith, more)

read_loop-IsCopy :
    (fuel : ℕ) (inode : DiskInode) (device : ℕ → List ℕ) (start start_block end : ℕ)
    → AreBlocks device
    → length inode.direct ≡ 28
    → end ≤ max_blocks * 512
    → start < end
    → end - start ≤ fuel
    → start_block ≡ start / 512
    → (bytes : List ℕ) × (read_loop fuel inode device start start_block end ≡ done bytes)
      × IsCopy inode device start end bytes
read_loop-IsCopy zero inode device start start_block end blocks d h l f b =
    absurd (omega (arith, l, f))
read_loop-IsCopy (suc fuel) inode device start start_block end blocks d h l f b =
    let (id, e) = get_block_id-answers inode (start / 512) device blocks d (omega (arith, h, l)) in
    elim (Bool-cases (round_end start end == end)) [
      | inl y ↦
          round-IsCopy fuel inode device start start_block end id [] blocks l b e
            (ground (arith, y))
            (record { full = ground (arith, y); same = λ i k. absurd (ground (arith, y, k)) })
      | inr more ↦
          let (before, after, inside) = round_end-bounds start end l in
          let ne : round_end start end ≢ end = λ same. ground (arith, more, same) in
          let (rest, g, c) =
            read_loop-IsCopy fuel inode device (round_end start end) (suc start_block) end blocks d
              h (omega (arith, after, ne)) (omega (arith, f, before))
              (ap suc b ∙ next_block start end ne) in
          round-IsCopy fuel inode device start start_block end id rest blocks l b e
            (ground (arith, more, g)) c
    ]

-- For an inode of 28 direct entries whose size is one that it can refer to, `read_at` does not panic:
-- it copies the bytes of the file from the offset on, as many as fit into the buffer and no byte past
-- the end of the file. The fuel of its loop is enough.
pub read_at-IsCopy :
    (inode : DiskInode) (offset len : ℕ) (device : ℕ → List ℕ)
    → AreBlocks device
    → length inode.direct ≡ 28
    → inode.size ≤ max_blocks * 512
    → (bytes : List ℕ) × (read_at inode offset len device ≡ done bytes)
      × IsCopy inode device offset (min (offset + len) inode.size) bytes
unfolding read_at
read_at-IsCopy inode offset len device blocks d h =
    elim (Bool-cases (leb (min (offset + len) inode.size) offset)) [
      | inl y ↦ (
        [],
        ground (arith, y),
        record { full = ground (arith, y); same = λ i k. absurd (ground (arith, y, k)) },
      )
      | inr n ↦
          let (bytes, e, c) =
            read_loop-IsCopy (min (offset + len) inode.size - offset) inode device offset
              (offset / 512) (min (offset + len) inode.size) blocks d (omega (arith, h))
              (ground (arith, n)) (omega arith) refl in
          (bytes, ground (arith, n, e), c)
    ]
