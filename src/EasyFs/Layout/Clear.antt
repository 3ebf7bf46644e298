-- ===== src/EasyFs/Layout/Clear.antt =====
-- `clear_size` gives back as many blocks as the size accounts for.
use r_core_tutorial_v3_arm.Base.{
  ℕ, zero, suc, ◌+◌, ◌-◌, ◌*◌, ◌/◌, ◌%◌, ◌≤◌, ◌<◌, min, ◌≡◌, refl, ap, ◌∙◌, ◌⊎◌, inl, inr, true,
  some, List, [], ◌∷◌, ◌++◌, arith, ltb, if◌then◌else◌, ltb→lt, Bool-cases, length, get_elem?, take,
  length-append, Run, done,
}
use r_core_tutorial_v3_arm.EasyFs.Layout.{
  block_sz, inode_indirect2_count, indirect1_bound, DiskInode, with_indices, total_blocks, as_words,
  push_entries, reset_entries, push_full, push_last, push_indirect2, clear_indirect2,
  clear_indirect1, clear_size,
}
use r_core_tutorial_v3_arm.EasyFs.Layout.Sizes.{blocks_of, data_blocks-eq, total_blocks-eq}

abbrev pub AreBlocks : (ℕ → List ℕ) → Type 0
AreBlocks device = (i : ℕ) → length (device i) ≡ block_sz

-- The most blocks of data that an inode can refer to.
abbrev pub max_blocks : ℕ
max_blocks = indirect1_bound + inode_indirect2_count

pub get_elem?-in {ℓ} :
    {A : Type ℓ} (xs : List A) (i : ℕ) → i < length xs → (x : A) × (get_elem? xs i ≡ some x)
get_elem?-in [] i h = absurd (omega arith)
get_elem?-in (x ∷ xs) zero h = (x, refl)
get_elem?-in (x ∷ xs) (suc i) h = get_elem?-in xs i (omega arith)

pub length-take {ℓ} : {A : Type ℓ} (n : ℕ) (xs : List A) → length (take n xs) ≡ min n (length xs)
length-take zero xs = omega arith
length-take (suc n) [] = omega arith
length-take (suc n) (x ∷ xs) = omega (arith, length-take n xs)

pub length-as_words : (n : ℕ) (bytes : List ℕ) → length bytes ≡ 4 * n → length (as_words bytes) ≡ n
length-as_words zero [] h = refl
length-as_words zero (a ∷ bytes) h = absurd (omega (arith, h))
length-as_words (suc n) [] h = absurd (omega (arith, h))
length-as_words (suc n) (a ∷ []) h = absurd (omega (arith, h))
length-as_words (suc n) (a ∷ b ∷ []) h = absurd (omega (arith, h))
length-as_words (suc n) (a ∷ b ∷ c ∷ []) h = absurd (omega (arith, h))
length-as_words (suc n) (a ∷ b ∷ c ∷ d ∷ bytes) h =
    ap suc (length-as_words n bytes (omega (arith, h)))

push_entries-length :
    (n current : ℕ) (words : List ℕ)
    → current + n ≤ length words
    → (v : List ℕ) × (push_entries n current words ≡ done v) × (length v ≡ n)
push_entries-length zero current words h = ([], refl, refl)
push_entries-length (suc n) current words h =
    let (x, e) = get_elem?-in words current (omega arith) in
    let (v, f, l) = push_entries-length n (suc current) words (omega arith) in
    (x ∷ v, rw (e, f), ap suc l)

pub push_full-length :
    (device : ℕ → List ℕ) (entries : List ℕ)
    → AreBlocks device
    → length (push_full device entries) ≡ 129 * length entries
push_full-length device [] a = omega arith
push_full-length device (x ∷ entries) a = omega (
  arith,
  length-append (as_words (device x)) (push_full device entries),
  length-as_words 128 (device x) (a x),
  push_full-length device entries a,
)

push_last-length :
    (device : ℕ → List ℕ) (indirect2 a b : ℕ)
    → AreBlocks device
    → b < 128
    → (a < 128) ⊎ (b ≡ 0)
    → (v : List ℕ) × (push_last device indirect2 a b ≡ done v)
      × (length v ≡ (if ltb 0 b then suc b else 0))
push_last-length device indirect2 a zero blocks lb h = ([], refl, refl)
push_last-length device indirect2 a (suc b) blocks lb (inr h) = absurd (omega (arith, h))
push_last-length device indirect2 a (suc b) blocks lb (inl la) =
    let (x, e) =
      get_elem?-in (as_words (device indirect2)) a
        (omega (arith, length-as_words 128 (device indirect2) (blocks indirect2))) in
    (
      x ∷ take (suc b) (as_words (device x)),
      ground (arith, e),
      ground (
        arith,
        length-take (suc b) (as_words (device x)),
        length-as_words 128 (device x) (blocks x),
      ),
    )

full_and_last :
    (n full last entries : ℕ)
    → n ≤ inode_indirect2_count
    → entries ≡ min (n / 128) 128
    → full ≡ 129 * entries
    → last ≡ (if ltb 0 (n % 128) then suc (n % 128) else 0)
    → full + last ≡ n + (n + 127) / 128
full_and_last n full last entries h e f l = elim (Bool-cases (ltb 0 (n % 128))) [
  | inl y ↦ omega (arith, h, e, f, at_some y, ltb→lt 0 (n % 128) y)
  | inr z ↦ ground (arith, h, e, f, l, z)
]
  where
    at_some : ltb 0 (n % 128) ≡ true → last ≡ suc (n % 128)
    at_some y = ground (arith, l, y)

push_indirect2-length :
    (device : ℕ → List ℕ) (indirect2 n : ℕ)
    → AreBlocks device
    → n ≤ inode_indirect2_count
    → (v : List ℕ) × (push_indirect2 device indirect2 n ≡ done v) × (length v ≡ n + (n + 127) / 128)
push_indirect2-length device indirect2 n blocks h =
    let words = as_words (device indirect2) in
    let entries = take (n / 128) words in
    let (last, e, l) =
      push_last-length device indirect2 (n / 128) (n % 128) blocks (omega arith)
        (ground (arith, h)) in
    (
      push_full device entries ++ last,
      rw e (ground (arith, h)),
      length-append (push_full device entries) last
          ∙ full_and_last n (length (push_full device entries)) (length last) (length entries) h
              (omega (
                arith,
                length-take (n / 128) words,
                length-as_words 128 (device indirect2) (blocks indirect2),
              ))
              (push_full-length device entries blocks) l,
    )

-- A part of `clear_size` answers, with so many blocks after those of `v`, and the size stays.
abbrev Clears : Run (List ℕ × DiskInode) → DiskInode → List ℕ → ℕ → Type 0
Clears run inode v n =
    (w : List ℕ) × (inode' : DiskInode) × (run ≡ done (w, inode'))
    × (length w ≡ length v + n)
    × (inode'.size ≡ inode.size)
    × (inode'.direct ≡ inode.direct)

clear_indirect2-Clears :
    (inode : DiskInode) (n : ℕ) (v : List ℕ) (device : ℕ → List ℕ)
    → AreBlocks device
    → n ≤ 128 + inode_indirect2_count
    → Clears
        (clear_indirect2 inode n v device)
        inode
        v
        (if ltb 128 n then 1 + (n - 128) + (n - 128 + 127) / 128 else 0)
clear_indirect2-Clears inode n v device blocks h = elim (Bool-cases (ltb 128 n)) [
  | inr few ↦ (v, inode, ground (arith, few), ground (arith, few), refl, refl)
  | inl many ↦
      let (w, e, l) =
        push_indirect2-length device inode.indirect2 (n - 128) blocks (omega (arith, h)) in
      (
        v ++ (inode.indirect2 ∷ w),
        record inode { indirect2 = 0 },
        ground (arith, many, e),
        ground (arith, many, length-append v (inode.indirect2 ∷ w), l),
        refl,
        refl,
      )
]

clear_indirect1-many :
    (inode : DiskInode) (n : ℕ) (v w : List ℕ) (device : ℕ → List ℕ)
    → ltb 28 n ≡ true
    → push_entries (min (n - 28) 128) 0 (as_words (device inode.indirect1)) ≡ done w
    → clear_indirect1 inode n v device
      ≡ clear_indirect2
          (record inode { indirect1 = 0 })
          (n - 28)
          (v ++ (inode.indirect1 ∷ w))
          device
clear_indirect1-many inode n v w device many e = ground (arith, many, e)

many_blocks :
    (n : ℕ) (first : ℕ)
    → ltb 28 n ≡ true
    → first
        + suc (min (n - 28) 128)
        + (if ltb 128 (n - 28) then 1 + (n - 28 - 128) + (n - 28 - 128 + 127) / 128 else 0)
      ≡ first + (with_indices n - min n 28)
many_blocks n first many = ground (arith, many)

lengths :
    (n v w u vw : ℕ)
    → ltb 28 n ≡ true
    → w ≡ min (n - 28) 128
    → vw ≡ v + suc w
    → u ≡ vw + (if ltb 128 (n - 28) then 1 + (n - 28 - 128) + (n - 28 - 128 + 127) / 128 else 0)
    → u ≡ v + (with_indices n - min n 28)
lengths n v w u vw many a b c =
    c ∙ ap (λ (x : ℕ). x + indirect) (b ∙ ap (λ (x : ℕ). v + suc x) a) ∙ many_blocks n v many
  where
    indirect : ℕ
    indirect = if ltb 128 (n - 28) then 1 + (n - 28 - 128) + (n - 28 - 128 + 127) / 128 else 0

clear_indirect1-Clears :
    (inode : DiskInode) (n : ℕ) (v : List ℕ) (device : ℕ → List ℕ)
    → AreBlocks device
    → n ≤ max_blocks
    → Clears (clear_indirect1 inode n v device) inode v (with_indices n - min n 28)
clear_indirect1-Clears inode n v device blocks h = elim (Bool-cases (ltb 28 n)) [
  | inr few ↦ (v, inode, ground (arith, few), ground (arith, few), refl, refl)
  | inl many ↦
      let (w, e, l) =
        push_entries-length (min (n - 28) 128) 0 (as_words (device inode.indirect1))
          (omega (arith, length-as_words 128 (device inode.indirect1) (blocks inode.indirect1))) in
      let (u, inode', f, k, s, d) =
        clear_indirect2-Clears (record inode { indirect1 = 0 }) (n - 28)
          (v ++ (inode.indirect1 ∷ w)) device blocks (omega (arith, h)) in
      (
        u,
        inode',
        clear_indirect1-many inode n v w device many e ∙ f,
        lengths n (length v) (length w) (length u) (length (v ++ (inode.indirect1 ∷ w))) many l
            (length-append v (inode.indirect1 ∷ w)) k,
        s,
        d,
      )
]

-- For an inode of 28 direct entries and at most `max_blocks` blocks of data, `clear_size` does not
-- panic and leaves the size zero; it returns exactly as many blocks as `total_blocks` of the old size
-- says, which is what `Inode::clear` asserts.
pub clear_size-total :
    (inode : DiskInode) (device : ℕ → List ℕ)
    → AreBlocks device
    → length inode.direct ≡ 28
    → blocks_of inode.size ≤ max_blocks
    → (v : List ℕ) × (inode' : DiskInode) × (clear_size inode device ≡ done (v, inode'))
      × (total_blocks inode.size ≡ done (length v))
      × (inode'.size ≡ 0)
unfolding clear_size
clear_size-total inode device blocks d h =
    let (v, e, l) =
      push_entries-length (min (blocks_of inode.size) 28) 0 inode.direct (omega (arith, d)) in
    let (w, inode', f, k, s, t) =
      clear_indirect1-Clears
        (record inode {
          size = 0;
          direct = reset_entries (min (blocks_of inode.size) 28) 0 inode.direct;
        })
        (blocks_of inode.size) v device blocks h in
    (
      w,
      inode',
      rw (data_blocks-eq inode.size (omega (arith, h)), e) f,
      total_blocks-eq inode.size (omega (arith, h))
          ∙ ap done (all_blocks (blocks_of inode.size) (length v) (length w) l k),
      s,
    )
  where
    all_blocks :
        (n v w : ℕ) → v ≡ min n 28 → w ≡ v + (with_indices n - min n 28) → with_indices n ≡ w
    all_blocks n v w a b = ground (arith, a, b)
