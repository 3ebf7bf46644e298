-- ===== src/EasyFs/Layout/Released.antt =====
-- The blocks that `clear_size` gives back are the list of the inode's blocks.
use r_core_tutorial_v3_arm.Base.{
  ℕ, ◌+◌, ◌-◌, ◌*◌, ◌/◌, ◌≤◌, ◌<◌, min, ◌≡◌, refl, sym, ap, ◌∙◌, inl, inr, true, some, List, ◌∷◌,
  ◌++◌, arith, ltb, ltb→lt, Bool-cases, length, get_elem?, length-append, Run, done, done-injective,
}
use r_core_tutorial_v3_arm.EasyFs.Layout.{
  DiskInode, with_indices, total_blocks, as_words, push_entries, reset_entries, clear_indirect2,
  clear_indirect1, clear_size,
}
use r_core_tutorial_v3_arm.EasyFs.Layout.Sizes.{blocks_of, data_blocks-eq, total_blocks-eq}
use r_core_tutorial_v3_arm.EasyFs.Layout.Clear.{max_blocks, clear_size-total}
use r_core_tutorial_v3_arm.EasyFs.Layout.Increase.Slots.{direct_slot, Represents}
use r_core_tutorial_v3_arm.EasyFs.Layout.Increase.Append.{first_named, second_named}
use r_core_tutorial_v3_arm.EasyFs.Layout.Parts.{
  IsPart, cons-IsPart, append-IsPart, IsPart-whole, unwrap-some, push_entries-IsPart,
}
use r_core_tutorial_v3_arm.EasyFs.Layout.Indices.{entries_agree, push_indirect2-IsPart}

abbrev pub cleared : List ℕ → DiskInode → Run (List ℕ × DiskInode)
cleared v inode = done (v, inode)

first_run :
    (k : DiskInode) (n : ℕ) (v : List ℕ) (device : ℕ → List ℕ) (w : List ℕ)
    (result : Run (List ℕ × DiskInode))
    → ltb 28 n ≡ true
    → push_entries (min (n - 28) 128) 0 (as_words (device k.indirect1)) ≡ done w
    → clear_indirect2 (record k { indirect1 = 0 }) (n - 28) (v ++ (k.indirect1 ∷ w)) device ≡ result
    → clear_indirect1 k n v device ≡ result
first_run k n v device w result y e f = rw (y, e) f

module _ (inode : DiskInode) (device : ℕ → List ℕ) (all : List ℕ)
    (r : Represents inode device all) where
  second-IsPart :
      (k : DiskInode) (n : ℕ) (v : List ℕ)
      → k.indirect2 ≡ inode.indirect2
      → n ≤ 128 + 128 * 128
      → (128 < n → length v ≡ 157)
      → (128 < n → 158 + (n - 128 + (n - 128 + 127) / 128) ≤ length all)
      → IsPart all 0 v
      → (w : List ℕ) × (k' : DiskInode) × (clear_indirect2 k n v device ≡ cleared w k')
        × IsPart all 0 w
  second-IsPart k n v same h l fits part = elim (Bool-cases (ltb 128 n)) [
    | inr few ↦ (v, k, rw few refl, part)
    | inl y ↦
        let many = ltb→lt 128 n y in
        let (w, e, p) =
          push_indirect2-IsPart inode device all r (n - 128) (omega (arith, h)) (fits many) in
        (
          v ++ (k.indirect2 ∷ w),
          record k { indirect2 = 0 },
          rw (y, same, e) refl,
          append-IsPart all 0 v (k.indirect2 ∷ w) part (
              cons-IsPart all (0 + length v) k.indirect2 w
                (ap (get_elem? all) (omega (arith, l many))
                  ∙ second_named inode device all r (omega (arith, fits many))
                  ∙ ap some (sym same))
                (λ i q x d f. p i q x (omega (arith, d, l many)) f)),
        )
  ]

  first-IsPart :
      (k : DiskInode) (n : ℕ) (v : List ℕ)
      → k.indirect1 ≡ inode.indirect1
      → k.indirect2 ≡ inode.indirect2
      → n ≤ 156 + 128 * 128
      → length v ≡ min n 28
      → with_indices n ≤ length all
      → IsPart all 0 v
      → (w : List ℕ) × (k' : DiskInode) × (clear_indirect1 k n v device ≡ cleared w k')
        × IsPart all 0 w
  first-IsPart k n v same same2 h l fits part = elim (Bool-cases (ltb 28 n)) [
    | inr few ↦ (v, k, rw few refl, part)
    | inl y ↦
        let more = ltb→lt 28 n y in
        let count : ℕ = min (n - 28) 128 in
        let room : 29 + min (n - 28) 128 ≤ length all = ground (arith, fits, more) in
        let (w, e, p, j) =
          push_entries-IsPart (min (n - 28) 128) 0 (as_words (device inode.indirect1)) all 29 room
            (λ i x b f.
              ap (get_elem? (as_words (device inode.indirect1))) (omega arith)
              ∙ entries_agree inode device all r i x (omega (arith, b)) f) in
        let joined : IsPart all 0 (v ++ (k.indirect1 ∷ w)) =
          append-IsPart all 0 v (k.indirect1 ∷ w) part (
            cons-IsPart all (0 + length v) k.indirect1 w
              (ap (get_elem? all) (omega (arith, l, more))
                ∙ first_named inode device all r (omega (arith, room))
                ∙ ap some (sym same))
              (λ i q x d f. p i q x (omega (arith, d, l, more)) f)) in
        let (w', k', e', p') =
          second-IsPart (record k { indirect1 = 0 }) (n - 28) (v ++ (k.indirect1 ∷ w)) same2
            (omega (arith, h))
            (λ many. omega (arith, many, length-append v (k.indirect1 ∷ w), l, j))
            (λ many. ground (arith, fits, many)) joined in
        (
          w',
          k',
          first_run k n v device w (cleared w' k') y
              (ap (λ id. push_entries (min (n - 28) 128) 0 (as_words (device id))) same ∙ e) e',
          p',
        )
  ]

-- An inode whose blocks are the list `all`, as many as its size asks for: `clear_size` does not panic, leaves the
-- size 0, and gives back that list, of as many blocks as `total_blocks` of the old size says.
pub clear_size-released :
    (inode : DiskInode) (device : ℕ → List ℕ) (all : List ℕ)
    → Represents inode device all
    → length all ≡ with_indices (blocks_of inode.size)
    → blocks_of inode.size ≤ max_blocks
    → (inode' : DiskInode) × (clear_size inode device ≡ cleared all inode')
      × (inode'.size ≡ 0)
      × (total_blocks inode.size ≡ done (length all))
unfolding clear_size
clear_size-released inode device all r l h =
    let (total, kept, ran, count, empty) = clear_size-total inode device r.blocks r.directs h in
    let (v, e, p, j) =
      push_entries-IsPart (min (blocks_of inode.size) 28) 0 inode.direct all 0 (ground (arith, l))
        (λ i x b f.
          unwrap-some (get_elem? inode.direct (0 + i)) x
            (r.held (direct_slot (0 + i)) x (omega (arith, b)) f)) in
    let (w, k', e', p') =
      first-IsPart inode device all r
        (record inode {
          size = 0;
          direct = reset_entries (min (blocks_of inode.size) 28) 0 inode.direct;
        })
        (blocks_of inode.size) v refl refl h j (omega (arith, l)) p in
    let all_done : clear_size inode device ≡ cleared w k' =
      rw (data_blocks-eq inode.size (omega (arith, h)), e) e' in
    let pair = done-injective (sym all_done ∙ ran) in
    let lengths : length w ≡ length all =
      ap (λ z. length z.0) pair
      ∙ done-injective (sym count ∙ total_blocks-eq inode.size (omega (arith, h)))
      ∙ sym l in
    let whole = IsPart-whole all w p' lengths in
    (
      k',
      all_done ∙ ap (λ z. cleared z k') whole,
      ap (λ z. z.1.size) pair ∙ empty,
      count ∙ ap done (sym (ap (λ z. length z.0) pair) ∙ lengths),
    )
