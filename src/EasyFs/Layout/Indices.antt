-- ===== src/EasyFs/Layout/Indices.antt =====
-- The blocks of indices, and those they name, as parts of the list of an inode's blocks.
use r_core_tutorial_v3_arm.Base.{
  ℕ, zero, suc, ◌+◌, ◌*◌, ◌/◌, ◌%◌, ◌≤◌, ◌<◌, ◌≡◌, refl, sym, ap, ◌∙◌, some, List, [], ◌∷◌, ◌++◌,
  arith, ltb, if◌then◌else◌, length, get_elem?, take, done, ◌>>=◌,
}
use r_core_tutorial_v3_arm.EasyFs.Layout.{
  DiskInode, as_words, word, push_full, push_last, push_indirect2,
}
use r_core_tutorial_v3_arm.EasyFs.Layout.Clear.{
  get_elem?-in, length-take, length-as_words, push_full-length,
}
use r_core_tutorial_v3_arm.EasyFs.Layout.Increase.Slots.{
  entry_slot, row_slot, leaf_slot, Represents,
}
use r_core_tutorial_v3_arm.EasyFs.Layout.Parts.{
  IsPart, nothing-IsPart, cons-IsPart, append-IsPart, unwrap-some, agree-IsPart, get_elem?-take,
}

module _ (inode : DiskInode) (device : ℕ → List ℕ) (all : List ℕ)
    (r : Represents inode device all) where
  full_words : (id : ℕ) → length (as_words (device id)) ≡ 128
  full_words id = length-as_words 128 (device id) (r.blocks id)

  pub entries_agree :
      (i x : ℕ)
      → i < 128
      → get_elem? all (29 + i) ≡ some x
      → get_elem? (as_words (device inode.indirect1)) i ≡ some x
  entries_agree i x h e =
      unwrap-some (get_elem? (as_words (device inode.indirect1)) i) x (r.held (entry_slot i) x h e)

  rows_agree :
      (a x : ℕ)
      → a < 128
      → get_elem? all (158 + 129 * a) ≡ some x
      → get_elem? (as_words (device inode.indirect2)) a ≡ some x
  rows_agree a x h e =
      unwrap-some (get_elem? (as_words (device inode.indirect2)) a) x (r.held (row_slot a) x h e)

  leaves_agree :
      (a b z x : ℕ)
      → a < 128
      → b < 128
      → get_elem? all (158 + 129 * a) ≡ some z
      → get_elem? all (159 + 129 * a + b) ≡ some x
      → get_elem? (as_words (device z)) b ≡ some x
  leaves_agree a b z x ha hb e f = unwrap-some (get_elem? (as_words (device z)) b) x (
      ap (λ m. m >>= λ id. word device id b) (sym (r.held (row_slot a) z ha e))
      ∙ r.held (leaf_slot a b) x (ha, hb) f)

  row-IsPart :
      (a z n : ℕ)
      → a < 128
      → n ≤ 128
      → get_elem? all (158 + 129 * a) ≡ some z
      → 159 + 129 * a + n ≤ length all
      → IsPart all (159 + 129 * a) (take n (as_words (device z)))
  row-IsPart a z n ha hn e fits =
      agree-IsPart (take n (as_words (device z))) all (159 + 129 * a) n fits
        (omega (arith, length-take n (as_words (device z))))
        (λ b x h f.
          get_elem?-take n b (as_words (device z)) h
          ∙ leaves_agree a b z x ha (omega (arith, h, hn)) e f)

  push_full-IsPart :
      (entries : List ℕ) (a p : ℕ)
      → p ≡ 158 + 129 * a
      → a + length entries ≤ 128
      → p + 129 * length entries ≤ length all
      → ((j x : ℕ)
          → j < length entries
          → get_elem? all (158 + 129 * (a + j)) ≡ some x
          → get_elem? entries j ≡ some x)
      → IsPart all p (push_full device entries)
  push_full-IsPart [] a p e h fits agree = nothing-IsPart all p
  push_full-IsPart (z ∷ entries) a p e h fits agree =
      let (y, g) = get_elem?-in all (158 + 129 * a) (omega (arith, e, fits)) in
      let first : some z ≡ some y =
        agree 0 y (omega arith) (ap (get_elem? all) (omega arith) ∙ g) in
      let at : get_elem? all (158 + 129 * a) ≡ some z = g ∙ sym first in
      cons-IsPart all p z (as_words (device z) ++ push_full device entries)
        (ap (get_elem? all) e ∙ at)
        (append-IsPart all (suc p) (as_words (device z)) (push_full device entries)
          (agree-IsPart (as_words (device z)) all (suc p) 128 (omega (arith, fits))
            (omega (arith, full_words z))
            (λ b x hb f.
              leaves_agree a b z x (omega (arith, h)) hb at
                (ap (get_elem? all) (omega (arith, e)) ∙ f)))
          (push_full-IsPart entries (suc a) (suc p + length (as_words (device z)))
            (omega (arith, e, full_words z)) (omega (arith, h)) (omega (arith, fits, full_words z))
            (λ j x hj f.
              agree (suc j) x (omega (arith, hj)) (ap (get_elem? all) (omega arith) ∙ f))))

  push_last-IsPart :
      (a b : ℕ)
      → b < 128
      → (0 < b → a < 128)
      → 158 + 129 * a + (if ltb 0 b then suc b else 0) ≤ length all
      → (v : List ℕ) × (push_last device inode.indirect2 a b ≡ done v)
        × IsPart all (158 + 129 * a) v
  push_last-IsPart a zero lb la fits = ([], refl, nothing-IsPart all (158 + 129 * a))
  push_last-IsPart a (suc b) lb la fits =
      let row : a < 128 = la (omega arith) in
      let room : 159 + 129 * a + suc b ≤ length all = ground (arith, fits) in
      let (z, g) = get_elem?-in all (158 + 129 * a) (omega (arith, room)) in
      (
        z ∷ take (suc b) (as_words (device z)),
        ground (arith, rows_agree a z row g),
        cons-IsPart all (158 + 129 * a) z (take (suc b) (as_words (device z))) g (λ i q x e f.
            row-IsPart a z (suc b) row (omega (arith, lb)) g room i q x (omega (arith, e)) f),
      )

  pub push_indirect2-IsPart :
      (n : ℕ)
      → n ≤ 128 * 128
      → 158 + (n + (n + 127) / 128) ≤ length all
      → (v : List ℕ) × (push_indirect2 device inode.indirect2 n ≡ done v) × IsPart all 158 v
  push_indirect2-IsPart n h fits =
      let words = as_words (device inode.indirect2) in
      let entries = take (n / 128) (as_words (device inode.indirect2)) in
      let count : length (take (n / 128) (as_words (device inode.indirect2))) ≡ n / 128 = omega (
        arith,
        h,
        length-take (n / 128) (as_words (device inode.indirect2)),
        full_words inode.indirect2,
      ) in
      let (last, e, k) =
        push_last-IsPart (n / 128) (n % 128) (omega arith) (λ more. omega (arith, more, h))
          (ground (arith, fits)) in
      (
        push_full device entries ++ last,
        rw e (ground (arith, h)),
        append-IsPart all 158 (push_full device entries) last
            (push_full-IsPart entries 0 158 (omega arith) (omega (arith, count, h))
              (omega (arith, count, fits))
              (λ j x hj f.
                get_elem?-take (n / 128) j words (omega (arith, count, hj))
                ∙ rows_agree j x (omega (arith, count, hj, h))
                    (ap (get_elem? all) (omega arith) ∙ f)))
            (λ i q x d f.
              k i q x (omega (arith, d, count, push_full-length device entries r.blocks)) f),
      )
