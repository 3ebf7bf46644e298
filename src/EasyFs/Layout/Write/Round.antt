-- ===== src/EasyFs/Layout/Write/Round.antt =====
-- One round of `write_at`.
use r_core_tutorial_v3_arm.Base.{
  ℕ, ◌+◌, ◌-◌, ◌*◌, ◌/◌, ◌%◌, ◌≤◌, ◌<◌, ◌≡◌, refl, sym, ap, ◌∙◌, ◌⊎◌, inl, inr, true, false, List,
  arith, ltb, leb, ◌==◌, ltb→lt, ==_iff, eq_refl, Bool-cases, length, get_or, drop, contains,
  Distinct, done, length-drop,
}
use r_core_tutorial_v3_arm.EasyFs.Cache.{write_block}
use r_core_tutorial_v3_arm.EasyFs.Layout.{DiskInode, with_indices, slice}
use r_core_tutorial_v3_arm.EasyFs.Layout.Clear.{AreBlocks, max_blocks, length-take}
use r_core_tutorial_v3_arm.EasyFs.Layout.Copy.{same_place, get_or-take, get_or-drop}
use r_core_tutorial_v3_arm.EasyFs.Layout.Increase.Slots.{Represents}
use r_core_tutorial_v3_arm.EasyFs.Layout.Increase.Append.{get_elem?-contains}
use r_core_tutorial_v3_arm.EasyFs.Layout.Contents.{
  data_block, data_block-at, byte, data_block-apart,
}
use r_core_tutorial_v3_arm.EasyFs.Layout.Write.{copy_from_slice, write_round}
use r_core_tutorial_v3_arm.EasyFs.Layout.Write.Written.{
  length-copy_from_slice, get_or-copied, get_or-around, Represents-data,
}

-- The bytes from `start` to `end` of the file are those of `buf` from `from` on, and the others are as before.
pub record IsWritten (inode : DiskInode) (all : List ℕ) (n : ℕ) (before after : ℕ → List ℕ)
    (start end : ℕ) (buf : List ℕ) (from : ℕ) : Type 0 where
  pub kept : Represents inode after all
  pub bytes : (i : ℕ) → start ≤ i → i < end → byte all after i ≡ get_or buf (from + (i - start)) 0
  pub others :
      (i : ℕ) → i / 512 < n → (i < start) ⊎ (end ≤ i) → byte all after i ≡ byte all before i
  pub foreign : (b : ℕ) → contains all b ≡ false → after b ≡ before b

-- The device after a round.
abbrev written : (ℕ → List ℕ) → ℕ → ℕ → ℕ → ℕ → List ℕ → ℕ → List ℕ
written device id start from count buf =
    write_block device id (copy_from_slice (start % 512) (slice from count buf) (device id))

module _ (inode : DiskInode) (all : List ℕ) (n : ℕ) (d : Distinct all) (m : n ≤ max_blocks)
    (l : with_indices n ≤ length all) where
  pub append-IsWritten :
      (a b c : ℕ → List ℕ) (start mid end : ℕ) (buf : List ℕ) (from : ℕ)
      → start ≤ mid
      → mid ≤ end
      → end ≤ n * 512
      → IsWritten inode all n a b start mid buf from
      → IsWritten inode all n b c mid end buf (from + (mid - start))
      → IsWritten inode all n a c start end buf from
  append-IsWritten a b c start mid end buf from h k e v w = record {
    kept = w.kept;
    bytes = bytes;
    others = others;
    foreign = λ x y. w.foreign x y ∙ v.foreign x y;
  }
    where
      bytes : (i : ℕ) → start ≤ i → i < end → byte all c i ≡ get_or buf (from + (i - start)) 0
      bytes i p q = elim (Bool-cases (ltb i mid)) [
        | inl y ↦
            let early = ltb→lt i mid y in
            w.others i (omega (arith, q, e)) (inl early) ∙ v.bytes i p early
        | inr y ↦
            let late : mid ≤ i = ground (arith, y) in
            w.bytes i late q
            ∙ same_place buf (from + (mid - start) + (i - mid)) (from + (i - start))
                (omega (arith, h, late))
      ]

      others : (i : ℕ) → i / 512 < n → (i < start) ⊎ (end ≤ i) → byte all c i ≡ byte all a i
      others i p (inl q) = w.others i p (inl (omega (arith, q, h))) ∙ v.others i p (inl q)
      others i p (inr q) = w.others i p (inr q) ∙ v.others i p (inr (omega (arith, q, k)))

  pub round-IsWritten :
      (device : ℕ → List ℕ) (start stop : ℕ) (buf : List ℕ) (from : ℕ)
      → Represents inode device all
      → start ≤ stop
      → stop ≤ (start / 512 + 1) * 512
      → start / 512 < n
      → from + (stop - start) ≤ length buf
      → (device' : ℕ → List ℕ) × (write_round buf device
            (data_block all (start / 512))
            start
            from
            (stop - start)
          ≡ done device')
        × IsWritten inode all n device device' start stop buf from
  unfolding write_round
  round-IsWritten device start stop buf from r h k p fits = (
    (written device (data_block all (start / 512)) start from (stop - start) buf),
    rw (in_buffer, in_block) refl,
    record {
      kept =
          Represents-data inode device
            (written device (data_block all (start / 512)) start from (stop - start) buf) all
            (start / 512) n r d p l after-AreBlocks (λ b e. rw e);
      bytes = bytes;
      others = others;
      foreign = foreign;
    },
  )
    where
      in_buffer : leb (from + (stop - start)) (length buf) ≡ true
      in_buffer = ground (arith, fits)

      in_block : leb (start % 512 + (stop - start)) 512 ≡ true
      in_block = ground (arith, h, k)

      after-AreBlocks :
          AreBlocks (written device (data_block all (start / 512)) start from (stop - start) buf)
      after-AreBlocks b = ground (
        arith,
        r.blocks b,
        r.blocks (data_block all (start / 512)),
        length-copy_from_slice (start % 512) (slice from (stop - start) buf)
            (device (data_block all (start / 512))),
      )

      length-src : length (slice from (stop - start) buf) ≡ stop - start
      length-src =
          omega (arith, length-take (stop - start) (drop from buf), length-drop from buf, fits)

      at_id :
          (written device (data_block all (start / 512)) start from (stop - start) buf)
            (data_block all (start / 512))
          ≡ copy_from_slice
              (start % 512)
              (slice from (stop - start) buf)
              (device (data_block all (start / 512)))
      at_id = rw (eq_refl (data_block all (start / 512)))

      in_round :
          (i : ℕ)
          → i / 512 ≡ start / 512
          → byte all (written device (data_block all (start / 512)) start from (stop - start) buf) i
            ≡ get_or
                (copy_from_slice
                  (start % 512)
                  (slice from (stop - start) buf)
                  (device (data_block all (start / 512))))
                (i % 512)
                0
      in_round i e =
          ap
            (λ q.
              get_or
                ((written device (data_block all (start / 512)) start from (stop - start) buf)
                  (data_block all q))
                (i % 512) 0)
            e
          ∙ ap (λ b. get_or b (i % 512) 0) at_id

      bytes :
          (i : ℕ)
          → start ≤ i
          → i < stop
          → byte all (written device (data_block all (start / 512)) start from (stop - start) buf) i
            ≡ get_or buf (from + (i - start)) 0
      bytes i u v =
          in_round i (omega (arith, u, v, k))
          ∙ get_or-copied (start % 512) (slice from (stop - start) buf)
              (device (data_block all (start / 512))) (i % 512) (omega (arith, u, v, k))
              (omega (arith, u, v, k, length-src))
              (omega (arith, h, k, length-src, r.blocks (data_block all (start / 512))))
          ∙ same_place (slice from (stop - start) buf) (i % 512 - start % 512) (i - start)
              (omega (arith, u, v, k))
          ∙ get_or-take (stop - start) (i - start) (drop from buf) (omega (arith, u, v))
          ∙ get_or-drop from (i - start) buf

      others :
          (i : ℕ)
          → i / 512 < n
          → (i < start) ⊎ (stop ≤ i)
          → byte all (written device (data_block all (start / 512)) start from (stop - start) buf) i
            ≡ byte all device i
      others i q out = elim (Bool-cases (i / 512 == start / 512)) [
        | inl y ↦
            let e : i / 512 ≡ start / 512 = (==_iff (i / 512) (start / 512)).0 y in
            in_round i e
            ∙ get_or-around (start % 512) (slice from (stop - start) buf)
                (device (data_block all (start / 512))) (i % 512) (outside e out)
            ∙ ap (λ q. get_or (device (data_block all q)) (i % 512) 0) (sym e)
        | inr y ↦
            rw
              (data_block-apart all (start / 512) (i / 512) n d p q l
                (λ e. absurd (ground (arith, y, e))))
              refl
      ]
        where
          outside :
              i / 512 ≡ start / 512
              → (i < start) ⊎ (stop ≤ i)
              → (i % 512 < start % 512)
                ⊎ (start % 512 + length (slice from (stop - start) buf) ≤ i % 512)
          outside e (inl before) = inl (omega (arith, e, before))
          outside e (inr past) = inr (omega (arith, e, past, h, length-src))

      foreign :
          (b : ℕ)
          → contains all b ≡ false
          → (written device (data_block all (start / 512)) start from (stop - start) buf) b
            ≡ device b
      foreign b c = elim (Bool-cases ((data_block all (start / 512)) == b)) [
        | inr y ↦ rw y
        | inl y ↦ absurd (
            grind (
              arith,
              c,
              (==_iff (data_block all (start / 512)) b).0 y,
              get_elem?-contains all _ (data_block all (start / 512))
                  (data_block-at all (start / 512) n p l),
            ))
      ]
