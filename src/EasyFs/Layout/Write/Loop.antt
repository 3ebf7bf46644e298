-- ===== src/EasyFs/Layout/Write/Loop.antt =====
-- The rounds of `write_at`.
use r_core_tutorial_v3_arm.Base.{
  ℕ, zero, suc, ◌+◌, ◌-◌, ◌*◌, ◌/◌, ◌≤◌, ◌<◌, ◌≡◌, ap, ◌∙◌, subst, ◌≢◌, inl, inr, List, arith, ◌==◌,
  ==_iff, Bool-cases, length, Distinct, Run, done,
}
use r_core_tutorial_v3_arm.EasyFs.Layout.{DiskInode, with_indices, get_block_id, round_end}
use r_core_tutorial_v3_arm.EasyFs.Layout.Clear.{max_blocks}
use r_core_tutorial_v3_arm.EasyFs.Layout.Copy.{round_end-bounds, next_block}
use r_core_tutorial_v3_arm.EasyFs.Layout.Increase.Slots.{Represents}
use r_core_tutorial_v3_arm.EasyFs.Layout.Contents.{data_block, get_block_id-data_block}
use r_core_tutorial_v3_arm.EasyFs.Layout.Write.{write_loop}
use r_core_tutorial_v3_arm.EasyFs.Layout.Write.Round.{IsWritten, append-IsWritten, round-IsWritten}

abbrev pub wrote : ℕ → (ℕ → List ℕ) → Run (ℕ × (ℕ → List ℕ))
wrote count device = done (count, device)

module _ (inode : DiskInode) (all : List ℕ) (n : ℕ) (d : Distinct all) (m : n ≤ max_blocks)
    (l : with_indices n ≤ length all) where
  pub write_loop-IsWritten :
      (fuel : ℕ) (buf : List ℕ) (device : ℕ → List ℕ) (start start_block end from : ℕ)
      → Represents inode device all
      → start < end
      → end ≤ n * 512
      → end - start ≤ fuel
      → start_block ≡ start / 512
      → from + (end - start) ≤ length buf
      → (device' : ℕ → List ℕ) × (write_loop fuel inode buf device start start_block end from
          ≡ wrote (from + (end - start)) device')
        × IsWritten inode all n device device' start end buf from
  write_loop-IsWritten zero buf device start start_block end from r h e f b fits =
      absurd (omega (arith, h, f))
  write_loop-IsWritten (suc fuel) buf device start start_block end from r h e f b fits =
      let (before, after, inside) = round_end-bounds start end h in
      let (device', p, w) =
        round-IsWritten inode all n d m l device start (round_end start end) buf from r
          (omega (arith, before)) inside (omega (arith, h, e))
          (omega (arith, fits, after, before)) in
      let id : get_block_id inode start_block device ≡ done (data_block all (start / 512)) =
        ap (λ k. get_block_id inode k device) b
        ∙ get_block_id-data_block inode device all (start / 512) n r (omega (arith, h, e)) m l in
      elim (Bool-cases (round_end start end == end)) [
        | inl y ↦
            let last : round_end start end ≡ end = (==_iff (round_end start end) end).0 y in
            (
              device',
              rw (id, p, y) (ap (λ z. wrote (from + (z - start)) device') last),
              subst (λ z. IsWritten inode all n device device' start z buf from) last w,
            )
        | inr more ↦
            let ne : round_end start end ≢ end = λ same. ground (arith, more, same) in
            let (device'', q, v) =
              write_loop-IsWritten fuel buf device' (round_end start end) (suc start_block) end
                (from + (round_end start end - start)) w.kept (omega (arith, after, ne)) e
                (omega (arith, f, before)) (ap suc b ∙ next_block start end ne)
                (omega (arith, fits, after, before)) in
            let total : from + (round_end start end - start) + (end - round_end start end)
                ≡ from + (end - start) =
              omega (arith, before, after) in
            (
              device'',
              rw (id, p, more) (q ∙ ap (λ z. wrote z device'') total),
              append-IsWritten inode all n d m l device device' device'' start (round_end start end)
                  end buf from (omega (arith, before)) after e w v,
            )
      ]
