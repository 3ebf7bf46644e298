-- ===== src/EasyFs/Layout/Write.antt =====
-- easy-fs/src/layout.rs: `write_at`. A write of no bytes asks for a block all the same, and changes nothing in it.
pub mod Written
pub mod Round
pub mod Loop
pub mod Refine
use r_core_tutorial_v3_arm.Base.{
  ℕ, zero, suc, ◌+◌, ◌-◌, ◌*◌, ◌/◌, ◌%◌, ◌^◌, ◌≤◌, ◌<◌, min, bit_and, bit_or, ◌≡◌, refl, sym, ap,
  ◌∙◌, subst, fun_ext, ◌≢◌, ◌↔◌, ◌⊎◌, inl, inr, Bool, true, false, not, ◌&&◌, ◌||◌, Option, none,
  some, List, [], ◌∷◌, ◌++◌, map, arith, ltb, leb, ◌==◌, if◌then◌else◌, ltb→lt, leb→le, ==_iff,
  eq_refl, Bool-cases, Option-cases, length, get_elem?, set, get_or, take, drop, replicate,
  length-append, length-set, length-replicate, get_or-set_self, get_or-set_ne, get_elem?-set_self,
  get_elem?-set_ne, All, All-map, All-append, contains, Distinct, contains-append, Distinct-snoc,
  Run, done, panic, ◌>>=◌, ◌>>◌, take-nil, drop-nil, take-append-drop, length-drop, List-cases,
  ltb-suc, ltb-zero, assert, unwrap, done-injective,
}
use r_core_tutorial_v3_arm.EasyFs.Cache.{write_block}
use r_core_tutorial_v3_arm.EasyFs.Layout.{block_sz, DiskInode, get_block_id, slice, round_end}

-- `dst[from..from + src.len()].copy_from_slice(src)`, for a range within `dst`.
abbrev pub copy_from_slice : ℕ → List ℕ → List ℕ → List ℕ
copy_from_slice from src [] = []
copy_from_slice zero [] (b ∷ dst) = b ∷ dst
copy_from_slice zero (x ∷ src) (b ∷ dst) = x ∷ copy_from_slice zero src dst
copy_from_slice (suc from) src (b ∷ dst) = b ∷ copy_from_slice from src dst

-- The change of one round, of `count` bytes.
unfoldable pub write_round : List ℕ → (ℕ → List ℕ) → ℕ → ℕ → ℕ → ℕ → Run (ℕ → List ℕ)
write_round buf device id start write_size count =
    assert (leb (write_size + count) (length buf))
    >> (assert (leb (start % block_sz + count) block_sz)
        >> done (
            write_block device id
              (copy_from_slice (start % block_sz) (slice write_size count buf) (device id))))

-- The loop, on fuel, with the `write_size` so far.
abbrev pub write_loop :
    ℕ → DiskInode → List ℕ → (ℕ → List ℕ) → ℕ → ℕ → ℕ → ℕ → Run (ℕ × (ℕ → List ℕ))
write_loop zero inode buf device start start_block end write_size = panic
write_loop (suc fuel) inode buf device start start_block end write_size = do
  id ← get_block_id inode start_block device
  device' ← write_round buf device id start write_size (round_end start end - start)
  elim (round_end start end == end) [
    | true ↦ done (write_size + (round_end start end - start), device')
    | false ↦
        write_loop fuel inode buf device' (round_end start end) (suc start_block) end
          (write_size + (round_end start end - start))
  ]

unfoldable pub write_at : DiskInode → ℕ → List ℕ → (ℕ → List ℕ) → Run (ℕ × (ℕ → List ℕ))
write_at inode offset buf device =
    let end = min (offset + length buf) inode.size in
    assert (leb offset end)
    >> write_loop (suc (end - offset)) inode buf device offset (offset / block_sz) end 0
