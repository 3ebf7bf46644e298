-- ===== src/EasyFs/Bitmap.antt =====
-- easy-fs/src/bitmap.rs: which blocks are in use, one bit each, in consecutive blocks of the device. The
-- device is the view that the block cache shows its clients: the 64 words of each block.
pub mod Words
pub mod Block
pub mod Alloc
mod Tests
use r_core_tutorial_v3_arm.Base.{
  ℕ, zero, suc, ◌+◌, ◌-◌, ◌*◌, ◌/◌, ◌%◌, ◌^◌, ◌≤◌, ◌<◌, min, bit_and, bit_or, ◌≡◌, refl, sym, ap,
  ◌∙◌, subst, fun_ext, ◌≢◌, ◌↔◌, ◌⊎◌, inl, inr, Bool, true, false, not, ◌&&◌, ◌||◌, Option, none,
  some, List, [], ◌∷◌, ◌++◌, map, arith, ltb, leb, ◌==◌, if◌then◌else◌, ltb→lt, leb→le, ==_iff,
  eq_refl, Bool-cases, Option-cases, length, get_elem?, set, get_or, take, drop, replicate,
  length-append, length-set, length-replicate, get_or-set_self, get_or-set_ne, get_elem?-set_self,
  get_elem?-set_ne, All, All-map, All-append, contains, Distinct, contains-append, Distinct-snoc,
  Run, done, panic, ◌>>=◌, ◌>>◌, take-nil, drop-nil, take-append-drop, length-drop, List-cases,
  ltb-suc, ltb-zero, assert, unwrap, done-injective,
}

pub record Bitmap : Type 0 where
  pub start_block_id : ℕ
  pub blocks : ℕ

abbrev pub block_bits : ℕ
block_bits = 512 * 8

abbrev pub max_u64 : ℕ
max_u64 = 2 ^ 64 - 1

-- `(block_pos, bits64_pos, inner_pos)`
unfoldable pub decomposition : ℕ → ℕ × ℕ × ℕ
decomposition bit = (bit / block_bits, bit % block_bits / 64, bit % block_bits % 64)

-- `u64::trailing_ones`, over the 64 digits.
abbrev pub trailing_ones : ℕ → ℕ → ℕ
trailing_ones zero x = 0
trailing_ones (suc fuel) x =
    let rest = trailing_ones fuel (x / 2) in if x % 2 == 1 then suc rest else 0

-- The first word with a clear bit, and its first clear bit.
abbrev pub find_free : List ℕ → Option (ℕ × ℕ)
find_free [] = none
find_free (bits64 ∷ rest) =
    if not (bits64 == max_u64)
    then some (0, trailing_ones 64 bits64)
    else elim (find_free rest) [ none ↦ none | some (n, t) ↦ some (suc n, t) ]

abbrev pub write_words : (ℕ → List ℕ) → ℕ → List ℕ → ℕ → List ℕ
write_words device id ws i = if id == i then ws else device i

-- `bitmap_block[bits64_pos] |= 1u64 << inner_pos`
abbrev pub mark : List ℕ → ℕ × ℕ → List ℕ
mark ws (n, t) = set ws n (bit_or (get_or ws n 0) (2 ^ t))

-- The loop over the blocks from `block_id` on, of which `count` are left.
abbrev pub alloc_from : Bitmap → ℕ → ℕ → (ℕ → List ℕ) → Option ℕ × (ℕ → List ℕ)
alloc_from bm zero block_id device = (none, device)
alloc_from bm (suc count) block_id device =
    let rest = alloc_from bm count (suc block_id) device in
    elim (find_free (device (block_id + bm.start_block_id))) [
      | none ↦ rest
      | some (n, t) ↦ (
        some (block_id * block_bits + n * 64 + t),
        write_words device (block_id + bm.start_block_id)
            (mark (device (block_id + bm.start_block_id)) (n, t)),
      )
    ]

unfoldable pub alloc : Bitmap → (ℕ → List ℕ) → Option ℕ × (ℕ → List ℕ)
alloc bm device = alloc_from bm bm.blocks 0 device

-- `bitmap_block[bits64_pos] -= 1u64 << inner_pos`, after the assertion that the bit is set.
abbrev pub unmark : List ℕ → ℕ → ℕ → Run (List ℕ)
unmark ws n t =
    assert (ltb 0 (bit_and (get_or ws n 0) (2 ^ t))) >> done (set ws n (get_or ws n 0 - 2 ^ t))

unfoldable pub dealloc : Bitmap → (ℕ → List ℕ) → ℕ → Run (ℕ → List ℕ)
unfolding decomposition
dealloc bm device bit =
    let (block_pos, bits64_pos, inner_pos) = decomposition bit in
    unmark (device (block_pos + bm.start_block_id)) bits64_pos inner_pos >>= λ ws.
    done (write_words device (block_pos + bm.start_block_id) ws)

unfoldable pub maximum : Bitmap → ℕ
maximum bm = bm.blocks * block_bits
