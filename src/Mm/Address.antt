-- ===== src/Mm/Address.antt =====
-- os/src/mm/address.rs and os/src/config.rs. `usize` is 64 bits wide; an overflow or an underflow
-- of `+` or `-` is a panic, as in the checked build.
use r_core_tutorial_v3_arm.Base.{
  ℕ, ◌+◌, ◌-◌, ◌*◌, ◌/◌, ◌%◌, ◌^◌, ◌≤◌, ◌<◌, bit_and, ◌≡◌, inl, inr, Bool, true, not, ◌&&◌, arith,
  ltb, leb, ◌==◌, if◌then◌else◌, ltb→lt, Bool-cases, Run, done, panic,
}
use r_core_tutorial_v3_arm.Base.Bits.{bit_and-low, bit_and-high}

abbrev pub page_size : ℕ
page_size = 0x1000

abbrev pub memory_end : ℕ
memory_end = 0x4000_0000 + 0x800_0000

abbrev pub phys_virt_offset : ℕ
phys_virt_offset = 0xffff_0000_0000_0000

-- `!m` of a 64-bit word
abbrev pub complement : ℕ → ℕ
complement m = 2 ^ 64 - 1 - m

unfoldable pub phys_to_virt : ℕ → Run ℕ
phys_to_virt paddr =
    if ltb (paddr + phys_virt_offset) (2 ^ 64) then done (paddr + phys_virt_offset) else panic

unfoldable pub virt_to_phys : ℕ → Run ℕ
virt_to_phys vaddr = if leb phys_virt_offset vaddr then done (vaddr - phys_virt_offset) else panic

-- The free functions, at any page size.
unfoldable pub align_down : ℕ → ℕ → ℕ
align_down addr size = bit_and addr (complement (size - 1))

unfoldable pub align_up : ℕ → ℕ → Run ℕ
align_up addr size =
    if ltb (addr + size - 1) (2 ^ 64)
    then done (bit_and (addr + size - 1) (complement (size - 1)))
    else panic

unfoldable pub page_offset : ℕ → ℕ → ℕ
page_offset addr size = bit_and addr (size - 1)

unfoldable pub is_aligned : ℕ → ℕ → Bool
unfolding page_offset
is_aligned addr size = page_offset addr size == 0

-- `PhysAddr::MAX`, and `PhysAddr::new`, which cuts off what does not fit.
abbrev pub max_paddr : ℕ
max_paddr = 2 ^ 40 - 1

unfoldable pub new_paddr : ℕ → ℕ
new_paddr pa = bit_and pa max_paddr

-- `VirtAddr::new` accepts the two canonical halves of the address space.
unfoldable pub new_vaddr : ℕ → Run ℕ
new_vaddr va =
    let top_bits = va / 2 ^ 48 in
    if not (top_bits == 0) && not (top_bits == 0xffff) then panic else done va

pub align_down-eq : (a : ℕ) → a < 2 ^ 64 → align_down a page_size ≡ a / page_size * page_size
unfolding align_down
align_down-eq a h = omega (arith, bit_and-high 12 a (2 ^ 52 - 1), bit_and-low 52 (a / 2 ^ 12))

pub page_offset-eq : (a : ℕ) → page_offset a page_size ≡ a % page_size
unfolding page_offset
page_offset-eq a = bit_and-low 12 a

pub new_paddr-eq : (a : ℕ) → new_paddr a ≡ a % 2 ^ 40
unfolding new_paddr
new_paddr-eq a = bit_and-low 40 a

pub is_aligned_multiple : (b q : ℕ) → b ≡ q * page_size → is_aligned b page_size ≡ true
unfolding is_aligned
is_aligned_multiple b q e = ground (arith, page_offset-eq b)

-- What `align_up` answers: the least aligned address that is not below, or a panic when the sum that
-- it forms does not fit 64 bits.
abbrev pub AlignsUp : ℕ → Run ℕ → Type 0
AlignsUp a (done b) =
    (a ≤ b)
    × (b < a + page_size)
    × (b / page_size * page_size ≡ b)
    × (is_aligned b page_size ≡ true)
AlignsUp a panic = 2 ^ 64 ≤ a + 4095

pub align_up-AlignsUp : (a : ℕ) → a < 2 ^ 64 → AlignsUp a (align_up a page_size)
unfolding align_up
align_up-AlignsUp a h = elim (Bool-cases (ltb (a + page_size - 1) (2 ^ 64))) [
  | inl fits ↦ rw fits (
    omega (arith, rounded fits),
    omega (arith, rounded fits),
    omega (arith, rounded fits),
    is_aligned_multiple _ ((a + 4095) / 4096) (rounded fits),
  )
  | inr over ↦ rw over (ground arith)
]
  where
    rounded :
        ltb (a + page_size - 1) (2 ^ 64) ≡ true
        → bit_and (a + page_size - 1) (complement (page_size - 1)) ≡ (a + 4095) / 4096 * 4096
    rounded fits = omega (
      arith,
      ltb→lt (a + page_size - 1) (2 ^ 64) fits,
      bit_and-high 12 (a + page_size - 1) (2 ^ 52 - 1),
      bit_and-low 52 ((a + page_size - 1) / 2 ^ 12),
    )

-- For a 64-bit address: `align_down` gives its page, which is aligned, and `page_offset` the place in
-- it; `align_up` gives the least aligned address that is not below, and panics only when the sum that
-- it forms does not fit 64 bits.
pub align_lem :
    (a : ℕ)
    → a < 2 ^ 64
    → (align_down a page_size + page_offset a page_size ≡ a)
      × (page_offset a page_size < page_size)
      × (is_aligned (align_down a page_size) page_size ≡ true)
      × AlignsUp a (align_up a page_size)
align_lem a h = (
  omega (arith, align_down-eq a h, page_offset-eq a),
  omega (arith, page_offset-eq a),
  is_aligned_multiple (align_down a page_size) (a / page_size) (align_down-eq a h),
  align_up-AlignsUp a h,
)
