-- ===== src/Mm/Entry/Fields.antt =====
-- What is read from an entry is what it was made of.
use r_core_tutorial_v3_arm.Base.{
  ℕ, zero, suc, ◌+◌, ◌-◌, ◌*◌, ◌/◌, ◌%◌, ◌^◌, ◌≤◌, ◌<◌, bit_and, bit_or, ◌≡◌, sym, ap, ◌∙◌, Bool,
  true, false, not, arith, done,
}
use mathlib.Core.Path.{ap₂}
use r_core_tutorial_v3_arm.Base.Bits.{
  bit_and_halves, bit_or_halves, bit_and-low, bit_and-high, bit_or-zero, bit_or-zero_left,
  pow_double,
}
use r_core_tutorial_v3_arm.Mm.Address.{page_size, new_paddr-eq}
use r_core_tutorial_v3_arm.Mm.Entry.{
  MemFlags, from_bits_truncate, has, mem_type, to_flags, of_flags, or_if, non_block, valid_bit,
  access_flag, phys_addr_mask, new_page, new_table, entry_paddr, entry_flags, is_unused, is_present,
  is_block, from_mem_type,
}

half_field : (k a b : ℕ) → (a * 2 ^ suc k + b) / 2 ≡ a * 2 ^ k + b / 2
half_field k a b = omega (arith, ap (λ (t : ℕ). a * t) (pow_double k), double)
  where
    double : a * (2 * 2 ^ k) ≡ 2 * (a * 2 ^ k)
    double = grind arith

low_field : (k a b : ℕ) → (a * 2 ^ suc k + b) % 2 ≡ b % 2
low_field k a b = omega (arith, ap (λ (t : ℕ). a * t) (pow_double k), double)
  where
    double : a * (2 * 2 ^ k) ≡ 2 * (a * 2 ^ k)
    double = grind arith

scale_double : (k a : ℕ) → a * 2 ^ suc k ≡ 2 * (a * 2 ^ k)
scale_double k a = ap (λ (t : ℕ). a * t) (pow_double k) ∙ grind arith

-- `&` and `|` of two words, each in two fields.
bit_and-split :
    (k a b c d : ℕ)
    → b < 2 ^ k
    → d < 2 ^ k
    → bit_and (a * 2 ^ k + b) (c * 2 ^ k + d) ≡ bit_and a c * 2 ^ k + bit_and b d
bit_and-split zero a b c d h l =
    omega (arith, ap₂ bit_and whole_a whole_c, ap₂ bit_and zero_b zero_d)
  where
    whole_a : a * 2 ^ 0 + b ≡ a
    whole_a = omega arith

    whole_c : c * 2 ^ 0 + d ≡ c
    whole_c = omega arith

    zero_b : b ≡ 0
    zero_b = omega arith

    zero_d : d ≡ 0
    zero_d = omega arith
bit_and-split (suc k) a b c d h l = omega (
  arith,
  bit_and_halves (a * 2 ^ suc k + b) (c * 2 ^ suc k + d),
  ap₂ bit_and (half_field k a b) (half_field k c d),
  bit_and-split k a (b / 2) c (d / 2) (omega (arith, pow_double k)) (omega (arith, pow_double k)),
  low_field k a b,
  low_field k c d,
  bit_and_halves b d,
  scale_double k (bit_and a c),
)

bit_or-split :
    (k a b c d : ℕ)
    → b < 2 ^ k
    → d < 2 ^ k
    → bit_or (a * 2 ^ k + b) (c * 2 ^ k + d) ≡ bit_or a c * 2 ^ k + bit_or b d
bit_or-split zero a b c d h l = omega (arith, ap₂ bit_or whole_a whole_c, ap₂ bit_or zero_b zero_d)
  where
    whole_a : a * 2 ^ 0 + b ≡ a
    whole_a = omega arith

    whole_c : c * 2 ^ 0 + d ≡ c
    whole_c = omega arith

    zero_b : b ≡ 0
    zero_b = omega arith

    zero_d : d ≡ 0
    zero_d = omega arith
bit_or-split (suc k) a b c d h l = omega (
  arith,
  bit_or_halves (a * 2 ^ suc k + b) (c * 2 ^ suc k + d),
  ap₂ bit_or (half_field k a b) (half_field k c d),
  bit_or-split k a (b / 2) c (d / 2) (omega (arith, pow_double k)) (omega (arith, pow_double k)),
  low_field k a b,
  low_field k c d,
  bit_or_halves b d,
  scale_double k (bit_or a c),
)

-- Attributes that leave the bits of the address clear.
abbrev IsAttr : ℕ → Type 0
IsAttr attr = attr % 2 ^ 52 < 2 ^ 12

-- An entry: attributes and the page of an address.
entry-sum : (attr q : ℕ) → IsAttr attr → q < 2 ^ 28 → bit_or attr (q * 2 ^ 12) ≡ attr + q * 2 ^ 12
entry-sum attr q h l = omega (
  arith,
  ap₂ bit_or attr_fields page_fields,
  bit_or-split 12 (attr / 2 ^ 52 * 2 ^ 40) (attr % 2 ^ 52) q 0 h (omega arith),
  bit_or-zero (attr % 2 ^ 52),
  ap₂ bit_or high_fields low_fields,
  bit_or-split 40 (attr / 2 ^ 52) 0 0 q (omega arith) (omega (arith, l)),
  bit_or-zero (attr / 2 ^ 52),
  bit_or-zero_left q,
)
  where
    attr_fields : attr ≡ attr / 2 ^ 52 * 2 ^ 40 * 2 ^ 12 + attr % 2 ^ 52
    attr_fields = omega arith

    page_fields : q * 2 ^ 12 ≡ q * 2 ^ 12 + 0
    page_fields = omega arith

    high_fields : attr / 2 ^ 52 * 2 ^ 40 ≡ attr / 2 ^ 52 * 2 ^ 40 + 0
    high_fields = omega arith

    low_fields : q ≡ 0 * 2 ^ 40 + q
    low_fields = omega arith

truncate-fields :
    (hi lo q : ℕ)
    → lo < 2 ^ 12
    → q < 2 ^ 28
    → from_bits_truncate ((hi * 2 ^ 40 + q) * 2 ^ 12 + lo)
      ≡ bit_and hi 3975 * 2 ^ 40 * 2 ^ 12 + bit_and lo (2 ^ 12 - 1)
truncate-fields hi lo q h l = omega (
  arith,
  bit_and-split 12 (hi * 2 ^ 40 + q) lo (3975 * 2 ^ 40) (2 ^ 12 - 1) h (omega arith),
  bit_and-high 40 (hi * 2 ^ 40 + q) 3975,
  ap (λ (t : ℕ). bit_and t 3975) quotient,
)
  where
    quotient : (hi * 2 ^ 40 + q) / 2 ^ 40 ≡ hi
    quotient = omega (arith, l)

truncate-sum :
    (attr q : ℕ)
    → IsAttr attr
    → q < 2 ^ 28
    → from_bits_truncate (attr + q * 2 ^ 12) ≡ from_bits_truncate attr
truncate-sum attr q h l =
    ap from_bits_truncate with_page
    ∙ truncate-fields (attr / 2 ^ 52) (attr % 2 ^ 52) q h l
    ∙ sym (truncate-fields (attr / 2 ^ 52) (attr % 2 ^ 52) 0 h (omega arith))
    ∙ ap from_bits_truncate without_page
  where
    with_page : attr + q * 2 ^ 12 ≡ (attr / 2 ^ 52 * 2 ^ 40 + q) * 2 ^ 12 + attr % 2 ^ 52
    with_page = omega arith

    without_page : (attr / 2 ^ 52 * 2 ^ 40 + 0) * 2 ^ 12 + attr % 2 ^ 52 ≡ attr
    without_page = omega arith

address-sum : (attr q : ℕ) → IsAttr attr → q < 2 ^ 28 → entry_paddr (attr + q * 2 ^ 12) ≡ q * 2 ^ 12
unfolding entry_paddr
address-sum attr q h l = omega (
  arith,
  new_paddr-eq (bit_and (attr + q * 2 ^ 12) phys_addr_mask),
  bit_and-high 12 (attr + q * 2 ^ 12) (2 ^ 28 - 1),
  bit_and-low 28 ((attr + q * 2 ^ 12) / 2 ^ 12),
  h,
  l,
)

masked_page : (paddr : ℕ) → bit_and paddr phys_addr_mask ≡ paddr / 2 ^ 12 % 2 ^ 28 * 2 ^ 12
masked_page paddr =
    omega (arith, bit_and-high 12 paddr (2 ^ 28 - 1), bit_and-low 28 (paddr / 2 ^ 12))

-- The attributes of a page.
abbrev page_attr : MemFlags → Bool → ℕ
page_attr f block = or_if (not block) non_block (bit_or (of_flags f) access_flag)

page_attr-IsAttr : (f : MemFlags) (block : Bool) → IsAttr (page_attr f block)
unfolding of_flags from_mem_type
page_attr-IsAttr f block = ground arith

page_attr_read :
    (f : MemFlags) (block : Bool)
    → (to_flags (from_bits_truncate (page_attr f block)) ≡ done f)
      × (has (from_bits_truncate (page_attr f block)) valid_bit ≡ f.read)
      × (not (has (from_bits_truncate (page_attr f block)) non_block) ≡ block)
      × (1 ≤ page_attr f block)
unfolding to_flags of_flags mem_type from_mem_type
page_attr_read f block = ground arith

-- The page of a physical address, cut off at 40 bits.
abbrev pub page_of : ℕ → ℕ
page_of paddr = paddr / page_size % 2 ^ 28 * page_size

new_page-sum :
    (paddr : ℕ) (f : MemFlags) (block : Bool)
    → new_page paddr f block ≡ page_attr f block + paddr / 2 ^ 12 % 2 ^ 28 * 2 ^ 12
unfolding new_page
new_page-sum paddr f block =
    ap (bit_or (page_attr f block)) (masked_page paddr)
    ∙ entry-sum (page_attr f block) (paddr / 2 ^ 12 % 2 ^ 28) (page_attr-IsAttr f block)
        (omega arith)

-- Every memory flag, the kind of the page and the page of the address can be read back from the entry
-- that `new_page` makes of them, whatever the address; the entry is used, and present just where the
-- page can be read.
pub entry_flags-new_page :
    (paddr : ℕ) (f : MemFlags) (block : Bool)
    → (entry_flags (new_page paddr f block) ≡ done f)
      × (entry_paddr (new_page paddr f block) ≡ page_of paddr)
      × (is_block (new_page paddr f block) ≡ block)
      × (is_present (new_page paddr f block) ≡ f.read)
      × (is_unused (new_page paddr f block) ≡ false)
unfolding entry_flags is_block is_present is_unused
entry_flags-new_page paddr f block =
    let q = paddr / 2 ^ 12 % 2 ^ 28 in
    let (flags, valid, kind, used) = page_attr_read f block in
    let attributes =
      ap from_bits_truncate (new_page-sum paddr f block)
      ∙ truncate-sum (page_attr f block) q (page_attr-IsAttr f block) (omega arith) in
    (
      ap to_flags attributes ∙ flags,
      ap entry_paddr (new_page-sum paddr f block)
          ∙ address-sum (page_attr f block) q (page_attr-IsAttr f block) (omega arith),
      ap (λ a. not (has a non_block)) attributes ∙ kind,
      ap (λ a. has a valid_bit) attributes ∙ valid,
      ground (arith, new_page-sum paddr f block, used),
    )

new_table-sum : (paddr : ℕ) → new_table paddr ≡ 3 + paddr / 2 ^ 12 % 2 ^ 28 * 2 ^ 12
unfolding new_table
new_table-sum paddr =
    ap (bit_or 3) (masked_page paddr)
    ∙ entry-sum 3 (paddr / 2 ^ 12 % 2 ^ 28) (omega arith) (omega arith)

pub entry_paddr-new_table :
    (paddr : ℕ)
    → (entry_paddr (new_table paddr) ≡ page_of paddr)
      × (is_block (new_table paddr) ≡ false)
      × (is_present (new_table paddr) ≡ true)
      × (is_unused (new_table paddr) ≡ false)
unfolding is_block is_present is_unused
entry_paddr-new_table paddr =
    let q = paddr / 2 ^ 12 % 2 ^ 28 in
    let attributes =
      ap from_bits_truncate (new_table-sum paddr) ∙ truncate-sum 3 q (omega arith) (omega arith) in
    (
      ap entry_paddr (new_table-sum paddr) ∙ address-sum 3 q (omega arith) (omega arith),
      ap (λ a. not (has a non_block)) attributes,
      ap (λ a. has a valid_bit) attributes,
      ground (arith, new_table-sum paddr),
    )
