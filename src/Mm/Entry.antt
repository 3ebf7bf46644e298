-- ===== src/Mm/Entry.antt =====
-- os/src/mm/page_table.rs, the entries: memory flags (os/src/mm/mod.rs), descriptor attributes, and the
-- 64-bit entry that holds both an address and attributes.
pub mod Fields
use r_core_tutorial_v3_arm.Base.{
  ℕ, zero, suc, ◌+◌, ◌-◌, ◌*◌, ◌/◌, ◌%◌, ◌^◌, ◌≤◌, ◌<◌, min, bit_and, bit_or, ◌≡◌, refl, sym, ap,
  ◌∙◌, subst, fun_ext, ◌≢◌, ◌↔◌, ◌⊎◌, inl, inr, Bool, true, false, not, ◌&&◌, ◌||◌, Option, none,
  some, List, [], ◌∷◌, ◌++◌, map, arith, ltb, leb, ◌==◌, if◌then◌else◌, ltb→lt, leb→le, ==_iff,
  eq_refl, Bool-cases, Option-cases, length, get_elem?, set, get_or, take, drop, replicate,
  length-append, length-set, length-replicate, get_or-set_self, get_or-set_ne, get_elem?-set_self,
  get_elem?-set_ne, All, All-map, All-append, contains, Distinct, contains-append, Distinct-snoc,
  Run, done, panic, ◌>>=◌, ◌>>◌, take-nil, drop-nil, take-append-drop, length-drop, List-cases,
  ltb-suc, ltb-zero, assert, unwrap, done-injective,
}
use r_core_tutorial_v3_arm.Mm.Address.{page_size, complement, max_paddr, new_paddr}

pub record MemFlags : Type 0 where
  pub read : Bool
  pub write : Bool
  pub execute : Bool
  pub user : Bool
  pub device : Bool

-- `DescriptorAttr`, the bits that the kernel sets or reads.
abbrev pub valid_bit : ℕ
valid_bit = 2 ^ 0

abbrev pub non_block : ℕ
non_block = 2 ^ 1

abbrev pub attr_index_mask : ℕ
attr_index_mask = 0b111_00

abbrev pub ap_el0 : ℕ
ap_el0 = 2 ^ 6

abbrev pub ap_ro : ℕ
ap_ro = 2 ^ 7

abbrev pub inner_bit : ℕ
inner_bit = 2 ^ 8

abbrev pub shareable : ℕ
shareable = 2 ^ 9

abbrev pub access_flag : ℕ
access_flag = 2 ^ 10

abbrev pub pxn : ℕ
pxn = 2 ^ 53

abbrev pub uxn : ℕ
uxn = 2 ^ 54

-- All attributes: the low twelve bits, bits 52 to 54 and 59 to 63.
abbrev pub all_attributes : ℕ
all_attributes = (2 ^ 12 - 1) + (2 ^ 55 - 2 ^ 52) + (2 ^ 64 - 2 ^ 59)

abbrev pub from_bits_truncate : ℕ → ℕ
from_bits_truncate bits = bit_and bits all_attributes

-- `contains` of one bit, which `intersects` is the same as.
abbrev pub has : ℕ → ℕ → Bool
has attr bit = bit_and attr bit == bit

pub data MemType : Type 0 where
  device_memory : MemType
  normal_memory : MemType

abbrev pub is_device : MemType → Bool
is_device device_memory = true
is_device normal_memory = false

unfoldable pub from_mem_type : MemType → ℕ
from_mem_type device_memory = from_bits_truncate (0 * 2 ^ 2)
from_mem_type normal_memory = from_bits_truncate (bit_or (1 * 2 ^ 2) (bit_or inner_bit shareable))

unfoldable pub mem_type : ℕ → Run MemType
mem_type attr =
    let idx = bit_and attr attr_index_mask / 2 ^ 2 in
    if idx == 0 then done device_memory else if idx == 1 then done normal_memory else panic

-- `attr |= bit` under a test
abbrev pub or_if : Bool → ℕ → ℕ → ℕ
or_if c bit attr = if c then bit_or attr bit else attr

-- `MemFlags::from(attr)`
unfoldable pub to_flags : ℕ → Run MemFlags
unfolding mem_type
to_flags attr = mem_type attr >>= λ t. done (record {
  read = has attr valid_bit;
  write = not (has attr ap_ro);
  execute = if has attr ap_el0 then not (has attr uxn) else not (has attr pxn);
  user = has attr ap_el0;
  device = is_device t;
})

-- `DescriptorAttr::from(flags)`
unfoldable pub of_flags : MemFlags → ℕ
unfolding from_mem_type
of_flags f =
    let attr = from_mem_type (if f.device then device_memory else normal_memory) in
    let attr = or_if f.read valid_bit attr in
    let attr = or_if (not f.write) ap_ro attr in
    if f.user
    then or_if (not f.execute) uxn (bit_or attr (bit_or ap_el0 pxn))
    else or_if (not f.execute) pxn (bit_or attr uxn)

-- `PageTableEntry::PHYS_ADDR_MASK`
abbrev pub phys_addr_mask : ℕ
phys_addr_mask = bit_and max_paddr (complement (page_size - 1))

-- A `PageTableEntry` is its 64 bits.
unfoldable pub new_page : ℕ → MemFlags → Bool → ℕ
unfolding of_flags
new_page paddr f is_block =
    bit_or (or_if (not is_block) non_block (bit_or (of_flags f) access_flag))
      (bit_and paddr phys_addr_mask)

unfoldable pub new_table : ℕ → ℕ
new_table paddr = bit_or (bit_or non_block valid_bit) (bit_and paddr phys_addr_mask)

unfoldable pub entry_paddr : ℕ → ℕ
entry_paddr e = new_paddr (bit_and e phys_addr_mask)

unfoldable pub entry_flags : ℕ → Run MemFlags
entry_flags e = to_flags (from_bits_truncate e)

unfoldable pub is_unused : ℕ → Bool
is_unused e = e == 0

unfoldable pub is_present : ℕ → Bool
is_present e = has (from_bits_truncate e) valid_bit

unfoldable pub is_block : ℕ → Bool
is_block e = not (has (from_bits_truncate e) non_block)
