-- ===== src/EasyFs/Layout/Increase/Fields.antt =====
-- The assignments of `increase_size` in the inode itself.
use r_core_tutorial_v3_arm.Base.{
  ℕ, ◌+◌, ◌*◌, ◌<◌, ◌≡◌, refl, ap, ◌∙◌, some, List, arith, eq_refl, length, get_elem?, set,
  length-set, done, unwrap,
}
use r_core_tutorial_v3_arm.EasyFs.Layout.{DiskInode}
use r_core_tutorial_v3_arm.EasyFs.Layout.Increase.Slots.{
  Slot, direct_slot, first_slot, entry_slot, second_slot, row_slot, leaf_slot, read_slot, number,
  IsSlot, Represents, get_elem?-set,
}
use r_core_tutorial_v3_arm.EasyFs.Layout.Increase.Append.{get_elem?-bound, less_ne, Names}

pub direct-Names :
    (inode : DiskInode) (device : ℕ → List ℕ) (all : List ℕ) (i x : ℕ)
    → Represents inode device all
    → i < 28
    → i ≡ length all
    → Names (record inode { direct = set inode.direct i x }) device all (direct_slot i) x
direct-Names inode device all i x r h l = record {
  kept = kept_slot;
  named = ap unwrap written;
  room = length-set inode.direct i x ∙ r.directs;
  whole = r.blocks;
}
  where
    written : get_elem? (set inode.direct i x) i ≡ some x
    written = get_elem?-set inode.direct i i x (omega (arith, h, r.directs)) ∙ rw (eq_refl i)

    other : (j : ℕ) → j < length all → get_elem? (set inode.direct i x) j ≡ get_elem? inode.direct j
    other j k =
        get_elem?-set inode.direct i j x (omega (arith, h, r.directs))
        ∙ rw (less_ne j i (omega (arith, l, k)))

    kept_slot :
        (t : Slot) (y : ℕ)
        → IsSlot t
        → get_elem? all (number t) ≡ some y
        → read_slot (record inode { direct = set inode.direct i x }) device t ≡ done y
    kept_slot (direct_slot j) y k e =
        ap unwrap (other j (get_elem?-bound all j y e)) ∙ r.held (direct_slot j) y k e
    kept_slot first_slot y k e = r.held first_slot y k e
    kept_slot (entry_slot j) y k e = r.held (entry_slot j) y k e
    kept_slot second_slot y k e = r.held second_slot y k e
    kept_slot (row_slot a) y k e = r.held (row_slot a) y k e
    kept_slot (leaf_slot a b) y k e = r.held (leaf_slot a b) y k e

pub first-Names :
    (inode : DiskInode) (device : ℕ → List ℕ) (all : List ℕ) (x : ℕ)
    → Represents inode device all
    → 28 ≡ length all
    → Names (record inode { indirect1 = x }) device all first_slot x
first-Names inode device all x r l = record {
  kept = kept_slot;
  named = refl;
  room = r.directs;
  whole = r.blocks;
}
  where
    kept_slot :
        (t : Slot) (y : ℕ)
        → IsSlot t
        → get_elem? all (number t) ≡ some y
        → read_slot (record inode { indirect1 = x }) device t ≡ done y
    kept_slot (direct_slot j) y k e = r.held (direct_slot j) y k e
    kept_slot first_slot y k e = absurd (omega (arith, l, get_elem?-bound all 28 y e))
    kept_slot (entry_slot j) y k e = absurd (omega (arith, l, get_elem?-bound all (29 + j) y e))
    kept_slot second_slot y k e = r.held second_slot y k e
    kept_slot (row_slot a) y k e = r.held (row_slot a) y k e
    kept_slot (leaf_slot a b) y k e = r.held (leaf_slot a b) y k e

pub second-Names :
    (inode : DiskInode) (device : ℕ → List ℕ) (all : List ℕ) (x : ℕ)
    → Represents inode device all
    → 157 ≡ length all
    → Names (record inode { indirect2 = x }) device all second_slot x
second-Names inode device all x r l = record {
  kept = kept_slot;
  named = refl;
  room = r.directs;
  whole = r.blocks;
}
  where
    kept_slot :
        (t : Slot) (y : ℕ)
        → IsSlot t
        → get_elem? all (number t) ≡ some y
        → read_slot (record inode { indirect2 = x }) device t ≡ done y
    kept_slot (direct_slot j) y k e = r.held (direct_slot j) y k e
    kept_slot first_slot y k e = r.held first_slot y k e
    kept_slot (entry_slot j) y k e = r.held (entry_slot j) y k e
    kept_slot second_slot y k e = absurd (omega (arith, l, get_elem?-bound all 157 y e))
    kept_slot (row_slot a) y k e =
        absurd (omega (arith, l, get_elem?-bound all (158 + 129 * a) y e))
    kept_slot (leaf_slot a b) y k e =
        absurd (omega (arith, l, get_elem?-bound all (159 + 129 * a + b) y e))
