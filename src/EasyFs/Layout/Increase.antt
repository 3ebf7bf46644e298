-- ===== src/EasyFs/Layout/Increase.antt =====
-- easy-fs/src/layout.rs: `increase_size`. The new blocks are the rest of the iterator; each assignment of the
-- source is a step that takes the next one. The block of indices that is open while its blocks are
-- filled is another one than those, so each word is written to the device at once.
pub mod Slots
pub mod Append
pub mod Fields
pub mod Step
pub mod Appends
pub mod Rounds
pub mod Growing
pub mod Refine
use r_core_tutorial_v3_arm.Base.{
  ℕ, zero, suc, ◌+◌, ◌-◌, ◌*◌, ◌/◌, ◌%◌, ◌^◌, ◌≤◌, ◌<◌, min, bit_and, bit_or, ◌≡◌, refl, sym, ap,
  ◌∙◌, subst, fun_ext, ◌≢◌, ◌↔◌, ◌⊎◌, inl, inr, Bool, true, false, not, ◌&&◌, ◌||◌, Option, none,
  some, List, [], ◌∷◌, ◌++◌, map, arith, ltb, leb, ◌==◌, if◌then◌else◌, ltb→lt, leb→le, ==_iff,
  eq_refl, Bool-cases, Option-cases, length, get_elem?, set, get_or, take, drop, replicate,
  length-append, length-set, length-replicate, get_or-set_self, get_or-set_ne, get_elem?-set_self,
  get_elem?-set_ne, All, All-map, All-append, contains, Distinct, contains-append, Distinct-snoc,
  Run, done, panic, ◌>>=◌, ◌>>◌, take-nil, drop-nil, take-append-drop, length-drop, List-cases,
  ltb-suc, ltb-zero, assert, unwrap, done-injective,
}
use r_core_tutorial_v3_arm.EasyFs.Cache.{write_block}
use r_core_tutorial_v3_arm.EasyFs.Layout.{
  inode_direct_count, inode_indirect1_count, DiskInode, data_blocks, as_words, word,
}

pub record Growth : Type 0 where
  pub inode : DiskInode
  pub device : ℕ → List ℕ
  pub new_blocks : List ℕ

-- `block[i] = v` in an `IndirectBlock`, as little-endian bytes.
abbrev pub set_word : List ℕ → ℕ → ℕ → List ℕ
set_word (a ∷ (b ∷ (c ∷ (d ∷ bytes)))) zero v =
    (v % 256) ∷ ((v / 2 ^ 8 % 256) ∷ ((v / 2 ^ 16 % 256) ∷ ((v / 2 ^ 24 % 256) ∷ bytes)))
set_word (a ∷ (b ∷ (c ∷ (d ∷ bytes)))) (suc i) v = a ∷ (b ∷ (c ∷ (d ∷ set_word bytes i v)))
set_word bytes i v = bytes

abbrev pub put_word : (ℕ → List ℕ) → ℕ → ℕ → ℕ → Run (ℕ → List ℕ)
put_word device id i v =
    assert (ltb i (length (as_words (device id))))
    >> done (write_block device id (set_word (device id) i v))

-- `new_blocks.next().unwrap()`
abbrev pub take_next : List ℕ → Growth → Run (ℕ × Growth)
take_next [] g = panic
take_next (x ∷ xs) g = done (x, record g { new_blocks = xs })

abbrev pub next_block : Growth → Run (ℕ × Growth)
next_block g = take_next g.new_blocks g

-- The assignments.
unfoldable pub put_direct : ℕ → Growth → Run Growth
put_direct i g = next_block g >>= λ r.
    assert (ltb i (length g.inode.direct))
    >> done (record r.1 { inode = record g.inode { direct = set g.inode.direct i r.0 } })

unfoldable pub put_indirect1 : Growth → Run Growth
put_indirect1 g =
    next_block g >>= λ r. done (record r.1 { inode = record g.inode { indirect1 = r.0 } })

unfoldable pub put_indirect2 : Growth → Run Growth
put_indirect2 g =
    next_block g >>= λ r. done (record r.1 { inode = record g.inode { indirect2 = r.0 } })

-- Word `i` of the block `id`.
unfoldable pub put_entry : ℕ → ℕ → Growth → Run Growth
put_entry id i g = next_block g >>= λ r.
    put_word g.device id i r.0 >>= λ device. done (record r.1 { device = device })

-- Word `b` of the block that word `a` of `indirect2` names.
unfoldable pub put_leaf : ℕ → ℕ → Growth → Run Growth
unfolding put_entry
put_leaf a b g = word g.device g.inode.indirect2 a >>= λ id. put_entry id b g

-- The loops.
abbrev pub fill_direct : ℕ → ℕ → Growth → Run Growth
fill_direct zero current g = done g
fill_direct (suc count) current g =
    put_direct current g >>= λ g'. fill_direct count (suc current) g'

abbrev pub fill_indirect1 : ℕ → ℕ → Growth → Run Growth
fill_indirect1 zero current g = done g
fill_indirect1 (suc count) current g =
    put_entry g.inode.indirect1 current g >>= λ g'. fill_indirect1 count (suc current) g'

abbrev pub put_pair : ℕ → ℕ → Growth → Run Growth
put_pair a b g = (if b == 0 then put_entry g.inode.indirect2 a g else done g) >>= put_leaf a b

-- `while (a0 < a1) || (a0 == a1 && b0 < b1)`, on fuel.
abbrev pub fill_indirect2 : ℕ → ℕ → ℕ → ℕ → ℕ → Growth → Run Growth
fill_indirect2 zero a b a1 b1 g = if ltb a a1 || (a == a1 && ltb b b1) then panic else done g
fill_indirect2 (suc fuel) a b a1 b1 g =
    if ltb a a1 || (a == a1 && ltb b b1)
    then (put_pair a b g >>= λ g'.
        fill_indirect2 fuel (if suc b == inode_indirect1_count then suc a else a)
          (if suc b == inode_indirect1_count then 0 else suc b) a1 b1 g')
    else done g

abbrev pub grow_indirect2 : ℕ → ℕ → Growth → Run Growth
grow_indirect2 current total g =
    if ltb inode_indirect1_count total
    then ((if current == inode_indirect1_count then put_indirect2 g else done g) >>= λ g'.
        assert (leb inode_indirect1_count current)
        >> fill_indirect2 (total - current)
            ((current - inode_indirect1_count) / inode_indirect1_count)
            ((current - inode_indirect1_count) % inode_indirect1_count)
            ((total - inode_indirect1_count) / inode_indirect1_count)
            ((total - inode_indirect1_count) % inode_indirect1_count) g')
    else done g

abbrev pub grow_indirect1 : ℕ → ℕ → Growth → Run Growth
grow_indirect1 current total g =
    if ltb inode_direct_count total
    then ((if current == inode_direct_count then put_indirect1 g else done g) >>= λ g'.
        assert (leb inode_direct_count current)
        >> (fill_indirect1
              (min (total - inode_direct_count) inode_indirect1_count
                - (current - inode_direct_count))
              (current - inode_direct_count) g'
            >>= grow_indirect2
                ((current - inode_direct_count)
                  + (min (total - inode_direct_count) inode_indirect1_count
                      - (current - inode_direct_count)))
                (total - inode_direct_count)))
    else done g

unfoldable pub increase_size : DiskInode → ℕ → List ℕ → (ℕ → List ℕ) → Run Growth
increase_size inode new_size new_blocks device = do
  current ← data_blocks inode.size
  total ← data_blocks new_size
  let g : Growth = record {
    inode = record inode { size = new_size };
    device = device;
    new_blocks = new_blocks;
  }
  g' ← fill_direct (min total inode_direct_count - current) current g
  grow_indirect1 (current + (min total inode_direct_count - current)) total g'
