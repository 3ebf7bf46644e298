-- ===== src/EasyFs/Cache.antt =====
-- easy-fs/src/block_cache.rs: at most 16 blocks in memory, written back when they are evicted or
-- synchronised. The block device is code outside this module: it enters as the function from block
-- numbers to contents, `read_block` is its value and `write_block` its update. A block is a value of
-- any type `B`, since the cache only moves blocks. `held` counts the references besides the
-- manager's own (`Arc::strong_count` minus one).
pub mod Refine
pub mod Transparent
pub mod Durable
mod Tests
use r_core_tutorial_v3_arm.Base.{
  ℕ, zero, suc, ◌+◌, ◌-◌, ◌*◌, ◌/◌, ◌%◌, ◌^◌, ◌≤◌, ◌<◌, min, bit_and, bit_or, ◌≡◌, refl, sym, ap,
  ◌∙◌, subst, fun_ext, ◌≢◌, ◌↔◌, ◌⊎◌, inl, inr, Bool, true, false, not, ◌&&◌, ◌||◌, Option, none,
  some, List, [], ◌∷◌, ◌++◌, map, arith, ltb, leb, ◌==◌, if◌then◌else◌, ltb→lt, leb→le, ==_iff,
  eq_refl, Bool-cases, Option-cases, length, get_elem?, set, get_or, take, drop, replicate,
  length-append, length-set, length-replicate, get_or-set_self, get_or-set_ne, get_elem?-set_self,
  get_elem?-set_ne, All, All-map, All-append, contains, Distinct, contains-append, Distinct-snoc,
  Run, done, panic, ◌>>=◌, ◌>>◌, take-nil, drop-nil, take-append-drop, length-drop, List-cases,
  ltb-suc, ltb-zero, assert, unwrap, done-injective,
}

pub record BlockCache (B : Type 0) : Type 0 where
  pub cache : B
  pub block_id : ℕ
  pub modified : Bool
  pub held : ℕ

-- The manager's queue, oldest first, and the device.
pub record Store (B : Type 0) : Type 0 where
  pub queue : List (BlockCache B)
  pub device : ℕ → B

abbrev pub block_cache_size : ℕ
block_cache_size = 16

abbrev pub write_block : {B : Type 0} → (ℕ → B) → ℕ → B → ℕ → B
write_block device id b i = if id == i then b else device i

module _ {B : Type 0} where
  -- `BlockCache::new`, with the one reference that the caller takes.
  unfoldable pub load : ℕ → (ℕ → B) → BlockCache B
  load id device = record { cache = device id; block_id = id; modified = false; held = 1 }

  -- `BlockCache::sync`, which `drop` calls too.
  abbrev pub sync_device : BlockCache B → (ℕ → B) → ℕ → B
  sync_device e device = if e.modified then write_block device e.block_id e.cache else device

  abbrev pub synced : BlockCache B → BlockCache B
  synced e = if e.modified then record e { modified = false } else e

  -- `queue.iter().find(|pair| pair.0 == block_id)`
  abbrev pub find : List (BlockCache B) → ℕ → Option (BlockCache B)
  find [] id = none
  find (e ∷ q) id = if e.block_id == id then some e else find q id

  -- A change of the entry of one block.
  abbrev pub change : (BlockCache B → BlockCache B) → List (BlockCache B) → ℕ → List (BlockCache B)
  change f [] id = []
  change f (e ∷ q) id = if e.block_id == id then f e ∷ q else e ∷ change f q id

  abbrev pub take_reference : BlockCache B → BlockCache B
  take_reference e = record e { held = e.held + 1 }

  abbrev pub drop_reference : BlockCache B → BlockCache B
  drop_reference e = record e { held = e.held - 1 }

  -- The first entry that nobody else refers to, and the queue without it.
  unfoldable pub evict : List (BlockCache B) → Option (BlockCache B × List (BlockCache B))
  evict [] = none
  evict (e ∷ q) =
      if e.held == 0
      then some (e, q)
      else elim (evict q) [ none ↦ none | some (v, rest) ↦ some (v, e ∷ rest) ]

  -- The block is loaded and pushed back.
  push_loaded : Store B → ℕ → Store B
  push_loaded s id = record s { queue = s.queue ++ (load id s.device ∷ []) }

  -- A full queue first drops an entry, which writes it back; with none to drop the code panics.
  substitute : Store B → Run (Store B)
  substitute s = elim (evict s.queue) [
    | none ↦ panic
    | some (e, rest) ↦ done (record { queue = rest; device = sync_device e s.device })
  ]

  unfoldable pub get_block_cache : Store B → ℕ → Run (Store B)
  unfolding push_loaded substitute
  get_block_cache s id = elim (find s.queue id) [
    | some e ↦ done (record s { queue = change take_reference s.queue id })
    | none ↦
        if length s.queue == block_cache_size
        then (substitute s >>= λ s'. done (push_loaded s' id))
        else done (push_loaded s id)
  ]

  -- `modify` on the entry of a block, after which it is dirty.
  unfoldable pub modify : Store B → ℕ → (B → B) → Store B
  modify s id f = record s {
    queue = change (λ e. record e { cache = f e.cache; modified = true }) s.queue id;
  }

  -- The reference goes out of scope.
  unfoldable pub release : Store B → ℕ → Store B
  release s id = record s { queue = change drop_reference s.queue id }

  -- `block_cache_sync_all`
  sync_queue : List (BlockCache B) → (ℕ → B) → List (BlockCache B) × (ℕ → B)
  sync_queue [] device = ([], device)
  sync_queue (e ∷ q) device =
      let (q', device') = sync_queue q (sync_device e device) in (synced e ∷ q', device')

  unfoldable pub sync_all : Store B → Store B
  unfolding sync_queue
  sync_all s =
      let (q, device) = sync_queue s.queue s.device in record { queue = q; device = device }
