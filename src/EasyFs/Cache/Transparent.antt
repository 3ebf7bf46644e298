-- ===== src/EasyFs/Cache/Transparent.antt =====
-- Every operation of the cache keeps what a client sees, and a synchronisation puts it on the device.
use r_core_tutorial_v3_arm.Base.{
  ℕ, ◌<◌, ◌≡◌, refl, sym, ap, ◌∙◌, subst, ◌⊎◌, inl, inr, true, false, none, some, List, [], ◌∷◌,
  arith, ◌==◌, ==_iff, eq_refl, Bool-cases, length, length-append, All-append, contains, Distinct,
  contains-append, Distinct-snoc, done, panic,
}
use r_core_tutorial_v3_arm.EasyFs.Cache.{
  BlockCache, Store, block_cache_size, load, sync_device, find, change, take_reference, push_loaded,
  substitute, get_block_cache,
}
use r_core_tutorial_v3_arm.EasyFs.Cache.Refine.{
  seen, view, ids, Clean, IsCoherent, sync_device_self, seen-sync_device, seen_outside, Evicted,
  AllHeld, evict-Dropped, seen-push, ids-append, ids-change, length-change, Clean-change,
  seen-change_same, Clean-sync_device,
}

module _ {B : Type 0} where
  find-cases :
      (q : List (BlockCache B)) (id : ℕ)
      → ((find q id ≡ none) × (contains (ids q) id ≡ false))
        ⊎ ((e : BlockCache B) × (find q id ≡ some e) × (contains (ids q) id ≡ true))
  find-cases [] id = inl (refl, refl)
  find-cases (x ∷ q) id = elim (Bool-cases (x.block_id == id)) [
    | inl y ↦ inr (x, ground (arith, y), ground (arith, y))
    | inr n ↦ elim (find-cases q id) [
      | inl h ↦ inl (ground (arith, n, h.0), ground (arith, n, h.1))
      | inr (e, h, g) ↦ inr (e, ground (arith, n, h), ground (arith, n, g))
    ]
  ]

  -- The store after a load.
  push_loaded-IsCoherent :
      (s : Store B) (id : ℕ)
      → IsCoherent s
      → contains (ids s.queue) id ≡ false
      → length s.queue < block_cache_size
      → IsCoherent (push_loaded s id)
  unfolding push_loaded load
  push_loaded-IsCoherent s id c h l = record {
    distinct =
        subst Distinct (sym (ids-append s.queue (load id s.device ∷ [])))
          (Distinct-snoc (ids s.queue) id c.distinct h);
    clean = All-append (Clean s.device) s.queue (load id s.device ∷ []) c.clean ((λ m. refl), tt);
    bounded = omega (arith, length-append s.queue (load id s.device ∷ []), l);
  }

  push_loaded-view : (s : Store B) (id i : ℕ) → view (push_loaded s id) i ≡ view s i
  unfolding push_loaded
  push_loaded-view s id i = seen-push s.queue s.device id i

  push_loaded-cached : (s : Store B) (id : ℕ) → contains (ids (push_loaded s id).queue) id ≡ true
  unfolding push_loaded load
  push_loaded-cached s id = ground (
    arith,
    ap (λ q. contains q id) (ids-append s.queue (load id s.device ∷ [])),
    contains-append (ids s.queue) (id ∷ []) id,
    eq_refl id,
  )

  -- The store after an entry was dropped.
  Evicted-IsCoherent :
      (s : Store B) (e : BlockCache B) (rest : List (BlockCache B))
      → IsCoherent s
      → Evicted s.device s.queue e rest
      → IsCoherent (record { queue = rest; device = sync_device e s.device })
  Evicted-IsCoherent s e rest c v = record {
    distinct = v.still_distinct;
    clean = Clean-sync_device e s.device rest v.gone v.still_clean;
    bounded = omega (arith, v.shorter, c.bounded);
  }

  Evicted-view_self :
      (s : Store B) (e : BlockCache B) (rest : List (BlockCache B))
      → Evicted s.device s.queue e rest
      → seen rest (sync_device e s.device) e.block_id ≡ view s e.block_id
  Evicted-view_self s e rest v = cc (
    seen_outside rest (sync_device e s.device) e.block_id v.gone,
    sync_device_self e s.device v.of_clean,
    mine,
  )
    where
      mine : view s e.block_id ≡ e.cache
      mine = ground (arith, v.others e.block_id, eq_refl e.block_id)

  Evicted-view :
      (s : Store B) (e : BlockCache B) (rest : List (BlockCache B)) (i : ℕ)
      → Evicted s.device s.queue e rest
      → seen rest (sync_device e s.device) i ≡ view s i
  Evicted-view s e rest i v = elim (Bool-cases (e.block_id == i)) [
    | inl y ↦
        subst (λ j. seen rest (sync_device e s.device) j ≡ view s j) ((==_iff e.block_id i).0 y)
          (Evicted-view_self s e rest v)
    | inr n ↦
        ground (
          arith,
          n,
          v.others i,
          seen-sync_device rest e s.device i (λ same. ground (arith, n, same)),
        )
  ]

  -- What a client may count on after it asked for a block.
  pub record Served (s : Store B) (id : ℕ) (s' : Store B) : Type 0 where
    pub coherent : IsCoherent s'
    pub same_view : (i : ℕ) → view s' i ≡ view s i
    pub cached : contains (ids s'.queue) id ≡ true

  -- The code panics where all 16 entries are held and the block is not one of them.
  abbrev pub Answered : Store B → ℕ → Type 0
  Answered s id =
      ((get_block_cache s id ≡ panic)
        × (length s.queue ≡ block_cache_size)
        × AllHeld s.queue
        × (contains (ids s.queue) id ≡ false))
      ⊎ ((s' : Store B) × (get_block_cache s id ≡ done s') × Served s id s')

  hit-Served :
      (s : Store B) (id : ℕ)
      → IsCoherent s
      → contains (ids s.queue) id ≡ true
      → Served s id (record s { queue = change take_reference s.queue id })
  hit-Served s id c h = record {
    coherent = record {
      distinct = subst Distinct (sym (ids-change take_reference (λ e. refl) s.queue id)) c.distinct;
      clean = Clean-change s.device take_reference (λ e x. x) s.queue id c.clean;
      bounded = omega (arith, length-change take_reference s.queue id, c.bounded);
    };
    same_view = λ i. seen-change_same take_reference (λ e. refl) (λ e. refl) s.queue s.device id i;
    cached = ap (λ q. contains q id) (ids-change take_reference (λ e. refl) s.queue id) ∙ h;
  }

  loaded-Served :
      (s : Store B) (id : ℕ)
      → IsCoherent s
      → contains (ids s.queue) id ≡ false
      → length s.queue < block_cache_size
      → Served s id (push_loaded s id)
  loaded-Served s id c h l = record {
    coherent = push_loaded-IsCoherent s id c h l;
    same_view = push_loaded-view s id;
    cached = push_loaded-cached s id;
  }

  substituted-Served :
      (s : Store B) (id : ℕ) (e : BlockCache B) (rest : List (BlockCache B))
      → IsCoherent s
      → contains (ids s.queue) id ≡ false
      → Evicted s.device s.queue e rest
      → Served s id (push_loaded (record { queue = rest; device = sync_device e s.device }) id)
  substituted-Served s id e rest c h v =
      let smaller =
        loaded-Served (record { queue = rest; device = sync_device e s.device }) id
          (Evicted-IsCoherent s e rest c v) (v.unfound id h)
          (omega (arith, v.shorter, c.bounded)) in
      record {
        coherent = smaller.coherent;
        same_view = λ i. smaller.same_view i ∙ Evicted-view s e rest i v;
        cached = smaller.cached;
      }

  -- On a coherent store `get_block_cache` panics only where all 16 entries are held and the block is
  -- not cached; otherwise it returns a coherent store with at most 16 entries, which caches the block
  -- and shows every block as before.
  pub get_block_cache-Answered : (s : Store B) (id : ℕ) → IsCoherent s → Answered s id
  unfolding get_block_cache substitute
  get_block_cache-Answered s id c = elim (find-cases s.queue id) [
    | inr (e, f, h) ↦ inr (
      record s { queue = change take_reference s.queue id },
      ground (arith, f),
      hit-Served s id c h,
    )
    | inl (f, h) ↦ elim (Bool-cases (length s.queue == block_cache_size)) [
      | inr room ↦ inr (
        push_loaded s id,
        ground (arith, f, room),
        loaded-Served s id c h (ground (arith, room, c.bounded)),
      )
      | inl full ↦ elim (evict-Dropped s.device s.queue c.distinct c.clean) [
        | inl (n, held) ↦ inl (ground (arith, f, full, n), ground (arith, full), held, h)
        | inr (e, rest, m, v) ↦ inr (
          push_loaded (record { queue = rest; device = sync_device e s.device }) id,
          ground (arith, f, full, m),
          substituted-Served s id e rest c h v,
        )
      ]
    ]
  ]
