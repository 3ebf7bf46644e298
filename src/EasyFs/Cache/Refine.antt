-- ===== src/EasyFs/Cache/Refine.antt =====
-- The cache is transparent: through it a client sees one array of blocks.
use r_core_tutorial_v3_arm.Base.{
  ℕ, suc, ◌≤◌, ◌≡◌, refl, ap, ◌∙◌, ◌≢◌, ◌⊎◌, inl, inr, true, false, none, some, List, [], ◌∷◌, ◌++◌,
  arith, ◌==◌, if◌then◌else◌, ==_iff, eq_refl, Bool-cases, length, All, contains, Distinct,
}
use r_core_tutorial_v3_arm.EasyFs.Cache.{
  BlockCache, Store, block_cache_size, load, sync_device, change, evict,
}

module _ {B : Type 0} where
  -- The block that a client sees.
  abbrev pub seen : List (BlockCache B) → (ℕ → B) → ℕ → B
  seen [] device id = device id
  seen (e ∷ q) device id = if e.block_id == id then e.cache else seen q device id

  abbrev pub view : Store B → ℕ → B
  view s = seen s.queue s.device

  abbrev pub ids : List (BlockCache B) → List ℕ
  ids [] = []
  ids (e ∷ q) = e.block_id ∷ ids q

  -- An entry that is not dirty holds what the device holds.
  abbrev pub Clean : (ℕ → B) → BlockCache B → Type 0
  Clean device e = e.modified ≡ false → device e.block_id ≡ e.cache

pub record IsCoherent {B : Type 0} (s : Store B) : Type 0 where
  pub distinct : Distinct (ids s.queue)
  pub clean : All (Clean s.device) s.queue
  pub bounded : length s.queue ≤ block_cache_size

module _ {B : Type 0} where
  -- What is dropped from the queue is seen on the device.
  pub sync_device_other :
      (e : BlockCache B) (device : ℕ → B) (id : ℕ)
      → e.block_id ≢ id
      → sync_device e device id ≡ device id
  sync_device_other e device id ne = ground (arith, ne)

  pub sync_device_self :
      (e : BlockCache B) (device : ℕ → B)
      → Clean device e
      → sync_device e device e.block_id ≡ e.cache
  sync_device_self e device c = ground (arith, c, eq_refl e.block_id)

  pub seen-sync_device :
      (q : List (BlockCache B)) (e : BlockCache B) (device : ℕ → B) (id : ℕ)
      → e.block_id ≢ id
      → seen q (sync_device e device) id ≡ seen q device id
  seen-sync_device [] e device id ne = sync_device_other e device id ne
  seen-sync_device (x ∷ q) e device id ne = ground (arith, seen-sync_device q e device id ne)

  pub seen_outside :
      (q : List (BlockCache B)) (device : ℕ → B) (id : ℕ)
      → contains (ids q) id ≡ false
      → seen q device id ≡ device id
  seen_outside [] device id h = refl
  seen_outside (x ∷ q) device id h = ground (arith, seen_outside q device id)

  -- An entry that leaves the queue leaves the others as they are.
  pub record Evicted (device : ℕ → B) (q : List (BlockCache B)) (e : BlockCache B)
      (rest : List (BlockCache B)) : Type 0 where
    pub of_clean : Clean device e
    pub gone : contains (ids rest) e.block_id ≡ false
    pub still_distinct : Distinct (ids rest)
    pub still_clean : All (Clean device) rest
    pub shorter : suc (length rest) ≡ length q
    pub unfound : (i : ℕ) → contains (ids q) i ≡ false → contains (ids rest) i ≡ false
    pub others :
        (i : ℕ) → seen q device i ≡ (if e.block_id == i then e.cache else seen rest device i)
    pub member : contains (ids q) e.block_id ≡ true

  evict_head :
      (device : ℕ → B) (e : BlockCache B) (q : List (BlockCache B))
      → Distinct (ids (e ∷ q))
      → All (Clean device) (e ∷ q)
      → Evicted device (e ∷ q) e q
  evict_head device e q d c = record {
    of_clean = c.0;
    gone = d.0;
    still_distinct = d.1;
    still_clean = c.1;
    shorter = refl;
    unfound = λ i h. ground (arith, h);
    others = λ i. refl;
    member = ground (arith, eq_refl e.block_id);
  }

  evict_later :
      (device : ℕ → B) (x : BlockCache B) (q : List (BlockCache B)) (e : BlockCache B)
      (rest : List (BlockCache B))
      → Distinct (ids (x ∷ q))
      → All (Clean device) (x ∷ q)
      → Evicted device q e rest
      → Evicted device (x ∷ q) e (x ∷ rest)
  evict_later device x q e rest d c v = record {
    of_clean = v.of_clean;
    gone = ground (arith, v.gone, v.member, d.0);
    still_distinct = (v.unfound x.block_id d.0, v.still_distinct);
    still_clean = (c.0, v.still_clean);
    shorter = omega (arith, v.shorter);
    unfound = λ i h. ground (arith, h, v.unfound i);
    others = λ i. ground (arith, v.others i, ne);
    member = ground (arith, v.member);
  }
    where
      ne : e.block_id ≢ x.block_id
      ne same = absurd (cc (ap (contains (ids q)) same, v.member, d.0))

  -- Somebody refers to every entry.
  abbrev pub AllHeld : List (BlockCache B) → Type 0
  AllHeld q = All (λ e. 1 ≤ e.held) q

  -- Nothing can be dropped, or one entry is.
  abbrev pub Dropped : (ℕ → B) → List (BlockCache B) → Type 0
  Dropped device q =
      ((evict q ≡ none) × AllHeld q)
      ⊎ ((e : BlockCache B) × (rest : List (BlockCache B)) × (evict q ≡ some (e, rest))
          × Evicted device q e rest)

  pub evict-Dropped :
      (device : ℕ → B) (q : List (BlockCache B))
      → Distinct (ids q)
      → All (Clean device) q
      → Dropped device q
  unfolding evict
  evict-Dropped device [] d c = inl (refl, tt)
  evict-Dropped device (x ∷ q) d c = elim (Bool-cases (x.held == 0)) [
    | inl z ↦ inr (x, q, ground (arith, z), evict_head device x q d c)
    | inr z ↦ elim (evict-Dropped device q d.1 c.1) [
      | inl n ↦ inl (ground (arith, z, n.0), (ground (arith, z), n.1))
      | inr (e, rest, m, v) ↦
          inr (e, x ∷ rest, ground (arith, z, m), evict_later device x q e rest d c v)
    ]
  ]

  -- A block that is pushed back shows what the device holds.
  pub seen-push :
      (q : List (BlockCache B)) (device : ℕ → B) (id i : ℕ)
      → seen (q ++ (load id device ∷ [])) device i ≡ seen q device i
  unfolding load
  seen-push [] device id i = ground (arith, ==_iff id i)
  seen-push (x ∷ q) device id i = ground (arith, seen-push q device id i)

  pub ids-append : (q p : List (BlockCache B)) → ids (q ++ p) ≡ ids q ++ ids p
  ids-append [] p = refl
  ids-append (x ∷ q) p = ap (◌∷◌ x.block_id) (ids-append q p)

  -- A change of an entry that keeps its block.
  abbrev pub Keeps : (BlockCache B → BlockCache B) → Type 0
  Keeps f = (e : BlockCache B) → (f e).block_id ≡ e.block_id

  pub ids-change :
      (f : BlockCache B → BlockCache B)
      → Keeps f
      → (q : List (BlockCache B)) (id : ℕ) → ids (change f q id) ≡ ids q
  ids-change f k [] id = refl
  ids-change f k (x ∷ q) id = ground (arith, k x, ids-change f k q id)

  pub length-change :
      (f : BlockCache B → BlockCache B) (q : List (BlockCache B)) (id : ℕ)
      → length (change f q id) ≡ length q
  length-change f [] id = refl
  length-change f (x ∷ q) id = ground (arith, length-change f q id)

  pub Clean-change :
      (device : ℕ → B) (f : BlockCache B → BlockCache B)
      → ((e : BlockCache B) → Clean device e → Clean device (f e))
      → (q : List (BlockCache B)) (id : ℕ) → All (Clean device) q
      → All (Clean device) (change f q id)
  Clean-change device f k [] id c = c
  Clean-change device f k (x ∷ q) id c = ground (arith, k x c.0, Clean-change device f k q id c.1)

  pub seen-change_same :
      (f : BlockCache B → BlockCache B)
      → Keeps f
      → ((e : BlockCache B) → (f e).cache ≡ e.cache)
      → (q : List (BlockCache B)) (device : ℕ → B) (id i : ℕ)
      → seen (change f q id) device i ≡ seen q device i
  seen-change_same f k same [] device id i = refl
  seen-change_same f k same (x ∷ q) device id i =
      ground (arith, k x, same x, seen-change_same f k same q device id i)

  pub Clean-sync_device :
      (e : BlockCache B) (device : ℕ → B) (q : List (BlockCache B))
      → contains (ids q) e.block_id ≡ false
      → All (Clean device) q
      → All (Clean (sync_device e device)) q
  Clean-sync_device e device [] h c = tt
  Clean-sync_device e device (x ∷ q) h c = (
    λ m. sync_device_other e device x.block_id ne ∙ c.0 m,
    Clean-sync_device e device q (ground (arith, h)) c.1,
  )
    where
      ne : e.block_id ≢ x.block_id
      ne same = ground (arith, h, same)
