-- ===== src/EasyFs/Cache/Durable.antt =====
-- A block that is modified is seen modified, and a synchronisation puts what is seen on the device.
use r_core_tutorial_v3_arm.Base.{
  ℕ, suc, ◌≡◌, refl, sym, ap, ◌∙◌, subst, ◌≢◌, inl, inr, true, false, List, [], ◌∷◌, arith, ◌==◌,
  if◌then◌else◌, ==_iff, eq_refl, Bool-cases, length, All, contains, Distinct,
}
use r_core_tutorial_v3_arm.EasyFs.Cache.{
  BlockCache, Store, sync_device, synced, change, modify, sync_queue, sync_all,
}
use r_core_tutorial_v3_arm.EasyFs.Cache.Refine.{
  seen, view, ids, Clean, IsCoherent, sync_device_self, seen-sync_device, seen_outside, ids-change,
  length-change, Clean-change, Clean-sync_device,
}

module _ {B : Type 0} where
  abbrev dirty : (B → B) → BlockCache B → BlockCache B
  dirty f e = record e { cache = f e.cache; modified = true }

  seen-dirty :
      (f : B → B) (q : List (BlockCache B)) (device : ℕ → B) (id i : ℕ)
      → contains (ids q) id ≡ true
      → seen (change (dirty f) q id) device i
        ≡ (if id == i then f (seen q device i) else seen q device i)
  seen-dirty f [] device id i h = absurd (cc h)
  seen-dirty f (x ∷ q) device id i h = ground (arith, h, seen-dirty f q device id i)

  -- `modify` on a cached block changes that block as a client sees it, no other, and keeps the cache
  -- coherent.
  pub modify-view :
      (s : Store B) (id : ℕ) (f : B → B)
      → IsCoherent s
      → contains (ids s.queue) id ≡ true
      → IsCoherent (modify s id f)
        × ((i : ℕ) → view (modify s id f) i ≡ (if id == i then f (view s i) else view s i))
  unfolding modify
  modify-view s id f c h = (
    record {
      distinct = subst Distinct (sym (ids-change (dirty f) (λ e. refl) s.queue id)) c.distinct;
      clean = Clean-change s.device (dirty f) (λ e x m. absurd (cc m)) s.queue id c.clean;
      bounded = omega (arith, length-change (dirty f) s.queue id, c.bounded);
    },
    λ i. seen-dirty f s.queue s.device id i h,
  )

  -- One synchronisation of the whole queue.
  pub record Flushed (q : List (BlockCache B)) (device : ℕ → B) (r : List (BlockCache B) × (ℕ → B))
      : Type 0 where
    pub durable : (i : ℕ) → r.1 i ≡ seen q device i
    pub same_seen : (i : ℕ) → seen r.0 r.1 i ≡ seen q device i
    pub same_ids : ids r.0 ≡ ids q
    pub same_length : length r.0 ≡ length q

  Flushed-cons :
      (e : BlockCache B) (q : List (BlockCache B)) (device : ℕ → B)
      (r : List (BlockCache B) × (ℕ → B))
      → contains (ids q) e.block_id ≡ false
      → Clean device e
      → Flushed q (sync_device e device) r
      → Flushed (e ∷ q) device (synced e ∷ r.0, r.1)
  Flushed-cons e q device r h c v = record {
    durable = λ i. elim (Bool-cases (e.block_id == i)) [
      | inl y ↦ subst (λ j. r.1 j ≡ seen (e ∷ q) device j) ((==_iff e.block_id i).0 y) mine
      | inr n ↦
          ground
            (arith, n, v.durable i, seen-sync_device q e device i (λ same. ground (arith, n, same)))
    ];
    same_seen = λ i. elim (Bool-cases (e.block_id == i)) [
      | inl y ↦ ground (arith, y)
      | inr n ↦
          ground (
            arith,
            n,
            v.same_seen i,
            seen-sync_device q e device i (λ same. ground (arith, n, same)),
          )
    ];
    same_ids = ground (arith, v.same_ids);
    same_length = ap suc v.same_length;
  }
    where
      mine : r.1 e.block_id ≡ seen (e ∷ q) device e.block_id
      mine = ground (
        arith,
        eq_refl e.block_id,
        v.durable e.block_id,
        seen_outside q (sync_device e device) e.block_id h,
        sync_device_self e device c,
      )

  sync_queue-Flushed :
      (q : List (BlockCache B)) (device : ℕ → B)
      → Distinct (ids q)
      → All (Clean device) q
      → Flushed q device (sync_queue q device)
  unfolding sync_queue
  sync_queue-Flushed [] device d c = record {
    durable = λ i. refl;
    same_seen = λ i. refl;
    same_ids = refl;
    same_length = refl;
  }
  sync_queue-Flushed (e ∷ q) device d c =
      Flushed-cons e q device (sync_queue q (sync_device e device)) d.0 c.0
        (sync_queue-Flushed q (sync_device e device) d.1 (Clean-sync_device e device q d.0 c.1))

  durable-Clean :
      (q : List (BlockCache B)) (device : ℕ → B)
      → Distinct (ids q)
      → ((i : ℕ) → contains (ids q) i ≡ true → device i ≡ seen q device i)
      → All (Clean device) q
  durable-Clean [] device d h = tt
  durable-Clean (e ∷ q) device d h = (
    λ m. ground (arith, eq_refl e.block_id, h e.block_id),
    durable-Clean q device d.1 (λ i k. ground (arith, k, h i, ne i k)),
  )
    where
      ne : (i : ℕ) → contains (ids q) i ≡ true → e.block_id ≢ i
      ne i k same = absurd (cc (ap (contains (ids q)) same, d.0, k))

  -- On a coherent store `block_cache_sync_all` leaves on the device exactly what a client sees, and
  -- keeps that view and the coherence.
  pub sync_all-durable :
      (s : Store B)
      → IsCoherent s
      → ((i : ℕ) → (sync_all s).device i ≡ view s i)
        × ((i : ℕ) → view (sync_all s) i ≡ view s i)
        × IsCoherent (sync_all s)
  unfolding sync_all
  sync_all-durable s c =
      let v = sync_queue-Flushed s.queue s.device c.distinct c.clean in
      let unique = subst Distinct (sym v.same_ids) c.distinct in
      (
        v.durable,
        v.same_seen,
        record {
          distinct = unique;
          clean =
              durable-Clean (sync_queue s.queue s.device).0 (sync_queue s.queue s.device).1 unique
                (λ i k. v.durable i ∙ sym (v.same_seen i));
          bounded = omega (arith, v.same_length, c.bounded);
        },
      )
