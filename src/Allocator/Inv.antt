-- ===== src/Allocator/Inv.antt =====
-- Numbers are given out once: the invariant of the allocator against its clients.
use r_core_tutorial_v3_arm.Base.{
  ℕ, ◌+◌, ◌≤◌, ◌<◌, ◌≡◌, refl, ◌≢◌, ◌⊎◌, ◌↔◌, inl, inr, false, none, some, List, [], ◌∷◌, arith,
  contains, Distinct, All, done, panic, Bool-cases, leb, ltb, leb→le, ltb→lt,
}
use r_core_tutorial_v3_arm.Allocator.{
  FreeListAllocator, init, available_space, fresh, alloc_from, alloc, dealloc,
}

-- The numbers that clients hold: in range, given out before, and not in the free list.
pub record Held (a : FreeListAllocator) (v : ℕ) : Type 0 where
  pub first : a.range_start ≤ v
  pub given : v < a.next_available
  pub taken : contains a.free_list v ≡ false

abbrev pub InRange : ℕ → ℕ → ℕ → Type 0
InRange lo hi v = (lo ≤ v) × (v < hi)

pub record IsValid (a : FreeListAllocator) : Type 0 where
  pub order : a.range_start ≤ a.next_available
  pub bounded : a.next_available ≤ a.range_end
  pub distinct : Distinct a.free_list
  pub in_range : All (InRange a.range_start a.next_available) a.free_list

InRange-weaken : (lo hi : ℕ) (xs : List ℕ) → All (InRange lo hi) xs → All (InRange lo (hi + 1)) xs
InRange-weaken lo hi [] h = tt
InRange-weaken lo hi (x ∷ xs) h = ((h.0.0, omega arith), InRange-weaken lo hi xs h.1)

-- A number past the range is in no list of that range.
contains_past :
    (lo hi v : ℕ) (xs : List ℕ) → All (InRange lo hi) xs → hi ≤ v → contains xs v ≡ false
contains_past lo hi v [] h k = refl
contains_past lo hi v (x ∷ xs) h k = ground (arith, contains_past lo hi v xs h.1 k)

pub init-IsValid :
    (a : FreeListAllocator) (first last : ℕ)
    → a.free_list ≡ []
    → first ≤ last
    → IsValid (init a first last)
unfolding init
init-IsValid a first last e h = record {
  order = omega arith;
  bounded = h;
  distinct = rw e tt;
  in_range = rw e tt;
}

-- What a call of `alloc` does.
pub record Allocated (a b : FreeListAllocator) (v : ℕ) : Type 0 where
  pub valid : IsValid b
  pub was_free : ¬ Held a v
  pub now_held : Held b v
  pub others : (w : ℕ) → w ≢ v → Held a w ↔ Held b w
  pub space : available_space b + 1 ≡ available_space a
  pub range : (b.range_start ≡ a.range_start) × (b.range_end ≡ a.range_end)

-- A number that was never given out.
fresh-Allocated :
    (a : FreeListAllocator)
    → a.free_list ≡ []
    → IsValid a
    → a.next_available < a.range_end
    → Allocated a (record a { next_available = a.next_available + 1 }) a.next_available
unfolding available_space
fresh-Allocated a e h lt = record {
  valid = record {
    order = omega (arith, h.order);
    bounded = omega arith;
    distinct = h.distinct;
    in_range = InRange-weaken a.range_start a.next_available a.free_list h.in_range;
  };
  was_free = λ k. omega (arith, k.given);
  now_held = record { first = h.order; given = omega arith; taken = rw e refl };
  others = λ w ne. (
    λ k. record { first = k.first; given = omega (arith, k.given); taken = k.taken },
    λ k. record { first = k.first; given = omega (arith, k.given, ne); taken = k.taken },
  );
  space = rw e (omega arith);
  range = (refl, refl);
}

-- The number that came back last.
recycled-Allocated :
    (a : FreeListAllocator) (x : ℕ) (xs : List ℕ)
    → a.free_list ≡ x ∷ xs
    → IsValid a
    → Allocated a (record a { free_list = xs }) x
unfolding available_space
recycled-Allocated a x xs e h = record {
  valid = record { order = h.order; bounded = h.bounded; distinct = d.1; in_range = r.1 };
  was_free = λ k. ground (arith, k.taken, e);
  now_held = record { first = r.0.0; given = r.0.1; taken = d.0 };
  others = λ w ne. (
    λ k. record { first = k.first; given = k.given; taken = ground (arith, k.taken, e) },
    λ k. record { first = k.first; given = k.given; taken = rw e (ground (arith, k.taken, ne)) },
  );
  space = rw e (omega (arith, h.bounded));
  range = (refl, refl);
}
  where
    d : Distinct (x ∷ xs)
    d = rw e at h.distinct

    r : All (InRange a.range_start a.next_available) (x ∷ xs)
    r = rw e at h.in_range

alloc_from-Allocated :
    (a : FreeListAllocator) (xs : List ℕ)
    → a.free_list ≡ xs
    → IsValid a
    → ((alloc_from a xs ≡ (none, a)) × (available_space a ≡ 0))
      ⊎ ((v : ℕ) × (b : FreeListAllocator) × (alloc_from a xs ≡ (some v, b)) × Allocated a b v)
unfolding alloc_from fresh available_space
alloc_from-Allocated a [] e h = elim (Bool-cases (leb a.range_end a.next_available)) [
  | inl full ↦
      inl (rw full, rw e (omega (arith, leb→le a.range_end a.next_available full, h.bounded)))
  | inr more ↦ inr (
    a.next_available,
    record a { next_available = a.next_available + 1 },
    ground arith,
    fresh-Allocated a e h (ground arith),
  )
]
alloc_from-Allocated a (x ∷ xs) e h =
    inr (x, record a { free_list = xs }, refl, recycled-Allocated a x xs e h)

-- For a valid allocator, `alloc` fails, changing nothing, only when no space is left; otherwise it
-- gives a number that no client held, that is held from then on, and leaves what every other number
-- is as it was, the space one smaller, the range the same and the
-- allocator valid.
pub alloc-Allocated :
    (a : FreeListAllocator)
    → IsValid a
    → ((alloc a ≡ (none, a)) × (available_space a ≡ 0))
      ⊎ ((v : ℕ) × (b : FreeListAllocator) × (alloc a ≡ (some v, b)) × Allocated a b v)
unfolding alloc
alloc-Allocated a h = alloc_from-Allocated a a.free_list refl h

-- What a call of `dealloc` does.
pub record Released (a b : FreeListAllocator) (v : ℕ) : Type 0 where
  pub valid : IsValid b
  pub now_free : ¬ Held b v
  pub others : (w : ℕ) → w ≢ v → Held a w ↔ Held b w
  pub space : available_space b ≡ available_space a + 1
  pub next : alloc b ≡ (some v, a)

-- For a valid allocator, `dealloc` of a held number does not panic: the number is free afterwards,
-- every other number is what it was, the space is one larger, the allocator is valid, and the next
-- `alloc` gives the number again and restores the allocator.
pub dealloc-Released :
    (a : FreeListAllocator) (v : ℕ)
    → IsValid a
    → Held a v
    → (b : FreeListAllocator) × (dealloc a v ≡ done b) × Released a b v
unfolding dealloc available_space alloc
dealloc-Released a v h k = (
  record a { free_list = v ∷ a.free_list },
  ran,
  record {
    valid = record {
      order = h.order;
      bounded = h.bounded;
      distinct = (k.taken, h.distinct);
      in_range = ((k.first, k.given), h.in_range);
    };
    now_free = λ g. ground (arith, g.taken);
    others = λ w ne. (
      λ g. record { first = g.first; given = g.given; taken = ground (arith, g.taken, ne) },
      λ g. record { first = g.first; given = g.given; taken = ground (arith, g.taken) },
    );
    space = omega (arith, h.bounded);
    next = refl;
  },
)
  where
    ran : dealloc a v ≡ done (record a { free_list = v ∷ a.free_list })
    ran = ground (arith, k.first, k.given, k.taken)

-- A number that is not held is never taken back: `dealloc` panics on it.
pub dealloc-panic : (a : FreeListAllocator) (v : ℕ) → ¬ Held a v → dealloc a v ≡ panic
unfolding dealloc
dealloc-panic a v free = elim (Bool-cases (leb a.range_start v)) [
  | inr e ↦ rw e
  | inl e ↦ elim (Bool-cases (ltb v a.next_available)) [
    | inr f ↦ rw (e, f)
    | inl f ↦ elim (Bool-cases (contains a.free_list v)) [
      | inl g ↦ rw (e, f, g)
      | inr g ↦ absurd (
          free (record {
            first = leb→le a.range_start v e;
            given = ltb→lt v a.next_available f;
            taken = g;
          }))
    ]
  ]
]
