-- ===== src/Mm/Area/Mapped.antt =====
-- What `map` and `unmap` of an area with its own frames do.
use r_core_tutorial_v3_arm.Base.{
  ℕ, ◌+◌, ◌*◌, ◌/◌, ◌≤◌, ◌<◌, ◌≡◌, refl, sym, ap, ◌∙◌, subst, ◌≢◌, ◌⊎◌, inl, inr, true, false, none,
  some, List, ◌∷◌, arith, ◌==◌, ==_iff, eq_refl, Bool-cases, Option-cases, Run, done,
}
use r_core_tutorial_v3_arm.Allocator.{FreeListAllocator, available_space}
use r_core_tutorial_v3_arm.Allocator.Inv.{Held, Allocated, alloc-Allocated}
use r_core_tutorial_v3_arm.Mm.Address.{page_size, memory_end, is_aligned}
use r_core_tutorial_v3_arm.Allocator
use r_core_tutorial_v3_arm.Mm.Frame.{
  PhysFrame, IsMemory, Owns, alloc_zero, zero_frame, alloc-some, frame_owned,
}
use r_core_tutorial_v3_arm.Mm.Area.{framed, MapArea, Memory, find_frame, map_vacant, map_by, map}

-- The area owns the frames of its pages, and no two pages share one.
pub record IsArea (frames : List (ℕ × PhysFrame)) (a : FreeListAllocator) : Type 0 where
  pub memory : IsMemory a
  pub owned : (v : ℕ) (f : PhysFrame) → find_frame frames v ≡ some f → Owns a f
  pub apart :
      (v w : ℕ) (f g : PhysFrame)
      → v ≢ w
      → find_frame frames v ≡ some f
      → find_frame frames w ≡ some g
      → f.start_paddr ≢ g.start_paddr

-- `map` answered the address `p` for the page `v`: that of the frame it had, or of a new one full of zeros.
pub record IsMapped (frames : List (ℕ × PhysFrame)) (m : Memory) (v p : ℕ)
    (frames' : List (ℕ × PhysFrame)) (m' : Memory) : Type 0 where
  pub valid : IsArea frames' m'.frames
  pub frame : PhysFrame
  pub found : find_frame frames' v ≡ some frame
  pub address : frame.start_paddr ≡ p
  pub others : (w : ℕ) → w ≢ v → find_frame frames' w ≡ find_frame frames w
  pub space : available_space m.frames ≤ available_space m'.frames + 1
  pub kept : (q : ℕ) → (q < p) ⊎ (p + page_size ≤ q) → m'.bytes q ≡ m.bytes q
  pub again : (f : PhysFrame) → find_frame frames v ≡ some f → (frames' ≡ frames) × (m' ≡ m)
  pub zeroed : find_frame frames v ≡ none → (q : ℕ) → p ≤ q → q < p + page_size → m'.bytes q ≡ 0
  pub fresh : find_frame frames v ≡ none → ¬ Owns m.frames frame
  pub owners : (g : PhysFrame) → Owns m.frames g → Owns m'.frames g

abbrev pub mapped : ℕ → MapArea → List (ℕ × PhysFrame) → Memory → Run (ℕ × MapArea × Memory)
mapped p area frames m = done (p, record area { mapper = framed frames }, m)

Owns-kept :
    (a b : FreeListAllocator) (v : ℕ) (f : PhysFrame) → Allocated a b v → Owns a f → Owns b f
Owns-kept a b v f r o = record {
  held =
      (r.others (f.start_paddr / page_size) (λ e. r.was_free (subst (Held a) e o.held))).0 o.held;
  aligned = o.aligned;
  inside = o.inside;
}

new_apart :
    (a b : FreeListAllocator) (v : ℕ) (f : PhysFrame)
    → Allocated a b v
    → Owns a f
    → f.start_paddr ≢ v * page_size
new_apart a b v f r o e = r.was_free (subst (Held a) (omega (arith, e)) o.held)

pub frame_value : (f g : PhysFrame) → some f ≡ some g → f ≡ g
frame_value f g e = ap (λ o. elim o [ none ↦ f | some h ↦ h ]) e

find_first :
    (frames : List (ℕ × PhysFrame)) (v w : ℕ) (f g : PhysFrame)
    → find_frame ((v, f) ∷ frames) w ≡ some g
    → ((v ≡ w) × (f ≡ g)) ⊎ (find_frame frames w ≡ some g)
find_first frames v w f g e = by_key (Bool-cases (v == w))
  where
    by_key :
        ((v == w) ≡ true) ⊎ ((v == w) ≡ false)
        → ((v ≡ w) × (f ≡ g)) ⊎ (find_frame frames w ≡ some g)
    by_key (inl y) = inl ((==_iff v w).0 y, frame_value f g (sym (rw y refl) ∙ e))
    by_key (inr n) = inr (sym (rw n refl) ∙ e)

insert-IsArea :
    (frames : List (ℕ × PhysFrame)) (a b : FreeListAllocator) (v n : ℕ)
    → IsArea frames a
    → Allocated a b n
    → n < memory_end / page_size
    → IsArea ((v, record { start_paddr = n * page_size }) ∷ frames) b
insert-IsArea frames a b v n i r h = record {
  memory = record { valid = r.valid; last = omega (arith, i.memory.last, r.range.1) };
  owned = λ w f e. owned w f (find_first frames v w new f e);
  apart = λ w u f g ne e d.
      apart w u f g ne (find_first frames v w new f e) (find_first frames v u new g d);
}
  where
    new : PhysFrame
    new = record { start_paddr = n * page_size }

    owned :
        (w : ℕ) (f : PhysFrame) → ((v ≡ w) × (new ≡ f)) ⊎ (find_frame frames w ≡ some f) → Owns b f
    owned w f (inl (y, e)) = subst (Owns b) e (frame_owned b n r.now_held h)
    owned w f (inr e) = Owns-kept a b n f r (i.owned w f e)

    apart :
        (w u : ℕ) (f g : PhysFrame)
        → w ≢ u
        → ((v ≡ w) × (new ≡ f)) ⊎ (find_frame frames w ≡ some f)
        → ((v ≡ u) × (new ≡ g)) ⊎ (find_frame frames u ≡ some g)
        → f.start_paddr ≢ g.start_paddr
    apart w u f g ne (inl (y, e)) (inl (z, d)) = λ same. ne (sym y ∙ z)
    apart w u f g ne (inl (y, e)) (inr d) =
        λ same. new_apart a b n g r (i.owned u g d) (sym same ∙ sym (ap (λ k. k.start_paddr) e))
    apart w u f g ne (inr e) (inl (z, d)) =
        λ same. new_apart a b n f r (i.owned w f e) (same ∙ sym (ap (λ k. k.start_paddr) d))
    apart w u f g ne (inr e) (inr d) = i.apart w u f g ne e d

alloc_zero-some :
    (a b : FreeListAllocator) (n : ℕ) (mem : ℕ → ℕ)
    → Allocator.alloc a ≡ (some n, b)
    → n < memory_end / page_size
    → alloc_zero a mem
      ≡ done (
        some (record { start_paddr = n * page_size }),
        b,
        zero_frame (record { start_paddr = n * page_size }) mem,
      )
unfolding alloc_zero
alloc_zero-some a b n mem e h = rw (alloc-some a b n e h) refl

-- A page that is in the map of the area already.
map-occupied :
    (area : MapArea) (m : Memory) (frames : List (ℕ × PhysFrame)) (v : ℕ) (f : PhysFrame)
    → area.mapper ≡ framed frames
    → IsArea frames m.frames
    → find_frame frames v ≡ some f
    → (map_by area.mapper area m v ≡ mapped f.start_paddr area frames m)
      × IsMapped frames m v f.start_paddr frames m
map-occupied area m frames v f e i o = (
  rw e (rw (map_by, o) refl),
  record {
    valid = i;
    frame = f;
    found = o;
    address = refl;
    others = λ w n. refl;
    space = omega arith;
    kept = λ q h. refl;
    again = λ g d. (refl, refl);
    zeroed = λ d. absurd (grind (arith, o, d));
    fresh = λ d. absurd (grind (arith, o, d));
    owners = λ g w. w;
  },
)

map-vacant :
    (area : MapArea) (m : Memory) (frames : List (ℕ × PhysFrame)) (v n : ℕ) (b : FreeListAllocator)
    → area.mapper ≡ framed frames
    → IsArea frames m.frames
    → find_frame frames v ≡ none
    → Allocator.alloc m.frames ≡ (some n, b)
    → Allocated m.frames b n
    → (frames' : List (ℕ × PhysFrame)) × (m' : Memory) × (map_by area.mapper area m v
        ≡ mapped (n * page_size) area frames' m')
      × IsMapped frames m v (n * page_size) frames' m'
unfolding map_vacant zero_frame
map-vacant area m frames v n b e i o ran r =
    let inside : n < memory_end / page_size =
      omega (arith, i.memory.last, r.now_held.given, r.valid.bounded, r.range.1) in
    let new : PhysFrame = record { start_paddr = n * page_size } in
    let number : n * page_size / page_size ≡ n = omega arith in
    (
      (v, new) ∷ frames,
      record { frames = b; bytes = zero_frame new m.bytes },
      rw e (rw (map_by, o) (rw (alloc_zero-some m.frames b n m.bytes ran inside) refl)),
      record {
        valid = insert-IsArea frames m.frames b v n i r inside;
        frame = new;
        found = rw (eq_refl v) refl;
        address = refl;
        others = λ w ne. elim (Bool-cases (v == w)) [
          | inl y ↦ absurd (ne (sym ((==_iff v w).0 y)))
          | inr y ↦ rw y refl
        ];
        space = omega (arith, r.space);
        kept = λ q h. elim h [ inl low ↦ ground (arith, low) | inr high ↦ ground (arith, high) ];
        again = λ g d. absurd (grind (arith, o, d));
        zeroed = λ d q low high. ground (arith, low, high);
        fresh = λ d w. r.was_free (subst (Held m.frames) number w.held);
        owners = λ g w. Owns-kept m.frames b n g r w;
      },
    )

-- For an area that owns the frames of its pages, each page its own, and an allocator with a frame left, `map`
-- of an aligned address does not panic: the area again owns a frame for each page, the page has the
-- frame at the answered address, and all other pages keep theirs. A page that had a frame keeps it and
-- nothing changes; a new frame belonged to nobody and is full of zeros, and memory outside it is as
-- before. Whoever owned a frame owns it still.
pub map-IsMapped :
    (area : MapArea) (m : Memory) (frames : List (ℕ × PhysFrame)) (v : ℕ)
    → area.mapper ≡ framed frames
    → IsArea frames m.frames
    → is_aligned v page_size ≡ true
    → 0 < available_space m.frames
    → (p : ℕ) × (frames' : List (ℕ × PhysFrame)) × (m' : Memory) × (map area m v
        ≡ mapped p area frames' m')
      × IsMapped frames m v p frames' m'
unfolding map
map-IsMapped area m frames v e i al room = elim (Option-cases (find_frame frames v)) [
  | inr (f, o) ↦
      let (ran, k) = map-occupied area m frames v f e i o in
      (f.start_paddr, frames, m, rw al ran, k)
  | inl o ↦ elim (alloc-Allocated m.frames i.memory.valid) [
    | inl (unserved, empty) ↦ absurd (omega (arith, room, empty))
    | inr (n, b, ran, r) ↦
        let (frames', m', went, k) = map-vacant area m frames v n b e i o ran r in
        (n * page_size, frames', m', rw al went, k)
  ]
]
