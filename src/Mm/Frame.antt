-- ===== src/Mm/Frame.antt =====
-- os/src/mm/frame_allocator.rs: physical frames over the allocator of frame numbers. A frame is
-- owned by whoever holds the `PhysFrame`; dropping it gives its number back. The lock is not
-- modelled: each function takes the allocator and returns it.
use r_core_tutorial_v3_arm.Base.{
  ℕ, ◌+◌, ◌-◌, ◌*◌, ◌/◌, ◌^◌, ◌≤◌, ◌<◌, ◌≡◌, refl, subst, ◌≢◌, ◌⊎◌, inl, inr, ◌&&◌, Option, none,
  some, [], arith, ltb, leb, if◌then◌else◌, Run, done, panic, ◌>>=◌,
}
use r_core_tutorial_v3_arm.Allocator
use r_core_tutorial_v3_arm.Allocator.{FreeListAllocator, available_space}
use r_core_tutorial_v3_arm.Allocator.Inv.{
  Held, IsValid, alloc-Allocated, dealloc-Released, init-IsValid,
}
use r_core_tutorial_v3_arm.Mm.Address.{
  page_size, memory_end, phys_virt_offset, virt_to_phys, new_paddr, new_paddr-eq, align_up,
  align_down, align_down-eq, AlignsUp, align_up-AlignsUp,
}

pub record PhysFrame : Type 0 where
  pub start_paddr : ℕ

-- The frame of a number; the product is a checked one.
frame_of : Option ℕ → FreeListAllocator → Run (Option PhysFrame × FreeListAllocator)
frame_of none b = done (none, b)
frame_of (some value) b =
    if ltb (value * page_size) (2 ^ 64)
    then done (some (record { start_paddr = new_paddr (value * page_size) }), b)
    else panic

-- `PhysFrame::alloc`
unfoldable pub alloc : FreeListAllocator → Run (Option PhysFrame × FreeListAllocator)
unfolding frame_of
alloc a = let (value, b) = Allocator.alloc a in frame_of value b

-- `drop`
unfoldable pub drop_frame : PhysFrame → FreeListAllocator → Run FreeListAllocator
drop_frame f a = Allocator.dealloc a (f.start_paddr / page_size)

-- `PhysFrame::zero`, over the bytes of physical memory.
unfoldable pub zero_frame : PhysFrame → (ℕ → ℕ) → ℕ → ℕ
zero_frame f mem p = if leb f.start_paddr p && ltb p (f.start_paddr + page_size) then 0 else mem p

-- `PhysFrame::alloc_zero`
unfoldable pub alloc_zero :
    FreeListAllocator → (ℕ → ℕ) → Run (Option PhysFrame × FreeListAllocator × (ℕ → ℕ))
alloc_zero a mem = alloc a >>= λ r. elim r.0 [
  | none ↦ done (none, r.1, mem)
  | some f ↦ done (some f, r.1, zero_frame f mem)
]

-- `init_frame_allocator`: the frames from the end of the kernel image to the end of memory.
unfoldable pub init_frame_allocator : ℕ → FreeListAllocator → Run FreeListAllocator
init_frame_allocator ekernel a = do
  kernel_end ← virt_to_phys ekernel
  start_paddr ← align_up (new_paddr kernel_end) page_size
  done (
      Allocator.init a (start_paddr / page_size)
        (align_down (new_paddr memory_end) page_size / page_size))

-- The allocator hands out frames of the machine's memory only.
pub record IsMemory (a : FreeListAllocator) : Type 0 where
  pub valid : IsValid a
  pub last : a.range_end ≤ memory_end / page_size

-- The client of `a` holds the frame `f`: its number is held, and it starts at that page.
pub record Owns (a : FreeListAllocator) (f : PhysFrame) : Type 0 where
  pub held : Held a (f.start_paddr / page_size)
  pub aligned : f.start_paddr / page_size * page_size ≡ f.start_paddr
  pub inside : f.start_paddr + page_size ≤ memory_end

alloc-none : (a b : FreeListAllocator) → Allocator.alloc a ≡ (none, b) → alloc a ≡ done (none, b)
unfolding alloc
alloc-none a b e = rw (e, frame_of)

pub alloc-some :
    (a b : FreeListAllocator) (v : ℕ)
    → Allocator.alloc a ≡ (some v, b)
    → v < memory_end / page_size
    → alloc a ≡ done (some (record { start_paddr = v * page_size }), b)
unfolding alloc
alloc-some a b v e h = rw (e, frame_of) (ground (arith, new_paddr-eq (v * page_size)))

pub frame_owned :
    (a : FreeListAllocator) (v : ℕ)
    → Held a v
    → v < memory_end / page_size
    → Owns a (record { start_paddr = v * page_size })
frame_owned a v k h = record {
  held = subst (Held a) (omega arith) k;
  aligned = omega arith;
  inside = omega arith;
}

-- Where the allocator serves the machine's memory, `PhysFrame::alloc` never panics. It answers `None`
-- only when no space is left; otherwise the frame is page-aligned, lies inside memory, was owned by
-- nobody before and is owned now, and dropping it at once does not panic and gives the space back.
pub alloc-Owns :
    (a : FreeListAllocator)
    → IsMemory a
    → ((alloc a ≡ done (none, a)) × (available_space a ≡ 0))
      ⊎ ((f : PhysFrame) × (b c : FreeListAllocator) × (alloc a ≡ done (some f, b))
          × (¬ Owns a f)
          × Owns b f
          × IsMemory b
          × (drop_frame f b ≡ done c)
          × (available_space c ≡ available_space a))
alloc-Owns a m = elim (alloc-Allocated a m.valid) [
  | inl (e, space) ↦ inl (alloc-none a a e, space)
  | inr (v, b, e, r) ↦
      let inside : v < memory_end / page_size =
        omega (arith, m.last, r.now_held.given, r.valid.bounded, r.range.1) in
      let f : PhysFrame = record { start_paddr = v * page_size } in
      let number : f.start_paddr / page_size ≡ v = omega arith in
      let (c, ran, back) = dealloc-Released b v r.valid r.now_held in
      inr (
        f,
        b,
        c,
        alloc-some a b v e inside,
        λ o. r.was_free (subst (Held a) number o.held),
        frame_owned b v r.now_held inside,
        record { valid = r.valid; last = omega (arith, m.last, r.range.1) },
        unfold drop_frame in rw number ran,
        omega (arith, back.space, r.space),
      )
]

-- Two frames that are owned at once share no byte unless they are one frame.
pub owned_frames_disjoint :
    (a : FreeListAllocator) (f g : PhysFrame)
    → Owns a f
    → Owns a g
    → f.start_paddr ≢ g.start_paddr
    → (f.start_paddr + page_size ≤ g.start_paddr) ⊎ (g.start_paddr + page_size ≤ f.start_paddr)
owned_frames_disjoint a f g p q ne = grind (arith, p.aligned, q.aligned)

align_up-done :
    (a : ℕ) → a + 4095 < 2 ^ 64 → (b : ℕ) × (align_up a page_size ≡ done b) × AlignsUp a (done b)
align_up-done a h = go (align_up a page_size) refl (align_up-AlignsUp a (omega arith))
  where
    go :
        (r : Run ℕ)
        → align_up a page_size ≡ r
        → AlignsUp a r
        → (b : ℕ) × (align_up a page_size ≡ done b) × AlignsUp a (done b)
    go (done b) e k = (b, e, k)
    go panic e k = absurd (omega arith)

virt_to_phys-done : (a : ℕ) → phys_virt_offset ≤ a → virt_to_phys a ≡ done (a - phys_virt_offset)
unfolding virt_to_phys
virt_to_phys-done a h = ground arith

-- With the kernel image inside memory, and nothing in the free list, `init_frame_allocator` does not
-- panic: it leaves a valid allocator of frames of memory that begin at or past the image's end.
pub init_frame_allocator-IsMemory :
    (ekernel : ℕ) (a : FreeListAllocator)
    → phys_virt_offset ≤ ekernel
    → ekernel + page_size ≤ phys_virt_offset + memory_end
    → a.free_list ≡ []
    → (b : FreeListAllocator) × (init_frame_allocator ekernel a ≡ done b)
      × IsMemory b
      × (ekernel ≤ phys_virt_offset + b.range_start * page_size)
unfolding init_frame_allocator
init_frame_allocator-IsMemory ekernel a low high e =
    let p : ℕ = ekernel - phys_virt_offset in
    let small : p < 2 ^ 40 = omega arith in
    let same : new_paddr p ≡ p = omega (arith, new_paddr-eq p) in
    let (start, ran, k) = align_up-done (new_paddr p) (omega arith) in
    let last : ℕ = align_down (new_paddr memory_end) page_size / page_size in
    let end_eq : last ≡ memory_end / page_size = omega (
      arith,
      align_down-eq (new_paddr memory_end) (omega (arith, new_paddr-eq memory_end)),
      new_paddr-eq memory_end,
    ) in
    (
      Allocator.init a (start / page_size) last,
      rw (virt_to_phys-done ekernel low, ran),
      record {
        valid = init-IsValid a (start / page_size) last e (omega arith);
        last = unfold Allocator.init in omega arith;
      },
      unfold Allocator.init in omega (arith, k),
    )
