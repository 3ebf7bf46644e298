-- ===== src/Mm/Area/Writing.antt =====
-- The loop of `write_data`.
use r_core_tutorial_v3_arm.Base.{
  ℕ, zero, suc, ◌+◌, ◌-◌, ◌*◌, ◌/◌, ◌%◌, ◌^◌, ◌≤◌, ◌<◌, min, ◌≡◌, refl, List, [], ◌∷◌, arith,
  length, take, drop, done, length-drop,
}
use r_core_tutorial_v3_arm.Allocator.{available_space}
use r_core_tutorial_v3_arm.Mm.Address.{
  page_size, is_aligned_multiple, align_down, align_down-eq, new_vaddr,
}
use r_core_tutorial_v3_arm.Mm.Frame.{PhysFrame}
use r_core_tutorial_v3_arm.Mm.Area.{framed, MapArea, Memory, copy_to, write_loop, write_data}
use r_core_tutorial_v3_arm.Mm.Area.Mapped.{IsArea, map-IsMapped}
use r_core_tutorial_v3_arm.Mm.Area.Loaded.{IsLoaded}
use r_core_tutorial_v3_arm.Mm.Area.Joined.{loaded, join-IsLoaded}

-- The pages that `count` bytes from `start` on touch.
abbrev pub pages : ℕ → ℕ → ℕ
pages start count = (start % page_size + count + (page_size - 1)) / page_size

page_start : (start : ℕ) → start < 2 ^ 64 → start - align_down start page_size ≡ start % page_size
page_start start h = omega (arith, align_down-eq start h)

new_vaddr_low : (v : ℕ) → v < 2 ^ 48 → new_vaddr v ≡ done v
unfolding new_vaddr
new_vaddr_low v h = ground (arith, h)

nothing-IsLoaded :
    (base : ℕ) (frames : List (ℕ × PhysFrame)) (m : Memory) (start : ℕ)
    → IsArea frames m.frames
    → IsLoaded base frames m start [] frames m
nothing-IsLoaded base frames m start i = record {
  valid = i;
  grown = λ w f e. e;
  untouched = λ w h. refl;
  kept = λ w j f e h out. refl;
  zeroed = λ w j f n e h out. absurd (grind (arith, n, e));
  beside = λ q b. refl;
  foreign = λ g j o apart h. refl;
  written = λ j h. absurd (omega (arith, h));
}

write_loop-IsLoaded :
    (fuel q : ℕ) (area : MapArea) (m : Memory) (start : ℕ) (input : List ℕ)
    (frames : List (ℕ × PhysFrame))
    → area.mapper ≡ framed frames
    → area.start ≡ q * page_size
    → IsArea frames m.frames
    → area.start + start + length input < 2 ^ 48 + 1
    → (0 < length input → pages start (length input) ≤ available_space m.frames)
    → length input ≤ fuel
    → (frames' : List (ℕ × PhysFrame)) × (m' : Memory) × (write_loop fuel area m start input
        ≡ loaded area frames' m')
      × IsLoaded area.start frames m start input frames' m'
write_loop-IsLoaded fuel q area m start [] frames e al i h room f =
    (frames, m, rw e refl, nothing-IsLoaded area.start frames m start i)
write_loop-IsLoaded zero q area m start (x ∷ input) frames e al i h room f =
    absurd (omega (arith, f))
write_loop-IsLoaded (suc fuel) q area m start (x ∷ input) frames e al i h room f =
    let small : start < 2 ^ 64 = omega (arith, h) in
    let low : area.start + start / 4096 * 4096 < 2 ^ 48 = omega (arith, h) in
    let n : ℕ = min (4096 - start % 4096) (length (x ∷ input)) in
    let left : length (drop (min (4096 - start % 4096) (length (x ∷ input))) (x ∷ input))
        ≡ length (x ∷ input) - min (4096 - start % 4096) (length (x ∷ input)) =
      length-drop (min (4096 - start % 4096) (length (x ∷ input))) (x ∷ input) in
    let need = room (omega arith) in
    let (p, frames1, m1, ran, k) =
      map-IsMapped area m frames (area.start + start / 4096 * 4096) e i
        (is_aligned_multiple (area.start + start / 4096 * 4096) (q + start / 4096)
          (omega (arith, al)))
        (omega (arith, need)) in
    let (frames2, m2, went, l) =
      write_loop-IsLoaded fuel q (record area { mapper = framed frames1 })
        (record m1 { bytes = copy_to (p + start % 4096) (take n (x ∷ input)) m1.bytes }) (start + n)
        (drop n (x ∷ input)) frames1 refl al k.valid (omega (arith, left, h))
        (λ more. omega (arith, more, left, need, k.space)) (omega (arith, left, f)) in
    (
      frames2,
      m2,
      rw
          (
            page_start start small,
            align_down-eq start small,
            new_vaddr_low (area.start + start / 4096 * 4096) low,
            ran,
          )
          went,
      join-IsLoaded area.start frames m start p n (x ∷ input) frames1 m1 frames2 m2 i k
          (omega arith) (omega arith) (omega arith) l,
    )

-- For an area at an aligned address of the lower half that owns the frames of its pages, each page its own,
-- and with as many frames left as pages that the bytes touch, `write_data` of bytes within the area does
-- not panic: each byte then stands in the frame of its page. The area keeps its frames, gets new ones
-- only for pages that the bytes touch, and owns them all, each page its own. Before and behind the
-- bytes its old frames are as they were and its new ones are full of zeros; memory beside its frames and
-- the frames that others own are as they were. The fuel of the loop is enough.
pub write_data-IsLoaded :
    (q : ℕ) (area : MapArea) (m : Memory) (from : ℕ) (input : List ℕ)
    (frames : List (ℕ × PhysFrame))
    → area.mapper ≡ framed frames
    → area.start ≡ q * page_size
    → IsArea frames m.frames
    → area.start + area.size ≤ 2 ^ 48
    → from < area.size
    → from + length input ≤ area.size
    → pages from (length input) ≤ available_space m.frames
    → (frames' : List (ℕ × PhysFrame)) × (m' : Memory) × (write_data area m from input
        ≡ loaded area frames' m')
      × IsLoaded area.start frames m from input frames' m'
unfolding write_data
write_data-IsLoaded q area m from input frames e al i small inside fits room =
    let (frames', m', ran, l) =
      write_loop-IsLoaded (length input) q area m from input frames e al i
        (omega (arith, small, fits)) (λ more. room) (omega arith) in
    (frames', m', ground (arith, inside, fits, ran), l)
