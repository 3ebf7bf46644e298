-- ===== src/Mm/Area/Loaded.antt =====
-- `write_data`: the bytes of a segment stand at their addresses.
use r_core_tutorial_v3_arm.Base.{
  ℕ, ◌+◌, ◌-◌, ◌*◌, ◌/◌, ◌%◌, ◌≤◌, ◌<◌, ◌≡◌, sym, ap, ◌∙◌, subst, ◌≢◌, ◌⊎◌, inl, inr, true, none,
  some, List, arith, ltb, leb, ◌==◌, ==_iff, Bool-cases, Option-cases, length, get_or, take,
}
use r_core_tutorial_v3_arm.Mm.Address.{page_size}
use r_core_tutorial_v3_arm.Mm.Frame.{PhysFrame, Owns, owned_frames_disjoint}
use r_core_tutorial_v3_arm.Mm.Area.{Memory, find_frame, copy_to}
use r_core_tutorial_v3_arm.Mm.Area.Mapped.{IsArea, IsMapped, frame_value}
use r_core_tutorial_v3_arm.EasyFs.Layout.Copy.{get_or-take, same_place}
use r_core_tutorial_v3_arm.EasyFs.Layout.Clear.{length-take}

-- A byte of memory that is in no frame of the list.
abbrev pub IsBeside : List (ℕ × PhysFrame) → ℕ → Type 0
IsBeside frames q =
    (w : ℕ) (f : PhysFrame)
    → find_frame frames w ≡ some f
    → (q < f.start_paddr) ⊎ (f.start_paddr + page_size ≤ q)

-- The bytes of `input` stand at the offsets from `start` on of an area that begins at `base`, each in the
-- frame of its page. Apart from them, the frames that the area had are as before and its new ones are
-- full of zeros; memory beside its frames, and all that others own, is as before.
pub record IsLoaded (base : ℕ) (frames : List (ℕ × PhysFrame)) (m : Memory) (start : ℕ)
    (input : List ℕ) (frames' : List (ℕ × PhysFrame)) (m' : Memory) : Type 0 where
  pub valid : IsArea frames' m'.frames
  pub grown : (w : ℕ) (f : PhysFrame) → find_frame frames w ≡ some f → find_frame frames' w ≡ some f
  pub untouched :
      (w : ℕ)
      → ((i : ℕ) → i < length input → w ≢ base + (start + i) / page_size * page_size)
      → find_frame frames' w ≡ find_frame frames w
  pub kept :
      (w j : ℕ) (f : PhysFrame)
      → find_frame frames w ≡ some f
      → j < page_size
      → (w + j < base + start) ⊎ (base + start + length input ≤ w + j)
      → m'.bytes (f.start_paddr + j) ≡ m.bytes (f.start_paddr + j)
  pub zeroed :
      (w j : ℕ) (f : PhysFrame)
      → find_frame frames w ≡ none
      → find_frame frames' w ≡ some f
      → j < page_size
      → (w + j < base + start) ⊎ (base + start + length input ≤ w + j)
      → m'.bytes (f.start_paddr + j) ≡ 0
  pub beside : (q : ℕ) → IsBeside frames' q → m'.bytes q ≡ m.bytes q
  pub foreign :
      (g : PhysFrame) (j : ℕ)
      → Owns m.frames g
      → ((w : ℕ) (f : PhysFrame) → find_frame frames w ≡ some f → f.start_paddr ≢ g.start_paddr)
      → j < page_size
      → m'.bytes (g.start_paddr + j) ≡ m.bytes (g.start_paddr + j)
  pub written :
      (i : ℕ)
      → i < length input
      → (f : PhysFrame) × (find_frame frames' (base + (start + i) / page_size * page_size) ≡ some f)
        × (m'.bytes (f.start_paddr + (start + i) % page_size) ≡ get_or input i 0)

frame_eq : (f g : PhysFrame) → f.start_paddr ≡ g.start_paddr → f ≡ g
frame_eq f g e = ap (λ p. record { start_paddr = p }) e

-- One round, in which the page `v` has the frame at `p`, and `count` bytes are copied.
module _ (base : ℕ) (frames : List (ℕ × PhysFrame)) (m : Memory) (start p count : ℕ)
    (input : List ℕ) (frames' : List (ℕ × PhysFrame)) (m' : Memory) (i : IsArea frames m.frames)
    (k : IsMapped frames m (base + start / 4096 * 4096) p frames' m')
    (within : start % 4096 + count ≤ 4096) (enough : count ≤ length input) where
  abbrev pub after_round : ℕ → ℕ
  after_round = copy_to (p + start % 4096) (take count input) m'.bytes

  pub still : (w : ℕ) (f : PhysFrame) → find_frame frames w ≡ some f → find_frame frames' w ≡ some f
  still w f e = elim (Bool-cases (w == base + start / 4096 * 4096)) [
    | inl y ↦
        ap (λ l. find_frame l w) (k.again f (ap (find_frame frames) (sym ((==_iff w _).0 y)) ∙ e)).0
        ∙ e
    | inr y ↦ k.others w (λ same. absurd (ground (arith, y, same))) ∙ e
  ]

  outside :
      (q : ℕ) → (q < p + start % 4096) ⊎ (p + start % 4096 + count ≤ q) → after_round q ≡ m'.bytes q
  outside q (inl h) = ground (arith, h)
  outside q (inr h) = ground (arith, h, length-take count input, enough)

  other_page :
      (w j : ℕ) (f : PhysFrame)
      → find_frame frames w ≡ some f
      → j < 4096
      → w ≢ base + start / 4096 * 4096
      → (f.start_paddr + j < p) ⊎ (p + 4096 ≤ f.start_paddr + j)
  other_page w j f e h ne =
      elim (owned_frames_disjoint m'.frames f k.frame (k.valid.owned w f (still w f e))
        (k.valid.owned (base + start / 4096 * 4096) k.frame k.found)
        (k.valid.apart w (base + start / 4096 * 4096) f k.frame ne (still w f e) k.found)) [
          | inl below ↦ inl (omega (arith, below, h, k.address))
          | inr above ↦ inr (omega (arith, above, k.address))
        ]

  -- What a byte outside the copied range of its page is after the round.
  same_page :
      (j : ℕ)
      → j < 4096
      → (j < start % 4096) ⊎ (start % 4096 + count ≤ j)
      → after_round (k.frame.start_paddr + j) ≡ m'.bytes (k.frame.start_paddr + j)
  same_page j h (inl a) = outside (k.frame.start_paddr + j) (inl (omega (arith, a, k.address)))
  same_page j h (inr a) = outside (k.frame.start_paddr + j) (inr (omega (arith, a, k.address)))

  out_of_page : (q : ℕ) → (q < p) ⊎ (p + 4096 ≤ q) → after_round q ≡ m.bytes q
  out_of_page q (inl a) = outside q (inl (omega (arith, a))) ∙ k.kept q (inl a)
  out_of_page q (inr a) = outside q (inr (omega (arith, a, within))) ∙ k.kept q (inr a)

  in_page :
      (w j : ℕ)
      → w ≡ base + start / 4096 * 4096
      → (w + j < base + start) ⊎ (base + start + count ≤ w + j)
      → (j < start % 4096) ⊎ (start % 4096 + count ≤ j)
  in_page w j e (inl a) = inl (omega (arith, e, a))
  in_page w j e (inr a) = inr (omega (arith, e, a))

  pub round-kept :
      (w j : ℕ) (f : PhysFrame)
      → find_frame frames w ≡ some f
      → j < 4096
      → (w + j < base + start) ⊎ (base + start + count ≤ w + j)
      → after_round (f.start_paddr + j) ≡ m.bytes (f.start_paddr + j)
  round-kept w j f e h out = elim (Bool-cases (w == base + start / 4096 * 4096)) [
    | inl y ↦
        let same : w ≡ base + start / 4096 * 4096 = (==_iff w (base + start / 4096 * 4096)).0 y in
        let here : find_frame frames (base + start / 4096 * 4096) ≡ some f =
          ap (find_frame frames) (sym same) ∙ e in
        let (list, mem) = k.again f here in
        let frame : k.frame ≡ f =
          frame_value k.frame f
            (sym k.found ∙ ap (λ l. find_frame l (base + start / 4096 * 4096)) list ∙ here) in
        subst (λ (g : PhysFrame). after_round (g.start_paddr + j) ≡ m.bytes (g.start_paddr + j))
          frame
          (same_page j h (in_page w j same out) ∙ ap (λ n. n.bytes (k.frame.start_paddr + j)) mem)
    | inr y ↦
        out_of_page (f.start_paddr + j)
          (other_page w j f e h (λ same. absurd (ground (arith, y, same))))
  ]

  pub round-zeroed :
      (w j : ℕ) (f : PhysFrame)
      → find_frame frames w ≡ none
      → find_frame frames' w ≡ some f
      → j < 4096
      → (w + j < base + start) ⊎ (base + start + count ≤ w + j)
      → after_round (f.start_paddr + j) ≡ 0
  round-zeroed w j f n e h out = elim (Bool-cases (w == base + start / 4096 * 4096)) [
    | inr y ↦ absurd (grind (arith, n, e, k.others w (λ same. absurd (ground (arith, y, same)))))
    | inl y ↦
        let same : w ≡ base + start / 4096 * 4096 = (==_iff w (base + start / 4096 * 4096)).0 y in
        let frame : k.frame ≡ f =
          frame_value k.frame f (sym k.found ∙ ap (find_frame frames') (sym same) ∙ e) in
        subst (λ (g : PhysFrame). after_round (g.start_paddr + j) ≡ 0) frame
          (same_page j h (in_page w j same out)
            ∙ k.zeroed (ap (find_frame frames) (sym same) ∙ n) (k.frame.start_paddr + j)
                (omega (arith, k.address)) (omega (arith, k.address, h)))
  ]

  pub round-beside : (q : ℕ) → IsBeside frames' q → after_round q ≡ m.bytes q
  round-beside q b = out_of_page q (
      subst (λ z. (q < z) ⊎ (z + 4096 ≤ q)) k.address
        (b (base + start / 4096 * 4096) k.frame k.found))

  foreign_apart :
      (g : PhysFrame)
      → Owns m.frames g
      → ((w : ℕ) (f : PhysFrame) → find_frame frames w ≡ some f → f.start_paddr ≢ g.start_paddr)
      → k.frame.start_paddr ≢ g.start_paddr
  foreign_apart g o apart same =
      elim (Option-cases (find_frame frames (base + start / 4096 * 4096))) [
        | inl n ↦ k.fresh n (subst (Owns m.frames) (sym (frame_eq k.frame g same)) o)
        | inr (f, e) ↦
            let frame : k.frame ≡ f = frame_value k.frame f (
              sym k.found
              ∙ ap (λ l. find_frame l (base + start / 4096 * 4096)) (k.again f e).0
              ∙ e) in
            apart (base + start / 4096 * 4096) f e (ap (λ h. h.start_paddr) (sym frame) ∙ same)
      ]

  pub foreign_still :
      (g : PhysFrame)
      → Owns m.frames g
      → ((w : ℕ) (f : PhysFrame) → find_frame frames w ≡ some f → f.start_paddr ≢ g.start_paddr)
      → (w : ℕ) (f : PhysFrame) → find_frame frames' w ≡ some f
      → f.start_paddr ≢ g.start_paddr
  foreign_still g o apart w f e same = elim (Bool-cases (w == base + start / 4096 * 4096)) [
    | inl y ↦
        let frame : k.frame ≡ f = frame_value k.frame f (
          sym k.found
          ∙ ap (find_frame frames') (sym ((==_iff w (base + start / 4096 * 4096)).0 y))
          ∙ e) in
        foreign_apart g o apart (ap (λ h. h.start_paddr) frame ∙ same)
    | inr y ↦ apart w f (sym (k.others w (λ z. absurd (ground (arith, y, z)))) ∙ e) same
  ]

  pub round-foreign :
      (g : PhysFrame) (j : ℕ)
      → Owns m.frames g
      → ((w : ℕ) (f : PhysFrame) → find_frame frames w ≡ some f → f.start_paddr ≢ g.start_paddr)
      → j < 4096
      → after_round (g.start_paddr + j) ≡ m.bytes (g.start_paddr + j)
  round-foreign g j o apart h =
      elim (owned_frames_disjoint m'.frames g k.frame (k.owners g o)
        (k.valid.owned (base + start / 4096 * 4096) k.frame k.found)
        (λ same. foreign_apart g o apart (sym same))) [
          | inl below ↦ out_of_page (g.start_paddr + j) (inl (omega (arith, below, h, k.address)))
          | inr above ↦ out_of_page (g.start_paddr + j) (inr (omega (arith, above, k.address)))
        ]

  pub round-written :
      (j : ℕ)
      → j < count
      → after_round (k.frame.start_paddr + (start + j) % 4096) ≡ get_or input j 0
  round-written j h =
      let place : k.frame.start_paddr + (start + j) % 4096 ≡ p + start % 4096 + j =
        omega (arith, k.address, h, within) in
      let low : leb (p + start % 4096) (p + start % 4096 + j) ≡ true = ground arith in
      let high : ltb (p + start % 4096 + j) (p + start % 4096 + length (take count input)) ≡ true =
        ground (arith, h, length-take count input, enough) in
      ap after_round place
      ∙ rw (low, high)
          (same_place (take count input) (p + start % 4096 + j - (p + start % 4096)) j (omega arith)
            ∙ get_or-take count j input h)
