-- ===== src/Mm/Area/Joined.antt =====
-- The rounds of `write_data` together.
use r_core_tutorial_v3_arm.Base.{
  ℕ, ◌+◌, ◌-◌, ◌*◌, ◌/◌, ◌%◌, ◌≤◌, ◌<◌, ◌≡◌, sym, ap, ◌∙◌, ◌⊎◌, inl, inr, none, some, List, arith,
  ltb, ltb→lt, Bool-cases, Option-cases, length, get_or, take, drop, Run, done, length-drop,
}
use r_core_tutorial_v3_arm.Mm.Frame.{PhysFrame}
use r_core_tutorial_v3_arm.Mm.Area.{framed, MapArea, Memory, find_frame, copy_to}
use r_core_tutorial_v3_arm.Mm.Area.Mapped.{IsArea, IsMapped, frame_value}
use r_core_tutorial_v3_arm.EasyFs.Layout.Copy.{get_or-drop, same_place}
use r_core_tutorial_v3_arm.Mm.Area.Loaded.{
  IsLoaded, still, round-kept, round-zeroed, round-beside, foreign_still, round-foreign,
  round-written,
}

abbrev pub loaded : MapArea → List (ℕ × PhysFrame) → Memory → Run (MapArea × Memory)
loaded area frames m = done (record area { mapper = framed frames }, m)

-- What a round and the rounds after it load.
pub join-IsLoaded :
    (base : ℕ) (frames : List (ℕ × PhysFrame)) (m : Memory) (start p count : ℕ) (input : List ℕ)
    (frames' : List (ℕ × PhysFrame)) (m' : Memory) (frames'' : List (ℕ × PhysFrame)) (m'' : Memory)
    → IsArea frames m.frames
    → (k : IsMapped frames m (base + start / 4096 * 4096) p frames' m')
    → start % 4096 + count ≤ 4096
    → count ≤ length input
    → 0 < count
    → IsLoaded base frames'
        (record m' { bytes = copy_to (p + start % 4096) (take count input) m'.bytes })
        (start + count)
        (drop count input)
        frames''
        m''
    → IsLoaded base frames m start input frames'' m''
join-IsLoaded base frames m start p count input frames' m' frames'' m'' i k within enough some_bytes
      l =
    record {
      valid = l.valid;
      grown = λ w f e.
          l.grown w f (still base frames m start p count input frames' m' i k within enough w f e);
      untouched = λ w h.
          l.untouched w (λ j b e.
            h (count + j) (omega (arith, b, length-drop count input, enough))
              (e ∙ ap (λ z. base + z / 4096 * 4096) {y = start + (count + j)} (shift j)))
          ∙ k.others w (λ e.
            h 0 (omega (arith, some_bytes, enough))
              (e ∙ ap (λ z. base + z / 4096 * 4096) {y = start + 0} plus));
      kept = λ w j f e h out.
          l.kept w j f (still base frames m start p count input frames' m' i k within enough w f e)
            h (later w j out)
          ∙ round-kept base frames m start p count input frames' m' i k within enough w j f e h
              (now w j out);
      zeroed = λ w j f n e h out. zeroed w j f n e h out (Option-cases (find_frame frames' w));
      beside = λ q b.
          l.beside q b
          ∙ round-beside base frames m start p count input frames' m' i k within enough q
              (λ w f e. b w f (l.grown w f e));
      foreign = λ g j o apart h.
          l.foreign g j (k.owners g o)
            (foreign_still base frames m start p count input frames' m' i k within enough g o apart)
            h
          ∙ round-foreign base frames m start p count input frames' m' i k within enough g j o apart
              h;
      written = written;
    }
  where
    shift : (j : ℕ) → start + count + j ≡ start + (count + j)
    shift j = omega arith

    plus : start ≡ start + 0
    plus = omega arith

    later :
        (w j : ℕ)
        → (w + j < base + start) ⊎ (base + start + length input ≤ w + j)
        → (w + j < base + (start + count))
          ⊎ (base + (start + count) + length (drop count input) ≤ w + j)
    later w j (inl a) = inl (omega (arith, a))
    later w j (inr a) = inr (omega (arith, a, length-drop count input, enough))

    now :
        (w j : ℕ)
        → (w + j < base + start) ⊎ (base + start + length input ≤ w + j)
        → (w + j < base + start) ⊎ (base + start + count ≤ w + j)
    now w j (inl a) = inl a
    now w j (inr a) = inr (omega (arith, a, enough))

    zeroed :
        (w j : ℕ) (f : PhysFrame)
        → find_frame frames w ≡ none
        → find_frame frames'' w ≡ some f
        → j < 4096
        → (w + j < base + start) ⊎ (base + start + length input ≤ w + j)
        → (find_frame frames' w ≡ none) ⊎ ((g : PhysFrame) × (find_frame frames' w ≡ some g))
        → m''.bytes (f.start_paddr + j) ≡ 0
    zeroed w j f n e h out (inl none_yet) = l.zeroed w j f none_yet e h (later w j out)
    zeroed w j f n e h out (inr (g, d)) =
        let same : g ≡ f = frame_value g f (sym (l.grown w g d) ∙ e) in
        let here : find_frame frames' w ≡ some f = d ∙ ap some same in
        l.kept w j f here h (later w j out)
        ∙ round-zeroed base frames m start p count input frames' m' i k within enough w j f n here h
            (now w j out)

    first : (j : ℕ) → j < count → base + (start + j) / 4096 * 4096 ≡ base + start / 4096 * 4096
    first j h = omega (arith, h, within)

    written :
        (j : ℕ)
        → j < length input
        → (f : PhysFrame) × (find_frame frames'' (base + (start + j) / 4096 * 4096) ≡ some f)
          × (m''.bytes (f.start_paddr + (start + j) % 4096) ≡ get_or input j 0)
    written j h = elim (Bool-cases (ltb j count)) [
      | inl y ↦
          let here = ltb→lt j count y in
          (
            k.frame,
            ap (find_frame frames'') (first j here)
                ∙ l.grown (base + start / 4096 * 4096) k.frame k.found,
            l.kept (base + start / 4096 * 4096) ((start + j) % 4096) k.frame k.found (omega arith)
                  (inl (omega (arith, here, within)))
                ∙ round-written base frames m start p count input frames' m' i k within enough j
                    here,
          )
      | inr n ↦
          let late : count ≤ j = ground (arith, n) in
          let back : start + count + (j - count) ≡ start + j = omega (arith, late) in
          let (f, e, g) = l.written (j - count) (omega (arith, late, h, length-drop count input)) in
          (
            f,
            ap (λ z. find_frame frames'' (base + z / 4096 * 4096)) (sym back) ∙ e,
            ap (λ z. m''.bytes (f.start_paddr + z % 4096)) (sym back)
                ∙ g
                ∙ get_or-drop count (j - count) input
                ∙ same_place input (count + (j - count)) j (omega (arith, late)),
          )
    ]
