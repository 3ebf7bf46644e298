-- ===== src/Pipe/Stuck.antt =====
-- When the loops of `Pipe::read` and `Pipe::write` return, and when they go round for ever: the test
-- for a used-up buffer stands before the next byte, not after the last one.
use r_core_tutorial_v3_arm.Base.{
  ℕ, ◌⊎◌, Option, Run, Bool-cases, ltb→lt, zero, suc, ◌≤◌, ◌<◌, ◌≡◌, refl, ap, ◌∙◌, inl, inr, Bool,
  true, false, none, some, List, [], ◌∷◌, ◌++◌, arith, ltb, length, take, drop, length-append, done,
  take-append-drop, length-drop, List-cases,
}
use mathlib.Core.List.{append-nil}
use r_core_tutorial_v3_arm.Pipe.{PipeRingBuffer, available_read, available_write, read_bytes}
use r_core_tutorial_v3_arm.Pipe.Queue.{IsValid, contents, available_lem}
use r_core_tutorial_v3_arm.Pipe.Ends.{
  write_round, read_loop, write_loop, read_round-Reads, read_round-empty, write_round-Writes,
}

-- Nobody else touches the buffer.
abbrev pub alone : ℕ → PipeRingBuffer → PipeRingBuffer
alone i r = r

ltb-false : (a b : ℕ) → b ≤ a → ltb a b ≡ false
ltb-false a b h = ground arith

ltb-true : (a b : ℕ) → a < b → ltb a b ≡ true
ltb-true a b h = ground arith

take-all : (n : ℕ) (xs : List ℕ) → length xs ≤ n → take n xs ≡ xs
take-all zero [] h = refl
take-all zero (x ∷ xs) h = absurd (omega arith)
take-all (suc n) [] h = refl
take-all (suc n) (x ∷ xs) h = ap (◌∷◌ x) (take-all n xs (omega arith))

drop-all : (n : ℕ) (xs : List ℕ) → length xs ≤ n → drop n xs ≡ []
drop-all zero [] h = refl
drop-all zero (x ∷ xs) h = absurd (omega arith)
drop-all (suc n) [] h = refl
drop-all (suc n) (x ∷ xs) h = drop-all n xs (omega arith)

-- Where more bytes are at hand than the caller asks for, `read` returns in its first round, with the
-- oldest bytes, in order; the others stay.
read_enough :
    (fuel : ℕ) (alive : ℕ → ℕ → Bool) (others : ℕ → PipeRingBuffer → PipeRingBuffer) (i want : ℕ)
    (out : List ℕ) (r : PipeRingBuffer)
    → IsValid r
    → want < length (contents r)
    → (r' : PipeRingBuffer) × (read_loop (suc fuel) alive others i want out r
        ≡ done (some (out ++ take want (contents r), r')))
      × (contents r' ≡ drop want (contents r))
      × IsValid r'
unfolding read_loop
read_enough fuel alive others i want out r v h =
    let (ran, d) = read_round-Reads (alive i) want out r v (omega arith) in
    let res = read_bytes (available_read r) want out r in
    (res.3, rw (ran, d.returns, ltb-true want (length (contents r)) h, d.moved), d.rest, d.valid)

-- An empty buffer whose write end is open.
read_waits :
    (fuel : ℕ) (alive : ℕ → ℕ → Bool) (i want : ℕ) (out : List ℕ) (r : PipeRingBuffer) (w : ℕ)
    → IsValid r
    → contents r ≡ []
    → r.write_end ≡ some w
    → ((i : ℕ) → alive i w ≡ true)
    → read_loop fuel alive alone i want out r ≡ done none
unfolding read_loop
read_waits zero alive i want out r w v e o a = refl
read_waits (suc fuel) alive i want out r w v e o a =
    rw (read_round-empty (alive i) want out r w v e o, a i)
      (read_waits fuel alive (suc i) want out r w v e o a)

-- A `read` of as many bytes as are at hand, or of more, does not return while the write end is open
-- and nobody writes: also where the caller's buffer is full after the first round.
read_stuck :
    (fuel : ℕ) (alive : ℕ → ℕ → Bool) (i want : ℕ) (out : List ℕ) (r : PipeRingBuffer) (w : ℕ)
    → IsValid r
    → length (contents r) ≤ want
    → r.write_end ≡ some w
    → ((i : ℕ) → alive i w ≡ true)
    → read_loop fuel alive alone i want out r ≡ done none
unfolding read_loop
read_stuck zero alive i want out r w v h o a = refl
read_stuck (suc fuel) alive i want out r w v h o a = elim (List-cases (contents r)) [
  | inl e ↦
      rw (read_round-empty (alive i) want out r w v e o, a i)
        (read_waits fuel alive (suc i) want out r w v e o a)
  | inr (x, xs, e) ↦
      let (ran, d) = read_round-Reads (alive i) want out r v (omega (arith, ap length e)) in
      let res = read_bytes (available_read r) want out r in
      rw (ran, d.returns, ltb-false want (length (contents r)) h)
        (read_waits fuel alive (suc i) res.1 res.2 res.3 w d.valid
          (d.rest ∙ drop-all want (contents r) h) (d.write_end ∙ o) a)
]

-- With the write end closed, a `read` of as many bytes as are at hand, or of more, returns them all
-- within two rounds.
read_closed :
    (fuel : ℕ) (alive : ℕ → ℕ → Bool) (i want : ℕ) (out : List ℕ) (r : PipeRingBuffer) (w : ℕ)
    → IsValid r
    → length (contents r) ≤ want
    → r.write_end ≡ some w
    → ((i : ℕ) → alive i w ≡ false)
    → (r' : PipeRingBuffer) × (read_loop (suc (suc fuel)) alive alone i want out r
        ≡ done (some (out ++ contents r, r')))
      × (contents r' ≡ [])
unfolding read_loop
read_closed fuel alive i want out r w v h o a = elim (List-cases (contents r)) [
  | inl e ↦ (r, rw (read_round-empty (alive i) want out r w v e o, a i, e, append-nil out), e)
  | inr (x, xs, e) ↦
      let (ran, d) = read_round-Reads (alive i) want out r v (omega (arith, ap length e)) in
      let res = read_bytes (available_read r) want out r in
      let gone = d.rest ∙ drop-all want (contents r) h in
      (
        res.3,
        rw (
          ran,
          d.returns,
          ltb-false want (length (contents r)) h,
          read_round-empty (alive (suc i)) res.1 res.2 res.3 w d.valid gone (d.write_end ∙ o),
          a (suc i),
          d.moved,
          take-all want (contents r) h,
        ),
        gone,
      )
]

-- What a `read` alone with its pipe does.
abbrev pub ReadAlone :
    ℕ → Bool → List ℕ → PipeRingBuffer → Run (Option (List ℕ × PipeRingBuffer)) → Type 0
ReadAlone want open_end out r result =
    ((want < length (contents r))
      × ((r' : PipeRingBuffer) × (result ≡ done (some (out ++ take want (contents r), r')))
          × (contents r' ≡ drop want (contents r))))
    ⊎ ((length (contents r) ≤ want)
        × (open_end ≡ false)
        × ((r' : PipeRingBuffer) × (result ≡ done (some (out ++ contents r, r')))
            × (contents r' ≡ [])))
    ⊎ ((length (contents r) ≤ want) × (open_end ≡ true) × (result ≡ done none))

-- While nobody else touches a valid pipe, a `read` of fewer bytes than are at hand returns with the oldest
-- of them, in order; of as many or more it returns them all where the write end is closed, and does
-- not return, after any number of rounds, where that is open: also where the caller's buffer is full
-- after the first round.
pub read_alone :
    (fuel : ℕ) (alive : ℕ → ℕ → Bool) (open_end : Bool) (i want : ℕ) (out : List ℕ)
    (r : PipeRingBuffer) (w : ℕ)
    → IsValid r
    → r.write_end ≡ some w
    → ((i : ℕ) → alive i w ≡ open_end)
    → ReadAlone want open_end out r (read_loop (suc (suc fuel)) alive alone i want out r)
read_alone fuel alive open_end i want out r w v o a =
    elim (Bool-cases (ltb want (length (contents r)))) [
      | inl y ↦
          let few = ltb→lt want (length (contents r)) y in
          let (r', e, c, v') = read_enough (suc fuel) alive alone i want out r v few in
          inl (few, (r', e, c))
      | inr n ↦ all_of_it open_end a (ground (arith, n))
    ]
  where
    all_of_it :
        (b : Bool)
        → ((i : ℕ) → alive i w ≡ b)
        → length (contents r) ≤ want
        → ReadAlone want b out r (read_loop (suc (suc fuel)) alive alone i want out r)
    all_of_it false c h =
        let (r', e, d) = read_closed fuel alive i want out r w v h o c in
        inr (inl (h, refl, (r', e, d)))
    all_of_it true c h =
        inr (inr (h, refl, read_stuck (suc (suc fuel)) alive i want out r w v h o c))

-- Where there is more room than bytes to write, `write` returns in its first round, with all its bytes
-- at the end of the queue.
write_fits :
    (fuel : ℕ) (others : ℕ → PipeRingBuffer → PipeRingBuffer) (i : ℕ) (buf : List ℕ)
    (r : PipeRingBuffer)
    → IsValid r
    → length buf < available_write r
    → (r' : PipeRingBuffer) × (write_loop (suc fuel) others i buf r ≡ some r')
      × (contents r' ≡ contents r ++ buf)
      × IsValid r'
unfolding write_loop
write_fits fuel others i buf r v h =
    let d = write_round-Writes buf r v in
    (
      (write_round buf r).2,
      rw (d.returns, ltb-true (length buf) (available_write r) h, write_loop),
      d.moved ∙ ap (◌++◌ (contents r)) (take-all (available_write r) buf (omega arith)),
      d.valid,
    )

no_room :
    (buf : List ℕ) (r : PipeRingBuffer)
    → IsValid r
    → available_write r ≤ length buf
    → available_write (write_round buf r).2 ≡ 0
no_room buf r v h =
    let d = write_round-Writes buf r v in
    let n = available_write r in
    omega (
      arith,
      available_lem r v,
      available_lem (write_round buf r).2 d.valid,
      ap length d.moved,
      length-append (contents r) (take n buf),
      length-drop n buf,
      ap length (take-append-drop n buf),
      length-append (take n buf) (drop n buf),
    )

-- A `write` of as many bytes as there is room for, or of more, does not return while nobody reads:
-- also where all its bytes were taken in the first round.
write_stuck :
    (fuel i : ℕ) (buf : List ℕ) (r : PipeRingBuffer)
    → IsValid r
    → available_write r ≤ length buf
    → write_loop fuel alone i buf r ≡ none
unfolding write_loop
write_stuck zero i buf r v h = refl
write_stuck (suc fuel) i buf r v h =
    let d = write_round-Writes buf r v in
    let res = write_round buf r in
    rw (d.returns, ltb-false (length buf) (available_write r) h, write_loop)
      (write_stuck fuel (suc i) res.1 res.2 d.valid (omega (arith, no_room buf r v h)))

abbrev pub WriteAlone : List ℕ → PipeRingBuffer → Option PipeRingBuffer → Type 0
WriteAlone buf r result =
    ((length buf < available_write r)
      × ((r' : PipeRingBuffer) × (result ≡ some r')
          × (contents r' ≡ contents r ++ buf)
          × IsValid r'))
    ⊎ ((available_write r ≤ length buf) × (result ≡ none))

-- While nobody else touches a valid pipe, a `write` of fewer bytes than there is room for returns in its
-- first round, with all of them at the end of the queue; of as many or more it does not return, after
-- any number of rounds: also where all its bytes were taken in the first.
pub write_alone :
    (fuel i : ℕ) (buf : List ℕ) (r : PipeRingBuffer)
    → IsValid r
    → WriteAlone buf r (write_loop (suc fuel) alone i buf r)
write_alone fuel i buf r v = elim (Bool-cases (ltb (length buf) (available_write r))) [
  | inl y ↦
      let few = ltb→lt (length buf) (available_write r) y in
      inl (few, write_fits fuel alone i buf r v few)
  | inr n ↦
      let many : available_write r ≤ length buf = ground (arith, n) in
      inr (many, write_stuck (suc fuel) i buf r v many)
]
