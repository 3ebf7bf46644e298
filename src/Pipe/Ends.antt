-- ===== src/Pipe/Ends.antt =====
-- `Pipe::read` and `Pipe::write`: their loops, round by round, and what they do to the queue.
use r_core_tutorial_v3_arm.Base.{
  ℕ, zero, suc, ◌+◌, ◌-◌, ◌<◌, ◌≡◌, refl, sym, ap, ◌∙◌, ◌≢◌, inl, inr, Bool, true, false, not,
  Option, none, some, List, [], ◌∷◌, ◌++◌, arith, ltb, ◌==◌, if◌then◌else◌, length, take, drop,
  length-append, Run, take-append-drop, take-nil, drop-nil, List-cases, ltb-suc, ltb-zero, done,
  ◌>>=◌,
}
use native.Mathlib.Decide.{ℕ_discrete}
use mathlib.Core.List.{append-nil, append_assoc}
use r_core_tutorial_v3_arm.Pipe.{
  ring_buffer_size, PipeRingBuffer, write_byte, read_byte, available_read, available_write,
  all_write_ends_closed, read_bytes, write_bytes,
}
use r_core_tutorial_v3_arm.Pipe.Queue.{
  IsValid, contents, write_byte_lem, read_byte_lem, available_lem,
}

-- One round of `read`. The test says whether the function returns; otherwise it goes round again, after
-- a yield where nothing could be read.
unfoldable pub read_round :
    (ℕ → Bool) → ℕ → List ℕ → PipeRingBuffer → Run (Bool × ℕ × List ℕ × PipeRingBuffer)
read_round alive want out r =
    let loop_read = available_read r in
    if loop_read == 0
    then (all_write_ends_closed alive r >>= λ closed. done (closed, want, out, r))
    else done (read_bytes loop_read want out r)

unfoldable pub write_round : List ℕ → PipeRingBuffer → Bool × List ℕ × PipeRingBuffer
write_round buf r =
    let loop_write = available_write r in
    if loop_write == 0 then (false, buf, r) else write_bytes loop_write buf r

-- The loops, on fuel: `done none` means that it ran out. `others i` is what the rest of the system does
-- to the buffer between rounds `i` and `i + 1`, and `alive i` which pipes are open in round `i`.
unfoldable pub read_loop :
    ℕ
    → (ℕ → ℕ → Bool)
    → (ℕ → PipeRingBuffer → PipeRingBuffer)
    → ℕ
    → ℕ
    → List ℕ
    → PipeRingBuffer
    → Run (Option (List ℕ × PipeRingBuffer))
read_loop zero alive others i want out r = done none
read_loop (suc fuel) alive others i want out r = do
  (returns, want', out', r') ← read_round (alive i) want out r
  elim returns [
    | true ↦ done (some (out', r'))
    | false ↦ read_loop fuel alive others (suc i) want' out' (others i r')
  ]

unfoldable pub write_loop :
    ℕ → (ℕ → PipeRingBuffer → PipeRingBuffer) → ℕ → List ℕ → PipeRingBuffer → Option PipeRingBuffer
write_loop zero others i buf r = none
write_loop (suc fuel) others i buf r =
    let (returns, buf', r') = write_round buf r in
    elim returns [ true ↦ some r' | false ↦ write_loop fuel others (suc i) buf' (others i r') ]

-- What the `for` loop of `read` does: it moves bytes from the front of the queue to the caller.
pub record Reads (want : ℕ) (out : List ℕ) (r : PipeRingBuffer)
    (res : Bool × ℕ × List ℕ × PipeRingBuffer) : Type 0 where
  pub returns : res.0 ≡ ltb want (length (contents r))
  pub left : res.1 ≡ want - length (contents r)
  pub moved : res.2 ≡ out ++ take want (contents r)
  pub rest : contents res.3 ≡ drop want (contents r)
  pub valid : IsValid res.3
  pub write_end : res.3.write_end ≡ r.write_end

pub read_bytes-Reads :
    (n want : ℕ) (out : List ℕ) (r : PipeRingBuffer)
    → IsValid r
    → length (contents r) ≡ n
    → Reads want out r (read_bytes n want out r)
unfolding read_bytes
read_bytes-Reads zero want out r v h = elim (List-cases (contents r)) [
  | inl e ↦ record {
    returns = rw e (ground arith);
    left = rw e (omega arith);
    moved = rw (e, take-nil ℕ want, append-nil out);
    rest = rw e (sym (drop-nil ℕ want));
    valid = v;
    write_end = refl;
  }
  | inr (x, xs, e) ↦ absurd (omega (arith, ap length e))
]
read_bytes-Reads (suc n) zero out r v h = record {
  returns = ground (arith, h);
  left = omega arith;
  moved = sym (append-nil out);
  rest = refl;
  valid = v;
  write_end = refl;
}
read_bytes-Reads (suc n) (suc want) out r v h = elim (List-cases (contents r)) [
  | inl e ↦ absurd (omega (arith, ap length e))
  | inr (x, xs, e) ↦
      let (first, others, v', end') = read_byte_lem r x xs v e in
      let rec =
        read_bytes-Reads n want (out ++ ((read_byte r).0 ∷ [])) (read_byte r).1 v'
          (omega (arith, ap length e, ap length others)) in
      record {
        returns = rec.returns ∙ rw (others, e) (sym (ltb-suc want (length xs)));
        left = omega (arith, rec.left, ap length e, ap length others);
        moved = rec.moved ∙ rw (others, first, e) (append_assoc out (x ∷ []) (take want xs));
        rest = rec.rest ∙ rw (others, e);
        valid = rec.valid;
        write_end = rec.write_end ∙ end';
      }
]

-- What the `for` loop of `write` does: it moves bytes from the caller to the end of the queue.
pub record Writes (n : ℕ) (buf : List ℕ) (r : PipeRingBuffer) (res : Bool × List ℕ × PipeRingBuffer)
    : Type 0 where
  pub returns : res.0 ≡ ltb (length buf) n
  pub left : res.1 ≡ drop n buf
  pub moved : contents res.2 ≡ contents r ++ take n buf
  pub valid : IsValid res.2
  pub write_end : res.2.write_end ≡ r.write_end

pub write_bytes-Writes :
    (n : ℕ) (buf : List ℕ) (r : PipeRingBuffer)
    → IsValid r
    → length (contents r) + n ≡ ring_buffer_size
    → Writes n buf r (write_bytes n buf r)
unfolding write_bytes
write_bytes-Writes zero buf r v h = record {
  returns = ground arith;
  left = refl;
  moved = sym (append-nil (contents r));
  valid = v;
  write_end = refl;
}
write_bytes-Writes (suc n) [] r v h = record {
  returns = ground arith;
  left = refl;
  moved = sym (append-nil (contents r));
  valid = v;
  write_end = refl;
}
write_bytes-Writes (suc n) (byte ∷ buf) r v h =
    let (more, v', end') = write_byte_lem r byte v (omega arith) in
    let rec =
      write_bytes-Writes n buf (write_byte r byte) v'
        (omega (arith, ap length more, length-append (contents r) (byte ∷ []))) in
    record {
      returns = rec.returns ∙ ground arith;
      left = rec.left;
      moved = rec.moved ∙ rw more (append_assoc (contents r) (byte ∷ []) (take n buf));
      valid = rec.valid;
      write_end = rec.write_end ∙ end';
    }

-- A round of `read` with bytes at hand, and of `write` with room.
pub read_round-Reads :
    (alive : ℕ → Bool) (want : ℕ) (out : List ℕ) (r : PipeRingBuffer)
    → IsValid r
    → 0 < length (contents r)
    → (read_round alive want out r ≡ done (read_bytes (available_read r) want out r))
      × Reads want out r (read_bytes (available_read r) want out r)
unfolding read_round
read_round-Reads alive want out r v h =
    let (e, _) = available_lem r v in
    (ground (arith, e), read_bytes-Reads (available_read r) want out r v (sym e))

pub read_round-empty :
    (alive : ℕ → Bool) (want : ℕ) (out : List ℕ) (r : PipeRingBuffer) (w : ℕ)
    → IsValid r
    → contents r ≡ []
    → r.write_end ≡ some w
    → read_round alive want out r ≡ done (not (alive w), want, out, r)
unfolding read_round all_write_ends_closed
read_round-empty alive want out r w v h e =
    let none_left : available_read r ≡ 0 = omega (arith, (available_lem r v).0, ap length h) in
    rw (none_left, e)

pub write_round-Writes :
    (buf : List ℕ) (r : PipeRingBuffer)
    → IsValid r
    → Writes (available_write r) buf r (write_round buf r)
unfolding write_round
write_round-Writes buf r v = elim (ℕ_discrete (available_write r) 0) [
  | yes z ↦ rw z (record {
    returns = sym (ltb-zero (length buf));
    left = refl;
    moved = sym (append-nil (contents r));
    valid = v;
    write_end = refl;
  })
  | no nz ↦ rw (nonzero (available_write r) nz) (
      write_bytes-Writes (available_write r) buf r v
        (omega (arith, (available_lem r v).0, (available_lem r v).1)))
]
  where
    nonzero : (n : ℕ) → n ≢ 0 → (n == 0) ≡ false
    nonzero n h = ground arith

-- Whoever reads and whoever writes in each round: the system of a pipe's two ends.
pub data Turn : Type 0 where
  reader writer : Turn

-- `unread` is what the reader received and `unwritten` what the writer still has to hand over.
pub record System : Type 0 where
  pub received : List ℕ
  pub want : ℕ
  pub ring : PipeRingBuffer
  pub unwritten : List ℕ

unfoldable pub turn : (ℕ → Bool) → System → Turn → Run System
turn alive s reader = do
  (returns, want, out, r) ← read_round alive s.want s.received s.ring
  done (record s { received = out; want = want; ring = r })
turn alive s writer =
    let (returns, buf, r) = write_round s.unwritten s.ring in
    done (record s { ring = r; unwritten = buf })

pub run : (ℕ → Bool) → System → List Turn → Run System
run alive s [] = done s
run alive s (t ∷ ts) = turn alive s t >>= λ s'. run alive s' ts

-- All bytes in flight, oldest first.
abbrev pub stream : System → List ℕ
stream s = s.received ++ (contents s.ring ++ s.unwritten)

pub record IsSystem (s : System) : Type 0 where
  pub valid : IsValid s.ring
  pub opened : (w : ℕ) × (s.ring.write_end ≡ some w)

split :
    (out : List ℕ) (n : ℕ) (c rest : List ℕ)
    → (out ++ take n c) ++ (drop n c ++ rest) ≡ out ++ (c ++ rest)
split out n c rest =
    rw (append_assoc out (take n c) (drop n c ++ rest))
      (rw (← append_assoc (take n c) (drop n c) rest, take-append-drop n c))

join :
    (out c : List ℕ) (n : ℕ) (buf : List ℕ)
    → out ++ ((c ++ take n buf) ++ drop n buf) ≡ out ++ (c ++ buf)
join out c n buf = rw (append_assoc c (take n buf) (drop n buf), take-append-drop n buf)

turn-stream :
    (alive : ℕ → Bool) (s : System) (t : Turn)
    → IsSystem s
    → (s' : System) × (turn alive s t ≡ done s') × (stream s' ≡ stream s) × IsSystem s'
unfolding turn
turn-stream alive s reader v = elim (List-cases (contents s.ring)) [
  | inl e ↦ (
    s,
    rw (read_round-empty alive s.want s.received s.ring v.opened.0 v.valid e v.opened.1),
    refl,
    v,
  )
  | inr (x, xs, e) ↦
      let (ran, d) =
        read_round-Reads alive s.want s.received s.ring v.valid (omega (arith, ap length e)) in
      let res = read_bytes (available_read s.ring) s.want s.received s.ring in
      (
        record s { received = res.2; want = res.1; ring = res.3 },
        rw ran,
        rw (d.moved, d.rest) (split s.received s.want (contents s.ring) s.unwritten),
        record { valid = d.valid; opened = (v.opened.0, d.write_end ∙ v.opened.1) },
      )
]
turn-stream alive s writer v =
    let w = write_round-Writes s.unwritten s.ring v.valid in
    (
      record s {
        ring = (write_round s.unwritten s.ring).2;
        unwritten = (write_round s.unwritten s.ring).1;
      },
      refl,
      rw (w.moved, w.left) (join s.received (contents s.ring) (available_write s.ring) s.unwritten),
      record { valid = w.valid; opened = (v.opened.0, w.write_end ∙ v.opened.1) },
    )

-- Whatever the order in which the two ends take their turns, no round panics, the buffer stays valid,
-- and what was received, what is in the pipe and what is still to be written make up, in this order,
-- the same bytes throughout: none is lost, made up, repeated or overtaken.
pub run-stream :
    (alive : ℕ → Bool) (ts : List Turn) (s : System)
    → IsSystem s
    → (s' : System) × (run alive s ts ≡ done s') × (stream s' ≡ stream s) × IsSystem s'
unfolding run
run-stream alive [] s v = (s, refl, refl, v)
run-stream alive (t ∷ ts) s v =
    let (s₁, e, same, v₁) = turn-stream alive s t v in
    let (s₂, f, same', v₂) = run-stream alive ts s₁ v₁ in (s₂, rw e f, same' ∙ same, v₂)
