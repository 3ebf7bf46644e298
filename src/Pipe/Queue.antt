-- ===== src/Pipe/Queue.antt =====
-- A valid ring buffer is a queue of at most 256 bytes.
use r_core_tutorial_v3_arm.Base.{
  ℕ, zero, suc, ◌+◌, ◌-◌, ◌%◌, ◌≤◌, ◌<◌, ◌≡◌, refl, sym, ap, ◌∙◌, subst, ◌≢◌, List, [], ◌∷◌, ◌++◌,
  arith, ◌==◌, if◌then◌else◌, length, set, get_or, length-set, length-replicate, get_or-set_self,
  get_or-set_ne,
}
use mathlib.Core.Path.{ap₂}
use r_core_tutorial_v3_arm.Pipe.{
  RingBufferStatus, full, empty, normal, status_code, ring_buffer_size, PipeRingBuffer, new,
  write_byte, read_byte, available_read, available_write,
}

-- Which positions a status stands for.
abbrev pub Fits : RingBufferStatus → ℕ → ℕ → Type 0
Fits full head tail = head ≡ tail
Fits empty head tail = head ≡ tail
Fits normal head tail = head ≢ tail

pub record IsValid (r : PipeRingBuffer) : Type 0 where
  pub size : length r.arr ≡ ring_buffer_size
  pub head_in : r.head < ring_buffer_size
  pub tail_in : r.tail < ring_buffer_size
  pub fits : Fits r.status r.head r.tail

-- The `n` bytes from position `h` on, round the end of the array.
abbrev pub bytes_from : List ℕ → ℕ → ℕ → List ℕ
bytes_from arr h zero = []
bytes_from arr h (suc n) = get_or arr h 0 ∷ bytes_from arr ((h + 1) % ring_buffer_size) n

-- How many bytes the positions and the status stand for.
abbrev pub stored : RingBufferStatus → ℕ → ℕ → ℕ
stored full head tail = ring_buffer_size
stored empty head tail = 0
stored normal head tail = (tail + ring_buffer_size - head) % ring_buffer_size

abbrev pub contents : PipeRingBuffer → List ℕ
contents r = bytes_from r.arr r.head (stored r.status r.head r.tail)

length-bytes_from : (arr : List ℕ) (h n : ℕ) → length (bytes_from arr h n) ≡ n
length-bytes_from arr h zero = refl
length-bytes_from arr h (suc n) = ap suc (length-bytes_from arr ((h + 1) % ring_buffer_size) n)

available_read-stored :
    (r : PipeRingBuffer) → IsValid r → available_read r ≡ stored r.status r.head r.tail
unfolding available_read
available_read-stored r v = by_status r.status refl
  where
    by_status :
        (s : RingBufferStatus) → r.status ≡ s → available_read r ≡ stored r.status r.head r.tail
    by_status full e = ground (arith, v.fits, e, v.head_in, v.tail_in)
    by_status empty e = ground (arith, e)
    by_status normal e = ground (arith, v.fits, e, v.head_in, v.tail_in)

pub stored-le : (r : PipeRingBuffer) → stored r.status r.head r.tail ≤ ring_buffer_size
stored-le r = by_status r.status
  where
    by_status : (s : RingBufferStatus) → stored s r.head r.tail ≤ ring_buffer_size
    by_status full = omega arith
    by_status empty = omega arith
    by_status normal = omega arith

-- `tail` is the position just past the stored bytes.
tail-position :
    (s : RingBufferStatus) (head tail : ℕ)
    → head < ring_buffer_size
    → tail < ring_buffer_size
    → Fits s head tail
    → tail ≡ (head + stored s head tail) % ring_buffer_size
tail-position full head tail h t f = omega arith
tail-position empty head tail h t f = omega arith
tail-position normal head tail h t f = omega arith

-- A byte that is written just past a run of bytes extends it.
bytes_from-set :
    (arr : List ℕ) (x n h i : ℕ)
    → length arr ≡ ring_buffer_size
    → h < ring_buffer_size
    → n < ring_buffer_size
    → i ≡ (h + n) % ring_buffer_size
    → bytes_from (set arr i x) h (suc n) ≡ bytes_from arr h n ++ (x ∷ [])
bytes_from-set arr x zero h i len hh hn e =
    let at : i ≡ h = omega arith in rw (at, get_or-set_self arr h x 0 (omega arith))
bytes_from-set arr x (suc n) h i len hh hn e = ap₂ ◌∷◌ (get_or-set_ne arr x 0 (omega arith)) (
    bytes_from-set arr x n ((h + 1) % ring_buffer_size) i len (omega arith) (omega arith)
      (omega arith))

-- The status and the positions after a write, and after a read.
stored-write :
    (s : RingBufferStatus) (head tail : ℕ)
    → head < ring_buffer_size
    → tail < ring_buffer_size
    → Fits s head tail
    → stored s head tail < ring_buffer_size
    → let tail' = (tail + 1) % ring_buffer_size in
      let s' = if tail' == head then full else normal in
      Fits s' head tail' × (stored s' head tail' ≡ suc (stored s head tail))
stored-write full head tail h t f lt = absurd (omega arith)
stored-write empty head tail h t f lt = ground arith
stored-write normal head tail h t f lt = ground arith

stored-read :
    (s : RingBufferStatus) (head tail : ℕ)
    → head < ring_buffer_size
    → tail < ring_buffer_size
    → Fits s head tail
    → 0 < stored s head tail
    → let head' = (head + 1) % ring_buffer_size in
      let s' = if head' == tail then empty else normal in
      Fits s' head' tail × (suc (stored s' head' tail) ≡ stored s head tail)
stored-read full head tail h t f lt = ground arith
stored-read empty head tail h t f lt = absurd (omega arith)
stored-read normal head tail h t f lt = ground arith

-- A valid buffer with room takes a byte at the end of the queue that it holds, and stays valid.
pub write_byte_lem :
    (r : PipeRingBuffer) (byte : ℕ)
    → IsValid r
    → length (contents r) < ring_buffer_size
    → (contents (write_byte r byte) ≡ contents r ++ (byte ∷ []))
      × IsValid (write_byte r byte)
      × ((write_byte r byte).write_end ≡ r.write_end)
unfolding write_byte
write_byte_lem r byte v room =
    let n : ℕ = stored r.status r.head r.tail in
    let lt : n < ring_buffer_size = omega (arith, length-bytes_from r.arr r.head n) in
    let (fits, count) = stored-write r.status r.head r.tail v.head_in v.tail_in v.fits lt in
    (
      rw count (
          bytes_from-set r.arr byte n r.head r.tail v.size v.head_in lt
            (tail-position r.status r.head r.tail v.head_in v.tail_in v.fits)),
      record {
        size = length-set r.arr r.tail byte ∙ v.size;
        head_in = v.head_in;
        tail_in = omega arith;
        fits = fits;
      },
      refl,
    )

-- A valid buffer that is not empty gives the first byte of its queue, keeps the others, and stays valid.
pub read_byte_lem :
    (r : PipeRingBuffer) (x : ℕ) (xs : List ℕ)
    → IsValid r
    → contents r ≡ x ∷ xs
    → ((read_byte r).0 ≡ x)
      × (contents (read_byte r).1 ≡ xs)
      × IsValid (read_byte r).1
      × ((read_byte r).1.write_end ≡ r.write_end)
unfolding read_byte
read_byte_lem r x xs v e =
    let n : ℕ = stored r.status r.head r.tail in
    let some_left : 0 < n = omega (arith, length-bytes_from r.arr r.head n, ap length e) in
    let (fits, count) = stored-read r.status r.head r.tail v.head_in v.tail_in v.fits some_left in
    let split = subst (λ k. bytes_from r.arr r.head k ≡ x ∷ xs) (sym count) e in
    (
      cc split,
      cc split,
      record { size = v.size; head_in = omega arith; tail_in = v.tail_in; fits = fits },
      refl,
    )

-- A valid buffer holds a queue of at most 256 bytes, and `available_read` and `available_write` give
-- its length and the room that is left.
pub available_lem :
    (r : PipeRingBuffer)
    → IsValid r
    → (available_read r ≡ length (contents r))
      × (available_read r + available_write r ≡ ring_buffer_size)
unfolding available_write
available_lem r v =
    (available_read-stored r v ∙ sym (length-bytes_from r.arr r.head _), room r.status refl)
  where
    room :
        (s : RingBufferStatus)
        → r.status ≡ s
        → available_read r
            + (if status_code r.status == status_code full
                then 0
                else ring_buffer_size - available_read r)
          ≡ ring_buffer_size
    room full e = ground (arith, e, available_read-stored r v)
    room empty e = ground (arith, e, available_read-stored r v)
    room normal e = ground (arith, e, available_read-stored r v, stored-le r)

pub new-IsValid : IsValid new × (contents new ≡ [])
new-IsValid = (
  record {
    size = length-replicate {A = ℕ} ring_buffer_size 0;
    head_in = omega arith;
    tail_in = omega arith;
    fits = refl;
  },
  refl,
)
