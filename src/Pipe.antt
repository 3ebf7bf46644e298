-- ===== src/Pipe.antt =====
-- os/src/fs/pipe.rs: the ring buffer of a pipe, and the loops of its two ends.
pub mod Queue
pub mod Ends
pub mod Stuck
mod Tests
use r_core_tutorial_v3_arm.Base.{
  ℕ, zero, suc, ◌+◌, ◌-◌, ◌*◌, ◌/◌, ◌%◌, ◌^◌, ◌≤◌, ◌<◌, min, bit_and, bit_or, ◌≡◌, refl, sym, ap,
  ◌∙◌, subst, fun_ext, ◌≢◌, ◌↔◌, ◌⊎◌, inl, inr, Bool, true, false, not, ◌&&◌, ◌||◌, Option, none,
  some, List, [], ◌∷◌, ◌++◌, map, arith, ltb, leb, ◌==◌, if◌then◌else◌, ltb→lt, leb→le, ==_iff,
  eq_refl, Bool-cases, Option-cases, length, get_elem?, set, get_or, take, drop, replicate,
  length-append, length-set, length-replicate, get_or-set_self, get_or-set_ne, get_elem?-set_self,
  get_elem?-set_ne, All, All-map, All-append, contains, Distinct, contains-append, Distinct-snoc,
  Run, done, panic, ◌>>=◌, ◌>>◌, assert, unwrap, done-injective,
}

abbrev pub ring_buffer_size : ℕ
ring_buffer_size = 256

pub data RingBufferStatus : Type 0 where
  full empty normal : RingBufferStatus

abbrev pub status_code : RingBufferStatus → ℕ
status_code full = 0
status_code empty = 1
status_code normal = 2

infix 50 ◌==status◌
abbrev pub ◌==status◌ : RingBufferStatus → RingBufferStatus → Bool
a ==status b = status_code a == status_code b

-- `write_end` is the number of the `Pipe` to which the weak reference points. Bytes are only moved, so
-- a byte is any number.
pub record PipeRingBuffer : Type 0 where
  pub arr : List ℕ
  pub head : ℕ
  pub tail : ℕ
  pub status : RingBufferStatus
  pub write_end : Option ℕ

abbrev pub new : PipeRingBuffer
new = record {
  arr = replicate ring_buffer_size 0;
  head = 0;
  tail = 0;
  status = empty;
  write_end = none;
}

pub set_write_end : PipeRingBuffer → ℕ → PipeRingBuffer
set_write_end r write_end = record r { write_end = some write_end }

-- `PipeRingBuffer::write_byte`. An index out of range would be a panic; `IsValid` rules it out.
unfoldable pub write_byte : PipeRingBuffer → ℕ → PipeRingBuffer
write_byte r byte =
    let tail = (r.tail + 1) % ring_buffer_size in
    record r {
      arr = set r.arr r.tail byte;
      tail = tail;
      status = if tail == r.head then full else normal;
    }

-- `PipeRingBuffer::read_byte`
unfoldable pub read_byte : PipeRingBuffer → ℕ × PipeRingBuffer
read_byte r =
    let head = (r.head + 1) % ring_buffer_size in
    (
      get_or r.arr r.head 0,
      record r { head = head; status = if head == r.tail then empty else normal },
    )

unfoldable pub available_read : PipeRingBuffer → ℕ
available_read r =
    if r.status ==status empty
    then 0
    else if ltb r.head r.tail
    then r.tail - r.head
    else r.tail + ring_buffer_size - r.head

unfoldable pub available_write : PipeRingBuffer → ℕ
unfolding available_read
available_write r = if r.status ==status full then 0 else ring_buffer_size - available_read r

-- `all_write_ends_closed`; `alive` says which pipes still have a strong reference.
unfoldable pub all_write_ends_closed : (ℕ → Bool) → PipeRingBuffer → Run Bool
all_write_ends_closed alive r = unwrap r.write_end >>= λ w. done (not (alive w))

-- One round of the loop of `read`, under the lock: the `for` loop over the bytes at hand. `want` are
-- the places left in the caller's buffer and `out` the bytes put there so far, oldest first. The test
-- says whether the function returns from inside the loop.
unfoldable pub read_bytes : ℕ → ℕ → List ℕ → PipeRingBuffer → Bool × ℕ × List ℕ × PipeRingBuffer
read_bytes zero want out r = (false, want, out, r)
read_bytes (suc n) zero out r = (true, zero, out, r)
read_bytes (suc n) (suc want) out r =
    let (byte, r') = read_byte r in read_bytes n want (out ++ (byte ∷ [])) r'

-- The same for `write`: `buf` are the bytes that are left to write.
unfoldable pub write_bytes : ℕ → List ℕ → PipeRingBuffer → Bool × List ℕ × PipeRingBuffer
write_bytes zero buf r = (false, buf, r)
write_bytes (suc n) [] r = (true, [], r)
write_bytes (suc n) (byte ∷ buf) r = write_bytes n buf (write_byte r byte)
