-- ===== src/Pipe/Tests.antt =====
-- A pipe with three bytes in it, round the end of the array, and the theorems at it.
use r_core_tutorial_v3_arm.Base.{
  ℕ, ◌≡◌, refl, Bool, true, false, some, [], ◌∷◌, arith, set, replicate, done,
}
use r_core_tutorial_v3_arm.Pipe.{PipeRingBuffer, normal}
use r_core_tutorial_v3_arm.Pipe.Queue.{IsValid, contents}
use r_core_tutorial_v3_arm.Pipe.Ends.{
  read_loop, write_loop, System, reader, writer, run, stream, IsSystem, run-stream,
}
use r_core_tutorial_v3_arm.Pipe.Stuck.{alone, ReadAlone, read_alone, WriteAlone, write_alone}

abbrev three : PipeRingBuffer
three = record {
  arr = set (set (set (replicate 256 0) 254 7) 255 8) 0 9;
  head = 254;
  tail = 1;
  status = normal;
  write_end = some 6;
}

three-IsValid : IsValid three
three-IsValid = record {
  size = refl;
  head_in = omega arith;
  tail_in = omega arith;
  fits = omega arith;
}

contents-three : contents three ≡ 7 ∷ 8 ∷ 9 ∷ []
contents-three = refl

abbrev opened : ℕ → ℕ → Bool
opened i w = true

abbrev closed : ℕ → ℕ → Bool
closed i w = false

abbrev system : System
system = record { received = 6 ∷ []; want = 3; ring = three; unwritten = 10 ∷ 11 ∷ [] }

run-stream_example :
    (s' : System) × (run (opened 0) system (writer ∷ reader ∷ reader ∷ []) ≡ done s')
    × (stream s' ≡ stream system)
    × IsSystem s'
run-stream_example =
    run-stream (opened 0) (writer ∷ reader ∷ reader ∷ []) system
      (record { valid = three-IsValid; opened = (6, refl) })

read_alone_example : ReadAlone 3 true [] three (read_loop 1000 opened alone 0 3 [] three)
read_alone_example = read_alone 998 opened true 0 3 [] three 6 three-IsValid refl (λ i. refl)

write_alone_example :
    WriteAlone (replicate 253 1) three (write_loop 1000 alone 0 (replicate 253 1) three)
write_alone_example = write_alone 999 0 (replicate 253 1) three three-IsValid
