-- ===== src/Syscall/Tests.antt =====
-- A table of three descriptors, the standard streams, and a table of a semaphore.
use r_core_tutorial_v3_arm.Base.{
  ℕ, zero, suc, ◌≡◌, refl, ◌⊎◌, Bool, true, false, ◌&&◌, Option, none, some, List, [], ◌∷◌, arith,
  ltb, ◌==◌, if◌then◌else◌, Run, done, panic,
}
use r_core_tutorial_v3_arm.Base.Int.{pos, negsuc}
use r_core_tutorial_v3_arm.Task.Valid.{IsScheduled}
use r_core_tutorial_v3_arm.Task.Examples.{five, five-IsScheduled, everyone}
use r_core_tutorial_v3_arm.Sync.Semaphore
use r_core_tutorial_v3_arm.Sync.Semaphore.{Semaphore, Represents, kernel_up, new-Represents}
use r_core_tutorial_v3_arm.Syscall.Slots.{alloc_fd, create}
use r_core_tutorial_v3_arm.Syscall.Slots.Lowest.{at, Granted, alloc_fd-create}
use r_core_tutorial_v3_arm.Mm.Access.{check, copy_from_user}
use r_core_tutorial_v3_arm.Syscall.Files.{file_at, read_array, sys_write}
use r_core_tutorial_v3_arm.Syscall.Files.Writing.{IsWriting, sys_write_lem}
use r_core_tutorial_v3_arm.Syscall.Stdio.{Stdio, stdin, stdout, writable, write}
use r_core_tutorial_v3_arm.Syscall.Objects.{sys_semaphore_up}
use r_core_tutorial_v3_arm.Syscall.Objects.Semaphores.{sys_semaphore_up_lem}

abbrev table : List (Option ℕ)
table = some 4 ∷ (none ∷ (some 7 ∷ []))

alloc_fd-create_example :
    (alloc_fd table (some 9) ≡ create table 9) × Granted table 9 (create table 9)
alloc_fd-create_example = alloc_fd-create table 9

-- The files of a new process: standard input is file 0, and the other two descriptors print.
abbrev streams : List (Option ℕ)
streams = some 0 ∷ (some 1 ∷ (some 1 ∷ []))

abbrev stream : ℕ → Stdio
stream zero = stdin
stream (suc n) = stdout

abbrev is_ascii : List ℕ → Bool
is_ascii [] = true
is_ascii (c ∷ cs) = ltb c 128 && is_ascii cs

abbrev write_stream : ℕ → List ℕ → List ℕ → Run (ℕ × List ℕ)
write_stream n = write is_ascii (stream n)

-- "aaa…" in the memory of the user.
abbrev letters : ℕ → ℕ
letters a = 97

sys_write_lem_example :
    ((file : ℕ) × (file_at streams 1 ≡ some file)
      × (writable (stream file) ≡ true)
      × IsWriting
          (λ n. writable (stream n))
          write_stream
          letters
          file
          0x7000
          300
          (sys_write (λ n. writable (stream n)) write_stream letters streams 1 0x7000 300))
    ⊎ (((file : ℕ) → file_at streams 1 ≡ some file → writable (stream file) ≡ false)
        × ((s : List ℕ)
            → sys_write (λ n. writable (stream n)) write_stream letters streams 1 0x7000 300 s
              ≡ done (some (negsuc 0, s))))
sys_write_lem_example =
    sys_write_lem (λ n. writable (stream n)) write_stream letters streams 1 0x7000 300

hello-printed :
    sys_write (λ n. writable (stream n)) write_stream letters streams 1 0x7000 3 []
    ≡ done (some (pos 3, 97 ∷ (97 ∷ (97 ∷ []))))
unfolding sys_write write read_array check copy_from_user
hello-printed = refl

abbrev semaphores : List (Option Semaphore)
semaphores = some (Semaphore.new 3) ∷ []

sys_semaphore_up_lem_example :
    ((s' : Semaphore) × (sems' : List (Option Semaphore)) × (sys_semaphore_up semaphores five 0
        ≡ done (sems', five))
      × Represents s' (record { free = 4; waiters = [] }) five
      × IsScheduled everyone five
      × ((m : ℕ) → at sems' m ≡ (if 0 == m then some s' else at semaphores m)))
    × (sys_semaphore_up semaphores five 8 ≡ panic)
sys_semaphore_up_lem_example =
    sys_semaphore_up_lem everyone semaphores 0 3 [] five (Semaphore.new 3) 8 five-IsScheduled
      (omega arith) refl (new-Represents 3 five (omega arith)) refl
