-- ===== src/Process/Tests.antt =====
-- The root process with a shell, and a user process of the shell.
use r_core_tutorial_v3_arm.Base.{
  ℕ, zero, suc, ◌≤◌, ◌≡◌, refl, sym, true, false, none, some, [], ◌∷◌, arith, contains, Distinct,
  done,
}
use r_core_tutorial_v3_arm.Base.Int.{pos, negsuc}
use r_core_tutorial_v3_arm.Process.{Process, World, fork, normal, zombie, waitpid}
use r_core_tutorial_v3_arm.Process.Wait.{Waited, waitpid-Waited}
use r_core_tutorial_v3_arm.Process.Family.{IsFamily}
use r_core_tutorial_v3_arm.Process.Fork.{forked}
use r_core_tutorial_v3_arm.Process.Calls.{stops, call, child_over, call-IsFamily, waitpid-fork}

abbrev shell : Process
shell = record {
  is_kernel = false;
  state = normal;
  exit_code = 0;
  has_vm = true;
  tasks = [];
  next_tid = 1;
  parent = some 1;
  children = 3 ∷ [];
  fd_table = some 0 ∷ (none ∷ (some 7 ∷ []));
}

abbrev program : Process
program = record shell {
  parent = some 2;
  children = [];
  state = zombie;
  exit_code = 5;
  has_vm = false;
}

abbrev nobody : Process
nobody = record program { parent = none }

abbrev procs : ℕ → Process
procs (suc zero) = record shell { is_kernel = true; parent = none; children = 2 ∷ [] }
procs (suc (suc zero)) = shell
procs (suc (suc (suc zero))) = program
procs _ = nobody

abbrev world : World
world = record { procs = procs; proc_map = 1 ∷ (2 ∷ (3 ∷ [])); next_pid = 4 }

abbrev one_reference : ℕ → ℕ
one_reference p = 1

world-IsFamily : IsFamily world
world-IsFamily = record {
  parent = parent;
  distinct = distinct;
  fresh = fresh;
  childless = childless;
  rooted = omega arith;
}
  where
    parent : (p c : ℕ) → contains (procs p).children c ≡ true → (procs c).parent ≡ some p
    parent zero c h = absurd (cc h)
    parent (suc zero) c h = rw (sym (only 2 c h)) refl
      where
        only : (a c : ℕ) → contains (a ∷ []) c ≡ true → a ≡ c
        only a c h = ground (arith, h)
    parent (suc (suc zero)) c h = rw (sym (only 3 c h)) refl
      where
        only : (a c : ℕ) → contains (a ∷ []) c ≡ true → a ≡ c
        only a c h = ground (arith, h)
    parent (suc (suc (suc zero))) c h = absurd (cc h)
    parent (suc (suc (suc (suc p)))) c h = absurd (cc h)

    distinct : (p : ℕ) → Distinct (procs p).children
    distinct zero = tt
    distinct (suc zero) = (refl, tt)
    distinct (suc (suc zero)) = (refl, tt)
    distinct (suc (suc (suc zero))) = tt
    distinct (suc (suc (suc (suc p)))) = tt

    fresh : (p c : ℕ) → 4 ≤ c → contains (procs p).children c ≡ false
    fresh zero c h = refl
    fresh (suc zero) c h = ground (arith, h)
    fresh (suc (suc zero)) c h = ground (arith, h)
    fresh (suc (suc (suc zero))) c h = refl
    fresh (suc (suc (suc (suc p)))) c h = refl

    childless : (p : ℕ) → 4 ≤ p → (procs p).children ≡ []
    childless zero h = refl
    childless (suc zero) h = absurd (omega (arith, h))
    childless (suc (suc zero)) h = absurd (omega (arith, h))
    childless (suc (suc (suc zero))) h = refl
    childless (suc (suc (suc (suc p)))) h = refl

waitpid-Waited_example : Waited world 2 3 0 (waitpid one_reference world 2 3 0)
waitpid-Waited_example = waitpid-Waited one_reference world 2 3 0 (λ c h. refl)

call-IsFamily_example :
    (w' : World) × (call one_reference world (stops 2 9) ≡ done w') × IsFamily w'
call-IsFamily_example =
    call-IsFamily one_reference world (stops 2 9) (λ c. refl) world-IsFamily
      ((λ e. absurd (omega (arith, e))), (λ e. absurd (omega (arith, e))))

waitpid-fork_example :
    (fork world 2 ≡ done (4, forked world 2))
    × (((forked world 2).procs 4).fd_table ≡ shell.fd_table)
    × (waitpid one_reference (forked world 2) 2 4 0 ≡ done (negsuc 1, 0, forked world 2))
    × ((w' : World) × (waitpid one_reference (child_over world 2 6) 2 4 0 ≡ done (pos 4, 6, w'))
        × ((w'.procs 2).children ≡ 3 ∷ []))
waitpid-fork_example =
    waitpid-fork one_reference world 2 6 world-IsFamily (omega arith) refl refl (omega arith) refl
