-- ===== src/Task/Tests.antt =====
-- The theorems about the scheduler, at a kernel of five tasks.
use r_core_tutorial_v3_arm.Base.{◌≡◌, refl, arith, done}
use r_core_tutorial_v3_arm.Task.{
  TaskState, ready, running, zombie, blocking, as_u8, from_u8, Kernel, block_task,
}
use r_core_tutorial_v3_arm.Task.Valid.{IsScheduled}
use r_core_tutorial_v3_arm.Task.Steps.{resumes, call, call-IsScheduled}
use r_core_tutorial_v3_arm.Task.Fair
use r_core_tutorial_v3_arm.Task.Fair.{yields-runs}
use r_core_tutorial_v3_arm.Task.Examples.{five, five-IsScheduled, everyone}

from_u8-as_u8 : (s : TaskState) → from_u8 (as_u8 s) ≡ done s
unfolding from_u8
from_u8-as_u8 ready = refl
from_u8-as_u8 running = refl
from_u8-as_u8 zombie = refl
from_u8-as_u8 blocking = refl

block_task_test : (block_task five 2).state 2 ≡ blocking
unfolding block_task
block_task_test = refl

call-IsScheduled_example :
    (k' : Kernel) × (call five (resumes 4) ≡ done k') × IsScheduled everyone k'
call-IsScheduled_example =
    call-IsScheduled everyone five (resumes 4) five-IsScheduled (refl, λ e. omega arith)

yields-runs_example :
    (k' : Kernel) × (Fair.yields 2 five ≡ done k') × (k'.current ≡ 3) × IsScheduled everyone k'
yields-runs_example = yields-runs everyone 1 3 five five-IsScheduled (λ e. omega arith) refl
