-- ===== src/Tasks/Scheduler/Tests.antt =====
-- The theorems on the scheduler at two kernel tasks, and at a user task.
use locos.Prelude.{
  ℕ, ◌≡◌, ◌==◌, ◌&&◌, ◌++◌, if◌then◌else◌, refl, Option, some, none, List, [], ◌∷◌, ok,
}
use locos.Memory.Mapper.{Mapper}
use locos.Memory.Mapper.Simple.{simple}
use locos.Tasks.KernelSlab.{KernelSlabAlloc, return_stack}
use locos.Tasks.Scheduler.{
  TaskRegisters, ready, running, waiting, interrupt, ProcessControlBlock, kernel, user, UserInfo,
  World, zero_regs, kinit_multitasking, kyield_task, schedule_inner, set_front_state, schedule_from,
  put_away, run_front, try_grow_user_stack,
}
use locos.Tasks.Scheduler.Rotation.{schedules, Resumed, schedules-round}
use locos.Tasks.Scheduler.Growth.{Grown, try_grow_user_stack-Grown}
use locos.Tasks.Scheduler.Exit.{ended, Left, ended-kernel, ended-user}
use locos.Tasks.Scheduler.PageTables.{KeepsTables, frames_below, entry_frames, free_all}
use locos.Tasks.Scheduler.UserTask.UserTests.{memory, listed, made, creates}
use locos.Tasks.Scheduler.UserTask.UserTests.{empty as no_tasks}
use locos.Tasks.Scheduler.Invariant.{
  empty, boot_user, start, next, yield, tick, grow, IsSettled, Reach-IsSettled,
}

abbrev stack : ℕ
stack = 0xFFFFF30000003FF0

abbrev at : ℕ → TaskRegisters
at rip = record zero_regs { interrupt_rip = rip }

abbrev shell : ProcessControlBlock
shell = record { task_type = kernel none; regs = at 1; state = running; cr3 = 0x1000 }

abbrev worker : ProcessControlBlock
worker = record { task_type = kernel (some stack); regs = at 2; state = ready; cr3 = 0x1000 }

abbrev info : UserInfo
info = record {
  stack_start = 0x7fffffff0000;
  stack_end = 0x7fffffdf0000;
  stack_size = 4;
  kernel_stack = stack;
}

abbrev guest : ProcessControlBlock
guest = record { task_type = user info; regs = at 3; state = running; cr3 = 0x2000 }

abbrev world : List ProcessControlBlock → World simple
world tasks = record {
  task_list = tasks;
  stacks = record { block_bitmap = 1 };
  frames = [];
  cr3 = 0x1000;
  cs = 8;
  ss = 16;
  rflags = 2;
  tss_stack = 0;
  syscall_stack = 0;
}

schedules-round_example :
    Resumed simple
      (at 2 ∷ at 7 ∷ [])
      (schedules simple (at 7 ∷ at 8 ∷ []) (world (shell ∷ worker ∷ [])))
schedules-round_example =
    schedules-round simple shell (worker ∷ []) (at 7) (at 8 ∷ []) (world (shell ∷ worker ∷ [])) refl
      tt refl

try_grow_runs :
    try_grow_user_stack simple 0x7ffffffe8123 (world (guest ∷ []))
    ≡ some (
      ok tt,
      record (world (record guest { task_type = user (record info { stack_size = 5 }) } ∷ [])) {
        frames = 0x7ffffffe8000 ∷ [];
      },
    )
unfolding try_grow_user_stack
try_grow_runs = refl

try_grow_user_stack-Grown_example : Grown simple 0x7ffffffe8123 (world (guest ∷ [])) (
  ok tt,
  record (world (record guest { task_type = user (record info { stack_size = 5 }) } ∷ [])) {
    frames = 0x7ffffffe8000 ∷ [];
  },
)
try_grow_user_stack-Grown_example =
    try_grow_user_stack-Grown simple 0x7ffffffe8123 (world (guest ∷ [])) _ try_grow_runs

abbrev no_stack : KernelSlabAlloc
no_stack = record { block_bitmap = 0 }

stack_returned : return_stack (record { block_bitmap = 1 }) stack ≡ some no_stack
unfolding return_stack
stack_returned = refl

ended-kernel_example :
    Left simple shell [] no_stack []
      (ended simple (at 9) (world (record worker { state = running } ∷ shell ∷ [])))
ended-kernel_example =
    ended-kernel simple (record worker { state = running }) shell [] (at 9)
      (world (record worker { state = running } ∷ shell ∷ [])) stack no_stack refl refl
      stack_returned

-- Page tables of a task: a code page, and the three tables above it.
abbrev entry_of : ℕ → ℕ → Option ℕ
entry_of table i =
    if table == 0x2000 && i == 0
    then some 0x3000
    else if table == 0x3000 && i == 0
    then some 0x4000
    else if table == 0x4000 && i == 2
    then some 0x5000
    else if table == 0x5000 && i == 0
    then some 0x6000
    else none

-- The state collects the frames that were given back.
abbrev tables : Mapper
tables = record simple {
  deallocate_frame = λ frame st. some (frame ∷ st);
  present_entry = λ table i st. some (entry_of table i);
}

abbrev tables_world : World tables
tables_world = record {
  task_list = guest ∷ shell ∷ [];
  stacks = record { block_bitmap = 1 };
  frames = [];
  cr3 = 0x2000;
  cs = 8;
  ss = 16;
  rflags = 2;
  tss_stack = 0;
  syscall_stack = 0;
}

tables-KeepsTables : KeepsTables tables
tables-KeepsTables frame st st' e table i = refl

listed_below : frames_below tables 4 [] 0x2000 ≡ some (0x6000 ∷ 0x5000 ∷ 0x4000 ∷ 0x3000 ∷ [])
unfolding frames_below entry_frames
listed_below = refl

freed :
    free_all tables ((0x6000 ∷ 0x5000 ∷ 0x4000 ∷ 0x3000 ∷ []) ++ 0x2000 ∷ []) []
    ≡ some (0x2000 ∷ 0x3000 ∷ 0x4000 ∷ 0x5000 ∷ 0x6000 ∷ [])
unfolding free_all
freed = refl

ended-user_example :
    Left tables shell [] no_stack
      (0x2000 ∷ 0x3000 ∷ 0x4000 ∷ 0x5000 ∷ 0x6000 ∷ [])
      (ended tables (at 9) tables_world)
ended-user_example =
    ended-user tables guest shell [] (at 9) tables_world info no_stack
      (0x6000 ∷ 0x5000 ∷ 0x4000 ∷ 0x3000 ∷ []) (0x2000 ∷ 0x3000 ∷ 0x4000 ∷ 0x5000 ∷ 0x6000 ∷ [])
      tables-KeepsTables refl refl stack_returned listed_below freed

-- A user task created before `kinit_multitasking`, which then yields to it; its stack grows.
abbrev begun : World simple
begun = kinit_multitasking simple listed

abbrev idle : ProcessControlBlock
idle = record {
  task_type = kernel none;
  regs = record zero_regs { interrupt_cs = 8; interrupt_rflags = 2; interrupt_ss = 16 };
  state = waiting (interrupt 33);
  cr3 = 0x1000;
}

abbrev yielded : World simple
yielded = record listed { task_list = idle ∷ made ∷ [] }

abbrev switched : World simple
switched = record listed {
  task_list = record made { state = running } ∷ record idle { regs = at 5 } ∷ [];
  cr3 = 0x5000;
  tss_stack = stack;
  syscall_stack = stack;
}

abbrev made_info : UserInfo
made_info = record info { stack_size = 5 }

abbrev grown : World simple
grown = record switched {
  task_list =
      record made { state = running; task_type = user made_info }
      ∷ record idle { regs = at 5 }
      ∷ [];
  frames = 0x7ffffffe8000 ∷ listed.frames;
}

yields : kyield_task simple 33 begun ≡ some yielded
unfolding kinit_multitasking kyield_task set_front_state
yields = refl

ticks : schedule_inner simple (at 5) yielded ≡ some (switched, made.regs)
unfolding schedule_inner schedule_from put_away run_front
ticks = refl

grows : try_grow_user_stack simple 0x7ffffffe8123 switched ≡ some (ok tt, grown)
unfolding try_grow_user_stack
grows = refl

Reach-IsSettled_example : IsSettled grown.task_list
Reach-IsSettled_example = Reach-IsSettled simple memory grown (
    next switched grown
      (next yielded switched
        (next begun yielded
          (start listed
            (boot_user 0x400000 none no_tasks (ok tt, listed) (empty no_tasks refl) creates))
          (yield 33 yields))
        (tick (at 5) made.regs ticks))
      (grow 0x7ffffffe8123 (ok tt) grows))
