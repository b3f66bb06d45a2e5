-- ===== src/Tasks/Scheduler/UserTask/UserTests.antt =====
-- The creation of a user task without code, from an empty list.
use locos.Prelude.{◌≡◌, refl, some, none, [], ◌∷◌, ok, step_by}
use locos.Memory.Mapper.{map_loop, map_page, map_frame, refuse}
use locos.Memory.Mapper.Simple.{simple}
use locos.Tasks.KernelSlab.{get_stack, get_user_stack, trailing_ones, finish_stack}
use locos.Tasks.Scheduler.{World, ProcessControlBlock, user, ready, zero_regs}
use locos.Tasks.Scheduler.UserTask.{
  UserMemory, Listed, user_task, ucreate_task, ucreate_task-Listed,
}

abbrev pub memory : UserMemory simple
memory = record {
  zero_table = λ table st. st;
  copy_entry = λ to current i st. st;
  write_frame = λ frame bytes st. st;
  unmap_user = λ table page st. simple.unmap page st;
}

abbrev pub empty : World simple
empty = record {
  task_list = [];
  stacks = record { block_bitmap = 0 };
  frames = [];
  cr3 = 0x1000;
  cs = 8;
  ss = 16;
  rflags = 2;
  tss_stack = 0;
  syscall_stack = 0;
}

abbrev pub made : ProcessControlBlock
made = record {
  task_type = user (record {
    stack_start = 0x7fffffff0000;
    stack_end = 0x7fffffdf0000;
    stack_size = 4;
    kernel_stack = 0xFFFFF30000003FF0;
  });
  regs = record zero_regs {
    interrupt_rip = 0x400000;
    interrupt_cs = 0x1b;
    interrupt_rflags = 0x202;
    interrupt_rsp = 0x7fffffff0000;
    interrupt_ss = 0x23;
  };
  state = ready;
  cr3 = 0x5000;
}

abbrev pub listed : World simple
listed = record empty {
  task_list = made ∷ [];
  stacks = record { block_bitmap = 1 };
  frames =
      0xFFFFF30000003000 ∷ 0xFFFFF30000002000 ∷ 0xFFFFF30000001000 ∷ 0x7ffffffef000 ∷ 0x7ffffffee000
      ∷ 0x7ffffffed000 ∷ 0x7ffffffec000 ∷ [];
}

pub creates : ucreate_task simple memory 0x400000 none empty ≡ some (ok tt, listed)
unfolding ucreate_task user_task get_user_stack get_stack finish_stack trailing_ones map_loop
    map_page map_frame refuse step_by
creates = refl

ucreate_task-Listed_example : Listed simple memory 0x400000 empty (ok tt, listed)
ucreate_task-Listed_example =
    ucreate_task-Listed simple memory 0x400000 none empty (ok tt, listed) creates
