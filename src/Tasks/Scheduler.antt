-- ===== src/Tasks/Scheduler.antt =====
-- kernel/src/tasks/scheduler.rs: the task list, and the switch of tasks on a timer interrupt.
pub mod Rotation
pub mod UserTask
pub mod Growth
pub mod PageTables
pub mod Exit
pub mod Invariant
mod Tests
use locos.Prelude.{
  ℕ, zero, suc, ◌+◌, ◌-◌, ◌*◌, ◌/◌, ◌%◌, ◌^◌, bit_and, bit_or, Bool, true, false, Option, none,
  some, ◌>>=◌, ◌>>◌, Result, ok, err, ltb, leb, ◌==◌, not, ◌&&◌, if◌then◌else◌, List, [], ◌∷◌, ◌++◌,
  map, steps, add64,
}
use locos.Memory.Mapper.{Mapper}
use locos.Tasks.KernelSlab.{KernelSlabAlloc, StackAllocError, get_stack, return_stack}

-- `TaskRegisters`
pub record TaskRegisters : Type 0 where
  pub r15 : ℕ
  pub r14 : ℕ
  pub r13 : ℕ
  pub r12 : ℕ
  pub r11 : ℕ
  pub r10 : ℕ
  pub r9 : ℕ
  pub r8 : ℕ
  pub rbp : ℕ
  pub rdi : ℕ
  pub rsi : ℕ
  pub rdx : ℕ
  pub rcx : ℕ
  pub rbx : ℕ
  pub rax : ℕ
  pub interrupt_rip : ℕ
  pub interrupt_cs : ℕ
  pub interrupt_rflags : ℕ
  pub interrupt_rsp : ℕ
  pub interrupt_ss : ℕ

-- `WaitReason`
pub data WaitReason : Type 0 where
  interrupt : ℕ → WaitReason

-- `TaskState`
pub data TaskState : Type 0 where
  ready running terminated : TaskState
  waiting : WaitReason → TaskState

-- `UserInfo`
pub record UserInfo : Type 0 where
  pub stack_start : ℕ
  pub stack_end : ℕ
  pub stack_size : ℕ
  pub kernel_stack : ℕ

-- `TaskType`
pub data TaskType : Type 0 where
  kernel : Option ℕ → TaskType
  user : UserInfo → TaskType

-- `ProcessControlBlock`
pub record ProcessControlBlock : Type 0 where
  pub task_type : TaskType
  pub regs : TaskRegisters
  pub state : TaskState
  pub cr3 : ℕ

-- `StackGrowthError`
pub data StackGrowthError : Type 0 where
  stack_overflow stack_underflow not_user_task other : StackGrowthError

abbrev zero_regs : TaskRegisters
zero_regs = record {
  r15 = 0;
  r14 = 0;
  r13 = 0;
  r12 = 0;
  r11 = 0;
  r10 = 0;
  r9 = 0;
  r8 = 0;
  rbp = 0;
  rdi = 0;
  rsi = 0;
  rdx = 0;
  rcx = 0;
  rbx = 0;
  rax = 0;
  interrupt_rip = 0;
  interrupt_cs = 0;
  interrupt_rflags = 0;
  interrupt_rsp = 0;
  interrupt_ss = 0;
}

-- `0..256`
abbrev pub user_entries : List ℕ
user_entries = steps 256 0 1

-- The state that `wake_tasks` gives a task.
pub wake_state : ℕ → TaskState → TaskState
wake_state n ready = ready
wake_state n running = running
wake_state n terminated = terminated
wake_state n (waiting (interrupt k)) = if k == n then ready else waiting (interrupt k)

-- The tasks that wait for the interrupt made ready.
pub woken : ℕ → List ProcessControlBlock → List ProcessControlBlock
unfolding wake_state
woken n [] = []
woken n (t ∷ rest) = record t { state = wake_state n t.state } ∷ woken n rest

-- `get_current_task_stack_info`, of the front task: the end and the start of its stack, and its page table.
pub get_current_task_stack_info : List ProcessControlBlock → Option (ℕ × ℕ × ℕ)
get_current_task_stack_info [] = none
get_current_task_stack_info (t ∷ rest) = elim t.task_type [
  | kernel stack_start ↦ none
  | user info ↦ some (info.stack_end, info.stack_start, t.cr3)
]

-- One page more counted for the front task, by its type.
pub count_for : ProcessControlBlock → TaskType → Option ProcessControlBlock
count_for t (kernel stack_start) = some t
count_for t (user info) = do
  size ← add64 info.stack_size 1
  some (record t { task_type = user (record info { stack_size = size }) })

-- `user_info.stack_size += 1`, of the front task.
pub count_page : List ProcessControlBlock → Option (List ProcessControlBlock)
unfolding count_for
count_page [] = some []
count_page (t ∷ rest) = do t' ← count_for t t.task_type; some (t' ∷ rest)

module _ (m : Mapper) where
  open m use {
    State, MapError, Flags, present, writable, user_accessible, join, page_of, allocate_frame,
    deallocate_frame, map_user, present_entry,
  }

  -- The scheduler's list, and what its functions read and write beside it: the stack allocator, the
  -- frames and page tables, the registers of the processor, and the stacks that the processor
  -- switches to on an interrupt (TSS) and on a system call.
  pub record World : Type 0 where
    pub task_list : List ProcessControlBlock
    pub stacks : KernelSlabAlloc
    pub frames : State
    pub cr3 : ℕ
    pub cs : ℕ
    pub ss : ℕ
    pub rflags : ℕ
    pub tss_stack : ℕ
    pub syscall_stack : ℕ

  -- `kinit_multitasking`
  pub kinit_multitasking : World → World
  kinit_multitasking w = record w {
    task_list =
        record {
          task_type = kernel none;
          regs = record zero_regs {
            interrupt_cs = w.cs;
            interrupt_rflags = w.rflags;
            interrupt_ss = w.ss;
          };
          state = running;
          cr3 = w.cr3;
        }
        ∷ w.task_list;
  }

  -- The task that `kcreate_task` adds, on the stack that it got; any error is a panic.
  pub new_kernel_task :
      World → ℕ → Result StackAllocError ℕ × KernelSlabAlloc × State → Option World
  new_kernel_task w task_ptr (err e, a, st) = none
  new_kernel_task w task_ptr (ok stack_start, a, st) = some (record w {
    stacks = a;
    frames = st;
    task_list =
        w.task_list
        ++ record {
          task_type = kernel (some stack_start);
          regs = record zero_regs {
            interrupt_rip = task_ptr;
            interrupt_cs = w.cs;
            interrupt_rflags = bit_or w.rflags 0x200;
            interrupt_rsp = stack_start;
            interrupt_ss = w.ss;
          };
          state = ready;
          cr3 = w.cr3;
        }
          ∷ [];
  })

  -- `kcreate_task`
  pub kcreate_task : ℕ → World → Option World
  unfolding new_kernel_task
  kcreate_task task_ptr w = do got ← get_stack m w.stacks w.frames; new_kernel_task w task_ptr got

  -- The present entries of one table: the tables below each first, by `below`, then its frame.
  pub free_entries : (ℕ → State → Option State) → ℕ → List ℕ → State → Option State
  free_entries below table [] st = some st
  free_entries below table (i ∷ rest) st = do
    entry ← present_entry table i st
    elim entry [
      | none ↦ free_entries below table rest st
      | some child ↦ do
        st₁ ← below child st
        st₂ ← deallocate_frame child st₁
        free_entries below table rest st₂
    ]

  -- `deallocate_user_page_table_recursive`, called with level 4.
  pub deallocate_user_page_table_recursive : ℕ → ℕ → State → Option State
  unfolding free_entries
  deallocate_user_page_table_recursive zero table st =
      free_entries (λ _ s. some s) table user_entries st
  deallocate_user_page_table_recursive (suc zero) table st =
      free_entries (λ _ s. some s) table user_entries st
  deallocate_user_page_table_recursive (suc (suc level)) table st =
      free_entries (deallocate_user_page_table_recursive (suc level)) table user_entries st

  -- What `schedule_inner` frees of a task that has ended.
  pub release_task : ProcessControlBlock → TaskType → World → Option World
  release_task t (kernel none) w = some w
  release_task t (kernel (some stack_start)) w = do
    a ← return_stack w.stacks stack_start
    some (record w { stacks = a })
  release_task t (user info) w = do
    a ← return_stack w.stacks info.kernel_stack
    st₁ ← deallocate_user_page_table_recursive 4 t.cr3 w.frames
    st₂ ← deallocate_frame t.cr3 st₁
    some (record w { stacks = a; frames = st₂ })

  abbrev push_back : ProcessControlBlock → World → World
  push_back t w = record w { task_list = w.task_list ++ t ∷ [] }

  -- What `schedule_inner` does with the task that was running, by its state.
  pub put_away : TaskState → ProcessControlBlock → TaskRegisters → World → Option World
  unfolding release_task
  put_away terminated t context w = release_task t t.task_type w
  put_away (waiting r) t context w = some (push_back (record t { regs = context }) w)
  put_away ready t context w = some (push_back (record t { state = ready; regs = context }) w)
  put_away running t context w = some (push_back (record t { state = ready; regs = context }) w)

  -- `set_kernel_stack` and `set_syscall_stack`, for a user task.
  abbrev set_stacks : TaskType → World → World
  set_stacks (kernel _) w = w
  set_stacks (user info) w = record w {
    tss_stack = info.kernel_stack;
    syscall_stack = info.kernel_stack;
  }

  -- The front task is made the running one; beside the state, the registers that it goes on with.
  pub run_front : List ProcessControlBlock → World → Option (World × TaskRegisters)
  run_front [] w = none
  run_front (t ∷ rest) w = some (
    record (set_stacks t.task_type w) {
      task_list = record t { state = running } ∷ rest;
      cr3 = t.cr3;
    },
    t.regs,
  )

  -- `schedule_inner`, in the build without `cfg(test)`.
  pub schedule_from :
      List ProcessControlBlock → TaskRegisters → World → Option (World × TaskRegisters)
  unfolding put_away run_front
  schedule_from [] context w = none
  schedule_from (current ∷ rest) context w = do
    w' ← put_away current.state current context (record w { task_list = rest })
    run_front w'.task_list w'

  pub schedule_inner : TaskRegisters → World → Option (World × TaskRegisters)
  unfolding schedule_from
  schedule_inner context w = schedule_from w.task_list context w

  -- `scheduler.task_list.front_mut().unwrap().state = s`
  pub set_front_state : TaskState → List ProcessControlBlock → World → Option World
  set_front_state s [] w = none
  set_front_state s (t ∷ rest) w = some (record w { task_list = record t { state = s } ∷ rest })

  -- `kyield_task` up to the software interrupt that calls the scheduler.
  pub kyield_task : ℕ → World → Option World
  unfolding set_front_state
  kyield_task n w = set_front_state (waiting (interrupt n)) w.task_list w

  -- `exit_task` up to the software interrupt that calls the scheduler.
  pub exit_task : World → Option World
  unfolding set_front_state
  exit_task w = set_front_state terminated w.task_list w

  -- `wake_tasks`
  pub wake_tasks : ℕ → World → World
  unfolding woken
  wake_tasks n w = record w { task_list = woken n w.task_list }

  -- The end of `try_grow_user_stack`, from the outcome of `map_to`.
  pub finish_growth :
      ℕ
      → World
      → Result MapError (Unit {0}) × State
      → Option (Result StackGrowthError (Unit {0}) × World)
  unfolding count_page
  finish_growth frame w (ok u, st) = do
    tasks ← count_page w.task_list
    some (ok tt, record w { task_list = tasks; frames = st })
  finish_growth frame w (err e, st) = do
    st₁ ← deallocate_frame frame st
    some (err other, record w { frames = st₁ })

  -- `try_grow_user_stack` from the frame on.
  pub grow_at :
      ℕ → ℕ → World → Option ℕ × State → Option (Result StackGrowthError (Unit {0}) × World)
  unfolding finish_growth
  grow_at page table w (none, st) = some (err other, record w { frames = st })
  grow_at page table w (some frame, st) =
      finish_growth frame w
        (map_user table page frame (join (join present writable) user_accessible) st)

  -- `try_grow_user_stack` from the bounds of the stack on.
  pub grow_within :
      ℕ → World → Option (ℕ × ℕ × ℕ) → Option (Result StackGrowthError (Unit {0}) × World)
  unfolding grow_at
  grow_within fault_addr w none = some (err not_user_task, w)
  grow_within fault_addr w (some (stack_bottom, stack_top, table)) =
      if ltb fault_addr stack_bottom
      then some (err stack_overflow, w)
      else if leb stack_top fault_addr
      then some (err stack_underflow, w)
      else (page_of fault_addr >>= λ page. grow_at page table w (allocate_frame w.frames))

  -- `try_grow_user_stack`
  pub try_grow_user_stack : ℕ → World → Option (Result StackGrowthError (Unit {0}) × World)
  unfolding grow_within get_current_task_stack_info
  try_grow_user_stack fault_addr w =
      grow_within fault_addr w (get_current_task_stack_info w.task_list)
