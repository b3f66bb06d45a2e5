-- ===== src/Tasks/Scheduler/UserTask.antt =====
-- kernel/src/tasks/scheduler.rs: `create_user_page_table` and `ucreate_task`. What they do to a page
-- table through the direct mapping, and the page table of another task, is a parameter.
pub mod UserTests
use locos.Prelude.{
  ℕ, zero, suc, ◌+◌, ◌-◌, ◌*◌, ◌/◌, ◌<◌, ◌≡◌, refl, sym, arith, Bool-cases, inl, inr, ◌⊎◌, bit_or,
  Option, none, some, ◌>>=◌, >>=-eq-some, some_injective, Result, ok, err, leb, if◌then◌else◌, List,
  [], ◌∷◌, ◌++◌, length, take, drop, steps, add64, sub64,
}
use locos.Memory.Mapper.{Mapper}
use locos.Tasks.KernelSlab.{
  KernelSlabAlloc, StackAllocError, UserStackAllocation, initial_stack_pages, get_stack,
  get_user_stack, return_user_stack,
}
use locos.Tasks.Scheduler.{
  TaskRegisters, TaskState, ready, ProcessControlBlock, TaskType, user, UserInfo, World, zero_regs,
}

-- The errors of `ucreate_task`, a `Box<dyn Error>` in the source.
pub data CreateError {ℓ} (E : Type ℓ) : Type ℓ where
  bad_entry_point no_code_frame : CreateError E
  code_not_mapped : E → CreateError E
  no_stack : StackAllocError → CreateError E

-- `(USER_CODE_SEGMENT_INDEX << 3) | 3` and `(USER_DATA_SEGMENT_INDEX << 3) | 3`
abbrev pub user_code_segment : ℕ
user_code_segment = 27

abbrev pub user_data_segment : ℕ
user_data_segment = 35

module _ (m : Mapper) where
  open m use {
    State, MapError, UnmapError, present, writable, user_accessible, join, page_of, allocate_frame,
    deallocate_frame, map_user,
  }

  -- Writes to a frame, and `unmap` in the page table at a frame.
  pub record UserMemory : Type 0 where
    pub zero_table : ℕ → State → State
    pub copy_entry : ℕ → ℕ → ℕ → State → State
    pub write_frame : ℕ → List ℕ → State → State
    pub unmap_user : ℕ → ℕ → State → Result UnmapError ℕ × State

  module _ (u : UserMemory) where
    open u use {zero_table, copy_entry, write_frame, unmap_user}

    -- The page table at a frame, as the functions on stacks see it.
    abbrev pub table_at : ℕ → Mapper
    table_at table = record m { map_to = map_user table; unmap = unmap_user table }

    -- `for i in 256..512 { new_l4_table[i] = current_l4_table[i].clone() }`
    pub copy_entries : ℕ → ℕ → List ℕ → State → State
    copy_entries new_table current [] st = st
    copy_entries new_table current (i ∷ rest) st =
        copy_entries new_table current rest (copy_entry new_table current i st)

    -- The table in the frame that was allocated; a panic if there was none.
    pub fill_table : ℕ → Option ℕ × State → Option (ℕ × State)
    unfolding copy_entries
    fill_table current (none, st) = none
    fill_table current (some frame, st) =
        some (frame, copy_entries frame current (steps 256 256 1) (zero_table frame st))

    -- `create_user_page_table`
    pub create_user_page_table : ℕ → State → Option (ℕ × State)
    unfolding fill_table
    create_user_page_table current st = fill_table current (allocate_frame st)

    abbrev pub Loaded : Type 0
    Loaded = Result (CreateError MapError) (Unit {0}) × State

    -- The loop over the pages of the code, with the code that is left.
    pub load_pages : ℕ → List ℕ → List ℕ → State → Loaded
    load_pages table [] code st = (ok tt, st)
    load_pages table (page ∷ rest) code st =
        let got = allocate_frame st in
        elim got.0 [
          | none ↦ (err no_code_frame, got.1)
          | some frame ↦
              let mapped =
                map_user table page frame (join (join present user_accessible) writable) got.1 in
              elim mapped.0 [
                | err e ↦ (err (code_not_mapped e), mapped.1)
                | ok v ↦
                    load_pages table rest (drop 4096 code)
                      (write_frame frame (take 4096 code) mapped.1)
              ]
        ]

    -- The code, if there is any, on its pages.
    pub load_code : ℕ → ℕ → Option (List ℕ) → State → Option Loaded
    unfolding load_pages
    load_code table entry_point none st = some (ok tt, st)
    load_code table entry_point (some code) st = do
      last ← sub64 (length code) 1
      code_end ← add64 entry_point last
      start_page ← page_of entry_point
      end_page ← page_of code_end
      span ← sub64 (end_page + 4096) start_page
      some (load_pages table (steps (span / 4096) start_page 4096) code st)

    abbrev pub Created : Type 0
    Created = Result (CreateError MapError) (Unit {0}) × World m

    -- The task of the page table, the user stack and the kernel stack.
    pub user_task : World m → ℕ → ℕ → UserStackAllocation → ℕ → ProcessControlBlock
    user_task w entry_point table stack kernel_stack = record {
      task_type = user (record {
        stack_start = stack.stack_start;
        stack_end = stack.stack_end;
        stack_size = initial_stack_pages;
        kernel_stack = kernel_stack;
      });
      regs = record zero_regs {
        interrupt_rip = entry_point;
        interrupt_cs = user_code_segment;
        interrupt_rflags = bit_or w.rflags 0x200;
        interrupt_rsp = stack.stack_start;
        interrupt_ss = user_data_segment;
      };
      state = ready;
      cr3 = table;
    }

    -- `ucreate_task` from the outcome of `get_stack` on.
    pub after_kernel_stack :
        ℕ
        → ℕ
        → UserStackAllocation
        → World m
        → Result StackAllocError ℕ × KernelSlabAlloc × State
        → Option Created
    unfolding user_task
    after_kernel_stack entry_point table stack w (err e, a, st) = do
      st₁ ← return_user_stack (table_at table) stack.stack_start initial_stack_pages st
      st₂ ← deallocate_frame table st₁
      some (err (no_stack e), record w { stacks = a; frames = st₂ })
    after_kernel_stack entry_point table stack w (ok kernel_stack, a, st) = some (
      ok tt,
      record w {
        task_list = w.task_list ++ user_task w entry_point table stack kernel_stack ∷ [];
        stacks = a;
        frames = st;
      },
    )

    -- `ucreate_task` from the outcome of `get_user_stack` on.
    pub after_user_stack :
        ℕ → ℕ → World m → Result StackAllocError UserStackAllocation × State → Option Created
    unfolding after_kernel_stack
    after_user_stack entry_point table w (err e, st) = do
      st₁ ← deallocate_frame table st
      some (err (no_stack e), record w { frames = st₁ })
    after_user_stack entry_point table w (ok stack, st) = do
      r ← get_stack m w.stacks st
      after_kernel_stack entry_point table stack w r

    -- `ucreate_task` from the outcome of the loading of the code on.
    pub after_code : ℕ → ℕ → World m → Loaded → Option Created
    unfolding after_user_stack
    after_code entry_point table w (err e, st) = some (err e, record w { frames = st })
    after_code entry_point table w (ok v, st) = do
      r ← get_user_stack (table_at table) st
      after_user_stack entry_point table w r

    -- `ucreate_task`
    pub ucreate_task : ℕ → Option (List ℕ) → World m → Option Created
    unfolding create_user_page_table load_code after_code
    ucreate_task entry_point code w =
        if leb 0x0000_8000_0000_0000 entry_point
        then some (err bad_entry_point, w)
        else (create_user_page_table w.cr3 w.frames >>= λ t.
            load_code t.0 entry_point code t.1 >>= λ r. after_code entry_point t.0 w r)

    -- A ready user task that begins at the entry point in ring 3 with interrupts on, its stack empty.
    abbrev pub BeginsAt : ℕ → World m → ℕ → UserStackAllocation → ℕ → ProcessControlBlock → Type 0
    BeginsAt entry_point w table stack kernel_stack t =
        (t.state ≡ ready)
        × (t.cr3 ≡ table)
        × (t.regs.interrupt_rip ≡ entry_point)
        × (t.regs.interrupt_rsp ≡ stack.stack_start)
        × (t.regs.interrupt_cs ≡ 27)
        × (t.regs.interrupt_ss ≡ 35)
        × (t.regs.interrupt_rflags ≡ bit_or w.rflags 512)
        × (t.task_type
            ≡ user (record {
              stack_start = stack.stack_start;
              stack_end = stack.stack_end;
              stack_size = 4;
              kernel_stack = kernel_stack;
            }))

    -- The task added behind the others, on a page table: its user stack was got in that page table, its
    -- kernel stack from the stack allocator.
    abbrev pub Added : ℕ → ℕ → World m → Created → Type 0
    Added entry_point table w (ok v, w') =
        (t : ProcessControlBlock) × (stack : UserStackAllocation) × (kernel_stack : ℕ) × (st
          st₁ : State)
        × (w'.task_list ≡ w.task_list ++ t ∷ [])
        × BeginsAt entry_point w table stack kernel_stack t
        × (get_user_stack (table_at table) st ≡ some (ok stack, st₁))
        × (get_stack m w.stacks st₁ ≡ some (ok kernel_stack, w'.stacks, w'.frames))
    Added entry_point table w (err e, w') = w'.task_list ≡ w.task_list

    -- What `ucreate_task` did to the list: a task added on a new page table, or nothing.
    abbrev pub Listed : ℕ → World m → Created → Type 0
    Listed entry_point w (ok v, w') =
        (table : ℕ) × (st : State) × (create_user_page_table w.cr3 w.frames ≡ some (table, st))
        × Added entry_point table w (ok v, w')
    Listed entry_point w (err e, w') = w'.task_list ≡ w.task_list

    after_kernel_stack-Added :
        (entry_point table : ℕ) (stack : UserStackAllocation) (w : World m) (st st₁ : State)
        (r : Result StackAllocError ℕ × KernelSlabAlloc × State) (o : Created)
        → get_user_stack (table_at table) st ≡ some (ok stack, st₁)
        → get_stack m w.stacks st₁ ≡ some r
        → after_kernel_stack entry_point table stack w r ≡ some o
        → Added entry_point table w o
    unfolding after_kernel_stack user_task
    after_kernel_stack-Added entry_point table stack w st st₁ (err e, a, st₂) o got kgot h =
        let (st₃, _, h₁) =
          >>=-eq-some (return_user_stack (table_at table) stack.stack_start initial_stack_pages st₂)
            _ h in
        let (st₄, _, h₂) = >>=-eq-some (deallocate_frame table st₃) _ h₁ in
        let same = some_injective (err (no_stack e), record w { stacks = a; frames = st₄ }) o h₂ in
        rw (← same) refl
    after_kernel_stack-Added entry_point table stack w st st₁ (ok k, a, st₂) o got kgot h =
        let same = some_injective _ o h in
        rw (← same) (
          user_task w entry_point table stack k,
          stack,
          k,
          st,
          st₁,
          refl,
          (refl, refl, refl, refl, refl, refl, refl, refl),
          got,
          kgot,
        )

    after_user_stack-Added :
        (entry_point table : ℕ) (w : World m) (st : State)
        (r : Result StackAllocError UserStackAllocation × State) (o : Created)
        → get_user_stack (table_at table) st ≡ some r
        → after_user_stack entry_point table w r ≡ some o
        → Added entry_point table w o
    unfolding after_user_stack
    after_user_stack-Added entry_point table w st (err e, st₁) o got h =
        let (st₂, _, h₁) = >>=-eq-some (deallocate_frame table st₁) _ h in
        let same = some_injective (err (no_stack e), record w { frames = st₂ }) o h₁ in
        rw (← same) refl
    after_user_stack-Added entry_point table w st (ok stack, st₁) o got h =
        let (r, kgot, h₁) =
          >>=-eq-some (get_stack m w.stacks st₁) (after_kernel_stack entry_point table stack w) h in
        after_kernel_stack-Added entry_point table stack w st st₁ r o got kgot h₁

    after_code-Added :
        (entry_point table : ℕ) (w : World m) (r : Loaded) (o : Created)
        → after_code entry_point table w r ≡ some o
        → Added entry_point table w o
    unfolding after_code
    after_code-Added entry_point table w (err e, st) o h =
        let same = some_injective (err e, record w { frames = st }) o h in rw (← same) refl
    after_code-Added entry_point table w (ok v, st) o h =
        let (r, got, h₁) =
          >>=-eq-some (get_user_stack (table_at table) st) (after_user_stack entry_point table w)
            h in
        after_user_stack-Added entry_point table w st r o got h₁

    Added-Listed :
        (entry_point table : ℕ) (st : State) (w : World m) (o : Created)
        → create_user_page_table w.cr3 w.frames ≡ some (table, st)
        → Added entry_point table w o
        → Listed entry_point w o
    Added-Listed entry_point table st w (ok v, w') made a = (table, st, made, a)
    Added-Listed entry_point table st w (err e, w') made a = a

    -- Whenever `ucreate_task` returns: after success one task is listed behind the others, ready, in the
    -- page table that was created for it, with the entry point as its instruction pointer, the user
    -- segments, interrupts enabled, and the start of the user stack that was got in that page table
    -- as its stack pointer; it keeps the bounds of that stack with 4 pages counted, and the kernel
    -- stack that was got for it. After an error the list is as it was.
    pub ucreate_task-Listed :
        (entry_point : ℕ) (code : Option (List ℕ)) (w : World m) (o : Created)
        → ucreate_task entry_point code w ≡ some o
        → Listed entry_point w o
    unfolding ucreate_task
    ucreate_task-Listed entry_point code w o h =
        elim (Bool-cases (leb 0x0000_8000_0000_0000 entry_point)) [
          | inl high ↦
              let same = some_injective (err bad_entry_point, w) o (rw high at h) in
              rw (← same) refl
          | inr low ↦
              let (t, made, h₁) =
                >>=-eq-some (create_user_page_table w.cr3 w.frames) _ (rw low at h) in
              let (r, _, h₂) =
                >>=-eq-some (load_code t.0 entry_point code t.1)
                  (λ r. after_code entry_point t.0 w r) h₁ in
              Added-Listed entry_point t.0 t.1 w o made (after_code-Added entry_point t.0 w r o h₂)
        ]

    -- The list after `ucreate_task` is the list before, or has one ready task more behind it.
    pub ucreate_task-appends :
        (w : World m) (entry_point : ℕ) (o : Created)
        → Listed entry_point w o
        → (o.1.task_list ≡ w.task_list)
          ⊎ ((t : ProcessControlBlock) × (t.state ≡ ready)
              × (o.1.task_list ≡ w.task_list ++ t ∷ []))
    ucreate_task-appends w entry_point (err e, w') h = inl h
    ucreate_task-appends w entry_point (ok v, w') (table, st, made, added) =
        let (t, stack, k, st₁, st₂, listed, begins, got, kgot) = added in inr (t, begins.0, listed)
