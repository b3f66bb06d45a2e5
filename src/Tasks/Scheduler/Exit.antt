-- ===== src/Tasks/Scheduler/Exit.antt =====
-- kernel/src/tasks/scheduler.rs: the end of a task, from `exit_task` through `schedule_inner`.
use locos.Prelude.{
  ap, >>=-eq-some, some_injective, ℕ, Option, none, some, ◌>>=◌, List, [], ◌∷◌, ◌++◌, ◌≡◌, sym,
  refl,
}
use locos.Memory.Mapper.{Mapper}
use locos.Tasks.KernelSlab.{KernelSlabAlloc, return_stack}
use locos.Tasks.Scheduler.{
  TaskRegisters, running, terminated, ProcessControlBlock, TaskType, kernel, user, UserInfo, World,
  put_away, run_front, schedule_from, schedule_inner, set_front_state, exit_task, release_task,
  deallocate_user_page_table_recursive,
}
use locos.Tasks.Scheduler.PageTables.{KeepsTables, frames_below, free_all, free_table}

module _ (m : Mapper) where
  open m use {State, deallocate_frame}

  -- `exit_task`, and the timer interrupt that it raises.
  pub ended : TaskRegisters → World m → Option (World m × TaskRegisters)
  ended c w = do w' ← exit_task m w; schedule_inner m c w'

  -- The next task running, after the first was dropped with its stack and its frames given back.
  abbrev pub Left :
      ProcessControlBlock
      → List ProcessControlBlock
      → KernelSlabAlloc
      → State
      → Option (World m × TaskRegisters)
      → Type 0
  Left next rest a st o =
      (w' : World m) × (o ≡ some (w', next.regs))
      × (w'.task_list ≡ record next { state = running } ∷ rest)
      × (w'.cr3 ≡ next.cr3)
      × (w'.stacks ≡ a)
      × (w'.frames ≡ st)

  run_front-Left :
      (next : ProcessControlBlock) (rest : List ProcessControlBlock) (k : TaskType) (w : World m)
      → next.task_type ≡ k
      → Left next rest w.stacks w.frames (run_front m (next ∷ rest) w)
  unfolding run_front
  run_front-Left next rest (kernel s) w e = (
    record w { task_list = record next { state = running } ∷ rest; cr3 = next.cr3 },
    rw e refl,
    refl,
    refl,
    refl,
    refl,
  )
  run_front-Left next rest (user info) w e = (
    record w {
      tss_stack = info.kernel_stack;
      syscall_stack = info.kernel_stack;
      task_list = record next { state = running } ∷ rest;
      cr3 = next.cr3;
    },
    rw e refl,
    refl,
    refl,
    refl,
    refl,
  )

  -- A kernel task that exits while another is listed: the next task goes on with its saved
  -- registers and its page table, the ended one is no longer listed, and its stack, which the
  -- bitmap has as taken, is given back.
  pub ended-kernel :
      (t next : ProcessControlBlock) (rest : List ProcessControlBlock) (c : TaskRegisters)
      (w : World m) (stack : ℕ) (a : KernelSlabAlloc)
      → w.task_list ≡ t ∷ next ∷ rest
      → t.task_type ≡ kernel (some stack)
      → return_stack w.stacks stack ≡ some a
      → Left next rest a w.frames (ended c w)
  unfolding ended exit_task set_front_state schedule_inner schedule_from put_away release_task
  ended-kernel t next rest c w stack a e k back =
      rw (e, k, back)
        (run_front-Left next rest next.task_type (record w { task_list = next ∷ rest; stacks = a })
          refl)

  ended_user :
      (t next : ProcessControlBlock) (rest : List ProcessControlBlock) (c : TaskRegisters)
      (w : World m) (info : UserInfo) (a : KernelSlabAlloc) (st₁ st₂ : State)
      → w.task_list ≡ t ∷ next ∷ rest
      → t.task_type ≡ user info
      → return_stack w.stacks info.kernel_stack ≡ some a
      → deallocate_user_page_table_recursive m 4 t.cr3 w.frames ≡ some st₁
      → deallocate_frame t.cr3 st₁ ≡ some st₂
      → Left next rest a st₂ (ended c w)
  unfolding ended exit_task set_front_state schedule_inner schedule_from put_away release_task
  ended_user t next rest c w info a st₁ st₂ e k back below table =
      rw (e, k, back, below, table)
        (run_front-Left next rest next.task_type
          (record w { task_list = next ∷ rest; stacks = a; frames = st₂ }) refl)

  -- A user task that exits while another is listed: the next task goes on with its saved registers
  -- and its page table, the ended one is no longer listed, its kernel stack is given back, and so are
  -- the frames that the entries 0 to 255 of its tables reach, in postorder, and last the frame of its
  -- page table. It takes that giving a frame back writes to no page table, that no entry on the way
  -- is that of a huge page, and that these frames can be given back in this order.
  pub ended-user :
      (t next : ProcessControlBlock) (rest : List ProcessControlBlock) (c : TaskRegisters)
      (w : World m) (info : UserInfo) (a : KernelSlabAlloc) (frames : List ℕ) (st : State)
      → KeepsTables m
      → w.task_list ≡ t ∷ next ∷ rest
      → t.task_type ≡ user info
      → return_stack w.stacks info.kernel_stack ≡ some a
      → frames_below m 4 w.frames t.cr3 ≡ some frames
      → free_all m (frames ++ t.cr3 ∷ []) w.frames ≡ some st
      → Left next rest a st (ended c w)
  ended-user t next rest c w info a frames st keeps e k back listed freed =
      let (st₁, below, itself) = free_table m keeps t.cr3 frames w.frames st listed freed in
      ended_user t next rest c w info a st₁ st e k back below itself

  pub release_task-task_list :
      (t : ProcessControlBlock) (k : TaskType) (w w' : World m)
      → release_task m t k w ≡ some w'
      → w'.task_list ≡ w.task_list
  unfolding release_task
  release_task-task_list t (kernel none) w w' e = ap (λ v. v.task_list) (sym (some_injective _ _ e))
  release_task-task_list t (kernel (some s)) w w' e =
      let (a, _, f) =
        >>=-eq-some (return_stack w.stacks s) (λ a. some (record w { stacks = a })) e in
      rw (sym (some_injective _ _ f)) refl
  release_task-task_list t (user info) w w' e =
      let (a, _, f) =
        >>=-eq-some (return_stack w.stacks info.kernel_stack)
          (λ a. deallocate_user_page_table_recursive m 4 t.cr3 w.frames >>= λ st₁.
            m.deallocate_frame t.cr3 st₁ >>= λ st₂. some (record w { stacks = a; frames = st₂ }))
          e in
      let (st₁, _, g) =
        >>=-eq-some (deallocate_user_page_table_recursive m 4 t.cr3 w.frames)
          (λ st₁.
            m.deallocate_frame t.cr3 st₁ >>= λ st₂. some (record w { stacks = a; frames = st₂ }))
          f in
      let (st₂, _, d) =
        >>=-eq-some (m.deallocate_frame t.cr3 st₁)
          (λ st₂. some (record w { stacks = a; frames = st₂ })) g in
      rw (sym (some_injective _ _ d)) refl

  run_front-empty :
      (o : Option (World m))
      → ((w : World m) → o ≡ some w → w.task_list ≡ [])
      → (o >>= λ w. run_front m w.task_list w) ≡ none
  unfolding run_front
  run_front-empty none h = refl
  run_front-empty (some w) h = rw (h w refl) refl

  -- The exit of the only task panics.
  pub ended_alone :
      (t : ProcessControlBlock) (c : TaskRegisters) (w : World m)
      → w.task_list ≡ t ∷ []
      → ended c w ≡ none
  unfolding ended exit_task set_front_state schedule_inner schedule_from put_away
  ended_alone t c w e = rw e (
      run_front-empty
        (release_task m (record t { state = terminated }) t.task_type (record w { task_list = [] }))
        (λ w' r.
          release_task-task_list (record t { state = terminated }) t.task_type
            (record w { task_list = [] }) w' r))
