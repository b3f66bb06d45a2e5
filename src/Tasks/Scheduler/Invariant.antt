-- ===== src/Tasks/Scheduler/Invariant.antt =====
-- kernel/src/tasks/scheduler.rs: the states of the listed tasks, whatever the order of timer
-- interrupts, page faults and calls.
use locos.Prelude.{
  ℕ, ◌==◌, Bool-cases, inl, inr, Option, some, List, [], ◌∷◌, ◌++◌, All, All-append, ◌≡◌, sym, refl,
  Result, ok, err, >>=-eq-some, some_injective,
}
use locos.Memory.Mapper.{Mapper}
use locos.Tasks.KernelSlab.{KernelSlabAlloc, StackAllocError, get_stack}
use locos.Tasks.Scheduler.Exit.{release_task-task_list}
use locos.Tasks.Scheduler.UserTask.{
  UserMemory, CreateError, Created, ucreate_task, ucreate_task-Listed, ucreate_task-appends,
}
use locos.Tasks.Scheduler.Growth.{try_grow_user_stack-Grown, Grown-task_list}
use locos.Tasks.Scheduler.{
  TaskRegisters, TaskState, ready, running, terminated, waiting, interrupt, ProcessControlBlock,
  World, put_away, run_front, schedule_from, schedule_inner, set_front_state, kyield_task,
  exit_task, wake_tasks, woken, wake_state, kcreate_task, new_kernel_task, kinit_multitasking,
  StackGrowthError, try_grow_user_stack,
}

-- A task that is not running and has not ended.
abbrev pub IsParkedState : TaskState → Type 0
IsParkedState ready = Unit
IsParkedState running = ⊥
IsParkedState (waiting r) = Unit
IsParkedState terminated = ⊥

abbrev pub IsParked : ProcessControlBlock → Type 0
IsParked t = IsParkedState t.state

-- There is a first task, and every other is parked.
abbrev pub IsSettled : List ProcessControlBlock → Type 0
IsSettled [] = ⊥
IsSettled (t ∷ rest) = All IsParked rest

wake_state-IsParked : (n : ℕ) (s : TaskState) → IsParkedState s → IsParkedState (wake_state n s)
unfolding wake_state
wake_state-IsParked n ready h = tt
wake_state-IsParked n running h = h
wake_state-IsParked n terminated h = h
wake_state-IsParked n (waiting (interrupt k)) h = elim (Bool-cases (k == n)) [
  | inl e ↦ rw e tt
  | inr e ↦ rw e tt
]

woken-All : (n : ℕ) (ts : List ProcessControlBlock) → All IsParked ts → All IsParked (woken n ts)
unfolding woken
woken-All n [] h = tt
woken-All n (t ∷ ts) h = (wake_state-IsParked n t.state h.0, woken-All n ts h.1)

woken-IsSettled : (n : ℕ) (ts : List ProcessControlBlock) → IsSettled ts → IsSettled (woken n ts)
unfolding woken
woken-IsSettled n [] h = h
woken-IsSettled n (t ∷ ts) h = woken-All n ts h

append-IsSettled :
    (ts : List ProcessControlBlock) (t : ProcessControlBlock)
    → IsSettled ts
    → IsParked t
    → IsSettled (ts ++ t ∷ [])
append-IsSettled [] t h p = absurd h
append-IsSettled (u ∷ ts) t h p = All-append IsParked ts (t ∷ []) h (p, tt)

IsSettled-front :
    (ts ts' : List ProcessControlBlock)
    → (t t' : ProcessControlBlock) × (rest : List ProcessControlBlock) × (ts ≡ t ∷ rest)
      × (ts' ≡ t' ∷ rest)
    → IsSettled ts
    → IsSettled ts'
IsSettled-front ts ts' (t, t', rest, e, e') h = let h' = rw e at h in rw e' h'

module _ (m : Mapper) where
  set_front_state-IsSettled :
      (s : TaskState) (ts : List ProcessControlBlock) (w w' : World m)
      → set_front_state m s ts w ≡ some w'
      → IsSettled ts
      → IsSettled w'.task_list
  unfolding set_front_state
  set_front_state-IsSettled s [] w w' e h = absurd h
  set_front_state-IsSettled s (t ∷ ts) w w' e h = rw (sym (some_injective _ _ e)) h

  put_away-All :
      (s : TaskState) (t : ProcessControlBlock) (c : TaskRegisters) (w w' : World m)
      → put_away m s t c w ≡ some w'
      → t.state ≡ s
      → All IsParked w.task_list
      → All IsParked w'.task_list
  unfolding put_away
  put_away-All ready t c w w' e k h =
      rw (sym (some_injective _ _ e)) (All-append IsParked w.task_list _ h (tt, tt))
  put_away-All running t c w w' e k h =
      rw (sym (some_injective _ _ e)) (All-append IsParked w.task_list _ h (tt, tt))
  put_away-All (waiting r) t c w w' e k h =
      rw (sym (some_injective _ _ e)) (All-append IsParked w.task_list _ h (rw k tt, tt))
  put_away-All terminated t c w w' e k h = rw (release_task-task_list m t t.task_type w w' e) h

  run_front-IsSettled :
      (ts : List ProcessControlBlock) (w : World m) (r : World m × TaskRegisters)
      → run_front m ts w ≡ some r
      → All IsParked ts
      → IsSettled r.0.task_list
  unfolding run_front
  run_front-IsSettled [] w r e h = cc
  run_front-IsSettled (t ∷ ts) w r e h = rw (sym (some_injective _ _ e)) h.1

  schedule_from-IsSettled :
      (ts : List ProcessControlBlock) (c : TaskRegisters) (w : World m)
      (r : World m × TaskRegisters)
      → schedule_from m ts c w ≡ some r
      → IsSettled ts
      → IsSettled r.0.task_list
  unfolding schedule_from
  schedule_from-IsSettled [] c w r e h = absurd h
  schedule_from-IsSettled (t ∷ ts) c w r e h =
      let (w', put, run) =
        >>=-eq-some (put_away m t.state t c (record w { task_list = ts }))
          (λ v. run_front m v.task_list v) e in
      run_front-IsSettled w'.task_list w' r run
        (put_away-All t.state t c (record w { task_list = ts }) w' put refl h)

  new_kernel_task-IsSettled :
      (w w' : World m) (p : ℕ) (got : Result StackAllocError ℕ × KernelSlabAlloc × m.State)
      → new_kernel_task m w p got ≡ some w'
      → IsSettled w.task_list
      → IsSettled w'.task_list
  unfolding new_kernel_task
  new_kernel_task-IsSettled w w' p (err x, a, st) e h = cc
  new_kernel_task-IsSettled w w' p (ok s, a, st) e h =
      rw (sym (some_injective _ _ e)) (append-IsSettled w.task_list _ h tt)

  append-All :
      (ts ts' : List ProcessControlBlock) (t : ProcessControlBlock)
      → ts' ≡ ts ++ t ∷ []
      → IsParked t
      → All IsParked ts
      → All IsParked ts'
  append-All ts ts' t e p h = rw e (All-append IsParked ts (t ∷ []) h (p, tt))

  new_kernel_task-All :
      (w w' : World m) (p : ℕ) (got : Result StackAllocError ℕ × KernelSlabAlloc × m.State)
      → new_kernel_task m w p got ≡ some w'
      → All IsParked w.task_list
      → All IsParked w'.task_list
  unfolding new_kernel_task
  new_kernel_task-All w w' p (err x, a, st) e h = cc
  new_kernel_task-All w w' p (ok s, a, st) e h =
      rw (sym (some_injective _ _ e)) (append-All w.task_list _ _ refl tt h)

  module _ (u : UserMemory m) where
    -- The states before `kinit_multitasking`: tasks may be created, none runs.
    pub data Boot : World m → Type 0 where
      empty : (w : World m) → w.task_list ≡ [] → Boot w
      boot_kernel : (p : ℕ) (w w' : World m) → Boot w → kcreate_task m p w ≡ some w' → Boot w'
      boot_user :
          (entry_point : ℕ) (code : Option (List ℕ)) (w : World m) (o : Created m u)
          → Boot w
          → ucreate_task m u entry_point code w ≡ some o
          → Boot o.1

    -- What changes the scheduler then: a timer interrupt, the functions of the kernel, a page fault.
    pub data Move (w w' : World m) : Type 0 where
      tick : (c r : TaskRegisters) → schedule_inner m c w ≡ some (w', r) → Move w w'
      create : (p : ℕ) → kcreate_task m p w ≡ some w' → Move w w'
      create_user :
          (entry_point : ℕ) (code : Option (List ℕ))
          (r : Result (CreateError m.MapError) (Unit {0}))
          → ucreate_task m u entry_point code w ≡ some (r, w')
          → Move w w'
      yield : (n : ℕ) → kyield_task m n w ≡ some w' → Move w w'
      exit : exit_task m w ≡ some w' → Move w w'
      wake : (n : ℕ) → wake_tasks m n w ≡ w' → Move w w'
      grow :
          (addr : ℕ) (r : Result StackGrowthError (Unit {0}))
          → try_grow_user_stack m addr w ≡ some (r, w')
          → Move w w'

    -- The states that the kernel reaches from `kinit_multitasking` on.
    pub data Reach : World m → Type 0 where
      start : (w : World m) → Boot w → Reach (kinit_multitasking m w)
      next : (w w' : World m) → Reach w → Move w w' → Reach w'

    Boot-All : (w : World m) → Boot w → All IsParked w.task_list
    unfolding kcreate_task
    Boot-All w (empty _ e) = rw e tt
    Boot-All w' (boot_kernel p w _ b e) =
        let (got, _, f) = >>=-eq-some (get_stack m w.stacks w.frames) (new_kernel_task m w p) e in
        new_kernel_task-All w w' p got f (Boot-All w b)
    Boot-All _ (boot_user entry_point code w o b e) =
        elim (ucreate_task-appends m u w entry_point o
          (ucreate_task-Listed m u entry_point code w o e)) [
            | inl same ↦ rw same (Boot-All w b)
            | inr added ↦
                let (t, is_ready, listed) = added in
                append-All w.task_list o.1.task_list t listed (rw is_ready tt) (Boot-All w b)
          ]

    Move-IsSettled : (w w' : World m) → Move w w' → IsSettled w.task_list → IsSettled w'.task_list
    unfolding schedule_inner kcreate_task kyield_task exit_task wake_tasks
    Move-IsSettled w w' (tick c r e) h = schedule_from-IsSettled w.task_list c w (w', r) e h
    Move-IsSettled w w' (create p e) h =
        let (got, _, f) = >>=-eq-some (get_stack m w.stacks w.frames) (new_kernel_task m w p) e in
        new_kernel_task-IsSettled w w' p got f h
    Move-IsSettled w w' (create_user entry_point code r e) h =
        elim (ucreate_task-appends m u w entry_point (r, w')
          (ucreate_task-Listed m u entry_point code w (r, w') e)) [
            | inl same ↦ rw same h
            | inr added ↦
                let (t, is_ready, listed) = added in
                rw listed (append-IsSettled w.task_list t h (rw is_ready tt))
          ]
    Move-IsSettled w w' (yield n e) h = set_front_state-IsSettled _ w.task_list w w' e h
    Move-IsSettled w w' (exit e) h = set_front_state-IsSettled _ w.task_list w w' e h
    Move-IsSettled w w' (wake n e) h = rw (sym e) (woken-IsSettled n w.task_list h)
    Move-IsSettled w w' (grow addr r e) h =
        elim (Grown-task_list m addr w (r, w') (try_grow_user_stack-Grown m addr w (r, w') e)) [
          | inl same ↦ rw same h
          | inr counted ↦ IsSettled-front w.task_list w'.task_list counted h
        ]

    -- From any list of tasks that kernel and user task creations made out of the empty one, through
    -- `kinit_multitasking` and then any sequence of timer interrupts, creations of kernel and user
    -- tasks, yields, exits, wake-ups and page faults that do not panic, there is always a first task,
    -- and every other task is ready or waiting: only the first runs, and no ended task is kept behind
    -- it.
    pub Reach-IsSettled : (w : World m) → Reach w → IsSettled w.task_list
    unfolding kinit_multitasking
    Reach-IsSettled _ (start w b) = Boot-All w b
    Reach-IsSettled w' (next w _ r mv) = Move-IsSettled w w' mv (Reach-IsSettled w r)
