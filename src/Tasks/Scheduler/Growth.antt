-- ===== src/Tasks/Scheduler/Growth.antt =====
-- kernel/src/tasks/scheduler.rs: `try_grow_user_stack`, on a page fault.
use locos.Prelude.{
  ℕ, ◌+◌, ◌≤◌, ◌<◌, Bool-cases, inl, inr, ◌⊎◌, arith, Option, none, some, ◌≡◌, sym, ap, refl,
  Result, ok, err, >>=-eq-some, some_injective, ltb, leb, add64, List, [], ◌∷◌,
}
use locos.Memory.Mapper.{Mapper}
use locos.Tasks.Scheduler.{
  ProcessControlBlock, TaskType, kernel, user, UserInfo, World, StackGrowthError, stack_overflow,
  stack_underflow, not_user_task, other, try_grow_user_stack, grow_within, grow_at, finish_growth,
  count_page, count_for, get_current_task_stack_info,
}

module _ (m : Mapper) where
  open m use {
    State, MapError, present, writable, user_accessible, join, deallocate_frame, allocate_frame,
    map_user, page_of,
  }

  abbrev pub Outcome : Type 0
  Outcome = Result StackGrowthError (Unit {0}) × World m

  -- The front task is a user task that faulted within its stack's bounds.
  abbrev pub Within :
      ℕ → World m → ProcessControlBlock → UserInfo → List ProcessControlBlock → Type 0
  Within addr w t info rest =
      (w.task_list ≡ t ∷ rest)
      × (t.task_type ≡ user info)
      × (info.stack_end ≤ addr)
      × (addr < info.stack_start)

  -- The attempt to map the page of the address in the page table of the front task.
  abbrev pub attempt : ℕ → ℕ → ℕ → State → Result MapError (Unit {0}) × State
  attempt table page frame st =
      map_user table page frame (join (join present writable) user_accessible) st

  -- The task with the page counted.
  abbrev pub grown_task : ProcessControlBlock → UserInfo → ProcessControlBlock
  grown_task t info = record t {
    task_type = user (record info { stack_size = info.stack_size + 1 });
  }

  -- Of a page fault at an address, what each result of the attempt means.
  abbrev pub Grown : ℕ → World m → Outcome → Type 0
  Grown addr w (ok v, w') =
      (t : ProcessControlBlock) × (info : UserInfo) × (rest : List ProcessControlBlock) × (page
        frame : ℕ)
      × (st : State) × Within addr w t info rest
      × (page_of addr ≡ some page)
      × (allocate_frame w.frames ≡ (some frame, st))
      × (attempt t.cr3 page frame st ≡ (ok v, w'.frames))
      × (w' ≡ record w { task_list = grown_task t info ∷ rest; frames = w'.frames })
  Grown addr w (err stack_overflow, w') =
      (w' ≡ w)
      × (t : ProcessControlBlock) × (info : UserInfo) × (rest : List ProcessControlBlock)
      × (w.task_list ≡ t ∷ rest)
      × (t.task_type ≡ user info)
      × (addr < info.stack_end)
  Grown addr w (err stack_underflow, w') =
      (w' ≡ w)
      × (t : ProcessControlBlock) × (info : UserInfo) × (rest : List ProcessControlBlock)
      × (w.task_list ≡ t ∷ rest)
      × (t.task_type ≡ user info)
      × (info.stack_end ≤ addr)
      × (info.stack_start ≤ addr)
  Grown addr w (err not_user_task, w') =
      (w' ≡ w)
      × ((t : ProcessControlBlock) (info : UserInfo) (rest : List ProcessControlBlock)
          → w.task_list ≡ t ∷ rest
          → ¬ (t.task_type ≡ user info))
  Grown addr w (err other, w') =
      (w' ≡ record w { frames = w'.frames })
      × (t : ProcessControlBlock) × (info : UserInfo) × (rest : List ProcessControlBlock)
      × (page : ℕ) × (st : State) × Within addr w t info rest
      × (page_of addr ≡ some page)
      × ((allocate_frame w.frames ≡ (none, w'.frames))
          ⊎ ((frame : ℕ) × (x : MapError) × (st₁ : State) × (allocate_frame w.frames
                ≡ (some frame, st))
              × (attempt t.cr3 page frame st ≡ (err x, st₁))
              × (deallocate_frame frame st₁ ≡ some w'.frames)))

  count_user :
      (t t' : ProcessControlBlock) (info : UserInfo) (ty : TaskType)
      → ty ≡ user info
      → count_for t ty ≡ some t'
      → t' ≡ grown_task t info
  unfolding count_for
  count_user t t' info ty is_user c =
      let (size, sum, f) =
        >>=-eq-some (add64 info.stack_size 1)
          (λ n. some (record t { task_type = user (record info { stack_size = n }) }))
          (rw is_user at c) in
      let same : size ≡ info.stack_size + 1 = ground (arith, sum) in
      rw (sym (some_injective _ _ f)) (rw same refl)

  count_front :
      (t : ProcessControlBlock) (info : UserInfo) (rest ts tasks : List ProcessControlBlock)
      → ts ≡ t ∷ rest
      → t.task_type ≡ user info
      → count_page ts ≡ some tasks
      → tasks ≡ grown_task t info ∷ rest
  unfolding count_page
  count_front t info rest ts tasks front is_user c =
      let (t', one, f) =
        >>=-eq-some (count_for t t.task_type) (λ t'. some (t' ∷ rest)) (rw front at c) in
      rw (sym (some_injective _ _ f)) (rw (count_user t t' info t.task_type is_user one) refl)

  module _ (addr : ℕ) (w : World m) (t : ProcessControlBlock) (info : UserInfo)
      (rest : List ProcessControlBlock) (page : ℕ) (within : Within addr w t info rest)
      (at : page_of addr ≡ some page) where
    finish_growth-Grown :
        (frame : ℕ) (st : State) (r : Result MapError (Unit {0}) × State) (o : Outcome)
        → allocate_frame w.frames ≡ (some frame, st)
        → attempt t.cr3 page frame st ≡ r
        → finish_growth m frame w r ≡ some o
        → Grown addr w o
    unfolding finish_growth
    finish_growth-Grown frame st (ok v, st₁) o got mapped e =
        let (tasks, c, f) =
          >>=-eq-some (count_page w.task_list)
            (λ tasks. some (ok tt, record w { task_list = tasks; frames = st₁ })) e in
        let counted = count_front t info rest w.task_list tasks within.0 within.1 c in
        rw (sym (some_injective _ _ f))
          (t, info, rest, page, frame, st, within, at, got, mapped, rw counted refl)
    finish_growth-Grown frame st (err x, st₁) o got mapped e =
        let (st₂, c, f) =
          >>=-eq-some (deallocate_frame frame st₁)
            (λ st₂. some (err other, record w { frames = st₂ })) e in
        rw (sym (some_injective _ _ f))
          (refl, t, info, rest, page, st, within, at, inr (frame, x, st₁, got, mapped, c))

    grow_at-Grown :
        (r : Option ℕ × State) (o : Outcome)
        → allocate_frame w.frames ≡ r
        → grow_at m page t.cr3 w r ≡ some o
        → Grown addr w o
    unfolding grow_at
    grow_at-Grown (none, st) o got e =
        rw (sym (some_injective _ _ e)) (refl, t, info, rest, page, st, within, at, inl got)
    grow_at-Grown (some frame, st) o got e = finish_growth-Grown frame st _ o got refl e

  module _ (addr : ℕ) (w : World m) (o : Outcome) where
    user_front-Grown :
        (t : ProcessControlBlock) (info : UserInfo) (rest : List ProcessControlBlock)
        → w.task_list ≡ t ∷ rest
        → t.task_type ≡ user info
        → grow_within m addr w (some (info.stack_end, info.stack_start, t.cr3)) ≡ some o
        → Grown addr w o
    unfolding grow_within
    user_front-Grown t info rest front is_user e = elim (Bool-cases (ltb addr info.stack_end)) [
      | inl low ↦
          rw (sym (some_injective _ _ (rw (low) at e)))
            (refl, t, info, rest, front, is_user, ground (arith, low))
      | inr above ↦ elim (Bool-cases (leb info.stack_start addr)) [
        | inl high ↦
            rw (sym (some_injective _ _ (rw (above, high) at e)))
              (refl, t, info, rest, front, is_user, ground (arith, above), ground (arith, high))
        | inr below ↦
            let (page, at, f) =
              >>=-eq-some (page_of addr) (λ p. grow_at m p t.cr3 w (allocate_frame w.frames))
                (rw (above, below) at e) in
            grow_at-Grown addr w t info rest page
              (front, is_user, ground (arith, above), ground (arith, below)) at
              (allocate_frame w.frames) o refl f
      ]
    ]

    by_type-Grown :
        (t : ProcessControlBlock) (rest : List ProcessControlBlock) (ty : TaskType)
        → w.task_list ≡ t ∷ rest
        → t.task_type ≡ ty
        → grow_within m addr w (get_current_task_stack_info (t ∷ rest)) ≡ some o
        → Grown addr w o
    unfolding grow_within get_current_task_stack_info
    by_type-Grown t rest (kernel k) front is_kernel e =
        rw (sym (some_injective _ _ (rw is_kernel at e))) (refl, λ t' info rest' front' is_user. cc)
    by_type-Grown t rest (user info) front is_user e =
        user_front-Grown t info rest front is_user (rw is_user at e)

    by_front-Grown :
        (ts : List ProcessControlBlock)
        → w.task_list ≡ ts
        → grow_within m addr w (get_current_task_stack_info ts) ≡ some o
        → Grown addr w o
    unfolding grow_within get_current_task_stack_info
    by_front-Grown [] front e =
        rw (sym (some_injective _ _ e)) (refl, λ t info rest front' is_user. cc)
    by_front-Grown (t ∷ rest) front e = by_type-Grown t rest t.task_type front refl e

  -- Whatever `try_grow_user_stack` returns on a page fault at an address. On success the front task is
  -- a user task, the address lies from its stack's end up to before its start, a fresh frame was
  -- mapped to the page of the address in the page table of that task, present, writable and
  -- accessible to user code, and the task counts one page more, with nothing else changed. Below the
  -- end it is the overflow error, at the start or above the underflow error, and without a user task
  -- in front the error that says so, with nothing changed. The other error means that there was no
  -- frame, or that the page was not mapped and the frame was given back, with the tasks as they were.
  pub try_grow_user_stack-Grown :
      (addr : ℕ) (w : World m) (o : Outcome)
      → try_grow_user_stack m addr w ≡ some o
      → Grown addr w o
  unfolding try_grow_user_stack
  try_grow_user_stack-Grown addr w o e = by_front-Grown addr w o w.task_list refl e

  -- The tasks after the attempt: the same, or the front one changed.
  pub Grown-task_list :
      (addr : ℕ) (w : World m) (o : Outcome)
      → Grown addr w o
      → (o.1.task_list ≡ w.task_list)
        ⊎ ((t t' : ProcessControlBlock) × (rest : List ProcessControlBlock) × (w.task_list
              ≡ t ∷ rest)
            × (o.1.task_list ≡ t' ∷ rest))
  Grown-task_list addr w (ok v, w')
        (t, info, rest, page, frame, st, within, at, got, mapped, left) =
      inr (t, grown_task t info, rest, within.0, ap (λ v. v.task_list) left)
  Grown-task_list addr w (err stack_overflow, w') h = inl (ap (λ v. v.task_list) h.0)
  Grown-task_list addr w (err stack_underflow, w') h = inl (ap (λ v. v.task_list) h.0)
  Grown-task_list addr w (err not_user_task, w') h = inl (ap (λ v. v.task_list) h.0)
  Grown-task_list addr w (err other, w') h = inl (ap (λ v. v.task_list) h.0)
