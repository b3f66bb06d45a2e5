-- ===== src/Tasks/Scheduler/Rotation.antt =====
-- kernel/src/tasks/scheduler.rs: the order in which `schedule_inner` runs the tasks, and the
-- registers that each goes on with.
use locos.Prelude.{
  Option, some, ◌>>=◌, List, [], ◌∷◌, ◌++◌, map, length, length-append, ◌≡◌, refl, arith,
}
use mathlib.Core.List.{append_assoc, append-nil, map-append}
use locos.Memory.Mapper.{Mapper}
use locos.Tasks.Scheduler.{
  TaskRegisters, TaskState, ready, running, terminated, waiting, ProcessControlBlock, World,
  put_away, run_front, schedule_from, schedule_inner, set_stacks,
}

-- A task that has not ended.
abbrev pub IsLiveState : TaskState → Type 0
IsLiveState ready = Unit
IsLiveState running = Unit
IsLiveState (waiting r) = Unit
IsLiveState terminated = ⊥

abbrev pub IsLive : ProcessControlBlock → Type 0
IsLive t = IsLiveState t.state

-- The registers that a task goes on with.
abbrev pub saved_regs : ProcessControlBlock → TaskRegisters
saved_regs t = t.regs

module _ (m : Mapper) where
  -- The running task as `schedule_inner` puts it back.
  abbrev pub Parked : ProcessControlBlock → TaskRegisters → World m → Option (World m) → Type 0
  Parked t context w o =
      (t' : ProcessControlBlock) × IsLive t'
      × (t'.regs ≡ context)
      × (o ≡ some (record w { task_list = w.task_list ++ t' ∷ [] }))

  put_away-live :
      (s : TaskState) (t : ProcessControlBlock) (context : TaskRegisters) (w : World m)
      → t.state ≡ s
      → IsLiveState s
      → Parked t context w (put_away m s t context w)
  unfolding put_away
  put_away-live ready t context w e h = (record t { state = ready; regs = context }, tt, refl, refl)
  put_away-live running t context w e h =
      (record t { state = ready; regs = context }, tt, refl, refl)
  put_away-live (waiting r) t context w e h = (record t { regs = context }, rw e tt, refl, refl)
  put_away-live terminated t context w e h = elim h [ ]

  -- One switch of tasks: the next task goes on, the old one is last with its registers saved.
  abbrev pub Switched :
      List ProcessControlBlock
      → ProcessControlBlock
      → TaskRegisters
      → Option (World m × TaskRegisters)
      → Type 0
  Switched rest next context o =
      (w' : World m) × (next' : ProcessControlBlock) × (old : ProcessControlBlock) × IsLive next'
      × IsLive old
      × (old.regs ≡ context)
      × (w'.task_list ≡ next' ∷ rest ++ old ∷ [])
      × (o ≡ some (w', next.regs))

  pub schedule_inner-Switched :
      (t next : ProcessControlBlock) (rest : List ProcessControlBlock) (context : TaskRegisters)
      (w : World m)
      → w.task_list ≡ t ∷ next ∷ rest
      → IsLive t
      → Switched rest next context (schedule_inner m context w)
  unfolding schedule_inner schedule_from run_front
  schedule_inner-Switched t next rest context w e h =
      let (old, live, saved, parked) =
        put_away-live t.state t context (record w { task_list = next ∷ rest }) refl h in
      (
        record (set_stacks m next.task_type (record w { task_list = next ∷ rest ++ old ∷ [] })) {
          task_list = record next { state = running } ∷ rest ++ old ∷ [];
          cr3 = next.cr3;
        },
        record next { state = running },
        old,
        tt,
        live,
        saved,
        refl,
        rw (e, parked),
      )

  -- The same, of the only task.
  pub schedule_inner-alone :
      (t : ProcessControlBlock) (context : TaskRegisters) (w : World m)
      → w.task_list ≡ t ∷ []
      → IsLive t
      → (w' : World m) × (schedule_inner m context w ≡ some (w', context))
  unfolding schedule_inner schedule_from run_front
  schedule_inner-alone t context w e h =
      let (old, live, saved, parked) =
        put_away-live t.state t context (record w { task_list = [] }) refl h in
      (
        record (set_stacks m old.task_type (record w { task_list = old ∷ [] })) {
          task_list = record old { state = running } ∷ [];
          cr3 = old.cr3;
        },
        rw (e, parked, saved),
      )

  -- Switches one after another, the running task interrupted each time with the next of the
  -- contexts: the registers that are gone on with.
  pub schedules : List TaskRegisters → World m → Option (World m × List TaskRegisters)
  schedules [] w = some (w, [])
  schedules (c ∷ cs) w = do r ← schedule_inner m c w; rs ← schedules cs r.0; some (rs.0, r.1 ∷ rs.1)

  abbrev pub Resumed : List TaskRegisters → Option (World m × List TaskRegisters) → Type 0
  Resumed regs o = (w' : World m) × (o ≡ some (w', regs))

  pub schedules-map :
      (t : ProcessControlBlock) (xs ys : List ProcessControlBlock) (cs : List TaskRegisters)
      (w : World m)
      → w.task_list ≡ t ∷ xs ++ ys
      → IsLive t
      → length cs ≡ length xs
      → Resumed (map saved_regs xs) (schedules cs w)
  unfolding schedules
  schedules-map t [] ys [] w e h n = (w, refl)
  schedules-map t [] ys (c ∷ cs) w e h n = absurd (omega (arith, n))
  schedules-map t (x ∷ xs) ys [] w e h n = absurd (omega (arith, n))
  schedules-map t (x ∷ xs) ys (c ∷ cs) w e h n =
      let (w', x', old, live, _, _, list, go) = schedule_inner-Switched t x (xs ++ ys) c w e h in
      let (w'', r) =
        schedules-map x' xs (ys ++ old ∷ []) cs w' (rw (list, append_assoc xs ys (old ∷ [])) refl)
          live (omega (arith, n)) in
      (w'', rw (go, r) refl)

  schedules-cons :
      (c : TaskRegisters) (cs rs : List TaskRegisters) (r : TaskRegisters) (w w' : World m)
      → schedule_inner m c w ≡ some (w', r)
      → Resumed rs (schedules cs w')
      → Resumed (r ∷ rs) (schedules (c ∷ cs) w)
  unfolding schedules
  schedules-cons c cs rs r w w' go later = (later.0, rw (go, later.1))

  -- From a running task that has not ended, as many switches as there are tasks resume each of the
  -- other tasks, in the order of the list and with its saved registers, then the first task with
  -- the registers that it was interrupted with; none of them panics.
  pub schedules-round :
      (t : ProcessControlBlock) (xs : List ProcessControlBlock) (c : TaskRegisters)
      (cs : List TaskRegisters) (w : World m)
      → w.task_list ≡ t ∷ xs
      → IsLive t
      → length cs ≡ length xs
      → Resumed (map saved_regs xs ++ c ∷ []) (schedules (c ∷ cs) w)
  unfolding schedules
  schedules-round t [] c [] w e h n =
      let (w', go) = schedule_inner-alone t c w e h in schedules-cons c [] [] c w w' go (w', refl)
  schedules-round t [] c (d ∷ ds) w e h n = absurd (omega (arith, n))
  schedules-round t (x ∷ xs) c cs w e h n =
      let (w', x', old, live, _, saved, list, go) = schedule_inner-Switched t x xs c w e h in
      let (w'', later) =
        schedules-map x' (xs ++ old ∷ []) [] cs w' (rw (list, append-nil (xs ++ old ∷ [])) refl)
          live (omega (arith, n, length-append xs (old ∷ []))) in
      schedules-cons c cs (map saved_regs xs ++ c ∷ []) x.regs w w' go
        (w'', rw (later, map-append saved_regs xs (old ∷ []), saved) refl)
