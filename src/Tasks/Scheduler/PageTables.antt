-- ===== src/Tasks/Scheduler/PageTables.antt =====
-- kernel/src/tasks/scheduler.rs: the frames that `deallocate_user_page_table_recursive` frees.
use locos.Prelude.{
  ℕ, zero, suc, Option, none, some, ◌>>=◌, List, [], ◌∷◌, ◌++◌, ◌≡◌, ◌∙◌, refl, >>=-eq-some,
  some_injective,
}
use locos.Memory.Mapper.{Mapper}
use locos.Tasks.Scheduler.{user_entries, free_entries, deallocate_user_page_table_recursive}

module _ (m : Mapper) where
  open m use {State, deallocate_frame, present_entry}

  -- Frames given back in the order of a list.
  unfoldable pub free_all : List ℕ → State → Option State
  free_all [] st = some st
  free_all (frame ∷ rest) st = do st₁ ← deallocate_frame frame st; free_all rest st₁

  -- The frames of the present entries of a table, each behind those that `below` lists for it.
  unfoldable pub entry_frames : (ℕ → Option (List ℕ)) → ℕ → List ℕ → State → Option (List ℕ)
  entry_frames below table [] st = some []
  entry_frames below table (i ∷ rest) st = do
    entry ← present_entry table i st
    elim entry [
      | none ↦ entry_frames below table rest st
      | some child ↦ do
        inner ← below child
        more ← entry_frames below table rest st
        some (inner ++ child ∷ more)
    ]

  -- The frames that the entries 0 to 255 of the tables reach below a table of a level from 1 on, in
  -- postorder, as the tables stand in one state; `none` if one of the entries is that of a huge page.
  unfoldable pub frames_below : ℕ → State → ℕ → Option (List ℕ)
  unfolding entry_frames
  frames_below zero st table = entry_frames (λ _. some []) table user_entries st
  frames_below (suc zero) st table = entry_frames (λ _. some []) table user_entries st
  frames_below (suc (suc level)) st table =
      entry_frames (frames_below (suc level) st) table user_entries st

  -- The same entries in all tables.
  abbrev pub SameTables : State → State → Type 0
  SameTables st st' = (table i : ℕ) → present_entry table i st' ≡ present_entry table i st

  -- Giving a frame back writes to no page table.
  abbrev pub KeepsTables : Type 0
  KeepsTables =
      (frame : ℕ) (st st' : State) → deallocate_frame frame st ≡ some st' → SameTables st st'

  -- A list given back is its first part and then the rest.
  free_all-append :
      (xs ys : List ℕ) (st st' : State)
      → free_all (xs ++ ys) st ≡ some st'
      → (st₁ : State) × (free_all xs st ≡ some st₁) × (free_all ys st₁ ≡ some st')
  unfolding free_all
  free_all-append [] ys st st' e = (st, refl, e)
  free_all-append (x ∷ xs) ys st st' e =
      let (st₁, freed, f) = >>=-eq-some (deallocate_frame x st) (free_all (xs ++ ys)) e in
      let (st₂, first, last) = free_all-append xs ys st₁ st' f in (st₂, rw freed first, last)

  module _ (keeps : KeepsTables) where
    free_all-SameTables :
        (xs : List ℕ) (st st' : State) → free_all xs st ≡ some st' → SameTables st st'
    unfolding free_all
    free_all-SameTables [] st st' e table i = rw (some_injective st st' e) refl
    free_all-SameTables (x ∷ xs) st st' e table i =
        let (st₁, freed, f) = >>=-eq-some (deallocate_frame x st) (free_all xs) e in
        free_all-SameTables xs st₁ st' f table i ∙ keeps x st st₁ freed table i

    -- What `below` does with a child, in any state with the tables of `st₀`.
    abbrev Frees : State → (ℕ → State → Option State) → (ℕ → Option (List ℕ)) → Type 0
    Frees st₀ below listed =
        (child : ℕ) (inner : List ℕ) (st st' : State)
        → SameTables st₀ st
        → listed child ≡ some inner
        → free_all inner st ≡ some st'
        → below child st ≡ some st'

    -- One entry, when the claim holds of those that follow.
    entry-Frees :
        (st₀ : State) (below : ℕ → State → Option State) (listed : ℕ → Option (List ℕ))
        → Frees st₀ below listed
        → (table : ℕ) (rest : List ℕ)
        → ((more : List ℕ) (st st' : State)
            → SameTables st₀ st
            → entry_frames listed table rest st₀ ≡ some more
            → free_all more st ≡ some st'
            → free_entries m below table rest st ≡ some st')
        → (frames : List ℕ) (st st' : State) → SameTables st₀ st
        → (entry : Option ℕ)
        → elim entry [
          | none ↦ entry_frames listed table rest st₀
          | some child ↦ listed child >>= λ inner.
              entry_frames listed table rest st₀ >>= λ more. some (inner ++ child ∷ more)
        ]
          ≡ some frames
        → free_all frames st ≡ some st'
        → elim entry [
          | none ↦ free_entries m below table rest st
          | some child ↦ below child st >>= λ st₁.
              deallocate_frame child st₁ >>= λ st₂. free_entries m below table rest st₂
        ]
          ≡ some st'
    unfolding free_all
    entry-Frees st₀ below listed h table rest ih frames st st' same none l e =
        ih frames st st' same l e
    entry-Frees st₀ below listed h table rest ih frames st st' same (some child) l e =
        let (inner, is_inner, l₂) = >>=-eq-some (listed child) _ l in
        let (more, is_more, l₃) = >>=-eq-some (entry_frames listed table rest st₀) _ l₂ in
        let all = rw (← some_injective _ frames l₃) at e in
        let (st₁, first, f) = free_all-append inner (child ∷ more) st st' all in
        let (st₂, second, last) = >>=-eq-some (deallocate_frame child st₁) (free_all more) f in
        let same₂ : SameTables st₀ st₂ = λ t j.
          keeps child st₁ st₂ second t j ∙ free_all-SameTables inner st st₁ first t j ∙ same t j in
        rw (h child inner st st₁ same is_inner first)
          (rw second (ih more st₂ st' same₂ is_more last))

    free_entries-Frees :
        (st₀ : State) (below : ℕ → State → Option State) (listed : ℕ → Option (List ℕ))
        → Frees st₀ below listed
        → (table : ℕ) (is frames : List ℕ) (st st' : State) → SameTables st₀ st
        → entry_frames listed table is st₀ ≡ some frames
        → free_all frames st ≡ some st'
        → free_entries m below table is st ≡ some st'
    unfolding free_entries entry_frames free_all
    free_entries-Frees st₀ below listed h table [] frames st st' same l e =
        rw (← some_injective [] frames l) at e
    free_entries-Frees st₀ below listed h table (i ∷ rest) frames st st' same l e =
        let (entry, here, l₁) = >>=-eq-some (present_entry table i st₀) _ l in
        rw (same table i ∙ here) (
          entry-Frees st₀ below listed h table rest
            (λ more st₁ st₂ same₁ l₂ e₂.
              free_entries-Frees st₀ below listed h table rest more st₁ st₂ same₁ l₂ e₂)
            frames st st' same entry l₁ e)

    leaf-Frees : (st₀ : State) → Frees st₀ (λ _ s. some s) (λ _. some [])
    unfolding free_all
    leaf-Frees st₀ child inner st st' same l e = rw (← some_injective [] inner l) at e

    recursive-Frees :
        (level : ℕ) (st₀ : State)
        → Frees st₀ (deallocate_user_page_table_recursive m level) (frames_below level st₀)
    unfolding deallocate_user_page_table_recursive frames_below
    recursive-Frees zero st₀ table frames st st' same l e =
        free_entries-Frees st₀ _ _ (leaf-Frees st₀) table user_entries frames st st' same l e
    recursive-Frees (suc zero) st₀ table frames st st' same l e =
        free_entries-Frees st₀ _ _ (leaf-Frees st₀) table user_entries frames st st' same l e
    recursive-Frees (suc (suc level)) st₀ table frames st st' same l e =
        free_entries-Frees st₀ _ _ (recursive-Frees (suc level) st₀) table user_entries frames st
          st' same l e

    -- Where giving a frame back writes to no page table: if no entry on the way is that of a huge
    -- page and the frames below a table can be given back in postorder, then the recursion, which
    -- reads the entries between its deallocations, gives back exactly them, in that order.
    pub deallocate_user_page_table_recursive-frees :
        (level table : ℕ) (frames : List ℕ) (st st' : State)
        → frames_below level st table ≡ some frames
        → free_all frames st ≡ some st'
        → deallocate_user_page_table_recursive m level table st ≡ some st'
    deallocate_user_page_table_recursive-frees level table frames st st' l e =
        recursive-Frees level st table frames st st' (λ t i. refl) l e

    pub free_table :
        (table : ℕ) (frames : List ℕ) (st st' : State)
        → frames_below 4 st table ≡ some frames
        → free_all (frames ++ table ∷ []) st ≡ some st'
        → (st₁ : State) × (deallocate_user_page_table_recursive m 4 table st ≡ some st₁)
          × (deallocate_frame table st₁ ≡ some st')
    unfolding free_all
    free_table table frames st st' l e =
        let (st₁, below, f) = free_all-append frames (table ∷ []) st st' e in
        let (st₂, itself, same) = >>=-eq-some (deallocate_frame table st₁) (free_all []) f in
        (
          st₁,
          deallocate_user_page_table_recursive-frees 4 table frames st st₁ l below,
          rw (← some_injective st₂ st' same) itself,
        )
