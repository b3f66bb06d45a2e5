-- ===== src/Tasks/KernelSlab/Reuse.antt =====
-- A returned kernel stack stays mapped, so the next `get_stack` cannot map it again.
use locos.Prelude.{
  ℕ, ◌+◌, ◌*◌, ◌≡◌, ◌≢◌, refl, arith, some, >>=-eq-some, some_injective, ok, err, [], ◌∷◌, step_by,
  step_by-steps, leb, Bool-cases, inl, inr,
}
use locos.Memory.Mapper.{Mapper, Mapped, map_loop}
use locos.Memory.Mapper.Laws.{IsOccupied, KeepsMapped, map_loop-occupies, map_loop_occupied}
use locos.Tasks.KernelSlab.{
  KernelSlabAlloc, block_start, kstack_size, trailing_ones, finish_stack, get_stack, return_stack,
}
use locos.Tasks.KernelSlab.Bitmap.{trailing_ones_same}
use locos.Tasks.KernelSlab.Stacks.{return_stack-get_stack}

-- The pages that `get_stack` maps are those of the block but the first.
stack_pages :
    (i : ℕ)
    → step_by (block_start i + 0x1000) (block_start i + kstack_size * 0x1000) 0x1000
      ≡ (block_start i + 0x1000)
        ∷ (block_start i + 0x1000 + 0x1000)
        ∷ (block_start i + 0x1000 + 0x1000 + 0x1000)
        ∷ []
stack_pages i = step_by-steps 3 _ _ _ (omega arith)

module _ (m : Mapper) where
  open m use {State, MapError, page_of}

  finish_stack-mapped :
      (a : KernelSlabAlloc) (i addr : ℕ) (r : Mapped m × State) (a' : KernelSlabAlloc) (st : State)
      → finish_stack m a i r ≡ (ok addr, a', st)
      → (r.0 ≡ ok tt) × (r.1 ≡ st)
  unfolding finish_stack
  finish_stack-mapped a i addr (err e, s) a' st h = ground arith
  finish_stack-mapped a i addr (ok u, s) a' st h = (refl, ground arith)

  -- The loop behind a `get_stack` that returned an address.
  get_stack-loop :
      (a a' : KernelSlabAlloc) (addr : ℕ) (st st' : State)
      → get_stack m a st ≡ some (ok addr, a', st')
      → let i = trailing_ones 128 a.block_bitmap in
        map_loop m
          (m.join m.present m.writable)
          (step_by (block_start i + 0x1000) (block_start i + kstack_size * 0x1000) 0x1000)
          st
        ≡ some (ok tt, st')
  unfolding get_stack
  get_stack-loop a a' addr st st' h =
      let i = trailing_ones 128 a.block_bitmap in
      elim (Bool-cases (leb 128 i)) [
        | inl full ↦ let h' = rw full at h in absurd (ground arith)
        | inr room ↦
            let h' = rw room at h in
            let (r, mapped, done) = >>=-eq-some (map_loop m _ _ st) _ h' in
            let (good, at) = finish_stack-mapped a i addr r a' st' (some_injective _ _ done) in
            ground arith
      ]

  -- With page tables that keep what is mapped: once a kernel stack has been returned, `get_stack`
  -- never returns an address, as long as nothing has unmapped a page in between.
  pub get_stack-return_stack :
      KeepsMapped m
      → (a a' a'' b : KernelSlabAlloc) (addr addr' : ℕ) (st st' mid end : State)
      → get_stack m a st ≡ some (ok addr, a', st')
      → return_stack a' addr ≡ some a''
      → ((page : ℕ) → IsOccupied m page st' → IsOccupied m page mid)
      → get_stack m a'' mid ≢ some (ok addr', b, end)
  get_stack-return_stack k a a' a'' b addr addr' st st' mid end got gave keeps again =
      let i = trailing_ones 128 a.block_bitmap in
      let (c, returned, same_bits) = return_stack-get_stack m a a' addr st st' got in
      let is_c : c ≡ a'' = ground arith in
      let same : trailing_ones 128 a''.block_bitmap ≡ i =
        trailing_ones_same 128 a''.block_bitmap a.block_bitmap (rw is_c at same_bits) in
      let first = rw (stack_pages i) at (get_stack-loop a a' addr st st' got) in
      let second = rw (stack_pages i) at (rw same at (get_stack-loop a'' b addr' mid end again)) in
      let (page, at, occupied) = map_loop-occupies m k _ _ _ st _ first refl in
      map_loop_occupied m k page _ _ _ mid _ at (keeps page occupied) second refl
