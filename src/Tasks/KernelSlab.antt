-- ===== src/Tasks/KernelSlab.antt =====
-- kernel/src/tasks/kernelslab.rs: the bitmap of kernel stacks, and the pages of user stacks.
pub mod Bitmap
pub mod Stacks
pub mod Reuse
mod Tests
use locos.Prelude.{
  ℕ, zero, suc, ◌+◌, ◌-◌, ◌*◌, ◌/◌, ◌%◌, ◌^◌, bit_and, bit_or, Option, none, some, ◌>>=◌, ◌>>◌,
  Result, ok, err, ltb, leb, ◌==◌, not, ◌&&◌, if◌then◌else◌, assert, sub64, mul64, step_by, List,
  [], ◌∷◌,
}
use locos.Memory.Mapper.{Mapper, Failure, no_frame, refused, map_loop}

abbrev pub kernel_tasks_start : ℕ
kernel_tasks_start = 0xFFFF_F300_0000_0000

abbrev pub user_stacks_start : ℕ
user_stacks_start = 0x0000_7fff_ffff_0000

abbrev pub ustack_size : ℕ
ustack_size = 512

abbrev pub initial_stack_pages : ℕ
initial_stack_pages = 4

-- `KSTACK_SIZE` of scheduler.rs, in pages.
abbrev pub kstack_size : ℕ
kstack_size = 4

-- `StackAllocError`
pub data StackAllocError : Type 0 where
  frame_error map_error : StackAllocError

-- `KernelSlabAlloc`; the bitmap is a `u128`.
pub record KernelSlabAlloc : Type 0 where
  pub block_bitmap : ℕ

-- `KernelSlabAlloc::new`
abbrev pub new : KernelSlabAlloc
new = record { block_bitmap = 0 }

-- `u128::trailing_ones`, with the number of bits left to look at.
unfoldable pub trailing_ones : ℕ → ℕ → ℕ
trailing_ones zero w = 0
trailing_ones (suc n) w = let rest = suc (trailing_ones n (w / 2)) in if w % 2 == 1 then rest else 0

-- The first address of a block: its guard page.
abbrev pub block_start : ℕ → ℕ
block_start index = kernel_tasks_start + index * kstack_size * 0x1000

-- `(block_start + (KSTACK_SIZE as u64 * 0x1000) - 1) & !0xF`
abbrev pub stack_top : ℕ → ℕ
stack_top index = bit_and (block_start index + kstack_size * 0x1000 - 1) 0xFFFF_FFFF_FFFF_FFF0

-- The error that `?` and `map_err` make of a failed round of the mapping loop.
abbrev pub stack_error {ℓ} : {E : Type ℓ} → Failure E → StackAllocError
stack_error no_frame = frame_error
stack_error (refused e) = map_error

-- `KernelSlabAlloc::return_stack`; `none` is the failed assertion, or the underflow below the region.
unfoldable pub return_stack : KernelSlabAlloc → ℕ → Option KernelSlabAlloc
return_stack a stack_addr = do
  offset ← sub64 stack_addr kernel_tasks_start
  let block_index = bit_and offset 0xFFFF_FFFF_FFFF_C000 / (kstack_size * 0x1000)
  assert (ltb block_index 128 && not (bit_and a.block_bitmap (2 ^ block_index) == 0))
  some (record a { block_bitmap = bit_and a.block_bitmap (2 ^ 128 - 1 - 2 ^ block_index) })

-- `UserStackAllocation`
pub record UserStackAllocation : Type 0 where
  pub stack_start : ℕ
  pub stack_end : ℕ
  pub stack_size : ℕ

module _ (m : Mapper) where
  open m use {State, MapError, present, writable, user_accessible, join}

  abbrev pub StackResult : Type 0
  StackResult = Result StackAllocError ℕ × KernelSlabAlloc × State

  -- The end of `get_stack`, from the outcome of its loop.
  unfoldable pub finish_stack :
      KernelSlabAlloc → ℕ → Result (Failure MapError) (Unit {0}) × State → StackResult
  finish_stack a index (err e, st) = (err (stack_error e), a, st)
  finish_stack a index (ok u, st) =
      (ok (stack_top index), record a { block_bitmap = bit_or a.block_bitmap (2 ^ index) }, st)

  -- `KernelSlabAlloc::get_stack`
  unfoldable pub get_stack : KernelSlabAlloc → State → Option StackResult
  get_stack a st =
      let index = trailing_ones 128 a.block_bitmap in
      let start = block_start index in
      let mapped =
        map_loop m (join present writable)
          (step_by (start + 0x1000) (start + kstack_size * 0x1000) 0x1000) st in
      if leb 128 index
      then some (err frame_error, a, st)
      else (mapped >>= λ r. some (finish_stack a index r))

  -- `get_user_stack`, with the state of the user's page table and of the frames.
  unfoldable pub get_user_stack :
      State → Option (Result StackAllocError UserStackAllocation × State)
  get_user_stack st = do
    let stack_end = user_stacks_start - initial_stack_pages * 0x1000
    r ←
        map_loop m (join (join present writable) user_accessible)
          (step_by stack_end user_stacks_start 0x1000) st
    let max_stack_end = user_stacks_start - ustack_size * 0x1000
    some (
      elim r.0 [
        | err e ↦ err (stack_error e)
        | ok u ↦ ok (record {
          stack_start = user_stacks_start;
          stack_end = max_stack_end;
          stack_size = initial_stack_pages;
        })
      ],
      r.1,
    )

  -- The loop of `return_user_stack`: a page that cannot be unmapped is passed over.
  pub return_loop : List ℕ → State → Option State
  return_loop [] st = some st
  return_loop (addr ∷ rest) st = do
    page ← m.page_of addr
    let undone = m.unmap page st
    elim undone.0 [
      | err e ↦ return_loop rest undone.1
      | ok frame ↦ do st₂ ← m.deallocate_frame frame undone.1; return_loop rest st₂
    ]

  -- `return_user_stack`, of `UserInfo` the start and the size in pages.
  pub return_user_stack : ℕ → ℕ → State → Option State
  return_user_stack stack_start stack_size st = do
    bytes ← mul64 stack_size 0x1000
    actual_stack_bottom ← sub64 stack_start bytes
    return_loop (step_by actual_stack_bottom stack_start 0x1000) st
