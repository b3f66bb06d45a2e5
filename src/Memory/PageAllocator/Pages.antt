-- ===== src/Memory/PageAllocator/Pages.antt =====
-- `allocate_pages` and `deallocate_pages`: a block of the allocator with its pages mapped.
pub mod RoundTrip
mod PagesTests
use locos.Prelude.{
  ℕ, ◌+◌, Option, none, some, List, ◌>>=◌, Result, ok, err, mul64, add64, next_power_of_two,
  step_by, non_null,
}
use locos.Memory.Mapper.{Mapper, Failure, no_frame, refused, map_loop, unmap_loop}
use locos.Memory.PageAllocator.{PageAllocator, get_level_from_size, get_free_block, merge_buddies}

-- `PageAllocLayout`
pub record PageAllocLayout : Type 0 where
  pub page : ℕ
  pub length : ℕ

-- The size that both methods round a number of pages to.
unfoldable pub block_bytes : ℕ → Option ℕ
unfolding next_power_of_two
block_bytes num_pages = do bytes ← mul64 num_pages 4096; next_power_of_two bytes

-- `.expect(...)` on an option
abbrev expect {ℓ} : {A : Type ℓ} → Option (Option A) → Option A
expect o = o >>= λ x. x

module _ (m : Mapper) where
  open m use {
    State, MapError, UnmapError, frame_allocation_failed, present, writable, join, page_of,
  }

  to_map_error : Failure MapError → MapError
  to_map_error no_frame = frame_allocation_failed
  to_map_error (refused e) = e

  -- The end of `allocate_pages`, from the outcome of its loop.
  allocated :
      PageAllocator
      → ℕ
      → ℕ
      → Result (Failure MapError) (Unit {0}) × State
      → Option (Result MapError PageAllocLayout × PageAllocator × State)
  unfolding to_map_error
  allocated s num_pages block (err e, st) = some (err (to_map_error e), s, st)
  allocated s num_pages block (ok u, st) = do
    page ← page_of block
    some (ok (record { page = page; length = num_pages }), s, st)

  -- `PageAllocator::allocate_pages`; `none` is a panic, which running out of blocks is too.
  pub allocate_pages :
      PageAllocator → State → ℕ → Option (Result MapError PageAllocLayout × PageAllocator × State)
  unfolding allocated
  allocate_pages s st num_pages = do
    size ← block_bytes num_pages
    level ← expect (get_level_from_size s size)
    got ← get_free_block s level
    block ← got.1
    end ← add64 block size
    mapped ← map_loop m (join present writable) (step_by block end 4096) st
    allocated got.0 num_pages block mapped

  -- The end of `deallocate_pages`, from the outcome of its loop.
  deallocated :
      PageAllocator
      → ℕ
      → ℕ
      → Result UnmapError (Unit {0}) × State
      → Option (Result UnmapError (Unit {0}) × PageAllocator × State)
  deallocated s level page (err e, st) = some (err e, s, st)
  deallocated s level page (ok u, st) = do
    ptr ← non_null page
    s' ← merge_buddies level s ptr
    some (ok tt, s', st)

  -- `PageAllocator::deallocate_pages`
  pub deallocate_pages :
      PageAllocator
      → State
      → PageAllocLayout
      → Option (Result UnmapError (Unit {0}) × PageAllocator × State)
  unfolding deallocated
  deallocate_pages s st info = do
    size ← block_bytes info.length
    level ← expect (get_level_from_size s size)
    end ← add64 info.page size
    undone ← unmap_loop m (step_by info.page end 4096) st
    deallocated s level info.page undone
