-- ===== src/Memory/Mapper.antt =====
-- What the allocators use of the page tables and of the global frame allocator: the crate `x86_64`
-- (`Page`, `PageTableFlags`, `OffsetPageTable::map_to`, `unmap`), and `FRAME_ALLOCATOR` behind its
-- lock. Pages and frames are their start addresses. TLB flushes are left out: nothing reads them.
pub mod Laws
pub mod Simple
use locos.Prelude.{ℕ, Option, none, some, List, [], ◌∷◌, ◌>>=◌, Result, ok, err}

pub record Mapper : Type 1 where
  pub State : Type 0
  pub MapError : Type 0
  pub UnmapError : Type 0
  pub frame_allocation_failed : MapError
  pub Flags : Type 0
  pub present : Flags
  pub writable : Flags
  pub user_accessible : Flags
  pub no_cache : Flags
  pub no_execute : Flags
  pub join : Flags → Flags → Flags
  -- `Page::containing_address(VirtAddr::new(a))`, a panic if `a` is not canonical
  pub page_of : ℕ → Option ℕ
  -- `PhysFrame::containing_address(PhysAddr::new(a))`, a panic if `a` has more than 52 bits
  pub frame_of : ℕ → Option ℕ
  pub allocate_frame : State → Option ℕ × State
  -- a panic if no allocator manages the frame
  pub deallocate_frame : ℕ → State → Option State
  pub map_to : ℕ → ℕ → Flags → State → Result MapError (Unit {0}) × State
  pub unmap : ℕ → State → Result UnmapError ℕ × State
  -- `map_to` in the page table at a frame, which `cr3` of a task names
  pub map_user : ℕ → ℕ → ℕ → Flags → State → Result MapError (Unit {0}) × State
  -- the frame of a present entry of the page table in a frame, read through the direct mapping; a
  -- panic if the entry is that of a huge page
  pub present_entry : ℕ → ℕ → State → Option (Option ℕ)

-- What ends a loop that maps fresh frames: no frame was left, or `map_to` failed.
pub data Failure {ℓ} (E : Type ℓ) : Type ℓ where
  no_frame : Failure E
  refused : E → Failure E

module _ (m : Mapper) where
  open m use {
    State, MapError, UnmapError, Flags, page_of, allocate_frame, deallocate_frame, map_to, unmap,
  }

  abbrev pub Mapped : Type 0
  Mapped = Result (Failure MapError) (Unit {0})

  -- `map_err` on the result of `map_to`.
  unfoldable pub refuse : Result MapError (Unit {0}) × State → Mapped × State
  refuse (ok u, st) = (ok tt, st)
  refuse (err e, st) = (err (refused e), st)

  -- The page of the address mapped to the frame, if there is one.
  unfoldable pub map_frame : Flags → ℕ → Option ℕ × State → Option (Mapped × State)
  map_frame flags addr (none, st) = some (err no_frame, st)
  map_frame flags addr (some frame, st) = do
    page ← page_of addr
    some (refuse (map_to page frame flags st))

  -- One round: a frame, and the page of the address mapped to it.
  unfoldable pub map_page : Flags → ℕ → State → Option (Mapped × State)
  map_page flags addr st = map_frame flags addr (allocate_frame st)

  -- The other rounds, after one: the `?` of the first failure ends the loop.
  abbrev pub and_then : (State → Option (Mapped × State)) → Mapped × State → Option (Mapped × State)
  and_then more (ok u, st) = more st
  and_then more (err e, st) = some (err e, st)

  -- The loop over page addresses.
  unfoldable pub map_loop : Flags → List ℕ → State → Option (Mapped × State)
  map_loop flags [] st = some (ok tt, st)
  map_loop flags (addr ∷ rest) st = do r ← map_page flags addr st; and_then (map_loop flags rest) r

  -- The loop of `deallocate_pages`: unmap each page and give its frame back.
  unfoldable pub unmap_loop : List ℕ → State → Option (Result UnmapError (Unit {0}) × State)
  unmap_loop [] st = some (ok tt, st)
  unmap_loop (addr ∷ rest) st = do
    page ← page_of addr
    let undone = unmap page st
    elim undone.0 [
      | err e ↦ some (err e, undone.1)
      | ok frame ↦ do st₂ ← deallocate_frame frame undone.1; unmap_loop rest st₂
    ]
