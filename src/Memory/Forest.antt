-- ===== src/Memory/Forest.antt =====
-- kernel/src/memory/paging.rs, `FrameBuddyAllocatorForest`: how `init` cuts the usable regions of the
-- memory map into frame allocators, and the choice of an allocator for a request. `none` is a panic.
pub mod Cut
mod Tests
use locos.Prelude.{
  ℕ, zero, suc, ◌+◌, ◌-◌, ◌*◌, ◌/◌, ◌%◌, ◌^◌, ◌≤◌, ◌<◌, ◌≡◌, ◌&&◌, refl, ap, arith, Bool,
  Bool-cases, inl, inr, true, false, Option, none, some, List, [], ◌∷◌, ◌>>=◌, ltb, leb, ◌==◌,
  if◌then◌else◌, add64, sub64, mul64, word,
}
use locos.Memory.DoubleFreeList.{Nodes}
use locos.Memory.FrameAllocator.{
  FrameBuddyAllocator, Frames, allocate_contiguous_frames, deallocate_contiguous_frames,
}

-- An element of `allocator_configs`, without the start of the page list, which is that of the region.
pub record Config : Type 0 where
  pub virt_start : ℕ
  pub frames : ℕ
  pub size_bytes : ℕ

-- The inner loop of `init`, which doubles `allocator_frames`, with the rounds left.
pub double_frames : ℕ → ℕ → ℕ → Option ℕ
double_frames zero frames remaining = none
double_frames (suc k) frames remaining =
    let next = double_frames k (frames * 2) remaining in
    if leb (frames * 2) remaining then next else some frames

-- The loop of `init` over one region, with the places left in `allocator_configs`.
pub cut_region : ℕ → ℕ → ℕ → ℕ → Option (List Config)
unfolding double_frames
cut_region zero min_frames start remaining = if leb min_frames remaining then none else some []
cut_region (suc places) min_frames start remaining = elim (leb min_frames remaining) [
  | false ↦ some []
  | true ↦ do
    frames ← double_frames 64 1 remaining
    bytes ← mul64 frames 4096
    next ← add64 start bytes
    rest ← cut_region places min_frames next (remaining - frames)
    some (record { virt_start = start; frames = frames; size_bytes = bytes } ∷ rest)
]

-- `FrameBuddyAllocatorForest`; all allocators write to the nodes of their page lists.
pub record FrameBuddyAllocatorForest : Type 0 where
  pub allocators : List FrameBuddyAllocator
  pub hddm_offset : ℕ

-- The loop of `allocate_contiguous_pages`: the first allocator that has a block.
pub allocate_from :
    List FrameBuddyAllocator → Nodes → ℕ → Option (List FrameBuddyAllocator × Nodes × Option ℕ)
allocate_from [] nodes pages = some ([], nodes, none)
allocate_from (a ∷ rest) nodes pages = do
  (s, page) ← allocate_contiguous_frames (record { allocator = a; nodes = nodes }) pages
  elim page [
    | some addr ↦ some (s.allocator ∷ rest, s.nodes, some addr)
    | none ↦ do
      (rest', nodes', found) ← allocate_from rest s.nodes pages
      some (s.allocator ∷ rest', nodes', found)
  ]

-- The loop of `deallocate_contiguous_pages`: the first allocator that manages the address.
pub deallocate_to :
    List FrameBuddyAllocator → Nodes → ℕ → ℕ → Option (List FrameBuddyAllocator × Nodes)
deallocate_to [] nodes addr pages = none
deallocate_to (a ∷ rest) nodes addr pages = elim (leb a.virt_start addr && ltb addr a.virt_end) [
  | true ↦ do
    s ← deallocate_contiguous_frames (record { allocator = a; nodes = nodes }) addr pages
    some (s.allocator ∷ rest, s.nodes)
  | false ↦ do (rest', nodes') ← deallocate_to rest nodes addr pages; some (a ∷ rest', nodes')
]
