-- ===== src/Memory/FrameAllocator.antt =====
-- kernel/src/memory/paging.rs, `FrameBuddyAllocator`: a buddy allocator of frames whose free blocks are
-- nodes of the page list, one node of 32 bytes for each frame of the memory region. `none` is a panic.
pub mod Valid
pub mod Push
pub mod Alloc
pub mod Free
pub mod Start
mod Tests
use locos.Prelude.{
  ℕ, zero, suc, ◌+◌, ◌*◌, ◌/◌, ◌%◌, ◌^◌, Bool, true, false, Option, none, some, List, [], ◌∷◌,
  ◌>>=◌, ◌>>◌, ltb, leb, ◌==◌, if◌then◌else◌, get_elem?, set, replicate, assert, sub64, shl64,
  shr64, add64, mul64, non_null, bit_xor,
}
use locos.Memory.DoubleFreeList.{
  Nodes, DoubleFreeList, new_double_list, push, pop, remove, contains,
}
use locos.Memory.PageAllocator.{level_loop}

-- `FrameBuddyAllocator<L>`; `L` is the length of `free_lists`.
pub record FrameBuddyAllocator : Type 0 where
  pub free_lists : List DoubleFreeList
  pub levels : ℕ
  pub virt_start : ℕ
  pub virt_end : ℕ
  pub page_list_start : ℕ

-- The allocator and the page list that it writes to.
pub record Frames : Type 0 where
  pub allocator : FrameBuddyAllocator
  pub nodes : Nodes

-- `self.free_lists[level].push(ptr, level_size)`
pub push_block : Frames → ℕ → ℕ → ℕ → Option Frames
push_block s level ptr level_size = do
  list ← get_elem? s.allocator.free_lists level
  (list', nodes) ← push list s.nodes ptr level_size
  some (record {
    allocator = record s.allocator { free_lists = set s.allocator.free_lists level list' };
    nodes = nodes;
  })

-- `FrameBuddyAllocator::new`, with its parameter `L`
pub new : ℕ → ℕ → ℕ → ℕ → ℕ → Nodes → Option Frames
unfolding push_block
new max_levels levels start end page_list_start nodes = do
  assert (leb 2 levels)
  assert (start % 4096 == 0)
  assert (end % 4096 == 0)
  region_size ← sub64 end start
  shift ← sub64 levels 1
  blocks ← shl64 1 shift
  expected_size ← mul64 blocks 4096
  assert (region_size == expected_size)
  offset ← sub64 start page_list_start
  page_ptr ← non_null (offset / 4096 * 32 + page_list_start)
  push_block
      (record {
        allocator = record {
          free_lists = replicate max_levels new_double_list;
          levels = levels;
          virt_start = start;
          virt_end = end;
          page_list_start = page_list_start;
        };
        nodes = nodes;
      })
      0 page_ptr (region_size / 4096)

-- `FrameBuddyAllocator::block_size`, in frames
pub block_size : FrameBuddyAllocator → ℕ → Option ℕ
block_size s level = do size ← sub64 s.virt_end s.virt_start; shr64 (size / 4096) level

-- `FrameBuddyAllocator::get_level_from_size`, whose loop is that of the page allocator; the outer
-- option is a panic, the inner one the result.
pub get_level_from_size : FrameBuddyAllocator → ℕ → Option (Option ℕ)
get_level_from_size s size = do
  whole ← sub64 s.virt_end s.virt_start
  let found = level_loop s.levels s.levels size 0 whole
  some (if ltb found.1 size then none else some found.0)

abbrev pub Step : Type 0
Step = Option (Frames × Option ℕ)

-- The body of `get_free_block`, with `split_level` at the same level as its argument.
pub take_or_split : (Frames → Step) → Frames → ℕ → Step
take_or_split split s level = do
  list ← get_elem? s.allocator.free_lists level
  (block, list', nodes) ← pop list s.nodes
  let s' : Frames = record {
    allocator = record s.allocator { free_lists = set s.allocator.free_lists level list' };
    nodes = nodes;
  }
  elim block [ none ↦ split s' | some b ↦ some (s', some b) ]

-- What `split_level` does with the block that it got from the level above.
pub push_buddy : ℕ → Frames × Option ℕ → Step
unfolding block_size push_block
push_buddy level (s, none) = some (s, none)
push_buddy level (s, some block) = do
  size ← block_size s.allocator level
  bytes ← mul64 size 32
  buddy_addr ← add64 block bytes
  buddy ← non_null buddy_addr
  s' ← push_block s level buddy size
  some (s', some block)

-- `FrameBuddyAllocator::split_level`
pub split_level : ℕ → Frames → Step
unfolding take_or_split push_buddy
split_level zero s = some (s, none)
split_level (suc above) s = take_or_split (split_level above) s above >>= push_buddy (suc above)

-- `FrameBuddyAllocator::get_free_block`
pub get_free_block : Frames → ℕ → Step
unfolding take_or_split split_level
get_free_block s level = take_or_split (split_level level) s level

-- `FrameBuddyAllocator::merge_buddies`
pub merge_buddies : ℕ → Frames → ℕ → Option Frames
unfolding block_size push_block
merge_buddies zero s ptr = do size ← block_size s.allocator 0; push_block s 0 ptr size
merge_buddies (suc above) s ptr = do
  size ← block_size s.allocator (suc above)
  bytes ← mul64 size 32
  offset ← sub64 ptr s.allocator.page_list_start
  buddy_addr ← add64 s.allocator.page_list_start (bit_xor offset bytes)
  buddy ← non_null buddy_addr
  list ← get_elem? s.allocator.free_lists (suc above)
  elim (contains s.nodes buddy size) [
    | true ↦ do
      (list', nodes) ← remove list s.nodes buddy
      merge_buddies above
          (record {
            allocator = record s.allocator {
              free_lists = set s.allocator.free_lists (suc above) list';
            };
            nodes = nodes;
          })
          (if ltb buddy_addr ptr then buddy else ptr)
    | false ↦ push_block s (suc above) ptr size
  ]

-- The first frame of a block, from its node, and back.
pub frame_of_node : FrameBuddyAllocator → ℕ → Option ℕ
frame_of_node s block = do
  offset ← sub64 block s.page_list_start
  bytes ← mul64 (offset / 32) 4096
  add64 s.page_list_start bytes

pub node_of_frame : FrameBuddyAllocator → ℕ → Option ℕ
node_of_frame s addr = do
  offset ← sub64 addr s.page_list_start
  bytes ← mul64 (offset / 4096) 32
  node ← add64 s.page_list_start bytes
  non_null node

-- `FrameBuddyAllocator::allocate_contiguous_frames`
pub allocate_contiguous_frames : Frames → ℕ → Step
unfolding get_level_from_size get_free_block frame_of_node
allocate_contiguous_frames s frames = do
  size ← mul64 4096 frames
  found ← get_level_from_size s.allocator size
  elim found [
    | none ↦ some (s, none)
    | some level ↦ do
      (s', block) ← get_free_block s level
      elim block [
        | none ↦ some (s', none)
        | some b ↦ do page ← frame_of_node s'.allocator b; some (s', some page)
      ]
  ]

-- `FrameBuddyAllocator::deallocate_contiguous_frames`
pub deallocate_contiguous_frames : Frames → ℕ → ℕ → Option Frames
unfolding get_level_from_size merge_buddies node_of_frame
deallocate_contiguous_frames s addr frames = do
  ptr ← node_of_frame s.allocator addr
  size ← mul64 4096 frames
  found ← get_level_from_size s.allocator size
  level ← found
  merge_buddies level s ptr
