-- ===== src/Memory/PageAllocator.antt =====
-- kernel/src/memory/alloc.rs, `PageAllocator`: a buddy allocator of virtual pages over one
-- `VecDeque` of free blocks for each level. A pointer is its address; `none` is a panic.
pub mod Valid
pub mod Alloc
pub mod Free
pub mod Level
pub mod History
pub mod Start
pub mod Undo
pub mod Merged
pub mod Pages
pub mod Tests
use locos.Prelude.{
  ℕ, zero, suc, ◌+◌, ◌/◌, ◌%◌, ◌^◌, bit_xor, ◌&&◌, Option, none, some, List, [], ◌∷◌, ◌++◌, ◌>>=◌,
  ◌>>◌, ltb, ◌==◌, if◌then◌else◌, get_elem?, set, replicate, assert, add64, sub64, mul64, shl64,
  shr64, non_null, position, remove_at,
}

-- `PageAllocator`
pub record PageAllocator : Type 0 where
  pub heap_start : ℕ
  pub heap_end : ℕ
  pub levels : ℕ
  pub free_lists : List (List ℕ)

-- `PageAllocator::max_size`
pub max_size : PageAllocator → Option ℕ
max_size s = sub64 s.heap_end s.heap_start

-- `PageAllocator::block_size`
pub block_size : PageAllocator → ℕ → Option ℕ
unfolding max_size
block_size s level = do size ← max_size s; shr64 size level

-- `PageAllocator::new`
pub new : ℕ → ℕ → ℕ → Option PageAllocator
new virt_start virt_end levels = do
  assert (virt_start % 4096 == 0)
  assert (virt_end % 4096 == 0)
  region_size ← sub64 virt_end virt_start
  shift ← sub64 levels 1
  blocks ← shl64 1 shift
  expected_size ← mul64 blocks 4096
  assert (region_size == expected_size)
  block ← non_null virt_start
  some (record {
    heap_start = virt_start;
    heap_end = virt_end;
    levels = levels;
    free_lists = set (replicate levels []) 0 (block ∷ []);
  })

-- The loop of `get_level_from_size`, over `level` and `block_size`, with the rounds left.
unfoldable pub level_loop : ℕ → ℕ → ℕ → ℕ → ℕ → ℕ × ℕ
level_loop zero levels size level block = (level, block)
level_loop (suc k) levels size level block =
    let next = level_loop k levels size (level + 1) (block / 2) in
    if ltb size block && ltb (level + 1) levels then next else (level, block)

-- `PageAllocator::get_level_from_size`; the outer option is a panic, the inner one the result.
pub get_level_from_size : PageAllocator → ℕ → Option (Option ℕ)
unfolding max_size
get_level_from_size s size = do
  whole ← max_size s
  let found = level_loop s.levels s.levels size 0 whole
  some (if ltb found.1 size then none else some found.0)

abbrev pub Step : Type 0
Step = Option (PageAllocator × Option ℕ)

-- The body of `get_free_block`, with `split_level` at the same level as its argument.
pub take_or_split : (PageAllocator → Step) → PageAllocator → ℕ → Step
take_or_split split s level = do
  blocks ← get_elem? s.free_lists level
  elim blocks [
    | [] ↦ split s
    | block ∷ rest ↦ some (record s { free_lists = set s.free_lists level rest }, some block)
  ]

-- What `split_level` does with the block that it got from the level above.
pub push_buddy : ℕ → PageAllocator × Option ℕ → Step
push_buddy level (s, none) = some (s, none)
push_buddy level (s, some block) = do
  size ← block_size s level
  buddy_addr ← add64 block size
  buddy ← non_null buddy_addr
  blocks ← get_elem? s.free_lists level
  some (record s { free_lists = set s.free_lists level (blocks ++ buddy ∷ []) }, some block)

-- `PageAllocator::split_level`
pub split_level : ℕ → PageAllocator → Step
split_level zero s = some (s, none)
split_level (suc above) s = take_or_split (split_level above) s above >>= push_buddy (suc above)

-- `PageAllocator::get_free_block`
pub get_free_block : PageAllocator → ℕ → Step
get_free_block s level = take_or_split (split_level level) s level

-- `self.free_lists[level].push_back(ptr)`
pub push_back : PageAllocator → ℕ → ℕ → Option PageAllocator
push_back s level ptr = do
  blocks ← get_elem? s.free_lists level
  some (record s { free_lists = set s.free_lists level (blocks ++ ptr ∷ []) })

-- `PageAllocator::merge_buddies`
pub merge_buddies : ℕ → PageAllocator → ℕ → Option PageAllocator
merge_buddies zero s ptr = push_back s zero ptr
merge_buddies (suc above) s ptr = do
  size ← block_size s (suc above)
  offset ← sub64 ptr s.heap_start
  buddy_addr ← add64 s.heap_start (bit_xor offset size)
  buddy ← non_null buddy_addr
  blocks ← get_elem? s.free_lists (suc above)
  elim (position buddy blocks) [
    | none ↦ push_back s (suc above) ptr
    | some pos ↦
        merge_buddies above
          (record s { free_lists = set s.free_lists (suc above) (remove_at pos blocks) })
          (if ltb buddy_addr ptr then buddy else ptr)
  ]
