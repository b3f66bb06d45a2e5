-- ===== src/Memory/BuddyAlloc.antt =====
-- kernel/src/memory/alloc.rs, `BuddyAlloc<L, S>`: the kernel heap, a buddy allocator whose free lists
-- are linked through the free blocks. Every operation takes the constants `L` and `S`, the memory,
-- and fuel for the walks of `FreeList::exists` and `FreeList::remove`. `none` is a panic, or a walk
-- that has run out of fuel.
pub mod Valid
pub mod Alloc
pub mod Free
pub mod Level
pub mod Layouts
pub mod History
pub mod Contract
pub mod Start
pub mod Tests
use locos.Prelude.{
  ℕ, zero, suc, ◌+◌, Bool, true, false, Option, none, some, List, [], ◌∷◌, ◌>>=◌, ltb, leb, ◌&&◌,
  if◌then◌else◌, get_elem?, set, replicate, sub64, shl64, shr64, add64, non_null, bit_xor,
  next_power_of_two,
}
use locos.Memory.FreeList.{Memory, FreeList, new_list, push, pop, exists, remove}
use Prim.Native.Nat.{max}

-- `BuddyAlloc<L, S>`; `levels` is the length of `free_lists`.
pub record BuddyAlloc : Type 0 where
  pub heap_start : ℕ
  pub heap_end : ℕ
  pub free_lists : List FreeList

-- The allocator and the memory that it writes its nodes to.
pub record Heap : Type 0 where
  pub alloc : BuddyAlloc
  pub mem : Memory

-- The constants `L` and `S`, and fuel.
pub record Params : Type 0 where
  pub levels : ℕ
  pub smallest : ℕ
  pub fuel : ℕ

-- `BuddyAlloc::max_size`
pub max_size : Params → Option ℕ
max_size c = do shift ← sub64 c.levels 1; shl64 c.smallest shift

-- `BuddyAlloc::block_size`
pub block_size : Params → ℕ → Option ℕ
unfolding max_size
block_size c level = do size ← max_size c; shr64 size level

-- `BuddyAlloc::new`
pub new : Params → ℕ → ℕ → Option BuddyAlloc
new c heap_start heap_end = do
  block ← non_null heap_start
  first ← get_elem? (replicate c.levels new_list) 0
  some (record {
    heap_start = heap_start;
    heap_end = heap_end;
    free_lists = set (replicate c.levels new_list) 0 (record { head = some block; len = 1 });
  })

-- The loop of `get_level_from_size`, with the rounds left.
pub level_loop : ℕ → Params → ℕ → ℕ → Option ℕ
unfolding block_size
level_loop zero c size level = none
level_loop (suc k) c size level = do
  block ← block_size c level
  let next = level_loop k c size (level + 1)
  if leb size block && ltb level c.levels then next else some level

-- `BuddyAlloc::get_level_from_size`; the outer option is a panic, the inner one the result.
pub get_level_from_size : Params → ℕ → Option (Option ℕ)
unfolding max_size level_loop
get_level_from_size c size = do
  whole ← max_size c
  let found = do level ← level_loop c.levels c size 1; l ← sub64 level 1; some (some l)
  if ltb whole size then some none else found

abbrev pub Step : Type 0
Step = Option (Heap × Option ℕ)

-- `self.free_lists[level].push(ptr)`
pub push_block : Heap → ℕ → ℕ → Option Heap
unfolding push
push_block h level ptr = do
  list ← get_elem? h.alloc.free_lists level
  (list', mem) ← push list h.mem ptr
  some (record {
    alloc = record h.alloc { free_lists = set h.alloc.free_lists level list' };
    mem = mem;
  })

-- The body of `get_free_block`, with `split_level` at the same level as its argument.
pub take_or_split : (Heap → Step) → Heap → ℕ → Step
unfolding pop
take_or_split split h level = do
  list ← get_elem? h.alloc.free_lists level
  (free_block, list') ← pop list h.mem
  let h' = record h { alloc = record h.alloc { free_lists = set h.alloc.free_lists level list' } }
  elim free_block [ none ↦ split h' | some block ↦ some (h', some block) ]

-- What `split_level` does with the block that it got from the level above.
pub push_buddy : Params → ℕ → Heap × Option ℕ → Step
unfolding block_size push_block
push_buddy c level (h, none) = some (h, none)
push_buddy c level (h, some block) = do
  size ← block_size c level
  buddy ← non_null (bit_xor block size)
  h' ← push_block h level buddy
  some (h', some block)

-- `BuddyAlloc::split_level`
pub split_level : Params → ℕ → Heap → Step
unfolding take_or_split push_buddy
split_level c zero h = some (h, none)
split_level c (suc above) h =
    take_or_split (split_level c above) h above >>= push_buddy c (suc above)

-- `BuddyAlloc::get_free_block`
pub get_free_block : Params → Heap → ℕ → Step
unfolding take_or_split split_level
get_free_block c h level = take_or_split (split_level c level) h level

-- `BuddyAlloc::merge_buddies`
pub merge_buddies : Params → ℕ → Heap → ℕ → Option Heap
unfolding block_size push_block
merge_buddies c zero h ptr = push_block h zero ptr
merge_buddies c (suc above) h ptr = do
  size ← block_size c (suc above)
  buddy ← non_null (bit_xor ptr size)
  list ← get_elem? h.alloc.free_lists (suc above)
  listed ← exists c.fuel list h.mem buddy
  elim listed [
    | true ↦ do
      (list', mem) ← remove c.fuel list h.mem buddy
      merge_buddies c above
          (record {
            alloc = record h.alloc { free_lists = set h.alloc.free_lists (suc above) list' };
            mem = mem;
          })
          (if ltb buddy ptr then buddy else ptr)
    | false ↦ push_block h (suc above) ptr
  ]

-- `layout.size().next_power_of_two().max(layout.align())`
pub layout_size : ℕ → ℕ → Option ℕ
unfolding next_power_of_two
layout_size size align = do n ← next_power_of_two size; some (max n align)

-- `GlobalAlloc::alloc`; the result `none` is the null pointer.
pub alloc : Params → Heap → ℕ → ℕ → Step
unfolding layout_size get_level_from_size get_free_block
alloc c h size align = do
  n ← layout_size size align
  level ← get_level_from_size c n
  elim level [ none ↦ some (h, none) | some l ↦ get_free_block c h l ]

-- `GlobalAlloc::dealloc`
pub dealloc : Params → Heap → ℕ → ℕ → ℕ → Option Heap
unfolding layout_size get_level_from_size merge_buddies
dealloc c h ptr size align = do
  n ← layout_size size align
  level ← get_level_from_size c n
  elim level [ none ↦ some h | some l ↦ do p ← non_null ptr; merge_buddies c l h p ]
