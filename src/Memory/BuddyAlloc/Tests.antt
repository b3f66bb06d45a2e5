-- ===== src/Memory/BuddyAlloc/Tests.antt =====
-- The theorems on the kernel heap at the kernel's constants, and runs of a heap of four blocks.
use locos.Prelude.{
  ℕ, ◌+◌, ◌≡◌, refl, arith, some, none, [], ◌∷◌, next_power_of_two, ◌==◌, if◌then◌else◌,
}
use locos.Prelude.Run.{next_power_from}
use locos.Memory.FreeList.{Memory, push, pop, pop_head}
use locos.Memory.BuddyAlloc.{
  Heap, Params, alloc, dealloc, get_level_from_size, max_size, block_size, level_loop, push_block,
  take_or_split, push_buddy, split_level, get_free_block, layout_size,
}
use locos.Memory.BuddyAlloc.Valid.{Fits, IsStart}
use locos.Memory.BuddyAlloc.Level.{IsBest, get_level_from_size-IsBest}
use locos.Memory.BuddyAlloc.Layouts.{IsLevel, Served, alloc-Served}
use locos.Memory.BuddyAlloc.History.{
  Held, System, allocs, writes, Reach, here, next, IsSound, Reach-IsSound, dealloc-returns,
}
use locos.Memory.BuddyAlloc.Contract.{Runs, view, Reach-Runs}
use locos.Memory.BuddyAlloc.Start.{whole, whole-IsSound, kernel_heap, heap_start, heap_size}

kernel_heap-Fits : Fits 4 20 kernel_heap
kernel_heap-Fits = record { deep = refl; small = refl; few = omega arith; enough = omega arith }

heap_start-IsStart : IsStart 4 20 heap_start
heap_start-IsStart = record { number = 1099503763456; aligned = refl; low = omega arith }

abbrev clear : Memory
clear p = none

abbrev fresh : Heap
fresh = record { alloc = whole heap_start (heap_start + heap_size) 20; mem = clear }

fresh-IsSound : IsSound 4 20 heap_start kernel_heap (record { heap = fresh; held = [] })
fresh-IsSound =
    whole-IsSound kernel_heap-Fits heap_start-IsStart clear refl (heap_start + heap_size)

get_level_from_size-IsBest_example :
    (l : ℕ) × (get_level_from_size kernel_heap 100 ≡ some (some l)) × IsBest 4 20 100 l
get_level_from_size-IsBest_example = get_level_from_size-IsBest kernel_heap-Fits 100 (omega arith)

layout_size_100 : layout_size 100 8 ≡ some 128
unfolding layout_size next_power_of_two next_power_from
layout_size_100 = refl

alloc-Served_example :
    Served 4 20 heap_start fresh (fresh-IsSound.free) 100 8 128 (alloc kernel_heap fresh 100 8)
alloc-Served_example =
    alloc-Served kernel_heap-Fits heap_start-IsStart fresh-IsSound.valid 100 3 128 layout_size_100

-- A heap of four blocks of 16 bytes.
abbrev small_heap : Params
small_heap = record { levels = 3; smallest = 16; fuel = 4 }

small_heap-Fits : Fits 4 2 small_heap
small_heap-Fits = record { deep = refl; small = refl; few = omega arith; enough = omega arith }

small-IsStart : IsStart 4 2 0x1000
small-IsStart = record { number = 64; aligned = refl; low = omega arith }

abbrev begun : System
begun = record { heap = record { alloc = whole 0x1000 0x1040 2; mem = clear }; held = [] }

begun-IsSound : IsSound 4 2 0x1000 small_heap begun
begun-IsSound = whole-IsSound small_heap-Fits small-IsStart clear refl 0x1040

-- 10 bytes at a multiple of 8 take the first block of 16.
abbrev ten_bytes : Held
ten_bytes = record { size = 10; align = 8; level = 2; block = 0x1000 }

ten_bytes-IsLevel : IsLevel small_heap 10 8 2
unfolding layout_size next_power_of_two next_power_from get_level_from_size level_loop block_size
    max_size
ten_bytes-IsLevel = record { bytes = 16; rounded = refl; chosen = refl }

-- The heap after the two splits.
abbrev split_mem : Memory
split_mem p = if p == 0x1010 then none else if p == 0x1020 then none else none

abbrev split_heap : Heap
split_heap = record {
  alloc = record {
    heap_start = 0x1000;
    heap_end = 0x1040;
    free_lists =
        (record { head = none; len = 0 })
        ∷ (record { head = some 0x1020; len = 1 })
        ∷ (record { head = some 0x1010; len = 1 })
        ∷ [];
  };
  mem = split_mem;
}

alloc_splits : alloc small_heap begun.heap 10 8 ≡ some (split_heap, some 0x1000)
unfolding layout_size next_power_of_two next_power_from get_level_from_size level_loop block_size
    max_size alloc get_free_block take_or_split split_level push_buddy push_block pop pop_head push
alloc_splits = refl

-- The program writes to its block.
abbrev used_mem : Memory
used_mem p = if p == 0x1000 then some 7 else split_mem p

abbrev used : System
used = record { heap = record split_heap { mem = used_mem }; held = ten_bytes ∷ [] }

used-Reach : Reach 4 2 small_heap begun used
used-Reach =
    next (next here (allocs ten_bytes split_heap ten_bytes-IsLevel alloc_splits refl))
      (writes used_mem (λ a out. ground arith) refl)

Reach-IsSound_example : IsSound 4 2 0x1000 small_heap used
Reach-IsSound_example = Reach-IsSound small_heap-Fits small-IsStart used-Reach begun-IsSound

Reach-Runs_example : Runs 4 2 0x1000 (view begun) (view used)
Reach-Runs_example = Reach-Runs small_heap-Fits small-IsStart used-Reach begun-IsSound

abbrev used-IsSound : IsSound 4 2 0x1000 small_heap used
used-IsSound = Reach-IsSound small_heap-Fits small-IsStart used-Reach begun-IsSound

dealloc-returns_example :
    (h : Heap) × (dealloc small_heap used.heap 0x1000 10 8 ≡ some h)
    × IsSound 4 2 0x1000 small_heap (record { heap = h; held = [] })
dealloc-returns_example =
    dealloc-returns small_heap-Fits small-IsStart [] [] ten_bytes used-IsSound refl
