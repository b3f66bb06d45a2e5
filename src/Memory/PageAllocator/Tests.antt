-- ===== src/Memory/PageAllocator/Tests.antt =====
-- The theorems on the page allocator at a region of four pages.
use locos.Prelude.{ℕ, ◌≡◌, refl, arith, some, [], ◌∷◌, position, remove_at, ◌≤◌, ◌⊎◌}
use locos.Memory.PageAllocator.{
  PageAllocator, get_free_block, merge_buddies, new, get_level_from_size, take_or_split,
  split_level, push_buddy, block_size, push_back, max_size,
}
use locos.Memory.PageAllocator.Valid.{size_of, IsValid}
use locos.Memory.PageAllocator.Alloc.{Got, IsDry, get_free_block-Got}
use locos.Memory.PageAllocator.Free.{Freed, merge_buddies-Freed}
use locos.Memory.PageAllocator.History.{
  System, Reach, here, next, takes, gives, IsPartition, Reach-IsPartition,
}
use locos.Memory.PageAllocator.Start.{whole, whole-IsPartition, new-IsPartition}
use locos.Memory.PageAllocator.Level.{get_level_from_size-two_pow}

abbrev pub four_pages : PageAllocator
four_pages = whole 0x10000 2

pub four_pages-IsValid : IsValid 2 four_pages
four_pages-IsValid = record {
  deep = refl;
  few = omega arith;
  whole = refl;
  low = omega arith;
  high = omega arith;
  lists = refl;
  blocks = (((0, refl, omega arith), tt), (tt, (tt, tt)));
}

get_free_block-Got_example : Got 2 (IsDry 3 four_pages) four_pages 2 (get_free_block four_pages 2)
get_free_block-Got_example = get_free_block-Got 2 four_pages-IsValid (omega arith)

-- After the split for one page.
abbrev three_pages : PageAllocator
three_pages = record four_pages { free_lists = [] ∷ (0x12000 ∷ []) ∷ (0x11000 ∷ []) ∷ [] }

three_pages-IsValid : IsValid 2 three_pages
three_pages-IsValid = record {
  deep = refl;
  few = omega arith;
  whole = refl;
  low = omega arith;
  high = omega arith;
  lists = refl;
  blocks = (tt, (((1, refl, omega arith), tt), (((1, refl, omega arith), tt), tt)));
}

get_free_block_splits : get_free_block four_pages 2 ≡ some (three_pages, some 0x10000)
unfolding get_free_block take_or_split split_level push_buddy block_size max_size
get_free_block_splits = refl

merge_buddies_joins : merge_buddies 2 three_pages 0x10000 ≡ some four_pages
unfolding merge_buddies block_size position push_back remove_at max_size
merge_buddies_joins = refl

merge_buddies-Freed_example : Freed 2 three_pages 2 0x10000 (merge_buddies 2 three_pages 0x10000)
merge_buddies-Freed_example =
    merge_buddies-Freed 2 0x10000 three_pages-IsValid (omega arith) (0, refl, omega arith)

-- One page taken and given back.
abbrev begun : System
begun = record { pages = four_pages; held = [] }

abbrev gave : System
gave = record { pages = four_pages; held = [] }

history : Reach 2 begun gave
history =
    next (next here (takes 2 0x10000 three_pages (omega arith) get_free_block_splits refl))
      (gives [] [] 2 0x10000 four_pages refl merge_buddies_joins refl)

Reach-IsPartition_example : IsPartition 2 0x10000 gave
Reach-IsPartition_example =
    Reach-IsPartition history
      (whole-IsPartition 0x10000 2 (omega arith) (omega arith) (omega arith))

new-IsPartition_example :
    (s : PageAllocator) × (new 0x10000 0x14000 3 ≡ some s)
    × (s.free_lists ≡ (0x10000 ∷ []) ∷ [] ∷ [] ∷ [])
    × IsPartition 2 0x10000 (record { pages = s; held = [] })
new-IsPartition_example = new-IsPartition 0x10000 2 (omega arith) refl (omega arith) (omega arith)

get_level_from_size-two_pow_example :
    (l : ℕ) × (get_level_from_size four_pages 8192 ≡ some (some l))
    × (l ≤ 2)
    × (8192 ≤ size_of 2 l)
    × ((l ≡ 2) ⊎ (size_of 2 l ≡ 8192))
get_level_from_size-two_pow_example =
    get_level_from_size-two_pow 13 four_pages-IsValid (omega arith)
