-- ===== src/Memory/PageAllocator/Pages/PagesTests.antt =====
-- The theorems on `allocate_pages` and `deallocate_pages` at a region of four pages.
use locos.Prelude.{
  ℕ, List, ◌++◌, get_elem?, set, ◌+◌, ◌*◌, ◌≡◌, ◌≤◌, refl, arith, some, [], ◌∷◌, ok, step_by,
  position, remove_at,
}
use locos.Memory.Blocks.{IsBlock, cover, hit}
use locos.Memory.Mapper.{map_loop, map_page, map_frame, refuse, unmap_loop}
use locos.Memory.Mapper.Simple.{simple}
use locos.Memory.PageAllocator.{
  PageAllocator, get_free_block, merge_buddies, get_level_from_size, level_loop, take_or_split,
  split_level, push_buddy, block_size, push_back,
}
use locos.Memory.PageAllocator.Valid.{size_of, IsValid}
use locos.Memory.PageAllocator.Tests.{four_pages, four_pages-IsValid}
use locos.Memory.PageAllocator.Merged.Histories.{whole-IsMerged}
use locos.Memory.PageAllocator.Pages.{
  allocate_pages, deallocate_pages, PageAllocLayout, block_bytes,
}
use locos.Memory.PageAllocator.Pages.RoundTrip.{
  allocate_pages-takes, deallocate_pages-allocate_pages,
}

abbrev one_page : PageAllocator
one_page = record four_pages { free_lists = [] ∷ (0x12000 ∷ []) ∷ (0x11000 ∷ []) ∷ [] }

abbrev layout : PageAllocLayout
layout = record { page = 0x10000; length = 1 }

allocate_pages_runs :
    allocate_pages simple four_pages [] 1 ≡ some (ok layout, one_page, 0x10000 ∷ [])
unfolding allocate_pages block_bytes get_level_from_size level_loop get_free_block take_or_split
    split_level push_buddy block_size map_loop step_by map_page map_frame refuse
allocate_pages_runs = refl

deallocate_pages_runs :
    deallocate_pages simple one_page (0x10000 ∷ []) layout ≡ some (ok tt, four_pages, [])
unfolding deallocate_pages block_bytes get_level_from_size level_loop unmap_loop step_by
    merge_buddies block_size position push_back remove_at
deallocate_pages_runs = refl

allocate_pages-takes_example :
    (level block : ℕ) × IsValid 2 one_page
    × (1 * 4096 ≤ size_of 2 level)
    × IsBlock 0x10000 (size_of 2) level block
    × ((a : ℕ)
        → cover (size_of 2) four_pages.free_lists a
          ≡ cover (size_of 2) one_page.free_lists a + hit (size_of 2 level) block a)
allocate_pages-takes_example =
    allocate_pages-takes simple [] 1 (ok layout) one_page (0x10000 ∷ []) four_pages-IsValid
      allocate_pages_runs

deallocate_pages-allocate_pages_example :
    IsValid 2 four_pages
    × ((a : ℕ)
        → cover (size_of 2) four_pages.free_lists a ≡ cover (size_of 2) four_pages.free_lists a)
    × ((k : ℕ) × (rest : List ℕ) × (get_elem? four_pages.free_lists k ≡ some (0x10000 ∷ rest))
        × (four_pages ≡ record four_pages {
          free_lists = set four_pages.free_lists k (rest ++ 0x10000 ∷ []);
        }))
deallocate_pages-allocate_pages_example =
    deallocate_pages-allocate_pages simple [] (0x10000 ∷ []) (0x10000 ∷ []) [] 1 layout
      (λ a p e. ground arith) four_pages-IsValid (whole-IsMerged 0x10000 2) refl allocate_pages_runs
      deallocate_pages_runs
