-- ===== src/Pci/Vmm/Tests.antt =====
-- The theorems on the windows of device memory at an empty region.
use locos.Prelude.{
  ℕ, ◌+◌, ◌*◌, ◌≤◌, ◌≡◌, refl, arith, true, false, some, none, [], ◌∷◌, ok, length-replicate,
  replicate,
}
use locos.Memory.Mapper.Simple.{simple}
use locos.Pci.Vmm.{
  PcieVmm, MappedBar, new, pcie_vmm_start, pcie_vmm_pages, bitmap_words, is_page_allocated,
  is_range_free, find_free_pages, first_free, wrap_around, map_memory_bar, map_found, map_pages,
  map_each, finish_map, unmap_bar, unmap_pages, unmap_each, finish_unmap, allocate_range,
  free_range, set_page_allocated,
}
use locos.Pci.Vmm.Search.{IsFree, find_free_pages-some, find_free_pages-none}
use locos.Pci.Vmm.Bitmap.{IsSized, Marked, in_range}
use locos.Pci.Vmm.Mapping.{map_memory_bar-ok, unmap_bar-map_memory_bar}

new-IsSized : IsSized new
unfolding new
new-IsSized = length-replicate {A = ℕ} bitmap_words 0

finds : find_free_pages new 1 ≡ some 0
unfolding find_free_pages wrap_around first_free is_range_free is_page_allocated new
finds = refl

find_free_pages-some_example : IsFree new 0 1
find_free_pages-some_example = find_free_pages-some new 1 0 finds

abbrev window : MappedBar
window = record {
  virtual_address = pcie_vmm_start;
  physical_address = 0x1000;
  size = 4096;
  prefetchable = false;
}

abbrev used : PcieVmm
used = record (allocate_range new 0 1) { next_search_start = 1 }

maps : map_memory_bar simple new 0x1000 4096 false [] ≡ some (ok window, used, pcie_vmm_start ∷ [])
unfolding map_memory_bar map_found find_free_pages wrap_around first_free is_range_free
    is_page_allocated new map_pages map_each finish_map
maps = refl

unmaps :
    unmap_bar simple used window (pcie_vmm_start ∷ [])
    ≡ some (ok tt, record (free_range used 0 1) { next_search_start = 0 }, [])
unfolding unmap_bar unmap_pages unmap_each finish_unmap new allocate_range set_page_allocated
unmaps = refl

map_memory_bar-ok_example :
    (start : ℕ) × (pcie_vmm_start ≡ new.base_address + start * 4096)
    × (start + 1 ≤ pcie_vmm_pages)
    × IsFree new start 1
    × Marked true (in_range start 1) new used
map_memory_bar-ok_example =
    map_memory_bar-ok simple new used 0x1000 4096 false window [] (pcie_vmm_start ∷ []) new-IsSized
      maps

unmap_bar-map_memory_bar_example :
    is_page_allocated (record (free_range used 0 1) { next_search_start = 0 }) 0
    ≡ is_page_allocated new 0
unmap_bar-map_memory_bar_example =
    unmap_bar-map_memory_bar simple new used
      (record (free_range used 0 1) { next_search_start = 0 }) 0x1000 4096 false window []
      (pcie_vmm_start ∷ []) (pcie_vmm_start ∷ []) [] new-IsSized maps unmaps 0 (omega arith)

-- The whole region is asked for, and its first page is taken.
abbrev first_taken : PcieVmm
first_taken = record new { page_bitmap = 1 ∷ replicate 32767 0 }

finds_nothing : find_free_pages first_taken 4194304 ≡ none
unfolding find_free_pages wrap_around first_free is_range_free is_page_allocated new
finds_nothing = refl

find_free_pages-none_example : ¬ IsFree first_taken 0 4194304
find_free_pages-none_example =
    find_free_pages-none first_taken 4194304 0 finds_nothing (omega arith)
