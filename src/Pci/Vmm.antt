-- ===== src/Pci/Vmm.antt =====
-- kernel/src/pci/vmm.rs: the bitmap of virtual pages that device memory is mapped to.
pub mod Search
pub mod Bitmap
pub mod Mapping
mod Tests
use locos.Prelude.{
  ℕ, zero, suc, ◌+◌, ◌-◌, ◌*◌, ◌/◌, ◌%◌, ◌^◌, bit_and, bit_or, Bool, true, false, not, ◌||◌, Option,
  none, some, ◌>>=◌, Result, ok, err, ltb, leb, ◌==◌, if◌then◌else◌, List, [], ◌∷◌, get_or, set,
  steps, add64, sub64, replicate,
}
use locos.Memory.Mapper.{Mapper}
use locos.Pci.{PciError, ecam_mapping_failed, invalid_device, allocation_failed}

-- `PCIE_VMM_START`
abbrev pub pcie_vmm_start : ℕ
pcie_vmm_start = 0xFFFF_FA00_0000_0000

-- `PCIE_VMM_PAGES`: 16 GB of pages.
abbrev pub pcie_vmm_pages : ℕ
pcie_vmm_pages = 4194304

-- `BITMAP_WORDS`
abbrev pub bitmap_words : ℕ
bitmap_words = 32768

-- `PcieVmm`; the bitmap is an array of `u128`.
pub record PcieVmm : Type 0 where
  pub base_address : ℕ
  pub page_bitmap : List ℕ
  pub next_search_start : ℕ

-- `MappedBar`
pub record MappedBar : Type 0 where
  pub virtual_address : ℕ
  pub physical_address : ℕ
  pub size : ℕ
  pub prefetchable : Bool

-- `PcieVmm::new`
pub new : PcieVmm
new = record {
  base_address = pcie_vmm_start;
  page_bitmap = replicate bitmap_words 0;
  next_search_start = 0;
}

-- `self.page_bitmap[page / 128]`: in bounds for every page of the region.
abbrev pub word_of : PcieVmm → ℕ → ℕ
word_of v page = get_or v.page_bitmap (page / 128) 0

-- `PcieVmm::is_page_allocated`
pub is_page_allocated : PcieVmm → ℕ → Bool
is_page_allocated v page =
    if leb pcie_vmm_pages page then true else not (bit_and (word_of v page) (2 ^ (page % 128)) == 0)

-- `PcieVmm::set_page_allocated`
pub set_page_allocated : PcieVmm → ℕ → PcieVmm
set_page_allocated v page =
    if ltb page pcie_vmm_pages
    then record v {
      page_bitmap = set v.page_bitmap (page / 128) (bit_or (word_of v page) (2 ^ (page % 128)));
    }
    else v

-- `PcieVmm::set_page_free`
pub set_page_free : PcieVmm → ℕ → PcieVmm
set_page_free v page =
    if ltb page pcie_vmm_pages
    then record v {
      page_bitmap =
          set v.page_bitmap (page / 128)
            (bit_and (word_of v page) (2 ^ 128 - 1 - 2 ^ (page % 128)));
    }
    else v

-- `PcieVmm::is_range_free`
pub is_range_free : PcieVmm → ℕ → ℕ → Bool
is_range_free v start zero = true
is_range_free v start (suc count) = elim (leb pcie_vmm_pages start || is_page_allocated v start) [
  | true ↦ false
  | false ↦ is_range_free v (start + 1) count
]

-- The first free range of the number of pages, among so many starts from the first one on.
pub first_free : PcieVmm → ℕ → ℕ → ℕ → Option ℕ
first_free v pages_needed zero start = none
first_free v pages_needed (suc k) start = elim (is_range_free v start pages_needed) [
  | true ↦ some start
  | false ↦ first_free v pages_needed k (start + 1)
]

-- The end of `find_free_pages`, from the outcome of its first loop.
pub wrap_around : PcieVmm → ℕ → Option ℕ → Option ℕ
wrap_around v pages_needed (some start) = some start
wrap_around v pages_needed none =
    let starts = pcie_vmm_pages - pages_needed + 1 in
    let hint = v.next_search_start in
    first_free v pages_needed (if leb hint starts then hint else starts) 0

-- `PcieVmm::find_free_pages`
pub find_free_pages : PcieVmm → ℕ → Option ℕ
unfolding wrap_around
find_free_pages v pages_needed =
    if ltb pcie_vmm_pages pages_needed
    then none
    else wrap_around v pages_needed (
        first_free v pages_needed (pcie_vmm_pages - pages_needed + 1 - v.next_search_start)
          v.next_search_start)

-- `for i in start..(start + n) { self.set_page_allocated(i) }`
pub allocate_range : PcieVmm → ℕ → ℕ → PcieVmm
allocate_range v start zero = v
allocate_range v start (suc n) = allocate_range (set_page_allocated v start) (start + 1) n

-- `for i in start..(start + n) { self.set_page_free(i) }`, for the pages of the region.
pub free_range : PcieVmm → ℕ → ℕ → PcieVmm
free_range v start zero = v
free_range v start (suc n) = free_range (set_page_free v start) (start + 1) n

-- `size.div_ceil(PAGE_SIZE)`
abbrev pub pages_of : ℕ → ℕ
pages_of size = (size + 4095) / 4096

module _ (m : Mapper) where
  open m use {
    State, Flags, present, writable, no_cache, no_execute, join, page_of, frame_of, map_to, unmap,
  }

  abbrev pub Outcome : Type 0
  Outcome = Result PciError (Unit {0}) × State

  -- The loop of `map_pages`, over the numbers of the pages.
  pub map_each : Flags → ℕ → ℕ → List ℕ → State → Option Outcome
  map_each flags virt phys [] st = some (ok tt, st)
  map_each flags virt phys (i ∷ rest) st = do
    v ← add64 virt (i * 4096)
    page ← page_of v
    p ← add64 phys (i * 4096)
    frame ← frame_of p
    let mapped = map_to page frame flags st
    elim mapped.0 [
      | err e ↦ some (err ecam_mapping_failed, mapped.1)
      | ok u ↦ map_each flags virt phys rest mapped.1
    ]

  -- `PcieVmm::map_pages`, once the page table and the frame allocator are set up.
  pub map_pages : ℕ → ℕ → ℕ → Bool → State → Option Outcome
  unfolding map_each
  map_pages virt phys page_count prefetchable st =
      let flags = join (join present writable) no_execute in
      map_each (if prefetchable then flags else join flags no_cache) virt phys
        (steps page_count 0 1) st

  -- The loop of `unmap_pages`.
  pub unmap_each : ℕ → List ℕ → State → Option Outcome
  unmap_each virt [] st = some (ok tt, st)
  unmap_each virt (i ∷ rest) st = do
    v ← add64 virt (i * 4096)
    page ← page_of v
    let undone = unmap page st
    elim undone.0 [
      | err e ↦ some (err ecam_mapping_failed, undone.1)
      | ok frame ↦ unmap_each virt rest undone.1
    ]

  -- `PcieVmm::unmap_pages`, once the page table is set up.
  pub unmap_pages : ℕ → ℕ → State → Option Outcome
  unfolding unmap_each
  unmap_pages virt page_count st = unmap_each virt (steps page_count 0 1) st

  abbrev pub BarResult : Type 0
  BarResult = Result PciError MappedBar × PcieVmm × State

  -- The end of `map_memory_bar`, from the outcome of `map_pages`.
  pub finish_map : PcieVmm → MappedBar → ℕ → ℕ → Outcome → BarResult
  finish_map v bar start pages_needed (err e, st) = (err e, v, st)
  finish_map v bar start pages_needed (ok u, st) =
      let after = start + pages_needed in
      (
        ok bar,
        record (allocate_range v start pages_needed) {
          next_search_start = if leb pcie_vmm_pages after then 0 else after;
        },
        st,
      )

  -- `map_memory_bar` from the search on.
  pub map_found : PcieVmm → ℕ → ℕ → Bool → ℕ → Option ℕ → State → Option BarResult
  unfolding finish_map map_pages
  map_found v phys size prefetchable pages_needed none st = some (err allocation_failed, v, st)
  map_found v phys size prefetchable pages_needed (some start) st = do
    virt ← add64 v.base_address (start * 4096)
    r ← map_pages virt phys pages_needed prefetchable st
    let bar : MappedBar = record {
      virtual_address = virt;
      physical_address = phys;
      size = size;
      prefetchable = prefetchable;
    }
    some (finish_map v bar start pages_needed r)

  -- `PcieVmm::map_memory_bar`
  pub map_memory_bar : PcieVmm → ℕ → ℕ → Bool → State → Option BarResult
  unfolding map_found find_free_pages
  map_memory_bar v phys size prefetchable st =
      let found =
        map_found v phys size prefetchable (pages_of size) (find_free_pages v (pages_of size)) st in
      if size == 0 || phys == 0 then some (err invalid_device, v, st) else found

  -- The end of `unmap_bar`, from the outcome of `unmap_pages`.
  pub finish_unmap : PcieVmm → ℕ → ℕ → Outcome → Result PciError (Unit {0}) × PcieVmm × State
  finish_unmap v start n (err e, st) = (err e, v, st)
  finish_unmap v start n (ok u, st) = (
    ok tt,
    record (free_range v start n) {
      next_search_start = if ltb start v.next_search_start then start else v.next_search_start;
    },
    st,
  )

  -- `PcieVmm::unmap_bar`
  pub unmap_bar :
      PcieVmm → MappedBar → State → Option (Result PciError (Unit {0}) × PcieVmm × State)
  unfolding finish_unmap unmap_pages
  unmap_bar v bar st = do
    offset ← sub64 bar.virtual_address v.base_address
    r ← unmap_pages bar.virtual_address (pages_of bar.size) st
    some (finish_unmap v (offset / 4096) (pages_of bar.size) r)
