-- ===== src/Pci/Vmm/Mapping.antt =====
-- `map_memory_bar` and `unmap_bar`: which pages they take and give back.
use locos.Prelude.{
  ℕ, ◌+◌, ◌-◌, ◌*◌, ◌/◌, ◌≤◌, ◌<◌, ◌≡◌, ◌∙◌, refl, ap, arith, Bool, Bool-cases, Option-cases, inl,
  inr, true, false, ◌==◌, ◌||◌, some, >>=-eq-some, some_injective, Result, ok, err, add64, sub64,
  ltb, leb, if◌then◌else◌,
}
use locos.Memory.Mapper.{Mapper}
use locos.Pci.{PciError}
use locos.Pci.Vmm.{
  PcieVmm, MappedBar, pcie_vmm_pages, pages_of, is_page_allocated, find_free_pages, Outcome,
  map_pages, finish_map, map_found, map_memory_bar, BarResult, unmap_pages, finish_unmap, unmap_bar,
  allocate_range, free_range,
}
use locos.Pci.Vmm.Search.{IsFree, find_free_pages-some}
use locos.Pci.Vmm.Bitmap.{IsSized, Marked, in_range, allocate_range-Marked, free_range-Marked}

module _ (m : Mapper) where
  open m use {State}

  -- What a call that returned a mapping has done.
  pub record Placed (v : PcieVmm) (phys size : ℕ) (bar : MappedBar) (v' : PcieVmm) : Type 0 where
    pub start : ℕ
    pub address : bar.virtual_address ≡ v.base_address + start * 4096
    pub same_size : bar.size ≡ size
    pub same_physical : bar.physical_address ≡ phys
    pub inside : start + pages_of size ≤ pcie_vmm_pages
    pub free : IsFree v start (pages_of size)
    pub taken : Marked true (in_range start (pages_of size)) v v'

  finish_map-ok :
      (v : PcieVmm) (bar bar' : MappedBar) (start n : ℕ) (r : Outcome m) (v' : PcieVmm)
      (st' : State)
      → IsSized v
      → start + n ≤ pcie_vmm_pages
      → finish_map m v bar start n r ≡ (ok bar', v', st')
      → (bar ≡ bar') × Marked true (in_range start n) v v'
  unfolding finish_map is_page_allocated
  finish_map-ok v bar bar' start n (err e, st) v' st' sized inside h = ground arith
  finish_map-ok v bar bar' start n (ok u, st) v' st' sized inside h =
      let marked = allocate_range-Marked v start n sized inside in
      let same : bar ≡ bar' = ground arith in
      let after : PcieVmm = record (allocate_range v start n) {
        next_search_start = if leb pcie_vmm_pages (start + n) then 0 else start + n;
      } in
      let e : after ≡ v' = ap (λ (r : BarResult m). r.1) h in (same, rw (← e) marked)

  map_found-Placed :
      (v v' : PcieVmm) (phys size start : ℕ) (prefetchable : Bool) (bar : MappedBar)
      (st st' : State)
      → IsSized v
      → start + pages_of size ≤ pcie_vmm_pages
      → IsFree v start (pages_of size)
      → map_found m v phys size prefetchable (pages_of size) (some start) st
        ≡ some (ok bar, v', st')
      → Placed v phys size bar v'
  unfolding map_found
  map_found-Placed v v' phys size start prefetchable bar st st' sized inside free h =
      let n = pages_of size in
      let (virt, at, h₁) = >>=-eq-some (add64 v.base_address (start * 4096)) _ h in
      let (r, mapped, h₂) = >>=-eq-some (map_pages m virt phys n prefetchable st) _ h₁ in
      let made : MappedBar = record {
        virtual_address = virt;
        physical_address = phys;
        size = size;
        prefetchable = prefetchable;
      } in
      let (same, taken) =
        finish_map-ok v made bar start n r v' st' sized inside (some_injective _ _ h₂) in
      let address : virt ≡ v.base_address + start * 4096 = ground arith in
      record {
        start = start;
        address = rw (← same) address;
        same_size = rw (← same) refl;
        same_physical = rw (← same) refl;
        inside = inside;
        free = free;
        taken = taken;
      }

  pub map_memory_bar-Placed :
      (v v' : PcieVmm) (phys size : ℕ) (prefetchable : Bool) (bar : MappedBar) (st st' : State)
      → IsSized v
      → map_memory_bar m v phys size prefetchable st ≡ some (ok bar, v', st')
      → Placed v phys size bar v'
  unfolding map_memory_bar map_found
  map_memory_bar-Placed v v' phys size prefetchable bar st st' sized h =
      elim (Bool-cases (size == 0 || phys == 0)) [
        | inl refused ↦ let bad = rw refused at h in absurd (ground arith)
        | inr valid ↦
            let found = rw valid at h in
            elim (Option-cases (find_free_pages v (pages_of size))) [
              | inl full ↦ let bad = rw full at found in absurd (ground arith)
              | inr (start, at') ↦
                  let placed = rw at' at found in
                  let some_pages : 0 < pages_of size = ground arith in
                  let free = find_free_pages-some v (pages_of size) start at' in
                  let (last, _) =
                    free (start + pages_of size - 1) (omega (arith, some_pages))
                      (omega (arith, some_pages)) in
                  map_found-Placed v v' phys size start prefetchable bar st st' sized
                    (omega (arith, last)) free placed
            ]
      ]

  -- A window that `map_memory_bar` returned lies on pages of the region that were all free before, is
  -- as long as the device memory needs, and is all taken after; every other page is as it was.
  pub map_memory_bar-ok :
      (v v' : PcieVmm) (phys size : ℕ) (prefetchable : Bool) (bar : MappedBar) (st st' : State)
      → IsSized v
      → map_memory_bar m v phys size prefetchable st ≡ some (ok bar, v', st')
      → (start : ℕ) × (bar.virtual_address ≡ v.base_address + start * 4096)
        × (start + pages_of size ≤ pcie_vmm_pages)
        × IsFree v start (pages_of size)
        × Marked true (in_range start (pages_of size)) v v'
  map_memory_bar-ok v v' phys size prefetchable bar st st' sized h =
      let p = map_memory_bar-Placed v v' phys size prefetchable bar st st' sized h in
      (p.start, p.address, p.inside, p.free, p.taken)

  finish_unmap-ok :
      (v : PcieVmm) (start n : ℕ) (r : Outcome m) (v' : PcieVmm) (st' : State)
      → IsSized v
      → start + n ≤ pcie_vmm_pages
      → finish_unmap m v start n r ≡ (ok tt, v', st')
      → Marked false (in_range start n) v v'
  unfolding finish_unmap is_page_allocated
  finish_unmap-ok v start n (err e, st) v' st' sized inside h = ground arith
  finish_unmap-ok v start n (ok u, st) v' st' sized inside h =
      let after : PcieVmm = record (free_range v start n) {
        next_search_start = if ltb start v.next_search_start then start else v.next_search_start;
      } in
      let e : after ≡ v' = ap (λ (o : Result PciError (Unit {0}) × PcieVmm × State). o.1) h in
      rw (← e) (free_range-Marked v start n sized inside)

  -- A window that `map_memory_bar` returned, and that `unmap_bar` then took back without an error,
  -- leaves every page of the region as it was, whatever the page tables did in between.
  pub unmap_bar-map_memory_bar :
      (v v' v'' : PcieVmm) (phys size : ℕ) (prefetchable : Bool) (bar : MappedBar)
      (st st' mid end : State)
      → IsSized v
      → map_memory_bar m v phys size prefetchable st ≡ some (ok bar, v', st')
      → unmap_bar m v' bar mid ≡ some (ok tt, v'', end)
      → (q : ℕ) → q < pcie_vmm_pages
      → is_page_allocated v'' q ≡ is_page_allocated v q
  unfolding unmap_bar
  unmap_bar-map_memory_bar v v' v'' phys size prefetchable bar st st' mid end sized got gave q
        inside =
      let p = map_memory_bar-Placed v v' phys size prefetchable bar st st' sized got in
      let n = pages_of size in
      let (sized', base, taken) = p.taken in
      let (offset, at, h₁) = >>=-eq-some (sub64 bar.virtual_address v'.base_address) _ gave in
      let (r, undone, h₂) =
        >>=-eq-some (unmap_pages m bar.virtual_address (pages_of bar.size) mid) _ h₁ in
      let is_offset : offset ≡ p.start * 4096 = ground (arith, p.address, base) in
      let is_start : offset / 4096 ≡ p.start = omega (arith, is_offset) in
      let h₃ = rw (is_start, p.same_size) at (some_injective _ _ h₂) in
      let (_, _, freed) = finish_unmap-ok v' p.start n r v'' end sized' p.inside h₃ in
      elim (Bool-cases (in_range p.start n q)) [
        | inl own ↦
            let (_, vacant) = p.free q (ground (arith, own)) (ground (arith, own)) in
            freed q inside ∙ rw (own, vacant) refl
        | inr other ↦ freed q inside ∙ rw other (taken q inside ∙ rw other refl)
      ]
