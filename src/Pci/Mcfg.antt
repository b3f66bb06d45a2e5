-- ===== src/Pci/Mcfg.antt =====
-- kernel/src/pci/mcfg.rs: the regions of PCIe configuration space that the ACPI table MCFG lists, their
-- windows in virtual memory, and accesses to the registers of a function through them. Also the steps
-- of `PciManager::init` of kernel/src/pci.rs that map the regions. `none` is a panic.
pub mod Registers
pub mod Windows
mod Tests
use locos.Prelude.{
  ℕ, zero, suc, ◌+◌, ◌-◌, ◌*◌, ◌/◌, ◌%◌, ◌^◌, Bool, true, false, ◌&&◌, ◌||◌, not, Option, none,
  some, ◌>>=◌, ◌>>◌, Result, ok, err, ltb, leb, ◌==◌, if◌then◌else◌, List, [], ◌∷◌, steps, add64,
  sub64, assert,
}
use locos.Memory.Mapper.{Mapper}
use locos.Pci.{PciError, ecam_mapping_failed}

-- `EcamRegion`
pub record EcamRegion : Type 0 where
  pub base_address : ℕ
  pub virtual_address : ℕ
  pub segment_group : ℕ
  pub start_bus : ℕ
  pub end_bus : ℕ

-- An entry of the table, of the crate `acpi`.
pub record McfgEntry : Type 0 where
  pub base_address : ℕ
  pub pci_segment_group : ℕ
  pub bus_number_start : ℕ
  pub bus_number_end : ℕ

-- `EcamRegion::mapping_size`
unfoldable pub mapping_size : EcamRegion → ℕ
mapping_size r =
    if ltb r.end_bus r.start_bus
    then 0
    else if ltb ((2 ^ 64 - 1) / 2 ^ 20) (r.end_bus - r.start_bus + 1)
    then 2 ^ 64 - 1
    else (r.end_bus - r.start_bus + 1) * 2 ^ 20

-- The test of a bus in `find_region_for_bus` and `device_exists_in_regions`.
abbrev pub has_bus : ℕ → EcamRegion → Bool
has_bus bus r = leb r.start_bus bus && leb bus r.end_bus

-- `find_region_for_bus`
unfoldable pub find_region_for_bus : List EcamRegion → ℕ → Option EcamRegion
find_region_for_bus [] bus = none
find_region_for_bus (r ∷ rs) bus = if has_bus bus r then some r else find_region_for_bus rs bus

-- `calculate_total_ecam_size`: `size` is `mapping_size`, and an overflow of the sum panics.
unfoldable pub calculate_total_ecam_size : List EcamRegion → Option ℕ
unfolding mapping_size
calculate_total_ecam_size [] = some 0
calculate_total_ecam_size (r ∷ rs) = do
  rest ← calculate_total_ecam_size rs
  add64 (mapping_size r) rest

-- Why `validate_ecam_region` refuses a region, in the order of its tests.
pub data Invalid : Type 0 where
  end_before_start base_is_zero not_mapped too_many_buses : Invalid

-- `validate_ecam_region`
unfoldable pub validate_ecam_region : EcamRegion → Result Invalid (Unit {0})
validate_ecam_region r =
    if ltb r.end_bus r.start_bus
    then err end_before_start
    else if r.base_address == 0
    then err base_is_zero
    else if r.virtual_address == 0
    then err not_mapped
    else if ltb 256 (r.end_bus - r.start_bus + 1)
    then err too_many_buses
    else ok tt

-- `ECAM_VIRTUAL_START`
abbrev pub ecam_virtual_start : ℕ
ecam_virtual_start = 0xFFFF_F400_0000_0000

-- `u64::saturating_add`
abbrev pub saturating_add : ℕ → ℕ → ℕ
saturating_add a b = if ltb (a + b) (2 ^ 64) then a + b else 2 ^ 64 - 1

module _ (m : Mapper) where
  open m use {
    State, Flags, present, writable, no_cache, no_execute, join, page_of, frame_of, map_to,
  }

  -- `VirtAddr::new` and `PhysAddr::new`, which panic where the page or the frame of the address do.
  abbrev pub virt_addr : ℕ → Option ℕ
  virt_addr a = do page ← page_of a; some a

  abbrev pub phys_addr : ℕ → Option ℕ
  phys_addr a = do frame ← frame_of a; some a

  -- The loop of `parse_mcfg_table` over the entries.
  unfoldable pub parse_entries : List McfgEntry → Option (List EcamRegion)
  parse_entries [] = some []
  parse_entries (e ∷ es) =
      let rest = parse_entries es in
      if ltb e.bus_number_end e.bus_number_start || e.base_address == 0 then rest else do
        base ← phys_addr e.base_address
        unset ← virt_addr 0
        rs ← rest
        some (
            (record {
              base_address = base;
              virtual_address = unset;
              segment_group = e.pci_segment_group;
              start_bus = e.bus_number_start;
              end_bus = e.bus_number_end;
            })
            ∷ rs)

  -- `EcamRegion::get_device_address`
  unfoldable pub get_device_address : EcamRegion → ℕ → ℕ → ℕ → Option ℕ
  get_device_address r bus device function = do
    assert (has_bus bus r)
    assert (ltb device 32)
    assert (ltb function 8)
    let offset = (bus - r.start_bus) * 2 ^ 20 + device * 2 ^ 15 + function * 2 ^ 12
    address ← add64 r.virtual_address offset
    virt_addr address

  -- The address of the register of `width` bytes at an offset: the first half of `read_config_u32` and
  -- of the other accesses. Those of one byte do not test the alignment, which always holds for them.
  unfoldable pub register_address : ℕ → EcamRegion → ℕ → ℕ → ℕ → ℕ → Option ℕ
  unfolding get_device_address
  register_address width r bus device function offset = do
    assert (offset % width == 0)
    assert (ltb offset 4096)
    device_base ← get_device_address r bus device function
    add64 device_base offset

  abbrev pub Outcome : Type 0
  Outcome = Result PciError (Unit {0}) × State

  -- The loop of `map_ecam_region`, over the numbers of the pages.
  unfoldable pub map_ecam_pages : ℕ → ℕ → List ℕ → State → Option Outcome
  map_ecam_pages virt_base phys_base [] st = some (ok tt, st)
  map_ecam_pages virt_base phys_base (i ∷ rest) st = do
    v ← add64 virt_base (i * 4096)
    page ← page_of v
    p ← add64 phys_base (i * 4096)
    frame ← frame_of p
    let flags = join (join (join present writable) no_cache) no_execute
    let mapped = map_to page frame flags st
    elim mapped.0 [
      | err e ↦ some (err ecam_mapping_failed, mapped.1)
      | ok u ↦ map_ecam_pages virt_base phys_base rest mapped.1
    ]

  -- What `map_ecam_region` changes: `NEXT_ECAM_VIRT`, the region, and the page tables.
  pub record Mapping : Type 0 where
    pub next_ecam_virt : ℕ
    pub region : EcamRegion
    pub tables : State

  -- The end of `map_ecam_region`, from the assignment to `NEXT_ECAM_VIRT` on.
  unfoldable pub place_region : ℕ → Mapping → Option (Result PciError (Unit {0}) × Mapping)
  unfolding map_ecam_pages
  place_region pages_needed w = do
    next ← add64 w.next_ecam_virt (pages_needed * 4096)
    virt_base ← virt_addr w.next_ecam_virt
    r ← map_ecam_pages virt_base w.region.base_address (steps pages_needed 0 1) w.tables
    some (
      r.0,
      record {
        next_ecam_virt = next;
        region = record w.region { virtual_address = virt_base };
        tables = r.1;
      },
    )

  -- `map_ecam_region`. The test for an overflow of the virtual addresses compares with a saturating
  -- sum, which is never below them.
  unfoldable pub map_ecam_region : Mapping → Option (Result PciError (Unit {0}) × Mapping)
  unfolding mapping_size place_region
  map_ecam_region w =
      let pages_needed = (mapping_size w.region + 4095) / 4096 in
      if mapping_size w.region == 0
      then some (err ecam_mapping_failed, w)
      else if ltb (1024 * 1024) pages_needed
      then some (err ecam_mapping_failed, w)
      else if ltb (saturating_add w.next_ecam_virt (pages_needed * 4096)) w.next_ecam_virt
      then some (err ecam_mapping_failed, w)
      else place_region pages_needed w

  -- The loop of `PciManager::init` over the regions: those that it has mapped, `NEXT_ECAM_VIRT` and the
  -- page tables after it.
  abbrev pub AllMapped : Type 0
  AllMapped = Result PciError (List EcamRegion) × ℕ × State

  unfoldable pub add_region : EcamRegion → AllMapped → AllMapped
  add_region r (err e, next, st) = (err e, next, st)
  add_region r (ok rs, next, st) = (ok (r ∷ rs), next, st)

  -- The other rounds, after one: the `?` of the first failure ends the loop.
  unfoldable pub then_map :
      (ℕ → State → Option AllMapped) → Result PciError (Unit {0}) × Mapping → Option AllMapped
  unfolding add_region
  then_map more (err e, w) = some (err e, w.next_ecam_virt, w.tables)
  then_map more (ok u, w) = do
    rest ← more w.next_ecam_virt w.tables
    some (add_region w.region rest)

  unfoldable pub map_regions : List EcamRegion → ℕ → State → Option AllMapped
  unfolding map_ecam_region then_map
  map_regions [] next st = some (ok [], next, st)
  map_regions (r ∷ rs) next st =
      map_ecam_region (record { next_ecam_virt = next; region = r; tables = st })
      >>= then_map (map_regions rs)
