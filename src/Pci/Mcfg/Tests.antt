-- ===== src/Pci/Mcfg/Tests.antt =====
-- The theorems on configuration space at two regions of one bus each.
use locos.Prelude.{
  ◌+◌, ◌-◌, ◌%◌, none, ◌≡◌, ◌≤◌, ◌⊎◌, inl, inr, refl, arith, some, ok, List, [], ◌∷◌, All,
}
use locos.Memory.Mapper.{Mapper}
use locos.Memory.Mapper.Simple.{simple}
use locos.Pci.Mcfg.{
  EcamRegion, McfgEntry, mapping_size, get_device_address, register_address, parse_entries,
  map_regions, map_ecam_region, place_region, map_ecam_pages, then_map, add_region,
  validate_ecam_region,
}
use locos.Pci.Mcfg.Registers.{register_address-window}
use locos.Pci.Mcfg.Windows.{map_regions-apart, validate_ecam_region-map_regions}

-- Bus 4 alone, at an address of the window of configuration space.
abbrev bus_four : EcamRegion
bus_four = record {
  base_address = 0xB0400000;
  virtual_address = 0xFFFFF40000000000;
  segment_group = 0;
  start_bus = 4;
  end_bus = 4;
}

vendor_of_third : register_address simple 4 bus_four 4 3 1 0x10 ≡ some 0xFFFFF40000019010
unfolding register_address get_device_address
vendor_of_third = refl

register_address-window_example :
    (0xFFFFF40000000000 ≤ 0xFFFFF40000019010)
    × (0xFFFFF40000019010 + 4 ≤ 0xFFFFF40000000000 + mapping_size bus_four)
register_address-window_example =
    register_address-window simple 4 bus_four 4 3 1 0x10 0xFFFFF40000019010 (inr (inr refl))
      (omega arith) vendor_of_third

-- Page tables that map whatever they are asked to.
abbrev accepting : Mapper
accepting = record {
  State = Unit;
  MapError = Unit;
  UnmapError = Unit;
  frame_allocation_failed = tt;
  Flags = Unit;
  present = tt;
  writable = tt;
  user_accessible = tt;
  no_cache = tt;
  no_execute = tt;
  join = λ f g. tt;
  page_of = λ a. some (a - a % 4096);
  frame_of = λ a. some (a - a % 4096);
  allocate_frame = λ st. (some 0x5000, st);
  deallocate_frame = λ frame st. some st;
  map_to = λ page frame flags st. (ok tt, st);
  unmap = λ page st. (ok 0x5000, st);
  map_user = λ table page frame flags st. (ok tt, st);
  present_entry = λ table i st. some none;
}

-- Two segment groups with the same bus, and an entry that is skipped.
abbrev table : List McfgEntry
table =
    (record {
      base_address = 0xB0400000;
      pci_segment_group = 0;
      bus_number_start = 4;
      bus_number_end = 4;
    })
    ∷ (record { base_address = 0; pci_segment_group = 0; bus_number_start = 5; bus_number_end = 5 })
    ∷ (record {
      base_address = 0xC0400000;
      pci_segment_group = 1;
      bus_number_start = 4;
      bus_number_end = 4;
    })
    ∷ []

abbrev parsed : List EcamRegion
parsed =
    record bus_four { virtual_address = 0 }
    ∷ record bus_four { base_address = 0xC0400000; virtual_address = 0; segment_group = 1 }
    ∷ []

abbrev second_bus_four : EcamRegion
second_bus_four = record bus_four {
  base_address = 0xC0400000;
  virtual_address = 0xFFFFF40000100000;
  segment_group = 1;
}

parse_table : parse_entries accepting table ≡ some parsed
unfolding parse_entries
parse_table = refl

map_parsed :
    map_regions accepting parsed 0xFFFFF40000000000 tt
    ≡ some (ok (bus_four ∷ second_bus_four ∷ []), 0xFFFFF40000200000, tt)
unfolding map_regions map_ecam_region place_region map_ecam_pages then_map add_region mapping_size
map_parsed = refl

vendor_of_first : register_address accepting 2 bus_four 4 0 0 0 ≡ some 0xFFFFF40000000000
unfolding register_address get_device_address
vendor_of_first = refl

vendor_of_second : register_address accepting 2 second_bus_four 4 0 0 0 ≡ some 0xFFFFF40000100000
unfolding register_address get_device_address
vendor_of_second = refl

map_regions-apart_example :
    (0xFFFFF40000000000 + 2 ≤ 0xFFFFF40000100000) ⊎ (0xFFFFF40000100000 + 2 ≤ 0xFFFFF40000000000)
map_regions-apart_example =
    map_regions-apart accepting parsed (bus_four ∷ second_bus_four ∷ []) 0xFFFFF40000000000
      0xFFFFF40000200000 tt tt map_parsed 0 1 bus_four second_bus_four refl refl
      (λ e. absurd (omega (arith, e))) (omega arith) (omega arith) 2 2 4 4 0 0 0 0 0 0
      0xFFFFF40000000000 0xFFFFF40000100000 (inr (inl refl)) (inr (inl refl)) vendor_of_first
      vendor_of_second

validate_ecam_region-map_regions_example :
    All (λ q. validate_ecam_region q ≡ ok tt) (bus_four ∷ second_bus_four ∷ [])
validate_ecam_region-map_regions_example =
    validate_ecam_region-map_regions accepting table parsed (bus_four ∷ second_bus_four ∷ [])
      0xFFFFF40000000000 0xFFFFF40000200000 tt tt (omega arith, (omega arith, (omega arith, tt)))
      (omega arith) parse_table map_parsed
