-- ===== src/Memory/Forest/Tests.antt =====
-- The theorem on the cutting of regions at a region of 59 frames and the kernel's 100 places.
use locos.Prelude.{◌≡◌, ◌≤◌, arith, length, some, List}
use locos.Memory.Forest.{Config, cut_region}
use locos.Memory.Forest.Cut.{IsCut, cut_region-IsCut}

cut_region-IsCut_example :
    (cs : List Config) × (cut_region 100 16 0x101000 59 ≡ some cs)
    × IsCut 16 0x101000 59 cs
    × (length cs ≤ 52)
cut_region-IsCut_example =
    cut_region-IsCut 100 52 4 0x101000 59 (omega arith) (omega arith) (omega arith) (omega arith)
