-- ===== src/Memory/DoubleFreeList/Tests.antt =====
-- The theorem on doubly linked lists at a list of three nodes.
use locos.Prelude.{ℕ, ◌≡◌, refl, arith, some, [], ◌∷◌}
use locos.Memory.FreeList.Chain.{occ}
use locos.Memory.DoubleFreeList.{Nodes, DoubleFreeList, cleared, remove}
use locos.Memory.DoubleFreeList.Linked.{Lists, node_at}
use locos.Memory.DoubleFreeList.Removal.{remove-Lists}

abbrev three_nodes : Nodes
three_nodes a = node_at 1 (0x40 ∷ 0x20 ∷ 0x60 ∷ []) a

abbrev three_list : DoubleFreeList
three_list = record { next = some 0x40; len = 3 }

three-Lists : Lists three_nodes three_list 1 (0x40 ∷ 0x20 ∷ 0x60 ∷ [])
three-Lists = (refl, refl, λ a i. refl)

remove-Lists_example :
    (f : DoubleFreeList) × (mem : Nodes) × (remove three_list three_nodes 0x20 ≡ some (f, mem))
    × Lists mem f 1 (0x40 ∷ 0x60 ∷ [])
    × (mem 0x20 ≡ cleared)
    × ((a : ℕ) → occ a (0x40 ∷ 0x20 ∷ 0x60 ∷ []) ≡ 0 → mem a ≡ three_nodes a)
remove-Lists_example =
    remove-Lists three_nodes three_list 1 0x20 (0x40 ∷ 0x20 ∷ 0x60 ∷ []) three-Lists
      (λ r. ground arith) (omega arith)
