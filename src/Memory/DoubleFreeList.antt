-- ===== src/Memory/DoubleFreeList.antt =====
-- kernel/src/memory/freelist.rs, `DoubleFreeList`: doubly linked lists of frames, whose nodes stand in
-- the page list of a memory region. Every operation has a fixed number of steps. `none` is a panic.
pub mod Order
pub mod Writes
pub mod Linked
pub mod Removal
pub mod Table
mod Tests
use locos.Prelude.{
  ℕ, ◌+◌, Bool, true, false, Option, none, some, ◌>>=◌, ◌==◌, if◌then◌else◌, add64, sub64,
}

-- `DoubleFreeListNode`, with its links.
pub record Node : Type 0 where
  pub next : Option ℕ
  pub prev : Option ℕ
  pub level_size : Option ℕ

-- The node at each address.
abbrev pub Nodes : Type 0
Nodes = ℕ → Node

abbrev pub write : Nodes → ℕ → Node → Nodes
write mem p node q = if q == p then node else mem q

-- `DoubleFreeListNode::new(DoubleFreeListLink::new(None, None), None)`
abbrev pub cleared : Node
cleared = record { next = none; prev = none; level_size = none }

-- Assignments to the links of a node that may be there.
abbrev pub set_prev : Option ℕ → Option ℕ → Nodes → Nodes
set_prev none link mem = mem
set_prev (some p) link mem = write mem p (record (mem p) { prev = link })

abbrev pub set_next : Option ℕ → Option ℕ → Nodes → Nodes
set_next none link mem = mem
set_next (some p) link mem = write mem p (record (mem p) { next = link })

-- `DoubleFreeList`; its `links.prev` is never used.
pub record DoubleFreeList : Type 0 where
  pub next : Option ℕ
  pub len : ℕ

-- `DoubleFreeList::new`
abbrev pub new_double_list : DoubleFreeList
new_double_list = record { next = none; len = 0 }

-- `DoubleFreeList::push`
unfoldable pub push : DoubleFreeList → Nodes → ℕ → ℕ → Option (DoubleFreeList × Nodes)
push f mem node level_size = do
  n ← add64 f.len 1
  some (
    record { next = some node; len = n },
    write (set_prev f.next (some node) mem) node
        (record { next = f.next; prev = none; level_size = some level_size }),
  )

-- `DoubleFreeList::pop`, by the first node.
unfoldable pub pop_node :
    DoubleFreeList → Nodes → Option ℕ → Option (Option ℕ × DoubleFreeList × Nodes)
pop_node f mem none = some (none, f, mem)
pop_node f mem (some node) = do
  n ← sub64 f.len 1
  let next = (mem node).next
  some (some node, record { next = next; len = n }, write (set_prev next none mem) node cleared)

-- `DoubleFreeList::pop`
unfoldable pub pop : DoubleFreeList → Nodes → Option (Option ℕ × DoubleFreeList × Nodes)
unfolding pop_node
pop f mem = pop_node f mem f.next

-- The head of the list after `remove`: it changes when the node has no `prev`.
abbrev pub head_without : Option ℕ → Node → Option ℕ
head_without head node = elim node.prev [ none ↦ node.next | some p ↦ head ]

-- The memory after `remove`.
abbrev pub unlinked : Nodes → ℕ → Nodes
unlinked mem node =
    let at = mem node in
    write (set_prev at.next at.prev (set_next at.prev at.next mem)) node cleared

-- `DoubleFreeList::remove`
unfoldable pub remove : DoubleFreeList → Nodes → ℕ → Option (DoubleFreeList × Nodes)
remove f mem node = do
  n ← sub64 f.len 1
  some (record { next = head_without f.next (mem node); len = n }, unlinked mem node)

-- `DoubleFreeList::contains`, which looks at the node only.
unfoldable pub contains : Nodes → ℕ → ℕ → Bool
contains mem node level_size = elim (mem node).level_size [
  | none ↦ false
  | some size ↦ size == level_size
]
