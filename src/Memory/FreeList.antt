-- ===== src/Memory/FreeList.antt =====
-- kernel/src/memory/freelist.rs, `FreeList`: free blocks that are linked through their first word.
-- `none` of an operation is a panic of the counter, or a walk that has run out of fuel.
pub mod Chain
pub mod Removal
pub mod Chains
use locos.Prelude.{
  ℕ, zero, suc, ◌+◌, Bool, true, false, Option, none, some, ◌>>=◌, ◌==◌, if◌then◌else◌, add64,
  sub64,
}

-- The `next` field of the `Node` at each address; pointers are addresses, and `none` is null.
abbrev pub Memory : Type 0
Memory = ℕ → Option ℕ

-- `node.write(Node { next })`, and an assignment to the field.
abbrev pub write_next : Memory → ℕ → Option ℕ → Memory
write_next mem p next q = if q == p then next else mem q

-- `FreeList`
pub record FreeList : Type 0 where
  pub head : Option ℕ
  pub len : ℕ

-- `FreeList::new`
abbrev pub new_list : FreeList
new_list = record { head = none; len = 0 }

-- `FreeList::push`
unfoldable pub push : FreeList → Memory → ℕ → Option (FreeList × Memory)
push f mem ptr = do
  n ← add64 f.len 1
  some (record { head = some ptr; len = n }, write_next mem ptr f.head)

-- `FreeList::pop`, by the head; the memory is only read.
unfoldable pub pop_head : FreeList → Memory → Option ℕ → Option (Option ℕ × FreeList)
pop_head f mem none = some (none, f)
pop_head f mem (some node) = do
  n ← sub64 f.len 1
  some (some node, record { head = mem node; len = n })

-- `FreeList::pop`
unfoldable pub pop : FreeList → Memory → Option (Option ℕ × FreeList)
unfolding pop_head
pop f mem = pop_head f mem f.head

-- The walk of `exists`.
pub exists_from : ℕ → Memory → Option ℕ → ℕ → Option Bool
exists_from fuel mem none ptr = some false
exists_from zero mem (some node) ptr = none
exists_from (suc fuel) mem (some node) ptr = elim (node == ptr) [
  | true ↦ some true
  | false ↦ exists_from fuel mem (mem node) ptr
]

-- `FreeList::exists`
pub exists : ℕ → FreeList → Memory → ℕ → Option Bool
unfolding exists_from
exists fuel f mem ptr = exists_from fuel mem f.head ptr

-- What `remove` does at the node that it looks for, after the node `prev`.
pub unlink : FreeList → Memory → Option ℕ → ℕ → Option (FreeList × Memory)
unlink f mem (some prev) node = do
  n ← sub64 f.len 1
  some (record f { len = n }, write_next mem prev (mem node))
unlink f mem none node = do n ← sub64 f.len 1; some (record { head = mem node; len = n }, mem)

-- The walk of `remove`.
pub remove_from : ℕ → FreeList → Memory → Option ℕ → Option ℕ → ℕ → Option (FreeList × Memory)
unfolding unlink
remove_from fuel f mem prev none ptr = some (f, mem)
remove_from zero f mem prev (some node) ptr = none
remove_from (suc fuel) f mem prev (some node) ptr = elim (node == ptr) [
  | true ↦ unlink f mem prev node
  | false ↦ remove_from fuel f mem (some node) (mem node) ptr
]

-- `FreeList::remove`
pub remove : ℕ → FreeList → Memory → ℕ → Option (FreeList × Memory)
unfolding remove_from
remove fuel f mem ptr = remove_from fuel f mem none f.head ptr

-- `FreeList::is_empty`
pub is_empty : FreeList → Bool
is_empty f = f.len == 0
