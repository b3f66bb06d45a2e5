-- ===== src/Memory/BuddyAlloc/Contract.antt =====
-- The contract of `GlobalAlloc`, which knows the allocated blocks and what memory holds, but neither
-- levels in lists nor free blocks; the kernel heap refines it.
use locos.Prelude.{ℕ, ◌+◌, ◌%◌, ◌^◌, ◌≤◌, ◌<◌, ◌≡◌, ap, List, ◌∷◌, ◌++◌, arith}
use locos.Memory.Blocks.{hit}
use locos.Memory.FreeList.{Memory}
use locos.Memory.BuddyAlloc.{Params}
use locos.Memory.BuddyAlloc.Valid.{size_of, Fits, IsStart}
use locos.Memory.BuddyAlloc.Level.{layout_size-le, get_level_from_size-some, IsBlock-aligned}
use locos.Memory.BuddyAlloc.Layouts.{alloc-Got}
use locos.Memory.BuddyAlloc.History.{
  Held, System, held_cover, Move, allocs, deallocs, writes, Reach, here, next, IsHeld, IsSound,
  Reach-IsSound, Got-some, Freed-some, held_cover-given, give-Freed,
}

-- The allocated blocks, and the memory.
pub record Spec : Type 0 where
  pub held : List Held
  pub mem : Memory

-- A block may be granted: it is in the region, apart from all allocated blocks, large enough for the
-- layout, and aligned.
pub record IsGrant (u top base : ℕ) (x : Spec) (p : Held) : Type 0 where
  pub apart :
      (a : ℕ)
      → hit (size_of u top p.level) p.block a + held_cover u top x.held a
        ≤ hit (size_of u top 0) base a
  pub large : p.size ≤ size_of u top p.level
  pub aligned : (k : ℕ) → p.align ≡ 2 ^ k → p.block % p.align ≡ 0

-- Memory is the same in the blocks `held`.
abbrev pub IsKept : ℕ → ℕ → List Held → Memory → Memory → Type 0
IsKept u top held mem mem' = (a : ℕ) → 0 < held_cover u top held a → mem' a ≡ mem a

-- What the contract allows. Granting and returning a block keep what the other blocks hold.
pub data Allowed (u top base : ℕ) (x y : Spec) : Type 0 where
  grants :
      (p : Held) (mem : Memory)
      → IsGrant u top base x p
      → IsKept u top x.held x.mem mem
      → y ≡ record { held = p ∷ x.held; mem = mem }
      → Allowed u top base x y
  returns :
      (before after : List Held) (p : Held) (mem : Memory)
      → x.held ≡ before ++ p ∷ after
      → IsKept u top (before ++ after) x.mem mem
      → y ≡ record { held = before ++ after; mem = mem }
      → Allowed u top base x y
  stores :
      (mem : Memory)
      → ((a : ℕ) → held_cover u top x.held a ≡ 0 → mem a ≡ x.mem a)
      → y ≡ record { held = x.held; mem = mem }
      → Allowed u top base x y

pub data Runs (u top base : ℕ) (x : Spec) : Spec → Type 0 where
  start : Runs u top base x x
  step : {y z : Spec} → Runs u top base x y → Allowed u top base y z → Runs u top base x z

-- What the contract sees of the heap.
abbrev pub view : System → Spec
view x = record { held = x.held; mem = x.heap.mem }

module _ {u top base : ℕ} {c : Params} (f : Fits u top c) (r : IsStart u top base) where
  Held-aligned :
      (p : Held)
      → IsHeld u top base c p
      → (p.size ≤ size_of u top p.level) × ((k : ℕ) → p.align ≡ 2 ^ k → p.block % p.align ≡ 0)
  Held-aligned p (i, at) =
      let (low, large) = get_level_from_size-some f i.bytes p.level i.chosen in
      let (size, align) = layout_size-le p.size p.align i.bytes i.rounded in
      (
        omega (arith, size, large),
        λ k e. rw e (IsBlock-aligned k p.level p.block r low (omega (arith, align, large, e)) at),
      )

  Move-Allowed :
      {x y : System}
      → Move u top c x y
      → IsSound u top base c x
      → Allowed u top base (view x) (view y)
  Move-Allowed {x} (allocs p h i e to) w =
      let (ls, v, at, covered, spared) =
        Got-some u top base _ x.heap h w.free p.level p.block _ e
          (alloc-Got f r w.valid p.size p.align p.level i) in
      let (large, aligned) = Held-aligned p (i, at) in
      grants p h.mem
        (record {
          apart = λ a. omega (arith, covered a, w.split a);
          large = large;
          aligned = aligned;
        })
        (λ a i. spared a (ground (arith, i, w.split a))) (ap view to)
  Move-Allowed {x} (deallocs before after p h e done to) w =
      let (ls, v, covered, spared) =
        Freed-some u top base x.heap h w.free p.level p.block _ done
          (give-Freed f r before after p w e) in
      returns before after p h.mem e
        (λ a k.
          spared a (ground (arith, w.split a, held_cover-given u top before after p x.held e a, k)))
        (ap view to)
  Move-Allowed {x} (writes mem same to) w = stores mem same (ap view to)

  -- Every history of `alloc`, `dealloc` and writes to allocated blocks is one that the contract of an
  -- allocator allows: each block that is granted lies in the heap, overlaps no allocated block, is
  -- large enough and aligned, and neither call changes what the other allocated blocks hold.
  pub Reach-Runs :
      {x y : System}
      → Reach u top c x y
      → IsSound u top base c x
      → Runs u top base (view x) (view y)
  Reach-Runs here w = start
  Reach-Runs (next s m) w = step (Reach-Runs s w) (Move-Allowed m (Reach-IsSound f r s w))
