-- ===== src/Memory/BuddyAlloc/Start.antt =====
-- The kernel heap that `BuddyAlloc::new` makes, and the one of the kernel.
use locos.Prelude.{
  ℕ, zero, suc, ◌*◌, ◌^◌, ◌<◌, ◌≡◌, refl, none, some, List, [], ◌∷◌, arith, length-replicate,
  replicate, non_null,
}
use locos.Memory.Blocks.{cover, AllLevels}
use locos.Memory.FreeList.{Memory, new_list}
use locos.Memory.FreeList.Chains.{Chains}
use locos.Memory.BuddyAlloc.{BuddyAlloc, Params, new}
use locos.Memory.BuddyAlloc.Valid.{size_of, Fits, IsStart}
use locos.Memory.BuddyAlloc.History.{IsSound}

cover-replicate : (size : ℕ → ℕ) (n a : ℕ) → cover size (replicate n []) a ≡ 0
cover-replicate size zero a = refl
cover-replicate size (suc n) a = omega (arith, cover-replicate (λ l. size (suc l)) n a)

AllLevels-replicate : (P : ℕ → ℕ → Type 0) (n : ℕ) → AllLevels P (replicate n [])
AllLevels-replicate P zero = tt
AllLevels-replicate P (suc n) = (tt, AllLevels-replicate (λ l. P (suc l)) n)

Chains-replicate : (mem : Memory) (n : ℕ) → Chains mem (replicate n new_list) (replicate n [])
Chains-replicate mem zero = tt
Chains-replicate mem (suc n) = ((tt, refl), Chains-replicate mem n)

-- The heap from `start` on, all free.
abbrev pub whole : ℕ → ℕ → ℕ → BuddyAlloc
whole start end top = record {
  heap_start = start;
  heap_end = end;
  free_lists = (record { head = some start; len = 1 }) ∷ replicate top new_list;
}

module _ {u top base : ℕ} {c : Params} (f : Fits u top c) (r : IsStart u top base) (mem : Memory)
    (unlinked : mem base ≡ none) (end : ℕ) where
  pub whole-IsSound :
      IsSound u top base c
        (record { heap = record { alloc = whole base end top; mem = mem }; held = [] })
  whole-IsSound =
      let one : 0 < 2 ^ 0 = omega arith in
      let alone : (a : ℕ) → cover (λ l. size_of u top (suc l)) (replicate top []) a ≡ 0 =
        λ a. cover-replicate (λ l. size_of u top (suc l)) top a in
      record {
        free = (base ∷ []) ∷ replicate top [];
        valid = record {
          lists = omega (arith, length-replicate top (let e : List ℕ = [] in e));
          start = refl;
          chains = (((refl, rw unlinked tt), refl), Chains-replicate mem top);
          blocks = (((0, omega arith, one), tt), AllLevels-replicate _ top);
          once = λ a. ground (arith, alone a);
        };
        owned = tt;
        split = λ a. omega (arith, alone a);
      }

  -- `new` succeeds, given a heap at a multiple of its size. If the first word of the heap is zero,
  -- which `new` relies on and does not write, every address of the heap is then in exactly one free
  -- block.
  pub new-IsSound :
      (a : BuddyAlloc) × (new c base end ≡ some a)
      × IsSound u top base c (record { heap = record { alloc = a; mem = mem }; held = [] })
  unfolding new
  new-IsSound =
      let real : non_null base ≡ some base = ground (arith, r.low) in
      (whole base end top, rw real (rw (f.deep) refl), whole-IsSound)

-- `ALLOCATOR`: `L` is 21, `S` is 16, and the heap of `HEAP_SIZE` bytes is at `HEAP_START`. A walk of
-- a free list has fuel for all blocks of 16 bytes.
abbrev pub heap_start : ℕ
heap_start = 0xFFFF880000000000

abbrev pub heap_size : ℕ
heap_size = 16 * 1024 * 1024

abbrev pub kernel_heap : Params
kernel_heap = record { levels = 21; smallest = 16; fuel = 1048576 }
