-- ===== src/Tasks/KernelSlab/Stacks.antt =====
-- What `get_stack` and `return_stack` promise.
use locos.Prelude.{
  ℕ, ◌+◌, ◌-◌, ◌*◌, ◌/◌, ◌^◌, ◌<◌, ◌≡◌, ◌≢◌, refl, sym, ◌∙◌, true, bit_and, bit_or, ◌==◌, ==_iff,
  arith, none, some, >>=-eq-some, some_injective, Result, ok, err, leb, ltb, ◌&&◌, not, sub64,
  Bool-cases, inl, inr, assert,
}
use native.Mathlib.Decide.{ℕ_discrete, dec_lt}
use locos.Prelude.Bits.{bit, check_below, check_below_sound}
use locos.Memory.Mapper.{Mapper, Failure, map_loop}
use locos.Tasks.KernelSlab.{
  KernelSlabAlloc, StackAllocError, frame_error, kernel_tasks_start, kstack_size, stack_top,
  trailing_ones, finish_stack, get_stack, return_stack,
}
use locos.Prelude.BitSet.{set_self, set_other, clear_self, clear_other, test_bit}
use locos.Tasks.KernelSlab.Bitmap.{trailing_ones_lem}

-- The address that `get_stack` returns for a block, as arithmetic.
abbrev pub top_address : ℕ → ℕ
top_address i = kernel_tasks_start + i * 0x4000 + 0x3FF0

-- The block that `return_stack` computes from an address.
abbrev pub index_of : ℕ → ℕ
index_of addr = bit_and (addr - kernel_tasks_start) 0xFFFF_FFFF_FFFF_C000 / (kstack_size * 0x1000)

top_table : check_below 128 (λ i. stack_top i == top_address i) ≡ true
unfolding check_below
top_table = refl

index_table : check_below 128 (λ i. index_of (top_address i) == i) ≡ true
unfolding check_below
index_table = refl

pub stack_top_lem : (i : ℕ) → i < 128 → stack_top i ≡ top_address i
stack_top_lem i h = (==_iff _ _).0 (check_below_sound 128 _ i h top_table)

pub index_of_lem : (i : ℕ) → i < 128 → index_of (top_address i) ≡ i
index_of_lem i h = (==_iff _ _).0 (check_below_sound 128 _ i h index_table)

abbrev pub cleared : KernelSlabAlloc → ℕ → KernelSlabAlloc
cleared a i = record { block_bitmap = bit_and a.block_bitmap (2 ^ 128 - 1 - 2 ^ i) }

offset_lem :
    (i : ℕ) → sub64 (top_address i) kernel_tasks_start ≡ some (top_address i - kernel_tasks_start)
offset_lem i = ground arith

-- Returning the stack of a taken block clears its bit.
return_stack-cleared :
    (a : KernelSlabAlloc) (i : ℕ)
    → i < 128
    → bit i a.block_bitmap ≡ 1
    → return_stack a (top_address i) ≡ some (cleared a i)
unfolding return_stack
return_stack-cleared a i h taken =
    let inside : ltb i 128 ≡ true = ground arith in
    rw (offset_lem i) (rw (index_of_lem i h) (rw inside (rw ((test_bit i a.block_bitmap).0 taken))))

-- Returning a stack a second time, whatever the address, fails the assertion.
pub return_stack_twice :
    (a a' : KernelSlabAlloc) (addr : ℕ)
    → return_stack a addr ≡ some a'
    → return_stack a' addr ≡ none
unfolding return_stack
return_stack_twice a a' addr h =
    let (offset, at, h₁) = >>=-eq-some (sub64 addr kernel_tasks_start) _ h in
    let i = bit_and offset 0xFFFF_FFFF_FFFF_C000 / (kstack_size * 0x1000) in
    let (_, checked, h₂) =
      >>=-eq-some (assert (ltb i 128 && not (bit_and a.block_bitmap (2 ^ i) == 0))) _ h₁ in
    let inside : i < 128 = ground arith in
    let after : a'.block_bitmap ≡ bit_and a.block_bitmap (2 ^ 128 - 1 - 2 ^ i) = ground arith in
    let gone : bit i a'.block_bitmap ≡ 0 = rw after (clear_self 128 i a.block_bitmap inside) in
    let low : ltb i 128 ≡ true = ground arith in
    rw at (rw low (rw ((test_bit i a'.block_bitmap).1 gone)))

module _ (m : Mapper) where
  open m use {State, MapError}

  -- The block at the index of `get_stack`, when it returned an address.
  record Claimed (a a' : KernelSlabAlloc) (addr i : ℕ) : Type 0 where
    inside : i < 128
    free : bit i a.block_bitmap ≡ 0
    first : (k : ℕ) → k < i → bit k a.block_bitmap ≡ 1
    address : addr ≡ top_address i
    updated : a'.block_bitmap ≡ bit_or a.block_bitmap (2 ^ i)

  finish_stack-ok :
      (a : KernelSlabAlloc) (i addr : ℕ) (r : Result (Failure MapError) (Unit {0}) × State)
      (a' : KernelSlabAlloc) (st : State)
      → finish_stack m a i r ≡ (ok addr, a', st)
      → (addr ≡ stack_top i) × (a'.block_bitmap ≡ bit_or a.block_bitmap (2 ^ i))
  unfolding finish_stack
  finish_stack-ok a i addr (err e, s) a' st h = ground arith
  finish_stack-ok a i addr (ok u, s) a' st h = ground arith

  finish_stack-err :
      (a : KernelSlabAlloc) (i : ℕ) (e : StackAllocError)
      (r : Result (Failure MapError) (Unit {0}) × State) (a' : KernelSlabAlloc) (st : State)
      → finish_stack m a i r ≡ (err e, a', st)
      → a' ≡ a
  unfolding finish_stack
  finish_stack-err a i e (err f, s) a' st h = ground arith
  finish_stack-err a i e (ok u, s) a' st h = ground arith

  get_stack-Claimed :
      (a a' : KernelSlabAlloc) (addr : ℕ) (st st' : State)
      → get_stack m a st ≡ some (ok addr, a', st')
      → Claimed a a' addr (trailing_ones 128 a.block_bitmap)
  unfolding get_stack
  get_stack-Claimed a a' addr st st' h =
      let i = trailing_ones 128 a.block_bitmap in
      let (most, ones, next) = trailing_ones_lem 128 a.block_bitmap in
      elim (Bool-cases (leb 128 i)) [
        | inl full ↦ let h' = rw full at h in ground arith
        | inr room ↦
            let h' = rw room at h in
            let (r, mapped, done) = >>=-eq-some (map_loop m _ _ st) _ h' in
            let inside : i < 128 = ground arith in
            let (at, set) = finish_stack-ok a i addr r a' st' (some_injective _ _ done) in
            record {
              inside = inside;
              free = next inside;
              first = ones;
              address = at ∙ stack_top_lem i inside;
              updated = set;
            }
      ]

  -- A kernel stack that `get_stack` returned is the top of the first free block of the bitmap,
  -- rounded down to 16 bytes; the block is then taken, and every other block is as it was.
  pub get_stack-ok :
      (a a' : KernelSlabAlloc) (addr : ℕ) (st st' : State)
      → get_stack m a st ≡ some (ok addr, a', st')
      → (i : ℕ) × (i < 128)
        × (addr ≡ top_address i)
        × (bit i a.block_bitmap ≡ 0)
        × ((k : ℕ) → k < i → bit k a.block_bitmap ≡ 1)
        × (bit i a'.block_bitmap ≡ 1)
        × ((j : ℕ) → i ≢ j → bit j a'.block_bitmap ≡ bit j a.block_bitmap)
  get_stack-ok a a' addr st st' h =
      let i = trailing_ones 128 a.block_bitmap in
      let c = get_stack-Claimed a a' addr st st' h in
      (
        i,
        c.inside,
        c.address,
        c.free,
        c.first,
        rw (c.updated) (set_self i a.block_bitmap),
        λ j ne. rw (c.updated) (set_other i j a.block_bitmap ne),
      )

  -- An error of `get_stack` leaves the bitmap as it was.
  pub get_stack-err :
      (a a' : KernelSlabAlloc) (e : StackAllocError) (st st' : State)
      → get_stack m a st ≡ some (err e, a', st')
      → a' ≡ a
  unfolding get_stack
  get_stack-err a a' e st st' h =
      let i = trailing_ones 128 a.block_bitmap in
      elim (Bool-cases (leb 128 i)) [
        | inl full ↦ let h' = rw full at h in ground arith
        | inr room ↦
            let h' = rw room at h in
            let (r, mapped, done) = >>=-eq-some (map_loop m _ _ st) _ h' in
            finish_stack-err a i e r a' st' (some_injective _ _ done)
      ]

  -- With all 128 blocks taken, `get_stack` fails and changes nothing.
  pub get_stack_full :
      (a : KernelSlabAlloc) (st : State)
      → ((i : ℕ) → i < 128 → bit i a.block_bitmap ≡ 1)
      → get_stack m a st ≡ some (err frame_error, a, st)
  unfolding get_stack
  get_stack_full a st taken =
      let i = trailing_ones 128 a.block_bitmap in
      let (most, ones, next) = trailing_ones_lem 128 a.block_bitmap in
      let full : leb 128 i ≡ true = elim (dec_lt i 128) [
        | yes low ↦ absurd (omega (arith, next low, taken i low))
        | no high ↦ ground arith
      ] in
      rw full

  -- Giving a stack back right after getting it succeeds, and leaves every block as it was before.
  pub return_stack-get_stack :
      (a a' : KernelSlabAlloc) (addr : ℕ) (st st' : State)
      → get_stack m a st ≡ some (ok addr, a', st')
      → (a'' : KernelSlabAlloc) × (return_stack a' addr ≡ some a'')
        × ((j : ℕ) → j < 128 → bit j a''.block_bitmap ≡ bit j a.block_bitmap)
  return_stack-get_stack a a' addr st st' h =
      let i = trailing_ones 128 a.block_bitmap in
      let c = get_stack-Claimed a a' addr st st' h in
      let taken : bit i a'.block_bitmap ≡ 1 = rw (c.updated) (set_self i a.block_bitmap) in
      (
        cleared a' i,
        rw (c.address) (return_stack-cleared a' i c.inside taken),
        λ j low. elim (ℕ_discrete i j) [
          | yes same ↦ rw (← same) (clear_self 128 i a'.block_bitmap c.inside ∙ sym c.free)
          | no other ↦
              clear_other 128 i j a'.block_bitmap c.inside low other
              ∙ rw (c.updated) (set_other i j a.block_bitmap other)
        ],
      )
