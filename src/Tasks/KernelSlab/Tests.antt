-- ===== src/Tasks/KernelSlab/Tests.antt =====
-- The theorems on the kernel stacks at a bitmap with no block taken, and with all of them.
use locos.Prelude.{
  ℕ, ◌≡◌, ◌≢◌, ◌<◌, ◌-◌, ◌^◌, refl, ◌==◌, ==_iff, true, some, List, [], ◌∷◌, ok, step_by,
}
use locos.Prelude.Bits.{bit, check_below, check_below_sound}
use locos.Memory.Mapper.{map_loop, map_page, map_frame, refuse}
use locos.Memory.Mapper.Simple.{simple, simple-KeepsMapped}
use locos.Tasks.KernelSlab.{
  KernelSlabAlloc, new, get_stack, return_stack, trailing_ones, finish_stack,
}
use locos.Tasks.KernelSlab.Stacks.{get_stack-ok, return_stack-get_stack, top_address}
use locos.Tasks.KernelSlab.Reuse.{get_stack-return_stack}

abbrev first : KernelSlabAlloc
first = record { block_bitmap = 1 }

abbrev three : List ℕ
three = 0xFFFFF30000003000 ∷ 0xFFFFF30000002000 ∷ 0xFFFFF30000001000 ∷ []

abbrev top : ℕ
top = 0xFFFFF30000003FF0

get_stack_runs : get_stack simple new [] ≡ some (ok top, first, three)
unfolding get_stack trailing_ones map_loop step_by map_page map_frame refuse finish_stack
get_stack_runs = refl

return_stack_runs : return_stack first top ≡ some new
unfolding return_stack
return_stack_runs = refl

get_stack-ok_example :
    (i : ℕ) × (i < 128)
    × (top ≡ top_address i)
    × (bit i 0 ≡ 0)
    × ((k : ℕ) → k < i → bit k 0 ≡ 1)
    × (bit i 1 ≡ 1)
    × ((j : ℕ) → i ≢ j → bit j 1 ≡ bit j 0)
get_stack-ok_example = get_stack-ok simple new first top [] three get_stack_runs

return_stack-get_stack_example :
    (a : KernelSlabAlloc) × (return_stack first top ≡ some a)
    × ((j : ℕ) → j < 128 → bit j a.block_bitmap ≡ bit j 0)
return_stack-get_stack_example = return_stack-get_stack simple new first top [] three get_stack_runs

get_stack-return_stack_example : get_stack simple new three ≢ some (ok top, first, three)
get_stack-return_stack_example =
    get_stack-return_stack simple simple-KeepsMapped new first new first top top [] three three
      three get_stack_runs return_stack_runs (λ page h. h)

abbrev full : KernelSlabAlloc
full = record { block_bitmap = 2 ^ 128 - 1 }

all_taken : check_below 128 (λ j. bit j full.block_bitmap == 1) ≡ true
unfolding check_below
all_taken = refl

full-taken : (i : ℕ) → i < 128 → bit i full.block_bitmap ≡ 1
full-taken i h =
    (==_iff (bit i full.block_bitmap) 1).0
      (check_below_sound 128 (λ j. bit j full.block_bitmap == 1) i h all_taken)
