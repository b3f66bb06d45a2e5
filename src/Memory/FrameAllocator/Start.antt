-- ===== src/Memory/FrameAllocator/Start.antt =====
-- The frame allocator that `FrameBuddyAllocator::new` makes on a page list that nothing has used.
use locos.Prelude.{
  ℕ, zero, suc, ◌+◌, ◌-◌, ◌*◌, ◌/◌, ◌%◌, ◌^◌, ◌≤◌, ◌<◌, ◌≡◌, refl, ap, true, none, some, List, [],
  arith, length-replicate, replicate, word, non_null, leb, ◌==◌, sub64, shl64, mul64,
}
use native.Mathlib.Nat.{mod-eq_of_lt}
use locos.Memory.Blocks.{cover, AllLevels}
use locos.Memory.Powers.{pow-add, two_pow_le, shift_size}
use locos.Memory.DoubleFreeList.{Nodes, new_double_list}
use locos.Memory.DoubleFreeList.Table.{Tables}
use locos.Memory.FrameAllocator.{Frames, new}
use locos.Memory.FrameAllocator.Valid.{size_of, pages_of, IsFrames}
use locos.Memory.FrameAllocator.Push.{Returned, push_block-Returned}

cover-replicate : (size : ℕ → ℕ) (n a : ℕ) → cover size (replicate n []) a ≡ 0
cover-replicate size zero a = refl
cover-replicate size (suc n) a = omega (arith, cover-replicate (λ l. size (suc l)) n a)

AllLevels-replicate : (P : ℕ → ℕ → Type 0) (n : ℕ) → AllLevels P (replicate n [])
AllLevels-replicate P zero = tt
AllLevels-replicate P (suc n) = (tt, AllLevels-replicate (λ l. P (suc l)) n)

Tables-replicate :
    (nodes : Nodes) (pages : ℕ → ℕ) (n : ℕ)
    → Tables nodes pages (replicate n new_double_list) (replicate n [])
Tables-replicate nodes pages zero = tt
Tables-replicate nodes pages (suc n) =
    ((refl, refl, λ a i. absurd (omega (arith, i))), Tables-replicate nodes (λ l. pages (suc l)) n)

-- The allocator before its one block is entered.
abbrev pub unfilled : ℕ → ℕ → ℕ → ℕ → Nodes → Frames
unfilled max_levels top start page_list_start nodes = record {
  allocator = record {
    free_lists = replicate max_levels new_double_list;
    levels = suc top;
    virt_start = start;
    virt_end = start + 2 ^ (12 + top);
    page_list_start = page_list_start;
  };
  nodes = nodes;
}

-- The node of the first frame.
abbrev pub first_node : ℕ → ℕ → ℕ
first_node start page_list_start = (start - page_list_start) / 4096 * 32 + page_list_start

module _ (max_levels top start page_list_start : ℕ) (nodes : Nodes) (few : top < 46)
    (enough : suc top ≤ max_levels) (low : 0 < page_list_start) (after : page_list_start ≤ start)
    (high : start + 2 * 2 ^ (12 + top) < word) (clear : (a : ℕ) → (nodes a).level_size ≡ none) where
  first-bound : first_node start page_list_start ≤ start
  first-bound = omega (arith, after)

  size_whole : size_of top 0 * 128 ≡ 2 ^ (12 + top)
  size_whole =
      let z : top - 0 ≡ top = omega arith in
      omega (
        arith,
        shift_size 5 top 0 (omega arith),
        ap (λ (t : ℕ). 2 ^ (5 + t)) z,
        pow-add 5 top,
        pow-add 12 top,
      )

  pub unfilled-IsFrames :
      IsFrames top
        (first_node start page_list_start)
        (unfilled max_levels top start page_list_start nodes)
        (replicate max_levels [])
  unfilled-IsFrames = record {
    few = few;
    whole = refl;
    low = low;
    after = omega arith;
    high = omega (arith, first-bound, size_whole, high);
    lists = omega (arith, enough, length-replicate max_levels (let e : List ℕ = [] in e));
    tables = Tables-replicate nodes (pages_of top) max_levels;
    blocks = AllLevels-replicate _ max_levels;
    once = λ a. omega (arith, cover-replicate (size_of top) max_levels a);
    marked = λ a i. clear a;
  }

  -- `new` on an unused page list succeeds, and then all frames of the allocator are free, in one block.
  pub new-Returned :
      1 ≤ top
      → start % 4096 ≡ 0
      → Returned top
          (first_node start page_list_start)
          (unfilled max_levels top start page_list_start nodes)
          (replicate max_levels [])
          0
          (first_node start page_list_start)
          (new max_levels (suc top) start (start + 2 ^ (12 + top)) page_list_start nodes)
  unfolding new
  new-Returned deep aligned =
      let pages : 2 ^ (12 + top) ≡ 4096 * 2 ^ top = omega (arith, pow-add 12 top) in
      let fits : 2 ^ top < word = omega (arith, two_pow_le top 45 (omega (arith, few))) in
      let a₀ : leb 2 (suc top) ≡ true = ground (arith, deep) in
      let a₁ : (start % 4096 == 0) ≡ true = ground (arith, aligned) in
      let a₂ : ((start + 2 ^ (12 + top)) % 4096 == 0) ≡ true =
        let e : (start + 2 ^ (12 + top)) % 4096 ≡ 0 = omega (arith, pages, aligned) in
        ground (arith, e) in
      let a₃ : sub64 (start + 2 ^ (12 + top)) start ≡ some (2 ^ (12 + top)) = ground arith in
      let a₄ : sub64 (suc top) 1 ≡ some top = ground arith in
      let a₅ : shl64 1 top ≡ some (2 ^ top) = ground (arith, mod-eq_of_lt fits, few) in
      let a₆ : mul64 (2 ^ top) 4096 ≡ some (2 ^ (12 + top)) = ground (arith, pages, high) in
      let a₇ : (2 ^ (12 + top) == 2 ^ (12 + top)) ≡ true = ground arith in
      let a₈ : sub64 start page_list_start ≡ some (start - page_list_start) =
        ground (arith, after) in
      let a₉ : non_null (first_node start page_list_start)
          ≡ some (first_node start page_list_start) =
        ground (arith, low) in
      let z : 0 + top ≡ top = omega arith in
      let count : 2 ^ (12 + top) / 4096 ≡ pages_of top 0 =
        omega (arith, pages, ap (λ (t : ℕ). 2 ^ t) z) in
      let f = first_node start page_list_start in
      rw a₀ (
        rw a₁ (
          rw a₂ (
            rw a₃ (
              rw a₄ (
                rw a₅ (
                  rw a₆ (
                    rw a₇ (
                      rw a₈ (
                        rw a₉ (
                          rw count (
                            push_block-Returned unfilled-IsFrames 0 f
                              (omega arith, omega arith, omega arith)
                              (λ a.
                                ground
                                  (arith, cover-replicate (size_of top) max_levels a)))))))))))))
