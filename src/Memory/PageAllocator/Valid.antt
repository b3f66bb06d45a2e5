-- ===== src/Memory/PageAllocator/Valid.antt =====
-- The invariant of the page allocator: a region of `2 ^ top` pages, and free lists that hold only
-- blocks of their level.
use locos.Prelude.{
  ℕ, suc, ◌+◌, ◌-◌, ◌*◌, ◌%◌, ◌/◌, ◌^◌, ◌≤◌, ◌<◌, ◌≡◌, ap, some, List, arith, length, word,
  length-set, All, set,
}
use locos.Memory.Blocks.{AllLevels, AllLevels-set, IsBlock}
use locos.Memory.Powers.{shift_total, shift_size, pow-add, block_end_le}
use locos.Memory.PageAllocator.{PageAllocator, block_size}

-- The size in bytes of a block of level `l`, when `top` is the level of single pages.
abbrev pub size_of : ℕ → ℕ → ℕ
size_of top l = 2 ^ (12 + top) / 2 ^ l

pub record IsValid (top : ℕ) (s : PageAllocator) : Type 0 where
  pub deep : s.levels ≡ suc top
  pub few : top < 52
  pub whole : s.heap_end ≡ s.heap_start + 2 ^ (12 + top)
  pub low : 0 < s.heap_start
  pub high : s.heap_end < word
  pub lists : length s.free_lists ≡ suc top
  pub blocks : AllLevels (IsBlock s.heap_start (size_of top)) s.free_lists

module _ {top : ℕ} {s : PageAllocator} (v : IsValid top s) where
  pub block_size_lem : (l : ℕ) → l ≤ top → block_size s l ≡ some (size_of top l)
  unfolding block_size
  block_size_lem l h =
      let e : s.heap_end - s.heap_start ≡ 2 ^ (12 + top) = omega (arith, v.whole) in
      rw e (ground (arith, v.whole, v.few))

  -- Putting blocks of the level into a level's list keeps the invariant.
  pub set-IsValid :
      (l : ℕ) (xs : List ℕ)
      → All (IsBlock s.heap_start (size_of top) l) xs
      → IsValid top (record s { free_lists = set s.free_lists l xs })
  set-IsValid l xs h = record {
    deep = v.deep;
    few = v.few;
    whole = v.whole;
    low = v.low;
    high = v.high;
    lists = omega (arith, length-set s.free_lists l xs, v.lists);
    blocks = AllLevels-set _ s.free_lists l xs v.blocks h;
  }

  -- A block lies in the region.
  pub IsBlock-bounds :
      (l b : ℕ)
      → l ≤ top
      → IsBlock s.heap_start (size_of top) l b
      → (s.heap_start ≤ b) × (b + size_of top l ≤ s.heap_end)
  IsBlock-bounds l b h (q, at, small) =
      omega (arith, v.whole, block_end_le q (2 ^ l) (size_of top l) small, shift_total 12 top l h)

  -- In a page-aligned region every block is page-aligned.
  pub IsBlock-aligned :
      (l b : ℕ)
      → l ≤ top
      → s.heap_start % 4096 ≡ 0
      → IsBlock s.heap_start (size_of top) l b
      → b % 4096 ≡ 0
  IsBlock-aligned l b h aligned (q, at, small) =
      let size : size_of top l ≡ 4096 * 2 ^ (top - l) =
        omega (arith, shift_size 12 top l h, pow-add 12 (top - l)) in
      let whole : q * size_of top l ≡ 4096 * (q * 2 ^ (top - l)) =
        omega (arith, ap (λ (t : ℕ). q * t) size) in
      omega (arith, at, whole)
