-- ===== src/Memory/PageAllocator/Start.antt =====
-- The page allocator that `new` makes: one free block, the whole region.
use locos.Prelude.{
  ℕ, zero, suc, ◌+◌, ◌*◌, ◌%◌, ◌^◌, ◌<◌, ◌≡◌, refl, true, some, List, [], ◌∷◌, arith, word,
  length-replicate, replicate, sub64, mul64, shl64, non_null, ◌==◌,
}
use native.Mathlib.Nat.{mod-eq_of_lt}
use locos.Memory.Blocks.{cover, AllLevels}
use locos.Memory.Powers.{two_pow_le, pow-add}
use locos.Memory.PageAllocator.{PageAllocator, new}
use locos.Memory.PageAllocator.Valid.{size_of}
use locos.Memory.PageAllocator.History.{IsPartition}

cover-replicate : (size : ℕ → ℕ) (n a : ℕ) → cover size (replicate n []) a ≡ 0
cover-replicate size zero a = refl
cover-replicate size (suc n) a = omega (arith, cover-replicate (λ l. size (suc l)) n a)

AllLevels-replicate : (P : ℕ → ℕ → Type 0) (n : ℕ) → AllLevels P (replicate n [])
AllLevels-replicate P zero = tt
AllLevels-replicate P (suc n) = (tt, AllLevels-replicate (λ l. P (suc l)) n)

-- The region of `2 ^ top` pages from `start` on, all free.
abbrev pub whole : ℕ → ℕ → PageAllocator
whole start top = record {
  heap_start = start;
  heap_end = start + 2 ^ (12 + top);
  levels = suc top;
  free_lists = (start ∷ []) ∷ replicate top [];
}

module _ (start top : ℕ) (low : 0 < start) (few : top < 52)
    (high : start + 2 ^ (12 + top) < word) where
  pub whole-IsPartition : IsPartition top start (record { pages = whole start top; held = [] })
  whole-IsPartition = record {
    valid = record {
      deep = refl;
      few = few;
      whole = refl;
      low = low;
      high = high;
      lists = omega (arith, length-replicate top (let e : List ℕ = [] in e));
      blocks = (((0, omega arith, omega arith), tt), AllLevels-replicate _ top);
    };
    same = refl;
    owned = tt;
    split = λ a. omega (arith, cover-replicate (λ l. size_of top (suc l)) top a);
  }

  new-whole :
      start % 4096 ≡ 0 → new start (start + 2 ^ (12 + top)) (suc top) ≡ some (whole start top)
  unfolding new
  new-whole aligned =
      let pages : 2 ^ (12 + top) ≡ 4096 * 2 ^ top = omega (arith, pow-add 12 top) in
      let fits : 2 ^ top < word = omega (arith, two_pow_le top 51 (omega arith)) in
      let a₁ : (start % 4096 == 0) ≡ true = ground arith in
      let a₂ : ((start + 2 ^ (12 + top)) % 4096 == 0) ≡ true =
        let e : (start + 2 ^ (12 + top)) % 4096 ≡ 0 = omega (arith, pages) in ground arith in
      let a₃ : sub64 (start + 2 ^ (12 + top)) start ≡ some (2 ^ (12 + top)) = ground arith in
      let a₄ : sub64 (suc top) 1 ≡ some top = ground arith in
      let a₅ : shl64 1 top ≡ some (2 ^ top) = ground (arith, mod-eq_of_lt fits) in
      let a₆ : mul64 (2 ^ top) 4096 ≡ some (2 ^ (12 + top)) = ground (arith, pages) in
      let a₇ : (2 ^ (12 + top) == 2 ^ (12 + top)) ≡ true = ground arith in
      let a₈ : non_null start ≡ some start = ground arith in
      rw a₁ (rw a₂ (rw a₃ (rw a₄ (rw a₅ (rw a₆ (rw a₇ (rw a₈)))))))

-- Given a page-aligned region of `2 ^ top` pages below the end of the address space and its number
-- of levels, `new` succeeds with one free block, the whole region at level 0, and no block at the
-- other levels; the allocator is valid, and every address of the region is in exactly one free block.
pub new-IsPartition :
    (start top : ℕ)
    → 0 < start
    → start % 4096 ≡ 0
    → top < 52
    → start + 2 ^ (12 + top) < word
    → (s : PageAllocator) × (new start (start + 2 ^ (12 + top)) (suc top) ≡ some s)
      × (s.free_lists ≡ (start ∷ []) ∷ replicate top [])
      × IsPartition top start (record { pages = s; held = [] })
new-IsPartition start top low aligned few high = (
  whole start top,
  new-whole start top low few high aligned,
  refl,
  whole-IsPartition start top low few high,
)
