-- ===== src/Memory/PageAllocator/Alloc.antt =====
-- What `get_free_block` and `split_level` of the page allocator do.
use locos.Prelude.{
  ℕ, zero, suc, ◌+◌, ◌≤◌, ◌<◌, ◌≡◌, refl, none, some, List, [], ◌∷◌, ◌++◌, ◌>>=◌, arith, All,
  All-append, set, get_elem?, add64, non_null,
}
use native.Mathlib.Decide.{dec_lt}
use locos.Memory.Blocks.{
  IsBlock, cover, cover-set, hit, hits-append, AllLevels-get, get_elem?-some, hit_halves,
  IsBlock-halves,
}
use locos.Memory.Powers.{shift_half}
use locos.Memory.PageAllocator.{
  PageAllocator, Step, take_or_split, push_buddy, split_level, get_free_block,
}
use locos.Memory.PageAllocator.Valid.{size_of, IsValid, block_size_lem, set-IsValid, IsBlock-bounds}

-- No free block on the levels below `n`.
abbrev pub IsDry : ℕ → PageAllocator → Type 0
IsDry n s = (i : ℕ) → i < n → get_elem? s.free_lists i ≡ some []

-- The outcome of a request at a level: no panic; either nothing, with the reason and the state as
-- it was, or a block of the level that has left the free blocks, and nothing else has changed.
abbrev pub Got : ℕ → Type 0 → PageAllocator → ℕ → Step → Type 0
Got top dry s l none = ⊥
Got top dry s l (some (s', none)) = dry × (s' ≡ s)
Got top dry s l (some (s', some b)) =
    IsValid top s'
    × (s'.heap_start ≡ s.heap_start)
    × IsBlock s.heap_start (size_of top) l b
    × ((a : ℕ)
        → cover (size_of top) s.free_lists a
          ≡ cover (size_of top) s'.free_lists a + hit (size_of top l) b a)

Got-mono :
    (top : ℕ) {d e : Type 0} (s : PageAllocator) (l : ℕ) (out : Step)
    → (d → e)
    → Got top d s l out
    → Got top e s l out
Got-mono top s l none f g = g
Got-mono top s l (some (s', none)) f g = (f g.0, g.1)
Got-mono top s l (some (s', some b)) f g = g

IsDry-suc :
    (s : PageAllocator) (l : ℕ) → get_elem? s.free_lists l ≡ some [] → IsDry l s → IsDry (suc l) s
IsDry-suc s l e dry i h = elim (dec_lt i l) [
  | yes p ↦ dry i p
  | no p ↦ let same : i ≡ l = omega arith in rw same e
]

module _ {top : ℕ} {s : PageAllocator} (v : IsValid top s) where
  pub take_or_split-Got :
      (l : ℕ) (split : PageAllocator → Step) (xs : List ℕ)
      → get_elem? s.free_lists l ≡ some xs
      → Got top (IsDry l s) s l (split s)
      → Got top (IsDry (suc l) s) s l (take_or_split split s l)
  unfolding take_or_split
  take_or_split-Got l split [] e g =
      rw (e, take_or_split) (Got-mono top s l (split s) (IsDry-suc s l e) g)
  take_or_split-Got l split (b ∷ rest) e g =
      let all : All (IsBlock s.heap_start (size_of top) l) (b ∷ rest) =
        AllLevels-get _ s.free_lists l (b ∷ rest) e v.blocks in
      rw (e, take_or_split)
        (
          set-IsValid v l rest all.1,
          refl,
          all.0,
          λ a. omega (arith, cover-set (size_of top) s.free_lists l (b ∷ rest) rest a e),
        )

  -- The upper half of a block of level `l` goes to the free list of level `l + 1`.
  pub push_buddy_lem :
      (l b : ℕ) (xs : List ℕ)
      → suc l ≤ top
      → IsBlock s.heap_start (size_of top) l b
      → get_elem? s.free_lists (suc l) ≡ some xs
      → let c = b + size_of top (suc l) in
        push_buddy (suc l) (s, some b)
        ≡ some (record s { free_lists = set s.free_lists (suc l) (xs ++ c ∷ []) }, some b)
  unfolding push_buddy
  push_buddy_lem l b xs h at e =
      let bounds = IsBlock-bounds v l b (omega arith) at in
      let half = shift_half 12 top l h in
      let fits : add64 b (size_of top (suc l)) ≡ some (b + size_of top (suc l)) =
        ground (arith, bounds, half, v.high) in
      let real : non_null (b + size_of top (suc l)) ≡ some (b + size_of top (suc l)) =
        ground (arith, bounds, v.low) in
      rw (block_size_lem v (suc l) h) (rw fits (rw real (rw e)))

push_buddy-Got :
    {top : ℕ} {s : PageAllocator} (v : IsValid top s) (l : ℕ) (out : Step)
    → suc l ≤ top
    → Got top (IsDry (suc l) s) s l out
    → Got top (IsDry (suc l) s) s (suc l) (out >>= push_buddy (suc l))
push_buddy-Got v l none h g = g
push_buddy-Got v l (some (s', none)) h g = unfold push_buddy in g
push_buddy-Got {top} {s} v l (some (s', some b)) h (v', start, at, covered) =
    let (xs, e) = get_elem?-some s'.free_lists (suc l) (omega (arith, v'.lists)) in
    let n = size_of top (suc l) in
    let half = shift_half 12 top l h in
    let at' : IsBlock s'.heap_start (size_of top) l b = rw start at in
    let halves = IsBlock-halves s.heap_start (size_of top) l half b at in
    let upper : IsBlock s'.heap_start (size_of top) (suc l) (b + n) = rw start (halves.1) in
    let old = AllLevels-get _ s'.free_lists (suc l) xs e v'.blocks in
    rw (push_buddy_lem v' l b xs h at' e) (
      set-IsValid v' (suc l) (xs ++ (b + n) ∷ []) (All-append _ xs _ old (upper, tt)),
      start,
      halves.0,
      λ a. omega (
        arith,
        covered a,
        cover-set (size_of top) s'.free_lists (suc l) xs (xs ++ (b + n) ∷ []) a e,
        hits-append n xs ((b + n) ∷ []) a,
        hit_halves (size_of top l) n b a half,
      ),
    )

pub split_level-Got :
    (l : ℕ) {top : ℕ} {s : PageAllocator}
    → IsValid top s
    → l ≤ top
    → Got top (IsDry l s) s l (split_level l s)
unfolding split_level
split_level-Got zero v h = (λ i p. elim p [ ], refl)
split_level-Got (suc l) {top} {s} v h =
    let (xs, e) = get_elem?-some s.free_lists l (omega (arith, v.lists)) in
    push_buddy-Got v l _ h
      (take_or_split-Got v l (split_level l) xs e (split_level-Got l v (omega arith)))

-- `get_free_block` on a valid allocator never panics. It returns nothing only if the lists of the
-- level and of all larger blocks are empty, and then changes nothing. Otherwise the block that it
-- returns is a block of the level, the allocator stays valid over the same region, and at every
-- address the free blocks before are the free blocks after with the returned block.
pub get_free_block-Got :
    {top : ℕ} {s : PageAllocator} (l : ℕ)
    → IsValid top s
    → l ≤ top
    → Got top (IsDry (suc l) s) s l (get_free_block s l)
unfolding get_free_block
get_free_block-Got {top} {s} l v h =
    let (xs, e) = get_elem?-some s.free_lists l (omega (arith, v.lists)) in
    take_or_split-Got v l (split_level l) xs e (split_level-Got l v h)
