-- ===== src/Memory/FrameAllocator/Alloc.antt =====
-- What `get_free_block` and `split_level` of the frame allocator do.
use locos.Prelude.{
  ℕ, zero, suc, ◌+◌, ◌≤◌, ◌<◌, ◌≡◌, ◌∙◌, refl, ap, Option, none, some, List, [], ◌∷◌, ◌>>=◌, arith,
  All, set, get_elem?, non_null, mul64, add64,
}
use native.Mathlib.Decide.{dec_lt}
use locos.Memory.Blocks.{cover, cover-set, hit, AllLevels-get, get_elem?-some, hit_halves}
use locos.Memory.Powers.{shift_half}
use locos.Memory.FreeList.Chain.{occ}
use locos.Memory.DoubleFreeList.{DoubleFreeList}
use locos.Memory.DoubleFreeList.Linked.{pop-Lists, pop_empty}
use locos.Memory.DoubleFreeList.Table.{Tables-get}
use locos.Memory.FrameAllocator.{
  Frames, Step, take_or_split, push_buddy, push_block, split_level, get_free_block,
}
use locos.Memory.FrameAllocator.Valid.{
  size_of, pages_of, bytes_lem, size-pos, IsInside, IsFrames, block_size_lem, set-IsFrames,
  marked_after, IsDistinct-get, total-le-free,
}
use locos.Memory.FrameAllocator.Push.{IsSame, Returned, IsOut, push_block-Returned}

-- No free block on the levels below `n`.
abbrev pub IsDry : ℕ → List (List ℕ) → Type 0
IsDry n ls = (i : ℕ) → i < n → get_elem? ls i ≡ some []

-- The outcome of a request at a level: no panic; either nothing, with the reason and the state as it
-- was, or the node of a block of the level that has left the free blocks, with all else as free as
-- before.
abbrev pub Gained : ℕ → ℕ → Type 0 → Frames → List (List ℕ) → ℕ → Step → Type 0
Gained top first dry s ls l none = ⊥
Gained top first dry s ls l (some (s', none)) = dry × (s' ≡ s)
Gained top first dry s ls l (some (s', some b)) =
    (ls' : List (List ℕ)) × IsFrames top first s' ls'
    × IsSame s s'
    × IsInside top first l b
    × ((a : ℕ) → cover (size_of top) ls a ≡ cover (size_of top) ls' a + hit (size_of top l) b a)

Gained-mono :
    (top first : ℕ) {d e : Type 0} (s : Frames) (ls : List (List ℕ)) (l : ℕ) (out : Step)
    → (d → e)
    → Gained top first d s ls l out
    → Gained top first e s ls l out
Gained-mono top first s ls l none f g = g
Gained-mono top first s ls l (some (s', none)) f g = (f g.0, g.1)
Gained-mono top first s ls l (some (s', some b)) f g = g

IsDry-suc : (ls : List (List ℕ)) (l : ℕ) → get_elem? ls l ≡ some [] → IsDry l ls → IsDry (suc l) ls
IsDry-suc ls l e dry i h = elim (dec_lt i l) [
  | yes p ↦ dry i p
  | no p ↦ let same : i ≡ l = omega arith in rw same e
]

set-same :
    (fs : List DoubleFreeList) (i : ℕ) (f : DoubleFreeList)
    → get_elem? fs i ≡ some f
    → set fs i f ≡ fs
set-same [] i f e = refl
set-same (g ∷ fs) zero f e = ap (λ (x : DoubleFreeList). x ∷ fs) cc
set-same (g ∷ fs) (suc i) f e = ap (λ (x : List DoubleFreeList). g ∷ x) (set-same fs i f e)

module _ {top first : ℕ} {s : Frames} {ls : List (List ℕ)} (v : IsFrames top first s ls) where
  take_or_split-Gained :
      (l : ℕ) (split : Frames → Step) (xs : List ℕ)
      → get_elem? ls l ≡ some xs
      → Gained top first (IsDry l ls) s ls l (split s)
      → Gained top first (IsDry (suc l) ls) s ls l (take_or_split split s l)
  unfolding take_or_split
  take_or_split-Gained l split [] e g =
      let (f, here, listed) =
        Tables-get s.nodes (pages_of top) s.allocator.free_lists ls l [] v.tables e in
      rw (here, take_or_split)
        (rw (pop_empty s.nodes f (pages_of top l) listed, set-same s.allocator.free_lists l f here)
          (Gained-mono top first s ls l (split s) (IsDry-suc ls l e) g))
  take_or_split-Gained l split (b ∷ rest) e g =
      let (f, here, listed) =
        Tables-get s.nodes (pages_of top) s.allocator.free_lists ls l (b ∷ rest) v.tables e in
      let apart = IsDistinct-get v l (b ∷ rest) e in
      let out : occ b rest ≡ 0 = let k = apart b in ground (arith, k) in
      let (f', nodes, done, listed', clear, spared) =
        pop-Lists s.nodes f (pages_of top l) b rest listed out in
      let all : All (IsInside top first l) (b ∷ rest) =
        AllLevels-get _ ls l (b ∷ rest) e v.blocks in
      let covered : (a : ℕ)
          → cover (size_of top) ls a
            ≡ cover (size_of top) (set ls l rest) a + hit (size_of top l) b a =
        λ a. omega (arith, cover-set (size_of top) ls l (b ∷ rest) rest a e) in
      rw (here, take_or_split)
        (rw done (
          set ls l rest,
          set-IsFrames v l (b ∷ rest) rest f' nodes e
              (λ a i. spared a (omega (arith, i, total-le-free v a, v.once a))) listed' all.1
              (λ a. omega (arith, covered a, v.once a))
              (marked_after v l b (b ∷ rest) rest nodes e (λ a. omega arith) clear spared),
          (refl, refl, refl),
          all.0,
          covered,
        ))

-- The outcome of keeping the lower half of a taken block and freeing the upper one.
halves-Gained :
    (top first : ℕ) (s s₁ : Frames) (ls ls₁ : List (List ℕ)) (d : Type 0) (l b : ℕ)
    (out : Option Frames)
    → suc l ≤ top
    → IsSame s s₁
    → IsInside top first l b
    → ((a : ℕ) → cover (size_of top) ls a ≡ cover (size_of top) ls₁ a + hit (size_of top l) b a)
    → Returned top first s₁ ls₁ (suc l) (b + size_of top (suc l)) out
    → Gained top first d s ls (suc l) (out >>= λ s'. some (s', some b))
halves-Gained top first s s₁ ls ls₁ d l b none low same at covered f = f
halves-Gained top first s s₁ ls ls₁ d l b (some s') low same at covered (ls', v', same', freed) =
    let n = size_of top (suc l) in
    let half = shift_half 5 top l low in
    (
      ls',
      v',
      (same'.0 ∙ same.0, same'.1 ∙ same.1, same'.2 ∙ same.2),
      (low, at.1, omega (arith, at, half)),
      λ a. omega (arith, covered a, freed a, hit_halves (size_of top l) n b a half),
    )

push_buddy-Gained :
    (top first : ℕ) (s : Frames) (ls : List (List ℕ)) (l : ℕ) (d : Type 0) (out : Step)
    → IsFrames top first s ls
    → suc l ≤ top
    → Gained top first d s ls l out
    → Gained top first d s ls (suc l) (out >>= push_buddy (suc l))
unfolding push_buddy
push_buddy-Gained top first s ls l d none v low g = g
push_buddy-Gained top first s ls l d (some (s', none)) v low g = g
push_buddy-Gained top first s ls l d (some (s', some b)) v low (ls', v', same, at, covered) =
    let n = size_of top (suc l) in
    let half = shift_half 5 top l low in
    let bytes = bytes_lem top (suc l) low in
    let times : mul64 (pages_of top (suc l)) 32 ≡ some n =
      rw bytes (ground (arith, at, half, v.high)) in
    let sum : add64 b n ≡ some (b + n) = ground (arith, at, half, v.high) in
    let real : non_null (b + n) ≡ some (b + n) = ground (arith, size-pos top (suc l) low) in
    let upper : IsInside top first (suc l) (b + n) =
      (low, omega (arith, at), omega (arith, at, half)) in
    let out : IsOut top ls' (suc l) (b + n) =
      λ a. omega (arith, covered a, v.once a, hit_halves (size_of top l) n b a half) in
    rw (block_size_lem v' (suc l) low) (
      rw times (
        rw sum (
          rw real (
            halves-Gained top first s s' ls ls' d l b
              (push_block s' (suc l) (b + n) (pages_of top (suc l))) low same at covered
              (push_block-Returned v' (suc l) (b + n) upper out)))))

split_level-Gained :
    (l : ℕ) {top first : ℕ} {s : Frames} {ls : List (List ℕ)}
    → IsFrames top first s ls
    → l ≤ top
    → Gained top first (IsDry l ls) s ls l (split_level l s)
unfolding split_level
split_level-Gained zero v low = (λ i p. elim p [ ], refl)
split_level-Gained (suc l) {top} {first} {s} {ls} v low =
    let (xs, e) = get_elem?-some ls l (omega (arith, v.lists, low)) in
    push_buddy-Gained top first s ls l _ _ v low
      (take_or_split-Gained v l (split_level l) xs e (split_level-Gained l v (omega (arith, low))))

-- `get_free_block` of a frame allocator that is alone in its page list never panics. It returns
-- nothing only if the lists of the level and of all larger blocks are empty, and then changes nothing.
-- Otherwise it returns a block of the level inside the allocator, and the free frames before are the
-- free frames after with those of the block.
pub get_free_block-Gained :
    {top first : ℕ} {s : Frames} {ls : List (List ℕ)} (l : ℕ)
    → IsFrames top first s ls
    → l ≤ top
    → Gained top first (IsDry (suc l) ls) s ls l (get_free_block s l)
unfolding get_free_block
get_free_block-Gained {top} {first} {s} {ls} l v low =
    let (xs, e) = get_elem?-some ls l (omega (arith, v.lists, low)) in
    take_or_split-Gained v l (split_level l) xs e (split_level-Gained l v low)
