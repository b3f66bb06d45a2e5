-- ===== src/Memory/BuddyAlloc/Alloc.antt =====
-- What `get_free_block` and `split_level` of the kernel heap do.
use locos.Prelude.{
  ℕ, zero, suc, ◌+◌, ◌*◌, ◌≤◌, ◌<◌, ◌≡◌, ◌∙◌, refl, ap, Option, none, some, List, [], ◌∷◌, ◌>>=◌,
  arith, All, set, get_elem?, bit_xor, non_null,
}
use locos.Prelude.Bits.{flip}
use native.Mathlib.Decide.{dec_lt}
use locos.Memory.Blocks.{
  IsBlock, cover, cover-set, hit, AllLevels-get, get_elem?-some, hit_halves, IsBlock-halves,
}
use locos.Memory.Powers.{shift_half}
use locos.Memory.FreeList.{FreeList}
use locos.Memory.FreeList.Chain.{pop-Lists, pop_empty}
use locos.Memory.FreeList.Chains.{Chains-get}
use locos.Memory.BuddyAlloc.{
  Heap, Params, Step, take_or_split, push_buddy, push_block, split_level, get_free_block,
}
use locos.Memory.BuddyAlloc.Valid.{
  size_of, Fits, IsStart, IsHeap, Freed, IsOut, block_size_lem, buddy_lem, set-IsHeap,
  push_block-Freed,
}

-- No free block on the levels below `n`.
abbrev pub IsDry : ℕ → List (List ℕ) → Type 0
IsDry n ls = (i : ℕ) → i < n → get_elem? ls i ≡ some []

-- The outcome of a request at a level: no panic; either nothing, with the reason and the heap as it
-- was, or a block of the level that has left the free blocks. Memory changes in free blocks only.
abbrev pub Got : ℕ → ℕ → ℕ → Type 0 → Heap → List (List ℕ) → ℕ → Step → Type 0
Got u top base dry h ls l none = ⊥
Got u top base dry h ls l (some (h', none)) = dry × (h' ≡ h)
Got u top base dry h ls l (some (h', some b)) =
    (ls' : List (List ℕ)) × IsHeap u top base h' ls'
    × IsBlock base (size_of u top) l b
    × ((a : ℕ)
        → cover (size_of u top) ls a ≡ cover (size_of u top) ls' a + hit (size_of u top l) b a)
    × ((a : ℕ) → cover (size_of u top) ls a ≡ 0 → h'.mem a ≡ h.mem a)

Got-mono :
    (u top base : ℕ) {d e : Type 0} (h : Heap) (ls : List (List ℕ)) (l : ℕ) (out : Step)
    → (d → e)
    → Got u top base d h ls l out
    → Got u top base e h ls l out
Got-mono u top base h ls l none f g = g
Got-mono u top base h ls l (some (h', none)) f g = (f g.0, g.1)
Got-mono u top base h ls l (some (h', some b)) f g = g

IsDry-suc : (ls : List (List ℕ)) (l : ℕ) → get_elem? ls l ≡ some [] → IsDry l ls → IsDry (suc l) ls
IsDry-suc ls l e dry i h = elim (dec_lt i l) [
  | yes p ↦ dry i p
  | no p ↦ let same : i ≡ l = omega arith in rw same e
]

set-same : (fs : List FreeList) (i : ℕ) (f : FreeList) → get_elem? fs i ≡ some f → set fs i f ≡ fs
set-same [] i f e = refl
set-same (g ∷ fs) zero f e = ap (λ (x : FreeList). x ∷ fs) cc
set-same (g ∷ fs) (suc i) f e = ap (λ (x : List FreeList). g ∷ x) (set-same fs i f e)

module _ {u top base : ℕ} {h : Heap} {ls : List (List ℕ)} (v : IsHeap u top base h ls) where
  take_or_split-Got :
      (l : ℕ) (split : Heap → Step) (xs : List ℕ)
      → get_elem? ls l ≡ some xs
      → Got u top base (IsDry l ls) h ls l (split h)
      → Got u top base (IsDry (suc l) ls) h ls l (take_or_split split h l)
  unfolding take_or_split
  take_or_split-Got l split [] e g =
      let (f, here, listed) = Chains-get h.mem h.alloc.free_lists ls l [] v.chains e in
      rw (here, take_or_split)
        (rw (pop_empty f h.mem listed, set-same h.alloc.free_lists l f here)
          (Got-mono u top base h ls l (split h) (IsDry-suc ls l e) g))
  take_or_split-Got l split (b ∷ rest) e g =
      let (f, here, listed) = Chains-get h.mem h.alloc.free_lists ls l (b ∷ rest) v.chains e in
      let (f', done, listed') = pop-Lists f h.mem b rest listed in
      let all : All (IsBlock base (size_of u top) l) (b ∷ rest) =
        AllLevels-get _ ls l (b ∷ rest) e v.blocks in
      let covered : (a : ℕ)
          → cover (size_of u top) ls a
            ≡ cover (size_of u top) (set ls l rest) a + hit (size_of u top l) b a =
        λ a. omega (arith, cover-set (size_of u top) ls l (b ∷ rest) rest a e) in
      rw (here, take_or_split)
        (rw done (
          set ls l rest,
          set-IsHeap v l (b ∷ rest) rest f' h.mem e (λ a i. refl) listed' all.1
              (λ a. omega (arith, covered a, v.once a)),
          all.0,
          covered,
          λ a i. refl,
        ))

-- The outcome of keeping the lower half of a taken block and freeing the upper one.
halves-Got :
    (u top base : ℕ) (h h₁ : Heap) (ls ls₁ : List (List ℕ)) (d : Type 0) (l b : ℕ)
    (out : Option Heap)
    → suc l ≤ top
    → IsBlock base (size_of u top) l b
    → ((a : ℕ)
        → cover (size_of u top) ls a ≡ cover (size_of u top) ls₁ a + hit (size_of u top l) b a)
    → ((a : ℕ) → cover (size_of u top) ls a ≡ 0 → h₁.mem a ≡ h.mem a)
    → Freed u top base h₁ ls₁ (suc l) (b + size_of u top (suc l)) out
    → Got u top base d h ls (suc l) (out >>= λ h'. some (h', some b))
halves-Got u top base h h₁ ls ls₁ d l b none low at covered spared f = f
halves-Got u top base h h₁ ls ls₁ d l b (some h') low at covered spared (ls', v', freed, kept) =
    let n = size_of u top (suc l) in
    let half = shift_half u top l low in
    let two : (a : ℕ) → hit (size_of u top l) b a ≡ hit n b a + hit n (b + n) a =
      λ a. hit_halves (size_of u top l) n b a half in
    (
      ls',
      v',
      (IsBlock-halves base (size_of u top) l half b at).0,
      λ a. omega (arith, covered a, freed a, two a),
      λ a i. kept a (omega (arith, i, covered a, two a)) ∙ spared a i,
    )

module _ {u top base : ℕ} {c : Params} (f : Fits u top c) (r : IsStart u top base) where
  -- The other half of a block is the upper one.
  upper_lem :
      (l b : ℕ)
      → suc l ≤ top
      → IsBlock base (size_of u top) l b
      → bit_xor b (size_of u top (suc l)) ≡ b + size_of u top (suc l)
  upper_lem l b low (q, at, small) =
      let s = size_of u top (suc l) in
      let half : q * size_of u top l ≡ 2 * q * s =
        omega (arith, ap (λ (t : ℕ). q * t) (shift_half u top l low)) in
      let here : b ≡ base + 2 * q * s = omega (arith, at, half) in
      let even : flip (2 * q) ≡ 2 * q + 1 = ground arith in
      let up : base + flip (2 * q) * s ≡ b + s = rw even (omega (arith, here)) in
      ap (λ (t : ℕ). bit_xor t s) here ∙ buddy_lem r l low (2 * q) ∙ up

  push_buddy-Got :
      {h : Heap} {ls : List (List ℕ)} (l : ℕ) (d : Type 0) (out : Step)
      → IsHeap u top base h ls
      → suc l ≤ top
      → Got u top base d h ls l out
      → Got u top base d h ls (suc l) (out >>= push_buddy c (suc l))
  unfolding push_buddy
  push_buddy-Got l d none v low g = g
  push_buddy-Got l d (some (h', none)) v low g = g
  push_buddy-Got {h} {ls} l d (some (h', some b)) v low (ls', v', at, covered, spared) =
      let n = size_of u top (suc l) in
      let half = shift_half u top l low in
      let upper = (IsBlock-halves base (size_of u top) l half b at).1 in
      let real : non_null (b + n) ≡ some (b + n) = ground (arith, r.low, at.1) in
      let out : IsOut u top ls' (suc l) (b + n) =
        λ a. omega (arith, covered a, v.once a, hit_halves (size_of u top l) n b a half) in
      (rw (block_size_lem f (suc l) (omega (arith, low))) (
        rw (upper_lem l b low at) (
          rw real (
            halves-Got u top base h h' ls ls' d l b (push_block h' (suc l) (b + n)) low at covered
              spared (push_block-Freed v' (omega (arith, f.few)) (suc l) (b + n) low upper out)))))

  split_level-Got :
      (l : ℕ) {h : Heap} {ls : List (List ℕ)}
      → IsHeap u top base h ls
      → l ≤ top
      → Got u top base (IsDry l ls) h ls l (split_level c l h)
  unfolding split_level
  split_level-Got zero v low = (λ i p. elim p [ ], refl)
  split_level-Got (suc l) {h} {ls} v low =
      let (xs, e) = get_elem?-some ls l (omega (arith, v.lists, low)) in
      push_buddy-Got l _ _ v low
        (take_or_split-Got v l (split_level c l) xs e (split_level-Got l v (omega (arith, low))))

  -- `get_free_block` on a valid heap never panics. It returns nothing only if the lists of the level
  -- and of all larger blocks are empty, and then changes nothing. Otherwise the block that it returns
  -- is a block of the level, and at every address the free blocks before are the free blocks after
  -- with the returned block.
  pub get_free_block-Got :
      {h : Heap} {ls : List (List ℕ)} (l : ℕ)
      → IsHeap u top base h ls
      → l ≤ top
      → Got u top base (IsDry (suc l) ls) h ls l (get_free_block c h l)
  unfolding get_free_block
  get_free_block-Got {h} {ls} l v low =
      let (xs, e) = get_elem?-some ls l (omega (arith, v.lists, low)) in
      take_or_split-Got v l (split_level c l) xs e (split_level-Got l v low)
