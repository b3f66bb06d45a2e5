-- ===== src/Memory/BuddyAlloc/Layouts.antt =====
-- `alloc` and `dealloc` of the kernel heap, by the layout of the request.
use locos.Prelude.{
  ℕ, suc, ◌%◌, ◌^◌, ◌≤◌, ◌<◌, ◌≡◌, ◌⊎◌, refl, some, none, List, arith, inl, inr, non_null,
}
use native.Mathlib.Decide.{dec_le}
use locos.Memory.Blocks.{IsBlock}
use locos.Memory.BuddyAlloc.{
  Heap, Params, Step, get_level_from_size, layout_size, alloc, dealloc, get_free_block,
  merge_buddies,
}
use locos.Memory.BuddyAlloc.Valid.{size_of, Fits, IsStart, IsHeap, Freed, IsOut}
use locos.Memory.BuddyAlloc.Alloc.{IsDry, Got, get_free_block-Got}
use locos.Memory.BuddyAlloc.Free.{merge_buddies-Freed}
use locos.Memory.BuddyAlloc.Level.{
  IsBest, get_level_from_size-IsBest, get_level_from_size_large, get_level_from_size-some,
  layout_size-le, IsBlock-aligned,
}

-- The level at which a layout is served.
pub record IsLevel (c : Params) (size align l : ℕ) : Type 0 where
  pub bytes : ℕ
  pub rounded : layout_size size align ≡ some bytes
  pub chosen : get_level_from_size c bytes ≡ some (some l)

alloc-IsLevel :
    (c : Params) (h : Heap) (size align l : ℕ)
    → IsLevel c size align l
    → alloc c h size align ≡ get_free_block c h l
unfolding alloc
alloc-IsLevel c h size align l i = rw (i.rounded) (rw (i.chosen) refl)

dealloc-IsLevel :
    (c : Params) (h : Heap) (b size align l : ℕ)
    → IsLevel c size align l
    → 0 < b
    → dealloc c h b size align ≡ merge_buddies c l h b
unfolding dealloc
dealloc-IsLevel c h b size align l i pos =
    let real : non_null b ≡ some b = ground (arith, pos) in
    rw (i.rounded) (rw (i.chosen) (rw real refl))

-- The outcome of a request for `size` bytes at a multiple of `align`, when `n` is the rounded size:
-- no panic; null, with the reason and the heap as it was; or an aligned block that is large enough
-- and has left the free blocks. Memory changes in free blocks only.
abbrev pub Served : ℕ → ℕ → ℕ → Heap → List (List ℕ) → ℕ → ℕ → ℕ → Step → Type 0
Served u top base h ls size align n none = ⊥
Served u top base h ls size align n (some (h', none)) =
    (h' ≡ h) × ((size_of u top 0 < n) ⊎ ((l : ℕ) × IsBest u top n l × IsDry (suc l) ls))
Served u top base h ls size align n (some (h', some b)) =
    (b % align ≡ 0)
    × (l : ℕ) × IsBest u top n l
    × (size ≤ size_of u top l)
    × Got u top base (IsDry (suc l) ls) h ls l (some (h', some b))

module _ {u top base : ℕ} {c : Params} (f : Fits u top c) (r : IsStart u top base) {h : Heap}
    {ls : List (List ℕ)} (v : IsHeap u top base h ls) where
  Got-Served :
      (size k n l : ℕ) (out : Step)
      → (size ≤ n) × (2 ^ k ≤ n)
      → IsBest u top n l
      → Got u top base (IsDry (suc l) ls) h ls l out
      → Served u top base h ls size (2 ^ k) n out
  Got-Served size k n l none small best g = g
  Got-Served size k n l (some (h', none)) small best g = (g.1, inr (l, best, g.0))
  Got-Served size k n l (some (h', some b)) small best (ls', v', at, covered, spared) = (
    IsBlock-aligned k l b r best.deep (omega (arith, small, best.large)) at,
    l,
    best,
    omega (arith, small, best.large),
    (ls', v', at, covered, spared),
  )

  -- `alloc` on a valid heap, for an alignment that is a power of two and a size whose rounding does
  -- not overflow, never panics. It returns null only if the request is larger than the heap or if
  -- there is no free block of the smallest sufficient size or a larger one, and then changes nothing.
  -- Otherwise it returns an aligned block of that smallest sufficient size, which has left the free
  -- blocks while all else is as free as before, and has written to free blocks only.
  pub alloc-Served :
      (size k n : ℕ)
      → layout_size size (2 ^ k) ≡ some n
      → Served u top base h ls size (2 ^ k) n (alloc c h size (2 ^ k))
  unfolding alloc
  alloc-Served size k n e = elim (dec_le n (size_of u top 0)) [
    | yes fits ↦
        let (l, chosen, best) = get_level_from_size-IsBest f n fits in
        rw e (
          rw chosen (
            Got-Served size k n l _ (layout_size-le size (2 ^ k) n e) best
              (get_free_block-Got f r l v best.deep)))
    | no large ↦ rw e (
        rw (get_level_from_size_large f n (omega (arith, large)))
          (refl, inl (omega (arith, large))))
  ]

pub IsLevel-deep :
    {u top : ℕ} {c : Params} (f : Fits u top c) (size align l : ℕ)
    → IsLevel c size align l
    → l ≤ top
IsLevel-deep f size align l i = (get_level_from_size-some f i.bytes l i.chosen).0

module _ {u top base : ℕ} {c : Params} (f : Fits u top c) (r : IsStart u top base) {h : Heap}
    {ls : List (List ℕ)} (v : IsHeap u top base h ls) (size align l : ℕ)
    (i : IsLevel c size align l) where
  pub alloc-Got : Got u top base (IsDry (suc l) ls) h ls l (alloc c h size align)
  alloc-Got =
      rw (alloc-IsLevel c h size align l i)
        (get_free_block-Got f r l v (IsLevel-deep f size align l i))

  pub dealloc-Freed :
      (b : ℕ)
      → IsBlock base (size_of u top) l b
      → IsOut u top ls l b
      → Freed u top base h ls l b (dealloc c h b size align)
  dealloc-Freed b at out =
      let pos : 0 < b = omega (arith, r.low, at.1) in
      rw (dealloc-IsLevel c h b size align l i pos)
        (merge_buddies-Freed f r l b v (IsLevel-deep f size align l i) at out)
