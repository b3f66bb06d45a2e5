-- ===== src/Memory/FrameAllocator/Push.antt =====
-- What the push of a block to a free list of the frame allocator does.
use mathlib.Core.Path.{subst}
use locos.Prelude.{
  ℕ, ◌+◌, ◌≤◌, ◌<◌, ◌≡◌, refl, ap, ◌∙◌, Option, none, some, List, [], ◌∷◌, arith, length, word, set,
  get_elem?, All, ◌==◌, Bool-cases, inl, inr, false,
}
use locos.Memory.Blocks.{AllLevels-get, cover, cover-set, hit, get_elem?-some}
use locos.Memory.FreeList.Chain.{occ}
use locos.Memory.FreeList.Chains.{total, total-set, occ-le-total}
use locos.Memory.Count.{length-le-range}
use locos.Memory.DoubleFreeList.{Node}
use locos.Memory.DoubleFreeList.Linked.{push-Lists}
use locos.Memory.DoubleFreeList.Table.{Tables-get}
use locos.Memory.FrameAllocator.{Frames, push_block}
use locos.Memory.FrameAllocator.Valid.{
  pages_of, size_of, IsInside, IsFrames, size-pos, total-le-free, IsDistinct-get, set-IsFrames,
}

-- What an operation keeps of the allocator besides its lists.
abbrev pub IsSame : Frames → Frames → Type 0
IsSame s s' =
    (s'.allocator.virt_start ≡ s.allocator.virt_start)
    × (s'.allocator.page_list_start ≡ s.allocator.page_list_start)
    × (s'.allocator.levels ≡ s.allocator.levels)

-- The outcome of putting a block into a list: the free nodes are those of before and of the block.
abbrev pub Returned : ℕ → ℕ → Frames → List (List ℕ) → ℕ → ℕ → Option Frames → Type 0
Returned top first s ls l b none = ⊥
Returned top first s ls l b (some s') =
    (ls' : List (List ℕ)) × IsFrames top first s' ls'
    × IsSame s s'
    × ((a : ℕ) → cover (size_of top) ls' a ≡ cover (size_of top) ls a + hit (size_of top l) b a)

-- A block is free nowhere.
abbrev pub IsOut : ℕ → List (List ℕ) → ℕ → ℕ → Type 0
IsOut top ls l b = (a : ℕ) → cover (size_of top) ls a + hit (size_of top l) b a ≤ 1

module _ {top first : ℕ} {s : Frames} {ls : List (List ℕ)} (v : IsFrames top first s ls) (l b : ℕ)
    (at : IsInside top first l b) (out : IsOut top ls l b) where
  range_of :
      (xs : List ℕ)
      → All (IsInside top first l) xs
      → All (λ x. (first ≤ x) × (x < first + size_of top 0)) xs
  range_of [] h = tt
  range_of (x ∷ xs) (i, h) = (omega (arith, i, size-pos top l i.0), range_of xs h)

  room : (xs : List ℕ) → get_elem? ls l ≡ some xs → length xs + 1 < word
  room xs e = omega (
    arith,
    length-le-range first (size_of top 0) xs (range_of xs (AllLevels-get _ ls l xs e v.blocks))
        (IsDistinct-get v l xs e),
    v.high,
    size-pos top 0 (omega arith),
  )

  unlisted : total b ls ≡ 0
  unlisted =
      let own : hit (size_of top l) b b ≡ 1 = ground (arith, size-pos top l at.0) in
      omega (arith, total-le-free v b, out b, own)

  unlisted-other : (a : ℕ) → 0 < total a ls → (b == a) ≡ false
  unlisted-other a i = elim (Bool-cases (b == a)) [
    | inl own ↦
        let e : b ≡ a = ground (arith, own) in
        let none_at : total a ls ≡ 0 = subst (λ (z : ℕ). total z ls ≡ 0) e unlisted in
        absurd (omega (arith, i, none_at))
    | inr other ↦ other
  ]

  pub push_block-Returned : Returned top first s ls l b (push_block s l b (pages_of top l))
  unfolding push_block
  push_block-Returned =
      let (xs, e) = get_elem?-some ls l (omega (arith, v.lists, at.0)) in
      let (g, here, listed) =
        Tables-get s.nodes (pages_of top) s.allocator.free_lists ls l xs v.tables e in
      let absent : occ b xs ≡ 0 = omega (arith, occ-le-total ls l b xs e, unlisted) in
      let (g', nodes, done, listed', spared) =
        push-Lists s.nodes g (pages_of top l) b xs listed absent (room xs e) in
      let fresh : (a : ℕ) → occ a xs < total a ls → occ a (b ∷ xs) ≡ 0 = λ a i.
        let other = unlisted-other a (omega (arith, i)) in
        ground (arith, other, i, total-le-free v a, v.once a) in
      let covered : (a : ℕ)
          → cover (size_of top) (set ls l (b ∷ xs)) a
            ≡ cover (size_of top) ls a + hit (size_of top l) b a =
        λ a. omega (arith, cover-set (size_of top) ls l xs (b ∷ xs) a e) in
      rw here (
        rw done (
          set ls l (b ∷ xs),
          set-IsFrames v l xs (b ∷ xs) g' nodes e (λ a i. spared a (fresh a i)) listed'
              (at, AllLevels-get _ ls l xs e v.blocks) (λ a. omega (arith, covered a, out a))
              (λ a i.
                let t = total-set ls l a xs (b ∷ xs) e in
                ap (λ (n : Node). n.level_size)
                  (spared a (omega (arith, t, i, occ-le-total ls l a xs e)))
                ∙ v.marked a (omega (arith, t, i, occ-le-total ls l a xs e))),
          (refl, refl, refl),
          covered,
        ))
