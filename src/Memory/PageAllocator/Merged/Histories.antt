-- ===== src/Memory/PageAllocator/Merged/Histories.antt =====
-- Requests to the page allocator, and any history of them and of returns, keep that of no pair of
-- halves both are free.
use locos.Prelude.{
  ℕ, zero, suc, ◌+◌, ◌≤◌, ◌≡◌, refl, ◌∙◌, inl, inr, none, some, List, [], ◌∷◌, ◌>>=◌, arith, set,
  get_elem?, position, replicate,
}
use locos.Memory.Blocks.{IsBlock, get_elem?-some}
use locos.Memory.PageAllocator.{
  PageAllocator, Step, take_or_split, push_buddy, split_level, get_free_block,
}
use locos.Memory.PageAllocator.Valid.{size_of, IsValid}
use locos.Memory.PageAllocator.Alloc.{
  Got, IsDry, take_or_split-Got, split_level-Got, push_buddy_lem,
}
use locos.Memory.PageAllocator.History.{
  System, Reach, here, next, takes, gives, IsHeld, IsPartition, Reach-IsPartition, All-mid,
}
use locos.Memory.PageAllocator.Start.{whole}
use locos.Memory.PageAllocator.Undo.{
  Undoes, take_or_split-Undoes, split_level-Undoes, IsMerged, position_tail,
}
use locos.Memory.PageAllocator.Merged.{
  first_level-IsMerged, set_level-IsMerged, one-Apart, size_pos, merge_buddies-IsMerged,
}

-- A request that got a block left an allocator in which of no pair of halves both are free.
abbrev Kept : ℕ → Step → Type 0
Kept top none = Unit
Kept top (some (s', none)) = Unit
Kept top (some (s', some b)) = IsMerged top s'

module _ {top : ℕ} {s : PageAllocator} (v : IsValid top s) (merged : IsMerged top s) where
  pop-IsMerged :
      (l b : ℕ) (rest : List ℕ)
      → l ≤ top
      → get_elem? s.free_lists l ≡ some (b ∷ rest)
      → IsMerged top (record s { free_lists = set s.free_lists l rest })
  pop-IsMerged zero b rest h e = first_level-IsMerged v merged rest
  pop-IsMerged (suc l) b rest h e =
      set_level-IsMerged v merged l rest (omega (arith, h))
        (λ q small. elim (merged l q (b ∷ rest) h small e) [
          | inl none_left ↦ inl (position_tail _ b rest none_left)
          | inr none_left ↦ inr (position_tail _ b rest none_left)
        ])
        h

  take_or_split-Kept :
      (l : ℕ) (split : PageAllocator → Step) (xs : List ℕ)
      → l ≤ top
      → get_elem? s.free_lists l ≡ some xs
      → (xs ≡ [] → Kept top (split s))
      → Kept top (take_or_split split s l)
  unfolding take_or_split
  take_or_split-Kept l split [] h e k = rw (e, take_or_split) (k refl)
  take_or_split-Kept l split (b ∷ rest) h e k = rw (e, take_or_split) (pop-IsMerged l b rest h e)

push_buddy-Kept :
    {top : ℕ} {s : PageAllocator} (v : IsValid top s) (l : ℕ) (out : Step)
    → suc l ≤ top
    → get_elem? s.free_lists (suc l) ≡ some []
    → Got top (IsDry (suc l) s) s l out
    → Undoes s l out
    → Kept top out
    → Kept top (out >>= push_buddy (suc l))
push_buddy-Kept v l none h dry g u k = k
push_buddy-Kept v l (some (s', none)) h dry g u k = unfold push_buddy in k
push_buddy-Kept {top} {s} v l (some (s', some b)) h dry (v', start, at, covered)
      (i, rest, first, low, undone, same) k =
    let at' : IsBlock s'.heap_start (size_of top) l b = rw start at in
    let dry' : get_elem? s'.free_lists (suc l) ≡ some [] = same (suc l) (omega arith) ∙ dry in
    rw (push_buddy_lem v' l b [] h at' dry') (
      set_level-IsMerged v' k l ((b + size_of top (suc l)) ∷ []) (omega (arith, h))
        (one-Apart top s'.heap_start l (size_pos top (suc l) h) (b + size_of top (suc l))) h)

split_level-Kept :
    (l : ℕ) {top : ℕ} {s : PageAllocator}
    → IsValid top s
    → IsMerged top s
    → l ≤ top
    → get_elem? s.free_lists l ≡ some []
    → Kept top (split_level l s)
unfolding split_level
split_level-Kept zero v merged h dry = tt
split_level-Kept (suc l) {top} {s} v merged h dry =
    let (xs, e) = get_elem?-some s.free_lists l (omega (arith, v.lists)) in
    push_buddy-Kept v l _ h dry
      (take_or_split-Got v l (split_level l) xs e (split_level-Got l v (omega arith)))
      (take_or_split-Undoes s l (split_level l) xs e
        (λ none_left. split_level-Undoes l v (omega arith) (rw none_left at e)))
      (take_or_split-Kept v merged l (split_level l) xs (omega arith) e
        (λ none_left. split_level-Kept l v merged (omega arith) (rw none_left at e)))

get_free_block-Kept :
    {top : ℕ} {s : PageAllocator} (l : ℕ)
    → IsValid top s
    → IsMerged top s
    → l ≤ top
    → Kept top (get_free_block s l)
unfolding get_free_block
get_free_block-Kept {top} {s} l v merged h =
    let (xs, e) = get_elem?-some s.free_lists l (omega (arith, v.lists)) in
    take_or_split-Kept v merged l (split_level l) xs h e
      (λ none_left. split_level-Kept l v merged h (rw none_left at e))

-- Through any sequence of requests and returns, of no pair of halves both become free.
pub Reach-IsMerged :
    {top start : ℕ} {x y : System}
    → Reach top x y
    → IsPartition top start x
    → IsMerged top x.pages
    → IsMerged top y.pages
Reach-IsMerged here p merged = merged
Reach-IsMerged {top} {start} {x} (next {y} {z} r (takes l b s h taken same)) p merged =
    let before = Reach-IsPartition r p in
    let kept = rw taken at (get_free_block-Kept l before.valid (Reach-IsMerged r p merged) h) in
    rw same kept
Reach-IsMerged {top} {start} {x} (next {y} {z} r (gives front back l b s held freed same)) p
      merged =
    let before = Reach-IsPartition r p in
    let owned = (All-mid (IsHeld top start) front back (l, b) (rw held at before.owned)).0 in
    let at : IsBlock y.pages.heap_start (size_of top) l b = rw (before.same) (owned.1) in
    rw same (merge_buddies-IsMerged l b before.valid (Reach-IsMerged r p merged) owned.0 at freed)

replicate-empty : (n i : ℕ) (xs : List ℕ) → get_elem? (replicate n []) i ≡ some xs → xs ≡ []
replicate-empty zero i xs e = cc
replicate-empty (suc n) zero xs e = cc
replicate-empty (suc n) (suc i) xs e = replicate-empty n i xs e

-- The allocator of one free block.
pub whole-IsMerged : (start top : ℕ) → IsMerged top (whole start top)
unfolding position
whole-IsMerged start top l q xs h small e = rw (replicate-empty top l xs e) (inl refl)
