-- ===== src/Memory/BuddyAlloc/Free.antt =====
-- What `merge_buddies` of the kernel heap does.
use locos.Prelude.{
  ℕ, zero, suc, ◌+◌, ◌*◌, ◌^◌, ◌≤◌, ◌<◌, ◌≡◌, refl, sym, ap, ◌∙◌, Option, none, some, ◌>>=◌, List,
  arith, set, get_elem?, non_null, ltb, if◌then◌else◌, position, remove_at, Option-cases, inl, inr,
}
use locos.Prelude.Bits.{flip}
use locos.Memory.Blocks.{
  IsBlock, cover, cover-set, hit, hits-remove_at, AllLevels-get, All-remove_at, get_elem?-some,
  IsBlock-union,
}
use locos.Memory.Powers.{shift_half}
use locos.Memory.FreeList.{FreeList, remove}
use locos.Memory.FreeList.Chain.{Lists, found, exists-position}
use locos.Memory.FreeList.Removal.{remove-Lists}
use locos.Memory.FreeList.Chains.{Chains-get, occ-le-total}
use locos.Memory.BuddyAlloc.{Heap, Params, merge_buddies}
use locos.Memory.BuddyAlloc.Valid.{
  size_of, Fits, IsStart, IsHeap, Freed, IsOut, block_size_lem, buddy_lem, set-IsHeap, length-get,
  IsDistinct-get, total-le-free, push_block-Freed,
}

-- Freeing the union of two blocks, one of which left the free blocks before, frees the other one.
Freed-union :
    (u top base : ℕ) (h g : Heap) (ls ms : List (List ℕ)) (l k m b : ℕ) (out : Option Heap)
    → ((a : ℕ)
        → cover (size_of u top) ms a + hit (size_of u top l) m a
          ≡ cover (size_of u top) ls a + hit (size_of u top k) b a)
    → ((a : ℕ) → cover (size_of u top) ls a ≡ 0 → g.mem a ≡ h.mem a)
    → Freed u top base g ms l m out
    → Freed u top base h ls k b out
Freed-union u top base h g ls ms l k m b none total same f = f
Freed-union u top base h g ls ms l k m b (some h') total same (ls', v, freed, kept) = (
  ls',
  v,
  λ a. omega (arith, freed a, total a),
  λ a i. kept a (omega (arith, i, total a)) ∙ same a (omega (arith, i)),
)

-- `merge_buddies l`, at every block of the level that is not free, in every valid heap.
abbrev Merges : Params → ℕ → ℕ → ℕ → ℕ → Type 0
Merges c u top base l =
    (h : Heap) (ls : List (List ℕ)) (k : ℕ)
    → IsHeap u top base h ls
    → k < 2 ^ l
    → IsOut u top ls l (base + k * size_of u top l)
    → Freed u top base h ls l (base + k * size_of u top l)
        (merge_buddies c l h (base + k * size_of u top l))

module _ {u top base : ℕ} {c : Params} (f : Fits u top c) (r : IsStart u top base) (l q : ℕ)
    (low : suc l ≤ top) (small : q < 2 ^ suc l) where
  abbrev block_at : ℕ
  block_at = base + q * size_of u top (suc l)

  abbrev buddy_at : ℕ
  buddy_at = base + flip q * size_of u top (suc l)

  module _ {h : Heap} {ls : List (List ℕ)} (v : IsHeap u top base h ls)
      (out : IsOut u top ls (suc l) block_at) (xs : List ℕ) (e : get_elem? ls (suc l) ≡ some xs)
      (list : FreeList) (here : get_elem? h.alloc.free_lists (suc l) ≡ some list)
      (listed : Lists h.mem list xs) where
    -- The buddy is free: it leaves its list, and the union goes up.
    merge_found :
        (pos : ℕ)
        → position buddy_at xs ≡ some pos
        → Merges c u top base l
        → Freed u top base h ls (suc l) block_at (do
          (list', mem) ← remove c.fuel list h.mem buddy_at
          merge_buddies c l
              (record {
                alloc = record h.alloc { free_lists = set h.alloc.free_lists (suc l) list' };
                mem = mem;
              })
              (if ltb buddy_at block_at then buddy_at else block_at))
    merge_found pos found ih =
        let s = size_of u top in
        let half = shift_half u top l low in
        let ((k, at, inside), both) = IsBlock-union base s l half q small in
        let short = length-get v (suc l) xs low e in
        let (list', mem, done, listed', spared) =
          remove-Lists c.fuel list h.mem buddy_at pos xs listed (IsDistinct-get v (suc l) xs e)
            found (omega (arith, short, f.enough)) in
        let ms = set ls (suc l) (remove_at pos xs) in
        let left : (a : ℕ) → cover s ms a + hit (s (suc l)) buddy_at a ≡ cover s ls a = λ a. omega (
          arith,
          cover-set s ls (suc l) xs (remove_at pos xs) a e,
          hits-remove_at (s (suc l)) buddy_at pos xs a found,
        ) in
        let g : Heap = record {
          alloc = record h.alloc { free_lists = set h.alloc.free_lists (suc l) list' };
          mem = mem;
        } in
        let w : IsHeap u top base g ms =
          set-IsHeap v (suc l) xs (remove_at pos xs) list' mem e
            (λ a i. spared a (omega (arith, i, total-le-free v a, v.once a))) listed'
            (All-remove_at _ pos xs (AllLevels-get _ ls (suc l) xs e v.blocks))
            (λ a. omega (arith, left a, v.once a)) in
        let total : (a : ℕ)
            → cover s ms a + hit (s l) (base + k * s l) a
              ≡ cover s ls a + hit (s (suc l)) block_at a =
          λ a. omega (arith, left a, ap (λ (m : ℕ). hit (s l) m a) (sym at) ∙ both a) in
        rw done (
          rw at (
            Freed-union u top base h g ls ms l (suc l) _ block_at _ total
              (λ a i.
                spared a (omega (arith, i, occ-le-total ls (suc l) a xs e, total-le-free v a)))
              (ih g ms k w inside (λ a. omega (arith, total a, out a)))))

    merge_suc :
        Merges c u top base l
        → Freed u top base h ls (suc l) block_at (merge_buddies c (suc l) h block_at)
    unfolding merge_buddies
    merge_suc ih =
        let real : non_null buddy_at ≡ some buddy_at = ground (arith, r.low) in
        let short = length-get v (suc l) xs low e in
        let answer =
          exists-position c.fuel list h.mem xs buddy_at listed (omega (arith, short, f.enough)) in
        rw (block_size_lem f (suc l) (omega (arith, low))) (
          rw (buddy_lem r l low q) (
            rw real (
              rw here (
                rw answer (elim (Option-cases (position buddy_at xs)) [
                  | inl absent ↦
                      rw (absent, Freed)
                        (push_block-Freed v (omega (arith, f.few)) (suc l) block_at low
                          (q, refl, small) out)
                  | inr (pos, at) ↦ rw (at, Freed) (merge_found pos at ih)
                ])))))

module _ {u top base : ℕ} {c : Params} (f : Fits u top c) (r : IsStart u top base) where
  merge_buddies-Merges : (l : ℕ) → l ≤ top → Merges c u top base l
  unfolding merge_buddies
  merge_buddies-Merges zero low h ls q v small out =
      push_block-Freed v (omega (arith, f.few)) zero _ low (q, refl, small) out
  merge_buddies-Merges (suc l) low h ls q v small out =
      let (xs, e) = get_elem?-some ls (suc l) (omega (arith, v.lists, low)) in
      let (list, here, listed) = Chains-get h.mem h.alloc.free_lists ls (suc l) xs v.chains e in
      merge_suc f r l q low small v out xs e list here listed
        (merge_buddies-Merges l (omega (arith, low)))

  -- `merge_buddies` on a valid heap, given a block of the level that is not free, neither panics nor
  -- runs out of fuel, and the free blocks afterwards are at every address those of before and the
  -- block, however many merges it makes. It writes to no memory outside of these.
  pub merge_buddies-Freed :
      {h : Heap} {ls : List (List ℕ)} (l b : ℕ)
      → IsHeap u top base h ls
      → l ≤ top
      → IsBlock base (size_of u top) l b
      → IsOut u top ls l b
      → Freed u top base h ls l b (merge_buddies c l h b)
  merge_buddies-Freed {h} {ls} l b v low (q, at, small) out =
      rw at (merge_buddies-Merges l low h ls q v small (rw at at out))
