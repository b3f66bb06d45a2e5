-- ===== src/Memory/PageAllocator/Free.antt =====
-- What `merge_buddies` of the page allocator does.
use locos.Prelude.{
  ℕ, zero, suc, ◌+◌, ◌-◌, ◌*◌, ◌^◌, ◌≤◌, ◌<◌, ◌≡◌, refl, sym, ap, ◌∙◌, Option, none, some, List, [],
  ◌∷◌, ◌++◌, arith, All-append, set, get_elem?, add64, sub64, bit_xor, non_null, ltb, if◌then◌else◌,
  position, remove_at, Option-cases, inl, inr,
}
use locos.Prelude.Bits.{flip, bit_xor-two_pow}
use locos.Memory.Blocks.{
  IsBlock, cover, cover-set, hit, hits-append, hits-remove_at, AllLevels-get, All-remove_at,
  get_elem?-some, IsBlock-union, flip-lt,
}
use locos.Memory.Powers.{shift_half, shift_size}
use locos.Memory.PageAllocator.{PageAllocator, push_back, merge_buddies}
use locos.Memory.PageAllocator.Valid.{size_of, IsValid, block_size_lem, set-IsValid, IsBlock-bounds}

-- The outcome of giving the block `b` of level `l` back: no panic, a valid allocator of the same
-- region, and at every address the free blocks are those of before and the block.
abbrev pub Freed : ℕ → PageAllocator → ℕ → ℕ → Option PageAllocator → Type 0
Freed top s l b none = ⊥
Freed top s l b (some s') =
    IsValid top s'
    × (s'.heap_start ≡ s.heap_start)
    × ((a : ℕ)
        → cover (size_of top) s'.free_lists a
          ≡ cover (size_of top) s.free_lists a + hit (size_of top l) b a)

module _ {top : ℕ} {s : PageAllocator} (v : IsValid top s) where
  push_back-Freed :
      (l b : ℕ)
      → l ≤ top
      → IsBlock s.heap_start (size_of top) l b
      → Freed top s l b (push_back s l b)
  unfolding push_back
  push_back-Freed l b h at =
      let (xs, e) = get_elem?-some s.free_lists l (omega (arith, v.lists)) in
      let old = AllLevels-get _ s.free_lists l xs e v.blocks in
      rw (e, push_back)
        (
          set-IsValid v l (xs ++ b ∷ []) (All-append _ xs _ old (at, tt)),
          refl,
          λ a. omega (
            arith,
            cover-set (size_of top) s.free_lists l xs (xs ++ b ∷ []) a e,
            hits-append (size_of top l) xs (b ∷ []) a,
          ),
        )

  -- The checked arithmetic of `merge_buddies` finds the other half of the pair.
  module _ (l q : ℕ) (h : l ≤ top) (small : q < 2 ^ l) where
    pub offset_lem :
        sub64 (s.heap_start + q * size_of top l) s.heap_start ≡ some (q * size_of top l)
    offset_lem = ground arith

    pub xor_lem : bit_xor (q * size_of top l) (size_of top l) ≡ flip q * size_of top l
    xor_lem = rw (shift_size 12 top l h) (bit_xor-two_pow (12 + (top - l)) q)

  pub buddy_fits :
      (l q : ℕ)
      → l ≤ top
      → q < 2 ^ l
      → let c = s.heap_start + q * size_of top l in
        (add64 s.heap_start (q * size_of top l) ≡ some c) × (non_null c ≡ some c)
  buddy_fits l q h small =
      let bounds = IsBlock-bounds v l _ h (q, refl, small) in
      (ground (arith, bounds, v.high), ground (arith, v.low))

  pub remove-IsValid :
      (l pos : ℕ) (xs : List ℕ)
      → get_elem? s.free_lists l ≡ some xs
      → IsValid top (record s { free_lists = set s.free_lists l (remove_at pos xs) })
  remove-IsValid l pos xs e =
      set-IsValid v l (remove_at pos xs)
        (All-remove_at _ pos xs (AllLevels-get _ s.free_lists l xs e v.blocks))

-- Freeing the union of two blocks, one of which left the free blocks before, frees the other one.
Freed-union :
    (top : ℕ) (s t : PageAllocator) (l k m b : ℕ) (out : Option PageAllocator)
    → t.heap_start ≡ s.heap_start
    → ((a : ℕ)
        → cover (size_of top) t.free_lists a + hit (size_of top l) m a
          ≡ cover (size_of top) s.free_lists a + hit (size_of top k) b a)
    → Freed top t l m out
    → Freed top s k b out
Freed-union top s t l k m b none start total f = f
Freed-union top s t l k m b (some u) start total f =
    (f.0, f.1 ∙ start, λ a. omega (arith, f.2 a, total a))

-- `merge_buddies l`, at every block of the level, in every valid state.
abbrev Merges : ℕ → ℕ → Type 0
Merges top l =
    (t : PageAllocator) (k : ℕ)
    → IsValid top t
    → k < 2 ^ l
    → let m = t.heap_start + k * size_of top l in Freed top t l m (merge_buddies l t m)

module _ (top : ℕ) (s : PageAllocator) (l q : ℕ) where
  abbrev block_at : ℕ
  block_at = s.heap_start + q * size_of top (suc l)

  abbrev buddy_at : ℕ
  buddy_at = s.heap_start + flip q * size_of top (suc l)

  merge_found :
      (pos : ℕ) (xs : List ℕ)
      → IsValid top s
      → suc l ≤ top
      → q < 2 ^ suc l
      → get_elem? s.free_lists (suc l) ≡ some xs
      → position buddy_at xs ≡ some pos
      → Merges top l
      → let t = record s { free_lists = set s.free_lists (suc l) (remove_at pos xs) } in
        let m = if ltb buddy_at block_at then buddy_at else block_at in
        Freed top s (suc l) block_at (merge_buddies l t m)
  merge_found pos xs v h small e found ih =
      let half = shift_half 12 top l h in
      let ((k, at, low), both) = IsBlock-union s.heap_start (size_of top) l half q small in
      let t = record s { free_lists = set s.free_lists (suc l) (remove_at pos xs) } in
      let n = size_of top (suc l) in
      rw at (
        Freed-union top s t l (suc l) _ block_at _ refl
          (λ a. omega (
            arith,
            ap (λ (m : ℕ). hit (size_of top l) m a) (sym at) ∙ both a,
            cover-set (size_of top) s.free_lists (suc l) xs (remove_at pos xs) a e,
            hits-remove_at n buddy_at pos xs a found,
          ))
          (ih t k (remove-IsValid v (suc l) pos xs e) low))

  merge_suc :
      (xs : List ℕ)
      → IsValid top s
      → suc l ≤ top
      → q < 2 ^ suc l
      → get_elem? s.free_lists (suc l) ≡ some xs
      → Merges top l
      → Freed top s (suc l) block_at (merge_buddies (suc l) s block_at)
  unfolding merge_buddies
  merge_suc xs v h small e ih =
      let fits = buddy_fits v (suc l) (flip q) h (flip-lt l q small) in
      rw (block_size_lem v (suc l) h) (
        rw (offset_lem v (suc l) q h small) (
          rw (xor_lem v (suc l) q h small) (
            rw (fits.0) (
              rw (fits.1) (
                rw e (elim (Option-cases (position buddy_at xs)) [
                  | inl absent ↦ rw (absent, Freed) (push_back-Freed v (suc l) _ h (q, refl, small))
                  | inr (pos, found) ↦ rw (found, Freed) (merge_found pos xs v h small e found ih)
                ]))))))

merge_buddies-Merges : (l : ℕ) {top : ℕ} → l ≤ top → Merges top l
merge_buddies-Merges zero h s q v small =
    unfold merge_buddies in push_back-Freed v zero _ h (q, refl, small)
merge_buddies-Merges (suc l) {top} h s q v small =
    let (xs, e) = get_elem?-some s.free_lists (suc l) (omega (arith, v.lists)) in
    merge_suc top s l q xs v h small e (merge_buddies-Merges l (omega arith))

-- `merge_buddies` on a valid allocator, given a block of the level, never panics, keeps the
-- allocator valid over the same region, and adds exactly the addresses of that block to the free
-- blocks, however many merges it makes.
pub merge_buddies-Freed :
    {top : ℕ} {s : PageAllocator} (l b : ℕ)
    → IsValid top s
    → l ≤ top
    → IsBlock s.heap_start (size_of top) l b
    → Freed top s l b (merge_buddies l s b)
merge_buddies-Freed {top} {s} l b v h (q, at, small) = rw at (merge_buddies-Merges l h s q v small)
