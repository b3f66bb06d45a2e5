-- ===== src/Memory/PageAllocator/Pages/RoundTrip.antt =====
-- What `allocate_pages` and `deallocate_pages` do to the free blocks.
use locos.Prelude.{
  ℕ, some_injective, sym, ◌∙◌, List, [], ◌∷◌, ◌++◌, get_elem?, set, ◌+◌, ◌-◌, ◌*◌, ◌%◌, ◌≤◌, ◌≡◌,
  refl, ap, Option, none, some, ◌>>=◌, >>=-eq-some, Result, ok, err, mul64, add64, arith,
  next_power_of_two-le, non_null,
}
use locos.Memory.Mapper.{Mapper, Failure, map_loop, unmap_loop}
use locos.Memory.Blocks.{IsBlock, cover, hit}
use locos.Memory.PageAllocator.{PageAllocator, get_level_from_size, get_free_block, merge_buddies}
use locos.Memory.PageAllocator.Valid.{size_of, IsValid, IsBlock-aligned}
use locos.Memory.PageAllocator.Level.{get_level_from_size-some, get_level_from_size_same}
use locos.Memory.PageAllocator.Alloc.{get_free_block-Got}
use locos.Memory.PageAllocator.Undo.{IsMerged, merge_buddies-get_free_block}
use locos.Memory.PageAllocator.Free.{merge_buddies-Freed}
use locos.Memory.PageAllocator.History.{Got-some, Freed-some}
use native.Mathlib.Nat.{le_trans}
use locos.Memory.PageAllocator.Pages.{
  PageAllocLayout, block_bytes, allocated, deallocated, allocate_pages, deallocate_pages,
}

expect-eq-some {ℓ} :
    {A : Type ℓ} (o : Option (Option A)) {a : A} → (o >>= λ x. x) ≡ some a → o ≡ some (some a)
expect-eq-some none h = cc
expect-eq-some (some none) h = cc
expect-eq-some (some (some b)) h = cc

block_bytes-le : (n size : ℕ) → block_bytes n ≡ some size → n * 4096 ≤ size
unfolding block_bytes
block_bytes-le n size h =
    let (bytes, is_bytes, h') = >>=-eq-some (mul64 n 4096) _ h in
    omega (arith, next_power_of_two-le bytes h', same is_bytes)
  where
    same : {b : ℕ} → mul64 n 4096 ≡ some b → n * 4096 ≡ b
    same e = ground arith

module _ (m : Mapper) where
  open m use {State, MapError, UnmapError, page_of}

  -- What a call of `allocate_pages` that returned has done, whether it returned a layout or an error.
  record Took (s : PageAllocator) (n : ℕ) (r : Result MapError PageAllocLayout) (s' : PageAllocator)
      : Type 0 where
    size : ℕ
    level : ℕ
    block : ℕ
    bytes : block_bytes n ≡ some size
    chosen : get_level_from_size s size ≡ some (some level)
    taken : get_free_block s level ≡ some (s', some block)
    layout :
        (info : PageAllocLayout)
        → r ≡ ok info
        → (page_of block ≡ some info.page) × (info.length ≡ n)

  allocated-eq-some :
      (s : PageAllocator) (n block : ℕ) (out : Result (Failure MapError) (Unit {0}) × State)
      {r : Result MapError PageAllocLayout} {s' : PageAllocator} {st' : State}
      → allocated m s n block out ≡ some (r, s', st')
      → (s ≡ s')
        × ((info : PageAllocLayout)
            → r ≡ ok info
            → (page_of block ≡ some info.page) × (info.length ≡ n))
  unfolding allocated
  allocated-eq-some s n block (err e, st) h = (ground arith, λ info k. ground arith)
  allocated-eq-some s n block (ok u, st) h =
      let (page, at, h') = >>=-eq-some (page_of block) _ h in (ground arith, λ info k. ground arith)

  allocate_pages-Took :
      (s : PageAllocator) (st : State) (n : ℕ) (r : Result MapError PageAllocLayout)
      (s' : PageAllocator) (st' : State)
      → allocate_pages m s st n ≡ some (r, s', st')
      → Took s n r s'
  unfolding allocate_pages
  allocate_pages-Took s st n r s' st' h =
      let (size, bytes, h₁) = >>=-eq-some (block_bytes n) _ h in
      let (level, chosen, h₂) = >>=-eq-some (get_level_from_size s size >>= λ x. x) _ h₁ in
      let (got, taken, h₃) = >>=-eq-some (get_free_block s level) _ h₂ in
      let (block, is_block, h₄) = >>=-eq-some got.1 _ h₃ in
      let (end, is_end, h₅) = >>=-eq-some (add64 block size) _ h₄ in
      let (mapped, is_mapped, h₆) = >>=-eq-some (map_loop m _ _ st) _ h₅ in
      let (same, layout) = allocated-eq-some got.0 n block mapped h₆ in
      let e : got ≡ (s', some block) = ground arith in
      record {
        size = size;
        level = level;
        block = block;
        bytes = bytes;
        chosen = expect-eq-some _ chosen;
        taken = rw e at taken;
        layout = layout;
      }

  deallocated-eq-some :
      (s : PageAllocator) (level page : ℕ) (out : Result UnmapError (Unit {0}) × State)
      {s' : PageAllocator} {st' : State}
      → deallocated m s level page out ≡ some (ok tt, s', st')
      → merge_buddies level s page ≡ some s'
  unfolding deallocated
  deallocated-eq-some s level page (err e, st) h = ground arith
  deallocated-eq-some s level page (ok u, st) {s' = s'} h =
      let (ptr, real, h₁) =
        >>=-eq-some (non_null page) (λ p. merge_buddies level s p >>= λ t. some (ok tt, t, st)) h in
      let (t, merged, h₂) = >>=-eq-some (merge_buddies level s ptr) (λ t. some (ok tt, t, st)) h₁ in
      let same : ptr ≡ page = ground (arith, real) in
      let e : t ≡ s' = ground (arith, h₂) in rw (← same, ← e) merged

  deallocate_pages-merged :
      (s : PageAllocator) (st : State) (info : PageAllocLayout) (s' : PageAllocator) (st' : State)
      (size level : ℕ)
      → deallocate_pages m s st info ≡ some (ok tt, s', st')
      → block_bytes info.length ≡ some size
      → get_level_from_size s size ≡ some (some level)
      → merge_buddies level s info.page ≡ some s'
  unfolding deallocate_pages
  deallocate_pages-merged s st info s' st' size level h bytes chosen =
      let h₂ = rw chosen at (rw bytes at h) in
      let (end, is_end, h₃) = >>=-eq-some (add64 info.page size) _ h₂ in
      let (undone, is_undone, h₄) = >>=-eq-some (unmap_loop m _ st) _ h₃ in
      deallocated-eq-some s level info.page undone h₄

  -- A call of `allocate_pages` that returns, even with an error, has taken a block that is large
  -- enough out of the free blocks, and nothing else; after an error nobody holds that block.
  pub allocate_pages-takes :
      {top : ℕ} {s : PageAllocator} (st : State) (n : ℕ) (r : Result MapError PageAllocLayout)
      (s' : PageAllocator) (st' : State)
      → IsValid top s
      → allocate_pages m s st n ≡ some (r, s', st')
      → (level block : ℕ) × IsValid top s'
        × (n * 4096 ≤ size_of top level)
        × IsBlock s.heap_start (size_of top) level block
        × ((a : ℕ)
            → cover (size_of top) s.free_lists a
              ≡ cover (size_of top) s'.free_lists a + hit (size_of top level) block a)
  allocate_pages-takes {top} {s} st n r s' st' v h =
      let took = allocate_pages-Took s st n r s' st' h in
      let (deep, fits) = get_level_from_size-some took.size took.level v took.chosen in
      let (w, same, block, covered) =
        Got-some _ s s' took.level took.block _ took.taken (get_free_block-Got took.level v deep) in
      (
        took.level,
        took.block,
        w,
        le_trans (block_bytes-le n took.size took.bytes) fits,
        block,
        covered,
      )

  -- What `Page::containing_address` documents: the page starts at the address rounded down.
  abbrev pub RoundsDown : Type 0
  RoundsDown = (a p : ℕ) → page_of a ≡ some p → p ≡ a - a % 4096

  -- From an allocator of an aligned region in which of no pair of halves both are free, pages that
  -- `allocate_pages` returned and `deallocate_pages` then took back without an error leave the
  -- allocator valid and with the same free blocks: whatever was split is whole again, and the free
  -- lists differ only in that the block, which was the first of one of them, is now its last. What the
  -- page tables did in between does not matter.
  pub deallocate_pages-allocate_pages :
      {top : ℕ} {s s' s'' : PageAllocator} (st st' mid end : State) (n : ℕ) (info : PageAllocLayout)
      → RoundsDown
      → IsValid top s
      → IsMerged top s
      → s.heap_start % 4096 ≡ 0
      → allocate_pages m s st n ≡ some (ok info, s', st')
      → deallocate_pages m s' mid info ≡ some (ok tt, s'', end)
      → IsValid top s''
        × ((a : ℕ) → cover (size_of top) s''.free_lists a ≡ cover (size_of top) s.free_lists a)
        × ((k : ℕ) × (rest : List ℕ) × (get_elem? s.free_lists k ≡ some (info.page ∷ rest))
            × (s'' ≡ record s { free_lists = set s.free_lists k (rest ++ info.page ∷ []) }))
  deallocate_pages-allocate_pages {top} {s} {s'} {s''} st st' mid end n info down v alone aligned
        got gave =
      let took = allocate_pages-Took s st n (ok info) s' st' got in
      let level = took.level in
      let block = took.block in
      let (deep, fits) = get_level_from_size-some took.size level v took.chosen in
      let (w, same, at, covered) =
        Got-some _ s s' level block _ took.taken (get_free_block-Got level v deep) in
      let (page, pages) = took.layout info refl in
      let starts : info.page ≡ block =
        omega (arith, down block info.page page, IsBlock-aligned v level block deep aligned at) in
      let chosen : get_level_from_size s' took.size ≡ some (some level) =
        rw (get_level_from_size_same took.size w v) (took.chosen) in
      let merged =
        deallocate_pages-merged s' mid info s'' end took.size level gave (rw pages (took.bytes))
          chosen in
      let at' : IsBlock s'.heap_start (size_of top) level info.page = rw (same, starts) at in
      let (x, same', freed) =
        Freed-some s' s'' level info.page _ merged
          (merge_buddies-Freed level info.page w deep at') in
      let (k, rest, first, back) =
        merge_buddies-get_free_block level block v alone deep took.taken in
      (
        x,
        λ a. omega (arith, covered a, freed a, ap (λ (b : ℕ). hit (size_of top level) b a) starts),
        (k, rest, rw starts first, some_injective s'' _ (sym merged ∙ rw starts back)),
      )
