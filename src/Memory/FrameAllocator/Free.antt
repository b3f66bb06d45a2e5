-- ===== src/Memory/FrameAllocator/Free.antt =====
-- What `merge_buddies` of the frame allocator does.
use locos.Prelude.{
  ℕ, zero, suc, ◌+◌, ◌-◌, ◌^◌, ◌≤◌, ◌<◌, ◌≡◌, ◌⊎◌, refl, sym, ap, ◌∙◌, Option, none, some, ◌>>=◌,
  List, [], ◌∷◌, arith, set, get_elem?, bit_xor, non_null, mul64, add64, sub64, ltb, if◌then◌else◌,
  ◌==◌, true, false, Bool-cases, Option-cases, inl, inr, word, All,
}
use locos.Prelude.Bits.{bit_xor-two_pow_either}
use locos.Memory.Blocks.{cover, cover-set, hit, hits, AllLevels-get, get_elem?-some, hit_halves}
use locos.Memory.Powers.{shift_half, shift_size}
use locos.Memory.FreeList.Chain.{occ}
use locos.Memory.DoubleFreeList.{Nodes, DoubleFreeList, remove, contains}
use locos.Memory.DoubleFreeList.Order.{delete, occ-delete}
use locos.Memory.DoubleFreeList.Linked.{Lists}
use locos.Memory.DoubleFreeList.Removal.{remove-Lists}
use locos.Memory.DoubleFreeList.Table.{Tables-get}
use locos.Memory.FrameAllocator.{Frames, merge_buddies}
use locos.Memory.FrameAllocator.Valid.{
  size_of, pages_of, bytes_lem, size-pos, All-occ, IsInside, IsFrames, block_size_lem, set-IsFrames,
  marked_after, marked-listed, IsDistinct-get, total-le-free,
}
use locos.Memory.FrameAllocator.Push.{IsSame, Returned, IsOut, push_block-Returned}

hits-delete :
    (n b : ℕ) (xs : List ℕ) (a : ℕ)
    → 0 < occ b xs
    → hits n xs a ≡ hit n b a + hits n (delete b xs) a
hits-delete n b [] a h = absurd (omega (arith, h))
hits-delete n b (x ∷ xs) a h = elim (Bool-cases (x == b)) [
  | inl own ↦
      let at : x ≡ b = ground (arith, own) in rw own (ap (λ (z : ℕ). hit n z a + hits n xs a) at)
  | inr other ↦ rw other (omega (arith, hits-delete n b xs a (ground (arith, h, other))))
]

All-delete : (P : ℕ → Type 0) (b : ℕ) (xs : List ℕ) → All P xs → All P (delete b xs)
All-delete P b [] h = h
All-delete P b (x ∷ xs) (p, h) = elim (Bool-cases (x == b)) [
  | inl own ↦ rw own h
  | inr other ↦ rw other (p, All-delete P b xs h)
]

-- Freeing the union of two blocks, one of which left the free blocks before, frees the other one.
Returned-union :
    (top first : ℕ) (s t : Frames) (ls ms : List (List ℕ)) (l k m b : ℕ) (out : Option Frames)
    → IsSame s t
    → ((a : ℕ)
        → cover (size_of top) ms a + hit (size_of top l) m a
          ≡ cover (size_of top) ls a + hit (size_of top k) b a)
    → Returned top first t ms l m out
    → Returned top first s ls k b out
Returned-union top first s t ls ms l k m b none same total f = f
Returned-union top first s t ls ms l k m b (some s') same total (ls', v, same', freed) = (
  ls',
  v,
  (same'.0 ∙ same.0, same'.1 ∙ same.1, same'.2 ∙ same.2),
  λ a. omega (arith, freed a, total a),
)

contains-mark :
    (nodes : Nodes) (c size : ℕ) → contains nodes c size ≡ true → (nodes c).level_size ≡ some size
unfolding contains
contains-mark nodes c size h = elim (Option-cases (nodes c).level_size) [
  | inl clear ↦ let bad = rw (clear, contains) at h in absurd (ground (arith, bad))
  | inr (k, at) ↦
      let e = rw (at, contains) at h in let same : k ≡ size = ground (arith, e) in at ∙ ap some same
]

-- `merge_buddies l`, at every block of the level that is not free, in every valid state.
abbrev Merges : ℕ → ℕ → ℕ → Type 0
Merges top first l =
    (s : Frames) (ls : List (List ℕ)) (b : ℕ)
    → IsFrames top first s ls
    → IsInside top first l b
    → IsOut top ls l b
    → Returned top first s ls l b (merge_buddies l s b)

module _ {top first : ℕ} {s : Frames} {ls : List (List ℕ)} (v : IsFrames top first s ls) (l b c : ℕ)
    (at : IsInside top first (suc l) b) (out : IsOut top ls (suc l) b)
    (near : (c ≡ b + size_of top (suc l)) ⊎ (c + size_of top (suc l) ≡ b)) (xs : List ℕ)
    (e : get_elem? ls (suc l) ≡ some xs) (list : DoubleFreeList)
    (here : get_elem? s.allocator.free_lists (suc l) ≡ some list)
    (listed : Lists s.nodes list (pages_of top (suc l)) xs) where
  -- The neighbour is free: it leaves its list, and the union goes up.
  merge_found :
      0 < occ c xs
      → Merges top first l
      → Returned top first s ls (suc l) b (do
        (list', nodes) ← remove list s.nodes c
        merge_buddies l
            (record {
              allocator = record s.allocator {
                free_lists = set s.allocator.free_lists (suc l) list';
              };
              nodes = nodes;
            })
            (if ltb c b then c else b))
  merge_found inside ih =
      let n = size_of top (suc l) in
      let half = shift_half 5 top l at.0 in
      let m : ℕ = if ltb c b then c else b in
      let (list', nodes, done, listed', clear, spared) =
        remove-Lists s.nodes list (pages_of top (suc l)) c xs listed (IsDistinct-get v (suc l) xs e)
          inside in
      let old = AllLevels-get _ ls (suc l) xs e v.blocks in
      let there : IsInside top first (suc l) c =
        All-occ (IsInside top first (suc l)) c xs inside old in
      let both : (a : ℕ) → hit (size_of top l) m a ≡ hit n b a + hit n c a = λ a. union a in
      let ms = set ls (suc l) (delete c xs) in
      let left : (a : ℕ) → cover (size_of top) ms a + hit n c a ≡ cover (size_of top) ls a = λ a.
        omega (
          arith,
          cover-set (size_of top) ls (suc l) xs (delete c xs) a e,
          hits-delete n c xs a inside,
        ) in
      let t : Frames = record {
        allocator = record s.allocator { free_lists = set s.allocator.free_lists (suc l) list' };
        nodes = nodes;
      } in
      let w : IsFrames top first t ms =
        set-IsFrames v (suc l) xs (delete c xs) list' nodes e
          (λ a i. spared a (omega (arith, i, total-le-free v a, v.once a))) listed'
          (All-delete (IsInside top first (suc l)) c xs old) (λ a. omega (arith, left a, v.once a))
          (marked_after v (suc l) c xs (delete c xs) nodes e (λ a. occ-delete c a xs inside) clear
            spared) in
      let total : (a : ℕ)
          → cover (size_of top) ms a + hit (size_of top l) m a
            ≡ cover (size_of top) ls a + hit n b a =
        λ a. omega (arith, left a, both a) in
      let block : IsInside top first l m = (omega (arith, at), lower there, upper there) in
      rw done (
        Returned-union top first s t ls ms l (suc l) m b _ (refl, refl, refl) total
          (ih t ms m w block (λ a. omega (arith, total a, out a))))
    where
      union :
          (a : ℕ)
          → hit (size_of top l) (if ltb c b then c else b) a
            ≡ hit (size_of top (suc l)) b a + hit (size_of top (suc l)) c a
      union a =
          let n : ℕ = size_of top (suc l) in
          let half = shift_half 5 top l at.0 in
          elim near [
            | inl up ↦
                let keep : ltb c b ≡ false = ground (arith, up) in
                let here = hit_halves (size_of top l) n b a half in
                rw keep (here ∙ ap (λ (z : ℕ). hit n b a + hit n z a) (sym up))
            | inr down ↦
                let take : ltb c b ≡ true = ground (arith, down, size-pos top (suc l) at.0) in
                let here = hit_halves (size_of top l) n c a half in
                let swap : hit n (c + n) a ≡ hit n b a = ap (λ (z : ℕ). hit n z a) down in
                rw take (omega (arith, here, swap))
          ]

      lower : IsInside top first (suc l) c → first ≤ (if ltb c b then c else b)
      lower there = ground (arith, at, there)

      upper :
          IsInside top first (suc l) c
          → (if ltb c b then c else b) + size_of top l ≤ first + size_of top 0
      upper there = ground (arith, at, there, near, shift_half 5 top l at.0)

-- The neighbour that the exclusive or finds.
module _ {top first : ℕ} {s : Frames} {ls : List (List ℕ)} (v : IsFrames top first s ls) (l b : ℕ)
    (at : IsInside top first (suc l) b) where
  abbrev offset : ℕ
  offset = b - s.allocator.page_list_start

  abbrev neighbour : ℕ
  neighbour = s.allocator.page_list_start + bit_xor offset (size_of top (suc l))

  neighbour-near : (neighbour ≡ b + size_of top (suc l)) ⊎ (neighbour + size_of top (suc l) ≡ b)
  neighbour-near =
      let j : ℕ = 5 + (top - suc l) in
      let exact : size_of top (suc l) ≡ 2 ^ j = shift_size 5 top (suc l) at.0 in
      let moved : bit_xor offset (size_of top (suc l)) ≡ bit_xor offset (2 ^ j) =
        ap (λ (t : ℕ). bit_xor offset t) exact in
      elim (bit_xor-two_pow_either j offset) [
        | inl up ↦ inl (omega (arith, up, moved, exact, v.after, at))
        | inr down ↦ inr (omega (arith, down, moved, exact, v.after, at))
      ]

  merge_suc :
      IsOut top ls (suc l) b
      → Merges top first l
      → Returned top first s ls (suc l) b (merge_buddies (suc l) s b)
  unfolding merge_buddies
  merge_suc out ih =
      let n = size_of top (suc l) in
      let half = shift_half 5 top l at.0 in
      let bytes = bytes_lem top (suc l) at.0 in
      let times : mul64 (pages_of top (suc l)) 32 ≡ some n =
        rw bytes (ground (arith, at, v.high)) in
      let sub : sub64 b s.allocator.page_list_start ≡ some offset = ground (arith, at, v.after) in
      let near = neighbour-near in
      let bound : neighbour < word = in_word near in
      let sum : add64 s.allocator.page_list_start (bit_xor offset n) ≡ some neighbour =
        ground (arith, bound) in
      let real : non_null neighbour ≡ some neighbour = ground (arith, v.low) in
      let (xs, e) = get_elem?-some ls (suc l) (omega (arith, v.lists, at)) in
      let (list, here, listed) =
        Tables-get s.nodes (pages_of top) s.allocator.free_lists ls (suc l) xs v.tables e in
      rw (block_size_lem v (suc l) at.0) (
        rw times (
          rw sub (
            rw sum (
              rw real (
                rw here (elim (Bool-cases (contains s.nodes neighbour (pages_of top (suc l)))) [
                  | inl listed_there ↦ rw listed_there (
                      merge_found v l b neighbour at out near xs e list here listed
                        (marked-listed v (suc l) neighbour xs at.0 e
                          (contains-mark s.nodes neighbour (pages_of top (suc l)) listed_there))
                        ih)
                  | inr absent ↦ rw absent (push_block-Returned v (suc l) b at out)
                ]))))))
    where
      in_word :
          (neighbour ≡ b + size_of top (suc l)) ⊎ (neighbour + size_of top (suc l) ≡ b)
          → neighbour < word
      in_word (inl up) =
          omega (arith, up, at, v.high, shift_half 5 top l at.0, size-pos top (suc l) at.0)
      in_word (inr down) = omega (arith, down, at, v.high)

merge_buddies-Merges : (top first l : ℕ) → Merges top first l
unfolding merge_buddies
merge_buddies-Merges top first zero s ls b v at out =
    rw (block_size_lem v zero at.0) (push_block-Returned v zero b at out)
merge_buddies-Merges top first (suc l) s ls b v at out =
    merge_suc v l b at out (merge_buddies-Merges top first l)

-- `merge_buddies` of a frame allocator that is alone in its page list, given a block of the level that
-- lies inside the allocator and is not free, never panics, keeps every free block inside, and adds
-- exactly the frames of the block to the free ones, however many merges it makes.
pub merge_buddies-Returned :
    {top first : ℕ} {s : Frames} {ls : List (List ℕ)} (l b : ℕ)
    → IsFrames top first s ls
    → IsInside top first l b
    → IsOut top ls l b
    → Returned top first s ls l b (merge_buddies l s b)
merge_buddies-Returned {top} {first} {s} {ls} l b v at out =
    merge_buddies-Merges top first l s ls b v at out
