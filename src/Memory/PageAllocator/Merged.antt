-- ===== src/Memory/PageAllocator/Merged.antt =====
-- `merge_buddies` of the page allocator, and pairs of halves that are free.
pub mod Histories
use locos.Prelude.{
  ℕ, zero, suc, ◌+◌, ◌-◌, ◌*◌, ◌^◌, ◌≤◌, ◌<◌, ◌≡◌, refl, sym, ap, ◌∙◌, ◌⊎◌, inl, inr, Bool-cases,
  Option-cases, none, some, some_injective, List, [], ◌∷◌, ◌++◌, ◌>>=◌, arith, length, set,
  get_elem?, ltb, ◌==◌, position, remove_at, get_elem?-set_self, get_elem?-set_ne, if◌then◌else◌,
  replicate, true, false, Option,
}
use native.Mathlib.Decide.{dec_lt}
use locos.Prelude.Bits.{flip}
use locos.Memory.Blocks.{IsBlock, get_elem?-some, AllLevels-get, flip-lt, IsBlock-union}
use locos.Memory.Powers.{shift_half, shift_size, two_pow_pos, block_end_le}
use locos.Memory.PageAllocator.{
  PageAllocator, Step, take_or_split, push_buddy, split_level, get_free_block, push_back,
  merge_buddies,
}
use locos.Memory.PageAllocator.Valid.{size_of, IsValid, set-IsValid}
use locos.Memory.PageAllocator.Free.{remove-IsValid}
use locos.Memory.PageAllocator.Alloc.{
  Got, IsDry, take_or_split-Got, split_level-Got, push_buddy_lem,
}
use locos.Memory.PageAllocator.History.{
  System, Reach, here, next, takes, gives, IsHeld, IsPartition, Reach-IsPartition, All-mid,
}
use locos.Memory.PageAllocator.Start.{whole}
use locos.Memory.PageAllocator.Undo.{
  Undoes, take_or_split-Undoes, split_level-Undoes, IsMerged, merge_step, position_tail, set-set,
}

-- Of a list of one level: of no pair of halves are both in it.
abbrev pub Apart : ℕ → ℕ → ℕ → List ℕ → Type 0
Apart top start l xs =
    (q : ℕ)
    → q < 2 ^ suc l
    → (position (start + q * size_of top (suc l)) xs ≡ none)
      ⊎ (position (start + flip q * size_of top (suc l)) xs ≡ none)

position-other :
    (x y : ℕ) (ys : List ℕ) → (y == x) ≡ false → position x ys ≡ none → position x (y ∷ ys) ≡ none
unfolding position
position-other x y ys h e = rw (h, e) refl

head_other : (x y : ℕ) (ys : List ℕ) → position x (y ∷ ys) ≡ none → (y == x) ≡ false
unfolding position
head_other x y ys h = elim (Bool-cases (y == x)) [
  | inl eq ↦ let bad = rw eq at h in absurd (ground (arith, bad))
  | inr other ↦ other
]

position-append_absent :
    (x y : ℕ) (xs : List ℕ)
    → position x xs ≡ none
    → (y == x) ≡ false
    → position x (xs ++ y ∷ []) ≡ none
position-append_absent x y [] e h = position-other x y [] h e
position-append_absent x y (z ∷ zs) e h =
    position-other x z (zs ++ y ∷ []) (head_other x z zs e)
      (position-append_absent x y zs (position_tail x z zs e) h)

position-remove_at_absent :
    (x i : ℕ) (xs : List ℕ) → position x xs ≡ none → position x (remove_at i xs) ≡ none
unfolding remove_at
position-remove_at_absent x i [] e = e
position-remove_at_absent x zero (z ∷ zs) e = position_tail x z zs e
position-remove_at_absent x (suc i) (z ∷ zs) e =
    position-other x z (remove_at i zs) (head_other x z zs e)
      (position-remove_at_absent x i zs (position_tail x z zs e))

module _ {top : ℕ} {s : PageAllocator} (v : IsValid top s) (merged : IsMerged top s) where
  set_level-IsMerged :
      (k : ℕ) (xs : List ℕ)
      → k ≤ top
      → Apart top s.heap_start k xs
      → suc k ≤ top
      → IsMerged top (record s { free_lists = set s.free_lists (suc k) xs })
  set_level-IsMerged k xs h apart deep l q ys low small e = elim (Bool-cases (l == k)) [
    | inl eq ↦
        let same : l ≡ k = ground (arith, eq) in
        let listed = get_elem?-set_self s.free_lists (suc k) xs (omega (arith, v.lists, deep)) in
        let here : xs ≡ ys = some_injective xs ys (sym listed ∙ rw same at e) in
        rw (← here) (rw same (apart q (rw (sym same) small)))
    | inr other ↦
        merged l q ys low small
          (sym (get_elem?-set_ne s.free_lists xs (λ p. absurd (ground (arith, other, p)))) ∙ e)
  ]

  first_level-IsMerged :
      (xs : List ℕ) → IsMerged top (record s { free_lists = set s.free_lists zero xs })
  first_level-IsMerged xs l q ys low small e =
      merged l q ys low small
        (sym (get_elem?-set_ne s.free_lists xs (λ p. absurd (omega (arith, p)))) ∙ e)

-- Different blocks of a level start at different addresses.
blocks_differ :
    (start n p q : ℕ) → 0 < n → (p == q) ≡ false → (start + q * n == start + p * n) ≡ false
blocks_differ start n p q pos h = elim (dec_lt p q) [
  | yes lt ↦ let gap = block_end_le p q n lt in ground (arith, gap, pos)
  | no ge ↦ elim (dec_lt q p) [
    | yes lt ↦ let gap = block_end_le q p n lt in ground (arith, gap, pos)
    | no le ↦ absurd (ground (arith, h, ge, le))
  ]
]

module _ (top start l : ℕ) (pos : 0 < size_of top (suc l)) where
  abbrev at : ℕ → ℕ
  at q = start + q * size_of top (suc l)

  -- A list of one block.
  one-Apart : (b : ℕ) → Apart top start l (b ∷ [])
  unfolding position
  one-Apart b q small = elim (Bool-cases (b == at q)) [
    | inr other ↦ inl (position-other (at q) b [] other refl)
    | inl eq ↦
        let same : b ≡ at q = ground (arith, eq) in
        let differ : (q == flip q) ≡ false = ground arith in
        let back : (flip q == q) ≡ false = ground (arith, differ) in
        inr (
          position-other (at (flip q)) b []
            (rw same (blocks_differ start (size_of top (suc l)) (flip q) q pos back)) refl)
  ]

  -- A block behind others, of which none is its other half.
  append-Apart :
      (q : ℕ) (xs : List ℕ)
      → Apart top start l xs
      → position (at (flip q)) xs ≡ none
      → Apart top start l (xs ++ at q ∷ [])
  append-Apart q xs h alone p small = elim (Bool-cases (p == q)) [
    | inl eq ↦
        let same : p ≡ q = ground (arith, eq) in
        let differ : (flip q == q) ≡ false = ground arith in
        inr (
          rw same (
            position-append_absent (at (flip q)) (at q) xs alone
              (blocks_differ start (size_of top (suc l)) (flip q) q pos differ)))
    | inr other ↦
        let apart = blocks_differ start (size_of top (suc l)) p q pos other in
        elim (Bool-cases (flip p == q)) [
          | inl eq ↦
              let same : p ≡ flip q = ground (arith, eq) in
              inl (position-append_absent (at p) (at q) xs (rw same alone) apart)
          | inr other' ↦ elim (h p small) [
            | inl e ↦ inl (position-append_absent (at p) (at q) xs e apart)
            | inr e ↦ inr (
                position-append_absent (at (flip p)) (at q) xs e
                  (blocks_differ start (size_of top (suc l)) (flip p) q pos other'))
          ]
        ]
  ]

  remove_at-Apart :
      (i : ℕ) (xs : List ℕ) → Apart top start l xs → Apart top start l (remove_at i xs)
  remove_at-Apart i xs h q small = elim (h q small) [
    | inl e ↦ inl (position-remove_at_absent _ i xs e)
    | inr e ↦ inr (position-remove_at_absent _ i xs e)
  ]

size_pos : (top l : ℕ) → l ≤ top → 0 < size_of top l
size_pos top l h = omega (arith, shift_size 12 top l h, two_pow_pos (12 + (top - l)))

-- `merge_buddies l`, at every block of the level, keeps that of no pair of halves both are free.
abbrev KeepsMerged : ℕ → ℕ → Type 0
KeepsMerged top l =
    (t t' : PageAllocator) (k : ℕ)
    → IsValid top t
    → IsMerged top t
    → k < 2 ^ l
    → merge_buddies l t (t.heap_start + k * size_of top l) ≡ some t'
    → IsMerged top t'

module _ (top : ℕ) (s s' : PageAllocator) (v : IsValid top s) (merged : IsMerged top s) where
  push_zero-IsMerged :
      (b : ℕ) (xs : List ℕ)
      → get_elem? s.free_lists zero ≡ some xs
      → push_back s zero b ≡ some s'
      → IsMerged top s'
  unfolding push_back
  push_zero-IsMerged b xs listed e =
      rw (sym (some_injective _ s' (rw listed at e))) (first_level-IsMerged v merged (xs ++ b ∷ []))

  push_level-IsMerged :
      (l q : ℕ) (xs : List ℕ)
      → suc l ≤ top
      → get_elem? s.free_lists (suc l) ≡ some xs
      → position (s.heap_start + flip q * size_of top (suc l)) xs ≡ none
      → push_back s (suc l) (s.heap_start + q * size_of top (suc l)) ≡ some s'
      → IsMerged top s'
  unfolding push_back
  push_level-IsMerged l q xs h listed alone e =
      let b = s.heap_start + q * size_of top (suc l) in
      rw (sym (some_injective _ s' (rw listed at e))) (
        set_level-IsMerged v merged l (xs ++ b ∷ []) (omega (arith, h))
          (append-Apart top s.heap_start l (size_pos top (suc l) h) q xs
            (λ p small. merged l p xs h small listed) alone)
          h)

  merge_level-IsMerged :
      (l q : ℕ) (xs : List ℕ)
      → suc l ≤ top
      → q < 2 ^ suc l
      → get_elem? s.free_lists (suc l) ≡ some xs
      → KeepsMerged top l
      → merge_buddies (suc l) s (s.heap_start + q * size_of top (suc l)) ≡ some s'
      → IsMerged top s'
  merge_level-IsMerged l q xs h small listed ih e =
      let b = s.heap_start + q * size_of top (suc l) in
      let c = s.heap_start + flip q * size_of top (suc l) in
      let step = sym (merge_step v l q xs h small listed) ∙ e in
      elim (Option-cases (position c xs)) [
        | inl absent ↦ push_level-IsMerged l q xs h listed absent (rw absent at step)
        | inr (pos, found) ↦
            let t = record s { free_lists = set s.free_lists (suc l) (remove_at pos xs) } in
            let half = shift_half 12 top l h in
            let ((k, at_k, low), both) = IsBlock-union s.heap_start (size_of top) l half q small in
            ih t s' k (remove-IsValid v (suc l) pos xs listed)
              (set_level-IsMerged v merged l (remove_at pos xs) (omega (arith, h))
                (remove_at-Apart top s.heap_start l (size_pos top (suc l) h) pos xs
                  (λ p small. merged l p xs h small listed))
                h)
              low (ap (merge_buddies l t) (sym at_k) ∙ rw found at step)
      ]

merge_buddies-KeepsMerged : (l : ℕ) {top : ℕ} → l ≤ top → KeepsMerged top l
unfolding merge_buddies
merge_buddies-KeepsMerged zero {top} h s s' q v merged small e =
    let (xs, listed) = get_elem?-some s.free_lists zero (omega (arith, v.lists)) in
    push_zero-IsMerged top s s' v merged _ xs listed e
merge_buddies-KeepsMerged (suc l) {top} h s s' q v merged small e =
    let (xs, listed) = get_elem?-some s.free_lists (suc l) (omega (arith, v.lists)) in
    merge_level-IsMerged top s s' v merged l q xs h small listed
      (merge_buddies-KeepsMerged l (omega arith)) e

-- Giving a block back keeps that of no pair of halves both are free.
pub merge_buddies-IsMerged :
    {top : ℕ} {s s' : PageAllocator} (l b : ℕ)
    → IsValid top s
    → IsMerged top s
    → l ≤ top
    → IsBlock s.heap_start (size_of top) l b
    → merge_buddies l s b ≡ some s'
    → IsMerged top s'
merge_buddies-IsMerged {top} {s} {s'} l b v merged h (q, is_at, small) e =
    merge_buddies-KeepsMerged l h s s' q v merged small (ap (merge_buddies l s) (sym is_at) ∙ e)
