-- ===== src/Memory/PageAllocator/Undo.antt =====
-- What the splits of `get_free_block` took apart, `merge_buddies` puts together again.
use locos.Prelude.{
  ℕ, zero, suc, ◌+◌, ◌*◌, ◌^◌, ◌≤◌, ◌<◌, ◌≡◌, refl, sym, ap, ◌∙◌, ◌⊎◌, inl, inr, Bool-cases,
  Option-cases, none, some, List, [], ◌∷◌, ◌++◌, ◌>>=◌, arith, length, set, get_elem?, ltb, ◌==◌,
  position, remove_at, get_elem?-set_self, get_elem?-set_ne, if◌then◌else◌,
}
use native.Mathlib.Nat.{pow-suc}
use locos.Prelude.Bits.{flip}
use locos.Memory.Blocks.{IsBlock, get_elem?-some, AllLevels-get, flip-lt}
use locos.Memory.Powers.{shift_half}
use locos.Memory.PageAllocator.{
  PageAllocator, Step, take_or_split, push_buddy, split_level, get_free_block, push_back,
  merge_buddies,
}
use locos.Memory.PageAllocator.Valid.{size_of, IsValid, block_size_lem, set-IsValid}
use locos.Memory.PageAllocator.Alloc.{
  Got, IsDry, take_or_split-Got, split_level-Got, push_buddy_lem,
}
use locos.Memory.PageAllocator.Free.{offset_lem, xor_lem, buddy_fits}

position_head : (x : ℕ) (xs : List ℕ) → position x (x ∷ xs) ≡ some 0
unfolding position
position_head x xs = ground arith

pub position_tail : (x y : ℕ) (ys : List ℕ) → position x (y ∷ ys) ≡ none → position x ys ≡ none
unfolding position
position_tail x y ys h = elim (Option-cases (position x ys)) [
  | inl absent ↦ absent
  | inr (i, found) ↦ elim (Bool-cases (y == x)) [
    | inl here ↦ let bad = rw here at h in absurd (ground (arith, bad))
    | inr other ↦ let bad = rw (other, found) at h in absurd (ground (arith, bad))
  ]
]

pub set-set : (ls : List (List ℕ)) (i : ℕ) (xs ys : List ℕ) → set (set ls i xs) i ys ≡ set ls i ys
set-set [] i xs ys = refl
set-set (l ∷ ls) zero xs ys = refl
set-set (l ∷ ls) (suc i) xs ys = ap (λ t. l ∷ t) (set-set ls i xs ys)

set-get : (ls : List (List ℕ)) (i : ℕ) (xs : List ℕ) → get_elem? ls i ≡ some xs → set ls i xs ≡ ls
set-get [] i xs e = refl
set-get (l ∷ ls) zero xs e = let same : l ≡ xs = cc in rw same refl
set-get (l ∷ ls) (suc i) xs e = ap (λ t. l ∷ t) (set-get ls i xs e)

-- One round of `merge_buddies` at block number `q` of a level, with the list of the level.
pub merge_step :
    {top : ℕ} {w : PageAllocator} (v : IsValid top w) (l q : ℕ) (xs : List ℕ)
    → suc l ≤ top
    → q < 2 ^ suc l
    → get_elem? w.free_lists (suc l) ≡ some xs
    → let b = w.heap_start + q * size_of top (suc l) in
      let c = w.heap_start + flip q * size_of top (suc l) in
      merge_buddies (suc l) w b ≡ elim (position c xs) [
        | none ↦ push_back w (suc l) b
        | some pos ↦
            merge_buddies l
              (record w { free_lists = set w.free_lists (suc l) (remove_at pos xs) })
              (if ltb c b then c else b)
      ]
unfolding merge_buddies
merge_step v l q xs h small e =
    let fits = buddy_fits v (suc l) (flip q) h (flip-lt l q small) in
    rw (block_size_lem v (suc l) h) (
      rw (offset_lem v (suc l) q h small)
        (rw (xor_lem v (suc l) q h small) (rw (fits.0) (rw (fits.1) (rw e refl)))))

-- A lower half whose upper half is the only free block of its level merges with it.
module _ {top : ℕ} {s : PageAllocator} (v : IsValid top s) (l b : ℕ) (h : suc l ≤ top)
    (at : IsBlock s.heap_start (size_of top) l b)
    (dry : get_elem? s.free_lists (suc l) ≡ some []) where
  abbrev upper : ℕ
  upper = b + size_of top (suc l)

  abbrev split_once : PageAllocator
  split_once = record s { free_lists = set s.free_lists (suc l) (upper ∷ []) }

  rejoined : set (set s.free_lists (suc l) (upper ∷ [])) (suc l) [] ≡ s.free_lists
  rejoined = set-set s.free_lists (suc l) (upper ∷ []) [] ∙ set-get s.free_lists (suc l) [] dry

  merge_found_upper :
      (c b' : ℕ)
      → c ≡ upper
      → b' ≡ b
      → elim (position c (upper ∷ [])) [
        | none ↦ push_back split_once (suc l) b'
        | some pos ↦
            merge_buddies l
              (record split_once {
                free_lists = set split_once.free_lists (suc l) (remove_at pos (upper ∷ []));
              })
              (if ltb c b' then c else b')
      ]
        ≡ merge_buddies l s b
  unfolding remove_at
  merge_found_upper c b' is_upper is_lower =
      let found : position c (upper ∷ []) ≡ some 0 = rw is_upper (position_head upper []) in
      let lower : (if ltb c b' then c else b') ≡ b = ground (arith, is_upper, is_lower) in
      rw found (rw lower (rw rejoined refl))

  merge_split : merge_buddies (suc l) split_once b ≡ merge_buddies l s b
  merge_split =
      let (q, is_at, small) = at in
      let n = size_of top (suc l) in
      let half = shift_half 12 top l h in
      let lower : b ≡ s.heap_start + (2 * q) * n =
        omega (arith, is_at, ap (λ (t : ℕ). q * t) half) in
      let first : 2 * q < 2 ^ suc l = omega (arith, small, pow-suc 2 l) in
      let second : 2 * q + 1 < 2 ^ suc l = omega (arith, small, pow-suc 2 l) in
      let flipped : flip (2 * q) ≡ 2 * q + 1 = ground arith in
      let above : upper ≡ s.heap_start + (2 * q + 1) * n = omega (arith, lower) in
      let listed : get_elem? (set s.free_lists (suc l) (upper ∷ [])) (suc l) ≡ some (upper ∷ []) =
        get_elem?-set_self s.free_lists (suc l) (upper ∷ []) (omega (arith, v.lists)) in
      let w = set-IsValid v (suc l) (upper ∷ []) ((2 * q + 1, above, second), tt) in
      ap (merge_buddies (suc l) split_once) lower
      ∙ merge_step w l (2 * q) (upper ∷ []) h first listed
      ∙ merge_found_upper _ _ (ap (λ (t : ℕ). s.heap_start + t * n) flipped ∙ sym above) (sym lower)

-- The block that a request got was the first of a list of some level, and giving it back at the level
-- of the request is giving it back at that one; the lists of smaller blocks were not touched.
abbrev pub Undoes : PageAllocator → ℕ → Step → Type 0
Undoes s l none = Unit
Undoes s l (some (s', none)) = Unit
Undoes s l (some (s', some b)) =
    (k : ℕ) × (rest : List ℕ) × (get_elem? s.free_lists k ≡ some (b ∷ rest))
    × (k ≤ l)
    × (merge_buddies l s' b ≡ merge_buddies k (record s { free_lists = set s.free_lists k rest }) b)
    × ((j : ℕ) → l < j → get_elem? s'.free_lists j ≡ get_elem? s.free_lists j)

pub take_or_split-Undoes :
    (s : PageAllocator) (l : ℕ) (split : PageAllocator → Step) (xs : List ℕ)
    → get_elem? s.free_lists l ≡ some xs
    → (xs ≡ [] → Undoes s l (split s))
    → Undoes s l (take_or_split split s l)
unfolding take_or_split
take_or_split-Undoes s l split [] e h = rw (e, take_or_split) (h refl)
take_or_split-Undoes s l split (b ∷ rest) e h =
    rw (e, take_or_split)
      (
        l,
        rest,
        e,
        omega arith,
        refl,
        λ j above. get_elem?-set_ne s.free_lists rest (λ same. absurd (omega (arith, same, above))),
      )

push_buddy-Undoes :
    {top : ℕ} {s : PageAllocator} (v : IsValid top s) (l : ℕ) (out : Step)
    → suc l ≤ top
    → get_elem? s.free_lists (suc l) ≡ some []
    → Got top (IsDry (suc l) s) s l out
    → Undoes s l out
    → Undoes s (suc l) (out >>= push_buddy (suc l))
push_buddy-Undoes v l none h dry g u = u
push_buddy-Undoes v l (some (s', none)) h dry g u = unfold push_buddy in u
push_buddy-Undoes {top} {s} v l (some (s', some b)) h dry (v', start, at, covered)
      (k, rest, first, low, merged, same) =
    let at' : IsBlock s'.heap_start (size_of top) l b = rw start at in
    let dry' : get_elem? s'.free_lists (suc l) ≡ some [] = same (suc l) (omega arith) ∙ dry in
    rw (push_buddy_lem v' l b [] h at' dry') (
      k,
      rest,
      first,
      omega (arith, low),
      merge_split v' l b h at' dry' ∙ merged,
      λ j above.
          get_elem?-set_ne s'.free_lists _ (λ e. absurd (omega (arith, e, above)))
          ∙ same j (omega (arith, above)),
    )

pub split_level-Undoes :
    (l : ℕ) {top : ℕ} {s : PageAllocator}
    → IsValid top s
    → l ≤ top
    → get_elem? s.free_lists l ≡ some []
    → Undoes s l (split_level l s)
unfolding split_level
split_level-Undoes zero v h dry = tt
split_level-Undoes (suc l) {top} {s} v h dry =
    let (xs, e) = get_elem?-some s.free_lists l (omega (arith, v.lists)) in
    push_buddy-Undoes v l _ h dry
      (take_or_split-Got v l (split_level l) xs e (split_level-Got l v (omega arith)))
      (take_or_split-Undoes s l (split_level l) xs e
        (λ none_left. split_level-Undoes l v (omega arith) (rw none_left at e)))

pub get_free_block-Undoes :
    {top : ℕ} {s : PageAllocator} (l : ℕ)
    → IsValid top s
    → l ≤ top
    → Undoes s l (get_free_block s l)
unfolding get_free_block
get_free_block-Undoes {top} {s} l v h =
    let (xs, e) = get_elem?-some s.free_lists l (omega (arith, v.lists)) in
    take_or_split-Undoes s l (split_level l) xs e
      (λ none_left. split_level-Undoes l v h (rw none_left at e))

-- Of no pair of halves both are free.
abbrev pub IsMerged : ℕ → PageAllocator → Type 0
IsMerged top s =
    (l q : ℕ) (xs : List ℕ)
    → suc l ≤ top
    → q < 2 ^ suc l
    → get_elem? s.free_lists (suc l) ≡ some xs
    → (position (s.heap_start + q * size_of top (suc l)) xs ≡ none)
      ⊎ (position (s.heap_start + flip q * size_of top (suc l)) xs ≡ none)

push_back_last :
    (s : PageAllocator) (k b : ℕ) (rest : List ℕ)
    → k < length s.free_lists
    → push_back (record s { free_lists = set s.free_lists k rest }) k b
      ≡ some (record s { free_lists = set s.free_lists k (rest ++ b ∷ []) })
unfolding push_back
push_back_last s k b rest h =
    rw (get_elem?-set_self s.free_lists k rest h)
      (rw (set-set s.free_lists k rest (rest ++ b ∷ [])) refl)

-- A block given back to its level, where its other half is not free, becomes the last of its list.
pub merge_alone :
    {top : ℕ} {s : PageAllocator} (k b : ℕ) (rest : List ℕ)
    → IsValid top s
    → IsMerged top s
    → k ≤ top
    → IsBlock s.heap_start (size_of top) k b
    → get_elem? s.free_lists k ≡ some (b ∷ rest)
    → merge_buddies k (record s { free_lists = set s.free_lists k rest }) b
      ≡ some (record s { free_lists = set s.free_lists k (rest ++ b ∷ []) })
unfolding merge_buddies
merge_alone {s = s} zero b rest v merged h at first =
    push_back_last s zero b rest (omega (arith, v.lists))
merge_alone {top} {s} (suc l) b rest v merged h (q, at, small) first =
    let n = size_of top (suc l) in
    let c = s.heap_start + flip q * n in
    let all = AllLevels-get _ s.free_lists (suc l) (b ∷ rest) first v.blocks in
    let w = set-IsValid v (suc l) rest all.1 in
    let listed : get_elem? (set s.free_lists (suc l) rest) (suc l) ≡ some rest =
      get_elem?-set_self s.free_lists (suc l) rest (omega (arith, v.lists)) in
    let alone : position c (b ∷ rest) ≡ none = elim (merged l q (b ∷ rest) h small first) [
      | inl absent ↦
          let bad = rw (sym at) at absent in
          absurd (ground (arith, sym (position_head b rest) ∙ bad))
      | inr other ↦ other
    ] in
    let step = merge_step w l q rest h small listed in
    ap (merge_buddies (suc l) _) at
    ∙ step
    ∙ rw (position_tail c b rest alone)
        (rw (sym at) (push_back_last s (suc l) b rest (omega (arith, v.lists))))

-- A block got from an allocator in which of no pair of halves both are free, and given back at once, is
-- moved to the end of the list that it was the first of, and nothing else changes.
pub merge_buddies-get_free_block :
    {top : ℕ} {s s' : PageAllocator} (l b : ℕ)
    → IsValid top s
    → IsMerged top s
    → l ≤ top
    → get_free_block s l ≡ some (s', some b)
    → (k : ℕ) × (rest : List ℕ) × (get_elem? s.free_lists k ≡ some (b ∷ rest))
      × (merge_buddies l s' b
          ≡ some (record s { free_lists = set s.free_lists k (rest ++ b ∷ []) }))
merge_buddies-get_free_block {s = s} l b v alone h taken =
    let (k, rest, first, low, undone, same) = rw taken at (get_free_block-Undoes l v h) in
    let all = AllLevels-get _ s.free_lists k (b ∷ rest) first v.blocks in
    (k, rest, first, undone ∙ merge_alone k b rest v alone (omega (arith, low, h)) all.0 first)
