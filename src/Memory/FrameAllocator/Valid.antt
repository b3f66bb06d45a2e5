-- ===== src/Memory/FrameAllocator/Valid.antt =====
-- The invariant of a frame allocator that is alone in its page list: its lists stand for sequences of
-- nodes of blocks inside the allocator, no node is in two free blocks, and a node is marked with a
-- size only if it is in the list of that size.
use mathlib.Core.Path.{subst}
use locos.Prelude.{
  ℕ, suc, ◌+◌, ◌-◌, ◌*◌, ◌/◌, ◌^◌, ◌≤◌, ◌<◌, ◌≡◌, ap, ◌∙◌, sym, none, some, List, [], ◌∷◌, arith,
  some_injective, length, word, length-set, set, get_elem?, sub64, All, if◌then◌else◌, ◌==◌,
  Bool-cases, inl, inr,
}
use native.Mathlib.Nat.{pow-suc}
use native.Mathlib.Decide.{dec_lt}
use locos.Memory.Blocks.{AllLevels, AllLevels-get, AllLevels-set, cover, hits}
use locos.Memory.Powers.{shift_size, pow-add, two_pow_pos, two_pow_le}
use locos.Memory.FreeList.Chain.{occ, IsDistinct}
use locos.Memory.FreeList.Chains.{total, total-set, occ-le-total}
use locos.Memory.DoubleFreeList.{Nodes, DoubleFreeList, Node, cleared}
use locos.Memory.DoubleFreeList.Linked.{Lists}
use locos.Memory.DoubleFreeList.Table.{Tables, Tables-get, Tables-set, total-listed}
use locos.Memory.FrameAllocator.{Frames, block_size}

-- The frames of a block of level `l`, and the bytes of their nodes, when `top` is the level of single
-- frames.
abbrev pub pages_of : ℕ → ℕ → ℕ
pages_of top l = 2 ^ (0 + top) / 2 ^ l

abbrev pub size_of : ℕ → ℕ → ℕ
size_of top l = 2 ^ (5 + top) / 2 ^ l

-- A block of level `l` inside the allocator, whose first node is at `first`; blocks need no alignment.
abbrev pub IsInside : ℕ → ℕ → ℕ → ℕ → Type 0
IsInside top first l b = (l ≤ top) × (first ≤ b) × (b + size_of top l ≤ first + size_of top 0)

pub record IsFrames (top first : ℕ) (s : Frames) (ls : List (List ℕ)) : Type 0 where
  pub few : top < 46
  pub whole : s.allocator.virt_end ≡ s.allocator.virt_start + 2 ^ (12 + top)
  pub low : 0 < s.allocator.page_list_start
  pub after : s.allocator.page_list_start ≤ first
  pub high : first + 2 * size_of top 0 < word
  pub lists : suc top ≤ length ls
  pub tables : Tables s.nodes (pages_of top) s.allocator.free_lists ls
  pub blocks : AllLevels (IsInside top first) ls
  pub once : (a : ℕ) → cover (size_of top) ls a ≤ 1
  pub marked : (a : ℕ) → total a ls ≡ 0 → (s.nodes a).level_size ≡ none

pub bytes_lem : (top l : ℕ) → l ≤ top → pages_of top l * 32 ≡ size_of top l
bytes_lem top l h =
    omega
      (arith, shift_size 0 top l h, shift_size 5 top l h, pow-add 5 (top - l), pow_zero (top - l))
  where
    pow_zero : (n : ℕ) → 2 ^ (0 + n) ≡ 2 ^ n
    pow_zero n = ap (λ (t : ℕ). 2 ^ t) zero_plus
      where
        zero_plus : 0 + n ≡ n
        zero_plus = omega arith

pub size-pos : (top l : ℕ) → l ≤ top → 0 < size_of top l
size-pos top l h = rw (shift_size 5 top l h) (two_pow_pos (5 + (top - l)))

-- Levels have different sizes.
pub pages_of-lt : (top i j : ℕ) → i < j → j ≤ top → pages_of top j < pages_of top i
pages_of-lt top i j lt h =
    let e : pages_of top i ≡ 2 ^ (0 + (top - i)) = shift_size 0 top i (omega (arith, lt, h)) in
    let f : pages_of top j ≡ 2 ^ (0 + (top - j)) = shift_size 0 top j h in
    omega (
      arith,
      e,
      f,
      pow-suc 2 (0 + (top - j)),
      two_pow_pos (0 + (top - j)),
      two_pow_le (suc (0 + (top - j))) (0 + (top - i)) (omega (arith, lt, h)),
    )

occ-le-hits : (n : ℕ) (xs : List ℕ) (r : ℕ) → 0 < n → occ r xs ≤ hits n xs r
occ-le-hits n [] r h = omega arith
occ-le-hits n (x ∷ xs) r h = ground (arith, occ-le-hits n xs r h)

-- A node of a list is in a free block.
total-le-blocks :
    (size : ℕ → ℕ) (P : ℕ → ℕ → Type 0) (ls : List (List ℕ)) (a : ℕ)
    → ((l b : ℕ) → P l b → 0 < size l)
    → AllLevels P ls
    → total a ls ≤ cover size ls a
total-le-blocks size P [] a pos h = omega arith
total-le-blocks size P (xs ∷ ls) a pos (here, h) = omega (
  arith,
  first xs here,
  total-le-blocks (λ l. size (suc l)) (λ l. P (suc l)) ls a (λ l. pos (suc l)) h,
)
  where
    first : (xs : List ℕ) → All (P 0) xs → occ a xs ≤ hits (size 0) xs a
    first [] h = omega arith
    first (x ∷ xs) (p, h) = occ-le-hits (size 0) (x ∷ xs) a (pos 0 x p)

-- A predicate of all members holds of an address that is listed.
pub All-occ : (P : ℕ → Type 0) (a : ℕ) (xs : List ℕ) → 0 < occ a xs → All P xs → P a
All-occ P a [] h all = absurd (omega (arith, h))
All-occ P a (x ∷ xs) h (p, all) = elim (Bool-cases (x == a)) [
  | inl own ↦ let at : x ≡ a = ground (arith, own) in subst P at p
  | inr other ↦ All-occ P a xs (ground (arith, h, other)) all
]

module _ {top first : ℕ} {s : Frames} {ls : List (List ℕ)} (v : IsFrames top first s ls) where
  pub block_size_lem : (l : ℕ) → l ≤ top → block_size s.allocator l ≡ some (pages_of top l)
  unfolding block_size
  block_size_lem l h =
      let e : s.allocator.virt_end - s.allocator.virt_start ≡ 2 ^ (12 + top) =
        omega (arith, v.whole) in
      let z : 0 + top ≡ top = omega arith in
      let d : 2 ^ (12 + top) / 4096 ≡ 2 ^ (0 + top) =
        omega (arith, pow-add 12 top, ap (λ (t : ℕ). 2 ^ t) z) in
      let sub : sub64 s.allocator.virt_end s.allocator.virt_start ≡ some (2 ^ (12 + top)) =
        rw (v.whole) (ground arith) in
      rw sub (rw d (ground (arith, h, v.few)))

  pub total-le-free : (a : ℕ) → total a ls ≤ cover (size_of top) ls a
  total-le-free a =
      total-le-blocks (size_of top) (IsInside top first) ls a (λ l b i. size-pos top l i.0) v.blocks

  pub IsDistinct-get : (l : ℕ) (xs : List ℕ) → get_elem? ls l ≡ some xs → IsDistinct xs
  IsDistinct-get l xs e a = omega (arith, occ-le-total ls l a xs e, total-le-free a, v.once a)

  -- A node that is marked with the size of a level is in the list of that level.
  pub marked-listed :
      (l a : ℕ) (xs : List ℕ)
      → l ≤ top
      → get_elem? ls l ≡ some xs
      → (s.nodes a).level_size ≡ some (pages_of top l)
      → 0 < occ a xs
  marked-listed l a xs low e mark = elim (dec_lt 0 (total a ls)) [
    | no p ↦ let clear = v.marked a (omega (arith, p)) in absurd cc
    | yes p ↦
        let (i, ys, at, inside, short) = total-listed a ls p in
        let (f, here, listed) =
          Tables-get s.nodes (pages_of top) s.allocator.free_lists ls i ys v.tables at in
        let own : (s.nodes a).level_size ≡ some (pages_of top i) =
          ap (λ (n : Node). n.level_size) (listed.2 a inside) in
        let same : pages_of top i ≡ pages_of top l = some_injective _ _ (sym own ∙ mark) in
        let deep : i ≤ top =
          (All-occ (IsInside top first i) a ys inside (AllLevels-get _ ls i ys at v.blocks)).0 in
        elim (dec_lt i l) [
          | yes lt ↦ absurd (omega (arith, same, pages_of-lt top i l lt low))
          | no ge ↦ elim (dec_lt l i) [
            | yes gt ↦ absurd (omega (arith, same, pages_of-lt top l i gt deep))
            | no le ↦
                let level : i ≡ l = omega (arith, ge, le) in
                let lists : ys ≡ xs =
                  some_injective _ _ (sym at ∙ ap (λ (k : ℕ). get_elem? ls k) level ∙ e) in
                subst (λ (zs : List ℕ). 0 < occ a zs) lists inside
          ]
        ]
  ]

  -- One list is replaced. The nodes may have changed where no other list has a node.
  pub set-IsFrames :
      (l : ℕ) (xs ys : List ℕ) (g : DoubleFreeList) (nodes : Nodes)
      → get_elem? ls l ≡ some xs
      → ((a : ℕ) → occ a xs < total a ls → nodes a ≡ s.nodes a)
      → Lists nodes g (pages_of top l) ys
      → All (IsInside top first l) ys
      → ((a : ℕ) → cover (size_of top) (set ls l ys) a ≤ 1)
      → ((a : ℕ) → total a (set ls l ys) ≡ 0 → (nodes a).level_size ≡ none)
      → IsFrames top first
          (record {
            allocator = record s.allocator { free_lists = set s.allocator.free_lists l g };
            nodes = nodes;
          })
          (set ls l ys)
  set-IsFrames l xs ys g nodes e same new at once marked = record {
    few = v.few;
    whole = v.whole;
    low = v.low;
    after = v.after;
    high = v.high;
    lists = omega (arith, length-set ls l ys, v.lists);
    tables =
        Tables-set s.nodes nodes (pages_of top) s.allocator.free_lists ls l xs ys g v.tables e same
          new;
    blocks = AllLevels-set _ ls l ys v.blocks at;
    once = once;
    marked = marked;
  }

  -- After a node has left a list, with its mark cleared, the other marks are as they were.
  pub marked_after :
      (l b : ℕ) (xs ys : List ℕ) (nodes : Nodes)
      → get_elem? ls l ≡ some xs
      → ((a : ℕ) → occ a ys + (if b == a then 1 else 0) ≡ occ a xs)
      → nodes b ≡ cleared
      → ((a : ℕ) → occ a xs ≡ 0 → nodes a ≡ s.nodes a)
      → (a : ℕ) → total a (set ls l ys) ≡ 0
      → (nodes a).level_size ≡ none
  marked_after l b xs ys nodes e left clear spared a i =
      let counts = left a in
      elim (Bool-cases (b == a)) [
        | inl own ↦
            let at : b ≡ a = ground (arith, own) in
            subst (λ (z : ℕ). (nodes z).level_size ≡ none) at
              (ap (λ (n : Node). n.level_size) clear)
        | inr other ↦
            let kept : occ a ys + 0 ≡ occ a xs = rw other at counts in
            let t = total-set ls l a xs ys e in
            let gone : total a ls ≡ 0 = omega (arith, t, i, kept) in
            ap (λ (n : Node). n.level_size)
              (spared a (omega (arith, gone, occ-le-total ls l a xs e)))
            ∙ v.marked a gone
      ]
