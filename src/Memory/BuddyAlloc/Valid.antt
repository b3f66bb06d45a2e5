-- ===== src/Memory/BuddyAlloc/Valid.antt =====
-- The invariant of the kernel heap: its free lists stand for sequences of blocks of their level, and
-- no address is in two free blocks.
use mathlib.Core.Path.{subst}
use locos.Prelude.{
  ℕ, suc, ◌+◌, ◌-◌, ◌*◌, ◌/◌, ◌^◌, ◌≤◌, ◌<◌, ◌≡◌, ap, ◌∙◌, sym, Option, none, some, List, ◌∷◌,
  arith, length, word, length-set, set, get_elem?, bit_xor, sub64, All,
}
use locos.Prelude.Bits.{flip, bit_xor-two_pow}
use native.Mathlib.Nat.{pow-suc, mod-eq_of_lt, mul_assoc}
use locos.Memory.Blocks.{
  AllLevels, AllLevels-get, AllLevels-set, IsBlock, cover, cover-set, hit, get_elem?-some,
}
use locos.Memory.Powers.{shift_total, shift_size, pow-add, two_pow_pos, two_pow_le}
use locos.Memory.FreeList.{Memory, FreeList, write_next}
use locos.Memory.FreeList.Chain.{occ, Lists, IsDistinct, push-Lists, write_next-other}
use locos.Memory.FreeList.Chains.{total, Chains, Chains-get, Chains-set, Chains-frame, occ-le-total}
use locos.Memory.Count.{total-le-cover, length-le-two_pow}
use locos.Memory.BuddyAlloc.{Heap, Params, max_size, block_size, push_block}

-- The size of a block of level `l`, when level `top` has blocks of `2 ^ u` bytes.
abbrev pub size_of : ℕ → ℕ → ℕ → ℕ
size_of u top l = 2 ^ (u + top) / 2 ^ l

-- `L` is `top + 1`, `S` is `2 ^ u`; no list has more blocks than there is fuel.
pub record Fits (u top : ℕ) (c : Params) : Type 0 where
  pub deep : c.levels ≡ suc top
  pub small : c.smallest ≡ 2 ^ u
  pub few : u + top < 63
  pub enough : 2 ^ top ≤ c.fuel

-- The heap starts at a multiple of its size.
pub record IsStart (u top base : ℕ) : Type 0 where
  pub number : ℕ
  pub aligned : base ≡ number * 2 ^ (u + top)
  pub low : 0 < base

pub record IsHeap (u top base : ℕ) (h : Heap) (ls : List (List ℕ)) : Type 0 where
  pub lists : length ls ≡ suc top
  pub start : h.alloc.heap_start ≡ base
  pub chains : Chains h.mem h.alloc.free_lists ls
  pub blocks : AllLevels (IsBlock base (size_of u top)) ls
  pub once : (a : ℕ) → cover (size_of u top) ls a ≤ 1

module _ {u top : ℕ} {c : Params} (f : Fits u top c) where
  pub max_size_lem : max_size c ≡ some (size_of u top 0)
  unfolding max_size
  max_size_lem =
      let shift : sub64 c.levels 1 ≡ some top = ground (arith, f.deep) in
      let fits : 2 ^ (u + top) < word =
        omega (arith, two_pow_le (u + top) 63 (omega (arith, f.few))) in
      let whole : 2 ^ u * 2 ^ top ≡ 2 ^ (u + top) = sym (pow-add u top) in
      rw shift (ground (arith, f.few, mod-eq_of_lt fits, f.small, whole))

  pub block_size_lem : (l : ℕ) → l ≤ suc top → block_size c l ≡ some (size_of u top l)
  unfolding block_size
  block_size_lem l h = rw max_size_lem (ground (arith, f.few))

-- Moving to the other half of a pair, counted from an even number.
flip-add : (k q : ℕ) → flip (2 * k + q) ≡ 2 * k + flip q
flip-add k q = ground arith

module _ {u top base : ℕ} (r : IsStart u top base) (l : ℕ) (h : suc l ≤ top) where
  -- The start of the heap is the start of a block, counted from address 0.
  start_block : base ≡ 2 * (r.number * 2 ^ l) * size_of u top (suc l)
  start_block =
      let total = shift_total u top (suc l) h in
      r.aligned
      ∙ ap (λ (t : ℕ). r.number * t) (sym total)
      ∙ sym (mul_assoc r.number (2 ^ suc l) (size_of u top (suc l)))
      ∙ ap (λ (t : ℕ). t * size_of u top (suc l))
          (omega (arith, ap (λ (t : ℕ). r.number * t) (pow-suc 2 l)))

  -- The exclusive or with the size finds the other half of the pair.
  pub buddy_lem :
      (q : ℕ)
      → bit_xor (base + q * size_of u top (suc l)) (size_of u top (suc l))
        ≡ base + flip q * size_of u top (suc l)
  buddy_lem q =
      let k : ℕ = r.number * 2 ^ l in
      let s : ℕ = 2 ^ (u + (top - suc l)) in
      let exact : size_of u top (suc l) ≡ s = shift_size u top (suc l) h in
      let whole : base ≡ 2 * k * s = start_block ∙ ap (λ (t : ℕ). 2 * k * t) exact in
      let at : base + q * s ≡ (2 * k + q) * s = omega (arith, whole) in
      let to : (2 * k + flip q) * s ≡ base + flip q * s = omega (arith, whole) in
      rw exact (
        ap (λ (t : ℕ). bit_xor t s) at
        ∙ bit_xor-two_pow (u + (top - suc l)) (2 * k + q)
        ∙ ap (λ (t : ℕ). t * s) (flip-add k q)
        ∙ to)

module _ {u top base : ℕ} {h : Heap} {ls : List (List ℕ)} (v : IsHeap u top base h ls) where
  size-pos : (l : ℕ) → l ≤ top → 0 < size_of u top l
  size-pos l low = rw (shift_size u top l low) (two_pow_pos (u + (top - l)))

  -- A node of a free list is a free block.
  pub total-le-free : (a : ℕ) → total a ls ≤ cover (size_of u top) ls a
  total-le-free a =
      total-le-cover (size_of u top) ls a (λ l low. size-pos l (omega (arith, v.lists, low)))

  pub IsDistinct-get : (l : ℕ) (xs : List ℕ) → get_elem? ls l ≡ some xs → IsDistinct xs
  IsDistinct-get l xs e a = omega (arith, occ-le-total ls l a xs e, total-le-free a, v.once a)

  pub length-get : (l : ℕ) (xs : List ℕ) → l ≤ top → get_elem? ls l ≡ some xs → length xs ≤ 2 ^ top
  length-get l xs low e = omega (
    arith,
    length-le-two_pow base (size_of u top) l xs (AllLevels-get _ ls l xs e v.blocks)
        (IsDistinct-get l xs e),
    two_pow_le l top low,
  )

  -- One list is replaced. The memory may have changed where no other list has a node.
  pub set-IsHeap :
      (l : ℕ) (xs ys : List ℕ) (g : FreeList) (mem : Memory)
      → get_elem? ls l ≡ some xs
      → ((a : ℕ) → occ a xs < total a ls → mem a ≡ h.mem a)
      → Lists mem g ys
      → All (IsBlock base (size_of u top) l) ys
      → ((a : ℕ) → cover (size_of u top) (set ls l ys) a ≤ 1)
      → IsHeap u top base
          (record { alloc = record h.alloc { free_lists = set h.alloc.free_lists l g }; mem = mem })
          (set ls l ys)
  set-IsHeap l xs ys g mem e same new at once = record {
    lists = omega (arith, length-set ls l ys, v.lists);
    start = v.start;
    chains = Chains-set h.mem mem h.alloc.free_lists ls l xs ys g v.chains e same new;
    blocks = AllLevels-set _ ls l ys v.blocks at;
    once = once;
  }

-- The outcome of putting a block into its list: a heap whose free blocks are those of before and the
-- block. Memory changes in free blocks and in the block only.
abbrev pub Freed : ℕ → ℕ → ℕ → Heap → List (List ℕ) → ℕ → ℕ → Option Heap → Type 0
Freed u top base h ls l b none = ⊥
Freed u top base h ls l b (some h') =
    (ls' : List (List ℕ)) × IsHeap u top base h' ls'
    × ((a : ℕ)
        → cover (size_of u top) ls' a ≡ cover (size_of u top) ls a + hit (size_of u top l) b a)
    × ((a : ℕ) → cover (size_of u top) ls a + hit (size_of u top l) b a ≡ 0 → h'.mem a ≡ h.mem a)

-- A block is free nowhere.
abbrev pub IsOut : ℕ → ℕ → List (List ℕ) → ℕ → ℕ → Type 0
IsOut u top ls l b = (a : ℕ) → cover (size_of u top) ls a + hit (size_of u top l) b a ≤ 1

module _ {u top base : ℕ} {h : Heap} {ls : List (List ℕ)} (v : IsHeap u top base h ls)
    (few : top < 63) (l b : ℕ) (low : l ≤ top) (at : IsBlock base (size_of u top) l b)
    (out : IsOut u top ls l b) where
  own : hit (size_of u top l) b b ≡ 1
  own = ground (arith, size-pos v l low)

  unlisted : total b ls ≡ 0
  unlisted = omega (arith, total-le-free v b, out b, own)

  pub push_block-Freed : Freed u top base h ls l b (push_block h l b)
  unfolding push_block
  push_block-Freed =
      let (xs, e) = get_elem?-some ls l (omega (arith, v.lists, low)) in
      let (g, here, listed) = Chains-get h.mem h.alloc.free_lists ls l xs v.chains e in
      let absent : occ b xs ≡ 0 = omega (arith, occ-le-total ls l b xs e, unlisted) in
      let room : length xs + 1 < word =
        omega (arith, length-get v l xs low e, two_pow_le top 62 (omega (arith, few))) in
      let (g', done, listed') = push-Lists g h.mem b xs listed absent room in
      let n = size_of u top l in
      let covered : (a : ℕ)
          → cover (size_of u top) (set ls l (b ∷ xs)) a ≡ cover (size_of u top) ls a + hit n b a =
        λ a. omega (arith, cover-set (size_of u top) ls l xs (b ∷ xs) a e) in
      rw here (
        rw done (
          set ls l (b ∷ xs),
          set-IsHeap v l xs (b ∷ xs) g' (write_next h.mem b g.head) e
              (λ a i. write_next-other h.mem b a g.head (λ same.
                let j : 0 < total b ls = rw (← same) (omega (arith, i)) in
                omega (arith, j, unlisted)))
              listed' (at, AllLevels-get _ ls l xs e v.blocks)
              (λ a. omega (arith, covered a, out a)),
          covered,
          λ a none_of. write_next-other h.mem b a g.head (λ same.
              let zero_at : hit n b a ≡ 0 = omega (arith, none_of) in
              let j = subst (λ (z : ℕ). hit n b z ≡ 0) same zero_at in omega (arith, j, own)),
        ))

-- A heap stays valid when memory changes outside of the free blocks.
pub frame-IsHeap :
    {u top base : ℕ} {h : Heap} {ls : List (List ℕ)}
    → IsHeap u top base h ls
    → (mem : Memory) → ((a : ℕ) → 0 < cover (size_of u top) ls a → mem a ≡ h.mem a)
    → IsHeap u top base (record h { mem = mem }) ls
frame-IsHeap {u} {top} {base} {h} {ls} v mem same = record {
  lists = v.lists;
  start = v.start;
  chains =
      Chains-frame h.mem mem h.alloc.free_lists ls
        (λ a i. same a (omega (arith, i, total-le-free v a))) v.chains;
  blocks = v.blocks;
  once = v.once;
}
