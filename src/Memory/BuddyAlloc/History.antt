-- ===== src/Memory/BuddyAlloc/History.antt =====
-- Any history of `alloc`, `dealloc` and writes of the program to its own blocks.
use locos.Prelude.{ℕ, ◌+◌, ◌≡◌, ◌∙◌, refl, none, Option, some, List, [], ◌∷◌, ◌++◌, arith, All, ap}
use locos.Memory.Blocks.{IsBlock, cover, hit}
use locos.Memory.FreeList.{Memory}
use locos.Memory.BuddyAlloc.{Heap, Params, Step, alloc, dealloc}
use locos.Memory.BuddyAlloc.Valid.{size_of, Fits, IsStart, IsHeap, Freed, frame-IsHeap}
use locos.Memory.BuddyAlloc.Alloc.{Got}
use locos.Memory.BuddyAlloc.Layouts.{IsLevel, alloc-Got, dealloc-Freed}

-- An allocated block, with the layout that it was requested with and the level it is of.
pub record Held : Type 0 where
  pub size : ℕ
  pub align : ℕ
  pub level : ℕ
  pub block : ℕ

pub record System : Type 0 where
  pub heap : Heap
  pub held : List Held

-- How many allocated blocks hold `a`.
abbrev pub held_cover : ℕ → ℕ → List Held → ℕ → ℕ
held_cover u top [] a = 0
held_cover u top (x ∷ r) a = hit (size_of u top x.level) x.block a + held_cover u top r a

pub data Move (u top : ℕ) (c : Params) (x y : System) : Type 0 where
  allocs :
      (p : Held) (h : Heap)
      → IsLevel c p.size p.align p.level
      → alloc c x.heap p.size p.align ≡ some (h, some p.block)
      → y ≡ record { heap = h; held = p ∷ x.held }
      → Move u top c x y
  deallocs :
      (before after : List Held) (p : Held) (h : Heap)
      → x.held ≡ before ++ p ∷ after
      → dealloc c x.heap p.block p.size p.align ≡ some h
      → y ≡ record { heap = h; held = before ++ after }
      → Move u top c x y
  writes :
      (mem : Memory)
      → ((a : ℕ) → held_cover u top x.held a ≡ 0 → mem a ≡ x.heap.mem a)
      → y ≡ record { heap = record x.heap { mem = mem }; held = x.held }
      → Move u top c x y

pub data Reach (u top : ℕ) (c : Params) (x : System) : System → Type 0 where
  here : Reach u top c x x
  next : {y z : System} → Reach u top c x y → Move u top c y z → Reach u top c x z

abbrev pub IsHeld : ℕ → ℕ → ℕ → Params → Held → Type 0
IsHeld u top base c p =
    IsLevel c p.size p.align p.level × IsBlock base (size_of u top) p.level p.block

-- The free lists are sound, and every address of the heap is in exactly one block, free or allocated.
pub record IsSound (u top base : ℕ) (c : Params) (x : System) : Type 0 where
  pub free : List (List ℕ)
  pub valid : IsHeap u top base x.heap free
  pub owned : All (IsHeld u top base c) x.held
  pub split :
      (a : ℕ)
      → cover (size_of u top) free a + held_cover u top x.held a ≡ hit (size_of u top 0) base a

held_cover-mid :
    (u top : ℕ) (xs ys : List Held) (p : Held) (a : ℕ)
    → held_cover u top (xs ++ p ∷ ys) a
      ≡ hit (size_of u top p.level) p.block a + held_cover u top (xs ++ ys) a
held_cover-mid u top [] ys p a = omega arith
held_cover-mid u top (x ∷ xs) ys p a = omega (arith, held_cover-mid u top xs ys p a)

pub All-mid :
    (P : Held → Type 0) (xs ys : List Held) (p : Held)
    → All P (xs ++ p ∷ ys)
    → P p × All P (xs ++ ys)
All-mid P [] ys p h = h
All-mid P (x ∷ xs) ys p h = let rest = All-mid P xs ys p h.1 in (rest.0, (h.0, rest.1))

pub Got-some :
    (u top base : ℕ) (d : Type 0) (h h' : Heap) (ls : List (List ℕ)) (l b : ℕ) (out : Step)
    → out ≡ some (h', some b)
    → Got u top base d h ls l out
    → Got u top base d h ls l (some (h', some b))
Got-some u top base d h h' ls l b out e g = rw e at g

pub Freed-some :
    (u top base : ℕ) (h h' : Heap) (ls : List (List ℕ)) (l b : ℕ) (out : Option Heap)
    → out ≡ some h'
    → Freed u top base h ls l b out
    → Freed u top base h ls l b (some h')
Freed-some u top base h h' ls l b out e g = rw e at g

pub held_cover-given :
    (u top : ℕ) (xs ys : List Held) (p : Held) (held : List Held)
    → held ≡ xs ++ p ∷ ys
    → (a : ℕ)
    → held_cover u top held a
      ≡ hit (size_of u top p.level) p.block a + held_cover u top (xs ++ ys) a
held_cover-given u top xs ys p held e a =
    ap (λ (zs : List Held). held_cover u top zs a) e ∙ held_cover-mid u top xs ys p a

returned :
    (u top base : ℕ) (h : Heap) (ls : List (List ℕ)) (l b : ℕ) (out : Option Heap)
    → Freed u top base h ls l b out
    → (h' : Heap) × (out ≡ some h')
returned u top base h ls l b none g = absurd g
returned u top base h ls l b (some h') g = (h', refl)

module _ {u top base : ℕ} {c : Params} (f : Fits u top c) (r : IsStart u top base) where
  module _ {x : System} (before after : List Held) (p : Held) where
    pub give-Freed :
        (w : IsSound u top base c x)
        → x.held ≡ before ++ p ∷ after
        → Freed u top base x.heap w.free p.level p.block (dealloc c x.heap p.block p.size p.align)
    give-Freed w e =
        let owned : All (IsHeld u top base c) (before ++ p ∷ after) = rw e at (w.owned) in
        let ((i, at), others) = All-mid (IsHeld u top base c) before after p owned in
        dealloc-Freed f r w.valid p.size p.align p.level i p.block at
          (λ a. ground (arith, w.split a, held_cover-given u top before after p x.held e a))

    give-IsSound :
        (h : Heap)
        → IsSound u top base c x
        → x.held ≡ before ++ p ∷ after
        → dealloc c x.heap p.block p.size p.align ≡ some h
        → IsSound u top base c (record { heap = h; held = before ++ after })
    give-IsSound h w e done =
        let owned : All (IsHeld u top base c) (before ++ p ∷ after) = rw e at (w.owned) in
        let (ls, v, covered, spared) =
          Freed-some u top base x.heap h w.free p.level p.block _ done (give-Freed w e) in
        record {
          free = ls;
          valid = v;
          owned = (All-mid (IsHeld u top base c) before after p owned).1;
          split = λ a.
              omega (arith, covered a, w.split a, held_cover-given u top before after p x.held e a);
        }

  pub Move-IsSound :
      {x y : System} → Move u top c x y → IsSound u top base c x → IsSound u top base c y
  Move-IsSound {x} (allocs p h i e to) w =
      let (ls, v, at, covered, spared) =
        Got-some u top base _ x.heap h w.free p.level p.block _ e
          (alloc-Got f r w.valid p.size p.align p.level i) in
      rw to (record {
        free = ls;
        valid = v;
        owned = ((i, at), w.owned);
        split = λ a. omega (arith, covered a, w.split a);
      })
  Move-IsSound {x} (deallocs before after p h e done to) w =
      rw to (give-IsSound before after p h w e done)
  Move-IsSound {x} (writes mem same to) w = rw to (record {
    free = w.free;
    valid = frame-IsHeap w.valid mem (λ a i. same a (ground (arith, w.split a, i)));
    owned = w.owned;
    split = w.split;
  })

  -- Let the program, in any order, allocate with any layouts, give allocated blocks back with the
  -- layout that they were allocated with, and write anything to allocated blocks. Then the free lists
  -- stay sound, and every address of the heap is in exactly one block, free or allocated: no
  -- allocated block overlaps another or a free one, and nothing is lost.
  pub Reach-IsSound :
      {x y : System} → Reach u top c x y → IsSound u top base c x → IsSound u top base c y
  Reach-IsSound here w = w
  Reach-IsSound (next s m) w = Move-IsSound m (Reach-IsSound s w)

  -- After any such history, `dealloc` of an allocated block with its layout returns: the walks over the
  -- free lists end before `2 ^ top` nodes, nothing panics, and the next state is again a partition.
  pub dealloc-returns :
      {x : System} (before after : List Held) (p : Held)
      → IsSound u top base c x
      → x.held ≡ before ++ p ∷ after
      → (h : Heap) × (dealloc c x.heap p.block p.size p.align ≡ some h)
        × IsSound u top base c (record { heap = h; held = before ++ after })
  dealloc-returns {x} before after p w e =
      let (h, done) =
        returned u top base x.heap w.free p.level p.block _ (give-Freed before after p w e) in
      (h, done, give-IsSound before after p h w e done)
