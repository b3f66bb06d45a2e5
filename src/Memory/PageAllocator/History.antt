-- ===== src/Memory/PageAllocator/History.antt =====
-- Any history of requests and returns of the page allocator, against the region that it manages.
use locos.Prelude.{ℕ, ◌+◌, ◌≤◌, ◌≡◌, ◌∙◌, refl, Option, some, List, [], ◌∷◌, ◌++◌, arith, All, ap}
use locos.Memory.Blocks.{IsBlock, cover, hit}
use locos.Memory.PageAllocator.{PageAllocator, get_free_block, merge_buddies}
use locos.Memory.PageAllocator.Valid.{size_of, IsValid}
use locos.Memory.PageAllocator.Alloc.{Got, get_free_block-Got}
use locos.Memory.PageAllocator.Free.{Freed, merge_buddies-Freed}

-- The allocator and the blocks in use, each with its level.
pub record System : Type 0 where
  pub pages : PageAllocator
  pub held : List (ℕ × ℕ)

-- How many blocks in use hold `a`.
abbrev pub held_cover : ℕ → List (ℕ × ℕ) → ℕ → ℕ
held_cover top [] a = 0
held_cover top ((l, b) ∷ r) a = hit (size_of top l) b a + held_cover top r a

pub data Move (top : ℕ) (x y : System) : Type 0 where
  takes :
      (l b : ℕ) (s : PageAllocator)
      → l ≤ top
      → get_free_block x.pages l ≡ some (s, some b)
      → y ≡ record { pages = s; held = (l, b) ∷ x.held }
      → Move top x y
  gives :
      (before after : List (ℕ × ℕ)) (l b : ℕ) (s : PageAllocator)
      → x.held ≡ before ++ (l, b) ∷ after
      → merge_buddies l x.pages b ≡ some s
      → y ≡ record { pages = s; held = before ++ after }
      → Move top x y

pub data Reach (top : ℕ) (x : System) : System → Type 0 where
  here : Reach top x x
  next : {y z : System} → Reach top x y → Move top y z → Reach top x z

abbrev pub IsHeld : ℕ → ℕ → ℕ × ℕ → Type 0
IsHeld top start p = (p.0 ≤ top) × IsBlock start (size_of top) p.0 p.1

-- Every address of the region is in exactly one block, free or in use; no other address is in any.
pub record IsPartition (top start : ℕ) (x : System) : Type 0 where
  pub valid : IsValid top x.pages
  pub same : x.pages.heap_start ≡ start
  pub owned : All (IsHeld top start) x.held
  pub split :
      (a : ℕ)
      → cover (size_of top) x.pages.free_lists a + held_cover top x.held a
        ≡ hit (size_of top 0) start a

held_cover-mid :
    (top : ℕ) (xs ys : List (ℕ × ℕ)) (l b a : ℕ)
    → held_cover top (xs ++ (l, b) ∷ ys) a ≡ hit (size_of top l) b a + held_cover top (xs ++ ys) a
held_cover-mid top [] ys l b a = refl
held_cover-mid top ((k, c) ∷ xs) ys l b a = omega (arith, held_cover-mid top xs ys l b a)

pub All-mid :
    (P : ℕ × ℕ → Type 0) (xs ys : List (ℕ × ℕ)) (p : ℕ × ℕ)
    → All P (xs ++ p ∷ ys)
    → P p × All P (xs ++ ys)
All-mid P [] ys p h = h
All-mid P (x ∷ xs) ys p h = let rest = All-mid P xs ys p h.1 in (rest.0, (h.0, rest.1))

pub Got-some :
    {top : ℕ} (d : Type 0) (s s' : PageAllocator) (l b : ℕ)
    (out : Option (PageAllocator × Option ℕ))
    → out ≡ some (s', some b)
    → Got top d s l out
    → Got top d s l (some (s', some b))
Got-some d s s' l b out e g = rw e at g

pub Freed-some :
    {top : ℕ} (s s' : PageAllocator) (l b : ℕ) (out : Option PageAllocator)
    → out ≡ some s'
    → Freed top s l b out
    → Freed top s l b (some s')
Freed-some s s' l b out e f = rw e at f

Move-IsPartition :
    {top start : ℕ} {x y : System}
    → Move top x y
    → IsPartition top start x
    → IsPartition top start y
Move-IsPartition {top} {start} {x} (takes l b s h e to) p =
    let (v, at, block, covered) = Got-some _ x.pages s l b _ e (get_free_block-Got l p.valid h) in
    rw to (record {
      valid = v;
      same = at ∙ p.same;
      owned = ((h, rw (p.same) at block), p.owned);
      split = λ a. omega (arith, covered a, p.split a);
    })
Move-IsPartition {top} {start} {x} (gives before after l b s e f to) p =
    let owned : All (IsHeld top start) (before ++ (l, b) ∷ after) = rw e at (p.owned) in
    let ((h, block), others) = All-mid (IsHeld top start) before after (l, b) owned in
    let (v, at, covered) =
      Freed-some x.pages s l b _ f (merge_buddies-Freed l b p.valid h (rw (p.same) block)) in
    rw to (record {
      valid = v;
      same = at ∙ p.same;
      owned = others;
      split = λ a. omega (
        arith,
        covered a,
        p.split a,
        ap (λ (xs : List (ℕ × ℕ)). held_cover top xs a) e,
        held_cover-mid top before after l b a,
      );
    })

-- After any history of block requests and returns from a partition of the region into free and
-- held blocks, every address of the region is in exactly one free or held block, so no held block
-- overlaps another or a free one, and nothing is lost.
pub Reach-IsPartition :
    {top start : ℕ} {x y : System}
    → Reach top x y
    → IsPartition top start x
    → IsPartition top start y
Reach-IsPartition here p = p
Reach-IsPartition (next r m) p = Move-IsPartition m (Reach-IsPartition r p)
