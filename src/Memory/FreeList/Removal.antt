-- ===== src/Memory/FreeList/Removal.antt =====
-- `FreeList::remove` on the sequence that a list in memory stands for.
use mathlib.Core.Path.{subst}
use locos.Prelude.{
  ℕ, zero, suc, ◌+◌, ◌-◌, ◌≤◌, ◌<◌, ◌≡◌, ◌≢◌, ◌∙◌, sym, ap, refl, arith, Bool-cases, inl, inr, true,
  false, Option, none, some, ◌==◌, sub64, List, [], ◌∷◌, length, position, remove_at,
}
use locos.Memory.FreeList.{Memory, write_next, FreeList, unlink, remove_from, remove}
use locos.Memory.FreeList.Chain.{occ, IsChain, Lists, IsDistinct, IsChain-frame, write_next-other}

-- What a removal at a position has done: the counter is one less, only nodes of the list have
-- changed, and the pointer leads through the other nodes.
abbrev Removed :
    FreeList → Memory → Option ℕ → List ℕ → List ℕ → Option (FreeList × Memory) → Type 0
Removed f mem h old xs out =
    (mem' : Memory) × (h' : Option ℕ) × (out ≡ some (record { head = h'; len = f.len - 1 }, mem'))
    × IsChain mem' h' xs
    × ((r : ℕ) → occ r old ≡ 0 → mem' r ≡ mem r)

IsChain-cons :
    (mem : Memory) (h : Option ℕ) (y : ℕ) (ys : List ℕ)
    → IsChain mem h (y ∷ ys)
    → (h ≡ some y) × IsChain mem (mem y) ys
IsChain-cons mem none y ys c = absurd c
IsChain-cons mem (some p) y ys (same, c) = (ap some same, c)

cons-IsChain :
    (mem : Memory) (h : Option ℕ) (y : ℕ) (ys : List ℕ)
    → h ≡ some y
    → IsChain mem (mem y) ys
    → IsChain mem h (y ∷ ys)
cons-IsChain mem h y ys e c = rw e (refl, c)

position-cons :
    (p y i : ℕ) (ys : List ℕ)
    → position p (y ∷ ys) ≡ some i
    → (y == p) ≡ false
    → (j : ℕ) × (position p ys ≡ some j) × (i ≡ suc j)
unfolding position
position-cons p y i ys at other = behind (position p ys) refl (rw other at at)
  where
    behind :
        (o : Option ℕ)
        → position p ys ≡ o
        → elim o [ none ↦ none | some j ↦ some (suc j) ] ≡ some i
        → (j : ℕ) × (position p ys ≡ some j) × (i ≡ suc j)
    behind none e h = absurd (ground arith)
    behind (some j) e h = (j, e, ground arith)

position-here : (p y i : ℕ) (ys : List ℕ) → position p (y ∷ ys) ≡ some i → (y == p) ≡ true → i ≡ 0
unfolding position
position-here p y i ys at own = let h = rw own at at in ground arith

-- Behind a node, the walk removes the one that it looks for.
abbrev RemovedBehind : ℕ → FreeList → Memory → ℕ → ℕ → ℕ → List ℕ → Type 0
RemovedBehind fuel f mem q p i ys =
    (mem' : Memory) × (remove_from fuel f mem (some q) (mem q) p
      ≡ some (record f { len = f.len - 1 }, mem'))
    × IsChain mem' (mem' q) (remove_at i ys)
    × ((r : ℕ) → occ r (q ∷ ys) ≡ 0 → mem' r ≡ mem r)

occ-head : (q : ℕ) (ys : List ℕ) → IsDistinct (q ∷ ys) → occ q ys ≡ 0
occ-head q ys apart = let k = apart q in ground (arith, k)

occ_self : (q : ℕ) (ys : List ℕ) → occ q (q ∷ ys) ≢ 0
occ_self q ys e = ground arith

remove_from-found :
    (fuel : ℕ) (f : FreeList) (mem : Memory) (prev : Option ℕ) (y p : ℕ)
    → (y == p) ≡ true
    → remove_from (suc fuel) f mem prev (some y) p ≡ unlink f mem prev y
unfolding remove_from
remove_from-found fuel f mem prev y p own = rw (own, remove_from) refl

remove_from-next :
    (fuel : ℕ) (f : FreeList) (mem : Memory) (prev : Option ℕ) (y p : ℕ)
    → (y == p) ≡ false
    → remove_from (suc fuel) f mem prev (some y) p ≡ remove_from fuel f mem (some y) (mem y) p
unfolding remove_from
remove_from-next fuel f mem prev y p other = rw (other, remove_from) refl

remove_here :
    (fuel : ℕ) (f : FreeList) (mem : Memory) (q y : ℕ) (ys : List ℕ)
    → mem q ≡ some y
    → IsChain mem (mem y) ys
    → IsDistinct (q ∷ y ∷ ys)
    → 0 < f.len
    → RemovedBehind (suc fuel) f mem q y 0 (y ∷ ys)
unfolding remove_from unlink remove_at
remove_here fuel f mem q y ys e c apart some_left =
    let counts : sub64 f.len 1 ≡ some (f.len - 1) = ground (arith, some_left) in
    let own : (y == y) ≡ true = ground arith in
    let mem' = write_next mem q (mem y) in
    let at_q : mem' q ≡ mem y = ground arith in
    (
      mem',
      rw (e, remove_from-found fuel f mem (some q) y y own, counts) refl,
      rw at_q (
          IsChain-frame mem mem' (mem y) ys
            (λ r i. write_next-other mem q r (mem y) (λ same.
              let j : 0 < occ q ys = rw same at i in
              let k = occ-head q (y ∷ ys) apart in omega (arith, j, k)))
            c),
      λ r out.
          write_next-other mem q r (mem y)
            (λ same. occ_self q (y ∷ ys) (subst (λ (z : ℕ). occ z (q ∷ y ∷ ys) ≡ 0) same out)),
    )

remove_behind :
    (fuel : ℕ) (f : FreeList) (mem : Memory) (q p i : ℕ) (ys : List ℕ)
    → IsChain mem (mem q) ys
    → IsDistinct (q ∷ ys)
    → position p ys ≡ some i
    → length ys ≤ fuel
    → 0 < f.len
    → RemovedBehind fuel f mem q p i ys
unfolding remove_from remove_at
remove_behind fuel f mem q p i [] c apart at few some_left =
    absurd (unfold position in ground arith)
remove_behind zero f mem q p i (y ∷ ys) c apart at few some_left = absurd (omega (arith, few))
remove_behind (suc fuel) f mem q p i (y ∷ ys) c apart at few some_left =
    let (e, c') = IsChain-cons mem (mem q) y ys c in
    elim (Bool-cases (y == p)) [
      | inl own ↦
          let first : i ≡ 0 = position-here p y i ys at own in
          let same : p ≡ y = ground arith in
          rw (first, same) (remove_here fuel f mem q y ys e c' apart some_left)
      | inr other ↦
          let (j, at', next) = position-cons p y i ys at other in
          let (mem', done, chain, spared) =
            remove_behind fuel f mem y p j ys c' (λ r. let k = apart r in omega (arith, k)) at'
              (omega (arith, few)) some_left in
          let kept : mem' q ≡ some y = spared q (occ-head q (y ∷ ys) apart) ∙ e in
          (
            mem',
            rw e (remove_from-next fuel f mem (some q) y p other ∙ done),
            rw (next, kept) (refl, chain),
            λ r out. spared r (omega (arith, out)),
          )
    ]

length-remove_at :
    (p i : ℕ) (xs : List ℕ) → position p xs ≡ some i → length xs ≡ length (remove_at i xs) + 1
unfolding position remove_at
length-remove_at p i [] at = absurd (ground arith)
length-remove_at p zero (x ∷ xs) at = omega arith
length-remove_at p (suc i) (x ∷ xs) at = ground (arith, length-remove_at p i xs)

-- `remove` with fuel for the length of the list takes the block at the position out of the sequence,
-- and writes to nodes of the list only.
pub remove-Lists :
    (fuel : ℕ) (f : FreeList) (mem : Memory) (p i : ℕ) (xs : List ℕ)
    → Lists mem f xs
    → IsDistinct xs
    → position p xs ≡ some i
    → length xs ≤ fuel
    → (f' : FreeList) × (mem' : Memory) × (remove fuel f mem p ≡ some (f', mem'))
      × Lists mem' f' (remove_at i xs)
      × ((r : ℕ) → occ r xs ≡ 0 → mem' r ≡ mem r)
unfolding remove unlink remove_at
remove-Lists fuel f mem p i [] l apart at few = absurd (unfold position in ground arith)
remove-Lists zero f mem p i (x ∷ xs) l apart at few = absurd (omega (arith, few))
remove-Lists (suc fuel) f mem p i (x ∷ xs) (c, len) apart at few =
    let (e, c') = IsChain-cons mem f.head x xs c in
    let counts : sub64 f.len 1 ≡ some (f.len - 1) = ground (arith, len) in
    let start = ap (λ (h : Option ℕ). remove_from (suc fuel) f mem none h p) e in
    elim (Bool-cases (x == p)) [
      | inl own ↦
          let first : i ≡ 0 = position-here p x i xs at own in
          (
            record { head = mem x; len = f.len - 1 },
            mem,
            start ∙ remove_from-found fuel f mem none x p own ∙ rw counts refl,
            rw first (c', omega (arith, len)),
            λ r out. refl,
          )
      | inr other ↦
          let (j, at', next) = position-cons p x i xs at other in
          let (mem', done, chain, spared) =
            remove_behind fuel f mem x p j xs c' apart at' (omega (arith, few))
              (omega (arith, len)) in
          (
            record f { len = f.len - 1 },
            mem',
            start ∙ remove_from-next fuel f mem none x p other ∙ done,
            (
              subst (λ (k : ℕ). IsChain mem' f.head (remove_at k (x ∷ xs))) (sym next)
                  (cons-IsChain mem' f.head x (remove_at j xs) e chain),
              rw next (omega (arith, len, length-remove_at p j xs at')),
            ),
            spared,
          )
    ]
