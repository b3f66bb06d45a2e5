-- ===== src/Memory/FreeList/Chains.antt =====
-- Several free lists in one memory, with no node in two of them.
use locos.Prelude.{
  ℕ, zero, suc, ◌+◌, ◌≤◌, ◌<◌, ◌≡◌, refl, ap, arith, some, some_injective, List, [], ◌∷◌, get_elem?,
  set,
}
use locos.Memory.FreeList.{Memory, FreeList}
use locos.Memory.FreeList.Chain.{occ, Lists, IsChain-frame}

-- How often an address stands in the lists.
abbrev pub total : ℕ → List (List ℕ) → ℕ
total r [] = 0
total r (xs ∷ ls) = occ r xs + total r ls

-- Free lists that stand for sequences, one for one.
abbrev pub Chains : Memory → List FreeList → List (List ℕ) → Type 0
Chains mem [] [] = Unit
Chains mem [] (xs ∷ ls) = ⊥
Chains mem (f ∷ fs) [] = ⊥
Chains mem (f ∷ fs) (xs ∷ ls) = Lists mem f xs × Chains mem fs ls

pub Chains-get :
    (mem : Memory) (fs : List FreeList) (ls : List (List ℕ)) (i : ℕ) (xs : List ℕ)
    → Chains mem fs ls
    → get_elem? ls i ≡ some xs
    → (f : FreeList) × (get_elem? fs i ≡ some f) × Lists mem f xs
Chains-get mem [] [] i xs c e = absurd (ground arith)
Chains-get mem [] (ys ∷ ls) i xs c e = absurd c
Chains-get mem (f ∷ fs) [] i xs c e = absurd c
Chains-get mem (f ∷ fs) (ys ∷ ls) zero xs c e =
    let same = some_injective ys xs e in (f, refl, rw (← same) (c.0))
Chains-get mem (f ∷ fs) (ys ∷ ls) (suc i) xs c e = Chains-get mem fs ls i xs c.1 e

pub occ-le-total :
    (ls : List (List ℕ)) (i r : ℕ) (xs : List ℕ) → get_elem? ls i ≡ some xs → occ r xs ≤ total r ls
occ-le-total [] i r xs e = absurd (ground arith)
occ-le-total (ys ∷ ls) zero r xs e = let same = some_injective ys xs e in rw (← same) (omega arith)
occ-le-total (ys ∷ ls) (suc i) r xs e = omega (arith, occ-le-total ls i r xs e)

pub total-set :
    (ls : List (List ℕ)) (i r : ℕ) (xs ys : List ℕ)
    → get_elem? ls i ≡ some xs
    → total r (set ls i ys) + occ r xs ≡ total r ls + occ r ys
total-set [] i r xs ys e = absurd (ground arith)
total-set (zs ∷ ls) zero r xs ys e = let same = some_injective zs xs e in rw same (omega arith)
total-set (zs ∷ ls) (suc i) r xs ys e = omega (arith, total-set ls i r xs ys e)

pub Chains-frame :
    (mem mem' : Memory) (fs : List FreeList) (ls : List (List ℕ))
    → ((r : ℕ) → 0 < total r ls → mem' r ≡ mem r)
    → Chains mem fs ls
    → Chains mem' fs ls
Chains-frame mem mem' [] [] same c = c
Chains-frame mem mem' [] (xs ∷ ls) same c = c
Chains-frame mem mem' (f ∷ fs) [] same c = c
Chains-frame mem mem' (f ∷ fs) (xs ∷ ls) same ((chain, len), c) = (
  (IsChain-frame mem mem' f.head xs (λ r i. same r (omega (arith, i))) chain, len),
  Chains-frame mem mem' fs ls (λ r i. same r (omega (arith, i))) c,
)

-- One list is replaced, and memory changes at no node of the others.
pub Chains-set :
    (mem mem' : Memory) (fs : List FreeList) (ls : List (List ℕ)) (i : ℕ) (xs ys : List ℕ)
    (f : FreeList)
    → Chains mem fs ls
    → get_elem? ls i ≡ some xs
    → ((r : ℕ) → occ r xs < total r ls → mem' r ≡ mem r)
    → Lists mem' f ys
    → Chains mem' (set fs i f) (set ls i ys)
Chains-set mem mem' [] [] i xs ys f c e same new = absurd (ground arith)
Chains-set mem mem' [] (zs ∷ ls) i xs ys f c e same new = absurd c
Chains-set mem mem' (g ∷ fs) [] i xs ys f c e same new = absurd c
Chains-set mem mem' (g ∷ fs) (zs ∷ ls) zero xs ys f c e same new =
    let here = some_injective zs xs e in
    (
      new,
      Chains-frame mem mem' fs ls (λ r i. same r (let k = ap (occ r) here in omega (arith, i, k)))
          c.1,
    )
Chains-set mem mem' (g ∷ fs) (zs ∷ ls) (suc i) xs ys f ((chain, len), c) e same new = (
  (
    IsChain-frame mem mem' g.head zs (λ r k. same r (omega (arith, k, occ-le-total ls i r xs e)))
        chain,
    len,
  ),
  Chains-set mem mem' fs ls i xs ys f c e (λ r k. same r (omega (arith, k))) new,
)
