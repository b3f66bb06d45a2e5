-- ===== src/Memory/DoubleFreeList/Table.antt =====
-- A table of doubly linked lists, one for each level, with no node in two of them.
use locos.Prelude.{
  ℕ, zero, suc, ◌<◌, ◌≡◌, refl, ap, ◌∙◌, arith, some, some_injective, List, [], ◌∷◌, length,
  get_elem?, set,
}
use native.Mathlib.Decide.{dec_lt}
use locos.Memory.FreeList.Chain.{occ}
use locos.Memory.FreeList.Chains.{total, occ-le-total}
use locos.Memory.DoubleFreeList.{Nodes, DoubleFreeList}
use locos.Memory.DoubleFreeList.Linked.{Lists}

-- List number `l` is marked with `pages l`.
abbrev pub Tables : Nodes → (ℕ → ℕ) → List DoubleFreeList → List (List ℕ) → Type 0
Tables mem pages [] [] = Unit
Tables mem pages [] (xs ∷ ls) = ⊥
Tables mem pages (f ∷ fs) [] = ⊥
Tables mem pages (f ∷ fs) (xs ∷ ls) =
    Lists mem f (pages 0) xs × Tables mem (λ l. pages (suc l)) fs ls

pub Tables-get :
    (mem : Nodes) (pages : ℕ → ℕ) (fs : List DoubleFreeList) (ls : List (List ℕ)) (i : ℕ)
    (xs : List ℕ)
    → Tables mem pages fs ls
    → get_elem? ls i ≡ some xs
    → (f : DoubleFreeList) × (get_elem? fs i ≡ some f) × Lists mem f (pages i) xs
Tables-get mem pages [] [] i xs c e = absurd (ground arith)
Tables-get mem pages [] (ys ∷ ls) i xs c e = absurd c
Tables-get mem pages (f ∷ fs) [] i xs c e = absurd c
Tables-get mem pages (f ∷ fs) (ys ∷ ls) zero xs c e =
    let same = some_injective ys xs e in (f, refl, rw (← same) (c.0))
Tables-get mem pages (f ∷ fs) (ys ∷ ls) (suc i) xs c e =
    Tables-get mem (λ l. pages (suc l)) fs ls i xs c.1 e

Tables-frame :
    (mem mem' : Nodes) (pages : ℕ → ℕ) (fs : List DoubleFreeList) (ls : List (List ℕ))
    → ((a : ℕ) → 0 < total a ls → mem' a ≡ mem a)
    → Tables mem pages fs ls
    → Tables mem' pages fs ls
Tables-frame mem mem' pages [] [] same c = c
Tables-frame mem mem' pages [] (xs ∷ ls) same c = c
Tables-frame mem mem' pages (f ∷ fs) [] same c = c
Tables-frame mem mem' pages (f ∷ fs) (xs ∷ ls) same ((first, len, linked), c) = (
  (first, len, λ a i. same a (omega (arith, i)) ∙ linked a i),
  Tables-frame mem mem' (λ l. pages (suc l)) fs ls (λ a i. same a (omega (arith, i))) c,
)

-- One list is replaced, and memory changes at no node of the others.
pub Tables-set :
    (mem mem' : Nodes) (pages : ℕ → ℕ) (fs : List DoubleFreeList) (ls : List (List ℕ)) (i : ℕ)
    → (xs ys : List ℕ) (f : DoubleFreeList) → Tables mem pages fs ls
    → get_elem? ls i ≡ some xs
    → ((a : ℕ) → occ a xs < total a ls → mem' a ≡ mem a)
    → Lists mem' f (pages i) ys
    → Tables mem' pages (set fs i f) (set ls i ys)
Tables-set mem mem' pages [] [] i xs ys f c e same new = absurd (ground arith)
Tables-set mem mem' pages [] (zs ∷ ls) i xs ys f c e same new = absurd c
Tables-set mem mem' pages (g ∷ fs) [] i xs ys f c e same new = absurd c
Tables-set mem mem' pages (g ∷ fs) (zs ∷ ls) zero xs ys f c e same new =
    let here = some_injective zs xs e in
    (
      new,
      Tables-frame mem mem' (λ l. pages (suc l)) fs ls
          (λ a i. same a (let k = ap (occ a) here in omega (arith, i, k))) c.1,
    )
Tables-set mem mem' pages (g ∷ fs) (zs ∷ ls) (suc i) xs ys f ((first, len, linked), c) e same new =
    (
      (first, len, λ a k. same a (omega (arith, k, occ-le-total ls i a xs e)) ∙ linked a k),
      Tables-set mem mem' (λ l. pages (suc l)) fs ls i xs ys f c e
          (λ a k. same a (omega (arith, k))) new,
    )

-- The list that a node is in.
pub total-listed :
    (a : ℕ) (ls : List (List ℕ))
    → 0 < total a ls
    → (i : ℕ) × (xs : List ℕ) × (get_elem? ls i ≡ some xs) × (0 < occ a xs) × (i < length ls)
total-listed a [] h = absurd (omega (arith, h))
total-listed a (xs ∷ ls) h = elim (dec_lt 0 (occ a xs)) [
  | yes here ↦ (0, xs, refl, here, omega arith)
  | no p ↦
      let (i, ys, e, inside, low) = total-listed a ls (omega (arith, h, p)) in
      (suc i, ys, e, inside, omega (arith, low))
]
