-- ===== src/Memory/DoubleFreeList/Order.antt =====
-- The neighbours of an address in a sequence of different addresses, and what taking a member out
-- does to them.
use locos.Prelude.{
  ℕ, ◌+◌, ◌<◌, ◌≡◌, ◌≢◌, ◌⊎◌, refl, sym, ap, ◌∙◌, arith, Option, none, some, some_injective, List,
  [], ◌∷◌, ◌==◌, if◌then◌else◌, Bool-cases, inl, inr, false, length,
}
use locos.Memory.FreeList.Chain.{occ, IsDistinct}

abbrev pub head : List ℕ → Option ℕ
head [] = none
head (x ∷ xs) = some x

-- What follows the address.
abbrev pub next_in : ℕ → List ℕ → Option ℕ
next_in a [] = none
next_in a (x ∷ xs) = if x == a then head xs else next_in a xs

-- What precedes the address, if `p` precedes the list.
abbrev pub prev_in : Option ℕ → ℕ → List ℕ → Option ℕ
prev_in p a [] = none
prev_in p a (x ∷ xs) = if x == a then p else prev_in (some x) a xs

-- The list without the first occurrence of the address.
abbrev pub delete : ℕ → List ℕ → List ℕ
delete b [] = []
delete b (x ∷ xs) = if x == b then xs else x ∷ delete b xs

pub occ-delete :
    (b a : ℕ) (xs : List ℕ)
    → 0 < occ b xs
    → occ a (delete b xs) + (if b == a then 1 else 0) ≡ occ a xs
occ-delete b a [] h = absurd (omega arith)
occ-delete b a (x ∷ xs) h = ground (arith, occ-delete b a xs)

pub length-delete : (b : ℕ) (xs : List ℕ) → 0 < occ b xs → length (delete b xs) + 1 ≡ length xs
length-delete b [] h = absurd (omega arith)
length-delete b (x ∷ xs) h = ground (arith, length-delete b xs)

pub next_in-occ : (b y : ℕ) (xs : List ℕ) → next_in y xs ≡ some b → 0 < occ b xs
next_in-occ b y [] h = absurd cc
next_in-occ b y (x ∷ []) h = ground arith
next_in-occ b y (x ∷ z ∷ zs) h = elim (Bool-cases (x == y)) [
  | inl own ↦ let e = rw own at h in ground (arith, e)
  | inr other ↦ let e = rw other at h in omega (arith, next_in-occ b y (z ∷ zs) e)
]

pub prev_in-occ :
    (p : Option ℕ) (b y : ℕ) (xs : List ℕ) → prev_in p b xs ≡ some y → (p ≡ some y) ⊎ (0 < occ y xs)
prev_in-occ p b y [] h = absurd cc
prev_in-occ p b y (x ∷ xs) h = elim (Bool-cases (x == b)) [
  | inl own ↦ let e = rw own at h in inl e
  | inr other ↦
      let e = rw other at h in
      elim (prev_in-occ (some x) b y xs e) [
        | inl same ↦ let at : x ≡ y = some_injective _ _ same in inr (ground (arith, at))
        | inr inside ↦ inr (omega (arith, inside))
      ]
]

-- Only the first member has what precedes the list before it.
prev_in-head :
    (x b : ℕ) (xs : List ℕ) → occ x xs ≡ 0 → prev_in (some x) b xs ≡ some x → head xs ≡ some b
prev_in-head x b [] out h = absurd cc
prev_in-head x b (z ∷ zs) out h = elim (Bool-cases (z == b)) [
  | inl own ↦ ap some (ground (arith, own))
  | inr other ↦
      let e = rw other at h in
      elim (prev_in-occ (some z) b x zs e) [
        | inl same ↦ let at : z ≡ x = some_injective _ _ same in absurd (ground (arith, at, out))
        | inr inside ↦ absurd (omega (arith, inside, out))
      ]
]

IsDistinct-tail : (x : ℕ) (xs : List ℕ) → IsDistinct (x ∷ xs) → IsDistinct xs
IsDistinct-tail x xs apart r = omega (arith, apart r)

IsDistinct-head : (x : ℕ) (xs : List ℕ) → IsDistinct (x ∷ xs) → occ x xs ≡ 0
IsDistinct-head x xs apart = let k = apart x in ground (arith, k)

-- The member before `b` is the one that `b` follows.
pub next-of_prev :
    (p : Option ℕ) (b y : ℕ) (xs : List ℕ)
    → IsDistinct xs
    → prev_in p b xs ≡ some y
    → p ≢ some y
    → next_in y xs ≡ some b
next-of_prev p b y [] apart h out = absurd cc
next-of_prev p b y (x ∷ xs) apart h out = elim (Bool-cases (x == b)) [
  | inl own ↦ let e = rw own at h in absurd (out e)
  | inr other ↦
      let e = rw other at h in
      elim (Bool-cases (x == y)) [
        | inl same ↦
            let at : y ≡ x = ground (arith, same) in
            rw same (prev_in-head x b xs (IsDistinct-head x xs apart) (e ∙ ap some at))
        | inr differs ↦ rw differs (
            next-of_prev (some x) b y xs (IsDistinct-tail x xs apart) e
              (λ g. let at : x ≡ y = some_injective _ _ g in ground (arith, at, differs)))
      ]
]

pub prev-of_next :
    (p : Option ℕ) (b y : ℕ) (xs : List ℕ)
    → IsDistinct xs
    → next_in y xs ≡ some b
    → prev_in p b xs ≡ some y
prev-of_next p b y [] apart h = absurd cc
prev-of_next p b y (x ∷ []) apart h = absurd (ground (arith, h))
prev-of_next p b y (x ∷ z ∷ zs) apart h = elim (Bool-cases (x == y)) [
  | inl same ↦
      let e = rw same at h in
      let at : z ≡ b = some_injective _ _ e in
      let differs : (x == b) ≡ false = ground (arith, at, apart x) in
      rw differs (ground (arith, at, same))
  | inr other ↦
      let e = rw other at h in
      let inside = next_in-occ b y (z ∷ zs) e in
      let differs : (x == b) ≡ false = ground (arith, inside, apart b) in
      rw differs (prev-of_next (some x) b y (z ∷ zs) (IsDistinct-tail x (z ∷ zs) apart) e)
]

module _ (b y : ℕ) (ne : y ≢ b) where
  -- Without `b`, the member before it is followed by what followed `b`.
  pub next_in-delete_before :
      (xs : List ℕ) → IsDistinct xs → next_in y xs ≡ some b → next_in y (delete b xs) ≡ next_in b xs
  next_in-delete_before [] apart h = absurd cc
  next_in-delete_before (x ∷ []) apart h = absurd (ground (arith, h))
  next_in-delete_before (x ∷ z ∷ zs) apart h = elim (Bool-cases (x == b)) [
    | inl own ↦
        let e = next_in-occ b y (z ∷ zs) (ground (arith, own, ne, h)) in
        absurd (ground (arith, own, e, apart b))
    | inr other ↦ elim (Bool-cases (x == y)) [
      | inl same ↦
          let g = rw same at h in
          let at : z ≡ b = some_injective _ _ g in ground (arith, same, other, at)
      | inr differs ↦
          let g = rw differs at h in
          let ih = next_in-delete_before (z ∷ zs) (IsDistinct-tail x (z ∷ zs) apart) g in
          rw (other, differs) ih
    ]
  ]

  -- What follows any other member stays.
  pub next_in-delete_other :
      (xs : List ℕ) → next_in y xs ≢ some b → next_in y (delete b xs) ≡ next_in y xs
  next_in-delete_other [] out = refl
  next_in-delete_other (x ∷ []) out = ground (arith, ne)
  next_in-delete_other (x ∷ z ∷ zs) out = elim (Bool-cases (x == b)) [
    | inl own ↦ let differs : (x == y) ≡ false = ground (arith, own, ne) in rw (own, differs) refl
    | inr other ↦ elim (Bool-cases (x == y)) [
      | inl same ↦ elim (Bool-cases (z == b)) [
        | inl next ↦ let at : z ≡ b = ground (arith, next) in absurd (out (rw same (ap some at)))
        | inr keeps ↦ rw (other, same, keeps) refl
      ]
      | inr differs ↦
          let ih = next_in-delete_other (z ∷ zs) (λ g. out (rw differs g)) in rw (other, differs) ih
    ]
  ]

  -- The member after `b` is preceded by what preceded `b`.
  pub prev_in-delete_after :
      (p : Option ℕ) (xs : List ℕ)
      → IsDistinct xs
      → prev_in p y xs ≡ some b
      → p ≢ some b
      → prev_in p y (delete b xs) ≡ prev_in p b xs
  prev_in-delete_after p [] apart h out = absurd cc
  prev_in-delete_after p (x ∷ xs) apart h out = elim (Bool-cases (x == b)) [
    | inl own ↦
        let at : x ≡ b = ground (arith, own) in
        let differs : (x == y) ≡ false = ground (arith, own, ne) in
        let e = rw differs at h in
        let first = prev_in-head x y xs (IsDistinct-head x xs apart) (e ∙ ap some (sym at)) in
        rw own (first_prev p xs first)
    | inr other ↦ elim (Bool-cases (x == y)) [
      | inl same ↦ absurd (out (rw same at h))
      | inr differs ↦
          let e = rw differs at h in
          rw (other, differs)
            (prev_in-delete_after (some x) xs (IsDistinct-tail x xs apart) e
              (λ g. let at : x ≡ b = some_injective _ _ g in ground (arith, at, other)))
    ]
  ]
    where
      first_prev : (p : Option ℕ) (xs : List ℕ) → head xs ≡ some y → prev_in p y xs ≡ p
      first_prev p [] h = absurd cc
      first_prev p (z ∷ zs) h = let at : z ≡ y = some_injective _ _ h in ground (arith, at)

  -- What precedes any other member stays.
  pub prev_in-delete_other :
      (p : Option ℕ) (xs : List ℕ)
      → prev_in p y xs ≢ some b
      → prev_in p y (delete b xs) ≡ prev_in p y xs
  prev_in-delete_other p [] out = refl
  prev_in-delete_other p (x ∷ []) out = ground (arith, ne)
  prev_in-delete_other p (x ∷ z ∷ zs) out = elim (Bool-cases (x == b)) [
    | inl own ↦
        let at : x ≡ b = ground (arith, own) in
        let differs : (x == y) ≡ false = ground (arith, own, ne) in
        elim (Bool-cases (z == y)) [
          | inl next ↦ absurd (out (rw (differs, next) (ap some at)))
          | inr keeps ↦ rw (own, differs, keeps) refl
        ]
    | inr other ↦ elim (Bool-cases (x == y)) [
      | inl same ↦ rw (other, same) refl
      | inr differs ↦
          let ih = prev_in-delete_other (some x) (z ∷ zs) (λ g. out (rw differs g)) in
          rw (other, differs) ih
    ]
  ]

pub head-delete :
    (b : ℕ) (xs : List ℕ)
    → IsDistinct xs
    → 0 < occ b xs
    → head (delete b xs) ≡ elim (prev_in none b xs) [ none ↦ next_in b xs | some p ↦ head xs ]
head-delete b [] apart h = absurd (omega (arith, h))
head-delete b (x ∷ xs) apart h = elim (Bool-cases (x == b)) [
  | inl own ↦ ground (arith, own)
  | inr other ↦
      let inside : 0 < occ b xs = ground (arith, h, other) in
      let (p, at) = prev_in_some x b xs inside in rw (other, at) refl
]
  where
    prev_in_some :
        (x b : ℕ) (xs : List ℕ) → 0 < occ b xs → (p : ℕ) × (prev_in (some x) b xs ≡ some p)
    prev_in_some x b [] h = absurd (omega (arith, h))
    prev_in_some x b (z ∷ zs) h = elim (Bool-cases (z == b)) [
      | inl own ↦ (x, rw own refl)
      | inr other ↦ let (p, at) = prev_in_some z b zs (ground (arith, h, other)) in (p, rw other at)
    ]
