-- ===== src/Memory/Count.antt =====
-- How many blocks a free list can hold: different blocks of a level are no more than the level has.
use locos.Prelude.{
  ℕ, zero, suc, ◌+◌, ◌-◌, ◌*◌, ◌^◌, ◌≤◌, ◌<◌, ◌≡◌, ap, arith, List, [], ◌∷◌, length, All,
}
use native.Mathlib.Decide.{dec_lt}
use locos.Memory.Blocks.{IsBlock, hits, cover}
use locos.Memory.FreeList.Chain.{occ, IsDistinct}
use locos.Memory.FreeList.Chains.{total}

-- How often the first `n` blocks stand in a list.
abbrev tally : ℕ → ℕ → ℕ → List ℕ → ℕ
tally base s zero xs = 0
tally base s (suc n) xs = occ (base + n * s) xs + tally base s n xs

tally-cons :
    (base s n x : ℕ) (xs : List ℕ)
    → tally base s n (x ∷ xs) ≡ tally base s n (x ∷ []) + tally base s n xs
tally-cons base s zero x xs = omega arith
tally-cons base s (suc n) x xs = omega (arith, tally-cons base s n x xs)

tally_own : (base s n q : ℕ) → q < n → 1 ≤ tally base s n ((base + q * s) ∷ [])
tally_own base s zero q h = absurd (omega arith)
tally_own base s (suc n) q h = elim (dec_lt q n) [
  | yes p ↦ omega (arith, tally_own base s n q p)
  | no p ↦ let same : q ≡ n = omega arith in rw same (ground arith)
]

length-le-tally :
    (base : ℕ) (size : ℕ → ℕ) (l : ℕ) (xs : List ℕ)
    → All (IsBlock base size l) xs
    → length xs ≤ tally base (size l) (2 ^ l) xs
length-le-tally base size l [] h = omega arith
length-le-tally base size l (x ∷ xs) ((q, at, low), h) = omega (
  arith,
  length-le-tally base size l xs h,
  tally-cons base (size l) (2 ^ l) x xs,
  ap (λ (y : ℕ). tally base (size l) (2 ^ l) (y ∷ [])) at,
  tally_own base (size l) (2 ^ l) q low,
)

tally_le : (base s n : ℕ) (xs : List ℕ) → IsDistinct xs → tally base s n xs ≤ n
tally_le base s zero xs h = omega arith
tally_le base s (suc n) xs h = omega (arith, tally_le base s n xs h, h (base + n * s))

-- A list of different blocks of level `l` has at most `2 ^ l` members.
pub length-le-two_pow :
    (base : ℕ) (size : ℕ → ℕ) (l : ℕ) (xs : List ℕ)
    → All (IsBlock base size l) xs
    → IsDistinct xs
    → length xs ≤ 2 ^ l
length-le-two_pow base size l xs h apart =
    omega (arith, length-le-tally base size l xs h, tally_le base (size l) (2 ^ l) xs apart)

occ-le-hits : (n : ℕ) (xs : List ℕ) (r : ℕ) → 0 < n → occ r xs ≤ hits n xs r
occ-le-hits n [] r h = omega arith
occ-le-hits n (x ∷ xs) r h = ground (arith, occ-le-hits n xs r h)

-- A free block holds its own address.
pub total-le-cover :
    (size : ℕ → ℕ) (ls : List (List ℕ)) (r : ℕ)
    → ((l : ℕ) → l < length ls → 0 < size l)
    → total r ls ≤ cover size ls r
total-le-cover size [] r pos = omega arith
total-le-cover size (xs ∷ ls) r pos = omega (
  arith,
  occ-le-hits (size 0) xs r (pos 0 (omega arith)),
  total-le-cover (λ l. size (suc l)) ls r (λ l h. pos (suc l) (omega (arith, h))),
)

length-le-tally_one :
    (base n : ℕ) (xs : List ℕ)
    → All (λ x. (base ≤ x) × (x < base + n)) xs
    → length xs ≤ tally base 1 n xs
length-le-tally_one base n [] h = omega arith
length-le-tally_one base n (x ∷ xs) ((from, to), h) =
    let at : base + (x - base) * 1 ≡ x = omega (arith, from) in
    omega (
      arith,
      length-le-tally_one base n xs h,
      tally-cons base 1 n x xs,
      ap (λ (y : ℕ). tally base 1 n (y ∷ [])) at,
      tally_own base 1 n (x - base) (omega (arith, from, to)),
    )

-- A list of different addresses in a range has at most as many members as the range.
pub length-le-range :
    (base n : ℕ) (xs : List ℕ)
    → All (λ x. (base ≤ x) × (x < base + n)) xs
    → IsDistinct xs
    → length xs ≤ n
length-le-range base n xs h apart =
    omega (arith, length-le-tally_one base n xs h, tally_le base 1 n xs apart)
