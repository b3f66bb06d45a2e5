-- ===== src/Memory/BuddyAlloc/Level.antt =====
-- `get_level_from_size` of the kernel heap, and the layouts of `alloc` and `dealloc`.
use locos.Prelude.{
  ℕ, zero, suc, ◌+◌, ◌-◌, ◌*◌, ◌%◌, ◌^◌, ◌≤◌, ◌<◌, ◌≡◌, ◌⊎◌, ◌&&◌, ◌∙◌, refl, ap, some, none, arith,
  ltb, leb, inl, inr, Bool-cases, sub64, next_power_of_two-le, next_power_of_two, >>=-eq-some,
  some_injective,
}
use Prim.Native.Nat.{max}
use native.Mathlib.Decide.{dec_lt, dec_le}
use locos.Memory.Blocks.{IsBlock}
use locos.Memory.Powers.{shift_size, two_pow_le, two_pow_pos, pow-add}
use native.Mathlib.Nat.{mul_assoc, mul-mod_left, pow-suc}
use locos.Memory.BuddyAlloc.{Params, level_loop, get_level_from_size, layout_size}
use locos.Memory.BuddyAlloc.Valid.{size_of, Fits, IsStart, max_size_lem, block_size_lem}

-- The level of the smallest blocks that are large enough.
pub record IsBest (u top size l : ℕ) : Type 0 where
  pub deep : l ≤ top
  pub large : size ≤ size_of u top l
  pub best : (l ≡ top) ⊎ (size_of u top (suc l) < size)

module _ {u top : ℕ} {c : Params} (f : Fits u top c) where
  level_loop-IsBest :
      (k size l : ℕ)
      → l ≤ top
      → top < l + k
      → size ≤ size_of u top l
      → (l' : ℕ) × (level_loop k c size (suc l) ≡ some (suc l')) × IsBest u top size l'
  unfolding level_loop
  level_loop-IsBest zero size l low enough large = absurd (omega (arith, low, enough))
  level_loop-IsBest (suc k) size l low enough large =
      rw (block_size_lem f (suc l) (omega (arith, low)))
        (elim (Bool-cases (leb size (size_of u top (suc l)) && ltb (suc l) c.levels)) [
          | inl more ↦
              let deeper : suc l ≤ top = ground (arith, f.deep) in
              let next : suc l + 1 ≡ suc (suc l) = omega arith in
              rw (more) (
                rw next
                  (level_loop-IsBest k size (suc l) deeper (omega (arith, enough)) (ground arith)))
          | inr stop ↦ (
            l,
            rw stop refl,
            record { deep = low; large = large; best = ground (arith, f.deep, stop, low) },
          )
        ])

  -- A size that is at most the heap gets a level, after at most `L` rounds of the loop, and it is
  -- that of the smallest blocks which are large enough.
  pub get_level_from_size-IsBest :
      (size : ℕ)
      → size ≤ size_of u top 0
      → (l : ℕ) × (get_level_from_size c size ≡ some (some l)) × IsBest u top size l
  unfolding get_level_from_size
  get_level_from_size-IsBest size fits =
      let (l, done, best) =
        level_loop-IsBest c.levels size 0 (omega arith) (omega (arith, f.deep)) fits in
      let down : sub64 (suc l) 1 ≡ some l = ground arith in
      (l, rw (max_size_lem f) (rw done (rw down (ground (arith, fits)))), best)

  -- A size above that of the heap gets none.
  pub get_level_from_size_large :
      (size : ℕ) → size_of u top 0 < size → get_level_from_size c size ≡ some none
  unfolding get_level_from_size
  get_level_from_size_large size large = rw (max_size_lem f) (ground (arith, large))

pub layout_size-le : (size align n : ℕ) → layout_size size align ≡ some n → (size ≤ n) × (align ≤ n)
unfolding layout_size
layout_size-le size align n e =
    let (p, at, to) = >>=-eq-some (next_power_of_two size) (λ p. some (max p align)) e in
    let same = some_injective (max p align) n to in
    omega (arith, same, next_power_of_two-le size at)

two_pow_multiple : (j k : ℕ) → k ≤ j → 2 ^ j ≡ 2 ^ (j - k) * 2 ^ k
two_pow_multiple j k h = ap (λ (t : ℕ). 2 ^ t) sum ∙ pow-add (j - k) k
  where
    sum : j ≡ j - k + k
    sum = omega arith

two_pow_reflects : (j k : ℕ) → 2 ^ k ≤ 2 ^ j → k ≤ j
two_pow_reflects j k h = elim (dec_lt j k) [
  | yes below ↦ absurd (omega (arith, h, two_pow_le (suc j) k below, pow-suc 2 j, two_pow_pos j))
  | no p ↦ omega arith
]

multiple-add : (m n p q s : ℕ) → m * (n * s) + q * (p * s) ≡ (m * n + q * p) * s
multiple-add m n p q s = omega (arith, mul_assoc m n s, mul_assoc q p s)

-- A block that is at least as large as a power of two starts at a multiple of it.
pub IsBlock-aligned :
    {u top base : ℕ} (k l b : ℕ)
    → IsStart u top base
    → l ≤ top
    → 2 ^ k ≤ size_of u top l
    → IsBlock base (size_of u top) l b
    → b % 2 ^ k ≡ 0
IsBlock-aligned {u} {top} {base} k l b r low large (q, at, small) =
    let j : ℕ = u + (top - l) in
    let exact : size_of u top l ≡ 2 ^ j = shift_size u top l low in
    let k_le : k ≤ j = two_pow_reflects j k (omega (arith, large, exact)) in
    let whole = two_pow_multiple (u + top) k (omega (arith, k_le)) in
    let block = exact ∙ two_pow_multiple j k k_le in
    let sum : b ≡ (r.number * 2 ^ (u + top - k) + q * 2 ^ (j - k)) * 2 ^ k = omega (
      arith,
      at,
      r.aligned,
      ap (λ (t : ℕ). r.number * t) whole,
      ap (λ (t : ℕ). q * t) block,
      multiple-add r.number (2 ^ (u + top - k)) (2 ^ (j - k)) q (2 ^ k),
    ) in
    rw sum (mul-mod_left _ (2 ^ k))

-- The level that is found exists, and its blocks are large enough.
pub get_level_from_size-some :
    {u top : ℕ} {c : Params} (f : Fits u top c) (size l : ℕ)
    → get_level_from_size c size ≡ some (some l)
    → (l ≤ top) × (size ≤ size_of u top l)
get_level_from_size-some {u} {top} f size l h = elim (dec_le size (size_of u top 0)) [
  | yes fits ↦
      let (k, chosen, best) = get_level_from_size-IsBest f size fits in
      let same : some l ≡ some k = some_injective _ _ (rw h at chosen) in
      let own : k ≡ l = ground (arith, same) in
      let large = best.large in (omega (arith, own, best.deep), rw own at large)
  | no large ↦
      let refused = get_level_from_size_large f size (omega (arith, large)) in
      let same : some (some l) ≡ some none = rw h at refused in absurd cc
]
