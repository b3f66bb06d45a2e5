-- ===== src/Prelude/Bits.antt =====
-- Single bits of a word, and what `&`, `|`, `^` and the one-bit masks do to them.
use Prim.Native.Nat.{
  ℕ, zero, suc, ◌+◌, ◌-◌, ◌*◌, ◌/◌, ◌%◌, ◌^◌, ◌≤◌, ◌<◌, min, max, bit_and, bit_or, bit_xor, digits,
  differ, bit_and-bitwise, bit_or-bitwise, bit_xor-bitwise,
}
use mathlib.Core.Path.{◌≡◌, refl, ap, ◌∙◌}
use mathlib.Core.Logic.{◌≢◌, ◌⊎◌, inl, inr}
use mathlib.Core.Bool.{Bool, true, ◌&&◌}
use native.Mathlib.Omega.{arith}
use native.Mathlib.Nat.{pow-suc, one-le-pow, le_refl}
use native.Mathlib.Decide.{dec_le}
use locos.Prelude.Tests.{◌==◌, if◌then◌else◌}

-- The digit recursion does not depend on its count once that reaches the first number.
module _ (z : ℕ → ℕ) (f : ℕ → ℕ → ℕ) where
  digits_count : (k m a b : ℕ) → a ≤ k → a ≤ m → digits z f k a b ≡ digits z f m a b
  digits_count zero zero a b h g = refl
  digits_count zero (suc m) zero b h g = refl
  digits_count zero (suc m) (suc a) b h g = absurd (omega arith)
  digits_count (suc k) zero zero b h g = refl
  digits_count (suc k) zero (suc a) b h g = absurd (omega arith)
  digits_count (suc k) (suc m) zero b h g = refl
  digits_count (suc k) (suc m) (suc a) b h g =
      ap (λ d. d * 2 + f (suc a % 2) (b % 2))
        (digits_count k m (suc a / 2) (b / 2) (omega arith) (omega arith))

  digits_low :
      (a b : ℕ)
      → digits z f (suc a) (suc a) b
        ≡ digits z f (suc a / 2) (suc a / 2) (b / 2) * 2 + f (suc a % 2) (b % 2)
  digits_low a b =
      ap (λ d. d * 2 + f (suc a % 2) (b % 2))
        (digits_count a (suc a / 2) (suc a / 2) (b / 2) (omega arith) (omega arith))

-- One digit at a time, from the lowest.
pub bit_and_low : (a b : ℕ) → bit_and a b ≡ bit_and (a / 2) (b / 2) * 2 + min (a % 2) (b % 2)
bit_and_low zero b = simp bit_and-bitwise (omega arith)
bit_and_low (suc a) b = simp bit_and-bitwise (digits_low (λ _. 0) min a b)

pub bit_or_low : (a b : ℕ) → bit_or a b ≡ bit_or (a / 2) (b / 2) * 2 + max (a % 2) (b % 2)
bit_or_low zero b = simp bit_or-bitwise (omega arith)
bit_or_low (suc a) b = simp bit_or-bitwise (digits_low (λ y. y) max a b)

pub bit_xor_low : (a b : ℕ) → bit_xor a b ≡ bit_xor (a / 2) (b / 2) * 2 + differ (a % 2) (b % 2)
bit_xor_low zero b = simp bit_xor-bitwise (omega arith)
bit_xor_low (suc a) b = simp bit_xor-bitwise (digits_low (λ y. y) differ a b)

-- Bit `i` of a word, as 0 or 1.
abbrev pub bit : ℕ → ℕ → ℕ
bit zero w = w % 2
bit (suc i) w = bit i (w / 2)

pub bit-le-one : (i w : ℕ) → bit i w ≤ 1
bit-le-one zero w = omega arith
bit-le-one (suc i) w = bit-le-one i (w / 2)

pub bit-zero : (i : ℕ) → bit i 0 ≡ 0
bit-zero zero = refl
bit-zero (suc i) = bit-zero i

pub bit-bit_or : (i a b : ℕ) → bit i (bit_or a b) ≡ max (bit i a) (bit i b)
bit-bit_or zero a b = omega (arith, bit_or_low a b)
bit-bit_or (suc i) a b = ap (bit i) (omega (arith, bit_or_low a b)) ∙ bit-bit_or i (a / 2) (b / 2)

pub bit-bit_and : (i a b : ℕ) → bit i (bit_and a b) ≡ min (bit i a) (bit i b)
bit-bit_and zero a b = omega (arith, bit_and_low a b)
bit-bit_and (suc i) a b =
    ap (bit i) (omega (arith, bit_and_low a b)) ∙ bit-bit_and i (a / 2) (b / 2)

-- The mask `1 << i`.
half-two_pow : (i : ℕ) → 2 ^ suc i / 2 ≡ 2 ^ i
half-two_pow i = omega (arith, pow-suc 2 i)

pub bit-two_pow_self : (i : ℕ) → bit i (2 ^ i) ≡ 1
bit-two_pow_self zero = refl
bit-two_pow_self (suc i) = rw (half-two_pow i) (bit-two_pow_self i)

pub bit-two_pow_ne : (i j : ℕ) → i ≢ j → bit j (2 ^ i) ≡ 0
bit-two_pow_ne zero zero h = absurd (h refl)
bit-two_pow_ne zero (suc j) h = bit-zero j
bit-two_pow_ne (suc i) zero h = omega (arith, pow-suc 2 i)
bit-two_pow_ne (suc i) (suc j) h = rw (half-two_pow i) (bit-two_pow_ne i j (λ e. h (ap suc e)))

-- The mask `!(1 << i)` of a word of `n` bits.
half_mask : (n i : ℕ) → (2 ^ suc n - 1 - 2 ^ suc i) / 2 ≡ 2 ^ n - 1 - 2 ^ i
half_mask n i = omega (arith, pow-suc 2 n, pow-suc 2 i)

bit_ones : (n j : ℕ) → j < n → bit j (2 ^ n - 1) ≡ 1
bit_ones zero j h = absurd (omega arith)
bit_ones (suc n) zero h = omega (arith, pow-suc 2 n, one-le-pow n 2)
bit_ones (suc n) (suc j) h = ap (bit j) (omega (arith, pow-suc 2 n)) ∙ bit_ones n j (omega arith)

two_pow_lt : (i n : ℕ) → i < n → 2 ^ i < 2 ^ n
two_pow_lt i zero h = absurd (omega arith)
two_pow_lt zero (suc n) h = omega (arith, pow-suc 2 n, one-le-pow n 2)
two_pow_lt (suc i) (suc n) h = omega (arith, pow-suc 2 n, pow-suc 2 i, two_pow_lt i n (omega arith))

pub bit-mask_self : (n i : ℕ) → i < n → bit i (2 ^ n - 1 - 2 ^ i) ≡ 0
bit-mask_self zero i h = absurd (omega arith)
bit-mask_self (suc n) zero h = omega (arith, pow-suc 2 n, one-le-pow n 2)
bit-mask_self (suc n) (suc i) h = rw (half_mask n i) (bit-mask_self n i (omega arith))

pub bit-mask_ne : (n i j : ℕ) → i < n → j < n → i ≢ j → bit j (2 ^ n - 1 - 2 ^ i) ≡ 1
bit-mask_ne zero i j hi hj h = absurd (omega arith)
bit-mask_ne (suc n) zero zero hi hj h = absurd (h refl)
bit-mask_ne (suc n) zero (suc j) hi hj h =
    ap (bit j) (omega (arith, pow-suc 2 n)) ∙ bit_ones n j (omega arith)
bit-mask_ne (suc n) (suc i) zero hi hj h =
    omega (arith, pow-suc 2 n, pow-suc 2 i, two_pow_lt i n (omega arith))
bit-mask_ne (suc n) (suc i) (suc j) hi hj h =
    rw (half_mask n i) (bit-mask_ne n i j (omega arith) (omega arith) (λ e. h (ap suc e)))

-- `w & (1 << i)` is the bit at its place.
bit_and_zero : (k a : ℕ) → a ≤ k → bit_and a 0 ≡ 0
bit_and_zero zero zero h = refl
bit_and_zero zero (suc a) h = absurd (omega arith)
bit_and_zero (suc k) a h = elim (dec_le a 0) [
  | yes z ↦ let e : a ≡ 0 = omega arith in rw e refl
  | no p ↦ omega (arith, bit_and_low a 0, bit_and_zero k (a / 2) (omega arith))
]

pub bit_and-two_pow : (i w : ℕ) → bit_and w (2 ^ i) ≡ bit i w * 2 ^ i
bit_and-two_pow zero w = omega (arith, bit_and_low w 1, bit_and_zero (w / 2) (w / 2) (le_refl _))
bit_and-two_pow (suc i) w =
    let ih : bit_and (w / 2) (2 ^ suc i / 2) ≡ bit i (w / 2) * 2 ^ i =
      rw (half-two_pow i) (bit_and-two_pow i (w / 2)) in
    omega (
      arith,
      bit_and_low w (2 ^ suc i),
      ap (λ (t : ℕ). bit i (w / 2) * t) (pow-suc 2 i),
      pow-suc 2 i,
      ih,
    )

-- `^` with one bit, on a multiple of that bit, goes to the other half of the pair.
abbrev pub flip : ℕ → ℕ
flip k = if k % 2 == 0 then k + 1 else k - 1

differ-zero : (x : ℕ) → differ x 0 ≡ x
differ-zero zero = refl
differ-zero (suc x) = refl

differ_one : (x : ℕ) → x < 2 → differ x 1 ≡ 1 - x
differ_one zero h = refl
differ_one (suc zero) h = refl
differ_one (suc (suc x)) h = absurd (omega arith)

bit_xor_zero : (k a : ℕ) → a ≤ k → bit_xor a 0 ≡ a
bit_xor_zero zero zero h = refl
bit_xor_zero zero (suc a) h = absurd (omega arith)
bit_xor_zero (suc k) a h = elim (dec_le a 0) [
  | yes z ↦ let e : a ≡ 0 = omega arith in rw e refl
  | no p ↦ omega (arith, bit_xor_low a 0, differ-zero (a % 2), bit_xor_zero k (a / 2) (omega arith))
]

pub bit_xor-two_pow : (i k : ℕ) → bit_xor (k * 2 ^ i) (2 ^ i) ≡ flip k * 2 ^ i
bit_xor-two_pow zero k =
    let k_one : k * 1 ≡ k = omega arith in
    rw k_one (
      ground (
        arith,
        bit_xor_low k 1,
        bit_xor_zero (k / 2) (k / 2) (le_refl _),
        differ_one (k % 2) (omega arith),
      ))
bit_xor-two_pow (suc i) k =
    let twice : k * 2 ^ suc i ≡ 2 * (k * 2 ^ i) =
      omega (arith, ap (λ (t : ℕ). k * t) (pow-suc 2 i)) in
    let halved : k * 2 ^ suc i / 2 ≡ k * 2 ^ i = omega (arith, twice) in
    let ih : bit_xor (k * 2 ^ suc i / 2) (2 ^ suc i / 2) ≡ flip k * 2 ^ i =
      rw (half-two_pow i, halved) (bit_xor-two_pow i k) in
    let even : k * 2 ^ suc i % 2 ≡ 0 = omega (arith, twice) in
    let one_even : 2 ^ suc i % 2 ≡ 0 = omega (arith, pow-suc 2 i) in
    let low : differ (k * 2 ^ suc i % 2) (2 ^ suc i % 2) ≡ 0 = rw (even, one_even) refl in
    omega (
      arith,
      bit_xor_low (k * 2 ^ suc i) (2 ^ suc i),
      ap (λ (t : ℕ). flip k * t) (pow-suc 2 i),
      pow-suc 2 i,
    )

-- `^` with a power of two goes up or down by it.
pub bit_xor-two_pow_either :
    (j n : ℕ) → (bit_xor n (2 ^ j) ≡ n + 2 ^ j) ⊎ (bit_xor n (2 ^ j) + 2 ^ j ≡ n)
bit_xor-two_pow_either zero n = ground (
  arith,
  bit_xor_low n 1,
  bit_xor_zero (n / 2) (n / 2) (le_refl _),
  differ_one (n % 2) (omega arith),
)
bit_xor-two_pow_either (suc j) n =
    let half : 2 ^ suc j / 2 ≡ 2 ^ j = omega (arith, pow-suc 2 j) in
    let even : 2 ^ suc j % 2 ≡ 0 = omega (arith, pow-suc 2 j) in
    let step : bit_xor n (2 ^ suc j) ≡ bit_xor (n / 2) (2 ^ j) * 2 + n % 2 =
      bit_xor_low n (2 ^ suc j)
      ∙ rw (half, even) (ap (λ (d : ℕ). bit_xor (n / 2) (2 ^ j) * 2 + d) (differ-zero (n % 2))) in
    elim (bit_xor-two_pow_either j (n / 2)) [
      | inl up ↦ inl (omega (arith, step, up, pow-suc 2 j))
      | inr down ↦ inr (omega (arith, step, down, pow-suc 2 j))
    ]

-- A check of every number below a bound, by evaluation.
unfoldable pub check_below : ℕ → (ℕ → Bool) → Bool
check_below zero p = true
check_below (suc n) p = p n && check_below n p

pub check_below_sound : (n : ℕ) (p : ℕ → Bool) (x : ℕ) → x < n → check_below n p ≡ true → p x ≡ true
unfolding check_below
check_below_sound zero p x h all = absurd (omega arith)
check_below_sound (suc n) p x h all = ground (arith, check_below_sound n p x)
