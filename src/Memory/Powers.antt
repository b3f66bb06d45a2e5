-- ===== src/Memory/Powers.antt =====
-- Block sizes: `2 ^ (u + top)` bytes halved `l` times, for levels `l` up to `top`.
use locos.Prelude.{ℕ, zero, suc, ◌+◌, ◌-◌, ◌*◌, ◌/◌, ◌^◌, ◌≤◌, ◌<◌, ◌≡◌, ap, arith}
use native.Mathlib.Nat.{pow-suc, one-le-pow, mul-div_cancel_left}

pub pow-add : (m n : ℕ) → 2 ^ (m + n) ≡ 2 ^ m * 2 ^ n
pow-add m zero = let e : m + 0 ≡ m = omega arith in rw e (omega arith)
pow-add m (suc n) =
    let e : m + suc n ≡ suc (m + n) = omega arith in
    rw e (omega (arith, pow-suc 2 (m + n), ap (λ (t : ℕ). 2 ^ m * t) (pow-suc 2 n), pow-add m n))

pub two_pow_pos : (n : ℕ) → 0 < 2 ^ n
two_pow_pos n = one-le-pow n 2 (omega arith)

pub shift-two_pow : (l j : ℕ) → 2 ^ (l + j) / 2 ^ l ≡ 2 ^ j
shift-two_pow l j = rw (pow-add l j) (mul-div_cancel_left (2 ^ j) (two_pow_pos l))

-- The size of level `l` when `top` is the level of the smallest blocks, of `2 ^ u` bytes.
pub shift_size : (u top l : ℕ) → l ≤ top → 2 ^ (u + top) / 2 ^ l ≡ 2 ^ (u + (top - l))
shift_size u top l h =
    let e : u + top ≡ l + (u + (top - l)) = omega arith in rw e (shift-two_pow l (u + (top - l)))

pub shift_half : (u top l : ℕ) → l < top → 2 ^ (u + top) / 2 ^ l ≡ 2 * (2 ^ (u + top) / 2 ^ suc l)
shift_half u top l h = omega (
  arith,
  shift_size u top l (omega arith),
  shift_size u top (suc l) h,
  pow-suc 2 (u + (top - suc l)),
  ap (λ (t : ℕ). 2 ^ t) next,
)
  where
    next : u + (top - l) ≡ suc (u + (top - suc l))
    next = omega arith

-- The blocks of a level make up the region.
pub shift_total : (u top l : ℕ) → l ≤ top → 2 ^ l * (2 ^ (u + top) / 2 ^ l) ≡ 2 ^ (u + top)
shift_total u top l h =
    let e : u + top ≡ l + (u + (top - l)) = omega arith in
    rw (shift_size u top l h) (rw e (omega (arith, pow-add l (u + (top - l)))))

pub block_end_le : (q n s : ℕ) → q < n → q * s + s ≤ n * s
block_end_le q n s h = grind arith

-- There is no power of two strictly between two successive ones.
pub two_pow_gap : (j k : ℕ) → 2 ^ j < 2 ^ k → 2 ^ suc j ≤ 2 ^ k
two_pow_gap j zero h = absurd (omega (arith, two_pow_pos j))
two_pow_gap zero (suc k) h = omega (arith, pow-suc 2 k, two_pow_pos k)
two_pow_gap (suc j) (suc k) h = omega (
  arith,
  pow-suc 2 k,
  pow-suc 2 (suc j),
  two_pow_gap j k (omega (arith, pow-suc 2 k, pow-suc 2 j)),
)

pub two_pow_le : (j k : ℕ) → j ≤ k → 2 ^ j ≤ 2 ^ k
two_pow_le zero k h = two_pow_pos k
two_pow_le (suc j) zero h = absurd (omega arith)
two_pow_le (suc j) (suc k) h = omega (arith, pow-suc 2 k, pow-suc 2 j, two_pow_le j k (omega arith))
