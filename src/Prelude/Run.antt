-- ===== src/Prelude/Run.antt =====
-- Code that may panic: `none` is the panic. Also what the standard library's integer and sequence
-- functions do, where the kernel calls them.
use Prim.Native.Nat.{ℕ, zero, suc, ◌+◌, ◌-◌, ◌*◌, ◌/◌, ◌%◌, ◌^◌, ◌≤◌}
use native.Mathlib.Omega.{arith}
use mathlib.Core.Path.{◌≡◌, refl}
use mathlib.Core.Bool.{Bool}
use mathlib.Core.Option.{Option, none, some}
use mathlib.Core.List.{List, [], ◌∷◌}
use locos.Prelude.Tests.{ltb, leb, ◌==◌, if◌then◌else◌}

infixl 5 ◌>>=◌
abbrev pub ◌>>=◌ {ℓ κ} : {A : Type ℓ} {B : Type κ} → Option A → (A → Option B) → Option B
none >>= f = none
some a >>= f = f a

abbrev pub word : ℕ
word = 2 ^ 64

infixl 5 ◌>>◌
abbrev pub ◌>>◌ {κ} : {B : Type κ} → Option (Unit {0}) → Option B → Option B
m >> k = m >>= λ _. k

-- `assert!`
abbrev pub assert : Bool → Option (Unit {0})
assert b = if b then some tt else none

-- `usize` and `u64` arithmetic. The kernel is built with the `dev` profile, where an overflow, or a
-- shift by 64 or more, panics; a shift to the left drops the high bits.
abbrev pub add64 : ℕ → ℕ → Option ℕ
add64 a b = if ltb (a + b) word then some (a + b) else none

abbrev pub sub64 : ℕ → ℕ → Option ℕ
sub64 a b = if leb b a then some (a - b) else none

abbrev pub mul64 : ℕ → ℕ → Option ℕ
mul64 a b = if ltb (a * b) word then some (a * b) else none

abbrev pub shl64 : ℕ → ℕ → Option ℕ
shl64 a k = if ltb k 64 then some (a * 2 ^ k % word) else none

abbrev pub shr64 : ℕ → ℕ → Option ℕ
shr64 a k = if ltb k 64 then some (a / 2 ^ k) else none

-- `NonNull::new(p).unwrap()`
abbrev pub non_null : ℕ → Option ℕ
non_null p = if p == 0 then none else some p

-- `next_power_of_two`: the first of `p`, `2 p`, ... that is at least `n`; `none` is an overflow.
unfoldable pub next_power_from : ℕ → ℕ → ℕ → Option ℕ
next_power_from zero p n = none
next_power_from (suc k) p n =
    let rest = next_power_from k (2 * p) n in if leb n p then some p else rest

unfoldable pub next_power_of_two : ℕ → Option ℕ
unfolding next_power_from
next_power_of_two n = next_power_from 64 1 n

-- `iter().position(|&p| p == x)`
unfoldable pub position : ℕ → List ℕ → Option ℕ
position x [] = none
position x (y ∷ ys) =
    if y == x then some 0 else elim (position x ys) [ none ↦ none | some i ↦ some (suc i) ]

-- `VecDeque::remove(i)`; out of range it removes nothing.
unfoldable pub remove_at {ℓ} : {A : Type ℓ} → ℕ → List A → List A
remove_at i [] = []
remove_at zero (x ∷ xs) = xs
remove_at (suc i) (x ∷ xs) = x ∷ remove_at i xs

-- `Result<A, E>`
pub data Result {ℓ κ} (E : Type ℓ) (A : Type κ) : Type (ℓ ⊔ κ) where
  ok : A → Result E A
  err : E → Result E A

-- `(lo..hi).step_by(step)`, as its list: `n` values from `lo` on.
abbrev pub steps : ℕ → ℕ → ℕ → List ℕ
steps zero lo step = []
steps (suc n) lo step = lo ∷ steps n (lo + step) step

unfoldable pub step_by : ℕ → ℕ → ℕ → List ℕ
step_by lo hi step = steps ((hi - lo + (step - 1)) / step) lo step

-- Inversion of a bind that returned.
pub >>=-eq-some {ℓ κ} :
    {A : Type ℓ} {B : Type κ} (o : Option A) (f : A → Option B) {b : B}
    → (o >>= f) ≡ some b
    → (a : A) × (o ≡ some a) × (f a ≡ some b)
>>=-eq-some none f h = cc
>>=-eq-some (some a) f h = (a, refl, h)

next_power_from-le : (k p n : ℕ) {r : ℕ} → next_power_from k p n ≡ some r → n ≤ r
unfolding next_power_from
next_power_from-le zero p n h = cc
next_power_from-le (suc k) p n {r} h = ground (arith, next_power_from-le k (2 * p) n {r = r})

pub next_power_of_two-le : (n : ℕ) {r : ℕ} → next_power_of_two n ≡ some r → n ≤ r
unfolding next_power_of_two
next_power_of_two-le n h = next_power_from-le 64 1 n h

pub some_injective {ℓ} : {A : Type ℓ} (a b : A) → some a ≡ some b → a ≡ b
some_injective a b h = cc

-- The values of a range whose number is known.
pub step_by-steps :
    (n lo hi step : ℕ) → (hi - lo + (step - 1)) / step ≡ n → step_by lo hi step ≡ steps n lo step
unfolding step_by
step_by-steps n lo hi step e = rw e
