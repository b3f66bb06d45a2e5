-- ===== src/Tasks/KernelSlab/Bitmap.antt =====
-- The first free bit, and setting and clearing one bit.
use locos.Prelude.{ℕ, zero, suc, ◌/◌, ◌%◌, ◌≤◌, ◌<◌, ◌≡◌, refl, ◌==◌, arith, Bool-cases, inl, inr}
use locos.Prelude.Bits.{bit}
use locos.Tasks.KernelSlab.{trailing_ones}

-- All bits below the count are set, and the next one is not.
pub trailing_ones_lem :
    (n w : ℕ)
    → (trailing_ones n w ≤ n)
      × ((i : ℕ) → i < trailing_ones n w → bit i w ≡ 1)
      × (trailing_ones n w < n → bit (trailing_ones n w) w ≡ 0)
unfolding trailing_ones
trailing_ones_lem zero w = (omega arith, λ i h. elim h [ ], λ h. elim h [ ])
trailing_ones_lem (suc n) w =
    let (most, ones, next) = trailing_ones_lem n (w / 2) in
    elim (Bool-cases (w % 2 == 1)) [
      | inl odd ↦ rw odd (
        omega (arith, most),
        λ i h. shifted i (ground arith) (λ k e. ones k (omega arith)),
        λ h. next (omega arith),
      )
      | inr even ↦ rw even (omega arith, λ i h. absurd (omega arith), λ h. ground arith)
    ]
  where
    shifted : (i : ℕ) → w % 2 ≡ 1 → ((k : ℕ) → i ≡ suc k → bit k (w / 2) ≡ 1) → bit i w ≡ 1
    shifted zero odd h = odd
    shifted (suc k) odd h = h k refl

-- The count depends on the bits alone.
pub trailing_ones_same :
    (n v w : ℕ) → ((i : ℕ) → i < n → bit i v ≡ bit i w) → trailing_ones n v ≡ trailing_ones n w
unfolding trailing_ones
trailing_ones_same zero v w h = refl
trailing_ones_same (suc n) v w h = ground (
  arith,
  h 0 (omega arith),
  trailing_ones_same n (v / 2) (w / 2) (λ i p. h (suc i) (omega arith)),
)
