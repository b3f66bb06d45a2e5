-- ===== src/Prelude/BitSet.antt =====
-- A word as a set of bits: setting, clearing and testing one of them.
use locos.Prelude.{
  ℕ, ◌-◌, ◌*◌, ◌^◌, ◌<◌, ◌≡◌, ◌≢◌, ◌∙◌, refl, bit_and, bit_or, ◌==◌, arith, true, false,
}
use locos.Prelude.Bits.{
  bit, bit-le-one, bit-bit_or, bit-bit_and, bit-two_pow_self, bit-two_pow_ne, bit-mask_self,
  bit-mask_ne, bit_and-two_pow,
}
use native.Mathlib.Nat.{one-le-pow}

pub set_self : (i w : ℕ) → bit i (bit_or w (2 ^ i)) ≡ 1
set_self i w = omega (arith, bit-bit_or i w (2 ^ i), bit-two_pow_self i, bit-le-one i w)

pub set_other : (i j w : ℕ) → i ≢ j → bit j (bit_or w (2 ^ i)) ≡ bit j w
set_other i j w h = omega (arith, bit-bit_or j w (2 ^ i), bit-two_pow_ne i j h)

pub clear_self : (n i w : ℕ) → i < n → bit i (bit_and w (2 ^ n - 1 - 2 ^ i)) ≡ 0
clear_self n i w h = omega (arith, bit-bit_and i w (2 ^ n - 1 - 2 ^ i), bit-mask_self n i h)

pub clear_other :
    (n i j w : ℕ) → i < n → j < n → i ≢ j → bit j (bit_and w (2 ^ n - 1 - 2 ^ i)) ≡ bit j w
clear_other n i j w hi hj h =
    omega (arith, bit-bit_and j w (2 ^ n - 1 - 2 ^ i), bit-mask_ne n i j hi hj h, bit-le-one j w)

-- `bitmap & (1 << i) != 0` reads bit `i`.
pub test_bit :
    (i w : ℕ)
    → (bit i w ≡ 1 → (bit_and w (2 ^ i) == 0) ≡ false)
      × (bit i w ≡ 0 → (bit_and w (2 ^ i) == 0) ≡ true)
test_bit i w = (
  λ h.
      let e : bit_and w (2 ^ i) ≡ 2 ^ i = bit_and-two_pow i w ∙ one h in
      rw e (ground (arith, one-le-pow i 2 (omega arith))),
  λ h. let e : bit_and w (2 ^ i) ≡ 0 = bit_and-two_pow i w ∙ none_left h in rw e refl,
)
  where
    one : bit i w ≡ 1 → bit i w * 2 ^ i ≡ 2 ^ i
    one h = rw h (omega arith)

    none_left : bit i w ≡ 0 → bit i w * 2 ^ i ≡ 0
    none_left h = rw h (omega arith)
