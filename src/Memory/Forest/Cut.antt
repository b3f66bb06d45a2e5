-- ===== src/Memory/Forest/Cut.antt =====
-- The allocators that a region of the memory map is cut into.
use locos.Prelude.{
  ℕ, zero, suc, ◌+◌, ◌-◌, ◌*◌, ◌^◌, ◌≤◌, ◌<◌, ◌≡◌, refl, ap, arith, Bool-cases, inl, inr, true,
  false, some, List, [], ◌∷◌, length, leb, add64, mul64, word,
}
use native.Mathlib.Nat.{pow-suc}
use native.Mathlib.Decide.{dec_lt}
use locos.Memory.Powers.{two_pow_gap, two_pow_le, two_pow_pos}
use locos.Memory.Forest.{Config, double_frames, cut_region}

-- A region cut into allocators that stand one behind another, each with the largest power of two of
-- frames that are left, down to the least size; fewer frames than that remain.
pub data IsCut (min_frames : ℕ) : ℕ → ℕ → List Config → Type 0 where
  done : {start remaining : ℕ} → remaining < min_frames → IsCut min_frames start remaining []
  cut :
      {start remaining : ℕ} (k : ℕ) (rest : List Config)
      → 2 ^ k ≤ remaining
      → remaining < 2 * 2 ^ k
      → min_frames ≤ 2 ^ k
      → IsCut min_frames (start + 2 ^ k * 4096) (remaining - 2 ^ k) rest
      → IsCut min_frames start remaining
          (record { virt_start = start; frames = 2 ^ k; size_bytes = 2 ^ k * 4096 } ∷ rest)

double_frames-lem :
    (rounds i remaining : ℕ)
    → 2 ^ i ≤ remaining
    → remaining < 2 ^ (i + rounds)
    → (k : ℕ) × (double_frames rounds (2 ^ i) remaining ≡ some (2 ^ k))
      × (2 ^ k ≤ remaining)
      × (remaining < 2 * 2 ^ k)
unfolding double_frames
double_frames-lem zero i remaining low high =
    let e : 2 ^ (i + 0) ≡ 2 ^ i = ap (λ (t : ℕ). 2 ^ t) (omega arith) in
    absurd (omega (arith, low, high, e))
double_frames-lem (suc k) i remaining low high =
    let twice : 2 ^ i * 2 ≡ 2 ^ suc i = omega (arith, pow-suc 2 i) in
    let shift : 2 ^ (i + suc k) ≡ 2 ^ (suc i + k) = ap (λ (t : ℕ). 2 ^ t) (omega arith) in
    elim (Bool-cases (leb (2 ^ i * 2) remaining)) [
      | inl more ↦ rw (more) (
          rw twice (
            double_frames-lem k (suc i) remaining (ground (arith, more, twice))
              (omega (arith, high, shift))))
      | inr stop ↦ (i, rw stop refl, low, ground (arith, stop))
    ]

cut_region_small :
    (places min_frames start remaining : ℕ)
    → leb min_frames remaining ≡ false
    → cut_region (suc places) min_frames start remaining ≡ some []
unfolding cut_region
cut_region_small places min_frames start remaining small = rw (small, cut_region) refl

cut_region_empty :
    (places min_frames start remaining : ℕ)
    → remaining < min_frames
    → cut_region places min_frames start remaining ≡ some []
unfolding cut_region
cut_region_empty zero min_frames start remaining small = ground (arith, small)
cut_region_empty (suc places) min_frames start remaining small =
    cut_region_small places min_frames start remaining (ground (arith, small))

cut_region_large :
    (places min_frames start remaining frames : ℕ) (cs : List Config)
    → leb min_frames remaining ≡ true
    → double_frames 64 1 remaining ≡ some frames
    → frames ≤ remaining
    → start + remaining * 4096 < word
    → cut_region places min_frames (start + frames * 4096) (remaining - frames) ≡ some cs
    → cut_region (suc places) min_frames start remaining
      ≡ some (record { virt_start = start; frames = frames; size_bytes = frames * 4096 } ∷ cs)
unfolding cut_region
cut_region_large places min_frames start remaining frames cs large found low high rest =
    let bytes : mul64 frames 4096 ≡ some (frames * 4096) = ground (arith, low, high) in
    let sum : add64 start (frames * 4096) ≡ some (start + frames * 4096) =
      ground (arith, low, high) in
    rw (large, cut_region) (rw found (rw bytes (rw sum (rw rest refl))))

-- A region of fewer than `2 ^ depth` frames, below the end of the address space, is cut without a
-- panic into at most `depth` allocators, when there are at least `depth` places for them, `depth` is at
-- most 64, and the least size is a power of two.
pub cut_region-IsCut :
    (places depth j start remaining : ℕ)
    → remaining < 2 ^ depth
    → depth ≤ places
    → depth ≤ 64
    → start + remaining * 4096 < word
    → (cs : List Config) × (cut_region places (2 ^ j) start remaining ≡ some cs)
      × IsCut (2 ^ j) start remaining cs
      × (length cs ≤ depth)
unfolding cut_region
cut_region-IsCut places zero j start remaining few fit room high =
    let small : remaining < 2 ^ j = omega (arith, few, two_pow_pos j) in
    ([], cut_region_empty places (2 ^ j) start remaining small, done small, omega arith)
cut_region-IsCut zero (suc depth) j start remaining few fit room high = absurd (omega (arith, fit))
cut_region-IsCut (suc places) (suc depth) j start remaining few fit room high =
    elim (Bool-cases (leb (2 ^ j) remaining)) [
      | inr small ↦ (
        [],
        cut_region_small places (2 ^ j) start remaining small,
        done (ground (arith, small)),
        omega arith,
      )
      | inl large ↦
          let some_left : 2 ^ 0 ≤ remaining = ground (arith, large, two_pow_pos j) in
          let bound : remaining < 2 ^ (0 + 64) =
            omega (arith, few, two_pow_le (suc depth) 64 room) in
          let (k, found, low, up) = double_frames-lem 64 0 remaining some_left bound in
          let least : 2 ^ j ≤ 2 ^ k = elim (dec_lt (2 ^ k) (2 ^ j)) [
            | yes lt ↦ absurd (ground (arith, two_pow_gap k j lt, up, large, pow-suc 2 k))
            | no ge ↦ omega (arith, ge)
          ] in
          let next : remaining - 2 ^ k < 2 ^ depth = elim (dec_lt depth k) [
            | yes lt ↦ absurd (omega (arith, two_pow_le (suc depth) k lt, few, low))
            | no ge ↦ omega (arith, up, low, two_pow_le k depth (omega (arith, ge)))
          ] in
          let (cs, rest, is_cut, short) =
            cut_region-IsCut places depth j (start + 2 ^ k * 4096) (remaining - 2 ^ k) next
              (omega (arith, fit)) (omega (arith, room)) (omega (arith, low, high)) in
          (
            record { virt_start = start; frames = 2 ^ k; size_bytes = 2 ^ k * 4096 } ∷ cs,
            cut_region_large places (2 ^ j) start remaining (2 ^ k) cs large found low high rest,
            cut k cs low up least is_cut,
            omega (arith, short),
          )
    ]
