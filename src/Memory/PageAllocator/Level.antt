-- ===== src/Memory/PageAllocator/Level.antt =====
-- `get_level_from_size` of the page allocator finds the smallest blocks that are large enough.
use locos.Prelude.{
  ℕ, zero, suc, ◌+◌, ◌-◌, ◌*◌, ◌/◌, ◌^◌, ◌≤◌, ◌<◌, ◌≡◌, ◌⊎◌, ◌&&◌, refl, none, some, arith, ltb,
  if◌then◌else◌, inl, inr, Bool-cases,
}
use native.Mathlib.Decide.{dec_lt}
use native.Mathlib.Nat.{pow-suc}
use locos.Memory.Powers.{shift_half, shift_size, two_pow_gap, two_pow_le}
use locos.Memory.PageAllocator.{PageAllocator, max_size, level_loop, get_level_from_size}
use locos.Memory.PageAllocator.Valid.{size_of, IsValid}

-- Where the loop stops, over the level and the block size that it holds.
record Stops (top size : ℕ) (r : ℕ × ℕ) : Type 0 where
  deep : r.0 ≤ top
  exact : r.1 ≡ size_of top r.0
  fits : (r.1 ≤ size) ⊎ (r.0 ≡ top)
  above : (r.0 ≡ 0) ⊎ (size < 2 * r.1)

level_loop-Stops :
    (k top size l : ℕ)
    → l ≤ top
    → top < l + k
    → (l ≡ 0) ⊎ (size < 2 * size_of top l)
    → Stops top size (level_loop k (suc top) size l (size_of top l))
unfolding level_loop
level_loop-Stops zero top size l h enough up = absurd (omega arith)
level_loop-Stops (suc k) top size l h enough up =
    elim (Bool-cases (ltb size (size_of top l) && ltb (l + 1) (suc top))) [
      | inl more ↦
          let deeper : suc l ≤ top = ground arith in
          let half = shift_half 12 top l deeper in
          let halved : size_of top l / 2 ≡ size_of top (suc l) = omega (arith, half) in
          let next : l + 1 ≡ suc l = omega arith in
          rw more (
            rw halved (
              rw next
                (level_loop-Stops k top size (suc l) deeper (omega arith) (inr (ground arith)))))
      | inr stop ↦ rw stop (record { deep = h; exact = refl; fits = ground arith; above = up })
    ]

max_size_lem : {top : ℕ} {s : PageAllocator} → IsValid top s → max_size s ≡ some (size_of top 0)
unfolding max_size
max_size_lem v = ground (arith, v.whole)

-- The level that the loop of `get_level_from_size` stops at.
found :
    {top : ℕ} {s : PageAllocator} (size : ℕ)
    → IsValid top s
    → Stops top size (level_loop s.levels s.levels size 0 (size_of top 0))
found {top} size v =
    rw (v.deep) (level_loop-Stops (suc top) top size 0 (omega arith) (omega arith) (inl refl))

Stops-two_pow : {top k : ℕ} (r : ℕ × ℕ) → Stops top (2 ^ k) r → k ≤ 12 + top → 2 ^ k ≤ r.1
Stops-two_pow {top} {k} r st small = elim (dec_lt r.1 (2 ^ k)) [
  | no big ↦ omega arith
  | yes low ↦
      let j : ℕ = 12 + (top - r.0) in
      let exact : r.1 ≡ 2 ^ j = omega (arith, st.exact, shift_size 12 top r.0 st.deep) in
      let gap = two_pow_gap j k (omega arith) in
      absurd (elim st.above [
        | inl first ↦ omega (arith, two_pow_le k j (omega arith))
        | inr up ↦ omega (arith, pow-suc 2 j)
      ])
]

-- A request of a power of two that is at most the region gets a level whose blocks have just that
-- size, or the level of single pages if a page is larger.
pub get_level_from_size-two_pow :
    {top : ℕ} {s : PageAllocator} (k : ℕ)
    → IsValid top s
    → k ≤ 12 + top
    → (l : ℕ) × (get_level_from_size s (2 ^ k) ≡ some (some l))
      × (l ≤ top)
      × (2 ^ k ≤ size_of top l)
      × ((l ≡ top) ⊎ (size_of top l ≡ 2 ^ k))
unfolding get_level_from_size
get_level_from_size-two_pow {top} {s} k v small =
    let r = level_loop s.levels s.levels (2 ^ k) 0 (size_of top 0) in
    let stops = found (2 ^ k) v in
    let fits : 2 ^ k ≤ r.1 = Stops-two_pow r stops small in
    (
      r.0,
      rw (max_size_lem v) (ground (arith, fits)),
      stops.deep,
      omega (arith, fits, stops.exact),
      ground (arith, fits, stops.fits, stops.exact),
    )

-- A request of more bytes than the region has gets no level.
pub get_level_from_size_large :
    {top : ℕ} {s : PageAllocator} (size : ℕ)
    → IsValid top s
    → 2 ^ (12 + top) < size
    → get_level_from_size s size ≡ some none
unfolding get_level_from_size
get_level_from_size_large {top} {s} size v large =
    let stops = found size v in
    rw (max_size_lem v) (
      ground (
        arith,
        stops.exact,
        shift_size 12 top _ stops.deep,
        two_pow_le (12 + (top - (level_loop s.levels s.levels size 0 (size_of top 0)).0)) (12 + top)
            (omega arith),
      ))

-- The level that is found exists, and its blocks are large enough.
pub get_level_from_size-some :
    {top : ℕ} {s : PageAllocator} (size l : ℕ)
    → IsValid top s
    → get_level_from_size s size ≡ some (some l)
    → (l ≤ top) × (size ≤ size_of top l)
unfolding get_level_from_size
get_level_from_size-some {top} {s} size l v h =
    let stops = found size v in
    let r = level_loop s.levels s.levels size 0 (size_of top 0) in
    let e : some (if ltb r.1 size then none else some r.0) ≡ some (some l) =
      rw (max_size_lem v) at h in
    (ground (arith, stops.deep), ground (arith, stops.exact))

-- The level depends on the region alone.
pub get_level_from_size_same :
    {top : ℕ} {s t : PageAllocator} (size : ℕ)
    → IsValid top s
    → IsValid top t
    → get_level_from_size s size ≡ get_level_from_size t size
unfolding get_level_from_size
get_level_from_size_same size v w =
    rw (max_size_lem v) (rw (max_size_lem w) (rw (v.deep) (rw (w.deep))))
