-- ===== src/Memory/FreeList/Chain.antt =====
-- A free list in memory stands for a sequence of addresses, and its operations for those of the
-- sequence.
use locos.Prelude.{
  ℕ, zero, suc, ◌+◌, ◌-◌, ◌≤◌, ◌<◌, ◌≡◌, ◌≢◌, refl, arith, Bool, true, false, Option, none, some,
  ◌==◌, if◌then◌else◌, add64, sub64, List, [], ◌∷◌, length, position, word,
}
use locos.Memory.FreeList.{Memory, write_next, FreeList, push, pop, pop_head, exists_from, exists}

-- How often an address stands in a list.
abbrev pub occ : ℕ → List ℕ → ℕ
occ r [] = 0
occ r (x ∷ xs) = (if x == r then 1 else 0) + occ r xs

-- From a pointer the `next` fields lead through the addresses to null.
abbrev pub IsChain : Memory → Option ℕ → List ℕ → Type 0
IsChain mem none [] = Unit
IsChain mem none (x ∷ xs) = ⊥
IsChain mem (some p) [] = ⊥
IsChain mem (some p) (x ∷ xs) = (p ≡ x) × IsChain mem (mem x) xs

-- A free list that stands for a sequence.
abbrev pub Lists : Memory → FreeList → List ℕ → Type 0
Lists mem f xs = IsChain mem f.head xs × (f.len ≡ length xs)

abbrev pub IsDistinct : List ℕ → Type 0
IsDistinct xs = (r : ℕ) → occ r xs ≤ 1

-- A chain survives a change of memory that spares its nodes.
pub IsChain-frame :
    (mem mem' : Memory) (h : Option ℕ) (xs : List ℕ)
    → ((r : ℕ) → 0 < occ r xs → mem' r ≡ mem r)
    → IsChain mem h xs
    → IsChain mem' h xs
IsChain-frame mem mem' none [] same c = c
IsChain-frame mem mem' none (x ∷ xs) same c = c
IsChain-frame mem mem' (some p) [] same c = c
IsChain-frame mem mem' (some p) (x ∷ xs) same (at, c) =
    let e : mem' x ≡ mem x = same x (ground arith) in
    (at, rw e (IsChain-frame mem mem' (mem x) xs (λ r i. same r (ground (arith, i))) c))

pub write_next-other :
    (mem : Memory) (p q : ℕ) (v : Option ℕ) → q ≢ p → write_next mem p v q ≡ mem q
write_next-other mem p q v ne = ground (arith, ne)

-- `push` of a block that is not listed puts it in front.
pub push-Lists :
    (f : FreeList) (mem : Memory) (p : ℕ) (xs : List ℕ)
    → Lists mem f xs
    → occ p xs ≡ 0
    → length xs + 1 < word
    → (f' : FreeList) × (push f mem p ≡ some (f', write_next mem p f.head))
      × Lists (write_next mem p f.head) f' (p ∷ xs)
unfolding push
push-Lists f mem p xs (c, len) out few =
    let counts : add64 f.len 1 ≡ some (f.len + 1) = ground (arith, len, few) in
    let mem' = write_next mem p f.head in
    let at : mem' p ≡ f.head = ground arith in
    (
      record { head = some p; len = f.len + 1 },
      rw counts refl,
      (
        (
          refl,
          rw at (
              IsChain-frame mem mem' f.head xs
                (λ r i.
                  write_next-other mem p r f.head
                    (λ e. let j : 0 < occ p xs = rw e at i in omega (arith, j, out)))
                c),
        ),
        omega (arith, len),
      ),
    )

-- `pop` takes the front block, and does not write to memory.
pub pop-Lists :
    (f : FreeList) (mem : Memory) (x : ℕ) (xs : List ℕ)
    → Lists mem f (x ∷ xs)
    → (f' : FreeList) × (pop f mem ≡ some (some x, f')) × Lists mem f' xs
unfolding pop pop_head
pop-Lists f mem x xs (c, len) = popped f.head c
  where
    popped :
        (h : Option ℕ)
        → IsChain mem h (x ∷ xs)
        → (f' : FreeList) × (pop_head f mem h ≡ some (some x, f')) × Lists mem f' xs
    popped none c = absurd c
    popped (some p) (same, c) =
        let counts : sub64 f.len 1 ≡ some (f.len - 1) = ground (arith, len) in
        (
          record { head = mem p; len = f.len - 1 },
          rw (same, counts) refl,
          (rw same c, omega (arith, len)),
        )

pub pop_empty : (f : FreeList) (mem : Memory) → Lists mem f [] → pop f mem ≡ some (none, f)
unfolding pop pop_head
pop_empty f mem (c, len) = nothing f.head c
  where
    nothing : (h : Option ℕ) → IsChain mem h [] → pop_head f mem h ≡ some (none, f)
    nothing none c = refl
    nothing (some p) c = absurd c

-- Whether a position was found.
abbrev pub found : Option ℕ → Bool
found none = false
found (some i) = true

-- `exists` with fuel for the length of the list finds the block exactly if it is listed.
exists_from-position :
    (fuel : ℕ) (mem : Memory) (h : Option ℕ) (xs : List ℕ) (p : ℕ)
    → IsChain mem h xs
    → length xs ≤ fuel
    → exists_from fuel mem h p ≡ some (found (position p xs))
unfolding exists_from position
exists_from-position fuel mem none [] p c few = refl
exists_from-position fuel mem none (x ∷ xs) p c few = absurd c
exists_from-position fuel mem (some q) [] p c few = absurd c
exists_from-position zero mem (some q) (x ∷ xs) p c few = absurd (omega (arith, few))
exists_from-position (suc fuel) mem (some q) (x ∷ xs) p (at, c) few =
    let rest = exists_from-position fuel mem (mem x) xs p c (omega (arith, few)) in
    rw at (ground (arith, rest))

pub exists-position :
    (fuel : ℕ) (f : FreeList) (mem : Memory) (xs : List ℕ) (p : ℕ)
    → Lists mem f xs
    → length xs ≤ fuel
    → exists fuel f mem p ≡ some (found (position p xs))
unfolding exists
exists-position fuel f mem xs p (c, len) few = exists_from-position fuel mem f.head xs p c few
