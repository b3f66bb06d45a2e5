-- ===== src/Memory/Blocks.antt =====
-- The geometry of a buddy allocator: blocks of level `l` have `size l` bytes, and a level's blocks
-- are the halves of the blocks of the level above. `cover` counts the free blocks over an address.
use locos.Prelude.{
  ℕ, zero, suc, ◌+◌, ◌-◌, ◌*◌, ◌/◌, ◌%◌, ◌^◌, ◌<◌, ◌≡◌, refl, ap, ◌∙◌, some, List, [], ◌∷◌, ◌++◌,
  ◌&&◌, arith, ltb, leb, ◌==◌, if◌then◌else◌, get_elem?, set, length, All, position, remove_at,
  Bool-cases, inl, inr,
}
use locos.Prelude.Bits.{flip}
use native.Mathlib.Nat.{pow-suc}

-- 1 if the block of `n` bytes at `b` holds the address `a`, else 0.
abbrev pub hit : ℕ → ℕ → ℕ → ℕ
hit n b a = if leb b a && ltb a (b + n) then 1 else 0

abbrev pub hits : ℕ → List ℕ → ℕ → ℕ
hits n [] a = 0
hits n (b ∷ bs) a = hit n b a + hits n bs a

-- How many blocks of the free lists hold `a`; the lists stand in the order of the levels.
abbrev pub cover : (ℕ → ℕ) → List (List ℕ) → ℕ → ℕ
cover size [] a = 0
cover size (xs ∷ ls) a = hits (size 0) xs a + cover (λ l. size (suc l)) ls a

-- `b` is block number `q` of level `l`.
abbrev pub IsBlock : ℕ → (ℕ → ℕ) → ℕ → ℕ → Type 0
IsBlock base size l b = (q : ℕ) × (b ≡ base + q * size l) × (q < 2 ^ l)

-- `P l` holds of every member of the list of level `l`.
abbrev pub AllLevels : (ℕ → ℕ → Type 0) → List (List ℕ) → Type 0
AllLevels P [] = Unit
AllLevels P (xs ∷ ls) = All (P 0) xs × AllLevels (λ l. P (suc l)) ls

pub hits-append : (n : ℕ) (xs ys : List ℕ) (a : ℕ) → hits n (xs ++ ys) a ≡ hits n xs a + hits n ys a
hits-append n [] ys a = omega arith
hits-append n (x ∷ xs) ys a = omega (arith, hits-append n xs ys a)

pub cover-set :
    (size : ℕ → ℕ) (ls : List (List ℕ)) (i : ℕ) (xs ys : List ℕ) (a : ℕ)
    → get_elem? ls i ≡ some xs
    → cover size (set ls i ys) a + hits (size i) xs a ≡ cover size ls a + hits (size i) ys a
cover-set size [] i xs ys a h = cc
cover-set size (zs ∷ ls) zero xs ys a h = let e : zs ≡ xs = cc in rw e (omega arith)
cover-set size (zs ∷ ls) (suc i) xs ys a h =
    omega (arith, cover-set (λ l. size (suc l)) ls i xs ys a h)

pub AllLevels-get :
    (P : ℕ → ℕ → Type 0) (ls : List (List ℕ)) (i : ℕ) (xs : List ℕ)
    → get_elem? ls i ≡ some xs
    → AllLevels P ls
    → All (P i) xs
AllLevels-get P [] i xs h v = cc
AllLevels-get P (zs ∷ ls) zero xs h v = let e : zs ≡ xs = cc in rw (← e) (v.0)
AllLevels-get P (zs ∷ ls) (suc i) xs h v = AllLevels-get (λ l. P (suc l)) ls i xs h v.1

pub AllLevels-set :
    (P : ℕ → ℕ → Type 0) (ls : List (List ℕ)) (i : ℕ) (ys : List ℕ)
    → AllLevels P ls
    → All (P i) ys
    → AllLevels P (set ls i ys)
AllLevels-set P [] i ys v h = v
AllLevels-set P (zs ∷ ls) zero ys v h = (h, v.1)
AllLevels-set P (zs ∷ ls) (suc i) ys v h = (v.0, AllLevels-set (λ l. P (suc l)) ls i ys v.1 h)

pub get_elem?-some :
    (ls : List (List ℕ)) (i : ℕ) → i < length ls → (xs : List ℕ) × (get_elem? ls i ≡ some xs)
get_elem?-some [] i h = absurd (omega arith)
get_elem?-some (xs ∷ ls) zero h = (xs, refl)
get_elem?-some (xs ∷ ls) (suc i) h = get_elem?-some ls i (omega arith)

-- A block is the disjoint union of its two halves.
pub hit_halves : (n s b a : ℕ) → n ≡ 2 * s → hit n b a ≡ hit s b a + hit s (b + s) a
hit_halves n s b a e = ground arith

twice_mul : (k s : ℕ) → (2 * k) * s ≡ 2 * (k * s)
twice_mul k s = omega arith

twice_mul_suc : (k s : ℕ) → (2 * k + 1) * s ≡ 2 * (k * s) + s
twice_mul_suc k s = omega arith

module _ (base : ℕ) (size : ℕ → ℕ) (l : ℕ) (half : size l ≡ 2 * size (suc l)) where
  pub IsBlock-halves :
      (b : ℕ)
      → IsBlock base size l b
      → IsBlock base size (suc l) b × IsBlock base size (suc l) (b + size (suc l))
  IsBlock-halves b (q, at, low) = (
    (2 * q, omega (arith, ap (λ (t : ℕ). q * t) half), omega (arith, pow-suc 2 l)),
    (2 * q + 1, omega (arith, ap (λ (t : ℕ). q * t) half), omega (arith, pow-suc 2 l)),
  )

  -- The buddy of block `q` is block `flip q`; the lower of the two is their union's address.
  pub IsBlock-union :
      (q : ℕ)
      → q < 2 ^ suc l
      → let b = base + q * size (suc l) in
        let c = base + flip q * size (suc l) in
        let m = if ltb c b then c else b in
        IsBlock base size l m
        × ((a : ℕ) → hit (size l) m a ≡ hit (size (suc l)) b a + hit (size (suc l)) c a)
  IsBlock-union q low =
      let k : ℕ = q / 2 in
      let s : ℕ = size (suc l) in
      let whole : k * size l ≡ 2 * (k * s) = omega (arith, ap (λ (t : ℕ). k * t) half) in
      let small : k < 2 ^ l = omega (arith, pow-suc 2 l) in
      elim (Bool-cases (q % 2 == 0)) [
        | inl even ↦
            let at : q * s ≡ 2 * (k * s) = ap (λ (t : ℕ). t * s) (ground arith) ∙ twice_mul k s in
            let flipped : flip q * s ≡ 2 * (k * s) + s = rw (even) (omega (arith, at)) in
            ((k, ground arith, small), λ a. ground arith)
        | inr odd ↦
            let down : q - 1 ≡ 2 * k = ground arith in
            let flipped : flip q * s ≡ 2 * (k * s) =
              rw odd (ap (λ (t : ℕ). t * s) down ∙ twice_mul k s) in
            let up : q ≡ 2 * k + 1 = ground arith in
            let at : q * s ≡ 2 * (k * s) + s = ap (λ (t : ℕ). t * s) up ∙ twice_mul_suc k s in
            ((k, ground arith, small), λ a. ground arith)
      ]

pub hits-remove_at :
    (n x i : ℕ) (xs : List ℕ) (a : ℕ)
    → position x xs ≡ some i
    → hits n xs a ≡ hit n x a + hits n (remove_at i xs) a
unfolding position remove_at
hits-remove_at n x i [] a h = cc
hits-remove_at n x zero (y ∷ ys) a h = ground arith
hits-remove_at n x (suc i) (y ∷ ys) a h = ground (arith, hits-remove_at n x i ys a)

pub flip-lt : (l q : ℕ) → q < 2 ^ suc l → flip q < 2 ^ suc l
flip-lt l q h = ground (arith, pow-suc 2 l)

pub All-remove_at : (P : ℕ → Type 0) (i : ℕ) (xs : List ℕ) → All P xs → All P (remove_at i xs)
unfolding remove_at
All-remove_at P i [] h = h
All-remove_at P zero (x ∷ xs) h = h.1
All-remove_at P (suc i) (x ∷ xs) h = (h.0, All-remove_at P i xs h.1)
