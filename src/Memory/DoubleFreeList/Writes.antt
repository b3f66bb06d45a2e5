-- ===== src/Memory/DoubleFreeList/Writes.antt =====
-- Writes to the links of a node, and what stands before a member of a sequence.
use locos.Prelude.{
  ℕ, ◌<◌, ◌≡◌, ◌≢◌, ◌⊎◌, refl, sym, ap, arith, Option, none, some, some_injective, List, [], ◌∷◌,
  ◌==◌, Bool-cases, inl, inr,
}
use locos.Memory.FreeList.Chain.{occ}
use locos.Memory.DoubleFreeList.{Node, Nodes, write, set_prev, set_next}
use locos.Memory.DoubleFreeList.Order.{head, prev_in}

pub write_self : (mem : Nodes) (p : ℕ) (n : Node) → write mem p n p ≡ n
write_self mem p n = ground arith

pub write-other : (mem : Nodes) (p a : ℕ) (n : Node) → a ≢ p → write mem p n a ≡ mem a
write-other mem p a n ne = ground (arith, ne)

pub set_prev-other :
    (link : Option ℕ) (q : Option ℕ) (mem : Nodes) (a : ℕ)
    → link ≢ some a
    → set_prev link q mem a ≡ mem a
set_prev-other none q mem a out = refl
set_prev-other (some p) q mem a out = write-other mem p a _ (λ e. out (ap some (sym e)))

pub set_prev_own :
    (link : Option ℕ) (q : Option ℕ) (mem : Nodes) (a : ℕ)
    → link ≡ some a
    → set_prev link q mem a ≡ record (mem a) { prev = q }
set_prev_own link q mem a e = rw e (write_self mem a (record (mem a) { prev = q }))

pub set_next-other :
    (link : Option ℕ) (q : Option ℕ) (mem : Nodes) (a : ℕ)
    → link ≢ some a
    → set_next link q mem a ≡ mem a
set_next-other none q mem a out = refl
set_next-other (some p) q mem a out = write-other mem p a _ (λ e. out (ap some (sym e)))

pub set_next_own :
    (link : Option ℕ) (q : Option ℕ) (mem : Nodes) (a : ℕ)
    → link ≡ some a
    → set_next link q mem a ≡ record (mem a) { next = q }
set_next_own link q mem a e = rw e (write_self mem a (record (mem a) { next = q }))

pub Option_dec : (o : Option ℕ) (a : ℕ) → (o ≡ some a) ⊎ (o ≢ some a)
Option_dec none a = inr (λ e. absurd cc)
Option_dec (some x) a = elim (Bool-cases (x == a)) [
  | inl same ↦ inl (ap some (ground (arith, same)))
  | inr other ↦ inr (λ e. let at : x ≡ a = some_injective _ _ e in ground (arith, at, other))
]

pub set_next_prev :
    (link q : Option ℕ) (mem : Nodes) (a : ℕ) → (set_next link q mem a).prev ≡ (mem a).prev
set_next_prev link q mem a = elim (Option_dec link a) [
  | inl own ↦ ap (λ (x : Node). x.prev) (set_next_own link q mem a own)
  | inr other ↦ ap (λ (x : Node). x.prev) (set_next-other link q mem a other)
]

pub set_next_level :
    (link q : Option ℕ) (mem : Nodes) (a : ℕ)
    → (set_next link q mem a).level_size ≡ (mem a).level_size
set_next_level link q mem a = elim (Option_dec link a) [
  | inl own ↦ ap (λ (x : Node). x.level_size) (set_next_own link q mem a own)
  | inr other ↦ ap (λ (x : Node). x.level_size) (set_next-other link q mem a other)
]

-- What stands before the list matters to the first member alone.
pub prev_in_first : (p : Option ℕ) (a : ℕ) (xs : List ℕ) → head xs ≡ some a → prev_in p a xs ≡ p
prev_in_first p a [] h = absurd cc
prev_in_first p a (z ∷ zs) h = let at : z ≡ a = some_injective _ _ h in ground (arith, at)

pub prev_in_later :
    (p q : Option ℕ) (a : ℕ) (xs : List ℕ) → head xs ≢ some a → prev_in p a xs ≡ prev_in q a xs
prev_in_later p q a [] out = refl
prev_in_later p q a (z ∷ zs) out = elim (Bool-cases (z == a)) [
  | inl own ↦ absurd (out (ap some (ground (arith, own))))
  | inr other ↦ rw other refl
]

pub node_eq : (x y : Node) → x.next ≡ y.next → x.prev ≡ y.prev → x.level_size ≡ y.level_size → x ≡ y
node_eq x y n p l = λ i. record { next = n i; prev = p i; level_size = l i }

pub head-occ : (a : ℕ) (xs : List ℕ) → head xs ≡ some a → 0 < occ a xs
head-occ a [] h = absurd cc
head-occ a (x ∷ xs) h = let at : x ≡ a = some_injective _ _ h in ground (arith, at)
