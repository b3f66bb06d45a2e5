-- ===== src/Memory/DoubleFreeList/Linked.antt =====
-- A doubly linked list in the page list stands for a sequence of nodes, and its operations for those
-- of the sequence.
use mathlib.Core.Path.{subst}
use locos.Prelude.{
  ℕ, ◌+◌, ◌-◌, ◌<◌, ◌≡◌, ◌≢◌, refl, sym, ap, ◌∙◌, arith, none, some, List, [], ◌∷◌, ◌==◌,
  Bool-cases, inl, inr, true, false, length, add64, sub64, word,
}
use locos.Memory.FreeList.Chain.{occ}
use locos.Memory.DoubleFreeList.{
  Node, Nodes, write, cleared, set_prev, DoubleFreeList, push, pop, pop_node,
}
use locos.Memory.DoubleFreeList.Order.{head, next_in, prev_in}
use locos.Memory.DoubleFreeList.Writes.{
  write_self, write-other, set_prev-other, set_prev_own, Option_dec, prev_in_first, prev_in_later,
  node_eq, head-occ,
}

-- The node that a member of a sequence has.
abbrev pub node_at : ℕ → List ℕ → ℕ → Node
node_at size xs a = record { next = next_in a xs; prev = prev_in none a xs; level_size = some size }

abbrev pub IsLinked : Nodes → ℕ → List ℕ → Type 0
IsLinked mem size xs = (a : ℕ) → 0 < occ a xs → mem a ≡ node_at size xs a

-- A list whose nodes are those of a sequence, all marked with the size.
abbrev pub Lists : Nodes → DoubleFreeList → ℕ → List ℕ → Type 0
Lists mem f size xs = (f.next ≡ head xs) × (f.len ≡ length xs) × IsLinked mem size xs

module _ (mem : Nodes) (f : DoubleFreeList) (size : ℕ) where
  -- The old nodes, once the first of them points back to the new one.
  pushed :
      (b : ℕ) (xs : List ℕ)
      → Lists mem f size xs
      → (a : ℕ) → 0 < occ a xs
      → (b == a) ≡ false
      → set_prev f.next (some b) mem a ≡ node_at size (b ∷ xs) a
  pushed b xs (first, len, linked) a i other =
      let old = linked a i in
      let next : (mem a).next ≡ next_in a (b ∷ xs) = rw other (ap (λ (n : Node). n.next) old) in
      let level : (mem a).level_size ≡ some size = ap (λ (n : Node). n.level_size) old in
      elim (Option_dec f.next a) [
        | inl front ↦
            set_prev_own f.next (some b) mem a front
            ∙ node_eq (record (mem a) { prev = some b }) (node_at size (b ∷ xs) a) next
                (rw other (sym (prev_in_first (some b) a xs (sym first ∙ front)))) level
        | inr later ↦
            set_prev-other f.next (some b) mem a later
            ∙ node_eq (mem a) (node_at size (b ∷ xs) a) next
                (rw other (
                  ap (λ (n : Node). n.prev) old
                  ∙ prev_in_later none (some b) a xs (λ e. later (first ∙ e))))
                level
      ]

  -- `push` of a node that is not in the list puts it in front, marked with the size.
  pub push-Lists :
      (b : ℕ) (xs : List ℕ)
      → Lists mem f size xs
      → occ b xs ≡ 0
      → length xs + 1 < word
      → (f' : DoubleFreeList) × (mem' : Nodes) × (push f mem b size ≡ some (f', mem'))
        × Lists mem' f' size (b ∷ xs)
        × ((a : ℕ) → occ a (b ∷ xs) ≡ 0 → mem' a ≡ mem a)
  unfolding push
  push-Lists b xs (first, len, linked) out few =
      let counts : add64 f.len 1 ≡ some (f.len + 1) = ground (arith, len, few) in
      let new : Node = record { next = f.next; prev = none; level_size = some size } in
      let mem₁ = set_prev f.next (some b) mem in
      let mem' = write mem₁ b new in
      let same : (b == b) ≡ true = ground arith in
      let own : mem' b ≡ node_at size (b ∷ xs) b =
        write_self mem₁ b new
        ∙ node_eq new (node_at size (b ∷ xs) b) (rw same first) (rw same refl) refl in
      (
        record { next = some b; len = f.len + 1 },
        mem',
        rw counts refl,
        (
          refl,
          omega (arith, len),
          λ a i. elim (Bool-cases (b == a)) [
            | inl here ↦
                let at : b ≡ a = ground (arith, here) in
                subst (λ (z : ℕ). mem' z ≡ node_at size (b ∷ xs) z) at own
            | inr other ↦
                write-other mem₁ b a new (λ e. ground (arith, e, other))
                ∙ pushed b xs (first, len, linked) a (ground (arith, i, other)) other
          ],
        ),
        λ a i.
            write-other mem₁ b a new (λ e. let o : occ a (b ∷ xs) ≢ 0 = rw e (ground arith) in o i)
            ∙ set_prev-other f.next (some b) mem a
                (λ e. let o = head-occ a xs (sym first ∙ e) in omega (arith, o, i)),
      )

  -- The other nodes, once the first has been taken off.
  popped :
      (x : ℕ) (xs : List ℕ)
      → IsLinked mem size (x ∷ xs)
      → (a : ℕ) → 0 < occ a xs
      → (x == a) ≡ false
      → set_prev (head xs) none mem a ≡ node_at size xs a
  popped x xs linked a i other =
      let old = linked a (omega (arith, i)) in
      let next : (mem a).next ≡ next_in a xs = ap (λ (n : Node). n.next) old ∙ rw other refl in
      let prev : (mem a).prev ≡ prev_in (some x) a xs =
        ap (λ (n : Node). n.prev) old ∙ rw other refl in
      let level : (mem a).level_size ≡ some size = ap (λ (n : Node). n.level_size) old in
      elim (Option_dec (head xs) a) [
        | inl front ↦
            set_prev_own (head xs) none mem a front
            ∙ node_eq (record (mem a) { prev = none }) (node_at size xs a) next
                (sym (prev_in_first none a xs front)) level
        | inr later ↦
            set_prev-other (head xs) none mem a later
            ∙ node_eq (mem a) (node_at size xs a) next
                (prev ∙ prev_in_later (some x) none a xs later) level
      ]

  -- `pop` takes the first node off, and clears its mark.
  pub pop-Lists :
      (x : ℕ) (xs : List ℕ)
      → Lists mem f size (x ∷ xs)
      → occ x xs ≡ 0
      → (f' : DoubleFreeList) × (mem' : Nodes) × (pop f mem ≡ some (some x, f', mem'))
        × Lists mem' f' size xs
        × (mem' x ≡ cleared)
        × ((a : ℕ) → occ a (x ∷ xs) ≡ 0 → mem' a ≡ mem a)
  unfolding pop pop_node
  pop-Lists x xs (first, len, linked) out =
      let counts : sub64 f.len 1 ≡ some (f.len - 1) = ground (arith, len) in
      let self : (x == x) ≡ true = ground arith in
      let next : (mem x).next ≡ head xs =
        ap (λ (n : Node). n.next) (linked x (ground (arith, self))) ∙ rw self refl in
      let mem₁ = set_prev (head xs) none mem in
      let mem' = write mem₁ x cleared in
      (
        record { next = head xs; len = f.len - 1 },
        mem',
        rw first (rw counts (rw next refl)),
        (
          refl,
          omega (arith, len),
          λ a i.
              let other : (x == a) ≡ false = ground (arith, i, out) in
              write-other mem₁ x a cleared (λ e. ground (arith, e, other))
              ∙ popped x xs linked a i other,
        ),
        write_self mem₁ x cleared,
        λ a i.
            write-other mem₁ x a cleared
              (λ e. let o : occ a (x ∷ xs) ≢ 0 = rw e (ground arith) in o i)
            ∙ set_prev-other (head xs) none mem a
                (λ e. let o = head-occ a xs e in omega (arith, o, i)),
      )

  pub pop_empty : Lists mem f size [] → pop f mem ≡ some (none, f, mem)
  unfolding pop pop_node
  pop_empty (first, len, linked) = rw first refl
