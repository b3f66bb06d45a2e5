-- ===== src/Memory/DoubleFreeList/Removal.antt =====
-- `DoubleFreeList::remove` on the sequence that a list stands for.
use locos.Prelude.{
  ℕ, ◌+◌, ◌-◌, ◌<◌, ◌≡◌, ◌≢◌, sym, ap, ◌∙◌, arith, Option, none, some, List, ◌==◌, inl, inr, true,
  sub64,
}
use locos.Memory.FreeList.Chain.{occ, IsDistinct}
use locos.Memory.DoubleFreeList.{
  Node, Nodes, write, cleared, set_prev, set_next, DoubleFreeList, head_without, unlinked, remove,
}
use locos.Memory.DoubleFreeList.Order.{
  head, next_in, prev_in, delete, next_in-occ, prev_in-occ, occ-delete, length-delete, next-of_prev,
  prev-of_next, next_in-delete_before, next_in-delete_other, prev_in-delete_after,
  prev_in-delete_other, head-delete,
}
use locos.Memory.DoubleFreeList.Writes.{
  write_self, write-other, set_prev-other, set_prev_own, set_next-other, set_next_own, Option_dec,
  set_next_prev, set_next_level, node_eq,
}
use locos.Memory.DoubleFreeList.Linked.{node_at, IsLinked, Lists}

module _ (mem : Nodes) (f : DoubleFreeList) (size : ℕ) where
  -- The other nodes, once the neighbours of a node point past it.
  bypassed :
      (b : ℕ) (xs : List ℕ)
      → IsLinked mem size xs
      → IsDistinct xs
      → 0 < occ b xs
      → (a : ℕ) → 0 < occ a xs
      → a ≢ b
      → let n = node_at size xs b in
        set_prev n.next n.prev (set_next n.prev n.next mem) a ≡ node_at size (delete b xs) a
  bypassed b xs linked apart inside a i ne =
      let n = node_at size xs b in
      let mem₁ = set_next n.prev n.next mem in
      let old = linked a i in
      -- the node after its `next` was set
      let step : (mem₁ a).next ≡ next_in a (delete b xs) = next_step b xs linked apart a i ne in
      let kept : (mem₁ a).prev ≡ prev_in none a xs =
        set_next_prev n.prev n.next mem a ∙ ap (λ (y : Node). y.prev) old in
      let level : (mem₁ a).level_size ≡ some size =
        set_next_level n.prev n.next mem a ∙ ap (λ (y : Node). y.level_size) old in
      elim (Option_dec n.next a) [
        | inl after ↦
            set_prev_own n.next n.prev mem₁ a after
            ∙ node_eq (record (mem₁ a) { prev = n.prev }) (node_at size (delete b xs) a) step
                (sym (
                  prev_in-delete_after b a ne none xs apart (prev-of_next none a b xs apart after)
                    (λ e. absurd cc)))
                level
        | inr apart_from ↦
            set_prev-other n.next n.prev mem₁ a apart_from
            ∙ node_eq (mem₁ a) (node_at size (delete b xs) a) step
                (kept
                  ∙ sym (
                      prev_in-delete_other b a ne none xs
                        (λ e. apart_from (next-of_prev none a b xs apart e (λ g. absurd cc)))))
                level
      ]
    where
      next_step :
          (b : ℕ) (xs : List ℕ)
          → IsLinked mem size xs
          → IsDistinct xs
          → (a : ℕ) → 0 < occ a xs
          → a ≢ b
          → let n = node_at size xs b in
            (set_next n.prev n.next mem a).next ≡ next_in a (delete b xs)
      next_step b xs linked apart a i ne =
          let n = node_at size xs b in
          elim (Option_dec n.prev a) [
            | inl before ↦
                ap (λ (x : Node). x.next) (set_next_own n.prev n.next mem a before)
                ∙ sym (
                    next_in-delete_before b a ne xs apart
                      (next-of_prev none b a xs apart before (λ g. absurd cc)))
            | inr away ↦
                ap (λ (x : Node). x.next) (set_next-other n.prev n.next mem a away ∙ linked a i)
                ∙ sym
                    (next_in-delete_other b a ne xs (λ e. away (prev-of_next none b a xs apart e)))
          ]

  -- `remove` of a node of the list takes it out of the sequence, wherever it stands, and clears its
  -- mark; it writes to nodes of the list only.
  pub remove-Lists :
      (b : ℕ) (xs : List ℕ)
      → Lists mem f size xs
      → IsDistinct xs
      → 0 < occ b xs
      → (f' : DoubleFreeList) × (mem' : Nodes) × (remove f mem b ≡ some (f', mem'))
        × Lists mem' f' size (delete b xs)
        × (mem' b ≡ cleared)
        × ((a : ℕ) → occ a xs ≡ 0 → mem' a ≡ mem a)
  unfolding remove
  remove-Lists b xs (first, len, linked) apart inside =
      let counts : sub64 f.len 1 ≡ some (f.len - 1) =
        ground (arith, len, length-delete b xs inside) in
      let at = linked b inside in
      let n = node_at size xs b in
      let mem₁ = set_prev n.next n.prev (set_next n.prev n.next mem) in
      let mem' = write mem₁ b cleared in
      let done : unlinked mem b ≡ mem' =
        ap (λ (x : Node). write (set_prev x.next x.prev (set_next x.prev x.next mem)) b cleared)
          at in
      let front : head_without f.next (mem b) ≡ head (delete b xs) =
        ap (λ (x : Node). head_without f.next x) at
        ∙ ap (λ (h : Option ℕ). head_without h n) first
        ∙ sym (head-delete b xs apart inside) in
      (
        record { next = head_without f.next (mem b); len = f.len - 1 },
        mem',
        rw counts (
            ap
              (λ (x : Nodes).
                some (record { next = head_without f.next (mem b); len = f.len - 1 }, x))
              done),
        (
          front,
          omega (arith, len, length-delete b xs inside),
          λ a i.
              let counted = occ-delete b a xs inside in
              let ne : a ≢ b = λ e.
                let same : (b == a) ≡ true = ground (arith, e) in
                let left : occ a (delete b xs) + 1 ≡ occ a xs = rw same at counted in
                omega (arith, left, i, apart a) in
              write-other mem₁ b a cleared ne
              ∙ bypassed b xs linked apart inside a (omega (arith, i, counted)) ne,
        ),
        write_self mem₁ b cleared,
        λ a i.
            write-other mem₁ b a cleared
              (λ e. let o : 0 < occ a xs = rw e inside in omega (arith, o, i))
            ∙ set_prev-other n.next n.prev (set_next n.prev n.next mem) a
                (λ e. let o = next_in-occ a b xs e in omega (arith, o, i))
            ∙ set_next-other n.prev n.next mem a (λ e. elim (prev_in-occ none b a xs e) [
              | inl nothing ↦ absurd cc
              | inr o ↦ omega (arith, o, i)
            ]),
      )
