-- ===== src/Pci/Dma/Pool.antt =====
-- Taking a buffer from the pool and giving it back.
use locos.Prelude.{
  ℕ, zero, suc, ◌+◌, ◌==◌, ◌≡◌, ◌≢◌, refl, sym, ap, arith, true, false, Option, some, >>=-eq-some,
  some_injective, List, [], ◌∷◌, get_elem?, All,
}
use locos.Pci.Dma.{
  DmaBuffer, DmaPool, take_buffer, allocate_buffer, index_from, push_index, free_buffer,
}

-- The buffers have different addresses.
abbrev pub IsApart : List DmaBuffer → Type 0
IsApart [] = Unit
IsApart (b ∷ rest) = All (λ c. c.virt_addr ≢ b.virt_addr) rest × IsApart rest

All-get_elem? :
    (addr i : ℕ) (bs : List DmaBuffer) (b : DmaBuffer)
    → All (λ c. c.virt_addr ≢ addr) bs
    → get_elem? bs i ≡ some b
    → b.virt_addr ≢ addr
All-get_elem? addr i [] b h e = absurd (ground arith)
All-get_elem? addr zero (c ∷ bs) b h e = let same = some_injective c b e in rw (← same) h.0
All-get_elem? addr (suc i) (c ∷ bs) b h e = All-get_elem? addr i bs b h.1 e

index_from-get_elem? :
    (k i : ℕ) (bs : List DmaBuffer) (b : DmaBuffer)
    → IsApart bs
    → get_elem? bs i ≡ some b
    → index_from k b.virt_addr bs ≡ some (k + i)
unfolding index_from
index_from-get_elem? k i [] b apart e = absurd (ground arith)
index_from-get_elem? k zero (c ∷ bs) b apart e =
    let same = some_injective c b e in
    let own : (c.virt_addr == b.virt_addr) ≡ true = rw same (ground arith) in
    let at : k ≡ k + 0 = omega arith in rw own (ap some at)
index_from-get_elem? k (suc i) (c ∷ bs) b apart e =
    let ne = All-get_elem? c.virt_addr i bs b apart.0 e in
    let other : (c.virt_addr == b.virt_addr) ≡ false = ground (arith, ne) in
    let at : k + 1 + i ≡ k + suc i = omega arith in
    rw other (rw (← at) (index_from-get_elem? (k + 1) i bs b apart.1 e))

pushed-taken :
    (p p' : DmaPool) (b : DmaBuffer) (free : List ℕ)
    → IsApart p.buffers
    → p.free_buffers ≡ free
    → take_buffer p free ≡ some (some b, p')
    → push_index p' (index_from 0 b.virt_addr p'.buffers) ≡ p
unfolding take_buffer push_index
pushed-taken p p' b [] apart e h = absurd (ground arith)
pushed-taken p p' b (i ∷ rest) apart e h =
    let (c, at, h') =
      >>=-eq-some (get_elem? p.buffers i)
        (λ (buffer : DmaBuffer). some (some buffer, record p { free_buffers = rest })) h in
    let pair = some_injective (some c, record p { free_buffers = rest }) (some b, p') h' in
    let same : c ≡ b = some_injective c b (ap (λ (r : Option DmaBuffer × DmaPool). r.0) pair) in
    let after : record p { free_buffers = rest } ≡ p' =
      ap (λ (r : Option DmaBuffer × DmaPool). r.1) pair in
    let found : index_from 0 b.virt_addr p.buffers ≡ some i =
      let zero_add : 0 + i ≡ i = omega arith in
      rw zero_add at (index_from-get_elem? 0 i p.buffers b apart (rw same at at)) in
    rw (← after)
      (rw found (ap {B = DmaPool} (λ (f : List ℕ). record p { free_buffers = f }) (sym e)))

-- A buffer that the pool gave, given back at once, leaves the pool as it was, if the buffers have
-- different addresses.
pub free_buffer-allocate_buffer :
    (p p' : DmaPool) (b : DmaBuffer)
    → IsApart p.buffers
    → allocate_buffer p ≡ some (some b, p')
    → free_buffer p' b ≡ p
unfolding allocate_buffer free_buffer
free_buffer-allocate_buffer p p' b apart h = pushed-taken p p' b p.free_buffers apart refl h
