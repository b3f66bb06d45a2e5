-- ===== src/Pci/Dma/Tests.antt =====
-- The pool at two buffers.
use locos.Prelude.{ℕ, ◌+◌, ◌≡◌, refl, arith, some, List, [], ◌∷◌}
use locos.Pci.Dma.{DmaBuffer, DmaPool, take_buffer, allocate_buffer, free_buffer}
use locos.Pci.Dma.Pool.{free_buffer-allocate_buffer}

abbrev buffer : ℕ → DmaBuffer
buffer a = record { phys_addr = a; virt_addr = a + 0x100000; size = 1 }

abbrev pool : List ℕ → DmaPool
pool free = record {
  buffers = buffer 0x1000 ∷ buffer 0x2000 ∷ [];
  free_buffers = free;
  buffer_size = 1;
}

gives : allocate_buffer (pool (1 ∷ 0 ∷ [])) ≡ some (some (buffer 0x2000), pool (0 ∷ []))
unfolding allocate_buffer take_buffer
gives = refl

free_buffer-allocate_buffer_example :
    free_buffer (pool (0 ∷ [])) (buffer 0x2000) ≡ pool (1 ∷ 0 ∷ [])
free_buffer-allocate_buffer_example =
    free_buffer-allocate_buffer (pool (1 ∷ 0 ∷ [])) (pool (0 ∷ [])) (buffer 0x2000)
      (((λ e. ground arith), tt), (tt, tt)) gives
