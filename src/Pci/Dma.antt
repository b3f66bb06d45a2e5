-- ===== src/Pci/Dma.antt =====
-- kernel/src/pci/dma.rs: the pool of DMA buffers. The memory of a buffer is zeroed when it is made, and
-- is no part of the model; `none` of a pool operation is an index out of bounds.
pub mod Pool
mod Tests
use locos.Prelude.{
  ℕ, zero, suc, ◌+◌, ◌-◌, ◌==◌, Option, none, some, ◌>>=◌, List, [], ◌∷◌, ◌++◌, get_elem?,
  if◌then◌else◌, steps, sub64,
}

-- `DmaBuffer`
pub record DmaBuffer : Type 0 where
  pub phys_addr : ℕ
  pub virt_addr : ℕ
  pub size : ℕ

-- `DmaPool`; the free indices are the stack of a `Vec`, here with its top first.
pub record DmaPool : Type 0 where
  pub buffers : List DmaBuffer
  pub free_buffers : List ℕ
  pub buffer_size : ℕ

-- What `allocate_buffer` does with the popped index.
pub take_buffer : DmaPool → List ℕ → Option (Option DmaBuffer × DmaPool)
take_buffer p [] = some (none, p)
take_buffer p (index ∷ rest) = do
  buffer ← get_elem? p.buffers index
  some (some buffer, record p { free_buffers = rest })

-- `DmaPool::allocate_buffer`
pub allocate_buffer : DmaPool → Option (Option DmaBuffer × DmaPool)
unfolding take_buffer
allocate_buffer p = take_buffer p p.free_buffers

-- `self.buffers.iter().position(|b| b.virt_addr == buffer.virt_addr)`, from an index on.
pub index_from : ℕ → ℕ → List DmaBuffer → Option ℕ
index_from i addr [] = none
index_from i addr (b ∷ rest) =
    let later = index_from (i + 1) addr rest in if b.virt_addr == addr then some i else later

-- What `free_buffer` does with the index, if there is one.
pub push_index : DmaPool → Option ℕ → DmaPool
push_index p none = p
push_index p (some index) = record p { free_buffers = index ∷ p.free_buffers }

-- `DmaPool::free_buffer`
pub free_buffer : DmaPool → DmaBuffer → DmaPool
unfolding index_from push_index
free_buffer p buffer = push_index p (index_from 0 buffer.virt_addr p.buffers)
