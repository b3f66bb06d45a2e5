-- ===== src/Memory.antt =====
-- kernel/src/memory/: the allocators of the kernel.
pub mod Blocks
pub mod Powers
pub mod Mapper
pub mod PageAllocator
pub mod FreeList
pub mod Count
pub mod DoubleFreeList
pub mod BuddyAlloc
pub mod FrameAllocator
pub mod Forest
