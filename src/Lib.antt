-- ===== src/Lib.antt =====
-- The kernel of locOS: memory, tasks, the keyboard and the windows of PCI devices.
--
-- The kernel is single-core Rust. Its parts share global state behind locks; here each part is a
-- record, and an operation is a function from the record, and from what else it reads, to the record
-- after it. An outer `none` is a panic: a failed assertion, an `unwrap` of nothing, an index out of
-- bounds, or an overflow of the machine's arithmetic, which panics in the `dev` profile that the
-- kernel is built with. A `Result` of the source is a `Result` here. Locks, logging and TLB flushes
-- are left out.
--
-- Prelude: numbers, lists and single bits, and the arithmetic and the sequence functions of the Rust
--   library that the kernel calls.
-- Memory/Mapper: a record of what the kernel calls of the crate `x86_64` and of the frame allocator;
--   every definition that maps pages takes it as a parameter. Memory/Mapper/Laws has the documented
--   behaviour of `map_to` as a hypothesis, Memory/Mapper/Simple page tables for the tests.
-- Memory/PageAllocator: kernel/src/memory/alloc.rs, `PageAllocator`. A pointer is its address, a free
--   list its addresses from front to back. Valid has the invariant, Level the choice of a level,
--   Alloc and Free a request and a return of one block, Undo a request and then the return, Merged
--   the pairs of halves that are free, History any sequence of them, Pages the methods that map the
--   pages too. Memory/Blocks and Memory/Powers carry the facts on blocks.
--   `levels` bounds every loop, so no fuel is needed; `next_power_of_two` has the 64 doublings of a
--   machine word.
-- Memory/FreeList: kernel/src/memory/freelist.rs, `FreeList`. Memory is a function from the address of
--   a node to its `next` field; a walk of a list has fuel. Chain and Removal relate a list in memory
--   to the sequence of its nodes, Chains several lists that share memory.
-- Memory/BuddyAlloc: kernel/src/memory/alloc.rs, `BuddyAlloc`, the kernel heap, whose free blocks are
--   the nodes of its free lists. `Heap` is the allocator with the memory, `Params` the constants `L`
--   and `S` and the fuel; 2 ^ (L - 1), the number of the smallest blocks, is enough (Count). Valid has
--   the invariant, Level the choice of a level, Alloc and Free a request and a return of one block,
--   Layouts `alloc` and `dealloc`, History any sequence of them and of writes by their users, and
--   Contract what a user of an allocator relies on, without levels and lists.
-- Memory/DoubleFreeList: kernel/src/memory/freelist.rs, `DoubleFreeList`, over a function from the address
--   of a node to its links and its mark. Order is about neighbours in a sequence, Linked and Removal
--   about one list, Table about the lists of all levels.
-- Memory/FrameAllocator: kernel/src/memory/paging.rs, `FrameBuddyAllocator`. `Frames` is the allocator with
--   the page list. Valid has the invariant, for an allocator that shares its page list with no other
--   one; Push, Alloc, Free and Start are about its operations, Tests has runs of two
--   allocators on one page list.
-- Memory/Forest: kernel/src/memory/paging.rs, `FrameBuddyAllocatorForest`: the cutting of a region into
--   allocators, with the places left in the array of their configurations, and the choice of one.
-- Tasks/KernelSlab: kernel/src/tasks/kernelslab.rs. The bitmap is a number below 2 ^ 128; Bitmap reads
--   its trailing ones, Stacks is about `get_stack` and `return_stack`, Reuse about both in turn.
-- Tasks/Scheduler: kernel/src/tasks/scheduler.rs. `World` has the task list, the stack allocator, the
--   frames, and the registers that a switch of tasks writes. A timer interrupt is `schedule_inner` on
--   the registers of the interrupted task. Rotation is about the order of the tasks, Exit about their
--   end, PageTables about the frames that the end of a user task frees, UserTask about the creation of
--   user tasks, Growth about page faults on the user stack, Invariant about any order of all of these
--   after any creations of tasks before `kinit_multitasking`.
-- Ps2/Keyboard: kernel/src/ps2/keyboard.rs. ScanCodes, Characters and Decode are the tables, Keyboard
--   the driver, Buffer its input buffer and modifier keys, Typing the character of a waiting event.
--   The status port and the data port are the sequence of bytes that the controller holds.
-- Ps2/Controller, Ps2/Init: kernel/src/ps2.rs, and `init` of kernel/src/ps2/keyboard.rs, over two ports
--   that are a parameter. The polling loops have no bound in the source; here they have fuel, and
--   with a controller that is always ready (Controller/Dialog) one poll is enough for an access.
-- Pci/Vmm: kernel/src/pci/vmm.rs, the windows of device memory. Search is about `find_free_pages`,
--   Bitmap about the bits of a range, Mapping about `map_memory_bar` and `unmap_bar`. The page table
--   and the frame allocator are taken to be set up.
-- Pci/Dma: kernel/src/pci/dma.rs, the pool of DMA buffers.
-- Pci/Mcfg: kernel/src/pci/mcfg.rs, the regions of PCIe configuration space, and the mapping of all of
--   them in `PciManager::init` of kernel/src/pci.rs. Registers is about the addresses of registers,
--   Windows about the windows of the regions. `NEXT_ECAM_VIRT` is passed from call to call. The ACPI
--   table is the list of its entries; the volatile access at an address is left out.
--
-- Not modelled: the rest of the set-up of the frame allocators, the devices and capabilities of PCI,
-- NVMe, USB and system calls; nor the output, the boot code and the tables of the processor, which
-- only access hardware.
pub mod Prelude
pub mod Memory
pub mod Tasks
pub mod Ps2
pub mod Pci
