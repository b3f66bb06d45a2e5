-- ===== src/Tasks.antt =====
-- kernel/src/tasks: kernel stacks and the scheduler.
pub mod KernelSlab
pub mod Scheduler
