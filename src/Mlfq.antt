-- ===== src/Mlfq.antt =====
-- xv6-public_project02: the kernel with the multi-level feedback queue and the monopoly queue.
pub mod Spinlock
pub mod Level
pub mod Proc
pub mod Scheduler
pub mod Switch
pub mod Queue
pub mod Life
pub mod Exit
pub mod Trap
mod Tests
