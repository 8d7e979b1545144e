-- ===== src/Threads.antt =====
-- xv6-public_project03: the kernel with several threads in a process.
pub mod State
pub mod Group
pub mod Create
pub mod Join
pub mod Turns
mod Tests
