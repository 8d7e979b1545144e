-- ===== src/Cow.antt =====
-- xv6-public_project04: the kernel with copy-on-write fork and reference counts of physical pages.
pub mod Layout
pub mod Memory
pub mod Kalloc
pub mod Vm
pub mod Share
pub mod Counters
pub mod User
mod Tests
