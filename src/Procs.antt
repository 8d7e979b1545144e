-- ===== src/Procs.antt =====
-- ex_project3/HYU-ELE3021/xv6-public/proc.c: processes with threads, over the scheduler of mlfq.c.
pub mod State
pub mod Switch
pub mod Life
pub mod Exit
pub mod Pool
pub mod Alike
pub mod Quiet
pub mod Calls
pub mod Invariant
pub mod Changes
pub mod Births
pub mod Forks
pub mod Ends
pub mod Waits
pub mod Round
pub mod Scheduling
pub mod Steps
pub mod Cycle
pub mod Failures
pub mod ForkFailure
pub mod Still
pub mod Waking
pub mod Join
pub mod Return
mod Tests
