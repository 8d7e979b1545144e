-- ===== src/Stride.antt =====
-- ex_project3/HYU-ELE3021/xv6-public/mlfq.c: a feedback queue of three levels and a stride scheduler, one
-- of whose clients is the feedback queue.
pub mod State
pub mod Tickets
pub mod Queues
pub mod Turns
pub mod Places
pub mod Invariant
pub mod Frames
pub mod Moves
pub mod Shares
pub mod Room
pub mod Operations
pub mod Twice
pub mod Demotion
pub mod Boost
pub mod Choice
pub mod Minimum
pub mod Selection
pub mod Rounds
pub mod Begin
pub mod Steps
pub mod Fixed
mod Tests
