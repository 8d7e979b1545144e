-- ===== src/Procs/Tests.antt =====
-- ex_project3/HYU-ELE3021/xv6-public/proc.c on concrete tables.
mod Start
use operating_system.Common.{
  ℕ, ◌≡◌, ◌≢◌, ◌==◌, refl, true, false, none, some, [], ◌∷◌, replicate, pos, ok, panic, fault, M,
  arith, if◌then◌else◌,
}
use operating_system.Mlfq.Spinlock.{acquire, release}
use operating_system.Mlfq.Proc.{Trapframe, unused, runnable, running, sleeping}
use operating_system.Stride.State.{nproc, Proc, find_place}
use operating_system.Stride.Queues.{mlfq_init, mlfq_append, next, enqueue}
use operating_system.Stride.Turns.{Locals}
use operating_system.Stride.Fixed.{fixed}
use operating_system.Procs.State.{pointer, in_forkret, Thread, Rest, Kernel, myproc}
use operating_system.Procs.Switch.{
  to_thread, next_thread, resume, find_other, sched, wakeup1, wake_threads,
}
use operating_system.Procs.Life.{
  init_proc, number_proc, give_kstack, pinit, allocproc, userinit, fork,
}
use operating_system.Procs.Round.{begin_round}
use operating_system.Procs.Pool.{
  joined, thread_exit, find_tid, join_end, thread_join, thread_epilogue, find_in,
}
use operating_system.Procs.Invariant.{is_unused}
use operating_system.Procs.Steps.{Blank, start-Kept}
use operating_system.Procs.Cycle.{Turn, next_thread_outcomes}
use operating_system.Procs.Failures.{allocproc_twice}
use operating_system.Procs.Return.{Freed, thread_join-thread_exit}
use operating_system.Procs.Tests.Start.{
  frame, blank_thread, blank_rest, blank_proc, k0, v0, k0-Blank, after_run,
}

-- The first process has been set up.
abbrev k1 : Kernel fixed
k1 = after_run (userinit fixed 8192 4096 none) (pinit fixed k0)

-- The scheduler has switched to it.
abbrev v1 : Locals
v1 = record v0 { cur = some 0 }

abbrev k2 : Kernel fixed
k2 = after_run (begin_round fixed 5 v0) k1

-- It goes on in forkret.
abbrev k3 : Kernel fixed
k3 = after_run (resume fixed) k2

-- A fork of that process fails.
abbrev k4 : Kernel fixed
k4 = after_run (fork fixed 12288 0) k3

-- allocproc without a kernel stack, and again.
abbrev f0 : Kernel fixed
f0 = pinit fixed k0

abbrev f1 : Kernel fixed
f1 = after_run (allocproc fixed 0) f0

abbrev f2 : Kernel fixed
f2 = after_run (allocproc fixed 8192) f1

first_f0 : find_place (is_unused f0.sched) nproc 0 ≡ some 0
unfolding pinit mlfq_init find_place
first_f0 = refl

failed_f1 : allocproc fixed 0 f0 ≡ ok (none, f1)
unfolding allocproc acquire pinit find_place mlfq_init init_proc number_proc mlfq_append release
    give_kstack
failed_f1 = refl

room_f1 : f1.sched.queue 0 1 ≡ none
unfolding allocproc acquire pinit find_place mlfq_init init_proc number_proc mlfq_append release
    give_kstack enqueue
room_f1 = refl

again_f2 : allocproc fixed 8192 f1 ≡ ok (some 0, f2)
unfolding allocproc acquire pinit find_place mlfq_init init_proc number_proc mlfq_append release
    give_kstack enqueue
again_f2 = refl

allocproc_twice_example :
    (m n : ℕ) × (m ≢ n) × (f2.sched.queue 0 m ≡ some 0) × (f2.sched.queue 0 n ≡ some 0)
allocproc_twice_example =
    allocproc_twice f0 f1 f2 v0 0 1 8192 none (some 0) (start-Kept k0 v0 k0-Blank) first_f0
      failed_f1 (omega arith) room_f1 again_f2

-- Process 3 runs a thread; another one sleeps until that has ended, and a third one is runnable.
abbrev busy_proc : Proc
busy_proc = record blank_proc { threads = running ∷ sleeping ∷ runnable ∷ []; state = runnable }

abbrev busy_rest : Rest
busy_rest = record blank_rest {
  thread = λ t.
      if t == 0
      then record blank_thread { tid = pos 7 }
      else if t == 1
      then record blank_thread { tid = pos 8; chan = pointer 7 }
      else blank_thread;
}

abbrev e0 : Kernel fixed
e0 = record k0 {
  sched = record (k0.sched) { proc = λ p. if p == 3 then busy_proc else blank_proc };
  more = λ p. if p == 3 then busy_rest else blank_rest;
  cpu = record (k0.cpu) { proc = some 3 };
}

abbrev n1 : Kernel fixed
n1 = after_run (next_thread fixed 3) e0

passed_n1 : next_thread fixed 3 e0 ≡ ok (to_thread 2, n1)
unfolding next_thread acquire find_other
passed_n1 = refl

next_thread_outcomes_example :
    Turn fixed (running ∷ sleeping ∷ runnable ∷ []) 0 (to_thread 2) (n1.sched.proc 3)
next_thread_outcomes_example =
    next_thread_outcomes fixed e0 n1 3 (to_thread 2) (omega arith) passed_n1

abbrev e1 : Kernel fixed
e1 = after_run (thread_exit fixed 42) e0

left_e1 : thread_exit fixed 42 e0 ≡ ok (tt, e1)
unfolding thread_exit myproc thread_epilogue acquire sched wakeup1 wake_threads
left_e1 = refl

-- Behind the switch the processor is free again.
abbrev e2 : Kernel fixed
e2 = record e1 { cpu = k0.cpu }

abbrev e3 : Kernel fixed
e3 = after_run (thread_join fixed (pos 7)) e2

found_e2 : find_tid fixed e2 (pos 7) nproc 0 ≡ some (3, 0)
unfolding find_tid thread_exit myproc thread_epilogue acquire sched wakeup1 wake_threads find_in
found_e2 = refl

joined_e3 : thread_join fixed (pos 7) e2 ≡ ok (joined 42, e3)
unfolding thread_join acquire find_tid thread_exit myproc thread_epilogue sched wakeup1 wake_threads
    find_in join_end release
joined_e3 = refl

thread_join-thread_exit_example : (joined 42 ≡ joined 42) × Freed e3 3 0
thread_join-thread_exit_example =
    thread_join-thread_exit e0 e1 e2 e3 3 0 42 (pos 7) (joined 42) refl refl refl left_e1 refl refl
      found_e2 joined_e3
