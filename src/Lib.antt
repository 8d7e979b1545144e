-- ===== src/Lib.antt =====
-- Verification of the kernels of this repository: xv6 with a multi-level feedback queue
-- (xv6-public_project02), with threads (xv6-public_project03) and with copy-on-write fork
-- (xv6-public_project04).
--
-- The parts of xv6-public_project02, and the files that model them:
--   Mlfq/Spinlock    spinlock.c, struct cpu of proc.h: acquire, release, holding, pushcli, popcli.
--   Mlfq/Proc        proc.h and ptable of proc.c: struct proc, the counters of the queues, and the
--                    whole kernel state, the record Kernel.
--   Mlfq/Scheduler   scheduler of proc.c. `schedule` is one turn of its endless loop, up to swtch;
--                    `schedule_back` is the rest of the turn, once a process has switched back.
--                    Order, Best and Loop say what the loop over the table looks for.
--   Mlfq/Switch      sched, yield, forkret, sleep, wakeup, kill of proc.c. A function that calls sched
--                    is cut there: the half before the switch records in the process's context who
--                    called (struct Context), and `resume` runs the half behind the switch. sleep is a
--                    list of its calls and stores.
--   Mlfq/Queue       priority_boost, getlev, setpriority, setmonopoly, monopolize, unmonopolize.
--   Mlfq/Life        pinit, allocproc, growproc, fork of proc.c, safestrcpy of string.c.
--   Mlfq/Exit        exit and wait of proc.c.
--   Mlfq/Trap        the timer interrupt of trap.c: ticks, time slices, demotion, boost.
-- The parts of xv6-public_project03, in proc.c and proc.h:
--   Threads/State    struct pthread, struct proc, mypth.
--   Threads/Group    set_proc_state, wakeup, kill, which keep the state of a process and of its threads.
--   Threads/Create   thread_create, allocpth, alloc_ustack. Words stored in user memory are recorded.
--   Threads/Join     sched, yield, sleep, thread_exit, thread_join, each up to its first switch.
--   Threads/Turns    scheduler: a pass over the table, cut at its switches.
-- The parts of xv6-public_project04:
--   Cow/Layout       mmu.h and memlayout.h: constants and address arithmetic.
--   Cow/Memory       physical memory as pages of 1024 words, the free list, the reference counts.
--   Cow/Kalloc       kalloc.c: kalloc, kfree, freerange, the counts, countfp.
--   Cow/Vm           vm.c: walkpgdir, mappages, deallocuvm, freevm, clearpteu, uva2ka.
--   Cow/Share        vm.c: allocuvm, setupkvm, copyuvm, CoW_handler.
--                    Sharing, Separate and First are about a page that is shared and then written to.
--   Cow/User         vm.c: inituvm, loaduvm, copyout and countvp; readi of fs.c is an argument.
--   Cow/Counters     vm.c: countpp and countptp.
-- The scheduler of ex_project3/HYU-ELE3021/xv6-public, in mlfq.c and mlfq.h:
--   Stride/State     struct stride, struct mlfq, the parts of struct proc that mlfq.c uses, runnable.
--   Stride/Tickets   stride_init, stride_append, stride_delete, stride_update, stride_next.
--   Stride/Queues    mlfq_init, mlfq_append, mlfq_cpu_share, mlfq_delete, mlfq_update, mlfq_next,
--                    mlfq_boost, mlfq_yieldable.
--   Stride/Turns     mlfq_scheduler, a round of its loop in two parts: before_switch up to swtch, and
--                    after_switch. Selection and Rounds put the two schedulers together.
--   Stride/Invariant the invariant of the queues and the tickets; Shares, Room, Operations, Demotion,
--                    Boost, Choice and Minimum are about single functions. Moves and Frames follow the
--                    processes from place to place, Begin through a round up to swtch. Steps lets the
--                    calls follow each other in any order. Twice is about a second mlfq_cpu_share.
-- The processes and threads of ex_project3/HYU-ELE3021/xv6-public, in proc.c and proc.h, over that scheduler:
--   Procs/State      struct thread, the rest of struct proc, the variables of proc.c, myproc.
--   Procs/Switch     sched, next_thread, yield, forkret, sleep, wakeup, kill, each up to its first switch;
--                    `resume` runs the part behind the switch.
--   Procs/Life       pinit, allocproc, userinit, growproc, fork.
--   Procs/Exit       exit, wait, getlev, set_cpu_share.
--   Procs/Pool       thread_create, thread_exit, thread_epilogue, thread_join.
--   Procs/Round      a round of mlfq_scheduler with ptable.lock and the current process.
--   Procs/Invariant  the invariant that ties the entries of the table to the places of the scheduler; Alike,
--                    Quiet and Calls are about the functions that leave both alone, Changes, Births,
--                    Forks, Ends, Waits and Scheduling about the others. Steps puts them together.
--   Procs/Cycle      next_thread; Still, Waking, Join and Return: thread_exit and thread_join; Failures and
--                    ForkFailure: allocproc and fork without memory.
-- The lock of project03/pthread_lock_linux.c:
--   FilterLock       lock, unlock and thread_func as the steps of one thread, and the runs that a
--                    schedule gives. Invariant, Exclusion, Counter and Progress are about the runs.
-- Common holds Boolean tests, lists, ints and the state monad that all parts share. The modules named
-- Tests run the definitions on concrete tables and machines.
--
-- How the parts interact: the timer interrupt counts a tick of the running process and may make it
-- yield; yield, sleep and exit take ptable.lock and switch to the scheduler, which holds that lock over
-- the switch and back; wakeup, kill, wait and the calls of the queues change table entries under it.
-- The page tables take their pages from kalloc and give them back to kfree, which counts the processes
-- that map a page; the page fault handler splits a page that is shared.
--
-- Conventions. One processor. A process pointer is an index of the table. An int is an ℤ of two
-- constructors with its wrap-around in inc_int and dec_int; uint is a ℕ below 2 ^ 32, with `%`.
-- A kernel function is a state transformer with three ends: `ok` with a result and a state, `panic`
-- with the message, and `fault` for what C leaves undefined (a null process, a place outside an array).
-- In Mlfq the results of kalloc and of copyuvm are arguments of fork, and in Threads those of kalloc and
-- of allocuvm are arguments of thread_create. In Mlfq calls of the allocator, the
-- page tables and the file system are recorded in order in the field `calls`.
-- The loops of vm.c over an address space are bounded by 2 ^ 20 + 1 rounds, one more than a space of
-- 2 ^ 32 bytes has pages; copyout has a round for each byte at most. countfp takes a bound on the nodes that it visits; any bound above the length
-- of the free list gives the count.
--
-- In Stride the type float is a record of operations; the theorems name what they ask of it, namely that
-- -1 is equal to itself and not positive (FloatLaws) and that `<` is a strict weak order (OrderLaws).
-- The tables are functions from places; the loops over them visit the 64 places of NPROC, and the loop
-- of mlfq_next over a level has 65 rounds at most, one more than a level has places. sys_uptime is an
-- argument of the rounds. In Procs the loop of next_thread has as many rounds as the process has threads,
-- which is all that it takes to come back to the current one. A step of Procs/Steps is a call up to its
-- switch or a part of a round, with no interrupt inside. That is what ptable.lock gives to all of them but
-- set_cpu_share, which takes no lock: for it, it is an assumption. Nor does a step give a process that has a
-- share of the time another one; Stride/Twice says what the code does then. The memory in front of
-- mlfq.queue, which that call stores to, is that of the arrays in front of it in struct mlfq: the row -1 of
-- queue is expire.
-- In FilterLock a schedule is a list of thread numbers, so that a statement on all schedules is one on
-- all interleavings; a step makes one access to a shared variable, and all accesses come in one order,
-- which volatile alone does not give on hardware. The number of threads and of rounds is arbitrary.
--
-- Not modelled: the context switch itself and the other assembly, the translation of addresses and the
-- TLB, devices, the file system, user programs, argument fetching of system calls, the locks of kalloc.c
-- (one processor, which takes no interrupt inside them), seginit, kvmalloc, switchkvm and switchuvm of
-- vm.c (registers of the processor), fork, exit, wait and exec of xv6-public_project03, and of ex_project3
-- the traps (trap.c), cpuid and mycpu, the set-up of the file system in forkret, and procdump and mlfq_log,
-- which only print. The remaining directories hold copies of xv6 with single system calls added.
pub mod Common
pub mod Mlfq
pub mod Cow
pub mod Threads
pub mod FilterLock
pub mod Stride
pub mod Procs
