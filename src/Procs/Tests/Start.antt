-- ===== src/Procs/Tests/Start.antt =====
-- ex_project3/HYU-ELE3021/xv6-public/proc.c: an empty process table, before pinit.
use operating_system.Common.{refl, true, false, none, [], replicate, pos, ok, panic, fault, M}
use operating_system.Mlfq.Proc.{Trapframe, unused}
use operating_system.Stride.State.{Proc}
use operating_system.Stride.Queues.{mlfq_init, next}
use operating_system.Stride.Turns.{Locals}
use operating_system.Stride.Fixed.{fixed}
use operating_system.Procs.State.{pointer, in_forkret, Thread, Rest, Kernel}
use operating_system.Procs.Steps.{Blank}

abbrev pub frame : Trapframe
frame = record {
  eax = 0;
  eip = 0;
  esp = 4096;
  eflags = 512;
  cs = 27;
  ss = 35;
  ds = 35;
  es = 35;
  trapno = 64;
  rest = [];
}

abbrev pub blank_thread : Thread
blank_thread = record {
  tid = pos 0;
  chan = pointer 0;
  kstack = 0;
  tf = frame;
  context = record { caller = in_forkret; saved_intena = false };
  retval = 0;
}

abbrev pub blank_rest : Rest
blank_rest = record {
  sz = 0;
  pgdir = 0;
  pid = pos 0;
  parent = none;
  ofile = replicate 16 none;
  cwd = none;
  name = replicate 16 0;
  thread = λ t. blank_thread;
  kstacks = λ t. 0;
  ustacks = λ t. 0;
}

abbrev pub blank_proc : Proc
blank_proc = record {
  threads = replicate 16 unused;
  tidx = 0;
  state = unused;
  killed = false;
  level = pos 0;
  index = 0;
  elapsed = 0;
  start = 0;
}

abbrev pub k0 : Kernel fixed
k0 = record {
  sched = mlfq_init fixed (λ p. blank_proc);
  more = λ p. blank_rest;
  next_pid = pos 1;
  next_tid = pos 1;
  initproc = none;
  cpu = record { ncli = 0; intena = false; interrupts = true; held = []; proc = none };
  calls = [];
  writes = [];
}

abbrev pub v0 : Locals
v0 = record { keep_it = next; cur = none; idx = 0; boost = 200; boostunit = 200 }

pub k0-Blank : Blank k0 v0
unfolding mlfq_init
k0-Blank = record { all_unused = λ p b. refl; no_proc = refl; no_cur = refl }

-- The state in which a computation ends that returns.
abbrev pub after_run : {A : Type 0} → M (Kernel fixed) A → Kernel fixed → Kernel fixed
after_run m k = elim (m k) [ ok (a, r) ↦ r | panic e ↦ k | fault ↦ k ]
