-- ===== src/Mlfq/Tests.antt =====
-- Concrete processors and process tables, on which the definitions run.
mod Scheduling
mod Processes
mod Queueing
use operating_system.Common.{ℕ, ◌≡◌, refl, true, false, none, some, List, [], ◌∷◌, ℤ, pos, ok}
use operating_system.Mlfq.Spinlock.{Cpu, tickslock}
use operating_system.Mlfq.Proc.{
  Proc, Kernel, Procstate, sleeping, runnable, running, zombie, unused, null, in_forkret,
}

abbrev pub cpu0 : Cpu
cpu0 = record { ncli = 0; intena = false; interrupts = true; held = []; proc = none }

abbrev pub proc : ℤ → Procstate → ℕ → ℤ → ℤ → Proc
proc pid state qlev seq priority = record {
  sz = 4096;
  pgdir = 0x1000;
  kstack = 0x2000;
  state = state;
  pid = pid;
  parent = some 0;
  tf = record {
    eax = 5;
    eip = 0;
    esp = 0;
    eflags = 0;
    cs = 0;
    ss = 0;
    ds = 0;
    es = 0;
    trapno = 0;
    rest = [];
  };
  context = record { caller = in_forkret; saved_intena = false };
  chan = null;
  killed = false;
  ofile = some 1 ∷ none ∷ [];
  cwd = some 1;
  name = 115 ∷ 104 ∷ 0 ∷ [];
  qlev = qlev;
  seq = seq;
  tick = pos 0;
  priority = priority;
}

abbrev pub kernel : List Proc → Kernel
kernel ps = record {
  procs = ps;
  queues = record {
    l0_cnt = pos 3;
    l1_cnt = pos 0;
    l2_cnt = pos 0;
    l3_cnt = pos 2;
    moq_active = false;
    moq_sz = pos 0;
    moq_cnt = pos 0;
  };
  initproc = some 0;
  nextpid = pos 5;
  ticks = 7;
  global_tick = 7;
  cpu = cpu0;
  first = false;
  calls = [];
}

-- Two processes in L3; the second has the higher priority. A third sleeps in L0.
abbrev pub waiting : Kernel
waiting = kernel (
    proc (pos 1) runnable 3 (pos 0) (pos 2)
    ∷ proc (pos 2) runnable 3 (pos 1) (pos 9)
    ∷ proc (pos 3) sleeping 0 (pos 0) (pos 0)
    ∷ [])

-- The running process, outside every critical section.
abbrev pub me : Proc
me = record (proc (pos 2) running 0 (pos 1) (pos 0)) { tick = pos 1 }

abbrev pub child : Proc
child = record (proc (pos 3) runnable 2 (pos 0) (pos 0)) { parent = some 1 }

abbrev pub monopolist : Proc
monopolist = proc (pos 4) runnable 4 (pos 0) (pos 0)

abbrev pub table : List Proc
table =
    proc (pos 1) sleeping 0 (pos 0) (pos 0)
    ∷ me
    ∷ child
    ∷ monopolist
    ∷ proc (pos 0) unused 0 (pos 0) (pos 0)
    ∷ []

abbrev pub busy : Kernel
busy = record (kernel table) {
  cpu = record cpu0 { proc = some 1 };
  queues = record ((kernel table).queues) { moq_sz = pos 1; moq_cnt = pos 1 };
}

-- A child of the running process is a zombie.
abbrev pub bereaved : Kernel
bereaved = record busy {
  procs = proc (pos 1) sleeping 0 (pos 0) (pos 0) ∷ me ∷ record child { state = zombie } ∷ [];
}

-- The running process is inside the critical section of tickslock.
abbrev pub locking : Kernel
locking = record busy {
  cpu = record cpu0 {
    proc = some 1;
    ncli = 1;
    intena = true;
    interrupts = false;
    held = tickslock ∷ [];
  };
}

-- The tick before a boost.
abbrev pub late : Kernel
late = record busy { global_tick = 99 }

-- The monopoly mode, with one process in its queue and with none.
abbrev pub monopoly : Kernel
monopoly = record busy { cpu = cpu0; queues = record (busy.queues) { moq_active = true } }

abbrev pub monopoly_over : Kernel
monopoly_over = record waiting { queues = record (waiting.queues) { moq_active = true } }
