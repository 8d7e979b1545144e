-- ===== src/Threads/Tests.antt =====
-- A process with a running thread and a zombie, and the theorems on it.
use operating_system.Common.{ℕ, ℤ, pos, [], ◌∷◌, refl, arith, some, none, true, false, ◌≡◌, ok}
use operating_system.Mlfq.Proc.{Procstate, unused, in_forkret, runnable, running, zombie}
use operating_system.Threads.Create.{find_thread, thread_create}
use operating_system.Threads.Create.Started.{created, thread_create-started}
use operating_system.Threads.Group.{set_proc_state}
use operating_system.Threads.Group.Laws.{group_state, set_proc_state-group_state}
use operating_system.Threads.Join.Laws.{JoinOutcome, thread_join_outcomes}
use operating_system.Threads.Turns.{find_next, find_ready}
use operating_system.Threads.State.{Pthread, Process, Kernel}

abbrev thread : ℤ → Procstate → Pthread
thread tid state = record {
  kstack = 0x4000;
  state = state;
  tid = tid;
  tf = record { esp = 0; eip = 0; rest = [] };
  context = record { caller = in_forkret; saved_intena = false };
  chan = 0;
  retval = 42;
  tidx = 0;
}

abbrev spare : Pthread
spare = thread (pos 0) unused

abbrev group : Process
group = record {
  sz = 0x3000;
  pgdir = 0x1000;
  state = running;
  pid = pos 2;
  parent = some 0;
  killed = false;
  ofile = [];
  cwd = none;
  name = 0 ∷ [];
  on_tidx = 0;
  pth = thread (pos 1) running ∷ thread (pos 2) zombie ∷ [];
  kstacks = 0x4000 ∷ 0x4000 ∷ [];
  ustacks = 0x2000 ∷ 0x3000 ∷ [];
}

abbrev kernel : Kernel
kernel = record {
  procs = group ∷ [];
  next_tid = pos 3;
  cpu = record { ncli = 0; intena = false; interrupts = true; held = []; proc = some 0 };
  writes = [];
}

-- The same with a third thread, which is unused and has left its stack.
abbrev roomy : Process
roomy = record group {
  pth = thread (pos 1) running ∷ thread (pos 2) zombie ∷ spare ∷ [];
  kstacks = 0x4000 ∷ 0x4000 ∷ 0 ∷ [];
  ustacks = 0x2000 ∷ 0x3000 ∷ 0x2800 ∷ [];
}

abbrev roomy_kernel : Kernel
roomy_kernel = record kernel { procs = roomy ∷ [] }

abbrev grow : ℕ → ℕ → ℕ
grow old new = new

set_proc_state-group_state_example :
    set_proc_state group ≡ record group { state = group_state group.pth }
set_proc_state-group_state_example = set_proc_state-group_state group

thread_join_outcomes_example : JoinOutcome kernel 0 group (thread (pos 1) running) (pos 2)
thread_join_outcomes_example =
    thread_join_outcomes kernel 0 group (thread (pos 1) running) (pos 2)
      (record { current = refl; entry = refl; thread = refl; depth = refl; free = refl })

thread_create-started_example :
    thread_create 0x5000 grow 0x100 7 roomy_kernel
    ≡ ok (
      some roomy_kernel.next_tid,
      created roomy_kernel 0 roomy (thread (pos 1) running) 0x5000 grow 0x100 7 2 spare 0x2800,
    )
unfolding find_thread
thread_create-started_example =
    thread_create-started roomy_kernel 0 roomy (thread (pos 1) running) 0x5000 grow 0x100 7 2 spare
      0x2800 (record { current = refl; entry = refl; thread = refl; depth = refl; free = refl })
      refl refl (λ e. ground arith) refl (λ e. ground arith) (λ e. ground arith)

-- The second process is runnable, with its second thread.
abbrev crew : Process
crew = record group { state = runnable; pth = thread (pos 4) zombie ∷ thread (pos 5) runnable ∷ [] }

find_next-crew : find_next 0 0 (group ∷ crew ∷ []) ≡ some (1, 1)
unfolding find_next find_ready
find_next-crew = refl
