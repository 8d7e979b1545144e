-- ===== src/Procs/Life.antt =====
-- ex_project3/HYU-ELE3021/xv6-public/proc.c: pinit, allocproc, userinit, growproc and fork. What kalloc,
-- setupkvm, copyuvm, allocuvm and deallocuvm return is an argument, with 0 for their failure.
use operating_system.Common.{
  ℕ, ◌+◌, ◌%◌, ◌^◌, ◌==◌, ltb, false, not, ◌&&◌, Option, none, some, List, [], ◌∷◌, map,
  if◌then◌else◌, ℤ, pos, negsuc, eqb_ℤ, ltb_ℤ, to_u32, inc_int, pure, crash, stop, ◌>>=◌, ◌>>◌,
  modify, get, update, branch,
}
use operating_system.Mlfq.Spinlock.{ptable_lock}
use operating_system.Mlfq.Proc.{
  Trapframe, unused, embryo, runnable, eqb_Procstate, kfree, filedup, idup, switchuvm,
}
use operating_system.Mlfq.Life.{safestrcpy, dup_files, file_calls}
use operating_system.Stride.State.{Float, nproc, find_place}
use operating_system.Stride.Queues.{mlfq_init, mlfq_append}
use operating_system.Procs.State.{
  in_forkret, Rest, Kernel, Kern, on_sched, lock, unlock, call, proc_of, put_proc, rest_of,
  put_rest, thread_of, put_thread, put_state, myproc, nthread,
}

abbrev pub no_stacks : (ℕ → ℕ) → ℕ → ℕ
no_stacks f t = if ltb t nthread then 0 else f t

-- The trap frame of the first process: all zero but for the segments, FL_IF and the stack.
abbrev pub first_frame : Trapframe → Trapframe
first_frame tf = record {
  eax = 0;
  eip = 0;
  esp = 4096;
  eflags = 512;
  cs = 27;
  ss = 35;
  ds = 35;
  es = 35;
  trapno = 0;
  rest = map (λ x. 0) tf.rest;
}

-- The bytes of the string "initcode".
abbrev pub initcode : List ℕ
initcode = 105 ∷ 110 ∷ 105 ∷ 116 ∷ 99 ∷ 111 ∷ 100 ∷ 101 ∷ []

module _ (fl : Float) where
  unfoldable pub pinit : Kernel fl → Kernel fl
  pinit k = record k { sched = mlfq_init fl k.sched.proc }

  -- allocproc behind its critical section.
  unfoldable pub give_kstack : ℕ → ℕ → Kern fl (Option ℕ)
  give_kstack kstack p = do
    r ← rest_of fl p
    put_rest fl p (record r {
      kstacks = update (no_stacks r.kstacks) 0 kstack;
      ustacks = no_stacks r.ustacks;
    })
    branch (kstack == 0)
        (do
          q ← proc_of fl p
          put_proc fl p (record q { state = unused })
          put_state fl p 0 unused
          pure none)
        (do
          th ← thread_of fl p 0
          put_thread fl p 0 (record th {
            kstack = kstack;
            context = record { caller = in_forkret; saved_intena = false };
          })
          pure (some p))

  -- The ids of the process and of its first thread, which becomes an EMBRYO.
  unfoldable pub number_proc : ℕ → Kern fl (Unit {0})
  number_proc p = do
    k ← get
    r ← rest_of fl p
    put_rest fl p (record r { pid = k.next_pid })
    put_state fl p 0 embryo
    th ← thread_of fl p 0
    put_thread fl p 0 (record th { tid = k.next_tid })
    modify (λ k. record k { next_pid = inc_int k.next_pid; next_tid = inc_int k.next_tid })

  -- allocproc behind the label `found`. The result of mlfq_append is dropped.
  unfoldable pub init_proc : ℕ → ℕ → Kern fl (Option ℕ)
  init_proc kstack p = do
    q ← proc_of fl p
    put_proc fl p (record q { state = embryo; tidx = 0 })
    number_proc p
    done ← on_sched fl (mlfq_append fl p 0)
    unlock fl ptable_lock
    give_kstack kstack p

  abbrev pub alloc_at : ℕ → Option ℕ → Kern fl (Option ℕ)
  alloc_at kstack none = do unlock fl ptable_lock; pure none
  alloc_at kstack (some p) = init_proc kstack p

  unfoldable pub allocproc : ℕ → Kern fl (Option ℕ)
  allocproc kstack = do
    lock fl ptable_lock
    k ← get
    alloc_at kstack (find_place (λ p. eqb_Procstate (k.sched.proc p).state unused) nproc 0)

  -- Thread 0 and the process are set runnable.
  abbrev pub set_runnable : ℕ → Kern fl (Unit {0})
  set_runnable p = do
    lock fl ptable_lock
    q ← proc_of fl p
    put_proc fl p (record q { state = runnable })
    put_state fl p 0 runnable
    unlock fl ptable_lock

  -- The null pointer that allocproc may return is followed. The first page is filled with initcode; its
  -- root directory is an argument.
  abbrev pub first_proc : ℕ → Option ℕ → Option ℕ → Kern fl (Unit {0})
  first_proc pgdir cwd none = crash
  first_proc pgdir cwd (some p) = do
    modify (λ k. record k { initproc = some p })
    r ← rest_of fl p
    branch (pgdir == 0) (stop "userinit: out of memory?") (do
      th ← thread_of fl p 0
      put_rest fl p (record r {
        pgdir = pgdir;
        sz = 4096;
        thread = update r.thread 0 (record th { tf = first_frame th.tf });
        name = safestrcpy 15 r.name initcode;
        cwd = cwd;
      })
      set_runnable p)

  unfoldable pub userinit : ℕ → ℕ → Option ℕ → Kern fl (Unit {0})
  userinit kstack pgdir cwd = do p ← allocproc kstack; first_proc pgdir cwd p

  -- The two functions are allocuvm and deallocuvm at the process's page directory.
  unfoldable pub growproc : (ℕ → ℕ → ℕ) → (ℕ → ℕ → ℕ) → ℤ → Kern fl ℤ
  growproc allocuvm deallocuvm n = do
    p ← myproc fl
    r ← rest_of fl p
    let newsz : ℕ = (r.sz + to_u32 n) % 2 ^ 32
    let sz : ℕ =
        if ltb_ℤ (pos 0) n
        then allocuvm r.sz newsz
        else if ltb_ℤ n (pos 0)
        then deallocuvm r.sz newsz
        else r.sz
    branch (not (eqb_ℤ n (pos 0)) && (sz == 0)) (pure (negsuc 0))
        (do put_rest fl p (record r { sz = sz }); call fl (switchuvm p); pure (pos 0))

  -- The stack of the calling thread goes to thread 0.
  abbrev pub swapped : (ℕ → ℕ) → ℕ → (ℕ → ℕ) → ℕ → ℕ
  swapped f tidx g t =
      update (update (λ u. if ltb u nthread then f u else g u) 0 (f tidx)) tidx (f 0) t

  -- The child that fork builds in the slot `r`, for the caller's thread `tidx`.
  unfoldable pub child_of : ℕ → Rest → ℕ → ℕ → Rest → Rest
  child_of p cur tidx pgdir r = record r {
    pgdir = pgdir;
    sz = cur.sz;
    parent = some p;
    ustacks = swapped cur.ustacks tidx r.ustacks;
    thread =
        update r.thread 0 (record (r.thread 0) { tf = record ((cur.thread tidx).tf) { eax = 0 } });
    ofile = dup_files cur.ofile r.ofile;
    cwd = cur.cwd;
    name = safestrcpy 15 r.name cur.name;
  }

  -- fork behind allocproc; `pgdir` is the result of copyuvm.
  unfoldable pub fork_into : ℕ → ℕ → Option ℕ → Kern fl ℤ
  fork_into pgdir p none = pure (negsuc 0)
  fork_into pgdir p (some n) = do
    me ← proc_of fl p
    cur ← rest_of fl p
    r ← rest_of fl n
    branch (pgdir == 0)
        (do
          call fl (kfree (r.thread 0).kstack)
          put_rest fl n (record r {
            pgdir = 0;
            thread = update r.thread 0 (record (r.thread 0) { kstack = 0 });
            kstacks = update r.kstacks 0 0;
          })
          put_state fl n 0 unused
          q ← proc_of fl n
          put_proc fl n (record q { state = unused })
          pure (negsuc 0))
        (do
          q ← proc_of fl n
          put_proc fl n (record q { tidx = 0 })
          put_rest fl n (child_of p cur me.tidx pgdir r)
          modify (λ k. record k { calls = idup cur.cwd ∷ file_calls filedup cur.ofile k.calls })
          set_runnable n
          pure r.pid)

  abbrev pub fork_of : ℕ → ℕ → ℕ → Kern fl ℤ
  fork_of kstack pgdir p = do n ← allocproc kstack; fork_into pgdir p n

  unfoldable pub fork : ℕ → ℕ → Kern fl ℤ
  fork kstack pgdir = do p ← myproc fl; fork_of kstack pgdir p
