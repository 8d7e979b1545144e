-- ===== src/Mlfq/Life.antt =====
-- xv6-public_project02/proc.c: pinit, and how a process comes to be, allocproc, growproc and fork. What kalloc, copyuvm,
-- allocuvm and deallocuvm of kalloc.c and vm.c return is an argument, with 0 for their failure.
pub mod Fork
use operating_system.Common.{
  ℕ, suc, zero, ◌+◌, ◌%◌, ◌^◌, false, not, ◌&&◌, Option, none, some, List, [], ◌∷◌, ◌==◌,
  if◌then◌else◌, set, ℤ, pos, negsuc, eqb_ℤ, ltb_ℤ, to_u32, inc_int, pure, ◌>>=◌, ◌>>◌, get, modify,
  branch,
}
use operating_system.Mlfq.Spinlock.{ptable_lock}
use operating_system.Mlfq.Level
use operating_system.Mlfq.Proc.{
  Proc, Kernel, Kern, Call, unused, embryo, runnable, eqb_Procstate, in_forkret, kfree, filedup,
  idup, switchuvm, call, proc_at, put_proc, lock, unlock, myproc,
}

unfoldable pub pinit : Kernel → Kernel
pinit k = record k {
  queues = record {
    l0_cnt = pos 0;
    l1_cnt = pos 0;
    l2_cnt = pos 0;
    l3_cnt = pos 0;
    moq_active = false;
    moq_sz = pos 0;
    moq_cnt = pos 0;
  };
}

unfoldable pub find_unused : ℕ → List Proc → Option ℕ
find_unused i [] = none
find_unused i (p ∷ ps) = if eqb_Procstate p.state unused then some i else find_unused (suc i) ps

unfoldable pub embryonic : Proc → ℤ → ℤ → Proc
embryonic p pid seq = record p {
  state = embryo;
  pid = pid;
  qlev = Level.l0;
  seq = seq;
  tick = pos 0;
  priority = pos 0;
}

-- allocproc behind the label `found`. `kstack` is the result of kalloc.
unfoldable pub init_proc : ℕ → ℕ → Kern (Option ℕ)
unfolding embryonic
init_proc kstack i = do
  p ← proc_at i
  k ← get
  put_proc i (embryonic p k.nextpid k.queues.l0_cnt)
  modify (λ k. record k {
    nextpid = inc_int k.nextpid;
    queues = record (k.queues) { l0_cnt = inc_int k.queues.l0_cnt };
  })
  unlock ptable_lock
  p ← proc_at i
  branch (kstack == 0) (do put_proc i (record p { kstack = 0; state = unused }); pure none)
      (do
        put_proc i (record p {
          kstack = kstack;
          context = record { caller = in_forkret; saved_intena = false };
        })
        pure (some i))

unfoldable pub alloc_found : ℕ → Option ℕ → Kern (Option ℕ)
unfolding init_proc
alloc_found kstack none = do unlock ptable_lock; pure none
alloc_found kstack (some i) = init_proc kstack i

unfoldable pub allocproc : ℕ → Kern (Option ℕ)
unfolding alloc_found find_unused
allocproc kstack = do lock ptable_lock; k ← get; alloc_found kstack (find_unused 0 k.procs)

-- growproc; the two functions are allocuvm and deallocuvm at the process's page directory.
unfoldable pub growproc : (ℕ → ℕ → ℕ) → (ℕ → ℕ → ℕ) → ℤ → Kern ℤ
unfolding myproc
growproc allocuvm deallocuvm n = do
  i ← myproc
  p ← proc_at i
  let newsz = (p.sz + to_u32 n) % 2 ^ 32
  let sz =
      if ltb_ℤ (pos 0) n
      then allocuvm p.sz newsz
      else if ltb_ℤ n (pos 0)
      then deallocuvm p.sz newsz
      else p.sz
  branch (not (eqb_ℤ n (pos 0)) && (sz == 0)) (pure (negsuc 0))
      (do put_proc i (record p { sz = sz }); call (switchuvm i); pure (pos 0))

-- string.c; the first argument is the number of bytes left before the last.
unfoldable pub safestrcpy : ℕ → List ℕ → List ℕ → List ℕ
safestrcpy n [] t = []
safestrcpy zero (d ∷ s) t = 0 ∷ s
safestrcpy (suc n) (d ∷ s) [] = 0 ∷ s
safestrcpy (suc n) (d ∷ s) (c ∷ t) = if c == 0 then 0 ∷ set s 0 0 else c ∷ safestrcpy n s t

unfoldable pub dup_files : List (Option ℕ) → List (Option ℕ) → List (Option ℕ)
dup_files [] np = np
dup_files (f ∷ fs) [] = []
dup_files (none ∷ fs) (g ∷ gs) = g ∷ dup_files fs gs
dup_files (some f ∷ fs) (g ∷ gs) = some f ∷ dup_files fs gs

-- The calls of a loop over the open files, latest first, on top of those before.
unfoldable pub file_calls : (ℕ → Call) → List (Option ℕ) → List Call → List Call
file_calls f [] cs = cs
file_calls f (none ∷ fs) cs = file_calls f fs cs
file_calls f (some n ∷ fs) cs = file_calls f fs (f n ∷ cs)

-- The child that fork builds from the slot `np`.
unfoldable pub child_of : ℕ → Proc → ℕ → Proc → Proc
unfolding dup_files safestrcpy
child_of i cur pgdir np = record np {
  pgdir = pgdir;
  sz = cur.sz;
  parent = some i;
  tf = record (cur.tf) { eax = 0 };
  ofile = dup_files cur.ofile np.ofile;
  cwd = cur.cwd;
  name = safestrcpy 15 np.name cur.name;
}

-- fork behind allocproc; `pgdir` is the result of copyuvm.
unfoldable pub fork_into : ℕ → ℕ → Option ℕ → Kern ℤ
unfolding child_of file_calls
fork_into pgdir i none = pure (negsuc 0)
fork_into pgdir i (some n) = do
  cur ← proc_at i
  np ← proc_at n
  branch (pgdir == 0)
      (do
        call (kfree np.kstack)
        put_proc n (record np { pgdir = 0; kstack = 0; state = unused })
        pure (negsuc 0))
      (do
        put_proc n (child_of i cur pgdir np)
        modify (λ k. record k { calls = idup cur.cwd ∷ file_calls filedup cur.ofile k.calls })
        lock ptable_lock
        q ← proc_at n
        put_proc n (record q { state = runnable })
        unlock ptable_lock
        pure q.pid)

unfoldable pub fork : ℕ → ℕ → Kern ℤ
unfolding myproc
fork kstack pgdir = do i ← myproc; n ← allocproc kstack; fork_into pgdir i n
