-- ===== src/Threads/Create.antt =====
-- thread_create of xv6-public_project03/proc.c, with allocpth and alloc_ustack. The results of kalloc
-- and of allocuvm are arguments: `kstack`, and `grow` on the old and the new size.
pub mod Started
use operating_system.Common.{
  ℕ, suc, ◌+◌, ◌-◌, ◌*◌, ◌/◌, ◌%◌, ◌^◌, Bool, true, false, Option, none, some, List, [], ◌∷◌, ◌==◌,
  if◌then◌else◌, set, ℤ, pos, inc_int, pure, crash, ◌>>=◌, ◌>>◌, get, modify, branch,
}
use operating_system.Mlfq.Spinlock.{ptable_lock}
use operating_system.Mlfq.Proc.{unused, embryo, runnable, eqb_Procstate, in_forkret}
use operating_system.Threads.State.{
  Pthread, Process, Word, value, thread_exit_entry, Kern, lock, unlock, elem_at, process_at,
  put_process, thread_at, put_thread, mypth,
}

unfoldable pub find_thread : ℕ → List Pthread → Option ℕ
find_thread t [] = none
find_thread t (th ∷ ths) =
    let rest = find_thread (suc t) ths in if eqb_Procstate th.state unused then some t else rest

-- The context starts at forkret.
unfoldable pub fill_thread : ℕ → ℕ → Option ℕ → Kern (Option ℕ)
fill_thread kstack i none = pure none
fill_thread kstack i (some t) = do
  th ← thread_at i t
  k ← get
  put_thread i t (record th { state = embryo; tid = k.next_tid; tidx = t })
  modify (λ k. record k { next_tid = inc_int k.next_tid })
  th ← thread_at i t
  branch (kstack == 0) (do put_thread i t (record th { kstack = 0; state = unused }); pure none)
      (do
        p ← process_at i
        put_process i (record p {
          kstacks = set p.kstacks t kstack;
          pth = set p.pth t (record th {
            kstack = kstack;
            context = record { caller = in_forkret; saved_intena = false };
          });
        })
        pure (some t))

unfoldable pub allocpth : ℕ → ℕ → Kern (Option ℕ)
allocpth kstack i = do p ← process_at i; fill_thread kstack i (find_thread 0 p.pth)

abbrev pub round_up : ℕ → ℕ
round_up sz = (sz + 4095) % 2 ^ 32 / 4096 * 4096

-- A stack that an earlier thread of this index has left is used again.
unfoldable pub alloc_ustack : (ℕ → ℕ → ℕ) → ℕ → ℕ → Kern Bool
alloc_ustack grow i t = do
  p ← process_at i
  u ← elem_at p.ustacks t
  let top = grow (round_up p.sz) ((round_up p.sz + 4096) % 2 ^ 32)
  branch (u == 0)
      (branch (top == 0) (pure false)
        (do put_process i (record p { ustacks = set p.ustacks t top; sz = top }); pure true))
      (pure true)

-- From the stack of the new thread to the end; the result is the thread's id.
unfoldable pub start_thread : ℕ → ℕ → ℕ → ℕ → Kern (Option ℤ)
start_thread start arg i t = do
  p ← process_at i
  u ← elem_at p.ustacks t
  put_process i (record p { sz = u })
  modify (λ k. record k {
    writes =
        ((u + 2 ^ 32 - 8) % 2 ^ 32, thread_exit_entry)
        ∷ ((u + 2 ^ 32 - 4) % 2 ^ 32, value arg)
        ∷ k.writes;
  })
  th ← thread_at i t
  put_thread i t (record th {
    tf = record (th.tf) { esp = (u + 2 ^ 32 - 8) % 2 ^ 32; eip = start };
    state = runnable;
    retval = 0;
  })
  unlock ptable_lock
  pure (some th.tid)

-- The load and the stores through `npth`, which is null where allocpth has failed.
unfoldable pub npth_at : ℕ → Option ℕ → Kern (ℕ × Pthread)
npth_at i none = crash
npth_at i (some t) = do th ← thread_at i t; pure (t, th)

-- The label `bad`. From the first jump, where `npth` is null, its first store is through that null
-- pointer, before `tidx` and `ustack`, which are not set there, are read; from the second, `tidx` is
-- the place of the thread and `ustack` is null.
unfoldable pub abandon_thread : ℕ → Option ℕ → Kern (Option ℤ)
unfolding npth_at
abandon_thread i npth = do
  (t, th) ← npth_at i npth
  p ← process_at i
  put_process i (record p {
    kstacks = set p.kstacks t 0;
    pth = set p.pth t (record th { kstack = 0; state = unused; tid = pos 0 });
  })
  unlock ptable_lock
  pure none

-- Behind allocpth.
unfoldable pub create_in : (ℕ → ℕ → ℕ) → ℕ → ℕ → ℕ → ℕ → Option ℕ → Kern (Option ℤ)
create_in grow start arg i c none = abandon_thread i none
create_in grow start arg i c (some t) = do
  me ← thread_at i c
  th ← thread_at i t
  put_thread i t (record th { tf = me.tf })
  have ← alloc_ustack grow i t
  branch have (start_thread start arg i t) (abandon_thread i (some t))

-- `some tid` stands for the result 0 with `*thread = tid`, and `none` for the result -1.
unfoldable pub thread_create : ℕ → (ℕ → ℕ → ℕ) → ℕ → ℕ → Kern (Option ℤ)
thread_create kstack grow start arg = do
  me ← mypth
  lock ptable_lock
  t ← allocpth kstack me.0
  create_in grow start arg me.0 me.1 t
