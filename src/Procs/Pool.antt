-- ===== src/Procs/Pool.antt =====
-- ex_project3/HYU-ELE3021/xv6-public/proc.c: thread_epilogue, thread_create, thread_exit and thread_join.
-- The results of kalloc and of allocuvm are arguments: `kstack`, and `grow` on the old and the new size.
use operating_system.Common.{
  ℕ, zero, suc, ◌+◌, ◌-◌, ◌%◌, ◌^◌, ◌==◌, false, not, Option, none, some, List, [], ◌∷◌,
  if◌then◌else◌, ℤ, pos, eqb_ℤ, to_u32, inc_int, pure, ◌>>=◌, ◌>>◌, modify, get, update, branch,
}
use operating_system.Mlfq.Spinlock.{ptable_lock}
use operating_system.Mlfq.Proc.{Procstate, unused, runnable, zombie, eqb_Procstate}
use operating_system.Threads.Create.{round_up}
use operating_system.Stride.State.{Float, nproc}
use operating_system.Procs.State.{
  pointer, in_forkret, in_epilogue, Rest, value, epilogue_entry, Kernel, Kern, lock, unlock,
  proc_of, rest_of, put_rest, thread_of, put_thread, state_of, put_state, myproc, nthread,
}
use operating_system.Procs.Switch.{sched, sleep, wakeup1}

-- The first thread in that state, from index `t` on.
unfoldable pub find_state : Procstate → ℕ → List Procstate → Option ℕ
find_state x t [] = none
find_state x t (y ∷ ys) =
    let rest = find_state x (t + 1) ys in if eqb_Procstate y x then some t else rest

-- How thread_join ends: with the value of the thread, with -1, or with the sleep for that thread.
pub data Joined : Type 0 where
  joined : ℕ → Joined
  no_thread : Joined
  asleep : ℕ → ℕ → Joined

module _ (fl : Float) where
  -- thread_epilogue of process `p`, with ptable.lock held, up to the switch.
  abbrev pub epilogue_of : ℕ → Kern fl (Unit {0})
  epilogue_of p = do
    q ← proc_of fl p
    th ← thread_of fl p q.tidx
    put_state fl p q.tidx zombie
    modify (wakeup1 fl (pointer (to_u32 th.tid)))
    sched fl in_epilogue

  unfoldable pub thread_epilogue : Kern fl (Unit {0})
  thread_epilogue = do lock fl ptable_lock; p ← myproc fl; epilogue_of p

  abbrev pub exit_with : ℕ → ℕ → Kern fl (Unit {0})
  exit_with retval p = do
    q ← proc_of fl p
    th ← thread_of fl p q.tidx
    put_thread fl p q.tidx (record th { retval = retval })
    thread_epilogue

  unfoldable pub thread_exit : ℕ → Kern fl (Unit {0})
  thread_exit retval = do p ← myproc fl; exit_with retval p

  -- A thread that is given up: the process keeps a kernel stack in kstacks.
  abbrev pub abandon : ℕ → ℕ → ℕ → Kern fl (Option ℤ)
  abandon p t kstack = do
    th ← thread_of fl p t
    put_thread fl p t (record th { kstack = kstack; tid = pos 0 })
    put_state fl p t unused
    unlock fl ptable_lock
    pure none

  -- From the two words on the user stack to the end; `top` is the stack's end.
  unfoldable pub start_thread : ℕ → ℕ → ℕ → ℕ → ℕ → Kern fl (Option ℤ)
  start_thread start arg p t top = do
    modify (λ k. record k {
      writes =
          ((top + 2 ^ 32 - 8) % 2 ^ 32, epilogue_entry)
          ∷ ((top + 2 ^ 32 - 4) % 2 ^ 32, value arg)
          ∷ k.writes;
    })
    th ← thread_of fl p t
    put_thread fl p t (record th {
      tf = record (th.tf) { esp = (top + 2 ^ 32 - 8) % 2 ^ 32; eip = start };
      retval = 0;
    })
    put_state fl p t runnable
    unlock fl ptable_lock
    pure (some th.tid)

  -- The user stack of thread `t`: the one that an earlier thread has left, or a new page.
  unfoldable pub give_ustack : (ℕ → ℕ → ℕ) → ℕ → ℕ → ℕ → ℕ → Kern fl (Option ℤ)
  give_ustack grow start arg p t = do
    r ← rest_of fl p
    let top : ℕ = grow (round_up r.sz) ((round_up r.sz + 4096) % 2 ^ 32)
    branch (not (r.ustacks t == 0)) (start_thread start arg p t (r.ustacks t)) (
        branch (top == 0) (abandon p t 0) (do
          put_rest fl p (record r { sz = top; ustacks = update r.ustacks t top })
          start_thread start arg p t top))

  -- The kernel stack of thread `t` is there: its frame is that of the caller's thread `c`.
  unfoldable pub fill_thread : (ℕ → ℕ → ℕ) → ℕ → ℕ → ℕ → ℕ → ℕ → Kern fl (Option ℤ)
  fill_thread grow start arg p c t = do
    r ← rest_of fl p
    put_thread fl p t (record (r.thread t) {
      kstack = r.kstacks t;
      tf = (r.thread c).tf;
      context = record { caller = in_forkret; saved_intena = false };
    })
    give_ustack grow start arg p t

  abbrev pub create_at : ℕ → (ℕ → ℕ → ℕ) → ℕ → ℕ → ℕ → ℕ → Option ℕ → Kern fl (Option ℤ)
  create_at kstack grow start arg p c none = do unlock fl ptable_lock; pure none
  create_at kstack grow start arg p c (some t) = do
    k ← get
    th ← thread_of fl p t
    put_thread fl p t (record th { tid = k.next_tid })
    modify (λ k. record k { next_tid = inc_int k.next_tid })
    r ← rest_of fl p
    branch (r.kstacks t == 0)
        (do
          put_rest fl p (record r { kstacks = update r.kstacks t kstack })
          branch (kstack == 0) (abandon p t th.kstack) (fill_thread grow start arg p c t))
        (fill_thread grow start arg p c t)

  -- `some tid` stands for the result 0 with that id, and `none` for the result -1.
  unfoldable pub thread_create : ℕ → (ℕ → ℕ → ℕ) → ℕ → ℕ → Kern fl (Option ℤ)
  thread_create kstack grow start arg = do
    lock fl ptable_lock
    p ← myproc fl
    q ← proc_of fl p
    create_at kstack grow start arg p q.tidx (find_state unused 0 q.threads)

  -- The first thread with that id among so many threads from `t` on.
  unfoldable pub find_in : Rest → ℤ → ℕ → ℕ → Option ℕ
  find_in r tid zero t = none
  find_in r tid (suc n) t =
      let rest = find_in r tid n (t + 1) in if eqb_ℤ (r.thread t).tid tid then some t else rest

  abbrev pub found_or : ℕ → Option ℕ → Option (ℕ × ℕ) → Option (ℕ × ℕ)
  found_or p none rest = rest
  found_or p (some t) rest = some (p, t)

  -- The search of thread_join, over so many processes from `p` on.
  unfoldable pub find_tid : Kernel fl → ℤ → ℕ → ℕ → Option (ℕ × ℕ)
  find_tid k tid zero p = none
  find_tid k tid (suc n) p =
      let rest = find_tid k tid n (p + 1) in
      if eqb_Procstate (k.sched.proc p).state runnable
      then found_or p (find_in (k.more p) tid nthread 0) rest
      else rest

  -- thread_join behind the loop, which has one turn at most: the thread is freed, whatever its state.
  unfoldable pub join_end : ℕ → ℕ → Kern fl ℕ
  join_end p t = do
    th ← thread_of fl p t
    put_thread fl p t (record th { kstack = 0; tid = pos 0; retval = 0 })
    put_state fl p t unused
    unlock fl ptable_lock
    pure th.retval

  abbrev pub join_at : ℤ → Option (ℕ × ℕ) → Kern fl Joined
  join_at tid none = do unlock fl ptable_lock; pure no_thread
  join_at tid (some (p, t)) = do
    x ← state_of fl p t
    branch (eqb_Procstate x zombie) (do v ← join_end p t; pure (joined v))
        (do sleep fl (pointer (to_u32 tid)) (some ptable_lock); pure (asleep p t))

  -- thread_join, up to its return or its sleep; behind the sleep follows `join_end`.
  unfoldable pub thread_join : ℤ → Kern fl Joined
  thread_join tid = do lock fl ptable_lock; k ← get; join_at tid (find_tid k tid nproc 0)
