-- ===== src/Procs/Switch.antt =====
-- ex_project3/HYU-ELE3021/xv6-public/proc.c: sched, next_thread, yield, forkret, sleep, wakeup and kill. A
-- function that switches is cut there; `resume` runs what is behind the switch.
use operating_system.Common.{
  ℕ, zero, suc, ◌+◌, ◌==◌, ltb, Bool, true, not, ◌&&◌, Option, none, some, List, [], ◌∷◌,
  if◌then◌else◌, get_elem?, length, map, ℤ, pos, negsuc, eqb_ℤ, pure, stop, crash, ◌>>=◌, ◌>>◌,
  modify, get, branch, when, panic_if,
}
use operating_system.Mlfq.Spinlock.{Lock, ptable_lock, eqb_Lock, holding}
use operating_system.Mlfq.Proc.{Procstate, sleeping, runnable, running, eqb_Procstate}
use operating_system.Stride.State.{Float, nproc, Proc, find_place}
use operating_system.Procs.State.{
  Chan, pointer, eqb_Chan, Caller, in_forkret, in_yield, in_exit, in_epilogue, in_next,
  in_next_idle, in_sleep, Thread, Rest, Kernel, Kern, on_cpu, lock, unlock, proc_of, put_proc,
  thread_of, put_thread, state_of, put_state, myproc,
}

-- The first runnable thread behind thread `t`, with the iterator at `i`; it goes round once.
pub data Found : Type 0 where
  found : ℕ → Found
  no_other : Found
  out_of_rounds : Found

abbrev pub found_or : ℕ → Option Procstate → Found → Found
found_or i none rest = rest
found_or i (some x) rest = if eqb_Procstate x runnable then found i else rest

unfoldable pub find_other : List Procstate → ℕ → ℕ → ℕ → Found
find_other ts t zero iter = out_of_rounds
find_other ts t (suc n) iter =
    let i : ℕ = if iter == length ts then 0 else iter in
    let rest = find_other ts t n (i + 1) in
    if i == t then no_other else found_or i (get_elem? ts i) rest

-- How next_thread ends: it returns, it has switched to the scheduler, or to another thread.
pub data Switched : Type 0 where
  stayed to_scheduler : Switched
  to_thread : ℕ → Switched

-- The threads of a process that sleep on the channel, made runnable.
unfoldable pub wake_threads : Chan → (ℕ → Thread) → ℕ → List Procstate → List Procstate
wake_threads c th t [] = []
wake_threads c th t (x ∷ xs) =
    (if eqb_Procstate x sleeping && eqb_Chan (th t).chan c then runnable else x)
    ∷ wake_threads c th (t + 1) xs

abbrev pub rouse : Procstate → Procstate
rouse x = if eqb_Procstate x sleeping then runnable else x

module _ (fl : Float) where
  -- The context of thread `t` is saved, with the caller and `intena`.
  abbrev pub save : ℕ → ℕ → Caller → Kern fl (Unit {0})
  save p t caller = do
    k ← get
    th ← thread_of fl p t
    put_thread fl p t
        (record th { context = record { caller = caller; saved_intena = k.cpu.intena } })

  -- sched, up to the switch.
  unfoldable pub sched : Caller → Kern fl (Unit {0})
  sched caller = do
    p ← myproc fl
    h ← on_cpu fl (holding ptable_lock)
    panic_if (not h) "sched ptable.lock"
    k ← get
    panic_if (not (k.cpu.ncli == 1)) "sched locks"
    x ← state_of fl p (k.sched.proc p).tidx
    panic_if (eqb_Procstate x running) "sched running"
    panic_if k.cpu.interrupts "sched interruptible"
    save p (k.sched.proc p).tidx caller

  abbrev pub switch_thread : ℕ → ℕ → Found → Kern fl Switched
  switch_thread p t out_of_rounds = crash
  switch_thread p t no_other = do
    x ← state_of fl p t
    branch (eqb_Procstate x running) (do unlock fl ptable_lock; pure stayed)
        (do sched in_next_idle; pure to_scheduler)
  switch_thread p t (found i) = do
    put_state fl p t runnable
    put_state fl p i running
    q ← proc_of fl p
    put_proc fl p (record q { tidx = i })
    save p t in_next
    pure (to_thread i)

  -- next_thread, up to its return or its switch. switch_trap_kstack loads a register.
  unfoldable pub next_thread : ℕ → Kern fl Switched
  next_thread p = do
    q ← proc_of fl p
    lock fl ptable_lock
    switch_thread p q.tidx (find_other q.threads q.tidx (length q.threads) (q.tidx + 1))

  -- yield, up to the switch.
  unfoldable pub yield : Kern fl (Unit {0})
  yield = do
    lock fl ptable_lock
    p ← myproc fl
    q ← proc_of fl p
    put_state fl p q.tidx runnable
    sched in_yield

  -- forkret. The first process also sets up the file system, which is left out.
  unfoldable pub forkret : Kern fl (Unit {0})
  forkret = unlock fl ptable_lock

  abbrev pub sleep_by : Option ℕ → Chan → Option Lock → Kern fl (Unit {0})
  sleep_by none c lk = stop "sleep"
  sleep_by (some p) c none = stop "sleep without lk"
  sleep_by (some p) c (some lk) = do
    when (not (eqb_Lock lk ptable_lock)) (do lock fl ptable_lock; unlock fl lk)
    q ← proc_of fl p
    th ← thread_of fl p q.tidx
    put_thread fl p q.tidx (record th { chan = c })
    put_state fl p q.tidx sleeping
    sched (in_sleep lk)

  -- sleep, up to the switch.
  unfoldable pub sleep : Chan → Option Lock → Kern fl (Unit {0})
  sleep c lk = do k ← get; sleep_by k.cpu.proc c lk

  -- What is behind the switch, for thread `t` of process `p`.
  abbrev pub resume_at : ℕ → ℕ → Caller → Kern fl (Unit {0})
  resume_at p t in_forkret = forkret
  resume_at p t in_yield = unlock fl ptable_lock
  resume_at p t in_exit = stop "zombie exit"
  resume_at p t in_epilogue = stop "thread_epilogue: unreachable statements"
  resume_at p t in_next = unlock fl ptable_lock
  resume_at p t in_next_idle = stop "next_thread cannot run thread"
  resume_at p t (in_sleep lk) = do
    th ← thread_of fl p t
    put_thread fl p t (record th { chan = pointer 0 })
    when (not (eqb_Lock lk ptable_lock)) (do unlock fl ptable_lock; lock fl lk)

  -- A thread that starts in forkret does not pass the store to `intena`.
  abbrev pub restore : Caller → Bool → Kern fl (Unit {0})
  restore in_forkret b = pure tt
  restore _ b = modify (λ k. record k { cpu = record (k.cpu) { intena = b } })

  unfoldable pub resume : Kern fl (Unit {0})
  resume = do
    p ← myproc fl
    q ← proc_of fl p
    th ← thread_of fl p q.tidx
    restore th.context.caller th.context.saved_intena
    resume_at p q.tidx th.context.caller

  -- The body of wakeup1 at a process.
  abbrev pub wake_process : Chan → (ℕ → Rest) → ℕ → Proc → Proc
  wake_process c more p x =
      if ltb p nproc && eqb_Procstate x.state runnable
      then record x { threads = wake_threads c (more p).thread 0 x.threads }
      else x

  unfoldable pub wakeup1 : Chan → Kernel fl → Kernel fl
  wakeup1 c k = record k {
    sched = record (k.sched) { proc = λ p. wake_process c k.more p (k.sched.proc p) };
  }

  unfoldable pub wakeup : Chan → Kern fl (Unit {0})
  wakeup c = do lock fl ptable_lock; modify (wakeup1 c); unlock fl ptable_lock

  abbrev pub kill_at : Option ℕ → Kern fl ℤ
  kill_at none = do unlock fl ptable_lock; pure (negsuc 0)
  kill_at (some p) = do
    q ← proc_of fl p
    put_proc fl p (record q { killed = true; threads = map rouse q.threads })
    unlock fl ptable_lock
    pure (pos 0)

  unfoldable pub kill : ℤ → Kern fl ℤ
  kill pid = do
    lock fl ptable_lock
    k ← get
    kill_at (find_place (λ p. eqb_ℤ (k.more p).pid pid) nproc 0)
