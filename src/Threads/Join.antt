-- ===== src/Threads/Join.antt =====
-- xv6-public_project03/proc.c: sched, yield, sleep, thread_exit and thread_join. As in the kernel of
-- xv6-public_project02, a function that calls sched is cut there.
pub mod Laws
use operating_system.Common.{
  ℕ, suc, Bool, true, false, not, Option, none, some, List, [], ◌∷◌, ◌==◌, if◌then◌else◌, ℤ, pos,
  negsuc, eqb_ℤ, to_u32, pure, ◌>>=◌, ◌>>◌, get, modify, branch, when, panic_if, stop,
}
use operating_system.Mlfq.Spinlock.{Lock, ptable_lock, eqb_Lock, holding}
use operating_system.Mlfq.Proc.{
  unused, sleeping, runnable, running, zombie, eqb_Procstate, Caller, in_yield, in_exit, in_sleep,
}
use operating_system.Threads.State.{
  Pthread, Process, Kern, on_cpu, lock, unlock, process_at, put_process, thread_at, put_thread,
  mypth,
}
use operating_system.Threads.Group.{set_proc_state, wakeup1}

unfoldable pub sched : Caller → Kern (Unit {0})
sched caller = do
  me ← mypth
  th ← thread_at me.0 me.1
  h ← on_cpu (holding ptable_lock)
  panic_if (not h) "sched ptable.lock"
  k ← get
  panic_if (not (k.cpu.ncli == 1)) "sched locks"
  panic_if (eqb_Procstate th.state running) "sched running"
  panic_if k.cpu.interrupts "sched interruptible"
  put_thread me.0 me.1
      (record th { context = record { caller = caller; saved_intena = k.cpu.intena } })

-- yield, up to the switch.
unfoldable pub yield : Kern (Unit {0})
yield = do
  lock ptable_lock
  me ← mypth
  th ← thread_at me.0 me.1
  put_thread me.0 me.1 (record th { state = runnable })
  p ← process_at me.0
  put_process me.0 (record p { state = runnable })
  sched in_yield

-- Thread `t` of process `i` gets a state, and the process the state that set_proc_state finds.
abbrev pub change_thread : ℕ → ℕ → Pthread → Kern (Unit {0})
change_thread i t th = do put_thread i t th; p ← process_at i; put_process i (set_proc_state p)

-- sleep, up to the switch. mypth reads the process before the test that there is one.
unfoldable pub sleep : ℕ → Option Lock → Kern (Unit {0})
sleep chan none = do me ← mypth; stop "sleep without lk"
sleep chan (some lk) = do
  me ← mypth
  when (not (eqb_Lock lk ptable_lock)) (do lock ptable_lock; unlock lk)
  th ← thread_at me.0 me.1
  change_thread me.0 me.1 (record th { chan = chan; state = sleeping })
  sched (in_sleep lk)

-- thread_exit, up to the switch.
unfoldable pub thread_exit : ℕ → Kern (Unit {0})
thread_exit retval = do
  me ← mypth
  lock ptable_lock
  th ← thread_at me.0 me.1
  put_thread me.0 me.1 (record th { retval = retval })
  modify (λ k. record k { procs = wakeup1 (to_u32 th.tid) k.procs })
  th ← thread_at me.0 me.1
  change_thread me.0 me.1 (record th { state = zombie })
  sched in_exit

-- What the loops of thread_join find: the first thread with that id.
unfoldable pub find_in : ℤ → ℕ → List Pthread → Option ℕ
find_in tid t [] = none
find_in tid t (th ∷ ths) =
    let rest = find_in tid (suc t) ths in if eqb_ℤ th.tid tid then some t else rest

abbrev pub found_in : ℕ → Option ℕ → Option (ℕ × ℕ) → Option (ℕ × ℕ)
found_in i none rest = rest
found_in i (some t) rest = some (i, t)

unfoldable pub find_tid : ℤ → ℕ → List Process → Option (ℕ × ℕ)
find_tid tid i [] = none
find_tid tid i (p ∷ ps) = found_in i (find_in tid 0 p.pth) (find_tid tid (suc i) ps)

-- How a turn of thread_join ends: the result 0 with `*retval`, the result -1, or a sleep.
pub data Joined : Type 0 where
  joined : ℕ → Joined
  no_thread : Joined
  asleep : Joined

unfoldable pub reap_thread : Pthread → Pthread
reap_thread th = record th { kstack = 0; state = unused; tid = pos 0; retval = 0 }

unfoldable pub join_found : ℤ → Bool → Option (ℕ × ℕ) → Kern Joined
join_found tid have none =
    branch have (do sleep (to_u32 tid) (some ptable_lock); pure asleep)
      (do unlock ptable_lock; pure no_thread)
join_found tid have (some (i, t)) = do
  th ← thread_at i t
  branch (eqb_Procstate th.state zombie)
      (do put_thread i t (reap_thread th); unlock ptable_lock; pure (joined th.retval))
      (do sleep (to_u32 tid) (some ptable_lock); pure asleep)

-- One turn of the endless loop; `have` is the variable havepth, which no turn clears.
unfoldable pub join_turn : ℤ → Bool → Kern Joined
join_turn tid have = do k ← get; join_found tid have (find_tid tid 0 k.procs)

-- thread_join, up to its return or its first sleep; behind a sleep follows `join_turn tid true`.
unfoldable pub thread_join : ℤ → Kern Joined
thread_join tid = do lock ptable_lock; join_turn tid false
