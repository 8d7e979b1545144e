-- ===== src/Mlfq/Switch.antt =====
-- xv6-public_project02/proc.c: how a process gives up the processor and goes on, sleeping and waking.
-- A function that calls `sched` is cut there: what stands before the switch is a function of its own,
-- and `resume` is what follows when the scheduler has switched back.
pub mod Laws
pub mod Wakeup
use operating_system.Common.{
  ℕ, Bool, true, false, not, Option, none, some, List, [], ◌∷◌, ◌==◌, if◌then◌else◌, map, ℤ, pos,
  negsuc, eqb_ℤ, ◌&&◌, pure, panic, ◌>>=◌, ◌>>◌, get, modify, stop, panic_if, when,
}
use operating_system.Mlfq.Spinlock.{Lock, ptable_lock, eqb_Lock, holding}
use operating_system.Mlfq.Proc.{
  Proc, Kern, Chan, null, eqb_Chan, Caller, in_forkret, in_yield, in_exit, in_sleep, sleeping,
  runnable, running, eqb_Procstate, iinit, initlog, on_cpu, call, proc_at, put_proc, lock, unlock,
  myproc,
}

unfoldable pub sched : Caller → Kern (Unit {0})
unfolding myproc
sched caller = do
  i ← myproc
  p ← proc_at i
  h ← on_cpu (holding ptable_lock)
  panic_if (not h) "sched ptable.lock"
  k ← get
  panic_if (not (k.cpu.ncli == 1)) "sched locks"
  panic_if (eqb_Procstate p.state running) "sched running"
  panic_if k.cpu.interrupts "sched interruptible"
  put_proc i (record p { context = record { caller = caller; saved_intena = k.cpu.intena } })

-- yield, up to the switch.
unfoldable pub yield : Kern (Unit {0})
unfolding myproc
yield = do
  lock ptable_lock
  i ← myproc
  p ← proc_at i
  put_proc i (record p { state = runnable })
  sched in_yield

-- What sleep does to the process of entry `i` with the lock `lk`, up to the switch, one call or store
-- behind the other.
unfoldable pub sleep_stages : Chan → Lock → ℕ → List (Kern (Unit {0}))
sleep_stages chan lk i =
    when (not (eqb_Lock lk ptable_lock)) (lock ptable_lock)
    ∷ when (not (eqb_Lock lk ptable_lock)) (unlock lk)
    ∷ (do p ← proc_at i; put_proc i (record p { chan = chan; state = sleeping }))
    ∷ sched (in_sleep lk)
    ∷ []

unfoldable pub run_all : List (Kern (Unit {0})) → Kern (Unit {0})
run_all [] = pure tt
run_all (m ∷ ms) = do m; run_all ms

-- sleep, up to the switch.
unfoldable pub sleep : Chan → Option Lock → Kern (Unit {0})
unfolding sleep_stages run_all
sleep chan none k = elim k.cpu.proc [ none ↦ panic "sleep" | some i ↦ panic "sleep without lk" ]
sleep chan (some lk) k = elim k.cpu.proc [
  | none ↦ panic "sleep"
  | some i ↦ run_all (sleep_stages chan lk i) k
]

-- The last line of sched.
unfoldable pub restore_intena : Bool → Kern (Unit {0})
restore_intena b = modify (λ k. record k { cpu = record (k.cpu) { intena = b } })

unfoldable pub forkret : Kern (Unit {0})
forkret = do
  unlock ptable_lock
  k ← get
  when k.first (do modify (λ k. record k { first = false }); call iinit; call initlog)

unfoldable pub resume_sleep : ℕ → Lock → Kern (Unit {0})
resume_sleep i lk = do
  p ← proc_at i
  put_proc i (record p { chan = null })
  when (not (eqb_Lock lk ptable_lock)) (do unlock ptable_lock; lock lk)

unfoldable pub resume_at : ℕ → Caller → Bool → Kern (Unit {0})
unfolding restore_intena forkret resume_sleep
resume_at i in_forkret b = forkret
resume_at i in_yield b = do restore_intena b; unlock ptable_lock
resume_at i in_exit b = do restore_intena b; stop "zombie exit"
resume_at i (in_sleep lk) b = do restore_intena b; resume_sleep i lk

-- The process that the scheduler has switched to goes on.
unfoldable pub resume : Kern (Unit {0})
unfolding resume_at myproc
resume = do i ← myproc; p ← proc_at i; resume_at i p.context.caller p.context.saved_intena

unfoldable pub wake : Chan → Proc → Proc
wake chan p =
    if eqb_Procstate p.state sleeping && eqb_Chan p.chan chan
    then record p { state = runnable }
    else p

unfoldable pub wakeup1 : Chan → List Proc → List Proc
unfolding wake
wakeup1 chan ps = map (wake chan) ps

unfoldable pub wakeup : Chan → Kern (Unit {0})
unfolding wakeup1
wakeup chan = do
  lock ptable_lock
  modify (λ k. record k { procs = wakeup1 chan k.procs })
  unlock ptable_lock

-- The loop of kill: the table with the first process of that pid killed.
unfoldable pub kill_in : ℤ → List Proc → Option (List Proc)
kill_in pid [] = none
kill_in pid (p ∷ ps) =
    if eqb_ℤ p.pid pid
    then some (
        record p {
          killed = true;
          state = if eqb_Procstate p.state sleeping then runnable else p.state;
        }
        ∷ ps)
    else elim (kill_in pid ps) [ none ↦ none | some qs ↦ some (p ∷ qs) ]

unfoldable pub killed_or_not : Option (List Proc) → Kern ℤ
killed_or_not none = do unlock ptable_lock; pure (negsuc 0)
killed_or_not (some ps) = do modify (λ k. record k { procs = ps }); unlock ptable_lock; pure (pos 0)

unfoldable pub kill : ℤ → Kern ℤ
unfolding killed_or_not
kill pid = do lock ptable_lock; k ← get; killed_or_not (kill_in pid k.procs)
