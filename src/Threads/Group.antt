-- ===== src/Threads/Group.antt =====
-- xv6-public_project03/proc.c: the state of a process against the states of its threads, wakeup, kill.
pub mod Laws
use operating_system.Common.{
  ℕ, ◌+◌, Bool, true, false, not, ◌&&◌, ◌||◌, Option, none, some, List, [], ◌∷◌, ◌==◌,
  if◌then◌else◌, map, ℤ, pos, negsuc, eqb_ℤ, pure, ◌>>=◌, ◌>>◌, get, modify,
}
use operating_system.Mlfq.Spinlock.{ptable_lock}
use operating_system.Mlfq.Proc.{
  Procstate, unused, embryo, sleeping, runnable, running, zombie, eqb_Procstate,
}
use operating_system.Threads.State.{Pthread, Process, Kern, lock, unlock}

-- The counters of set_proc_state, of which the loop leaves all but `has_running` below 2 ^ 31.
pub record Tally : Type 0 where
  pub n_unused : ℕ
  pub n_sleeping : ℕ
  pub n_runnable : ℕ
  pub has_running : Bool
  pub n_zombie : ℕ

abbrev pub no_tally : Tally
no_tally = record {
  n_unused = 0;
  n_sleeping = 0;
  n_runnable = 0;
  has_running = false;
  n_zombie = 0;
}

abbrev pub count_state : Procstate → Tally → Tally
count_state runnable c = record c { n_runnable = c.n_runnable + 1 }
count_state sleeping c = record c { n_sleeping = c.n_sleeping + 1 }
count_state zombie c = record c { n_zombie = c.n_zombie + 1 }
count_state unused c = record c { n_unused = c.n_unused + 1 }
count_state embryo c = c
count_state running c = c

-- The loop over the threads, with its break.
unfoldable pub tally : List Pthread → Tally → Tally
tally [] c = c
tally (th ∷ ths) c =
    if eqb_Procstate th.state running
    then record c { has_running = true }
    else tally ths (count_state th.state c)

abbrev pub decide : Tally → Procstate
decide c =
    if c.has_running
    then running
    else if not (c.n_runnable == 0)
    then runnable
    else if not (c.n_sleeping == 0)
    then sleeping
    else if not (c.n_zombie == 0)
    then zombie
    else unused

unfoldable pub set_proc_state : Process → Process
set_proc_state p = record p { state = decide (tally p.pth no_tally) }

abbrev pub sleeps_on : ℕ → Pthread → Bool
sleeps_on chan th = eqb_Procstate th.state sleeping && th.chan == chan

unfoldable pub wake_thread : ℕ → Pthread → Pthread
wake_thread chan th = if sleeps_on chan th then record th { state = runnable } else th

abbrev pub any_sleeper : ℕ → List Pthread → Bool
any_sleeper chan [] = false
any_sleeper chan (th ∷ ths) = sleeps_on chan th || any_sleeper chan ths

-- The body of wakeup1 at a process.
unfoldable pub wake_process : ℕ → Process → Process
wake_process chan p =
    if eqb_Procstate p.state sleeping
      || (eqb_Procstate p.state runnable || eqb_Procstate p.state running)
    then record p {
      pth = map (wake_thread chan) p.pth;
      state =
          if eqb_Procstate p.state sleeping && any_sleeper chan p.pth then runnable else p.state;
    }
    else p

unfoldable pub wakeup1 : ℕ → List Process → List Process
wakeup1 chan ps = map (wake_process chan) ps

unfoldable pub wakeup : ℕ → Kern (Unit {0})
wakeup chan = do
  lock ptable_lock
  modify (λ k. record k { procs = wakeup1 chan k.procs })
  unlock ptable_lock

abbrev pub rouse : Procstate → Procstate
rouse sleeping = runnable
rouse unused = unused
rouse embryo = embryo
rouse runnable = runnable
rouse running = running
rouse zombie = zombie

unfoldable pub kill_process : Process → Process
kill_process p = record p {
  killed = true;
  state = rouse p.state;
  pth = map {A = Pthread} (λ th. record th { state = rouse th.state }) p.pth;
}

-- The loop of kill: the table with the first process of that pid killed.
unfoldable pub kill_in : ℤ → List Process → Option (List Process)
kill_in pid [] = none
kill_in pid (p ∷ ps) =
    if eqb_ℤ p.pid pid
    then some (kill_process p ∷ ps)
    else elim (kill_in pid ps) [ none ↦ none | some qs ↦ some (p ∷ qs) ]

unfoldable pub killed_or_not : Option (List Process) → Kern ℤ
killed_or_not none = do unlock ptable_lock; pure (negsuc 0)
killed_or_not (some ps) = do modify (λ k. record k { procs = ps }); unlock ptable_lock; pure (pos 0)

unfoldable pub kill : ℤ → Kern ℤ
kill pid = do lock ptable_lock; k ← get; killed_or_not (kill_in pid k.procs)
