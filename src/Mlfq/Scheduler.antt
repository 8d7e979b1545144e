-- ===== src/Mlfq/Scheduler.antt =====
-- The scheduler of xv6-public_project02/proc.c: the choice of the next process, the switch to it and
-- the way back, and the monopoly mode.
pub mod Order
pub mod Best
pub mod Loop
pub mod Choice
pub mod Monopoly
use operating_system.Common.{
  ℕ, ◌+◌, Bool, true, false, not, ◌&&◌, Option, none, some, List, [], ◌∷◌, ◌==◌, ltb, if◌then◌else◌,
  ℤ, pos, ltb_ℤ, eqb_ℤ, pure, ok, ◌>>=◌, ◌>>◌, get, modify, branch, when,
}
use operating_system.Mlfq.Spinlock.{ptable_lock, gticklock, sti, pushcli, popcli}
use operating_system.Mlfq.Level
use operating_system.Mlfq.Proc.{
  Proc, Kern, runnable, running, eqb_Procstate, switchuvm, switchkvm, on_cpu, call, proc_at,
  put_proc, lock, unlock,
}

-- A struct proc* of the scan: the index, and what the table holds there.
pub record Cand : Type 0 where
  pub slot : ℕ
  pub proc : Proc

-- The test by which the scan puts `p` in the place of the best process so far, `b`.
unfoldable pub replaces : Proc → Proc → Bool
replaces b p =
    if ltb p.qlev b.qlev
    then true
    else if b.qlev == p.qlev
    then (if b.qlev == Level.l3
        then (if ltb_ℤ b.priority p.priority
            then true
            else if eqb_ℤ b.priority p.priority
            then ltb_ℤ p.seq b.seq
            else false)
        else ltb_ℤ p.seq b.seq)
    else false

-- The variables scheduled_proc and MoQ_proc.
pub record Scan : Type 0 where
  pub scheduled : Option Cand
  pub monopolist : Option Cand

unfoldable pub visit_feedback : Cand → Option Cand → Option Cand
visit_feedback c none = some c
visit_feedback c (some b) = if replaces b.proc c.proc then some c else some b

unfoldable pub visit_monopoly : Cand → Option Cand → Option Cand
visit_monopoly c none = some c
visit_monopoly c (some b) = if ltb_ℤ c.proc.seq b.proc.seq then some c else some b

-- The loop's body at a process; `continue` gives the scan back.
unfoldable pub visit : Bool → Cand → Scan → Scan
unfolding visit_feedback visit_monopoly
visit active c s =
    if not (eqb_Procstate c.proc.state runnable)
    then s
    else if active
    then (if c.proc.qlev == Level.moq
        then record s { monopolist = visit_monopoly c s.monopolist }
        else s)
    else record s { scheduled = visit_feedback c s.scheduled }

-- The loop over the table from index `i` on. The `break` is at a runnable process.
unfoldable pub scan : Bool → ℤ → ℕ → List Proc → Scan → Scan
unfolding visit
scan active sz i [] s = s
scan active sz i (p ∷ ps) s =
    if eqb_Procstate p.state runnable && (active && eqb_ℤ sz (pos 0))
    then s
    else scan active sz (i + 1) ps (visit active (record { slot = i; proc = p }) s)

abbrev pub no_scan : Scan
no_scan = record { scheduled = none; monopolist = none }

unfoldable pub reset_global_tick : Kern (Unit {0})
reset_global_tick = do lock gticklock; modify (λ k. record k { global_tick = 0 }); unlock gticklock

unfoldable pub monopolize : Kern (Unit {0})
monopolize = modify (λ k. record k { queues = record (k.queues) { moq_active = true } })

unfoldable pub unmonopolize : Kern (Unit {0})
unfolding reset_global_tick
unmonopolize = do
  modify (λ k. record k { queues = record (k.queues) { moq_active = false } })
  reset_global_tick

-- The process that the monopoly mode runs; without one the mode ends, if its queue is empty.
unfoldable pub settle : Scan → Kern (Option Cand)
settle s k = elim s.monopolist [
  | some c ↦ ok (some c, k)
  | none ↦
      (do
        on_cpu pushcli
        when (eqb_ℤ k.queues.moq_sz (pos 0)) unmonopolize
        on_cpu popcli
        pure s.scheduled)
        k
]

-- The switch to the chosen process. From here on its code runs, and holds ptable.lock.
unfoldable pub switch_to : Cand → Kern (Option ℕ)
switch_to c = do
  modify (λ k. record k { cpu = record (k.cpu) { proc = some c.slot } })
  call (switchuvm c.slot)
  p ← proc_at c.slot
  put_proc c.slot (record p { state = running })
  pure (some c.slot)

unfoldable pub run_chosen : Option Cand → Kern (Option ℕ)
unfolding switch_to
run_chosen none = do unlock ptable_lock; pure none
run_chosen (some c) = switch_to c

-- One turn of the scheduler's loop up to the switch, or to its end where no process is chosen.
unfoldable pub schedule : Kern (Option ℕ)
unfolding run_chosen settle scan
schedule = do
  on_cpu (modify sti)
  lock ptable_lock
  k ← get
  let s = scan k.queues.moq_active k.queues.moq_sz 0 k.procs no_scan
  c ← branch k.queues.moq_active (settle s) (pure s.scheduled)
  run_chosen c

-- The rest of the turn, when the process has switched back.
unfoldable pub schedule_back : Kern (Unit {0})
schedule_back = do
  call switchkvm
  modify (λ k. record k { cpu = record (k.cpu) { proc = none } })
  unlock ptable_lock
