-- ===== src/Mlfq/Tests/Scheduling.antt =====
-- The theorems on locks, the scheduler, switches and time slices, on concrete tables.
use operating_system.Common.{
  refl, arith, some, [], ◌∷◌, ◌≡◌, ok, ◌>>◌, ℕ, take, ◌≢◌, ◌⊎◌, none, get_elem?, ◌<ℤ◌,
}
use operating_system.Mlfq.Level
use operating_system.Mlfq.Proc.{ticks_chan, Proc, Kernel, runnable, running, null}
use operating_system.Mlfq.Scheduler.{Cand, schedule, schedule_back}
use operating_system.Mlfq.Scheduler.Choice.{dispatched, idled, schedule_feedback}
use operating_system.Mlfq.Scheduler.Monopoly.{schedule_monopoly}
use operating_system.Mlfq.Scheduler.Order.{Precedes}
use operating_system.Mlfq.Spinlock.{tickslock}
use operating_system.Mlfq.Switch.{yield, resume, run_all, sleep_stages, sleep, wakeup}
use operating_system.Mlfq.Switch.Laws.{yield_round}
use operating_system.Mlfq.Switch.Wakeup.{asleep, Covered, sleep_round}
use operating_system.Mlfq.Tests.{waiting, me, busy, locking, monopoly}

schedule_feedback_example :
    ((c : Cand) × (schedule waiting ≡ ok (some c.slot, dispatched waiting c))
      × (get_elem? waiting.procs c.slot ≡ some c.proc)
      × (c.proc.state ≡ runnable)
      × ((j : ℕ) (q : Proc)
          → get_elem? waiting.procs j ≡ some q
          → q.state ≡ runnable
          → ¬ Precedes q c.proc))
    ⊎ ((schedule waiting ≡ ok (none, idled waiting))
        × ((j : ℕ) (q : Proc) → get_elem? waiting.procs j ≡ some q → q.state ≢ runnable))
schedule_feedback_example = schedule_feedback waiting refl refl

schedule_monopoly_example :
    ((c : Cand) × (schedule monopoly ≡ ok (some c.slot, dispatched monopoly c))
      × (get_elem? monopoly.procs c.slot ≡ some c.proc)
      × (c.proc.state ≡ runnable)
      × (c.proc.qlev ≡ Level.moq)
      × ((j : ℕ) (q : Proc)
          → get_elem? monopoly.procs j ≡ some q
          → q.state ≡ runnable
          → q.qlev ≡ Level.moq
          → ¬ (q.seq <ℤ c.proc.seq)))
    ⊎ ((schedule monopoly ≡ ok (none, idled monopoly))
        × ((j : ℕ) (q : Proc)
            → get_elem? monopoly.procs j ≡ some q
            → q.state ≡ runnable
            → q.qlev ≢ Level.moq))
schedule_monopoly_example = schedule_monopoly monopoly refl refl (λ e. ground arith)

yield_round_example :
    (b : Kernel) × (q : Proc) × (r : Kernel) × ((yield >> schedule_back) busy ≡ ok (tt, b))
    × (b.cpu.proc ≡ none)
    × (b.cpu.held ≡ [])
    × (get_elem? b.procs 1 ≡ some q)
    × (q.state ≡ runnable)
    × (resume (dispatched b (record { slot = 1; proc = q })) ≡ ok (tt, r))
    × (r.cpu.proc ≡ some 1)
    × (r.cpu.held ≡ [])
    × (r.cpu.ncli ≡ 0)
    × (r.cpu.interrupts ≡ busy.cpu.interrupts)
    × (get_elem? r.procs 1 ≡ some (record q { state = running }))
yield_round_example =
    yield_round busy 1 me (record { current = refl; entry = refl; depth = refl; free = refl })

sleep_round_example :
    ((n : ℕ) → Covered (run_all (take n (sleep_stages ticks_chan tickslock 1))) tickslock locking)
    × (b : Kernel) × (w : Kernel) × (q : Proc) × (r : Kernel) × ((sleep ticks_chan (some tickslock)
            >> schedule_back)
          locking
        ≡ ok (tt, b))
    × (b.cpu.held ≡ [])
    × (get_elem? b.procs 1 ≡ some (asleep locking me ticks_chan tickslock))
    × (wakeup ticks_chan b ≡ ok (tt, w))
    × (get_elem? w.procs 1 ≡ some q)
    × (q.state ≡ runnable)
    × (resume (dispatched w (record { slot = 1; proc = q })) ≡ ok (tt, r))
    × (r.cpu.held ≡ tickslock ∷ [])
    × (get_elem? r.procs 1 ≡ some (record q { state = running; chan = null }))
sleep_round_example = sleep_round locking 1 me ticks_chan tickslock (record {
  current = refl;
  entry = refl;
  depth = refl;
  off = refl;
  holds = refl;
  other = refl;
  apart = refl;
})
