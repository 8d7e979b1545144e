-- ===== src/Mlfq/Scheduler/Monopoly.antt =====
-- One turn of the scheduler in the monopoly mode.
use operating_system.Common.{
  ℕ, ◌+◌, ◌<◌, ◌≡◌, ◌≢◌, ◌⊎◌, inl, inr, true, false, none, some, get_elem?, pos, eqb_ℤ, eqb_ℤ_iff,
  ◌<ℤ◌, ok, arith, Option-cases,
}
use operating_system.Mlfq.Spinlock.{Cpu, ptable_lock, gticklock, is_held, sti, pushcli, popcli}
use operating_system.Mlfq.Spinlock.Laws.{acquired, acquire-free, release-held}
use operating_system.Mlfq.Level
use operating_system.Mlfq.Proc.{Proc, Kernel, runnable}
use operating_system.Mlfq.Scheduler.{
  Cand, no_scan, run_chosen, schedule, settle, reset_global_tick, unmonopolize,
}
use operating_system.Mlfq.Scheduler.Best.{best, best-Best, best-none}
use operating_system.Mlfq.Scheduler.Loop.{
  is_monopolist, later_turn, ready_state, later_turn-StrictWeak, scan_monopoly, scan_empty,
}
use operating_system.Mlfq.Scheduler.Choice.{
  inside, dispatched, idled, run_chosen-none, run_chosen-some, placed,
}

schedule_found :
    (k : Kernel) (c : Cand)
    → is_held ptable_lock k.cpu.held ≡ false
    → k.queues.moq_active ≡ true
    → eqb_ℤ k.queues.moq_sz (pos 0) ≡ false
    → best later_turn is_monopolist 0 k.procs ≡ some c
    → schedule k ≡ run_chosen (some c) (inside k)
unfolding schedule
schedule_found k c h a z e =
    ground (arith, acquire-free ptable_lock (sti k.cpu), scan_monopoly k.queues.moq_sz 0 k.procs z)

schedule_missing :
    (k : Kernel)
    → is_held ptable_lock k.cpu.held ≡ false
    → k.queues.moq_active ≡ true
    → eqb_ℤ k.queues.moq_sz (pos 0) ≡ false
    → best later_turn is_monopolist 0 k.procs ≡ none
    → schedule k ≡ run_chosen none (inside k)
unfolding schedule pushcli popcli
schedule_missing k h a z e =
    ground (arith, acquire-free ptable_lock (sti k.cpu), scan_monopoly k.queues.moq_sz 0 k.procs z)

-- With the monopoly mode on and the size of its queue not zero, one turn of the scheduler either
-- switches to a runnable process of that queue, such that no other of these has a smaller sequence
-- number; or no process of the queue is runnable, and the turn runs nobody and changes nothing, even
-- where other processes are runnable.
pub schedule_monopoly :
    (k : Kernel)
    → is_held ptable_lock k.cpu.held ≡ false
    → k.queues.moq_active ≡ true
    → k.queues.moq_sz ≢ pos 0
    → ((c : Cand) × (schedule k ≡ ok (some c.slot, dispatched k c))
        × (get_elem? k.procs c.slot ≡ some c.proc)
        × (c.proc.state ≡ runnable)
        × (c.proc.qlev ≡ Level.moq)
        × ((j : ℕ) (q : Proc)
            → get_elem? k.procs j ≡ some q
            → q.state ≡ runnable
            → q.qlev ≡ Level.moq
            → ¬ (q.seq <ℤ c.proc.seq)))
      ⊎ ((schedule k ≡ ok (none, idled k))
          × ((j : ℕ) (q : Proc)
              → get_elem? k.procs j ≡ some q
              → q.state ≡ runnable
              → q.qlev ≢ Level.moq))
schedule_monopoly k h a n = elim (Option-cases (best later_turn is_monopolist 0 k.procs)) [
  | inl e ↦ inr (
    rw (schedule_missing k h a z e) (run_chosen-none k),
    λ j q g s l.
        ground (arith, best-none later_turn is_monopolist later_turn-StrictWeak 0 k.procs e j q g),
  )
  | inr (c, e) ↦
      let b = best-Best later_turn is_monopolist later_turn-StrictWeak 0 k.procs c e in
      let there : get_elem? k.procs c.slot ≡ some c.proc =
        placed k.procs c b.place b.here b.there in
      inl (
        c,
        rw (schedule_found k c h a z e) (run_chosen-some k c there),
        there,
        ready_state c.proc.state (ground (arith, b.selected)),
        ground (arith, b.selected),
        λ j q g s l t. ground (arith, b.unbeaten j q g),
      )
]
  where
    z : eqb_ℤ k.queues.moq_sz (pos 0) ≡ false
    z = ground (arith, eqb_ℤ_iff k.queues.moq_sz (pos 0))

-- Inside a critical section the two calls on gticklock leave the processor as it was.
pub reset_global_tick_lem :
    (k : Kernel)
    → is_held gticklock k.cpu.held ≡ false
    → k.cpu.interrupts ≡ false
    → 0 < k.cpu.ncli
    → reset_global_tick k ≡ ok (tt, record k { global_tick = 0 })
unfolding reset_global_tick
reset_global_tick_lem k h off n =
    ground (arith, acquire-free gticklock k.cpu, release-held gticklock (acquired gticklock k.cpu))

settle_ends :
    (k : Kernel)
    → is_held gticklock k.cpu.held ≡ false
    → k.cpu.interrupts ≡ false
    → 0 < k.cpu.ncli
    → k.queues.moq_sz ≡ pos 0
    → settle no_scan k
      ≡ ok (none, record k { queues = record (k.queues) { moq_active = false }; global_tick = 0 })
unfolding settle pushcli popcli unmonopolize
settle_ends k h off n z =
    let c : Cpu = record (k.cpu) { ncli = k.cpu.ncli + 1 } in
    ground (
      arith,
      reset_global_tick_lem
          (record k { cpu = c; queues = record (k.queues) { moq_active = false } }),
    )

-- The end of the monopoly mode: with the mode on and the size of its queue zero, one turn of the
-- scheduler turns the mode off, sets the global tick to 0 and runs nobody. Neither ptable.lock nor
-- gticklock may be held before.
pub schedule_monopoly_ends :
    (k : Kernel)
    → is_held ptable_lock k.cpu.held ≡ false
    → is_held gticklock k.cpu.held ≡ false
    → k.queues.moq_active ≡ true
    → k.queues.moq_sz ≡ pos 0
    → schedule k
      ≡ ok (
        none,
        record (idled k) { queues = record (k.queues) { moq_active = false }; global_tick = 0 },
      )
unfolding schedule
schedule_monopoly_ends k h g a z = ground (
  arith,
  acquire-free ptable_lock (sti k.cpu),
  scan_empty 0 k.procs,
  settle_ends (inside k),
  run_chosen-none (record k { queues = record (k.queues) { moq_active = false }; global_tick = 0 }),
)
