-- ===== src/Mlfq/Tests/Processes.antt =====
-- The theorems on time slices, exit, wait and fork, on concrete tables.
use operating_system.Common.{
  pos, negsuc, refl, arith, true, some, [], ℕ, ◌+◌, ◌*◌, ◌<◌, ◌≤◌, ◌≡◌, ◌≢◌, ◌⊎◌, get_elem?, set,
  inc_int, ok,
}
use operating_system.Mlfq.Exit.{exit}
use operating_system.Mlfq.Exit.Laws.{exit-Counted}
use operating_system.Mlfq.Exit.Wait.{WaitOutcome, wait_outcomes}
use operating_system.Mlfq.Level
use operating_system.Mlfq.Life.{fork}
use operating_system.Mlfq.Life.Fork.{unlocked, fork_outcomes}
use operating_system.Mlfq.Proc.{Proc, Kernel, runnable, zombie, unused}
use operating_system.Mlfq.Queue.Count.{Counted}
use operating_system.Mlfq.Spinlock.{ptable_lock, is_held}
use operating_system.Mlfq.Tests.{me, busy, bereaved, late}
use operating_system.Mlfq.Trap.{goes_on, gave_up, account}
use operating_system.Mlfq.Trap.Slices.{next_level, counted, account_slice, account_boost}

account_slice_example :
    ((1 + 1 < me.qlev * 2 + 2)
      × (account 1 busy ≡ ok (goes_on, counted busy 1 me))
      × (get_elem? (counted busy 1 me).procs 1 ≡ some (record me { tick = pos (1 + 1) })))
    ⊎ ((me.qlev * 2 + 2 ≤ 1 + 1)
        × ((r : Kernel) × (z : Proc) × (account 1 busy ≡ ok (gave_up, r))
            × (get_elem? r.procs 1 ≡ some z)
            × (z.state ≡ runnable)
            × (z.qlev ≡ next_level me)
            × (z.tick ≡ pos 0)
            × (is_held ptable_lock r.cpu.held ≡ true)))
account_slice_example =
    account_slice busy 1 me 1 (record { current = refl; entry = refl; depth = refl; free = refl })
      refl (ground arith) (ground arith) refl (ground arith)

account_boost_example :
    (r : Kernel) × (account 1 late ≡ ok (goes_on, r))
    × (r.global_tick ≡ 0)
    × ((j : ℕ) (q : Proc)
        → get_elem? late.procs j ≡ some q
        → q.qlev ≢ Level.moq
        → (z : Proc) × (get_elem? r.procs j ≡ some z) × (z.qlev ≡ Level.l0) × (z.tick ≡ pos 0))
account_boost_example =
    account_boost late 1 me (record { current = refl; entry = refl; depth = refl; free = refl })
      refl refl (ground arith)

exit-Counted_example :
    (r : Kernel) × (z : Proc) × (exit busy ≡ ok (tt, r))
    × (get_elem? r.procs 1 ≡ some z)
    × (z.state ≡ zombie)
    × ((j : ℕ) (c : Proc) → get_elem? r.procs j ≡ some c → c.parent ≢ some 1)
    × (is_held ptable_lock r.cpu.held ≡ true)
    × Counted r.procs r.queues
exit-Counted_example =
    exit-Counted busy 1 me (record { current = refl; entry = refl; depth = refl; free = refl })
      (λ e. ground arith) refl

wait_outcomes_example : WaitOutcome bereaved 1 me
wait_outcomes_example =
    wait_outcomes bereaved 1 me (record { current = refl; entry = refl; depth = refl; free = refl })

fork_outcomes_example :
    ((n : ℕ) × (c np : Proc) × (r : Kernel) × (fork 0x4000 0x5000 busy ≡ ok (busy.nextpid, r))
      × (get_elem? busy.procs n ≡ some np)
      × (np.state ≡ unused)
      × (r.procs ≡ set busy.procs n c)
      × (get_elem? r.procs n ≡ some c)
      × (c.state ≡ runnable)
      × (c.pid ≡ busy.nextpid)
      × (c.qlev ≡ Level.l0)
      × (c.tick ≡ pos 0)
      × (c.priority ≡ pos 0)
      × (c.parent ≡ some 1)
      × (c.sz ≡ me.sz)
      × (c.tf ≡ record (me.tf) { eax = 0 })
      × (get_elem? r.procs 1 ≡ some me)
      × (r.nextpid ≡ inc_int busy.nextpid)
      × (r.cpu.held ≡ []))
    ⊎ ((fork 0x4000 0x5000 busy ≡ ok (negsuc 0, unlocked busy))
        × ((j : ℕ) (p : Proc) → get_elem? busy.procs j ≡ some p → p.state ≢ unused))
fork_outcomes_example =
    fork_outcomes busy 1 me 0x4000 0x5000
      (record { current = refl; entry = refl; depth = refl; free = refl }) (λ e. ground arith)
      (λ e. omega arith) (λ e. ground arith)
