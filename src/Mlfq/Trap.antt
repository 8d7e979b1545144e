-- ===== src/Mlfq/Trap.antt =====
-- xv6-public_project02/trap.c: the timer interrupt, with the accounting of time slices.
pub mod Slices
use operating_system.Common.{
  ℕ, ◌+◌, ◌*◌, ◌%◌, ◌^◌, Bool, not, ◌&&◌, ◌||◌, none, some, ◌==◌, leb, if◌then◌else◌, ℤ, pos,
  pos_part, neg_part, ltb_ℤ, to_u32, inc_int, dec_int, pure, ok, ◌>>=◌, ◌>>◌, get, modify, branch,
  when,
}
use operating_system.Mlfq.Spinlock.{tickslock}
use operating_system.Mlfq.Level
use operating_system.Mlfq.Proc.{
  Proc, Kern, Queues, ticks_chan, running, eqb_Procstate, proc_at, put_proc, set_queues, lock,
  unlock,
}
use operating_system.Mlfq.Switch.{yield, wakeup}
use operating_system.Mlfq.Queue.{priority_boost, inc_levcnt, get_levcnt}
use operating_system.Mlfq.Exit.{exit}

-- The case T_IRQ0 + IRQ_TIMER.
unfoldable pub count_tick : Kern (Unit {0})
unfolding wakeup
count_tick = do
  lock tickslock
  modify (λ k. record k { ticks = (k.ticks + 1) % 2 ^ 32 })
  wakeup ticks_chan
  unlock tickslock

unfoldable pub is_odd : ℤ → Bool
is_odd z = not ((pos_part z + neg_part z) % 2 == 0)

-- The time slice of a level is used up. The field qlev is unsigned, and so is the comparison.
unfoldable pub is_expired : Proc → Bool
is_expired p = not (p.qlev == Level.moq) && leb ((p.qlev * 2 + 2) % 2 ^ 32) (to_u32 p.tick)

unfoldable pub move_to : ℕ → Proc → Queues → Proc × Queues
unfolding inc_levcnt get_levcnt
move_to lev p q =
    (record p { qlev = lev; seq = get_levcnt (pos lev) q; tick = pos 0 }, inc_levcnt (pos lev) q)

unfoldable pub demote : Proc → Queues → Proc × Queues
unfolding move_to is_odd
demote p q =
    if p.qlev == Level.l0
    then (if is_odd p.pid then move_to Level.l1 p q else move_to Level.l2 p q)
    else if p.qlev == Level.l1 || p.qlev == Level.l2
    then move_to Level.l3 p q
    else if p.qlev == Level.l3
    then (
      record p {
        priority = if ltb_ℤ (pos 0) p.priority then dec_int p.priority else p.priority;
        tick = pos 0;
      },
      q,
    )
    else (p, q)

-- What `account` leaves to do: the process goes on, or has given up the processor.
pub data Turn : Type 0 where
  goes_on gave_up : Turn

unfoldable pub boost_if_due : Kern (Unit {0})
boost_if_due = do
  k ← get
  when (leb 100 k.global_tick) (do modify (λ k. record k { global_tick = 0 }); priority_boost)

unfoldable pub expire : ℕ → Kern Turn
expire i = do
  p ← proc_at i
  branch (is_expired p)
      (do
        k ← get
        put_proc i (demote p k.queues).0
        set_queues (demote p k.queues).1
        yield
        pure gave_up)
      (pure goes_on)

-- The accounting for the running process.
unfoldable pub account : ℕ → Kern Turn
unfolding boost_if_due
account i = do
  p ← proc_at i
  put_proc i (record p { tick = inc_int p.tick })
  modify (λ k. record k { global_tick = (k.global_tick + 1) % 2 ^ 32 })
  k ← get
  branch k.queues.moq_active (pure goes_on) (do boost_if_due; expire i)

unfoldable pub account_running : Kern Turn
unfolding account
account_running k = elim k.cpu.proc [
  | none ↦ ok (goes_on, k)
  | some i ↦ (do p ← proc_at i; branch (eqb_Procstate p.state running) (account i) (pure goes_on)) k
]

-- `user` tells that the trap came from user space.
unfoldable pub exit_if_killed : Bool → Kern Turn
exit_if_killed user k = elim k.cpu.proc [
  | none ↦ ok (goes_on, k)
  | some i ↦ (do p ← proc_at i; branch (p.killed && user) (do exit; pure gave_up) (pure goes_on)) k
]

abbrev pub and_then : Turn → Kern Turn → Kern Turn
and_then gave_up m = pure gave_up
and_then goes_on m = m

-- `trap` at a timer interrupt, up to its end or to the point where the process gives up the
-- processor. Behind a yield follows `exit_if_killed` once more.
unfoldable pub timer_interrupt : Bool → Kern Turn
unfolding count_tick exit_if_killed account_running
timer_interrupt user = do
  count_tick
  t ← exit_if_killed user
  and_then t (do u ← account_running; and_then u (exit_if_killed user))
