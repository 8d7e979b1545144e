-- ===== src/Procs/Round.antt =====
-- A round of mlfq_scheduler in ex_project3/HYU-ELE3021/xv6-public/mlfq.c, with the lock of the process table
-- and the current process: up to swtch, and behind it.
use operating_system.Common.{ℕ, Option, none, some, crash, pure, modify, ◌>>=◌, ◌>>◌}
use operating_system.Mlfq.Spinlock.{ptable_lock, sti}
use operating_system.Mlfq.Proc.{switchuvm, switchkvm}
use operating_system.Stride.State.{Float}
use operating_system.Stride.Turns.{Locals, before_switch, after_switch}
use operating_system.Procs.State.{Kern, put_cpu, on_sched, lock, unlock, call}

module _ (fl : Float) where
  abbrev pub set_current : Option ℕ → Kern fl (Unit {0})
  set_current o = modify (λ k. put_cpu fl k (record (k.cpu) { proc = o }))

  -- The lock is kept for the process that is switched to.
  abbrev pub switch_or_release : Option ℕ → Kern fl (Unit {0})
  switch_or_release none = unlock fl ptable_lock
  switch_or_release (some p) = call fl (switchuvm p)

  unfoldable pub begin_round : ℕ → Locals → Kern fl Locals
  begin_round now v = do
    modify (λ k. put_cpu fl k (sti k.cpu))
    lock fl ptable_lock
    w ← on_sched fl (before_switch fl now v)
    set_current w.cur
    switch_or_release w.cur
    pure w

  abbrev pub end_at : ℕ → ℕ → Locals → Option ℕ → Kern fl Locals
  end_at start end_time v none = crash
  end_at start end_time v (some p) = do
    call fl switchkvm
    w ← on_sched fl (after_switch fl p start end_time v)
    set_current none
    unlock fl ptable_lock
    pure w

  unfoldable pub end_round : ℕ → ℕ → Locals → Kern fl Locals
  end_round start end_time v = end_at start end_time v v.cur
