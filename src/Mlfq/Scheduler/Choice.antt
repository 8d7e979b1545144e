-- ===== src/Mlfq/Scheduler/Choice.antt =====
-- One turn of the scheduler: whom it runs, and the state that it leaves.
use operating_system.Common.{
  ℕ, ◌+◌, ◌≡◌, ◌≢◌, ◌⊎◌, inl, inr, false, none, some, List, ◌∷◌, get_elem?, set, ok, arith,
  Option-cases,
}
use operating_system.Mlfq.Spinlock.{ptable_lock, is_held, sti}
use operating_system.Mlfq.Spinlock.Laws.{acquired, released, acquire-free, release-held}
use operating_system.Mlfq.Proc.{Proc, Kernel, runnable, running, switchuvm}
use operating_system.Mlfq.Scheduler.{Cand, replaces, run_chosen, schedule}
use operating_system.Mlfq.Scheduler.Order.{Precedes, replaces_iff}
use operating_system.Mlfq.Scheduler.Best.{best, best-Best, best-none}
use operating_system.Mlfq.Scheduler.Loop.{is_ready, ready_state, replaces-StrictWeak, scan_feedback}

-- The state in which the loop runs: interrupts were on, and ptable.lock is taken.
abbrev pub inside : Kernel → Kernel
inside k = record k { cpu = acquired ptable_lock (sti k.cpu) }

-- The state in which the code of the chosen process goes on.
abbrev pub dispatched : Kernel → Cand → Kernel
dispatched k c = record k {
  cpu = record (acquired ptable_lock (sti k.cpu)) { proc = some c.slot };
  calls = switchuvm c.slot ∷ k.calls;
  procs = set k.procs c.slot (record (c.proc) { state = running });
}

-- The state after a turn without a process to run.
abbrev pub idled : Kernel → Kernel
idled k = record k { cpu = released ptable_lock (acquired ptable_lock (sti k.cpu)) }

pub run_chosen-none : (k : Kernel) → run_chosen none (inside k) ≡ ok (none, idled k)
unfolding run_chosen
run_chosen-none k = ground (arith, release-held ptable_lock (acquired ptable_lock (sti k.cpu)))

pub run_chosen-some :
    (k : Kernel) (c : Cand)
    → get_elem? k.procs c.slot ≡ some c.proc
    → run_chosen (some c) (inside k) ≡ ok (some c.slot, dispatched k c)
unfolding run_chosen
run_chosen-some k c h = ground arith

-- The turn up to the choice.
schedule-inside :
    (k : Kernel)
    → is_held ptable_lock k.cpu.held ≡ false
    → k.queues.moq_active ≡ false
    → schedule k ≡ run_chosen (best replaces is_ready 0 k.procs) (inside k)
unfolding schedule
schedule-inside k h a =
    ground (arith, acquire-free ptable_lock (sti k.cpu), scan_feedback k.queues.moq_sz 0 k.procs)

pub placed :
    (ps : List Proc) (c : Cand) (n : ℕ)
    → c.slot ≡ 0 + n
    → get_elem? ps n ≡ some c.proc
    → get_elem? ps c.slot ≡ some c.proc
placed ps c n e g = let f : c.slot ≡ n = omega arith in rw f g

-- With the monopoly mode off and ptable.lock free, one turn of the scheduler either switches to a
-- runnable process of the table that no runnable process precedes, marks it running and keeps the
-- lock; or no process is runnable, and the turn gives the lock back and changes nothing else.
pub schedule_feedback :
    (k : Kernel)
    → is_held ptable_lock k.cpu.held ≡ false
    → k.queues.moq_active ≡ false
    → ((c : Cand) × (schedule k ≡ ok (some c.slot, dispatched k c))
        × (get_elem? k.procs c.slot ≡ some c.proc)
        × (c.proc.state ≡ runnable)
        × ((j : ℕ) (q : Proc)
            → get_elem? k.procs j ≡ some q
            → q.state ≡ runnable
            → ¬ Precedes q c.proc))
      ⊎ ((schedule k ≡ ok (none, idled k))
          × ((j : ℕ) (q : Proc) → get_elem? k.procs j ≡ some q → q.state ≢ runnable))
schedule_feedback k h a = elim (Option-cases (best replaces is_ready 0 k.procs)) [
  | inl e ↦ inr (
    rw (schedule-inside k h a, e) (run_chosen-none k),
    λ j q g s. ground (arith, best-none replaces is_ready replaces-StrictWeak 0 k.procs e j q g),
  )
  | inr (c, e) ↦
      let b = best-Best replaces is_ready replaces-StrictWeak 0 k.procs c e in
      let there : get_elem? k.procs c.slot ≡ some c.proc =
        placed k.procs c b.place b.here b.there in
      inl (
        c,
        rw (schedule-inside k h a, e) (run_chosen-some k c there),
        there,
        ready_state c.proc.state b.selected,
        λ j q g s p. ground (arith, b.unbeaten j q g, (replaces_iff c.proc q).1 p),
      )
]
