-- ===== src/Mlfq/Tests/Queueing.antt =====
-- The theorems on the system calls that move processes between queues, on concrete tables.
use operating_system.Common.{
  pos, negsuc, refl, inl, arith, some, ℕ, ◌≡◌, ◌==◌, if◌then◌else◌, set, length, ℤ, inc_int, ok,
  panic, ◌+◌, ◌-◌, ◌≢◌, get_elem?, count,
}
use operating_system.Mlfq.Level
use operating_system.Mlfq.Proc.{Proc, Kernel}
use operating_system.Mlfq.Queue.{setmonopoly, student_number, priority_boost}
use operating_system.Mlfq.Queue.Boost.{priority_boost_levels}
use operating_system.Mlfq.Queue.Count.{in_moq, Counted}
use operating_system.Mlfq.Queue.Monopoly.{
  locked, setmonopoly_keeps_lock, setmonopoly-Counted, setmonopoly_moves,
}
use operating_system.Mlfq.Spinlock.{ptable_lock, acquire}
use operating_system.Mlfq.Spinlock.Laws.{acquired, released}
use operating_system.Mlfq.Tests.{me, child, monopolist, busy}

setmonopoly-Counted_example :
    (n : ℤ) × (r : Kernel) × (setmonopoly (pos 3) student_number busy ≡ ok (n, r))
    × Counted r.procs r.queues
setmonopoly-Counted_example =
    setmonopoly-Counted busy 1 me (pos 3) student_number
      (record { current = refl; entry = refl; depth = refl; free = refl }) refl (ground arith)

setmonopoly_moves_example :
    setmonopoly (pos 3) student_number busy
    ≡ ok (
      inc_int busy.queues.moq_sz,
      record busy {
        cpu = released ptable_lock (acquired ptable_lock busy.cpu);
        procs = set busy.procs 2 (record child { qlev = Level.moq; seq = busy.queues.moq_cnt });
        queues = record (busy.queues) {
          moq_cnt = inc_int busy.queues.moq_cnt;
          moq_sz = inc_int busy.queues.moq_sz;
        };
      },
    )
setmonopoly_moves_example =
    setmonopoly_moves busy 1 me (pos 3) 2 child
      (record { current = refl; entry = refl; depth = refl; free = refl })
      (refl, (refl, (refl, refl, (refl, (refl, tt))))) refl refl

setmonopoly_keeps_lock_example :
    (setmonopoly (pos 4) student_number busy
      ≡ ok (if monopolist.qlev == Level.moq then negsuc 2 else negsuc 3, locked busy))
    × (acquire ptable_lock (locked busy).cpu ≡ panic "acquire")
setmonopoly_keeps_lock_example =
    setmonopoly_keeps_lock busy 1 me monopolist (pos 4)
      (record { current = refl; entry = refl; depth = refl; free = refl }) refl (inl refl)

priority_boost_levels_example :
    (r : Kernel) × (priority_boost busy ≡ ok (tt, r))
    × (r.queues.l0_cnt ≡ pos (3 + (length busy.procs - count in_moq busy.procs)))
    × ((j : ℕ) (p : Proc)
        → get_elem? busy.procs j ≡ some p
        → p.qlev ≢ Level.moq
        → get_elem? r.procs j ≡ some (record p { qlev = Level.l0; tick = pos 0 }))
    × ((j : ℕ) (p : Proc)
        → get_elem? busy.procs j ≡ some p
        → p.qlev ≡ Level.moq
        → get_elem? r.procs j ≡ some p)
priority_boost_levels_example = priority_boost_levels busy 3 refl refl (ground arith)
