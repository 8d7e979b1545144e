-- ===== src/Mlfq/Queue/Boost.antt =====
-- priority_boost and setpriority of xv6-public_project02/proc.c.
use operating_system.Common.{
  ℕ, ◌+◌, ◌-◌, ◌^◌, ◌<◌, ◌≡◌, ◌≢◌, false, some, List, [], ◌∷◌, get_elem?, get_elem?-map, map, count,
  count-le, length, pos, inc_int, ok, arith,
}
use operating_system.Mlfq.Spinlock.{ptable_lock, is_held}
use operating_system.Mlfq.Spinlock.Laws.{acquired, released, acquire-free, release-held}
use operating_system.Mlfq.Level
use operating_system.Mlfq.Proc.{Proc, Kernel}
use operating_system.Mlfq.Queue.{boost_proc, boost_count, priority_boost}
use operating_system.Mlfq.Queue.Count.{in_moq}

abbrev pub free_again : Kernel → Kernel
free_again k = record k { cpu = released ptable_lock (acquired ptable_lock k.cpu) }

abbrev pub boosted : Kernel → Kernel
boosted k = record (free_again k) {
  procs = map boost_proc k.procs;
  queues = record (k.queues) { l0_cnt = boost_count k.procs k.queues.l0_cnt };
}

pub priority_boost_lem :
    (k : Kernel) → is_held ptable_lock k.cpu.held ≡ false → priority_boost k ≡ ok (tt, boosted k)
unfolding priority_boost
priority_boost_lem k h =
    ground
      (arith, acquire-free ptable_lock k.cpu, release-held ptable_lock (acquired ptable_lock k.cpu))

-- L0_cnt rises by the number of entries outside the monopoly queue.
pub boost_count_lem :
    (ps : List Proc) (n : ℕ)
    → n + length ps < 2 ^ 31
    → boost_count ps (pos n) ≡ pos (n + (length ps - count in_moq ps))
unfolding boost_count inc_int
boost_count_lem [] n h = ground arith
boost_count_lem (p ∷ ps) n h =
    ground (arith, count-le in_moq ps, boost_count_lem ps n, boost_count_lem ps (n + 1))

-- A priority boost, called with ptable.lock free, puts every process outside the monopoly queue in L0
-- with a fresh time slice, keeps its sequence number and its priority, leaves the processes of the
-- monopoly queue as they are, and raises L0_cnt by the number of processes that it has put in L0, as
-- long as that stays below 2 ^ 31.
pub priority_boost_levels :
    (k : Kernel) (n : ℕ)
    → is_held ptable_lock k.cpu.held ≡ false
    → k.queues.l0_cnt ≡ pos n
    → n + length k.procs < 2 ^ 31
    → (r : Kernel) × (priority_boost k ≡ ok (tt, r))
      × (r.queues.l0_cnt ≡ pos (n + (length k.procs - count in_moq k.procs)))
      × ((j : ℕ) (p : Proc)
          → get_elem? k.procs j ≡ some p
          → p.qlev ≢ Level.moq
          → get_elem? r.procs j ≡ some (record p { qlev = Level.l0; tick = pos 0 }))
      × ((j : ℕ) (p : Proc)
          → get_elem? k.procs j ≡ some p
          → p.qlev ≡ Level.moq
          → get_elem? r.procs j ≡ some p)
unfolding boost_proc
priority_boost_levels k n h e b = (
  boosted k,
  priority_boost_lem k h,
  rw e (boost_count_lem k.procs n b),
  λ j p g l. ground (arith, get_elem?-map boost_proc k.procs j g),
  λ j p g l. ground (arith, get_elem?-map boost_proc k.procs j g),
)
