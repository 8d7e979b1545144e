-- ===== src/Mlfq/Trap/Slices.antt =====
-- Time slices and demotion in `trap` of xv6-public_project02/trap.c.
use operating_system.Common.{
  ℕ, ◌+◌, ◌*◌, ◌^◌, ◌%◌, ◌<◌, ◌≤◌, ◌≡◌, ◌≢◌, ◌⊎◌, inl, inr, refl, ◌∙◌, true, false, some, ◌==◌, leb,
  if◌then◌else◌, get_elem?, get_elem?-map, get_elem?-set_self, get_elem?-set_ne, set-set, set, pos,
  inc_int, ok, arith, Bool-cases,
}
use operating_system.Mlfq.Spinlock.{ptable_lock, is_held}
use operating_system.Mlfq.Level
use operating_system.Mlfq.Proc.{Proc, Kernel, Queues, runnable}
use operating_system.Mlfq.Switch.Laws.{Outside, yielded, yield_lem, parked}
use operating_system.Mlfq.Queue.{boost_proc}
use operating_system.Mlfq.Queue.Boost.{boosted, priority_boost_lem}
use operating_system.Mlfq.Trap.{goes_on, gave_up, is_odd, is_expired, demote, expire, account}

-- The level below: L0 splits by the pid's parity, L1 and L2 lead to L3, and L3 is the last.
abbrev pub next_level : Proc → ℕ
next_level p = if p.qlev == 0 then (if is_odd p.pid then 1 else 2) else 3

-- The process behind one more timer tick, and the kernel with it.
abbrev pub ticked : Proc → Proc
ticked p = record p { tick = inc_int p.tick }

abbrev pub counted : Kernel → ℕ → Proc → Kernel
counted k i p = record k {
  procs = set k.procs i (ticked p);
  global_tick = (k.global_tick + 1) % 2 ^ 32;
}

pub demote_lem :
    (p : Proc) (q : Queues)
    → p.qlev ≤ 3
    → ((demote p q).0.qlev ≡ next_level p)
      × ((demote p q).0.tick ≡ pos 0)
      × ((demote p q).0.state ≡ p.state)
unfolding demote
demote_lem p q h = ground arith

account_lem :
    (k : Kernel) (i : ℕ) (p : Proc)
    → get_elem? k.procs i ≡ some p
    → k.queues.moq_active ≡ false
    → k.global_tick + 1 < 100
    → account i k ≡ expire i (counted k i p)
unfolding account
account_lem k i p e a t = ground arith

-- The process that has used up its slice, and the kernel with it, before it yields.
abbrev pub demoted : Kernel → ℕ → Proc → Kernel
demoted k i p = record (counted k i p) {
  procs = set k.procs i (demote (ticked p) k.queues).0;
  queues = (demote (ticked p) k.queues).1;
}

expire_goes_on :
    (k : Kernel) (i : ℕ) (p : Proc)
    → get_elem? k.procs i ≡ some p
    → is_expired p ≡ false
    → expire i k ≡ ok (goes_on, k)
unfolding expire
expire_goes_on k i p e x = ground arith

expire_gives_up :
    (k : Kernel) (i : ℕ) (p : Proc)
    → Outside k i p
    → is_expired (ticked p) ≡ true
    → expire i (counted k i p)
      ≡ ok (gave_up, yielded (demoted k i p) i (demote (ticked p) k.queues).0)
unfolding expire
expire_gives_up k i p o x = ground (
  arith,
  o.entry,
  get_elem?-set_self k.procs i (ticked p) o.entry,
  set-set k.procs i (ticked p) (demote (ticked p) k.queues).0,
  yield_lem (demoted k i p) i (demote (ticked p) k.queues).0 (record {
    current = o.current;
    entry = get_elem?-set_self k.procs i (demote (ticked p) k.queues).0 o.entry;
    depth = o.depth;
    free = o.free;
  }),
)

is_expired_iff :
    (p : Proc) (t : ℕ)
    → p.qlev ≤ 3
    → p.tick ≡ pos t
    → t + 1 < 2 ^ 31
    → is_expired (ticked p) ≡ leb (p.qlev * 2 + 2) (t + 1)
unfolding is_expired inc_int
is_expired_iff p t l e h = ground arith

-- The time slice of level n is 2 n + 2 ticks. For a process of L0 to L3 that runs outside every
-- critical section, with the monopoly mode off and no boost due: while the tick is below the slice,
-- the process goes on at its level with one tick more. At the slice it gives up the processor: it is
-- runnable, stands one level down (L0 leads to L1 for an odd pid and to L2 for an even one, L1 and L2
-- lead to L3, L3 stays) with a fresh slice, and ptable.lock is held for the switch.
pub account_slice :
    (k : Kernel) (i : ℕ) (p : Proc) (t : ℕ)
    → Outside k i p
    → k.queues.moq_active ≡ false
    → k.global_tick + 1 < 100
    → p.qlev ≤ 3
    → p.tick ≡ pos t
    → t + 1 < 2 ^ 31
    → ((t + 1 < p.qlev * 2 + 2)
        × (account i k ≡ ok (goes_on, counted k i p))
        × (get_elem? (counted k i p).procs i ≡ some (record p { tick = pos (t + 1) })))
      ⊎ ((p.qlev * 2 + 2 ≤ t + 1)
          × ((r : Kernel) × (z : Proc) × (account i k ≡ ok (gave_up, r))
              × (get_elem? r.procs i ≡ some z)
              × (z.state ≡ runnable)
              × (z.qlev ≡ next_level p)
              × (z.tick ≡ pos 0)
              × (is_held ptable_lock r.cpu.held ≡ true)))
unfolding inc_int
account_slice k i p t o a g l e h = elim (Bool-cases (leb (p.qlev * 2 + 2) (t + 1))) [
  | inl over ↦
      let z : Proc = (demote (ticked p) k.queues).0 in
      let (lev, tick, _) = demote_lem (ticked p) k.queues l in
      inr (
        ground arith,
        (
          yielded (demoted k i p) i z,
          parked (demoted k i p) z,
          rw (account_lem k i p o.entry a g)
              (expire_gives_up k i p o (is_expired_iff p t l e h ∙ over)),
          get_elem?-set_self (demoted k i p).procs i (parked (demoted k i p) z)
              (get_elem?-set_self k.procs i z o.entry),
          refl,
          lev,
          tick,
          refl,
        ),
      )
  | inr under ↦
      let entry : get_elem? (counted k i p).procs i ≡ some (ticked p) =
        get_elem?-set_self k.procs i (ticked p) o.entry in
      inl (
        ground arith,
        rw (account_lem k i p o.entry a g)
            (expire_goes_on (counted k i p) i (ticked p) entry (is_expired_iff p t l e h ∙ under)),
        ground (arith, entry),
      )
]

fresh_slice : (p : Proc) → p.qlev ≤ 3 → is_expired (boost_proc p) ≡ false
unfolding is_expired boost_proc
fresh_slice p l = ground arith

-- A boost is due.
account_due :
    (k : Kernel) (i : ℕ) (p : Proc)
    → Outside k i p
    → k.queues.moq_active ≡ false
    → k.global_tick + 1 ≡ 100
    → account i k ≡ expire i (boosted (record (counted k i p) { global_tick = 0 }))
unfolding account
account_due k i p o a g =
    ground (arith, o.entry, o.free, priority_boost_lem (record (counted k i p) { global_tick = 0 }))

-- The boost. At the tick that brings the global tick to 100, with the monopoly mode off, the
-- running process goes on, the global tick starts again from 0, and every process outside the
-- monopoly queue stands in L0 with a slice of which nothing is used. The running process is outside
-- every critical section and of a level below the monopoly queue's.
pub account_boost :
    (k : Kernel) (i : ℕ) (p : Proc)
    → Outside k i p
    → k.queues.moq_active ≡ false
    → k.global_tick + 1 ≡ 100
    → p.qlev ≤ 3
    → (r : Kernel) × (account i k ≡ ok (goes_on, r))
      × (r.global_tick ≡ 0)
      × ((j : ℕ) (q : Proc)
          → get_elem? k.procs j ≡ some q
          → q.qlev ≢ Level.moq
          → (z : Proc) × (get_elem? r.procs j ≡ some z) × (z.qlev ≡ Level.l0) × (z.tick ≡ pos 0))
unfolding boost_proc
account_boost k i p o a g l =
    let s : Kernel = record (counted k i p) { global_tick = 0 } in
    let r : Kernel = boosted s in
    let entry : get_elem? s.procs i ≡ some (ticked p) =
      get_elem?-set_self k.procs i (ticked p) o.entry in
    let mine : get_elem? r.procs i ≡ some (boost_proc (ticked p)) =
      get_elem?-map boost_proc s.procs i entry in
    (
      r,
      rw (account_due k i p o a g)
          (expire_goes_on r i (boost_proc (ticked p)) mine (fresh_slice (ticked p) l)),
      refl,
      λ j q e n. elim (Bool-cases (i == j)) [
        | inl same ↦
            let eq : i ≡ j = ground arith in
            (boost_proc (ticked p), rw (← eq) mine, ground arith, ground arith)
        | inr other ↦
            let ne : i ≢ j = ground arith in
            (
              boost_proc q,
              get_elem?-map boost_proc s.procs j (get_elem?-set_ne k.procs i j (ticked p) ne ∙ e),
              ground arith,
              ground arith,
            )
      ],
    )
