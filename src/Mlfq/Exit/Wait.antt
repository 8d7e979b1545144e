-- ===== src/Mlfq/Exit/Wait.antt =====
-- wait of xv6-public_project02/proc.c: every outcome of a call.
use operating_system.Common.{
  ℕ, ◌≡◌, ◌≢◌, ◌⊎◌, inl, inr, refl, Bool, true, false, none, some, ◌∷◌, get_elem?, set,
  get_elem?-set_self, set-set, negsuc, ok, arith, Bool-cases,
}
use operating_system.Mlfq.Spinlock.{ptable_lock}
use operating_system.Mlfq.Spinlock.Laws.{acquired, released, acquire-free, release-held}
use operating_system.Mlfq.Proc.{
  in_sleep, Proc, Kernel, proc_chan, kfree, freevm, zombie, unused, sleeping,
}
use operating_system.Mlfq.Switch.{sleep}
use operating_system.Mlfq.Switch.Laws.{Outside, sched_lem}
use operating_system.Mlfq.Exit.{Children, dead, alive, find_dead, reap, wait}
use operating_system.Mlfq.Exit.Scan.{Found, find_dead-Found}

-- The state behind a return of wait that reaps nothing.
abbrev pub left : Kernel → Kernel
left k = record k { cpu = released ptable_lock (acquired ptable_lock k.cpu) }

abbrev pub reaped : Kernel → ℕ → Proc → Kernel
reaped k j c = record (left k) {
  procs = set k.procs j (reap c);
  calls = freevm c.pgdir ∷ kfree c.kstack ∷ k.calls;
}

wait_dead :
    (k : Kernel) (i : ℕ) (p : Proc) (j : ℕ) (c : Proc)
    → Outside k i p
    → find_dead i 0 false k.procs ≡ dead j
    → get_elem? k.procs j ≡ some c
    → wait k ≡ ok (some c.pid, reaped k j c)
unfolding wait
wait_dead k i p j c o e g = ground (
  arith,
  o.current,
  acquire-free ptable_lock k.cpu,
  release-held ptable_lock (acquired ptable_lock k.cpu),
)

wait_returns :
    (k : Kernel) (i : ℕ) (p : Proc) (b : Bool)
    → Outside k i p
    → find_dead i 0 false k.procs ≡ alive b
    → (b ≡ false) ⊎ (p.killed ≡ true)
    → wait k ≡ ok (some (negsuc 0), left k)
unfolding wait
wait_returns k i p b o e h = ground (
  arith,
  o.current,
  o.entry,
  acquire-free ptable_lock k.cpu,
  release-held ptable_lock (acquired ptable_lock k.cpu),
)

-- The table entry of a process that waits for its children.
abbrev pub waits : Kernel → ℕ → Proc → Proc
waits k i p = record p {
  chan = proc_chan i;
  state = sleeping;
  context = record { caller = in_sleep ptable_lock; saved_intena = k.cpu.interrupts };
}

abbrev pub waiting : Kernel → ℕ → Proc → Kernel
waiting k i p = record k { cpu = acquired ptable_lock k.cpu; procs = set k.procs i (waits k i p) }

wait_sleeps :
    (k : Kernel) (i : ℕ) (p : Proc)
    → Outside k i p
    → find_dead i 0 false k.procs ≡ alive true
    → p.killed ≡ false
    → wait k ≡ ok (none, waiting k i p)
unfolding wait sleep
wait_sleeps k i p o e h = ground (
  arith,
  o.current,
  o.entry,
  acquire-free ptable_lock k.cpu,
  get_elem?-set_self k.procs i (record p { chan = proc_chan i; state = sleeping }) o.entry,
  set-set k.procs i (record p { chan = proc_chan i; state = sleeping }) (waits k i p),
  sched_lem
      (record k {
        cpu = acquired ptable_lock k.cpu;
        procs = set k.procs i (record p { chan = proc_chan i; state = sleeping });
      })
      i (record p { chan = proc_chan i; state = sleeping }) (in_sleep ptable_lock),
)

-- The three outcomes of wait.
abbrev pub WaitOutcome : Kernel → ℕ → Proc → Type 0
WaitOutcome k i p =
    ((j : ℕ) × (c : Proc) × (get_elem? k.procs j ≡ some c)
      × (c.parent ≡ some i)
      × (c.state ≡ zombie)
      × (wait k ≡ ok (some c.pid, reaped k j c))
      × ((reap c).state ≡ unused))
    ⊎ ((wait k ≡ ok (some (negsuc 0), left k))
        × ((n : ℕ) (c : Proc) → get_elem? k.procs n ≡ some c → c.parent ≡ some i → c.state ≢ zombie)
        × (((n : ℕ) (c : Proc) → get_elem? k.procs n ≡ some c → c.parent ≢ some i)
            ⊎ (p.killed ≡ true)))
    ⊎ ((wait k ≡ ok (none, waiting k i p))
        × ((n : ℕ) (c : Proc) → get_elem? k.procs n ≡ some c → c.parent ≡ some i → c.state ≢ zombie)
        × ((n : ℕ) × (c : Proc) × (get_elem? k.procs n ≡ some c) × (c.parent ≡ some i))
        × (p.killed ≡ false))

-- wait, called outside every critical section, has three outcomes. It reaps a zombie child: returns
-- its pid, frees its kernel stack and page table, and leaves its entry unused. Or no child is a
-- zombie, and the process has no child or is killed: it returns -1 and changes no entry. Or no child
-- is a zombie, there is a child, and the process is not killed: it sleeps on its own address. On the
-- first two outcomes ptable.lock is given back.
pub wait_outcomes : (k : Kernel) (i : ℕ) (p : Proc) → Outside k i p → WaitOutcome k i p
unfolding reap
wait_outcomes k i p o =
    by_scan (find_dead i 0 false k.procs) refl (find_dead-Found i 0 false k.procs)
  where
    by_scan :
        (s : Children)
        → find_dead i 0 false k.procs ≡ s
        → Found i 0 k.procs false s
        → WaitOutcome k i p
    by_scan (dead m) e (n, c, f, g, t, z) =
        let same : m ≡ n = omega arith in
        inl (n, c, g, t, z, wait_dead k i p n c o (ground (arith, same)) g, refl)
    by_scan (alive false) e (none_dead, no_kids, kids) =
        inr (inl (wait_returns k i p false o e (inl refl), none_dead, inl ((no_kids refl).1)))
    by_scan (alive true) e (none_dead, no_kids, kids) = elim (Bool-cases p.killed) [
      | inl h ↦ inr (inl (wait_returns k i p true o e (inr h), none_dead, inr h))
      | inr h ↦ inr (
          inr (
            wait_sleeps k i p o e h,
            none_dead,
            elim (kids refl) [ inl t ↦ absurd (cc) | inr r ↦ r ],
            h,
          ))
    ]
