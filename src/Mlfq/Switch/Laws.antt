-- ===== src/Mlfq/Switch/Laws.antt =====
-- Giving up the processor and going on, on the states in which the kernel's code runs.
use operating_system.Common.{
  ℕ, ◌≡◌, refl, true, false, none, some, [], ◌∷◌, get_elem?, set, get_elem?-set_self, set-set, ok,
  ◌>>◌, arith,
}
use operating_system.Mlfq.Spinlock.{ptable_lock, is_held, holding}
use operating_system.Mlfq.Spinlock.Laws.{acquired, acquire-free, release-held}
use operating_system.Mlfq.Proc.{
  Proc, Kernel, Caller, in_yield, runnable, running, eqb_Procstate, switchkvm,
}
use operating_system.Mlfq.Switch.{sched, yield, resume}
use operating_system.Mlfq.Scheduler.{Cand, schedule_back}
use operating_system.Mlfq.Scheduler.Choice.{dispatched}

-- A process runs in the kernel outside every critical section.
pub record Outside (k : Kernel) (i : ℕ) (p : Proc) : Type 0 where
  pub current : k.cpu.proc ≡ some i
  pub entry : get_elem? k.procs i ≡ some p
  pub depth : k.cpu.ncli ≡ 0
  pub free : k.cpu.held ≡ []

pub sched_lem :
    (k : Kernel) (i : ℕ) (p : Proc) (caller : Caller)
    → k.cpu.proc ≡ some i
    → get_elem? k.procs i ≡ some p
    → is_held ptable_lock k.cpu.held ≡ true
    → k.cpu.ncli ≡ 1
    → k.cpu.interrupts ≡ false
    → eqb_Procstate p.state running ≡ false
    → sched caller k
      ≡ ok (
        tt,
        record k {
          procs =
              set k.procs i
                (record p { context = record { caller = caller; saved_intena = k.cpu.intena } });
        },
      )
unfolding sched holding
sched_lem k i p caller c e h n off s = ground arith

-- The table entry of a process that has yielded.
abbrev pub parked : Kernel → Proc → Proc
parked k p = record p {
  state = runnable;
  context = record { caller = in_yield; saved_intena = k.cpu.interrupts };
}

abbrev pub yielded : Kernel → ℕ → Proc → Kernel
yielded k i p = record k { cpu = acquired ptable_lock k.cpu; procs = set k.procs i (parked k p) }

pub yield_lem : (k : Kernel) (i : ℕ) (p : Proc) → Outside k i p → yield k ≡ ok (tt, yielded k i p)
unfolding yield
yield_lem k i p o = ground (
  arith,
  acquire-free ptable_lock k.cpu,
  get_elem?-set_self k.procs i (record p { state = runnable }) o.entry,
  set-set k.procs i (record p { state = runnable }) (parked k p),
  sched_lem
      (record k {
        cpu = acquired ptable_lock k.cpu;
        procs = set k.procs i (record p { state = runnable });
      })
      i (record p { state = runnable }) in_yield,
)

abbrev pub scheduling : Kernel → Kernel
scheduling k = record k {
  cpu = record (k.cpu) { proc = none; ncli = 0; held = []; interrupts = k.cpu.intena };
  calls = switchkvm ∷ k.calls;
}

abbrev pub resumed : Kernel → Proc → Kernel
resumed k p = record k {
  cpu = record (k.cpu) {
    ncli = 0;
    held = [];
    intena = p.context.saved_intena;
    interrupts = p.context.saved_intena;
  };
}

-- Back in the scheduler, with ptable.lock taken once: the lock is free and no process is current.
pub schedule_back_lem :
    (k : Kernel)
    → k.cpu.held ≡ ptable_lock ∷ []
    → k.cpu.ncli ≡ 1
    → k.cpu.interrupts ≡ false
    → schedule_back k ≡ ok (tt, scheduling k)
unfolding schedule_back
schedule_back_lem k h n off =
    ground (arith, release-held ptable_lock (record (k.cpu) { proc = none }))

pub resume_yield :
    (k : Kernel) (i : ℕ) (p : Proc)
    → k.cpu.proc ≡ some i
    → get_elem? k.procs i ≡ some p
    → p.context.caller ≡ in_yield
    → k.cpu.held ≡ ptable_lock ∷ []
    → k.cpu.ncli ≡ 1
    → k.cpu.interrupts ≡ false
    → resume k ≡ ok (tt, resumed k p)
unfolding resume
resume_yield k i p c e t h n off =
    ground (arith, release-held ptable_lock (record (k.cpu) { intena = p.context.saved_intena }))

-- A process that yields outside every critical section leaves the processor with no lock held and no
-- process current, and stands in the table as runnable. When the scheduler has chosen it again from
-- that state it goes on: it is current and running, holds no lock, and interrupts are as they were.
pub yield_round :
    (k : Kernel) (i : ℕ) (p : Proc)
    → Outside k i p
    → (b : Kernel) × (q : Proc) × (r : Kernel) × ((yield >> schedule_back) k ≡ ok (tt, b))
      × (b.cpu.proc ≡ none)
      × (b.cpu.held ≡ [])
      × (get_elem? b.procs i ≡ some q)
      × (q.state ≡ runnable)
      × (resume (dispatched b (record { slot = i; proc = q })) ≡ ok (tt, r))
      × (r.cpu.proc ≡ some i)
      × (r.cpu.held ≡ [])
      × (r.cpu.ncli ≡ 0)
      × (r.cpu.interrupts ≡ k.cpu.interrupts)
      × (get_elem? r.procs i ≡ some (record q { state = running }))
yield_round k i p o =
    let b : Kernel = scheduling (yielded k i p) in
    let q : Proc = parked k p in
    let c : Cand = record { slot = i; proc = q } in
    let r : Kernel = resumed (dispatched b c) q in
    let entry : get_elem? b.procs i ≡ some q = get_elem?-set_self k.procs i q o.entry in
    let again : get_elem? r.procs i ≡ some (record q { state = running }) =
      get_elem?-set_self b.procs i (record q { state = running }) entry in
    (
      b,
      q,
      r,
      ground (arith, yield_lem k i p o, schedule_back_lem (yielded k i p)),
      refl,
      refl,
      entry,
      refl,
      resume_yield (dispatched b c) i (record q { state = running }) refl again refl refl
          (omega arith) refl,
      refl,
      refl,
      refl,
      refl,
      again,
    )
