-- ===== src/Mlfq/Switch/Wakeup.antt =====
-- Sleeping and waking up: the lock that is passed to sleep, and what holds between the stores of sleep.
use operating_system.Common.{
  ℕ, ◌≡◌, refl, true, false, some, List, [], ◌∷◌, take, zero, suc, ap, ◌∙◌, none, panic, ◌⊎◌, inl,
  inr, not, when, get_elem?, set, get_elem?-set_self, get_elem?-map, set-set, ok, ◌>>=◌, ◌>>◌,
  arith,
}
use operating_system.Mlfq.Spinlock.{Cpu, Lock, ptable_lock, eqb_Lock, is_held}
use operating_system.Mlfq.Spinlock.Laws.{
  acquired, released, acquire-free, release-held, eqb_Lock_self,
}
use operating_system.Mlfq.Proc.{
  Proc, Kernel, Kern, lock, unlock, proc_at, put_proc, Chan, null, ticks_chan, proc_chan,
  other_chan, eqb_Chan, in_sleep, sleeping, runnable, running,
}
use operating_system.Mlfq.Switch.{
  sched, sleep_stages, run_all, sleep, resume, wake, wakeup1, wakeup,
}
use operating_system.Mlfq.Switch.Laws.{sched_lem, schedule_back_lem, scheduling}
use operating_system.Mlfq.Scheduler.{schedule_back}
use operating_system.Mlfq.Scheduler.Choice.{dispatched}

pub eqb_Chan_self : (c : Chan) → eqb_Chan c c ≡ true
eqb_Chan_self null = refl
eqb_Chan_self ticks_chan = refl
eqb_Chan_self (proc_chan n) = ground arith
eqb_Chan_self (other_chan n) = ground arith

-- A process runs in the kernel inside the one critical section of `lk`, which is not ptable.lock.
pub record Inside (k : Kernel) (i : ℕ) (p : Proc) (lk : Lock) : Type 0 where
  pub current : k.cpu.proc ≡ some i
  pub entry : get_elem? k.procs i ≡ some p
  pub depth : k.cpu.ncli ≡ 1
  pub off : k.cpu.interrupts ≡ false
  pub holds : k.cpu.held ≡ lk ∷ []
  pub other : eqb_Lock lk ptable_lock ≡ false
  pub apart : eqb_Lock ptable_lock lk ≡ false

-- The table entry of a process that sleeps.
abbrev pub asleep : Kernel → Proc → Chan → Lock → Proc
asleep k p chan lk = record p {
  chan = chan;
  state = sleeping;
  context = record { caller = in_sleep lk; saved_intena = k.cpu.intena };
}

abbrev pub slept : Kernel → ℕ → Proc → Chan → Lock → Kernel
slept k i p chan lk = record k {
  cpu = record (k.cpu) { held = ptable_lock ∷ [] };
  procs = set k.procs i (asleep k p chan lk);
}

-- The states between the stages of sleep.
abbrev both : Kernel → Kernel
both k = record k { cpu = acquired ptable_lock k.cpu }

abbrev handed : Kernel → Lock → Kernel
handed k lk = record k { cpu = released lk (acquired ptable_lock k.cpu) }

abbrev marked : Kernel → ℕ → Proc → Chan → Lock → Kernel
marked k i p chan lk = record (handed k lk) {
  procs = set k.procs i (record p { chan = chan; state = sleeping });
}

module _ (k : Kernel) (i : ℕ) (p : Proc) (chan : Chan) (lk : Lock) (o : Inside k i p lk) where
  stage_lock : when (not (eqb_Lock lk ptable_lock)) (lock ptable_lock) k ≡ ok (tt, both k)
  stage_lock = ground (arith, acquire-free ptable_lock k.cpu)

  stage_unlock : when (not (eqb_Lock lk ptable_lock)) (unlock lk) (both k) ≡ ok (tt, handed k lk)
  stage_unlock = ground (arith, eqb_Lock_self lk, release-held lk (acquired ptable_lock k.cpu))

  stage_mark :
      (do q ← proc_at i; put_proc i (record q { chan = chan; state = sleeping })) (handed k lk)
      ≡ ok (tt, marked k i p chan lk)
  stage_mark = ground (arith, o.entry)

  stage_sched : sched (in_sleep lk) (marked k i p chan lk) ≡ ok (tt, slept k i p chan lk)
  stage_sched = ground (
    arith,
    get_elem?-set_self k.procs i (record p { chan = chan; state = sleeping }) o.entry,
    set-set k.procs i (record p { chan = chan; state = sleeping }) (asleep k p chan lk),
    sched_lem (marked k i p chan lk) i (record p { chan = chan; state = sleeping }) (in_sleep lk),
  )

  run_all-sleep_stages : run_all (sleep_stages chan lk i) k ≡ ok (tt, slept k i p chan lk)
  unfolding run_all sleep_stages
  run_all-sleep_stages = rw (◌>>=◌, ◌>>◌, stage_lock, stage_unlock, stage_mark, stage_sched) refl

  pub sleep_lem : sleep chan (some lk) k ≡ ok (tt, slept k i p chan lk)
  unfolding sleep
  sleep_lem =
      ap (λ c. elim c [ none ↦ panic "sleep" | some j ↦ run_all (sleep_stages chan lk j) k ])
        o.current
      ∙ run_all-sleep_stages

pub wakeup_lem :
    (k : Kernel) (chan : Chan)
    → k.cpu.held ≡ []
    → k.cpu.ncli ≡ 0
    → (c : Cpu) × (wakeup chan k ≡ ok (tt, record k { cpu = c; procs = wakeup1 chan k.procs }))
      × (c.held ≡ [])
      × (c.ncli ≡ 0)
      × (c.proc ≡ k.cpu.proc)
unfolding wakeup
wakeup_lem k chan h n = (
  released ptable_lock (acquired ptable_lock k.cpu),
  ground (
    arith,
    acquire-free ptable_lock k.cpu,
    release-held ptable_lock (acquired ptable_lock k.cpu),
  ),
  ground arith,
  omega arith,
  refl,
)

abbrev pub restarted : Kernel → ℕ → Proc → Lock → Kernel
restarted k i p lk = record k {
  cpu = acquired lk (released ptable_lock (record (k.cpu) { intena = p.context.saved_intena }));
  procs = set k.procs i (record p { chan = null });
}

pub resume_sleep_lem :
    (k : Kernel) (i : ℕ) (p : Proc) (lk : Lock)
    → k.cpu.proc ≡ some i
    → get_elem? k.procs i ≡ some p
    → p.context.caller ≡ in_sleep lk
    → k.cpu.held ≡ ptable_lock ∷ []
    → k.cpu.ncli ≡ 1
    → k.cpu.interrupts ≡ false
    → eqb_Lock lk ptable_lock ≡ false
    → eqb_Lock ptable_lock lk ≡ false
    → resume k ≡ ok (tt, restarted k i p lk)
unfolding resume
resume_sleep_lem k i p lk c e t h n off l m = ground (
  arith,
  release-held ptable_lock (record (k.cpu) { intena = p.context.saved_intena }),
  acquire-free lk (released ptable_lock (record (k.cpu) { intena = p.context.saved_intena })),
)

-- A process that sleeps on the channel is runnable behind wakeup1.
pub woken_entry :
    (ps : List Proc) (i : ℕ) (p : Proc) (chan : Chan)
    → get_elem? ps i ≡ some p
    → p.state ≡ sleeping
    → p.chan ≡ chan
    → get_elem? (wakeup1 chan ps) i ≡ some (record p { state = runnable })
unfolding wakeup1 wake
woken_entry ps i p chan e s c = ground (arith, get_elem?-map (wake chan) ps i e, eqb_Chan_self chan)

-- The state that `m` leaves: interrupts are off, and the processor holds `lk` or ptable.lock.
abbrev pub Covered : Kern (Unit {0}) → Lock → Kernel → Type 0
Covered m lk k =
    (r : Kernel) × (m k ≡ ok (tt, r))
    × (r.cpu.interrupts ≡ false)
    × ((is_held lk r.cpu.held ≡ true) ⊎ (is_held ptable_lock r.cpu.held ≡ true))

take-[] : (n : ℕ) → take {A = Kern (Unit {0})} n [] ≡ []
take-[] zero = refl
take-[] (suc n) = refl

-- sleep is cut behind each of its calls and stores.
sleep-Covered :
    (k : Kernel) (i : ℕ) (p : Proc) (chan : Chan) (lk : Lock)
    → Inside k i p lk
    → (n : ℕ) → Covered (run_all (take n (sleep_stages chan lk i))) lk k
unfolding run_all sleep_stages
sleep-Covered k i p chan lk o zero =
    (k, refl, o.off, inl (ground (arith, o.holds, eqb_Lock_self lk)))
sleep-Covered k i p chan lk o (suc zero) =
    (both k, rw (◌>>=◌, ◌>>◌, stage_lock k i p chan lk o) refl, ground arith, inr (ground arith))
sleep-Covered k i p chan lk o (suc (suc zero)) = (
  handed k lk,
  rw (◌>>=◌, ◌>>◌, stage_lock k i p chan lk o, stage_unlock k i p chan lk o) refl,
  ground arith,
  inr (ground arith),
)
sleep-Covered k i p chan lk o (suc (suc (suc zero))) = (
  marked k i p chan lk,
  rw
      (
        ◌>>=◌,
        ◌>>◌,
        stage_lock k i p chan lk o,
        stage_unlock k i p chan lk o,
        stage_mark k i p chan lk o,
      )
      refl,
  ground arith,
  inr (ground arith),
)
sleep-Covered k i p chan lk o (suc (suc (suc (suc n)))) = (
  slept k i p chan lk,
  rw
      (
        ◌>>=◌,
        ◌>>◌,
        stage_lock k i p chan lk o,
        stage_unlock k i p chan lk o,
        stage_mark k i p chan lk o,
        stage_sched k i p chan lk o,
      )
      (ap (λ ms. run_all ms (slept k i p chan lk)) (take-[] n)),
  ground arith,
  inr (ground arith),
)

-- A process that holds the one lock `lk`, not ptable.lock, in the kernel and sleeps on a channel
-- with it. Wherever sleep is cut between its calls and stores, up to the switch, interrupts are off
-- and the processor holds `lk` or ptable.lock. At the end the scheduler goes on with no lock held,
-- the process sleeps, and a wakeup of the channel makes it runnable. When the scheduler has chosen
-- it, it holds `lk` again and no other lock, and its channel is cleared.
pub sleep_round :
    (k : Kernel) (i : ℕ) (p : Proc) (chan : Chan) (lk : Lock)
    → Inside k i p lk
    → ((n : ℕ) → Covered (run_all (take n (sleep_stages chan lk i))) lk k)
      × (b : Kernel) × (w : Kernel) × (q : Proc) × (r : Kernel) × ((sleep chan (some lk)
              >> schedule_back)
            k
          ≡ ok (tt, b))
      × (b.cpu.held ≡ [])
      × (get_elem? b.procs i ≡ some (asleep k p chan lk))
      × (wakeup chan b ≡ ok (tt, w))
      × (get_elem? w.procs i ≡ some q)
      × (q.state ≡ runnable)
      × (resume (dispatched w (record { slot = i; proc = q })) ≡ ok (tt, r))
      × (r.cpu.held ≡ lk ∷ [])
      × (get_elem? r.procs i ≡ some (record q { state = running; chan = null }))
sleep_round k i p chan lk o =
    let s : Proc = asleep k p chan lk in
    let b : Kernel = scheduling (slept k i p chan lk) in
    let entry : get_elem? b.procs i ≡ some s = get_elem?-set_self k.procs i s o.entry in
    let q : Proc = record s { state = runnable } in
    let (c, woken, held, depth, _) = wakeup_lem b chan refl refl in
    let w : Kernel = record b { cpu = c; procs = wakeup1 chan b.procs } in
    let woke : get_elem? w.procs i ≡ some q = woken_entry b.procs i s chan entry refl refl in
    let d : Kernel = dispatched w (record { slot = i; proc = q }) in
    let again : get_elem? d.procs i ≡ some (record q { state = running }) =
      get_elem?-set_self w.procs i (record q { state = running }) woke in
    (
      sleep-Covered k i p chan lk o,
      b,
      w,
      q,
      restarted d i (record q { state = running }) lk,
      ground (arith, sleep_lem k i p chan lk o, schedule_back_lem (slept k i p chan lk)),
      refl,
      entry,
      woken,
      woke,
      refl,
      resume_sleep_lem d i (record q { state = running }) lk refl again refl (ground arith)
          (omega arith) refl o.other o.apart,
      ground arith,
      get_elem?-set_self d.procs i (record q { state = running; chan = null }) again,
    )
