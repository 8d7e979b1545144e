-- ===== src/Threads/Join/Laws.antt =====
-- thread_exit and thread_join of xv6-public_project03/proc.c.
use operating_system.Common.{
  ℕ, zero, suc, ◌+◌, ◌≡◌, ◌≢◌, ◌⊎◌, inl, inr, refl, true, false, none, some, List, [], ◌∷◌,
  get_elem?, get_elem?-set_self, set, set-set, ℤ, to_u32, eqb_ℤ, eqb_ℤ_iff, ok, arith, Bool-cases,
  Option-cases,
}
use operating_system.Mlfq.Spinlock.{ptable_lock, is_held, holding}
use operating_system.Mlfq.Spinlock.Laws.{acquired, released, acquire-free, release-held}
use operating_system.Mlfq.Proc.{
  Procstate, unused, embryo, sleeping, runnable, running, zombie, eqb_Procstate, Caller, in_sleep,
}
use operating_system.Threads.State.{Pthread, Process, Kernel, mypth}
use operating_system.Threads.Group.{set_proc_state}
use operating_system.Threads.Join.{
  sched, sleep, find_in, find_tid, joined, no_thread, asleep, reap_thread, join_found, join_turn,
  thread_join,
}

-- Thread `me` of process `i` runs in the kernel outside every critical section.
pub record Active (k : Kernel) (i : ℕ) (p : Process) (me : Pthread) : Type 0 where
  pub current : k.cpu.proc ≡ some i
  pub entry : get_elem? k.procs i ≡ some p
  pub thread : get_elem? p.pth p.on_tidx ≡ some me
  pub depth : k.cpu.ncli ≡ 0
  pub free : k.cpu.held ≡ []

find_in-some :
    (tid : ℤ) (t : ℕ) (ths : List Pthread) (m : ℕ)
    → find_in tid t ths ≡ some m
    → (n : ℕ) × (th : Pthread) × (m ≡ t + n) × (get_elem? ths n ≡ some th) × (th.tid ≡ tid)
unfolding find_in
find_in-some tid t [] m e = absurd (cc)
find_in-some tid t (th ∷ ths) m e = elim (Bool-cases (eqb_ℤ th.tid tid)) [
  | inl h ↦ (0, th, ground arith, refl, (eqb_ℤ_iff th.tid tid).0 h)
  | inr h ↦
      let (n, q, f, g, s) = find_in-some tid (suc t) ths m (rw h at e) in
      (suc n, q, omega arith, g, s)
]

find_in-none :
    (tid : ℤ) (t : ℕ) (ths : List Pthread)
    → find_in tid t ths ≡ none
    → (n : ℕ) (th : Pthread) → get_elem? ths n ≡ some th
    → th.tid ≢ tid
unfolding find_in
find_in-none tid t [] e n th g = cc
find_in-none tid t (r ∷ ths) e zero th g = λ s. ground (arith, eqb_ℤ_iff r.tid tid)
find_in-none tid t (r ∷ ths) e (suc n) th g = elim (Bool-cases (eqb_ℤ r.tid tid)) [
  | inl h ↦ absurd (cc (rw h at e))
  | inr h ↦ find_in-none tid (suc t) ths (rw h at e) n th g
]

find_tid-some :
    (tid : ℤ) (i : ℕ) (ps : List Process) (a b : ℕ)
    → find_tid tid i ps ≡ some (a, b)
    → (n : ℕ) × (q : Process) × (th : Pthread) × (a ≡ i + n)
      × (get_elem? ps n ≡ some q)
      × (get_elem? q.pth b ≡ some th)
      × (th.tid ≡ tid)
unfolding find_tid
find_tid-some tid i [] a b e = absurd (cc)
find_tid-some tid i (p ∷ ps) a b e = elim (Option-cases (find_in tid 0 p.pth)) [
  | inl h ↦
      let (n, q, th, f, g, l, s) = find_tid-some tid (suc i) ps a b (rw h at e) in
      (suc n, q, th, omega arith, g, l, s)
  | inr (t, h) ↦
      let (n, th, f, g, s) = find_in-some tid 0 p.pth t h in
      let same : some (i, t) ≡ some (a, b) = rw h at e in
      (0, p, th, ground arith, refl, ground (arith, f, g), s)
]

find_tid-none :
    (tid : ℤ) (i : ℕ) (ps : List Process)
    → find_tid tid i ps ≡ none
    → (n t : ℕ) (q : Process) (th : Pthread) → get_elem? ps n ≡ some q
    → get_elem? q.pth t ≡ some th
    → th.tid ≢ tid
unfolding find_tid
find_tid-none tid i [] e n t q th g l = cc
find_tid-none tid i (p ∷ ps) e zero t q th g l = elim (Option-cases (find_in tid 0 p.pth)) [
  | inl h ↦ find_in-none tid 0 p.pth h t th (ground (arith, l))
  | inr (m, h) ↦ absurd (cc (rw h at e))
]
find_tid-none tid i (p ∷ ps) e (suc n) t q th g l = elim (Option-cases (find_in tid 0 p.pth)) [
  | inl h ↦ find_tid-none tid (suc i) ps (rw h at e) n t q th g l
  | inr (m, h) ↦ absurd (cc (rw h at e))
]

-- The thread that sleeps on the channel in thread_join, and its process.
abbrev pub dozing : Kernel → Pthread → ℕ → Pthread
dozing k me chan = record me {
  chan = chan;
  state = sleeping;
  context = record { caller = in_sleep ptable_lock; saved_intena = k.cpu.interrupts };
}

-- The process behind set_proc_state, with that thread asleep.
abbrev pub regrouped : Process → Pthread → ℕ → Process
regrouped p me chan =
    set_proc_state
      (record p { pth = set p.pth p.on_tidx (record me { chan = chan; state = sleeping }) })

abbrev pub dozing_in : Kernel → Process → Pthread → ℕ → Process
dozing_in k p me chan = record (regrouped p me chan) {
  pth = set p.pth p.on_tidx (dozing k me chan);
}

abbrev pub locked : Kernel → Kernel
locked k = record k { cpu = acquired ptable_lock k.cpu }

abbrev pub left : Kernel → Kernel
left k = record k { cpu = released ptable_lock (acquired ptable_lock k.cpu) }

sched_lem :
    (k : Kernel) (i : ℕ) (p : Process) (me : Pthread) (caller : Caller)
    → k.cpu.proc ≡ some i
    → get_elem? k.procs i ≡ some p
    → get_elem? p.pth p.on_tidx ≡ some me
    → is_held ptable_lock k.cpu.held ≡ true
    → k.cpu.ncli ≡ 1
    → k.cpu.interrupts ≡ false
    → eqb_Procstate me.state running ≡ false
    → sched caller k
      ≡ ok (
        tt,
        record k {
          procs = set k.procs i (record p {
            pth =
                set p.pth p.on_tidx
                  (record me { context = record { caller = caller; saved_intena = k.cpu.intena } });
          });
        },
      )
unfolding sched mypth holding
sched_lem k i p me caller c e t h n off s = ground arith

doze_lem :
    (k : Kernel) (i : ℕ) (p : Process) (me : Pthread) (chan : ℕ)
    → Active k i p me
    → sleep chan (some ptable_lock) (locked k)
      ≡ ok (tt, record (locked k) { procs = set k.procs i (dozing_in k p me chan) })
unfolding sleep mypth set_proc_state
doze_lem k i p me chan a =
    let q : Process = regrouped p me chan in
    let x : Pthread = record me { chan = chan; state = sleeping } in
    ground (
      arith,
      a.current,
      a.entry,
      a.thread,
      a.free,
      a.depth,
      get_elem?-set_self k.procs i (record p { pth = set p.pth p.on_tidx x }) a.entry,
      set-set k.procs i (record p { pth = set p.pth p.on_tidx x }) q,
      set-set k.procs i q (dozing_in k p me chan),
      set-set p.pth p.on_tidx x (dozing k me chan),
      get_elem?-set_self p.pth p.on_tidx x a.thread,
      sched_lem (record (locked k) { procs = set k.procs i q }) i q x (in_sleep ptable_lock),
      get_elem?-set_self k.procs i q a.entry,
    )

-- The three outcomes of thread_join.
abbrev pub JoinOutcome : Kernel → ℕ → Process → Pthread → ℤ → Type 0
JoinOutcome k i p me tid =
    ((j t : ℕ) × (q : Process) × (th : Pthread) × (get_elem? k.procs j ≡ some q)
      × (get_elem? q.pth t ≡ some th)
      × (th.tid ≡ tid)
      × (th.state ≡ zombie)
      × (thread_join tid k
          ≡ ok (
            joined th.retval,
            record (left k) {
              procs = set k.procs j (record q { pth = set q.pth t (reap_thread th) });
            },
          )))
    ⊎ ((thread_join tid k ≡ ok (no_thread, left k))
        × ((j t : ℕ) (q : Process) (th : Pthread)
            → get_elem? k.procs j ≡ some q
            → get_elem? q.pth t ≡ some th
            → th.tid ≢ tid))
    ⊎ ((thread_join tid k
          ≡ ok
              (asleep, record (locked k) { procs = set k.procs i (dozing_in k p me (to_u32 tid)) }))
        × ((j t : ℕ) × (q : Process) × (th : Pthread) × (get_elem? k.procs j ≡ some q)
            × (get_elem? q.pth t ≡ some th)
            × (th.tid ≡ tid)
            × (th.state ≢ zombie)))

zombie_state : (s : Procstate) → eqb_Procstate s zombie ≡ true → s ≡ zombie
zombie_state zombie h = refl
zombie_state unused h = cc
zombie_state embryo h = cc
zombie_state sleeping h = cc
zombie_state runnable h = cc
zombie_state running h = cc

join_lem :
    (k : Kernel) (i : ℕ) (p : Process) (me : Pthread) (tid : ℤ)
    → Active k i p me
    → thread_join tid k ≡ join_found tid false (find_tid tid 0 k.procs) (locked k)
unfolding thread_join join_turn
join_lem k i p me tid a = ground (arith, a.free, acquire-free ptable_lock k.cpu)

-- thread_join, called by a thread outside every critical section, has three outcomes. It takes a zombie
-- thread with that id out of its list, gives ptable.lock back and returns 0 with the value that the
-- thread has left. Or no thread of the table has the id: it returns -1 and changes no process. Or a
-- thread with the id is not a zombie: the caller sleeps on the id, and its process has the state that
-- set_proc_state finds.
pub thread_join_outcomes :
    (k : Kernel) (i : ℕ) (p : Process) (me : Pthread) (tid : ℤ)
    → Active k i p me
    → JoinOutcome k i p me tid
unfolding join_found
thread_join_outcomes k i p me tid a = elim (Option-cases (find_tid tid 0 k.procs)) [
  | inl e ↦ inr (
      inl (
        rw (join_lem k i p me tid a, e)
            (ground (arith, a.free, release-held ptable_lock (acquired ptable_lock k.cpu))),
        find_tid-none tid 0 k.procs e,
      ))
  | inr ((j, t), e) ↦
      let (n, q, th, f, g, l, s) = find_tid-some tid 0 k.procs j t e in
      let here : get_elem? k.procs j ≡ some q = ground (arith, f, g) in
      elim (Bool-cases (eqb_Procstate th.state zombie)) [
        | inl z ↦ inl (
          j,
          t,
          q,
          th,
          here,
          l,
          s,
          zombie_state th.state z,
          rw (join_lem k i p me tid a, e)
              (ground
                (arith, here, l, z, a.free, release-held ptable_lock (acquired ptable_lock k.cpu))),
        )
        | inr z ↦ inr (
            inr (
              rw (join_lem k i p me tid a, e)
                  (ground (arith, here, l, z, doze_lem k i p me (to_u32 tid) a)),
              (j, t, q, th, here, l, s, λ w. ground (arith, w, z)),
            ))
      ]
]
