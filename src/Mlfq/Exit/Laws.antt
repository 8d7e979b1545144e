-- ===== src/Mlfq/Exit/Laws.antt =====
-- The whole of exit, and one turn of wait, in xv6-public_project02/proc.c.
use operating_system.Common.{
  ℕ, ◌≡◌, ◌≢◌, inl, inr, refl, sym, ◌∙◌, true, none, some, List, ◌∷◌, ◌==◌, get_elem?, set, count,
  count-set, length, length-set, get_elem?-set_self, get_elem?-set_ne, get_elem?_of_lt,
  lt_of_get_elem?, set-set, dec_int, ok, arith, Bool-cases,
}
use operating_system.Mlfq.Spinlock.{ptable_lock, is_held}
use operating_system.Mlfq.Spinlock.Laws.{acquired, acquire-free}
use operating_system.Mlfq.Proc.{Proc, Kernel, in_exit, iput, begin_op, end_op, fileclose, zombie}
use operating_system.Mlfq.Switch.{wakeup1}
use operating_system.Mlfq.Switch.Laws.{Outside, sched_lem}
use operating_system.Mlfq.Queue.Count.{in_moq, Counted}
use operating_system.Mlfq.Life.{file_calls}
use operating_system.Mlfq.Exit.{chan_of, no_files, pass_children, retire, leave_queue, exit}
use operating_system.Mlfq.Exit.Orphans.{
  eqb_ptr_iff, length-wakeup1, count-wakeup1, length-pass_children, count-pass_children,
  pass_children-NoChild,
}

-- The table behind the loops of exit, for the process `p` at index `i`.
abbrev pub closed : Proc → Proc
closed p = record p { ofile = no_files p.ofile; cwd = none }

abbrev pub passed_on : Kernel → ℕ → Proc → List Proc
passed_on k i p =
    pass_children i k.initproc (length (set k.procs i (closed p))) 0
      (wakeup1 (chan_of p.parent) (set k.procs i (closed p)))

abbrev pub gone : Kernel → Proc → Proc
gone k q = record (retire q) {
  context = record { caller = in_exit; saved_intena = k.cpu.interrupts };
}

abbrev pub exited : Kernel → ℕ → Proc → Proc → Kernel
exited k i p q = record k {
  cpu = acquired ptable_lock k.cpu;
  calls = end_op ∷ iput p.cwd ∷ begin_op ∷ file_calls fileclose p.ofile k.calls;
  procs = set (passed_on k i p) i (gone k q);
  queues = leave_queue q k.queues;
}

pub exit_lem :
    (k : Kernel) (i : ℕ) (p q : Proc)
    → Outside k i p
    → k.initproc ≢ some i
    → get_elem? (passed_on k i p) i ≡ some q
    → exit k ≡ ok (tt, exited k i p q)
unfolding exit
exit_lem k i p q o n e = ground (
  arith,
  o.current,
  eqb_ptr_iff (some i) k.initproc,
  acquire-free ptable_lock k.cpu,
  get_elem?-set_self k.procs i (closed p) o.entry,
  get_elem?-set_self (passed_on k i p) i (retire q) e,
  set-set (passed_on k i p) i (retire q) (gone k q),
  sched_lem
      (record k {
        cpu = acquired ptable_lock k.cpu;
        calls = end_op ∷ iput p.cwd ∷ begin_op ∷ file_calls fileclose p.ofile k.calls;
        procs = set (passed_on k i p) i (retire q);
        queues = leave_queue q k.queues;
      })
      i (retire q) in_exit,
)

count-passed_on :
    (k : Kernel) (i : ℕ) (p : Proc)
    → get_elem? k.procs i ≡ some p
    → count in_moq (passed_on k i p) ≡ count in_moq k.procs
count-passed_on k i p e = ground (
  arith,
  count-pass_children i k.initproc (length (set k.procs i (closed p))) 0
      (wakeup1 (chan_of p.parent) (set k.procs i (closed p))),
  count-wakeup1 (chan_of p.parent) (set k.procs i (closed p)),
  count-set in_moq k.procs i (closed p) p e,
)

length-passed_on : (k : Kernel) (i : ℕ) (p : Proc) → length (passed_on k i p) ≡ length k.procs
length-passed_on k i p =
    length-pass_children i k.initproc (length (set k.procs i (closed p))) 0
      (wakeup1 (chan_of p.parent) (set k.procs i (closed p)))
    ∙ length-wakeup1 (chan_of p.parent) (set k.procs i (closed p))
    ∙ length-set k.procs i (closed p)

exited-Counted :
    (k : Kernel) (i : ℕ) (p q : Proc)
    → get_elem? k.procs i ≡ some p
    → get_elem? (passed_on k i p) i ≡ some q
    → Counted k.procs k.queues
    → Counted (exited k i p q).procs (exited k i p q).queues
unfolding leave_queue dec_int retire
exited-Counted k i p q e f c =
    ground (arith, c, count-passed_on k i p e, count-set in_moq (passed_on k i p) i (gone k q) q f)

-- No entry names process `i` as its parent, after exit.
exited-NoChild :
    (k : Kernel) (i : ℕ) (p q : Proc)
    → k.initproc ≢ some i
    → get_elem? (passed_on k i p) i ≡ some q
    → (j : ℕ) (r : Proc) → get_elem? (exited k i p q).procs j ≡ some r
    → r.parent ≢ some i
unfolding retire
exited-NoChild k i p q n e j r g = elim (Bool-cases (i == j)) [
  | inl s ↦
      let same : i ≡ j = ground arith in
      let mine : gone k q ≡ r =
        ground (arith, same, get_elem?-set_self (passed_on k i p) i (gone k q) e) in
      λ t. none_left i q e (ground (arith, mine))
  | inr d ↦
      let apart : i ≢ j = ground arith in
      none_left j r (sym (get_elem?-set_ne (passed_on k i p) i j (gone k q) apart) ∙ g)
]
  where
    none_left : (j : ℕ) (r : Proc) → get_elem? (passed_on k i p) j ≡ some r → r.parent ≢ some i
    none_left j r g =
        pass_children-NoChild i k.initproc (length (set k.procs i (closed p))) 0
          (wakeup1 (chan_of p.parent) (set k.procs i (closed p))) n (λ a b lt. absurd (omega arith))
          j r
          (omega (
            arith,
            lt_of_get_elem? (passed_on k i p) j g,
            length-passed_on k i p,
            length-set k.procs i (closed p),
          ))
          g

-- exit of a process other than init, outside every critical section, runs up to its switch without a
-- panic. It leaves the process a zombie, no entry of the table with this process as its parent,
-- ptable.lock held, and MoQ_sz equal to the number of entries in the monopoly queue, if it was so
-- before.
pub exit-Counted :
    (k : Kernel) (i : ℕ) (p : Proc)
    → Outside k i p
    → k.initproc ≢ some i
    → Counted k.procs k.queues
    → (r : Kernel) × (z : Proc) × (exit k ≡ ok (tt, r))
      × (get_elem? r.procs i ≡ some z)
      × (z.state ≡ zombie)
      × ((j : ℕ) (c : Proc) → get_elem? r.procs j ≡ some c → c.parent ≢ some i)
      × (is_held ptable_lock r.cpu.held ≡ true)
      × Counted r.procs r.queues
unfolding retire
exit-Counted k i p o n c =
    let (q, e) =
      get_elem?_of_lt (passed_on k i p) i
        (omega (arith, lt_of_get_elem? k.procs i o.entry, length-passed_on k i p)) in
    (
      exited k i p q,
      gone k q,
      exit_lem k i p q o n e,
      get_elem?-set_self (passed_on k i p) i (gone k q) e,
      refl,
      exited-NoChild k i p q n e,
      refl,
      exited-Counted k i p q o.entry e c,
    )
