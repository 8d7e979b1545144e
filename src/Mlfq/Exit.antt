-- ===== src/Mlfq/Exit.antt =====
-- xv6-public_project02/proc.c: exit, and wait, which reaps an exited child.
pub mod Orphans
pub mod Laws
pub mod Scan
pub mod Wait
use operating_system.Common.{
  ℕ, suc, zero, Bool, true, false, not, Option, none, some, List, [], ◌∷◌, ◌==◌, if◌then◌else◌, map,
  get_elem?, set, length, ℤ, pos, negsuc, dec_int, pure, ◌>>=◌, ◌>>◌, get, modify, branch, panic_if,
}
use operating_system.Mlfq.Spinlock.{ptable_lock}
use operating_system.Mlfq.Level
use operating_system.Mlfq.Proc.{
  Proc, Kern, Queues, Chan, null, proc_chan, unused, zombie, eqb_Procstate, in_exit, kfree, freevm,
  fileclose, iput, begin_op, end_op, call, proc_at, put_proc, set_queues, lock, unlock, myproc,
}
use operating_system.Mlfq.Life.{file_calls}
use operating_system.Mlfq.Switch.{sched, sleep, wakeup1}

abbrev pub chan_of : Option ℕ → Chan
chan_of none = null
chan_of (some i) = proc_chan i

abbrev pub eqb_ptr : Option ℕ → Option ℕ → Bool
eqb_ptr none none = true
eqb_ptr (some a) (some b) = a == b
eqb_ptr _ _ = false

-- exit: one turn of the loop that passes abandoned children to init.
unfoldable pub pass_child : ℕ → Option ℕ → ℕ → List Proc → List Proc
pass_child cur init j ps = elim (get_elem? ps j) [
  | none ↦ ps
  | some p ↦
      if eqb_ptr p.parent (some cur)
      then (let qs = set ps j (record p { parent = init }) in
          if eqb_Procstate p.state zombie then wakeup1 (chan_of init) qs else qs)
      else ps
]

-- The loop, with the number of turns left.
unfoldable pub pass_children : ℕ → Option ℕ → ℕ → ℕ → List Proc → List Proc
unfolding pass_child
pass_children cur init zero j ps = ps
pass_children cur init (suc n) j ps = pass_children cur init n (suc j) (pass_child cur init j ps)

unfoldable pub retire : Proc → Proc
retire p = record p {
  state = zombie;
  qlev = Level.minus_one;
  seq = negsuc 0;
  tick = negsuc 0;
  priority = negsuc 0;
}

abbrev pub no_files : List (Option ℕ) → List (Option ℕ)
no_files = map (λ f. none)

unfoldable pub leave_queue : Proc → Queues → Queues
unfolding dec_int
leave_queue p q = if p.qlev == Level.moq then record q { moq_sz = dec_int q.moq_sz } else q

-- exit, up to the switch.
unfoldable pub exit : Kern (Unit {0})
unfolding myproc file_calls pass_children retire leave_queue
exit = do
  i ← myproc
  k ← get
  panic_if (eqb_ptr (some i) k.initproc) "init exiting"
  p ← proc_at i
  modify (λ k. record k {
    calls = end_op ∷ iput p.cwd ∷ begin_op ∷ file_calls fileclose p.ofile k.calls;
  })
  put_proc i (record p { ofile = no_files p.ofile; cwd = none })
  lock ptable_lock
  modify (λ k. record k {
    procs = pass_children i k.initproc (length k.procs) 0 (wakeup1 (chan_of p.parent) k.procs);
  })
  p ← proc_at i
  put_proc i (retire p)
  k ← get
  set_queues (leave_queue p k.queues)
  sched in_exit

-- What the scan of wait finds: the first zombie child, or whether there are children.
pub data Children : Type 0 where
  dead : ℕ → Children
  alive : Bool → Children

unfoldable pub find_dead : ℕ → ℕ → Bool → List Proc → Children
find_dead cur j havekids [] = alive havekids
find_dead cur j havekids (p ∷ ps) =
    let rest = find_dead cur (suc j) havekids ps in
    let kid = find_dead cur (suc j) true ps in
    if eqb_ptr p.parent (some cur)
    then (if eqb_Procstate p.state zombie then dead j else kid)
    else rest

unfoldable pub reap : Proc → Proc
reap p = record p {
  kstack = 0;
  pid = pos 0;
  parent = none;
  name = set p.name 0 0;
  killed = false;
  state = unused;
}

-- One turn of the endless loop of wait, with ptable.lock held: it returns a value, or falls asleep.
unfoldable pub wait_on : ℕ → Children → Kern (Option ℤ)
unfolding reap
wait_on i (dead j) = do
  p ← proc_at j
  call (kfree p.kstack)
  call (freevm p.pgdir)
  put_proc j (reap p)
  unlock ptable_lock
  pure (some p.pid)
wait_on i (alive havekids) = do
  p ← proc_at i
  branch (not havekids) (do unlock ptable_lock; pure (some (negsuc 0)))
      (branch p.killed (do unlock ptable_lock; pure (some (negsuc 0)))
        (do sleep (proc_chan i) (some ptable_lock); pure none))

unfoldable pub wait_turn : Kern (Option ℤ)
unfolding wait_on find_dead myproc
wait_turn = do i ← myproc; k ← get; wait_on i (find_dead i 0 false k.procs)

-- wait, up to its return or its first sleep; behind each sleep follows `wait_turn`.
unfoldable pub wait : Kern (Option ℤ)
unfolding wait_turn
wait = do lock ptable_lock; wait_turn
