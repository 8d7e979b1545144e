-- ===== src/Procs/Exit.antt =====
-- ex_project3/HYU-ELE3021/xv6-public/proc.c: exit, wait, getlev and set_cpu_share.
use operating_system.Common.{
  ℕ, zero, suc, ◌+◌, ◌==◌, ltb, Bool, true, false, not, ◌&&◌, ◌||◌, Option, none, some, List, ◌∷◌,
  if◌then◌else◌, set, map, ℤ, pos, negsuc, pure, ◌>>=◌, ◌>>◌, modify, get, update, branch, panic_if,
}
use operating_system.Mlfq.Spinlock.{ptable_lock}
use operating_system.Mlfq.Proc.{
  Procstate, unused, zombie, eqb_Procstate, Call, kfree, freevm, fileclose, iput, begin_op, end_op,
}
use operating_system.Mlfq.Life.{file_calls}
use operating_system.Mlfq.Exit.{eqb_ptr, no_files}
use operating_system.Stride.State.{Float, nproc}
use operating_system.Stride.Queues.{mlfq_delete, mlfq_cpu_share}
use operating_system.Procs.State.{
  proc_chan, chan_of, in_exit, Thread, Rest, Kernel, Kern, on_sched, lock, unlock, proc_of,
  put_proc, rest_of, put_rest, myproc, nthread,
}
use operating_system.Procs.Switch.{sched, sleep, wakeup1}

-- What the scan of wait finds: the first zombie child, or whether there are children.
pub data Children : Type 0 where
  dead : ℕ → Children
  alive : Bool → Children

abbrev pub end_thread : Procstate → Procstate
end_thread x = if eqb_Procstate x unused then unused else zombie

-- The calls of kfree of the loop over the threads, from thread `t` on.
unfoldable pub free_stacks : (ℕ → ℕ) → ℕ → ℕ → List Call → List Call
free_stacks f zero t cs = cs
free_stacks f (suc n) t cs =
    if f t == 0 then free_stacks f n (t + 1) cs else free_stacks f n (t + 1) (kfree (f t) ∷ cs)

abbrev pub clear_thread : Thread → Thread
clear_thread th = record th { kstack = 0; tid = pos 0 }

unfoldable pub reap : Rest → Rest
reap r = record r {
  kstacks = λ t. if ltb t nthread then 0 else r.kstacks t;
  ustacks = λ t. if ltb t nthread && not (r.kstacks t == 0) then 0 else r.ustacks t;
  thread = λ t. if ltb t nthread then clear_thread (r.thread t) else r.thread t;
  pid = pos 0;
  parent = none;
  name = set r.name 0 0;
}

module _ (fl : Float) where
  -- exit: a turn of the loop that passes abandoned children to init.
  unfoldable pub pass_child : ℕ → ℕ → Kernel fl → Kernel fl
  pass_child cur p k =
      if eqb_ptr (k.more p).parent (some cur)
      then (let j : Kernel fl = record k {
        more = update k.more p (record (k.more p) { parent = k.initproc });
      } in
          if eqb_Procstate (k.sched.proc p).state zombie
          then wakeup1 fl (chan_of k.initproc) j
          else j)
      else k

  unfoldable pub pass_children : ℕ → ℕ → ℕ → Kernel fl → Kernel fl
  pass_children cur zero p k = k
  pass_children cur (suc n) p k = pass_children cur n (p + 1) (pass_child cur p k)

  -- exit of process `p`, before the process becomes a zombie.
  unfoldable pub give_up : ℕ → Kern fl (Unit {0})
  give_up p = do
    k ← get
    panic_if (eqb_ptr (some p) k.initproc) "init exiting"
    r ← rest_of fl p
    modify (λ k. record k {
      calls = end_op ∷ iput r.cwd ∷ begin_op ∷ file_calls fileclose r.ofile k.calls;
    })
    put_rest fl p (record r { ofile = no_files r.ofile; cwd = none })
    lock fl ptable_lock
    modify (λ k. pass_children p nproc 0 (wakeup1 fl (chan_of (k.more p).parent) k))

  -- exit of process `p`, up to the switch.
  abbrev pub exit_of : ℕ → Kern fl (Unit {0})
  exit_of p = do
    give_up p
    q ← proc_of fl p
    put_proc fl p (record q { state = zombie; threads = map end_thread q.threads })
    sched fl in_exit

  unfoldable pub exit : Kern fl (Unit {0})
  exit = do p ← myproc fl; exit_of p

  -- The scan of wait over so many processes from `p` on.
  unfoldable pub find_dead : Kernel fl → ℕ → Bool → ℕ → ℕ → Children
  find_dead k cur havekids zero p = alive havekids
  find_dead k cur havekids (suc n) p =
      let rest = find_dead k cur havekids n (p + 1) in
      let kid = find_dead k cur true n (p + 1) in
      if eqb_ptr (k.more p).parent (some cur)
      then (if eqb_Procstate (k.sched.proc p).state zombie then dead p else kid)
      else rest

  -- The zombie child is freed and leaves the scheduler.
  unfoldable pub bury : ℕ → Kern fl ℤ
  bury p = do
    r ← rest_of fl p
    q ← proc_of fl p
    modify (λ k. record k { calls = freevm r.pgdir ∷ free_stacks r.kstacks nthread 0 k.calls })
    put_rest fl p (reap r)
    put_proc fl p
        (record q { threads = map (λ x. unused) q.threads; killed = false; state = unused })
    on_sched fl (mlfq_delete fl p)
    unlock fl ptable_lock
    pure r.pid

  -- A turn of the endless loop of wait, with ptable.lock held: it returns a value, or falls asleep.
  unfoldable pub wait_on : ℕ → Children → Kern fl (Option ℤ)
  wait_on cur (dead p) = do pid ← bury p; pure (some pid)
  wait_on cur (alive havekids) = do
    q ← proc_of fl cur
    branch (not havekids || q.killed) (do unlock fl ptable_lock; pure (some (negsuc 0)))
        (do sleep fl (proc_chan cur) (some ptable_lock); pure none)

  abbrev pub wait_of : ℕ → Kern fl (Option ℤ)
  wait_of p = do k ← get; wait_on p (find_dead k p false nproc 0)

  unfoldable pub wait_turn : Kern fl (Option ℤ)
  wait_turn = do p ← myproc fl; wait_of p

  -- wait, up to its return or its first sleep; behind each sleep follows `wait_turn`.
  unfoldable pub wait : Kern fl (Option ℤ)
  wait = do lock fl ptable_lock; wait_turn

  abbrev pub level_of : Option ℕ → Kern fl ℤ
  level_of none = pure (negsuc 0)
  level_of (some p) = do q ← proc_of fl p; pure q.level

  unfoldable pub getlev : Kern fl ℤ
  getlev = do k ← get; level_of k.cpu.proc

  -- `true` stands for the result 0, `false` for -1.
  abbrev pub share_of : ℤ → ℕ → Kern fl Bool
  share_of percent p = on_sched fl (mlfq_cpu_share fl p percent)

  unfoldable pub set_cpu_share : ℤ → Kern fl Bool
  set_cpu_share percent = do p ← myproc fl; share_of percent p
