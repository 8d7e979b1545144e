-- ===== src/Stride/Queues.antt =====
-- The functions mlfq_init to mlfq_yieldable of ex_project3/HYU-ELE3021/xv6-public/mlfq.c.
use operating_system.Common.{
  ℕ, zero, suc, ◌+◌, ◌-◌, ◌*◌, ◌%◌, ◌^◌, ◌==◌, ltb, leb, Bool, true, false, not, ◌&&◌, ◌||◌, Option,
  none, some, if◌then◌else◌, ℤ, pos, negsuc, eqb_ℤ, ltb_ℤ, to_u32, M, pure, fault, ok, crash, stop,
  panic, ◌>>=◌, ◌>>◌, get, modify, branch, update,
}
use operating_system.Mlfq.Proc.{zombie, eqb_Procstate}
use operating_system.Stride.State.{
  Float, nproc, nmlfq, Proc, Sched, is_none, find_place, find_runnable,
}
use operating_system.Stride.Tickets.{stride_init, stride_append, stride_delete, stride_update}

-- MLFQ_NEXT and MLFQ_KEEP.
pub data Verdict : Type 0 where
  next keep : Verdict

-- What the loop of mlfq_next over one level finds: a runnable process with its place and its thread, or
-- none. The loop of the model has a bound on its rounds.
pub data Picked : Type 0 where
  picked : ℕ → ℕ → ℕ → Picked
  none_ready : Picked
  out_of_rounds : Picked

abbrev pub with_thread : ℕ → Option ℕ → Option (ℕ × ℕ)
with_thread p none = none
with_thread p (some t) = some (p, t)

abbrev pub pick_or : ℕ → Option (ℕ × ℕ) → Picked → Picked
pick_or i none rest = rest
pick_or i (some (p, t)) rest = picked i p t

-- An index of an array of so many entries.
abbrev pub in_bounds : ℤ → ℕ → Bool
in_bounds i n = not (ltb_ℤ i (pos 0)) && ltb_ℤ i (pos n)

-- One more round than a level has places.
abbrev pub level_rounds : ℕ
level_rounds = 65

module _ (fl : Float) where
  unfoldable pub mlfq_init : (ℕ → Proc) → Sched fl
  unfolding stride_init
  mlfq_init procs = record {
    proc = procs;
    quantum = λ i. if i == 0 then 5 else if i == 1 then 10 else if i == 2 then 20 else 0;
    expire = λ i. if i == 0 then 20 else if i == 1 then 40 else if i == 2 then 200 else 0;
    queue = λ l i. none;
    iterstate = λ i. 0;
    stride = stride_init fl;
  }

  abbrev pub put_queue : ℕ → ℕ → Option ℕ → Sched fl → Sched fl
  put_queue l i e s = record s { queue = update s.queue l (update (s.queue l) i e) }

  -- mlfq_append behind the search.
  unfoldable pub enqueue : ℕ → ℕ → ℕ → Sched fl → Sched fl
  enqueue p level i s = record (put_queue level i (some p) s) {
    proc = update s.proc p (record (s.proc p) { level = pos level; index = i; elapsed = 0 });
  }

  abbrev pub enqueue_at : ℕ → ℕ → Option ℕ → M (Sched fl) Bool
  enqueue_at p level none s = ok (false, s)
  enqueue_at p level (some i) s = ok (true, enqueue p level i s)

  -- `true` stands for MLFQ_SUCCESS, `false` for MLFQ_FULL_QUEUE.
  unfoldable pub mlfq_append : ℕ → ℕ → M (Sched fl) Bool
  mlfq_append p level s = enqueue_at p level (find_place (λ i. is_none (s.queue level i)) nproc 0) s

  -- The store of null to queue[level][index]. The struct is one piece of memory, in which the array expire
  -- stands in front of queue and quantum in front of expire: row -1 of queue is expire, and row -2 quantum.
  unfoldable pub clear_place : ℤ → ℕ → M (Sched fl) (Unit {0})
  clear_place (negsuc zero) i s =
      if ltb i nproc then ok (tt, record s { expire = update s.expire i 0 }) else fault
  clear_place (negsuc (suc zero)) i s =
      if ltb i nproc then ok (tt, record s { quantum = update s.quantum i 0 }) else fault
  clear_place (negsuc (suc (suc l))) i s = fault
  clear_place (pos l) i s =
      if ltb l nmlfq && ltb i nproc then ok (tt, put_queue l i none s) else fault

  -- `true` stands for the result 0, `false` for -1.
  unfoldable pub mlfq_cpu_share : ℕ → ℤ → M (Sched fl) Bool
  mlfq_cpu_share p usage = do
    s ← get
    done ← stride_append fl p usage
    branch done (do clear_place (s.proc p).level (s.proc p).index; pure true) (pure false)

  unfoldable pub mlfq_delete : ℕ → M (Sched fl) (Unit {0})
  mlfq_delete p s =
      if eqb_ℤ (s.proc p).level (negsuc 0)
      then ok (tt, stride_delete fl p s)
      else clear_place (s.proc p).level (s.proc p).index s

  abbrev pub charge : ℕ → Sched fl → Sched fl
  charge idx s = record s { stride = stride_update fl idx s.stride }

  -- mlfq_update for a process of level `l`, behind the update of the feedback queue's pass.
  unfoldable pub update_level : ℕ → ℕ → ℕ → M (Sched fl) Verdict
  update_level p l ctime = do
    s ← get
    branch (ltb (l + 1) nmlfq && leb (s.expire l) (s.proc p).elapsed)
        (do
          done ← mlfq_append p (l + 1)
          branch done (do clear_place (pos l) (s.proc p).index; pure next)
              (stop "mlfq: level elevation failed"))
        (pure
          (if ltb ((ctime + 2 ^ 32 - (s.proc p).start) % 2 ^ 32) (s.quantum l) then keep else next))

  unfoldable pub update_queued : ℕ → ℕ → ℤ → M (Sched fl) Verdict
  update_queued p ctime (pos l) = do modify (charge 0); update_level p l ctime
  update_queued p ctime (negsuc l) = crash

  unfoldable pub mlfq_update : ℕ → ℕ → M (Sched fl) Verdict
  mlfq_update p ctime = do
    s ← get
    branch (eqb_Procstate (s.proc p).state zombie || (s.proc p).killed) (pure next) (
        branch (eqb_ℤ (s.proc p).level (negsuc 0)) (do modify (charge (s.proc p).index); pure next)
          (update_queued p ctime (s.proc p).level))

  -- The process of an entry and its first runnable thread.
  abbrev pub ready_in : Sched fl → Option ℕ → Option (ℕ × ℕ)
  ready_in s none = none
  ready_in s (some p) = with_thread p (find_runnable 0 (s.proc p).threads)

  -- The loop of mlfq_next over level `l`, from the place behind `from`.
  unfoldable pub scan_level : Sched fl → ℕ → ℕ → ℕ → Bool → ℕ → Picked
  scan_level s l from zero flag iter = out_of_rounds
  scan_level s l from (suc n) flag iter =
      let i : ℕ = if iter == nproc then 0 else iter in
      let rest = scan_level s l from n false (i + 1) in
      if flag || not (iter == from + 1)
      then pick_or i (ready_in s (s.queue l i)) rest
      else none_ready

  abbrev pub settle_level :
      ℕ → Picked → M (Sched fl) (Option (ℕ × ℕ)) → M (Sched fl) (Option (ℕ × ℕ))
  settle_level l (picked i p t) rest s =
      ok (some (p, t), record s { iterstate = update s.iterstate l i })
  settle_level l none_ready rest s = rest s
  settle_level l out_of_rounds rest s = fault

  -- The loop over the levels; the result is a process and the index of its thread.
  unfoldable pub next_from : ℕ → ℕ → M (Sched fl) (Option (ℕ × ℕ))
  next_from zero l s = ok (none, s)
  next_from (suc n) l s =
      settle_level l (scan_level s l (s.iterstate l) level_rounds true (s.iterstate l + 1))
        (next_from n (l + 1)) s

  unfoldable pub mlfq_next : M (Sched fl) (Option (ℕ × ℕ))
  mlfq_next = next_from nmlfq 0

  abbrev pub raise_to : ℕ → ℕ → ℕ → Option ℕ → M (Sched fl) ℕ
  raise_to l i p none s = panic "mlfq boost: could not find empty space of toplevel queue"
  raise_to l i p (some j) s = ok (j, put_queue l i none (enqueue p 0 j s))

  -- The body of mlfq_boost at an entry; its inner loop goes on from the place `top` of level 0.
  unfoldable pub boost_entry : ℕ → ℕ → ℕ → Option ℕ → M (Sched fl) ℕ
  boost_entry l i top none s = ok (top, s)
  boost_entry l i top (some p) s =
      raise_to l i p (find_place (λ j. is_none (s.queue 0 j)) (nproc - top) top) s

  -- The outer loop, over so many places from place `i` of level `l` on; a row follows the other.
  unfoldable pub boost_from : ℕ → ℕ → ℕ → ℕ → M (Sched fl) (Unit {0})
  boost_from zero l i top s = ok (tt, s)
  boost_from (suc n) l i top s =
      (do
        j ← boost_entry l i top (s.queue l i)
        boost_from n (if i + 1 == nproc then l + 1 else l) (if i + 1 == nproc then 0 else i + 1) j)
        s

  unfoldable pub mlfq_boost : M (Sched fl) (Unit {0})
  mlfq_boost = boost_from ((nmlfq - 1) * nproc) 1 0 0

  -- The second test of mlfq_yieldable, which reads the array at the level. The array is the first of the
  -- struct: in front of it stands nothing of the scheduler.
  abbrev pub slice_over : ℤ → ℕ → Sched fl → M (Sched fl) Bool
  slice_over level dur t s =
      if in_bounds level nproc then ok (leb (t.quantum (to_u32 level)) dur, s) else fault

  -- `dur` is an int that is compared with unsigned numbers.
  unfoldable pub mlfq_yieldable : ℕ → ℕ → M (Sched fl) Bool
  mlfq_yieldable p uptime s =
      let dur : ℕ = (uptime + 2 ^ 32 - (s.proc p).start) % 2 ^ 32 in
      if eqb_ℤ (s.proc p).level (negsuc 0) && leb s.stride.quantum dur
      then ok (true, s)
      else slice_over (s.proc p).level dur s s
