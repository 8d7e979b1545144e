-- ===== src/Stride/Turns.antt =====
-- mlfq_scheduler of ex_project3/HYU-ELE3021/xv6-public/mlfq.c: a round of its loop in two parts, up to
-- swtch and behind it. What runs between them is not part of the functions.
use operating_system.Common.{
  ℕ, ◌+◌, ◌-◌, ◌%◌, ◌^◌, ltb, Option, none, some, set, get_elem?, M, pure, fault, ◌>>=◌, ◌>>◌, get,
  modify, branch, update,
}
use operating_system.Mlfq.Proc.{Procstate, runnable, running, eqb_Procstate}
use operating_system.Stride.State.{Float, Proc, Client, nobody, feedback, client, Sched}
use operating_system.Stride.Tickets.{stride_next}
use operating_system.Stride.Queues.{Verdict, next, keep, charge, mlfq_update, mlfq_next, mlfq_boost}

-- The local variables of mlfq_scheduler that outlive a round.
pub record Locals : Type 0 where
  pub keep_it : Verdict
  pub cur : Option ℕ
  pub idx : ℕ
  pub boost : ℕ
  pub boostunit : ℕ

abbrev pub thread_or : ℕ → Option ℕ → ℕ
thread_or idx none = idx
thread_or idx (some t) = t

abbrev pub idx_after : ℕ → Option (ℕ × ℕ) → ℕ
idx_after idx none = idx
idx_after idx (some (p, t)) = t

module _ (fl : Float) where
  abbrev pub set_proc : ℕ → Proc → Sched fl → Sched fl
  set_proc p x s = record s { proc = update s.proc p x }

  -- Whom the client stands for that stride_next has returned, with the index of the thread.
  abbrev pub resolve : ℕ → Client → Option ℕ → M (Sched fl) (Option (ℕ × ℕ))
  resolve idx nobody t = pure none
  resolve idx feedback t = mlfq_next fl
  resolve idx (client p) t = pure (some (p, thread_or idx t))

  -- The choice, and what the variable idx holds after it.
  unfoldable pub choose_anew : ℕ → M (Sched fl) (Option (ℕ × ℕ) × ℕ)
  choose_anew idx = do
    c ← stride_next fl
    s ← get
    r ← resolve idx (s.stride.queue c.place) c.thread
    pure (r, idx_after idx r)

  abbrev pub stay_or : ℕ → ℕ → ℕ → Option Procstate → M (Sched fl) (Option (ℕ × ℕ) × ℕ)
  stay_or idx p t none = λ s. fault
  stay_or idx p t (some x) =
      branch (eqb_Procstate x runnable) (pure (some (p, t), idx)) (choose_anew idx)

  abbrev pub stay : ℕ → Option ℕ → M (Sched fl) (Option (ℕ × ℕ) × ℕ)
  stay idx none s = fault
  stay idx (some p) s =
      stay_or idx p (s.proc p).tidx (get_elem? (s.proc p).threads (s.proc p).tidx) s

  -- The process that goes on or that is chosen.
  abbrev pub choose : Verdict → Option ℕ → ℕ → M (Sched fl) (Option (ℕ × ℕ) × ℕ)
  choose next cur idx = choose_anew idx
  choose keep cur idx = stay idx cur

  -- The thread is set to RUNNING and the time is noted.
  unfoldable pub dispatch : ℕ → ℕ → ℕ → Sched fl → Sched fl
  dispatch now p t s =
      set_proc p
        (record (s.proc p) { tidx = t; threads = set (s.proc p).threads t running; start = now }) s

  abbrev pub start_or_idle : ℕ → Locals → Option (ℕ × ℕ) → M (Sched fl) Locals
  start_or_idle now v none = do modify (charge fl 0); pure (record v { keep_it = next; cur = none })
  start_or_idle now v (some (p, t)) = do modify (dispatch now p t); pure (record v { cur = some p })

  -- A round up to swtch, at time `now`; where nothing is runnable the round ends, and `cur` is null.
  unfoldable pub before_switch : ℕ → Locals → M (Sched fl) Locals
  before_switch now v = do
    (c, i) ← choose v.keep_it v.cur v.idx
    start_or_idle now (record v { idx = i }) c

  unfoldable pub add_elapsed : ℕ → ℕ → ℕ → Sched fl → Sched fl
  add_elapsed p start end_time s =
      set_proc p
        (record (s.proc p) {
          elapsed = ((s.proc p).elapsed + ((end_time + 2 ^ 32 - start) % 2 ^ 32)) % 2 ^ 32;
        })
        s

  -- A round behind swtch.
  unfoldable pub after_switch : ℕ → ℕ → ℕ → Locals → M (Sched fl) Locals
  after_switch p start end_time v = do
    modify (add_elapsed p start end_time)
    k ← mlfq_update fl p end_time
    let w : Locals = record v { keep_it = k; cur = some p }
    branch (ltb v.boost end_time)
        (do mlfq_boost fl; pure (record w { boost = (v.boost + v.boostunit) % 2 ^ 32 })) (pure w)
